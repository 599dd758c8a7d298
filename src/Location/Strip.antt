-- ===== src/Location/Strip.antt =====
-- `strip` is idempotent, and it does not see a change of case.
use fleet_flow.Base.{ℕ, ◌≡◌, refl, ap, ◌∙◌, false, [], ◌∷◌, map, Text, inl, inr, Bool-cases}
use fleet_flow.Location.{is_space, lstrip, cons_stripped, rstrip, strip}

module _ (f : ℕ → ℕ) (same : (c : ℕ) → is_space (f c) ≡ is_space c) where
  cons_stripped-map : (c : ℕ) (s : Text) → cons_stripped (f c) (map f s) ≡ map f (cons_stripped c s)
  unfolding is_space
  cons_stripped-map c [] = elim (Bool-cases (is_space c)) [
    | inl e ↦ rw (same c, e)
    | inr e ↦ rw (same c, e)
  ]
  cons_stripped-map c (d ∷ s) = refl

  lstrip-map : (s : Text) → lstrip (map f s) ≡ map f (lstrip s)
  unfolding lstrip
  lstrip-map [] = refl
  lstrip-map (c ∷ s) = elim (Bool-cases (is_space c)) [
    | inl e ↦ rw (same c, e) (lstrip-map s)
    | inr e ↦ rw (same c, e)
  ]

  rstrip-map : (s : Text) → rstrip (map f s) ≡ map f (rstrip s)
  unfolding rstrip
  rstrip-map [] = refl
  rstrip-map (c ∷ s) = ap (cons_stripped (f c)) (rstrip-map s) ∙ cons_stripped-map c (rstrip s)

  pub strip-map : (s : Text) → strip (map f s) ≡ map f (strip s)
  unfolding strip
  strip-map s = ap rstrip (lstrip-map s) ∙ rstrip-map (lstrip s)

-- A stripped text does not begin with a space.
abbrev NoLeadingSpace : Text → Type 0
NoLeadingSpace [] = Unit
NoLeadingSpace (c ∷ s) = is_space c ≡ false

lstrip-NoLeadingSpace : (s : Text) → NoLeadingSpace (lstrip s)
unfolding lstrip
lstrip-NoLeadingSpace [] = tt
lstrip-NoLeadingSpace (c ∷ s) = elim (Bool-cases (is_space c)) [
  | inl e ↦ rw e (lstrip-NoLeadingSpace s)
  | inr e ↦ rw e e
]

lstrip_fixed : (s : Text) → NoLeadingSpace s → lstrip s ≡ s
unfolding lstrip
lstrip_fixed [] h = refl
lstrip_fixed (c ∷ s) h = rw h

rstrip-NoLeadingSpace : (s : Text) → NoLeadingSpace s → NoLeadingSpace (rstrip s)
unfolding rstrip
rstrip-NoLeadingSpace [] h = tt
rstrip-NoLeadingSpace (c ∷ s) h = go (rstrip s)
  where
    go : (r : Text) → NoLeadingSpace (cons_stripped c r)
    go [] = rw h h
    go (d ∷ r) = h

rstrip-cons_stripped :
    (c : ℕ) (r : Text) → rstrip r ≡ r → rstrip (cons_stripped c r) ≡ cons_stripped c r
unfolding rstrip
rstrip-cons_stripped c [] h = elim (Bool-cases (is_space c)) [ inl e ↦ rw e | inr e ↦ rw (e, e) ]
rstrip-cons_stripped c (d ∷ r) h = ap (cons_stripped c) h

rstrip-rstrip : (s : Text) → rstrip (rstrip s) ≡ rstrip s
unfolding rstrip
rstrip-rstrip [] = refl
rstrip-rstrip (c ∷ s) = rstrip-cons_stripped c (rstrip s) (rstrip-rstrip s)

pub strip-strip : (s : Text) → strip (strip s) ≡ strip s
unfolding strip
strip-strip s =
    ap rstrip (lstrip_fixed _ (rstrip-NoLeadingSpace _ (lstrip-NoLeadingSpace s)))
    ∙ rstrip-rstrip (lstrip s)

pub strip_nil : strip [] ≡ []
unfolding strip lstrip rstrip
strip_nil = refl
