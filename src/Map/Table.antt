-- ===== src/Map/Table.antt =====
-- What the table of distances promises to the scheduler, checked on all pairs of cities.
use fleet_flow.Base.{
  ℕ, ◌<◌, ◌≡◌, refl, ap, ◌≢◌, Bool, true, false, ◌&&◌, ◌||◌, List, [], ◌∷◌, arith, ltb, ◌==◌,
  text_eq, text_eq_iff, contains, inl, inr, Bool-cases,
}
use mathlib.Core.Path.{subst}
use fleet_flow.Result.{Result, ok, err}
use fleet_flow.Location.{LocationCode, str, location_code}
use fleet_flow.Location.Laws.{IsCanonical}
use fleet_flow.Map.{get_locations, get_distance}

all_of : (LocationCode → Bool) → List LocationCode → Bool
all_of p [] = true
all_of p (x ∷ xs) = p x && all_of p xs

all_of-contains :
    (p : LocationCode → Bool) (xs : List LocationCode) (k : LocationCode)
    → all_of p xs ≡ true
    → contains k xs ≡ true
    → p k ≡ true
unfolding all_of contains
all_of-contains p [] k h c = cc
all_of-contains p (x ∷ xs) k h c = elim (Bool-cases (text_eq x k)) [
  | inl e ↦ let px : p x ≡ true = ground arith in subst (λ y. p y ≡ true) ((text_eq_iff x k).0 e) px
  | inr e ↦ ground (arith, all_of-contains p xs k)
]

abbrev same_distance : Result ℕ → Result ℕ → Bool
same_distance (ok d) (ok e) = (d == e) && ltb 0 d
same_distance _ _ = false

abbrev joined : LocationCode → LocationCode → Bool
joined a b =
    text_eq a b || same_distance (get_distance (str a) (str b)) (get_distance (str b) (str a))

all_joined : all_of (λ a. all_of (joined a) get_locations) get_locations ≡ true
unfolding all_of get_distance
all_joined = refl

all_canonical :
    all_of (λ a. elim (location_code (str a)) [ ok c ↦ text_eq c a | err _ ↦ false ]) get_locations
    ≡ true
unfolding all_of location_code text_eq
all_canonical = refl

-- A supported code is canonical.
pub IsCanonical-of_known : (a : LocationCode) → contains a get_locations ≡ true → IsCanonical a
IsCanonical-of_known a h =
    go (location_code (str a)) (all_of-contains _ get_locations a all_canonical h)
  where
    go :
        (r : Result LocationCode)
        → (elim r [ ok c ↦ text_eq c a | err _ ↦ false ]) ≡ true
        → r ≡ ok a
    go (ok c) e = ap ok ((text_eq_iff c a).0 e)
    go (err x) e = cc

-- Two different supported cities are joined: `get_distance` returns a positive distance, and the
-- same one in the other direction.
pub get_distance_known :
    (a b : LocationCode)
    → contains a get_locations ≡ true
    → contains b get_locations ≡ true
    → a ≢ b
    → (d : ℕ) × (get_distance (str a) (str b) ≡ ok d)
      × (get_distance (str b) (str a) ≡ ok d)
      × (0 < d)
get_distance_known a b ha hb ne =
    go (get_distance (str a) (str b)) (get_distance (str b) (str a))
      (ground (arith, pair, text_eq_iff a b))
  where
    pair : joined a b ≡ true
    pair = all_of-contains (joined a) _ b (all_of-contains _ _ a all_joined ha) hb

    go : (r s : Result ℕ) → same_distance r s ≡ true → (d : ℕ) × (r ≡ ok d) × (s ≡ ok d) × (0 < d)
    go (ok d) (ok e) h = (d, refl, ground arith, ground arith)
    go (ok d) (err x) h = cc
    go (err x) s h = cc
