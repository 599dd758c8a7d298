-- ===== src/Base/Dict.antt =====
-- Python's `dict` as its list of items, in the order of insertion, for keys with a test of equality.
use mathlib.Core.Path.{◌≡◌, refl, sym, subst}
use mathlib.Core.Logic.{◌↔◌, inl, inr}
use mathlib.Core.Bool.{Bool, true, false}
use mathlib.Core.List.{List, [], ◌∷◌}
use mathlib.Core.Option.{Option, none, some}
use fleet_flow.Base.Tests.{if◌then◌else◌, Bool-cases}

module _ {ℓ κ} {K : Type ℓ} {V : Type κ} (eq : K → K → Bool) where
  -- `d.get(k)`
  unfoldable pub get : List (K × V) → K → Option V
  get [] k = none
  get ((j, v) ∷ d) k = let rest = get d k in if eq j k then some v else rest

  -- `d[k] = v`: in place, or at the end
  unfoldable pub set : List (K × V) → K → V → List (K × V)
  set [] k v = (k, v) ∷ []
  set ((j, u) ∷ d) k v = let rest = set d k v in if eq j k then (j, v) ∷ d else (j, u) ∷ rest

  -- `d.pop(k, None)`
  unfoldable pub pop : List (K × V) → K → List (K × V)
  pop [] k = []
  pop ((j, u) ∷ d) k = let rest = pop d k in if eq j k then rest else (j, u) ∷ rest

  module _ (eq_iff : (a b : K) → (eq a b ≡ true) ↔ (a ≡ b)) where
    pub get-set_here : (d : List (K × V)) (k : K) (v : V) → get (set d k v) k ≡ some v
    unfolding get set
    get-set_here [] k v = rw ((eq_iff k k).1 refl)
    get-set_here ((i, u) ∷ d) k v = elim (Bool-cases (eq i k)) [
      | inl e ↦ rw (e, e)
      | inr e ↦ rw (e, e) (get-set_here d k v)
    ]

    pub get-set_other :
        (d : List (K × V)) (k : K) (v : V) (j : K) → eq k j ≡ false → get (set d k v) j ≡ get d j
    unfolding get set
    get-set_other [] k v j h = rw h
    get-set_other ((i, u) ∷ d) k v j h = elim (Bool-cases (eq i k)) [
      | inl e ↦
          let same : eq i j ≡ false = subst (λ x. eq x j ≡ false) (sym ((eq_iff i k).0 e)) h in
          rw (e, same)
      | inr e ↦ elim (Bool-cases (eq i j)) [
        | inl f ↦ rw (e, f)
        | inr f ↦ rw (e, f) (get-set_other d k v j h)
      ]
    ]

    pub get-pop_here : (d : List (K × V)) (k : K) → get (pop d k) k ≡ none
    unfolding get pop
    get-pop_here [] k = refl
    get-pop_here ((i, u) ∷ d) k = elim (Bool-cases (eq i k)) [
      | inl e ↦ rw e (get-pop_here d k)
      | inr e ↦ rw (e, e) (get-pop_here d k)
    ]

    pub get-pop_other : (d : List (K × V)) (k j : K) → eq k j ≡ false → get (pop d k) j ≡ get d j
    unfolding get pop
    get-pop_other [] k j h = refl
    get-pop_other ((i, u) ∷ d) k j h = elim (Bool-cases (eq i k)) [
      | inl e ↦
          let same : eq i j ≡ false = subst (λ x. eq x j ≡ false) (sym ((eq_iff i k).0 e)) h in
          rw (e, same) (get-pop_other d k j h)
      | inr e ↦ elim (Bool-cases (eq i j)) [
        | inl f ↦ rw (e, f)
        | inr f ↦ rw (e, f) (get-pop_other d k j h)
      ]
    ]
