-- ===== src/Load/Bounds.antt =====
-- The maximum segment load is a bound for every segment, and one segment reaches it.
use fleet_flow.Base.{
  ℕ, zero, suc, ◌+◌, ◌-◌, ◌≤◌, ◌<◌, ◌≡◌, refl, sym, ap, List, [], ◌∷◌, ◌++◌, Option, none, some,
  arith, ltb, if◌then◌else◌, length, get_elem?, ◌⊎◌, inl, inr, Bool-cases,
}
use fleet_flow.Location.{LocationCode}
use fleet_flow.Weight.{Weight}
use fleet_flow.Load.{PackageLoad, greatest_from, greatest, with_extra, maximum_segment_load}
use fleet_flow.Load.Segments.{load_from, loads_between, maximum_segment_load-eq-greatest}

greatest_from-ge : (m : Weight) (xs : List Weight) → m ≤ greatest_from m xs
greatest_from-ge m [] = omega arith
greatest_from-ge m (x ∷ xs) = ground (arith, greatest_from-ge x xs, greatest_from-ge m xs)

greatest_from-ge_item :
    (m : Weight) (xs : List Weight) (i : ℕ) {x : Weight}
    → get_elem? xs i ≡ some x
    → x ≤ greatest_from m xs
greatest_from-ge_item m [] i h = cc
greatest_from-ge_item m (y ∷ xs) zero h =
    ground (arith, greatest_from-ge y xs, greatest_from-ge m xs)
greatest_from-ge_item m (y ∷ xs) (suc i) h = greatest_from-ge_item (if ltb m y then y else m) xs i h

-- The result is the start or an item.
greatest_from-item :
    (m : Weight) (xs : List Weight)
    → (greatest_from m xs ≡ m) ⊎ ((i : ℕ) × (get_elem? xs i ≡ some (greatest_from m xs)))
greatest_from-item m [] = inl refl
greatest_from-item m (y ∷ xs) = elim (greatest_from-item (if ltb m y then y else m) xs) [
  | inl e ↦ elim (Bool-cases (ltb m y)) [
    | inl t ↦ inr (0, rw t (rw t at (ap some (sym e))))
    | inr f ↦ inl (rw f (rw f at e))
  ]
  | inr (i, e) ↦ inr (suc i, e)
]

-- The load of segment `s`: the weights of the packages on it, added in their order.
abbrev pub segment_load : List LocationCode → List PackageLoad → ℕ → Weight
segment_load locations ps s = load_from locations s 0 ps

get_elem?-loads_between :
    (locations : List LocationCode) (ps : List PackageLoad) (s n i : ℕ)
    → i < n
    → get_elem? (loads_between locations ps s n) i ≡ some (segment_load locations ps (s + i))
unfolding loads_between
get_elem?-loads_between locations ps s zero i h = elim h [ ]
get_elem?-loads_between locations ps s (suc n) zero h = let e : s + 0 ≡ s = omega arith in rw e
get_elem?-loads_between locations ps s (suc n) (suc i) h =
    let e : s + suc i ≡ suc s + i = omega arith in
    rw e (get_elem?-loads_between locations ps (suc s) n i (omega arith))

get_elem?-loads_between_inv :
    (locations : List LocationCode) (ps : List PackageLoad) (s n i : ℕ) {x : Weight}
    → get_elem? (loads_between locations ps s n) i ≡ some x
    → (i < n) × (x ≡ segment_load locations ps (s + i))
unfolding loads_between
get_elem?-loads_between_inv locations ps s zero i h = cc
get_elem?-loads_between_inv locations ps s (suc n) zero h =
    let e : s + 0 ≡ s = omega arith in (omega arith, rw e (ground arith))
get_elem?-loads_between_inv locations ps s (suc n) (suc i) h =
    let e : s + suc i ≡ suc s + i = omega arith in
    let (lt, q) = get_elem?-loads_between_inv locations ps (suc s) n i h in (omega arith, rw e q)

greatest-ge_item :
    (xs : List Weight) (i : ℕ) {x : Weight} → get_elem? xs i ≡ some x → x ≤ greatest xs
greatest-ge_item [] i h = cc
greatest-ge_item (y ∷ xs) zero h = ground (arith, greatest_from-ge y xs)
greatest-ge_item (y ∷ xs) (suc i) h = greatest_from-ge_item y xs i h

greatest-item : (xs : List Weight) → 0 < length xs → (i : ℕ) × (get_elem? xs i ≡ some (greatest xs))
greatest-item [] h = elim h [ ]
greatest-item (y ∷ xs) h = elim (greatest_from-item y xs) [
  | inl e ↦ (0, ap some (sym e))
  | inr (i, e) ↦ (suc i, e)
]

length-loads_between :
    (locations : List LocationCode) (ps : List PackageLoad) (s n : ℕ)
    → length (loads_between locations ps s n) ≡ n
unfolding loads_between
length-loads_between locations ps s zero = refl
length-loads_between locations ps s (suc n) = ap suc (length-loads_between locations ps (suc s) n)

-- On a route with at least two stops the calculated maximum is at least the load of every segment,
-- the extra package included, and it is the load of one of them.
pub maximum_segment_load_bounds :
    (locations : List LocationCode) (packages : List PackageLoad) (extra : Option PackageLoad)
    → 2 ≤ length locations
    → ((s : ℕ)
        → s + 1 < length locations
        → segment_load locations (with_extra packages extra) s
          ≤ maximum_segment_load locations packages extra)
      × ((s : ℕ) × (s + 1 < length locations)
          × (maximum_segment_load locations packages extra
              ≡ segment_load locations (with_extra packages extra) s))
maximum_segment_load_bounds locations packages extra two =
    rw (maximum_segment_load-eq-greatest locations packages extra) (above, reached)
  where
    ps : List PackageLoad
    ps = with_extra packages extra

    n : ℕ
    n = length locations - 1

    above :
        (s : ℕ)
        → s + 1 < length locations
        → segment_load locations ps s ≤ greatest (loads_between locations ps 0 n)
    above s h =
        let e : 0 + s ≡ s = omega arith in
        rw e at (
          greatest-ge_item (loads_between locations ps 0 n) s
            (get_elem?-loads_between locations ps 0 n s (omega arith)))

    reached :
        (s : ℕ) × (s + 1 < length locations)
        × (greatest (loads_between locations ps 0 n) ≡ segment_load locations ps s)
    reached =
        let (i, e) =
          greatest-item (loads_between locations ps 0 n)
            (omega (arith, length-loads_between locations ps 0 n)) in
        let (lt, q) = get_elem?-loads_between_inv locations ps 0 n i e in
        let z : 0 + i ≡ i = omega arith in (i, omega arith, rw z at q)

-- An extra package counts as one at the end of the list.
pub maximum_segment_load-extra :
    (locations : List LocationCode) (ps : List PackageLoad) (p : PackageLoad)
    → maximum_segment_load locations (ps ++ p ∷ []) none
      ≡ maximum_segment_load locations ps (some p)
unfolding maximum_segment_load
maximum_segment_load-extra locations ps p = refl
