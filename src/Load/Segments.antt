-- ===== src/Load/Segments.antt =====
-- The loads of the segments against a description of each segment by itself.
use fleet_flow.Base.{
  ℕ, zero, suc, ◌+◌, ◌-◌, ◌≤◌, ◌≡◌, refl, sym, ap, ◌∙◌, Bool, true, false, ◌&&◌, List, [], ◌∷◌,
  Option, none, some, arith, ltb, leb, if◌then◌else◌, length, replicate, index_of,
}
use mathlib.Core.Path.{subst}
use native.Mathlib.Decide.{dec_lt}
use fleet_flow.Location.{LocationCode}
use fleet_flow.Weight.{Weight, add_weight}
use fleet_flow.Load.{
  PackageLoad, add_at, add_range, add_span, add_candidates, greatest, with_extra,
  maximum_segment_load,
}

-- Segment `s` runs from stop `s` to stop `s + 1`. A package is on it from its pickup stop up to,
-- but not including, its delivery stop.
abbrev spans : Option ℕ → Option ℕ → ℕ → Bool
spans (some i) (some j) s = leb i s && ltb s j
spans _ _ s = false

abbrev pub is_carried : List LocationCode → PackageLoad → ℕ → Bool
is_carried locations p s =
    spans (index_of locations p.start_location) (index_of locations p.end_location) s

-- The weights of the packages on segment `s`, added in order to `load`.
unfoldable pub load_from : List LocationCode → ℕ → Weight → List PackageLoad → Weight
load_from locations s load [] = load
load_from locations s load (p ∷ ps) =
    load_from locations s (if is_carried locations p s then add_weight load p.weight else load) ps

-- The load of each segment from `s` on, for `n` segments.
unfoldable pub loads_between : List LocationCode → List PackageLoad → ℕ → ℕ → List Weight
loads_between locations ps s zero = []
loads_between locations ps s (suc n) =
    load_from locations s 0 ps ∷ loads_between locations ps (suc s) n

-- The loads after the packages `ps`, for segments that begin with `loads`, the first of them `s`.
loads_after : List LocationCode → List PackageLoad → ℕ → List Weight → List Weight
loads_after locations ps s [] = []
loads_after locations ps s (x ∷ xs) =
    load_from locations s x ps ∷ loads_after locations ps (suc s) xs

-- One package, on the segments `s`, `s + 1`, ...
span_from : Option ℕ → Option ℕ → Weight → ℕ → List Weight → List Weight
span_from i j w s [] = []
span_from i j w s (x ∷ xs) =
    (if spans i j s then add_weight x w else x) ∷ span_from i j w (suc s) xs

-- The loop over a range, from the front of the list.
add_range_nil : (a c : ℕ) (w : Weight) → add_range [] a c w ≡ []
unfolding add_range add_at
add_range_nil a zero w = refl
add_range_nil a (suc c) w = add_range_nil (a + 1) c w

add_range_zero : (xs : List Weight) (a : ℕ) (w : Weight) → add_range xs a 0 w ≡ xs
unfolding add_range
add_range_zero xs a w = refl

add_range_skip :
    (x : Weight) (xs : List Weight) (a c : ℕ) (w : Weight)
    → add_range (x ∷ xs) (suc a) c w ≡ x ∷ add_range xs a c w
unfolding add_range add_at
add_range_skip x xs a zero w = refl
add_range_skip x xs a (suc c) w =
    let e : suc a + 1 ≡ suc (a + 1) = omega arith in
    rw e (add_range_skip x (add_at xs a w) (a + 1) c w)

add_range_here :
    (x : Weight) (xs : List Weight) (c : ℕ) (w : Weight)
    → add_range (x ∷ xs) 0 (suc c) w ≡ add_weight x w ∷ add_range xs 0 c w
unfolding add_range add_at
add_range_here x xs c w = add_range_skip (add_weight x w) xs 0 c w

span_from_past :
    (i j : ℕ) (w : Weight) (s : ℕ) (xs : List Weight)
    → j ≤ s
    → span_from (some i) (some j) w s xs ≡ xs
unfolding span_from
span_from_past i j w s [] h = refl
span_from_past i j w s (x ∷ xs) h = ground (arith, span_from_past i j w (suc s) xs)

span_from_inside :
    (i j : ℕ) (w : Weight) (s : ℕ) (xs : List Weight)
    → i ≤ s
    → add_range xs 0 (j - s) w ≡ span_from (some i) (some j) w s xs
unfolding span_from
span_from_inside i j w s [] h = add_range_nil 0 (j - s) w
span_from_inside i j w s (x ∷ xs) h = elim (dec_lt s j) [
  | yes p ↦
      let e : j - s ≡ suc (j - suc s) = omega arith in
      rw e (add_range_here x xs (j - suc s) w ∙ ground (arith, span_from_inside i j w (suc s) xs))
  | no p ↦
      let e : j - s ≡ 0 = omega arith in
      rw e (add_range_zero (x ∷ xs) 0 w ∙ sym (span_from_past i j w s (x ∷ xs) (omega arith)))
]

span_from_ahead :
    (i j : ℕ) (w : Weight) (s : ℕ) (xs : List Weight)
    → s ≤ i
    → add_range xs (i - s) (j - i) w ≡ span_from (some i) (some j) w s xs
unfolding span_from
span_from_ahead i j w s [] h = add_range_nil (i - s) (j - i) w
span_from_ahead i j w s (x ∷ xs) h = elim (dec_lt s i) [
  | yes p ↦
      let e : i - s ≡ suc (i - suc s) = omega arith in
      rw e (
        add_range_skip x xs (i - suc s) (j - i) w
        ∙ ground (arith, span_from_ahead i j w (suc s) xs))
  | no p ↦
      let e : s ≡ i = omega arith in
      let z : s - s ≡ 0 = omega arith in
      subst (λ k. add_range (x ∷ xs) (k - s) (j - k) w ≡ span_from (some k) (some j) w s (x ∷ xs)) e
        (rw z (span_from_inside s j w s (x ∷ xs) (omega arith)))
]

span_from_none :
    (i j : Option ℕ) (w : Weight) (s : ℕ) (xs : List Weight)
    → ((t : ℕ) → spans i j t ≡ false)
    → span_from i j w s xs ≡ xs
unfolding span_from
span_from_none i j w s [] h = refl
span_from_none i j w s (x ∷ xs) h = rw (h s) (ap (◌∷◌ x) (span_from_none i j w (suc s) xs h))

add_span-eq-span_from :
    (i j : Option ℕ) (w : Weight) (xs : List Weight) → add_span xs i j w ≡ span_from i j w 0 xs
unfolding add_span
add_span-eq-span_from (some i) (some j) w xs = elim (dec_lt i j) [
  | yes p ↦
      let t : leb j i ≡ false = ground arith in
      let e : i - 0 ≡ i = omega arith in rw t (rw e at (span_from_ahead i j w 0 xs (omega arith)))
  | no p ↦
      let t : leb j i ≡ true = ground arith in
      rw t (sym (span_from_none (some i) (some j) w 0 xs (λ s. ground arith)))
]
add_span-eq-span_from (some i) none w xs = sym (span_from_none (some i) none w 0 xs (λ s. refl))
add_span-eq-span_from none j w xs = sym (span_from_none none j w 0 xs (λ s. refl))

loads_after-span_from :
    (locations : List LocationCode) (p : PackageLoad) (ps : List PackageLoad) (s : ℕ)
    (xs : List Weight)
    → loads_after locations ps s (
        span_from
          (index_of locations p.start_location)
          (index_of locations p.end_location)
          p.weight
          s
          xs)
      ≡ loads_after locations (p ∷ ps) s xs
unfolding loads_after span_from load_from
loads_after-span_from locations p ps s [] = refl
loads_after-span_from locations p ps s (x ∷ xs) =
    ap (◌∷◌ (load_from locations s x (p ∷ ps))) (loads_after-span_from locations p ps (suc s) xs)

loads_after_none :
    (locations : List LocationCode) (s : ℕ) (xs : List Weight) → loads_after locations [] s xs ≡ xs
unfolding loads_after load_from
loads_after_none locations s [] = refl
loads_after_none locations s (x ∷ xs) = ap (◌∷◌ x) (loads_after_none locations (suc s) xs)

add_candidates-eq-loads_after :
    (locations : List LocationCode) (xs : List Weight) (ps : List PackageLoad)
    → add_candidates locations xs ps ≡ loads_after locations ps 0 xs
unfolding add_candidates
add_candidates-eq-loads_after locations xs [] = sym (loads_after_none locations 0 xs)
add_candidates-eq-loads_after locations xs (p ∷ ps) =
    let i = index_of locations p.start_location in
    let j = index_of locations p.end_location in
    rw (add_span-eq-span_from i j p.weight xs) (
      add_candidates-eq-loads_after locations (span_from i j p.weight 0 xs) ps
      ∙ loads_after-span_from locations p ps 0 xs)

loads_after-replicate :
    (locations : List LocationCode) (ps : List PackageLoad) (s n : ℕ)
    → loads_after locations ps s (replicate n 0) ≡ loads_between locations ps s n
unfolding loads_after loads_between
loads_after-replicate locations ps s zero = refl
loads_after-replicate locations ps s (suc n) =
    ap (◌∷◌ (load_from locations s 0 ps)) (loads_after-replicate locations ps (suc s) n)

pub maximum_segment_load-eq-greatest :
    (locations : List LocationCode) (packages : List PackageLoad) (extra : Option PackageLoad)
    → maximum_segment_load locations packages extra
      ≡ greatest (loads_between locations (with_extra packages extra) 0 (length locations - 1))
unfolding maximum_segment_load
maximum_segment_load-eq-greatest locations packages extra =
    let ps = with_extra packages extra in
    let n = length locations - 1 in
    ap greatest (
      add_candidates-eq-loads_after locations (replicate n 0) ps
      ∙ loads_after-replicate locations ps 0 n)
