-- ===== src/Load.antt =====
-- domain/services/route_load_calculator.py: the heaviest load on any segment of a route.
pub mod Segments
pub mod Bounds
use fleet_flow.Base.{
  ℕ, zero, suc, ◌+◌, ◌-◌, Bool, List, [], ◌∷◌, ◌++◌, Option, none, some, ltb, leb, if◌then◌else◌,
  length, replicate, index_of,
}
use fleet_flow.Location.{LocationCode}
use fleet_flow.Weight.{Weight, add_weight}

-- domain/value_objects/package_load.py
pub record PackageLoad : Type 0 where
  pub start_location : LocationCode
  pub end_location : LocationCode
  pub weight : Weight

-- `loads[i] += w`
add_at : List Weight → ℕ → Weight → List Weight
unfolding add_weight
add_at [] i w = []
add_at (x ∷ xs) zero w = add_weight x w ∷ xs
add_at (x ∷ xs) (suc i) w = x ∷ add_at xs i w

-- `for segment_index in range(start, start + count): segment_loads[segment_index] += w`
add_range : List Weight → ℕ → ℕ → Weight → List Weight
unfolding add_at
add_range loads start zero w = loads
add_range loads start (suc count) w = add_range (add_at loads start w) (start + 1) count w

-- The body of the loop over the candidates, for the two positions.
add_span : List Weight → Option ℕ → Option ℕ → Weight → List Weight
unfolding add_range
add_span loads (some i) (some j) w = if leb j i then loads else add_range loads i (j - i) w
add_span loads (some i) none w = loads
add_span loads none j w = loads

add_candidates : List LocationCode → List Weight → List PackageLoad → List Weight
unfolding add_span index_of
add_candidates locations loads [] = loads
add_candidates locations loads (p ∷ ps) =
    add_candidates locations
      (add_span loads (index_of locations p.start_location) (index_of locations p.end_location)
        p.weight)
      ps

-- `max(loads, default=0.0)`: the first of the greatest.
abbrev pub greatest_from : Weight → List Weight → Weight
greatest_from m [] = m
greatest_from m (x ∷ xs) = greatest_from (if ltb m x then x else m) xs

abbrev pub greatest : List Weight → Weight
greatest [] = 0
greatest (x ∷ xs) = greatest_from x xs

abbrev pub with_extra : List PackageLoad → Option PackageLoad → List PackageLoad
with_extra packages none = packages
with_extra packages (some p) = packages ++ p ∷ []

unfoldable pub maximum_segment_load :
    List LocationCode → List PackageLoad → Option PackageLoad → Weight
unfolding add_candidates
maximum_segment_load locations packages extra =
    greatest
      (add_candidates locations (replicate (length locations - 1) 0) (with_extra packages extra))
