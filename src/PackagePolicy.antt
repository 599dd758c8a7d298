-- ===== src/PackagePolicy.antt =====
-- domain/services/package_assignment_policy.py: whether a package may join a route. A decision is a
-- reason for the rejection, or none; its message is left out. The policy only reads the world.
use fleet_flow.Base.{
  ℕ, Bool, true, false, List, [], ◌∷◌, Option, none, some, ◌&&◌, ltb, leb, if◌then◌else◌, contains,
  index_of,
}
use fleet_flow.Result.{Result, ok, key_error, or_raise, ◌>>=◌}
use fleet_flow.Location.{LocationCode, str}
use fleet_flow.Path.{includes_in_order}
use fleet_flow.Schedule.{
  Time, RoutePosition, unscheduled, before_start, at_stop, in_transit, after_end, RoutePositionKind,
}
use fleet_flow.Weight.{kilograms}
use fleet_flow.Enums.{
  PackageAssignmentRejectionReason, locations_not_on_route, locations_out_of_order,
  pickup_already_passed, truck_capacity_exceeded, package_truck_range_insufficient,
}
use fleet_flow.World.{Package, Route, World, Truck, TruckRef}
use fleet_flow.RouteView.{departure_time, current_position, maximum_segment_load, total_distance_km}

abbrev pub Decision : Type 0
Decision = Option PackageAssignmentRejectionReason

-- `_evaluate_package_route_compatibility`
unfoldable pub evaluate_compatibility : Route → Package → Result Decision
evaluate_compatibility route p =
    if contains p.start_location route.path.locations
      && contains p.end_location route.path.locations
    then (includes_in_order route.path (str p.start_location) (str p.end_location) >>= λ in_order.
        ok (if in_order then none else some locations_out_of_order))
    else ok (some locations_not_on_route)

-- `if city and location_indices[city] > pickup_index`; an empty code is false.
abbrev stands_after : List LocationCode → Option LocationCode → ℕ → Result Bool
stands_after locations none pickup = ok false
stands_after locations (some []) pickup = ok false
stands_after locations (some (c ∷ s)) pickup =
    or_raise (index_of locations (c ∷ s)) key_error >>= λ i. ok (ltb pickup i)

-- `if city and location_indices[city] >= pickup_index`
abbrev stands_from : List LocationCode → Option LocationCode → ℕ → Result Bool
stands_from locations none pickup = ok false
stands_from locations (some []) pickup = ok false
stands_from locations (some (c ∷ s)) pickup =
    or_raise (index_of locations (c ∷ s)) key_error >>= λ i. ok (leb pickup i)

abbrev passed_decision : Bool → Decision
passed_decision passed = if passed then some pickup_already_passed else none

unfoldable pub pickup_passed :
    List LocationCode → RoutePosition → RoutePositionKind → ℕ → Result Bool
unfolding index_of
pickup_passed locations position unscheduled pickup = ok false
pickup_passed locations position before_start pickup = ok false
pickup_passed locations position at_stop pickup = stands_after locations position.stop_city pickup
pickup_passed locations position in_transit pickup = stands_from locations position.from_city pickup
pickup_passed locations position after_end pickup = ok true

-- `_evaluate_pickup_not_passed`
unfoldable pub evaluate_pickup : Route → Package → Option Time → Time → Result Decision
unfolding pickup_passed
evaluate_pickup route p now clock = elim (departure_time route) [
  | none ↦ ok none
  | some departure ↦
      or_raise (index_of route.path.locations p.start_location) key_error >>= λ pickup.
      current_position route now clock >>= λ position.
      pickup_passed route.path.locations position position.kind pickup >>= λ passed.
      ok (passed_decision passed)
]

abbrev range_decision : Truck → ℕ → Decision
range_decision truck distance =
    if ltb truck.max_range distance then some package_truck_range_insufficient else none

unfoldable pub evaluate_truck : World → Route → Package → Option TruckRef → Result Decision
evaluate_truck w route p none = ok none
evaluate_truck w route p (some ref) =
    let truck = w.trucks ref in
    if ltb (kilograms truck.capacity) (maximum_segment_load w route (some p))
    then ok (some truck_capacity_exceeded)
    else (total_distance_km route >>= λ distance. ok (range_decision truck distance))

-- `_evaluate_truck_constraints`
unfoldable pub evaluate_truck_constraints : World → Route → Package → Result Decision
evaluate_truck_constraints w route p = evaluate_truck w route p route.truck

-- `if not decision.accepted: return decision`
abbrev pub or_else : Result Decision → Result Decision → Result Decision
or_else first rest =
    first >>= λ decision. elim decision [ some reason ↦ ok (some reason) | none ↦ rest ]

unfoldable pub evaluate : World → Route → Package → Option Time → Time → Result Decision
evaluate w route p now clock =
    or_else (evaluate_compatibility route p)
      (or_else (evaluate_pickup route p now clock) (evaluate_truck_constraints w route p))
