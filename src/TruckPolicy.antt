-- ===== src/TruckPolicy.antt =====
-- domain/services/truck_assignment_policy.py: whether a truck can serve a route.
pub mod Accepted
use fleet_flow.Base.{Bool, false, Option, none, some, ltb, leb, if◌then◌else◌, text_eq}
use fleet_flow.Result.{Result, ok, ◌>>=◌}
use fleet_flow.Location.{LocationCode}
use fleet_flow.Schedule.{Time}
use fleet_flow.Weight.{kilograms}
use fleet_flow.Enums.{
  TruckAssignmentRejectionReason, truck_range_insufficient, truck_capacity_insufficient,
  truck_at_wrong_location, target_route_unscheduled, current_route_availability_unknown,
  availability_window_overlap,
}
use fleet_flow.World.{Route, World, Truck, RouteRef}
use fleet_flow.RouteView.{
  departure_time, eta_final, start_location, end_location, maximum_segment_load, total_distance_km,
}

abbrev pub Decision : Type 0
Decision = Option TruckAssignmentRejectionReason

-- `location == code`, for a location that may be unknown
abbrev pub is_at : Option LocationCode → LocationCode → Bool
is_at none code = false
is_at (some c) code = text_eq c code

-- The truck is free: it must stand at the route's start.
unfoldable pub evaluate_free : Truck → Route → Decision
unfolding text_eq
evaluate_free truck route =
    if is_at truck.current_location (start_location route)
    then none
    else some truck_at_wrong_location

unfoldable pub after_current : Option Time → Time → LocationCode → LocationCode → Decision
unfolding text_eq
after_current none departure last start = some current_route_availability_unknown
after_current (some eta) departure last start =
    if leb departure eta
    then some availability_window_overlap
    else if text_eq last start
    then none
    else some truck_at_wrong_location

-- The truck serves the route `current`: it must be done before the new departure, at its start.
unfoldable pub evaluate_busy : Route → Option Time → LocationCode → Decision
unfolding after_current
evaluate_busy current none start = some target_route_unscheduled
evaluate_busy current (some departure) start =
    after_current (eta_final current) departure (end_location current) start

-- `if truck.route is None`
abbrev pub evaluate_schedule : World → Truck → Route → Option RouteRef → Decision
evaluate_schedule w truck route none = evaluate_free truck route
evaluate_schedule w truck route (some ref) =
    evaluate_busy (w.routes ref) (departure_time route) (start_location route)

unfoldable pub evaluate : World → Truck → Route → Result Decision
unfolding evaluate_free evaluate_busy
evaluate w truck route = total_distance_km route >>= λ distance.
    if ltb truck.max_range distance
    then ok (some truck_range_insufficient)
    else if ltb (kilograms truck.capacity) (maximum_segment_load w route none)
    then ok (some truck_capacity_insufficient)
    else ok (evaluate_schedule w truck route truck.route)
