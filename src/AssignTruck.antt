-- ===== src/AssignTruck.antt =====
-- application/use_cases/routes/assign_truck_to_route.py: a truck is assigned to a route, which is
-- scheduled if it was not, and both are persisted. The look-ups of the repositories and the unit of
-- work are code behind ports: arguments; the unit of work may raise and does not write to the
-- entities.
pub mod Touches
pub mod Atomic
use fleet_flow.Base.{ℕ, Bool, true, false, Option, none, some, ltb, if◌then◌else◌}
use fleet_flow.Result.{Result, Error, ok, err, not_found, conflict, or_raise}
use fleet_flow.Result as Results
use fleet_flow.Schedule.{Time}
use fleet_flow.Weight.{kilograms}
use fleet_flow.Enums.{truck_range_insufficient, truck_capacity_insufficient}
use fleet_flow.World.{
  Route, Truck, World, RouteRef, TruckRef, Action, pure, raise, reads, gets, raise_if, ◌>>=◌, ◌>>◌,
}
use fleet_flow.RouteView.{departure_time, start_location, maximum_segment_load, total_distance_km}
use fleet_flow.TruckPolicy.{Decision, evaluate, evaluate_free, evaluate_busy}
use fleet_flow.Route.{schedule}
use fleet_flow.Route.Links.{edit_route}
use fleet_flow.Route.Trucks.{is_some, assign_truck}
use fleet_flow.Reconcile.Routes.{restore_route, restore_truck}
use fleet_flow.Authorization.{Role, requires, route_assign_truck}

-- `with self._unit_of_work as uow: ...`, over the world that it persists
abbrev pub UnitOfWork : Type 0
UnitOfWork = World → Result (Unit {0})

pub record AssignTruckToRouteResult : Type 0 where
  pub route_id : ℕ
  pub truck_id : ℕ
  pub route : RouteRef

-- The policy on the probe of a route that has no departure: it would depart now.
abbrev probe_schedule : World → Truck → Route → Time → Option RouteRef → Decision
probe_schedule w truck route now none = evaluate_free truck route
probe_schedule w truck route now (some ref) =
    evaluate_busy (w.routes ref) (some now) (start_location route)

unfoldable pub evaluate_probe : World → Truck → Route → Time → Result Decision
evaluate_probe w truck route now = elim (total_distance_km route) [
  | ok distance ↦
      if ltb truck.max_range distance
      then ok (some truck_range_insufficient)
      else if ltb (kilograms truck.capacity) (maximum_segment_load w route none)
      then ok (some truck_capacity_insufficient)
      else ok (probe_schedule w truck route now truck.route)
  | err e ↦ err e
]

-- `_route_for_suitability`, and the policy on what it returns
abbrev decision_for : Option Time → World → Truck → Route → Time → Result Decision
decision_for none w truck route now = evaluate_probe w truck route now
decision_for (some departure) w truck route now = evaluate w truck route

abbrev accept : Result Decision → Result (Unit {0})
accept (err e) = err e
accept (ok none) = ok tt
accept (ok (some reason)) = err conflict

-- `_ensure_truck_is_suitable`
unfoldable pub ensure_truck_is_suitable : RouteRef → TruckRef → Time → World → Result (Unit {0})
unfolding evaluate_probe evaluate
ensure_truck_is_suitable self ref now w =
    accept (decision_for (departure_time (w.routes self)) w (w.trucks ref) (w.routes self) now)

-- `if route.departure_time is None: route.schedule(now, occurred_at=now)`
abbrev pub schedule_if : Option Time → RouteRef → Time → Action (Unit {0})
schedule_if (some departure) self now = pure tt
schedule_if none self now = do
  planned ← reads (λ w. schedule now now (w.routes self))
  edit_route self (λ _. planned)

-- `_assign_in_memory`
unfoldable pub assign_in_memory : RouteRef → TruckRef → Time → Action (Unit {0})
unfolding schedule assign_truck
assign_in_memory self ref now = do
  departure ← gets (λ w. departure_time (w.routes self))
  schedule_if departure self now
  assign_truck self ref now

-- The body of the `except`, over the snapshots that were taken in the world `old`.
abbrev pub undo :
    World → RouteRef → TruckRef → Result (Unit {0}) × World → Result (Unit {0}) × World
undo old self ref (ok u, w) = (ok u, w)
undo old self ref (err e, w) =
    (restore_route (old.routes self) self >> restore_truck old (some ref) >> raise e) w

-- `_assign_and_persist`
unfoldable pub assign_and_persist : UnitOfWork → RouteRef → TruckRef → Time → Action (Unit {0})
unfolding assign_in_memory restore_route restore_truck
assign_and_persist unit_of_work self ref now w =
    undo w self ref ((assign_in_memory self ref now >> reads unit_of_work) w)

-- `execute`, once the permission is checked
unfoldable pub assign :
    (find_route : ℕ → Option RouteRef)
    → (find_truck : ℕ → Option TruckRef) → UnitOfWork
    → (truck_id route_id : ℕ) → Time
    → Action AssignTruckToRouteResult
unfolding ensure_truck_is_suitable assign_and_persist
assign find_route find_truck unit_of_work truck_id route_id now = do
  self ← reads (λ w. or_raise (find_route route_id) not_found)
  ref ← reads (λ w. or_raise (find_truck truck_id) not_found)
  current ← gets (λ w. (w.routes self).truck)
  raise_if (is_some current) conflict
  reads (ensure_truck_is_suitable self ref now)
  assign_and_persist unit_of_work self ref now
  id ← gets (λ w. (w.routes self).route_id)
  truck ← gets (λ w. (w.trucks ref).vehicle_id)
  pure (record { route_id = id; truck_id = truck; route = self })

-- `execute`, for the role of the current user
unfoldable pub execute :
    Option Role
    → (find_route : ℕ → Option RouteRef) → (find_truck : ℕ → Option TruckRef) → UnitOfWork
    → (truck_id route_id : ℕ) → Time
    → Action AssignTruckToRouteResult
unfolding requires assign
execute user find_route find_truck unit_of_work truck_id route_id now =
    requires user route_assign_truck
      (assign find_route find_truck unit_of_work truck_id route_id now)
