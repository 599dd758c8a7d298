-- ===== src/Route/Trucks.antt =====
-- domain/entities/delivery_route.py: `assign_truck` and `release_truck`.
use fleet_flow.Base.{ℕ, Bool, true, false, ◌||◌, Option, none, some, not}
use fleet_flow.Result.{ok, err, domain_conflict, runtime_error}
use fleet_flow.Location.{LocationCode}
use fleet_flow.Schedule.{Time}
use fleet_flow.Enums.{TruckReleaseReason}
use fleet_flow.Events.{DomainEvent, truck_assigned, truck_released}
use fleet_flow.World.{
  Truck, World, RouteRef, TruckRef, put_truck, Action, pure, raise, gets, raise_if, ◌>>=◌, ◌>>◌,
}
use fleet_flow.Truck
use fleet_flow.Truck.{is_free}
use fleet_flow.Route.Links.{edit_route, edit_truck, id_of, with_event}

abbrev pub is_some {ℓ} : {A : Type ℓ} → Option A → Bool
is_some none = false
is_some (some a) = true

abbrev pub truck_assigned_event : Truck → Truck → LocationCode → ℕ → Time → DomainEvent
truck_assigned_event before after location route_id occurred_at = truck_assigned (record {
  truck_id = after.vehicle_id;
  previous_route_id = none;
  new_route_id = route_id;
  previous_status = before.status;
  new_status = after.status;
  previous_location = location;
  new_location = location;
  previous_busy_from = before.busy_from;
  new_busy_from = after.busy_from;
  previous_busy_until = before.busy_until;
  new_busy_until = after.busy_until;
  occurred_at = occurred_at;
})

unfoldable pub assign_located : RouteRef → TruckRef → Time → Option LocationCode → Action (Unit {0})
unfolding Truck.assign
assign_located self ref occurred_at none = raise domain_conflict
assign_located self ref occurred_at (some location) = do
  before ← gets (λ w. w.trucks ref)
  route ← gets (λ w. w.routes self)
  edit_truck ref (Truck.assign self route)
  edit_route self (λ r. record r { truck = some ref })
  after ← gets (λ w. w.trucks ref)
  edit_route self
      (with_event (truck_assigned_event before after location route.route_id occurred_at))

unfoldable pub assign_truck : RouteRef → TruckRef → Time → Action (Unit {0})
unfolding assign_located
assign_truck self ref occurred_at = do
  assigned ← gets (λ w. (w.routes self).truck)
  raise_if (is_some assigned) domain_conflict
  truck ← gets (λ w. w.trucks ref)
  raise_if (not (is_free truck) || is_some truck.route) domain_conflict
  assign_located self ref occurred_at truck.current_location

abbrev pub truck_released_event :
    World
    → Truck
    → Truck
    → ℕ
    → LocationCode
    → LocationCode
    → TruckReleaseReason
    → Time
    → DomainEvent
truck_released_event w before after previous_route_id from to reason occurred_at =
    truck_released (record {
      truck_id = before.vehicle_id;
      previous_route_id = previous_route_id;
      new_route_id = id_of w after.route;
      previous_status = before.status;
      new_status = after.status;
      previous_location = from;
      new_location = to;
      previous_busy_from = before.busy_from;
      new_busy_from = after.busy_from;
      previous_busy_until = before.busy_until;
      new_busy_until = after.busy_until;
      reason = reason;
      occurred_at = occurred_at;
    })

-- After `truck.release` returned true: the location that it left the truck at.
unfoldable pub release_done :
    RouteRef
    → TruckRef
    → Truck
    → ℕ
    → LocationCode
    → TruckReleaseReason
    → Time
    → Option LocationCode
    → Action Bool
unfolding Truck.restore_state Truck.snapshot_state
release_done self ref before previous_route_id from reason occurred_at none = do
  edit_truck ref (Truck.restore_state (Truck.snapshot_state before))
  raise runtime_error
release_done self ref before previous_route_id from reason occurred_at (some to) = do
  edit_route self (λ r. record r { truck = none })
  after ← gets (λ w. w.trucks ref)
  e ← gets (λ w. truck_released_event w before after previous_route_id from to reason occurred_at)
  edit_route self (with_event e)
  pure true

-- `release_truck` for the truck `before`, with its route and location.
unfoldable pub release_located :
    RouteRef
    → TruckRef
    → Truck
    → Option RouteRef
    → Option LocationCode
    → Option Time
    → Time
    → Bool
    → TruckReleaseReason
    → Time
    → Action Bool
unfolding Truck.release release_done
release_located self ref before none location now clock force reason occurred_at w =
    (err domain_conflict, w)
release_located self ref before (some route) none now clock force reason occurred_at w =
    (err domain_conflict, w)
release_located self ref before (some route) (some from) now clock force reason occurred_at w =
    let (after, released) = Truck.release (some (w.routes route)) now clock force before in
    let w' = put_truck ref after w in
    elim released [
      | false ↦ (ok false, w')
      | true ↦
          release_done self ref before (w.routes route).route_id from reason occurred_at
            after.current_location w'
    ]

unfoldable pub release_truck :
    RouteRef → Option Time → Time → Bool → TruckReleaseReason → Time → Action Bool
unfolding release_located
release_truck self now clock force reason occurred_at w = elim (w.routes self).truck [
  | none ↦ (ok false, w)
  | some ref ↦
      let truck = w.trucks ref in
      release_located self ref truck truck.route truck.current_location now clock force reason
        occurred_at w
]
