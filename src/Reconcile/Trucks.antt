-- ===== src/Reconcile/Trucks.antt =====
-- `_reconcile_truck_for_route` and its helpers: the truck of a route at a time.
use fleet_flow.Base.{
  ℕ, Bool, true, false, not, ◌&&◌, ◌||◌, List, [], ◌∷◌, ◌++◌, Option, none, some, leb, ◌==◌,
  if◌then◌else◌, text_eq,
}
use fleet_flow.Result.{ok, runtime_error, or_raise}
use fleet_flow.Location.{LocationCode}
use fleet_flow.Schedule.{
  Time, RoutePosition, RoutePositionKind, unscheduled, before_start, at_stop, in_transit, after_end,
}
use fleet_flow.Enums.{route_completed}
use fleet_flow.World.{
  Route, Truck, RouteRef, TruckRef, Action, pure, raise, reads, gets, ◌>>=◌, ◌>>◌,
}
use fleet_flow.RouteView.{eta_final, start_location, end_location, current_position}
use fleet_flow.TruckPolicy.{is_at}
use fleet_flow.Route.Links.{edit_truck}
use fleet_flow.Route.Trucks.{is_some, release_truck}

pub record TruckPositionReconciled : Type 0 where
  pub truck_id : ℕ
  pub route_id : ℕ
  pub previous_location : Option LocationCode
  pub new_location : Option LocationCode
  pub previous_in_transit_to : Option LocationCode
  pub new_in_transit_to : Option LocationCode
  pub position_kind : RoutePositionKind
  pub occurred_at : Time

pub record TruckRouteReferenceReconciled : Type 0 where
  pub truck_id : ℕ
  pub previous_route_id : Option ℕ
  pub new_route_id : ℕ
  pub occurred_at : Time

pub data TruckEvent : Type 0 where
  position_reconciled : TruckPositionReconciled → TruckEvent
  reference_reconciled : TruckRouteReferenceReconciled → TruckEvent

pub record TruckReconciliationSummary : Type 0 where
  pub trucks_moved : List TruckRef
  pub trucks_released : List TruckRef
  pub trucks_reconciled : List TruckRef
  pub events : List TruckEvent

abbrev pub nothing : TruckReconciliationSummary
nothing = record { trucks_moved = []; trucks_released = []; trucks_reconciled = []; events = [] }

-- `a != b` on locations that may be unknown
abbrev pub differs : Option LocationCode → Option LocationCode → Bool
differs none none = false
differs none (some c) = true
differs (some c) d = not (is_at d c)

-- `_set_truck_unscheduled`
unfoldable pub set_truck_unscheduled : Truck → Truck × Bool
set_truck_unscheduled t =
    if is_some t.in_transit_to then (record t { in_transit_to = none }, true) else (t, false)

-- What `_set_truck_before_start` and `_set_truck_at_stop` share: the truck stands at the location.
unfoldable pub stand_at : RouteRef → Option LocationCode → Truck → Truck × Bool
unfolding text_eq
stand_at self city t = (
  record t { current_location = city; in_transit_to = none; route = some self },
  differs t.current_location city || is_some t.in_transit_to,
)

-- `if position.from_city and truck.current_location != position.from_city`
abbrev pub leaves : Option LocationCode → Option LocationCode → Bool
leaves none before = false
leaves (some []) before = false
leaves (some (c ∷ s)) before = differs before (some (c ∷ s))

-- `_set_truck_in_transit`
unfoldable pub set_truck_in_transit : RouteRef → RoutePosition → Truck → Truck × Bool
unfolding text_eq
set_truck_in_transit self position t = (
  record t {
    current_location =
        if leaves position.from_city t.current_location
        then position.from_city
        else t.current_location;
    in_transit_to = position.to_city;
    route = some self;
  },
  leaves position.from_city t.current_location || differs t.in_transit_to position.to_city,
)

-- A write to the truck that reports whether it moved.
abbrev pub move_truck : TruckRef → (Truck → Truck × Bool) → Action Bool
move_truck ref f = do
  moved ← gets (λ w. (f (w.trucks ref)).1)
  edit_truck ref (λ t. (f t).0)
  pure moved

-- `route.release_truck(now=now, force=False, reason=ROUTE_COMPLETED, occurred_at=completion_time)`,
-- after `_validate_route_eta_final`
unfoldable pub release_completed : RouteRef → Time → Action Bool
unfolding release_truck
release_completed self now = do
  completion ← reads (λ w. or_raise (eta_final (w.routes self)) runtime_error)
  release_truck self (some now) now false route_completed completion

-- `position.stop_city == route.end_location and route.eta_final is not None and now >= ...`
abbrev pub has_ended : Route → RoutePosition → Time → Bool
has_ended r position now =
    is_at position.stop_city (end_location r)
    && elim (eta_final r) [ none ↦ false | some eta ↦ leb eta now ]

-- `_set_truck_at_stop`: whether the truck moved, and whether it was released
unfoldable pub set_truck_at_stop : RouteRef → TruckRef → RoutePosition → Time → Action (Bool × Bool)
unfolding stand_at release_completed
set_truck_at_stop self ref position now = do
  moved ← move_truck ref (stand_at self position.stop_city)
  ended ← gets (λ w. has_ended (w.routes self) position now)
  released ← if ended then release_completed self now else pure false
  pure (moved, released)

abbrev moved_only : Bool → Bool × Bool
moved_only moved = (moved, false)

-- The branches on `position.kind`.
unfoldable pub place_truck :
    RouteRef → TruckRef → Time → RoutePosition → RoutePositionKind → Action (Bool × Bool)
unfolding set_truck_unscheduled stand_at set_truck_in_transit set_truck_at_stop release_completed
place_truck self ref now position unscheduled =
    move_truck ref set_truck_unscheduled >>= λ moved. pure (moved_only moved)
place_truck self ref now position before_start = do
  start ← gets (λ w. start_location (w.routes self))
  moved ← move_truck ref (stand_at self (some start))
  pure (moved_only moved)
place_truck self ref now position at_stop = set_truck_at_stop self ref position now
place_truck self ref now position in_transit =
    move_truck ref (set_truck_in_transit self position) >>= λ moved. pure (moved_only moved)
place_truck self ref now position after_end =
    release_completed self now >>= λ released. pure (false, released)

-- `if position_changed`: the truck among the moved ones, and the event.
abbrev list_if : Bool → TruckRef → List TruckRef
list_if b ref = if b then ref ∷ [] else []

abbrev has_moved : Truck → Truck → Bool
has_moved before after =
    differs after.current_location before.current_location
    || differs after.in_transit_to before.in_transit_to

abbrev position_event : Truck → Truck → ℕ → RoutePositionKind → Time → TruckEvent
position_event before after route_id kind now = position_reconciled (record {
  truck_id = after.vehicle_id;
  route_id = route_id;
  previous_location = before.current_location;
  new_location = after.current_location;
  previous_in_transit_to = before.in_transit_to;
  new_in_transit_to = after.in_transit_to;
  position_kind = kind;
  occurred_at = now;
})

-- From the position on, with the lists that the repair of the reference has filled.
unfoldable pub position_truck :
    RouteRef → TruckRef → Time → List TruckRef → List TruckEvent → Action TruckReconciliationSummary
unfolding current_position place_truck text_eq
position_truck self ref now reconciled events = do
  position ← reads (λ w. current_position (w.routes self) (some now) now)
  before ← gets (λ w. w.trucks ref)
  (moved, released) ← place_truck self ref now position position.kind
  after ← gets (λ w. w.trucks ref)
  route_id ← gets (λ w. (w.routes self).route_id)
  pure (record {
    trucks_moved = list_if (moved || has_moved before after) ref;
    trucks_released = list_if released ref;
    trucks_reconciled = reconciled;
    events =
        events
        ++ (if has_moved before after
            then position_event before after route_id position.kind now ∷ []
            else []);
  })

abbrev pub reference_event : Truck → ℕ → Time → TruckEvent
reference_event truck route_id now = reference_reconciled (record {
  truck_id = truck.vehicle_id;
  previous_route_id = none;
  new_route_id = route_id;
  occurred_at = now;
})

-- `if truck.route is None ... elif truck.route is not route`, for the truck's route
unfoldable pub repair_truck :
    RouteRef → TruckRef → Time → Option RouteRef → Action TruckReconciliationSummary
unfolding position_truck
repair_truck self ref now none = do
  edit_truck ref (λ t. record t { route = some self })
  truck ← gets (λ w. w.trucks ref)
  route_id ← gets (λ w. (w.routes self).route_id)
  position_truck self ref now (ref ∷ []) (reference_event truck route_id now ∷ [])
repair_truck self ref now (some other) =
    if other == self then position_truck self ref now [] [] else raise runtime_error

unfoldable pub reconcile_truck : RouteRef → Time → Action TruckReconciliationSummary
unfolding repair_truck
reconcile_truck self now w = elim (w.routes self).truck [
  | none ↦ (ok nothing, w)
  | some ref ↦ repair_truck self ref now (w.trucks ref).route w
]
