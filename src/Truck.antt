-- ===== src/Truck.antt =====
-- domain/entities/truck.py: the construction of a truck, its assignment and its release. Of its route
-- the truck reads the schedule and the last location. The model, domain/enums/truck_model.py, which
-- nothing here reads again, stands beside the truck that the constructor returns.
use fleet_flow.Base.{
  ℕ, Text, text_eq, codes, Bool, true, false, [], ◌∷◌, Option, none, some, not, ◌&&◌, ltb,
  if◌then◌else◌,
}
use fleet_flow.Result.{Result, ok, err, domain_validation, ◌>>=◌}
use fleet_flow.Location.{LocationCode}
use fleet_flow.Schedule.{Time}
use fleet_flow.Enums.{TruckStatus, free, on_the_way, truck_status_eq}
use fleet_flow.World.{Truck, Route, RouteRef}
use fleet_flow.Package.{require_positive_int}
use fleet_flow.RouteView.{departure_time, eta_final, end_location, or_clock}

pub data TruckModel : Type 0 where
  scania man actros : TruckModel

-- `TruckModel.from_value`, for a string
unfoldable pub from_value : Text → Result TruckModel
unfolding text_eq
from_value name =
    if text_eq name (codes "Scania")
    then ok scania
    else if text_eq name (codes "Man")
    then ok man
    else if text_eq name (codes "Actros")
    then ok actros
    else err domain_validation

-- `Truck(vehicle_id, name, capacity, max_range)`
unfoldable pub truck : ℕ → Text → ℕ → ℕ → Result (TruckModel × Truck)
unfolding require_positive_int from_value
truck vehicle_id name capacity max_range = do
  id ← require_positive_int vehicle_id
  model ← from_value name
  load ← require_positive_int capacity
  reach ← require_positive_int max_range
  ok (
    model,
    record {
      vehicle_id = id;
      capacity = load;
      max_range = reach;
      status = free;
      current_location = none;
      route = none;
      busy_from = none;
      busy_until = none;
      in_transit_to = none;
    },
  )

pub record TruckSnapshot : Type 0 where
  pub route : Option RouteRef
  pub status : TruckStatus
  pub current_location : Option LocationCode
  pub busy_from : Option Time
  pub busy_until : Option Time
  pub in_transit_to : Option LocationCode

unfoldable pub snapshot_state : Truck → TruckSnapshot
snapshot_state t = record {
  route = t.route;
  status = t.status;
  current_location = t.current_location;
  busy_from = t.busy_from;
  busy_until = t.busy_until;
  in_transit_to = t.in_transit_to;
}

unfoldable pub restore_state : TruckSnapshot → Truck → Truck
restore_state s t = record t {
  route = s.route;
  status = s.status;
  current_location = s.current_location;
  busy_from = s.busy_from;
  busy_until = s.busy_until;
  in_transit_to = s.in_transit_to;
}

abbrev pub is_free : Truck → Bool
is_free t = truck_status_eq t.status free

-- `assign(route)`, for the route and its reference
unfoldable pub assign : RouteRef → Route → Truck → Truck
assign ref route t = record t {
  route = some ref;
  status = on_the_way;
  busy_from = departure_time route;
  busy_until = eta_final route;
  in_transit_to = none;
}

abbrev is_before : Time → Option Time → Bool
is_before now none = true
is_before now (some eta) = ltb now eta

-- `if end_city: self.current_location = end_city`: an empty code is false.
abbrev moved_to_end : LocationCode → Option LocationCode → Option LocationCode
moved_to_end [] before = before
moved_to_end (c ∷ s) before = some (c ∷ s)

abbrev pub released : Route → Truck → Truck
released route t = record t {
  current_location = moved_to_end (end_location route) t.current_location;
  route = none;
  status = free;
  in_transit_to = none;
  busy_from = none;
  busy_until = none;
}

abbrev idle : Truck → Truck
idle t = record t { status = free; in_transit_to = none; busy_from = none; busy_until = none }

-- `release(now=now, force=force)`, for the route that the truck refers to
unfoldable pub release : Option Route → Option Time → Time → Bool → Truck → Truck × Bool
release none now clock force t = (idle t, false)
release (some route) now clock force t =
    if not force && is_before (or_clock now clock) (eta_final route)
    then (t, false)
    else (released route t, true)
