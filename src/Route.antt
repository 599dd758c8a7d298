-- ===== src/Route.antt =====
-- domain/entities/delivery_route.py: construction, the status of a route, its schedule, snapshots.
-- The methods in this file write to the route alone, and raise before their first write.
-- `Route.Links` and `Route.Trucks` have those that write to its packages and its truck.
pub mod Links
pub mod Rollback
pub mod Built
pub mod NewTruck
pub mod Capacity
pub mod Trucks
pub mod TruckLinks
use fleet_flow.Base.{ℕ, Bool, true, false, ◌||◌, List, [], ◌∷◌, Option, none, some, not}
use fleet_flow.Result.{Result, ok, err, domain_conflict, ◌>>=◌, ◌>>◌, require, or_raise}
use fleet_flow.Location.{LocationCode, Raw}
use fleet_flow.Path
use fleet_flow.Path.{RoutePath}
use fleet_flow.Schedule
use fleet_flow.Schedule.{Time, RouteSchedule}
use fleet_flow.Scheduler.{default_speed_kmph, build}
use fleet_flow.Enums.{RouteStatus, planned, scheduled, in_progress, completed, route_status_eq}
use fleet_flow.Events.{
  route_created, route_scheduled, route_started, route_completed, route_removed,
}
use fleet_flow.Recorder.{record_event}
use fleet_flow.World.{Route, TruckRef, PackageRef}
use fleet_flow.Package.{require_positive_int}
use fleet_flow.RouteView.{departure_time, eta_final, locations}

-- `RouteScheduler.build(...) if departure_time is not None else None`
unfoldable pub build_optional : RoutePath → Option Time → Result (Option RouteSchedule)
unfolding build
build_optional path none = ok none
build_optional path (some departure) =
    build path.locations departure default_speed_kmph >>= λ s. ok (some s)

abbrev pub initial_status : Option Time → RouteStatus
initial_status none = planned
initial_status (some t) = scheduled

-- `DeliveryRoute(...)`
unfoldable pub delivery_route : List Raw → Option Time → ℕ → Result Route
unfolding require_positive_int Path.create build_optional
delivery_route raws departure route_id = do
  id ← require_positive_int route_id
  path ← Path.create raws
  schedule ← build_optional path departure
  ok (record {
    route_id = id;
    path = path;
    truck = none;
    packages = [];
    status = initial_status departure;
    schedule = schedule;
    pending_events = [];
  })

-- `DeliveryRoute.create`; `occurred_at` is the given time, or the clock's.
unfoldable pub create : List Raw → Option Time → ℕ → Time → Result Route
unfolding delivery_route
create raws departure route_id occurred_at = do
  r ← delivery_route raws departure route_id
  ok (record r {
    pending_events =
        record_event
          (route_created (record {
            route_id = r.route_id;
            locations = locations r;
            departure_time = departure_time r;
            initial_status = r.status;
            expected_completion_time = eta_final r;
            occurred_at = occurred_at;
          }))
          r.pending_events;
  })

abbrev pub started : Time → Route → Route
started occurred_at r = record r {
  status = in_progress;
  pending_events =
      record_event
        (route_started (record {
          route_id = r.route_id;
          previous_status = r.status;
          new_status = in_progress;
          occurred_at = occurred_at;
        }))
        r.pending_events;
}

unfoldable pub mark_started : Time → Route → Result Route
mark_started occurred_at r = do
  require (route_status_eq r.status scheduled) domain_conflict
  ok (started occurred_at r)

abbrev pub finished : Time → Time → Time → Route → Route
finished departure eta occurred_at r = record r {
  status = completed;
  pending_events =
      record_event
        (route_completed (record {
          route_id = r.route_id;
          previous_status = r.status;
          new_status = completed;
          departure_time = departure;
          expected_completion_time = eta;
          occurred_at = occurred_at;
        }))
        r.pending_events;
}

unfoldable pub mark_completed : Time → Route → Result Route
mark_completed occurred_at r = do
  require (route_status_eq r.status scheduled || route_status_eq r.status in_progress)
      domain_conflict
  departure ← or_raise (departure_time r) domain_conflict
  eta ← or_raise (eta_final r) domain_conflict
  ok (finished departure eta occurred_at r)

unfoldable pub record_removal : List ℕ → Option ℕ → Time → Route → Route
record_removal detached released occurred_at r = record r {
  pending_events =
      record_event
        (route_removed (record {
          route_id = r.route_id;
          previous_status = r.status;
          previous_locations = locations r;
          previous_departure_time = departure_time r;
          previous_expected_completion_time = eta_final r;
          detached_package_ids = detached;
          released_truck_id = released;
          occurred_at = occurred_at;
        }))
        r.pending_events;
}

pub record RouteSnapshot : Type 0 where
  pub departure_time : Option Time
  pub status : RouteStatus
  pub truck : Option TruckRef
  pub packages : List PackageRef

unfoldable pub snapshot_state : Route → RouteSnapshot
snapshot_state r = record {
  departure_time = departure_time r;
  status = r.status;
  truck = r.truck;
  packages = r.packages;
}

-- `restore_state` calculates the schedule anew.
unfoldable pub restore_state : RouteSnapshot → Route → Result Route
unfolding build_optional
restore_state s r = do
  restored ← build_optional r.path s.departure_time
  ok (record r { schedule = restored; status = s.status; truck = s.truck; packages = s.packages })

abbrev pub unscheduled : Option RouteSchedule → Bool
unscheduled none = true
unscheduled (some s) = false

abbrev pub with_schedule : RouteSchedule → Time → Time → Route → Route
with_schedule s departure occurred_at r = record r {
  schedule = some s;
  status = scheduled;
  pending_events =
      record_event
        (route_scheduled (record {
          route_id = r.route_id;
          previous_status = r.status;
          new_status = scheduled;
          previous_departure_time = departure_time r;
          new_departure_time = departure;
          previous_expected_completion_time = eta_final r;
          new_expected_completion_time = Schedule.eta_final s;
          occurred_at = occurred_at;
        }))
        r.pending_events;
}

-- `DeliveryRoute.schedule`
unfoldable pub schedule : Time → Time → Route → Result Route
unfolding build
schedule departure occurred_at r = do
  require (unscheduled r.schedule) domain_conflict
  s ← build r.path.locations departure default_speed_kmph
  ok (with_schedule s departure occurred_at r)
