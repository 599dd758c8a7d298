-- ===== src/RouteView.antt =====
-- domain/entities/delivery_route.py, the properties and methods that only read the route.
use fleet_flow.Base.{ℕ, ◌+◌, List, [], ◌∷◌, Option, none, some, map}
use fleet_flow.Result.{Result, ok, err, domain_conflict, ◌>>=◌}
use fleet_flow.Location.{LocationCode, Raw, str, location_code}
use fleet_flow.Map.{get_distance}
use fleet_flow.Path
use fleet_flow.Path.{includes_in_order}
use fleet_flow.Schedule
use fleet_flow.Schedule.{
  Time, RoutePosition, RouteSchedule, unscheduled, arrival_time_at, position_at,
}
use fleet_flow.Weight.{Weight}
use fleet_flow.Load.{PackageLoad}
use fleet_flow.Load
use fleet_flow.World.{Package, Route, World, PackageRef}

abbrev pub departure_of : Option RouteSchedule → Option Time
departure_of none = none
departure_of (some s) = some s.departure_time

abbrev eta_of : Option RouteSchedule → Option Time
eta_of none = none
eta_of (some s) = some (Schedule.eta_final s)

abbrev pub departure_time : Route → Option Time
departure_time r = departure_of r.schedule

abbrev pub eta_final : Route → Option Time
eta_final r = eta_of r.schedule

abbrev pub locations : Route → List LocationCode
locations r = r.path.locations

abbrev pub start_location : Route → LocationCode
start_location r = Path.start r.path

abbrev pub end_location : Route → LocationCode
end_location r = Path.end r.path

-- `sum(Map.get_distance(start, end) for start, end in pairwise(locations))`
pub path_distance : List LocationCode → Result ℕ
unfolding get_distance
path_distance [] = ok 0
path_distance (a ∷ []) = ok 0
path_distance (a ∷ b ∷ r) = do
  d ← get_distance (str a) (str b)
  rest ← path_distance (b ∷ r)
  ok (d + rest)

distance_of : Option RouteSchedule → List LocationCode → Result ℕ
unfolding path_distance Schedule.total_distance_km
distance_of (some s) locations = ok (Schedule.total_distance_km s)
distance_of none locations = path_distance locations

unfoldable pub total_distance_km : Route → Result ℕ
unfolding distance_of
total_distance_km r = distance_of r.schedule r.path.locations

-- `now or datetime.now()`: a datetime is always true.
abbrev pub or_clock : Option Time → Time → Time
or_clock none clock = clock
or_clock (some now) clock = now

unscheduled_position : LocationCode → RoutePosition
unscheduled_position city = record {
  kind = unscheduled;
  from_city = none;
  to_city = none;
  stop_city = some city;
  next_eta = none;
}

position_of : Option RouteSchedule → LocationCode → Time → Result RoutePosition
unfolding unscheduled_position position_at
position_of none start now = ok (unscheduled_position start)
position_of (some s) start now = position_at s now

unfoldable pub current_position : Route → Option Time → Time → Result RoutePosition
unfolding position_of
current_position r now clock = position_of r.schedule (start_location r) (or_clock now clock)

arrival_on : Option RouteSchedule → Raw → Result Time
unfolding arrival_time_at location_code
arrival_on none city = err domain_conflict
arrival_on (some s) city = location_code city >>= λ code. arrival_time_at s code

-- `DeliveryRoute.arrival_time_at`
unfoldable pub route_arrival_time_at : Route → Raw → Result Time
unfolding arrival_on
route_arrival_time_at r city = arrival_on r.schedule city

abbrev pub package_load : Package → PackageLoad
package_load p = record {
  start_location = p.start_location;
  end_location = p.end_location;
  weight = p.weight;
}

abbrev pub loads : World → List PackageRef → List PackageLoad
loads w refs = map (λ ref. package_load (w.packages ref)) refs

abbrev load_of : Option Package → Option PackageLoad
load_of none = none
load_of (some p) = some (package_load p)

unfoldable pub maximum_segment_load : World → Route → Option Package → Weight
unfolding Load.maximum_segment_load
maximum_segment_load w r extra =
    Load.maximum_segment_load r.path.locations (loads w r.packages) (load_of extra)
