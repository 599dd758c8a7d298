-- ===== src/Scheduler.antt =====
-- domain/services/route_scheduler.py: the schedule of a route from its locations and departure.
pub mod Total
use fleet_flow.Base.{ℕ, ◌+◌, ◌*◌, Bool, List, [], ◌∷◌, leb, length, round_half_even}
use fleet_flow.Result.{Result, ok, err, domain_validation, ◌>>=◌, ◌>>◌, require}
use fleet_flow.Location.{LocationCode, str}
use fleet_flow.Map.{get_distance}
use fleet_flow.Schedule.{
  Time, Duration, add_time, RouteSegment, ScheduledStop, RouteSchedule, route_schedule,
}

abbrev pub default_speed_kmph : ℕ
default_speed_kmph = 87

-- `timedelta(hours=distance_km / speed)`: to the nearest microsecond. The source divides two
-- doubles first; at 87 km/h the exact quotient is at least 1/58 of a microsecond from a tie and the
-- double is within 1/10000 of it for distances below 10000 km, so the result is the same.
unfoldable pub travel_time : ℕ → ℕ → Duration
unfolding round_half_even
travel_time distance_km speed = round_half_even (distance_km * 3_600_000_000) speed

-- What the loop has appended.
pub record Timing : Type 0 where
  pub segments : List RouteSegment
  pub stops : List ScheduledStop

-- The body of the loop, in front of what the later rounds append.
abbrev extend : LocationCode → LocationCode → ℕ → Duration → Time → Timing → Timing
extend start end distance duration arrival rest = record {
  segments =
      record { start = start; end = end; distance_km = distance; duration = duration }
      ∷ rest.segments;
  stops = record { location = end; arrival_at = arrival } ∷ rest.stops;
}

-- The loop over `pairwise(locations)`, from the location `start` that is reached at `current`.
unfoldable pub time_legs : ℕ → Time → LocationCode → List LocationCode → Result Timing
unfolding get_distance add_time travel_time
time_legs speed current start [] = ok (record { segments = []; stops = [] })
time_legs speed current start (end ∷ more) = do
  distance ← get_distance (str start) (str end)
  arrival ← add_time current (travel_time distance speed)
  rest ← time_legs speed arrival end more
  ok (extend start end distance (travel_time distance speed) arrival rest)

abbrev build_from : ℕ → Time → List LocationCode → Result RouteSchedule
build_from speed departure [] = err domain_validation
build_from speed departure (first ∷ more) = do
  timing ← time_legs speed departure first more
  route_schedule departure timing.segments
      (record { location = first; arrival_at = departure } ∷ timing.stops)

unfoldable pub build : List LocationCode → Time → ℕ → Result RouteSchedule
unfolding time_legs route_schedule
build locations departure speed = do
  require (leb 2 (length locations)) domain_validation
  require (leb 1 speed) domain_validation
  build_from speed departure locations
