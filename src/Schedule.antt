-- ===== src/Schedule.antt =====
-- domain/value_objects/route_schedule.py: the timed stops and segments of a route, and the position
-- at a time.
--
-- A `datetime` is the number of microseconds since `datetime.min`, its resolution, and a `timedelta`
-- that is not negative is a number of microseconds. The timestamps of the model are timezone-naive
-- by their type, so the checks for that have no counterpart.
pub mod Valid
pub mod Lookup
pub mod Position
use fleet_flow.Base.{
  ℕ, ◌+◌, ◌-◌, ◌≡◌, Bool, true, false, ◌&&◌, List, [], ◌∷◌, Option, none, some, map, ltb, leb, ◌==◌,
  if◌then◌else◌, length, get_elem?, text_eq, distinct_count, dict_get, index_of,
}
use fleet_flow.Result.{
  Result, ok, err, domain_validation, key_error, overflow_error, ◌>>=◌, ◌>>◌, require, or_raise,
}
use fleet_flow.Location.{LocationCode}

abbrev pub Time : Type 0
Time = ℕ

abbrev pub Duration : Type 0
Duration = ℕ

-- `datetime.max`, 9999-12-31 23:59:59.999999
unfoldable pub max_time : Time
max_time = 315_537_897_599_999_999

-- `t + d` on a datetime and a timedelta
unfoldable pub add_time : Time → Duration → Result Time
add_time t d = if leb (t + d) max_time then ok (t + d) else err overflow_error

pub data RoutePositionKind : Type 0 where
  unscheduled before_start at_stop in_transit after_end : RoutePositionKind

pub record RoutePosition : Type 0 where
  pub kind : RoutePositionKind
  pub from_city : Option LocationCode
  pub to_city : Option LocationCode
  pub stop_city : Option LocationCode
  pub next_eta : Option Time

pub record RouteSegment : Type 0 where
  pub start : LocationCode
  pub end : LocationCode
  pub distance_km : ℕ
  pub duration : Duration

pub record ScheduledStop : Type 0 where
  pub location : LocationCode
  pub arrival_at : Time

pub record RouteSchedule : Type 0 where
  pub departure_time : Time
  pub segments : List RouteSegment
  pub stops : List ScheduledStop

abbrev pub stop_locations : List ScheduledStop → List LocationCode
stop_locations = map (λ st. st.location)

-- `_arrival_times.get(k)` and `_stop_indices.get(k)`
unfoldable pub arrival_times : List ScheduledStop → LocationCode → Option Time
unfolding dict_get
arrival_times stops k = dict_get (map (λ st. (st.location, st.arrival_at)) stops) k

unfoldable pub stop_indices : List ScheduledStop → LocationCode → Option ℕ
unfolding index_of
stop_indices stops k = index_of (stop_locations stops) k

-- `self.stops[0].arrival_at == self.departure_time`
abbrev pub departs_at : Time → List ScheduledStop → Bool
departs_at t [] = false
departs_at t (a ∷ r) = a.arrival_at == t

-- The body of the loop over the segments, and the loop.
unfoldable pub check_segment : RouteSegment → ScheduledStop → ScheduledStop → Result (Unit {0})
unfolding add_time text_eq
check_segment g current next = do
  require (ltb 0 g.distance_km) domain_validation
  require (ltb 0 g.duration) domain_validation
  require (text_eq g.start current.location) domain_validation
  require (text_eq g.end next.location) domain_validation
  arrival ← add_time current.arrival_at g.duration
  require (arrival == next.arrival_at) domain_validation

unfoldable pub check_segments : List RouteSegment → List ScheduledStop → Result (Unit {0})
unfolding check_segment
check_segments [] stops = ok tt
check_segments (g ∷ gs) [] = err domain_validation
check_segments (g ∷ gs) (a ∷ []) = err domain_validation
check_segments (g ∷ gs) (a ∷ b ∷ r) = check_segment g a b >> check_segments gs (b ∷ r)

-- `RouteSchedule(departure_time, segments, stops)`, with the checks of `__post_init__`. The loop
-- does not run past the stops, because their number has been compared before.
unfoldable pub route_schedule : Time → List RouteSegment → List ScheduledStop → Result RouteSchedule
unfolding check_segments
route_schedule departure segments stops = do
  require (leb 2 (length stops)) domain_validation
  require (length segments == length stops - 1) domain_validation
  require (departs_at departure stops) domain_validation
  require (distinct_count (stop_locations stops) == length stops) domain_validation
  check_segments segments stops
  ok (record { departure_time = departure; segments = segments; stops = stops })

-- `self.stops[0]` and `self.stops[-1]`; a schedule has stops, so the default is never taken.
abbrev pub no_stop : ScheduledStop
no_stop = record { location = []; arrival_at = 0 }

abbrev pub first_stop : List ScheduledStop → ScheduledStop
first_stop [] = no_stop
first_stop (a ∷ r) = a

abbrev pub last_stop_from : ScheduledStop → List ScheduledStop → ScheduledStop
last_stop_from a [] = a
last_stop_from a (b ∷ r) = last_stop_from b r

abbrev pub last_stop : List ScheduledStop → ScheduledStop
last_stop = last_stop_from no_stop

-- `self.stops[-1].arrival_at`
unfoldable pub eta_final : RouteSchedule → Time
eta_final s = (last_stop s.stops).arrival_at

abbrev pub sum_distances : List RouteSegment → ℕ
sum_distances [] = 0
sum_distances (g ∷ gs) = g.distance_km + sum_distances gs

unfoldable pub total_distance_km : RouteSchedule → ℕ
total_distance_km s = sum_distances s.segments

unfoldable pub arrival_time_at : RouteSchedule → LocationCode → Result Time
unfolding arrival_times
arrival_time_at s location = or_raise (arrival_times s.stops location) domain_validation

abbrev pub position_before_start : LocationCode → Time → RoutePosition
position_before_start city eta = record {
  kind = before_start;
  from_city = none;
  to_city = none;
  stop_city = some city;
  next_eta = some eta;
}

abbrev pub position_at_stop : LocationCode → Option Time → RoutePosition
position_at_stop city eta = record {
  kind = at_stop;
  from_city = none;
  to_city = none;
  stop_city = some city;
  next_eta = eta;
}

-- On the way between two cities, in one of the two kinds that `_position_on_segment` gives it.
abbrev pub position_between : RoutePositionKind → LocationCode → LocationCode → Time → RoutePosition
position_between kind from to eta = record {
  kind = kind;
  from_city = some from;
  to_city = some to;
  stop_city = none;
  next_eta = some eta;
}

abbrev pub position_after_end : LocationCode → RoutePosition
position_after_end city = record {
  kind = after_end;
  from_city = none;
  to_city = none;
  stop_city = some city;
  next_eta = none;
}

abbrev stop_eta : List ScheduledStop → Option ScheduledStop → Result (Option Time)
stop_eta stops none = ok none
stop_eta stops (some st) = or_raise (arrival_times stops st.location) key_error >>= λ t. ok (some t)

-- `_next_stop_eta`; past the last stop there is no element.
pub next_stop_eta : RouteSchedule → LocationCode → Result (Option Time)
unfolding stop_indices arrival_times
next_stop_eta s city = do
  index ← or_raise (stop_indices s.stops city) key_error
  stop_eta s.stops (get_elem? s.stops (index + 1))

-- The tests of `_position_on_segment`, on the two times that it has looked up.
place_on_segment :
    RouteSchedule → RouteSegment → Time → LocationCode → Time → Time → Result (Option RoutePosition)
unfolding next_stop_eta text_eq
place_on_segment s g now first_city start_time end_time =
    if now == start_time
    then ok (
        some (
          position_between (if text_eq g.start first_city then in_transit else at_stop) g.start
            g.end end_time))
    else if now == end_time
    then (next_stop_eta s g.end >>= λ eta. ok (some (position_at_stop g.end eta)))
    else if ltb start_time now && ltb now end_time
    then ok (some (position_between in_transit g.start g.end end_time))
    else ok none

position_on_segment :
    RouteSchedule → RouteSegment → Time → LocationCode → Result (Option RoutePosition)
unfolding place_on_segment arrival_times
position_on_segment s g now first_city = do
  start_time ← or_raise (arrival_times s.stops g.start) key_error
  end_time ← or_raise (arrival_times s.stops g.end) key_error
  place_on_segment s g now first_city start_time end_time

position_after_segments : RouteSchedule → Time → Time → Result RoutePosition
unfolding arrival_times
position_after_segments s now first_departure =
    or_raise (arrival_times s.stops (last_stop s.stops).location) key_error >>= λ end_time.
    if leb end_time now
    then ok (position_after_end (last_stop s.stops).location)
    else ok (position_at_stop (first_stop s.stops).location (some first_departure))

-- The loop over the segments, and what follows it.
scan_segments :
    RouteSchedule → Time → Time → LocationCode → List RouteSegment → Result RoutePosition
unfolding position_on_segment position_after_segments
scan_segments s now first_departure first_city [] = position_after_segments s now first_departure
scan_segments s now first_departure first_city (g ∷ gs) =
    let rest = scan_segments s now first_departure first_city gs in
    position_on_segment s g now first_city >>= λ p. elim p [ some found ↦ ok found | none ↦ rest ]

unfoldable pub position_at : RouteSchedule → Time → Result RoutePosition
unfolding scan_segments
position_at s now =
    let first_city = (first_stop s.stops).location in
    or_raise (arrival_times s.stops first_city) key_error >>= λ first_departure.
    if ltb now first_departure
    then ok (position_before_start first_city first_departure)
    else scan_segments s now first_departure first_city s.segments
