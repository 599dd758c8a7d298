-- ===== src/Scheduler/Total.antt =====
-- The scheduler returns a schedule for every path, and what that schedule holds.
use mathlib.Core.Path.{subst}
use fleet_flow.Base.{
  ℕ, ◌+◌, ◌≤◌, ◌<◌, ◌≡◌, ◌≢◌, refl, sym, ap, ◌∙◌, true, false, List, [], ◌∷◌, arith, leb, length,
  length-map, All, text_eq_iff, contains, Nodup,
}
use fleet_flow.Result.{Result, ok, err, >>=-eq-ok, require, domain_validation}
use fleet_flow.Location.{LocationCode, str}
use fleet_flow.Map.{get_locations, get_distance}
use fleet_flow.Map.Table.{get_distance_known}
use fleet_flow.Path.Valid.{IsPath}
use fleet_flow.Schedule.{
  Time, Duration, max_time, add_time, ScheduledStop, RouteSchedule, stop_locations, last_stop_from,
  eta_final,
}
use fleet_flow.Schedule.Valid.{
  Timeline, IsSchedule, IsValid, route_schedule_complete, route_schedule-IsValid,
  route_schedule_keeps,
}
use fleet_flow.Scheduler.{default_speed_kmph, travel_time, Timing, extend, time_legs, build}

abbrev leg_time : Result ℕ → Duration
leg_time (ok d) = travel_time d default_speed_kmph
leg_time (err e) = 0

-- The travel times between consecutive stops, added up.
unfoldable pub journey_time : List LocationCode → Duration
journey_time [] = 0
journey_time (a ∷ []) = 0
journey_time (a ∷ b ∷ r) = leg_time (get_distance (str a) (str b)) + journey_time (b ∷ r)

travel_time_pos : (d : ℕ) → 0 < d → 0 < travel_time d default_speed_kmph
unfolding travel_time
travel_time_pos d h = ground arith

abbrev stop_at : LocationCode → Time → ScheduledStop
stop_at c t = record { location = c; arrival_at = t }

-- The legs from `start` on are timed: they join the stops, which are the remaining locations.
record Timed (current : Time) (start : LocationCode) (more : List LocationCode) (t : Timing)
    : Type 0 where
  returned : time_legs default_speed_kmph current start more ≡ ok t
  joined : Timeline t.segments (stop_at start current ∷ t.stops)
  visits : stop_locations t.stops ≡ more
  arrives :
      (last_stop_from (stop_at start current) t.stops).arrival_at
      ≡ current + journey_time (start ∷ more)

ne_of_contains : (a b : LocationCode) (r : List LocationCode) → contains a (b ∷ r) ≡ false → a ≢ b
unfolding contains
ne_of_contains a b r h = ground (arith, text_eq_iff b a)

add_time_fits : (t : Time) (d : Duration) → t + d ≤ max_time → add_time t d ≡ ok (t + d)
unfolding add_time
add_time_fits t d h = ground arith

time_legs-Timed :
    (current : Time) (start : LocationCode) (more : List LocationCode)
    → All (λ x. contains x get_locations ≡ true) (start ∷ more)
    → Nodup (start ∷ more)
    → current + journey_time (start ∷ more) ≤ max_time
    → (t : Timing) × Timed current start more t
unfolding time_legs journey_time
time_legs-Timed current start [] known distinct fits = (
  record { segments = []; stops = [] },
  record { returned = refl; joined = tt; visits = refl; arrives = omega arith },
)
time_legs-Timed current start (end ∷ more) known distinct fits =
    let (d, there, back, positive) =
      get_distance_known start end known.0 known.1.0 (ne_of_contains start end more distinct.0) in
    let duration = travel_time d default_speed_kmph in
    let leg : leg_time (get_distance (str start) (str end)) ≡ duration = ap leg_time there in
    let (rest, timed) =
      time_legs-Timed (current + duration) end more known.1 distinct.1 (omega (arith, leg)) in
    (
      extend start end d duration (current + duration) rest,
      record {
        returned = rw (there, add_time_fits current duration (omega (arith, leg)), timed.returned);
        joined = (
          record {
            distance = positive;
            duration = travel_time_pos d positive;
            starts = refl;
            ends = refl;
            arrives = refl;
            in_range = omega (arith, leg);
          },
          timed.joined,
        );
        visits = ap (◌∷◌ end) timed.visits;
        arrives = omega (arith, leg, timed.arrives);
      },
    )

-- On a path of at least two different supported cities the scheduler returns a schedule, provided
-- that the arrival is not after `datetime.max`: a valid one, whose stops are the path's locations in
-- order, which departs at the given time and arrives at the last stop after all travel times.
pub build_total :
    (locations : List LocationCode) (departure : Time)
    → IsPath locations
    → departure + journey_time locations ≤ max_time
    → (s : RouteSchedule) × (build locations departure default_speed_kmph ≡ ok s)
      × IsValid s
      × (stop_locations s.stops ≡ locations)
      × (s.departure_time ≡ departure)
      × (eta_final s ≡ departure + journey_time locations)
unfolding build eta_final
build_total [] departure path fits = absurd (omega (arith, path.two_stops))
build_total (first ∷ more) departure path fits =
    let (t, timed) = time_legs-Timed departure first more path.supported path.distinct fits in
    let stops = stop_at first departure ∷ t.stops in
    let visits : stop_locations stops ≡ first ∷ more = ap (◌∷◌ first) timed.visits in
    let count : length stops ≡ length (first ∷ more) =
      sym (length-map (λ (st : ScheduledStop). st.location) stops) ∙ ap length visits in
    let valid : IsSchedule departure t.segments stops = record {
      two_stops = omega (arith, count, path.two_stops);
      departs = ground arith;
      distinct = subst Nodup (sym visits) path.distinct;
      timeline = timed.joined;
    } in
    let two : leb 2 (length (first ∷ more)) ≡ true = ground (arith, path.two_stops) in
    (
      record { departure_time = departure; segments = t.segments; stops = stops },
      rw (two, timed.returned) (route_schedule_complete departure t.segments stops valid),
      valid,
      visits,
      refl,
      timed.arrives,
    )

time_legs_visits :
    (speed : ℕ) (current : Time) (start : LocationCode) (more : List LocationCode) {t : Timing}
    → time_legs speed current start more ≡ ok t
    → stop_locations t.stops ≡ more
unfolding time_legs
time_legs_visits speed current start [] h = ground arith
time_legs_visits speed current start (end ∷ more) h =
    let (d, there, h1) = >>=-eq-ok (get_distance (str start) (str end)) _ h in
    let (arrival, added, h2) = >>=-eq-ok (add_time current (travel_time d speed)) _ h1 in
    let (rest, timed, h3) = >>=-eq-ok (time_legs speed arrival end more) _ h2 in
    let ih = time_legs_visits speed arrival end more timed in ground (arith, ih)

-- Whatever the speed and the locations: a schedule that the scheduler returns is valid, departs at
-- the given time and stops at the given locations in order.
pub build_sound :
    (locations : List LocationCode) (departure : Time) (speed : ℕ) (s : RouteSchedule)
    → build locations departure speed ≡ ok s
    → IsValid s × (stop_locations s.stops ≡ locations) × (s.departure_time ≡ departure)
unfolding build
build_sound [] departure speed s h = cc
build_sound (first ∷ more) departure speed s h =
    let (u, two, h1) = >>=-eq-ok (require (leb 2 (length (first ∷ more))) domain_validation) _ h in
    let (v, fast, h2) = >>=-eq-ok (require (leb 1 speed) domain_validation) _ h1 in
    let (t, timed, made) = >>=-eq-ok (time_legs speed departure first more) _ h2 in
    let stops = stop_at first departure ∷ t.stops in
    let same = route_schedule_keeps departure t.segments stops made in
    (
      route_schedule-IsValid departure t.segments stops s made,
      ap (λ (x : RouteSchedule). stop_locations x.stops) same
          ∙ ap (◌∷◌ first) (time_legs_visits speed departure first more timed),
      ap (λ (x : RouteSchedule). x.departure_time) same,
    )
