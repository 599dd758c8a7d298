-- ===== src/Schedule/Valid.antt =====
-- Exactly which stops and segments are accepted as a schedule.
use fleet_flow.Base.{
  suc, ◌+◌, ◌-◌, ◌≤◌, ◌<◌, ◌≡◌, refl, sym, ◌∙◌, true, List, [], ◌∷◌, arith, length, text_eq_iff,
  distinct_count, Nodup, Nodup-of_count, count_of_Nodup, ◌↔◌, length-map,
}
use fleet_flow.Result.{ok, >>=-eq-ok}
use fleet_flow.Schedule.{
  Time, max_time, RouteSegment, ScheduledStop, RouteSchedule, stop_locations, departs_at,
  check_segment, check_segments, route_schedule,
}

-- The segment leads from the one stop to the next, in its duration.
pub record Joins (g : RouteSegment) (a b : ScheduledStop) : Type 0 where
  pub distance : 0 < g.distance_km
  pub duration : 0 < g.duration
  pub starts : g.start ≡ a.location
  pub ends : g.end ≡ b.location
  pub arrives : a.arrival_at + g.duration ≡ b.arrival_at
  pub in_range : b.arrival_at ≤ max_time

-- The segments join the stops one after another.
abbrev pub Timeline : List RouteSegment → List ScheduledStop → Type 0
Timeline [] [] = ⊥
Timeline [] (a ∷ []) = Unit
Timeline [] (a ∷ b ∷ r) = ⊥
Timeline (g ∷ gs) [] = ⊥
Timeline (g ∷ gs) (a ∷ []) = ⊥
Timeline (g ∷ gs) (a ∷ b ∷ r) = Joins g a b × Timeline gs (b ∷ r)

pub record IsSchedule (departure : Time) (segments : List RouteSegment) (stops : List ScheduledStop)
    : Type 0 where
  pub two_stops : 2 ≤ length stops
  pub departs : departs_at departure stops ≡ true
  pub distinct : Nodup (stop_locations stops)
  pub timeline : Timeline segments stops

abbrev pub IsValid : RouteSchedule → Type 0
IsValid s = IsSchedule s.departure_time s.segments s.stops

check_segment-Joins :
    (g : RouteSegment) (a b : ScheduledStop) {u : Unit {0}}
    → check_segment g a b ≡ ok u
    → Joins g a b
unfolding check_segment
check_segment-Joins g a b h =
    ground (arith, text_eq_iff g.start a.location, text_eq_iff g.end b.location)

Joins-check_segment :
    (g : RouteSegment) (a b : ScheduledStop) → Joins g a b → check_segment g a b ≡ ok tt
unfolding check_segment
Joins-check_segment g a b h =
    ground (arith, text_eq_iff g.start a.location, text_eq_iff g.end b.location)

check_segments-Timeline :
    (gs : List RouteSegment) (stops : List ScheduledStop) {u : Unit {0}}
    → suc (length gs) ≡ length stops
    → check_segments gs stops ≡ ok u
    → Timeline gs stops
unfolding check_segments
check_segments-Timeline [] [] n h = absurd (omega arith)
check_segments-Timeline [] (a ∷ []) n h = tt
check_segments-Timeline [] (a ∷ b ∷ r) n h = absurd (omega arith)
check_segments-Timeline (g ∷ gs) [] n h = cc
check_segments-Timeline (g ∷ gs) (a ∷ []) n h = cc
check_segments-Timeline (g ∷ gs) (a ∷ b ∷ r) n h =
    let (u, first, rest) = >>=-eq-ok (check_segment g a b) (λ _. check_segments gs (b ∷ r)) h in
    (check_segment-Joins g a b first, check_segments-Timeline gs (b ∷ r) (omega arith) rest)

Timeline-check_segments :
    (gs : List RouteSegment) (stops : List ScheduledStop)
    → Timeline gs stops
    → (check_segments gs stops ≡ ok tt) × (suc (length gs) ≡ length stops)
unfolding check_segments
Timeline-check_segments [] [] h = absurd h
Timeline-check_segments [] (a ∷ []) h = (refl, refl)
Timeline-check_segments [] (a ∷ b ∷ r) h = absurd h
Timeline-check_segments (g ∷ gs) [] h = absurd h
Timeline-check_segments (g ∷ gs) (a ∷ []) h = absurd h
Timeline-check_segments (g ∷ gs) (a ∷ b ∷ r) h =
    let (rest, n) = Timeline-check_segments gs (b ∷ r) h.1 in
    (rw (Joins-check_segment g a b h.0) rest, omega arith)

route_schedule_sound :
    (departure : Time) (segments : List RouteSegment) (stops : List ScheduledStop)
    {s : RouteSchedule}
    → route_schedule departure segments stops ≡ ok s
    → IsSchedule departure segments stops
unfolding route_schedule
route_schedule_sound departure segments stops h =
    let two : 2 ≤ length stops = ground arith in
    let checked : check_segments segments stops ≡ ok tt = ground arith in
    let counted : length segments ≡ length stops - 1 = ground arith in
    let count : distinct_count (stop_locations stops) ≡ length stops = ground arith in
    record {
      two_stops = two;
      departs = ground arith;
      distinct =
          Nodup-of_count (stop_locations stops)
            (count ∙ sym (length-map (λ (st : ScheduledStop). st.location) stops));
      timeline = check_segments-Timeline segments stops (omega arith) checked;
    }

pub route_schedule_keeps :
    (departure : Time) (segments : List RouteSegment) (stops : List ScheduledStop)
    {s : RouteSchedule}
    → route_schedule departure segments stops ≡ ok s
    → s ≡ record { departure_time = departure; segments = segments; stops = stops }
unfolding route_schedule
route_schedule_keeps departure segments stops h = ground arith

pub route_schedule_complete :
    (departure : Time) (segments : List RouteSegment) (stops : List ScheduledStop)
    → IsSchedule departure segments stops
    → route_schedule departure segments stops
      ≡ ok (record { departure_time = departure; segments = segments; stops = stops })
unfolding route_schedule
route_schedule_complete departure segments stops v =
    let (checked, n) = Timeline-check_segments segments stops v.timeline in
    ground (
      arith,
      count_of_Nodup (stop_locations stops) v.distinct,
      length-map (λ (st : ScheduledStop). st.location) stops,
    )

-- The constructor accepts exactly the schedules with at least two stops at different locations, the
-- first of them at the departure time, and one segment of positive length and duration from each
-- stop to the next, whose duration is the time between them; it returns what it was given.
pub route_schedule_iff :
    (departure : Time) (segments : List RouteSegment) (stops : List ScheduledStop)
    → (route_schedule departure segments stops
        ≡ ok (record { departure_time = departure; segments = segments; stops = stops }))
      ↔ IsSchedule departure segments stops
route_schedule_iff departure segments stops = (
  route_schedule_sound departure segments stops,
  route_schedule_complete departure segments stops,
)

-- A schedule that the constructor returned is valid.
pub route_schedule-IsValid :
    (departure : Time) (segments : List RouteSegment) (stops : List ScheduledStop)
    (s : RouteSchedule)
    → route_schedule departure segments stops ≡ ok s
    → IsValid s
route_schedule-IsValid departure segments stops s h =
    rw (route_schedule_keeps departure segments stops h)
      (route_schedule_sound departure segments stops h)
