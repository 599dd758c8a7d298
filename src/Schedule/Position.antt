-- ===== src/Schedule/Position.antt =====
-- `position_at` against a description of the position by the stops alone.
use mathlib.Core.Path.{subst}
use fleet_flow.Base.{
  ◌<◌, ◌≡◌, refl, sym, ap, ◌∙◌, true, List, [], ◌∷◌, ◌++◌, none, some, arith, ltb, leb, ◌==◌,
  if◌then◌else◌, text_eq_iff, Nodup, append_step, length, inl, inr, Bool-cases,
}
use fleet_flow.Result.{ok}
use fleet_flow.Schedule.{
  Time, RoutePosition, in_transit, RouteSegment, ScheduledStop, RouteSchedule, stop_locations,
  first_stop, last_stop, arrival_times, position_before_start, position_at_stop, position_between,
  position_after_end, place_on_segment, position_on_segment, position_after_segments, scan_segments,
  position_at, next_stop_eta,
}
use fleet_flow.Schedule.Valid.{Joins, Timeline, IsValid}
use fleet_flow.Schedule.Lookup.{
  arrival_times_here, next_arrival, next_stop_eta_here, last_stop-append,
}

-- The position of a route that has reached the stop `a`, with the stops `r` ahead of it.
unfoldable pub position_from : Time → ScheduledStop → List ScheduledStop → RoutePosition
position_from now a [] = position_after_end a.location
position_from now a (b ∷ r) =
    let later = position_from now b r in
    if ltb now b.arrival_at
    then position_between in_transit a.location b.location b.arrival_at
    else if now == b.arrival_at
    then position_at_stop b.location (next_arrival r)
    else later

-- Before the first stop's time the route has not begun; from then on the stops are passed in order.
unfoldable pub position_by_stops : Time → List ScheduledStop → RoutePosition
unfolding position_from
position_by_stops now [] = position_after_end []
position_by_stops now (a ∷ r) =
    if ltb now a.arrival_at
    then position_before_start a.location a.arrival_at
    else position_from now a r

module _ (s : RouteSchedule) (now : Time) (distinct : Nodup (stop_locations s.stops)) where
  abbrev first : ScheduledStop
  first = first_stop s.stops

  here :
      (pre : List ScheduledStop) (a : ScheduledStop) (r : List ScheduledStop)
      → s.stops ≡ pre ++ a ∷ r
      → arrival_times s.stops a.location ≡ some a.arrival_at
  here pre a r e =
      rw e (arrival_times_here pre a r (subst (λ l. Nodup (stop_locations l)) e distinct))

  after_last :
      (pre : List ScheduledStop) (a : ScheduledStop)
      → s.stops ≡ pre ++ a ∷ []
      → leb a.arrival_at now ≡ true
      → position_after_segments s now first.arrival_at ≡ ok (position_after_end a.location)
  unfolding position_after_segments
  after_last pre a e reached =
      let l : last_stop s.stops ≡ a = rw e (last_stop-append pre a) in
      rw (l, here pre a [] e, reached)

  placed :
      (a b : ScheduledStop) (r : List ScheduledStop) (g : RouteSegment)
      → Joins g a b
      → next_stop_eta s b.location ≡ ok (next_arrival r)
      → leb a.arrival_at now ≡ true
      → (now ≡ a.arrival_at → a.location ≡ first.location)
      → place_on_segment s g now first.location a.arrival_at b.arrival_at
        ≡ ok (if ltb b.arrival_at now then none else some (position_from now a (b ∷ r)))
  unfolding place_on_segment position_from
  placed a b r g joins following reached at_first =
      ground (arith, text_eq_iff g.start first.location)

  place :
      (pre : List ScheduledStop) (a b : ScheduledStop) (r : List ScheduledStop) (g : RouteSegment)
      → s.stops ≡ pre ++ a ∷ b ∷ r
      → Joins g a b
      → leb a.arrival_at now ≡ true
      → (now ≡ a.arrival_at → a.location ≡ first.location)
      → position_on_segment s g now first.location
        ≡ ok (if ltb b.arrival_at now then none else some (position_from now a (b ∷ r)))
  unfolding position_on_segment
  place pre a b r g e joins reached at_first =
      let e' : s.stops ≡ (pre ++ a ∷ []) ++ b ∷ r = e ∙ append_step pre a (b ∷ r) in
      let d' = subst (λ l. Nodup (stop_locations l)) e' distinct in
      let start : arrival_times s.stops g.start ≡ some a.arrival_at =
        rw joins.starts (here pre a (b ∷ r) e) in
      let end : arrival_times s.stops g.end ≡ some b.arrival_at =
        rw joins.ends (here (pre ++ a ∷ []) b r e') in
      rw (start, end)
        (placed a b r g joins (next_stop_eta_here s (pre ++ a ∷ []) b r e' d') reached at_first)

  passed :
      (a b : ScheduledStop) (r : List ScheduledStop)
      → b.arrival_at < now
      → position_from now b r ≡ position_from now a (b ∷ r)
  unfolding position_from
  passed a b r h = ground arith

  scan :
      (gs : List RouteSegment) (pre : List ScheduledStop) (a : ScheduledStop)
      (r : List ScheduledStop)
      → s.stops ≡ pre ++ a ∷ r
      → Timeline gs (a ∷ r)
      → leb a.arrival_at now ≡ true
      → (now ≡ a.arrival_at → a.location ≡ first.location)
      → scan_segments s now first.arrival_at first.location gs ≡ ok (position_from now a r)
  unfolding scan_segments position_from
  scan [] pre a [] e t reached at_first = after_last pre a e reached
  scan [] pre a (b ∷ r) e t reached at_first = absurd t
  scan (g ∷ gs) pre a [] e t reached at_first = absurd t
  scan (g ∷ gs) pre a (b ∷ r) e t reached at_first =
      let found = place pre a b r g e t.0 reached at_first in
      elim (Bool-cases (ltb b.arrival_at now)) [
        | inl past ↦
            let ih =
              scan gs (pre ++ a ∷ []) b r (e ∙ append_step pre a (b ∷ r)) t.1 (ground arith)
                (ground arith) in
            rw (found, past) (ih ∙ ap ok (passed a b r (ground arith)))
        | inr now_here ↦ rw (found, now_here)
      ]

-- On a valid schedule `position_at` never raises, and returns the position that the stops alone
-- describe: before the first stop's time it is before the start; a time strictly between two
-- consecutive stops, and the departure itself, is in transit between them; the exact time of a later
-- stop is at that stop, with the next arrival if there is one; after the last it is after the end.
pub position_at-eq-position_by_stops :
    (s : RouteSchedule) (now : Time)
    → IsValid s
    → position_at s now ≡ ok (position_by_stops now s.stops)
unfolding position_at position_by_stops
position_at-eq-position_by_stops s now v = go s.stops refl v.timeline
  where
    go :
        (stops : List ScheduledStop)
        → s.stops ≡ stops
        → Timeline s.segments stops
        → position_at s now ≡ ok (position_by_stops now stops)
    go [] e t = absurd (omega (arith, ap length e, v.two_stops))
    go (a ∷ r) e t =
        let f : first_stop s.stops ≡ a = rw e in
        let found : arrival_times s.stops (first_stop s.stops).location ≡ some a.arrival_at =
          rw f (here s now v.distinct [] a r e) in
        elim (Bool-cases (ltb now a.arrival_at)) [
          | inl early ↦ rw (found, early) (rw f)
          | inr reached ↦
              rw (found, reached)
                (subst
                  (λ x.
                    scan_segments s now x.arrival_at (first_stop s.stops).location s.segments
                    ≡ ok (position_from now a r))
                  f
                  (scan s now v.distinct s.segments [] a r e t (ground arith)
                    (λ _. ap (λ (x : ScheduledStop). x.location) (sym f))))
        ]
