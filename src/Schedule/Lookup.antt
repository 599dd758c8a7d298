-- ===== src/Schedule/Lookup.antt =====
-- What the dictionaries of a schedule hold for a stop of it.
use fleet_flow.Base.{
  suc, ◌+◌, ◌≡◌, refl, ap, false, List, [], ◌∷◌, ◌++◌, Option, none, some, map, arith, length,
  get_elem?, append_step, contains, Nodup, dict_get_here, index_of-get_elem?,
}
use fleet_flow.Result.{ok}
use fleet_flow.Location.{LocationCode}
use fleet_flow.Schedule.{
  Time, ScheduledStop, RouteSchedule, stop_locations, arrival_times, stop_indices, stop_eta,
  next_stop_eta, last_stop_from, last_stop,
}

abbrev keyed : ScheduledStop → LocationCode × Time
keyed st = (st.location, st.arrival_at)

keys-keyed :
    (r : List ScheduledStop)
    → map (λ (e : LocationCode × Time). e.0) (map keyed r) ≡ stop_locations r
keys-keyed [] = refl
keys-keyed (a ∷ r) = ap (◌∷◌ a.location) (keys-keyed r)

map-keyed-append :
    (pre : List ScheduledStop) (a : ScheduledStop) (r : List ScheduledStop)
    → map keyed (pre ++ a ∷ r) ≡ map keyed pre ++ keyed a ∷ map keyed r
map-keyed-append [] a r = refl
map-keyed-append (x ∷ pre) a r = ap (◌∷◌ (keyed x)) (map-keyed-append pre a r)

absent_after :
    (pre : List ScheduledStop) (a : ScheduledStop) (r : List ScheduledStop)
    → Nodup (stop_locations (pre ++ a ∷ r))
    → contains a.location (stop_locations r) ≡ false
absent_after [] a r d = d.0
absent_after (x ∷ pre) a r d = absent_after pre a r d.1

-- Each stop is found at its arrival time.
pub arrival_times_here :
    (pre : List ScheduledStop) (a : ScheduledStop) (r : List ScheduledStop)
    → Nodup (stop_locations (pre ++ a ∷ r))
    → arrival_times (pre ++ a ∷ r) a.location ≡ some a.arrival_at
unfolding arrival_times
arrival_times_here pre a r d = rw (map-keyed-append pre a r) (
    dict_get_here (map keyed pre) a.location a.arrival_at (map keyed r)
      (rw (keys-keyed r) (absent_after pre a r d)))

get_elem?-stop_locations :
    (pre : List ScheduledStop) (a : ScheduledStop) (r : List ScheduledStop)
    → get_elem? (stop_locations (pre ++ a ∷ r)) (length pre) ≡ some a.location
get_elem?-stop_locations [] a r = refl
get_elem?-stop_locations (x ∷ pre) a r = get_elem?-stop_locations pre a r

stop_indices_here :
    (pre : List ScheduledStop) (a : ScheduledStop) (r : List ScheduledStop)
    → Nodup (stop_locations (pre ++ a ∷ r))
    → stop_indices (pre ++ a ∷ r) a.location ≡ some (length pre)
unfolding stop_indices
stop_indices_here pre a r d =
    index_of-get_elem? (stop_locations (pre ++ a ∷ r)) (length pre) a.location d
      (get_elem?-stop_locations pre a r)

abbrev pub next_arrival : List ScheduledStop → Option Time
next_arrival [] = none
next_arrival (c ∷ r) = some c.arrival_at

get_elem?-after :
    (pre : List ScheduledStop) (a : ScheduledStop) (r : List ScheduledStop)
    → get_elem? (pre ++ a ∷ r) (suc (length pre)) ≡ get_elem? r 0
get_elem?-after [] a r = refl
get_elem?-after (x ∷ pre) a r = get_elem?-after pre a r

stop_eta_after :
    (pre : List ScheduledStop) (a : ScheduledStop) (r : List ScheduledStop)
    → Nodup (stop_locations (pre ++ a ∷ r))
    → stop_eta (pre ++ a ∷ r) (get_elem? r 0) ≡ ok (next_arrival r)
stop_eta_after pre a [] d = refl
stop_eta_after pre a (c ∷ r) d =
    let e = append_step pre a (c ∷ r) in
    let found = arrival_times_here (pre ++ a ∷ []) c r (rw e at d) in rw e (rw found)

-- After a stop comes the arrival at the next one, if there is one.
pub next_stop_eta_here :
    (s : RouteSchedule) (pre : List ScheduledStop) (a : ScheduledStop) (r : List ScheduledStop)
    → s.stops ≡ pre ++ a ∷ r
    → Nodup (stop_locations (pre ++ a ∷ r))
    → next_stop_eta s a.location ≡ ok (next_arrival r)
unfolding next_stop_eta
next_stop_eta_here s pre a r e d =
    let one : length pre + 1 ≡ suc (length pre) = omega arith in
    rw (e, stop_indices_here pre a r d)
      (rw one (rw (get_elem?-after pre a r) (stop_eta_after pre a r d)))

pub last_stop-append :
    (pre : List ScheduledStop) (a : ScheduledStop) → last_stop (pre ++ a ∷ []) ≡ a
last_stop-append pre a = from pre _
  where
    from : (pre : List ScheduledStop) (d : ScheduledStop) → last_stop_from d (pre ++ a ∷ []) ≡ a
    from [] d = refl
    from (x ∷ pre) d = from pre x
