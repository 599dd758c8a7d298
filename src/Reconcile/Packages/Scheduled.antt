-- ===== src/Reconcile/Packages/Scheduled.antt =====
-- Where a package of a route is at a time: as the code computes it, and by the times of the stops.
use fleet_flow.Base.{
  ℕ, ◌≤◌, Bool, true, false, ◌≡◌, refl, ◌⊎◌, inl, inr, List, Option, none, some, arith, ltb, leb,
  dict_get, index_of, get_elem?-index_of, Bool-cases,
}
use fleet_flow.Location.{LocationCode}
use fleet_flow.Schedule.{Time}
use fleet_flow.Enums.{ItemStatus, todo, item_in_progress, done}
use fleet_flow.World.{Package, Route}
use fleet_flow.RouteView.{departure_time, locations}
use fleet_flow.Reconcile.Packages.{StopTimes, last_reached_city, is_ahead}
use fleet_flow.Reconcile.Packages.Window.{State, state_within}
use fleet_flow.Reconcile.Packages.Placed.{state_placed}
use fleet_flow.Reconcile.Packages.Reached.{
  IsReached, IsAhead, LastReached, IsSegment, segment-LastReached, index-lt,
}

-- Where a package is by its positions on the path: it waits, if it does not have both.
abbrev pub state_on : Route → StopTimes → Time → Option ℕ → Option ℕ → Package → State
state_on route times now none end p = (todo, p.start_location)
state_on route times now (some i) none p = (todo, p.start_location)
state_on route times now (some i) (some j) p = state_placed (ltb j i) route times now i j p

-- Where a package of the route is at a time: it waits, if the route is not scheduled.
abbrev pub state_from : Option Time → Route → StopTimes → Time → Package → State
state_from none route times now p = (todo, p.start_location)
state_from (some departure) route times now p =
    state_on route times now (index_of (locations route) p.start_location)
      (index_of (locations route) p.end_location) p

abbrev pub state_at : Route → StopTimes → Time → Package → State
state_at route times now p = state_from (departure_time route) route times now p

-- The route is scheduled, and goes from the package's start, at position `i`, to its end, at `j`.
pub record Carries (route : Route) (p : Package) (i j : ℕ) : Type 0 where
  pub departure : Time
  pub departs : departure_time route ≡ some departure
  pub start_at : index_of (locations route) p.start_location ≡ some i
  pub end_at : index_of (locations route) p.end_location ≡ some j
  pub in_order : i ≤ j

-- The status and the city of a package that is carried from position `i` to position `j`.
abbrev pub IsCarried :
    Route → StopTimes → Time → ℕ → ℕ → Package → ItemStatus → LocationCode → Type 0
IsCarried route times now i j p status city =
    (IsAhead times now p.start_location × (status ≡ todo) × (city ≡ p.start_location))
    ⊎ ((¬ IsAhead times now p.start_location)
        × IsReached times now p.end_location
        × (status ≡ done)
        × (city ≡ p.end_location))
    ⊎ ((¬ IsAhead times now p.start_location)
        × (¬ IsReached times now p.end_location)
        × (status ≡ item_in_progress)
        × (cities : List LocationCode) × IsSegment (locations route) i j cities
        × LastReached times now p.start_location cities city)

-- The status and the city of a package at a time, by the times of the stops of its route.
abbrev pub IsScheduled : Route → StopTimes → Time → Package → ItemStatus → LocationCode → Type 0
IsScheduled route times now p status city =
    (((i j : ℕ) → ¬ Carries route p i j) × (status ≡ todo) × (city ≡ p.start_location))
    ⊎ ((i : ℕ) × (j : ℕ) × Carries route p i j × IsCarried route times now i j p status city)

module _ (route : Route) (times : StopTimes) (now : Time) (p : Package) where
  is_ahead-IsAhead :
      (c : LocationCode) → is_ahead (dict_get times c) now ≡ true → IsAhead times now c
  is_ahead-IsAhead c h = go (dict_get times c) refl h
    where
      go : (o : Option Time) → dict_get times c ≡ o → is_ahead o now ≡ true → IsAhead times now c
      go none e h = cc
      go (some t) e h = (t, e, ground (arith, h))

  not-IsAhead : (c : LocationCode) → is_ahead (dict_get times c) now ≡ false → ¬ IsAhead times now c
  not-IsAhead c h (t, known, lt) = ground (arith, h, known, lt)

  module _ (i j : ℕ) (carries : Carries route p i j) where
    abbrev city : LocationCode
    city = last_reached_city route p.start_location i j times now

    on_the_way :
        (cities : List LocationCode) × IsSegment (locations route) i j cities
        × LastReached times now p.start_location cities city
    unfolding last_reached_city
    on_the_way =
        segment-LastReached times now (locations route) i j p.start_location carries.in_order (
          index-lt (locations route) j p.end_location
            (get_elem?-index_of (locations route) p.end_location j carries.end_at))

    within :
        (ahead : Bool) (delivery : Option Time)
        → is_ahead (dict_get times p.start_location) now ≡ ahead
        → dict_get times p.end_location ≡ delivery
        → IsCarried route times now i j p
            (state_within ahead delivery city now p).0
            (state_within ahead delivery city now p).1
    within true delivery before at = inl (is_ahead-IsAhead p.start_location before, refl, refl)
    within false none after at =
        let (cities, segment, last) = on_the_way in
        let start_passed = not-IsAhead p.start_location after in
        inr (inr (start_passed, λ (t, known, le). cc (known, at), refl, cities, segment, last))
    within false (some t) after at = elim (Bool-cases (leb t now)) [
      | inl late ↦
          let start_passed = not-IsAhead p.start_location after in
          rw late (inr (inl (start_passed, (t, at, ground (arith, late)), refl, refl)))
      | inr early ↦
          let (cities, segment, last) = on_the_way in
          let start_passed = not-IsAhead p.start_location after in
          let on_the_road : ¬ IsReached times now p.end_location =
            λ (t1, known, le). ground (arith, known, at, le, early) in
          rw early (inr (inr (start_passed, on_the_road, refl, cities, segment, last)))
    ]

  on-IsScheduled :
      (departure : Time) (start end : Option ℕ)
      → departure_time route ≡ some departure
      → index_of (locations route) p.start_location ≡ start
      → index_of (locations route) p.end_location ≡ end
      → IsScheduled route times now p
          (state_on route times now start end p).0
          (state_on route times now start end p).1
  on-IsScheduled departure none end departs at to = inl (λ i j w. cc (w.start_at, at), refl, refl)
  on-IsScheduled departure (some i) none departs at to =
      inl (λ i j w. cc (w.end_at, to), refl, refl)
  on-IsScheduled departure (some i) (some j) departs at to = elim (Bool-cases (ltb j i)) [
    | inl backwards ↦ rw backwards (
        inl (
          λ i' j' w. ground (arith, backwards, w.in_order, w.start_at, w.end_at, at, to),
          refl,
          refl,
        ))
    | inr forwards ↦
        let carries : Carries route p i j = record {
          departure = departure;
          departs = departs;
          start_at = at;
          end_at = to;
          in_order = ground (arith, forwards);
        } in
        rw forwards (inr (i, j, carries, within i j carries _ _ refl refl))
  ]

  from-IsScheduled :
      (departure : Option Time)
      → departure_time route ≡ departure
      → IsScheduled route times now p
          (state_from departure route times now p).0
          (state_from departure route times now p).1
  from-IsScheduled none never = inl (λ i j w. cc (w.departs, never), refl, refl)
  from-IsScheduled (some departure) departs = on-IsScheduled departure _ _ departs refl refl

  -- The state that the code computes is the one by the times of the stops.
  pub state_at-IsScheduled :
      IsScheduled route times now p (state_at route times now p).0 (state_at route times now p).1
  state_at-IsScheduled = from-IsScheduled (departure_time route) refl
