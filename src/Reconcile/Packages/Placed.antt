-- ===== src/Reconcile/Packages/Placed.antt =====
-- The correction of a package that has both its locations on the path.
use fleet_flow.Base.{ℕ, Bool, true, false, ◌≡◌, refl, ap, sym, ◌∙◌, Option, none, some, dict_get}
use mathlib.Core.Path.{subst}
use fleet_flow.Result.{Result, ◌>>=◌, ok, >>=-eq-ok, ok_injective}
use fleet_flow.Location.{LocationCode, str}
use fleet_flow.Schedule.{Time}
use fleet_flow.Enums.{todo}
use fleet_flow.World.{Package, Route}
use fleet_flow.RouteView.{route_arrival_time_at}
use fleet_flow.Reconcile.Repairs.{
  PackageReconciliationReason, Correction, without_window, route_path_invalid,
}
use fleet_flow.Reconcile.Repairs.Stands.{
  Stands, SameTrip, without_window-Stands, without_window_again,
}
use fleet_flow.Reconcile.Packages.{
  StopTimes, with_arrival, within_window, correct_placed, last_reached_city, suppress_value_error,
  is_ahead,
}
use fleet_flow.Reconcile.Packages.Window.{
  State, In, IsNamed, unchanged, state_within, within_window-Stands, within_window_again,
  with_arrival-In, with_arrival_again, city-named,
}

-- Where a package is, whose positions on the path are `i` and `j`, in order or backwards.
abbrev pub state_placed : Bool → Route → StopTimes → Time → ℕ → ℕ → Package → State
state_placed true route times now i j p = (todo, p.start_location)
state_placed false route times now i j p =
    state_within (is_ahead (dict_get times p.start_location) now) (dict_get times p.end_location)
      (last_reached_city route p.start_location i j times now) now p

pub invalid-In :
    (because : PackageReconciliationReason) (p : Package)
    → In (todo, p.start_location) p (without_window because p)
invalid-In because p = let (stands, empty, same) = without_window-Stands because p in (stands, same)

pub invalid_again :
    (because : PackageReconciliationReason) (p : Package)
    → without_window because (without_window because p).item
      ≡ unchanged (without_window because p).item
unfolding unchanged
invalid_again because p =
    let (stands, empty, same) = without_window-Stands because p in
    without_window_again because _
      (record { status_eq = stands.status_eq; here = stands.here ∙ sym same.start }) empty

state_within-SameTrip :
    (before : Bool) (delivery : Option Time) (city : LocationCode) (now : Time) (p q : Package)
    → SameTrip p q
    → state_within before delivery city now p ≡ state_within before delivery city now q
state_within-SameTrip true delivery city now p q same = rw same.start
state_within-SameTrip false none city now p q same = refl
state_within-SameTrip false (some d) city now p q same = rw same.end

module _ (route : Route) (times : StopTimes) (now : Time) (i j : ℕ) (p : Package) (c : Correction)
    (named : IsNamed route p) where
  abbrev window : Package → Result Correction
  window =
      within_window (is_ahead (dict_get times p.start_location) now)
        (dict_get times p.start_location) (dict_get times p.end_location)
        (last_reached_city route p.start_location i j times now) now

  abbrev due : Package → Result (Option Time)
  due q = suppress_value_error (route_arrival_time_at route (str q.end_location))

  placed_parts :
      correct_placed false route times now i j p ≡ ok c
      → (c1 : Correction) × (t : Option Time) × (window p ≡ ok c1)
        × (due c1.item ≡ ok t)
        × (with_arrival t c1 ≡ c)
  unfolding correct_placed
  placed_parts h =
      let (c1, moved, h1) = >>=-eq-ok (window p) _ h in
      let (t, arrival, h2) = >>=-eq-ok (due c1.item) (λ t. ok (with_arrival t c1)) h1 in
      (c1, t, moved, arrival, ok_injective h2)

  moved-In :
      (c1 : Correction) → window p ≡ ok c1 → In (state_placed false route times now i j p) p c1
  moved-In c1 moved =
      within_window-Stands (is_ahead (dict_get times p.start_location) now)
        (dict_get times p.start_location) (dict_get times p.end_location)
        (last_reached_city route p.start_location i j times now) now p c1 named.end
        (city-named route p i j times now named) moved

  pub placed-In :
      (backwards : Bool)
      → correct_placed backwards route times now i j p ≡ ok c
      → In (state_placed backwards route times now i j p) p c
  unfolding correct_placed
  placed-In true h =
      subst (In (todo, p.start_location) p) (ok_injective h) (invalid-In route_path_invalid p)
  placed-In false h =
      let (c1, t, moved, arrival, e) = placed_parts h in
      subst (In (state_placed false route times now i j p) p) e
        (with_arrival-In t (state_placed false route times now i j p) p c1 (moved-In c1 moved))

  window_again :
      In (state_placed false route times now i j p) p c → window c.item ≡ ok (unchanged c.item)
  window_again (stands, trip) =
      within_window_again (is_ahead (dict_get times p.start_location) now)
        (dict_get times p.start_location) (dict_get times p.end_location)
        (last_reached_city route p.start_location i j times now) now c.item
        (subst (λ x. Stands x.0 x.1 c.item)
          (state_within-SameTrip (is_ahead (dict_get times p.start_location) now)
            (dict_get times p.end_location) (last_reached_city route p.start_location i j times now)
            now p c.item trip)
          stands)

  -- The correction of `q`, if it were picked up and delivered at the given locations.
  abbrev corrected : LocationCode → LocationCode → Package → Result Correction
  corrected start end q =
      within_window (is_ahead (dict_get times start) now) (dict_get times start)
        (dict_get times end) (last_reached_city route start i j times now) now q
      >>= λ c'. due c'.item >>= λ t. ok (with_arrival t c')

  abbrev Rests : LocationCode → LocationCode → Type 0
  Rests start end = corrected start end c.item ≡ ok (unchanged c.item)

  corrected_again :
      correct_placed false route times now i j p ≡ ok c → Rests p.start_location p.end_location
  unfolding unchanged
  corrected_again h =
      let (c1, t, moved, arrival, e) = placed_parts h in
      let (stands, trip) = placed-In false h in
      let first = (moved-In c1 moved).1 in
      let same : due c.item ≡ ok t = rw (trip.end ∙ sym first.end) arrival in
      let kept = window_again (stands, trip) in
      let last =
        subst (λ x. with_arrival t (unchanged x.item) ≡ unchanged x.item) e
          (with_arrival_again t c1) in
      rw (kept, same) (ap ok last)

  pub placed_again :
      (backwards : Bool)
      → correct_placed backwards route times now i j p ≡ ok c
      → correct_placed backwards route times now i j c.item ≡ ok (unchanged c.item)
  unfolding correct_placed
  placed_again true h =
      subst (λ x. ok (without_window route_path_invalid x.item) ≡ ok (unchanged x.item))
        (ok_injective h) (ap ok (invalid_again route_path_invalid p))
  placed_again false h =
      let (stands, trip) = placed-In false h in
      subst (λ start. Rests start c.item.end_location) (sym trip.start)
        (subst (Rests p.start_location) (sym trip.end) (corrected_again h))
