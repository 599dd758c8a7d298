-- ===== src/Reconcile/Updates.antt =====
-- `_update_packages_for_route`: the loop over the packages of a route, with its events.
use fleet_flow.Base.{
  ℕ, Bool, true, false, not, ◌&&◌, ◌||◌, List, [], ◌∷◌, ◌++◌, Option, none, some, ltb, ◌==◌,
  if◌then◌else◌, dict_get, index_of,
}
use fleet_flow.Result.{Result, ok, err, value_error}
use fleet_flow.Schedule.{Time}
use fleet_flow.World.{Package, Route, PackageRef, RouteRef, Action, pure, reads, gets, ◌>>=◌, ◌>>◌}
use fleet_flow.Package.{current_location}
use fleet_flow.RouteView.{departure_time, locations}
use fleet_flow.Route.Links.{edit_package}
use fleet_flow.Reconcile.Repairs.{
  PackageReconciliationReason, route_unscheduled, route_path_invalid, before_scheduled_pickup,
  missing_pickup_time, lifecycle_state_inconsistent, route_progress_advanced,
  expected_arrival_recalculated, Correction,
}
use fleet_flow.Reconcile.Packages.{StopTimes, PackageStateReconciled, stop_times, reconcile_package}

abbrev pub rank : PackageReconciliationReason → ℕ
rank route_unscheduled = 0
rank route_path_invalid = 1
rank before_scheduled_pickup = 2
rank missing_pickup_time = 3
rank lifecycle_state_inconsistent = 4
rank route_progress_advanced = 5
rank expected_arrival_recalculated = 6

abbrev pub has_reason : PackageReconciliationReason → List PackageReconciliationReason → Bool
has_reason r [] = false
has_reason r (x ∷ xs) = rank x == rank r || has_reason r xs

-- `len(set(reasons)) == len(reasons)`
abbrev pub unique : List PackageReconciliationReason → Bool
unique [] = true
unique (x ∷ xs) = not (has_reason x xs) && unique xs

-- The scheduled times of the event: those of a package with a window.
abbrev placed_times : Option ℕ → Option ℕ → StopTimes → Package → Option Time × Option Time
placed_times none end times p = (none, none)
placed_times (some i) none times p = (none, none)
placed_times (some i) (some j) times p =
    if ltb j i
    then (none, none)
    else (dict_get times p.start_location, dict_get times p.end_location)

abbrev scheduled_times : Option Time → Route → StopTimes → Package → Option Time × Option Time
scheduled_times none route times p = (none, none)
scheduled_times (some departure) route times p =
    placed_times (index_of (locations route) p.start_location)
      (index_of (locations route) p.end_location) times p

abbrev reconciled_package : Route → StopTimes → Time → Package → Correction → PackageStateReconciled
reconciled_package route times now before c = record {
  package_id = c.item.package_id;
  route_id = route.route_id;
  previous_status = before.status;
  new_status = c.item.status;
  previous_location = current_location before;
  new_location = current_location c.item;
  previous_expected_arrival = before.expected_arrival;
  new_expected_arrival = c.item.expected_arrival;
  scheduled_pickup_time = (scheduled_times (departure_time route) route times before).0;
  scheduled_delivery_time = (scheduled_times (departure_time route) route times before).1;
  reasons = c.reasons;
  occurred_at = now;
}

-- `PackageStateReconciled(...)` with its check of the reasons, `if reasons:`.
unfoldable pub correction_event :
    Route
    → StopTimes
    → Time
    → Package
    → Correction
    → List PackageReconciliationReason
    → Result (List PackageStateReconciled)
correction_event route times now before c [] = ok []
correction_event route times now before c (r ∷ rs) =
    if unique (r ∷ rs)
    then ok (reconciled_package route times now before c ∷ [])
    else err value_error

-- The packages that changed, and their events.
abbrev pub PackageChanges : Type 0
PackageChanges = List PackageRef × List PackageStateReconciled

-- The body of the loop over the packages. What a correction that raises has written to the package
-- is not kept here: the recovery of the route restores the package in any case.
unfoldable pub update_package : RouteRef → StopTimes → Time → PackageRef → Action PackageChanges
unfolding reconcile_package correction_event
update_package self times now ref = do
  before ← gets (λ w. w.packages ref)
  route ← gets (λ w. w.routes self)
  c ← reads (λ w. reconcile_package route times now before)
  edit_package ref (λ _. c.item)
  events ← reads (λ w. correction_event route times now before c c.reasons)
  pure (if c.changed then ref ∷ [] else [], events)

unfoldable pub update_packages :
    RouteRef → StopTimes → Time → List PackageRef → Action PackageChanges
unfolding update_package
update_packages self times now [] = pure ([], [])
update_packages self times now (ref ∷ refs) = do
  (changed, events) ← update_package self times now ref
  (more_changed, more_events) ← update_packages self times now refs
  pure (changed ++ more_changed, events ++ more_events)

-- `if route.departure_time is not None` before the loop that fills `stop_times`
abbrev pub times_of : Option Time → Route → Result StopTimes
times_of none route = ok []
times_of (some departure) route = stop_times route (locations route)

unfoldable pub update_packages_for_route : RouteRef → Time → Action PackageChanges
unfolding stop_times update_packages
update_packages_for_route self now = do
  times ← reads (λ w. times_of (departure_time (w.routes self)) (w.routes self))
  refs ← gets (λ w. (w.routes self).packages)
  update_packages self times now refs
