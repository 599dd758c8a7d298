-- ===== src/Reconcile/Packages.antt =====
-- `_update_packages_for_route`: the state of the packages of a route at a time.
pub mod Window
pub mod Placed
pub mod Reached
pub mod Scheduled
pub mod Settled
pub mod Times
use fleet_flow.Base.{
  ℕ, zero, suc, ◌+◌, ◌-◌, Bool, true, false, not, ◌&&◌, ◌||◌, List, [], ◌∷◌, ◌++◌, Option, none,
  some, ltb, leb, ◌==◌, if◌then◌else◌, text_eq, dict_get, index_of, length,
}
use fleet_flow.Result.{Error, Result, ok, err, value_error, key_error, or_raise, ◌>>=◌, require}
use fleet_flow.Location.{LocationCode, str}
use fleet_flow.Schedule.{Time}
use fleet_flow.Enums.{ItemStatus}
use fleet_flow.World.{Package, Route}
use fleet_flow.Package.{current_location}
use fleet_flow.RouteView.{departure_time, locations, route_arrival_time_at}
use fleet_flow.Reconcile.Repairs.{
  PackageReconciliationReason, route_unscheduled, route_path_invalid, before_scheduled_pickup,
  expected_arrival_recalculated, Correction, without_window, restore_package_before_pickup,
  with_reason, complete_package_lifecycle, advance_package_in_progress,
}

pub record PackageStateReconciled : Type 0 where
  pub package_id : ℕ
  pub route_id : ℕ
  pub previous_status : ItemStatus
  pub new_status : ItemStatus
  pub previous_location : LocationCode
  pub new_location : LocationCode
  pub previous_expected_arrival : Option Time
  pub new_expected_arrival : Option Time
  pub scheduled_pickup_time : Option Time
  pub scheduled_delivery_time : Option Time
  pub reasons : List PackageReconciliationReason
  pub occurred_at : Time

abbrev pub StopTimes : Type 0
StopTimes = List (LocationCode × Time)

-- `with contextlib.suppress(ValueError)`: the domain's errors are no `ValueError`.
abbrev pub suppress_value_error : Result Time → Result (Option Time)
suppress_value_error (ok t) = ok (some t)
suppress_value_error (err value_error) = ok none
suppress_value_error (err e) = err e

abbrev pub add_stop_time : LocationCode → Option Time → StopTimes → StopTimes
add_stop_time city none times = times
add_stop_time city (some t) times = (city, t) ∷ times

-- The loop that fills `stop_times`.
unfoldable pub stop_times : Route → List LocationCode → Result StopTimes
unfolding route_arrival_time_at
stop_times route [] = ok []
stop_times route (city ∷ cities) = do
  t ← suppress_value_error (route_arrival_time_at route (str city))
  rest ← stop_times route cities
  ok (add_stop_time city t rest)

-- The loop of `_last_reached_city`, for `count` more cities of those that are left.
unfoldable pub last_reached : StopTimes → Time → ℕ → List LocationCode → LocationCode → LocationCode
unfolding dict_get
last_reached times now zero cities last = last
last_reached times now (suc count) [] last = last
last_reached times now (suc count) (city ∷ cities) last =
    let rest = last_reached times now count cities city in
    elim (dict_get times city) [ none ↦ last | some t ↦ if ltb now t then last else rest ]

abbrev pub drop : ℕ → List LocationCode → List LocationCode
drop zero cities = cities
drop (suc n) [] = []
drop (suc n) (city ∷ cities) = drop n cities

-- `_last_reached_city`, for the two positions.
unfoldable pub last_reached_city : Route → LocationCode → ℕ → ℕ → StopTimes → Time → LocationCode
unfolding last_reached
last_reached_city route start i j times now =
    last_reached times now (j + 1 - i) (drop i (locations route)) start

abbrev pub is_ahead : Option Time → Time → Bool
is_ahead none now = false
is_ahead (some t) now = ltb now t

-- The three branches for a package with a place on the path: `before` and `reached` are the tests.
unfoldable pub within_window :
    Bool → Option Time → Option Time → LocationCode → Time → Package → Result Correction
unfolding restore_package_before_pickup
within_window true pickup delivery city now p =
    let (q, changed) = restore_package_before_pickup p in
    ok (record {
      item = q;
      changed = changed;
      reasons = with_reason before_scheduled_pickup changed [];
    })
within_window false pickup none city now p = advance_package_in_progress pickup city p
within_window false pickup (some delivery) city now p =
    if leb delivery now
    then complete_package_lifecycle pickup delivery p
    else advance_package_in_progress pickup city p

abbrev pub same_time : Option Time → Time → Bool
same_time none t = false
same_time (some s) t = s == t

-- The last step of the loop's body: the expected arrival.
abbrev pub with_arrival : Option Time → Correction → Correction
with_arrival none c = c
with_arrival (some t) c = if same_time c.item.expected_arrival t then c else record {
  item = record (c.item) { expected_arrival = some t };
  changed = true;
  reasons = c.reasons ++ expected_arrival_recalculated ∷ [];
}

-- A package whose two positions are on the path; `backwards` tests their order.
unfoldable pub correct_placed :
    Bool → Route → StopTimes → Time → ℕ → ℕ → Package → Result Correction
unfolding within_window route_arrival_time_at
correct_placed true route times now i j p = ok (without_window route_path_invalid p)
correct_placed false route times now i j p = do
  let pickup = dict_get times p.start_location
  let delivery = dict_get times p.end_location
  let city = last_reached_city route p.start_location i j times now
  c ← within_window (is_ahead pickup now) pickup delivery city now p
  t ← suppress_value_error (route_arrival_time_at route (str c.item.end_location))
  ok (with_arrival t c)

-- A package with its two positions on the path, of which it needs both.
unfoldable pub correct_package :
    Route → StopTimes → Time → Option ℕ → Option ℕ → Package → Result Correction
unfolding correct_placed
correct_package route times now none end p = ok (without_window route_path_invalid p)
correct_package route times now (some i) none p = ok (without_window route_path_invalid p)
correct_package route times now (some i) (some j) p = correct_placed (ltb j i) route times now i j p

-- `if route.departure_time is None`
unfoldable pub reconcile_on : Option Time → Route → StopTimes → Time → Package → Result Correction
unfolding correct_package index_of
reconcile_on none route times now p = ok (without_window route_unscheduled p)
reconcile_on (some departure) route times now p =
    correct_package route times now (index_of (locations route) p.start_location)
      (index_of (locations route) p.end_location) p

-- The body of the loop over the packages, without its event.
unfoldable pub reconcile_package : Route → StopTimes → Time → Package → Result Correction
unfolding reconcile_on
reconcile_package route times now p = reconcile_on (departure_time route) route times now p
