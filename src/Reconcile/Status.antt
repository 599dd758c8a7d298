-- ===== src/Reconcile/Status.antt =====
-- `_compute_route_status` and `_apply_route_status`.
pub mod Settled
pub mod Clock
use fleet_flow.Base.{ℕ, Bool, true, false, Option, none, some, ltb, leb, if◌then◌else◌}
use fleet_flow.Result.{Result, ok, err, runtime_error, ◌>>=◌, or_raise}
use fleet_flow.Schedule.{Time}
use fleet_flow.Enums.{RouteStatus, planned, scheduled, in_progress, completed, route_status_eq}
use fleet_flow.World.{Route}
use fleet_flow.RouteView.{departure_time, eta_final}
use fleet_flow.Route.{mark_started, mark_completed}

pub data RouteReconciliationReason : Type 0 where
  missing_departure_time missing_expected_completion_time : RouteReconciliationReason
  before_scheduled_departure : RouteReconciliationReason

pub record RouteStateReconciled : Type 0 where
  pub route_id : ℕ
  pub previous_status : RouteStatus
  pub new_status : RouteStatus
  pub departure_time : Option Time
  pub expected_completion_time : Option Time
  pub reason : RouteReconciliationReason
  pub occurred_at : Time

abbrev pub Target : Type 0
Target = RouteStatus × Option RouteReconciliationReason

abbrev status_between : Time → Time → Time → Target
status_between departure eta now =
    if ltb now departure
    then (scheduled, some before_scheduled_departure)
    else if leb eta now
    then (completed, none)
    else (in_progress, none)

abbrev pub status_at : Option Time → Option Time → Time → Target
status_at none eta now = (planned, some missing_departure_time)
status_at (some departure) none now = (scheduled, some missing_expected_completion_time)
status_at (some departure) (some eta) now = status_between departure eta now

unfoldable pub compute_route_status : Route → Time → RouteStatus × Option RouteReconciliationReason
compute_route_status r now = status_at (departure_time r) (eta_final r) now

abbrev pub reconciled_event :
    RouteStatus → RouteReconciliationReason → Time → Route → RouteStateReconciled
reconciled_event new_status reason occurred_at r = record {
  route_id = r.route_id;
  previous_status = r.status;
  new_status = new_status;
  departure_time = departure_time r;
  expected_completion_time = eta_final r;
  reason = reason;
  occurred_at = occurred_at;
}

-- The direct correction of a status.
abbrev pub corrected :
    RouteStatus → RouteReconciliationReason → Time → Route → Route × Option RouteStateReconciled
corrected new_status reason occurred_at r =
    (record r { status = new_status }, some (reconciled_event new_status reason occurred_at r))

-- `_apply_route_status`, with the time of the reconciliation; it returns the new route and the event
-- of a direct correction.
unfoldable pub apply_route_status :
    RouteStatus
    → Option RouteReconciliationReason
    → Time
    → Route
    → Result (Route × Option RouteStateReconciled)
unfolding mark_started mark_completed
apply_route_status in_progress reason occurred_at r = do
  departure ← or_raise (departure_time r) runtime_error
  r' ← mark_started departure r
  ok (r', none)
apply_route_status completed reason occurred_at r = do
  eta ← or_raise (eta_final r) runtime_error
  r' ← mark_completed eta r
  ok (r', none)
apply_route_status planned reason occurred_at r = do
  because ← or_raise reason runtime_error
  ok (corrected planned because occurred_at r)
apply_route_status scheduled reason occurred_at r = do
  because ← or_raise reason runtime_error
  ok (corrected scheduled because occurred_at r)

-- `if route.status != new_status:`, for the comparison `same`
unfoldable pub change_status :
    Bool → Target → Time → Route → Result (Route × Option RouteStateReconciled × Bool)
change_status true target now r = ok (r, none, false)
change_status false target now r =
    apply_route_status target.0 target.1 now r >>= λ (r', event). ok (r', event, true)

-- The part of `reconcile_routes` for the status: the route, the event, and whether it changed.
unfoldable pub reconcile_status : Time → Route → Result (Route × Option RouteStateReconciled × Bool)
unfolding change_status
reconcile_status now r =
    let target = compute_route_status r now in
    change_status (route_status_eq r.status target.0) target now r
