-- ===== src/Reconcile/Status/Settled.antt =====
-- The derived status: when the reconciliation reaches it, and that it is stable.
use mathlib.Core.Path.{subst}
use fleet_flow.Base.{
  ◌≡◌, ◌≢◌, ◌≤◌, ◌<◌, refl, ap, ◌∙◌, sym, ◌⊎◌, inl, inr, Bool, true, false, Option, none, some,
  arith,
}
use fleet_flow.Result.{>>=-eq-ok, ok_injective, ok}
use fleet_flow.Schedule.{Time}
use fleet_flow.Enums.{RouteStatus, planned, scheduled, in_progress, completed, route_status_eq}
use fleet_flow.World.{Route}
use fleet_flow.RouteView.{departure_time, eta_final}
use fleet_flow.Reconcile.Status.{
  status_at, compute_route_status, apply_route_status, reconcile_status, RouteStateReconciled,
  RouteReconciliationReason, change_status, Target,
}

-- The status that a departure and a final arrival give at a time.
abbrev pub DueBetween : Option Time → Option Time → Time → RouteStatus → Type 0
DueBetween none eta now s = s ≡ planned
DueBetween (some departure) none now s = s ≡ scheduled
DueBetween (some departure) (some eta) now s =
    ((now < departure) × (s ≡ scheduled))
    ⊎ ((departure ≤ now) × (now < eta) × (s ≡ in_progress))
    ⊎ ((departure ≤ now) × (eta ≤ now) × (s ≡ completed))

-- The status that the schedule of a route gives at a time.
abbrev pub IsDue : Route → Time → RouteStatus → Type 0
IsDue r now s = DueBetween (departure_time r) (eta_final r) now s

abbrev pub target_status : Route → Time → RouteStatus
target_status r now = (compute_route_status r now).0

pub route_status_eq-eq : (a b : RouteStatus) → route_status_eq a b ≡ true → a ≡ b
route_status_eq-eq planned planned h = refl
route_status_eq-eq scheduled scheduled h = refl
route_status_eq-eq in_progress in_progress h = refl
route_status_eq-eq completed completed h = refl
route_status_eq-eq a b h = cc

pub computed-schedule :
    (r r' : Route) (now : Time)
    → r'.schedule ≡ r.schedule
    → compute_route_status r' now ≡ compute_route_status r now
unfolding compute_route_status
computed-schedule r r' now h = rw h

apply_route_status-status :
    (s : RouteStatus) (reason : Option RouteReconciliationReason) (at : Time) (r r' : Route)
    (e : Option RouteStateReconciled)
    → apply_route_status s reason at r ≡ ok (r', e)
    → (r'.status ≡ s) × (r'.schedule ≡ r.schedule)
unfolding apply_route_status
apply_route_status-status planned reason at r r' e h = ground arith
apply_route_status-status scheduled reason at r r' e h = ground arith
apply_route_status-status in_progress reason at r r' e h = ground arith
apply_route_status-status completed reason at r r' e h = ground arith

change_status-status :
    (same : Bool) (target : Target) (now : Time) (r r' : Route) (e : Option RouteStateReconciled)
    (changed : Bool)
    → same ≡ route_status_eq r.status target.0
    → change_status same target now r ≡ ok (r', e, changed)
    → (r'.status ≡ target.0) × (r'.schedule ≡ r.schedule)
unfolding change_status
change_status-status true target now r r' e changed same h =
    let old : r ≡ r' = ground arith in
    subst (λ x. (x.status ≡ target.0) × (x.schedule ≡ r.schedule)) old
      (route_status_eq-eq r.status target.0 (sym same), refl)
change_status-status false target now r r' e changed same h =
    let ((r1, e1), applied, rest) = >>=-eq-ok (apply_route_status target.0 target.1 now r) _ h in
    apply_route_status-status target.0 target.1 now r r' e (
      applied
      ∙ ap (λ (x : Route × Option RouteStateReconciled × Bool). ok (x.0, x.1)) (ok_injective rest))

route_status_eq_refl : (a : RouteStatus) → route_status_eq a a ≡ true
route_status_eq_refl planned = refl
route_status_eq_refl scheduled = refl
route_status_eq_refl in_progress = refl
route_status_eq_refl completed = refl

-- Whether a reconciliation reports a change, and which.
abbrev pub ReportsChange : Bool → Route → Route → Type 0
ReportsChange changed r r' =
    ((changed ≡ false) × (r' ≡ r)) ⊎ ((changed ≡ true) × (r'.status ≢ r.status))

change_status-ReportsChange :
    (same : Bool) (target : Target) (now : Time) (r r' : Route) (e : Option RouteStateReconciled)
    (changed : Bool)
    → same ≡ route_status_eq r.status target.0
    → change_status same target now r ≡ ok (r', e, changed)
    → ReportsChange changed r r'
unfolding change_status
change_status-ReportsChange true target now r r' e changed same h =
    let old : (r, none, false) ≡ (r', e, changed) = ok_injective h in
    inl (sym (ap (λ x. x.2) old), sym (ap (λ x. x.0) old))
change_status-ReportsChange false target now r r' e changed same h =
    let ((r1, e1), applied, rest) = >>=-eq-ok (apply_route_status target.0 target.1 now r) _ h in
    let (status, schedule) = change_status-status false target now r r' e changed same h in
    inr (
      sym (ap (λ x. x.2) (ok_injective rest)),
      λ h. cc (same, route_status_eq_refl r.status, status, h),
    )

status_at-DueBetween :
    (departure eta : Option Time) (now : Time)
    → DueBetween departure eta now (status_at departure eta now).0
status_at-DueBetween none eta now = refl
status_at-DueBetween (some departure) none now = refl
status_at-DueBetween (some departure) (some eta) now = ground arith

pub target_status-IsDue : (r : Route) (now : Time) → IsDue r now (target_status r now)
unfolding compute_route_status
target_status-IsDue r now = status_at-DueBetween (departure_time r) (eta_final r) now

-- A reconciliation that does not raise leaves the route in the status that it computes, and at the
-- same schedule; a second one at the same time returns the same route, no event, and reports no
-- change.
pub reconcile_status_computed :
    (now : Time) (r r' : Route) (e : Option RouteStateReconciled) (changed : Bool)
    → reconcile_status now r ≡ ok (r', e, changed)
    → (r'.status ≡ target_status r now)
      × (r'.schedule ≡ r.schedule)
      × (reconcile_status now r' ≡ ok (r', none, false))
unfolding reconcile_status
reconcile_status_computed now r r' e changed h =
    let target = compute_route_status r now in
    let (status, schedule) =
      change_status-status (route_status_eq r.status target.0) target now r r' e changed refl h in
    let same : compute_route_status r' now ≡ target = computed-schedule r r' now schedule in
    (status, schedule, rw (same, status, route_status_eq_refl target.0))

-- A reconciliation that does not raise leaves the route with the same schedule and in this status:
-- planned without a schedule, scheduled before the departure, in progress from the departure until
-- just before the final arrival, and completed from the final arrival on (the times themselves
-- included). It reports a change exactly when the status became another one, and otherwise the route
-- is as it was. A second reconciliation at the same time returns the same route, no event, and
-- reports no change.
pub reconcile_status_settles :
    (now : Time) (r r' : Route) (e : Option RouteStateReconciled) (changed : Bool)
    → reconcile_status now r ≡ ok (r', e, changed)
    → IsDue r now r'.status
      × ReportsChange changed r r'
      × (r'.schedule ≡ r.schedule)
      × (reconcile_status now r' ≡ ok (r', none, false))
unfolding reconcile_status
reconcile_status_settles now r r' e changed h =
    let (status, schedule, again) = reconcile_status_computed now r r' e changed h in
    let same = route_status_eq r.status (target_status r now) in
    (
      subst (IsDue r now) (sym status) (target_status-IsDue r now),
      change_status-ReportsChange same (compute_route_status r now) now r r' e changed refl h,
      schedule,
      again,
    )
