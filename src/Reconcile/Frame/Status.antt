-- ===== src/Reconcile/Frame/Status.antt =====
-- The status of a route: what its reconciliation keeps.
use fleet_flow.Base.{◌≡◌, refl, ap, Bool, true, false, Option, none, arith}
use mathlib.Core.Path.{subst}
use fleet_flow.Result.{Result, ok, runtime_error, or_raise, ◌>>=◌, >>=-eq-ok, ok_injective}
use fleet_flow.Schedule.{Time}
use fleet_flow.Enums.{RouteStatus, planned, scheduled, in_progress, completed, route_status_eq}
use fleet_flow.World.{Route}
use fleet_flow.RouteView.{departure_time, eta_final}
use fleet_flow.Route.{mark_started, mark_completed}
use fleet_flow.Route.Rollback.{start-Follows, complete-Follows}
use fleet_flow.Route.Rollback as RouteRollback
use fleet_flow.Reconcile.Status.{
  RouteStateReconciled, RouteReconciliationReason, Target, apply_route_status, change_status,
  reconcile_status, corrected, compute_route_status,
}
use fleet_flow.Reconcile.Frame.{SameRoute, SameRoute-refl}

-- The same route, with its links.
pub record SameLinks (r q : Route) : Type 0 where
  pub same : SameRoute r q
  pub truck : q.truck ≡ r.truck
  pub packages : q.packages ≡ r.packages

start-SameLinks : (t : Time) (r q : Route) → mark_started t r ≡ ok q → SameLinks r q
unfolding mark_started
start-SameLinks t r q h = record {
  same = record { follows = start-Follows t r h; plan = ground arith };
  truck = ground arith;
  packages = ground arith;
}

complete-SameLinks : (t : Time) (r q : Route) → mark_completed t r ≡ ok q → SameLinks r q
unfolding mark_completed
complete-SameLinks t r q h = record {
  same = record { follows = complete-Follows t r h; plan = ground arith };
  truck = ground arith;
  packages = ground arith;
}

abbrev Changed : Type 0
Changed = Route × Option RouteStateReconciled

corrected-SameLinks : (s : RouteStatus) (r : Route) → SameLinks r (record r { status = s })
corrected-SameLinks s r = record {
  same = record { follows = RouteRollback.silent r _ refl refl refl; plan = refl };
  truck = refl;
  packages = refl;
}

apply-SameLinks :
    (s : RouteStatus) (reason : Option RouteReconciliationReason) (at : Time) (r r' : Route)
    (e : Option RouteStateReconciled)
    → apply_route_status s reason at r ≡ ok (r', e)
    → SameLinks r r'
unfolding apply_route_status
apply-SameLinks in_progress reason at r r' e h =
    let last : Route → Result Changed = λ q. ok (q, none) in
    let rest : Time → Result Changed = λ t. mark_started t r >>= last in
    let (t, left, h1) = >>=-eq-ok (or_raise (departure_time r) runtime_error) rest h in
    let (q, begun, h2) = >>=-eq-ok (mark_started t r) last h1 in
    subst (SameLinks r) (ap (λ (x : Changed). x.0) (ok_injective h2)) (start-SameLinks t r q begun)
apply-SameLinks completed reason at r r' e h =
    let last : Route → Result Changed = λ q. ok (q, none) in
    let rest : Time → Result Changed = λ t. mark_completed t r >>= last in
    let (t, due, h1) = >>=-eq-ok (or_raise (eta_final r) runtime_error) rest h in
    let (q, ended, h2) = >>=-eq-ok (mark_completed t r) last h1 in
    subst (SameLinks r) (ap (λ (x : Changed). x.0) (ok_injective h2))
      (complete-SameLinks t r q ended)
apply-SameLinks planned reason at r r' e h =
    let last : RouteReconciliationReason → Result Changed =
      λ because. ok (corrected planned because at r) in
    let (because, given, h1) = >>=-eq-ok (or_raise reason runtime_error) last h in
    subst (SameLinks r) (ap (λ (x : Changed). x.0) (ok_injective h1))
      (corrected-SameLinks planned r)
apply-SameLinks scheduled reason at r r' e h =
    let last : RouteReconciliationReason → Result Changed =
      λ because. ok (corrected scheduled because at r) in
    let (because, given, h1) = >>=-eq-ok (or_raise reason runtime_error) last h in
    subst (SameLinks r) (ap (λ (x : Changed). x.0) (ok_injective h1))
      (corrected-SameLinks scheduled r)

abbrev Outcome : Type 0
Outcome = Route × Option RouteStateReconciled × Bool

change-SameLinks :
    (same : Bool) (target : Target) (now : Time) (r : Route) (x : Outcome)
    → change_status same target now r ≡ ok x
    → SameLinks r x.0
unfolding change_status
change-SameLinks true target now r x h =
    subst (SameLinks r) (ap (λ (x : Outcome). x.0) (ok_injective h))
      (record { same = SameRoute-refl r; truck = refl; packages = refl })
change-SameLinks false target now r x h =
    let last : Changed → Result Outcome = λ (q, event). ok (q, event, true) in
    let ((q, event), applied, h1) = >>=-eq-ok (apply_route_status target.0 target.1 now r) last h in
    subst (SameLinks r) (ap (λ (x : Outcome). x.0) (ok_injective h1))
      (apply-SameLinks target.0 target.1 now r q event applied)

pub reconcile_status-SameLinks :
    (now : Time) (r : Route) (x : Outcome) → reconcile_status now r ≡ ok x → SameLinks r x.0
unfolding reconcile_status
reconcile_status-SameLinks now r x h =
    let target = compute_route_status r now in
    change-SameLinks (route_status_eq r.status target.0) target now r x h
