-- ===== src/Reconcile/Frame/Packages.antt =====
-- A package: what its reconciliation keeps.
use fleet_flow.Base.{
  ◌≡◌, refl, Bool, true, false, inl, inr, Option, none, some, leb, arith, Bool-cases,
}
use mathlib.Core.Path.{subst}
use fleet_flow.Result.{Result, ok, ◌>>=◌, >>=-eq-ok, ok_injective}
use fleet_flow.Base.{ℕ, ltb, dict_get, index_of, List, [], ◌∷◌}
use fleet_flow.Location.{LocationCode, str}
use fleet_flow.Schedule.{Time}
use fleet_flow.Enums.{ItemStatus, todo, item_in_progress, done}
use fleet_flow.World.{Package, Route}
use fleet_flow.RouteView.{departure_time, locations, route_arrival_time_at}
use fleet_flow.Package.{mark_picked_up, mark_delivered}
use fleet_flow.Package.Rollback.{
  Follows, Follows-refl, Follows-trans, silent, pick_up, deliver, Change-Follows,
}
use fleet_flow.Reconcile.Repairs.{
  PackageReconciliationReason, Correction, with_status, with_location, set_package_state,
  restore_package_before_pickup, without_window, at_end, complete_from, progressed, repaired,
  advance_from, lifecycle_state_inconsistent, route_unscheduled, route_path_invalid,
}
use fleet_flow.Reconcile.Packages.{
  StopTimes, suppress_value_error, within_window, with_arrival, correct_placed, correct_package,
  reconcile_on, reconcile_package, is_ahead, last_reached_city,
}

with_status-Follows : (s : ItemStatus) (x : Package × Bool) → Follows x.0 (with_status s x).0
with_status-Follows s (p, b) =
    silent p _ (ground arith) (ground arith) (ground arith) (ground arith) (ground arith)
      (ground arith)

with_location-Follows : (c : LocationCode) (x : Package × Bool) → Follows x.0 (with_location c x).0
with_location-Follows c (p, b) =
    silent p _ (ground arith) (ground arith) (ground arith) (ground arith) (ground arith)
      (ground arith)

set_package_state-Follows :
    (s : ItemStatus) (c : LocationCode) (p : Package) → Follows p (set_package_state s c p).0
unfolding set_package_state
set_package_state-Follows s c p =
    Follows-trans (with_status-Follows s (p, false))
      (with_location-Follows c (with_status s (p, false)))

restore-Follows : (p : Package) → Follows p (restore_package_before_pickup p).0
unfolding restore_package_before_pickup
restore-Follows p =
    Follows-trans (with_status-Follows todo (p, false))
      (with_location-Follows p.start_location (with_status todo (p, false)))

without_window-Follows :
    (because : PackageReconciliationReason) (p : Package)
    → Follows p (without_window because p).item
unfolding without_window
without_window-Follows because p =
    let q = (restore_package_before_pickup p).0 in
    Follows-trans (restore-Follows p) (
      silent q _ (ground arith) (ground arith) (ground arith) (ground arith) (ground arith)
        (ground arith))

at_end-Follows : (p : Package) (changed : Bool) → Follows p (at_end p changed).item
at_end-Follows p changed =
    silent p _ (ground arith) (ground arith) (ground arith) (ground arith) (ground arith)
      (ground arith)

progressed-Follows :
    (city : LocationCode) (changed : Bool) (reasons : List PackageReconciliationReason)
    (p : Package)
    → Follows p (progressed city changed reasons p).item
progressed-Follows city changed reasons p =
    silent p _ (ground arith) (ground arith) (ground arith) (ground arith) (ground arith)
      (ground arith)

repaired-Follows : (city : LocationCode) (p : Package) → Follows p (repaired city p).item
repaired-Follows city p =
    let q = record p { status = item_in_progress } in
    Follows-trans (silent p q refl refl refl refl refl refl)
      (progressed-Follows city true (lifecycle_state_inconsistent ∷ []) q)

complete-Follows :
    (s : ItemStatus) (pickup : Option Time) (delivery : Time) (p : Package) (c : Correction)
    → complete_from s pickup delivery p ≡ ok c
    → Follows p c.item
unfolding complete_from
complete-Follows todo none delivery p c h =
    subst (λ (x : Correction). Follows p x.item) (ok_injective h)
      (set_package_state-Follows done p.end_location p)
complete-Follows todo (some t) delivery p c h =
    let last : Package → Result Correction = λ r. ok (at_end r true) in
    let (q, picked, h1) =
      >>=-eq-ok (mark_picked_up t p) (λ q. mark_delivered delivery q >>= last) h in
    let (r, brought, h2) = >>=-eq-ok (mark_delivered delivery q) last h1 in
    subst (λ (x : Correction). Follows p x.item) (ok_injective h2)
      (Follows-trans (Change-Follows (pick_up t picked))
        (Follows-trans (Change-Follows (deliver delivery brought)) (at_end-Follows r true)))
complete-Follows item_in_progress pickup delivery p c h =
    let last : Package → Result Correction = λ r. ok (at_end r true) in
    let (q, brought, h1) = >>=-eq-ok (mark_delivered delivery p) last h in
    subst (λ (x : Correction). Follows p x.item) (ok_injective h1)
      (Follows-trans (Change-Follows (deliver delivery brought)) (at_end-Follows q true))
complete-Follows done pickup delivery p c h =
    subst (λ (x : Correction). Follows p x.item) (ok_injective h) (at_end-Follows p false)

advance-Follows :
    (s : ItemStatus) (pickup : Option Time) (city : LocationCode) (p : Package) (c : Correction)
    → advance_from s pickup city p ≡ ok c
    → Follows p c.item
unfolding advance_from
advance-Follows todo none city p c h =
    subst (λ (x : Correction). Follows p x.item) (ok_injective h) (repaired-Follows city p)
advance-Follows todo (some t) city p c h =
    let last : Package → Result Correction = λ q. ok (progressed city true [] q) in
    let (q, picked, h1) = >>=-eq-ok (mark_picked_up t p) last h in
    subst (λ (x : Correction). Follows p x.item) (ok_injective h1)
      (Follows-trans (Change-Follows (pick_up t picked)) (progressed-Follows city true [] q))
advance-Follows item_in_progress pickup city p c h =
    subst (λ (x : Correction). Follows p x.item) (ok_injective h)
      (progressed-Follows city false [] p)
advance-Follows done pickup city p c h =
    subst (λ (x : Correction). Follows p x.item) (ok_injective h) (repaired-Follows city p)

within_window-Follows :
    (before : Bool) (pickup delivery : Option Time) (city : LocationCode) (now : Time) (p : Package)
    (c : Correction)
    → within_window before pickup delivery city now p ≡ ok c
    → Follows p c.item
unfolding within_window
within_window-Follows true pickup delivery city now p c h =
    subst (λ (x : Correction). Follows p x.item) (ok_injective h) (restore-Follows p)
within_window-Follows false pickup none city now p c h = advance-Follows p.status pickup city p c h
within_window-Follows false pickup (some delivery) city now p c h =
    elim (Bool-cases (leb delivery now)) [
      | inl late ↦ complete-Follows p.status pickup delivery p c (ground (arith, late, h))
      | inr early ↦ advance-Follows p.status pickup city p c (ground (arith, early, h))
    ]

with_arrival-Follows : (t : Option Time) (c : Correction) → Follows c.item (with_arrival t c).item
with_arrival-Follows none c = Follows-refl c.item
with_arrival-Follows (some t) c =
    silent c.item _ (ground arith) (ground arith) (ground arith) (ground arith) (ground arith)
      (ground arith)

correct_placed-Follows :
    (backwards : Bool) (route : Route) (times : StopTimes) (now : Time) (i j : ℕ) (p : Package)
    (c : Correction)
    → correct_placed backwards route times now i j p ≡ ok c
    → Follows p c.item
unfolding correct_placed
correct_placed-Follows true route times now i j p c h =
    subst (λ (x : Correction). Follows p x.item) (ok_injective h)
      (without_window-Follows route_path_invalid p)
correct_placed-Follows false route times now i j p c h =
    let pickup = dict_get times p.start_location in
    let delivery = dict_get times p.end_location in
    let city = last_reached_city route p.start_location i j times now in
    let due : Correction → Result (Option Time) =
      λ c. suppress_value_error (route_arrival_time_at route (str c.item.end_location)) in
    let last : Correction → Option Time → Result Correction = λ c t. ok (with_arrival t c) in
    let (c1, moved, h1) =
      >>=-eq-ok (within_window (is_ahead pickup now) pickup delivery city now p)
        (λ c. due c >>= last c) h in
    let (t, arrival, h2) = >>=-eq-ok (due c1) (last c1) h1 in
    subst (λ (x : Correction). Follows p x.item) (ok_injective h2)
      (Follows-trans
        (within_window-Follows (is_ahead pickup now) pickup delivery city now p c1 moved)
        (with_arrival-Follows t c1))

correct_package-Follows :
    (route : Route) (times : StopTimes) (now : Time) (start end : Option ℕ) (p : Package)
    (c : Correction)
    → correct_package route times now start end p ≡ ok c
    → Follows p c.item
unfolding correct_package
correct_package-Follows route times now none end p c h =
    subst (λ (x : Correction). Follows p x.item) (ok_injective h)
      (without_window-Follows route_path_invalid p)
correct_package-Follows route times now (some i) none p c h =
    subst (λ (x : Correction). Follows p x.item) (ok_injective h)
      (without_window-Follows route_path_invalid p)
correct_package-Follows route times now (some i) (some j) p c h =
    correct_placed-Follows (ltb j i) route times now i j p c h

reconcile_on-Follows :
    (departure : Option Time) (route : Route) (times : StopTimes) (now : Time) (p : Package)
    (c : Correction)
    → reconcile_on departure route times now p ≡ ok c
    → Follows p c.item
unfolding reconcile_on
reconcile_on-Follows none route times now p c h =
    subst (λ (x : Correction). Follows p x.item) (ok_injective h)
      (without_window-Follows route_unscheduled p)
reconcile_on-Follows (some departure) route times now p c h =
    correct_package-Follows route times now (index_of (locations route) p.start_location)
      (index_of (locations route) p.end_location) p c h

pub reconcile_package-Follows :
    (route : Route) (times : StopTimes) (now : Time) (p : Package) (c : Correction)
    → reconcile_package route times now p ≡ ok c
    → Follows p c.item
unfolding reconcile_package
reconcile_package-Follows route times now p c h =
    reconcile_on-Follows (departure_time route) route times now p c h
