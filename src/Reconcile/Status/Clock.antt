-- ===== src/Reconcile/Status/Clock.antt =====
-- A clock that does not run backwards never makes the derived status unreachable.
use fleet_flow.Base.{
  ◌≤◌, ◌≡◌, refl, sym, ap, ◌∙◌, ◌⊎◌, inl, inr, Bool, true, false, Option, none, some, ◌<◌, ltb, leb,
  ◌&&◌, Bool-cases, arith,
}
use fleet_flow.Result.{Result, ok, err, domain_conflict}
use fleet_flow.Schedule.{Time, RouteSchedule}
use fleet_flow.Enums.{RouteStatus, planned, scheduled, in_progress, completed}
use fleet_flow.World.{Route}
use fleet_flow.RouteView.{departure_time, eta_final}
use fleet_flow.Reconcile.Status.{
  compute_route_status, apply_route_status, reconcile_status, RouteStateReconciled,
}
use fleet_flow.Reconcile.Status.Settled.{
  target_status, computed-schedule, IsDue, reconcile_status_computed, reconcile_status_settles,
}

abbrev pub is_ok {ℓ} : {A : Type ℓ} → Result A → Bool
is_ok (ok a) = true
is_ok (err e) = false

-- The route has a schedule, and at the time `t` it is marked as scheduled, or as its schedule says.
pub record IsTimely (t : Time) (r : Route) : Type 0 where
  pub plan : RouteSchedule
  pub has_plan : r.schedule ≡ some plan
  pub status_at : (r.status ≡ scheduled) ⊎ (r.status ≡ target_status r t)

pub reconcile_status-ok :
    (t u : Time) (r : Route) → t ≤ u → IsTimely t r → is_ok (reconcile_status u r) ≡ true
unfolding reconcile_status apply_route_status compute_route_status
reconcile_status-ok t u r le h = ground (arith, h.has_plan, h.status_at)

-- The route after reconciliations at the times of a clock that never runs backwards.
pub data Heartbeats (r : Route) : Time → Route → Type 0 where
  start : (t : Time) → Heartbeats r t r
  beat :
      {t : Time} {r' r'' : Route} (u : Time) (e : Option RouteStateReconciled) (changed : Bool)
      → Heartbeats r t r'
      → t ≤ u
      → reconcile_status u r' ≡ ok (r'', e, changed)
      → Heartbeats r u r''

Heartbeats-IsTimely :
    (r : Route) (s : RouteSchedule)
    → r.schedule ≡ some s
    → r.status ≡ scheduled
    → {t : Time} {r' : Route} → Heartbeats r t r'
    → IsTimely t r' × (r'.schedule ≡ some s)
Heartbeats-IsTimely r s plan new (start t) =
    (record { plan = s; has_plan = plan; status_at = inl new }, plan)
Heartbeats-IsTimely r s plan new (beat {r' = r'} {r'' = r''} u e changed before le h) =
    let (timely, same) = Heartbeats-IsTimely r s plan new before in
    let (status, schedule, again) = reconcile_status_computed u r' r'' e changed h in
    let kept = schedule ∙ same in
    (
      record {
        plan = s;
        has_plan = kept;
        status_at = inr (status ∙ target-schedule r' r'' u schedule);
      },
      kept,
    )
  where
    target-schedule :
        (a b : Route) (u : Time) → b.schedule ≡ a.schedule → target_status a u ≡ target_status b u
    target-schedule a b u e = ap (λ x. x.0) (sym (computed-schedule a b u e))

-- A route that was scheduled is reconciled at the times of a clock that does not run backwards: no
-- reconciliation of its status ever raises, its schedule stays, and after each the status is the one
-- that the schedule gives at that time: scheduled before the departure, in progress from it until
-- just before the final arrival, completed from the final arrival on.
pub heartbeats_reach_target :
    (r : Route) (s : RouteSchedule)
    → r.schedule ≡ some s
    → r.status ≡ scheduled
    → {t : Time} {r' : Route} → Heartbeats r t r'
    → (u : Time) → t ≤ u
    → (r'' : Route) × (e : Option RouteStateReconciled) × (changed : Bool) × (reconcile_status u r'
        ≡ ok (r'', e, changed))
      × (r''.status ≡ target_status r' u)
      × IsDue r' u r''.status
      × (r''.schedule ≡ some s)
heartbeats_reach_target r s plan new {t} {r'} beats u le =
    go (reconcile_status u r') refl (reconcile_status-ok t u r' le timely)
  where
    timely : IsTimely t r'
    timely = (Heartbeats-IsTimely r s plan new beats).0

    go :
        (x : Result (Route × Option RouteStateReconciled × Bool))
        → reconcile_status u r' ≡ x
        → is_ok x ≡ true
        → (r'' : Route) × (e : Option RouteStateReconciled) × (changed : Bool) × (reconcile_status u
              r'
            ≡ ok (r'', e, changed))
          × (r''.status ≡ target_status r' u)
          × IsDue r' u r''.status
          × (r''.schedule ≡ some s)
    go (ok (r'', e, changed)) h fine =
        let (status, schedule, again) = reconcile_status_computed u r' r'' e changed h in
        let due = (reconcile_status_settles u r' r'' e changed h).0 in
        (r'', e, changed, h, status, due, schedule ∙ (Heartbeats-IsTimely r s plan new beats).1)
    go (err x) h fine = cc

-- The departure has passed, and the status is planned, or completed before the final arrival.
abbrev pub StuckBetween : Option Time → Option Time → Time → RouteStatus → Type 0
StuckBetween none eta now s = ⊥
StuckBetween (some departure) none now s = ⊥
StuckBetween (some departure) (some eta) now s =
    (departure ≤ now) × ((s ≡ planned) ⊎ ((s ≡ completed) × (now < eta)))

-- The stored status of a route is one from which no method leads to that of its schedule.
abbrev pub IsStuck : Time → Route → Type 0
IsStuck now r = StuckBetween (departure_time r) (eta_final r) now r.status

StuckBetween-cases :
    (departure eta : Option Time) (now : Time) (s : RouteStatus)
    → StuckBetween departure eta now s ⊎ ¬ StuckBetween departure eta now s
StuckBetween-cases none eta now s = inr (λ h. h)
StuckBetween-cases (some departure) none now s = inr (λ h. h)
StuckBetween-cases (some departure) (some eta) now s = stuck s
  where
    stuck :
        (s : RouteStatus)
        → StuckBetween (some departure) (some eta) now s
          ⊎ ¬ StuckBetween (some departure) (some eta) now s
    stuck planned = elim (Bool-cases (leb departure now)) [
      | inl le ↦ inl (ground (arith, le), inl refl)
      | inr early ↦ inr (λ h. ground (arith, early, h.0))
    ]
    stuck scheduled = inr (λ h. ground (arith, h.1))
    stuck in_progress = inr (λ h. ground (arith, h.1))
    stuck completed = elim (Bool-cases (leb departure now && ltb now eta)) [
      | inl both ↦ inl (ground (arith, both), inr (refl, ground (arith, both)))
      | inr not_both ↦ inr (λ h. ground (arith, not_both, h.0, h.1))
    ]

-- The result is a route that is in the status of its schedule.
abbrev pub IsUpdated : Time → Route → Result (Route × Option RouteStateReconciled × Bool) → Type 0
IsUpdated now r x =
    (r' : Route) × (e : Option RouteStateReconciled) × (changed : Bool) × (x ≡ ok (r', e, changed))
    × IsDue r now r'.status

is_ok-IsUpdated :
    (now : Time) (r : Route) (x : Result (Route × Option RouteStateReconciled × Bool))
    → reconcile_status now r ≡ x
    → is_ok x ≡ true
    → IsUpdated now r (reconcile_status now r)
is_ok-IsUpdated now r (ok (r', e, changed)) h fine =
    (r', e, changed, h, (reconcile_status_settles now r r' e changed h).0)
is_ok-IsUpdated now r (err x) h fine = cc

stuck-raises :
    (now : Time) (r : Route) → IsStuck now r → reconcile_status now r ≡ err domain_conflict
unfolding reconcile_status apply_route_status compute_route_status
stuck-raises now r h = ground arith

free-ok : (now : Time) (r : Route) → ¬ IsStuck now r → is_ok (reconcile_status now r) ≡ true
unfolding reconcile_status apply_route_status compute_route_status
free-ok now r h = ground arith

-- The reconciliation of a status on every branch. It raises a conflict exactly when the schedule has
-- a departure that is not after the time, and the stored status is planned, or is completed before
-- the final arrival; in every other case it returns a route in the status of the schedule.
pub reconcile_status_cases :
    (now : Time) (r : Route)
    → (IsStuck now r × (reconcile_status now r ≡ err domain_conflict))
      ⊎ ((¬ IsStuck now r) × IsUpdated now r (reconcile_status now r))
reconcile_status_cases now r =
    elim (StuckBetween-cases (departure_time r) (eta_final r) now r.status) [
      | inl stuck ↦ inl (stuck, stuck-raises now r stuck)
      | inr free ↦ inr (free, is_ok-IsUpdated now r _ refl (free-ok now r free))
    ]
