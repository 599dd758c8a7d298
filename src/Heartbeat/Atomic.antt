-- ===== src/Heartbeat/Atomic.antt =====
-- A heartbeat advances the world or leaves it as it was.
use fleet_flow.Base.{
  ℕ, true, ◌≡◌, refl, ap, ◌∙◌, ◌⊎◌, inl, inr, List, [], ◌∷◌, Option, ◌==◌, ==_iff, if◌then◌else◌,
  All, All-mem, arith, mem, Bool-cases,
}
use mathlib.Core.Path.{subst}
use fleet_flow.Result.{Result, Error, ok, err}
use fleet_flow.Schedule.{Time}
use fleet_flow.World.{World, RouteRef}
use fleet_flow.RouteView.{or_clock}
use fleet_flow.Route.Rollback.{IsBuilt}
use fleet_flow.Reconcile.Routes.{HeartbeatSummary, reconcile_routes}
use fleet_flow.Reconcile.Frame.{Within}
use fleet_flow.Reconcile.Isolation.{reconcile_routes-Within}
use fleet_flow.Heartbeat.Restore.{Outcome, listed, restore_all_lem}
use fleet_flow.Heartbeat.{UnitOfWork, state_changed, run, packages_of, trucks_of, rethrow, advance}

-- The snapshots bring back what a run over the listed routes changed.
abbrev Final : Type 0
Final = Result HeartbeatSummary × World

undone :
    (old : World) (refs : List RouteRef) (e : Error) (w : World)
    → All (λ r. IsBuilt (old.routes r)) refs
    → Within (mem refs) (mem (packages_of old refs)) (mem (trucks_of old refs)) old w
    → rethrow old refs (err e, w) ≡ (err e, old)
undone old refs e w built h =
    let after : Outcome → Final = λ x. elim x.0 [ ok u ↦ (err e, x.1) | err f ↦ (err f, x.1) ] in
    ap after (restore_all_lem old refs w built h)

abbrev pub closing : UnitOfWork → HeartbeatSummary → World → Result (Unit {0})
closing unit_of_work s v = if state_changed s then unit_of_work s v else ok tt

abbrev close : Result (Unit {0}) → HeartbeatSummary → World → Final
close o s v = elim o [ ok u ↦ (ok s, v) | err e ↦ (err e, v) ]

-- What a heartbeat does once its routes are reconciled.
advance_after :
    (unit_of_work : UnitOfWork) (refs : List RouteRef) (now : Option Time) (clock : Time)
    (w : World) (s : HeartbeatSummary) (v : World)
    → reconcile_routes true refs (or_clock now clock) w ≡ (ok s, v)
    → advance unit_of_work refs now clock w ≡ rethrow w refs (close (closing unit_of_work s v) s v)
unfolding advance run
advance_after unit_of_work refs now clock w s v e =
    let after : Final → Final =
      λ x. elim x.0 [ ok t ↦ close (closing unit_of_work t x.1) t x.1 | err f ↦ (err f, x.1) ] in
    ap (rethrow w refs) (ap after e)

All-at : (p : ℕ → Type 0) (xs : List ℕ) → All p xs → (k : ℕ) → mem xs k ≡ true → p k
All-at p [] all k m = cc
All-at p (x ∷ xs) (here, all) k m = elim (Bool-cases (x == k)) [
  | inl e ↦ subst p ((==_iff x k).0 e) here
  | inr other ↦ All-at p xs all k (ground (arith, other, m))
]

closed :
    (refs : List RouteRef) (old : World) (s : HeartbeatSummary) (v : World) (o : Result (Unit {0}))
    → All (λ r. IsBuilt (old.routes r)) refs
    → Within (mem refs) (mem (packages_of old refs)) (mem (trucks_of old refs)) old v
    → ((o ≡ ok tt) × (rethrow old refs (close o s v) ≡ (ok s, v)))
      ⊎ ((e : Error) × (o ≡ err e) × (rethrow old refs (close o s v) ≡ (err e, old)))
closed refs old s v (ok u) built h = inl (refl, refl)
closed refs old s v (err e) built h = inr (e, refl, undone old refs e v built h)

-- A heartbeat over routes with the schedules that the scheduler builds runs the reconciliation of
-- all of them to its end. Where nothing changed or the unit of work accepts the changes, it returns
-- that summary and world; where the unit of work raises, the heartbeat raises the same error and
-- the world, with every object and every pending event in it, is the one of before.
pub advance_is_atomic :
    (unit_of_work : UnitOfWork) (refs : List RouteRef) (now : Option Time) (clock : Time)
    (w : World)
    → All (λ r. IsBuilt (w.routes r)) refs
    → (s : HeartbeatSummary) × (v : World) × (reconcile_routes true refs (or_clock now clock) w
        ≡ (ok s, v))
      × (((closing unit_of_work s v ≡ ok tt) × (advance unit_of_work refs now clock w ≡ (ok s, v)))
          ⊎ ((e : Error) × (closing unit_of_work s v ≡ err e)
              × (advance unit_of_work refs now clock w ≡ (err e, w))))
advance_is_atomic unit_of_work refs now clock w built =
    let (s, v, e, within, ready) =
      reconcile_routes-Within (mem refs) (mem (packages_of w refs)) (mem (trucks_of w refs)) true
        refs (or_clock now clock) w (All-mem refs)
        (record {
          built = All-at (λ r. IsBuilt (w.routes r)) refs built;
          linked = listed w refs;
        }) in
    let same = advance_after unit_of_work refs now clock w s v e in
    (
      s,
      v,
      e,
      elim (closed refs w s v (closing unit_of_work s v) built within) [
        | inl (done, r) ↦ inl (done, same ∙ r)
        | inr (f, failed, r) ↦ inr (f, failed, same ∙ r)
      ],
    )
