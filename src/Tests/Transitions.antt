-- ===== src/Tests/Transitions.antt =====
-- The states of a package and of a route, and rolling a package back, at concrete inputs.
use fleet_flow.Base.{Bool, true, false, ◌≡◌, ◌⊎◌, ◌↔◌, refl, Option, none, some, arith}
use fleet_flow.Result.{ok, err, domain_conflict, business_rule_violation}
use fleet_flow.Map.{syd, adl}
use fleet_flow.Schedule.{eta_final}
use fleet_flow.Enums.{todo, item_in_progress, done, in_progress, completed}
use fleet_flow.World.{Package, Route}
use fleet_flow.Package.{picked_up, mark_picked_up, mark_delivered, snapshot_state}
use fleet_flow.Recorder.{event_checkpoint}
use fleet_flow.Package.Lifecycle.{
  IsAt, PickupCases, DeliveryCases, picked_up_of_IsAt, lifecycle_cases, delivery_cycle,
}
use fleet_flow.Package.Rollback.{
  pick_up, set_arrival, Changes, here, next, rollback, rollback-Changes, Follows, rollback_iff,
}
use fleet_flow.Route.{started}
use fleet_flow.Reconcile.Status.{
  reconcile_status, apply_route_status, compute_route_status, RouteStateReconciled,
}
use fleet_flow.Reconcile.Status.Settled.{
  target_status, reconcile_status_settles, IsDue, ReportsChange,
}
use fleet_flow.Reconcile.Status.Clock.{
  Heartbeats, start, beat, heartbeats_reach_target, reconcile_status_cases, IsStuck, IsUpdated,
}
use fleet_flow.Tests.Journeys.{trip}
use fleet_flow.Tests.Fleet.{tour, parcel, late}

parcel-IsAt : IsAt todo parcel 11
parcel-IsAt = record { linked = refl; status_eq = refl }

lifecycle_cases_example : PickupCases 1000 parcel × DeliveryCases 1000 parcel
lifecycle_cases_example = lifecycle_cases 1000 parcel (λ e. cc)

delivery_cycle_example :
    (q : Package) × (r : Package) × (mark_picked_up 1000 parcel ≡ ok q)
    × (mark_delivered late q ≡ ok r)
    × (q.status ≡ item_in_progress)
    × (q.stored_location ≡ some syd)
    × (r.status ≡ done)
    × (r.stored_location ≡ some adl)
    × (r.route_id ≡ some 11)
    × (mark_delivered late parcel ≡ err business_rule_violation)
    × (mark_picked_up late q ≡ err business_rule_violation)
    × (mark_picked_up late r ≡ err business_rule_violation)
    × (mark_delivered late r ≡ err business_rule_violation)
delivery_cycle_example = delivery_cycle 1000 late late parcel 11 parcel-IsAt

abbrev given_away : Package
given_away = record parcel { customer = 1 }

abbrev aboard : Package
aboard = record (picked_up 1000 11 parcel) { expected_arrival = some late }

parcel-Changes : Changes parcel aboard
parcel-Changes =
    next (next here (pick_up 1000 (picked_up_of_IsAt 1000 parcel 11 parcel-IsAt)))
      (set_arrival (some late))

rollback-Changes_example :
    rollback (snapshot_state parcel) (event_checkpoint parcel.pending_events) aboard ≡ ok parcel
rollback-Changes_example = rollback-Changes parcel aboard parcel-Changes

-- A package that another customer took over.
rollback_iff_example :
    (rollback (snapshot_state parcel) (event_checkpoint parcel.pending_events) given_away
      ≡ ok parcel)
    ↔ Follows parcel given_away
rollback_iff_example = rollback_iff parcel given_away

tour_starts : reconcile_status 2000 tour ≡ ok (started 1000 tour, none, true)
unfolding reconcile_status compute_route_status eta_final apply_route_status
tour_starts = refl

reconcile_status_settles_example :
    IsDue tour 2000 in_progress
    × ReportsChange true tour (started 1000 tour)
    × (some trip ≡ some trip)
    × (reconcile_status 2000 (started 1000 tour) ≡ ok (started 1000 tour, none, false))
reconcile_status_settles_example =
    reconcile_status_settles 2000 tour (started 1000 tour) none true tour_starts

tour_beats : Heartbeats tour 2000 (started 1000 tour)
tour_beats = beat 2000 none true (start 500) (omega arith) tour_starts

heartbeats_reach_target_example :
    (r'' : Route) × (e : Option RouteStateReconciled) × (changed : Bool) × (reconcile_status late
        (started 1000 tour)
      ≡ ok (r'', e, changed))
    × (r''.status ≡ target_status (started 1000 tour) late)
    × IsDue (started 1000 tour) late r''.status
    × (r''.schedule ≡ some trip)
heartbeats_reach_target_example =
    heartbeats_reach_target tour trip refl refl tour_beats late (omega arith)

-- A route that was completed before its arrival.
abbrev too_early : Route
too_early = record tour { status = completed }

reconcile_status_cases_example :
    (IsStuck 2000 too_early × (reconcile_status 2000 too_early ≡ err domain_conflict))
    ⊎ ((¬ IsStuck 2000 too_early) × IsUpdated 2000 too_early (reconcile_status 2000 too_early))
reconcile_status_cases_example = reconcile_status_cases 2000 too_early
