-- ===== src/Tests/Heartbeats.antt =====
-- Runs of the reconciliation over the fleet, with a unit of work that refuses.
use fleet_flow.Base.{true, some, [], ◌∷◌, ◌≡◌, ◌⊎◌}
use fleet_flow.Result.{Error, ok, err, value_error}
use fleet_flow.Schedule.{Time}
use fleet_flow.World.{World}
use fleet_flow.Reconcile.Routes.{
  HeartbeatSummary, no_change, reconcile_body, reconcile_route, reconcile_routes,
}
use fleet_flow.Reconcile.Isolation.{reconcile_route_isolates}
use fleet_flow.Heartbeat.{UnitOfWork, advance}
use fleet_flow.Heartbeat.Atomic.{closing, advance_is_atomic}
use fleet_flow.Tests.Fleet.{fleet}
use fleet_flow.Tests.Reconciled.{tour-IsBuilt}

abbrev midway : Time
midway = 40_000_000_000

abbrev refusing : UnitOfWork
refusing s w = err value_error

reconcile_route_isolates_example :
    (s : HeartbeatSummary) × (v : World) × (reconcile_route true 0 midway fleet ≡ (ok s, v))
    × ((reconcile_body true 0 midway fleet ≡ (ok s, v))
        ⊎ ((e : Error) × ((reconcile_body true 0 midway fleet).0 ≡ err e)
            × (s ≡ no_change)
            × (v ≡ fleet)))
reconcile_route_isolates_example = reconcile_route_isolates true 0 midway fleet tour-IsBuilt

advance_is_atomic_example :
    (s : HeartbeatSummary) × (v : World) × (reconcile_routes true (0 ∷ []) midway fleet ≡ (ok s, v))
    × (((closing refusing s v ≡ ok tt)
          × (advance refusing (0 ∷ []) (some midway) 0 fleet ≡ (ok s, v)))
        ⊎ ((e : Error) × (closing refusing s v ≡ err e)
            × (advance refusing (0 ∷ []) (some midway) 0 fleet ≡ (err e, fleet))))
advance_is_atomic_example =
    advance_is_atomic refusing (0 ∷ []) (some midway) 0 fleet (tour-IsBuilt, tt)
