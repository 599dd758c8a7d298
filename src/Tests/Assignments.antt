-- ===== src/Tests/Assignments.antt =====
-- The assignment of a truck and the guards of use cases at concrete inputs.
use fleet_flow.Base.{ℕ, zero, suc, Option, some, ◌≡◌, ◌⊎◌, [], ◌∷◌, true, false, All}
use fleet_flow.Result.{ok, err, permission_error}
use fleet_flow.World.{Action, RouteRef, pure}
use fleet_flow.Route.Rollback.{IsBuilt}
use fleet_flow.Authorization.{employee, has, is_known, requires_all, package_remove, audit_view}
use fleet_flow.Authorization.Granted.{Denied, requires_all_decides}
use fleet_flow.AssignTruck.{UnitOfWork, execute}
use fleet_flow.AssignTruck.Atomic.{Assigns, execute-Assigns}
use fleet_flow.Tests.Fleet.{fleet}
use fleet_flow.Tests.Reconciled.{tour-IsBuilt}

abbrev found : ℕ → Option ℕ
found id = some 1

abbrev accepting : UnitOfWork
accepting w = ok tt

fleet-IsBuilt : (r : RouteRef) → found 12 ≡ some r → IsBuilt (fleet.routes r)
fleet-IsBuilt zero e = tour-IsBuilt
fleet-IsBuilt (suc n) e = tour-IsBuilt

execute-Assigns_example :
    Assigns
      (some employee)
      found
      found
      accepting
      1001
      12
      500
      fleet
      (execute (some employee) found found accepting 1001 12 500 fleet)
execute-Assigns_example =
    execute-Assigns (some employee) found found accepting 1001 12 500 fleet fleet-IsBuilt

abbrev nothing_done : Action ℕ
nothing_done = pure 0

requires_all_decides_example :
    ((is_known (some employee) ≡ true)
      × All (λ p. has (some employee) p ≡ true) (package_remove ∷ audit_view ∷ [])
      × (requires_all (some employee) (package_remove ∷ audit_view ∷ []) nothing_done fleet
          ≡ nothing_done fleet))
    ⊎ (((is_known (some employee) ≡ false)
          ⊎ Denied (some employee) (package_remove ∷ audit_view ∷ []))
        × (requires_all (some employee) (package_remove ∷ audit_view ∷ []) nothing_done fleet
            ≡ (err permission_error, fleet)))
requires_all_decides_example =
    requires_all_decides (some employee) (package_remove ∷ audit_view ∷ []) nothing_done fleet
