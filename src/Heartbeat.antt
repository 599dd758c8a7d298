-- ===== src/Heartbeat.antt =====
-- application/services/heartbeat_service.py: all routes are reconciled and the changes persisted
-- together. The unit of work is code behind a port: an argument, which may raise and does not write
-- to the entities.
pub mod Restore
pub mod Atomic
use fleet_flow.Base.{
  ℕ, Bool, true, false, not, ◌||◌, List, [], ◌∷◌, ◌++◌, Option, none, some, if◌then◌else◌,
}
use fleet_flow.Result.{Error, Result, ok, err}
use fleet_flow.Schedule.{Time}
use fleet_flow.World.{
  Route, World, PackageRef, RouteRef, TruckRef, Action, pure, raise, reads, gets, ◌>>=◌, ◌>>◌,
}
use fleet_flow.RouteView.{or_clock}
use fleet_flow.Reconcile.Routes.{
  HeartbeatSummary, reconcile_routes, restore_route, restore_packages, restore_truck,
}

abbrev some_of {ℓ} : {A : Type ℓ} → List A → Bool
some_of [] = false
some_of (x ∷ xs) = true

-- `state_changed`
abbrev pub state_changed : HeartbeatSummary → Bool
state_changed s =
    some_of s.mutated_routes
    || some_of s.mutated_packages
    || some_of s.mutated_trucks_moved
    || some_of s.mutated_trucks_released
    || some_of s.mutated_trucks_reconciled

-- `update_state` for what the summary names, and `commit`.
abbrev pub UnitOfWork : Type 0
UnitOfWork = HeartbeatSummary → World → Result (Unit {0})

-- The body of the `try`.
unfoldable pub run : UnitOfWork → List RouteRef → Option Time → Time → Action HeartbeatSummary
unfolding reconcile_routes
run unit_of_work refs now clock = do
  summary ← reconcile_routes true refs (or_clock now clock)
  reads (λ w. if state_changed summary then unit_of_work summary w else ok tt)
  pure summary

-- `for route in routes for package in route.packages`
abbrev pub packages_of : World → List RouteRef → List PackageRef
packages_of w [] = []
packages_of w (r ∷ rs) = (w.routes r).packages ++ packages_of w rs

-- `route.truck for route in routes if route.truck is not None`
abbrev pub cons_truck : Option TruckRef → List TruckRef → List TruckRef
cons_truck none ts = ts
cons_truck (some t) ts = t ∷ ts

abbrev pub trucks_of : World → List RouteRef → List TruckRef
trucks_of w [] = []
trucks_of w (r ∷ rs) = cons_truck (w.routes r).truck (trucks_of w rs)

unfoldable pub restore_routes : World → List RouteRef → Action (Unit {0})
unfolding restore_route
restore_routes old [] = pure tt
restore_routes old (r ∷ rs) = restore_route (old.routes r) r >> restore_routes old rs

unfoldable pub restore_trucks : World → List TruckRef → Action (Unit {0})
unfolding restore_truck
restore_trucks old [] = pure tt
restore_trucks old (t ∷ ts) = restore_truck old (some t) >> restore_trucks old ts

-- The loops of the `except`, over the snapshots that were taken in the world `old`.
unfoldable pub restore_all : World → List RouteRef → Action (Unit {0})
unfolding restore_routes restore_packages restore_trucks
restore_all old refs = do
  restore_routes old refs
  restore_packages old (packages_of old refs)
  restore_trucks old (trucks_of old refs)

abbrev pub rethrow :
    World → List RouteRef → Result HeartbeatSummary × World → Result HeartbeatSummary × World
rethrow old refs (ok s, w) = (ok s, w)
rethrow old refs (err e, w) = (restore_all old refs >> raise e) w

-- `advance`, for the routes of the repository.
unfoldable pub advance : UnitOfWork → List RouteRef → Option Time → Time → Action HeartbeatSummary
unfolding run restore_all
advance unit_of_work refs now clock w = rethrow w refs (run unit_of_work refs now clock w)
