-- ===== src/Reconcile/Routes.antt =====
-- `reconcile_routes`: each route on its own, and the recovery from a failure.
use fleet_flow.Base.{Bool, true, false, List, [], ◌∷◌, ◌++◌, map, Option, none, some, if◌then◌else◌}
use fleet_flow.Result.{Result, ok, err}
use fleet_flow.Schedule.{Time}
use fleet_flow.Recorder.{event_checkpoint, restore_event_checkpoint}
use fleet_flow.World.{
  Package, Route, World, PackageRef, RouteRef, TruckRef, Action, pure, reads, ◌>>=◌, ◌>>◌,
}
use fleet_flow.Package.{current_location}
use fleet_flow.Package as PackageMethods
use fleet_flow.Truck as TruckMethods
use fleet_flow.Route as RouteMethods
use fleet_flow.Route.Links.{edit_package, edit_route, edit_truck}
use fleet_flow.Reconcile.Status.{RouteStateReconciled, reconcile_status}
use fleet_flow.Reconcile.Packages.{PackageStateReconciled}
use fleet_flow.Reconcile.Trucks.{TruckEvent, TruckReconciliationSummary, nothing, reconcile_truck}
use fleet_flow.Reconcile.Updates.{PackageChanges, update_packages_for_route}

pub data ReconciliationEvent : Type 0 where
  route_event : RouteStateReconciled → ReconciliationEvent
  truck_event : TruckEvent → ReconciliationEvent
  package_event : PackageStateReconciled → ReconciliationEvent

pub record HeartbeatSummary : Type 0 where
  pub mutated_routes : List RouteRef
  pub mutated_packages : List PackageRef
  pub mutated_trucks_moved : List TruckRef
  pub mutated_trucks_released : List TruckRef
  pub mutated_trucks_reconciled : List TruckRef
  pub reconciliation_events : List ReconciliationEvent

abbrev pub no_change : HeartbeatSummary
no_change = record {
  mutated_routes = [];
  mutated_packages = [];
  mutated_trucks_moved = [];
  mutated_trucks_released = [];
  mutated_trucks_reconciled = [];
  reconciliation_events = [];
}

abbrev event_list : Option RouteStateReconciled → List ReconciliationEvent
event_list none = []
event_list (some e) = route_event e ∷ []

-- What one route adds to the summary.
abbrev summarise :
    RouteRef
    → Bool
    → Option RouteStateReconciled
    → TruckReconciliationSummary
    → PackageChanges
    → HeartbeatSummary
summarise self changed event trucks (packages, package_events) = record {
  mutated_routes = if changed then self ∷ [] else [];
  mutated_packages = packages;
  mutated_trucks_moved = trucks.trucks_moved;
  mutated_trucks_released = trucks.trucks_released;
  mutated_trucks_reconciled = trucks.trucks_reconciled;
  reconciliation_events =
      event_list event ++ (map truck_event trucks.events ++ map package_event package_events);
}

abbrev pub append_summary : HeartbeatSummary → HeartbeatSummary → HeartbeatSummary
append_summary a b = record {
  mutated_routes = a.mutated_routes ++ b.mutated_routes;
  mutated_packages = a.mutated_packages ++ b.mutated_packages;
  mutated_trucks_moved = a.mutated_trucks_moved ++ b.mutated_trucks_moved;
  mutated_trucks_released = a.mutated_trucks_released ++ b.mutated_trucks_released;
  mutated_trucks_reconciled = a.mutated_trucks_reconciled ++ b.mutated_trucks_reconciled;
  reconciliation_events = a.reconciliation_events ++ b.reconciliation_events;
}

-- The status of the route; a status that is refused raises before the first write.
unfoldable pub update_status : RouteRef → Time → Action (Option RouteStateReconciled × Bool)
unfolding reconcile_status
update_status self now = do
  (r, event, changed) ← reads (λ w. reconcile_status now (w.routes self))
  edit_route self (λ _. r)
  pure (event, changed)

-- `if update_trucks:`
abbrev pub truck_step : Bool → RouteRef → Time → Action TruckReconciliationSummary
truck_step false self now = pure nothing
truck_step true self now = reconcile_truck self now

-- The body of the `try`.
unfoldable pub reconcile_body : Bool → RouteRef → Time → Action HeartbeatSummary
unfolding update_status reconcile_truck update_packages_for_route
reconcile_body update_trucks self now = do
  (event, changed) ← update_status self now
  trucks ← truck_step update_trucks self now
  packages ← update_packages_for_route self now
  pure (summarise self changed event trucks packages)

-- `package.restore_state(...); package.restore_event_checkpoint(...)`
unfoldable pub restore_package : Package → PackageRef → Action (Unit {0})
restore_package before ref = do
  edit_package ref (PackageMethods.restore_state (PackageMethods.snapshot_state before))
  events ← reads (λ w.
      restore_event_checkpoint (event_checkpoint before.pending_events)
        (w.packages ref).pending_events)
  edit_package ref (λ p. record p { pending_events = events })

-- The packages, from the snapshots that were taken in the world `old`.
unfoldable pub restore_packages : World → List PackageRef → Action (Unit {0})
unfolding restore_package
restore_packages old [] = pure tt
restore_packages old (ref ∷ refs) =
    restore_package (old.packages ref) ref >> restore_packages old refs

-- `route.restore_state(...); route.restore_event_checkpoint(...)`
unfoldable pub restore_route : Route → RouteRef → Action (Unit {0})
restore_route before ref = do
  restored ←
      reads (λ w. RouteMethods.restore_state (RouteMethods.snapshot_state before) (w.routes ref))
  edit_route ref (λ _. restored)
  events ← reads (λ w.
      restore_event_checkpoint (event_checkpoint before.pending_events)
        (w.routes ref).pending_events)
  edit_route ref (λ r. record r { pending_events = events })

-- `if original_truck is not None and truck_snapshot is not None:`
unfoldable pub restore_truck : World → Option TruckRef → Action (Unit {0})
restore_truck old none = pure tt
restore_truck old (some ref) =
    edit_truck ref (TruckMethods.restore_state (TruckMethods.snapshot_state (old.trucks ref)))

-- The body of the `except`.
unfoldable pub recover : World → RouteRef → Action (Unit {0})
unfolding restore_route restore_packages restore_truck
recover old self = do
  restore_route (old.routes self) self
  restore_packages old (old.routes self).packages
  restore_truck old (old.routes self).truck

-- What `try ... except Exception: ...; continue` makes of an outcome of its body.
abbrev pub handle :
    World → RouteRef → Result HeartbeatSummary × World → Result HeartbeatSummary × World
handle old self (ok s, w) = (ok s, w)
handle old self (err e, w) = (recover old self >> pure no_change) w

unfoldable pub reconcile_route : Bool → RouteRef → Time → Action HeartbeatSummary
unfolding reconcile_body recover
reconcile_route update_trucks self now w = handle w self (reconcile_body update_trucks self now w)

unfoldable pub reconcile_routes : Bool → List RouteRef → Time → Action HeartbeatSummary
unfolding reconcile_route
reconcile_routes update_trucks [] now = pure no_change
reconcile_routes update_trucks (ref ∷ refs) now = do
  first ← reconcile_route update_trucks ref now
  rest ← reconcile_routes update_trucks refs now
  pure (append_summary first rest)
