-- ===== src/Route/Links.antt =====
-- domain/entities/delivery_route.py: the methods that link a route with its packages.
use fleet_flow.Base.{
  ℕ, Bool, true, false, ◌||◌, List, [], ◌∷◌, ◌++◌, Option, none, some, ◌==◌, if◌then◌else◌,
}
use fleet_flow.Result.{ok, err, entity_not_found, domain_conflict}
use fleet_flow.Schedule.{Time, arrival_time_at}
use fleet_flow.Enums.{PackageDetachmentReason}
use fleet_flow.Events.{DomainEvent, package_assigned, package_detached}
use fleet_flow.Recorder.{record_event}
use fleet_flow.World.{
  Package, Route, Truck, World, PackageRef, RouteRef, TruckRef, put_package, put_route, put_truck,
  Action, pure, raise, reads, gets, modify, raise_if, ◌>>=◌, ◌>>◌,
}
use fleet_flow.Package.{set_route, reset_assignment_state, current_location}
use fleet_flow.PackagePolicy.{Decision}
use fleet_flow.PackagePolicy

abbrev pub edit_package : PackageRef → (Package → Package) → Action (Unit {0})
edit_package ref f = modify (λ w. put_package ref (f (w.packages ref)) w)

abbrev pub edit_route : RouteRef → (Route → Route) → Action (Unit {0})
edit_route ref f = modify (λ w. put_route ref (f (w.routes ref)) w)

abbrev pub edit_truck : TruckRef → (Truck → Truck) → Action (Unit {0})
edit_truck ref f = modify (λ w. put_truck ref (f (w.trucks ref)) w)

abbrev pub with_event : DomainEvent → Route → Route
with_event e r = record r { pending_events = record_event e r.pending_events }

-- `_has_package`: any assigned package with the identifier
unfoldable pub has_package : World → List PackageRef → ℕ → Bool
has_package w [] id = false
has_package w (ref ∷ refs) id = (w.packages ref).package_id == id || has_package w refs id

abbrev is_rejection : Decision → Bool
is_rejection none = false
is_rejection (some reason) = true

-- `route.route_id if route is not None else None`
abbrev pub id_of : World → Option RouteRef → Option ℕ
id_of w none = none
id_of w (some ref) = some (w.routes ref).route_id

-- `_update_expected_arrival`
unfoldable pub update_expected_arrival : RouteRef → PackageRef → Action (Unit {0})
update_expected_arrival self ref w = elim (w.routes self).schedule [
  | none ↦ (ok tt, w)
  | some s ↦
      (reads (λ w. arrival_time_at s (w.packages ref).end_location) >>= λ arrival.
      edit_package ref (λ p. record p { expected_arrival = some arrival }))
        w
]

-- `self._packages.append(package); package.route = self`
abbrev link_package : RouteRef → PackageRef → Action (Unit {0})
link_package self ref = do
  edit_route self (λ r. record r { packages = r.packages ++ ref ∷ [] })
  id ← gets (λ w. (w.routes self).route_id)
  edit_package ref (set_route (some (self, id)))

abbrev assigned_event : Package → Option ℕ → Option Time → ℕ → Time → DomainEvent
assigned_event p previous_route_id previous_arrival route_id occurred_at =
    package_assigned (record {
      package_id = p.package_id;
      previous_route_id = previous_route_id;
      new_route_id = route_id;
      previous_expected_arrival = previous_arrival;
      new_expected_arrival = p.expected_arrival;
      occurred_at = occurred_at;
    })

-- `assign_package` for a package that the route does not have.
unfoldable pub assign_new : RouteRef → PackageRef → Option Time → Time → Time → Action (Unit {0})
unfolding update_expected_arrival
assign_new self ref now clock occurred_at = do
  decision ← reads (λ w. PackagePolicy.evaluate w (w.routes self) (w.packages ref) now clock)
  raise_if (is_rejection decision) domain_conflict
  previous_route_id ← gets (λ w. id_of w (w.packages ref).route)
  previous_arrival ← gets (λ w. (w.packages ref).expected_arrival)
  link_package self ref
  update_expected_arrival self ref
  p ← gets (λ w. w.packages ref)
  id ← gets (λ w. (w.routes self).route_id)
  edit_route self (with_event (assigned_event p previous_route_id previous_arrival id occurred_at))

unfoldable pub assign_package :
    RouteRef → PackageRef → Option Time → Time → Time → Action (Unit {0})
unfolding assign_new has_package
assign_package self ref now clock occurred_at w =
    if has_package w (w.routes self).packages (w.packages ref).package_id
    then (ok tt, w)
    else assign_new self ref now clock occurred_at w

-- `restore_package_link`
unfoldable pub restore_package_link : RouteRef → PackageRef → Bool → Action (Unit {0})
unfolding has_package update_expected_arrival
restore_package_link self ref refresh w =
    if has_package w (w.routes self).packages (w.packages ref).package_id
    then (ok tt, w)
    else (link_package self ref >> (if refresh then update_expected_arrival self ref else pure tt))
        w

-- The first package with the identifier, and the list without it.
unfoldable pub find_package : World → ℕ → List PackageRef → Option (PackageRef × List PackageRef)
find_package w id [] = none
find_package w id (ref ∷ refs) =
    let rest = find_package w id refs in
    if (w.packages ref).package_id == id
    then some (ref, refs)
    else elim rest [ none ↦ none | some (found, others) ↦ some (found, ref ∷ others) ]

abbrev detached_event : Package → Package → ℕ → PackageDetachmentReason → Time → DomainEvent
detached_event before after previous_route_id reason occurred_at = package_detached (record {
  package_id = after.package_id;
  previous_route_id = previous_route_id;
  new_route_id = none;
  previous_status = before.status;
  new_status = after.status;
  previous_location = current_location before;
  new_location = current_location after;
  previous_expected_arrival = before.expected_arrival;
  new_expected_arrival = after.expected_arrival;
  reason = reason;
  occurred_at = occurred_at;
})

detach_found :
    RouteRef
    → PackageRef
    → List PackageRef
    → PackageDetachmentReason
    → Time
    → Option RouteRef
    → Action (Unit {0})
unfolding reset_assignment_state
detach_found self ref others reason occurred_at none = raise domain_conflict
detach_found self ref others reason occurred_at (some route) = do
  edit_route self (λ r. record r { packages = others })
  previous_route_id ← gets (λ w. (w.routes route).route_id)
  before ← gets (λ w. w.packages ref)
  edit_package ref reset_assignment_state
  after ← gets (λ w. w.packages ref)
  edit_route self (with_event (detached_event before after previous_route_id reason occurred_at))

unfoldable pub detach_package :
    RouteRef → PackageRef → PackageDetachmentReason → Time → Action (Unit {0})
unfolding detach_found find_package
detach_package self ref reason occurred_at w =
    elim (find_package w (w.packages ref).package_id (w.routes self).packages) [
      | none ↦ (err entity_not_found, w)
      | some (found, others) ↦
          detach_found self found others reason occurred_at (w.packages found).route w
    ]
