-- ===== src/Reconcile/Frame/Body.antt =====
-- The reconciliation of a route keeps to the route, its packages and its truck.
use fleet_flow.Base.{Bool, true, false, ◌≡◌, sym, ◌∙◌, List, [], ◌∷◌, All}
use fleet_flow.Schedule.{Time}
use fleet_flow.World.{World, PackageRef, put_package}
use fleet_flow.RouteView.{departure_time}
use fleet_flow.Reconcile.Status.{reconcile_status}
use fleet_flow.Reconcile.Packages.{StopTimes, reconcile_package}
use fleet_flow.Reconcile.Updates.{
  correction_event, update_package, update_packages, times_of, update_packages_for_route,
}
use fleet_flow.Reconcile.Routes.{update_status, truck_step, reconcile_body}
use fleet_flow.Reconcile.Frame.Keeps.{
  Area, IsClosed, Kept, Kept-refl, Kept-trans, Kept-case, Kept-package, Kept-route,
}
use fleet_flow.Reconcile.Frame.Status.{reconcile_status-SameLinks}
use fleet_flow.Reconcile.Frame.Trucks.{Kept-reconcile_truck}
use fleet_flow.Reconcile.Frame.Packages.{reconcile_package-Follows}

module _ (a : Area) where
  Kept-update_status :
      (now : Time) (w : World) → IsClosed a w → Kept a w (update_status (a.self) now w).1
  unfolding update_status
  Kept-update_status now w h =
      Kept-case a w (reconcile_status now (w.routes (a.self))) w _ (Kept-refl a w h) (λ x e.
        let links = reconcile_status-SameLinks now (w.routes (a.self)) x e in
        Kept-route a w x.0 h links.same (λ t f. sym (links.truck) ∙ f) links.packages)

  Kept-truck_step :
      (update_trucks : Bool) (now : Time) (w : World)
      → IsClosed a w
      → Kept a w (truck_step update_trucks (a.self) now w).1
  Kept-truck_step false now w h = Kept-refl a w h
  Kept-truck_step true now w h = Kept-reconcile_truck a now w h

  Kept-update_package :
      (times : StopTimes) (now : Time) (ref : PackageRef) (w : World)
      → a.packages ref ≡ true
      → IsClosed a w
      → Kept a w (update_package (a.self) times now ref w).1
  unfolding update_package
  Kept-update_package times now ref w fits h =
      let route = w.routes (a.self) in
      Kept-case a w (reconcile_package route times now (w.packages ref)) w _ (Kept-refl a w h)
        (λ c e.
          let w1 = put_package ref c.item w in
          let first =
            Kept-package a w ref c.item h fits
              (reconcile_package-Follows route times now (w.packages ref) c e) in
          Kept-trans a first (
            Kept-case a w1 (correction_event route times now (w.packages ref) c c.reasons) w1 _
              (Kept-refl a w1 first.closed) (λ events f. Kept-refl a w1 first.closed)))

  Kept-update_packages :
      (times : StopTimes) (now : Time) (refs : List PackageRef) (w : World)
      → All (λ p. a.packages p ≡ true) refs
      → IsClosed a w
      → Kept a w (update_packages (a.self) times now refs w).1
  unfolding update_packages
  Kept-update_packages times now [] w fits h = Kept-refl a w h
  Kept-update_packages times now (ref ∷ refs) w (here, fits) h =
      let call = update_package (a.self) times now ref w in
      let first = Kept-update_package times now ref w here h in
      Kept-case a w call.0 call.1 _ first (λ x e.
        let more = update_packages (a.self) times now refs call.1 in
        let rest = Kept-update_packages times now refs call.1 fits first.closed in
        Kept-case a call.1 more.0 more.1 _ rest (λ y f. Kept-refl a more.1 rest.closed))

  Kept-update_packages_for_route :
      (now : Time) (w : World)
      → IsClosed a w
      → Kept a w (update_packages_for_route (a.self) now w).1
  unfolding update_packages_for_route
  Kept-update_packages_for_route now w h =
      let route = w.routes (a.self) in
      Kept-case a w (times_of (departure_time route) route) w _ (Kept-refl a w h)
        (λ times e. Kept-update_packages times now route.packages w h.packages_in h)

  pub Kept-reconcile_body :
      (update_trucks : Bool) (now : Time) (w : World)
      → IsClosed a w
      → Kept a w (reconcile_body update_trucks (a.self) now w).1
  unfolding reconcile_body
  Kept-reconcile_body update_trucks now w h =
      let one = update_status (a.self) now w in
      let first = Kept-update_status now w h in
      Kept-case a w one.0 one.1 _ first (λ x e.
        let two = truck_step update_trucks (a.self) now one.1 in
        let second = Kept-truck_step update_trucks now one.1 first.closed in
        Kept-case a one.1 two.0 two.1 _ second (λ y f.
          let three = update_packages_for_route (a.self) now two.1 in
          let third = Kept-update_packages_for_route now two.1 second.closed in
          Kept-case a two.1 three.0 three.1 _ third (λ z g. Kept-refl a three.1 third.closed)))
