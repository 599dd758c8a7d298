-- ===== src/Reconcile/Frame/Releases.antt =====
-- The truck of a route: what a move and a release of it write to.
use fleet_flow.Base.{ℕ, Bool, true, false, ◌≡◌, refl, Option, none, some, if◌then◌else◌, arith}
use fleet_flow.Result.{Result, ok, runtime_error, or_raise}
use fleet_flow.Location.{LocationCode}
use fleet_flow.Schedule.{Time, RoutePosition}
use fleet_flow.Enums.{TruckReleaseReason, route_completed}
use fleet_flow.Events.{DomainEvent}
use fleet_flow.World.{Route, Truck, World, RouteRef, TruckRef, Action, put_truck, put_route, pure}
use fleet_flow.RouteView.{eta_final}
use fleet_flow.Truck as TruckMethods
use fleet_flow.Route.Links.{with_event}
use fleet_flow.Route.Rollback as RouteRollback
use fleet_flow.Route.Trucks.{release_done, release_located, release_truck, truck_released_event}
use fleet_flow.Reconcile.Trucks.{
  stand_at, set_truck_unscheduled, set_truck_in_transit, move_truck, release_completed,
}
use fleet_flow.Reconcile.Frame.{SameRoute, SameTruck}
use fleet_flow.Reconcile.Frame.Keeps.{
  Area, IsClosed, Kept, Kept-refl, Kept-trans, Kept-reads, Kept-truck, Kept-route,
}

release-SameTruck :
    (route : Route) (now : Option Time) (clock : Time) (force : Bool) (t : Truck)
    → SameTruck t (TruckMethods.release (some route) now clock force t).0
unfolding TruckMethods.release
release-SameTruck route now clock force t = record {
  id = ground arith;
  carries = ground arith;
  reaches = ground arith;
}

pub stand_at-SameTruck :
    (self : RouteRef) (city : Option LocationCode) (t : Truck)
    → SameTruck t (stand_at self city t).0
unfolding stand_at
stand_at-SameTruck self city t = record { id = refl; carries = refl; reaches = refl }

pub in_transit-SameTruck :
    (self : RouteRef) (position : RoutePosition) (t : Truck)
    → SameTruck t (set_truck_in_transit self position t).0
unfolding set_truck_in_transit
in_transit-SameTruck self position t = record { id = refl; carries = refl; reaches = refl }

pub unscheduled-SameTruck : (t : Truck) → SameTruck t (set_truck_unscheduled t).0
unfolding set_truck_unscheduled
unscheduled-SameTruck t = record {
  id = ground arith;
  carries = ground arith;
  reaches = ground arith;
}

with_event-SameRoute : (e : DomainEvent) (r : Route) → SameRoute r (with_event e r)
with_event-SameRoute e r = record {
  follows = RouteRollback.one_more r (with_event e r) e refl refl refl;
  plan = refl;
}

module _ (a : Area) (ref : TruckRef) (fits : a.trucks ref ≡ true) where
  pub Kept-move :
      (f : Truck → Truck × Bool)
      → ((t : Truck) → SameTruck t (f t).0)
      → (w : World) → IsClosed a w
      → Kept a w (move_truck ref f w).1
  Kept-move f same w h = Kept-truck a w ref (f (w.trucks ref)).0 h fits (same (w.trucks ref))

  Kept-release_done :
      (before : Truck) (previous : ℕ) (from : LocationCode) (reason : TruckReleaseReason)
      (at : Time) (to : Option LocationCode) (w : World)
      → IsClosed a w
      → Kept a w (release_done (a.self) ref before previous from reason at to w).1
  unfolding release_done TruckMethods.restore_state
  Kept-release_done before previous from reason at none w h =
      Kept-truck a w ref
        (TruckMethods.restore_state (TruckMethods.snapshot_state before) (w.trucks ref)) h fits
        (record { id = refl; carries = refl; reaches = refl })
  Kept-release_done before previous from reason at (some to) w h =
      let freed = record (w.routes (a.self)) { truck = none } in
      let w1 = put_route (a.self) freed w in
      let first =
        Kept-route a w freed h
          (record { follows = RouteRollback.silent _ _ refl refl refl; plan = refl }) (λ t e. cc)
          refl in
      let e = truck_released_event w1 before (w1.trucks ref) previous from to reason at in
      Kept-trans a first (
        Kept-route a w1 (with_event e (w1.routes (a.self))) first.closed
          (with_event-SameRoute e (w1.routes (a.self))) (λ t e. e) refl)

  Kept-released :
      (before : Truck) (previous : ℕ) (from : LocationCode) (reason : TruckReleaseReason)
      (at : Time) (after : Truck) (released : Bool) (w : World)
      → IsClosed a w
      → SameTruck (w.trucks ref) after
      → Kept a w
          (elim released as (λ _. Result Bool × World) [
            | false ↦ (ok false, put_truck ref after w)
            | true ↦
                release_done
                  (a.self)
                  ref
                  before
                  previous
                  from
                  reason
                  at
                  after.current_location
                  (put_truck ref after w)
          ]).1
  Kept-released before previous from reason at after false w h same =
      Kept-truck a w ref after h fits same
  Kept-released before previous from reason at after true w h same =
      let first = Kept-truck a w ref after h fits same in
      Kept-trans a first (
        Kept-release_done before previous from reason at after.current_location
          (put_truck ref after w) first.closed)

  Kept-release_located :
      (route : Option RouteRef) (location : Option LocationCode) (now : Option Time) (clock : Time)
      (force : Bool) (reason : TruckReleaseReason) (at : Time) (w : World)
      → IsClosed a w
      → Kept a w
          (release_located (a.self) ref (w.trucks ref) route location now clock force reason at w).1
  unfolding release_located
  Kept-release_located none location now clock force reason at w h = Kept-refl a w h
  Kept-release_located (some route) none now clock force reason at w h = Kept-refl a w h
  Kept-release_located (some route) (some from) now clock force reason at w h =
      let x = TruckMethods.release (some (w.routes route)) now clock force (w.trucks ref) in
      Kept-released (w.trucks ref) (w.routes route).route_id from reason at x.0 x.1 w h
        (release-SameTruck (w.routes route) now clock force (w.trucks ref))

module _ (a : Area) where
  abbrev release_on :
      Option TruckRef → Option Time → Time → Bool → TruckReleaseReason → Time → Action Bool
  release_on o now clock force reason at w = elim o [
    | none ↦ (ok false, w)
    | some ref ↦
        let truck = w.trucks ref in
        release_located (a.self) ref truck truck.route truck.current_location now clock force reason
          at w
  ]

  Kept-release_on :
      (o : Option TruckRef) (now : Option Time) (clock : Time) (force : Bool)
      (reason : TruckReleaseReason) (at : Time) (w : World)
      → (w.routes (a.self)).truck ≡ o
      → IsClosed a w
      → Kept a w (release_on o now clock force reason at w).1
  Kept-release_on none now clock force reason at w e h = Kept-refl a w h
  Kept-release_on (some ref) now clock force reason at w e h =
      Kept-release_located a ref (h.truck_in ref e) (w.trucks ref).route
        (w.trucks ref).current_location now clock force reason at w h

  pub Kept-release_truck :
      (now : Option Time) (clock : Time) (force : Bool) (reason : TruckReleaseReason) (at : Time)
      (w : World)
      → IsClosed a w
      → Kept a w (release_truck (a.self) now clock force reason at w).1
  unfolding release_truck
  Kept-release_truck now clock force reason at w h =
      Kept-release_on (w.routes (a.self)).truck now clock force reason at w refl h

  pub Kept-release_completed :
      (now : Time) (w : World) → IsClosed a w → Kept a w (release_completed (a.self) now w).1
  unfolding release_completed
  Kept-release_completed now w h =
      Kept-reads a (λ w. or_raise (eta_final (w.routes (a.self))) runtime_error)
        (λ completion. release_truck (a.self) (some now) now false route_completed completion) w h
        (λ completion e. Kept-release_truck (some now) now false route_completed completion w h)

  pub Kept-release_if :
      (ended : Bool) (now : Time) (w : World)
      → IsClosed a w
      → Kept a w ((if ended then release_completed (a.self) now else pure false) w).1
  Kept-release_if true now w h = Kept-release_completed now w h
  Kept-release_if false now w h = Kept-refl a w h
