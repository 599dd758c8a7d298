-- ===== src/Route/TruckLinks.antt =====
-- Routes and trucks refer to each other, and stay so through assignment and release.
use fleet_flow.Base.{Bool, ◌≡◌, Option, some, arith}
use fleet_flow.Schedule.{Time}
use fleet_flow.Enums.{TruckReleaseReason, on_the_way}
use fleet_flow.World.{World, RouteRef, TruckRef}
use fleet_flow.Route.Trucks.{assign_truck, release_truck}

-- A route's truck refers back to the route and is on the way; a truck's route refers back to it.
pub record IsLinked (w : World) : Type 0 where
  pub back :
      (r : RouteRef) (t : TruckRef) → (w.routes r).truck ≡ some t → (w.trucks t).route ≡ some r
  pub busy :
      (r : RouteRef) (t : TruckRef) → (w.routes r).truck ≡ some t → (w.trucks t).status ≡ on_the_way
  pub forth :
      (t : TruckRef) (r : RouteRef) → (w.trucks t).route ≡ some r → (w.routes r).truck ≡ some t

module _ (self : RouteRef) (ref : TruckRef) (at : Time) (w : World) (h : IsLinked w) where
  abbrev assigned : World
  assigned = (assign_truck self ref at w).1

  assign-back :
      (r : RouteRef) (t : TruckRef)
      → (assigned.routes r).truck ≡ some t
      → (assigned.trucks t).route ≡ some r
  unfolding assign_truck
  assign-back r t e = ground (arith, h.back r t)

  assign-busy :
      (r : RouteRef) (t : TruckRef)
      → (assigned.routes r).truck ≡ some t
      → (assigned.trucks t).status ≡ on_the_way
  unfolding assign_truck
  assign-busy r t e = ground (arith, h.busy r t)

  assign-forth :
      (t : TruckRef) (r : RouteRef)
      → (assigned.trucks t).route ≡ some r
      → (assigned.routes r).truck ≡ some t
  unfolding assign_truck
  assign-forth t r e = ground (arith, h.forth t r)

  -- If the links between routes and trucks are right before a call of `assign_truck`, they are right
  -- after it, also when the call raises: a route's truck refers back to the route and is on the way,
  -- and a truck's route refers back to the truck.
  pub assign_truck-IsLinked : IsLinked (assign_truck self ref at w).1
  assign_truck-IsLinked = record { back = assign-back; busy = assign-busy; forth = assign-forth }

module _ (self : RouteRef) (now : Option Time) (clock : Time) (force : Bool)
    (reason : TruckReleaseReason) (at : Time) (w : World) (h : IsLinked w) where
  abbrev after_release : World
  after_release = (release_truck self now clock force reason at w).1

  release-back :
      (r : RouteRef) (t : TruckRef)
      → (after_release.routes r).truck ≡ some t
      → (after_release.trucks t).route ≡ some r
  unfolding release_truck
  release-back r t e = ground (arith, h.back r t, h.back self t)

  release-busy :
      (r : RouteRef) (t : TruckRef)
      → (after_release.routes r).truck ≡ some t
      → (after_release.trucks t).status ≡ on_the_way
  unfolding release_truck
  release-busy r t e = ground (arith, h.busy r t, h.back r t, h.back self t)

  release-forth :
      (t : TruckRef) (r : RouteRef)
      → (after_release.trucks t).route ≡ some r
      → (after_release.routes r).truck ≡ some t
  unfolding release_truck
  release-forth t r e = ground (arith, h.forth t r)

  -- If the links between routes and trucks are right before a call of `release_truck`, forced or not,
  -- they are right after it, also when the call raises or the truck is kept.
  pub release_truck-IsLinked : IsLinked (release_truck self now clock force reason at w).1
  release_truck-IsLinked = record {
    back = release-back;
    busy = release-busy;
    forth = release-forth;
  }
