-- ===== src/AssignTruck/Touches.antt =====
-- What the assignment of a truck writes to: the route and the truck.
use fleet_flow.Base.{Bool, true, false, not, ◌||◌, ◌≡◌, refl, sym, ◌∙◌, Option, none, some, ◌==◌}
use mathlib.Core.Path.{subst}
use fleet_flow.Result.{Result, Error, ok, err, domain_conflict}
use fleet_flow.Schedule.{Time}
use fleet_flow.World.{
  Route, Truck, World, RouteRef, TruckRef, Action, gets, raise_if, put_route, put_truck, ◌>>=◌,
  ◌>>◌,
}
use fleet_flow.Location.{LocationCode}
use fleet_flow.RouteView.{departure_time}
use fleet_flow.Truck.{is_free}
use fleet_flow.Truck as TruckMethods
use fleet_flow.Route.{schedule}
use fleet_flow.Route.Rollback.{Follows, Follows-refl, Follows-trans, plan-Follows, silent, one_more}
use fleet_flow.Route.Links.{edit_route, with_event}
use fleet_flow.Route.Trucks.{is_some, assign_truck, assign_located, truck_assigned_event}
use fleet_flow.Reconcile.Frame.{SameTruck, SameTruck-refl, SameTruck-trans}
use fleet_flow.Reconcile.Recovery.{update_here}
use fleet_flow.AssignTruck.{schedule_if, assign_in_memory}

-- What follows a step, by its outcome.
abbrev pub next_of : {A B : Type 0} → (A → Action B) → Result A → World → Result B × World
next_of k o v = elim o [ ok a ↦ k a v | err e ↦ (err e, v) ]

module _ (self : RouteRef) (ref : TruckRef) where
  -- Only the route and the truck have changed, and neither its identity.
  pub record Touches (w v : World) : Type 0 where
    pub route : Follows (w.routes self) (v.routes self)
    pub truck : SameTruck (w.trucks ref) (v.trucks ref)
    pub other_routes : (r : RouteRef) → (r == self) ≡ false → v.routes r ≡ w.routes r
    pub other_trucks : (t : TruckRef) → (t == ref) ≡ false → v.trucks t ≡ w.trucks t
    pub packages : v.packages ≡ w.packages
    pub customers : v.customers ≡ w.customers

  pub Touches-refl : (w : World) → Touches w w
  Touches-refl w = record {
    route = Follows-refl (w.routes self);
    truck = SameTruck-refl (w.trucks ref);
    other_routes = λ r h. refl;
    other_trucks = λ t h. refl;
    packages = refl;
    customers = refl;
  }

  pub Touches-trans : {u v w : World} → Touches u v → Touches v w → Touches u w
  Touches-trans f g = record {
    route = Follows-trans f.route g.route;
    truck = SameTruck-trans f.truck g.truck;
    other_routes = λ r h. g.other_routes r h ∙ f.other_routes r h;
    other_trucks = λ t h. g.other_trucks t h ∙ f.other_trucks t h;
    packages = g.packages ∙ f.packages;
    customers = g.customers ∙ f.customers;
  }

  put_route-Touches :
      (w : World) (r : Route) → Follows (w.routes self) r → Touches w (put_route self r w)
  put_route-Touches w r f = record {
    route = subst (Follows (w.routes self)) (sym (update_here w.routes self r)) f;
    truck = SameTruck-refl (w.trucks ref);
    other_routes = λ k h. rw h;
    other_trucks = λ k h. refl;
    packages = refl;
    customers = refl;
  }

  put_truck-Touches :
      (w : World) (t : Truck) → SameTruck (w.trucks ref) t → Touches w (put_truck ref t w)
  put_truck-Touches w t f = record {
    route = Follows-refl (w.routes self);
    truck = subst (SameTruck (w.trucks ref)) (sym (update_here w.trucks ref t)) f;
    other_routes = λ k h. refl;
    other_trucks = λ k h. rw h;
    packages = refl;
    customers = refl;
  }

  abbrev pub Keeps : {A : Type 0} → Action A → Type 0
  Keeps m = (w : World) → Touches w (m w).1

  pub >>=-Keeps :
      {A B : Type 0} (m : Action A) (k : A → Action B)
      → Keeps m
      → ((a : A) → Keeps (k a))
      → Keeps (m >>= k)
  >>=-Keeps {A} {B} m k first next w = go (m w).0 (m w).1 (first w)
    where
      go : (o : Result A) (v : World) → Touches w v → Touches w (next_of k o v).1
      go (ok a) v h = Touches-trans h (next a v)
      go (err e) v h = h

  schedule_if-Keeps :
      (departure : Option Time) (now : Time) → Keeps (schedule_if departure self now)
  schedule_if-Keeps (some t) now w = Touches-refl w
  schedule_if-Keeps none now w = go (schedule now now (w.routes self)) refl
    where
      go :
          (o : Result Route)
          → schedule now now (w.routes self) ≡ o
          → Touches w (next_of (λ r. edit_route self (λ _. r)) o w).1
      go (ok r) h = put_route-Touches w r (plan-Follows now now (w.routes self) h)
      go (err e) h = Touches-refl w

  assign_located-Keeps :
      (now : Time) (o : Option LocationCode) → Keeps (assign_located self ref now o)
  unfolding assign_located TruckMethods.assign
  assign_located-Keeps now none w = Touches-refl w
  assign_located-Keeps now (some location) w =
      let t = TruckMethods.assign self (w.routes self) (w.trucks ref) in
      let w1 = put_truck ref t w in
      let one = put_truck-Touches w t (record { id = refl; carries = refl; reaches = refl }) in
      let r = record (w.routes self) { truck = some ref } in
      let two = put_route-Touches w1 r (silent (w.routes self) r refl refl refl) in
      let w2 = put_route self r w1 in
      let e =
        truck_assigned_event (w.trucks ref) (w2.trucks ref) location (w.routes self).route_id now in
      let three =
        put_route-Touches w2 (with_event e (w2.routes self))
          (one_more (w2.routes self) (with_event e (w2.routes self)) e refl refl refl) in
      Touches-trans one (Touches-trans two three)

  guard-Keeps :
      {B : Type 0} (b : Bool) (e : Error) (m : Action B) → Keeps m → Keeps (raise_if b e >> m)
  guard-Keeps true e m h w = Touches-refl w
  guard-Keeps false e m h w = h w

  assign_free : Time → Action (Unit {0})
  assign_free now = do
    truck ← gets (λ w. w.trucks ref)
    raise_if (not (is_free truck) || is_some truck.route) domain_conflict
    assign_located self ref now truck.current_location

  assign_truck-Keeps : (now : Time) → Keeps (assign_truck self ref now)
  unfolding assign_truck assign_free
  assign_truck-Keeps now w =
      guard-Keeps (is_some (w.routes self).truck) domain_conflict (assign_free now)
        (λ v.
          guard-Keeps (not (is_free (v.trucks ref)) || is_some (v.trucks ref).route) domain_conflict
            (assign_located self ref now (v.trucks ref).current_location)
            (assign_located-Keeps now (v.trucks ref).current_location) v)
        w

  pub assign_in_memory-Keeps : (now : Time) → Keeps (assign_in_memory self ref now)
  unfolding assign_in_memory
  assign_in_memory-Keeps now w =
      >>=-Keeps (schedule_if (departure_time (w.routes self)) self now)
        (λ u. assign_truck self ref now) (schedule_if-Keeps (departure_time (w.routes self)) now)
        (λ u. assign_truck-Keeps now) w
