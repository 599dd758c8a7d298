-- ===== src/AssignTruck/Atomic.antt =====
-- A truck is assigned and persisted, or nothing has happened.
use fleet_flow.Base.{
  ℕ, Bool, true, false, not, ◌≡◌, refl, ap, ◌∙◌, ◌⊎◌, inl, inr, Option, none, some, ◌==◌, ==_iff,
  if◌then◌else◌,
}
use mathlib.Core.Path.{subst}
use fleet_flow.Result.{Result, Error, ok, err, not_found, conflict, permission_error, or_raise}
use fleet_flow.Schedule.{Time}
use fleet_flow.World.{
  World, RouteRef, TruckRef, Action, pure, raise, reads, gets, raise_if, put_route, update, ◌>>=◌,
  ◌>>◌,
}
use fleet_flow.Route.Rollback.{IsBuilt}
use fleet_flow.Route.Trucks.{is_some}
use fleet_flow.Reconcile.Routes.{restore_truck}
use fleet_flow.Reconcile.Recovery.{World-ext, restore_route_lem, restored_truck, update_back}
use fleet_flow.Authorization.{Role, has, requires, route_assign_truck}
use fleet_flow.AssignTruck.Touches.{
  next_of, Touches, Touches-refl, Keeps, >>=-Keeps, assign_in_memory-Keeps,
}
use fleet_flow.AssignTruck.{
  UnitOfWork, AssignTruckToRouteResult, assign_in_memory, undo, assign_and_persist,
  ensure_truck_is_suitable, assign, execute,
}

module _ (self : RouteRef) (ref : TruckRef) where
  persisting-Keeps :
      (unit_of_work : UnitOfWork) (now : Time)
      → Keeps self ref (assign_in_memory self ref now >> reads unit_of_work)
  persisting-Keeps unit_of_work now =
      >>=-Keeps self ref (assign_in_memory self ref now) (λ u. reads unit_of_work)
        (assign_in_memory-Keeps self ref now) (λ u v. Touches-refl self ref v)

  undone :
      (old w : World) (e : Error)
      → IsBuilt (old.routes self)
      → Touches self ref old w
      → undo old self ref (err e, w) ≡ (err e, old)
  unfolding restore_truck
  undone old w e built h =
      let w1 = put_route self (old.routes self) w in
      let raised : World → Result (Unit {0}) × World = λ v. (err e, v) in
      let after : Result (Unit {0}) × World → Result (Unit {0}) × World = λ x.
        let y = next_of (λ u. restore_truck old (some ref)) x.0 x.1 in
        next_of (λ u. raise e) y.0 y.1 in
      ap after (restore_route_lem (old.routes self) self w built h.route)
      ∙ ap raised (
          World-ext _ old h.packages
            (update_back old.routes w.routes (λ j. j == self) self (λ j. (==_iff j self).0)
              h.other_routes)
            (ap (update w.trucks ref) (restored_truck (old.trucks ref) (w.trucks ref) h.truck)
              ∙ update_back old.trucks w.trucks (λ j. j == ref) ref (λ j. (==_iff j ref).0)
                  h.other_trucks)
            h.customers)

  abbrev Persisted : UnitOfWork → Time → World → Result (Unit {0}) × World → Type 0
  Persisted unit_of_work now w p =
      ((e : Error) × (p ≡ (err e, w)))
      ⊎ ((v : World) × (assign_in_memory self ref now w ≡ (ok tt, v))
          × (unit_of_work v ≡ ok tt)
          × (p ≡ (ok tt, v)))

  assign_and_persist-Persisted :
      (unit_of_work : UnitOfWork) (now : Time) (w : World)
      → IsBuilt (w.routes self)
      → Persisted unit_of_work now w (assign_and_persist unit_of_work self ref now w)
  unfolding assign_and_persist
  assign_and_persist-Persisted unit_of_work now w built = go (assign_in_memory self ref now w) refl
    where
      commit :
          (v : World) (o : Result (Unit {0}))
          → assign_in_memory self ref now w ≡ (ok tt, v)
          → unit_of_work v ≡ o
          → Touches self ref w v
          → Persisted unit_of_work now w (undo w self ref (o, v))
      commit v (ok u) e f h = inr (v, e, f, refl)
      commit v (err x) e f h = inl (x, undone w v x built h)

      go :
          (p : Result (Unit {0}) × World)
          → assign_in_memory self ref now w ≡ p
          → Persisted unit_of_work now w
              (undo w self ref (next_of (λ u. reads unit_of_work) p.0 p.1))
      go (ok u, v) e =
          commit v (unit_of_work v) e refl
            (subst (λ x. Touches self ref w x.1) e (assign_in_memory-Keeps self ref now w))
      go (err x, v) e = inl (
        x,
        undone w v x built
            (subst (λ x. Touches self ref w x.1) e (assign_in_memory-Keeps self ref now w)),
      )

-- What a run from the world `w` comes to: an error and the world of before, or all that is promised.
abbrev pub Assigns :
    Option Role
    → (find_route : ℕ → Option RouteRef) → (find_truck : ℕ → Option TruckRef) → UnitOfWork
    → (truck_id route_id : ℕ) → Time
    → World
    → Result AssignTruckToRouteResult × World
    → Type 0
Assigns user find_route find_truck unit_of_work truck_id route_id now w p =
    ((e : Error) × (p ≡ (err e, w)))
    ⊎ ((x : AssignTruckToRouteResult) × (v : World) × (ref : TruckRef) × (p ≡ (ok x, v))
        × (has user route_assign_truck ≡ true)
        × (find_route route_id ≡ some x.route)
        × (find_truck truck_id ≡ some ref)
        × ((w.routes x.route).truck ≡ none)
        × (ensure_truck_is_suitable x.route ref now w ≡ ok tt)
        × (assign_in_memory x.route ref now w ≡ (ok tt, v))
        × (unit_of_work v ≡ ok tt))

module _ (user : Option Role) (find_route : ℕ → Option RouteRef) (find_truck : ℕ → Option TruckRef)
    (unit_of_work : UnitOfWork) (truck_id route_id : ℕ) (now : Time) (w : World) where
  abbrev Holds : Result AssignTruckToRouteResult × World → Type 0
  Holds = Assigns user find_route find_truck unit_of_work truck_id route_id now w

  abbrev report : RouteRef → TruckRef → Unit {0} → Action AssignTruckToRouteResult
  report self ref u = do
    id ← gets (λ w. (w.routes self).route_id)
    truck ← gets (λ w. (w.trucks ref).vehicle_id)
    pure (record { route_id = id; truck_id = truck; route = self })

  abbrev persist : RouteRef → TruckRef → Action AssignTruckToRouteResult
  persist self ref = assign_and_persist unit_of_work self ref now >>= report self ref

  abbrev check : RouteRef → TruckRef → Action AssignTruckToRouteResult
  check self ref = reads (ensure_truck_is_suitable self ref now) >> persist self ref

  abbrev unlinked : RouteRef → TruckRef → Action AssignTruckToRouteResult
  unlinked self ref = do
    current ← gets (λ w. (w.routes self).truck)
    raise_if (is_some current) conflict
    check self ref

  module _ (allowed : has user route_assign_truck ≡ true)
      (built : (r : RouteRef) → find_route route_id ≡ some r → IsBuilt (w.routes r)) where
    module _ (self : RouteRef) (ref : TruckRef) (f : find_route route_id ≡ some self)
        (g : find_truck truck_id ≡ some ref) where
      persists :
          (w.routes self).truck ≡ none
          → ensure_truck_is_suitable self ref now w ≡ ok tt
          → Holds (persist self ref w)
      persists free fits =
          go (assign_and_persist unit_of_work self ref now w)
            (assign_and_persist-Persisted self ref unit_of_work now w (built self f))
        where
          go :
              (p : Result (Unit {0}) × World)
              → Persisted self ref unit_of_work now w p
              → Holds (next_of (report self ref) p.0 p.1)
          go p (inl (e, h)) = inl (e, ap (λ q. next_of (report self ref) q.0 q.1) h)
          go p (inr (v, done, saved, h)) = inr (
            _,
            v,
            ref,
            ap (λ q. next_of (report self ref) q.0 q.1) h,
            allowed,
            f,
            g,
            free,
            fits,
            done,
            saved,
          )

      checks :
          (s : Result (Unit {0}))
          → (w.routes self).truck ≡ none
          → ensure_truck_is_suitable self ref now w ≡ s
          → Holds (next_of (λ u. persist self ref) s w)
      checks (ok u) free h = persists free h
      checks (err e) free h = inl (e, refl)

      starts :
          (o : Option TruckRef)
          → (w.routes self).truck ≡ o
          → Holds (next_of (λ u. check self ref) (if is_some o then err conflict else ok tt) w)
      starts none h = checks (ensure_truck_is_suitable self ref now w) h refl
      starts (some t) h = inl (conflict, refl)

    finds_truck :
        (self : RouteRef) (o : Option TruckRef)
        → find_route route_id ≡ some self
        → find_truck truck_id ≡ o
        → Holds (next_of (unlinked self) (or_raise o not_found) w)
    finds_truck self none f g = inl (not_found, refl)
    finds_truck self (some ref) f g = starts self ref f g (w.routes self).truck refl

    finds_route :
        (o : Option RouteRef)
        → find_route route_id ≡ o
        → Holds (
            next_of
              (λ self. reads (λ w. or_raise (find_truck truck_id) not_found) >>= unlinked self)
              (or_raise o not_found)
              w)
    finds_route none f = inl (not_found, refl)
    finds_route (some self) f = finds_truck self (find_truck truck_id) f refl

  -- If the route that is found has the schedule that the scheduler builds, execute either raises and
  -- the whole world is as it was before, or the user has the permission, both are found, the route
  -- had no truck, the policy accepts this one, and the world it returns is that of the assignment,
  -- which the unit of work has accepted.
  pub execute-Assigns :
      ((r : RouteRef) → find_route route_id ≡ some r → IsBuilt (w.routes r))
      → Assigns user find_route find_truck unit_of_work truck_id route_id now w
          (execute user find_route find_truck unit_of_work truck_id route_id now w)
  unfolding execute requires assign
  execute-Assigns built = permitted (has user route_assign_truck) refl
    where
      permitted :
          (b : Bool)
          → has user route_assign_truck ≡ b
          → Holds (
              next_of
                (λ u. assign find_route find_truck unit_of_work truck_id route_id now)
                (if not b then err permission_error else ok tt)
                w)
      permitted true h = finds_route h built (find_route route_id) refl
      permitted false h = inl (permission_error, refl)
