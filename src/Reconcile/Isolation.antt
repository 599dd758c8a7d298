-- ===== src/Reconcile/Isolation.antt =====
-- A route whose reconciliation fails does not stop the others and leaves no trace.
use fleet_flow.Base.{
  ℕ, Bool, true, ◌≡◌, refl, sym, ap, ◌∙◌, ◌⊎◌, inl, inr, List, [], ◌∷◌, Option, none, some, ◌==◌,
  ==_iff, All, All-mem, arith, mem, Bool-cases,
}
use mathlib.Core.Path.{subst}
use fleet_flow.Result.{Result, Error, ok, err}
use fleet_flow.Schedule.{Time}
use fleet_flow.World.{Route, World, RouteRef, TruckRef}
use fleet_flow.Route.Rollback.{IsBuilt}
use fleet_flow.Reconcile.Routes.{
  HeartbeatSummary, no_change, append_summary, reconcile_body, handle, reconcile_route,
  reconcile_routes,
}
use fleet_flow.Reconcile.Frame.{SameRoute, Within, Within-refl, Within-trans}
use fleet_flow.Reconcile.Frame.Keeps.{Area, IsClosed}
use fleet_flow.Reconcile.Frame.Body.{Kept-reconcile_body}
use fleet_flow.Reconcile.Recovery.{is_truck, recover_lem}

-- The route, its packages and its truck.
abbrev pub around : RouteRef → World → Area
around self w = record {
  routes = λ r. r == self;
  packages = mem (w.routes self).packages;
  trucks = is_truck (w.routes self).truck;
  self = self;
  own = (==_iff self self).1 refl;
}

is_truck-some : (o : Option TruckRef) (t : TruckRef) → o ≡ some t → is_truck o t ≡ true
is_truck-some none t e = cc
is_truck-some (some u) t e = ground (arith, e)

around-IsClosed : (self : RouteRef) (w : World) → IsClosed (around self w) w
around-IsClosed self w = record {
  truck_in = is_truck-some (w.routes self).truck;
  packages_in = All-mem (w.routes self).packages;
}

pub body-Within :
    (update_trucks : Bool) (self : RouteRef) (now : Time) (w : World)
    → Within
        (around self w).routes
        (around self w).packages
        (around self w).trucks
        w
        (reconcile_body update_trucks self now w).1
body-Within update_trucks self now w =
    (Kept-reconcile_body (around self w) update_trucks now w (around-IsClosed self w)).within

handled :
    (old : World) (self : RouteRef) (r : Result HeartbeatSummary) (w : World)
    → IsBuilt (old.routes self)
    → Within (around self old).routes (around self old).packages (around self old).trucks old w
    → (s : HeartbeatSummary) × (v : World) × (handle old self (r, w) ≡ (ok s, v))
      × (((r ≡ ok s) × (v ≡ w)) ⊎ ((e : Error) × (r ≡ err e) × (s ≡ no_change) × (v ≡ old)))
handled old self (ok s) w built h = (s, w, refl, inl (refl, refl))
handled old self (err e) w built h =
    let after : Result (Unit {0}) × World → Result HeartbeatSummary × World =
      λ x. elim x.0 [ ok u ↦ (ok no_change, x.1) | err f ↦ (err f, x.1) ] in
    (no_change, old, ap after (recover_lem old w self built h), inr (e, refl, refl, refl))

-- The reconciliation of a route, whose schedule is the one that the scheduler builds, never raises:
-- either its steps succeed, and it reports them, or one of them raises, and then it reports no
-- change and the world, with every object and every pending event in it, is the one of before.
pub reconcile_route_isolates :
    (update_trucks : Bool) (self : RouteRef) (now : Time) (w : World)
    → IsBuilt (w.routes self)
    → (s : HeartbeatSummary) × (v : World) × (reconcile_route update_trucks self now w ≡ (ok s, v))
      × ((reconcile_body update_trucks self now w ≡ (ok s, v))
          ⊎ ((e : Error) × ((reconcile_body update_trucks self now w).0 ≡ err e)
              × (s ≡ no_change)
              × (v ≡ w)))
unfolding reconcile_route
reconcile_route_isolates update_trucks self now w built =
    let call = reconcile_body update_trucks self now w in
    let (s, v, e, why) =
      handled w self call.0 call.1 built (body-Within update_trucks self now w) in
    (s, v, e, elim why [ inl (fine, same) ↦ inl (cc (fine, same)) | inr failed ↦ inr failed ])

-- The truck and the packages of a route are among the given ones.
pub record RouteIn (ps ts : ℕ → Bool) (r : Route) : Type 0 where
  pub truck_in : (t : TruckRef) → r.truck ≡ some t → ts t ≡ true
  pub packages_in : All (λ p. ps p ≡ true) r.packages

SameRoute-IsBuilt : (r q : Route) → SameRoute r q → IsBuilt r → IsBuilt q
SameRoute-IsBuilt r q same built = rw (same.follows.way, same.plan) built

module _ (rs ps ts : ℕ → Bool) where
  abbrev area : (r : RouteRef) → rs r ≡ true → Area
  area r m = record { routes = rs; packages = ps; trucks = ts; self = r; own = m }

  -- Every route of the run has its schedule, and its links among the given objects.
  pub record IsReady (w : World) : Type 0 where
    pub built : (r : RouteRef) → rs r ≡ true → IsBuilt (w.routes r)
    pub linked : (r : RouteRef) → rs r ≡ true → RouteIn ps ts (w.routes r)

  body-IsReady :
      (update_trucks : Bool) (self : RouteRef) (now : Time) (w : World)
      → rs self ≡ true
      → IsReady w
      → Within rs ps ts w (reconcile_body update_trucks self now w).1
        × IsReady (reconcile_body update_trucks self now w).1
  body-IsReady update_trucks self now w m h =
      let v = (reconcile_body update_trucks self now w).1 in
      let own = h.linked self m in
      let kept =
        Kept-reconcile_body (area self m) update_trucks now w
          (record { truck_in = own.truck_in; packages_in = own.packages_in }) in
      let small = body-Within update_trucks self now w in
      (
        kept.within,
        record {
          built = λ r n. SameRoute-IsBuilt (w.routes r) (v.routes r) (small.route r) (h.built r n);
          linked = λ r n. elim (Bool-cases (r == self)) [
            | inl here ↦
                subst (λ k. RouteIn ps ts (v.routes k)) (sym ((==_iff r self).0 here))
                  (record {
                    truck_in = kept.closed.truck_in;
                    packages_in = kept.closed.packages_in;
                  })
            | inr other ↦ subst (RouteIn ps ts) (sym (small.other_routes r other)) (h.linked r n)
          ];
        },
      )

  route-IsReady :
      (update_trucks : Bool) (self : RouteRef) (now : Time) (w : World)
      → rs self ≡ true
      → IsReady w
      → (s : HeartbeatSummary) × (v : World) × (reconcile_route update_trucks self now w
          ≡ (ok s, v))
        × Within rs ps ts w v
        × IsReady v
  route-IsReady update_trucks self now w m h =
      let (s, v, e, why) = reconcile_route_isolates update_trucks self now w (h.built self m) in
      elim why [
        | inl fine ↦
            let (within, ready) = body-IsReady update_trucks self now w m h in
            let same : (reconcile_body update_trucks self now w).1 ≡ v = ap (λ x. x.1) fine in
            (s, v, e, subst (Within rs ps ts w) same within, subst IsReady same ready)
        | inr (x, failed, none_s, same) ↦ (
          s,
          v,
          e,
          subst (Within rs ps ts w) (sym same) (Within-refl w),
          subst IsReady (sym same) h,
        )
      ]

  -- A run over routes that are ready never raises, whatever happens at each of them, and writes to
  -- these routes, their packages and their trucks alone.
  pub reconcile_routes-Within :
      (update_trucks : Bool) (refs : List RouteRef) (now : Time) (w : World)
      → All (λ r. rs r ≡ true) refs
      → IsReady w
      → (s : HeartbeatSummary) × (v : World) × (reconcile_routes update_trucks refs now w
          ≡ (ok s, v))
        × Within rs ps ts w v
        × IsReady v
  unfolding reconcile_routes
  reconcile_routes-Within update_trucks [] now w all h = (no_change, w, refl, Within-refl w, h)
  reconcile_routes-Within update_trucks (ref ∷ refs) now w (here, all) h =
      let (s, v, e, within, ready) = route-IsReady update_trucks ref now w here h in
      let (t, u, f, within', ready') = reconcile_routes-Within update_trucks refs now v all ready in
      let last : HeartbeatSummary
          → Result HeartbeatSummary × World
          → Result HeartbeatSummary × World =
        λ first x. elim x.0 [
          | ok rest ↦ (ok (append_summary first rest), x.1)
          | err z ↦ (err z, x.1)
        ] in
      let after : Result HeartbeatSummary × World → Result HeartbeatSummary × World = λ x.
        elim x.0 [
          | ok first ↦ last first (reconcile_routes update_trucks refs now x.1)
          | err z ↦ (err z, x.1)
        ] in
      (append_summary s t, u, ap after e ∙ ap (last s) f, Within-trans within within', ready')
