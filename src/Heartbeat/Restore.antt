-- ===== src/Heartbeat/Restore.antt =====
-- The snapshots of a heartbeat bring back what it changed.
use fleet_flow.Base.{
  ℕ, Bool, true, false, ◌≡◌, refl, sym, ap, ◌∙◌, inl, inr, List, [], ◌∷◌, Option, none, some, ◌==◌,
  ==_iff, All, All-mem, arith, mem, mem-append_left, mem-append_right, Bool-cases,
}
use mathlib.Core.Path.{subst, fun_ext}
use fleet_flow.Result.{Result, ok, err}
use fleet_flow.World.{Route, Truck, World, RouteRef, TruckRef, put_route, put_truck}
use fleet_flow.Route.Rollback.{IsBuilt}
use fleet_flow.Reconcile.Routes.{restore_packages, restore_truck}
use fleet_flow.Reconcile.Frame.{SameRoute, SameTruck, SameRoute-refl, SameTruck-refl, Within}
use fleet_flow.Reconcile.Isolation.{RouteIn}
use fleet_flow.Reconcile.Recovery.{
  World-ext, restore_packages_lem, restore_route_lem, restored_truck,
}
use fleet_flow.Heartbeat.{
  packages_of, cons_truck, trucks_of, restore_routes, restore_trucks, restore_all,
}

All-weaken :
    (p q : ℕ → Bool) (xs : List ℕ)
    → ((k : ℕ) → p k ≡ true → q k ≡ true)
    → All (λ x. p x ≡ true) xs
    → All (λ x. q x ≡ true) xs
All-weaken p q [] f all = tt
All-weaken p q (x ∷ xs) f (here, all) = (f x here, All-weaken p q xs f all)

mem-cons_truck :
    (o : Option TruckRef) (ts : List TruckRef) (t : TruckRef)
    → o ≡ some t
    → mem (cons_truck o ts) t ≡ true
mem-cons_truck none ts t e = cc
mem-cons_truck (some u) ts t e = ground (arith, e)

mem-cons_truck_rest :
    (o : Option TruckRef) (ts : List TruckRef) (t : TruckRef)
    → mem ts t ≡ true
    → mem (cons_truck o ts) t ≡ true
mem-cons_truck_rest none ts t h = h
mem-cons_truck_rest (some u) ts t h = ground (arith, h)

-- Every route of the list has its packages and its truck among those of the list.
pub listed :
    (w : World) (refs : List RouteRef) (r : RouteRef)
    → mem refs r ≡ true
    → RouteIn (mem (packages_of w refs)) (mem (trucks_of w refs)) (w.routes r)
listed w [] r m = cc
listed w (x ∷ xs) r m = elim (Bool-cases (x == r)) [
  | inl here ↦
      let same = (==_iff x r).0 here in
      subst (λ k. RouteIn (mem (packages_of w (x ∷ xs))) (mem (trucks_of w (x ∷ xs))) (w.routes k))
        same
        (record {
          truck_in = mem-cons_truck (w.routes x).truck (trucks_of w xs);
          packages_in =
              All-weaken (mem (w.routes x).packages) (mem (packages_of w (x ∷ xs)))
                (w.routes x).packages (mem-append_left (w.routes x).packages (packages_of w xs))
                (All-mem (w.routes x).packages);
        })
  | inr other ↦
      let rest = listed w xs r (ground (arith, other, m)) in
      record {
        truck_in =
            λ t e. mem-cons_truck_rest (w.routes x).truck (trucks_of w xs) t (rest.truck_in t e);
        packages_in =
            All-weaken (mem (packages_of w xs)) (mem (packages_of w (x ∷ xs))) (w.routes r).packages
              (mem-append_right (w.routes x).packages (packages_of w xs)) rest.packages_in;
      }
]

abbrev pub Outcome : Type 0
Outcome = Result (Unit {0}) × World

restore_routes_lem :
    (old : World) (refs : List RouteRef) (w : World)
    → All (λ r. IsBuilt (old.routes r)) refs
    → ((r : RouteRef) → SameRoute (old.routes r) (w.routes r))
    → ((r : RouteRef) → mem refs r ≡ false → w.routes r ≡ old.routes r)
    → restore_routes old refs w ≡ (ok tt, record w { routes = old.routes })
unfolding restore_routes
restore_routes_lem old [] w built same out =
    ap (λ (f : ℕ → Route). (ok tt, record w { routes = f })) (fun_ext (λ r. out r refl))
restore_routes_lem old (ref ∷ refs) w (here, built) same out =
    let after : Outcome → Outcome =
      λ x. elim x.0 [ ok u ↦ restore_routes old refs x.1 | err e ↦ (err e, x.1) ] in
    subst (λ x. after x ≡ (ok tt, record w { routes = old.routes }))
      (sym (restore_route_lem (old.routes ref) ref w here (same ref).follows))
      (restore_routes_lem old refs (put_route ref (old.routes ref) w) built
        (λ r. elim (Bool-cases (r == ref)) [
          | inl e ↦ rw (e, (==_iff r ref).0 e) (SameRoute-refl (old.routes ref))
          | inr other ↦ rw other (same r)
        ])
        (λ r h. elim (Bool-cases (r == ref)) [
          | inl e ↦ rw e (ap old.routes (sym ((==_iff r ref).0 e)))
          | inr other ↦ rw other (out r (ground (arith, other, h)))
        ]))

restore_trucks_lem :
    (old : World) (refs : List TruckRef) (w : World)
    → ((t : TruckRef) → SameTruck (old.trucks t) (w.trucks t))
    → ((t : TruckRef) → mem refs t ≡ false → w.trucks t ≡ old.trucks t)
    → restore_trucks old refs w ≡ (ok tt, record w { trucks = old.trucks })
unfolding restore_trucks restore_truck
restore_trucks_lem old [] w same out =
    ap (λ (f : ℕ → Truck). (ok tt, record w { trucks = f })) (fun_ext (λ t. out t refl))
restore_trucks_lem old (ref ∷ refs) w same out =
    let after : Outcome → Outcome =
      λ x. elim x.0 [ ok u ↦ restore_trucks old refs x.1 | err e ↦ (err e, x.1) ] in
    subst
      (λ (t : Truck). after (ok tt, put_truck ref t w) ≡ (ok tt, record w { trucks = old.trucks }))
      (sym (restored_truck (old.trucks ref) (w.trucks ref) (same ref)))
      (restore_trucks_lem old refs (put_truck ref (old.trucks ref) w)
        (λ t. elim (Bool-cases (t == ref)) [
          | inl e ↦ rw (e, (==_iff t ref).0 e) (SameTruck-refl (old.trucks ref))
          | inr other ↦ rw other (same t)
        ])
        (λ t h. elim (Bool-cases (t == ref)) [
          | inl e ↦ rw e (ap old.trucks (sym ((==_iff t ref).0 e)))
          | inr other ↦ rw other (out t (ground (arith, other, h)))
        ]))

pub restore_all_lem :
    (old : World) (refs : List RouteRef) (w : World)
    → All (λ r. IsBuilt (old.routes r)) refs
    → Within (mem refs) (mem (packages_of old refs)) (mem (trucks_of old refs)) old w
    → restore_all old refs w ≡ (ok tt, old)
unfolding restore_all
restore_all_lem old refs w built h =
    let first = restore_routes_lem old refs w built h.route h.other_routes in
    let w1 = record w { routes = old.routes } in
    let second = restore_packages_lem old (packages_of old refs) w1 h.parcel h.other_packages in
    let w2 = record w1 { packages = old.packages } in
    let third = restore_trucks_lem old (trucks_of old refs) w2 h.truck h.other_trucks in
    let last : Outcome → Outcome =
      λ x. elim x.0 [ ok u ↦ restore_trucks old (trucks_of old refs) x.1 | err e ↦ (err e, x.1) ] in
    let after : Outcome → Outcome = λ x. elim x.0 [
      | ok u ↦ last (restore_packages old (packages_of old refs) x.1)
      | err e ↦ (err e, x.1)
    ] in
    subst (λ x. after x ≡ (ok tt, old)) (sym first)
      (subst (λ x. last x ≡ (ok tt, old)) (sym second)
        (third
          ∙ ap (λ (v : World). (ok tt, v))
              (World-ext (record w2 { trucks = old.trucks }) old refl refl refl h.customers)))
