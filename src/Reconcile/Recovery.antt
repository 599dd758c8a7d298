-- ===== src/Reconcile/Recovery.antt =====
-- After a failure the recovery gives back the world of before.
use fleet_flow.Base.{
  ℕ, Bool, true, false, ◌≡◌, refl, sym, ap, ◌∙◌, inl, inr, List, [], ◌∷◌, Option, none, some, ◌==◌,
  ==_iff, arith, mem, Bool-cases,
}
use mathlib.Core.Path.{subst, fun_ext}
use fleet_flow.Result.{Result, ok, err}
use fleet_flow.Events.{DomainEvent}
use fleet_flow.Recorder.{
  event_checkpoint, restore_event_checkpoint, restore_event_checkpoint-append,
}
use fleet_flow.World.{
  Package, Route, Truck, World, PackageRef, RouteRef, TruckRef, put_package, put_route, update,
}
use fleet_flow.Package as PackageMethods
use fleet_flow.Truck as TruckMethods
use fleet_flow.Package.Rollback as PackageRollback
use fleet_flow.Route.Rollback as RouteRollback
use fleet_flow.Route.Rollback.{IsBuilt}
use fleet_flow.Reconcile.Routes.{
  restore_package, restore_packages, restore_route, restore_truck, recover,
}
use fleet_flow.Reconcile.Frame.{SameTruck, SamePackage, Within}

pub update_here : {A : Type 0} (f : ℕ → A) (k : ℕ) (v : A) → update f k v k ≡ v
update_here f k v = rw ((==_iff k k).1 refl)

update_twice : {A : Type 0} (f : ℕ → A) (k : ℕ) (u v : A) → update (update f k u) k v ≡ update f k v
update_twice f k u v =
    fun_ext (λ j. elim (Bool-cases (j == k)) [ inl here ↦ rw here | inr other ↦ rw other ])

pub World-ext :
    (v w : World)
    → v.packages ≡ w.packages
    → v.routes ≡ w.routes
    → v.trucks ≡ w.trucks
    → v.customers ≡ w.customers
    → v ≡ w
World-ext v w packages routes trucks customers = cc (packages, routes, trucks, customers)

restored_package :
    (before p : Package)
    → SamePackage before p
    → record (PackageMethods.restore_state (PackageMethods.snapshot_state before) p) {
      pending_events = before.pending_events;
    }
      ≡ before
unfolding PackageMethods.restore_state PackageMethods.snapshot_state
restored_package before p same = cc (same.id, same.start, same.end, same.weighs, same.owner)

restored_events :
    (before p : Package)
    → SamePackage before p
    → restore_event_checkpoint
        (event_checkpoint before.pending_events)
        (PackageMethods.restore_state (PackageMethods.snapshot_state before) p).pending_events
      ≡ ok before.pending_events
unfolding PackageMethods.restore_state PackageMethods.snapshot_state
restored_events before p same =
    rw same.grown (restore_event_checkpoint-append before.pending_events same.more)

-- A package that has only been changed comes back as it was.
restore_package_lem :
    (before : Package) (ref : PackageRef) (w : World)
    → SamePackage before (w.packages ref)
    → restore_package before ref w ≡ (ok tt, put_package ref before w)
unfolding restore_package
restore_package_lem before ref w same =
    let p = w.packages ref in
    let restored = PackageMethods.restore_state (PackageMethods.snapshot_state before) p in
    let there : update w.packages ref restored ref ≡ restored =
      update_here w.packages ref restored in
    let events : restore_event_checkpoint (event_checkpoint before.pending_events)
          (update w.packages ref restored ref).pending_events
        ≡ ok before.pending_events =
      rw there (restored_events before p same) in
    let back : record (update w.packages ref restored ref) {
      pending_events = before.pending_events;
    }
        ≡ before =
      rw there (restored_package before p same) in
    let w1 = put_package ref restored w in
    let after : Result (List DomainEvent) → Result (Unit {0}) × World = λ x. elim x [
      | ok es ↦ (ok tt, put_package ref (record (w1.packages ref) { pending_events = es }) w1)
      | err e ↦ (err e, w1)
    ] in
    subst (λ x. after x ≡ (ok tt, put_package ref before w)) (sym events)
      (ap (λ (f : ℕ → Package). (ok tt, record w { packages = f }))
        (ap (update (update w.packages ref restored) ref) back
          ∙ update_twice w.packages ref restored before))

-- The packages that have changed are all on the list.
pub restore_packages_lem :
    (old : World) (refs : List PackageRef) (w : World)
    → ((p : PackageRef) → SamePackage (old.packages p) (w.packages p))
    → ((p : PackageRef) → mem refs p ≡ false → w.packages p ≡ old.packages p)
    → restore_packages old refs w ≡ (ok tt, record w { packages = old.packages })
unfolding restore_packages
restore_packages_lem old [] w same out =
    ap (λ (f : ℕ → Package). (ok tt, record w { packages = f })) (fun_ext (λ p. out p refl))
restore_packages_lem old (ref ∷ refs) w same out =
    let w1 = put_package ref (old.packages ref) w in
    let after : Result (Unit {0}) × World → Result (Unit {0}) × World =
      λ x. elim x.0 [ ok u ↦ restore_packages old refs x.1 | err e ↦ (err e, x.1) ] in
    subst (λ x. after x ≡ (ok tt, record w { packages = old.packages }))
      (sym (restore_package_lem (old.packages ref) ref w (same ref)))
      (restore_packages_lem old refs w1
        (λ p. elim (Bool-cases (p == ref)) [
          | inl here ↦
              rw (here, (==_iff p ref).0 here) (PackageRollback.Follows-refl (old.packages ref))
          | inr other ↦ rw other (same p)
        ])
        (λ p h. elim (Bool-cases (p == ref)) [
          | inl here ↦ rw here (ap old.packages (sym ((==_iff p ref).0 here)))
          | inr other ↦ rw other (out p (ground (arith, other, h)))
        ]))

-- A route that has only been changed, and whose schedule the scheduler builds, comes back.
pub restore_route_lem :
    (before : Route) (ref : RouteRef) (w : World)
    → IsBuilt before
    → RouteRollback.Follows before (w.routes ref)
    → restore_route before ref w ≡ (ok tt, put_route ref before w)
unfolding restore_route
restore_route_lem before ref w built same =
    let q = w.routes ref in
    let mid = record before { pending_events = q.pending_events } in
    let w1 = put_route ref mid w in
    let there : update w.routes ref mid ref ≡ mid = update_here w.routes ref mid in
    let events : restore_event_checkpoint (event_checkpoint before.pending_events)
          (update w.routes ref mid ref).pending_events
        ≡ ok before.pending_events =
      rw there (rw same.grown (restore_event_checkpoint-append before.pending_events same.more)) in
    let back : record (update w.routes ref mid ref) { pending_events = before.pending_events }
        ≡ before =
      rw there in
    let finish : World → Result (List DomainEvent) → Result (Unit {0}) × World = λ v x. elim x [
      | ok es ↦ (ok tt, put_route ref (record (v.routes ref) { pending_events = es }) v)
      | err e ↦ (err e, v)
    ] in
    let after : Result Route → Result (Unit {0}) × World = λ x. elim x [
      | ok r ↦ finish (put_route ref r w) (
          restore_event_checkpoint (event_checkpoint before.pending_events)
            (update w.routes ref r ref).pending_events)
      | err e ↦ (err e, w)
    ] in
    subst (λ x. after x ≡ (ok tt, put_route ref before w))
      (sym (RouteRollback.restored before q built same))
      (subst (λ x. finish w1 x ≡ (ok tt, put_route ref before w)) (sym events)
        (ap (λ (f : ℕ → Route). (ok tt, record w { routes = f }))
          (ap (update (update w.routes ref mid) ref) back ∙ update_twice w.routes ref mid before)))

pub restored_truck :
    (t u : Truck) → SameTruck t u → TruckMethods.restore_state (TruckMethods.snapshot_state t) u ≡ t
unfolding TruckMethods.restore_state TruckMethods.snapshot_state
restored_truck t u same = cc (same.id, same.carries, same.reaches)

-- A write at `k` of the value of before gives back the values of before.
pub update_back :
    {A : Type 0} (old f : ℕ → A) (admits : ℕ → Bool) (k : ℕ)
    → ((j : ℕ) → admits j ≡ true → j ≡ k)
    → ((j : ℕ) → admits j ≡ false → f j ≡ old j)
    → update f k (old k) ≡ old
update_back old f admits k only out = fun_ext (λ j. elim (Bool-cases (j == k)) [
  | inl here ↦ rw here (ap old (sym ((==_iff j k).0 here)))
  | inr other ↦ elim (Bool-cases (admits j)) [
    | inl yes_j ↦ absurd (cc (other, (==_iff j k).1 (only j yes_j)))
    | inr no_j ↦ rw other (out j no_j)
  ]
])

abbrev pub is_truck : Option TruckRef → ℕ → Bool
is_truck none t = false
is_truck (some ref) t = t == ref

restore_truck_lem :
    (old : World) (o : Option TruckRef) (w : World)
    → ((t : TruckRef) → SameTruck (old.trucks t) (w.trucks t))
    → ((t : TruckRef) → is_truck o t ≡ false → w.trucks t ≡ old.trucks t)
    → restore_truck old o w ≡ (ok tt, record w { trucks = old.trucks })
unfolding restore_truck
restore_truck_lem old none w same out =
    ap (λ (f : ℕ → Truck). (ok tt, record w { trucks = f })) (fun_ext (λ t. out t refl))
restore_truck_lem old (some ref) w same out =
    ap (λ (f : ℕ → Truck). (ok tt, record w { trucks = f }))
      (ap (update w.trucks ref) (restored_truck (old.trucks ref) (w.trucks ref) (same ref))
        ∙ update_back old.trucks w.trucks (is_truck (some ref)) ref (λ j. (==_iff j ref).0) out)

-- The recovery, after a run that has written to the route, its packages and its truck alone.
pub recover_lem :
    (old w : World) (self : RouteRef)
    → IsBuilt (old.routes self)
    → Within
        (λ r. r == self)
        (mem (old.routes self).packages)
        (is_truck (old.routes self).truck)
        old
        w
    → recover old self w ≡ (ok tt, old)
unfolding recover
recover_lem old w self built h =
    let r = old.routes self in
    let first = restore_route_lem r self w built (h.route self).follows in
    let w1 = put_route self r w in
    let second = restore_packages_lem old r.packages w1 h.parcel h.other_packages in
    let w2 = record w1 { packages = old.packages } in
    let third = restore_truck_lem old r.truck w2 h.truck h.other_trucks in
    let last : Result (Unit {0}) × World → Result (Unit {0}) × World =
      λ x. elim x.0 [ ok u ↦ restore_truck old r.truck x.1 | err e ↦ (err e, x.1) ] in
    let after : Result (Unit {0}) × World → Result (Unit {0}) × World =
      λ x. elim x.0 [ ok u ↦ last (restore_packages old r.packages x.1) | err e ↦ (err e, x.1) ] in
    subst (λ x. after x ≡ (ok tt, old)) (sym first)
      (subst (λ x. last x ≡ (ok tt, old)) (sym second)
        (third
          ∙ ap (λ (v : World). (ok tt, v))
              (World-ext (record w2 { trucks = old.trucks }) old refl
                (update_back old.routes w.routes (λ j. j == self) self (λ j. (==_iff j self).0)
                  h.other_routes)
                refl h.customers)))
