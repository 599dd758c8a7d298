-- ===== src/Reconcile/Frame.antt =====
-- What a run may write to: some routes, packages and trucks, and of these never the identity.
pub mod Keeps
pub mod Status
pub mod Releases
pub mod Trucks
pub mod Packages
pub mod Body
use fleet_flow.Base.{
  ℕ, Bool, true, false, ◌≡◌, refl, sym, ap, ◌∙◌, inl, inr, List, Option, none, some, ◌==◌, ==_iff,
  if◌then◌else◌, Bool-cases,
}
use mathlib.Core.Path.{subst}
use fleet_flow.Result.{Result, ok, err}
use fleet_flow.World.{
  Package, Route, Truck, Customer, World, PackageRef, RouteRef, TruckRef, CustomerRef, put_package,
  put_route, put_truck, update,
}
use fleet_flow.Package.Rollback as PackageRollback
use fleet_flow.Route.Rollback as RouteRollback

-- The same route with its schedule, and more events.
pub record SameRoute (r q : Route) : Type 0 where
  pub follows : RouteRollback.Follows r q
  pub plan : q.schedule ≡ r.schedule

pub record SameTruck (t u : Truck) : Type 0 where
  pub id : u.vehicle_id ≡ t.vehicle_id
  pub carries : u.capacity ≡ t.capacity
  pub reaches : u.max_range ≡ t.max_range

abbrev pub SamePackage : Package → Package → Type 0
SamePackage = PackageRollback.Follows

pub SameRoute-refl : (r : Route) → SameRoute r r
SameRoute-refl r = record { follows = RouteRollback.Follows-refl r; plan = refl }

pub SameRoute-trans : {r q s : Route} → SameRoute r q → SameRoute q s → SameRoute r s
SameRoute-trans f g = record {
  follows = RouteRollback.Follows-trans f.follows g.follows;
  plan = g.plan ∙ f.plan;
}

pub SameTruck-refl : (t : Truck) → SameTruck t t
SameTruck-refl t = record { id = refl; carries = refl; reaches = refl }

pub SameTruck-trans : {t u v : Truck} → SameTruck t u → SameTruck u v → SameTruck t v
SameTruck-trans f g = record {
  id = g.id ∙ f.id;
  carries = g.carries ∙ f.carries;
  reaches = g.reaches ∙ f.reaches;
}

-- From `w` to `w'` only the objects that the tests admit have changed.
pub record Within (rs ps ts : ℕ → Bool) (w w' : World) : Type 0 where
  pub route : (r : RouteRef) → SameRoute (w.routes r) (w'.routes r)
  pub parcel : (p : PackageRef) → SamePackage (w.packages p) (w'.packages p)
  pub truck : (t : TruckRef) → SameTruck (w.trucks t) (w'.trucks t)
  pub other_routes : (r : RouteRef) → rs r ≡ false → w'.routes r ≡ w.routes r
  pub other_packages : (p : PackageRef) → ps p ≡ false → w'.packages p ≡ w.packages p
  pub other_trucks : (t : TruckRef) → ts t ≡ false → w'.trucks t ≡ w.trucks t
  pub customers : w'.customers ≡ w.customers

module _ {rs ps ts : ℕ → Bool} where
  pub Within-refl : (w : World) → Within rs ps ts w w
  Within-refl w = record {
    route = λ r. SameRoute-refl (w.routes r);
    parcel = λ p. PackageRollback.Follows-refl (w.packages p);
    truck = λ t. SameTruck-refl (w.trucks t);
    other_routes = λ r h. refl;
    other_packages = λ p h. refl;
    other_trucks = λ t h. refl;
    customers = refl;
  }

  pub Within-trans :
      {u v w : World} → Within rs ps ts u v → Within rs ps ts v w → Within rs ps ts u w
  Within-trans f g = record {
    route = λ r. SameRoute-trans (f.route r) (g.route r);
    parcel = λ p. PackageRollback.Follows-trans (f.parcel p) (g.parcel p);
    truck = λ t. SameTruck-trans (f.truck t) (g.truck t);
    other_routes = λ r h. g.other_routes r h ∙ f.other_routes r h;
    other_packages = λ p h. g.other_packages p h ∙ f.other_packages p h;
    other_trucks = λ t h. g.other_trucks t h ∙ f.other_trucks t h;
    customers = g.customers ∙ f.customers;
  }

-- A write at `k` keeps a relation that holds there, and leaves the rest.
update-All :
    {A : Type 0} (R : A → A → Type 0) (f : ℕ → A) (k : ℕ) (v : A)
    → ((a : A) → R a a)
    → R (f k) v
    → (j : ℕ) → R (f j) (update f k v j)
update-All R f k v same h j = elim (Bool-cases (j == k)) [
  | inl here ↦ rw here (subst (λ x. R (f x) v) (sym ((==_iff j k).0 here)) h)
  | inr other ↦ rw other (same (f j))
]

update_other :
    {A : Type 0} (admits : ℕ → Bool) (f : ℕ → A) (k : ℕ) (v : A)
    → admits k ≡ true
    → (j : ℕ) → admits j ≡ false
    → update f k v j ≡ f j
update_other admits f k v yes_k j no_j = elim (Bool-cases (j == k)) [
  | inl here ↦ cc (ap admits ((==_iff j k).0 here))
  | inr other ↦ rw other
]

module _ {rs ps ts : ℕ → Bool} (w : World) where
  pub put_route-Within :
      (k : RouteRef) (r : Route)
      → rs k ≡ true
      → SameRoute (w.routes k) r
      → Within rs ps ts w (put_route k r w)
  put_route-Within k r fits same = record {
    route = update-All SameRoute w.routes k r SameRoute-refl same;
    parcel = λ p. PackageRollback.Follows-refl (w.packages p);
    truck = λ t. SameTruck-refl (w.trucks t);
    other_routes = update_other rs w.routes k r fits;
    other_packages = λ p h. refl;
    other_trucks = λ t h. refl;
    customers = refl;
  }

  pub put_package-Within :
      (k : PackageRef) (p : Package)
      → ps k ≡ true
      → SamePackage (w.packages k) p
      → Within rs ps ts w (put_package k p w)
  put_package-Within k p fits same = record {
    route = λ r. SameRoute-refl (w.routes r);
    parcel = update-All SamePackage w.packages k p PackageRollback.Follows-refl same;
    truck = λ t. SameTruck-refl (w.trucks t);
    other_routes = λ r h. refl;
    other_packages = update_other ps w.packages k p fits;
    other_trucks = λ t h. refl;
    customers = refl;
  }

  pub put_truck-Within :
      (k : TruckRef) (t : Truck)
      → ts k ≡ true
      → SameTruck (w.trucks k) t
      → Within rs ps ts w (put_truck k t w)
  put_truck-Within k t fits same = record {
    route = λ r. SameRoute-refl (w.routes r);
    parcel = λ p. PackageRollback.Follows-refl (w.packages p);
    truck = update-All SameTruck w.trucks k t SameTruck-refl same;
    other_routes = λ r h. refl;
    other_packages = λ p h. refl;
    other_trucks = update_other ts w.trucks k t fits;
    customers = refl;
  }
