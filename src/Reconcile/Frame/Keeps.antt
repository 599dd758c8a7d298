-- ===== src/Reconcile/Frame/Keeps.antt =====
-- Runs that keep to a route, its packages and its truck: the rules for the actions, and the calls
-- that the reconciliation of a route makes.
use fleet_flow.Base.{ℕ, Bool, true, ◌≡◌, refl, sym, some, All, arith}
use mathlib.Core.Path.{subst}
use fleet_flow.Result.{Result, ok, err}
use fleet_flow.World.{
  Package, Route, Truck, World, PackageRef, RouteRef, TruckRef, put_package, put_route, put_truck,
  Action, reads, ◌>>=◌,
}
use fleet_flow.Reconcile.Frame.{
  SameRoute, SameTruck, SamePackage, Within, Within-refl, Within-trans, put_route-Within,
  put_package-Within, put_truck-Within,
}

-- What a run for the route `self` may write to.
pub record Area : Type 0 where
  pub routes : ℕ → Bool
  pub packages : ℕ → Bool
  pub trucks : ℕ → Bool
  pub self : RouteRef
  pub own : routes self ≡ true

-- The packages and the truck of the route are in the area.
pub record IsClosed (a : Area) (w : World) : Type 0 where
  pub truck_in : (t : TruckRef) → (w.routes (a.self)).truck ≡ some t → a.trucks t ≡ true
  pub packages_in : All (λ p. a.packages p ≡ true) (w.routes (a.self)).packages

-- The run from `w` to `w'` kept to the area, which is still closed.
pub record Kept (a : Area) (w w' : World) : Type 0 where
  pub within : Within (a.routes) (a.packages) (a.trucks) w w'
  pub closed : IsClosed a w'

module _ (a : Area) where
  pub Kept-refl : (w : World) → IsClosed a w → Kept a w w
  Kept-refl w h = record { within = Within-refl w; closed = h }

  pub Kept-trans : {u v w : World} → Kept a u v → Kept a v w → Kept a u w
  Kept-trans f g = record { within = Within-trans f.within g.within; closed = g.closed }

  Kept-then :
      {A B : Type 0} (u : World) (r : Result A) (v : World) (f : A → Action B)
      → Kept a u v
      → ((x : A) → r ≡ ok x → Kept a v (f x v).1)
      → Kept a u (elim r as (λ _. Result B × World) [ ok x ↦ f x v | err e ↦ (err e, v) ]).1
  Kept-then u (ok x) v f h k = Kept-trans h (k x refl)
  Kept-then u (err e) v f h k = h

  -- After a call from `u` to `v` that gave `r`: the rest `k`, or the error.
  pub Kept-case :
      {A B : Type 0} (u : World) (r : Result A) (v : World) (k : A → Result B × World)
      → Kept a u v
      → ((x : A) → r ≡ ok x → Kept a v (k x).1)
      → Kept a u (elim r as (λ _. Result B × World) [ ok x ↦ k x | err e ↦ (err e, v) ]).1
  Kept-case u (ok x) v k h rest = Kept-trans h (rest x refl)
  Kept-case u (err e) v k h rest = h

  pub Kept-bind :
      {A B : Type 0} (m : Action A) (f : A → Action B) (w : World)
      → Kept a w (m w).1
      → ((x : A) → (m w).0 ≡ ok x → Kept a (m w).1 (f x (m w).1).1)
      → Kept a w ((m >>= f) w).1
  Kept-bind m f w h k = Kept-then w (m w).0 (m w).1 f h k

  -- A call of a reading, then the rest.
  pub Kept-reads :
      {A B : Type 0} (g : World → Result A) (f : A → Action B) (w : World)
      → IsClosed a w
      → ((x : A) → g w ≡ ok x → Kept a w (f x w).1)
      → Kept a w ((reads g >>= f) w).1
  Kept-reads g f w h k = Kept-then w (g w) w f (Kept-refl w h) k

  pub Kept-package :
      (w : World) (ref : PackageRef) (p : Package)
      → IsClosed a w
      → a.packages ref ≡ true
      → SamePackage (w.packages ref) p
      → Kept a w (put_package ref p w)
  Kept-package w ref p h fits same = record {
    within = put_package-Within w ref p fits same;
    closed = record { truck_in = h.truck_in; packages_in = h.packages_in };
  }

  pub Kept-truck :
      (w : World) (ref : TruckRef) (t : Truck)
      → IsClosed a w
      → a.trucks ref ≡ true
      → SameTruck (w.trucks ref) t
      → Kept a w (put_truck ref t w)
  Kept-truck w ref t h fits same = record {
    within = put_truck-Within w ref t fits same;
    closed = record { truck_in = h.truck_in; packages_in = h.packages_in };
  }

  -- A write to the route that keeps its packages, and its truck or leaves none.
  pub Kept-route :
      (w : World) (r : Route)
      → IsClosed a w
      → SameRoute (w.routes (a.self)) r
      → ((t : TruckRef) → r.truck ≡ some t → (w.routes (a.self)).truck ≡ some t)
      → r.packages ≡ (w.routes (a.self)).packages
      → Kept a w (put_route (a.self) r w)
  Kept-route w r h same trucks packages = record {
    within = put_route-Within w (a.self) r (a.own) same;
    closed = record {
      truck_in = λ t e. h.truck_in t (trucks t (ground (arith, e)));
      packages_in =
          subst (All (λ p. a.packages p ≡ true)) (sym (ground (arith, packages))) h.packages_in;
    };
  }
