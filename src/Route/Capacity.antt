-- ===== src/Route/Capacity.antt =====
-- A route never takes a package that its truck could not carry.
use mathlib.Core.Path.{subst}
use fleet_flow.Base.{
  ◌≤◌, ◌≡◌, refl, ap, ◌∙◌, sym, ◌⊎◌, inl, inr, List, [], ◌∷◌, ◌++◌, Option, none, some, arith,
  Bool-cases,
}
use fleet_flow.Result.{Result, ok, err}
use fleet_flow.Schedule.{Time}
use fleet_flow.Weight.{kilograms}
use fleet_flow.Load.Bounds.{maximum_segment_load-extra}
use fleet_flow.World.{Package, Route, World, RouteRef, PackageRef, TruckRef}
use fleet_flow.RouteView.{maximum_segment_load, package_load, loads}
use fleet_flow.PackagePolicy.{
  Decision, or_else, evaluate, evaluate_compatibility, evaluate_pickup, evaluate_truck,
  evaluate_truck_constraints,
}
use fleet_flow.Route.Links.{has_package, assign_new, assign_package}

-- The packages of the route fit its truck, on every segment.
abbrev pub Fits : World → RouteRef → Type 0
Fits w r =
    (t : TruckRef)
    → (w.routes r).truck ≡ some t
    → maximum_segment_load w (w.routes r) none ≤ kilograms (w.trucks t).capacity

or_else-eq-none : (a b : Result Decision) → or_else a b ≡ ok none → (a ≡ ok none) × (b ≡ ok none)
or_else-eq-none (ok none) b h = (refl, h)
or_else-eq-none (ok (some x)) b h = cc
or_else-eq-none (err e) b h = cc

constraint_met :
    (w : World) (route : Route) (p : Package) (t : TruckRef)
    → evaluate_truck w route p (some t) ≡ ok none
    → maximum_segment_load w route (some p) ≤ kilograms (w.trucks t).capacity
unfolding evaluate_truck
constraint_met w route p t h = ground arith

constraints_hold :
    (w : World) (route : Route) (p : Package) (t : TruckRef)
    → evaluate_truck_constraints w route p ≡ ok none
    → route.truck ≡ some t
    → maximum_segment_load w route (some p) ≤ kilograms (w.trucks t).capacity
unfolding evaluate_truck_constraints
constraints_hold w route p t h e =
    constraint_met w route p t (subst (λ x. evaluate_truck w route p x ≡ ok none) e h)

accepted_fits :
    (w : World) (route : Route) (p : Package) (now : Option Time) (clock : Time) (t : TruckRef)
    → evaluate w route p now clock ≡ ok none
    → route.truck ≡ some t
    → maximum_segment_load w route (some p) ≤ kilograms (w.trucks t).capacity
unfolding evaluate
accepted_fits w route p now clock t h e =
    let (compatible, rest) = or_else-eq-none (evaluate_compatibility route p) _ h in
    let (early, fits) = or_else-eq-none (evaluate_pickup route p now clock) _ rest in
    constraints_hold w route p t fits e

-- What linking a package to the route changes.
record Joined (w w' : World) (self : RouteRef) (ref : PackageRef) : Type 0 where
  path : (w'.routes self).path ≡ (w.routes self).path
  truck : (w'.routes self).truck ≡ (w.routes self).truck
  packages : (w'.routes self).packages ≡ (w.routes self).packages ++ ref ∷ []
  trucks : (t : TruckRef) → w'.trucks t ≡ w.trucks t
  loads_same : (q : PackageRef) → package_load (w'.packages q) ≡ package_load (w.packages q)

module _ (self : RouteRef) (ref : PackageRef) (now : Option Time) (clock at : Time)
    (w : World) where
  abbrev decision : Result Decision
  decision = evaluate w (w.routes self) (w.packages ref) now clock

  assign_new-Joined : decision ≡ ok none → Joined w (assign_new self ref now clock at w).1 self ref
  unfolding assign_new
  assign_new-Joined h = record {
    path = ground arith;
    truck = ground arith;
    packages = ground arith;
    trucks = λ t. ground arith;
    loads_same = λ q. ground arith;
  }

  assign_new-refused :
      (d : Result Decision)
      → decision ≡ d
      → (assign_new self ref now clock at w).1 ≡ w ⊎ (d ≡ ok none)
  unfolding assign_new
  assign_new-refused (ok none) e = inr refl
  assign_new-refused (ok (some x)) e = inl (ground arith)
  assign_new-refused (err x) e = inl (ground arith)

loads-Joined :
    (w w' : World) (refs : List PackageRef)
    → ((q : PackageRef) → package_load (w'.packages q) ≡ package_load (w.packages q))
    → loads w' refs ≡ loads w refs
loads-Joined w w' [] same = refl
loads-Joined w w' (q ∷ refs) same = cc (same q, loads-Joined w w' refs same)

loads-append :
    (w : World) (refs : List PackageRef) (ref : PackageRef)
    → loads w (refs ++ ref ∷ []) ≡ loads w refs ++ package_load (w.packages ref) ∷ []
loads-append w [] ref = refl
loads-append w (q ∷ refs) ref = ap (◌∷◌ (package_load (w.packages q))) (loads-append w refs ref)

load-Joined :
    (w w' : World) (self : RouteRef) (ref : PackageRef)
    → Joined w w' self ref
    → maximum_segment_load w' (w'.routes self) none
      ≡ maximum_segment_load w (w.routes self) (some (w.packages ref))
unfolding maximum_segment_load
load-Joined w w' self ref j =
    let refs = (w.routes self).packages in
    let same = loads-Joined w w' (refs ++ ref ∷ []) j.loads_same ∙ loads-append w refs ref in
    rw (j.path, j.packages, same)
      (maximum_segment_load-extra (w.routes self).path.locations (loads w refs)
        (package_load (w.packages ref)))

Joined-Fits :
    (w w' : World) (self : RouteRef) (ref : PackageRef) (now : Option Time) (clock : Time)
    → Joined w w' self ref
    → evaluate w (w.routes self) (w.packages ref) now clock ≡ ok none
    → Fits w' self
Joined-Fits w w' self ref now clock j h t e =
    rw (load-Joined w w' self ref j, j.trucks t)
      (accepted_fits w (w.routes self) (w.packages ref) now clock t h (sym j.truck ∙ e))

-- If the packages of a route fit its truck, they do so after any call of `assign_package`, whether it
-- adds the package, finds it there, or raises: the route's heaviest segment never exceeds the
-- capacity of its truck.
pub assign_package-Fits :
    (self : RouteRef) (ref : PackageRef) (now : Option Time) (clock at : Time) (w : World)
    → Fits w self
    → Fits (assign_package self ref now clock at w).1 self
unfolding assign_package
assign_package-Fits self ref now clock at w h =
    elim (Bool-cases (has_package w (w.routes self).packages (w.packages ref).package_id)) [
      | inl there ↦ rw there h
      | inr new ↦ rw new (added (assign_new-refused self ref now clock at w _ refl))
    ]
  where
    added :
        ((assign_new self ref now clock at w).1 ≡ w)
          ⊎ (evaluate w (w.routes self) (w.packages ref) now clock ≡ ok none)
        → Fits (assign_new self ref now clock at w).1 self
    added (inl same) = subst (λ x. Fits x self) (sym same) h
    added (inr accepted) =
        Joined-Fits w (assign_new self ref now clock at w).1 self ref now clock
          (assign_new-Joined self ref now clock at w accepted) accepted
