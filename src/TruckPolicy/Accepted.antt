-- ===== src/TruckPolicy/Accepted.antt =====
-- Which trucks the policy accepts for a route.
use fleet_flow.Base.{
  ℕ, ◌≤◌, ◌<◌, ◌≡◌, refl, sym, ◌↔◌, inl, inr, Option, none, some, arith, text_eq_iff, Option-cases,
}
use mathlib.Core.Path.{subst}
use fleet_flow.Result.{ok, >>=-eq-ok}
use fleet_flow.Location.{LocationCode}
use fleet_flow.Schedule.{Time}
use fleet_flow.Weight.{kilograms}
use fleet_flow.World.{Route, World, Truck, RouteRef}
use fleet_flow.RouteView.{
  departure_time, eta_final, start_location, end_location, maximum_segment_load, total_distance_km,
}
use fleet_flow.TruckPolicy.{
  evaluate_free, after_current, evaluate_busy, evaluate_schedule, evaluate,
}

-- The truck is at the start of the route when it departs: a free truck stands there, and a busy one
-- ends its present route there, strictly before the departure.
pub data IsThere (w : World) (truck : Truck) (route : Route) : Type 0 where
  waits :
      truck.route ≡ none
      → truck.current_location ≡ some (start_location route)
      → IsThere w truck route
  comes :
      (ref : RouteRef) (eta departure : Time)
      → truck.route ≡ some ref
      → departure_time route ≡ some departure
      → eta_final (w.routes ref) ≡ some eta
      → eta < departure
      → end_location (w.routes ref) ≡ start_location route
      → IsThere w truck route

pub record CanServe (w : World) (truck : Truck) (route : Route) : Type 0 where
  pub distance : ℕ
  pub is_distance : total_distance_km route ≡ ok distance
  pub in_range : distance ≤ truck.max_range
  pub fits : maximum_segment_load w route none ≤ kilograms truck.capacity
  pub there : IsThere w truck route

free_iff :
    (truck : Truck) (route : Route)
    → (evaluate_free truck route ≡ none) ↔ (truck.current_location ≡ some (start_location route))
unfolding evaluate_free
free_iff truck route = elim (Option-cases truck.current_location) [
  | inl e ↦ ground (arith, e)
  | inr (c, e) ↦ ground (arith, e, text_eq_iff c (start_location route))
]

after_current-eq-none :
    (eta : Option Time) (departure : Time) (last start : LocationCode)
    → after_current eta departure last start ≡ none
    → (t : Time) × (eta ≡ some t) × (t < departure) × (last ≡ start)
unfolding after_current
after_current-eq-none none departure last start h = cc
after_current-eq-none (some t) departure last start h =
    (t, refl, ground arith, ground (arith, text_eq_iff last start))

after_current_accepts :
    (t departure : Time) (place : LocationCode)
    → t < departure
    → after_current (some t) departure place place ≡ none
unfolding after_current
after_current_accepts t departure place h = ground (arith, text_eq_iff place place)

IsThere-of_accepted :
    (w : World) (truck : Truck) (route : Route) (o : Option RouteRef)
    → truck.route ≡ o
    → evaluate_schedule w truck route o ≡ none
    → IsThere w truck route
unfolding evaluate_busy
IsThere-of_accepted w truck route none e h = waits e ((free_iff truck route).0 h)
IsThere-of_accepted w truck route (some ref) e h = elim (Option-cases (departure_time route)) [
  | inl unplanned ↦ ground (arith, unplanned, h)
  | inr (departure, planned) ↦
      let (t, ends, before, same) =
        after_current-eq-none (eta_final (w.routes ref)) departure (end_location (w.routes ref))
          (start_location route) (ground (arith, planned, h)) in
      comes ref t departure e planned ends before same
]

accepted_of_there :
    (w : World) (truck : Truck) (route : Route)
    → IsThere w truck route
    → evaluate_schedule w truck route truck.route ≡ none
unfolding evaluate_busy
accepted_of_there w truck route (waits e here) =
    subst (λ o. evaluate_schedule w truck route o ≡ none) (sym e) ((free_iff truck route).1 here)
accepted_of_there w truck route (comes ref t departure e planned ends before same) =
    rw (e, planned, ends, same) (after_current_accepts t departure (start_location route) before)

CanServe-of_accepted :
    (w : World) (truck : Truck) (route : Route)
    → evaluate w truck route ≡ ok none
    → CanServe w truck route
unfolding evaluate
CanServe-of_accepted w truck route h =
    let (d, known, rest) = >>=-eq-ok (total_distance_km route) _ h in
    record {
      distance = d;
      is_distance = known;
      in_range = ground (arith, rest);
      fits = ground (arith, rest);
      there = IsThere-of_accepted w truck route truck.route refl (ground (arith, rest));
    }

accepted_of_CanServe :
    (w : World) (truck : Truck) (route : Route)
    → CanServe w truck route
    → evaluate w truck route ≡ ok none
unfolding evaluate
accepted_of_CanServe w truck route c =
    rw c.is_distance (ground (arith, c.in_range, c.fits, accepted_of_there w truck route c.there))

-- The policy accepts a truck for a route exactly when the route's distance is known and within the
-- truck's range, the heaviest segment within its capacity, and the truck is at the start in time: it
-- has no route and stands there, or its present route ends there, strictly before the departure.
pub evaluate_iff :
    (w : World) (truck : Truck) (route : Route)
    → (evaluate w truck route ≡ ok none) ↔ CanServe w truck route
evaluate_iff w truck route =
    (CanServe-of_accepted w truck route, accepted_of_CanServe w truck route)
