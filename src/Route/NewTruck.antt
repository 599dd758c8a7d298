-- ===== src/Route/NewTruck.antt =====
-- A truck as its constructor makes it, which has no location yet, is not assigned to a route.
use fleet_flow.Base.{ℕ, ◌≤◌, Bool, true, false, not, ◌||◌, ◌≡◌, refl, sym, ap, none, Text}
use mathlib.Core.Path.{subst}
use fleet_flow.Result.{Result, ok, err, domain_conflict, ok_injective, ◌>>=◌, >>=-eq-ok}
use fleet_flow.Schedule.{Time}
use fleet_flow.Enums.{free}
use fleet_flow.World.{Truck, World, RouteRef, TruckRef, Action, raise_if, ◌>>◌}
use fleet_flow.Package.{require_positive_int}
use fleet_flow.Package.Identity.{require_positive_int-eq-ok}
use fleet_flow.Truck.{TruckModel, from_value, truck, is_free}
use fleet_flow.Route.Trucks.{is_some, assign_truck, assign_located}

-- What the constructor promises.
pub record IsNew (t : Truck) : Type 0 where
  pub identified : 1 ≤ t.vehicle_id
  pub carries : 1 ≤ t.capacity
  pub reaches : 1 ≤ t.max_range
  pub idle : is_free t ≡ true
  pub unplaced : t.current_location ≡ none
  pub unassigned : t.route ≡ none

pub truck-IsNew :
    (vehicle_id : ℕ) (name : Text) (capacity max_range : ℕ) (m : TruckModel) (t : Truck)
    → truck vehicle_id name capacity max_range ≡ ok (m, t)
    → IsNew t
unfolding truck
truck-IsNew vehicle_id name capacity max_range m t h =
    let make : ℕ → TruckModel → ℕ → ℕ → Result (TruckModel × Truck) = λ id model load reach. ok (
      model,
      record {
        vehicle_id = id;
        capacity = load;
        max_range = reach;
        status = free;
        current_location = none;
        route = none;
        busy_from = none;
        busy_until = none;
        in_transit_to = none;
      },
    ) in
    let with_load : ℕ → TruckModel → ℕ → Result (TruckModel × Truck) =
      λ id model load. require_positive_int max_range >>= make id model load in
    let with_model : ℕ → TruckModel → Result (TruckModel × Truck) =
      λ id model. require_positive_int capacity >>= with_load id model in
    let (id, e1, h1) =
      >>=-eq-ok (require_positive_int vehicle_id) (λ id. from_value name >>= with_model id) h in
    let (model, e2, h2) = >>=-eq-ok (from_value name) (with_model id) h1 in
    let (load, e3, h3) = >>=-eq-ok (require_positive_int capacity) (with_load id model) h2 in
    let (reach, e4, h4) = >>=-eq-ok (require_positive_int max_range) (make id model load) h3 in
    let (same_id, one_id) = require_positive_int-eq-ok vehicle_id e1 in
    let (same_load, one_load) = require_positive_int-eq-ok capacity e3 in
    let (same_reach, one_reach) = require_positive_int-eq-ok max_range e4 in
    subst IsNew (ap (λ (p : TruckModel × Truck). p.1) (ok_injective h4)) (record {
      identified = subst (λ n. 1 ≤ n) same_id one_id;
      carries = subst (λ n. 1 ≤ n) same_load one_load;
      reaches = subst (λ n. 1 ≤ n) same_reach one_reach;
      idle = refl;
      unplaced = refl;
      unassigned = refl;
    })

guarded :
    (b : Bool) (m : Action (Unit {0})) (w : World)
    → m w ≡ (err domain_conflict, w)
    → (raise_if b domain_conflict >> m) w ≡ (err domain_conflict, w)
guarded true m w h = refl
guarded false m w h = h

-- A truck that the constructor returns has a positive id, capacity and range, is free and has
-- neither a route nor a location; until it has a location, assign_truck refuses it for every route,
-- and the world stays as it is.
pub truck-refused :
    (vehicle_id : ℕ) (name : Text) (capacity max_range : ℕ) (m : TruckModel) (w : World)
    (self : RouteRef) (ref : TruckRef) (occurred_at : Time)
    → truck vehicle_id name capacity max_range ≡ ok (m, w.trucks ref)
    → IsNew (w.trucks ref) × (assign_truck self ref occurred_at w ≡ (err domain_conflict, w))
unfolding assign_truck assign_located
truck-refused vehicle_id name capacity max_range m w self ref occurred_at h =
    let new = truck-IsNew vehicle_id name capacity max_range m (w.trucks ref) h in
    let t = w.trucks ref in
    let last : assign_located self ref occurred_at t.current_location w ≡ (err domain_conflict, w) =
      subst (λ o. assign_located self ref occurred_at o w ≡ (err domain_conflict, w))
        (sym new.unplaced) refl in
    (
      new,
      guarded (is_some (w.routes self).truck)
          (raise_if (not (is_free t) || is_some t.route) domain_conflict
            >> assign_located self ref occurred_at t.current_location)
          w
          (guarded (not (is_free t) || is_some t.route)
            (assign_located self ref occurred_at t.current_location) w last),
    )
