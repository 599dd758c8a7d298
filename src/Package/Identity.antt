-- ===== src/Package/Identity.antt =====
-- A package that was created has the id that was asked for.
use fleet_flow.Base.{ℕ, ◌≤◌, arith, ◌≡◌, sym, ap, ◌∙◌, [], Option, none, some}
use fleet_flow.Result.{Result, ok, domain_validation, ok_injective, >>-require, ◌>>=◌, >>=-eq-ok}
use fleet_flow.Location.{LocationCode, Raw, location_code}
use fleet_flow.Schedule.{Time}
use fleet_flow.Weight.{Weight}
use fleet_flow.Enums.{todo}
use fleet_flow.World.{Package, CustomerRef}
use fleet_flow.Package.{
  require_positive_int, require_optional_positive_int, require_positive_finite_float,
  validate_locations, delivery_package, create,
}

pub require_positive_int-eq-ok : (n : ℕ) {k : ℕ} → require_positive_int n ≡ ok k → (n ≡ k) × (1 ≤ n)
unfolding require_positive_int
require_positive_int-eq-ok n h =
    let (holds, e) = >>-require _ domain_validation (ok n) h in
    (ok_injective e, ground (arith, holds))

delivery_package-package_id :
    (a b : Raw) (weight : Weight) (customer : CustomerRef) (id : ℕ) (route_id : Option ℕ)
    {p : Package}
    → delivery_package a b weight customer id route_id ≡ ok p
    → p.package_id ≡ id
unfolding delivery_package
delivery_package-package_id a b weight customer id route_id h =
    let make : LocationCode → LocationCode → ℕ → Weight → Option ℕ → Result Package =
      λ start end i kilos route. ok (record {
        package_id = i;
        start_location = start;
        end_location = end;
        weight = kilos;
        customer = customer;
        route = none;
        route_id = route;
        stored_location = some start;
        expected_arrival = none;
        status = todo;
        pending_events = [];
      }) in
    let weighed : LocationCode → LocationCode → ℕ → Weight → Result Package =
      λ s e i kilos. require_optional_positive_int route_id >>= make s e i kilos in
    let placed : LocationCode → LocationCode → ℕ → Unit {0} → Result Package =
      λ s e i u. require_positive_finite_float weight >>= weighed s e i in
    let numbered : LocationCode → LocationCode → ℕ → Result Package =
      λ s e i. validate_locations s e >>= placed s e i in
    let ended : LocationCode → LocationCode → Result Package =
      λ s e. require_positive_int id >>= numbered s e in
    let (s, e1, h1) = >>=-eq-ok (location_code a) (λ s. location_code b >>= ended s) h in
    let (e, e2, h2) = >>=-eq-ok (location_code b) (ended s) h1 in
    let (i, e3, h3) = >>=-eq-ok (require_positive_int id) (numbered s e) h2 in
    let (u, e4, h4) = >>=-eq-ok (validate_locations s e) (placed s e i) h3 in
    let (kilos, e5, h5) = >>=-eq-ok (require_positive_finite_float weight) (weighed s e i) h4 in
    let (route, e6, h6) =
      >>=-eq-ok (require_optional_positive_int route_id) (make s e i kilos) h5 in
    ap (λ (p : Package). p.package_id) (sym (ok_injective h6))
    ∙ sym (require_positive_int-eq-ok id e3).0

pub create-package_id :
    (a b : Raw) (weight : Weight) (customer : CustomerRef) (customer_id id : ℕ) (occurred_at : Time)
    {p : Package}
    → create a b weight customer customer_id id occurred_at ≡ ok p
    → p.package_id ≡ id
unfolding create
create-package_id a b weight customer customer_id id occurred_at h =
    let (q, made, e) = >>=-eq-ok (delivery_package a b weight customer id none) _ h in
    ap (λ (x : Package). x.package_id) (sym (ok_injective e))
    ∙ delivery_package-package_id a b weight customer id none made
