-- ===== src/Package.antt =====
-- domain/entities/delivery_package.py: the lifecycle of one package. A method that raises does so
-- before its first write, so it is a function to a result: the new package, or an error with the
-- package as it was.
pub mod Identity
pub mod Lifecycle
pub mod Rollback
use fleet_flow.Base.{ℕ, List, [], ◌∷◌, Option, none, some, ltb, leb, ◌&&◌, not, text_eq}
use fleet_flow.Result.{
  Result, ok, err, domain_validation, business_rule_violation, ◌>>=◌, ◌>>◌, require, or_raise,
}
use fleet_flow.Location.{LocationCode, Raw, str, location_code}
use fleet_flow.Map.{is_valid_location}
use fleet_flow.Schedule.{Time}
use fleet_flow.Weight.{Weight, infinity}
use fleet_flow.Enums.{ItemStatus, todo, item_in_progress, done, item_status_eq}
use fleet_flow.Events.{
  PackageMoved, package_created, package_removed, package_picked_up, package_delivered,
}
use fleet_flow.Recorder.{record_event}
use fleet_flow.World.{Package, RouteRef, CustomerRef}

-- `require_positive_int`. The integers of the model start at 0; a negative one is refused as 0 is.
unfoldable pub require_positive_int : ℕ → Result ℕ
require_positive_int n = do require (leb 1 n) domain_validation; ok n

unfoldable pub require_optional_positive_int : Option ℕ → Result (Option ℕ)
unfolding require_positive_int
require_optional_positive_int none = ok none
require_optional_positive_int (some n) = require_positive_int n >>= λ m. ok (some m)

-- `require_positive_finite_float`
unfoldable pub require_positive_finite_float : Weight → Result Weight
unfolding infinity
require_positive_finite_float w = do require (ltb 0 w && ltb w infinity) domain_validation; ok w

-- `_validate_locations`
validate_locations : LocationCode → LocationCode → Result (Unit {0})
unfolding is_valid_location text_eq
validate_locations start end = do
  require (is_valid_location (str start)) domain_validation
  require (is_valid_location (str end)) domain_validation
  require (not (text_eq start end)) domain_validation

-- `DeliveryPackage(...)`
unfoldable pub delivery_package : Raw → Raw → Weight → CustomerRef → ℕ → Option ℕ → Result Package
unfolding require_positive_int require_optional_positive_int require_positive_finite_float
    validate_locations location_code
delivery_package raw_start raw_end weight customer package_id route_id = do
  start ← location_code raw_start
  end ← location_code raw_end
  id ← require_positive_int package_id
  validate_locations start end
  kilos ← require_positive_finite_float weight
  route ← require_optional_positive_int route_id
  ok (record {
    package_id = id;
    start_location = start;
    end_location = end;
    weight = kilos;
    customer = customer;
    route = none;
    route_id = route;
    stored_location = some start;
    expected_arrival = none;
    status = todo;
    pending_events = [];
  })

-- `self._current_location or self.start_location`: an empty code counts as missing.
abbrev pub or_location : Option LocationCode → LocationCode → LocationCode
or_location none start = start
or_location (some []) start = start
or_location (some (c ∷ s)) start = c ∷ s

abbrev pub current_location : Package → LocationCode
current_location p = or_location p.stored_location p.start_location

-- `DeliveryPackage.create`; `occurred_at` is the given time, or the clock's.
unfoldable pub create :
    Raw → Raw → Weight → CustomerRef → (customer_id : ℕ) → ℕ → (occurred_at : Time) → Result Package
unfolding delivery_package
create raw_start raw_end weight customer customer_id package_id occurred_at = do
  p ← delivery_package raw_start raw_end weight customer package_id none
  ok (record p {
    pending_events =
        record_event
          (package_created (record {
            package_id = p.package_id;
            customer_id = customer_id;
            start_location = p.start_location;
            end_location = p.end_location;
            weight = p.weight;
            initial_status = p.status;
            initial_location = current_location p;
            expected_arrival = p.expected_arrival;
            occurred_at = occurred_at;
          }))
          p.pending_events;
  })

-- The new status and location, with the event that `make` builds from the route id.
abbrev moved_to : ItemStatus → LocationCode → Package → Package
moved_to status location p = record p { status = status; stored_location = some location }

-- The event of a move from `p` to `q`.
abbrev moved_event : ℕ → Package → Package → Time → PackageMoved
moved_event route_id p q occurred_at = record {
  package_id = q.package_id;
  route_id = route_id;
  previous_status = p.status;
  new_status = q.status;
  previous_location = current_location p;
  new_location = current_location q;
  scheduled_arrival = q.expected_arrival;
  occurred_at = occurred_at;
}

abbrev pub picked_up : Time → ℕ → Package → Package
picked_up occurred_at route_id p =
    let q = moved_to item_in_progress p.start_location p in
    record q {
      pending_events =
          record_event (package_picked_up (moved_event route_id p q occurred_at)) p.pending_events;
    }

unfoldable pub mark_picked_up : Time → Package → Result Package
mark_picked_up occurred_at p = do
  route_id ← or_raise p.route_id business_rule_violation
  require (item_status_eq p.status todo) business_rule_violation
  ok (picked_up occurred_at route_id p)

abbrev pub delivered : Time → ℕ → Package → Package
delivered occurred_at route_id p =
    let q = moved_to done p.end_location p in
    record q {
      pending_events =
          record_event (package_delivered (moved_event route_id p q occurred_at)) p.pending_events;
    }

unfoldable pub mark_delivered : Time → Package → Result Package
mark_delivered occurred_at p = do
  route_id ← or_raise p.route_id business_rule_violation
  require (item_status_eq p.status item_in_progress) business_rule_violation
  ok (delivered occurred_at route_id p)

-- `record_removal`, with the id of the package's customer
unfoldable pub record_removal :
    (customer_id : ℕ)
    → (previous_route_id : Option ℕ) → ItemStatus
    → LocationCode
    → (previous_expected_arrival : Option Time) → (occurred_at : Time) → Package
    → Package
record_removal customer_id previous_route_id status location arrival occurred_at p = record p {
  pending_events =
      record_event
        (package_removed (record {
          package_id = p.package_id;
          customer_id = customer_id;
          previous_route_id = previous_route_id;
          previous_status = status;
          previous_location = location;
          start_location = p.start_location;
          end_location = p.end_location;
          weight = p.weight;
          previous_expected_arrival = arrival;
          occurred_at = occurred_at;
        }))
        p.pending_events;
}

-- The setter of `route`: the reference, and the id of the route that it refers to.
abbrev pub set_route : Option (RouteRef × ℕ) → Package → Package
set_route none p = record p { route = none; route_id = none }
set_route (some (r, id)) p = record p { route = some r; route_id = some id }

unfoldable pub reset_assignment_state : Package → Package
reset_assignment_state p =
    moved_to todo p.start_location (record (set_route none p) { expected_arrival = none })

pub record PackageSnapshot : Type 0 where
  pub route : Option RouteRef
  pub route_id : Option ℕ
  pub status : ItemStatus
  pub current_location : Option LocationCode
  pub expected_arrival : Option Time

unfoldable pub snapshot_state : Package → PackageSnapshot
snapshot_state p = record {
  route = p.route;
  route_id = p.route_id;
  status = p.status;
  current_location = p.stored_location;
  expected_arrival = p.expected_arrival;
}

unfoldable pub restore_state : PackageSnapshot → Package → Package
restore_state s p = record p {
  route = s.route;
  route_id = s.route_id;
  status = s.status;
  stored_location = s.current_location;
  expected_arrival = s.expected_arrival;
}
