-- ===== src/Customer.antt =====
-- domain/entities/customer.py: a customer and the packages that it owns. A package keeps its
-- customer when it leaves the customer's collection.
pub mod Ownership
use fleet_flow.Base.{
  ℕ, ◌+◌, Bool, List, [], ◌∷◌, ◌++◌, Option, none, some, ◌==◌, if◌then◌else◌, mem,
}
use fleet_flow.Result.{Result, ok, err, domain_conflict, entity_not_found}
use fleet_flow.Contact.{ContactInfo}
use fleet_flow.Schedule.{Time}
use fleet_flow.Events.{customer_created}
use fleet_flow.Recorder.{record_event}
use fleet_flow.World.{
  Customer, World, PackageRef, CustomerRef, put_customer, Action, modify, ◌>>=◌, ◌>>◌,
}
use fleet_flow.Package.{require_positive_int}
use fleet_flow.Route.Links.{edit_package}

-- `Customer(contact, customer_id)`
unfoldable pub customer : ContactInfo → ℕ → Result Customer
unfolding require_positive_int
customer contact customer_id = elim (require_positive_int customer_id) [
  | ok id ↦
      ok (record {
        contact = contact;
        customer_id = id;
        delivery_packages = [];
        pending_events = [];
      })
  | err e ↦ err e
]

-- `Customer.create`; `occurred_at` is the given time, or the clock's.
unfoldable pub create : ContactInfo → ℕ → Time → Result Customer
unfolding customer
create contact customer_id occurred_at = elim (customer contact customer_id) [
  | ok c ↦ ok (record c {
    pending_events = record_event (customer_created c.customer_id occurred_at) c.pending_events;
  })
  | err e ↦ err e
]

abbrev pub edit_customer : CustomerRef → (Customer → Customer) → Action (Unit {0})
edit_customer ref f = modify (λ w. put_customer ref (f (w.customers ref)) w)

-- `list.remove`: without the first occurrence, if there is one
abbrev pub cons_some : ℕ → Option (List ℕ) → Option (List ℕ)
cons_some x none = none
cons_some x (some xs) = some (x ∷ xs)

unfoldable pub remove_first : ℕ → List ℕ → Option (List ℕ)
remove_first k [] = none
remove_first k (x ∷ xs) =
    let rest = remove_first k xs in if x == k then some xs else cons_some x rest

abbrev pub keep : CustomerRef → Option (List PackageRef) → Action (Unit {0})
keep self none w = (err entity_not_found, w)
keep self (some rest) w = edit_customer self (λ c. record c { delivery_packages = rest }) w

unfoldable pub remove_package : CustomerRef → PackageRef → Action (Unit {0})
unfolding remove_first
remove_package self p w = keep self (remove_first p (w.customers self).delivery_packages) w

-- `package.customer = self; self._delivery_packages.append(package)`
unfoldable pub append_package : CustomerRef → PackageRef → Action (Unit {0})
append_package self p = do
  edit_package p (λ x. record x { customer = self })
  edit_customer self (λ c. record c { delivery_packages = c.delivery_packages ++ p ∷ [] })

unfoldable pub add_package : CustomerRef → PackageRef → Action (Unit {0})
unfolding append_package remove_package
add_package self p w =
    if (w.customers (w.packages p).customer).customer_id == (w.customers self).customer_id
    then (if mem (w.customers self).delivery_packages p
        then (err domain_conflict, w)
        else append_package self p w)
    else (remove_package (w.packages p).customer p >> append_package self p) w

unfoldable pub restore_package_link : CustomerRef → PackageRef → Action (Unit {0})
unfolding append_package
restore_package_link self p w =
    if mem (w.customers self).delivery_packages p then (ok tt, w) else append_package self p w
