-- ===== src/Tests/Registry.antt =====
-- A repository of customers with one customer, and lookups in it.
use fleet_flow.Base.{ℕ, ◌≡◌, refl, [], ◌∷◌, Option, codes, text_eq}
use fleet_flow.Base.Dict.{get, set}
use fleet_flow.Result.{ok}
use fleet_flow.World.{Customer, update}
use fleet_flow.Package.{require_positive_int}
use fleet_flow.Customer as Customers
use fleet_flow.Events.{customer_created}
use fleet_flow.CustomerRepository.{
  CustomerRepository, empty, Objects, email, phone_number, add, create, get_by_email, get_by_phone,
}
use fleet_flow.CustomerRepository.Valid.{IsValid, IsFresh}
use fleet_flow.CustomerRepository.Lookup.{
  Reachable, start, created, Reachable-IsValid, Searches, lookups_search,
}
use fleet_flow.Tests.Fleet.{fleet}
use fleet_flow.Tests.Customers.{ada}

abbrev ada_stored : Customer
ada_stored = record {
  contact = ada;
  customer_id = 1;
  delivery_packages = [];
  pending_events = customer_created 1 500 ∷ [];
}

abbrev pub objects : Objects
objects = update fleet.customers 4 ada_stored

abbrev pub registry : CustomerRepository
registry = record {
  customers_by_id = (1, 4) ∷ [];
  id_by_email = (codes "ada@example.com", 1) ∷ [];
  id_by_phone = (codes "0412345678", 1) ∷ [];
  next_id = 2;
}

registry_made : create fleet.customers 4 ada 500 empty ≡ ok (objects, registry)
unfolding create add Customers.create Customers.customer require_positive_int get set text_eq
registry_made = refl

empty-IsFresh : IsFresh 4 empty
unfolding get
empty-IsFresh i other e = cc e

pub registry-Reachable : Reachable objects registry
registry-Reachable = created (start fleet.customers) 4 ada 500 empty-IsFresh registry_made

Reachable-IsValid_example : IsValid objects registry
Reachable-IsValid_example = Reachable-IsValid objects registry registry-Reachable

lookups_search_example :
    ((o : Option ℕ) × (get_by_email (codes "ada@example.com") registry ≡ ok o)
      × Searches (email objects) registry (codes "ada@example.com") o)
    × ((o : Option ℕ) × (get_by_phone (codes "ada@example.com") registry ≡ ok o)
        × Searches (phone_number objects) registry (codes "ada@example.com") o)
lookups_search_example =
    lookups_search objects registry (codes "ada@example.com") registry-Reachable refl
