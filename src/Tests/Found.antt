-- ===== src/Tests/Found.antt =====
-- A customer that is found by its email in a repository with one customer.
use fleet_flow.Base.{◌≡◌, refl, [], some, codes, text_eq}
use fleet_flow.Base.Dict.{get}
use fleet_flow.Result.{ok}
use fleet_flow.Location.{is_space, lstrip, rstrip, strip}
use fleet_flow.Contact.{lower_char, lower}
use fleet_flow.CustomerRepository.{get_by_email}
use fleet_flow.CustomerService.{matched, digits_of, find_existing_customer}
use fleet_flow.CustomerService.Directory.{directory}
use fleet_flow.CustomerService.Matches.{Matches, find_existing_customer-Matches}
use fleet_flow.Tests.Registry.{objects, registry, registry-Reachable}

ada_found :
    find_existing_customer objects
      (directory objects registry registry-Reachable)
      (codes "ada lovelace")
      (codes " ADA@example.com")
      []
    ≡ ok (some 4)
unfolding find_existing_customer matched get_by_email get text_eq strip lstrip rstrip is_space lower
    lower_char digits_of directory
ada_found = refl

find_existing_customer-Matches_example :
    Matches objects
      (strip (codes "ada lovelace"))
      (lower (strip (codes " ADA@example.com")))
      (digits_of [])
      4
find_existing_customer-Matches_example =
    find_existing_customer-Matches objects (directory objects registry registry-Reachable)
      (codes "ada lovelace") (codes " ADA@example.com") [] 4 ada_found
