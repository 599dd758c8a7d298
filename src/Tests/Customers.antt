-- ===== src/Tests/Customers.antt =====
-- Contacts and owners at concrete inputs.
use fleet_flow.Base.{
  ℕ, zero, suc, ◌≤◌, ◌≡◌, count, refl, [], ◌∷◌, ◌==◌, if◌then◌else◌, codes, arith,
}
use fleet_flow.Result.{ok, ◌>>=◌}
use fleet_flow.Location.{strip, lstrip, rstrip, is_space}
use fleet_flow.Contact.{
  absent, str, ContactInfo, clean_name, clean_email, clean_phone, contact_info, lower, lower_char,
  split,
}
use fleet_flow.Contact.Cleaned.{IsClean, contact_info_once, contact_info-IsClean}
use fleet_flow.World.{World}
use fleet_flow.Customer.{add_package}
use fleet_flow.Customer.Ownership.{held, IsOwned, Moves, add_package-IsOwned}
use fleet_flow.Tests.Fleet.{fleet, contact}

abbrev pub ada : ContactInfo
ada = record {
  name = codes "Ada Lovelace";
  email = codes "ada@example.com";
  phone_number = codes "0412345678";
}

contact_info-ada :
    contact_info
      (str (codes " Ada Lovelace "))
      (str (codes "Ada@Example.com "))
      (str (codes "0412345678"))
    ≡ ok ada
unfolding contact_info strip lstrip rstrip is_space lower split lower_char
contact_info-ada = refl

contact_info-IsClean_example : IsClean ada
contact_info-IsClean_example =
    contact_info-IsClean (str (codes " Ada Lovelace ")) (str (codes "Ada@Example.com "))
      (str (codes "0412345678")) ada contact_info-ada

contact_info_once_example : contact_info (str (codes " Ada ")) absent absent ≡ (
    clean_name (str (codes " Ada ")) >>= λ n. clean_email absent >>= λ e.
    clean_phone absent >>= λ p. ok (record { name = n; email = e; phone_number = p }))
contact_info_once_example = contact_info_once (str (codes " Ada ")) absent absent

abbrev two_owners : World
two_owners = record fleet {
  customers = λ c. record {
    contact = contact;
    customer_id = suc c;
    delivery_packages = if c == 0 then 0 ∷ [] else [];
    pending_events = [];
  };
}

owner_of_two : (c p : ℕ) → 1 ≤ held two_owners c p → (two_owners.packages p).customer ≡ c
unfolding count
owner_of_two zero zero h = refl
owner_of_two zero (suc p) h = refl
owner_of_two (suc c) p h = ground (arith, h)

once_of_two : (c p : ℕ) → held two_owners c p ≤ 1
unfolding count
once_of_two zero p = ground arith
once_of_two (suc c) p = ground arith

two_owners-IsOwned : IsOwned two_owners
two_owners-IsOwned = record { owner = owner_of_two; once = once_of_two }

add_package-IsOwned_example : Moves 1 0 two_owners (add_package 1 0 two_owners)
add_package-IsOwned_example =
    add_package-IsOwned 1 0 two_owners (λ c d e. ground (arith, e)) two_owners-IsOwned
