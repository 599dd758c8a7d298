-- ===== src/CustomerRepository.antt =====
-- adapters/driven/persistence/memory/customer_repository.py: customers by id, with an index by email
-- and one by phone number. The customers are references; `cs` holds the fields of the objects.
pub mod Index
pub mod Valid
pub mod Lookup
use fleet_flow.Base.{
  ℕ, zero, suc, ◌+◌, Bool, true, false, not, List, [], ◌∷◌, Option, none, some, leb, ltb, ◌==◌,
  if◌then◌else◌, Text, text_eq, length,
}
use fleet_flow.Base.Dict.{get, set, pop}
use fleet_flow.Result.{Result, ok, err, value_error, key_error, require, or_raise, ◌>>=◌, ◌>>◌}
use fleet_flow.Location.{strip}
use fleet_flow.Contact.{ContactInfo, lower}
use fleet_flow.Schedule.{Time}
use fleet_flow.World.{Customer, CustomerRef, update}
use fleet_flow.Customer as Customers

pub record CustomerRepository : Type 0 where
  pub customers_by_id : List (ℕ × CustomerRef)
  pub id_by_email : List (Text × ℕ)
  pub id_by_phone : List (Text × ℕ)
  pub next_id : ℕ

-- `InMemoryCustomerRepository()`
abbrev pub empty : CustomerRepository
empty = record { customers_by_id = []; id_by_email = []; id_by_phone = []; next_id = 1 }

-- The fields of every customer object.
abbrev pub Objects : Type 0
Objects = CustomerRef → Customer

abbrev pub email : Objects → CustomerRef → Text
email cs ref = (cs ref).contact.email

abbrev pub phone_number : Objects → CustomerRef → Text
phone_number cs ref = (cs ref).contact.phone_number

abbrev pub get_by_id : ℕ → CustomerRepository → Option CustomerRef
get_by_id id r = get ◌==◌ r.customers_by_id id

-- `existing_id is not None and existing_id != customer.customer_id`
abbrev pub is_other : Option ℕ → ℕ → Bool
is_other none id = false
is_other (some existing) id = not (existing == id)

-- `if customer.email: existing_id = ...`
abbrev pub is_taken : List (Text × ℕ) → Text → ℕ → Bool
is_taken index [] id = false
is_taken index (c ∷ s) id = is_other (get text_eq index (c ∷ s)) id

-- `if customer.email: self._id_by_email[customer.email] = customer.customer_id`
abbrev pub set_key : List (Text × ℕ) → Text → ℕ → List (Text × ℕ)
set_key index [] id = index
set_key index (c ∷ s) id = set text_eq index (c ∷ s) id

-- `if customer.email: self._id_by_email.pop(customer.email, None)`
abbrev pub pop_key : List (Text × ℕ) → Text → List (Text × ℕ)
pop_key index [] = index
pop_key index (c ∷ s) = pop text_eq index (c ∷ s)

abbrev pub max : ℕ → ℕ → ℕ
max a b = if ltb a b then b else a

abbrev pub is_new : Option CustomerRef → Bool
is_new none = true
is_new (some ref) = false

-- The repository with the customer, once the checks of `add` have passed.
abbrev pub with_customer : Objects → CustomerRef → CustomerRepository → CustomerRepository
with_customer cs ref r = record {
  customers_by_id = set ◌==◌ r.customers_by_id (cs ref).customer_id ref;
  id_by_email = set_key r.id_by_email (email cs ref) (cs ref).customer_id;
  id_by_phone = set_key r.id_by_phone (phone_number cs ref) (cs ref).customer_id;
  next_id = max r.next_id ((cs ref).customer_id + 1);
}

unfoldable pub add : Objects → CustomerRef → CustomerRepository → Result CustomerRepository
add cs ref r = do
  require (is_new (get_by_id (cs ref).customer_id r)) value_error
  require (not (is_taken r.id_by_email (email cs ref) (cs ref).customer_id)) value_error
  require (not (is_taken r.id_by_phone (phone_number cs ref) (cs ref).customer_id)) value_error
  ok (with_customer cs ref r)

-- `create`, with the reference of the new object: the objects and the repository after it
unfoldable pub create :
    Objects
    → CustomerRef
    → ContactInfo
    → Time
    → CustomerRepository
    → Result (Objects × CustomerRepository)
unfolding Customers.create add
create cs ref contact occurred_at r = do
  c ← Customers.create contact r.next_id occurred_at
  after ← add (update cs ref c) ref r
  ok (update cs ref c, after)

abbrev pub without : Objects → ℕ → Option CustomerRef → CustomerRepository → CustomerRepository
without cs id none r = r
without cs id (some ref) r = record r {
  customers_by_id = pop ◌==◌ r.customers_by_id id;
  id_by_email = pop_key r.id_by_email (email cs ref);
  id_by_phone = pop_key r.id_by_phone (phone_number cs ref);
}

unfoldable pub remove : Objects → ℕ → CustomerRepository → CustomerRepository
remove cs id r = without cs id (get_by_id id r) r

-- `self._customers_by_id[customer_id]`, for the id that an index has, if any
abbrev pub follow : CustomerRepository → Option ℕ → Result (Option CustomerRef)
follow r none = ok none
follow r (some id) = or_raise (get_by_id id r) key_error >>= λ ref. ok (some ref)

unfoldable pub get_by_email : Text → CustomerRepository → Result (Option CustomerRef)
get_by_email email r = follow r (get text_eq r.id_by_email email)

unfoldable pub get_by_phone : Text → CustomerRepository → Result (Option CustomerRef)
get_by_phone phone r = follow r (get text_eq r.id_by_phone phone)

-- `sorted`, on the ids
abbrev pub insert : ℕ → List ℕ → List ℕ
insert id [] = id ∷ []
insert id (x ∷ xs) = let rest = insert id xs in if leb id x then id ∷ x ∷ xs else x ∷ rest

abbrev pub sorted_keys : List (ℕ × CustomerRef) → List ℕ
sorted_keys [] = []
sorted_keys ((id, ref) ∷ d) = insert id (sorted_keys d)

abbrev pub look_up_all : CustomerRepository → List ℕ → Result (List CustomerRef)
look_up_all r [] = ok []
look_up_all r (id ∷ ids) = do
  ref ← or_raise (get_by_id id r) key_error
  refs ← look_up_all r ids
  ok (ref ∷ refs)

unfoldable pub list_all : CustomerRepository → Result (List CustomerRef)
list_all r = look_up_all r (sorted_keys r.customers_by_id)

-- `name.strip().casefold()`, on ASCII text
abbrev pub folded : Text → Text
folded name = lower (strip name)

abbrev pub named : Objects → Text → List CustomerRef → List CustomerRef
named cs name [] = []
named cs name (ref ∷ refs) =
    let rest = named cs name refs in
    if text_eq (folded (cs ref).contact.name) (folded name) then ref ∷ rest else rest

unfoldable pub list_by_name : Objects → Text → CustomerRepository → Result (List CustomerRef)
unfolding list_all
list_by_name cs name r = list_all r >>= λ refs. ok (named cs name refs)

abbrev pub count_all : CustomerRepository → ℕ
count_all r = length r.customers_by_id
