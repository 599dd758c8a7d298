-- ===== src/CustomerRepository/Valid.antt =====
-- What holds of every repository that its operations have made.
use fleet_flow.Base.{
  ℕ, ◌<◌, ◌≤◌, Bool, true, false, not, ◌≡◌, refl, sym, ap, ◌∙◌, inl, inr, [], Option, none, some,
  ◌==◌, ==_iff, Text, arith, Bool-cases,
}
use fleet_flow.Base.Dict.{get, get-set_here, get-set_other, get-pop_here, get-pop_other, set, pop}
use mathlib.Core.Path.{subst}
use fleet_flow.Result.{Result, ok, value_error, >>-require, ok_injective, ◌>>=◌, >>=-eq-ok}
use fleet_flow.Contact.{ContactInfo}
use fleet_flow.Schedule.{Time}
use fleet_flow.World.{Customer, CustomerRef, update}
use fleet_flow.Customer as Customers
use fleet_flow.CustomerRepository.{
  CustomerRepository, empty, Objects, email, phone_number, get_by_id, is_taken, is_new,
  with_customer, add, create, without, remove,
}
use fleet_flow.CustomerRepository.Index.{
  IsIndex, stored, stored_unique, IsIndex-ext, add-IsIndex, remove-IsIndex,
}

-- The ids are those of the stored customers and below the next one, and both indexes are exact.
pub record IsValid (cs : Objects) (r : CustomerRepository) : Type 0 where
  pub own_id : (i : ℕ) (ref : CustomerRef) → get_by_id i r ≡ some ref → (cs ref).customer_id ≡ i
  pub below : (i : ℕ) (ref : CustomerRef) → get_by_id i r ≡ some ref → i < r.next_id
  pub positive : 1 ≤ r.next_id
  pub emails : IsIndex (email cs) r.customers_by_id r.id_by_email
  pub phones : IsIndex (phone_number cs) r.customers_by_id r.id_by_phone

empty-IsIndex : (key : CustomerRef → Text) → IsIndex key [] []
unfolding get
empty-IsIndex key = record { found = λ k i e. cc e; kept = λ i ref e f. cc e }

pub empty-IsValid : (cs : Objects) → IsValid cs empty
unfolding get
empty-IsValid cs = record {
  own_id = λ i ref e. cc e;
  below = λ i ref e. cc e;
  positive = omega arith;
  emails = empty-IsIndex (email cs);
  phones = empty-IsIndex (phone_number cs);
}

not_new : (o : Option CustomerRef) → is_new o ≡ true → o ≡ none
not_new none h = refl
not_new (some ref) h = cc

not_taken : (b : Bool) → not b ≡ true → b ≡ false
not_taken b h = ground arith

with_customer-IsValid :
    (cs : Objects) (ref : CustomerRef) (r : CustomerRepository)
    → IsValid cs r
    → get_by_id (cs ref).customer_id r ≡ none
    → is_taken r.id_by_email (email cs ref) (cs ref).customer_id ≡ false
    → is_taken r.id_by_phone (phone_number cs ref) (cs ref).customer_id ≡ false
    → IsValid cs (with_customer cs ref r)
with_customer-IsValid cs ref r valid new mail phone =
    let id = (cs ref).customer_id in
    let ids = r.customers_by_id in
    let here = get-set_here ◌==◌ ==_iff ids id ref in
    record {
      own_id = λ i other e. elim (Bool-cases (id == i)) [
        | inl own ↦
            let same = stored_unique (set ◌==◌ ids id ref) id i own here e in
            ap (λ x. (cs x).customer_id) (sym same) ∙ (==_iff id i).0 own
        | inr off ↦ valid.own_id i other (sym (get-set_other ◌==◌ ==_iff ids id ref i off) ∙ e)
      ];
      below = λ i other e. elim (Bool-cases (id == i)) [
        | inl own ↦ ground (arith, own)
        | inr off ↦
            let old = valid.below i other (sym (get-set_other ◌==◌ ==_iff ids id ref i off) ∙ e) in
            ground (arith, old)
      ];
      positive = let one = valid.positive in ground (arith, one);
      emails = add-IsIndex (email cs) valid.emails ref id new mail;
      phones = add-IsIndex (phone_number cs) valid.phones ref id new phone;
    }

pub add-IsValid :
    (cs : Objects) (ref : CustomerRef) (r : CustomerRepository) {r' : CustomerRepository}
    → IsValid cs r
    → add cs ref r ≡ ok r'
    → IsValid cs r'
unfolding add
add-IsValid cs ref r valid h =
    let id = (cs ref).customer_id in
    let (new, rest) = >>-require (is_new (get_by_id id r)) value_error _ h in
    let (mail, rest') =
      >>-require (not (is_taken r.id_by_email (email cs ref) id)) value_error _ rest in
    let (phone, made) =
      >>-require (not (is_taken r.id_by_phone (phone_number cs ref) id)) value_error
        (ok (with_customer cs ref r)) rest' in
    subst (IsValid cs) (ok_injective made)
      (with_customer-IsValid cs ref r valid (not_new _ new) (not_taken _ mail) (not_taken _ phone))

pub remove-IsValid :
    (cs : Objects) (id : ℕ) (r : CustomerRepository) → IsValid cs r → IsValid cs (remove cs id r)
unfolding remove
remove-IsValid cs id r valid = go (get_by_id id r) refl
  where
    still :
        (i : ℕ) (other : CustomerRef)
        → stored (pop ◌==◌ r.customers_by_id id) i ≡ some other
        → get_by_id i r ≡ some other
    still i other e = elim (Bool-cases (id == i)) [
      | inl own ↦
          let gone = get-pop_here ◌==◌ ==_iff r.customers_by_id id in
          cc (sym gone ∙ ap (stored (pop ◌==◌ r.customers_by_id id)) ((==_iff id i).0 own) ∙ e)
      | inr off ↦ sym (get-pop_other ◌==◌ ==_iff r.customers_by_id id i off) ∙ e
    ]

    go : (o : Option CustomerRef) → get_by_id id r ≡ o → IsValid cs (without cs id o r)
    go none e = valid
    go (some ref) here = record {
      own_id = λ i other e. valid.own_id i other (still i other e);
      below = λ i other e. valid.below i other (still i other e);
      positive = valid.positive;
      emails = remove-IsIndex (email cs) valid.emails ref id here;
      phones = remove-IsIndex (phone_number cs) valid.phones ref id here;
    }

-- Objects with the id and the contact of before.
abbrev pub SameIdentity : Customer → Customer → Type 0
SameIdentity c d = (d.customer_id ≡ c.customer_id) × (d.contact ≡ c.contact)

-- Only the identity of the stored objects matters.
pub IsValid-ext :
    (cs ds : Objects) (r : CustomerRepository)
    → ((i : ℕ) (ref : CustomerRef) → get_by_id i r ≡ some ref → SameIdentity (cs ref) (ds ref))
    → IsValid cs r
    → IsValid ds r
IsValid-ext cs ds r same valid = record {
  own_id = λ i ref e. (same i ref e).0 ∙ valid.own_id i ref e;
  below = valid.below;
  positive = valid.positive;
  emails =
      IsIndex-ext (email cs) (email ds) (λ i ref e. ap (λ c. c.email) (same i ref e).1)
        valid.emails;
  phones =
      IsIndex-ext (phone_number cs) (phone_number ds)
        (λ i ref e. ap (λ c. c.phone_number) (same i ref e).1) valid.phones;
}

-- A new object has a reference that the repository does not have.
abbrev pub IsFresh : CustomerRef → CustomerRepository → Type 0
IsFresh ref r = (i : ℕ) (other : CustomerRef) → get_by_id i r ≡ some other → (other == ref) ≡ false

pub create-IsValid :
    (cs : Objects) (ref : CustomerRef) (contact : ContactInfo) (occurred_at : Time)
    (r : CustomerRepository) {ds : Objects} {r' : CustomerRepository}
    → IsValid cs r
    → IsFresh ref r
    → create cs ref contact occurred_at r ≡ ok (ds, r')
    → IsValid ds r'
unfolding create
create-IsValid cs ref contact occurred_at r valid fresh h =
    let finish : Customer → CustomerRepository → Result (Objects × CustomerRepository) =
      λ c after. ok (update cs ref c, after) in
    let (c, made, rest) =
      >>=-eq-ok (Customers.create contact r.next_id occurred_at)
        (λ c. add (update cs ref c) ref r >>= finish c) h in
    let (after, added, e) = >>=-eq-ok (add (update cs ref c) ref r) (finish c) rest in
    let pair = ok_injective e in
    let before =
      IsValid-ext cs (update cs ref c) r (λ i other st. rw (fresh i other st) (refl, refl)) valid in
    let new = add-IsValid (update cs ref c) ref r before added in
    subst (λ (p : Objects × CustomerRepository). IsValid p.0 p.1) pair new
