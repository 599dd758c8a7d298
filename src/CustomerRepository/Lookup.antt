-- ===== src/CustomerRepository/Lookup.antt =====
-- The indexes implement a search of the stored customers.
use fleet_flow.Base.{
  ℕ, true, ◌≡◌, sym, ap, ◌∙◌, inl, inr, List, Option, none, some, Text, Option-cases,
}
use fleet_flow.Result.{ok, key_error, or_raise, ◌>>=◌}
use fleet_flow.Contact.{ContactInfo}
use fleet_flow.Schedule.{Time}
use fleet_flow.World.{CustomerRef}
use fleet_flow.CustomerRepository.{
  CustomerRepository, empty, Objects, email, phone_number, get_by_id, add, create, remove, follow,
  get_by_email, get_by_phone,
}
use fleet_flow.CustomerRepository.Index.{IsIndex, is_filled, some_injective, indexed}
use fleet_flow.CustomerRepository.Valid.{
  IsValid, SameIdentity, IsFresh, empty-IsValid, add-IsValid, create-IsValid, remove-IsValid,
  IsValid-ext,
}

-- A repository and the customer objects after any sequence of operations: customers are created
-- with a new object, added or removed, and objects change but for their ids and contacts.
pub data Reachable : Objects → CustomerRepository → Type 0 where
  start : (cs : Objects) → Reachable cs empty
  created :
      {cs ds : Objects} {r r' : CustomerRepository}
      → Reachable cs r
      → (ref : CustomerRef) (contact : ContactInfo) (occurred_at : Time) → IsFresh ref r
      → create cs ref contact occurred_at r ≡ ok (ds, r')
      → Reachable ds r'
  added :
      {cs : Objects} {r r' : CustomerRepository}
      → Reachable cs r
      → (ref : CustomerRef) → add cs ref r ≡ ok r'
      → Reachable cs r'
  removed :
      {cs : Objects} {r : CustomerRepository}
      → Reachable cs r
      → (id : ℕ) → Reachable cs (remove cs id r)
  edited :
      {cs ds : Objects} {r : CustomerRepository}
      → Reachable cs r
      → ((ref : CustomerRef) → SameIdentity (cs ref) (ds ref))
      → Reachable ds r

-- After any sequence of operations the stored ids are those of their customers and below the next
-- one, and the indexes have exactly the stored customers with an email or a phone number.
pub Reachable-IsValid : (cs : Objects) (r : CustomerRepository) → Reachable cs r → IsValid cs r
Reachable-IsValid cs r (start _) = empty-IsValid cs
Reachable-IsValid cs r (created before ref contact occurred_at fresh e) =
    create-IsValid _ ref contact occurred_at _ (Reachable-IsValid _ _ before) fresh e
Reachable-IsValid cs r (added before ref e) = add-IsValid cs ref _ (Reachable-IsValid _ _ before) e
Reachable-IsValid cs r (removed before id) = remove-IsValid cs id _ (Reachable-IsValid _ _ before)
Reachable-IsValid cs r (edited before same) =
    IsValid-ext _ cs r (λ i ref e. same ref) (Reachable-IsValid _ _ before)

-- What a search among the stored customers by a text of theirs may return: the only one that has
-- it, or none when none has it.
pub record Searches (key : CustomerRef → Text) (r : CustomerRepository) (k : Text)
    (o : Option CustomerRef) : Type 0 where
  pub sound :
      (ref : CustomerRef) → o ≡ some ref → (i : ℕ) × (get_by_id i r ≡ some ref) × (key ref ≡ k)
  pub complete : (i : ℕ) (ref : CustomerRef) → get_by_id i r ≡ some ref → key ref ≡ k → o ≡ some ref

follow-Searches :
    (key : CustomerRef → Text) (r : CustomerRepository) (index : List (Text × ℕ)) (k : Text)
    → IsIndex key r.customers_by_id index
    → is_filled k ≡ true
    → (o : Option CustomerRef) × (follow r (indexed index k) ≡ ok o) × Searches key r k o
follow-Searches key r index k h filled = elim (Option-cases (indexed index k)) [
  | inl absent ↦ (
    none,
    ap (follow r) absent,
    record {
      sound = λ ref e. cc e;
      complete = λ i ref st same. cc (
          sym absent
          ∙ ap (indexed index) (sym same)
          ∙ h.kept i ref st (ap is_filled same ∙ filled));
    },
  )
  | inr (i, here) ↦
      let (ref, st, same, f) = h.found k i here in
      (
        some ref,
        ap (follow r) here ∙ ap (λ o. or_raise o key_error >>= λ x. ok (some x)) st,
        record {
          sound = λ other e. (i, st ∙ e, ap key (sym (some_injective e)) ∙ same);
          complete = λ j other sj equal.
              let mine = h.kept j other sj (ap is_filled equal ∙ filled) in
              let own = some_injective (sym here ∙ ap (indexed index) (sym equal) ∙ mine) in
              sym st ∙ ap (λ n. get_by_id n r) own ∙ sj;
        },
      )
]

-- After any sequence of operations, a lookup by an email or by a phone number that is not empty
-- raises nothing and returns what a search of the stored customers for that text does: the only one
-- that has it, or none when none has it.
pub lookups_search :
    (cs : Objects) (r : CustomerRepository) (k : Text)
    → Reachable cs r
    → is_filled k ≡ true
    → ((o : Option CustomerRef) × (get_by_email k r ≡ ok o) × Searches (email cs) r k o)
      × ((o : Option CustomerRef) × (get_by_phone k r ≡ ok o) × Searches (phone_number cs) r k o)
unfolding get_by_email get_by_phone
lookups_search cs r k reached filled =
    let valid = Reachable-IsValid cs r reached in
    (
      follow-Searches (email cs) r r.id_by_email k valid.emails filled,
      follow-Searches (phone_number cs) r r.id_by_phone k valid.phones filled,
    )
