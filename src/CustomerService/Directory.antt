-- ===== src/CustomerService/Directory.antt =====
-- The in-memory repository is a directory of customers, after any sequence of operations.
use fleet_flow.Base.{
  ℕ, Bool, true, false, ◌≡◌, refl, sym, ap, ◌∙◌, List, [], ◌∷◌, Option, none, some, if◌then◌else◌,
  Text, All,
}
use mathlib.Core.Path.{subst}
use fleet_flow.Result.{Result, ok, key_error, or_raise, ok_injective, ◌>>=◌, >>=-eq-ok}
use fleet_flow.World.{CustomerRef}
use fleet_flow.CustomerRepository.{
  CustomerRepository, Objects, email, phone_number, named, follow, get_by_email, get_by_phone,
  list_all, list_by_name,
}
use fleet_flow.CustomerRepository.Index.{IsIndex, indexed, some_injective}
use fleet_flow.CustomerRepository.Lookup.{Reachable, Reachable-IsValid}
use fleet_flow.CustomerService.{CustomerDirectory, same_name}

pub follow-key :
    (key : CustomerRef → Text) (r : CustomerRepository) (index : List (Text × ℕ)) (k : Text)
    (ref : CustomerRef)
    → IsIndex key r.customers_by_id index
    → (o : Option ℕ) → indexed index k ≡ o
    → follow r o ≡ ok (some ref)
    → key ref ≡ k
follow-key key r index k ref h none e f = cc
follow-key key r index k ref h (some i) e f =
    let (other, st, same, filled) = h.found k i e in
    let back = ap (λ o. or_raise o key_error >>= λ x. ok (some x)) (sym st) ∙ f in
    ap key (sym (some_injective (ok_injective back))) ∙ same

named-All :
    (cs : Objects) (k : Text) (refs : List CustomerRef)
    → All (λ ref. same_name (cs ref).contact.name k ≡ true) (named cs k refs)
named-All cs k [] = tt
named-All cs k (ref ∷ refs) = go (same_name (cs ref).contact.name k) refl (named-All cs k refs)
  where
    go :
        (b : Bool)
        → same_name (cs ref).contact.name k ≡ b
        → All (λ ref. same_name (cs ref).contact.name k ≡ true) (named cs k refs)
        → All
            (λ ref. same_name (cs ref).contact.name k ≡ true)
            (if b then ref ∷ named cs k refs else named cs k refs)
    go true e all = (e, all)
    go false e all = all

pub list_by_name-All :
    (cs : Objects) (r : CustomerRepository) (k : Text) (refs : List CustomerRef)
    → list_by_name cs k r ≡ ok refs
    → All (λ ref. same_name (cs ref).contact.name k ≡ true) refs
unfolding list_by_name
list_by_name-All cs r k refs h =
    let pick : List CustomerRef → Result (List CustomerRef) = λ all. ok (named cs k all) in
    let (all, listed, e) = >>=-eq-ok (list_all r) pick h in
    subst (All (λ ref. same_name (cs ref).contact.name k ≡ true)) (ok_injective e)
      (named-All cs k all)

-- `InMemoryCustomerRepository` behind the port
unfoldable pub directory :
    (cs : Objects) (r : CustomerRepository) → Reachable cs r → CustomerDirectory cs
unfolding get_by_email get_by_phone
directory cs r reached = record {
  get_by_email = λ k. get_by_email k r;
  get_by_phone = λ k. get_by_phone k r;
  list_by_name = λ k. list_by_name cs k r;
  email_sound = λ k ref h.
      follow-key (email cs) r r.id_by_email k ref (Reachable-IsValid cs r reached).emails
        (indexed r.id_by_email k) refl h;
  phone_sound = λ k ref h.
      follow-key (phone_number cs) r r.id_by_phone k ref (Reachable-IsValid cs r reached).phones
        (indexed r.id_by_phone k) refl h;
  name_sound = list_by_name-All cs r;
}
