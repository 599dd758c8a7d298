-- ===== src/CustomerService/Matches.antt =====
-- The customer that is found has what was given.
use fleet_flow.Base.{
  Bool, true, false, not, ◌&&◌, ◌||◌, ◌≡◌, refl, sym, ap, ◌∙◌, ◌⊎◌, inl, inr, List, [], ◌∷◌, Option,
  none, some, if◌then◌else◌, Text, text_eq_iff,
}
use mathlib.Core.Path.{subst}
use fleet_flow.Result.{Result, ok, conflict, ok_injective, >>-require, ◌>>=◌, >>=-eq-ok}
use fleet_flow.Location.{strip}
use fleet_flow.Contact.{lower, is_empty}
use fleet_flow.World.{CustomerRef}
use fleet_flow.CustomerRepository.{Objects, email, phone_number}
use fleet_flow.CustomerRepository.Index.{some_injective}
use fleet_flow.CustomerService.{
  CustomerDirectory, same_name, digits_of, matched, resolve_email_and_phone, without_contact, only,
  resolve_name_only, resolve, if_given, find_cleaned, find_existing_customer,
}

-- The name agrees, if one was given, and so does the email or the phone number, or the customer has
-- neither of them and none was given.
pub record Matches (cs : Objects) (name mail phone : Text) (ref : CustomerRef) : Type 0 where
  pub named : (is_empty name || same_name name (cs ref).contact.name) ≡ true
  pub reached :
      ((is_empty mail ≡ false) × (email cs ref ≡ mail))
      ⊎ ((is_empty phone ≡ false) × (phone_number cs ref ≡ phone))
      ⊎ ((mail ≡ []) × (phone ≡ []) × (email cs ref ≡ []) × (phone_number cs ref ≡ []))

matched-eq-ok :
    (cs : Objects) (name : Text) (a ref : CustomerRef)
    → matched cs name a ≡ ok (some ref)
    → (a ≡ ref) × ((is_empty name || same_name name (cs ref).contact.name) ≡ true)
unfolding matched
matched-eq-ok cs name a ref h =
    let (same, e) =
      >>-require (is_empty name || same_name name (cs a).contact.name) conflict (ok (some a)) h in
    let equal = some_injective (ok_injective e) in
    (equal, subst (λ x. (is_empty name || same_name name (cs x).contact.name) ≡ true) equal same)

is_empty-eq-true : (s : Text) → is_empty s ≡ true → s ≡ []
is_empty-eq-true [] h = refl
is_empty-eq-true (c ∷ s) h = cc

same_name_sym : (a b : Text) → same_name a b ≡ true → same_name b a ≡ true
same_name_sym a b h = (text_eq_iff _ _).1 (sym ((text_eq_iff _ _).0 h))

or_right : (a b : Bool) → b ≡ true → (a || b) ≡ true
or_right true b h = refl
or_right false b h = h

otherwise :
    (b : Bool) (rest : Result (Option CustomerRef)) {ref : CustomerRef}
    → (if b then ok none else rest) ≡ ok (some ref)
    → (b ≡ false) × (rest ≡ ok (some ref))
otherwise true rest h = cc
otherwise false rest h = (refl, h)

all_false : (a b c : Bool) → (not a || not b || c) ≡ false → (a ≡ true) × (b ≡ true)
all_false true true c h = (refl, refl)
all_false true false c h = cc
all_false false b c h = cc

both : (a b : Bool) → (a && b) ≡ true → (a ≡ true) × (b ≡ true)
both true b h = (refl, h)
both false b h = cc

module _ (cs : Objects) where
  only-without_contact :
      (refs : List CustomerRef) (ref : CustomerRef)
      → only cs refs (without_contact cs refs) ≡ some ref
      → (refs ≡ ref ∷ []) × (email cs ref ≡ []) × (phone_number cs ref ≡ [])
  only-without_contact [] ref h = cc
  only-without_contact (c ∷ []) ref h =
      go (is_empty (email cs c) && is_empty (phone_number cs c)) refl h
    where
      go :
          (b : Bool)
          → (is_empty (email cs c) && is_empty (phone_number cs c)) ≡ b
          → only cs (c ∷ []) (if b then c ∷ [] else []) ≡ some ref
          → (c ∷ [] ≡ ref ∷ []) × (email cs ref ≡ []) × (phone_number cs ref ≡ [])
      go true e k =
          let same = some_injective k in
          let (no_mail, no_phone) = both (is_empty (email cs c)) (is_empty (phone_number cs c)) e in
          (
            ap (λ x. x ∷ []) same,
            ap (email cs) (sym same) ∙ is_empty-eq-true _ no_mail,
            ap (phone_number cs) (sym same) ∙ is_empty-eq-true _ no_phone,
          )
      go false e k = cc
  only-without_contact (c ∷ d ∷ refs) ref h = cc

  module _ (d : CustomerDirectory cs) (name mail phone : Text) (ref : CustomerRef) where
    resolve_name_only-Matches :
        resolve_name_only cs d name mail phone ≡ ok (some ref) → Matches cs name mail phone ref
    unfolding resolve_name_only
    resolve_name_only-Matches h =
        let pick : List CustomerRef → Result (Option CustomerRef) =
          λ refs. ok (only cs refs (without_contact cs refs)) in
        let (none_given, rest) =
          otherwise (not (is_empty mail) || not (is_empty phone) || is_empty name) _ h in
        let (no_mail, no_phone) = all_false _ _ _ none_given in
        let (refs, listed, picked) = >>=-eq-ok (d.list_by_name name) pick rest in
        let (one, bare_mail, bare_phone) = only-without_contact refs ref (ok_injective picked) in
        let sound = d.name_sound name (ref ∷ []) (listed ∙ ap ok one) in
        record {
          named = or_right (is_empty name) _ (same_name_sym _ _ sound.0);
          reached = inr (
              inr (
                is_empty-eq-true mail no_mail,
                is_empty-eq-true phone no_phone,
                bare_mail,
                bare_phone,
              ));
        }

    by_mail :
        (a : CustomerRef)
        → is_empty mail ≡ false
        → email cs a ≡ mail
        → matched cs name a ≡ ok (some ref)
        → Matches cs name mail phone ref
    by_mail a given same h =
        let (equal, named) = matched-eq-ok cs name a ref h in
        record { named = named; reached = inl (given, ap (email cs) (sym equal) ∙ same) }

    by_number :
        (a : CustomerRef)
        → is_empty phone ≡ false
        → phone_number cs a ≡ phone
        → matched cs name a ≡ ok (some ref)
        → Matches cs name mail phone ref
    by_number a given same h =
        let (equal, named) = matched-eq-ok cs name a ref h in
        record {
          named = named;
          reached = inr (inl (given, ap (phone_number cs) (sym equal) ∙ same));
        }

    resolve-Matches :
        (b c : Bool) (x y : Option CustomerRef)
        → is_empty mail ≡ b
        → is_empty phone ≡ c
        → ((a : CustomerRef) → x ≡ some a → email cs a ≡ mail)
        → ((a : CustomerRef) → y ≡ some a → phone_number cs a ≡ phone)
        → resolve cs d b c name mail phone x y ≡ ok (some ref)
        → Matches cs name mail phone ref
    unfolding resolve_email_and_phone
    resolve-Matches false false (some a) (some b) e f g k h =
        let (same, rest) = >>-require _ conflict (matched cs name a) h in
        by_mail a e (g a refl) rest
    resolve-Matches false false (some a) none e f g k h = by_mail a e (g a refl) h
    resolve-Matches false false none (some b) e f g k h = by_number b f (k b refl) h
    resolve-Matches false false none none e f g k h = cc
    resolve-Matches false true (some a) y e f g k h = by_mail a e (g a refl) h
    resolve-Matches false true none y e f g k h = resolve_name_only-Matches h
    resolve-Matches true false x (some b) e f g k h = by_number b f (k b refl) h
    resolve-Matches true false x none e f g k h = resolve_name_only-Matches h
    resolve-Matches true true x y e f g k h = resolve_name_only-Matches h

    find_cleaned-Matches :
        find_cleaned cs d name mail phone ≡ ok (some ref) → Matches cs name mail phone ref
    find_cleaned-Matches h =
        let last : Option CustomerRef → Option CustomerRef → Result (Option CustomerRef) =
          λ x y. resolve cs d (is_empty mail) (is_empty phone) name mail phone x y in
        let (x, mailed, h1) =
          >>=-eq-ok (if_given cs d mail (d.get_by_email mail))
            (λ x. if_given cs d phone (d.get_by_phone phone) >>= last x) h in
        let (y, called, h2) = >>=-eq-ok (if_given cs d phone (d.get_by_phone phone)) (last x) h1 in
        resolve-Matches (is_empty mail) (is_empty phone) x y refl refl
          (λ a e. d.email_sound mail a (given mail (d.get_by_email mail) a (mailed ∙ ap ok e)))
          (λ a e. d.phone_sound phone a (given phone (d.get_by_phone phone) a (called ∙ ap ok e)))
          h2
      where
        given :
            (k : Text) (o : Result (Option CustomerRef)) (a : CustomerRef)
            → if_given cs d k o ≡ ok (some a)
            → o ≡ ok (some a)
        given [] o a g = cc
        given (c ∷ s) o a g = g

-- Whatever customer is returned has the given name, if one is given, and has the given email or
-- the given phone number; if neither is given, it has neither. Spaces and case do not count.
pub find_existing_customer-Matches :
    (cs : Objects) (d : CustomerDirectory cs) (name mail phone : Text) (ref : CustomerRef)
    → find_existing_customer cs d name mail phone ≡ ok (some ref)
    → Matches cs (strip name) (lower (strip mail)) (digits_of phone) ref
unfolding find_existing_customer
find_existing_customer-Matches cs d name mail phone ref h =
    find_cleaned-Matches cs d (strip name) (lower (strip mail)) (digits_of phone) ref h
