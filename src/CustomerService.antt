-- ===== src/CustomerService.antt =====
-- application/services/customer_service.py: the customer that some contact details point to. The
-- repository is a port: an interface, which the in-memory repository implements.
pub mod Matches
pub mod Directory
use fleet_flow.Base.{
  ℕ, Bool, true, false, not, ◌&&◌, ◌||◌, List, [], ◌∷◌, Option, none, some, ◌==◌, if◌then◌else◌,
  Text, text_eq, All, ◌≡◌,
}
use fleet_flow.Result.{Result, ok, err, conflict, require, ◌>>=◌, ◌>>◌}
use fleet_flow.Location.{strip}
use fleet_flow.Contact.{ContactInfo, Value, contact_info, lower, is_empty, is_digit}
use fleet_flow.World.{CustomerRef}
use fleet_flow.CustomerRepository.{Objects, email, phone_number, folded}

-- `_same_name`
abbrev pub same_name : Text → Text → Bool
same_name a b = text_eq (folded a) (folded b)

-- `CustomerRepositoryPort`: its look-ups, and what they promise.
pub record CustomerDirectory (cs : Objects) : Type 0 where
  pub get_by_email : Text → Result (Option CustomerRef)
  pub get_by_phone : Text → Result (Option CustomerRef)
  pub list_by_name : Text → Result (List CustomerRef)
  pub email_sound :
      (k : Text) (ref : CustomerRef) → get_by_email k ≡ ok (some ref) → email cs ref ≡ k
  pub phone_sound :
      (k : Text) (ref : CustomerRef) → get_by_phone k ≡ ok (some ref) → phone_number cs ref ≡ k
  pub name_sound :
      (k : Text) (refs : List CustomerRef)
      → list_by_name k ≡ ok refs
      → All (λ ref. same_name (cs ref).contact.name k ≡ true) refs

-- `"".join(ch for ch in phone if ch.isdigit())`
unfoldable pub digits_of : Text → Text
digits_of [] = []
digits_of (c ∷ s) = let rest = digits_of s in if is_digit c then c ∷ rest else rest

module _ (cs : Objects) where
  -- `if name and not self._same_name(name, customer.name): raise ConflictError(...)`, and the customer
  unfoldable pub matched : Text → CustomerRef → Result (Option CustomerRef)
  matched name ref = do
    require (is_empty name || same_name name (cs ref).contact.name) conflict
    ok (some ref)

  -- `_resolve_email_and_phone`
  unfoldable pub resolve_email_and_phone :
      Text → Option CustomerRef → Option CustomerRef → Result (Option CustomerRef)
  unfolding matched
  resolve_email_and_phone name (some a) (some b) = do
    require ((cs a).customer_id == (cs b).customer_id) conflict
    matched name a
  resolve_email_and_phone name (some a) none = matched name a
  resolve_email_and_phone name none (some b) = matched name b
  resolve_email_and_phone name none none = ok none

  abbrev pub without_contact : List CustomerRef → List CustomerRef
  without_contact [] = []
  without_contact (ref ∷ refs) =
      let rest = without_contact refs in
      if is_empty (email cs ref) && is_empty (phone_number cs ref) then ref ∷ rest else rest

  -- `if len(candidates) == 1 and len(name_only) == 1`
  abbrev pub only : List CustomerRef → List CustomerRef → Option CustomerRef
  only (c ∷ []) (ref ∷ []) = some ref
  only candidates name_only = none

  module _ (d : CustomerDirectory cs) where
    -- `_resolve_name_only`
    unfoldable pub resolve_name_only : Text → Text → Text → Result (Option CustomerRef)
    resolve_name_only name mail phone =
        if not (is_empty mail) || not (is_empty phone) || is_empty name
        then ok none
        else (d.list_by_name name >>= λ refs. ok (only refs (without_contact refs)))

    abbrev pub found_or :
        Text → Option CustomerRef → Result (Option CustomerRef) → Result (Option CustomerRef)
    found_or name none rest = rest
    found_or name (some ref) rest = matched name ref

    -- The branches on `email` and `phone`, empty or not.
    abbrev pub resolve :
        Bool
        → Bool
        → Text
        → Text
        → Text
        → Option CustomerRef
        → Option CustomerRef
        → Result (Option CustomerRef)
    resolve false false name mail phone by_email by_phone =
        resolve_email_and_phone name by_email by_phone
    resolve false true name mail phone by_email by_phone =
        found_or name by_email (resolve_name_only name mail phone)
    resolve true false name mail phone by_email by_phone =
        found_or name by_phone (resolve_name_only name mail phone)
    resolve true true name mail phone by_email by_phone = resolve_name_only name mail phone

    -- `self._customers.get_by_email(email) if email else None`
    abbrev pub if_given : Text → Result (Option CustomerRef) → Result (Option CustomerRef)
    if_given [] found = ok none
    if_given (c ∷ s) found = found

    abbrev pub find_cleaned : Text → Text → Text → Result (Option CustomerRef)
    find_cleaned name mail phone = do
      by_email ← if_given mail (d.get_by_email mail)
      by_phone ← if_given phone (d.get_by_phone phone)
      resolve (is_empty mail) (is_empty phone) name mail phone by_email by_phone

    unfoldable pub find_existing_customer : Text → Text → Text → Result (Option CustomerRef)
    unfolding resolve_email_and_phone resolve_name_only digits_of
    find_existing_customer name mail phone =
        find_cleaned (strip name) (lower (strip mail)) (digits_of phone)

-- `create`, over what the repository does with a contact
unfoldable pub create : {A : Type 0} → (ContactInfo → Result A) → Value → Value → Value → Result A
unfolding contact_info
create store name mail phone = contact_info name mail phone >>= store
