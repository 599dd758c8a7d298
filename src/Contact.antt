-- ===== src/Contact.antt =====
-- domain/value_objects/contact_info.py: the fields of a contact are cleaned whenever one is
-- assigned. `str.lower`, `str.isdigit` and `str.strip` are modelled on ASCII text.
pub mod Cleaned
use fleet_flow.Base.{
  ℕ, ◌+◌, Bool, true, false, not, ◌&&◌, ◌||◌, List, [], ◌∷◌, map, Text, codes, text_eq, ltb, leb,
  ◌==◌, length, if◌then◌else◌,
}
use fleet_flow.Result.{Result, ok, err, domain_validation, require, ◌>>=◌, ◌>>◌}
use fleet_flow.Location.{is_space, strip}

-- A runtime value for a field: `None`, a string, or another value, which may be falsy.
pub data Value : Type 0 where
  absent : Value
  str : Text → Value
  other : (truthy : Bool) → Value

pub record ContactInfo : Type 0 where
  pub name : Text
  pub email : Text
  pub phone_number : Text

unfoldable pub lower_char : ℕ → ℕ
lower_char c = if leb b'A' c && leb c b'Z' then c + 32 else c

unfoldable pub lower : Text → Text
lower s = map lower_char s

-- `if len(v) < 3 ... if len(v) > 30 ...`, for the stripped name
unfoldable pub check_name : Text → Result Text
check_name v = require (not (ltb (length v) 3) && not (ltb 30 (length v))) domain_validation >> ok v

-- `_clean_name`
unfoldable pub clean_name : Value → Result Text
unfolding check_name
clean_name (str v) = check_name (strip v)
clean_name absent = err domain_validation
clean_name (other truthy) = err domain_validation

-- `v.split(c)`
abbrev add_char : ℕ → List Text → List Text
add_char c [] = (c ∷ []) ∷ []
add_char c (p ∷ ps) = (c ∷ p) ∷ ps

unfoldable pub split : ℕ → Text → List Text
split c [] = [] ∷ []
split c (d ∷ s) = let rest = split c s in if d == c then [] ∷ rest else add_char d rest

abbrev starts_with_dot : Text → Bool
starts_with_dot [] = false
starts_with_dot (d ∷ s) = d == b'.'

-- `".." in v`
unfoldable pub has_double_dot : Text → Bool
has_double_dot [] = false
has_double_dot (c ∷ s) = let rest = has_double_dot s in (c == b'.' && starts_with_dot s) || rest

abbrev pub all_of : (ℕ → Bool) → Text → Bool
all_of p [] = true
all_of p (c ∷ s) = p c && all_of p s

abbrev any_of : List Text → (Text → Bool) → Bool
any_of [] p = false
any_of (x ∷ xs) p = p x || any_of xs p

abbrev pub is_empty : Text → Bool
is_empty [] = true
is_empty (c ∷ s) = false

abbrev is_letter_or_digit : ℕ → Bool
is_letter_or_digit c = leb b'a' c && leb c b'z' || leb b'0' c && leb c b'9'

-- `re.fullmatch(r"[a-z0-9-]+", label)`
abbrev is_label : Text → Bool
is_label s = not (is_empty s) && all_of (λ c. is_letter_or_digit c || c == b'-') s

abbrev is_one_of : Text → ℕ → Bool
is_one_of [] c = false
is_one_of (x ∷ xs) c = x == c || is_one_of xs c

-- `re.fullmatch(r"[a-z0-9.!#$%&'*+/=?^_`{|}~-]+", local)`
abbrev is_local : Text → Bool
is_local s =
    not (is_empty s)
    && all_of (λ c. is_letter_or_digit c || is_one_of (codes ".!#$%&'*+/=?^_`{|}~-") c) s

abbrev starts_with_dash : Text → Bool
starts_with_dash [] = false
starts_with_dash (c ∷ s) = c == b'-'

abbrev ends_with_dash : Text → Bool
ends_with_dash [] = false
ends_with_dash (c ∷ []) = c == b'-'
ends_with_dash (c ∷ d ∷ s) = ends_with_dash (d ∷ s)

abbrev bad_label : Text → Bool
bad_label s = not (is_label s) || starts_with_dash s || ends_with_dash s

-- The checks of the two sides of the `@`.
abbrev pub check_sides : Text → List Text → Result (Unit {0})
check_sides v (local ∷ domain ∷ []) = do
  require (not (is_empty local || is_empty domain)) domain_validation
  require (not (has_double_dot v)) domain_validation
  let labels = split b'.' domain
  require (not (ltb (length labels) 2 || any_of labels is_empty)) domain_validation
  require (not (any_of labels bad_label)) domain_validation
  require (is_local local) domain_validation
check_sides v [] = err domain_validation
check_sides v (x ∷ []) = err domain_validation
check_sides v (x ∷ y ∷ z ∷ more) = err domain_validation

-- `if v == "": return ""`, and the checks of a longer address
unfoldable pub check_email : Text → Result Text
unfolding split has_double_dot
check_email [] = ok []
check_email (c ∷ v) = check_sides (c ∷ v) (split b'@' (c ∷ v)) >> ok (c ∷ v)

-- `_clean_email`
unfoldable pub clean_email : Value → Result Text
unfolding check_email lower
clean_email absent = ok []
clean_email (str v) = check_email (lower (strip v))
clean_email (other truthy) = err domain_validation

abbrev pub is_digit : ℕ → Bool
is_digit c = leb b'0' c && leb c b'9'

abbrev pub starts_with_04 : Text → Bool
starts_with_04 [] = false
starts_with_04 (c ∷ []) = false
starts_with_04 (c ∷ d ∷ s) = c == b'0' && d == b'4'

unfoldable pub check_phone : Text → Result Text
check_phone v = do
  require (not (is_empty v) && all_of is_digit v) domain_validation
  require (length v == 10) domain_validation
  require (starts_with_04 v) domain_validation
  ok v

-- `_clean_phone`
unfoldable pub clean_phone : Value → Result Text
unfolding check_phone
clean_phone absent = ok []
clean_phone (str []) = ok []
clean_phone (str (c ∷ v)) = check_phone (strip (c ∷ v))
clean_phone (other false) = ok []
clean_phone (other true) = err domain_validation

-- `ContactInfo(name, email, phone_number)`: each assignment of the generated constructor runs
-- `__setattr__`, and then `__post_init__` cleans the fields once more.
unfoldable pub contact_info : Value → Value → Value → Result ContactInfo
unfolding clean_name clean_email clean_phone
contact_info name email phone = do
  n ← clean_name name
  e ← clean_email email
  p ← clean_phone phone
  n' ← clean_name (str n)
  e' ← clean_email (str e)
  p' ← clean_phone (str p)
  ok (record { name = n'; email = e'; phone_number = p' })

-- `contact.name = value`, and the same for the other fields
unfoldable pub set_name : Value → ContactInfo → Result ContactInfo
set_name v c = clean_name v >>= λ n. ok (record c { name = n })

unfoldable pub set_email : Value → ContactInfo → Result ContactInfo
set_email v c = clean_email v >>= λ e. ok (record c { email = e })

unfoldable pub set_phone_number : Value → ContactInfo → Result ContactInfo
set_phone_number v c = clean_phone v >>= λ p. ok (record c { phone_number = p })
