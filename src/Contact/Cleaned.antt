-- ===== src/Contact/Cleaned.antt =====
-- Cleaning a field twice is cleaning it once, and what a cleaned field looks like.
use fleet_flow.Base.{
  not, ◌&&◌, ℕ, ◌≤◌, true, false, ◌≡◌, refl, sym, ap, ◌∙◌, ◌⊎◌, inl, inr, [], ◌∷◌, Text, ◌==◌,
  length, arith,
}
use mathlib.Core.Path.{subst}
use fleet_flow.Result.{
  Result, ok, domain_validation, >>-require, ok_injective, ◌>>=◌, >>=-eq-ok, >>=-ext,
}
use fleet_flow.Location.{is_space, strip}
use fleet_flow.Location.Strip.{strip-map, strip-strip, strip_nil}
use fleet_flow.Contact.{
  Value, absent, str, other, ContactInfo, lower_char, lower, check_name, clean_name, check_sides,
  split, is_empty, all_of, is_digit, starts_with_04, check_email, clean_email, check_phone,
  clean_phone, contact_info,
}

-- The shape of a stored contact.
pub record IsClean (c : ContactInfo) : Type 0 where
  pub name_shortest : 3 ≤ length c.name
  pub name_longest : length c.name ≤ 30
  pub name_stripped : strip c.name ≡ c.name
  pub email_canonical : clean_email (str c.email) ≡ ok c.email
  pub phone_length : (c.phone_number ≡ []) ⊎ (length c.phone_number ≡ 10)

check_name-eq-ok :
    (v : Text) {n : Text} → check_name v ≡ ok n → (v ≡ n) × (3 ≤ length v) × (length v ≤ 30)
unfolding check_name
check_name-eq-ok v h =
    let (holds, e) = >>-require _ domain_validation (ok v) h in
    (ok_injective e, ground (arith, holds), ground (arith, holds))

clean_name-eq-ok :
    (v : Value) {n : Text} → clean_name v ≡ ok n → (check_name n ≡ ok n) × (strip n ≡ n)
unfolding clean_name
clean_name-eq-ok absent h = cc
clean_name-eq-ok (other truthy) h = cc
clean_name-eq-ok (str v) h =
    let (e, low, high) = check_name-eq-ok (strip v) h in
    (ap check_name (sym e) ∙ h, ap strip (sym e) ∙ strip-strip v ∙ e)

clean_name-again : (v : Value) {n : Text} → clean_name v ≡ ok n → clean_name (str n) ≡ ok n
unfolding clean_name
clean_name-again v h =
    let (checked, stripped) = clean_name-eq-ok v h in ap check_name stripped ∙ checked

is_space-lower_char : (c : ℕ) → is_space (lower_char c) ≡ is_space c
unfolding is_space lower_char
is_space-lower_char c = ground arith

lower_char-lower_char : (c : ℕ) → lower_char (lower_char c) ≡ lower_char c
unfolding lower_char
lower_char-lower_char c = ground arith

lower-lower : (s : Text) → lower (lower s) ≡ lower s
unfolding lower
lower-lower [] = refl
lower-lower (c ∷ s) = cc (lower_char-lower_char c, lower-lower s)

lower-strip-again : (s : Text) → lower (strip (lower (strip s))) ≡ lower (strip s)
unfolding lower
lower-strip-again s =
    ap lower (strip-map lower_char is_space-lower_char (strip s) ∙ ap lower (strip-strip s))
    ∙ lower-lower (strip s)

check_email-eq-ok : (v : Text) {e : Text} → check_email v ≡ ok e → v ≡ e
unfolding check_email
check_email-eq-ok [] h = ok_injective h
check_email-eq-ok (c ∷ v) h =
    let last : Unit {0} → Result Text = λ _. ok (c ∷ v) in
    let (u, checked, e) = >>=-eq-ok (check_sides (c ∷ v) (split b'@' (c ∷ v))) last h in
    ok_injective e

clean_email-again : (v : Value) {e : Text} → clean_email v ≡ ok e → clean_email (str e) ≡ ok e
unfolding clean_email lower check_email
clean_email-again absent h =
    subst (λ e. clean_email (str e) ≡ ok e) (ok_injective h)
      (ap (λ s. check_email (lower s)) strip_nil)
clean_email-again (other truthy) h = cc
clean_email-again (str v) h =
    let e = check_email-eq-ok (lower (strip v)) h in
    ap check_email (ap (λ s. lower (strip s)) (sym e) ∙ lower-strip-again v) ∙ h

check_phone-eq-ok : (v : Text) {p : Text} → check_phone v ≡ ok p → (v ≡ p) × (length v ≡ 10)
unfolding check_phone
check_phone-eq-ok v h =
    let (digits, rest) = >>-require (not (is_empty v) && all_of is_digit v) domain_validation _ h in
    let (ten, rest') = >>-require (length v == 10) domain_validation _ rest in
    let (prefix, e) = >>-require (starts_with_04 v) domain_validation (ok v) rest' in
    (ok_injective e, ground (arith, ten))

no_phone : {p : Text} → ok [] ≡ ok p → (clean_phone (str p) ≡ ok p) × ((p ≡ []) ⊎ (length p ≡ 10))
unfolding clean_phone
no_phone h =
    subst (λ p. (clean_phone (str p) ≡ ok p) × ((p ≡ []) ⊎ (length p ≡ 10))) (ok_injective h)
      (refl, inl refl)

kept :
    (v : Text) {p : Text}
    → check_phone v ≡ ok p
    → strip v ≡ v
    → (clean_phone (str p) ≡ ok p) × ((p ≡ []) ⊎ (length p ≡ 10))
unfolding clean_phone
kept [] h stripped = let (e, ten) = check_phone-eq-ok [] h in cc ten
kept (c ∷ v) h stripped =
    let (e, ten) = check_phone-eq-ok (c ∷ v) h in
    subst (λ p. (clean_phone (str p) ≡ ok p) × ((p ≡ []) ⊎ (length p ≡ 10))) e
      (ap check_phone stripped ∙ h ∙ ap ok (sym e), inr ten)

-- A phone number is left out or has its ten digits.
clean_phone-again :
    (v : Value) {p : Text}
    → clean_phone v ≡ ok p
    → (clean_phone (str p) ≡ ok p) × ((p ≡ []) ⊎ (length p ≡ 10))
unfolding clean_phone
clean_phone-again absent h = no_phone h
clean_phone-again (str []) h = no_phone h
clean_phone-again (str (c ∷ v)) h = kept (strip (c ∷ v)) h (strip-strip (c ∷ v))
clean_phone-again (other false) h = no_phone h
clean_phone-again (other true) h = cc

-- The second cleaning that `__post_init__` does is that of clean fields: a contact is accepted
-- exactly when each field is, with the fields of the first cleaning.
pub contact_info_once :
    (name email phone : Value)
    → contact_info name email phone ≡ (
        clean_name name >>= λ n. clean_email email >>= λ e.
        clean_phone phone >>= λ p. ok (record { name = n; email = e; phone_number = p }))
unfolding contact_info
contact_info_once name email phone = >>=-ext (clean_name name) _ _ (λ n named.
    >>=-ext (clean_email email) _ _ (λ e mailed. >>=-ext (clean_phone phone) _ _ (λ p called. rw (
      clean_name-again name named,
      clean_email-again email mailed,
      (clean_phone-again phone called).0,
    ))))

-- Every contact that the constructor returns has a name of 3 to 30 characters without spaces at its
-- ends, an email that cleaning keeps, and no phone number or one of ten characters.
pub contact_info-IsClean :
    (name email phone : Value) (c : ContactInfo) → contact_info name email phone ≡ ok c → IsClean c
contact_info-IsClean name email phone c h =
    let build : Text → Text → Text → Result ContactInfo =
      λ n e p. ok (record { name = n; email = e; phone_number = p }) in
    let (n, named, rest) =
      >>=-eq-ok (clean_name name) (λ n. clean_email email >>= λ e. clean_phone phone >>= build n e)
        (sym (contact_info_once name email phone) ∙ h) in
    let (e, mailed, rest') =
      >>=-eq-ok (clean_email email) (λ e. clean_phone phone >>= build n e) rest in
    let (p, called, made) = >>=-eq-ok (clean_phone phone) (build n e) rest' in
    let (checked, stripped) = clean_name-eq-ok name named in
    let (same, low, high) = check_name-eq-ok n checked in
    subst IsClean (ok_injective made) (record {
      name_shortest = low;
      name_longest = high;
      name_stripped = stripped;
      email_canonical = clean_email-again email mailed;
      phone_length = (clean_phone-again phone called).1;
    })
