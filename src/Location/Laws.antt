-- ===== src/Location/Laws.antt =====
-- Normalisation is idempotent, so a canonical code passes through `LocationCode(...)` unchanged.
use fleet_flow.Base.{ℕ, ◌≡◌, refl, sym, ap, ◌∙◌, [], ◌∷◌, Text, arith}
use fleet_flow.Result.{ok}
use fleet_flow.Location.{
  LocationCode, str, is_space, strip, upper_char, upper, normal, not_blank, location_code,
}
use fleet_flow.Location.Strip.{strip-map, strip-strip}

is_space-upper_char : (c : ℕ) → is_space (upper_char c) ≡ is_space c
unfolding is_space upper_char
is_space-upper_char c = ground arith

upper_char-upper_char : (c : ℕ) → upper_char (upper_char c) ≡ upper_char c
unfolding upper_char
upper_char-upper_char c = ground arith

upper-upper : (s : Text) → upper (upper s) ≡ upper s
unfolding upper
upper-upper [] = refl
upper-upper (c ∷ s) = cc (upper_char-upper_char c, upper-upper s)

strip-upper : (s : Text) → strip (upper s) ≡ upper (strip s)
unfolding upper
strip-upper s = strip-map upper_char is_space-upper_char s

pub normal-normal : (s : Text) → normal (normal s) ≡ normal s
unfolding normal
normal-normal s =
    ap upper (strip-upper (strip s)) ∙ upper-upper (strip (strip s)) ∙ ap upper (strip-strip s)

-- A code that `LocationCode` returned.
abbrev pub IsCanonical : LocationCode → Type 0
IsCanonical c = location_code (str c) ≡ ok c

not_blank-eq-ok : (s : Text) {c : LocationCode} → not_blank s ≡ ok c → s ≡ c
not_blank-eq-ok [] h = cc
not_blank-eq-ok (x ∷ s) h = cc

pub normal_of_canonical :
    (s : Text) {c : LocationCode} → location_code (str s) ≡ ok c → normal s ≡ c
unfolding location_code
normal_of_canonical s h = not_blank-eq-ok (normal s) h

-- Normalising is idempotent: what `LocationCode` returns for a string, it returns unchanged when
-- it is given that code again.
pub location_code-IsCanonical :
    (s : Text) (c : LocationCode) → location_code (str s) ≡ ok c → IsCanonical c
unfolding location_code
location_code-IsCanonical s c h =
    let e = normal_of_canonical s h in ap not_blank (ap normal (sym e) ∙ normal-normal s) ∙ h
