-- ===== src/Location.antt =====
-- domain/value_objects/location_code.py: the text of a location code is stripped and upper-cased.
-- `str.strip` and `str.upper` are modelled on ASCII text.
pub mod Strip
pub mod Laws
use fleet_flow.Base.{
  ℕ, ◌-◌, Bool, true, false, ◌&&◌, ◌||◌, ◌≡◌, List, [], ◌∷◌, map, Option, none, some, ltb, leb,
  ◌==◌, if◌then◌else◌, Text,
}
use fleet_flow.Result.{Result, ok, err, domain_validation, ◌>>=◌}

abbrev pub LocationCode : Type 0
LocationCode = Text

-- A runtime value: a string, or a value of another type.
pub data Raw : Type 0 where
  str : Text → Raw
  other : Raw

-- The ASCII characters that `str.strip` removes.
unfoldable pub is_space : ℕ → Bool
is_space c = leb 9 c && leb c 13 || leb 28 c && leb c 32

unfoldable pub lstrip : Text → Text
unfolding is_space
lstrip [] = []
lstrip (c ∷ s) = let rest = lstrip s in if is_space c then rest else c ∷ s

abbrev pub cons_stripped : ℕ → Text → Text
cons_stripped c [] = if is_space c then [] else c ∷ []
cons_stripped c (d ∷ s) = c ∷ d ∷ s

unfoldable pub rstrip : Text → Text
unfolding is_space
rstrip [] = []
rstrip (c ∷ s) = cons_stripped c (rstrip s)

unfoldable pub strip : Text → Text
unfolding lstrip rstrip
strip s = rstrip (lstrip s)

pub upper_char : ℕ → ℕ
upper_char c = if leb b'a' c && leb c b'z' then c - 32 else c

pub upper : Text → Text
unfolding upper_char
upper s = map upper_char s

-- `value.strip().upper()`
unfoldable pub normal : Text → Text
unfolding strip upper
normal s = upper (strip s)

-- `if not normalized: raise`
abbrev pub not_blank : Text → Result LocationCode
not_blank [] = err domain_validation
not_blank (c ∷ s) = ok (c ∷ s)

-- `LocationCode(value)`
unfoldable pub location_code : Raw → Result LocationCode
unfolding normal
location_code other = err domain_validation
location_code (str s) = not_blank (normal s)

-- `location_code_or_none(value)`, for a value that is not yet a `LocationCode`
unfoldable pub location_code_or_none : Option Raw → Result (Option LocationCode)
unfolding location_code
location_code_or_none none = ok none
location_code_or_none (some v) = location_code v >>= λ c. ok (some c)
