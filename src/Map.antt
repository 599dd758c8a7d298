-- ===== src/Map.antt =====
-- domain/services/map.py: the supported cities and the distances between them, in kilometres.
pub mod Table
use fleet_flow.Base.{
  ℕ, Bool, true, false, List, [], ◌∷◌, Option, none, some, if◌then◌else◌, codes, text_eq, contains,
  dict_get,
}
use fleet_flow.Result.{Result, ok, err, entity_not_found, or_raise, ◌>>=◌}
use fleet_flow.Location.{LocationCode, Raw, str, location_code}

abbrev pub syd : LocationCode
syd = codes "SYD"

abbrev pub mel : LocationCode
mel = codes "MEL"

abbrev pub adl : LocationCode
adl = codes "ADL"

abbrev pub asp : LocationCode
asp = codes "ASP"

abbrev pub bri : LocationCode
bri = codes "BRI"

abbrev pub dar : LocationCode
dar = codes "DAR"

abbrev pub per : LocationCode
per = codes "PER"

-- `Map._locations`, and its copy that `Map.get_locations` returns
abbrev pub get_locations : List LocationCode
get_locations = syd ∷ mel ∷ adl ∷ asp ∷ bri ∷ dar ∷ per ∷ []

-- `Map._distances`
abbrev distances : List (LocationCode × List (LocationCode × ℕ))
distances =
    (syd, (mel, 877) ∷ (adl, 1376) ∷ (asp, 2762) ∷ (bri, 909) ∷ (dar, 3935) ∷ (per, 4016) ∷ [])
    ∷ (mel, (syd, 877) ∷ (adl, 725) ∷ (asp, 2255) ∷ (bri, 1765) ∷ (dar, 3752) ∷ (per, 3509) ∷ [])
    ∷ (adl, (syd, 1376) ∷ (mel, 725) ∷ (asp, 1530) ∷ (bri, 1927) ∷ (dar, 3027) ∷ (per, 2785) ∷ [])
    ∷ (asp, (syd, 2762) ∷ (mel, 2255) ∷ (adl, 1530) ∷ (bri, 2993) ∷ (dar, 1497) ∷ (per, 2481) ∷ [])
    ∷ (bri, (syd, 909) ∷ (mel, 1765) ∷ (adl, 1927) ∷ (asp, 2993) ∷ (dar, 3426) ∷ (per, 4311) ∷ [])
    ∷ (dar, (syd, 3935) ∷ (mel, 3752) ∷ (adl, 3027) ∷ (asp, 1497) ∷ (bri, 3426) ∷ (per, 4025) ∷ [])
    ∷ (per, (syd, 4016) ∷ (mel, 3509) ∷ (adl, 2785) ∷ (asp, 2481) ∷ (bri, 4311) ∷ (dar, 4025) ∷ [])
    ∷ []

-- `_distances.get(a, {}).get(b)`
distance_row : LocationCode → LocationCode → Option ℕ
unfolding dict_get
distance_row a b = elim (dict_get distances a) [ some row ↦ dict_get row b | none ↦ none ]

unfoldable pub is_valid_location : Raw → Bool
unfolding location_code contains
is_valid_location code = elim (location_code code) [
  | ok c ↦ contains c get_locations
  | err _ ↦ false
]

-- The part of `get_distance` after both codes are normalised.
known_distance : LocationCode → LocationCode → Result ℕ
unfolding distance_row text_eq
known_distance a b = if text_eq a b then ok 0 else elim (distance_row a b) [
  | some d ↦ ok d
  | none ↦ or_raise (distance_row b a) entity_not_found
]

unfoldable pub get_distance : Raw → Raw → Result ℕ
unfolding known_distance location_code
get_distance a b = do a' ← location_code a; b' ← location_code b; known_distance a' b'
