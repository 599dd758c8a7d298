-- ===== src/Path.antt =====
-- domain/value_objects/route_path.py: the ordered, distinct and supported stops of a route.
pub mod Valid
pub mod Order
use fleet_flow.Base.{
  ℕ, Bool, true, false, ◌&&◌, List, [], ◌∷◌, Option, none, some, ltb, leb, ◌==◌, length, get_last,
  contains, distinct_count, index_of,
}
use fleet_flow.Result.{Result, ok, err, domain_validation, ◌>>=◌, ◌>>◌, require}
use fleet_flow.Location.{LocationCode, Raw, location_code}
use fleet_flow.Map.{get_locations}

pub record RoutePath : Type 0 where
  pub locations : List LocationCode

all_supported : List LocationCode → Bool
all_supported [] = true
all_supported (x ∷ xs) = contains x get_locations && all_supported xs

-- `RoutePath(locations)`: the checks of `__post_init__`. Its argument is a tuple of `LocationCode`
-- by its type, and `_pos_index` is `index_of locations`.
unfoldable pub route_path : List LocationCode → Result RoutePath
unfolding all_supported
route_path locations = do
  require (leb 2 (length locations)) domain_validation
  require (all_supported locations) domain_validation
  require (distinct_count locations == length locations) domain_validation
  ok (record { locations = locations })

unfoldable pub normalise_all : List Raw → Result (List LocationCode)
normalise_all [] = ok []
normalise_all (r ∷ rs) = do ok ((← location_code r) ∷ (← normalise_all rs))

-- `RoutePath.create`
unfoldable pub create : List Raw → Result RoutePath
unfolding normalise_all
create raws = do locations ← normalise_all raws; route_path locations

-- `locations[0]` and `locations[-1]`; a path is never empty, so the default is never taken.
abbrev head_or : LocationCode → List LocationCode → LocationCode
head_or d [] = d
head_or d (x ∷ xs) = x

unfoldable pub start : RoutePath → LocationCode
start p = head_or [] p.locations

unfoldable pub end : RoutePath → LocationCode
end p = get_last [] p.locations

abbrev pub in_order : Option ℕ → Option ℕ → Bool
in_order (some i) (some j) = ltb i j
in_order _ _ = false

unfoldable pub includes_in_order : RoutePath → Raw → Raw → Result Bool
unfolding index_of
includes_in_order p first last = do
  start_code ← location_code first
  end_code ← location_code last
  ok (in_order (index_of p.locations start_code) (index_of p.locations end_code))
