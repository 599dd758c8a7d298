-- ===== src/Path/Valid.antt =====
-- Exactly which lists of locations are accepted as a path.
use fleet_flow.Base.{
  ◌≤◌, ◌≡◌, refl, true, List, [], ◌∷◌, All, arith, length, contains, Nodup, Nodup-of_count,
  count_of_Nodup, ◌↔◌,
}
use fleet_flow.Result.{ok}
use fleet_flow.Location.{LocationCode}
use fleet_flow.Map.{get_locations}
use fleet_flow.Path.{RoutePath, route_path, all_supported}

-- A list of stops that a route can have.
pub record IsPath (locations : List LocationCode) : Type 0 where
  pub two_stops : 2 ≤ length locations
  pub supported : All (λ x. contains x get_locations ≡ true) locations
  pub distinct : Nodup locations

all_supported-All :
    (xs : List LocationCode)
    → all_supported xs ≡ true
    → All (λ x. contains x get_locations ≡ true) xs
unfolding all_supported
all_supported-All [] h = tt
all_supported-All (x ∷ xs) h = ground (arith, all_supported-All xs)

All-all_supported :
    (xs : List LocationCode)
    → All (λ x. contains x get_locations ≡ true) xs
    → all_supported xs ≡ true
unfolding all_supported
All-all_supported [] h = refl
All-all_supported (x ∷ xs) h = ground (arith, All-all_supported xs h.1)

route_path_sound :
    (locations : List LocationCode) {p : RoutePath} → route_path locations ≡ ok p → IsPath locations
unfolding route_path
route_path_sound locations h = record {
  two_stops = ground arith;
  supported = all_supported-All locations (ground arith);
  distinct = Nodup-of_count locations (ground arith);
}

route_path_complete :
    (locations : List LocationCode)
    → IsPath locations
    → route_path locations ≡ ok (record { locations = locations })
unfolding route_path
route_path_complete locations v =
    ground (arith, All-all_supported locations v.supported, count_of_Nodup locations v.distinct)

route_path_keeps :
    (locations : List LocationCode) {p : RoutePath}
    → route_path locations ≡ ok p
    → p.locations ≡ locations
unfolding route_path
route_path_keeps locations h = ground arith

-- A path is accepted exactly when it has two stops or more, all of them supported and none twice;
-- the path then has the stops that were given.
pub route_path_iff :
    (locations : List LocationCode)
    → ((p : RoutePath) × (route_path locations ≡ ok p) × (p.locations ≡ locations))
      ↔ IsPath locations
route_path_iff locations = (
  λ (p, h, e). route_path_sound locations h,
  λ v. (record { locations = locations }, route_path_complete locations v, refl),
)
