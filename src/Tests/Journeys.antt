-- ===== src/Tests/Journeys.antt =====
-- Locations, paths, schedules and loads at concrete inputs.
use fleet_flow.Base.{
  text_eq, text_eq_iff, distinct_count, ℕ, ◌≡◌, ◌≢◌, ◌<◌, ◌≤◌, ◌+◌, refl, List, [], ◌∷◌, none, true,
  arith, codes, contains, length,
}
use fleet_flow.Result.{ok, err, domain_validation, entity_not_found}
use fleet_flow.Location.{LocationCode, str, location_code}
use fleet_flow.Location.Laws.{IsCanonical, location_code-IsCanonical}
use fleet_flow.Map.{syd, mel, adl, per, get_distance}
use fleet_flow.Map.Table.{get_distance_known}
use fleet_flow.Path.{RoutePath, route_path, includes_in_order}
use fleet_flow.Path.Valid.{IsPath, route_path_iff}
use fleet_flow.Path.Order.{includes_in_order_iff}
use fleet_flow.Schedule.{
  RouteSchedule, max_time, route_schedule, eta_final, position_at, stop_locations,
}
use fleet_flow.Schedule.Valid.{IsSchedule, IsValid, route_schedule_iff}
use fleet_flow.Schedule.Position.{position_by_stops, position_at-eq-position_by_stops}
use fleet_flow.Scheduler.{default_speed_kmph, travel_time, build}
use fleet_flow.Scheduler.Total.{journey_time, build_total, build_sound}
use fleet_flow.Load.{PackageLoad, with_extra, maximum_segment_load}
use fleet_flow.Load.Bounds.{segment_load, maximum_segment_load_bounds}

location_code_trims : location_code (str (codes " syd ")) ≡ ok syd
unfolding location_code
location_code_trims = refl

location_code-IsCanonical_example : IsCanonical syd
unfolding location_code
location_code-IsCanonical_example = location_code-IsCanonical (codes " syd ") syd refl

unknown_distance : get_distance (str syd) (str (codes "XYZ")) ≡ err entity_not_found
unfolding get_distance
unknown_distance = refl

syd-ne-per : syd ≢ per
unfolding text_eq
syd-ne-per e = let same : text_eq syd per ≡ true = (text_eq_iff syd per).1 e in cc same

get_distance_known_example :
    (d : ℕ) × (get_distance (str syd) (str per) ≡ ok d)
    × (get_distance (str per) (str syd) ≡ ok d)
    × (0 < d)
unfolding contains text_eq
get_distance_known_example = get_distance_known syd per refl refl syd-ne-per

abbrev pub stops : List LocationCode
stops = syd ∷ mel ∷ adl ∷ []

abbrev pub path : RoutePath
path = record { locations = stops }

pub stops-IsPath : IsPath stops
unfolding contains text_eq
stops-IsPath = record {
  two_stops = omega arith;
  supported = (refl, (refl, (refl, tt)));
  distinct = (refl, (refl, (refl, tt)));
}

route_path_repeated : route_path (syd ∷ mel ∷ syd ∷ []) ≡ err domain_validation
unfolding route_path contains text_eq distinct_count
route_path_repeated = refl

route_path_iff_example : (p : RoutePath) × (route_path stops ≡ ok p) × (p.locations ≡ stops)
route_path_iff_example = (route_path_iff stops).1 stops-IsPath

syd-IsCanonical : IsCanonical syd
unfolding location_code
syd-IsCanonical = refl

adl-IsCanonical : IsCanonical adl
unfolding location_code
adl-IsCanonical = refl

includes_in_order_iff_example : includes_in_order path (str syd) (str adl) ≡ ok true
includes_in_order_iff_example =
    (includes_in_order_iff path syd adl stops-IsPath.distinct syd-IsCanonical adl-IsCanonical).1
      (0, 2, refl, refl, omega arith)

abbrev pub trip : RouteSchedule
trip = record {
  departure_time = 1000;
  segments =
      record { start = syd; end = mel; distance_km = 877; duration = 36_289_655_172 }
      ∷ record { start = mel; end = adl; distance_km = 725; duration = 30_000_000_000 }
      ∷ [];
  stops =
      record { location = syd; arrival_at = 1000 }
      ∷ record { location = mel; arrival_at = 36_289_656_172 }
      ∷ record { location = adl; arrival_at = 66_289_656_172 }
      ∷ [];
}

pub build-trip : build stops 1000 default_speed_kmph ≡ ok trip
unfolding build contains max_time distinct_count
build-trip = refl

pub build_sound_example :
    IsValid trip × (stop_locations trip.stops ≡ stops) × (trip.departure_time ≡ 1000)
build_sound_example = build_sound stops 1000 default_speed_kmph trip build-trip

build_total_example :
    (s : RouteSchedule) × (build stops 1000 default_speed_kmph ≡ ok s)
    × IsValid s
    × (stop_locations s.stops ≡ stops)
    × (s.departure_time ≡ 1000)
    × (eta_final s ≡ 1000 + journey_time stops)
unfolding journey_time get_distance max_time travel_time
build_total_example = build_total stops 1000 stops-IsPath (omega arith)

route_schedule_iff_example : IsSchedule 1000 trip.segments trip.stops
unfolding route_schedule max_time contains distinct_count
route_schedule_iff_example = (route_schedule_iff 1000 trip.segments trip.stops).0 refl

position_at-eq-position_by_stops_example :
    position_at trip 36_289_656_172 ≡ ok (position_by_stops 36_289_656_172 trip.stops)
position_at-eq-position_by_stops_example =
    position_at-eq-position_by_stops trip 36_289_656_172 (build_sound_example.0)

abbrev parcels : List PackageLoad
parcels =
    record { start_location = syd; end_location = adl; weight = 3 }
    ∷ record { start_location = mel; end_location = adl; weight = 4 }
    ∷ record { start_location = adl; end_location = syd; weight = 9 }
    ∷ []

heaviest : maximum_segment_load stops parcels none ≡ 7
unfolding maximum_segment_load text_eq
heaviest = refl

maximum_segment_load_bounds_example :
    ((s : ℕ)
      → s + 1 < length stops
      → segment_load stops (with_extra parcels none) s ≤ maximum_segment_load stops parcels none)
    × ((s : ℕ) × (s + 1 < length stops)
        × (maximum_segment_load stops parcels none
            ≡ segment_load stops (with_extra parcels none) s))
maximum_segment_load_bounds_example = maximum_segment_load_bounds stops parcels none (omega arith)
