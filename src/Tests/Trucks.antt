-- ===== src/Tests/Trucks.antt =====
-- A truck that may serve a route, and a route that was created.
use fleet_flow.Base.{
  ℕ, List, count, if◌then◌else◌, ◌≡◌, refl, none, some, [], ◌∷◌, text_eq, contains, distinct_count,
}
use fleet_flow.Result.{ok}
use fleet_flow.Path.{start, route_path}
use fleet_flow.Weight.{kilograms}
use fleet_flow.RouteView.{maximum_segment_load, total_distance_km}
use fleet_flow.TruckPolicy.{evaluate}
use fleet_flow.TruckPolicy.Accepted.{CanServe, evaluate_iff}
use fleet_flow.VehicleManager.{find_available_for_route}
use fleet_flow.VehicleManager.Available.{IsSorted, suits, find_available_for_route-IsSorted}
use fleet_flow.Location.{str}
use fleet_flow.Map.{syd, mel, adl}
use fleet_flow.Schedule.{max_time}
use fleet_flow.RouteView.{departure_time}
use fleet_flow.World.{Route}
use fleet_flow.Route.{delivery_route}
use fleet_flow.Route.Rollback.{IsBuilt}
use fleet_flow.Route.Built.{delivery_route-IsBuilt}
use fleet_flow.Tests.Fleet.{fleet, tour}

idle_accepted : evaluate fleet (fleet.trucks 1) (fleet.routes 1) ≡ ok none
unfolding evaluate text_eq maximum_segment_load kilograms total_distance_km start
idle_accepted = refl

evaluate_iff_example : CanServe fleet (fleet.trucks 1) (fleet.routes 1)
evaluate_iff_example = (evaluate_iff fleet (fleet.trucks 1) (fleet.routes 1)).0 idle_accepted

abbrev fresh : Route
fresh = record tour { truck = none; packages = [] }

fresh_created : delivery_route (str syd ∷ str mel ∷ str adl ∷ []) (some 1000) 11 ≡ ok fresh
unfolding delivery_route contains max_time distinct_count route_path
fresh_created = refl

delivery_route-IsBuilt_example : IsBuilt fresh × (departure_time fresh ≡ some 1000)
delivery_route-IsBuilt_example =
    delivery_route-IsBuilt (str syd ∷ str mel ∷ str adl ∷ []) (some 1000) 11 fresh fresh_created

tour_distance : total_distance_km tour ≡ ok 1602
unfolding total_distance_km text_eq
tour_distance = refl

find_available_for_route-IsSorted_example :
    (refs : List ℕ) × (find_available_for_route fleet (1 ∷ 0 ∷ []) tour ≡ ok refs)
    × IsSorted fleet refs
    × ((k : ℕ) → count k refs ≡ (if suits fleet tour k then count k (1 ∷ 0 ∷ []) else 0))
find_available_for_route-IsSorted_example =
    find_available_for_route-IsSorted fleet (1 ∷ 0 ∷ []) tour 1602 tour_distance
