-- ===== src/Tests/Newcomer.antt =====
-- A new truck that is not yet placed.
use fleet_flow.Base.{◌≡◌, refl, none, codes, text_eq}
use fleet_flow.Result.{ok, err, domain_conflict}
use fleet_flow.World.{Truck, World}
use fleet_flow.Enums.{free}
use fleet_flow.Package.{require_positive_int}
use fleet_flow.Truck.{scania, truck, from_value}
use fleet_flow.Route.Trucks.{assign_truck}
use fleet_flow.Route.NewTruck.{IsNew, truck-refused}
use fleet_flow.Tests.Fleet.{fleet}

abbrev newcomer : Truck
newcomer = record {
  vehicle_id = 1002;
  capacity = 42_000;
  max_range = 8000;
  status = free;
  current_location = none;
  route = none;
  busy_from = none;
  busy_until = none;
  in_transit_to = none;
}

abbrev yard : World
yard = record fleet { trucks = λ t. newcomer }

newcomer_made : truck 1002 (codes "Scania") 42_000 8000 ≡ ok (scania, newcomer)
unfolding truck from_value require_positive_int text_eq
newcomer_made = refl

truck-refused_example : IsNew newcomer × (assign_truck 1 3 500 yard ≡ (err domain_conflict, yard))
truck-refused_example =
    truck-refused 1002 (codes "Scania") 42_000 8000 scania yard 1 3 500 newcomer_made
