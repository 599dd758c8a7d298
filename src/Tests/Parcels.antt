-- ===== src/Tests/Parcels.antt =====
-- A package that is created in an empty repository.
use fleet_flow.Base.{ℕ, ◌+◌, ◌≡◌, refl, false, [], ◌∷◌, none, some, ◌==◌}
use fleet_flow.Result.{ok}
use fleet_flow.Location.{str}
use fleet_flow.Map.{syd, adl}
use fleet_flow.Weight.{kilograms}
use fleet_flow.World.{Package, update}
use fleet_flow.Events.{package_created}
use fleet_flow.Enums.{todo}
use fleet_flow.Package as Packages
use fleet_flow.PackageRepository.{PackageRepository, empty, get_by_id, create}
use fleet_flow.PackageRepository.Created.{start, create_succeeds}
use fleet_flow.Tests.Fleet.{fleet}

abbrev new_parcel : Package
new_parcel = record {
  package_id = 1;
  start_location = syd;
  end_location = adl;
  weight = kilograms 3;
  customer = 0;
  route = none;
  route_id = none;
  stored_location = some syd;
  expected_arrival = none;
  status = todo;
  pending_events =
      package_created (record {
        package_id = 1;
        customer_id = 1;
        start_location = syd;
        end_location = adl;
        weight = kilograms 3;
        initial_status = todo;
        initial_location = syd;
        expected_arrival = none;
        occurred_at = 500;
      })
      ∷ [];
}

parcel_made : Packages.create (str syd) (str adl) (kilograms 3) 0 1 1 500 ≡ ok new_parcel
unfolding Packages.create kilograms
parcel_made = refl

create_succeeds_example :
    (r' : PackageRepository) × (create fleet.packages 5 syd adl (kilograms 3) 0 1 500 empty
      ≡ ok (update fleet.packages 5 new_parcel, r'))
    × (new_parcel.package_id ≡ empty.next_id)
    × (get_by_id 1 empty ≡ none)
    × (get_by_id 1 r' ≡ some 5)
    × ((i : ℕ) → (1 == i) ≡ false → get_by_id i r' ≡ get_by_id i empty)
    × (r'.next_id ≡ 1 + 1)
create_succeeds_example =
    create_succeeds fleet.packages 5 syd adl (kilograms 3) 0 1 500 empty new_parcel start
      parcel_made
