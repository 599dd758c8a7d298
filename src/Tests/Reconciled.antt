-- ===== src/Tests/Reconciled.antt =====
-- The reconciliation of a package at a concrete time, and a route that is rolled back.
use fleet_flow.Base.{◌↔◌, ◌≡◌, refl, true, none, [], ◌∷◌, some, text_eq}
use fleet_flow.Result.{ok}
use fleet_flow.Map.{syd, mel, adl}
use fleet_flow.Schedule.{Time}
use fleet_flow.Enums.{ItemStatus}
use fleet_flow.Package.{picked_up}
use fleet_flow.Reconcile.Repairs.{
  Correction, advance_from, route_progress_advanced, expected_arrival_recalculated,
}
use fleet_flow.Reconcile.Repairs.Stands.{Stands, SameTrip}
use fleet_flow.Reconcile.Packages.{StopTimes, last_reached_city, reconcile_package}
use fleet_flow.Reconcile.Packages.Window.{IsNamed, unchanged}
use fleet_flow.Location.{LocationCode}
use fleet_flow.Reconcile.Packages.Scheduled.{IsScheduled}
use fleet_flow.Reconcile.Packages.Settled.{reconcile_package_settles}
use fleet_flow.World.{Route}
use fleet_flow.Recorder.{event_checkpoint}
use fleet_flow.Route.{started, mark_started, snapshot_state, build_optional}
use fleet_flow.Route.Rollback.{
  IsBuilt, Changes, here, next, start, set_truck, rollback, rollback-IsBuilt, Follows,
  rollback-IsBuilt_iff,
}
use fleet_flow.Tests.Journeys.{build-trip}
use fleet_flow.Tests.Fleet.{tour, parcel}

abbrev times : StopTimes
times = (syd, 1000) ∷ (mel, 36_289_656_172) ∷ (adl, 66_289_656_172) ∷ []

abbrev midway : Time
midway = 40_000_000_000

abbrev moved : Correction
moved = record {
  item = record (picked_up 1000 11 parcel) {
    stored_location = some mel;
    expected_arrival = some 66_289_656_172;
  };
  changed = true;
  reasons = route_progress_advanced ∷ expected_arrival_recalculated ∷ [];
}

parcel_moves : reconcile_package tour times midway parcel ≡ ok moved
unfolding reconcile_package text_eq advance_from last_reached_city
parcel_moves = refl

parcel-IsNamed : IsNamed tour parcel
parcel-IsNamed = record {
  start = λ e. cc;
  end = λ e. cc;
  cities = (λ e. cc, (λ e. cc, (λ e. cc, tt)));
}

reconcile_package_settles_example :
    (status : ItemStatus) × (city : LocationCode) × IsScheduled tour times midway parcel status city
    × Stands status city moved.item
    × SameTrip parcel moved.item
    × (reconcile_package tour times midway moved.item ≡ ok (unchanged moved.item))
reconcile_package_settles_example =
    reconcile_package_settles tour times midway parcel moved parcel-IsNamed parcel_moves

pub tour-IsBuilt : IsBuilt tour
unfolding build_optional
tour-IsBuilt = rw build-trip

abbrev spoiled : Route
spoiled = record (started 2000 tour) { truck = none }

tour_starts_late : mark_started 2000 tour ≡ ok (started 2000 tour)
unfolding mark_started
tour_starts_late = refl

tour-Changes : Changes tour spoiled
tour-Changes = next (next here (start 2000 tour_starts_late)) (set_truck none)

rollback-IsBuilt_example :
    rollback (snapshot_state tour) (event_checkpoint tour.pending_events) spoiled ≡ ok tour
rollback-IsBuilt_example = rollback-IsBuilt tour spoiled tour-IsBuilt tour-Changes

rollback-IsBuilt_iff_example :
    (rollback (snapshot_state tour) (event_checkpoint tour.pending_events) spoiled ≡ ok tour)
    ↔ Follows tour spoiled
rollback-IsBuilt_iff_example = rollback-IsBuilt_iff tour spoiled tour-IsBuilt
