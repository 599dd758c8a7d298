-- ===== src/Reconcile/Packages/Settled.antt =====
-- A package that was reconciled is as the schedule of its route says, and stays so.
use fleet_flow.Base.{ℕ, ◌≡◌, ap, sym, Option, none, some, ltb, index_of}
use mathlib.Core.Path.{subst}
use fleet_flow.Result.{ok, ok_injective}
use fleet_flow.Location.{LocationCode}
use fleet_flow.Schedule.{Time}
use fleet_flow.Enums.{ItemStatus, todo}
use fleet_flow.World.{Package, Route}
use fleet_flow.RouteView.{departure_time, locations}
use fleet_flow.Reconcile.Repairs.{
  PackageReconciliationReason, Correction, without_window, route_unscheduled, route_path_invalid,
}
use fleet_flow.Reconcile.Repairs.Stands.{Stands, SameTrip}
use fleet_flow.Reconcile.Packages.{StopTimes, correct_package, reconcile_on, reconcile_package}
use fleet_flow.Reconcile.Packages.Window.{In, IsNamed, unchanged}
use fleet_flow.Reconcile.Packages.Scheduled.{
  state_on, state_from, IsScheduled, state_at-IsScheduled,
}
use fleet_flow.Reconcile.Packages.Placed.{invalid-In, invalid_again, placed-In, placed_again}

module _ (route : Route) (times : StopTimes) (now : Time) (p : Package) (c : Correction)
    (named : IsNamed route p) where
  invalid :
      (because : PackageReconciliationReason)
      → ok (without_window because p) ≡ ok c
      → In (todo, p.start_location) p c
        × (ok (without_window because c.item) ≡ ok (unchanged c.item))
  invalid because h =
      subst
        (λ x.
          In (todo, p.start_location) p x
          × (ok (without_window because x.item) ≡ ok (unchanged x.item)))
        (ok_injective h) (invalid-In because p, ap ok (invalid_again because p))

  correct_package_settles :
      (start end : Option ℕ)
      → correct_package route times now start end p ≡ ok c
      → In (state_on route times now start end p) p c
        × (correct_package route times now start end c.item ≡ ok (unchanged c.item))
  unfolding correct_package
  correct_package_settles none end h = invalid route_path_invalid h
  correct_package_settles (some i) none h = invalid route_path_invalid h
  correct_package_settles (some i) (some j) h = (
    placed-In route times now i j p c named (ltb j i) h,
    placed_again route times now i j p c named (ltb j i) h,
  )

  abbrev CorrectedAt : LocationCode → LocationCode → Type 0
  CorrectedAt start end =
      correct_package route times now (index_of (locations route) start)
        (index_of (locations route) end) c.item
      ≡ ok (unchanged c.item)

  reconcile_on_settles :
      (departure : Option Time)
      → reconcile_on departure route times now p ≡ ok c
      → In (state_from departure route times now p) p c
        × (reconcile_on departure route times now c.item ≡ ok (unchanged c.item))
  unfolding reconcile_on
  reconcile_on_settles none h = invalid route_unscheduled h
  reconcile_on_settles (some departure) h =
      let ((stands, trip), again) =
        correct_package_settles (index_of (locations route) p.start_location)
          (index_of (locations route) p.end_location) h in
      (
        (stands, trip),
        subst (λ start. CorrectedAt start c.item.end_location) (sym trip.start)
            (subst (CorrectedAt p.start_location) (sym trip.end) again),
      )

  -- If the reconciliation of a package, whose locations and those of its route are not empty,
  -- returns, the package is where the times of the stops say: it waits at its start if its route is
  -- not scheduled or does not go from its start to its end, or if the pickup has a time after `now`;
  -- otherwise it is done at its end if the delivery has a time that is not after `now`; otherwise it
  -- is in progress at the last stop of its part of the path up to which all have a time that is not
  -- after `now`. Its trip is as before, and a second reconciliation at that time changes nothing and
  -- has no reason for a correction.
  pub reconcile_package_settles :
      reconcile_package route times now p ≡ ok c
      → (status : ItemStatus) × (city : LocationCode) × IsScheduled route times now p status city
        × Stands status city c.item
        × SameTrip p c.item
        × (reconcile_package route times now c.item ≡ ok (unchanged c.item))
  unfolding reconcile_package
  reconcile_package_settles h =
      let ((stands, trip), again) = reconcile_on_settles (departure_time route) h in
      let at = state_at-IsScheduled route times now p in (_, _, at, stands, trip, again)
