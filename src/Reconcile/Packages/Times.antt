-- ===== src/Reconcile/Packages/Times.antt =====
-- The times of the stops that the reconciliation of the packages of a route collects.
use fleet_flow.Base.{◌≡◌, ◌↔◌, List, some, true, dict_get, contains}
use fleet_flow.Result.{Result, ok}
use fleet_flow.Location.{LocationCode, str}
use fleet_flow.Schedule.{Time}
use fleet_flow.World.{Route}
use fleet_flow.RouteView.{route_arrival_time_at}
use fleet_flow.Reconcile.Packages.{StopTimes}

module _ (route : Route) (city : LocationCode) where
  abbrev pub HasTime : List LocationCode → StopTimes → Time → Type 0
  HasTime cities times t =
      (dict_get times city ≡ some t)
      ↔ ((contains city cities ≡ true) × (route_arrival_time_at route (str city) ≡ ok t))
