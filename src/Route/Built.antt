-- ===== src/Route/Built.antt =====
-- Every route has the schedule that the scheduler builds, from its creation on.
use fleet_flow.Base.{ℕ, ◌≡◌, sym, ap, ◌∙◌, Option, none, some, List}
use mathlib.Core.Path.{subst}
use fleet_flow.Result.{Result, ok, ◌>>=◌, >>=-eq-ok, ok_injective}
use fleet_flow.Location.{Raw}
use fleet_flow.Path
use fleet_flow.Path.{RoutePath}
use fleet_flow.Schedule.{Time, RouteSchedule}
use fleet_flow.Scheduler.{build, default_speed_kmph}
use fleet_flow.Scheduler.Total.{build_sound}
use fleet_flow.World.{Route}
use fleet_flow.RouteView.{departure_time, departure_of}
use fleet_flow.Package.{require_positive_int}
use fleet_flow.Route.{build_optional, delivery_route, initial_status}
use fleet_flow.Route.Rollback.{IsBuilt}

departure_of-build_optional :
    (path : RoutePath) (departure : Option Time) (s : Option RouteSchedule)
    → build_optional path departure ≡ ok s
    → departure_of s ≡ departure
unfolding build_optional
departure_of-build_optional path none s h = ap departure_of (sym (ok_injective h))
departure_of-build_optional path (some t) s h =
    let wrap : RouteSchedule → Result (Option RouteSchedule) = λ s. ok (some s) in
    let (b, built, e) = >>=-eq-ok (build path.locations t default_speed_kmph) wrap h in
    let (valid, stops, departs) = build_sound path.locations t default_speed_kmph b built in
    ap departure_of (sym (ok_injective e)) ∙ ap some departs

-- A route that the constructor returns has the schedule that the scheduler builds for its path and
-- its departure, and departs at the given time, if one was given.
pub delivery_route-IsBuilt :
    (raws : List Raw) (departure : Option Time) (route_id : ℕ) (r : Route)
    → delivery_route raws departure route_id ≡ ok r
    → IsBuilt r × (departure_time r ≡ departure)
unfolding delivery_route
delivery_route-IsBuilt raws departure route_id r h =
    let make : ℕ → RoutePath → Option RouteSchedule → Result Route = λ id path s. ok (record {
      route_id = id;
      path = path;
      truck = none;
      packages = List.[];
      status = initial_status departure;
      schedule = s;
      pending_events = List.[];
    }) in
    let with_path : ℕ → RoutePath → Result Route =
      λ id path. build_optional path departure >>= make id path in
    let with_id : ℕ → Result Route = λ id. Path.create raws >>= with_path id in
    let (id, positive, h1) = >>=-eq-ok (require_positive_int route_id) with_id h in
    let (path, found, h2) = >>=-eq-ok (Path.create raws) (with_path id) h1 in
    let (s, built, h3) = >>=-eq-ok (build_optional path departure) (make id path) h2 in
    let left = departure_of-build_optional path departure s built in
    subst (λ x. IsBuilt x × (departure_time x ≡ departure)) (ok_injective h3)
      (subst (λ t. build_optional path t ≡ ok s) (sym left) built, left)
