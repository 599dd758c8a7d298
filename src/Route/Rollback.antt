-- ===== src/Route/Rollback.antt =====
-- Undoing what an operation did to a route: `restore_state` with a snapshot, then
-- `restore_event_checkpoint`, as the services do it after a failure
-- (application/services/world_state_reconciliation_service.py). The schedule is built anew.
use fleet_flow.Base.{
  ap, ◌↔◌, Bool, true, false, ◌||◌, ℕ, ◌≡◌, refl, sym, ◌∙◌, Option, List, [], ◌∷◌, ◌++◌,
}
use mathlib.Core.List.{append_assoc, append-nil}
use mathlib.Core.Path.{subst}
use fleet_flow.Result.{
  Result, ok, domain_conflict, require, or_raise, ◌>>=◌, ◌>>◌, >>=-eq-ok, ok_injective,
}
use fleet_flow.Schedule.{Time, RouteSchedule}
use fleet_flow.Enums.{RouteStatus, scheduled, in_progress, route_status_eq}
use fleet_flow.Events.{DomainEvent}
use fleet_flow.Recorder.{
  event_checkpoint, restore_event_checkpoint, restore_event_checkpoint-append,
  restore_event_checkpoint-prefix,
}
use fleet_flow.World.{Route, TruckRef, PackageRef}
use fleet_flow.RouteView.{departure_time, eta_final}
use fleet_flow.Scheduler.{build, default_speed_kmph}
use fleet_flow.Route.{
  RouteSnapshot, snapshot_state, restore_state, build_optional, mark_started, mark_completed,
  schedule, with_schedule, started, finished, unscheduled,
}
use fleet_flow.Route.Links.{with_event}

-- `route.restore_state(snapshot); route.restore_event_checkpoint(checkpoint)`
unfoldable pub rollback : RouteSnapshot → ℕ → Route → Result Route
unfolding restore_state
rollback snapshot checkpoint r = do
  restored ← restore_state snapshot r
  events ← restore_event_checkpoint checkpoint restored.pending_events
  ok (record restored { pending_events = events })

-- The route's schedule is what the scheduler builds for its path and departure.
abbrev pub IsBuilt : Route → Type 0
IsBuilt r = build_optional r.path (departure_time r) ≡ ok r.schedule

-- One write to a route, by a method or by a plain assignment. `clear_events` and
-- `restore_event_checkpoint` are not among them.
pub data Change (r : Route) : Route → Type 0 where
  start : {q : Route} (t : Time) → mark_started t r ≡ ok q → Change r q
  complete : {q : Route} (t : Time) → mark_completed t r ≡ ok q → Change r q
  plan : {q : Route} (departure t : Time) → schedule departure t r ≡ ok q → Change r q
  set_status : (s : RouteStatus) → Change r (record r { status = s })
  set_truck : (t : Option TruckRef) → Change r (record r { truck = t })
  set_packages : (ps : List PackageRef) → Change r (record r { packages = ps })
  add_event : (e : DomainEvent) → Change r (with_event e r)
  restore : {q : Route} (s : RouteSnapshot) → restore_state s r ≡ ok q → Change r q

pub data Changes (r : Route) : Route → Type 0 where
  here : Changes r r
  next : {q s : Route} → Changes r q → Change q s → Changes r s

-- The same route, with more events.
pub record Follows (r q : Route) : Type 0 where
  pub id : q.route_id ≡ r.route_id
  pub way : q.path ≡ r.path
  pub more : List DomainEvent
  pub grown : q.pending_events ≡ r.pending_events ++ more

pub Follows-refl : (r : Route) → Follows r r
Follows-refl r = record {
  id = refl;
  way = refl;
  more = [];
  grown = sym (append-nil r.pending_events);
}

pub Follows-trans : {r q s : Route} → Follows r q → Follows q s → Follows r s
Follows-trans {r} {q} {s} f g = record {
  id = g.id ∙ f.id;
  way = g.way ∙ f.way;
  more = f.more ++ g.more;
  grown = cc (f.grown, g.grown, append_assoc r.pending_events f.more g.more);
}

pub one_more :
    (r q : Route) (e : DomainEvent)
    → q.route_id ≡ r.route_id
    → q.path ≡ r.path
    → q.pending_events ≡ r.pending_events ++ e ∷ []
    → Follows r q
one_more r q e id way grown = record { id = id; way = way; more = e ∷ []; grown = grown }

pub silent :
    (r q : Route)
    → q.route_id ≡ r.route_id
    → q.path ≡ r.path
    → q.pending_events ≡ r.pending_events
    → Follows r q
silent r q id way events = record {
  id = id;
  way = way;
  more = [];
  grown = events ∙ sym (append-nil r.pending_events);
}

after_require :
    {A : Type 0} (b : Bool) (rest : Result A) {a : A}
    → (require b domain_conflict >> rest) ≡ ok a
    → rest ≡ ok a
after_require true rest h = h
after_require false rest h = cc

pub start-Follows : (t : Time) (r : Route) {q : Route} → mark_started t r ≡ ok q → Follows r q
unfolding mark_started
start-Follows t r h =
    let e = after_require (route_status_eq r.status scheduled) (ok (started t r)) h in
    subst (Follows r) (ok_injective e) (one_more r (started t r) _ refl refl refl)

pub complete-Follows : (t : Time) (r : Route) {q : Route} → mark_completed t r ≡ ok q → Follows r q
unfolding mark_completed
complete-Follows t r h =
    let last : Time → Time → Result Route = λ departure eta. ok (finished departure eta t r) in
    let rest : Time → Result Route =
      λ departure. or_raise (eta_final r) domain_conflict >>= last departure in
    let h1 =
      after_require (route_status_eq r.status scheduled || route_status_eq r.status in_progress)
        (or_raise (departure_time r) domain_conflict >>= rest) h in
    let (departure, left, h2) = >>=-eq-ok (or_raise (departure_time r) domain_conflict) rest h1 in
    let (eta, arrived, h3) =
      >>=-eq-ok (or_raise (eta_final r) domain_conflict) (last departure) h2 in
    subst (Follows r) (ok_injective h3) (one_more r (finished departure eta t r) _ refl refl refl)

pub plan-Follows :
    (departure t : Time) (r : Route) {q : Route} → schedule departure t r ≡ ok q → Follows r q
unfolding schedule
plan-Follows departure t r h =
    let last : RouteSchedule → Result Route = λ s. ok (with_schedule s departure t r) in
    let h1 =
      after_require (unscheduled r.schedule)
        (build r.path.locations departure default_speed_kmph >>= last) h in
    let (s, built, h2) = >>=-eq-ok (build r.path.locations departure default_speed_kmph) last h1 in
    subst (Follows r) (ok_injective h2)
      (one_more r (with_schedule s departure t r) _ refl refl refl)

restore-Follows :
    (s : RouteSnapshot) (r : Route) {q : Route} → restore_state s r ≡ ok q → Follows r q
unfolding restore_state
restore-Follows s r h =
    let (built, e, h1) = >>=-eq-ok (build_optional r.path s.departure_time) _ h in
    subst (Follows r) (ok_injective h1) (silent r _ refl refl refl)

Change-Follows : {r q : Route} → Change r q → Follows r q
Change-Follows {r} (start t h) = start-Follows t r h
Change-Follows {r} (complete t h) = complete-Follows t r h
Change-Follows {r} (plan departure t h) = plan-Follows departure t r h
Change-Follows {r} (set_status s) = silent r _ refl refl refl
Change-Follows {r} (set_truck t) = silent r _ refl refl refl
Change-Follows {r} (set_packages ps) = silent r _ refl refl refl
Change-Follows {r} (add_event e) = one_more r _ e refl refl refl
Change-Follows {r} (restore s h) = restore-Follows s r h

Changes-Follows : {r q : Route} → Changes r q → Follows r q
Changes-Follows {r} here = Follows-refl r
Changes-Follows (next cs c) = Follows-trans (Changes-Follows cs) (Change-Follows c)

pub restored :
    (r q : Route)
    → IsBuilt r
    → Follows r q
    → restore_state (snapshot_state r) q ≡ ok (record r { pending_events = q.pending_events })
unfolding restore_state snapshot_state
restored r q built f =
    let e : build_optional q.path (departure_time r) ≡ ok r.schedule = rw f.way built in
    rw e (cc (f.id, f.way))

rollback_of_Follows :
    (r q : Route)
    → IsBuilt r
    → Follows r q
    → rollback (snapshot_state r) (event_checkpoint r.pending_events) q ≡ ok r
unfolding rollback
rollback_of_Follows r q built f =
    let e : restore_event_checkpoint (event_checkpoint r.pending_events) q.pending_events
        ≡ ok r.pending_events =
      rw f.grown (restore_event_checkpoint-append r.pending_events f.more) in
    rw (restored r q built f, e)

Follows-of_rollback :
    (r q : Route)
    → rollback (snapshot_state r) (event_checkpoint r.pending_events) q ≡ ok r
    → Follows r q
unfolding rollback restore_state
Follows-of_rollback r q h =
    let (back, old, h1) = >>=-eq-ok (restore_state (snapshot_state r) q) _ h in
    let (built, e, h2) =
      >>=-eq-ok (build_optional q.path (snapshot_state r).departure_time) _ old in
    let (events, kept, h3) =
      >>=-eq-ok (restore_event_checkpoint (event_checkpoint r.pending_events) back.pending_events) _
        h1 in
    let same = ok_injective h2 in
    let last = ok_injective h3 in
    let (more, grown) = restore_event_checkpoint-prefix _ back.pending_events events kept in
    record {
      id = ap (λ x. x.route_id) same ∙ ap (λ x. x.route_id) last;
      way = ap (λ x. x.path) same ∙ ap (λ x. x.path) last;
      more = more;
      grown = ap (λ x. x.pending_events) same ∙ grown ∙ ap (λ x. x.pending_events ++ more) last;
    }

-- Rolling a route back to the snapshot and the event checkpoint of an earlier one, whose schedule
-- was the one that the scheduler builds for its path and departure, returns that earlier route, its
-- schedule and pending events included, exactly when the two have the same id and path, and the
-- pending events of the earlier one are the first of those of the route. So the loss of one of
-- these events is not undone.
pub rollback-IsBuilt_iff :
    (r q : Route)
    → IsBuilt r
    → (rollback (snapshot_state r) (event_checkpoint r.pending_events) q ≡ ok r) ↔ Follows r q
rollback-IsBuilt_iff r q built = (Follows-of_rollback r q, rollback_of_Follows r q built)

-- A route whose schedule was the one that the scheduler builds for its path and departure, and that
-- went through any sequence of starts, completions, schedulings, recorded events, restored snapshots
-- and assignments of status, truck and packages, and through nothing else, is rolled back to the
-- snapshot and the event checkpoint taken before: the result is the route of that moment, its
-- schedule and pending events included, and nothing is raised.
pub rollback-IsBuilt :
    (r q : Route)
    → IsBuilt r
    → Changes r q
    → rollback (snapshot_state r) (event_checkpoint r.pending_events) q ≡ ok r
rollback-IsBuilt r q built cs = rollback_of_Follows r q built (Changes-Follows cs)
