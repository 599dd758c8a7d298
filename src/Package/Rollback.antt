-- ===== src/Package/Rollback.antt =====
-- Undoing what an operation did to a package: `restore_state` with a snapshot, then
-- `restore_event_checkpoint`, as the services do it after a failure
-- (application/services/heartbeat_service.py, world_state_reconciliation_service.py).
use fleet_flow.Base.{
  ℕ, ◌≡◌, refl, sym, ◌∙◌, Option, none, some, List, [], ◌∷◌, ◌++◌, inl, inr, ap, ◌↔◌,
}
use mathlib.Core.List.{append_assoc, append-nil}
use mathlib.Core.Path.{subst}
use fleet_flow.Result.{Result, ok, ◌>>=◌, >>=-eq-ok, ok_injective}
use fleet_flow.Location.{LocationCode}
use fleet_flow.Schedule.{Time}
use fleet_flow.Enums.{ItemStatus, todo, item_in_progress, done}
use fleet_flow.Events.{DomainEvent, package_picked_up, package_delivered}
use fleet_flow.Recorder.{
  event_checkpoint, restore_event_checkpoint, restore_event_checkpoint-append,
  restore_event_checkpoint-prefix,
}
use fleet_flow.World.{Package, RouteRef}
use fleet_flow.Package.Lifecycle.{
  IsAt-cases, picked_up_of_IsAt, delivered_of_IsAt, refused_pickup, refused_delivery,
}
use fleet_flow.Package.{
  moved_event, moved_to, PackageSnapshot, snapshot_state, restore_state, mark_picked_up,
  mark_delivered, record_removal, reset_assignment_state, set_route,
}

-- `package.restore_state(snapshot); package.restore_event_checkpoint(checkpoint)`
unfoldable pub rollback : PackageSnapshot → ℕ → Package → Result Package
unfolding restore_state
rollback snapshot checkpoint p = do
  let restored = restore_state snapshot p
  events ← restore_event_checkpoint checkpoint restored.pending_events
  ok (record restored { pending_events = events })

-- One write to a package, by a method or by a plain assignment. The customer's write to `customer`,
-- `clear_events` and `restore_event_checkpoint` are not among them.
pub data Change (p : Package) : Package → Type 0 where
  pick_up : {q : Package} (t : Time) → mark_picked_up t p ≡ ok q → Change p q
  deliver : {q : Package} (t : Time) → mark_delivered t p ≡ ok q → Change p q
  reset : Change p (reset_assignment_state p)
  link : (r : Option (RouteRef × ℕ)) → Change p (set_route r p)
  set_status : (s : ItemStatus) → Change p (record p { status = s })
  set_location : (c : Option LocationCode) → Change p (record p { stored_location = c })
  set_arrival : (t : Option Time) → Change p (record p { expected_arrival = t })
  restore : (s : PackageSnapshot) → Change p (restore_state s p)
  removal :
      (customer_id : ℕ) (route_id : Option ℕ) (status : ItemStatus) (city : LocationCode)
      (arrival : Option Time) (t : Time)
      → Change p (record_removal customer_id route_id status city arrival t p)

pub data Changes (p : Package) : Package → Type 0 where
  here : Changes p p
  next : {q r : Package} → Changes p q → Change q r → Changes p r

-- The same package, with more events.
pub record Follows (p q : Package) : Type 0 where
  pub id : q.package_id ≡ p.package_id
  pub start : q.start_location ≡ p.start_location
  pub end : q.end_location ≡ p.end_location
  pub weighs : q.weight ≡ p.weight
  pub owner : q.customer ≡ p.customer
  pub more : List DomainEvent
  pub grown : q.pending_events ≡ p.pending_events ++ more

pub Follows-refl : (p : Package) → Follows p p
Follows-refl p = record {
  id = refl;
  start = refl;
  end = refl;
  weighs = refl;
  owner = refl;
  more = [];
  grown = sym (append-nil p.pending_events);
}

pub Follows-trans : {p q r : Package} → Follows p q → Follows q r → Follows p r
Follows-trans {p} {q} {r} f g = record {
  id = g.id ∙ f.id;
  start = g.start ∙ f.start;
  end = g.end ∙ f.end;
  weighs = g.weighs ∙ f.weighs;
  owner = g.owner ∙ f.owner;
  more = f.more ++ g.more;
  grown = cc (f.grown, g.grown, append_assoc p.pending_events f.more g.more);
}

pick_up-Follows : (t : Time) (p : Package) {q : Package} → mark_picked_up t p ≡ ok q → Follows p q
unfolding mark_picked_up
pick_up-Follows t p h = elim (IsAt-cases todo p) [
  | inl (id, w) ↦
      let e = ok_injective (sym (picked_up_of_IsAt t p id w) ∙ h) in
      subst (Follows p) e (record {
        id = refl;
        start = refl;
        end = refl;
        weighs = refl;
        owner = refl;
        more =
            package_picked_up (moved_event id p (moved_to item_in_progress p.start_location p) t)
            ∷ [];
        grown = refl;
      })
  | inr no_way ↦ cc (refused_pickup t p no_way)
]

deliver-Follows : (t : Time) (p : Package) {q : Package} → mark_delivered t p ≡ ok q → Follows p q
unfolding mark_delivered
deliver-Follows t p h = elim (IsAt-cases item_in_progress p) [
  | inl (id, w) ↦
      let e = ok_injective (sym (delivered_of_IsAt t p id w) ∙ h) in
      subst (Follows p) e (record {
        id = refl;
        start = refl;
        end = refl;
        weighs = refl;
        owner = refl;
        more = package_delivered (moved_event id p (moved_to done p.end_location p) t) ∷ [];
        grown = refl;
      })
  | inr no_way ↦ cc (refused_delivery t p no_way)
]

-- A change that records no event.
pub silent :
    (p q : Package)
    → q.package_id ≡ p.package_id
    → q.start_location ≡ p.start_location
    → q.end_location ≡ p.end_location
    → q.weight ≡ p.weight
    → q.customer ≡ p.customer
    → q.pending_events ≡ p.pending_events
    → Follows p q
silent p q id start end weighs owner events = record {
  id = id;
  start = start;
  end = end;
  weighs = weighs;
  owner = owner;
  more = [];
  grown = events ∙ sym (append-nil p.pending_events);
}

pub Change-Follows : {p q : Package} → Change p q → Follows p q
unfolding reset_assignment_state restore_state record_removal
Change-Follows {p} (pick_up t h) = pick_up-Follows t p h
Change-Follows {p} (deliver t h) = deliver-Follows t p h
Change-Follows {p} reset = silent p _ refl refl refl refl refl refl
Change-Follows {p} (link none) = silent p _ refl refl refl refl refl refl
Change-Follows {p} (link (some (r, id))) = silent p _ refl refl refl refl refl refl
Change-Follows {p} (set_status s) = silent p _ refl refl refl refl refl refl
Change-Follows {p} (set_location c) = silent p _ refl refl refl refl refl refl
Change-Follows {p} (set_arrival t) = silent p _ refl refl refl refl refl refl
Change-Follows {p} (restore s) = silent p _ refl refl refl refl refl refl
Change-Follows {p} (removal customer_id route_id status city arrival t) = record {
  id = refl;
  start = refl;
  end = refl;
  weighs = refl;
  owner = refl;
  more = _;
  grown = refl;
}

Changes-Follows : {p q : Package} → Changes p q → Follows p q
Changes-Follows {p} here = Follows-refl p
Changes-Follows (next cs c) = Follows-trans (Changes-Follows cs) (Change-Follows c)

pub rollback_of_Follows :
    (p q : Package)
    → Follows p q
    → rollback (snapshot_state p) (event_checkpoint p.pending_events) q ≡ ok p
unfolding rollback snapshot_state
rollback_of_Follows p q f =
    let e : restore_event_checkpoint (event_checkpoint p.pending_events) q.pending_events
        ≡ ok p.pending_events =
      rw f.grown (restore_event_checkpoint-append p.pending_events f.more) in
    rw e (cc (f.id, f.start, f.end, f.weighs, f.owner))

Follows-of_rollback :
    (p q : Package)
    → rollback (snapshot_state p) (event_checkpoint p.pending_events) q ≡ ok p
    → Follows p q
unfolding rollback
Follows-of_rollback p q h =
    let (events, kept, h1) =
      >>=-eq-ok (restore_event_checkpoint (event_checkpoint p.pending_events) q.pending_events) _
        h in
    let same = ok_injective h1 in
    let (more, grown) = restore_event_checkpoint-prefix _ q.pending_events events kept in
    record {
      id = ap (λ x. x.package_id) same;
      start = ap (λ x. x.start_location) same;
      end = ap (λ x. x.end_location) same;
      weighs = ap (λ x. x.weight) same;
      owner = ap (λ x. x.customer) same;
      more = more;
      grown = grown ∙ ap (λ x. x.pending_events ++ more) same;
    }

-- Rolling a package back to the snapshot and the event checkpoint of an earlier one returns that
-- earlier package, its pending events included, exactly when the two have the same id, locations,
-- weight and customer, and the pending events of the earlier one are the first of those of the
-- package. So neither a new customer nor the loss of one of these events is undone.
pub rollback_iff :
    (p q : Package)
    → (rollback (snapshot_state p) (event_checkpoint p.pending_events) q ≡ ok p) ↔ Follows p q
rollback_iff p q = (Follows-of_rollback p q, rollback_of_Follows p q)

-- A package that went through any sequence of pickups, deliveries, resets of the assignment,
-- recorded removals, restored snapshots, links to a route and assignments of status, location and
-- expected arrival, and through nothing else, is rolled back to the snapshot and the event
-- checkpoint taken before: the result is the package of that moment, its pending events included,
-- and nothing is raised.
pub rollback-Changes :
    (p q : Package)
    → Changes p q
    → rollback (snapshot_state p) (event_checkpoint p.pending_events) q ≡ ok p
rollback-Changes p q cs = rollback_of_Follows p q (Changes-Follows cs)
