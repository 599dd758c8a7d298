-- ===== src/Reconcile/Repairs/Completed.antt =====
-- What the completion of a package leaves of it, and that a second one changes nothing.
use fleet_flow.Base.{
  Bool, true, false, ◌≡◌, ◌≢◌, refl, sym, ◌∙◌, [], Option, none, some, arith, text_eq_iff,
}
use mathlib.Core.Path.{subst}
use fleet_flow.Result.{ok, >>=-eq-ok, ok_injective}
use fleet_flow.Schedule.{Time}
use fleet_flow.Enums.{ItemStatus, todo, item_in_progress, done}
use fleet_flow.World.{Package}
use fleet_flow.Package.{current_location, mark_picked_up, mark_delivered}
use fleet_flow.Reconcile.Repairs.{Correction, set_package_state, complete_from, at_end}
use fleet_flow.Reconcile.Repairs.Stands.{
  text_eq_refl, current_of_stored, Stands, SameTrip, pickup-status,
}

at_end-Stands :
    (p : Package) (changed : Bool)
    → p.status ≡ done
    → p.end_location ≢ []
    → Stands done p.end_location (at_end p changed).item × SameTrip p (at_end p changed).item
at_end-Stands p changed e ne = (
  record {
    status_eq = ground arith;
    here = ground (
      arith,
      text_eq_iff (current_location p) p.end_location,
      current_of_stored (at_end p changed).item p.end_location,
    );
  },
  record { start = ground arith; end = ground arith },
)

delivery-status :
    (t : Time) (p q : Package) → mark_delivered t p ≡ ok q → (q.status ≡ done) × SameTrip p q
unfolding mark_delivered
delivery-status t p q h = (ground arith, record { start = ground arith; end = ground arith })

-- The end of a completion: what it leaves of a package on the trip of `p`.
ended :
    (p r : Package) (changed : Bool)
    → r.status ≡ done
    → SameTrip p r
    → p.end_location ≢ []
    → Stands done p.end_location (at_end r changed).item × SameTrip p (at_end r changed).item
ended p r changed e same ne =
    let (stands, trip) = at_end-Stands r changed e (λ z. ne (sym same.end ∙ z)) in
    (
      record { status_eq = stands.status_eq; here = stands.here ∙ same.end },
      record { start = trip.start ∙ same.start; end = trip.end ∙ same.end },
    )

set_package_state-Stands :
    (p : Package)
    → p.end_location ≢ []
    → Stands done p.end_location (set_package_state done p.end_location p).0
      × SameTrip p (set_package_state done p.end_location p).0
unfolding set_package_state
set_package_state-Stands p ne = (
  record {
    status_eq = ground arith;
    here = ground (
      arith,
      text_eq_iff (current_location p) p.end_location,
      current_of_stored (set_package_state done p.end_location p).0 p.end_location,
    );
  },
  record { start = ground arith; end = ground arith },
)

abbrev Completed : Package → Correction → Type 0
Completed p c = Stands done p.end_location c.item × SameTrip p c.item

pub complete-Stands :
    (s : ItemStatus) (pickup : Option Time) (delivery : Time) (p : Package) (c : Correction)
    → p.status ≡ s
    → p.end_location ≢ []
    → complete_from s pickup delivery p ≡ ok c
    → Completed p c
unfolding complete_from
complete-Stands todo none delivery p c e ne h =
    subst (Completed p) (ok_injective h) (set_package_state-Stands p ne)
complete-Stands todo (some t) delivery p c e ne h =
    let (q, picked, h1) = >>=-eq-ok (mark_picked_up t p) _ h in
    let (r, brought, h2) = >>=-eq-ok (mark_delivered delivery q) _ h1 in
    let first = (pickup-status t p q picked).1 in
    let (finished, second) = delivery-status delivery q r brought in
    subst (Completed p) (ok_injective h2) (
      ended p r true finished
        (record { start = second.start ∙ first.start; end = second.end ∙ first.end }) ne)
complete-Stands item_in_progress pickup delivery p c e ne h =
    let (q, brought, h1) = >>=-eq-ok (mark_delivered delivery p) _ h in
    let (finished, same) = delivery-status delivery p q brought in
    subst (Completed p) (ok_injective h1) (ended p q true finished same ne)
complete-Stands done pickup delivery p c e ne h =
    subst (Completed p) (ok_injective h)
      (ended p p false e (record { start = refl; end = refl }) ne)

pub complete_again :
    (pickup : Option Time) (delivery : Time) (p : Package)
    → Stands done p.end_location p
    → complete_from p.status pickup delivery p
      ≡ ok (record { item = p; changed = false; reasons = [] })
unfolding complete_from
complete_again pickup delivery p h =
    rw h.status_eq (ground (arith, h.here, text_eq_refl p.end_location))
