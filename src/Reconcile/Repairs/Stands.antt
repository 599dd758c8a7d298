-- ===== src/Reconcile/Repairs/Stands.antt =====
-- What a correction leaves of a package that waits or is on its way: its status and its place, and
-- that a second correction changes nothing.
use fleet_flow.Base.{
  Bool, true, false, ◌≡◌, ◌≢◌, refl, ◌∙◌, ◌⊎◌, inl, inr, List, [], ◌∷◌, Option, none, some, arith,
  text_eq, text_eq_iff,
}
use mathlib.Core.Path.{subst}
use fleet_flow.Result.{ok, >>=-eq-ok, ok_injective}
use fleet_flow.Location.{LocationCode}
use fleet_flow.Schedule.{Time}
use fleet_flow.Enums.{ItemStatus, todo, item_in_progress, done}
use fleet_flow.World.{Package}
use fleet_flow.Package.{current_location, mark_picked_up}
use fleet_flow.Reconcile.Repairs.{
  PackageReconciliationReason, Correction, without_window, restore_package_before_pickup,
  advance_from, progressed, repaired, lifecycle_state_inconsistent,
}

pub text_eq_refl : (a : LocationCode) → text_eq a a ≡ true
text_eq_refl a = (text_eq_iff a a).1 refl

-- A stored location that is not empty is the current one; an empty one is at the start.
pub current_of_stored :
    (p : Package) (c : LocationCode)
    → p.stored_location ≡ some c
    → (c ≢ []) ⊎ (c ≡ p.start_location)
    → current_location p ≡ c
current_of_stored p [] e (inl ne) = ground (arith, ne refl)
current_of_stored p [] e (inr same) = ground arith
current_of_stored p (x ∷ c) e h = rw e

-- The package is in the status and stands at the location.
pub record Stands (status : ItemStatus) (city : LocationCode) (p : Package) : Type 0 where
  pub status_eq : p.status ≡ status
  pub here : current_location p ≡ city

pub restore-Stands :
    (p : Package) → Stands todo p.start_location (restore_package_before_pickup p).0
unfolding restore_package_before_pickup
restore-Stands p = record {
  status_eq = ground arith;
  here = ground (
    arith,
    text_eq_iff (current_location p) p.start_location,
    current_of_stored (restore_package_before_pickup p).0 p.start_location,
  );
}

-- The same trip, whatever happened to the package.
pub record SameTrip (p q : Package) : Type 0 where
  pub start : q.start_location ≡ p.start_location
  pub end : q.end_location ≡ p.end_location

pub restore-SameTrip : (p : Package) → SameTrip p (restore_package_before_pickup p).0
unfolding restore_package_before_pickup
restore-SameTrip p = record { start = ground arith; end = ground arith }

pub restore_again :
    (p : Package) → Stands todo p.start_location p → restore_package_before_pickup p ≡ (p, false)
unfolding restore_package_before_pickup
restore_again p h = ground (arith, h.status_eq, h.here, text_eq_refl p.start_location)

pub without_window-Stands :
    (because : PackageReconciliationReason) (p : Package)
    → Stands todo p.start_location (without_window because p).item
      × ((without_window because p).item.expected_arrival ≡ none)
      × SameTrip p (without_window because p).item
unfolding without_window restore_package_before_pickup
without_window-Stands because p = (
  record { status_eq = ground arith; here = ground (arith, restore-Stands p) },
  ground arith,
  record { start = ground arith; end = ground arith },
)

pub without_window_again :
    (because : PackageReconciliationReason) (p : Package)
    → Stands todo p.start_location p
    → p.expected_arrival ≡ none
    → without_window because p ≡ record { item = p; changed = false; reasons = [] }
unfolding without_window restore_package_before_pickup
without_window_again because p h e =
    ground (arith, h.status_eq, h.here, text_eq_refl p.start_location)

progressed-Stands :
    (city : LocationCode) (changed : Bool) (reasons : List PackageReconciliationReason)
    (p : Package)
    → p.status ≡ item_in_progress
    → city ≢ []
    → Stands item_in_progress city (progressed city changed reasons p).item
      × SameTrip p (progressed city changed reasons p).item
progressed-Stands city changed reasons p e ne = (
  record {
    status_eq = ground arith;
    here = ground (
      arith,
      text_eq_iff (current_location p) city,
      current_of_stored (progressed city changed reasons p).item city,
    );
  },
  record { start = ground arith; end = ground arith },
)

pub pickup-status :
    (t : Time) (p q : Package)
    → mark_picked_up t p ≡ ok q
    → (q.status ≡ item_in_progress) × SameTrip p q
unfolding mark_picked_up
pickup-status t p q h = (ground arith, record { start = ground arith; end = ground arith })

repaired-Stands :
    (city : LocationCode) (p : Package)
    → city ≢ []
    → Stands item_in_progress city (repaired city p).item × SameTrip p (repaired city p).item
repaired-Stands city p ne =
    let (stands, trip) =
      progressed-Stands city true (lifecycle_state_inconsistent ∷ [])
        (record p { status = item_in_progress }) refl ne in
    (stands, record { start = trip.start; end = trip.end })

pub advance-Stands :
    (s : ItemStatus) (pickup : Option Time) (city : LocationCode) (p : Package) (c : Correction)
    → p.status ≡ s
    → city ≢ []
    → advance_from s pickup city p ≡ ok c
    → Stands item_in_progress city c.item × SameTrip p c.item
unfolding advance_from
advance-Stands todo none city p c e ne h =
    subst (λ x. Stands item_in_progress city x.item × SameTrip p x.item) (ok_injective h)
      (repaired-Stands city p ne)
advance-Stands todo (some t) city p c e ne h =
    let (q, picked, rest) = >>=-eq-ok (mark_picked_up t p) _ h in
    let (moving, same) = pickup-status t p q picked in
    let (stands, trip) = progressed-Stands city true [] q moving ne in
    subst (λ x. Stands item_in_progress city x.item × SameTrip p x.item) (ok_injective rest)
      (stands, record { start = trip.start ∙ same.start; end = trip.end ∙ same.end })
advance-Stands item_in_progress pickup city p c e ne h =
    subst (λ x. Stands item_in_progress city x.item × SameTrip p x.item) (ok_injective h)
      (progressed-Stands city false [] p e ne)
advance-Stands done pickup city p c e ne h =
    subst (λ x. Stands item_in_progress city x.item × SameTrip p x.item) (ok_injective h)
      (repaired-Stands city p ne)

pub advance_again :
    (pickup : Option Time) (city : LocationCode) (p : Package)
    → Stands item_in_progress city p
    → advance_from p.status pickup city p ≡ ok (record { item = p; changed = false; reasons = [] })
unfolding advance_from
advance_again pickup city p h = rw h.status_eq (ground (arith, h.here, text_eq_refl city))
