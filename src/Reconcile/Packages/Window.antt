-- ===== src/Reconcile/Packages/Window.antt =====
-- The correction of a package within its window of pickup and delivery, and the last city reached.
use fleet_flow.Base.{
  ℕ, zero, suc, Bool, true, false, ◌≡◌, ◌≢◌, refl, inl, inr, List, [], ◌∷◌, Option, none, some,
  arith, leb, if◌then◌else◌, All, Bool-cases,
}
use mathlib.Core.Path.{subst}
use fleet_flow.Result.{ok, ok_injective}
use fleet_flow.Location.{LocationCode}
use fleet_flow.Schedule.{Time}
use fleet_flow.Enums.{ItemStatus, todo, item_in_progress, done}
use fleet_flow.World.{Package, Route}
use fleet_flow.RouteView.{locations}
use fleet_flow.Reconcile.Repairs.{Correction}
use fleet_flow.Reconcile.Repairs.Stands.{
  Stands, SameTrip, restore-Stands, restore-SameTrip, restore_again, advance-Stands, advance_again,
}
use fleet_flow.Reconcile.Repairs.Completed.{complete-Stands, complete_again}
use fleet_flow.Reconcile.Packages.{
  StopTimes, with_arrival, within_window, last_reached, last_reached_city, same_time, drop,
}

abbrev pub State : Type 0
State = ItemStatus × LocationCode

-- Where a package is, whose pickup is still ahead or not.
abbrev pub state_within : Bool → Option Time → LocationCode → Time → Package → State
state_within true delivery city now p = (todo, p.start_location)
state_within false none city now p = (item_in_progress, city)
state_within false (some delivery) city now p =
    if leb delivery now then (done, p.end_location) else (item_in_progress, city)

unfoldable pub unchanged : Package → Correction
unchanged p = record { item = p; changed = false; reasons = [] }

abbrev pub In : State → Package → Correction → Type 0
In s p c = Stands s.0 s.1 c.item × SameTrip p c.item

pub within_window-Stands :
    (before : Bool) (pickup delivery : Option Time) (city : LocationCode) (now : Time) (p : Package)
    (c : Correction)
    → p.end_location ≢ []
    → city ≢ []
    → within_window before pickup delivery city now p ≡ ok c
    → In (state_within before delivery city now p) p c
unfolding within_window
within_window-Stands true pickup delivery city now p c end-ne ne h =
    subst (In (todo, p.start_location) p) (ok_injective h) (restore-Stands p, restore-SameTrip p)
within_window-Stands false pickup none city now p c end-ne ne h =
    advance-Stands p.status pickup city p c refl ne h
within_window-Stands false pickup (some delivery) city now p c end-ne ne h =
    elim (Bool-cases (leb delivery now)) [
      | inl late ↦
          rw late
            (complete-Stands p.status pickup delivery p c refl end-ne (ground (arith, late, h)))
      | inr early ↦
          rw early (advance-Stands p.status pickup city p c refl ne (ground (arith, early, h)))
    ]

pub within_window_again :
    (before : Bool) (pickup delivery : Option Time) (city : LocationCode) (now : Time) (p : Package)
    → Stands
        (state_within before delivery city now p).0
        (state_within before delivery city now p).1
        p
    → within_window before pickup delivery city now p ≡ ok (unchanged p)
unfolding within_window unchanged
within_window_again true pickup delivery city now p h = rw (restore_again p h)
within_window_again false pickup none city now p h = advance_again pickup city p h
within_window_again false pickup (some delivery) city now p h =
    elim (Bool-cases (leb delivery now)) [
      | inl late ↦ rw late (complete_again pickup delivery p (rw late at h))
      | inr early ↦ rw early (advance_again pickup city p (rw early at h))
    ]

pub with_arrival-In :
    (t : Option Time) (s : State) (p : Package) (c : Correction)
    → In s p c
    → In s p (with_arrival t c)
with_arrival-In none s p c h = h
with_arrival-In (some t) s p c (stands, same) =
    elim (Bool-cases (same_time c.item.expected_arrival t)) [
      | inl e ↦ rw e (stands, same)
      | inr e ↦ rw e (
        record { status_eq = stands.status_eq; here = stands.here },
        record { start = same.start; end = same.end },
      )
    ]

pub with_arrival_again :
    (t : Option Time) (c : Correction)
    → with_arrival t (unchanged (with_arrival t c).item) ≡ unchanged (with_arrival t c).item
unfolding unchanged
with_arrival_again none c = refl
with_arrival_again (some t) c = ground arith

-- The names that a package and its route have are not empty.
pub record IsNamed (route : Route) (p : Package) : Type 0 where
  pub start : p.start_location ≢ []
  pub end : p.end_location ≢ []
  pub cities : All (λ c. c ≢ []) (locations route)

last_reached-named :
    (times : StopTimes) (now : Time) (count : ℕ) (cities : List LocationCode) (last : LocationCode)
    → All (λ c. c ≢ []) cities
    → last ≢ []
    → last_reached times now count cities last ≢ []
unfolding last_reached
last_reached-named times now zero cities last all ne = ne
last_reached-named times now (suc count) [] last all ne = ne
last_reached-named times now (suc count) (city ∷ cities) last (here, all) ne =
    ground (arith, last_reached-named times now count cities city all here, here)

All-drop :
    (n : ℕ) (cities : List LocationCode)
    → All (λ c. c ≢ []) cities
    → All (λ c. c ≢ []) (drop n cities)
All-drop zero cities all = all
All-drop (suc n) [] all = all
All-drop (suc n) (city ∷ cities) (here, all) = All-drop n cities all

pub city-named :
    (route : Route) (p : Package) (i j : ℕ) (times : StopTimes) (now : Time)
    → IsNamed route p
    → last_reached_city route p.start_location i j times now ≢ []
unfolding last_reached_city
city-named route p i j times now h =
    last_reached-named times now _ (drop i (locations route)) p.start_location
      (All-drop i (locations route) h.cities) h.start
