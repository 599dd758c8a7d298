-- ===== src/Reconcile/Repairs.antt =====
-- The helpers of `_update_packages_for_route`. A helper that raises does so before it writes to the
-- package, but the last look-up of the expected arrival; the caller restores every package of the
-- route after a raise, so a package is a value here and a raise has none.
pub mod Stands
pub mod Completed
use fleet_flow.Base.{
  ℕ, zero, suc, ◌+◌, ◌-◌, Bool, true, false, not, ◌&&◌, ◌||◌, List, [], ◌∷◌, ◌++◌, Option, none,
  some, ltb, leb, ◌==◌, if◌then◌else◌, text_eq, dict_get, index_of, length,
}
use fleet_flow.Result.{Error, Result, ok, err, value_error, ◌>>=◌, ◌>>◌, require}
use fleet_flow.Location.{LocationCode, str}
use fleet_flow.Schedule.{Time}
use fleet_flow.Enums.{ItemStatus, todo, item_in_progress, done, item_status_eq}
use fleet_flow.World.{Package, Route}
use fleet_flow.Package.{current_location, mark_picked_up, mark_delivered}
use fleet_flow.RouteView.{departure_time, locations, route_arrival_time_at}

pub data PackageReconciliationReason : Type 0 where
  route_unscheduled route_path_invalid before_scheduled_pickup : PackageReconciliationReason
  missing_pickup_time lifecycle_state_inconsistent : PackageReconciliationReason
  route_progress_advanced expected_arrival_recalculated : PackageReconciliationReason

-- What a correction has done: the package, whether it changed, and the reasons so far.
pub record Correction : Type 0 where
  pub item : Package
  pub changed : Bool
  pub reasons : List PackageReconciliationReason

-- `if package.status != status: package.status = status`
abbrev pub with_status : ItemStatus → Package × Bool → Package × Bool
with_status status (p, changed) =
    if item_status_eq p.status status then (p, changed) else (record p { status = status }, true)

-- `if package.current_location != location: package.current_location = location`
abbrev pub with_location : LocationCode → Package × Bool → Package × Bool
with_location location (p, changed) =
    if text_eq (current_location p) location
    then (p, changed)
    else (record p { stored_location = some location }, true)

unfoldable pub set_package_state : ItemStatus → LocationCode → Package → Package × Bool
set_package_state status location p = with_location location (with_status status (p, false))

unfoldable pub restore_package_before_pickup : Package → Package × Bool
restore_package_before_pickup p = with_location p.start_location (with_status todo (p, false))

-- `if package_changed: reasons.append(because)`
abbrev pub with_reason :
    PackageReconciliationReason
    → Bool
    → List PackageReconciliationReason
    → List PackageReconciliationReason
with_reason because changed reasons = if changed then reasons ++ because ∷ [] else reasons

-- The two branches without a delivery window: the package waits, and expects no arrival.
unfoldable pub without_window : PackageReconciliationReason → Package → Correction
unfolding restore_package_before_pickup
without_window because p =
    let (q, changed) = restore_package_before_pickup p in
    elim q.expected_arrival [
      | none ↦ record { item = q; changed = changed; reasons = with_reason because changed [] }
      | some t ↦ record {
        item = record q { expected_arrival = none };
        changed = true;
        reasons = expected_arrival_recalculated ∷ because ∷ [];
      }
    ]

-- The last step of `_complete_package_lifecycle`.
abbrev pub at_end : Package → Bool → Correction
at_end p changed =
    if text_eq (current_location p) p.end_location
    then record { item = p; changed = changed; reasons = [] }
    else record {
      item = record p { stored_location = some p.end_location };
      changed = true;
      reasons = lifecycle_state_inconsistent ∷ [];
    }

-- `_complete_package_lifecycle`, for the package's status.
unfoldable pub complete_from : ItemStatus → Option Time → Time → Package → Result Correction
unfolding set_package_state mark_picked_up mark_delivered
complete_from todo none delivery p =
    let (q, changed) = set_package_state done p.end_location p in
    ok (record { item = q; changed = changed; reasons = missing_pickup_time ∷ [] })
complete_from todo (some pickup) delivery p = do
  q ← mark_picked_up pickup p
  r ← mark_delivered delivery q
  ok (at_end r true)
complete_from item_in_progress pickup delivery p = do
  q ← mark_delivered delivery p
  ok (at_end q true)
complete_from done pickup delivery p = ok (at_end p false)

abbrev pub complete_package_lifecycle : Option Time → Time → Package → Result Correction
complete_package_lifecycle pickup delivery p = complete_from p.status pickup delivery p

-- The last step of `_advance_package_in_progress`.
abbrev pub progressed :
    LocationCode → Bool → List PackageReconciliationReason → Package → Correction
progressed location changed reasons p =
    if text_eq (current_location p) location
    then record { item = p; changed = changed; reasons = reasons }
    else record {
      item = record p { stored_location = some location };
      changed = true;
      reasons = reasons ++ route_progress_advanced ∷ [];
    }

-- `package.status = ItemStatus.IN_PROGRESS`, with the reason.
abbrev pub repaired : LocationCode → Package → Correction
repaired location p =
    progressed location true (lifecycle_state_inconsistent ∷ [])
      (record p { status = item_in_progress })

-- `_advance_package_in_progress`, for the package's status.
unfoldable pub advance_from : ItemStatus → Option Time → LocationCode → Package → Result Correction
unfolding mark_picked_up
advance_from todo (some pickup) location p = do
  q ← mark_picked_up pickup p
  ok (progressed location true [] q)
advance_from todo none location p = ok (repaired location p)
advance_from item_in_progress pickup location p = ok (progressed location false [] p)
advance_from done pickup location p = ok (repaired location p)

abbrev pub advance_package_in_progress : Option Time → LocationCode → Package → Result Correction
advance_package_in_progress pickup location p = advance_from p.status pickup location p
