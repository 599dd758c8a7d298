-- ===== src/Reconcile/Frame/Trucks.antt =====
-- The truck of a route: what its reconciliation writes to.
use fleet_flow.Base.{
  Bool, true, false, ◌≡◌, refl, inl, inr, List, [], ◌∷◌, Option, none, some, if◌then◌else◌, ◌==◌,
  Bool-cases,
}
use fleet_flow.Result.{ok}
use fleet_flow.Schedule.{
  Time, RoutePosition, RoutePositionKind, unscheduled, before_start, at_stop, in_transit, after_end,
}
use fleet_flow.World.{World, RouteRef, TruckRef, Action, put_truck, pure}
use fleet_flow.RouteView.{start_location, current_position}
use fleet_flow.Reconcile.Trucks.{
  TruckEvent, TruckReconciliationSummary, stand_at, set_truck_unscheduled, set_truck_in_transit,
  move_truck, release_completed, has_ended, set_truck_at_stop, place_truck, position_truck,
  repair_truck, reconcile_truck, nothing, reference_event,
}
use fleet_flow.Reconcile.Frame.Keeps.{
  Area, IsClosed, Kept, Kept-refl, Kept-trans, Kept-case, Kept-truck,
}
use fleet_flow.Reconcile.Frame.Releases.{
  stand_at-SameTruck, in_transit-SameTruck, unscheduled-SameTruck, Kept-move,
  Kept-release_completed, Kept-release_if,
}

module _ (a : Area) (ref : TruckRef) (fits : a.trucks ref ≡ true) where
  Kept-at_stop :
      (position : RoutePosition) (now : Time) (w : World)
      → IsClosed a w
      → Kept a w (set_truck_at_stop (a.self) ref position now w).1
  unfolding set_truck_at_stop
  Kept-at_stop position now w h =
      let moved =
        Kept-move a ref fits (stand_at (a.self) position.stop_city)
          (stand_at-SameTruck (a.self) position.stop_city) w h in
      let w1 = (move_truck ref (stand_at (a.self) position.stop_city) w).1 in
      let call : Action Bool =
        if has_ended (w1.routes (a.self)) position now
        then release_completed (a.self) now
        else pure false in
      let released =
        Kept-release_if a (has_ended (w1.routes (a.self)) position now) now w1 moved.closed in
      Kept-trans a moved (
        Kept-case a w1 (call w1).0 (call w1).1 _ released
          (λ x e. Kept-refl a (call w1).1 released.closed))

  Kept-place_truck :
      (now : Time) (position : RoutePosition) (kind : RoutePositionKind) (w : World)
      → IsClosed a w
      → Kept a w (place_truck (a.self) ref now position kind w).1
  unfolding place_truck
  Kept-place_truck now position unscheduled w h =
      Kept-move a ref fits set_truck_unscheduled unscheduled-SameTruck w h
  Kept-place_truck now position before_start w h =
      Kept-move a ref fits (stand_at (a.self) (some (start_location (w.routes (a.self)))))
        (stand_at-SameTruck (a.self) (some (start_location (w.routes (a.self))))) w h
  Kept-place_truck now position at_stop w h = Kept-at_stop position now w h
  Kept-place_truck now position in_transit w h =
      Kept-move a ref fits (set_truck_in_transit (a.self) position)
        (in_transit-SameTruck (a.self) position) w h
  Kept-place_truck now position after_end w h =
      let released = Kept-release_completed a now w h in
      Kept-case a w (release_completed (a.self) now w).0 (release_completed (a.self) now w).1 _
        released (λ x e. Kept-refl a _ released.closed)

  Kept-position_truck :
      (now : Time) (reconciled : List TruckRef) (events : List TruckEvent) (w : World)
      → IsClosed a w
      → Kept a w (position_truck (a.self) ref now reconciled events w).1
  unfolding position_truck
  Kept-position_truck now reconciled events w h =
      Kept-case a w (current_position (w.routes (a.self)) (some now) now) w _ (Kept-refl a w h)
        (λ position e.
          let call = place_truck (a.self) ref now position position.kind w in
          let placed = Kept-place_truck now position position.kind w h in
          Kept-case a w call.0 call.1 _ placed (λ x f. Kept-refl a call.1 placed.closed))

  Kept-repair_truck :
      (now : Time) (route : Option RouteRef) (w : World)
      → IsClosed a w
      → Kept a w (repair_truck (a.self) ref now route w).1
  unfolding repair_truck
  Kept-repair_truck now none w h =
      let linked = record (w.trucks ref) { route = some (a.self) } in
      let first =
        Kept-truck a w ref linked h fits (record { id = refl; carries = refl; reaches = refl }) in
      Kept-trans a first (
        Kept-position_truck now (ref ∷ [])
          (reference_event ((put_truck ref linked w).trucks ref) (w.routes (a.self)).route_id now
            ∷ [])
          (put_truck ref linked w) first.closed)
  Kept-repair_truck now (some other) w h = elim (Bool-cases (other == a.self)) [
    | inl same ↦ rw same (Kept-position_truck now [] [] w h)
    | inr another ↦ rw another (Kept-refl a w h)
  ]

module _ (a : Area) where
  abbrev reconcile_on : Option TruckRef → Time → Action TruckReconciliationSummary
  reconcile_on o now w = elim o [
    | none ↦ (ok nothing, w)
    | some ref ↦ repair_truck (a.self) ref now (w.trucks ref).route w
  ]

  Kept-reconcile_on :
      (o : Option TruckRef) (now : Time) (w : World)
      → (w.routes (a.self)).truck ≡ o
      → IsClosed a w
      → Kept a w (reconcile_on o now w).1
  Kept-reconcile_on none now w e h = Kept-refl a w h
  Kept-reconcile_on (some ref) now w e h =
      Kept-repair_truck a ref (h.truck_in ref e) now (w.trucks ref).route w h

  pub Kept-reconcile_truck :
      (now : Time) (w : World) → IsClosed a w → Kept a w (reconcile_truck (a.self) now w).1
  unfolding reconcile_truck
  Kept-reconcile_truck now w h = Kept-reconcile_on (w.routes (a.self)).truck now w refl h
