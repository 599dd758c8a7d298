-- ===== src/VehicleManager.antt =====
-- application/services/vehicle_manager.py: the trucks that can serve a route. The fleet is what the
-- repository lists, which is behind a port: an argument.
pub mod Available
use fleet_flow.Base.{ℕ, Bool, true, false, List, [], ◌∷◌, Option, none, some, leb, if◌then◌else◌}
use fleet_flow.Result.{Result, ok, err, ◌>>=◌}
use fleet_flow.World.{Route, World, TruckRef}
use fleet_flow.TruckPolicy.{Decision, evaluate}

-- `decision.accepted`
abbrev pub accepted : Decision → Bool
accepted none = true
accepted (some reason) = false

-- `is_suitable_for_route`, without the message
unfoldable pub is_suitable_for_route : World → TruckRef → Route → Result Bool
unfolding evaluate
is_suitable_for_route w ref route = evaluate w (w.trucks ref) route >>= λ d. ok (accepted d)

-- `[truck for truck in fleet if TruckAssignmentPolicy.evaluate(...).accepted]`
unfoldable pub suitable : World → Route → List TruckRef → Result (List TruckRef)
unfolding is_suitable_for_route
suitable w route [] = ok []
suitable w route (ref ∷ refs) = do
  fits ← is_suitable_for_route w ref route
  rest ← suitable w route refs
  ok (if fits then ref ∷ rest else rest)

-- `sorted(trucks, key=lambda truck: truck.vehicle_id)`, which is stable
unfoldable pub insert_by_id : World → TruckRef → List TruckRef → List TruckRef
insert_by_id w ref [] = ref ∷ []
insert_by_id w ref (x ∷ xs) =
    let rest = insert_by_id w ref xs in
    if leb (w.trucks ref).vehicle_id (w.trucks x).vehicle_id then ref ∷ x ∷ xs else x ∷ rest

unfoldable pub sort_by_id : World → List TruckRef → List TruckRef
unfolding insert_by_id
sort_by_id w [] = []
sort_by_id w (ref ∷ refs) = insert_by_id w ref (sort_by_id w refs)

unfoldable pub find_available_for_route : World → List TruckRef → Route → Result (List TruckRef)
unfolding suitable sort_by_id
find_available_for_route w fleet route = suitable w route fleet >>= λ refs. ok (sort_by_id w refs)
