-- ===== src/VehicleManager/Available.antt =====
-- The trucks that are found are the suitable ones, by increasing id.
use fleet_flow.Base.{
  ℕ, ◌+◌, ◌≤◌, Bool, true, false, ◌≡◌, refl, sym, ap, ◌∙◌, inl, inr, List, [], ◌∷◌, none, some, leb,
  ltb, ==_iff, ◌==◌, if◌then◌else◌, count, All, arith, Bool-cases,
}
use fleet_flow.Result.{Result, ok, err, ◌>>=◌}
use fleet_flow.Weight.{kilograms}
use fleet_flow.World.{Route, World, TruckRef}
use fleet_flow.Enums.{truck_range_insufficient, truck_capacity_insufficient}
use fleet_flow.RouteView.{total_distance_km, maximum_segment_load}
use fleet_flow.TruckPolicy.{Decision, evaluate, evaluate_schedule}
use fleet_flow.VehicleManager.{
  accepted, is_suitable_for_route, suitable, insert_by_id, sort_by_id, find_available_for_route,
}

abbrev id : World → TruckRef → ℕ
id w ref = (w.trucks ref).vehicle_id

-- The ids of a list do not decrease.
abbrev pub IsSorted : World → List TruckRef → Type 0
IsSorted w [] = Unit
IsSorted w (a ∷ refs) = All (λ b. id w a ≤ id w b) refs × IsSorted w refs

-- The policy's answer, where it does not raise.
abbrev pub suits : World → Route → TruckRef → Bool
suits w route ref = elim (evaluate w (w.trucks ref) route) [ ok d ↦ accepted d | err e ↦ false ]

count-insert_by_id :
    (w : World) (ref : TruckRef) (refs : List TruckRef) (k : TruckRef)
    → count k (insert_by_id w ref refs) ≡ (if ref == k then 1 else 0) + count k refs
unfolding insert_by_id count
count-insert_by_id w ref [] k = refl
count-insert_by_id w ref (x ∷ xs) k = elim (Bool-cases (leb (id w ref) (id w x))) [
  | inl e ↦ rw e refl
  | inr e ↦ let rest = count-insert_by_id w ref xs k in rw e (omega (arith, rest))
]

All-insert_by_id :
    (w : World) (n : ℕ) (ref : TruckRef) (refs : List TruckRef)
    → n ≤ id w ref
    → All (λ b. n ≤ id w b) refs
    → All (λ b. n ≤ id w b) (insert_by_id w ref refs)
unfolding insert_by_id
All-insert_by_id w n ref [] h all = (h, tt)
All-insert_by_id w n ref (x ∷ xs) h (here, all) = elim (Bool-cases (leb (id w ref) (id w x))) [
  | inl e ↦ rw e (h, (here, all))
  | inr e ↦ rw e (here, All-insert_by_id w n ref xs h all)
]

All-below :
    (w : World) (m n : ℕ) (refs : List TruckRef)
    → m ≤ n
    → All (λ b. n ≤ id w b) refs
    → All (λ b. m ≤ id w b) refs
All-below w m n [] h all = tt
All-below w m n (x ∷ xs) h (here, all) = (omega (arith, h, here), All-below w m n xs h all)

insert_by_id-IsSorted :
    (w : World) (ref : TruckRef) (refs : List TruckRef)
    → IsSorted w refs
    → IsSorted w (insert_by_id w ref refs)
unfolding insert_by_id
insert_by_id-IsSorted w ref [] h = (tt, tt)
insert_by_id-IsSorted w ref (x ∷ xs) (all, rest) = elim (Bool-cases (leb (id w ref) (id w x))) [
  | inl e ↦
      let below : id w ref ≤ id w x = ground (arith, e) in
      rw e ((below, All-below w (id w ref) (id w x) xs below all), (all, rest))
  | inr e ↦
      let above : id w x ≤ id w ref = ground (arith, e) in
      rw e (All-insert_by_id w (id w x) ref xs above all, insert_by_id-IsSorted w ref xs rest)
]

sort_by_id-IsSorted : (w : World) (refs : List TruckRef) → IsSorted w (sort_by_id w refs)
unfolding sort_by_id
sort_by_id-IsSorted w [] = tt
sort_by_id-IsSorted w (ref ∷ refs) =
    insert_by_id-IsSorted w ref (sort_by_id w refs) (sort_by_id-IsSorted w refs)

count-sort_by_id :
    (w : World) (refs : List TruckRef) (k : TruckRef) → count k (sort_by_id w refs) ≡ count k refs
unfolding sort_by_id count
count-sort_by_id w [] k = refl
count-sort_by_id w (ref ∷ refs) k =
    let one = count-insert_by_id w ref (sort_by_id w refs) k in
    let rest = count-sort_by_id w refs k in omega (arith, one, rest)

fits_or :
    (b c : Bool) (x y z : Decision)
    → (if b then ok x else if c then ok y else ok z) ≡ ok (if b then x else if c then y else z)
fits_or true c x y z = refl
fits_or false true x y z = refl
fits_or false false x y z = refl

decided :
    (w : World) (ref : TruckRef) (route : Route) (distance : ℕ)
    → total_distance_km route ≡ ok distance
    → (d : Decision) × (evaluate w (w.trucks ref) route ≡ ok d)
unfolding evaluate
decided w ref route distance h =
    let t = w.trucks ref in
    (
      if ltb t.max_range distance
          then some truck_range_insufficient
          else if ltb (kilograms t.capacity) (maximum_segment_load w route none)
          then some truck_capacity_insufficient
          else evaluate_schedule w t route t.route,
      rw h (
          fits_or (ltb t.max_range distance)
            (ltb (kilograms t.capacity) (maximum_segment_load w route none))
            (some truck_range_insufficient) (some truck_capacity_insufficient)
            (evaluate_schedule w t route t.route)),
    )

-- Where the distance of the route is known, the policy answers.
answers :
    (w : World) (ref : TruckRef) (route : Route) (distance : ℕ)
    → total_distance_km route ≡ ok distance
    → is_suitable_for_route w ref route ≡ ok (suits w route ref)
unfolding is_suitable_for_route
answers w ref route distance h =
    let (d, e) = decided w ref route distance h in
    let answer : Result Decision → Bool = λ o. elim o [ ok d ↦ accepted d | err e ↦ false ] in
    ap (λ o. o >>= λ d. ok (accepted d)) e ∙ ap (λ o. ok (answer o)) (sym e)

chosen : World → Route → List TruckRef → List TruckRef
chosen w route [] = []
chosen w route (ref ∷ refs) =
    let rest = chosen w route refs in if suits w route ref then ref ∷ rest else rest

suitable-chosen :
    (w : World) (route : Route) (distance : ℕ) (fleet : List TruckRef)
    → total_distance_km route ≡ ok distance
    → suitable w route fleet ≡ ok (chosen w route fleet)
unfolding suitable chosen
suitable-chosen w route distance [] h = refl
suitable-chosen w route distance (ref ∷ refs) h =
    rw (answers w ref route distance h, suitable-chosen w route distance refs h)

count-chosen :
    (w : World) (route : Route) (fleet : List TruckRef) (k : TruckRef)
    → count k (chosen w route fleet) ≡ (if suits w route k then count k fleet else 0)
unfolding chosen count
count-chosen w route [] k = elim (Bool-cases (suits w route k)) [ inl e ↦ rw e | inr e ↦ rw e ]
count-chosen w route (ref ∷ refs) k =
    step (suits w route ref) (suits w route k) (λ e. ap (suits w route) ((==_iff ref k).0 e))
      (count-chosen w route refs k)
  where
    step :
        (b c : Bool)
        → ((ref == k) ≡ true → b ≡ c)
        → count k (chosen w route refs) ≡ (if c then count k refs else 0)
        → count k (if b then ref ∷ chosen w route refs else chosen w route refs)
          ≡ (if c then (if ref == k then 1 else 0) + count k refs else 0)
    step true true agree h = omega (arith, h)
    step false false agree h = h
    step true false agree h = elim (Bool-cases (ref == k)) [
      | inl e ↦ cc (agree e)
      | inr e ↦ rw e (omega (arith, h))
    ]
    step false true agree h = elim (Bool-cases (ref == k)) [
      | inl e ↦ cc (agree e)
      | inr e ↦ rw e (omega (arith, h))
    ]

-- For a route with a known distance, the search returns, without an error, the trucks of the fleet
-- that the policy accepts and no others, each as often as the fleet has it, by increasing id.
pub find_available_for_route-IsSorted :
    (w : World) (fleet : List TruckRef) (route : Route) (distance : ℕ)
    → total_distance_km route ≡ ok distance
    → (refs : List TruckRef) × (find_available_for_route w fleet route ≡ ok refs)
      × IsSorted w refs
      × ((k : TruckRef) → count k refs ≡ (if suits w route k then count k fleet else 0))
unfolding find_available_for_route
find_available_for_route-IsSorted w fleet route distance h =
    let refs = chosen w route fleet in
    (
      sort_by_id w refs,
      ap (λ o. o >>= λ refs. ok (sort_by_id w refs)) (suitable-chosen w route distance fleet h),
      sort_by_id-IsSorted w refs,
      λ k. count-sort_by_id w refs k ∙ count-chosen w route fleet k,
    )
