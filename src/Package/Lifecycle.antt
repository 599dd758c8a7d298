-- ===== src/Package/Lifecycle.antt =====
-- The lifecycle of a package: waiting for pickup, in transit, delivered.
use fleet_flow.Base.{
  ℕ, ◌≡◌, refl, ap, ◌∙◌, ◌⊎◌, ◌≢◌, inl, inr, some, [], ◌∷◌, ◌++◌, arith, Option-cases,
}
use fleet_flow.Result.{ok, err, business_rule_violation}
use fleet_flow.Schedule.{Time}
use fleet_flow.Enums.{ItemStatus, todo, item_in_progress, done}
use fleet_flow.World.{Package}
use fleet_flow.Location.{LocationCode}
use fleet_flow.Events.{DomainEvent, PackageMoved, package_picked_up, package_delivered}
use fleet_flow.Package.{
  or_location, current_location, picked_up, delivered, mark_picked_up, mark_delivered,
}

-- The package is linked to the route `id`, and has the status.
pub record IsAt (status : ItemStatus) (p : Package) (id : ℕ) : Type 0 where
  pub linked : p.route_id ≡ some id
  pub status_eq : p.status ≡ status

ItemStatus-cases : (s x : ItemStatus) → (s ≡ x) ⊎ (s ≢ x)
ItemStatus-cases todo todo = inl refl
ItemStatus-cases item_in_progress item_in_progress = inl refl
ItemStatus-cases done done = inl refl
ItemStatus-cases todo item_in_progress = inr (λ e. cc)
ItemStatus-cases todo done = inr (λ e. cc)
ItemStatus-cases item_in_progress todo = inr (λ e. cc)
ItemStatus-cases item_in_progress done = inr (λ e. cc)
ItemStatus-cases done todo = inr (λ e. cc)
ItemStatus-cases done item_in_progress = inr (λ e. cc)

pub IsAt-cases :
    (x : ItemStatus) (p : Package) → ((id : ℕ) × IsAt x p id) ⊎ ((id : ℕ) → ¬ IsAt x p id)
IsAt-cases x p = elim (Option-cases p.route_id) [
  | inl e ↦ inr (λ id w. cc (w.linked))
  | inr (id, e) ↦ elim (ItemStatus-cases p.status x) [
    | inl s ↦ inl (id, record { linked = e; status_eq = s })
    | inr ne ↦ inr (λ j w. ne w.status_eq)
  ]
]

pub picked_up_of_IsAt :
    (t : Time) (p : Package) (id : ℕ) → IsAt todo p id → mark_picked_up t p ≡ ok (picked_up t id p)
unfolding mark_picked_up
picked_up_of_IsAt t p id w = rw (w.linked, w.status_eq)

pub delivered_of_IsAt :
    (t : Time) (p : Package) (id : ℕ)
    → IsAt item_in_progress p id
    → mark_delivered t p ≡ ok (delivered t id p)
unfolding mark_delivered
delivered_of_IsAt t p id w = rw (w.linked, w.status_eq)

pub refused_pickup :
    (t : Time) (p : Package)
    → ((id : ℕ) → ¬ IsAt todo p id)
    → mark_picked_up t p ≡ err business_rule_violation
unfolding mark_picked_up
refused_pickup t p h = elim (Option-cases p.route_id) [
  | inl e ↦ rw e
  | inr (id, e) ↦
      let ne : p.status ≢ todo = λ s. h id (record { linked = e; status_eq = s }) in ground arith
]

pub refused_delivery :
    (t : Time) (p : Package)
    → ((id : ℕ) → ¬ IsAt item_in_progress p id)
    → mark_delivered t p ≡ err business_rule_violation
unfolding mark_delivered
refused_delivery t p h = elim (Option-cases p.route_id) [
  | inl e ↦ rw e
  | inr (id, e) ↦
      let ne : p.status ≢ item_in_progress = λ s. h id (record { linked = e; status_eq = s }) in
      ground arith
]

-- The package with another status and location, and the event of that move as its newest one.
abbrev pub after_move :
    (PackageMoved → DomainEvent) → ItemStatus → LocationCode → Time → ℕ → Package → Package
after_move event status city t id p =
    let moved : PackageMoved = record {
      package_id = p.package_id;
      route_id = id;
      previous_status = p.status;
      new_status = status;
      previous_location = current_location p;
      new_location = city;
      scheduled_arrival = p.expected_arrival;
      occurred_at = t;
    } in
    record p {
      status = status;
      stored_location = some city;
      pending_events = p.pending_events ++ event moved ∷ [];
    }

or_location-some :
    (city start : LocationCode)
    → (city ≢ []) ⊎ (city ≡ start)
    → or_location (some city) start ≡ city
or_location-some [] start (inl ne) = ground (arith, ne refl)
or_location-some [] start (inr same) = cc
or_location-some (x ∷ city) start h = refl

pickup-eq :
    (t : Time) (p : Package) (id : ℕ)
    → picked_up t id p ≡ after_move package_picked_up item_in_progress p.start_location t id p
pickup-eq t p id = rw (or_location-some p.start_location p.start_location (inr refl))

delivery-eq :
    (t : Time) (p : Package) (id : ℕ)
    → p.end_location ≢ []
    → delivered t id p ≡ after_move package_delivered done p.end_location t id p
delivery-eq t p id ne = rw (or_location-some p.end_location p.start_location (inl ne))

abbrev pub PickupCases : Time → Package → Type 0
PickupCases t p =
    ((id : ℕ) × IsAt todo p id
      × (mark_picked_up t p
          ≡ ok (after_move package_picked_up item_in_progress p.start_location t id p)))
    ⊎ (((id : ℕ) → ¬ IsAt todo p id) × (mark_picked_up t p ≡ err business_rule_violation))

abbrev pub DeliveryCases : Time → Package → Type 0
DeliveryCases t p =
    ((id : ℕ) × IsAt item_in_progress p id
      × (mark_delivered t p ≡ ok (after_move package_delivered done p.end_location t id p)))
    ⊎ (((id : ℕ) → ¬ IsAt item_in_progress p id)
        × (mark_delivered t p ≡ err business_rule_violation))

-- The two transitions of a package whose end location is not empty, on every branch. A package that
-- is linked to a route and waits is picked up: it is in progress at its start location, its newest
-- event says from which status and location to which it moved, for which route, expected when, and
-- at which time, and the rest of it is as before; any other pickup is refused. A linked package in
-- progress is delivered: it is done at its end location, with the corresponding event, and the rest
-- of it is as before; any other delivery is refused.
pub lifecycle_cases :
    (t : Time) (p : Package) → p.end_location ≢ [] → PickupCases t p × DeliveryCases t p
lifecycle_cases t p ne = (pickup (IsAt-cases todo p), delivery (IsAt-cases item_in_progress p))
  where
    pickup : ((id : ℕ) × IsAt todo p id) ⊎ ((id : ℕ) → ¬ IsAt todo p id) → PickupCases t p
    pickup (inl (id, w)) = inl (id, w, picked_up_of_IsAt t p id w ∙ ap ok (pickup-eq t p id))
    pickup (inr h) = inr (h, refused_pickup t p h)

    delivery :
        ((id : ℕ) × IsAt item_in_progress p id) ⊎ ((id : ℕ) → ¬ IsAt item_in_progress p id)
        → DeliveryCases t p
    delivery (inl (id, w)) = inl (id, w, delivered_of_IsAt t p id w ∙ ap ok (delivery-eq t p id ne))
    delivery (inr h) = inr (h, refused_delivery t p h)

-- A package that waits on a route is delivered once. Its pickup and then its delivery succeed, and
-- after both it is done at its end location and still on the route. A delivery before the pickup, a
-- second pickup before the delivery, and any pickup or delivery after the delivery are refused.
pub delivery_cycle :
    (t u v : Time) (p : Package) (id : ℕ)
    → IsAt todo p id
    → (q : Package) × (r : Package) × (mark_picked_up t p ≡ ok q)
      × (mark_delivered u q ≡ ok r)
      × (q.status ≡ item_in_progress)
      × (q.stored_location ≡ some p.start_location)
      × (r.status ≡ done)
      × (r.stored_location ≡ some p.end_location)
      × (r.route_id ≡ some id)
      × (mark_delivered u p ≡ err business_rule_violation)
      × (mark_picked_up v q ≡ err business_rule_violation)
      × (mark_picked_up v r ≡ err business_rule_violation)
      × (mark_delivered v r ≡ err business_rule_violation)
delivery_cycle t u v p id w = (
  picked_up t id p,
  delivered u id (picked_up t id p),
  picked_up_of_IsAt t p id w,
  delivered_of_IsAt u (picked_up t id p) id (record { linked = w.linked; status_eq = refl }),
  refl,
  refl,
  refl,
  refl,
  w.linked,
  refused_delivery u p (λ j x. cc (w.status_eq, x.status_eq)),
  refused_pickup v _ (λ j x. cc (x.status_eq)),
  refused_pickup v _ (λ j x. cc (x.status_eq)),
  refused_delivery v _ (λ j x. cc (x.status_eq)),
)
