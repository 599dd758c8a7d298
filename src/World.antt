-- ===== src/World.antt =====
-- The objects of the domain, and what a method call does to them.
--
-- Packages, routes, trucks and customers are shared and mutable. A reference is the object's
-- identity, and the world holds the present fields of every object, so two references to one object
-- see each other's writes, and two objects may carry the same identifier. A method returns or raises
-- in a new world: what was written before a raise stays written.
use fleet_flow.Base.{ℕ, Bool, List, Option, ◌==◌, if◌then◌else◌}
use fleet_flow.Result.{Error, Result, ok, err}
use fleet_flow.Location.{LocationCode}
use fleet_flow.Contact.{ContactInfo}
use fleet_flow.Path.{RoutePath}
use fleet_flow.Schedule.{Time, RouteSchedule}
use fleet_flow.Weight.{Weight}
use fleet_flow.Enums.{ItemStatus, RouteStatus, TruckStatus}
use fleet_flow.Events.{DomainEvent}

abbrev pub PackageRef : Type 0
PackageRef = ℕ

abbrev pub RouteRef : Type 0
RouteRef = ℕ

abbrev pub TruckRef : Type 0
TruckRef = ℕ

abbrev pub CustomerRef : Type 0
CustomerRef = ℕ

-- domain/entities/delivery_package.py; `stored_location` is `_current_location`.
pub record Package : Type 0 where
  pub package_id : ℕ
  pub start_location : LocationCode
  pub end_location : LocationCode
  pub weight : Weight
  pub customer : CustomerRef
  pub route : Option RouteRef
  pub route_id : Option ℕ
  pub stored_location : Option LocationCode
  pub expected_arrival : Option Time
  pub status : ItemStatus
  pub pending_events : List DomainEvent

-- domain/entities/truck.py; the model is not read after the constructor's check and is left out.
pub record Truck : Type 0 where
  pub vehicle_id : ℕ
  pub capacity : ℕ
  pub max_range : ℕ
  pub status : TruckStatus
  pub current_location : Option LocationCode
  pub route : Option RouteRef
  pub busy_from : Option Time
  pub busy_until : Option Time
  pub in_transit_to : Option LocationCode

-- domain/entities/delivery_route.py
pub record Route : Type 0 where
  pub route_id : ℕ
  pub path : RoutePath
  pub truck : Option TruckRef
  pub packages : List PackageRef
  pub status : RouteStatus
  pub schedule : Option RouteSchedule
  pub pending_events : List DomainEvent

-- domain/entities/customer.py
pub record Customer : Type 0 where
  pub contact : ContactInfo
  pub customer_id : ℕ
  pub delivery_packages : List PackageRef
  pub pending_events : List DomainEvent

pub record World : Type 0 where
  pub packages : PackageRef → Package
  pub routes : RouteRef → Route
  pub trucks : TruckRef → Truck
  pub customers : CustomerRef → Customer

abbrev pub update {ℓ} : {A : Type ℓ} → (ℕ → A) → ℕ → A → ℕ → A
update f k v j = if j == k then v else f j

abbrev pub put_package : PackageRef → Package → World → World
put_package r p w = record w { packages = update w.packages r p }

abbrev pub put_route : RouteRef → Route → World → World
put_route r x w = record w { routes = update w.routes r x }

abbrev pub put_truck : TruckRef → Truck → World → World
put_truck r x w = record w { trucks = update w.trucks r x }

abbrev pub put_customer : CustomerRef → Customer → World → World
put_customer r x w = record w { customers = update w.customers r x }

abbrev pub Action : Type 0 → Type 0
Action A = World → Result A × World

abbrev pub pure : {A : Type 0} → A → Action A
pure a w = (ok a, w)

abbrev pub raise : {A : Type 0} → Error → Action A
raise e w = (err e, w)

-- Lifts a computation that only reads.
abbrev pub reads : {A : Type 0} → (World → Result A) → Action A
reads f w = (f w, w)

abbrev pub gets : {A : Type 0} → (World → A) → Action A
gets f w = (ok (f w), w)

abbrev pub modify : (World → World) → Action (Unit {0})
modify f w = (ok tt, f w)

abbrev pub raise_if : Bool → Error → Action (Unit {0})
raise_if b e w = (if b then err e else ok tt, w)

infixl 5 ◌>>=◌ ◌>>◌
abbrev pub ◌>>=◌ : {A B : Type 0} → Action A → (A → Action B) → Action B
◌>>=◌ m f w = let (r, w') = m w in elim r [ ok a ↦ f a w' | err e ↦ (err e, w') ]

abbrev pub ◌>>◌ : {A B : Type 0} → Action A → Action B → Action B
m >> k = m >>= λ _. k
