-- ===== src/Events.antt =====
-- domain/events: the facts that packages and routes record. The event id and the recording time of
-- shared/event.py are made at random or by the clock, and nothing here reads them: they are left out.
use fleet_flow.Base.{ℕ, List, Option}
use fleet_flow.Location.{LocationCode}
use fleet_flow.Schedule.{Time}
use fleet_flow.Weight.{Weight}
use fleet_flow.Enums.{
  ItemStatus, RouteStatus, TruckStatus, PackageDetachmentReason, TruckReleaseReason,
}

pub record PackageCreated : Type 0 where
  pub package_id : ℕ
  pub customer_id : ℕ
  pub start_location : LocationCode
  pub end_location : LocationCode
  pub weight : Weight
  pub initial_status : ItemStatus
  pub initial_location : LocationCode
  pub expected_arrival : Option Time
  pub occurred_at : Time

pub record PackageRemoved : Type 0 where
  pub package_id : ℕ
  pub customer_id : ℕ
  pub previous_route_id : Option ℕ
  pub previous_status : ItemStatus
  pub previous_location : LocationCode
  pub start_location : LocationCode
  pub end_location : LocationCode
  pub weight : Weight
  pub previous_expected_arrival : Option Time
  pub occurred_at : Time

-- `PackagePickedUp` and `PackageDelivered` have the same fields.
pub record PackageMoved : Type 0 where
  pub package_id : ℕ
  pub route_id : ℕ
  pub previous_status : ItemStatus
  pub new_status : ItemStatus
  pub previous_location : LocationCode
  pub new_location : LocationCode
  pub scheduled_arrival : Option Time
  pub occurred_at : Time

pub record RouteCreated : Type 0 where
  pub route_id : ℕ
  pub locations : List LocationCode
  pub departure_time : Option Time
  pub initial_status : RouteStatus
  pub expected_completion_time : Option Time
  pub occurred_at : Time

pub record RouteScheduled : Type 0 where
  pub route_id : ℕ
  pub previous_status : RouteStatus
  pub new_status : RouteStatus
  pub previous_departure_time : Option Time
  pub new_departure_time : Time
  pub previous_expected_completion_time : Option Time
  pub new_expected_completion_time : Time
  pub occurred_at : Time

pub record PackageAssignedToRoute : Type 0 where
  pub package_id : ℕ
  pub previous_route_id : Option ℕ
  pub new_route_id : ℕ
  pub previous_expected_arrival : Option Time
  pub new_expected_arrival : Option Time
  pub occurred_at : Time

pub record PackageDetachedFromRoute : Type 0 where
  pub package_id : ℕ
  pub previous_route_id : ℕ
  pub new_route_id : Option ℕ
  pub previous_status : ItemStatus
  pub new_status : ItemStatus
  pub previous_location : LocationCode
  pub new_location : LocationCode
  pub previous_expected_arrival : Option Time
  pub new_expected_arrival : Option Time
  pub reason : PackageDetachmentReason
  pub occurred_at : Time

pub record TruckAssignedToRoute : Type 0 where
  pub truck_id : ℕ
  pub previous_route_id : Option ℕ
  pub new_route_id : ℕ
  pub previous_status : TruckStatus
  pub new_status : TruckStatus
  pub previous_location : LocationCode
  pub new_location : LocationCode
  pub previous_busy_from : Option Time
  pub new_busy_from : Option Time
  pub previous_busy_until : Option Time
  pub new_busy_until : Option Time
  pub occurred_at : Time

pub record TruckReleasedFromRoute : Type 0 where
  pub truck_id : ℕ
  pub previous_route_id : ℕ
  pub new_route_id : Option ℕ
  pub previous_status : TruckStatus
  pub new_status : TruckStatus
  pub previous_location : LocationCode
  pub new_location : LocationCode
  pub previous_busy_from : Option Time
  pub new_busy_from : Option Time
  pub previous_busy_until : Option Time
  pub new_busy_until : Option Time
  pub reason : TruckReleaseReason
  pub occurred_at : Time

pub record RouteStarted : Type 0 where
  pub route_id : ℕ
  pub previous_status : RouteStatus
  pub new_status : RouteStatus
  pub occurred_at : Time

pub record RouteCompleted : Type 0 where
  pub route_id : ℕ
  pub previous_status : RouteStatus
  pub new_status : RouteStatus
  pub departure_time : Time
  pub expected_completion_time : Time
  pub occurred_at : Time

pub record RouteRemoved : Type 0 where
  pub route_id : ℕ
  pub previous_status : RouteStatus
  pub previous_locations : List LocationCode
  pub previous_departure_time : Option Time
  pub previous_expected_completion_time : Option Time
  pub detached_package_ids : List ℕ
  pub released_truck_id : Option ℕ
  pub occurred_at : Time

pub data DomainEvent : Type 0 where
  customer_created : (customer_id occurred_at : ℕ) → DomainEvent
  package_created : PackageCreated → DomainEvent
  package_removed : PackageRemoved → DomainEvent
  package_picked_up : PackageMoved → DomainEvent
  package_delivered : PackageMoved → DomainEvent
  route_created : RouteCreated → DomainEvent
  route_scheduled : RouteScheduled → DomainEvent
  package_assigned : PackageAssignedToRoute → DomainEvent
  package_detached : PackageDetachedFromRoute → DomainEvent
  truck_assigned : TruckAssignedToRoute → DomainEvent
  truck_released : TruckReleasedFromRoute → DomainEvent
  route_started : RouteStarted → DomainEvent
  route_completed : RouteCompleted → DomainEvent
  route_removed : RouteRemoved → DomainEvent
