-- ===== src/Enums.antt =====
-- domain/enums: the lifecycle statuses, and the reasons for a rejection, a detachment or a release.
use fleet_flow.Base.{Bool, true, false}

pub data ItemStatus : Type 0 where
  todo item_in_progress done : ItemStatus

pub data RouteStatus : Type 0 where
  planned scheduled in_progress completed : RouteStatus

pub data TruckStatus : Type 0 where
  free on_the_way : TruckStatus

pub data PackageDetachmentReason : Type 0 where
  package_removed package_route_removed : PackageDetachmentReason

pub data TruckReleaseReason : Type 0 where
  route_completed truck_route_removed : TruckReleaseReason

pub data PackageAssignmentRejectionReason : Type 0 where
  locations_not_on_route locations_out_of_order pickup_already_passed :
      PackageAssignmentRejectionReason
  truck_capacity_exceeded package_truck_range_insufficient : PackageAssignmentRejectionReason
  package_already_assigned route_already_completed : PackageAssignmentRejectionReason

pub data TruckAssignmentRejectionReason : Type 0 where
  truck_range_insufficient truck_capacity_insufficient : TruckAssignmentRejectionReason
  truck_at_wrong_location target_route_unscheduled : TruckAssignmentRejectionReason
  current_route_availability_unknown availability_window_overlap : TruckAssignmentRejectionReason

abbrev pub item_status_eq : ItemStatus → ItemStatus → Bool
item_status_eq todo todo = true
item_status_eq item_in_progress item_in_progress = true
item_status_eq done done = true
item_status_eq _ _ = false

abbrev pub route_status_eq : RouteStatus → RouteStatus → Bool
route_status_eq planned planned = true
route_status_eq scheduled scheduled = true
route_status_eq in_progress in_progress = true
route_status_eq completed completed = true
route_status_eq _ _ = false

abbrev pub truck_status_eq : TruckStatus → TruckStatus → Bool
truck_status_eq free free = true
truck_status_eq on_the_way on_the_way = true
truck_status_eq _ _ = false
