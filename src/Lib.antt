-- ===== src/Lib.antt =====
-- FleetFlow: the domain of a delivery fleet, and the reconciliation of its state with its schedules.
--
-- Packages are put on delivery routes, a truck serves a route, and a route with a departure time has
-- a schedule. What happened at a time follows from the schedules alone: services compare the stored
-- state with them, advance it, and undo an operation that failed from a snapshot.
--
-- The parts, from the inside outwards (paths from the root of the repository):
--   Location     src/domain/value_objects/location_code.py
--   Map          src/domain/services/map.py
--   Path         src/domain/value_objects/route_path.py
--   Load         src/domain/services/route_load_calculator.py, value_objects/package_load.py;
--                Weight has the arithmetic of its floats
--   Schedule     src/domain/value_objects/route_schedule.py
--   Scheduler    src/domain/services/route_scheduler.py
--   Enums        src/domain/enums
--   Events       src/domain/events; Recorder is src/shared/event_recorder_mixin.py
--   World        the fields of the shared objects, and the monad of the methods that write to several
--   Contact      src/domain/value_objects/contact_info.py
--   Package      src/domain/entities/delivery_package.py
--   Truck        src/domain/entities/truck.py
--   RouteView    src/domain/entities/delivery_route.py, the members that only read
--   Route        the same file, the members that write: Route for the route alone, Route.Links for its
--                packages, Route.Trucks for its truck
--   Customer     src/domain/entities/customer.py
--   CustomerRepository
--                src/adapters/driven/persistence/memory/customer_repository.py
--   PackageRepository
--                src/adapters/driven/persistence/memory/package_repository.py
--   PackagePolicy, TruckPolicy
--                src/domain/services/package_assignment_policy.py, truck_assignment_policy.py
--   Reconcile    src/application/services/world_state_reconciliation_service.py: Reconcile.Status for
--                the status of a route, Reconcile.Trucks for its truck, Reconcile.Repairs, Packages and
--                Updates for its packages, Reconcile.Routes for the loop over the routes and the
--                recovery of one that fails; the events and summaries of src/application/events and
--                results stand with them. Reconcile.Frame and Recovery say what a run may write and
--                what a recovery brings back
--   Heartbeat    src/application/services/heartbeat_service.py
--   CustomerService
--                src/application/services/customer_service.py, over the interface of the repository
--   VehicleManager
--                src/application/services/vehicle_manager.py: the search for trucks
--   Authorization
--                src/domain/enums/auth.py, src/application/services/authorization_service.py
--   AssignTruck  src/application/use_cases/routes/assign_truck_to_route.py: execute
-- Base and Result are shared helpers, and Tests has concrete inputs. A definition has the name of its
-- function or method, without a leading underscore; a module under a part's module has its theorems.
--
-- State. A method of one object that raises before its first write is a function to a Result. A method
-- that writes to several objects is an Action, a function of the World: references are the identities
-- of objects, two references may be equal, and what was written before a raise stays written. The
-- correction of a package is a function to a Result too: its caller restores the package after a
-- raise. The clock, which the source reads by datetime.now(), is an argument.
--
-- Numbers. Times are microseconds from datetime.min, with an overflow past datetime.max; durations
-- are not negative. Integers start at 0: a negative one is refused where 0 is. A weight is a double,
-- as a multiple of 2^-1074 kg, and a sum of weights is rounded to 53 bits, ties to even; the only loop
-- on fuel is the search for the excess bits of a sum, which is below 2^2099, so that 2047 rounds are
-- enough. The travel time of a segment is the exact quotient, rounded to a microsecond; the double
-- that the source divides first rounds to the same one at 87 km/h for distances below 10000 km.
--
-- Left out: the texts of errors and rejections, event identifiers, the model of a truck once it is
-- checked, time zones (a datetime is naive by its type), and letters beyond ASCII in location codes
-- and contacts.
-- The unit of work and the look-ups of AssignTruck are ports, hence parameters; a unit of work may
-- raise. The event of a denied permission goes to the message executor and is left out.
-- Not modelled: the other use cases, users and sessions, snapshots of the world, the outbox and
-- the audit trail, storage, HTTP and the command line.
pub mod Base
pub mod Result
pub mod Location
pub mod Contact
pub mod Map
pub mod Path
pub mod Weight
pub mod Load
pub mod Schedule
pub mod Scheduler
pub mod Enums
pub mod Events
pub mod Recorder
pub mod World
pub mod Package
pub mod RouteView
pub mod Truck
pub mod PackagePolicy
pub mod TruckPolicy
pub mod VehicleManager
pub mod Route
pub mod Customer
pub mod CustomerRepository
pub mod PackageRepository
pub mod CustomerService
pub mod Reconcile
pub mod Heartbeat
pub mod Authorization
pub mod AssignTruck
mod Tests
