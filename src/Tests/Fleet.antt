-- ===== src/Tests/Fleet.antt =====
-- Routes, packages and trucks at concrete inputs.
use fleet_flow.Base.{
  zero, suc, ℕ, true, false, ◌≡◌, refl, [], ◌∷◌, none, some, arith, leb, text_eq, codes,
}
use fleet_flow.Contact.{ContactInfo}
use fleet_flow.Map.{syd, mel, adl}
use fleet_flow.Schedule.{Time}
use fleet_flow.Weight.{kilograms}
use fleet_flow.Enums.{todo, scheduled, free, on_the_way, route_completed}
use fleet_flow.World.{Package, Route, Truck, World, RouteRef, TruckRef}
use fleet_flow.RouteView.{maximum_segment_load}
use fleet_flow.Route.Links.{assign_package}
use fleet_flow.Route.Trucks.{assign_truck, release_truck}
use fleet_flow.Route.Capacity.{Fits, assign_package-Fits}
use fleet_flow.Route.TruckLinks.{IsLinked, assign_truck-IsLinked, release_truck-IsLinked}
use fleet_flow.Tests.Journeys.{path, trip}

abbrev pub parcel : Package
parcel = record {
  package_id = 7;
  start_location = syd;
  end_location = adl;
  weight = kilograms 3;
  customer = 0;
  route = some 0;
  route_id = some 11;
  stored_location = some syd;
  expected_arrival = none;
  status = todo;
  pending_events = [];
}

abbrev crate : Package
crate = record parcel {
  package_id = 8;
  start_location = mel;
  weight = kilograms 4;
  route = none;
  route_id = none;
}

abbrev pub tour : Route
tour = record {
  route_id = 11;
  path = path;
  truck = some 0;
  packages = 0 ∷ [];
  status = scheduled;
  schedule = some trip;
  pending_events = [];
}

abbrev lorry : Truck
lorry = record {
  vehicle_id = 1001;
  capacity = 10;
  max_range = 2000;
  status = on_the_way;
  current_location = some syd;
  route = some 0;
  busy_from = some 1000;
  busy_until = some 66_289_656_172;
  in_transit_to = none;
}

abbrev packages : ℕ → Package
packages zero = parcel
packages (suc n) = crate

abbrev routes : ℕ → Route
routes zero = tour
routes (suc n) = record tour { route_id = 12; truck = none; packages = [] }

abbrev trucks : ℕ → Truck
trucks zero = lorry
trucks (suc n) = record lorry { status = free; route = none }

abbrev pub contact : ContactInfo
contact = record { name = codes "Ada"; email = []; phone_number = [] }

abbrev pub fleet : World
fleet = record {
  packages = packages;
  routes = routes;
  trucks = trucks;
  customers = λ _. record {
    contact = contact;
    customer_id = 1;
    delivery_packages = [];
    pending_events = [];
  };
}

fleet-Fits : Fits fleet 0
unfolding maximum_segment_load text_eq kilograms
fleet-Fits zero e =
    let fits : leb (maximum_segment_load fleet (fleet.routes 0) none) (kilograms lorry.capacity)
        ≡ true =
      refl in
    ground arith
fleet-Fits (suc t) e = cc

assign_package-Fits_example : Fits (assign_package 0 1 (some 500) 500 500 fleet).1 0
assign_package-Fits_example = assign_package-Fits 0 1 (some 500) 500 500 fleet fleet-Fits

fleet-IsLinked : IsLinked fleet
fleet-IsLinked = record { back = back; busy = busy; forth = forth }
  where
    back :
        (r : RouteRef) (t : TruckRef)
        → (fleet.routes r).truck ≡ some t
        → (fleet.trucks t).route ≡ some r
    back zero zero e = refl
    back zero (suc t) e = cc
    back (suc r) t e = cc

    busy :
        (r : RouteRef) (t : TruckRef)
        → (fleet.routes r).truck ≡ some t
        → (fleet.trucks t).status ≡ on_the_way
    busy zero zero e = refl
    busy zero (suc t) e = cc
    busy (suc r) t e = cc

    forth :
        (t : TruckRef) (r : RouteRef)
        → (fleet.trucks t).route ≡ some r
        → (fleet.routes r).truck ≡ some t
    forth zero zero e = refl
    forth zero (suc r) e = cc
    forth (suc t) r e = cc

assign_truck-IsLinked_example : IsLinked (assign_truck 1 1 500 fleet).1
assign_truck-IsLinked_example = assign_truck-IsLinked 1 1 500 fleet fleet-IsLinked

abbrev pub late : Time
late = 70_000_000_000

release_truck-IsLinked_example :
    IsLinked (release_truck 0 (some late) late false route_completed late fleet).1
release_truck-IsLinked_example =
    release_truck-IsLinked 0 (some late) late false route_completed late fleet fleet-IsLinked
