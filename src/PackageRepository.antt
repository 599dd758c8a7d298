-- ===== src/PackageRepository.antt =====
-- adapters/driven/persistence/memory/package_repository.py: packages by id, and the next id. The
-- packages are references; `ps` holds the fields of the objects.
pub mod Created
use fleet_flow.Base.{ℕ, ◌+◌, List, [], ◌∷◌, Option, ◌==◌, length}
use fleet_flow.Base.Dict.{get, set, pop}
use fleet_flow.Result.{Result, ok, value_error, require, ◌>>=◌, ◌>>◌}
use fleet_flow.Location.{LocationCode, str}
use fleet_flow.Schedule.{Time}
use fleet_flow.Weight.{Weight}
use fleet_flow.World.{Package, PackageRef, CustomerRef, update}
use fleet_flow.Package as Packages
use fleet_flow.CustomerRepository.{max, is_new}

pub record PackageRepository : Type 0 where
  pub packages_by_id : List (ℕ × PackageRef)
  pub next_id : ℕ

-- `InMemoryPackageRepository()`
abbrev pub empty : PackageRepository
empty = record { packages_by_id = []; next_id = 1 }

-- The fields of every package object.
abbrev pub Objects : Type 0
Objects = PackageRef → Package

abbrev pub get_by_id : ℕ → PackageRepository → Option PackageRef
get_by_id id r = get ◌==◌ r.packages_by_id id

abbrev pub with_package : ℕ → PackageRef → PackageRepository → PackageRepository
with_package id ref r = record {
  packages_by_id = set ◌==◌ r.packages_by_id id ref;
  next_id = max r.next_id (id + 1);
}

unfoldable pub add : Objects → PackageRef → PackageRepository → Result PackageRepository
add ps ref r = do
  require (is_new (get_by_id (ps ref).package_id r)) value_error
  ok (with_package (ps ref).package_id ref r)

-- `create`, with the reference of the new object and the id of the customer: the objects and the
-- repository after it
unfoldable pub create :
    Objects
    → PackageRef
    → (start_location end_location : LocationCode) → Weight
    → CustomerRef
    → (customer_id : ℕ) → (occurred_at : Time) → PackageRepository
    → Result (Objects × PackageRepository)
unfolding Packages.create add
create ps ref start_location end_location weight customer customer_id occurred_at r = do
  p ←
      Packages.create (str start_location) (str end_location) weight customer customer_id r.next_id
        occurred_at
  after ← add (update ps ref p) ref r
  ok (update ps ref p, after)

unfoldable pub remove : ℕ → PackageRepository → PackageRepository
remove id r = record r { packages_by_id = pop ◌==◌ r.packages_by_id id }

abbrev pub count_all : PackageRepository → ℕ
count_all r = length r.packages_by_id
