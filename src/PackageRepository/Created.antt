-- ===== src/PackageRepository/Created.antt =====
-- A new package never meets the id of a stored one.
use fleet_flow.Base.{
  ℕ, ◌+◌, ◌<◌, false, ◌≡◌, refl, sym, ap, ◌∙◌, inl, inr, none, some, ◌==◌, ==_iff, if◌then◌else◌,
  arith, Bool-cases, Option-cases,
}
use fleet_flow.Base.Dict.{get, pop, get-set_here, get-set_other, get-pop_here, get-pop_other}
use mathlib.Core.Path.{subst}
use fleet_flow.Result.{
  Result, ok, value_error, >>-require, ok_injective, require, ◌>>=◌, ◌>>◌, >>=-eq-ok,
}
use fleet_flow.Location.{LocationCode, str}
use fleet_flow.Schedule.{Time}
use fleet_flow.Weight.{Weight}
use fleet_flow.World.{Package, PackageRef, CustomerRef, update}
use fleet_flow.Package as Packages
use fleet_flow.Package.Identity.{create-package_id}
use fleet_flow.CustomerRepository.{is_new, max}
use fleet_flow.PackageRepository.{
  PackageRepository, empty, Objects, get_by_id, with_package, add, create, remove,
}

-- Every stored id is below the next one.
abbrev pub IsBounded : PackageRepository → Type 0
IsBounded r = (i : ℕ) (ref : PackageRef) → get_by_id i r ≡ some ref → i < r.next_id

-- A repository after any sequence of operations, whatever becomes of the objects.
pub data Reachable : PackageRepository → Type 0 where
  start : Reachable empty
  added :
      {r r' : PackageRepository}
      → Reachable r
      → (ps : Objects) (ref : PackageRef) → add ps ref r ≡ ok r'
      → Reachable r'
  created :
      {r r' : PackageRepository}
      → Reachable r
      → (ps qs : Objects) (ref : PackageRef) (a b : LocationCode) (weight : Weight)
      → (customer : CustomerRef) (customer_id : ℕ) (occurred_at : Time)
      → create ps ref a b weight customer customer_id occurred_at r ≡ ok (qs, r')
      → Reachable r'
  removed : {r : PackageRepository} → Reachable r → (id : ℕ) → Reachable (remove id r)

with_package-IsBounded :
    (id : ℕ) (ref : PackageRef) (r : PackageRepository)
    → IsBounded r
    → IsBounded (with_package id ref r)
with_package-IsBounded id ref r h i other e = elim (Bool-cases (id == i)) [
  | inl own ↦ ground (arith, own)
  | inr off ↦
      let old = h i other (sym (get-set_other ◌==◌ ==_iff r.packages_by_id id ref i off) ∙ e) in
      ground (arith, old)
]

add-IsBounded :
    (ps : Objects) (ref : PackageRef) (r : PackageRepository) {r' : PackageRepository}
    → IsBounded r
    → add ps ref r ≡ ok r'
    → IsBounded r'
unfolding add
add-IsBounded ps ref r h e =
    let id = (ps ref).package_id in
    let (new, made) =
      >>-require (is_new (get_by_id id r)) value_error (ok (with_package id ref r)) e in
    subst IsBounded (ok_injective made) (with_package-IsBounded id ref r h)

remove-IsBounded : (id : ℕ) (r : PackageRepository) → IsBounded r → IsBounded (remove id r)
unfolding remove
remove-IsBounded id r h i other e = elim (Bool-cases (id == i)) [
  | inl own ↦
      let gone = get-pop_here ◌==◌ ==_iff r.packages_by_id id in
      cc (sym gone ∙ ap (get ◌==◌ (pop ◌==◌ r.packages_by_id id)) ((==_iff id i).0 own) ∙ e)
  | inr off ↦ h i other (sym (get-pop_other ◌==◌ ==_iff r.packages_by_id id i off) ∙ e)
]

create-IsBounded :
    (ps : Objects) (ref : PackageRef) (a b : LocationCode) (weight : Weight)
    (customer : CustomerRef) (customer_id : ℕ) (occurred_at : Time) (r : PackageRepository)
    {qs : Objects} {r' : PackageRepository}
    → IsBounded r
    → create ps ref a b weight customer customer_id occurred_at r ≡ ok (qs, r')
    → IsBounded r'
unfolding create
create-IsBounded ps ref a b weight customer customer_id occurred_at r h e =
    let finish : Package → PackageRepository → Result (Objects × PackageRepository) =
      λ p after. ok (update ps ref p, after) in
    let (p, made, rest) =
      >>=-eq-ok (Packages.create (str a) (str b) weight customer customer_id r.next_id occurred_at)
        (λ p. add (update ps ref p) ref r >>= finish p) e in
    let (after, done, last) = >>=-eq-ok (add (update ps ref p) ref r) (finish p) rest in
    let same : after ≡ _ = ap (λ (x : Objects × PackageRepository). x.1) (ok_injective last) in
    subst IsBounded same (add-IsBounded (update ps ref p) ref r h done)

Reachable-IsBounded : (r : PackageRepository) → Reachable r → IsBounded r
unfolding get
Reachable-IsBounded r start = λ i ref e. cc e
Reachable-IsBounded r (added before ps ref e) =
    add-IsBounded ps ref _ (Reachable-IsBounded _ before) e
Reachable-IsBounded r (created before ps qs ref a b weight customer customer_id occurred_at e) =
    create-IsBounded ps ref a b weight customer customer_id occurred_at _
      (Reachable-IsBounded _ before) e
Reachable-IsBounded r (removed before id) = remove-IsBounded id _ (Reachable-IsBounded _ before)

max-add_one : (n : ℕ) → max n (n + 1) ≡ n + 1
max-add_one n = ground arith

-- After any sequence of operations, every package that the constructor accepts is created: the
-- repository raises nothing, stores it under an id that no stored package has, keeps every other
-- entry, and the next id grows by one.
pub create_succeeds :
    (ps : Objects) (ref : PackageRef) (a b : LocationCode) (weight : Weight)
    (customer : CustomerRef) (customer_id : ℕ) (occurred_at : Time) (r : PackageRepository)
    (p : Package)
    → Reachable r
    → Packages.create (str a) (str b) weight customer customer_id r.next_id occurred_at ≡ ok p
    → (r' : PackageRepository) × (create ps ref a b weight customer customer_id occurred_at r
        ≡ ok (update ps ref p, r'))
      × (p.package_id ≡ r.next_id)
      × (get_by_id r.next_id r ≡ none)
      × (get_by_id r.next_id r' ≡ some ref)
      × ((i : ℕ) → (r.next_id == i) ≡ false → get_by_id i r' ≡ get_by_id i r)
      × (r'.next_id ≡ r.next_id + 1)
unfolding create add
create_succeeds ps ref a b weight customer customer_id occurred_at r p reached made =
    let id = r.next_id in
    let named : p.package_id ≡ id =
      create-package_id (str a) (str b) weight customer customer_id id occurred_at made in
    let bounded = Reachable-IsBounded r reached in
    let free : get_by_id id r ≡ none = elim (Option-cases (get_by_id id r)) [
      | inl e ↦ e
      | inr (other, e) ↦ let below = bounded id other e in ground (arith, below)
    ] in
    let key : (update ps ref p ref).package_id ≡ id =
      ap (λ b. (if b then p else ps ref).package_id) ((==_iff ref ref).1 refl) ∙ named in
    let kept : add (update ps ref p) ref r ≡ ok (with_package id ref r) =
      subst
        (λ k.
          (require (is_new (get_by_id k r)) value_error >> ok (with_package k ref r))
          ≡ ok (with_package id ref r))
        (sym key) (ap (λ o. require (is_new o) value_error >> ok (with_package id ref r)) free) in
    let pair : PackageRepository → Result (Objects × PackageRepository) =
      λ after. ok (update ps ref p, after) in
    (
      with_package id ref r,
      ap (λ x. x >>= λ p. add (update ps ref p) ref r >>= λ after. ok (update ps ref p, after)) made
          ∙ ap (λ x. x >>= pair) kept,
      named,
      free,
      get-set_here ◌==◌ ==_iff r.packages_by_id id ref,
      λ i off. get-set_other ◌==◌ ==_iff r.packages_by_id id ref i off,
      max-add_one id,
    )
