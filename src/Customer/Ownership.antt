-- ===== src/Customer/Ownership.antt =====
-- A package is in the collection of its own customer alone, and there once.
use fleet_flow.Base.{
  ℕ, ◌+◌, ◌≤◌, Bool, true, false, ◌≡◌, refl, sym, ap, ◌⊎◌, inl, inr, List, [], ◌∷◌, Option, none,
  some, ◌==◌, ==_iff, if◌then◌else◌, mem, count, count-append, arith, Bool-cases,
}
use mathlib.Core.Path.{subst}
use fleet_flow.Result.{Result, Error, ok, err, domain_conflict, entity_not_found}
use fleet_flow.World.{World, PackageRef, CustomerRef, ◌>>◌}
use fleet_flow.Customer.{remove_first, cons_some, keep, remove_package, append_package, add_package}

abbrev pub held : World → CustomerRef → PackageRef → ℕ
held w c p = count p (w.customers c).delivery_packages

pub record IsOwned (w : World) : Type 0 where
  pub owner : (c : CustomerRef) (p : PackageRef) → 1 ≤ held w c p → (w.packages p).customer ≡ c
  pub once : (c : CustomerRef) (p : PackageRef) → held w c p ≤ 1

-- Two customers have different identifiers.
abbrev pub HasOwnIds : World → Type 0
HasOwnIds w =
    (c d : CustomerRef) → (w.customers c).customer_id ≡ (w.customers d).customer_id → c ≡ d

pub count-mem : (xs : List ℕ) (k : ℕ) → mem xs k ≡ false → count k xs ≡ 0
unfolding count
count-mem [] k h = refl
count-mem (x ∷ xs) k h = ground (arith, count-mem xs k, h)

remove_step :
    (b : Bool) (x : ℕ) (xs : List ℕ) (rest : Option (List ℕ)) {ys : List ℕ}
    → (if b then some xs else cons_some x rest) ≡ some ys
    → ((b ≡ true) × (ys ≡ xs)) ⊎ ((b ≡ false) × (zs : List ℕ) × (rest ≡ some zs) × (ys ≡ x ∷ zs))
remove_step true x xs rest h = inl (refl, cc h)
remove_step false x xs none h = cc
remove_step false x xs (some zs) h = inr (refl, zs, refl, cc h)

-- Without one occurrence of `a`, every element is there as often as before.
count-remove_first :
    (a : ℕ) (xs : List ℕ) {ys : List ℕ} (k : ℕ)
    → remove_first a xs ≡ some ys
    → count k xs ≡ (if a == k then 1 else 0) + count k ys
unfolding count remove_first
count-remove_first a [] k h = cc
count-remove_first a (x ∷ xs) k h = elim (remove_step (x == a) x xs (remove_first a xs) h) [
  | inl (here, same) ↦ rw (same, (==_iff x a).0 here) refl
  | inr (other, zs, left, same) ↦
      let rest = count-remove_first a xs k left in rw same (ground (arith, rest))
]

-- The package is with `self` alone, and all others are where they were.
abbrev pub IsMoved : CustomerRef → PackageRef → World → World → Type 0
IsMoved self p w v =
    (c : CustomerRef) (q : PackageRef)
    → held v c q ≡ (if q == p then (if c == self then 1 else 0) else held w c q)

IsMoved-IsOwned :
    (self : CustomerRef) (p : PackageRef) (w v : World)
    → IsOwned w
    → IsMoved self p w v
    → ((q : PackageRef)
        → (v.packages q).customer ≡ (if q == p then self else (w.packages q).customer))
    → IsOwned v
IsMoved-IsOwned self p w v owned moved named = record {
  owner = λ c q h.
      let n = moved c q in let m = named q in let o = owned.owner c q in ground (arith, h, n, m, o);
  once = λ c q. let n = moved c q in let o = owned.once c q in ground (arith, n, o);
}

append_package-IsMoved :
    (self : CustomerRef) (p : PackageRef) (w : World)
    → ((c : CustomerRef) → held w c p ≡ 0)
    → IsMoved self p w (append_package self p w).1
unfolding append_package
append_package-IsMoved self p w gone c q =
    let n = count-append (w.customers self).delivery_packages p q in
    let zero : (b : CustomerRef) → (q == p) ≡ true → held w b q ≡ 0 =
      λ b m. subst (λ k. held w b k ≡ 0) (sym ((==_iff q p).0 m)) (gone b) in
    elim (Bool-cases (c == self)) [
      | inl e ↦ rw (e, (==_iff c self).0 e) (ground (arith, n, zero self))
      | inr e ↦ rw e (ground (arith, zero c))
    ]

append_package-customer :
    (self : CustomerRef) (p : PackageRef) (w : World) (q : PackageRef)
    → ((append_package self p w).1.packages q).customer
      ≡ (if q == p then self else (w.packages q).customer)
unfolding append_package
append_package-customer self p w q = elim (Bool-cases (q == p)) [ inl e ↦ rw e | inr e ↦ rw e ]

abbrev pub Moves : CustomerRef → PackageRef → World → Result (Unit {0}) × World → Type 0
Moves self p w (r, v) =
    ((e : Error) × (r ≡ err e) × (v ≡ w)) ⊎ ((r ≡ ok tt) × IsMoved self p w v × IsOwned v)

append_package-Moves :
    (self : CustomerRef) (p : PackageRef) (old w : World)
    → IsOwned old
    → ((c : CustomerRef) → held w c p ≡ 0)
    → ((c : CustomerRef) (q : PackageRef) → (q == p) ≡ false → held w c q ≡ held old c q)
    → ((q : PackageRef) → (w.packages q).customer ≡ (old.packages q).customer)
    → Moves self p old (append_package self p w)
unfolding append_package
append_package-Moves self p old w owned gone kept named =
    let moved : IsMoved self p old (append_package self p w).1 = λ c q.
      let n = append_package-IsMoved self p w gone c q in
      let k = kept c q in ground (arith, n, k) in
    inr (
      refl,
      moved,
      IsMoved-IsOwned self p old (append_package self p w).1 owned moved (λ q.
          let n = append_package-customer self p w q in let k = named q in ground (arith, n, k)),
    )

take_unlisted :
    (self : CustomerRef) (p : PackageRef) (w : World)
    → IsOwned w
    → (w.packages p).customer ≡ self
    → (b : Bool) → mem (w.customers self).delivery_packages p ≡ b
    → Moves self p w (if b then (err domain_conflict, w) else append_package self p w)
take_unlisted self p w owned own true m = inl (domain_conflict, refl, refl)
take_unlisted self p w owned own false m =
    let none_here = count-mem (w.customers self).delivery_packages p m in
    append_package-Moves self p w w owned
      (λ b.
        let o = owned.owner b p in
        elim (Bool-cases (b == self)) [
          | inl e ↦ subst (λ k. held w k p ≡ 0) (sym ((==_iff b self).0 e)) none_here
          | inr e ↦ ground (arith, o, own, e)
        ])
      (λ b q h. refl) (λ q. refl)

take_over :
    (self : CustomerRef) (p : PackageRef) (w : World)
    → IsOwned w
    → ((w.packages p).customer == self) ≡ false
    → (o : Option (List PackageRef))
    → remove_first p (w.customers (w.packages p).customer).delivery_packages ≡ o
    → Moves self p w ((keep (w.packages p).customer o >> append_package self p) w)
take_over self p w owned apart none h = inl (entity_not_found, refl, refl)
take_over self p w owned apart (some rest) h =
    let c = (w.packages p).customer in
    append_package-Moves self p w (keep c (some rest) w).1 owned
      (λ b.
        let o = owned.owner b p in
        let once = owned.once c p in
        let n = count-remove_first p (w.customers c).delivery_packages p h in
        elim (Bool-cases (b == c)) [
          | inl e ↦ rw e (ground (arith, n, once))
          | inr e ↦ rw e (ground (arith, o, e))
        ])
      (λ b q z.
        let n = count-remove_first p (w.customers c).delivery_packages q h in
        elim (Bool-cases (b == c)) [
          | inl e ↦ rw (e, (==_iff b c).0 e) (ground (arith, n, z))
          | inr e ↦ rw e
        ])
      (λ q. refl)

-- add_package either raises and changes nothing, or the package is then once in the collection of
-- this customer and in no other, the other packages are where they were, and every package in a
-- collection is once there and has that customer.
pub add_package-IsOwned :
    (self : CustomerRef) (p : PackageRef) (w : World)
    → HasOwnIds w
    → IsOwned w
    → Moves self p w (add_package self p w)
unfolding add_package remove_package
add_package-IsOwned self p w ids owned =
    let c = (w.packages p).customer in
    elim (Bool-cases ((w.customers c).customer_id == (w.customers self).customer_id)) [
      | inl same ↦
          let own = ids c self ((==_iff _ _).0 same) in
          rw same
            (take_unlisted self p w owned own (mem (w.customers self).delivery_packages p) refl)
      | inr other ↦
          let apart : (c == self) ≡ false = elim (Bool-cases (c == self)) [
            | inl e ↦
                let id = ap (λ k. (w.customers k).customer_id) ((==_iff c self).0 e) in
                ground (arith, id, other)
            | inr e ↦ e
          ] in
          rw other
            (take_over self p w owned apart (remove_first p (w.customers c).delivery_packages) refl)
    ]
