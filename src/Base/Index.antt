-- ===== src/Base/Index.antt =====
-- Dictionaries from a text to its position in a list, and the absence of duplicates.
use Prim.Native.Nat.{ℕ, zero, suc, ◌+◌, ◌≤◌}
use mathlib.Core.Path.{◌≡◌, refl, ap}
use mathlib.Core.Logic.{inl, inr}
use mathlib.Core.Bool.{true, false}
use mathlib.Core.List.{List, [], ◌∷◌, ◌++◌, map}
use mathlib.Core.Option.{Option, none, some}
use native.Mathlib.Omega.{arith}
use fleet_flow.Base.Tests.{Option-cases}
use fleet_flow.Base.Lists.{length, get_elem?}
use fleet_flow.Base.Strings.{Text, text_eq_iff, contains, distinct_count, dict_get}

-- `enumerate(xs, i)`, as the pairs of a dictionary comprehension
unfoldable pub enumerate : ℕ → List Text → List (Text × ℕ)
enumerate i [] = []
enumerate i (x ∷ xs) = (x, i) ∷ enumerate (suc i) xs

-- `{x: i for i, x in enumerate(xs)}.get(k)`
unfoldable pub index_of : List Text → Text → Option ℕ
unfolding enumerate dict_get
index_of xs k = dict_get (enumerate 0 xs) k

abbrev pub Nodup : List Text → Type 0
Nodup [] = Unit
Nodup (x ∷ xs) = (contains x xs ≡ false) × Nodup xs

distinct_count-le : (xs : List Text) → distinct_count xs ≤ length xs
unfolding distinct_count
distinct_count-le [] = omega arith
distinct_count-le (x ∷ xs) = ground (arith, distinct_count-le xs)

pub Nodup-of_count : (xs : List Text) → distinct_count xs ≡ length xs → Nodup xs
unfolding distinct_count
Nodup-of_count [] h = tt
Nodup-of_count (x ∷ xs) h = ground (arith, distinct_count-le xs, Nodup-of_count xs)

pub count_of_Nodup : (xs : List Text) → Nodup xs → distinct_count xs ≡ length xs
unfolding distinct_count
count_of_Nodup [] h = refl
count_of_Nodup (x ∷ xs) h = ground (arith, count_of_Nodup xs h.1)

pub contains_of_get_elem? :
    (xs : List Text) (i : ℕ) (k : Text) → get_elem? xs i ≡ some k → contains k xs ≡ true
unfolding contains
contains_of_get_elem? [] i k h = cc
contains_of_get_elem? (x ∷ xs) zero k h = ground (arith, text_eq_iff x k)
contains_of_get_elem? (x ∷ xs) (suc i) k h = ground (arith, contains_of_get_elem? xs i k h)

module _ {ℓ} {V : Type ℓ} where
  pub dict_get_absent :
      (d : List (Text × V)) (k : Text) → contains k (map (λ e. e.0) d) ≡ false → dict_get d k ≡ none
  unfolding contains dict_get
  dict_get_absent [] k h = refl
  dict_get_absent ((j, v) ∷ d) k h = ground (arith, dict_get_absent d k)

  pub dict_get_here :
      (pre : List (Text × V)) (k : Text) (v : V) (rest : List (Text × V))
      → contains k (map (λ e. e.0) rest) ≡ false
      → dict_get (pre ++ (k, v) ∷ rest) k ≡ some v
  unfolding dict_get
  dict_get_here [] k v rest h = ground (arith, dict_get_absent rest k h, text_eq_iff k k)
  dict_get_here (e ∷ pre) k v rest h = ground (arith, dict_get_here pre k v rest h)

keys-enumerate : (i : ℕ) (xs : List Text) → map (λ (e : Text × ℕ). e.0) (enumerate i xs) ≡ xs
unfolding enumerate
keys-enumerate i [] = refl
keys-enumerate i (x ∷ xs) = ap (◌∷◌ x) (keys-enumerate (suc i) xs)

enumerate_position :
    (xs : List Text) (i j : ℕ) (k : Text)
    → dict_get (enumerate i xs) k ≡ some j
    → (n : ℕ) × (j ≡ i + n) × (get_elem? xs n ≡ some k)
unfolding enumerate dict_get
enumerate_position [] i j k h = cc
enumerate_position (x ∷ xs) i j k h = elim (Option-cases (dict_get (enumerate (suc i) xs) k)) [
  | inl e ↦ (0, ground (arith, text_eq_iff x k), ground (arith, text_eq_iff x k))
  | inr (m, e) ↦ let (n, p, q) = enumerate_position xs (suc i) m k e in (suc n, ground arith, q)
]

-- The position that the dictionary gives holds the text.
pub get_elem?-index_of :
    (xs : List Text) (k : Text) (i : ℕ) → index_of xs k ≡ some i → get_elem? xs i ≡ some k
unfolding index_of
get_elem?-index_of xs k i h =
    let (n, p, q) = enumerate_position xs 0 i k h in let e : i ≡ n = omega arith in rw e q

enumerate_get :
    (xs : List Text) (i n : ℕ) (k : Text)
    → Nodup xs
    → get_elem? xs n ≡ some k
    → dict_get (enumerate i xs) k ≡ some (i + n)
unfolding enumerate dict_get
enumerate_get [] i n k d h = cc
enumerate_get (x ∷ xs) i zero k d h =
    let absent : contains k (map (λ (e : Text × ℕ). e.0) (enumerate (suc i) xs)) ≡ false =
      ground (arith, keys-enumerate (suc i) xs) in
    ground (arith, dict_get_absent (enumerate (suc i) xs) k absent, text_eq_iff x k)
enumerate_get (x ∷ xs) i (suc n) k d h = ground (arith, enumerate_get xs (suc i) n k d.1 h)

-- Without duplicates the dictionary gives the position of each text.
pub index_of-get_elem? :
    (xs : List Text) (i : ℕ) (k : Text)
    → Nodup xs
    → get_elem? xs i ≡ some k
    → index_of xs k ≡ some i
unfolding index_of
index_of-get_elem? xs i k d h =
    let e : 0 + i ≡ i = omega arith in rw (← e) (enumerate_get xs 0 i k d h)

pub index_of_absent : (xs : List Text) (k : Text) → contains k xs ≡ false → index_of xs k ≡ none
unfolding index_of
index_of_absent xs k h = dict_get_absent (enumerate 0 xs) k (rw (keys-enumerate 0 xs) h)
