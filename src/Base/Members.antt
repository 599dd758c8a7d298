-- ===== src/Base/Members.antt =====
-- Membership of numbers in lists, as a test.
use Prim.Native.Nat.{ℕ, ◌+◌}
use mathlib.Core.Path.{◌≡◌}
use mathlib.Core.Bool.{Bool, true, false, ◌||◌}
use mathlib.Core.List.{List, [], ◌∷◌, ◌++◌}
use native.Mathlib.Omega.{arith}
use fleet_flow.Base.Tests.{◌==◌, if◌then◌else◌}
use fleet_flow.Base.Lists.{All}

abbrev pub mem : List ℕ → ℕ → Bool
mem [] k = false
mem (x ∷ xs) k = x == k || mem xs k

pub All-mem : (xs : List ℕ) → All (λ x. mem xs x ≡ true) xs
All-mem xs = go xs (λ k h. h)
  where
    go :
        (ys : List ℕ)
        → ((k : ℕ) → mem ys k ≡ true → mem xs k ≡ true)
        → All (λ x. mem xs x ≡ true) ys
    go [] h = tt
    go (y ∷ ys) h = (h y (ground arith), go ys (λ k m. h k (ground (arith, m))))

pub mem-append_left : (xs ys : List ℕ) (k : ℕ) → mem xs k ≡ true → mem (xs ++ ys) k ≡ true
mem-append_left [] ys k h = cc
mem-append_left (x ∷ xs) ys k h = ground (arith, mem-append_left xs ys k)

pub mem-append_right : (xs ys : List ℕ) (k : ℕ) → mem ys k ≡ true → mem (xs ++ ys) k ≡ true
mem-append_right [] ys k h = h
mem-append_right (x ∷ xs) ys k h = ground (arith, mem-append_right xs ys k h)

-- How often `k` is in the list.
unfoldable pub count : ℕ → List ℕ → ℕ
count k [] = 0
count k (x ∷ xs) = (if x == k then 1 else 0) + count k xs

pub count-append :
    (xs : List ℕ) (a k : ℕ) → count k (xs ++ a ∷ []) ≡ count k xs + (if a == k then 1 else 0)
unfolding count
count-append [] a k = ground arith
count-append (x ∷ xs) a k = ground (arith, count-append xs a k)
