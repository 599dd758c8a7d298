-- ===== src/Base/Strings.antt =====
-- Python's `str` as its list of code points, with equality, and dictionaries keyed by text that
-- are built by a comprehension: a later pair with the same key replaces an earlier one.
use Prim.Native.Nat.{ℕ, suc}
use Prim.Native.Char.{code}
use Prim.Native.String.{String}
use mathlib.Core.Path.{◌≡◌, refl}
use mathlib.Core.Logic.{◌↔◌}
use mathlib.Core.Bool.{Bool, true, false, ◌&&◌, ◌||◌}
use mathlib.Core.List.{List, [], ◌∷◌}
use mathlib.Core.Option.{Option, none, some}
use native.Mathlib.Omega.{arith}
use fleet_flow.Base.Tests.{◌==◌, if◌then◌else◌}

abbrev pub Text : Type 0
Text = List ℕ

abbrev pub codes : String → Text
codes String.[] = []
codes (String.◌∷◌ c s) = code c ∷ codes s

-- `a == b` on strings
unfoldable pub text_eq : Text → Text → Bool
text_eq [] [] = true
text_eq [] (y ∷ ys) = false
text_eq (x ∷ xs) [] = false
text_eq (x ∷ xs) (y ∷ ys) = (x == y) && text_eq xs ys

pub text_eq_iff : (a b : Text) → (text_eq a b ≡ true) ↔ (a ≡ b)
unfolding text_eq
text_eq_iff [] [] = (λ _. refl, λ _. refl)
text_eq_iff [] (y ∷ ys) = (λ h. cc, λ h. cc)
text_eq_iff (x ∷ xs) [] = (λ h. cc, λ h. cc)
text_eq_iff (x ∷ xs) (y ∷ ys) = ground (arith, text_eq_iff xs ys)

-- `k in xs`
unfoldable pub contains : Text → List Text → Bool
contains k [] = false
contains k (x ∷ xs) = text_eq x k || contains k xs

-- `len(set(xs))`
unfoldable pub distinct_count : List Text → ℕ
unfolding contains
distinct_count [] = 0
distinct_count (x ∷ xs) = let n = distinct_count xs in if contains x xs then n else suc n

module _ {ℓ} {V : Type ℓ} where
  -- `{k: v for k, v in pairs}.get(key)`
  unfoldable pub dict_get : List (Text × V) → Text → Option V
  dict_get [] k = none
  dict_get ((j, v) ∷ d) k = elim (dict_get d k) [
    | some w ↦ some w
    | none ↦ if text_eq j k then some v else none
  ]
