-- ===== src/Authorization/Granted.antt =====
-- Who may run a guarded use case.
use fleet_flow.Base.{
  Bool, true, false, ◌||◌, ◌≡◌, refl, ap, ◌∙◌, ◌⊎◌, inl, inr, List, [], ◌∷◌, Option, none, some,
  All, ◌==◌, if◌then◌else◌, ==_iff,
}
use fleet_flow.Result.{err, permission_error}
use fleet_flow.World.{World, Action}
use fleet_flow.Authorization.{
  Role, Permission, value, is_in, has, missing, is_none_missing, is_known, requires_all,
}

or_right : (a b : Bool) → b ≡ true → (a || b) ≡ true
or_right true b h = refl
or_right false b h = h

abbrev pub Denied : Option Role → List Permission → Type 0
Denied user ps = (p : Permission) × (is_in p ps ≡ true) × (has user p ≡ false)

abbrev Decides : Option Role → List Permission → Type 0
Decides user ps =
    ((is_none_missing (missing user ps) ≡ true) × All (λ p. has user p ≡ true) ps)
    ⊎ ((is_none_missing (missing user ps) ≡ false) × Denied user ps)

-- Of the permissions all are granted, or one of them is not.
decides : (user : Option Role) (ps : List Permission) → Decides user ps
decides user [] = inl (refl, tt)
decides user (p ∷ ps) = step (has user p) refl (decides user ps)
  where
    step : (b : Bool) → has user p ≡ b → Decides user ps → Decides user (p ∷ ps)
    step true e (inl (none_left, all)) = inl (
      ap (λ b. is_none_missing (if b then missing user ps else p ∷ missing user ps)) e ∙ none_left,
      (e, all),
    )
    step true e (inr (left, (q, here, denied))) = inr (
      ap (λ b. is_none_missing (if b then missing user ps else p ∷ missing user ps)) e ∙ left,
      (q, or_right (value p == value q) (is_in q ps) here, denied),
    )
    step false e rest = inr (
      ap (λ b. is_none_missing (if b then missing user ps else p ∷ missing user ps)) e,
      (p, ap (λ b. b || is_in p ps) ((==_iff (value p) (value p)).1 refl), e),
    )

-- A use case that requires some permissions runs exactly for a known user who has all of them;
-- otherwise it raises a permission error before its first step, and the world is as it was.
pub requires_all_decides :
    {A : Type 0} (user : Option Role) (ps : List Permission) (fn : Action A) (w : World)
    → ((is_known user ≡ true)
        × All (λ p. has user p ≡ true) ps
        × (requires_all user ps fn w ≡ fn w))
      ⊎ (((is_known user ≡ false) ⊎ Denied user ps)
          × (requires_all user ps fn w ≡ (err permission_error, w)))
unfolding requires_all
requires_all_decides none ps fn w = inr (inl refl, refl)
requires_all_decides (some role) ps fn w = elim (decides (some role) ps) [
  | inl (none_left, all) ↦ inl (refl, all, rw none_left)
  | inr (left, denied) ↦ inr (inr denied, rw left)
]
