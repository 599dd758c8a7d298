-- ===== src/Recorder.antt =====
-- shared/event_recorder_mixin.py: the pending events of an aggregate, and their checkpoints.
use fleet_flow.Base.{
  ℕ, zero, suc, ◌≡◌, refl, ap, List, [], ◌∷◌, ◌++◌, arith, leb, if◌then◌else◌, length,
  length-append,
}
use fleet_flow.Result.{Result, ok, err, value_error}

module _ {ℓ} {E : Type ℓ} where
  -- `_record_event`
  abbrev pub record_event : E → List E → List E
  record_event e pending = pending ++ e ∷ []

  -- `clear_events`
  abbrev pub clear_events : List E → List E
  clear_events pending = []

  abbrev take : ℕ → List E → List E
  take zero xs = []
  take (suc n) [] = []
  take (suc n) (x ∷ xs) = x ∷ take n xs

  unfoldable pub event_checkpoint : List E → ℕ
  event_checkpoint pending = length pending

  -- `del self._pending_events[checkpoint:]`, for a checkpoint that is in range
  unfoldable pub restore_event_checkpoint : ℕ → List E → Result (List E)
  restore_event_checkpoint checkpoint pending =
      if leb checkpoint (length pending) then ok (take checkpoint pending) else err value_error

  take-append : (xs ys : List E) → take (length xs) (xs ++ ys) ≡ xs
  take-append [] ys = refl
  take-append (x ∷ xs) ys = ap (◌∷◌ x) (take-append xs ys)

  -- Events that were recorded after a checkpoint are dropped, and the earlier ones kept.
  pub restore_event_checkpoint-append :
      (pending more : List E)
      → restore_event_checkpoint (event_checkpoint pending) (pending ++ more) ≡ ok pending
  unfolding restore_event_checkpoint event_checkpoint
  restore_event_checkpoint-append pending more =
      ground (arith, length-append pending more, take-append pending more)

  take-prefix : (n : ℕ) (xs : List E) → (more : List E) × (xs ≡ take n xs ++ more)
  take-prefix zero xs = (xs, refl)
  take-prefix (suc n) [] = ([], refl)
  take-prefix (suc n) (x ∷ xs) = let (more, e) = take-prefix n xs in (more, ap (λ ys. x ∷ ys) e)

  -- What a checkpoint keeps are the first events.
  pub restore_event_checkpoint-prefix :
      (checkpoint : ℕ) (pending kept : List E)
      → restore_event_checkpoint checkpoint pending ≡ ok kept
      → (more : List E) × (pending ≡ kept ++ more)
  unfolding restore_event_checkpoint
  restore_event_checkpoint-prefix checkpoint pending kept h =
      let (more, e) = take-prefix checkpoint pending in
      let same : take checkpoint pending ≡ kept = ground arith in (more, cc (e, same))
