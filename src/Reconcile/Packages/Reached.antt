-- ===== src/Reconcile/Packages/Reached.antt =====
-- The stops that a route has reached at a time, described without the loop that looks for them.
use fleet_flow.Base.{
  ℕ, zero, suc, ◌+◌, ◌-◌, ◌≤◌, ◌<◌, ◌≡◌, refl, sym, ◌∙◌, ap, ◌⊎◌, inl, inr, List, [], ◌∷◌, ◌++◌,
  none, some, arith, ltb, All, length, length-append, dict_get, get_elem?, Bool-cases, Option-cases,
}
use mathlib.Core.Path.{subst}
use fleet_flow.Location.{LocationCode}
use fleet_flow.Schedule.{Time}
use fleet_flow.Reconcile.Packages.{StopTimes, last_reached, drop}

-- The city has a time, and it is not after `now`.
abbrev pub IsReached : StopTimes → Time → LocationCode → Type 0
IsReached times now city = (t : Time) × (dict_get times city ≡ some t) × (t ≤ now)

-- The city has a time, and it is after `now`.
abbrev pub IsAhead : StopTimes → Time → LocationCode → Type 0
IsAhead times now city = (t : Time) × (dict_get times city ≡ some t) × (now < t)

-- The first of the cities, if there is one, has no time or is still ahead.
abbrev pub NotReached : StopTimes → Time → List LocationCode → Type 0
NotReached times now [] = Unit
NotReached times now (city ∷ cities) = (dict_get times city ≡ none) ⊎ IsAhead times now city

abbrev pub last_of : LocationCode → List LocationCode → LocationCode
last_of start [] = start
last_of start (city ∷ cities) = last_of city cities

-- The cities begin with some that are all reached, and the one after these is not; `city` is the
-- last of these, or `start` if there are none.
pub record LastReached (times : StopTimes) (now : Time) (start : LocationCode)
    (cities : List LocationCode) (city : LocationCode) : Type 0 where
  pub reached : List LocationCode
  pub left : List LocationCode
  pub split : cities ≡ reached ++ left
  pub all_reached : All (λ c. IsReached times now c) reached
  pub next_left : NotReached times now left
  pub is_last : city ≡ last_of start reached

-- The cities of the path from its position `i` to its position `j`, both included.
pub record IsSegment (path : List LocationCode) (i j : ℕ) (cities : List LocationCode)
    : Type 0 where
  pub before : List LocationCode
  pub after : List LocationCode
  pub split : path ≡ before ++ (cities ++ after)
  pub starts : length before ≡ i
  pub ends : i + length cities ≡ j + 1

last_reached-LastReached :
    (times : StopTimes) (now : Time) (cities rest : List LocationCode) (start : LocationCode)
    → LastReached times now start cities
        (last_reached times now (length cities) (cities ++ rest) start)
unfolding last_reached
last_reached-LastReached times now [] rest start = record {
  reached = [];
  left = [];
  split = refl;
  all_reached = tt;
  next_left = tt;
  is_last = refl;
}
last_reached-LastReached times now (city ∷ cities) rest start =
    let later = last_reached-LastReached times now cities rest city in
    elim (Option-cases (dict_get times city)) [
      | inl unknown ↦
          rw (last_reached, unknown)
            (record {
              reached = [];
              left = city ∷ cities;
              split = refl;
              all_reached = tt;
              next_left = inl unknown;
              is_last = refl;
            })
      | inr (t, known) ↦ elim (Bool-cases (ltb now t)) [
        | inl ahead ↦
            rw (last_reached, known, ahead)
              (record {
                reached = [];
                left = city ∷ cities;
                split = refl;
                all_reached = tt;
                next_left = inr (t, known, ground (arith, ahead));
                is_last = refl;
              })
        | inr here ↦
            rw (last_reached, known, here)
              (record {
                reached = city ∷ later.reached;
                left = later.left;
                split = ap (λ xs. city ∷ xs) later.split;
                all_reached = ((t, known, ground (arith, here)), later.all_reached);
                next_left = later.next_left;
                is_last = later.is_last;
              })
      ]
    ]

suc_le_zero : (n : ℕ) → ¬ (suc n ≤ 0)
suc_le_zero n h = omega (arith, h)

split_at :
    (n : ℕ) (xs : List LocationCode)
    → n ≤ length xs
    → (ys : List LocationCode) × (xs ≡ ys ++ drop n xs) × (length ys ≡ n)
split_at zero xs le = ([], refl, refl)
split_at (suc n) [] le = elim (suc_le_zero n le) [ ]
split_at (suc n) (x ∷ xs) le =
    let (ys, e, len) = split_at n xs (omega (arith, le)) in
    (x ∷ ys, ap (λ zs. x ∷ zs) e, ap suc len)

-- The loop over the cities from position `i` to position `j` finds the last one that is reached.
pub segment-LastReached :
    (times : StopTimes) (now : Time) (path : List LocationCode) (i j : ℕ) (start : LocationCode)
    → i ≤ j
    → j < length path
    → (cities : List LocationCode) × IsSegment path i j cities
      × LastReached times now start cities (last_reached times now (j + 1 - i) (drop i path) start)
segment-LastReached times now path i j start le lt =
    let (before, e, len) = split_at i path (omega (arith, le, lt)) in
    let rest = drop i path in
    let total : length path ≡ length before + length rest =
      ap length e ∙ length-append before rest in
    let (cities, e2, len2) = split_at (j + 1 - i) rest (omega (arith, le, lt, total, len)) in
    let found = last_reached-LastReached times now cities (drop (j + 1 - i) rest) start in
    (
      cities,
      record {
        before = before;
        after = drop (j + 1 - i) rest;
        split = e ∙ ap (λ xs. before ++ xs) e2;
        starts = len;
        ends = omega (arith, len2, le);
      },
      subst (λ n. LastReached times now start cities (last_reached times now n rest start)) len2
          (subst
            (λ xs.
              LastReached times now start cities (last_reached times now (length cities) xs start))
            (sym e2) found),
    )

pub index-lt :
    (path : List LocationCode) (i : ℕ) (c : LocationCode)
    → get_elem? path i ≡ some c
    → i < length path
index-lt [] i c h = cc
index-lt (x ∷ xs) zero c h = omega arith
index-lt (x ∷ xs) (suc i) c h = omega (arith, index-lt xs i c h)
