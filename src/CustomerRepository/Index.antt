-- ===== src/CustomerRepository/Index.antt =====
-- An index of the customers by a text of theirs, where an empty text is not indexed.
use fleet_flow.Base.{
  ℕ, Bool, true, false, not, ◌&&◌, ◌≡◌, refl, sym, ap, ◌∙◌, inl, inr, List, [], ◌∷◌, Option, none,
  some, ◌==◌, ==_iff, Text, text_eq, text_eq_iff, arith, Bool-cases, Option-cases,
}
use fleet_flow.Base.Dict.{get, set, pop, get-set_here, get-set_other, get-pop_here, get-pop_other}
use mathlib.Core.Path.{subst}
use fleet_flow.World.{CustomerRef}
use fleet_flow.CustomerRepository.{is_other, is_taken, set_key, pop_key}

-- `b` holds for the texts that are indexed.
abbrev pub is_filled : Text → Bool
is_filled [] = false
is_filled (c ∷ s) = true

abbrev pub stored : List (ℕ × CustomerRef) → ℕ → Option CustomerRef
stored ids id = get ◌==◌ ids id

abbrev pub indexed : List (Text × ℕ) → Text → Option ℕ
indexed index k = get text_eq index k

set_key_here :
    (index : List (Text × ℕ)) (k : Text) (id : ℕ)
    → is_filled k ≡ true
    → indexed (set_key index k id) k ≡ some id
set_key_here index [] id h = cc
set_key_here index (c ∷ s) id h = get-set_here text_eq text_eq_iff index (c ∷ s) id

set_key_other :
    (index : List (Text × ℕ)) (k : Text) (id : ℕ) (j : Text)
    → text_eq k j ≡ false
    → indexed (set_key index k id) j ≡ indexed index j
set_key_other index [] id j h = refl
set_key_other index (c ∷ s) id j h = get-set_other text_eq text_eq_iff index (c ∷ s) id j h

pop_key_here :
    (index : List (Text × ℕ)) (k : Text) → is_filled k ≡ true → indexed (pop_key index k) k ≡ none
pop_key_here index [] h = cc
pop_key_here index (c ∷ s) h = get-pop_here text_eq text_eq_iff index (c ∷ s)

pop_key_other :
    (index : List (Text × ℕ)) (k j : Text)
    → text_eq k j ≡ false
    → indexed (pop_key index k) j ≡ indexed index j
pop_key_other index [] j h = refl
pop_key_other index (c ∷ s) j h = get-pop_other text_eq text_eq_iff index (c ∷ s) j h

-- The index has exactly the stored customers, by their texts.
pub record IsIndex (key : CustomerRef → Text) (ids : List (ℕ × CustomerRef))
    (index : List (Text × ℕ)) : Type 0 where
  pub found :
      (k : Text) (i : ℕ)
      → indexed index k ≡ some i
      → (ref : CustomerRef) × (stored ids i ≡ some ref) × (key ref ≡ k) × (is_filled k ≡ true)
  pub kept :
      (i : ℕ) (ref : CustomerRef)
      → stored ids i ≡ some ref
      → is_filled (key ref) ≡ true
      → indexed index (key ref) ≡ some i

set_key_unfilled :
    (index : List (Text × ℕ)) (k : Text) (id : ℕ) → is_filled k ≡ false → set_key index k id ≡ index
set_key_unfilled index [] id h = refl
set_key_unfilled index (c ∷ s) id h = cc

pop_key_unfilled :
    (index : List (Text × ℕ)) (k : Text) → is_filled k ≡ false → pop_key index k ≡ index
pop_key_unfilled index [] h = refl
pop_key_unfilled index (c ∷ s) h = cc

pub some_injective : {a b : ℕ} → some a ≡ some b → a ≡ b
some_injective h = cc h

-- Two lookups at one id agree.
pub stored_unique :
    (ids : List (ℕ × CustomerRef)) (i j : ℕ) {a b : CustomerRef}
    → (i == j) ≡ true
    → stored ids i ≡ some a
    → stored ids j ≡ some b
    → a ≡ b
stored_unique ids i j e f g = some_injective (sym f ∙ ap (stored ids) ((==_iff i j).0 e) ∙ g)

text_eq_filled : (k : Text) → is_filled k ≡ true → (text_eq k k && is_filled k) ≡ true
text_eq_filled k h = rw ((text_eq_iff k k).1 refl) h

-- What is still indexed was so before, and is not the text that went.
popped :
    (index : List (Text × ℕ)) (gone k : Text) (i : ℕ)
    → indexed (pop_key index gone) k ≡ some i
    → (indexed index k ≡ some i) × ((text_eq gone k && is_filled gone) ≡ false)
popped index gone k i e = elim (Bool-cases (text_eq gone k)) [
  | inl same ↦ elim (Bool-cases (is_filled gone)) [
    | inl filled ↦
        let away = pop_key_here index gone filled in
        cc (sym away ∙ ap (indexed (pop_key index gone)) ((text_eq_iff gone k).0 same) ∙ e)
    | inr unfilled ↦ (
      ap (λ d. indexed d k) (sym (pop_key_unfilled index gone unfilled)) ∙ e,
      rw (same, unfilled),
    )
  ]
  | inr other ↦ (sym (pop_key_other index gone k other) ∙ e, rw other)
]

module _ (key : CustomerRef → Text) {ids : List (ℕ × CustomerRef)} {index : List (Text × ℕ)}
    (h : IsIndex key ids index) where
  free :
      (k : Text) (id : ℕ)
      → stored ids id ≡ none
      → is_taken index k id ≡ false
      → is_filled k ≡ true
      → indexed index k ≡ none
  free [] id new untaken filled = cc
  free (c ∷ s) id new untaken filled = elim (Option-cases (indexed index (c ∷ s))) [
    | inl e ↦ e
    | inr (i, e) ↦
        let (ref, st, same, f) = h.found (c ∷ s) i e in
        let equal : not (i == id) ≡ false = subst (λ o. is_other o id ≡ false) e untaken in
        let clash : stored ids id ≡ some ref =
          subst (λ j. stored ids j ≡ some ref) ((==_iff i id).0 (ground (arith, equal))) st in
        cc (clash, new)
  ]

  -- An id that is not stored is not that of a stored customer.
  apart :
      (id i : ℕ) {ref : CustomerRef}
      → stored ids id ≡ none
      → stored ids i ≡ some ref
      → (id == i) ≡ false
  apart id i new st = elim (Bool-cases (id == i)) [
    | inl e ↦ let clash = sym new ∙ ap (stored ids) ((==_iff id i).0 e) ∙ st in cc clash
    | inr e ↦ e
  ]

  Found : List (ℕ × CustomerRef) → Text → ℕ → Type 0
  Found more k i =
      (ref : CustomerRef) × (stored more i ≡ some ref) × (key ref ≡ k) × (is_filled k ≡ true)

  Found-before :
      (ref : CustomerRef) (id : ℕ) (k : Text) (i : ℕ)
      → stored ids id ≡ none
      → indexed index k ≡ some i
      → Found (set ◌==◌ ids id ref) k i
  unfolding Found
  Found-before ref id k i new e =
      let (before, st, same, filled) = h.found k i e in
      (before, get-set_other ◌==◌ ==_iff ids id ref i (apart id i new st) ∙ st, same, filled)

  pub add-IsIndex :
      (ref : CustomerRef) (id : ℕ)
      → stored ids id ≡ none
      → is_taken index (key ref) id ≡ false
      → IsIndex key (set ◌==◌ ids id ref) (set_key index (key ref) id)
  unfolding Found
  add-IsIndex ref id new untaken = record {
    found = λ k i e. elim (Bool-cases (text_eq (key ref) k)) [
      | inl same ↦
          let equal = (text_eq_iff (key ref) k).0 same in
          elim (Bool-cases (is_filled (key ref))) [
            | inl filled ↦
                let here = set_key_here index (key ref) id filled in
                let own : id ≡ i =
                  some_injective (sym here ∙ ap (indexed (set_key index (key ref) id)) equal ∙ e) in
                (
                  ref,
                  ap (stored (set ◌==◌ ids id ref)) (sym own) ∙ get-set_here ◌==◌ ==_iff ids id ref,
                  equal,
                  ap is_filled (sym equal) ∙ filled,
                )
            | inr unfilled ↦
                Found-before ref id k i new
                  (ap (λ d. indexed d k) (sym (set_key_unfilled index (key ref) id unfilled)) ∙ e)
          ]
      | inr other ↦ Found-before ref id k i new (sym (set_key_other index (key ref) id k other) ∙ e)
    ];
    kept = λ i other st filled. elim (Bool-cases (id == i)) [
      | inl here ↦
          let own : ref ≡ other =
            stored_unique (set ◌==◌ ids id ref) id i here (get-set_here ◌==◌ ==_iff ids id ref)
              st in
          subst (λ x. indexed (set_key index (key ref) id) (key x) ≡ some i) own
            (set_key_here index (key ref) id (ap (λ x. is_filled (key x)) own ∙ filled)
              ∙ ap some ((==_iff id i).0 here))
      | inr there ↦
          let st' = sym (get-set_other ◌==◌ ==_iff ids id ref i there) ∙ st in
          let before = h.kept i other st' filled in
          elim (Bool-cases (text_eq (key ref) (key other))) [
            | inl same ↦
                let equal = (text_eq_iff (key ref) (key other)).0 same in
                let none_there = free (key ref) id new untaken (ap is_filled equal ∙ filled) in
                cc (sym none_there ∙ ap (indexed index) equal ∙ before)
            | inr apart ↦ set_key_other index (key ref) id (key other) apart ∙ before
          ]
    ];
  }

  pub remove-IsIndex :
      (ref : CustomerRef) (id : ℕ)
      → stored ids id ≡ some ref
      → IsIndex key (pop ◌==◌ ids id) (pop_key index (key ref))
  remove-IsIndex ref id here = record {
    found = λ k i e.
        let (e', off) = popped index (key ref) k i e in
        let (before, st, same, filled) = h.found k i e' in
        elim (Bool-cases (id == i)) [
          | inl own ↦
              let equal : key ref ≡ k = ap key (stored_unique ids id i own here st) ∙ same in
              cc (sym off ∙ ap (λ t. text_eq t k && is_filled t) equal ∙ text_eq_filled k filled)
          | inr other ↦ (before, get-pop_other ◌==◌ ==_iff ids id i other ∙ st, same, filled)
        ];
    kept = λ i other st filled. elim (Bool-cases (id == i)) [
      | inl own ↦
          let gone = get-pop_here ◌==◌ ==_iff ids id in
          cc (sym gone ∙ ap (stored (pop ◌==◌ ids id)) ((==_iff id i).0 own) ∙ st)
      | inr off ↦
          let st' = sym (get-pop_other ◌==◌ ==_iff ids id i off) ∙ st in
          let before = h.kept i other st' filled in
          elim (Bool-cases (text_eq (key ref) (key other))) [
            | inl same ↦
                let equal = (text_eq_iff (key ref) (key other)).0 same in
                let mine = h.kept id ref here (ap is_filled equal ∙ filled) in
                let own = some_injective (sym mine ∙ ap (indexed index) equal ∙ before) in
                ground (arith, own, off)
            | inr apart ↦ pop_key_other index (key ref) (key other) apart ∙ before
          ]
    ];
  }

pub IsIndex-ext :
    (key key' : CustomerRef → Text) {ids : List (ℕ × CustomerRef)} {index : List (Text × ℕ)}
    → ((i : ℕ) (ref : CustomerRef) → stored ids i ≡ some ref → key' ref ≡ key ref)
    → IsIndex key ids index
    → IsIndex key' ids index
IsIndex-ext key key' {ids} {index} same h = record {
  found = λ k i e.
      let (ref, st, equal, filled) = h.found k i e in (ref, st, same i ref st ∙ equal, filled);
  kept = λ i ref st filled.
      subst (λ k. indexed index k ≡ some i) (sym (same i ref st))
        (h.kept i ref st (ap is_filled (sym (same i ref st)) ∙ filled));
}
