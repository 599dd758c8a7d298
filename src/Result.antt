-- ===== src/Result.antt =====
-- Python's exceptions as values: a call returns or raises. An error is the class of the exception
-- (domain/exceptions.py, the built-in ones, NotFoundError and ConflictError of the application); its
-- message is left out.
use fleet_flow.Base.{◌≡◌, refl, Bool, true, false, Option, none, some}

pub data Error : Type 0 where
  entity_not_found domain_validation business_rule_violation domain_conflict : Error
  runtime_error key_error overflow_error value_error : Error
  permission_error not_found conflict : Error

pub data Result {ℓ} (A : Type ℓ) : Type ℓ where
  ok : A → Result A
  err : Error → Result A

abbrev pub or_raise {ℓ} : {A : Type ℓ} → Option A → Error → Result A
or_raise none e = err e
or_raise (some a) e = ok a

-- `if not condition: raise e`
abbrev pub require : Bool → Error → Result (Unit {0})
require holds e = elim holds [ true ↦ ok tt | false ↦ err e ]

infixl 5 ◌>>=◌ ◌>>◌
abbrev pub ◌>>=◌ {ℓ κ} : {A : Type ℓ} {B : Type κ} → Result A → (A → Result B) → Result B
result >>= next = elim result [ ok value ↦ next value | err raised ↦ err raised ]

-- What a chain that returned has gone through.
pub >>=-eq-ok {ℓ κ} :
    {A : Type ℓ} {B : Type κ} (first : Result A) (next : A → Result B) {returned : B}
    → (first >>= next) ≡ ok returned
    → (value : A) × (first ≡ ok value) × (next value ≡ ok returned)
>>=-eq-ok (ok value) next h = (value, refl, h)
>>=-eq-ok (err raised) next h = cc

abbrev pub ◌>>◌ {ℓ} : {B : Type ℓ} → Result (Unit {0}) → Result B → Result B
step >> rest = step >>= λ _. rest

pub require-eq-ok : (b : Bool) (e : Error) {u : Unit {0}} → require b e ≡ ok u → b ≡ true
require-eq-ok true e h = refl
require-eq-ok false e h = cc

pub ok_injective {ℓ} : {A : Type ℓ} {a b : A} → ok a ≡ ok b → a ≡ b
ok_injective h = cc

pub >>-require {ℓ} :
    {B : Type ℓ} (b : Bool) (e : Error) (rest : Result B) {returned : B}
    → (require b e >> rest) ≡ ok returned
    → (b ≡ true) × (rest ≡ ok returned)
>>-require true e rest h = (refl, h)
>>-require false e rest h = cc

pub >>=-ext {ℓ κ} :
    {A : Type ℓ} {B : Type κ} (first : Result A) (f g : A → Result B)
    → ((a : A) → first ≡ ok a → f a ≡ g a)
    → (first >>= f) ≡ (first >>= g)
>>=-ext (ok a) f g same = same a refl
>>=-ext (err e) f g same = refl
