-- ===== src/Contracts/Errors.antt =====
-- Platform/contracts/include/ns3_factory/contracts/errors.hpp: error codes, errors with a message,
-- and `std::expected` with its early returns.
use ns3_bellhop_platform.Prelude.{
  Bool, true, false, String, Option, none, some, ◌≡◌, refl, ◌⊎◌, inl, inr,
}

pub data ErrorCode : Type 0 where
  invalid_argument out_of_range overflow not_found already_exists : ErrorCode
  failed_precondition unsupported unavailable internal : ErrorCode

pub record Error : Type 0 where
  pub code : ErrorCode
  pub message : String

abbrev pub error : ErrorCode → String → Error
error c m = record { code = c; message = m }

-- `std::expected<T, Error>`
pub data Result {ℓ} (T : Type ℓ) : Type ℓ where
  err : Error → Result T
  ok : T → Result T

abbrev pub Status : Type 0
Status = Result (Unit {0})

-- `if(test) { return std::unexpected(e); }`
abbrev pub reject_if : Bool → Error → Status
reject_if true e = err e
reject_if false e = ok tt

infixl 5 ◌>>=◌ ◌>>◌
-- The early return of an error, and the value for the code after it.
abbrev pub ◌>>=◌ {ℓ κ} : {T : Type ℓ} {U : Type κ} → Result T → (T → Result U) → Result U
err e >>= rest = err e
ok value >>= rest = rest value

abbrev pub ◌>>◌ {ℓ} : {U : Type ℓ} → Status → Result U → Result U
status >> rest = status >>= λ _. rest

-- `if(!value) { return std::unexpected(e); }` for an optional value.
abbrev pub require {ℓ} : {A : Type ℓ} → Option A → Error → Result A
require none e = err e
require (some a) e = ok a

pub Result-cases {ℓ} :
    {T : Type ℓ} (r : Result T) → ((value : T) × (r ≡ ok value)) ⊎ ((e : Error) × (r ≡ err e))
Result-cases (err e) = inr (e, refl)
Result-cases (ok value) = inl (value, refl)

-- A chain that ends well had a first step that ended well, and a rest that did so on its value.
pub >>=-eq-ok {ℓ κ} :
    {T : Type ℓ} {U : Type κ} (step : Result T) (rest : T → Result U) {last : U}
    → (step >>= rest) ≡ ok last
    → (value : T) × (step ≡ ok value) × (rest value ≡ ok last)
>>=-eq-ok (err e) rest h = cc
>>=-eq-ok (ok value) rest h = (value, refl, h)

-- A check that was passed, and what followed it.
pub reject_if-eq-ok {ℓ} :
    {A : Type ℓ} (b : Bool) (e : Error) {k : Result A} {a : A}
    → (reject_if b e >> k) ≡ ok a
    → (b ≡ false) × (k ≡ ok a)
reject_if-eq-ok true e h = cc
reject_if-eq-ok false e h = (refl, h)

pub ok-injective {ℓ} : {A : Type ℓ} {a b : A} → ok a ≡ ok b → a ≡ b
ok-injective h = cc

pub require-eq-ok {ℓ} :
    {A : Type ℓ} (o : Option A) (e : Error) {a : A} → require o e ≡ ok a → o ≡ some a
require-eq-ok none e h = cc
require-eq-ok (some b) e h = cc
