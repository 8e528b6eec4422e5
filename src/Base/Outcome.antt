-- ===== src/Base/Outcome.antt =====
-- Errors and results: src/error.rs.
-- A message keeps the fixed part of its format string; values printed into it are left out, but
-- for a text of the peer that is quoted (`quoted`).
use Prim.Native.Nat.{ℕ}
use Prim.Native.String.{String}
use mathlib.Core.Path.{◌≡◌, refl}
use mathlib.Core.Bool.{Bool, true, false}
use mathlib.Core.Logic.{◌⊎◌, inl, inr}
use mathlib.Core.List.{List}

pub data Message : Type 0 where
  fixed : String → Message
  quoted : String → List ℕ → Message
  -- No message of the code: the fuel of a model is used up.
  out_of_fuel : Message

-- The kinds of `io::Error` that the modelled code tells apart or builds.
pub data IoKind : Type 0 where
  would_block timed_out interrupted invalid_data unexpected_end other_io : IoKind

pub data Error : Type 0 where
  invalid_url : Message → Error
  unsupported_scheme : Message → Error
  io : IoKind → Error
  bad_response : Message → Error
  unexpected_eof : Error
  h2_not_negotiated : Error
  ssh : Message → Error
  decode_error : Message → Error
  status : ℕ → List ℕ → Error
  cancelled : Error

pub data Result {ℓ} (A : Type ℓ) : Type ℓ where
  ok : A → Result A
  err : Error → Result A

-- `Error::BadResponse` with a fixed text.
abbrev pub bad {ℓ} : {A : Type ℓ} → String → Result A
bad m = err (bad_response (fixed m))

abbrev pub exhausted {ℓ} : {A : Type ℓ} → Result A
exhausted = err (bad_response out_of_fuel)

abbrev pub is_exhausted : Error → Bool
is_exhausted (bad_response out_of_fuel) = true
is_exhausted _ = false

-- An answer of the code: a value, or one of its own errors.
abbrev pub Answers {ℓ} : {A : Type ℓ} → Result A → Type 0
Answers (ok a) = Unit
Answers (err e) = is_exhausted e ≡ false

-- `?`: a failure is the result of the whole chain.
abbrev pub ◌>>=◌ {ℓ κ} : {A : Type ℓ} {B : Type κ} → Result A → (A → Result B) → Result B
err failure >>= next = err failure
ok value >>= next = next value

-- `if b { return Err(e) }`.
abbrev pub reject_if : Bool → Error → Result (Unit {0})
reject_if true e = err e
reject_if false e = ok tt

-- A check that has no value, and then the rest.
abbrev pub ◌>>◌ {ℓ} : {B : Type ℓ} → Result (Unit {0}) → Result B → Result B
check >> rest = check >>= λ _. rest

infixl 5 ◌>>=◌ ◌>>◌
-- Where a chain succeeds, its first part and the rest do.
pub >>=-eq-ok {ℓ κ} :
    {A : Type ℓ} {B : Type κ} (first : Result A) (next : A → Result B) {result : B}
    → (first >>= next) ≡ ok result
    → (value : A) × (first ≡ ok value) × (next value ≡ ok result)
>>=-eq-ok (err failure) next chain = cc
>>=-eq-ok (ok value) next chain = (value, refl, chain)

pub Result-cases {ℓ} :
    {A : Type ℓ} (r : Result A) → ((a : A) × (r ≡ ok a)) ⊎ ((e : Error) × (r ≡ err e))
Result-cases (ok a) = inl (a, refl)
Result-cases (err e) = inr (e, refl)
