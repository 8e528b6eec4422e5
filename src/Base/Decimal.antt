-- ===== src/Base/Decimal.antt =====
-- Decimal numbers: what `{}` prints of an unsigned number, and that `decimal_from` reads it back.
use Prim.Native.Nat.{ℕ, zero, suc, ◌+◌, ◌/◌, ◌%◌, ◌<◌}
use mathlib.Core.Bool.{Bool, true, false, not, ◌&&◌}
use mathlib.Core.List.{[], ◌∷◌, ◌++◌}
use mathlib.Core.Logic.{inl, inr}
use mathlib.Core.Option.{some}
use mathlib.Core.Path.{◌≡◌, refl, ap, ◌∙◌}
use native.Mathlib.Omega.{arith}
use rsurl.Base.Bytes.{Bytes}
use rsurl.Base.Tests.{ltb, ltb→le, ◌==◌, if◌then◌else◌, Bool-cases}
use rsurl.Base.Text.{is_digit, all_of, decimal_from, is_empty, split_once}

-- The digits of a number, before those printed so far. The fuel is above the number.
unfoldable pub digits_before : ℕ → ℕ → Bytes → Bytes
digits_before zero n printed = printed
digits_before (suc fuel) n printed =
    let more = digits_before fuel (n / 10) ((48 + n % 10) ∷ printed) in
    if ltb n 10 then (48 + n) ∷ printed else more

unfoldable pub decimal : ℕ → Bytes
unfolding digits_before
decimal n = digits_before (suc n) n []

-- A zero before other digits.
abbrev pub leading_zero : Bytes → Bool
leading_zero [] = false
leading_zero (b ∷ bs) = b == 48 && not (is_empty bs)

abbrev starts_with_zero : Bytes → Bool
starts_with_zero [] = false
starts_with_zero (b ∷ bs) = b == 48

digits_before-value :
    (fuel n : ℕ) (printed : Bytes)
    → n < fuel
    → decimal_from 0 (digits_before fuel n printed) ≡ decimal_from n printed
unfolding digits_before decimal_from
digits_before-value zero n printed enough = absurd (omega arith)
digits_before-value (suc fuel) n printed enough = elim (Bool-cases (ltb n 10)) [
  | inl e ↦ rw e (ap (λ k. decimal_from k printed) (omega arith))
  | inr e ↦ rw e (
      digits_before-value fuel (n / 10) ((48 + n % 10) ∷ printed) (omega (arith, ltb→le n 10 e))
      ∙ ap (λ k. decimal_from k printed) (omega arith))
]

digits_before-all :
    (fuel n : ℕ) (printed : Bytes)
    → all_of is_digit printed ≡ true
    → all_of is_digit (digits_before fuel n printed) ≡ true
unfolding digits_before
digits_before-all zero n printed h = h
digits_before-all (suc fuel) n printed h = elim (Bool-cases (ltb n 10)) [
  | inl e ↦ rw e (ground (arith, e, h))
  | inr e ↦ rw e (digits_before-all fuel (n / 10) ((48 + n % 10) ∷ printed) (ground (arith, h)))
]

digits_before-leads :
    (fuel n : ℕ) (printed : Bytes)
    → 0 < n
    → n < fuel
    → starts_with_zero (digits_before fuel n printed) ≡ false
unfolding digits_before
digits_before-leads zero n printed some_left enough = absurd (omega arith)
digits_before-leads (suc fuel) n printed some_left enough = elim (Bool-cases (ltb n 10)) [
  | inl e ↦ rw e (ground (arith, e, some_left))
  | inr e ↦ rw e (
      digits_before-leads fuel (n / 10) ((48 + n % 10) ∷ printed) (omega (arith, ltb→le n 10 e))
        (omega (arith, ltb→le n 10 e)))
]

-- `decimal_from` reads the digits back.
pub decimal_from-decimal : (n : ℕ) → decimal_from 0 (decimal n) ≡ n
unfolding decimal decimal_from
decimal_from-decimal n = digits_before-value (suc n) n [] (omega arith)

pub decimal-all : (n : ℕ) → all_of is_digit (decimal n) ≡ true
unfolding decimal
decimal-all n = digits_before-all (suc n) n [] refl

-- There is a digit, and no zero before others.
some_digit : (bs : Bytes) → starts_with_zero bs ≡ false → leading_zero bs ≡ false
some_digit [] h = refl
some_digit (b ∷ bs) h = rw h refl

pub decimal-leading_zero : (n : ℕ) → leading_zero (decimal n) ≡ false
unfolding decimal digits_before
decimal-leading_zero zero = refl
decimal-leading_zero (suc n) =
    some_digit (digits_before (suc (suc n)) (suc n) [])
      (digits_before-leads (suc (suc n)) (suc n) [] (omega arith) (omega arith))

digits_before-filled :
    (fuel n : ℕ) (printed : Bytes) → is_empty (digits_before (suc fuel) n printed) ≡ false
unfolding digits_before
digits_before-filled zero n printed = ground arith
digits_before-filled (suc fuel) n printed = elim (Bool-cases (ltb n 10)) [
  | inl e ↦ rw e refl
  | inr e ↦ rw e (digits_before-filled fuel (n / 10) ((48 + n % 10) ∷ printed))
]

pub decimal-filled : (n : ℕ) → is_empty (decimal n) ≡ false
unfolding decimal
decimal-filled n = digits_before-filled n n []

-- Behind digits, the first byte `c` is the one put there.
pub split_once-digits :
    (c : ℕ) (digits rest : Bytes)
    → is_digit c ≡ false
    → all_of is_digit digits ≡ true
    → split_once c (digits ++ (c ∷ rest)) ≡ some (digits, rest)
unfolding split_once
split_once-digits c [] rest other h = ground arith
split_once-digits c (b ∷ digits) rest other h = elim (Bool-cases (b == c)) [
  | inl e ↦ ground (arith, e, h, other)
  | inr e ↦ rw e (rw (split_once-digits c digits rest other (ground (arith, h))) refl)
]
