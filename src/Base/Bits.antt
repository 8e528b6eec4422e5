-- ===== src/Base/Bits.antt =====
-- Masks as arithmetic: on one byte by a table of at most 256 entries, which is checked by evaluation.
use Prim.Native.Nat.{
  ℕ, zero, suc, ◌+◌, ◌*◌, ◌/◌, ◌%◌, ◌<◌, ◌≤◌, min, digits, bit_and, bit_and-bitwise, bit_or,
}
use mathlib.Core.Path.{◌≡◌, refl}
use mathlib.Core.Bool.{Bool, true, ◌&&◌}
use native.Mathlib.Omega.{arith}
use rsurl.Base.Tests.{◌==◌, ==_iff}

-- A test holds at every number below `bound`.
unfoldable pub all_below : ℕ → (ℕ → Bool) → Bool
all_below zero test = true
all_below (suc bound) test = all_below bound test && test bound

pub all_below_sound :
    (test : ℕ → Bool) (bound : ℕ)
    → all_below bound test ≡ true
    → (x : ℕ) → x < bound
    → test x ≡ true
unfolding all_below
all_below_sound test zero table x less = absurd (omega arith)
all_below_sound test (suc bound) table x less =
    let lower : all_below bound test ≡ true → x < bound → test x ≡ true =
      λ rest. all_below_sound test bound rest x in
    ground (arith, lower)

module _ (f g : ℕ → ℕ) where
  agree_below→eq : (n : ℕ) → all_below n (λ x. f x == g x) ≡ true → (i : ℕ) → i < n → f i ≡ g i
  agree_below→eq n e i h = (==_iff _ _).0 (all_below_sound (λ x. f x == g x) n e i h)

pub low_seven : (b : ℕ) → b < 256 → bit_and b 0x7f ≡ b % 128
unfolding all_below
low_seven = agree_below→eq _ _ 256 refl

pub top_bit : (b : ℕ) → b < 256 → bit_and b 0x80 ≡ b / 128 * 128
unfolding all_below
top_bit = agree_below→eq _ _ 256 refl

pub low_four : (b : ℕ) → b < 256 → bit_and b 0x0f ≡ b % 16
unfolding all_below
low_four = agree_below→eq _ _ 256 refl

pub set_top_bit : (b : ℕ) → b < 128 → bit_or b 0x80 ≡ b + 128
unfolding all_below
set_top_bit = agree_below→eq _ _ 128 refl

-- The digits of a conjunction with 0, 1 and 3.
abbrev common : ℕ → ℕ → ℕ → ℕ
common n a b = digits (λ b. zero) min n a b

common_none : (n a : ℕ) → common n a 0 ≡ 0
common_none zero a = refl
common_none (suc n) zero = refl
common_none (suc n) (suc a) = omega (arith, common_none n (suc a / 2))

common_last : (n a : ℕ) → a ≤ n → common n a 1 ≡ a % 2
common_last zero zero h = refl
common_last zero (suc a) h = absurd (omega arith)
common_last (suc n) zero h = refl
common_last (suc n) (suc a) h = omega (arith, common_none n (suc a / 2))

-- `i & 3`.
pub low_two : (i : ℕ) → bit_and i 3 ≡ i % 4
low_two zero = refl
low_two (suc i) = omega (arith, bit_and-bitwise (suc i) 3, common_last i (suc i / 2) (omega arith))
