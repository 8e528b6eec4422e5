-- ===== src/Base/Utf8.antt =====
-- Well-formed UTF-8 (Unicode, table 3-7), which `std::str::from_utf8` tests: a text of the code is
-- its bytes, and a byte string is a text if it passes.
use Prim.Native.Nat.{ℕ, zero, suc}
use mathlib.Core.Bool.{Bool, true, false, ◌&&◌}
use mathlib.Core.List.{[], ◌∷◌}
use mathlib.Core.Option.{Option, none, some}
use rsurl.Base.Bytes.{Bytes}
use rsurl.Base.Tests.{ltb, leb, ◌==◌, if◌then◌else◌}

-- Between two characters, or inside of one: the next byte is in a range, and `more` continuation
-- bytes follow it.
pub data Utf8State : Type 0 where
  boundary : Utf8State
  inside : ℕ → ℕ → ℕ → Utf8State

abbrev within : ℕ → ℕ → ℕ → Bool
within lo hi b = leb lo b && leb b hi

unfoldable pub utf8_lead : ℕ → Option Utf8State
utf8_lead b =
    if ltb b 0x80
    then some boundary
    else if within 0xc2 0xdf b
    then some (inside 0x80 0xbf 0)
    else if b == 0xe0
    then some (inside 0xa0 0xbf 1)
    else if b == 0xed
    then some (inside 0x80 0x9f 1)
    else if within 0xe1 0xef b
    then some (inside 0x80 0xbf 1)
    else if b == 0xf0
    then some (inside 0x90 0xbf 2)
    else if within 0xf1 0xf3 b
    then some (inside 0x80 0xbf 2)
    else if b == 0xf4
    then some (inside 0x80 0x8f 2)
    else none

unfoldable pub utf8_next : ℕ → Utf8State
utf8_next zero = boundary
utf8_next (suc more) = inside 0x80 0xbf more

unfoldable pub utf8_step : Utf8State → ℕ → Option Utf8State
unfolding utf8_lead utf8_next
utf8_step boundary b = utf8_lead b
utf8_step (inside lo hi more) b = if within lo hi b then some (utf8_next more) else none

unfoldable pub utf8_from : Utf8State → Bytes → Bool
unfolding utf8_step
utf8_from boundary [] = true
utf8_from (inside lo hi more) [] = false
utf8_from s (b ∷ bs) = elim (utf8_step s b) [ none ↦ false | some s' ↦ utf8_from s' bs ]

unfoldable pub is_utf8 : Bytes → Bool
unfolding utf8_from
is_utf8 bytes = utf8_from boundary bytes
