-- ===== src/Base/Text.antt =====
-- What the code uses of `str`, on the bytes of a text.
use Prim.Native.Nat.{ℕ, zero, suc, ◌+◌, ◌-◌, ◌*◌}
use mathlib.Core.Bool.{Bool, true, false, ◌&&◌, ◌||◌}
use mathlib.Core.List.{List, [], ◌∷◌, ◌++◌}
use mathlib.Core.Option.{Option, none, some}
use rsurl.Base.Bytes.{Bytes}
use rsurl.Base.Tests.{ltb, leb, ◌==◌, if◌then◌else◌}
use rsurl.Base.Utf8.{Utf8State, boundary, inside, utf8_lead, utf8_step}

-- U+FFFD.
abbrev replacement : Bytes
replacement = 0xef ∷ 0xbf ∷ 0xbd ∷ []

-- `String::from_utf8_lossy`: `seen` is the character so far. A byte that cannot go on with it
-- replaces it and is looked at again.
unfoldable pub lossy_from : Utf8State → Bytes → Bytes → Bytes
unfolding utf8_step
lossy_from boundary seen [] = []
lossy_from (inside lo hi more) seen [] = replacement
lossy_from boundary seen (b ∷ bs) = elim (utf8_lead b) [
  | none ↦ replacement ++ lossy_from boundary [] bs
  | some boundary ↦ b ∷ lossy_from boundary [] bs
  | some (inside lo hi more) ↦ lossy_from (inside lo hi more) (b ∷ []) bs
]
lossy_from (inside lo hi more) seen (b ∷ bs) = elim (utf8_step (inside lo hi more) b) [
  | some boundary ↦ (seen ++ (b ∷ [])) ++ lossy_from boundary [] bs
  | some (inside lo' hi' more') ↦ lossy_from (inside lo' hi' more') (seen ++ (b ∷ [])) bs
  | none ↦ elim (utf8_lead b) [
    | none ↦ replacement ++ (replacement ++ lossy_from boundary [] bs)
    | some boundary ↦ replacement ++ (b ∷ lossy_from boundary [] bs)
    | some (inside lo' hi' more') ↦ replacement ++ lossy_from (inside lo' hi' more') (b ∷ []) bs
  ]
]

unfoldable pub lossy : Bytes → Bytes
unfolding lossy_from
lossy bytes = lossy_from boundary [] bytes

abbrev is_ascii_space : ℕ → Bool
is_ascii_space b = (leb 9 b && leb b 13) || b == 32

-- The length of the white space (Unicode `White_Space`) that a text begins with, 0 for none.
unfoldable pub space_length : Bytes → ℕ
space_length (a ∷ b ∷ c ∷ rest) =
    if is_ascii_space a
    then 1
    else if a == 0xc2 && (b == 0x85 || b == 0xa0)
    then 2
    else if (a == 0xe1 && (b == 0x9a && c == 0x80))
        || ((a == 0xe2
              && ((b == 0x80 && (ltb c 0x8b || (c == 0xa8 || (c == 0xa9 || c == 0xaf))))
                  || (b == 0x81 && c == 0x9f)))
            || (a == 0xe3 && (b == 0x80 && c == 0x80)))
    then 3
    else 0
space_length (a ∷ b ∷ []) =
    if is_ascii_space a then 1 else if a == 0xc2 && (b == 0x85 || b == 0xa0) then 2 else 0
space_length (a ∷ []) = if is_ascii_space a then 1 else 0
space_length [] = 0

-- The same from the end, on the reversed text.
unfoldable pub space_length_rev : Bytes → ℕ
unfolding space_length
space_length_rev (c ∷ b ∷ a ∷ rest) =
    if is_ascii_space c
    then 1
    else if space_length (b ∷ c ∷ []) == 2
    then 2
    else if space_length (a ∷ b ∷ c ∷ []) == 3
    then 3
    else 0
space_length_rev (b ∷ a ∷ []) =
    if is_ascii_space b then 1 else if space_length (a ∷ b ∷ []) == 2 then 2 else 0
space_length_rev (a ∷ []) = space_length (a ∷ [])
space_length_rev [] = 0

-- Drop `skip` bytes, and then what `measure` finds again and again.
unfoldable pub strip : (Bytes → ℕ) → ℕ → Bytes → Bytes
strip measure skip [] = []
strip measure (suc skip) (b ∷ bs) = strip measure skip bs
strip measure zero (b ∷ bs) = elim (measure (b ∷ bs)) [ zero ↦ b ∷ bs | suc n ↦ strip measure n bs ]

abbrev pub reverse_onto : Bytes → Bytes → Bytes
reverse_onto [] out = out
reverse_onto (b ∷ bs) out = reverse_onto bs (b ∷ out)

-- `trim`.
unfoldable pub trim : Bytes → Bytes
unfolding strip space_length space_length_rev
trim s = reverse_onto (strip space_length_rev 0 (reverse_onto (strip space_length 0 s) [])) []

-- `trim_end_matches` with a set of ASCII characters.
unfoldable pub trim_end_matches : (ℕ → Bool) → Bytes → Bytes
trim_end_matches test [] = []
trim_end_matches test (b ∷ bs) = elim (trim_end_matches test bs) [
  | [] ↦ if test b then [] else b ∷ []
  | c ∷ cs ↦ b ∷ c ∷ cs
]

abbrev pub is_cr : ℕ → Bool
is_cr b = b == 13

abbrev pub is_eol : ℕ → Bool
is_eol b = b == 13 || b == 10

-- `split_once`, and `split`: never empty.
unfoldable pub split_once : ℕ → Bytes → Option (Bytes × Bytes)
split_once c [] = none
split_once c (b ∷ bs) =
    if b == c
    then some ([], bs)
    else elim (split_once c bs) [ none ↦ none | some p ↦ some (b ∷ p.0, p.1) ]

unfoldable pub split : ℕ → Bytes → List Bytes
split c [] = [] ∷ []
split c (b ∷ bs) = elim (split c bs) [
  | [] ↦ []
  | part ∷ parts ↦ if b == c then [] ∷ part ∷ parts else (b ∷ part) ∷ parts
]

unfoldable pub to_lower : ℕ → ℕ
to_lower b = if leb 65 b && leb b 90 then b + 32 else b

-- `to_ascii_uppercase`.
unfoldable pub to_upper : Bytes → Bytes
to_upper [] = []
to_upper (b ∷ bs) = (if leb 97 b && leb b 122 then b - 32 else b) ∷ to_upper bs

unfoldable pub eq_ignore_case : Bytes → Bytes → Bool
unfolding to_lower
eq_ignore_case [] [] = true
eq_ignore_case (a ∷ as_) (b ∷ bs) = to_lower a == to_lower b && eq_ignore_case as_ bs
eq_ignore_case _ _ = false

unfoldable pub starts_with : Bytes → Bytes → Bool
starts_with [] s = true
starts_with (p ∷ ps) [] = false
starts_with (p ∷ ps) (b ∷ bs) = p == b && starts_with ps bs

abbrev pub is_digit : ℕ → Bool
is_digit b = leb 48 b && leb b 57

abbrev pub all_of : (ℕ → Bool) → Bytes → Bool
all_of test [] = true
all_of test (b ∷ bs) = test b && all_of test bs

-- The value of digits, behind the value of those before them.
unfoldable pub decimal_from : ℕ → Bytes → ℕ
decimal_from value [] = value
decimal_from value (b ∷ bs) = decimal_from (value * 10 + (b - 48)) bs

abbrev pub is_empty : Bytes → Bool
is_empty [] = true
is_empty (b ∷ bs) = false

unfoldable pub parse_digits : ℕ → Bytes → Option ℕ
unfolding decimal_from
parse_digits max s =
    if is_empty s || (if all_of is_digit s then ltb max (decimal_from 0 s) else true)
    then none
    else some (decimal_from 0 s)

-- `str::parse` into an unsigned type with the largest value `max`: a leading `+` is accepted.
unfoldable pub parse_unsigned : ℕ → Bytes → Option ℕ
unfolding parse_digits
parse_unsigned max [] = none
parse_unsigned max (b ∷ bs) = if b == 43 then parse_digits max bs else parse_digits max (b ∷ bs)

abbrev pub is_hex_digit : ℕ → Bool
is_hex_digit b = is_digit b || ((leb 97 b && leb b 102) || (leb 65 b && leb b 70))

abbrev pub hex_value : ℕ → ℕ
hex_value b = if leb b 57 then b - 48 else if leb b 70 then b - 55 else b - 87

unfoldable pub hex_from : ℕ → Bytes → ℕ
hex_from value [] = value
hex_from value (b ∷ bs) = hex_from (value * 16 + hex_value b) bs
