-- ===== src/Bencode/Decoder.antt =====
-- src/bittorrent/bencode.rs: `Decoder`. The cursor is the bytes that it has before it.
use rsurl.Base.{
  ℕ, zero, suc, ◌+◌, ◌-◌, Bool, true, false, not, ◌&&◌, ◌||◌, Option, none, some, [], ◌∷◌, length,
  take, drop, ltb, leb, ◌==◌, if◌then◌else◌, Result, ok, bad, exhausted, ◌>>=◌,
}
use rsurl.Base.Bytes.{Bytes}
use rsurl.Base.Decimal.{leading_zero}
use rsurl.Base.Text.{is_digit, all_of, is_empty, decimal_from, split_once}
use rsurl.Base.Utf8.{is_utf8}
use rsurl.Bencode.{
  ℤ, pos, negsuc, Value, int, bytes, list, dict, Values, nil, cons, Entries, empty, insert,
}

abbrev pub max_alloc : ℕ
max_alloc = 268435456

abbrev pub max_depth : ℕ
max_depth = 256

abbrev pub i64_max : ℕ
i64_max = 9223372036854775807

abbrev pub usize_max : ℕ
usize_max = 18446744073709551615

-- `str::parse::<i64>` of a sign and digits.
unfoldable pub to_i64 : Bool → ℕ → Result ℤ
to_i64 false n = if ltb i64_max n then bad "bencode: integer out of range" else ok (pos n)
to_i64 true n =
    if ltb (i64_max + 1) n then bad "bencode: integer out of range" else ok (negsuc (n - 1))

unfoldable pub signed : Bool → Bytes → Result ℤ
unfolding to_i64
signed negative digits =
    if is_empty digits
      || (not (all_of is_digit digits)
          || (leading_zero digits
              || (negative && (leb (length digits) 1 && decimal_from 0 digits == 0))))
    then bad "bencode: malformed integer"
    else to_i64 negative (decimal_from 0 digits)

unfoldable pub integer_text : Bytes → Result ℤ
unfolding signed
integer_text [] = signed false []
integer_text (b ∷ s) =
    if not (is_utf8 (b ∷ s))
    then bad "bencode: non-utf8 integer"
    else if b == 45
    then signed true s
    else signed false (b ∷ s)

abbrev pub found : Option (Bytes × Bytes) → Result (Bytes × Bytes)
found none = bad "bencode: missing terminator"
found (some p) = ok p

-- Behind the `i`.
unfoldable pub integer : Bytes → Result (ℤ × Bytes)
unfolding integer_text
integer rest = (found (split_once 101 rest) >>= λ p. integer_text p.0 >>= λ n. ok (n, p.1))

unfoldable pub string_length : Bytes → Result ℕ
string_length s =
    if not (is_utf8 s)
    then bad "bencode: bad length"
    else if is_empty s || (not (all_of is_digit s) || leading_zero s)
    then bad "bencode: malformed string length"
    else if ltb usize_max (decimal_from 0 s)
    then bad "bencode: string length out of range"
    else if ltb max_alloc (decimal_from 0 s)
    then bad "bencode: string too large"
    else ok (decimal_from 0 s)

-- The bytes of the string, and those behind it.
unfoldable pub byte_string : Bytes → Result (Bytes × Bytes)
unfolding string_length
byte_string rest =
    (found (split_once 58 rest) >>= λ p. string_length p.0 >>= λ len.
    if ltb (length p.1) len
    then bad "bencode: string runs past end"
    else ok (take len p.1, drop len p.1))

abbrev pub inserted : Option Entries → Result Entries
inserted none = bad "bencode: duplicate dict key"
inserted (some m) = ok m

-- What is before the cursor.
pub data Kind : Type 0 where
  at_int : Bytes → Kind
  at_list : Bytes → Kind
  at_dict : Bytes → Kind
  at_string : Kind
  at_close : Bytes → Kind
  at_other : Kind
  at_end : Kind

unfoldable pub kind : Bytes → Kind
kind [] = at_end
kind (b ∷ rest) =
    if b == 105
    then at_int rest
    else if b == 108
    then at_list rest
    else if b == 100
    then at_dict rest
    else if is_digit b
    then at_string
    else if b == 101
    then at_close rest
    else at_other

-- An integer, a list, a dictionary or a string.
abbrev pub on_value {ℓ} :
    {A : Type ℓ}
    → Kind
    → (Bytes → Result A)
    → (Bytes → Result A)
    → (Bytes → Result A)
    → Result A
    → Result A
on_value (at_int r) i l d s = i r
on_value (at_list r) i l d s = l r
on_value (at_dict r) i l d s = d r
on_value at_string i l d s = s
on_value (at_close r) i l d s = bad "bencode: unexpected byte"
on_value at_other i l d s = bad "bencode: unexpected byte"
on_value at_end i l d s = bad "bencode: unexpected end"

-- The `e` of a list, or an item of it and the rest of the loop.
abbrev pub on_item {ℓ} : {A : Type ℓ} → Kind → (Bytes → A) → Result A → Result A
on_item (at_close r) close next = ok (close r)
on_item at_end close next = bad "bencode: unexpected end"
on_item (at_int r) close next = next
on_item (at_list r) close next = next
on_item (at_dict r) close next = next
on_item at_string close next = next
on_item at_other close next = next

-- The `e` of a dictionary, or an entry of it and the rest of the loop.
abbrev pub on_key {ℓ} : {A : Type ℓ} → Kind → (Bytes → A) → Result A → Result A
on_key (at_close r) close next = ok (close r)
on_key at_end close next = bad "bencode: unexpected end"
on_key at_string close next = next
on_key (at_int r) close next = bad "bencode: dict key is not a byte string"
on_key (at_list r) close next = bad "bencode: dict key is not a byte string"
on_key (at_dict r) close next = bad "bencode: dict key is not a byte string"
on_key at_other close next = bad "bencode: dict key is not a byte string"

-- The recursion has fuel: a call takes one, and `parse` gives two for each byte and one more.
unfoldable mutual
  unfolding kind integer byte_string insert

  pub value_depth : ℕ → ℕ → Bytes → Result (Value × Bytes)
  value_depth zero depth rest = exhausted
  value_depth (suc fuel) depth rest =
      if ltb max_depth depth
      then bad "bencode: nesting too deep"
      else on_value (kind rest) (λ r. integer r >>= λ p. ok (int p.0, p.1))
          (λ r. list_from fuel depth r >>= λ p. ok (list p.0, p.1))
          (λ r. dict_from fuel depth empty r >>= λ p. ok (dict p.0, p.1))
          (byte_string rest >>= λ p. ok (bytes p.0, p.1))

  pub list_from : ℕ → ℕ → Bytes → Result (Values × Bytes)
  list_from zero depth rest = exhausted
  list_from (suc fuel) depth rest =
      on_item (kind rest) (λ r. (nil, r))
        (value_depth fuel (depth + 1) rest >>= λ p.
          list_from fuel depth p.1 >>= λ q. ok (cons p.0 q.0, q.1))

  pub dict_from : ℕ → ℕ → Entries → Bytes → Result (Entries × Bytes)
  dict_from zero depth map rest = exhausted
  dict_from (suc fuel) depth map rest =
      on_key (kind rest) (λ r. (map, r))
        (byte_string rest >>= λ key. value_depth fuel (depth + 1) key.1 >>= λ val.
          inserted (insert key.0 val.0 map) >>= λ m. dict_from fuel depth m val.1)

abbrev pub whole : Value × Bytes → Result Value
whole (v, []) = ok v
whole (v, b ∷ bs) = bad "bencode: trailing bytes after value"

unfoldable pub parse : Bytes → Result Value
unfolding value_depth
parse input = (value_depth (suc (length input + length input)) 0 input >>= whole)
