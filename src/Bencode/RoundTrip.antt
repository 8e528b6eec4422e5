-- ===== src/Bencode/RoundTrip.antt =====
-- src/bittorrent/bencode.rs: what `encode` writes, `parse` reads back.
use rsurl.Base.{
  ℕ, zero, suc, ◌+◌, ◌≤◌, ◌<◌, Bool, true, false, Option, none, some, [], ◌∷◌, ◌++◌, append-nil,
  append_assoc, length, take, drop, length-append, take-length_append, drop-length_append, ltb,
  le→ltb, ◌==◌, if◌then◌else◌, Result, ok, bad, ◌>>=◌, ◌≡◌, refl, sym, ap, ◌∙◌, arith,
}
use rsurl.Base.Bytes.{Bytes}
use rsurl.Base.Decimal.{
  decimal, decimal_from-decimal, decimal-all, decimal-leading_zero, decimal-filled,
  split_once-digits,
}
use rsurl.Base.Text.{is_digit, all_of, is_empty, split_once}
use rsurl.Base.Utf8.{Utf8State, boundary, utf8_lead, utf8_from, is_utf8}
use rsurl.Bencode.Decoder.{
  max_alloc, max_depth, i64_max, to_i64, signed, integer_text, integer, string_length, byte_string,
  kind, Kind, at_int, at_list, at_dict, at_string, at_close, at_other, at_end, on_item, value_depth,
  list_from, dict_from, whole, parse,
}
use rsurl.Bencode.{
  ℤ, pos, negsuc, Value, int, bytes, list, dict, Values, nil, cons, Entries, empty, entry, order,
  behind, insert, encode, encode_list, encode_dict, encode_int, encode_bytes,
}

utf8_lead-ascii : (b : ℕ) → ltb b 128 ≡ true → utf8_lead b ≡ some boundary
unfolding utf8_lead
utf8_lead-ascii b ascii = rw ascii refl

digits-utf8 : (s : Bytes) → all_of is_digit s ≡ true → is_utf8 s ≡ true
unfolding is_utf8
digits-utf8 [] h = refl
digits-utf8 (b ∷ s) h =
    let ascii : ltb b 128 ≡ true = ground (arith, h) in
    let digits : all_of is_digit s ≡ true = ground (arith, h) in
    ap
      (λ (o : Option Utf8State). elim o as (λ x. Bool) [
        | none ↦ false
        | some next ↦ utf8_from next s
      ])
      (utf8_lead-ascii b ascii)
    ∙ digits-utf8 s digits

string_length-decimal : (n : ℕ) → n ≤ max_alloc → string_length (decimal n) ≡ ok n
unfolding string_length
string_length-decimal n small =
    rw
      (
        digits-utf8 (decimal n) (decimal-all n),
        decimal-filled n,
        decimal-all n,
        decimal-leading_zero n,
        decimal_from-decimal n,
      )
      (ground (arith, small))

pub byte_string-encode_bytes :
    (b rest : Bytes) → length b ≤ max_alloc → byte_string (encode_bytes b ++ rest) ≡ ok (b, rest)
unfolding byte_string encode_bytes
byte_string-encode_bytes b rest small =
    let n = length b in
    rw
      (
        append_assoc (decimal n) (58 ∷ b) rest,
        split_once-digits 58 (decimal n) (b ++ rest) refl (decimal-all n),
      )
      (ap
          (λ r. r >>= λ len.
            if ltb (length (b ++ rest)) len
            then bad "bencode: string runs past end"
            else ok (take len (b ++ rest), drop len (b ++ rest)))
          (string_length-decimal n small)
        ∙ rw
            (
              le→ltb (length (b ++ rest)) n (omega (arith, length-append b rest)),
              take-length_append b rest,
              drop-length_append b rest,
            )
            refl)

abbrev pub IsI64 : ℤ → Type 0
IsI64 (pos n) = n ≤ i64_max
IsI64 (negsuc n) = n ≤ i64_max

integer_text-digits :
    (s : Bytes) → all_of is_digit s ≡ true → is_empty s ≡ false → integer_text s ≡ signed false s
unfolding integer_text
integer_text-digits [] digits filled = cc
integer_text-digits (b ∷ s) digits filled =
    let plain : (b == 45) ≡ false = ground (arith, digits) in
    rw (digits-utf8 (b ∷ s) digits, plain) refl

signed-decimal : (n : ℕ) → n ≤ i64_max → signed false (decimal n) ≡ ok (pos n)
unfolding signed to_i64
signed-decimal n small =
    rw (decimal-filled n, decimal-all n, decimal-leading_zero n, decimal_from-decimal n)
      (ground (arith, small))

signed-minus : (n : ℕ) → n ≤ i64_max → integer_text (45 ∷ decimal (suc n)) ≡ ok (negsuc n)
unfolding integer_text signed to_i64 is_utf8
signed-minus n small =
    let d = suc n in
    rw
      (
        digits-utf8 (decimal d) (decimal-all d),
        decimal-filled d,
        decimal-all d,
        decimal-leading_zero d,
        decimal_from-decimal d,
      )
      (ground (arith, small))

minus_text :
    (n : ℕ) (rest : Bytes)
    → n ≤ i64_max
    → integer (45 ∷ (decimal (suc n) ++ (101 ∷ rest))) ≡ ok (negsuc n, rest)
unfolding integer split_once
minus_text n rest small =
    rw (split_once-digits 101 (decimal (suc n)) rest refl (decimal-all (suc n)))
      (ap (λ r. r >>= λ i. ok (i, rest)) (signed-minus n small))

integer-encode_int :
    (i : ℤ) (rest : Bytes)
    → IsI64 i
    → (tail : Bytes) × (encode_int i ++ rest ≡ 105 ∷ tail) × (integer tail ≡ ok (i, rest))
unfolding integer encode_int
integer-encode_int (pos n) rest small = (
  decimal n ++ (101 ∷ rest),
  ap (λ t. 105 ∷ t) (append_assoc (decimal n) (101 ∷ []) rest),
  rw (split_once-digits 101 (decimal n) rest refl (decimal-all n)) (
      ap (λ r. r >>= λ i. ok (i, rest))
        (integer_text-digits (decimal n) (decimal-all n) (decimal-filled n)
          ∙ signed-decimal n small)),
)
integer-encode_int (negsuc n) rest small = (
  45 ∷ (decimal (suc n) ++ (101 ∷ rest)),
  ap (λ t. 105 ∷ 45 ∷ t) (append_assoc (decimal (suc n)) (101 ∷ []) rest),
  minus_text n rest small,
)

-- The key `k` comes before those of a dictionary.
abbrev pub AllBehind : Bytes → Entries → Type 0
AllBehind k empty = Unit
AllBehind k (entry k' v d) = (order k' k ≡ behind) × AllBehind k d

-- How deep a value at `depth` nests, and what its numbers and strings may be.
abbrev mutual
  pub Fits : ℕ → Value → Type 0
  Fits depth (int i) = (depth ≤ max_depth) × IsI64 i
  Fits depth (bytes b) = (depth ≤ max_depth) × (length b ≤ max_alloc)
  Fits depth (list l) = (depth ≤ max_depth) × FitsList (depth + 1) l
  Fits depth (dict d) = (depth ≤ max_depth) × FitsDict (depth + 1) d

  pub FitsList : ℕ → Values → Type 0
  FitsList depth nil = Unit
  FitsList depth (cons v l) = Fits depth v × FitsList depth l

  pub FitsDict : ℕ → Entries → Type 0
  FitsDict depth empty = Unit
  FitsDict depth (entry k v d) =
      (length k ≤ max_alloc) × Fits depth v × AllBehind k d × FitsDict depth d

-- A dictionary, and an entry behind it.
abbrev snoc : Entries → Bytes → Value → Entries
snoc empty k v = entry k v empty
snoc (entry k' v' d) k v = entry k' v' (snoc d k v)

abbrev append : Entries → Entries → Entries
append empty d = d
append (entry k v c) d = entry k v (append c d)

-- The keys of the second are behind those of the first.
abbrev Joins : Entries → Entries → Type 0
Joins empty d = Unit
Joins (entry k v c) d = AllBehind k d × Joins c d

insert-snoc :
    (c : Entries) (k : Bytes) (v : Value) (d : Entries)
    → Joins c (entry k v d)
    → insert k v c ≡ some (snoc c k v)
unfolding insert
insert-snoc empty k v d joins = refl
insert-snoc (entry k' v' c) k v d ((later, more), joins) =
    rw (later, insert-snoc c k v d joins) refl

Joins-snoc :
    (c : Entries) (k : Bytes) (v : Value) (d : Entries)
    → Joins c (entry k v d)
    → AllBehind k d
    → Joins (snoc c k v) d
Joins-snoc empty k v d joins later = (later, tt)
Joins-snoc (entry k' v' c) k v d ((first, more), joins) later =
    (more, Joins-snoc c k v d joins later)

append-snoc :
    (c : Entries) (k : Bytes) (v : Value) (d : Entries)
    → append (snoc c k v) d ≡ append c (entry k v d)
append-snoc empty k v d = refl
append-snoc (entry k' v' c) k v d = ap (λ t. entry k' v' t) (append-snoc c k v d)

append-empty : (c : Entries) → append c empty ≡ c
append-empty empty = refl
append-empty (entry k v c) = ap (λ t. entry k v t) (append-empty c)

-- A byte that does not end a list.
abbrev Starts : Kind → Type 0
Starts (at_close r) = ⊥
Starts at_end = ⊥
Starts (at_int r) = Unit
Starts (at_list r) = Unit
Starts (at_dict r) = Unit
Starts at_string = Unit
Starts at_other = Unit

on_item-Starts :
    {A : Type 0} (k : Kind) (close : Bytes → A) (next : Result A)
    → Starts k
    → on_item k close next ≡ next
on_item-Starts (at_close r) close next h = absurd h
on_item-Starts at_end close next h = absurd h
on_item-Starts (at_int r) close next h = refl
on_item-Starts (at_list r) close next h = refl
on_item-Starts (at_dict r) close next h = refl
on_item-Starts at_string close next h = refl
on_item-Starts at_other close next h = refl

kind-digits :
    (s rest : Bytes) → all_of is_digit s ≡ true → is_empty s ≡ false → kind (s ++ rest) ≡ at_string
unfolding kind
kind-digits [] rest digits filled = cc
kind-digits (b ∷ s) rest digits filled = ground (arith, digits)

pub kind-encode_bytes : (b rest : Bytes) → kind (encode_bytes b ++ rest) ≡ at_string
unfolding encode_bytes
kind-encode_bytes b rest =
    let n = length b in
    rw (append_assoc (decimal n) (58 ∷ b) rest)
      (kind-digits (decimal n) (58 ∷ (b ++ rest)) (decimal-all n) (decimal-filled n))

encode-Starts : (v : Value) (rest : Bytes) → Starts (kind (encode v ++ rest))
unfolding encode kind encode_int
encode-Starts (int (pos n)) rest = tt
encode-Starts (int (negsuc n)) rest = tt
encode-Starts (bytes b) rest = rw (kind-encode_bytes b rest) tt
encode-Starts (list l) rest = tt
encode-Starts (dict d) rest = tt

pub length-encode_bytes : (b : Bytes) → 1 ≤ length (encode_bytes b)
unfolding encode_bytes
length-encode_bytes b = omega (arith, length-append (decimal (length b)) (58 ∷ b))

length-encode : (v : Value) → 1 ≤ length (encode v)
unfolding encode encode_int
length-encode (int (pos n)) = omega arith
length-encode (int (negsuc n)) = omega arith
length-encode (bytes b) = length-encode_bytes b
length-encode (list l) = omega arith
length-encode (dict d) = omega arith

mutual
  unfolding value_depth list_from dict_from kind encode

  pub value_depth-encode :
      (v : Value) (fuel depth : ℕ) (rest : Bytes)
      → length (encode v) + length (encode v) < fuel
      → Fits depth v
      → value_depth fuel depth (encode v ++ rest) ≡ ok (v, rest)
  value_depth-encode v zero depth rest enough fits = absurd (omega arith)
  value_depth-encode (int i) (suc fuel) depth rest enough (shallow, small) =
      let (tail, wire, parsed) = integer-encode_int i rest small in
      rw (le→ltb max_depth depth shallow, wire) (ap (λ r. r >>= λ p. ok (int p.0, p.1)) parsed)
  value_depth-encode (bytes b) (suc fuel) depth rest enough (shallow, small) =
      rw (le→ltb max_depth depth shallow, kind-encode_bytes b rest)
        (ap (λ r. r >>= λ p. ok (bytes p.0, p.1)) (byte_string-encode_bytes b rest small))
  value_depth-encode (list l) (suc fuel) depth rest enough (shallow, fits) =
      rw (le→ltb max_depth depth shallow, append_assoc (encode_list l) (101 ∷ []) rest)
        (ap (λ r. r >>= λ p. ok (list p.0, p.1))
          (list_from-encode l fuel depth rest
            (omega (arith, enough, length-append (encode_list l) (101 ∷ []))) fits))
  value_depth-encode (dict d) (suc fuel) depth rest enough (shallow, fits) =
      rw (le→ltb max_depth depth shallow, append_assoc (encode_dict d) (101 ∷ []) rest)
        (ap (λ r. r >>= λ p. ok (dict p.0, p.1))
          (dict_from-encode d fuel depth empty rest
            (omega (arith, enough, length-append (encode_dict d) (101 ∷ []))) fits tt))

  list_from-encode :
      (l : Values) (fuel depth : ℕ) (rest : Bytes)
      → length (encode_list l) + length (encode_list l) + 1 < fuel
      → FitsList (depth + 1) l
      → list_from fuel depth (encode_list l ++ (101 ∷ rest)) ≡ ok (l, rest)
  list_from-encode l zero depth rest enough fits = absurd (omega arith)
  list_from-encode nil (suc fuel) depth rest enough fits = refl
  list_from-encode (cons v l) (suc fuel) depth rest enough (fit, fits) =
      let more = encode_list l ++ (101 ∷ rest) in
      let sum = length-append (encode v) (encode_list l) in
      let first = value_depth-encode v fuel (depth + 1) more (omega (arith, enough, sum)) fit in
      let others =
        list_from-encode l fuel depth rest (omega (arith, enough, sum, length-encode v)) fits in
      rw (append_assoc (encode v) (encode_list l) (101 ∷ rest)) (
        on_item-Starts (kind (encode v ++ more)) _ _ (encode-Starts v more)
        ∙ rw (first, others) refl)

  dict_from-encode :
      (d : Entries) (fuel depth : ℕ) (read : Entries) (rest : Bytes)
      → length (encode_dict d) + length (encode_dict d) + 1 < fuel
      → FitsDict (depth + 1) d
      → Joins read d
      → dict_from fuel depth read (encode_dict d ++ (101 ∷ rest)) ≡ ok (append read d, rest)
  dict_from-encode d zero depth read rest enough fits joins = absurd (omega arith)
  dict_from-encode empty (suc fuel) depth read rest enough fits joins = rw (append-empty read) refl
  dict_from-encode (entry k v d) (suc fuel) depth read rest enough (short, fit, later, fits) joins =
      let more = encode_dict d ++ (101 ∷ rest) in
      let sum = length-append (encode_bytes k) (encode v ++ encode_dict d) in
      let sum' = length-append (encode v) (encode_dict d) in
      let value =
        value_depth-encode v fuel (depth + 1) more (omega (arith, enough, sum, sum')) fit in
      let others =
        dict_from-encode d fuel depth (snoc read k v) rest
          (omega (arith, enough, sum, sum', length-encode_bytes k)) fits
          (Joins-snoc read k v d joins later) in
      rw
        (
          append_assoc (encode_bytes k) (encode v ++ encode_dict d) (101 ∷ rest),
          append_assoc (encode v) (encode_dict d) (101 ∷ rest),
          kind-encode_bytes k (encode v ++ more),
          byte_string-encode_bytes k (encode v ++ more) short,
          value,
          insert-snoc read k v d joins,
        )
        (others ∙ ap (λ m. ok (m, rest)) (append-snoc read k v d))

-- `parse` reads back what `encode` writes, for a value that nests no deeper than `MAX_DEPTH`, with
-- integers of 64 bits, strings no longer than `MAX_ALLOC`, and dictionaries in the order of their
-- keys, as a `BTreeMap` has them.
pub parse-encode : (v : Value) → Fits 0 v → parse (encode v) ≡ ok v
unfolding parse
parse-encode v fits =
    let n = length (encode v) in
    ap (λ l. value_depth (suc (n + n)) 0 l >>= whole) (sym (append-nil (encode v)))
    ∙ ap (λ r. r >>= whole) (value_depth-encode v (suc (n + n)) 0 [] (omega arith) fits)
