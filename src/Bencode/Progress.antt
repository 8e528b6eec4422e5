-- ===== src/Bencode/Progress.antt =====
-- src/bittorrent/bencode.rs: each call of the decoder takes bytes, and what fails is an error of the
-- code, where there is fuel for the bytes.
use rsurl.Base.{
  ℕ, zero, suc, ◌+◌, ◌≤◌, ◌<◌, Bool, true, false, [], ◌∷◌, length, take, drop, length-drop, ltb,
  ◌==◌, if◌then◌else◌, Result, ok, err, bad, ◌>>=◌, ◌≡◌, refl, inl, inr, Bool-cases, Option-cases,
  arith, Answers, is_exhausted, Option, none, some,
}
use rsurl.Base.Bytes.{Bytes}
use rsurl.Base.Text.{split_once, decimal_from}
use rsurl.Bencode.Decoder.{
  max_depth, to_i64, signed, integer_text, integer, string_length, byte_string, found, inserted,
  Kind, at_int, at_list, at_dict, at_string, at_close, at_other, at_end, kind, on_value, on_item,
  on_key, value_depth, list_from, dict_from,
}
use rsurl.Bencode.{int, bytes, list, dict, nil, cons, Entries, empty, insert}

-- Fewer than `n` bytes are left, or the error is one of the code.
abbrev pub Leaves : {A : Type 0} → ℕ → Result (A × Bytes) → Type 0
Leaves n (ok p) = length p.1 < n
Leaves n (err e) = is_exhausted e ≡ false

after :
    {A B : Type 0} (n : ℕ) (r : Result A) (k : A → Result (B × Bytes))
    → Answers r
    → ((a : A) → Leaves n (k a))
    → Leaves n (r >>= k)
after n (err e) k own h = own
after n (ok a) k own h = h a

within :
    {A B : Type 0} (n : ℕ) (r : Result (A × Bytes)) (k : A × Bytes → Result (B × Bytes))
    → Leaves n r
    → ((p : A × Bytes) → length p.1 < n → Leaves n (k p))
    → Leaves n (r >>= k)
within n (err e) k h next = h
within n (ok p) k h next = next p h

found-Leaves : (c : ℕ) (l : Bytes) → Leaves (length l) (found (split_once c l))
unfolding split_once
found-Leaves c [] = refl
found-Leaves c (b ∷ l) = elim (Bool-cases (b == c)) [
  | inl e ↦ rw e (omega arith)
  | inr e ↦ elim (Option-cases (split_once c l)) [
    | inl none_there ↦ rw (e, none_there) refl
    | inr (p, there) ↦
        let ih : length p.1 < length l = rw there at (found-Leaves c l) in
        rw (e, there) (omega (arith, ih))
  ]
]

widen : {A : Type 0} (n m : ℕ) (r : Result (A × Bytes)) → n ≤ m → Leaves n r → Leaves m r
widen n m (err e) h left = left
widen n m (ok p) h left = omega (arith, h, left)

to_i64-Answers : (negative : Bool) (n : ℕ) → Answers (to_i64 negative n)
unfolding to_i64
to_i64-Answers false n = ground arith
to_i64-Answers true n = ground arith

signed-Answers : (negative : Bool) (digits : Bytes) → Answers (signed negative digits)
unfolding signed
signed-Answers negative digits = ground (arith, to_i64-Answers negative (decimal_from 0 digits))

integer_text-Answers : (s : Bytes) → Answers (integer_text s)
unfolding integer_text
integer_text-Answers [] = signed-Answers false []
integer_text-Answers (b ∷ s) = ground (arith, signed-Answers true s, signed-Answers false (b ∷ s))

string_length-Answers : (s : Bytes) → Answers (string_length s)
unfolding string_length
string_length-Answers s = ground arith

integer-Leaves : (rest : Bytes) → Leaves (length rest) (integer rest)
unfolding integer
integer-Leaves rest =
    within (length rest) (found (split_once 101 rest)) (λ p. integer_text p.0 >>= λ n. ok (n, p.1))
      (found-Leaves 101 rest)
      (λ p small.
        after (length rest) (integer_text p.0) (λ n. ok (n, p.1)) (integer_text-Answers p.0)
          (λ n. small))

taken-Leaves :
    (n len : ℕ) (s : Bytes)
    → length s < n
    → Leaves n (
        if ltb (length s) len
        then bad "bencode: string runs past end"
        else ok (take len s, drop len s))
taken-Leaves n len s small = ground (arith, small, length-drop len s)

pub byte_string-Leaves : (rest : Bytes) → Leaves (length rest) (byte_string rest)
unfolding byte_string
byte_string-Leaves rest =
    within (length rest) (found (split_once 58 rest)) _ (found-Leaves 58 rest) (λ p small.
      after (length rest) (string_length p.0) _ (string_length-Answers p.0)
        (λ len. taken-Leaves (length rest) len p.1 small))

-- The byte before the cursor, taken off.
abbrev pub Behind : ℕ → Kind → Type 0
Behind n (at_int r) = length r < n
Behind n (at_list r) = length r < n
Behind n (at_dict r) = length r < n
Behind n (at_close r) = length r < n
Behind n at_string = Unit
Behind n at_other = Unit
Behind n at_end = Unit

pub kind-Behind : (rest : Bytes) → Behind (length rest) (kind rest)
unfolding kind
kind-Behind [] = tt
kind-Behind (b ∷ rest) = ground arith

on_value-Leaves :
    {A : Type 0} (n : ℕ) (k : Kind) (deep : Bool) (i l d : Bytes → Result (A × Bytes))
    (s : Result (A × Bytes))
    → Behind n k
    → ((r : Bytes) → Leaves (length r) (i r))
    → ((r : Bytes) → length r < n → Leaves (length r) (l r))
    → ((r : Bytes) → length r < n → Leaves (length r) (d r))
    → Leaves n s
    → Leaves n (if deep then bad "bencode: nesting too deep" else on_value k i l d s)
on_value-Leaves n k true i l d s behind hi hl hd hs = refl
on_value-Leaves n (at_int r) false i l d s behind hi hl hd hs =
    widen (length r) n (i r) (omega (arith, behind)) (hi r)
on_value-Leaves n (at_list r) false i l d s behind hi hl hd hs =
    widen (length r) n (l r) (omega (arith, behind)) (hl r behind)
on_value-Leaves n (at_dict r) false i l d s behind hi hl hd hs =
    widen (length r) n (d r) (omega (arith, behind)) (hd r behind)
on_value-Leaves n at_string false i l d s behind hi hl hd hs = hs
on_value-Leaves n (at_close r) false i l d s behind hi hl hd hs = refl
on_value-Leaves n at_other false i l d s behind hi hl hd hs = refl
on_value-Leaves n at_end false i l d s behind hi hl hd hs = refl

on_item-Leaves :
    {A : Type 0} (n : ℕ) (k : Kind) (a : A) (next : Result (A × Bytes))
    → Behind n k
    → Leaves n next
    → Leaves n (on_item k (λ r. (a, r)) next)
on_item-Leaves n (at_close r) a next behind h = behind
on_item-Leaves n at_end a next behind h = refl
on_item-Leaves n (at_int r) a next behind h = h
on_item-Leaves n (at_list r) a next behind h = h
on_item-Leaves n (at_dict r) a next behind h = h
on_item-Leaves n at_string a next behind h = h
on_item-Leaves n at_other a next behind h = h

on_key-Leaves :
    {A : Type 0} (n : ℕ) (k : Kind) (a : A) (next : Result (A × Bytes))
    → Behind n k
    → Leaves n next
    → Leaves n (on_key k (λ r. (a, r)) next)
on_key-Leaves n (at_close r) a next behind h = behind
on_key-Leaves n at_end a next behind h = refl
on_key-Leaves n at_string a next behind h = h
on_key-Leaves n (at_int r) a next behind h = refl
on_key-Leaves n (at_list r) a next behind h = refl
on_key-Leaves n (at_dict r) a next behind h = refl
on_key-Leaves n at_other a next behind h = refl

kept :
    {A B : Type 0} (n : ℕ) (r : Result (A × Bytes)) (f : A → B)
    → Leaves n r
    → Leaves n (r >>= λ p. ok (f p.0, p.1))
kept n (err e) f h = h
kept n (ok p) f h = h

inserted-Answers : (o : Option Entries) → Answers (inserted o)
inserted-Answers none = refl
inserted-Answers (some m) = tt

mutual
  unfolding value_depth list_from dict_from

  pub value_depth-Leaves :
      (fuel depth : ℕ) (rest : Bytes)
      → length rest + length rest < fuel
      → Leaves (length rest) (value_depth fuel depth rest)
  value_depth-Leaves zero depth rest f = absurd (omega arith)
  value_depth-Leaves (suc fuel) depth rest f =
      on_value-Leaves (length rest) (kind rest) (ltb max_depth depth) _ _ _ _ (kind-Behind rest)
        (λ r. kept (length r) (integer r) int (integer-Leaves r))
        (λ r small.
          kept (length r) (list_from fuel depth r) list
            (list_from-Leaves fuel depth r (omega (arith, f, small))))
        (λ r small.
          kept (length r) (dict_from fuel depth empty r) dict
            (dict_from-Leaves fuel depth empty r (omega (arith, f, small))))
        (kept (length rest) (byte_string rest) bytes (byte_string-Leaves rest))

  pub list_from-Leaves :
      (fuel depth : ℕ) (rest : Bytes)
      → length rest + length rest + 1 < fuel
      → Leaves (length rest) (list_from fuel depth rest)
  list_from-Leaves zero depth rest f = absurd (omega arith)
  list_from-Leaves (suc fuel) depth rest f =
      on_item-Leaves (length rest) (kind rest) nil _ (kind-Behind rest) (
        within (length rest) (value_depth fuel (depth + 1) rest) _
          (value_depth-Leaves fuel (depth + 1) rest (omega (arith, f)))
          (λ p small.
            kept (length rest) (list_from fuel depth p.1) (λ l. cons p.0 l)
              (widen (length p.1) (length rest) (list_from fuel depth p.1) (omega (arith, small))
                (list_from-Leaves fuel depth p.1 (omega (arith, f, small))))))

  pub dict_from-Leaves :
      (fuel depth : ℕ) (m : Entries) (rest : Bytes)
      → length rest + length rest + 1 < fuel
      → Leaves (length rest) (dict_from fuel depth m rest)
  dict_from-Leaves zero depth m rest f = absurd (omega arith)
  dict_from-Leaves (suc fuel) depth m rest f =
      on_key-Leaves (length rest) (kind rest) m _ (kind-Behind rest) (
        within (length rest) (byte_string rest) _ (byte_string-Leaves rest) (λ key small.
          within (length rest) (value_depth fuel (depth + 1) key.1) _
            (widen (length key.1) (length rest) (value_depth fuel (depth + 1) key.1)
              (omega (arith, small))
              (value_depth-Leaves fuel (depth + 1) key.1 (omega (arith, f, small))))
            (λ val small'.
              after (length rest) (inserted (insert key.0 val.0 m)) _
                (inserted-Answers (insert key.0 val.0 m))
                (λ m'.
                  widen (length val.1) (length rest) (dict_from fuel depth m' val.1)
                    (omega (arith, small'))
                    (dict_from-Leaves fuel depth m' val.1 (omega (arith, f, small')))))))
