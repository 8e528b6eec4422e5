-- ===== src/Bencode/Fuel.antt =====
-- src/bittorrent/bencode.rs: the recursion of `value` ends, since each call takes bytes.
use rsurl.Base.{
  ℕ, zero, suc, ◌+◌, ◌<◌, Bool, true, false, [], ◌∷◌, length, ltb, if◌then◌else◌, Result, ok, err,
  bad, ◌>>=◌, ◌≡◌, refl, ap, ◌∙◌, arith, Answers,
}
use rsurl.Base.Bytes.{Bytes}
use rsurl.Bencode.Decoder.{
  max_depth, byte_string, inserted, Kind, at_int, at_list, at_dict, at_string, at_close, at_other,
  at_end, kind, on_value, on_item, on_key, value_depth, list_from, dict_from, whole, parse,
}
use rsurl.Bencode.{Value, list, dict, nil, cons, Entries, empty, insert}
use rsurl.Bencode.Progress.{Leaves, Behind, kind-Behind, value_depth-Leaves, byte_string-Leaves}

-- Two chains that agree on what the first part may leave.
agree_within :
    {A B : Type 0} (n : ℕ) (r : Result (A × Bytes)) (k k' : A × Bytes → Result B)
    → Leaves n r
    → ((p : A × Bytes) → length p.1 < n → k p ≡ k' p)
    → (r >>= k) ≡ (r >>= k')
agree_within n (err e) k k' h same = refl
agree_within n (ok p) k k' h same = same p h

agree_behind :
    {A B : Type 0} (r : Result A) (k k' : A → Result B)
    → ((a : A) → k a ≡ k' a)
    → (r >>= k) ≡ (r >>= k')
agree_behind (err e) k k' same = refl
agree_behind (ok a) k k' same = same a

on_value_agree :
    {A : Type 0} (n : ℕ) (k : Kind) (deep : Bool) (i l l' d d' : Bytes → Result A) (s : Result A)
    → Behind n k
    → ((r : Bytes) → length r < n → l r ≡ l' r)
    → ((r : Bytes) → length r < n → d r ≡ d' r)
    → (if deep then bad "bencode: nesting too deep" else on_value k i l d s)
      ≡ (if deep then bad "bencode: nesting too deep" else on_value k i l' d' s)
on_value_agree n k true i l l' d d' s behind hl hd = refl
on_value_agree n (at_int r) false i l l' d d' s behind hl hd = refl
on_value_agree n (at_list r) false i l l' d d' s behind hl hd = hl r behind
on_value_agree n (at_dict r) false i l l' d d' s behind hl hd = hd r behind
on_value_agree n at_string false i l l' d d' s behind hl hd = refl
on_value_agree n (at_close r) false i l l' d d' s behind hl hd = refl
on_value_agree n at_other false i l l' d d' s behind hl hd = refl
on_value_agree n at_end false i l l' d d' s behind hl hd = refl

mutual
  unfolding value_depth list_from dict_from

  value_depth-enough :
      (f g depth : ℕ) (rest : Bytes)
      → length rest + length rest < f
      → length rest + length rest < g
      → value_depth f depth rest ≡ value_depth g depth rest
  value_depth-enough zero g depth rest h h' = absurd (omega arith)
  value_depth-enough (suc f) zero depth rest h h' = absurd (omega arith)
  value_depth-enough (suc f) (suc g) depth rest h h' =
      on_value_agree (length rest) (kind rest) (ltb max_depth depth) _ _ _ _ _ _ (kind-Behind rest)
        (λ r small.
          ap (λ t. t >>= λ p. ok (list p.0, p.1))
            (list_from-enough f g depth r (omega (arith, h, small)) (omega (arith, h', small))))
        (λ r small.
          ap (λ t. t >>= λ p. ok (dict p.0, p.1))
            (dict_from-enough f g depth empty r (omega (arith, h, small))
              (omega (arith, h', small))))

  list_from-enough :
      (f g depth : ℕ) (rest : Bytes)
      → length rest + length rest + 1 < f
      → length rest + length rest + 1 < g
      → list_from f depth rest ≡ list_from g depth rest
  list_from-enough zero g depth rest h h' = absurd (omega arith)
  list_from-enough (suc f) zero depth rest h h' = absurd (omega arith)
  list_from-enough (suc f) (suc g) depth rest h h' = ap (on_item (kind rest) (λ r. (nil, r))) (
      ap (λ t. t >>= λ p. list_from f depth p.1 >>= λ q. ok (cons p.0 q.0, q.1))
        (value_depth-enough f g (depth + 1) rest (omega (arith, h)) (omega (arith, h')))
      ∙ agree_within (length rest) (value_depth g (depth + 1) rest) _ _
          (value_depth-Leaves g (depth + 1) rest (omega (arith, h')))
          (λ p small.
            ap (λ t. t >>= λ q. ok (cons p.0 q.0, q.1))
              (list_from-enough f g depth p.1 (omega (arith, h, small))
                (omega (arith, h', small)))))

  dict_from-enough :
      (f g depth : ℕ) (m : Entries) (rest : Bytes)
      → length rest + length rest + 1 < f
      → length rest + length rest + 1 < g
      → dict_from f depth m rest ≡ dict_from g depth m rest
  dict_from-enough zero g depth m rest h h' = absurd (omega arith)
  dict_from-enough (suc f) zero depth m rest h h' = absurd (omega arith)
  dict_from-enough (suc f) (suc g) depth m rest h h' = ap (on_key (kind rest) (λ r. (m, r))) (
      agree_within (length rest) (byte_string rest) _ _ (byte_string-Leaves rest) (λ key small.
        ap (λ t. t >>= λ val. inserted (insert key.0 val.0 m) >>= λ m'. dict_from f depth m' val.1)
          (value_depth-enough f g (depth + 1) key.1 (omega (arith, h, small))
            (omega (arith, h', small)))
        ∙ agree_within (length key.1) (value_depth g (depth + 1) key.1) _ _
            (value_depth-Leaves g (depth + 1) key.1 (omega (arith, h', small)))
            (λ val small'. agree_behind (inserted (insert key.0 val.0 m)) _ _ (λ m'.
              dict_from-enough f g depth m' val.1 (omega (arith, h, small, small'))
                (omega (arith, h', small, small'))))))

whole-Answers : (n : ℕ) (r : Result (Value × Bytes)) → Leaves n r → Answers (r >>= whole)
whole-Answers n (err e) h = h
whole-Answers n (ok (v, [])) h = tt
whole-Answers n (ok (v, b ∷ bs)) h = refl

-- The fuel of `parse` is enough, whatever the bytes are: it gives a value or an error of the code,
-- and not that the fuel ran out; with any fuel above two for each byte, the result is the same.
pub parse-enough :
    (fuel : ℕ) (input : Bytes)
    → length input + length input < fuel
    → Answers (parse input) × (parse input ≡ (value_depth fuel 0 input >>= whole))
unfolding parse
parse-enough fuel input enough = (answers, same)
  where
    answers : Answers (value_depth (suc (length input + length input)) 0 input >>= whole)
    answers =
        whole-Answers (length input) (value_depth (suc (length input + length input)) 0 input)
          (value_depth-Leaves (suc (length input + length input)) 0 input (omega arith))

    same :
        (value_depth (suc (length input + length input)) 0 input >>= whole)
        ≡ (value_depth fuel 0 input >>= whole)
    same =
        ap (λ r. r >>= whole)
          (value_depth-enough (suc (length input + length input)) fuel 0 input (omega arith) enough)
