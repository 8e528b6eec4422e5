-- ===== src/Http1/Framing.antt =====
-- src/proto/http1.rs and src/http.rs: how a response body ends.
use rsurl.Base.{
  ℕ, Bool, true, false, not, ◌&&◌, ◌||◌, Option, none, some, List, [], ◌∷◌, Result, ok, err, bad,
  ◌>>=◌, if◌then◌else◌, ◌==◌, leb, ltb, ◌≡◌, ◌≢◌, ◌↔◌, refl, inl, inr, Bool-cases, arith,
}
use rsurl.Base.Bytes.{Bytes, codes}
use rsurl.Base.Text.{eq_ignore_case, split, trim, is_empty, all_of, is_digit, parse_unsigned}
use rsurl.Http1.Head.{
  Header, Head, BodyMode, no_body, chunks, until_eof, any_named, any_chunked, any_framing,
  length_part, u64_max, agree, length_parts, content_length_from, sized_mode, body_mode,
  body_is_close_delimited, or_else,
}

-- A length, or an error.
abbrev Known : Result (Option ℕ) → Type 0
Known (ok none) = ⊥
Known (ok (some n)) = Unit
Known (err e) = Unit

if-Known : (c : Bool) (a b : Result (Option ℕ)) → Known a → Known b → Known (if c then a else b)
if-Known true a b h h' = h
if-Known false a b h h' = h'

>>=-Known :
    {A : Type 0} (r : Result A) (k : A → Result (Option ℕ))
    → ((a : A) → Known (k a))
    → Known (r >>= k)
>>=-Known (err e) k h = tt
>>=-Known (ok a) k h = h a

-- Where each further part keeps a length that has been found, a chain does.
chain-Known :
    (r : Result (Option ℕ)) (k : Option ℕ → Result (Option ℕ))
    → Known r
    → ((n : ℕ) → Known (k (some n)))
    → Known (r >>= k)
chain-Known (err e) k h later = tt
chain-Known (ok none) k h later = absurd h
chain-Known (ok (some n)) k h later = later n

agree-Known : (seen : Option ℕ) (n : ℕ) → Known (agree seen n)
unfolding agree
agree-Known none n = tt
agree-Known (some m) n =
    if-Known (not (m == n)) (bad "conflicting Content-Length values") (ok (some n)) tt tt

length_part-Known : (seen : Option ℕ) (t : Bytes) → Known (length_part seen t)
unfolding length_part
length_part-Known seen t =
    let value = or_else (parse_unsigned u64_max t) (bad "bad Content-Length") in
    if-Known (is_empty t || not (all_of is_digit t)) (bad "bad Content-Length")
      (value >>= agree seen) tt (>>=-Known value (agree seen) (agree-Known seen))

length_parts-Known : (n : ℕ) (parts : List Bytes) → Known (length_parts (some n) parts)
unfolding length_parts
length_parts-Known n [] = tt
length_parts-Known n (part ∷ parts) =
    chain-Known (length_part (some n) (trim part)) (λ s. length_parts s parts)
      (length_part-Known (some n) (trim part)) (λ m. length_parts-Known m parts)

-- `split` gives a part at least.
split-cons :
    (c : ℕ) (l : Bytes) → (part : Bytes) × (parts : List Bytes) × (split c l ≡ part ∷ parts)
unfolding split
split-cons c [] = ([], [], refl)
split-cons c (b ∷ bs) =
    let (part, parts, e) = split-cons c bs in
    elim (Bool-cases (b == c)) [
      | inl eq ↦ ([], part ∷ parts, rw (e, eq) refl)
      | inr ne ↦ (b ∷ part, parts, rw (e, ne) refl)
    ]

value-Known : (v : Bytes) → Known (length_parts none (split 44 v))
unfolding length_parts
value-Known v =
    let (part, parts, e) = split-cons 44 v in
    rw e (
      chain-Known (length_part none (trim part)) (λ s. length_parts s parts)
        (length_part-Known none (trim part)) (λ m. length_parts-Known m parts))

content_length_from-some-Known :
    (n : ℕ) (hs : List Header) → Known (content_length_from (some n) hs)
unfolding content_length_from
content_length_from-some-Known n [] = tt
content_length_from-some-Known n ((k, v) ∷ hs) =
    let found = length_parts (some n) (split 44 v) in
    if-Known (not (eq_ignore_case k (codes "content-length"))) (content_length_from (some n) hs)
      (found >>= λ s. content_length_from s hs) (content_length_from-some-Known n hs)
      (chain-Known found (λ s. content_length_from s hs) (length_parts-Known n (split 44 v))
        (λ m. content_length_from-some-Known m hs))

content_length-Known :
    (hs : List Header)
    → any_named (codes "content-length") hs ≡ true
    → Known (content_length_from none hs)
unfolding content_length_from
content_length-Known [] h = cc
content_length-Known ((k, v) ∷ hs) h =
    elim (Bool-cases (eq_ignore_case k (codes "content-length"))) [
      | inl e ↦ rw e (
          chain-Known (length_parts none (split 44 v)) (λ s. content_length_from s hs)
            (value-Known v) (λ m. content_length_from-some-Known m hs))
      | inr e ↦ rw e (content_length-Known hs (rw e at h))
    ]

content_length-none :
    (hs : List Header)
    → any_named (codes "content-length") hs ≡ false
    → content_length_from none hs ≡ ok none
unfolding content_length_from
content_length-none [] h = refl
content_length-none ((k, v) ∷ hs) h =
    elim (Bool-cases (eq_ignore_case k (codes "content-length"))) [
      | inl e ↦ let h' = rw e at h in cc
      | inr e ↦ rw e (content_length-none hs (rw e at h))
    ]

any_framing-named :
    (hs : List Header)
    → any_framing hs
      ≡ (any_named (codes "transfer-encoding") hs || any_named (codes "content-length") hs)
any_framing-named [] = refl
any_framing-named ((k, v) ∷ hs) = rw (any_framing-named hs) (
    shuffle (eq_ignore_case k (codes "transfer-encoding"))
      (eq_ignore_case k (codes "content-length")) (any_named (codes "transfer-encoding") hs)
      (any_named (codes "content-length") hs))
  where
    shuffle : (a b c d : Bool) → ((a || b) || (c || d)) ≡ ((a || c) || (b || d))
    shuffle true b c d = refl
    shuffle false true true d = refl
    shuffle false true false d = refl
    shuffle false false c d = refl

any_chunked-named :
    (hs : List Header) → any_named (codes "transfer-encoding") hs ≡ false → any_chunked hs ≡ false
any_chunked-named [] h = refl
any_chunked-named ((k, v) ∷ hs) h =
    elim (Bool-cases (eq_ignore_case k (codes "transfer-encoding"))) [
      | inl e ↦ let h' = rw e at h in cc
      | inr e ↦ rw e (any_chunked-named hs (rw e at h))
    ]

abbrev mode_of : Bool → Bool → Bool → Bool → Bool → Result (Option ℕ) → Result BodyMode
mode_of streaming bodiless te cl chunked len =
    if bodiless
    then ok no_body
    else if te && cl
    then bad "both Transfer-Encoding and Content-Length present"
    else if chunked
    then ok chunks
    else if te
    then bad "unsupported Transfer-Encoding"
    else (len >>= sized_mode streaming)

sized_mode-some :
    (streaming : Bool) (len : Result (Option ℕ))
    → Known len
    → (len >>= sized_mode streaming) ≢ ok until_eof
unfolding sized_mode
sized_mode-some streaming (err e) known h = cc
sized_mode-some streaming (ok none) known h = absurd known
sized_mode-some streaming (ok (some n)) known h = ground (arith, h)

mode_of-until_eof :
    (streaming b te cl ch : Bool) (len : Result (Option ℕ))
    → (te ≡ false → ch ≡ false)
    → (cl ≡ true → Known len)
    → (cl ≡ false → len ≡ ok none)
    → (mode_of streaming b te cl ch len ≡ ok until_eof) ↔ ((not b && not (te || cl)) ≡ true)
unfolding sized_mode
mode_of-until_eof streaming true te cl ch len hc hl hn = ((λ h. cc), (λ h. cc))
mode_of-until_eof streaming false true true ch len hc hl hn = ((λ h. cc), (λ h. cc))
mode_of-until_eof streaming false true false true len hc hl hn = ((λ h. cc), (λ h. cc))
mode_of-until_eof streaming false true false false len hc hl hn = ((λ h. cc), (λ h. cc))
mode_of-until_eof streaming false false true ch len hc hl hn =
    rw (hc refl) ((λ h. absurd (sized_mode-some streaming len (hl refl) h)), (λ h. cc))
mode_of-until_eof streaming false false false ch len hc hl hn =
    rw (hc refl, hn refl) ((λ h. refl), (λ h. refl))

-- `body_mode` has the body end with the connection exactly when `body_is_close_delimited` says so,
-- whether the exchange streams or not.
pub body_mode-body_is_close_delimited :
    (method : Bytes) (head : Head) (streaming : Bool)
    → (body_mode method head streaming ≡ ok until_eof)
      ↔ (body_is_close_delimited method head.status head.headers ≡ true)
unfolding body_mode body_is_close_delimited
body_mode-body_is_close_delimited method head streaming =
    let status = head.status in
    rw (any_framing-named head.headers) (
      mode_of-until_eof streaming
        (eq_ignore_case method (codes "HEAD")
          || ((leb 100 status && ltb status 200) || (status == 204 || status == 304)))
        (any_named (codes "transfer-encoding") head.headers)
        (any_named (codes "content-length") head.headers) (any_chunked head.headers)
        (content_length_from none head.headers) (any_chunked-named head.headers)
        (content_length-Known head.headers) (content_length-none head.headers))
