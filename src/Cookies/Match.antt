-- ===== src/Cookies/Match.antt =====
-- src/cookie.rs: `path_match` as RFC 6265 describes it.
pub mod Domain
use rsurl.Base.{
  ℕ, zero, suc, ◌+◌, ◌-◌, ◌≤◌, ◌<◌, Bool, true, false, not, ◌&&◌, ◌||◌, Option, none, some, List,
  [], ◌∷◌, ◌++◌, length, length-append, drop, ltb, leb, drop-length_append, drop_append_of_length,
  ◌==◌, ==_iff, ◌≡◌, refl, sym, ap, ◌∙◌, ◌↔◌, ◌⊎◌, inl, inr, Bool-cases, Option-cases, arith,
}
use mathlib.Core.Path.{subst}
use rsurl.Base.Bytes.{Bytes}
use rsurl.Base.Text.{eq_ignore_case}
use rsurl.Cookies.{
  same_bytes, strip_prefix, starts_with_byte, ends_with_byte, rest_matches, path_match,
  ends_with_ignore_case, domain_match,
}

-- RFC 6265 §5.1.4.
abbrev pub PathMatches : Bytes → Bytes → Type 0
PathMatches request cookie =
    (request ≡ cookie)
    ⊎ ((rest : Bytes) × (request ≡ cookie ++ rest)
        × (((front : Bytes) × (cookie ≡ front ++ (47 ∷ [])))
            ⊎ ((tail : Bytes) × (rest ≡ 47 ∷ tail))))

pub both : (a b : Bool) → (a && b) ≡ true → (a ≡ true) × (b ≡ true)
both true b h = (refl, h)
both false b h = cc

pub one_of : (a b : Bool) → (a || b) ≡ true → (a ≡ true) ⊎ (b ≡ true)
one_of true b h = inl refl
one_of false b h = inr h

pub clash : false ≡ true → ⊥
clash e = cc

same_bytes-eq : (a b : Bytes) → same_bytes a b ≡ true → a ≡ b
unfolding same_bytes
same_bytes-eq [] [] h = refl
same_bytes-eq [] (b ∷ bs) h = absurd (clash h)
same_bytes-eq (a ∷ as_) [] h = absurd (clash h)
same_bytes-eq (a ∷ as_) (b ∷ bs) h =
    let (x, xs) = both (a == b) (same_bytes as_ bs) h in
    let e : a ≡ b = (==_iff a b).0 x in
    let es : as_ ≡ bs = same_bytes-eq as_ bs xs in rw (e, es) refl

same_bytes_refl : (a : Bytes) → same_bytes a a ≡ true
unfolding same_bytes
same_bytes_refl [] = refl
same_bytes_refl (a ∷ as_) =
    let e : (a == a) ≡ true = (==_iff a a).1 refl in rw (e, same_bytes_refl as_) refl

strip_prefix-append : (p rest : Bytes) → strip_prefix p (p ++ rest) ≡ some rest
unfolding strip_prefix
strip_prefix-append [] rest = refl
strip_prefix-append (a ∷ p) rest =
    let e : (a == a) ≡ true = (==_iff a a).1 refl in rw e (strip_prefix-append p rest)

strip_prefix-eq : (p s : Bytes) {rest : Bytes} → strip_prefix p s ≡ some rest → s ≡ p ++ rest
unfolding strip_prefix
strip_prefix-eq [] s h = cc
strip_prefix-eq (a ∷ p) [] h = cc
strip_prefix-eq (a ∷ p) (b ∷ s) {rest} h = elim (Bool-cases (a == b)) [
  | inl e ↦
      let same : a ≡ b = (==_iff a b).0 e in
      let ih : s ≡ p ++ rest = strip_prefix-eq p s (rw e at h) in rw (same, ih) refl
  | inr e ↦ let bad : none ≡ some rest = rw e at h in cc
]

pub starts_with_byte-eq :
    (c : ℕ) (s : Bytes) → starts_with_byte c s ≡ true → (tail : Bytes) × (s ≡ c ∷ tail)
starts_with_byte-eq c [] h = absurd (clash h)
starts_with_byte-eq c (b ∷ s) h = let e : b ≡ c = (==_iff b c).0 h in (s, ap (λ x. x ∷ s) e)

ends_with_byte-eq :
    (c : ℕ) (s : Bytes) → ends_with_byte c s ≡ true → (front : Bytes) × (s ≡ front ++ (c ∷ []))
ends_with_byte-eq c [] h = absurd (clash h)
ends_with_byte-eq c (b ∷ []) h = let e : b ≡ c = (==_iff b c).0 h in ([], ap (λ x. x ∷ []) e)
ends_with_byte-eq c (a ∷ b ∷ s) h =
    let (front, e) = ends_with_byte-eq c (b ∷ s) h in (a ∷ front, ap (λ r. a ∷ r) e)

ends_with_byte-snoc : (c : ℕ) (front : Bytes) → ends_with_byte c (front ++ (c ∷ [])) ≡ true
ends_with_byte-snoc c [] = (==_iff c c).1 refl
ends_with_byte-snoc c (a ∷ []) = (==_iff c c).1 refl
ends_with_byte-snoc c (a ∷ b ∷ front) = ends_with_byte-snoc c (b ∷ front)

pub path_match-PathMatches :
    (request cookie : Bytes) → path_match request cookie ≡ true → PathMatches request cookie
unfolding path_match
path_match-PathMatches request cookie h = elim (one_of (same_bytes request cookie) _ h) [
  | inl e ↦ inl (same_bytes-eq request cookie e)
  | inr e ↦ elim (Option-cases (strip_prefix cookie request)) [
    | inl gone ↦ let bad : false ≡ true = rw gone at e in absurd (clash bad)
    | inr (rest, there) ↦
        let m : rest_matches cookie (some rest) ≡ true = rw there at e in
        inr (
          rest,
          strip_prefix-eq cookie request there,
          edge rest (one_of (ends_with_byte 47 cookie) (starts_with_byte 47 rest) m),
        )
  ]
]
  where
    edge :
        (rest : Bytes)
        → (ends_with_byte 47 cookie ≡ true) ⊎ (starts_with_byte 47 rest ≡ true)
        → ((front : Bytes) × (cookie ≡ front ++ (47 ∷ []))) ⊎ ((tail : Bytes) × (rest ≡ 47 ∷ tail))
    edge rest (inl x) = inl (ends_with_byte-eq 47 cookie x)
    edge rest (inr x) = inr (starts_with_byte-eq 47 rest x)

pub or_right : (a b : Bool) → b ≡ true → (a || b) ≡ true
or_right true b h = refl
or_right false b h = h

pub or_left : (a b : Bool) → a ≡ true → (a || b) ≡ true
or_left true b h = refl
or_left false b h = cc

pub PathMatches-path_match :
    (request cookie : Bytes) → PathMatches request cookie → path_match request cookie ≡ true
unfolding path_match
PathMatches-path_match request cookie (inl e) =
    rw e (or_left (same_bytes cookie cookie) _ (same_bytes_refl cookie))
PathMatches-path_match request cookie (inr (rest, e, inl (front, f))) =
    rw (e, strip_prefix-append cookie rest)
      (or_right _ _ (or_left (ends_with_byte 47 cookie) _ (rw f (ends_with_byte-snoc 47 front))))
PathMatches-path_match request cookie (inr (rest, e, inr (tail, f))) =
    rw (e, strip_prefix-append cookie rest)
      (or_right _ _ (or_right (ends_with_byte 47 cookie) _ (rw f refl)))
