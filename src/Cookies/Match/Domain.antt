-- ===== src/Cookies/Match/Domain.antt =====
-- src/cookie.rs: `domain_match` as RFC 6265 describes it.
use rsurl.Base.{
  ℕ, zero, suc, ◌+◌, ◌-◌, Bool, true, false, not, ◌&&◌, ◌||◌, [], ◌∷◌, ◌++◌, length, length-append,
  drop, ltb, leb, drop-length_append, drop_append_of_length, ◌≡◌, refl, sym, ap, ◌⊎◌, inl, inr,
  arith,
}
use mathlib.Core.Path.{subst}
use rsurl.Base.Bytes.{Bytes}
use rsurl.Base.Text.{eq_ignore_case}
use rsurl.Cookies.{starts_with_byte, ends_with_ignore_case, domain_match}
use rsurl.Cookies.Match.{both, one_of, clash, or_left, or_right, starts_with_byte-eq}

eq_ignore_case-length : (a b : Bytes) → eq_ignore_case a b ≡ true → length a ≡ length b
unfolding eq_ignore_case
eq_ignore_case-length [] [] h = refl
eq_ignore_case-length [] (b ∷ bs) h = absurd (clash h)
eq_ignore_case-length (a ∷ as_) [] h = absurd (clash h)
eq_ignore_case-length (a ∷ as_) (b ∷ bs) h =
    ap suc (eq_ignore_case-length as_ bs (both _ (eq_ignore_case as_ bs) h).1)

drop-split :
    (k : ℕ) (s : Bytes) {c : ℕ} {tail : Bytes}
    → drop k s ≡ c ∷ tail
    → (front : Bytes) × (s ≡ front ++ (c ∷ tail)) × (drop (suc k) s ≡ tail)
drop-split zero [] h = cc
drop-split zero (b ∷ s) h = ([], h, cc)
drop-split (suc k) [] h = cc
drop-split (suc k) (b ∷ s) h =
    let (front, e, d) = drop-split k s h in (b ∷ front, ap (λ r. b ∷ r) e, d)

module _ (is_ip_literal : Bytes → Bool) where
  -- RFC 6265 §5.1.3.
  abbrev pub DomainMatches : Bytes → Bytes → Bool → Type 0
  DomainMatches host domain host_only =
      (eq_ignore_case host domain ≡ true)
      ⊎ ((host_only ≡ false)
          × (is_ip_literal host ≡ false)
          × ((front : Bytes) × (suffix : Bytes) × (host ≡ front ++ (46 ∷ suffix))
              × (eq_ignore_case suffix domain ≡ true)))

  -- The parts of the test.
  ends :
      (host domain : Bytes)
      → ltb (length domain) (length host) ≡ true
      → starts_with_byte 46 (drop (length host - length domain - 1) host) ≡ true
      → ends_with_ignore_case host domain ≡ true
      → (front : Bytes) × (suffix : Bytes) × (host ≡ front ++ (46 ∷ suffix))
        × (eq_ignore_case suffix domain ≡ true)
  unfolding ends_with_ignore_case
  ends host domain less dot same =
      let (tail, at_dot) =
        starts_with_byte-eq 46 (drop (length host - length domain - 1) host) dot in
      let (front, split, behind) = drop-split (length host - length domain - 1) host at_dot in
      let next : suc (length host - length domain - 1) ≡ length host - length domain =
        ground arith in
      let there : drop (length host - length domain) host ≡ tail =
        subst (λ k. drop k host ≡ tail) next behind in
      let last : eq_ignore_case (drop (length host - length domain) host) domain ≡ true =
        (both _ _ same).1 in
      (front, tail, split, subst (λ t. eq_ignore_case t domain ≡ true) there last)

  pub domain_match-DomainMatches :
      (host domain : Bytes) (host_only : Bool)
      → domain_match is_ip_literal host domain host_only ≡ true
      → DomainMatches host domain host_only
  unfolding domain_match
  domain_match-DomainMatches host domain host_only h =
      elim (one_of (eq_ignore_case host domain) _ h) [
        | inl e ↦ inl e
        | inr e ↦
            let (free, rest) = both (not (host_only || is_ip_literal host)) _ e in
            let (less, rest') = both (ltb (length domain) (length host)) _ rest in
            let (dot, same) =
              both (starts_with_byte 46 (drop (length host - length domain - 1) host)) _ rest' in
            inr (ground arith, ground arith, ends host domain less dot same)
      ]

  ended :
      (front suffix domain : Bytes)
      → eq_ignore_case suffix domain ≡ true
      → (ltb (length domain) (length (front ++ (46 ∷ suffix)))
          && (starts_with_byte 46 (
                drop (length (front ++ (46 ∷ suffix)) - length domain - 1) (front ++ (46 ∷ suffix)))
              && ends_with_ignore_case (front ++ (46 ∷ suffix)) domain))
        ≡ true
  unfolding ends_with_ignore_case
  ended front suffix domain same =
      let host = front ++ (46 ∷ suffix) in
      let len : length suffix ≡ length domain = eq_ignore_case-length suffix domain same in
      let total : length host ≡ length front + suc (length suffix) =
        length-append front (46 ∷ suffix) in
      let less : ltb (length domain) (length host) ≡ true = ground (arith, len, total) in
      let least : leb (length domain) (length host) ≡ true = ground (arith, len, total) in
      let before : length host - length domain - 1 ≡ length front = omega (arith, len, total) in
      let behind : length host - length domain ≡ length front + 1 = omega (arith, len, total) in
      let dot : drop (length front) host ≡ 46 ∷ suffix = drop-length_append front (46 ∷ suffix) in
      let rest : drop (length front + 1) host ≡ suffix =
        drop_append_of_length (length front + 1) 1 front (46 ∷ suffix) refl in
      rw (less, least, before, behind, dot, rest) same

  pub DomainMatches-domain_match :
      (host domain : Bytes) (host_only : Bool)
      → DomainMatches host domain host_only
      → domain_match is_ip_literal host domain host_only ≡ true
  unfolding domain_match
  DomainMatches-domain_match host domain host_only (inl e) = or_left _ _ e
  DomainMatches-domain_match host domain host_only (inr (h, ip, (front, suffix, split, same))) =
      or_right (eq_ignore_case host domain) _ (
        rw (h, ip)
          (subst
            (λ t.
              (ltb (length domain) (length t)
                && (starts_with_byte 46 (drop (length t - length domain - 1) t)
                    && ends_with_ignore_case t domain))
              ≡ true)
            (sym split) (ended front suffix domain same)))
