-- ===== src/Cookies/Header/Sends.antt =====
-- src/cookie.rs: what the `Cookie:` header of a request sends.
use rsurl.Base.{
  ℕ, ◌<◌, Bool, true, false, ◌&&◌, Option, none, some, List, [], ◌∷◌, All, leb→lt, ◌≡◌, refl, sym,
  ap, ◌∙◌, ◌↔◌, inl, inr, Bool-cases, arith,
}
use mathlib.Core.Path.{subst}
use rsurl.Base.Bytes.{Bytes}
use rsurl.Cookies.Keys.{Has, retain-Has, retain-All, all}
use rsurl.Cookies.{Cookie, CookieJar, keep_if, retain, expired, path_match}
use rsurl.Cookies.Match.Domain.{
  DomainMatches, domain_match-DomainMatches, DomainMatches-domain_match,
}
use rsurl.Cookies.Match.{PathMatches, path_match-PathMatches, PathMatches-path_match}
use rsurl.Cookies.Header.Target.{IsPathOf, request_path-IsPathOf, IsPathOf-request_path}
use rsurl.Cookies.Header.{
  request_path, has_forbidden_cookie_char, by_path_length, header_of, matches_request, no_forbidden,
  selected, cookie_header,
}
use rsurl.Cookies.Header.Order.{
  IsPrintable, Descending, of_length, by_path_length-All, by_path_length-Descending,
  by_path_length-of_length, pairs_from-IsPrintable, cookie_string, pairs_from-cookie_string,
}

abbrev pub Live : ℕ → Option ℕ → Type 0
Live now none = Unit
Live now (some at) = now < at

module _ (is_ip_literal : Bytes → Bool) (now : ℕ) (secure_context : Bool) (host path : Bytes) where
  abbrev matches : Cookie → Bool
  matches c = matches_request is_ip_literal now secure_context host path c

  abbrev chosen : CookieJar → List Cookie
  chosen jar = selected is_ip_literal now secure_context host path jar

  -- What a cookie is sent for.
  abbrev pub Fit : Cookie → Type 0
  Fit c =
      Live now c.expires
      × (c.secure ≡ true → secure_context ≡ true)
      × DomainMatches is_ip_literal host c.domain c.host_only
      × ((p : Bytes) × IsPathOf path p × PathMatches p c.path)
      × (All IsPrintable c.name × All IsPrintable c.value)

  -- What a header sends for a jar, as the cookie-string of RFC 6265: the cookies that fit, just as often as the jar has them, the
  -- longer path first and else in the jar's order; and no byte of it is a control byte.
  abbrev pub Sends : CookieJar → Option Bytes → Type 0
  Sends jar none = (c : Cookie) → Fit c → Has (λ y. y ≡ c) jar.cookies → ⊥
  Sends jar (some header) =
      (sent : List Cookie) × (fits : Cookie → Bool) × ((c : Cookie) → (fits c ≡ true) ↔ Fit c)
      × (header ≡ cookie_string sent)
      × Descending sent
      × ((n : ℕ) → of_length n sent ≡ of_length n (retain fits jar.cookies))
      × All IsPrintable header

  no_forbidden-IsPrintable : (s : Bytes) → has_forbidden_cookie_char s ≡ false → All IsPrintable s
  unfolding has_forbidden_cookie_char
  no_forbidden-IsPrintable [] h = tt
  no_forbidden-IsPrintable (b ∷ bs) h =
      ((ground arith, ground arith), no_forbidden-IsPrintable bs (ground arith))

  IsPrintable-no_forbidden : (s : Bytes) → All IsPrintable s → has_forbidden_cookie_char s ≡ false
  unfolding has_forbidden_cookie_char
  IsPrintable-no_forbidden [] h = refl
  IsPrintable-no_forbidden (b ∷ bs) ((low, del), h) = ground (arith, IsPrintable-no_forbidden bs h)

  live : (e : Option ℕ) → expired now e ≡ false → Live now e
  live none h = tt
  live (some at) h = leb→lt at now h

  not_expired : (e : Option ℕ) → Live now e → expired now e ≡ false
  not_expired none h = refl
  not_expired (some at) h = ground arith

  matches_request-Fit : (c : Cookie) → matches c ≡ true → no_forbidden c ≡ true → Fit c
  unfolding matches_request
  matches_request-Fit c m n = (
    live c.expires (ground arith),
    (λ s. ground arith),
    domain_match-DomainMatches is_ip_literal host c.domain c.host_only (ground arith),
    (
      request_path path,
      request_path-IsPathOf path,
      path_match-PathMatches (request_path path) c.path (ground arith),
    ),
    (
      no_forbidden-IsPrintable c.name (ground arith),
      no_forbidden-IsPrintable c.value (ground arith),
    ),
  )

  Fit-matches_request : (c : Cookie) → Fit c → matches c ≡ true
  unfolding matches_request
  Fit-matches_request c (l, s, d, (p, of_target, matching), printable) =
      let at_domain = DomainMatches-domain_match is_ip_literal host c.domain c.host_only d in
      let at_path : path_match (request_path path) c.path ≡ true =
        rw (IsPathOf-request_path path p of_target) (PathMatches-path_match p c.path matching) in
      ground (arith, not_expired c.expires l, at_domain, at_path)

  Fit-no_forbidden : (c : Cookie) → Fit c → no_forbidden c ≡ true
  Fit-no_forbidden c (l, s, d, p, (n, v)) =
      rw (IsPrintable-no_forbidden c.name n, IsPrintable-no_forbidden c.value v) refl

  selected-Fit : (jar : CookieJar) → All Fit (chosen jar)
  unfolding selected
  selected-Fit jar =
      retain-All no_forbidden (λ c. matches c ≡ true) Fit (retain matches jar.cookies)
        (λ c n m. matches_request-Fit c m n)
        (retain-All matches (λ c. Unit {0}) (λ c. matches c ≡ true) jar.cookies (λ c m u. m)
          (all jar.cookies))

  Fit-selected :
      (jar : CookieJar) (c : Cookie)
      → Fit c
      → Has (λ y. y ≡ c) jar.cookies
      → Has (λ y. y ≡ c) (chosen jar)
  unfolding selected
  Fit-selected jar c fit h =
      retain-Has no_forbidden (λ y. y ≡ c) (retain matches jar.cookies)
        (λ y same. subst (λ t. no_forbidden t ≡ true) (sym same) (Fit-no_forbidden c fit))
        (retain-Has matches (λ y. y ≡ c) jar.cookies
          (λ y same. subst (λ t. matches t ≡ true) (sym same) (Fit-matches_request c fit)) h)

  retain-retain :
      (l : List Cookie)
      → retain no_forbidden (retain matches l) ≡ retain (λ c. matches c && no_forbidden c) l
  retain-retain [] = refl
  retain-retain (c ∷ cs) = elim (Bool-cases (matches c)) [
    | inl e ↦ rw e (ap (keep_if (no_forbidden c) c) (retain-retain cs))
    | inr e ↦ rw e (retain-retain cs)
  ]

  fits_iff : (c : Cookie) → ((matches c && no_forbidden c) ≡ true) ↔ Fit c
  fits_iff c = (
    λ h. matches_request-Fit c (ground arith) (ground arith),
    λ fit. rw (Fit-matches_request c fit) (Fit-no_forbidden c fit),
  )

  printable :
      (l : List Cookie) → All Fit l → All (λ x. All IsPrintable x.name × All IsPrintable x.value) l
  printable [] h = tt
  printable (x ∷ xs) ((l, s, d, p, clean), h) = (clean, printable xs h)

  selected-retain :
      (jar : CookieJar) → chosen jar ≡ retain (λ c. matches c && no_forbidden c) jar.cookies
  unfolding selected
  selected-retain jar = retain-retain jar.cookies

  header_of-Sends :
      (jar : CookieJar) (l : List Cookie)
      → l ≡ retain (λ c. matches c && no_forbidden c) jar.cookies
      → All Fit l
      → ((c : Cookie) → Fit c → Has (λ y. y ≡ c) jar.cookies → Has (λ y. y ≡ c) l)
      → Sends jar (header_of l)
  header_of-Sends jar [] same fit has = has
  header_of-Sends jar (c ∷ cs) same fit has = (
    by_path_length (c ∷ cs),
    (λ x. matches x && no_forbidden x),
    fits_iff,
    pairs_from-cookie_string (by_path_length (c ∷ cs)),
    by_path_length-Descending (c ∷ cs),
    (λ n. by_path_length-of_length n (c ∷ cs) ∙ ap (of_length n) same),
    pairs_from-IsPrintable 0 (by_path_length (c ∷ cs)) (
        by_path_length-All (λ x. All IsPrintable x.name × All IsPrintable x.value) (c ∷ cs)
          (printable (c ∷ cs) fit)),
  )

  -- The Cookie header of a request sends, as `name=value` with "; " between two, and each just as
  -- often as the jar has it, the cookies that have not expired, go to a secure context where they
  -- are Secure, match its host and its path as RFC 6265 says, and have no control byte in name or
  -- value; the longer path comes first, and cookies whose paths are equally long keep the jar's
  -- order. No byte of the header is a control byte, and there is no header only where no cookie
  -- fits.
  pub cookie_header-Sends :
      (jar : CookieJar) → Sends jar (cookie_header is_ip_literal now secure_context host path jar)
  unfolding cookie_header
  cookie_header-Sends jar =
      header_of-Sends jar (chosen jar) (selected-retain jar) (selected-Fit jar) (Fit-selected jar)
