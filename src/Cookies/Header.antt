-- ===== src/Cookies/Header.antt =====
-- src/cookie.rs: the `Cookie:` header of a request.
pub mod Order
pub mod Sends
pub mod Target
use rsurl.Base.{
  ℕ, suc, ◌≤◌, ◌<◌, Bool, true, false, not, ◌&&◌, ◌||◌, Option, none, some, List, [], ◌∷◌, ◌++◌,
  All, All-append, length, ltb, leb, leb→le, leb→lt, ◌==◌, if◌then◌else◌, ◌≡◌, refl, sym, ◌⊎◌, inl,
  inr, Bool-cases, arith,
}
use mathlib.Core.Path.{subst}
use rsurl.Base.Bytes.{Bytes, codes}
use rsurl.Cookies.Keys.{Has, retain-Has, retain-All, all}
use rsurl.Cookies.{Cookie, CookieJar, retain, expired, domain_match, path_match}

-- The path up to `?` or `#`.
unfoldable pub request_path : Bytes → Bytes
request_path [] = []
request_path (b ∷ bs) = let rest = request_path bs in if b == 63 || b == 35 then [] else b ∷ rest

unfoldable pub has_forbidden_cookie_char : Bytes → Bool
has_forbidden_cookie_char [] = false
has_forbidden_cookie_char (b ∷ bs) = (ltb b 32 || b == 127) || has_forbidden_cookie_char bs

abbrev pub place_in : Bool → Cookie → Cookie → List Cookie → List Cookie → List Cookie
place_in true x y ys rest = x ∷ y ∷ ys
place_in false x y ys rest = y ∷ rest

abbrev pub place : Cookie → List Cookie → List Cookie
place x [] = x ∷ []
place x (y ∷ ys) = place_in (leb (length y.path) (length x.path)) x y ys (place x ys)

-- `sort_by_key`, which is stable, with the longer path first.
unfoldable pub by_path_length : List Cookie → List Cookie
by_path_length [] = []
by_path_length (x ∷ xs) = place x (by_path_length xs)

-- The loop that writes the header, at the index of the cookie.
unfoldable pub pairs_from : ℕ → List Cookie → Bytes
pairs_from i [] = []
pairs_from i (c ∷ cs) =
    (if ltb 0 i then codes "; " else [])
    ++ (c.name ++ ((61 ∷ []) ++ (c.value ++ pairs_from (suc i) cs)))

abbrev pub header_of : List Cookie → Option Bytes
header_of [] = none
header_of (c ∷ cs) = some (pairs_from 0 (by_path_length (c ∷ cs)))

abbrev pub no_forbidden : Cookie → Bool
no_forbidden c = not (has_forbidden_cookie_char c.name) && not (has_forbidden_cookie_char c.value)

module _ (is_ip_literal : Bytes → Bool) (now : ℕ) (secure_context : Bool) (host path : Bytes) where
  unfoldable pub matches_request : Cookie → Bool
  unfolding domain_match path_match request_path
  matches_request c =
      if expired now c.expires
      then false
      else if c.secure && not secure_context
      then false
      else if not (domain_match is_ip_literal host c.domain c.host_only)
      then false
      else path_match (request_path path) c.path

  unfoldable pub selected : CookieJar → List Cookie
  unfolding matches_request has_forbidden_cookie_char
  selected jar = retain no_forbidden (retain matches_request jar.cookies)

  -- For a request to the host and path at a time; the context is what `is_secure_context` answers.
  unfoldable pub cookie_header : CookieJar → Option Bytes
  unfolding selected by_path_length pairs_from
  cookie_header jar = header_of (selected jar)
