-- ===== src/Cookies/Tests.antt =====
-- A jar with a Secure cookie, and what a plain response does to it.
use rsurl.Base.{Bool, true, false, none, some, [], ◌∷◌, ◌≡◌, refl, inl}
use rsurl.Base.Bytes.{Bytes, codes}
use rsurl.Cookies.Header.{cookie_header}
use rsurl.Cookies.Header.Sends.{Sends, cookie_header-Sends}
use rsurl.Cookies.Keys.{Has, WellFormed, set, give, purge, changes, changes-WellFormed}
use rsurl.Cookies.Secure.{ingest_response-keeps}
use rsurl.Cookies.{Cookie, CookieJar, empty_jar, lax, ingest_response}

abbrev no_ip : Bytes → Bool
no_ip host = false

abbrev session : Bytes → Bool → Cookie
session value secure = record {
  name = codes "sid";
  value = value;
  domain = codes "example.org";
  path = 47 ∷ [];
  expires = some 900;
  secure = secure;
  http_only = true;
  host_only = true;
  same_site = lax;
  partitioned = false;
  partition_key = none;
}

abbrev secure_jar : CookieJar
secure_jar = record { cookies = session (codes "1") true ∷ []; explicit = [] }

changes-WellFormed_example : WellFormed (
    changes no_ip
      (give (codes "a") (codes "b") (codes "Example.org")
        ∷ set (some (session (codes "1") true)) true 5
        ∷ set (some (session (codes "2") false)) false 6
        ∷ purge 7
        ∷ [])
      empty_jar)
changes-WellFormed_example = changes-WellFormed no_ip (
    give (codes "a") (codes "b") (codes "Example.org")
    ∷ set (some (session (codes "1") true)) true 5
    ∷ set (some (session (codes "2") false)) false 6
    ∷ purge 7
    ∷ [])

ingest_response-keeps_example :
    Has
      (λ y. y ≡ session (codes "1") true)
      (ingest_response no_ip
        (λ line. some (session line false))
        false
        5
        ((codes "Set-Cookie", codes "2") ∷ [])
        secure_jar).cookies
ingest_response-keeps_example =
    ingest_response-keeps no_ip (λ line. some (session line false)) 5
      ((codes "Set-Cookie", codes "2") ∷ []) secure_jar (session (codes "1") true) refl (inl refl)

abbrev deep : Cookie
deep = record (session (codes "2") false) { path = codes "/a" }

abbrev two_paths : CookieJar
two_paths = record { cookies = session (codes "1") true ∷ deep ∷ []; explicit = [] }

cookie_header_secure :
    cookie_header no_ip 5 true (codes "Example.org") (codes "/a/b?c") two_paths
    ≡ some (codes "sid=2; sid=1")
unfolding cookie_header rsurl.Base.Text.eq_ignore_case
cookie_header_secure = refl

cookie_header_plain :
    cookie_header no_ip 5 false (codes "example.org") (codes "/a/b?c") two_paths
    ≡ some (codes "sid=2")
unfolding cookie_header rsurl.Base.Text.eq_ignore_case
cookie_header_plain = refl

cookie_header-Sends_example :
    Sends no_ip 5 true
      (codes "example.org")
      (codes "/a")
      two_paths
      (cookie_header no_ip 5 true (codes "example.org") (codes "/a") two_paths)
cookie_header-Sends_example =
    cookie_header-Sends no_ip 5 true (codes "example.org") (codes "/a") two_paths
