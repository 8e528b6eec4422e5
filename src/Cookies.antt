-- ===== src/Cookies.antt =====
-- src/cookie.rs: the jar, and what is stored in it. Whether a host is an IP literal is a parameter,
-- and so is what `parse_set_cookie` and `is_secure_context` answer for a response.
mod Header
mod Match
mod Keys
mod Secure
mod Tests
use rsurl.Base.{
  ℕ, Bool, true, false, not, ◌&&◌, ◌||◌, Option, none, some, List, [], ◌∷◌, ◌++◌, length, drop, ltb,
  leb, ◌-◌, ◌==◌, if◌then◌else◌,
}
use rsurl.Base.Bytes.{Bytes, codes}
use rsurl.Base.Text.{eq_ignore_case, to_lower}

pub data SameSite : Type 0 where
  unspecified : SameSite
  lax : SameSite
  strict : SameSite
  none_given : SameSite

pub record Cookie : Type 0 where
  pub name : Bytes
  pub value : Bytes
  pub domain : Bytes
  pub path : Bytes
  pub expires : Option ℕ
  pub secure : Bool
  pub http_only : Bool
  pub host_only : Bool
  pub same_site : SameSite
  pub partitioned : Bool
  pub partition_key : Option Bytes

-- Name, domain and path.
abbrev pub Key : Type 0
Key = Bytes × Bytes × Bytes

pub record CookieJar : Type 0 where
  pub cookies : List Cookie
  pub explicit : List Key

abbrev pub empty_jar : CookieJar
empty_jar = record { cookies = []; explicit = [] }

abbrev pub key : Cookie → Key
key c = (c.name, c.domain, c.path)

unfoldable pub same_bytes : Bytes → Bytes → Bool
same_bytes [] [] = true
same_bytes (a ∷ as_) (b ∷ bs) = a == b && same_bytes as_ bs
same_bytes _ _ = false

unfoldable pub same_key : Key → Key → Bool
unfolding same_bytes
same_key (n, d, p) (n', d', p') = same_bytes n n' && (eq_ignore_case d d' && same_bytes p p')

abbrev pub keep_if {ℓ} : {A : Type ℓ} → Bool → A → List A → List A
keep_if true x xs = x ∷ xs
keep_if false x xs = xs

-- `retain`.
abbrev pub retain {ℓ} : {A : Type ℓ} → (A → Bool) → List A → List A
retain keep [] = []
retain keep (x ∷ xs) = keep_if (keep x) x (retain keep xs)

unfoldable pub remove_key : Key → CookieJar → CookieJar
unfolding same_key
remove_key k jar = record {
  cookies = retain (λ x. not (same_key (key x) k)) jar.cookies;
  explicit = retain (λ e. not (same_key e k)) jar.explicit;
}

unfoldable pub remove_matching : Cookie → CookieJar → CookieJar
unfolding remove_key
remove_matching c jar = remove_key (key c) jar

unfoldable pub insert : Cookie → CookieJar → CookieJar
unfolding remove_matching
insert c jar = record (remove_matching c jar) {
  cookies = (remove_matching c jar).cookies ++ (c ∷ []);
}

abbrev pub lower : Bytes → Bytes
lower [] = []
lower (b ∷ bs) = to_lower b ∷ lower bs

abbrev pub explicit_cookie : Bytes → Bytes → Bytes → Cookie
explicit_cookie name value host = record {
  name = name;
  value = value;
  domain = lower host;
  path = 47 ∷ [];
  expires = none;
  secure = false;
  http_only = false;
  host_only = true;
  same_site = unspecified;
  partitioned = false;
  partition_key = none;
}

-- `add_explicit`, for a request to the host.
unfoldable pub add_explicit : Bytes → Bytes → Bytes → CookieJar → CookieJar
unfolding insert
add_explicit name value host jar =
    let c = explicit_cookie name value host in
    record (insert c jar) { explicit = (remove_matching c jar).explicit ++ (key c ∷ []) }

-- `remove`, which also says whether there was a cookie.
unfoldable pub remove : Key → CookieJar → Bool × CookieJar
unfolding remove_key
remove k jar = (not (length (remove_key k jar).cookies == length jar.cookies), remove_key k jar)

abbrev pub expired : ℕ → Option ℕ → Bool
expired now none = false
expired now (some at) = leb at now

unfoldable pub purge_expired : ℕ → CookieJar → CookieJar
purge_expired now jar = record jar {
  cookies = retain (λ c. not (expired now c.expires)) jar.cookies;
}

unfoldable pub ends_with_ignore_case : Bytes → Bytes → Bool
ends_with_ignore_case s suffix =
    leb (length suffix) (length s) && eq_ignore_case (drop (length s - length suffix) s) suffix

abbrev pub starts_with_byte : ℕ → Bytes → Bool
starts_with_byte b [] = false
starts_with_byte b (x ∷ xs) = x == b

unfoldable pub strip_prefix : Bytes → Bytes → Option Bytes
strip_prefix [] s = some s
strip_prefix (p ∷ ps) [] = none
strip_prefix (p ∷ ps) (b ∷ bs) = if p == b then strip_prefix ps bs else none

abbrev pub ends_with_byte : ℕ → Bytes → Bool
ends_with_byte b [] = false
ends_with_byte b (x ∷ []) = x == b
ends_with_byte b (x ∷ y ∷ ys) = ends_with_byte b (y ∷ ys)

abbrev pub rest_matches : Bytes → Option Bytes → Bool
rest_matches cookie_path none = false
rest_matches cookie_path (some rest) = ends_with_byte 47 cookie_path || starts_with_byte 47 rest

unfoldable pub path_match : Bytes → Bytes → Bool
unfolding same_bytes strip_prefix
path_match request_path cookie_path =
    same_bytes request_path cookie_path
    || rest_matches cookie_path (strip_prefix cookie_path request_path)

module _ (is_ip_literal : Bytes → Bool) where
  unfoldable pub domain_match : Bytes → Bytes → Bool → Bool
  unfolding ends_with_ignore_case
  domain_match request_host cookie_domain host_only =
      let n = length request_host in
      let m = length cookie_domain in
      eq_ignore_case request_host cookie_domain
      || (not (host_only || is_ip_literal request_host)
          && (ltb m n
              && (starts_with_byte 46 (drop (n - m - 1) request_host)
                  && ends_with_ignore_case request_host cookie_domain)))

  unfoldable pub shadows : Cookie → Cookie → Bool
  unfolding domain_match path_match
  shadows new x =
      x.secure
      && (same_bytes x.name new.name
          && ((domain_match x.domain new.domain false || domain_match new.domain x.domain false)
              && path_match new.path x.path))

  abbrev pub any_shadows : Cookie → List Cookie → Bool
  any_shadows new [] = false
  any_shadows new (x ∷ xs) = shadows new x || any_shadows new xs

  unfoldable pub shadows_secure_cookie : Cookie → CookieJar → Bool
  unfolding shadows
  shadows_secure_cookie new jar = any_shadows new jar.cookies

  -- `add_set_cookie`: the cookie that the line is, whether the origin is a secure context, and the
  -- time.
  unfoldable pub add_set_cookie : Option Cookie → Bool → ℕ → CookieJar → CookieJar
  unfolding shadows_secure_cookie insert
  add_set_cookie none secure_context now jar = jar
  add_set_cookie (some parsed) secure_context now jar =
      if not secure_context && shadows_secure_cookie parsed jar
      then jar
      else if expired now parsed.expires
      then remove_matching parsed jar
      else insert parsed jar

  -- `ingest_response`, at a time; the parser stands for `parse_set_cookie` at the request's URL.
  unfoldable pub ingest_response :
      (Bytes → Option Cookie) → Bool → ℕ → List (Bytes × Bytes) → CookieJar → CookieJar
  unfolding add_set_cookie
  ingest_response parse secure_context now [] jar = jar
  ingest_response parse secure_context now ((k, v) ∷ headers) jar =
      ingest_response parse secure_context now headers (
        if eq_ignore_case k (codes "set-cookie")
        then add_set_cookie (parse v) secure_context now jar
        else jar)
