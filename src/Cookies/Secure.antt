-- ===== src/Cookies/Secure.antt =====
-- src/cookie.rs: what an origin that is not secure cannot do to a Secure cookie.
use rsurl.Base.{
  ℕ, Bool, true, false, not, ◌&&◌, ◌||◌, Option, none, some, List, [], ◌∷◌, ◌==◌, if◌then◌else◌,
  ◌≡◌, refl, sym, ap, ◌∙◌, inl, inr, Bool-cases, arith,
}
use rsurl.Base.Bytes.{Bytes, codes}
use rsurl.Base.Text.{eq_ignore_case}
use rsurl.Cookies.Keys.{Has, retain-Has, append-Has}
use rsurl.Cookies.{
  Cookie, CookieJar, key, same_bytes, same_key, remove_matching, insert, expired, path_match,
  domain_match, shadows, any_shadows, shadows_secure_cookie, add_set_cookie, ingest_response,
}

same_bytes_comm : (a b : Bytes) → same_bytes a b ≡ same_bytes b a
unfolding same_bytes
same_bytes_comm [] [] = refl
same_bytes_comm [] (b ∷ bs) = refl
same_bytes_comm (a ∷ as_) [] = refl
same_bytes_comm (a ∷ as_) (b ∷ bs) =
    let same : (a == b) ≡ (b == a) = ground arith in rw (same, same_bytes_comm as_ bs) refl

clash : true ≡ false → ⊥
clash e = cc

both : (a b : Bool) → (a && b) ≡ true → (a ≡ true) × (b ≡ true)
both true true h = (refl, refl)
both true false h = cc
both false b h = cc

neither : (a b : Bool) → (a || b) ≡ false → (a ≡ false) × (b ≡ false)
neither false false h = (refl, refl)
neither false true h = cc
neither true b h = cc

module _ (is_ip_literal : Bytes → Bool) where
  domain_match_same :
      (host domain : Bytes) (host_only : Bool)
      → eq_ignore_case host domain ≡ true
      → domain_match is_ip_literal host domain host_only ≡ true
  unfolding domain_match
  domain_match_same host domain host_only same = rw same refl

  path_match_same : (a b : Bytes) → same_bytes b a ≡ true → path_match a b ≡ true
  unfolding path_match
  path_match_same a b same = rw (same_bytes_comm a b, same) refl

  -- A Secure cookie shields its own key.
  same_key-shadows :
      (x c : Cookie)
      → x.secure ≡ true
      → same_key (key x) (key c) ≡ true
      → shadows is_ip_literal c x ≡ true
  unfolding shadows same_key
  same_key-shadows x c secure same =
      let (name, rest) =
        both (same_bytes x.name c.name)
          (eq_ignore_case x.domain c.domain && same_bytes x.path c.path) same in
      let (domain, path) =
        both (eq_ignore_case x.domain c.domain) (same_bytes x.path c.path) rest in
      rw
        (name, domain_match_same x.domain c.domain false domain, path_match_same c.path x.path path)
        (rw secure refl)

  any_shadows-each :
      (x c : Cookie) (l : List Cookie)
      → any_shadows is_ip_literal c l ≡ false
      → Has (λ y. y ≡ x) l
      → shadows is_ip_literal c x ≡ false
  any_shadows-each x c [] h has = absurd has
  any_shadows-each x c (y ∷ l) h (inl here) =
      ap (λ t. shadows is_ip_literal c t) (sym here)
      ∙ (neither (shadows is_ip_literal c y) (any_shadows is_ip_literal c l) h).0
  any_shadows-each x c (y ∷ l) h (inr there) =
      any_shadows-each x c l
        (neither (shadows is_ip_literal c y) (any_shadows is_ip_literal c l) h).1 there

  remove_matching-keeps :
      (x c : Cookie) (jar : CookieJar)
      → same_key (key x) (key c) ≡ false
      → Has (λ y. y ≡ x) jar.cookies
      → Has (λ y. y ≡ x) (remove_matching c jar).cookies
  unfolding remove_matching
  remove_matching-keeps x c jar other has =
      retain-Has (λ y. not (same_key (key y) (key c))) (λ y. y ≡ x) jar.cookies
        (λ y same. ap (λ t. not (same_key (key t) (key c))) same ∙ ap not other) has

  if-keeps :
      (x : Cookie) (b : Bool) (p q : CookieJar)
      → (b ≡ true → Has (λ y. y ≡ x) p.cookies)
      → (b ≡ false → Has (λ y. y ≡ x) q.cookies)
      → Has (λ y. y ≡ x) (if b then p else q).cookies
  if-keeps x true p q h h' = h refl
  if-keeps x false p q h h' = h' refl

  -- Where nothing shields it, a Secure cookie has another key.
  other_key :
      (x c : Cookie) (jar : CookieJar)
      → x.secure ≡ true
      → Has (λ y. y ≡ x) jar.cookies
      → shadows_secure_cookie is_ip_literal c jar ≡ false
      → same_key (key x) (key c) ≡ false
  unfolding shadows_secure_cookie
  other_key x c jar secure has clear =
      let free = any_shadows-each x c jar.cookies clear has in
      elim (Bool-cases (same_key (key x) (key c))) [
        | inl same ↦ absurd (clash (sym (same_key-shadows x c secure same) ∙ free))
        | inr other ↦ other
      ]

  add_set_cookie-keeps :
      (parsed : Option Cookie) (now : ℕ) (jar : CookieJar) (x : Cookie)
      → x.secure ≡ true
      → Has (λ y. y ≡ x) jar.cookies
      → Has (λ y. y ≡ x) (add_set_cookie is_ip_literal parsed false now jar).cookies
  unfolding add_set_cookie insert
  add_set_cookie-keeps none now jar x secure has = has
  add_set_cookie-keeps (some c) now jar x secure has =
      if-keeps x (shadows_secure_cookie is_ip_literal c jar) jar
        (if expired now c.expires then remove_matching c jar else insert c jar) (λ shielded. has)
        (λ clear.
          let left = remove_matching-keeps x c jar (other_key x c jar secure has clear) has in
          if-keeps x (expired now c.expires) (remove_matching c jar) (insert c jar) (λ e. left)
            (λ e. append-Has (λ y. y ≡ x) (remove_matching c jar).cookies (c ∷ []) left))

  -- A response from an origin that is not secure, whatever its headers are and however they parse,
  -- neither replaces nor deletes a Secure cookie of the jar: it is still there, unchanged.
  pub ingest_response-keeps :
      (parse : Bytes → Option Cookie) (now : ℕ) (headers : List (Bytes × Bytes)) (jar : CookieJar)
      (x : Cookie)
      → x.secure ≡ true
      → Has (λ y. y ≡ x) jar.cookies
      → Has (λ y. y ≡ x) (ingest_response is_ip_literal parse false now headers jar).cookies
  unfolding ingest_response
  ingest_response-keeps parse now [] jar x secure has = has
  ingest_response-keeps parse now ((k, v) ∷ headers) jar x secure has =
      let named = eq_ignore_case k (codes "set-cookie") in
      ingest_response-keeps parse now headers
        (if named then add_set_cookie is_ip_literal (parse v) false now jar else jar) x secure
        (if-keeps x named (add_set_cookie is_ip_literal (parse v) false now jar) jar
          (λ e. add_set_cookie-keeps (parse v) now jar x secure has) (λ e. has))
