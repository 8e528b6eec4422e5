-- ===== src/Cookies/Keys.antt =====
-- src/cookie.rs: a jar has one cookie for each key, whatever changes it.
use rsurl.Base.{
  ℕ, Bool, true, false, not, ◌&&◌, Option, none, some, List, [], ◌∷◌, ◌++◌, All, All-append,
  if◌then◌else◌, ◌≡◌, ◌⊎◌, refl, ap, ◌∙◌, inl, inr, not→false,
}
use rsurl.Base.Bytes.{Bytes}
use rsurl.Cookies.{
  Cookie, Key, CookieJar, empty_jar, key, same_key, keep_if, retain, remove_key, remove_matching,
  insert, explicit_cookie, add_explicit, remove, expired, purge_expired, shadows_secure_cookie,
  add_set_cookie,
}

module _ {A : Type 0} where
  -- What is retained has been kept, and what holds of it may use that.
  keep_if-All :
      (P : A → Type 0) (b : Bool) (x : A) (xs : List A)
      → (b ≡ true → P x)
      → All P xs
      → All P (keep_if b x xs)
  keep_if-All P true x xs h rest = (h refl, rest)
  keep_if-All P false x xs h rest = rest

  pub retain-All :
      (keep : A → Bool) (P Q : A → Type 0) (l : List A)
      → ((x : A) → keep x ≡ true → P x → Q x)
      → All P l
      → All Q (retain keep l)
  retain-All keep P Q [] step h = tt
  retain-All keep P Q (x ∷ xs) step (px, h) =
      keep_if-All Q (keep x) x (retain keep xs) (λ kept. step x kept px)
        (retain-All keep P Q xs step h)

  -- There is one with a property.
  abbrev pub Has : (A → Type 0) → List A → Type 0
  Has P [] = ⊥
  Has P (x ∷ xs) = P x ⊎ Has P xs

  keep_if-Has :
      (P : A → Type 0) (b : Bool) (x : A) (xs : List A)
      → (P x → b ≡ true)
      → P x ⊎ Has P xs
      → Has P (keep_if b x xs)
  keep_if-Has P true x xs kept h = h
  keep_if-Has P false x xs kept (inl px) = absurd (clash (kept px))
    where
      clash : false ≡ true → ⊥
      clash e = cc
  keep_if-Has P false x xs kept (inr h) = h

  pub retain-Has :
      (keep : A → Bool) (P : A → Type 0) (l : List A)
      → ((x : A) → P x → keep x ≡ true)
      → Has P l
      → Has P (retain keep l)
  retain-Has keep P [] kept h = h
  retain-Has keep P (x ∷ xs) kept (inl px) =
      keep_if-Has P (keep x) x (retain keep xs) (kept x) (inl px)
  retain-Has keep P (x ∷ xs) kept (inr h) =
      keep_if-Has P (keep x) x (retain keep xs) (kept x) (inr (retain-Has keep P xs kept h))

  pub append-Has : (P : A → Type 0) (xs ys : List A) → Has P xs → Has P (xs ++ ys)
  append-Has P [] ys h = absurd h
  append-Has P (x ∷ xs) ys (inl px) = inl px
  append-Has P (x ∷ xs) ys (inr h) = inr (append-Has P xs ys h)

  last-Has : (P : A → Type 0) (xs : List A) (y : A) → P y → Has P (xs ++ (y ∷ []))
  last-Has P [] y py = inl py
  last-Has P (x ∷ xs) y py = inr (last-Has P xs y py)

-- No two cookies of the list have the same key.
abbrev pub Distinct : List Cookie → Type 0
Distinct [] = Unit
Distinct (x ∷ xs) = All (λ y. same_key (key x) (key y) ≡ false) xs × Distinct xs

-- A cookie with the key, which does not expire.
abbrev pub Holds : List Cookie → Key → Type 0
Holds cookies e = Has (λ c. (key c ≡ e) × (c.expires ≡ none)) cookies

-- What a jar keeps: one cookie for a key, and one for each explicit entry, which does not expire.
abbrev pub WellFormed : CookieJar → Type 0
WellFormed jar = Distinct jar.cookies × All (Holds jar.cookies) jar.explicit

keep_if-Distinct :
    (b : Bool) (x : Cookie) (xs : List Cookie)
    → All (λ y. same_key (key x) (key y) ≡ false) xs
    → Distinct xs
    → Distinct (keep_if b x xs)
keep_if-Distinct true x xs apart h = (apart, h)
keep_if-Distinct false x xs apart h = h

retain-Distinct : (keep : Cookie → Bool) (l : List Cookie) → Distinct l → Distinct (retain keep l)
retain-Distinct keep [] h = tt
retain-Distinct keep (x ∷ xs) (apart, h) =
    keep_if-Distinct (keep x) x (retain keep xs)
      (retain-All keep (λ y. same_key (key x) (key y) ≡ false)
        (λ y. same_key (key x) (key y) ≡ false) xs (λ y kept p. p) apart)
      (retain-Distinct keep xs h)

snoc-Distinct :
    (l : List Cookie) (c : Cookie)
    → Distinct l
    → All (λ x. same_key (key x) (key c) ≡ false) l
    → Distinct (l ++ (c ∷ []))
snoc-Distinct [] c h apart = (tt, tt)
snoc-Distinct (x ∷ xs) c (later, h) (first, apart) = (
  All-append (λ y. same_key (key x) (key y) ≡ false) xs (c ∷ []) later (first, tt),
  snoc-Distinct xs c h apart,
)

pub all : {A : Type 0} (l : List A) → All (λ x. Unit {0}) l
all [] = tt
all (x ∷ xs) = (tt, all xs)

-- The entries that are left, over the cookies that are left.
kept-Holds :
    (k : Key) (cookies : List Cookie) (e : Key)
    → not (same_key e k) ≡ true
    → Holds cookies e
    → Holds (retain (λ x. not (same_key (key x) k)) cookies) e
kept-Holds k cookies e kept h =
    retain-Has (λ x. not (same_key (key x) k)) (λ c. (key c ≡ e) × (c.expires ≡ none)) cookies
      (λ x has. ap (λ t. not (same_key t k)) has.0 ∙ kept) h

remove_key-WellFormed : (k : Key) (jar : CookieJar) → WellFormed jar → WellFormed (remove_key k jar)
unfolding remove_key
remove_key-WellFormed k jar (distinct, held) = (
  retain-Distinct (λ x. not (same_key (key x) k)) jar.cookies distinct,
  retain-All (λ e. not (same_key e k)) (Holds jar.cookies)
      (Holds (retain (λ x. not (same_key (key x) k)) jar.cookies)) jar.explicit
      (λ e kept h. kept-Holds k jar.cookies e kept h) held,
)

removed_apart :
    (k : Key) (jar : CookieJar) → All (λ x. same_key (key x) k ≡ false) (remove_key k jar).cookies
unfolding remove_key
removed_apart k jar =
    retain-All (λ x. not (same_key (key x) k)) (λ x. Unit {0}) (λ x. same_key (key x) k ≡ false)
      jar.cookies (λ x kept u. not→false (same_key (key x) k) kept) (all jar.cookies)

All-map : {A : Type 0} (P Q : A → Type 0) (l : List A) → ((x : A) → P x → Q x) → All P l → All Q l
All-map P Q [] step h = tt
All-map P Q (x ∷ xs) step (px, h) = (step x px, All-map P Q xs step h)

pushed-Holds :
    (cookies : List Cookie) (c : Cookie) (l : List Key)
    → All (Holds cookies) l
    → All (Holds (cookies ++ (c ∷ []))) l
pushed-Holds cookies c l held =
    All-map (Holds cookies) (Holds (cookies ++ (c ∷ []))) l
      (λ e h. append-Has (λ x. (key x ≡ e) × (x.expires ≡ none)) cookies (c ∷ []) h) held

insert-WellFormed : (c : Cookie) (jar : CookieJar) → WellFormed jar → WellFormed (insert c jar)
unfolding insert
insert-WellFormed c jar h =
    let removed = remove_key (key c) jar in
    let (distinct, held) = remove_key-WellFormed (key c) jar h in
    (
      snoc-Distinct removed.cookies c distinct (removed_apart (key c) jar),
      pushed-Holds removed.cookies c removed.explicit held,
    )

add_explicit-WellFormed :
    (name value host : Bytes) (jar : CookieJar)
    → WellFormed jar
    → WellFormed (add_explicit name value host jar)
unfolding add_explicit
add_explicit-WellFormed name value host jar h =
    let c = explicit_cookie name value host in
    let removed = remove_key (key c) jar in
    let (distinct, held) = insert-WellFormed c jar h in
    (
      distinct,
      All-append (Holds (removed.cookies ++ (c ∷ []))) removed.explicit (key c ∷ []) held
          (last-Has (λ x. (key x ≡ key c) × (x.expires ≡ none)) removed.cookies c (refl, refl), tt),
    )

unexpired : (now : ℕ) (o : Option ℕ) → o ≡ none → not (expired now o) ≡ true
unexpired now o e = ap (λ t. not (expired now t)) e

purge_expired-WellFormed :
    (now : ℕ) (jar : CookieJar) → WellFormed jar → WellFormed (purge_expired now jar)
unfolding purge_expired
purge_expired-WellFormed now jar (distinct, held) = (
  retain-Distinct (λ c. not (expired now c.expires)) jar.cookies distinct,
  All-map (Holds jar.cookies) (Holds (retain (λ c. not (expired now c.expires)) jar.cookies))
      jar.explicit
      (λ e h.
        retain-Has (λ c. not (expired now c.expires)) (λ x. (key x ≡ e) × (x.expires ≡ none))
          jar.cookies (λ x has. unexpired now x.expires has.1) h)
      held,
)

-- A call that changes the jar.
pub data Change : Type 0 where
  set : Option Cookie → Bool → ℕ → Change
  give : Bytes → Bytes → Bytes → Change
  restore : Cookie → Change
  take_out : Key → Change
  purge : ℕ → Change
  clear : Change

module _ (is_ip_literal : Bytes → Bool) where
  abbrev pub change : Change → CookieJar → CookieJar
  change (set parsed secure_context now) jar =
      add_set_cookie is_ip_literal parsed secure_context now jar
  change (give name value host) jar = add_explicit name value host jar
  change (restore c) jar = insert c jar
  change (take_out k) jar = (remove k jar).1
  change (purge now) jar = purge_expired now jar
  change clear jar = empty_jar

  abbrev pub changes : List Change → CookieJar → CookieJar
  changes [] jar = jar
  changes (c ∷ more) jar = changes more (change c jar)

  if-WellFormed :
      (b : Bool) (x y : CookieJar) → WellFormed x → WellFormed y → WellFormed (if b then x else y)
  if-WellFormed true x y h h' = h
  if-WellFormed false x y h h' = h'

  add_set_cookie-WellFormed :
      (parsed : Option Cookie) (secure_context : Bool) (now : ℕ) (jar : CookieJar)
      → WellFormed jar
      → WellFormed (add_set_cookie is_ip_literal parsed secure_context now jar)
  unfolding add_set_cookie
  add_set_cookie-WellFormed none secure_context now jar h = h
  add_set_cookie-WellFormed (some c) secure_context now jar h =
      if-WellFormed (not secure_context && shadows_secure_cookie is_ip_literal c jar) jar
        (if expired now c.expires then remove_matching c jar else insert c jar) h
        (if-WellFormed (expired now c.expires) (remove_matching c jar) (insert c jar)
          (remove_key-WellFormed (key c) jar h) (insert-WellFormed c jar h))

  change-WellFormed : (c : Change) (jar : CookieJar) → WellFormed jar → WellFormed (change c jar)
  unfolding remove
  change-WellFormed (set parsed secure_context now) jar h =
      add_set_cookie-WellFormed parsed secure_context now jar h
  change-WellFormed (give name value host) jar h = add_explicit-WellFormed name value host jar h
  change-WellFormed (restore c) jar h = insert-WellFormed c jar h
  change-WellFormed (take_out k) jar h = remove_key-WellFormed k jar h
  change-WellFormed (purge now) jar h = purge_expired-WellFormed now jar h
  change-WellFormed clear jar h = (tt, tt)

  changes-WellFormed_from :
      (l : List Change) (jar : CookieJar) → WellFormed jar → WellFormed (changes l jar)
  changes-WellFormed_from [] jar h = h
  changes-WellFormed_from (c ∷ l) jar h =
      changes-WellFormed_from l (change c jar) (change-WellFormed c jar h)

  -- Whatever changes follow each other on a new jar, whichever hosts are IP literals: no two cookies
  -- have the same name, domain (in any case) and path, and each entry of `explicit` is the key of a
  -- cookie in the jar that has no expiry.
  pub changes-WellFormed : (l : List Change) → WellFormed (changes l empty_jar)
  changes-WellFormed l = changes-WellFormed_from l empty_jar (tt, tt)
