-- ===== src/Cookies/Header/Order.antt =====
-- src/cookie.rs: the order in which a request's cookies are written, and the bytes.
use rsurl.Base.{
  ℕ, suc, ◌≤◌, Bool, true, false, List, [], ◌∷◌, ◌++◌, All, All-append, length, ltb, leb, leb→le,
  leb→lt, ◌==◌, if◌then◌else◌, ◌≡◌, refl, sym, append_assoc, append-nil, ap, ◌∙◌, ◌⊎◌, inl, inr,
  Bool-cases, arith,
}
use rsurl.Base.Bytes.{Bytes, codes}
use rsurl.Cookies.{Cookie, keep_if, retain}
use rsurl.Cookies.Header.{place_in, place, by_path_length, pairs_from}

-- A byte that a header may hold.
abbrev pub IsPrintable : ℕ → Type 0
IsPrintable b = (32 ≤ b) × (b ≡ 127 → ⊥)

-- The longer path comes first.
abbrev pub Descending : List Cookie → Type 0
Descending [] = Unit
Descending (x ∷ xs) = All (λ y. length y.path ≤ length x.path) xs × Descending xs

-- The cookies whose path has a length, in their order.
abbrev pub of_length : ℕ → List Cookie → List Cookie
of_length n l = retain (λ c. length c.path == n) l

place_in-All :
    (P : Cookie → Type 0) (b : Bool) (x y : Cookie) (ys rest : List Cookie)
    → P x
    → All P (y ∷ ys)
    → All P rest
    → All P (place_in b x y ys rest)
place_in-All P true x y ys rest px h hr = (px, h)
place_in-All P false x y ys rest px (py, h) hr = (py, hr)

place-All : (P : Cookie → Type 0) (x : Cookie) (l : List Cookie) → P x → All P l → All P (place x l)
place-All P x [] px h = (px, tt)
place-All P x (y ∷ ys) px (py, h) =
    place_in-All P (leb (length y.path) (length x.path)) x y ys (place x ys) px (py, h)
      (place-All P x ys px h)

pub by_path_length-All :
    (P : Cookie → Type 0) (l : List Cookie) → All P l → All P (by_path_length l)
unfolding by_path_length
by_path_length-All P [] h = tt
by_path_length-All P (x ∷ xs) (px, h) =
    place-All P x (by_path_length xs) px (by_path_length-All P xs h)

swap :
    (a b : Bool) (x y : Cookie) (r : List Cookie)
    → (a ≡ true → b ≡ true → ⊥)
    → keep_if b y (keep_if a x r) ≡ keep_if a x (keep_if b y r)
swap true true x y r h = absurd (h refl refl)
swap true false x y r h = refl
swap false b x y r h = refl

place_in-of_length :
    (n : ℕ) (b : Bool) (x y : Cookie) (ys rest : List Cookie)
    → leb (length y.path) (length x.path) ≡ b
    → of_length n rest ≡ of_length n (x ∷ ys)
    → of_length n (place_in b x y ys rest) ≡ of_length n (x ∷ y ∷ ys)
place_in-of_length n true x y ys rest e h = refl
place_in-of_length n false x y ys rest e h =
    ap (keep_if (length y.path == n) y) h
    ∙ swap (length x.path == n) (length y.path == n) x y (of_length n ys) (λ p q. ground arith)

place-of_length :
    (n : ℕ) (x : Cookie) (l : List Cookie) → of_length n (place x l) ≡ of_length n (x ∷ l)
place-of_length n x [] = refl
place-of_length n x (y ∷ ys) =
    place_in-of_length n (leb (length y.path) (length x.path)) x y ys (place x ys) refl
      (place-of_length n x ys)

-- Sorting keeps the order of the cookies whose paths are equally long.
pub by_path_length-of_length :
    (n : ℕ) (l : List Cookie) → of_length n (by_path_length l) ≡ of_length n l
unfolding by_path_length
by_path_length-of_length n [] = refl
by_path_length-of_length n (x ∷ xs) =
    place-of_length n x (by_path_length xs)
    ∙ ap (keep_if (length x.path == n) x) (by_path_length-of_length n xs)

All-le :
    (l : List Cookie) (m n : ℕ)
    → m ≤ n
    → All (λ y. length y.path ≤ m) l
    → All (λ y. length y.path ≤ n) l
All-le [] m n le h = tt
All-le (y ∷ ys) m n le (hy, h) = (omega arith, All-le ys m n le h)

place_in-Descending :
    (b : Bool) (x y : Cookie) (ys rest : List Cookie)
    → leb (length y.path) (length x.path) ≡ b
    → Descending (y ∷ ys)
    → All (λ z. length z.path ≤ length y.path) rest ⊎ (length y.path ≤ length x.path)
    → Descending rest
    → Descending (place_in b x y ys rest)
place_in-Descending true x y ys rest e (below, h) later hr = (
  (
    leb→le (length y.path) (length x.path) e,
    All-le ys (length y.path) (length x.path) (leb→le (length y.path) (length x.path) e) below,
  ),
  (below, h),
)
place_in-Descending false x y ys rest e (below, h) (inl later) hr = (later, hr)
place_in-Descending false x y ys rest e (below, h) (inr le) hr = absurd (ground arith)

below_or :
    (x y : Cookie) (ys : List Cookie)
    → All (λ z. length z.path ≤ length y.path) ys
    → All (λ z. length z.path ≤ length y.path) (place x ys) ⊎ (length y.path ≤ length x.path)
below_or x y ys below = elim (Bool-cases (leb (length y.path) (length x.path))) [
  | inl e ↦ inr (leb→le (length y.path) (length x.path) e)
  | inr e ↦ inl (
      place-All (λ z. length z.path ≤ length y.path) x ys
        (omega (arith, leb→lt (length y.path) (length x.path) e)) below)
]

place-Descending : (x : Cookie) (l : List Cookie) → Descending l → Descending (place x l)
place-Descending x [] h = (tt, tt)
place-Descending x (y ∷ ys) (below, h) =
    place_in-Descending (leb (length y.path) (length x.path)) x y ys (place x ys) refl (below, h)
      (below_or x y ys below) (place-Descending x ys h)

pub by_path_length-Descending : (l : List Cookie) → Descending (by_path_length l)
unfolding by_path_length
by_path_length-Descending [] = tt
by_path_length-Descending (x ∷ xs) =
    place-Descending x (by_path_length xs) (by_path_length-Descending xs)

separator : (i : ℕ) → All IsPrintable (if ltb 0 i then codes "; " else [])
separator i = elim (Bool-cases (ltb 0 i)) [
  | inl e ↦ rw e ((omega arith, λ q. omega arith), ((omega arith, λ q. omega arith), tt))
  | inr e ↦ rw e tt
]

pub pairs_from-IsPrintable :
    (i : ℕ) (l : List Cookie)
    → All (λ c. All IsPrintable c.name × All IsPrintable c.value) l
    → All IsPrintable (pairs_from i l)
unfolding pairs_from
pairs_from-IsPrintable i [] h = tt
pairs_from-IsPrintable i (c ∷ cs) ((name, value), h) =
    All-append IsPrintable (if ltb 0 i then codes "; " else [])
      (c.name ++ ((61 ∷ []) ++ (c.value ++ pairs_from (suc i) cs))) (separator i)
      (All-append IsPrintable c.name ((61 ∷ []) ++ (c.value ++ pairs_from (suc i) cs)) name (
        (omega arith, λ q. omega arith),
        All-append IsPrintable c.value (pairs_from (suc i) cs) value
            (pairs_from-IsPrintable (suc i) cs h),
      ))

abbrev pub pair : Cookie → Bytes
pair c = c.name ++ (61 ∷ c.value)

-- The cookie-string of RFC 6265 §4.2.1: `name=value` for each cookie, and "; " between two.
abbrev pub cookie_string : List Cookie → Bytes
cookie_string [] = []
cookie_string (c ∷ []) = pair c
cookie_string (c ∷ d ∷ cs) = pair c ++ (59 ∷ 32 ∷ cookie_string (d ∷ cs))

pair_then :
    (c : Cookie) (rest : Bytes) → c.name ++ ((61 ∷ []) ++ (c.value ++ rest)) ≡ pair c ++ rest
pair_then c rest = sym (append_assoc c.name (61 ∷ c.value) rest)

later_pairs :
    (i : ℕ) (c : Cookie) (cs : List Cookie)
    → pairs_from (suc i) (c ∷ cs) ≡ 59 ∷ 32 ∷ cookie_string (c ∷ cs)
unfolding pairs_from
later_pairs i c [] =
    let later : ltb 0 (suc i) ≡ true = ground arith in
    rw later (ap (λ r. 59 ∷ 32 ∷ r) (pair_then c [] ∙ append-nil (pair c)))
later_pairs i c (d ∷ cs) =
    let later : ltb 0 (suc i) ≡ true = ground arith in
    rw later (
      ap (λ r. 59 ∷ 32 ∷ r)
        (pair_then c (pairs_from (suc (suc i)) (d ∷ cs))
          ∙ ap (λ r. pair c ++ r) (later_pairs (suc i) d cs)))

pub pairs_from-cookie_string : (l : List Cookie) → pairs_from 0 l ≡ cookie_string l
unfolding pairs_from
pairs_from-cookie_string [] = refl
pairs_from-cookie_string (c ∷ []) = pair_then c [] ∙ append-nil (pair c)
pairs_from-cookie_string (c ∷ d ∷ cs) =
    pair_then c (pairs_from 1 (d ∷ cs)) ∙ ap (λ r. pair c ++ r) (later_pairs 0 d cs)
