-- ===== src/Http1/Scan.antt =====
-- src/proto/http1.rs: where `find_header_end` and the search for a line feed find something, and
-- that bytes behind it make no difference.
use rsurl.Base.{
  ℕ, suc, ◌≤◌, true, Option, none, some, [], ◌∷◌, ◌++◌, length, ◌≡◌, inl, inr, Option-cases, arith,
}
use rsurl.Base.Bytes.{Bytes}
use rsurl.Http1.Chunked.{find_newline}
use rsurl.Http1.Exchange.{eol_follows, find_header_end}
use rsurl.Http1.Machine.{suc_some}

-- What is found lies in the list.
abbrev pub Within : ℕ → ℕ → Option ℕ → Type 0
Within low n none = Unit
Within low n (some k) = (low ≤ k) × (k ≤ n)

Within-suc : (low n : ℕ) (o : Option ℕ) → Within low n o → Within low (suc n) (suc_some o)
Within-suc low n none h = tt
Within-suc low n (some k) h = (omega (arith, h.0), omega (arith, h.1))

eol_follows-length : (rest : Bytes) → eol_follows rest ≡ true → 2 ≤ length rest
eol_follows-length [] h = cc
eol_follows-length (a ∷ []) h = cc
eol_follows-length (a ∷ b ∷ rest) h = omega arith

pub find_header_end-Within : (l : Bytes) → Within 2 (length l) (find_header_end l)
unfolding find_header_end
find_header_end-Within [] = tt
find_header_end-Within (a ∷ []) = tt
find_header_end-Within (a ∷ b ∷ rest) =
    let ih =
      Within-suc 2 (length (b ∷ rest)) (find_header_end (b ∷ rest))
        (find_header_end-Within (b ∷ rest)) in
    ground (arith, ih, eol_follows-length rest)

pub find_newline-Within : (l : Bytes) → Within 1 (length l) (suc_some (find_newline l))
unfolding find_newline
find_newline-Within [] = tt
find_newline-Within (b ∷ bs) =
    let ih = Within-suc 1 (length bs) (suc_some (find_newline bs)) (find_newline-Within bs) in
    ground (arith, ih)

pub find_newline-append :
    (l more : Bytes) (k : ℕ) → find_newline l ≡ some k → find_newline (l ++ more) ≡ some k
unfolding find_newline
find_newline-append [] more k found = cc
find_newline-append (b ∷ bs) more k found = elim (Option-cases (find_newline bs)) [
  | inl e ↦ ground (arith, e)
  | inr (n, e) ↦ ground (arith, e, find_newline-append bs more n e)
]

pub find_header_end-append :
    (l more : Bytes) (k : ℕ) → find_header_end l ≡ some k → find_header_end (l ++ more) ≡ some k
unfolding find_header_end
find_header_end-append [] more k found = cc
find_header_end-append (a ∷ []) more k found = cc
find_header_end-append (a ∷ b ∷ []) more k found = ground arith
find_header_end-append (a ∷ b ∷ c ∷ []) more k found = ground arith
find_header_end-append (a ∷ b ∷ c ∷ d ∷ rest) more k found =
    elim (Option-cases (find_header_end (b ∷ c ∷ d ∷ rest))) [
      | inl e ↦ ground (arith, e)
      | inr (n, e) ↦ ground (arith, e, find_header_end-append (b ∷ c ∷ d ∷ rest) more n e)
    ]
