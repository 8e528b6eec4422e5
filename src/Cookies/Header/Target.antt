-- ===== src/Cookies/Header/Target.antt =====
-- src/cookie.rs: `request_path`, the part of a request's target that paths are matched with.
use rsurl.Base.{
  false, [], ◌∷◌, ◌++◌, All, ◌==◌, ==_iff, ◌≡◌, refl, ap, ◌∙◌, ◌⊎◌, inl, inr, Bool-cases, arith,
}
use rsurl.Base.Bytes.{Bytes}
use rsurl.Cookies.Header.{request_path}

-- The path of a target: all before the first `?` or `#`.
abbrev pub IsPathOf : Bytes → Bytes → Type 0
IsPathOf target p =
    (tail : Bytes) × (target ≡ p ++ tail)
    × All (λ b. (b ≡ 63 → ⊥) × (b ≡ 35 → ⊥)) p
    × ((tail ≡ []) ⊎ ((t : Bytes) × ((tail ≡ 63 ∷ t) ⊎ (tail ≡ 35 ∷ t))))

pub request_path-IsPathOf : (target : Bytes) → IsPathOf target (request_path target)
unfolding request_path
request_path-IsPathOf [] = ([], refl, tt, inl refl)
request_path-IsPathOf (b ∷ bs) =
    let (tail, split, free, ends) = request_path-IsPathOf bs in
    elim (Bool-cases (b == 63)) [
      | inl e ↦
          let same : b ≡ 63 = (==_iff b 63).0 e in
          rw e (b ∷ bs, refl, tt, inr (bs, inl (ap (λ x. x ∷ bs) same)))
      | inr e ↦ elim (Bool-cases (b == 35)) [
        | inl f ↦
            let same : b ≡ 35 = (==_iff b 35).0 f in
            rw (e, f) (b ∷ bs, refl, tt, inr (bs, inr (ap (λ x. x ∷ bs) same)))
        | inr f ↦
            rw (e, f)
              (
                tail,
                ap (λ r. b ∷ r) split,
                (((λ q. cc ((==_iff b 63).1 q)), (λ q. cc ((==_iff b 35).1 q))), free),
                ends,
              )
      ]
    ]

stops :
    (tail : Bytes)
    → (tail ≡ []) ⊎ ((t : Bytes) × ((tail ≡ 63 ∷ t) ⊎ (tail ≡ 35 ∷ t)))
    → request_path tail ≡ []
unfolding request_path
stops tail (inl e) = rw e refl
stops tail (inr (t, inl e)) = rw e refl
stops tail (inr (t, inr e)) = rw e refl

before :
    (p tail : Bytes)
    → All (λ b. (b ≡ 63 → ⊥) × (b ≡ 35 → ⊥)) p
    → request_path tail ≡ []
    → request_path (p ++ tail) ≡ p
unfolding request_path
before [] tail free h = h
before (b ∷ bs) tail ((query, fragment), free) h =
    let e : (b == 63) ≡ false = ground (arith, query) in
    let f : (b == 35) ≡ false = ground (arith, fragment) in
    rw (e, f) (ap (λ r. b ∷ r) (before bs tail free h))

-- There is no other.
pub IsPathOf-request_path : (target p : Bytes) → IsPathOf target p → request_path target ≡ p
IsPathOf-request_path target p (tail, split, free, ends) =
    ap (λ t. request_path t) split ∙ before p tail free (stops tail ends)
