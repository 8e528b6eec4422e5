-- ===== src/Picker/Counting.antt =====
-- src/bittorrent/picker.rs: a peer's bitfield counts each of its pieces once, and is taken back.
use rsurl.Base.{
  ℕ, zero, suc, ◌+◌, ◌≤◌, ◌<◌, ◌≡◌, refl, ap, ◌∙◌, arith, ==_iff, Bool, true, false, Bool-cases,
  inl, inr, List, [], ◌∷◌, length, length-set, get_or, set, ◌==◌,
}
use rsurl.Picker.{Bitfield, has, add_have, add_from, add_bitfield}

get_or-set_same : (xs : List ℕ) (i v : ℕ) → i < length xs → get_or (set xs i v) i 0 ≡ v
get_or-set_same [] i v h = absurd (omega arith)
get_or-set_same (x ∷ xs) zero v h = refl
get_or-set_same (x ∷ xs) (suc i) v h = get_or-set_same xs i v (omega arith)

get_or-set_other : (xs : List ℕ) (i j v : ℕ) → (i ≡ j → ⊥) → get_or (set xs i v) j 0 ≡ get_or xs j 0
get_or-set_other [] i j v ne = refl
get_or-set_other (x ∷ xs) zero zero v ne = absurd (ne refl)
get_or-set_other (x ∷ xs) zero (suc j) v ne = refl
get_or-set_other (x ∷ xs) (suc i) zero v ne = refl
get_or-set_other (x ∷ xs) (suc i) (suc j) v ne = get_or-set_other xs i j v (λ e. ne (omega arith))

abbrev pub one_if : Bool → ℕ
one_if true = 1
one_if false = 0

length-add_have : (a : List ℕ) (i : ℕ) → length (add_have a i) ≡ length a
unfolding add_have
length-add_have a i = ground (arith, length-set a i (get_or a i 0 + 1))

add_have_same : (a : List ℕ) (i : ℕ) → i < length a → get_or (add_have a i) i 0 ≡ get_or a i 0 + 1
unfolding add_have
add_have_same a i h = ground (arith, get_or-set_same a i (get_or a i 0 + 1) h)

add_have_other : (a : List ℕ) (i j : ℕ) → (i ≡ j → ⊥) → get_or (add_have a i) j 0 ≡ get_or a j 0
unfolding add_have
add_have_other a i j ne = ground (arith, get_or-set_other a i j (get_or a i 0 + 1) ne)

module _ (bf : Bitfield) where
  add_from_below : (n i j : ℕ) (a : List ℕ) → j < i → get_or (add_from bf n i a) j 0 ≡ get_or a j 0
  unfolding add_from
  add_from_below zero i j a h = refl
  add_from_below (suc n) i j a h = elim (Bool-cases (has bf i)) [
    | inl e ↦
        rw e (add_from_below n (suc i) j (add_have a i) (omega arith))
        ∙ add_have_other a i j (λ q. omega arith)
    | inr e ↦ rw e (add_from_below n (suc i) j a (omega arith))
  ]

  add_from_first :
      (n i : ℕ) (a : List ℕ)
      → i < length a
      → get_or (add_from bf (suc n) i a) i 0 ≡ get_or a i 0 + one_if (has bf i)
  unfolding add_from
  add_from_first n i a fits = elim (Bool-cases (has bf i)) [
    | inl e ↦
        rw e (add_from_below n (suc i) i (add_have a i) (omega arith) ∙ add_have_same a i fits)
    | inr e ↦ rw e (omega (arith, add_from_below n (suc i) i a (omega arith)))
  ]

  add_from_counts :
      (n i j : ℕ) (a : List ℕ)
      → i ≤ j
      → j < i + n
      → j < length a
      → get_or (add_from bf n i a) j 0 ≡ get_or a j 0 + one_if (has bf j)
  unfolding add_from
  add_from_counts zero i j a low high fits = absurd (omega arith)
  add_from_counts (suc n) i j a low high fits = elim (Bool-cases (i == j)) [
    | inl q ↦
        let same : i ≡ j = (==_iff i j).0 q in rw (← same) (add_from_first n i a (omega arith))
    | inr q ↦
        let ne : i ≡ j → ⊥ = λ same. cc ((==_iff i j).1 same) in
        elim (Bool-cases (has bf i)) [
          | inl e ↦ rw e (
              add_from_counts n (suc i) j (add_have a i) (omega (arith, ne)) (omega arith)
                (omega (arith, length-add_have a i))
              ∙ ap (λ c. c + one_if (has bf j)) (add_have_other a i j ne))
          | inr e ↦ rw e (add_from_counts n (suc i) j a (omega (arith, ne)) (omega arith) fits)
        ]
  ]

  -- When a peer's bitfield arrives, the count of each piece that it covers and that there is grows
  -- by one if the peer has the piece, and else stays.
  add_bitfield_counts :
      (j : ℕ) (availability : List ℕ)
      → j < bf.len
      → j < length availability
      → get_or (add_bitfield availability bf) j 0 ≡ get_or availability j 0 + one_if (has bf j)
  unfolding add_bitfield
  add_bitfield_counts j availability covered fits =
      add_from_counts bf.len 0 j availability (omega arith) (omega arith) fits
