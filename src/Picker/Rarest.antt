-- ===== src/Picker/Rarest.antt =====
-- src/bittorrent/picker.rs: `pick` takes a rarest piece, and the first of them.
use rsurl.Base.{
  ℕ, zero, suc, ◌+◌, ◌≤◌, ◌<◌, ◌≡◌, refl, ap, sym, arith, Bool, true, false, Bool-cases, ◌⊎◌, inl,
  inr, Option, none, some, List, [], ◌∷◌, get_elem?,
}
use rsurl.Picker.{Bitfield, wanted, better, pick_from, pick, index_of}

-- A best of this availability and index is not worse than a piece.
pub Beats : Option (ℕ × ℕ) → ℕ → ℕ → Type 0
Beats none v k = ⊥
Beats (some (b, j)) v k = (b < v) ⊎ ((b ≡ v) × (j ≤ k))

-- The best so far is at an index before `i`.
Before : ℕ → Option (ℕ × ℕ) → Type 0
Before i none = Unit
Before i (some (b, j)) = j < i

better-Before : (i a : ℕ) (best : Option (ℕ × ℕ)) → Before i best → Before (suc i) (better best a i)
unfolding better Before
better-Before i a none h = omega arith
better-Before i a (some (b, j)) h = ground arith

better-Beats :
    (i a v k : ℕ) (best : Option (ℕ × ℕ)) → k < i → Beats best v k → Beats (better best a i) v k
unfolding better Beats
better-Beats i a v k none less h = absurd h
better-Beats i a v k (some (b, j)) less h = ground arith

better-Beats_new : (i a : ℕ) (best : Option (ℕ × ℕ)) → Before i best → Beats (better best a i) a i
unfolding better Beats Before
better-Beats_new i a none h = inr (refl, omega arith)
better-Beats_new i a (some (b, j)) h = ground arith

Before-next : (i : ℕ) (best : Option (ℕ × ℕ)) → Before i best → Before (suc i) best
unfolding Before
Before-next i none h = tt
Before-next i (some (b, j)) h = omega arith

better_origin :
    (i a : ℕ) (best : Option (ℕ × ℕ)) {v j : ℕ}
    → better best a i ≡ some (v, j)
    → (best ≡ some (v, j)) ⊎ ((v ≡ a) × (j ≡ i))
unfolding better
better_origin i a none h = ground (arith, h)
better_origin i a (some (b, k)) h = ground (arith, h)

module _ (test : ℕ → Bool) where
  -- What the loop ends with beats what the best so far beats.
  kept :
      (i : ℕ) (avails : List ℕ) (best : Option (ℕ × ℕ)) (v k : ℕ)
      → k < i
      → Beats best v k
      → Beats (pick_from test i avails best) v k
  unfolding pick_from
  kept i [] best v k less h = h
  kept i (a ∷ avails) best v k less h = elim (Bool-cases (test i)) [
    | inl e ↦
        rw e (
          kept (suc i) avails (better best a i) v k (omega arith)
            (better-Beats i a v k best less h))
    | inr e ↦ rw e (kept (suc i) avails best v k (omega arith) h)
  ]

  -- It beats every wanted piece.
  met :
      (i : ℕ) (avails : List ℕ) (best : Option (ℕ × ℕ)) (v k : ℕ)
      → Before i best
      → get_elem? avails k ≡ some v
      → test (i + k) ≡ true
      → Beats (pick_from test i avails best) v (i + k)
  unfolding pick_from
  met i [] best v k before at want = cc
  met i (a ∷ avails) best v zero before at want =
      let here : i + 0 ≡ i = omega arith in
      let value : a ≡ v = cc at in
      rw (here, rw here at want, ← value)
        (kept (suc i) avails (better best a i) a i (omega arith) (better-Beats_new i a best before))
  met i (a ∷ avails) best v (suc k) before at want =
      let there : i + suc k ≡ suc i + k = omega arith in
      rw there (elim (Bool-cases (test i)) [
        | inl e ↦ rw e (
            met (suc i) avails (better best a i) v k (better-Before i a best before) at
              (rw there at want))
        | inr e ↦
            rw e (met (suc i) avails best v k (Before-next i best before) at (rw there at want))
      ])

  abbrev Found : ℕ → List ℕ → ℕ → ℕ → Type 0
  Found i avails v j = (k : ℕ) × (test j ≡ true) × (j ≡ i + k) × (get_elem? avails k ≡ some v)

  later :
      (i a : ℕ) (avails : List ℕ) (best : Option (ℕ × ℕ)) {v j : ℕ}
      → (best ≡ some (v, j)) ⊎ Found (suc i) avails v j
      → (best ≡ some (v, j)) ⊎ Found i (a ∷ avails) v j
  later i a avails best (inl e) = inl e
  later i a avails best (inr (k, t, there, at)) = inr (suc k, t, omega arith, at)

  -- It is a wanted piece with its availability, or what the loop began with.
  origin :
      (i : ℕ) (avails : List ℕ) (best : Option (ℕ × ℕ)) {v j : ℕ}
      → pick_from test i avails best ≡ some (v, j)
      → (best ≡ some (v, j)) ⊎ Found i avails v j
  unfolding pick_from
  origin i [] best h = inl h
  origin i (a ∷ avails) best {v} {j} h = elim (Bool-cases (test i)) [
    | inr e ↦ later i a avails best (origin (suc i) avails best (rw e at h))
    | inl e ↦ elim (origin (suc i) avails (better best a i) (rw e at h)) [
      | inr (k, t, there, at) ↦ inr (suc k, t, omega arith, at)
      | inl o ↦ elim (better_origin i a best o) [
        | inl old ↦ inl old
        | inr (value, here) ↦ inr (0, rw here e, omega arith, ap (λ x. some x) (sym value))
      ]
    ]
  ]

Before-none : Before 0 none
unfolding Before
Before-none = tt

module _ (availability : List ℕ) (ours peer_has : Bitfield) (exclude : List ℕ) where
  pick_rarest_of :
      (r : Option (ℕ × ℕ)) (i k w : ℕ)
      → pick_from (wanted ours peer_has exclude) 0 availability none ≡ r
      → index_of r ≡ some i
      → get_elem? availability k ≡ some w
      → wanted ours peer_has exclude k ≡ true
      → (v : ℕ) × (get_elem? availability i ≡ some v)
        × (wanted ours peer_has exclude i ≡ true)
        × ((v < w) ⊎ ((v ≡ w) × (i ≤ k)))
  unfolding Beats
  pick_rarest_of none i k w found chosen at want = cc
  pick_rarest_of (some (v, j)) i k w found chosen at want =
      let same : j ≡ i = cc chosen in
      let start : 0 + k ≡ k = omega arith in
      let beats : (v < w) ⊎ ((v ≡ w) × (j ≤ 0 + k)) = rw found at (
        met (wanted ours peer_has exclude) 0 availability none w k Before-none at
          (rw start want)) in
      elim (origin (wanted ours peer_has exclude) 0 availability none found) [
        | inl e ↦ cc
        | inr (n, t, there, value) ↦
            let here : n ≡ i = omega arith in
            (v, rw here at value, rw same at t, ground (arith, beats))
      ]

  -- A piece that `pick` takes is wanted (we lack it, the peer has it, and it is not excluded), and
  -- no wanted piece is rarer, nor as rare with a lower index.
  pub pick_rarest :
      (i k w : ℕ)
      → pick availability ours peer_has exclude ≡ some i
      → get_elem? availability k ≡ some w
      → wanted ours peer_has exclude k ≡ true
      → (v : ℕ) × (get_elem? availability i ≡ some v)
        × (wanted ours peer_has exclude i ≡ true)
        × ((v < w) ⊎ ((v ≡ w) × (i ≤ k)))
  unfolding pick
  pick_rarest i k w chosen at want = pick_rarest_of _ i k w refl chosen at want

  nothing-Beats : (r : Option (ℕ × ℕ)) (k w : ℕ) → index_of r ≡ none → Beats r w k → ⊥
  unfolding Beats
  nothing-Beats none k w empty h = h
  nothing-Beats (some p) k w empty h = cc

  -- If `pick` takes none, then no piece is wanted.
  pub pick-none :
      (k w : ℕ)
      → pick availability ours peer_has exclude ≡ none
      → get_elem? availability k ≡ some w
      → wanted ours peer_has exclude k ≡ false
  unfolding pick
  pick-none k w empty at = elim (Bool-cases (wanted ours peer_has exclude k)) [
    | inr e ↦ e
    | inl e ↦
        let start : 0 + k ≡ k = omega arith in
        absurd (
          nothing-Beats _ (0 + k) w empty (
            met (wanted ours peer_has exclude) 0 availability none w k Before-none at (rw start e)))
  ]
