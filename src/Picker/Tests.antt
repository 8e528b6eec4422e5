-- ===== src/Picker/Tests.antt =====
-- src/bittorrent/picker.rs: the theorems at a concrete choice.
use rsurl.Base.{ℕ, ◌≤◌, ◌<◌, ◌≡◌, ◌⊎◌, refl, true, false, none, some, List, [], ◌∷◌, get_elem?}
use rsurl.Picker.{Bitfield, set_piece, no_pieces, wanted, pick, add_bitfield}
use rsurl.Picker.Rarest.{pick_rarest, pick-none}

-- Of four pieces we have the first, and the peer has all.
abbrev ours : Bitfield
ours = record { bits = 128 ∷ []; len = 4 }

abbrev peer : Bitfield
peer = record { bits = 240 ∷ []; len = 4 }

abbrev counts : List ℕ
counts = 1 ∷ 3 ∷ 2 ∷ 2 ∷ []

set_first : set_piece (no_pieces 4) 0 ≡ ours
unfolding set_piece no_pieces
set_first = refl

counted : add_bitfield counts ours ≡ 2 ∷ 3 ∷ 2 ∷ 2 ∷ []
unfolding add_bitfield
counted = refl

chosen : pick counts ours peer [] ≡ some 2
unfolding pick
chosen = refl

third_wanted : wanted ours peer [] 3 ≡ true
unfolding wanted
third_wanted = refl

pick_rarest_example :
    (v : ℕ) × (get_elem? counts 2 ≡ some v)
    × (wanted ours peer [] 2 ≡ true)
    × ((v < 2) ⊎ ((v ≡ 2) × (2 ≤ 3)))
pick_rarest_example = pick_rarest counts ours peer [] 2 3 2 chosen refl third_wanted

nothing_new : pick counts ours ours [] ≡ none
unfolding pick
nothing_new = refl

pick-none_example : wanted ours ours [] 1 ≡ false
pick-none_example = pick-none counts ours ours [] 1 3 nothing_new refl
