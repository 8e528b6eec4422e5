-- ===== src/Picker.antt =====
-- src/bittorrent/picker.rs: the bitfield of pieces, and the picker that takes the rarest first.
pub mod Rarest
pub mod Counting
mod Tests
use rsurl.Base.{
  ℕ, zero, suc, ◌+◌, ◌-◌, ◌/◌, ◌%◌, ◌^◌, Bool, true, false, not, ◌&&◌, ◌||◌, Option, none, some,
  List, [], ◌∷◌, length, get_or, set, replicate, ltb, leb, ◌==◌, if◌then◌else◌, bit_and, bit_or,
}
use rsurl.Base.Bytes.{Bytes}

pub record Bitfield : Type 0 where
  pub bits : Bytes
  pub len : ℕ

-- `0x80 >> (i % 8)`.
abbrev pub mask : ℕ → ℕ
mask i = 128 / 2 ^ (i % 8)

unfoldable pub has : Bitfield → ℕ → Bool
has bf i = if leb bf.len i then false else not (bit_and (get_or bf.bits (i / 8) 0) (mask i) == 0)

unfoldable pub set_piece : Bitfield → ℕ → Bitfield
set_piece bf i =
    if ltb i bf.len
    then record bf { bits = set bf.bits (i / 8) (bit_or (get_or bf.bits (i / 8) 0) (mask i)) }
    else bf

unfoldable pub no_pieces : ℕ → Bitfield
no_pieces len = record { bits = replicate ((len + 7) / 8) 0; len = len }

-- The availability of each piece; `c += 1` and `saturating_sub`.
unfoldable pub add_have : List ℕ → ℕ → List ℕ
add_have availability index =
    if ltb index (length availability)
    then set availability index (get_or availability index 0 + 1)
    else availability

-- The loops over `0..bf.len()`, with `n` pieces still to do, from `i` on.
unfoldable pub add_from : Bitfield → ℕ → ℕ → List ℕ → List ℕ
unfolding add_have has
add_from bf zero i availability = availability
add_from bf (suc n) i availability =
    add_from bf n (suc i) (if has bf i then add_have availability i else availability)

unfoldable pub add_bitfield : List ℕ → Bitfield → List ℕ
unfolding add_from
add_bitfield availability bf = add_from bf bf.len 0 availability

unfoldable pub drop_have : List ℕ → ℕ → List ℕ
drop_have availability index =
    if ltb index (length availability)
    then set availability index (get_or availability index 0 - 1)
    else availability

unfoldable pub remove_from : Bitfield → ℕ → ℕ → List ℕ → List ℕ
unfolding drop_have has
remove_from bf zero i availability = availability
remove_from bf (suc n) i availability =
    remove_from bf n (suc i) (if has bf i then drop_have availability i else availability)

unfoldable pub remove_bitfield : List ℕ → Bitfield → List ℕ
unfolding remove_from
remove_bitfield availability bf = remove_from bf bf.len 0 availability

abbrev pub contains : List ℕ → ℕ → Bool
contains [] i = false
contains (x ∷ xs) i = x == i || contains xs i

-- Not skipped by the `continue` of `pick`.
unfoldable pub wanted : Bitfield → Bitfield → List ℕ → ℕ → Bool
unfolding has
wanted ours peer_has exclude i = not ((has ours i || not (has peer_has i)) || contains exclude i)

-- The best so far, after a piece that is wanted.
unfoldable pub better : Option (ℕ × ℕ) → ℕ → ℕ → Option (ℕ × ℕ)
better none avail i = some (avail, i)
better (some (b, j)) avail i = if ltb avail b then some (avail, i) else some (b, j)

-- The loop of `pick` over the availabilities from `i` on.
unfoldable pub pick_from : (ℕ → Bool) → ℕ → List ℕ → Option (ℕ × ℕ) → Option (ℕ × ℕ)
unfolding better
pick_from test i [] best = best
pick_from test i (avail ∷ more) best =
    pick_from test (suc i) more (if test i then better best avail i else best)

abbrev pub index_of : Option (ℕ × ℕ) → Option ℕ
index_of none = none
index_of (some p) = some p.1

unfoldable pub pick : List ℕ → Bitfield → Bitfield → List ℕ → Option ℕ
unfolding pick_from wanted
pick availability ours peer_has exclude =
    index_of (pick_from (wanted ours peer_has exclude) 0 availability none)
