-- ===== src/Tftp/Blocks.antt =====
-- The blocks of a file, as RFC 1350 cuts it: full blocks of 512 bytes and one shorter block, which
-- may be empty. This is the description that both loops of src/tftp.rs are compared with.
use rsurl.Base.{
  ℕ, zero, suc, ◌/◌, ◌<◌, List, [], ◌∷◌, ◌++◌, length, take, drop, length-drop, length-take,
  take-append-drop, ◌≡◌, refl, ap, arith,
}
use rsurl.Base.Bytes.{Bytes}
use rsurl.Tftp.Packet.{block_size}

unfoldable pub blocks : ℕ → Bytes → List Bytes
blocks zero bytes = bytes ∷ []
blocks (suc n) bytes = take block_size bytes ∷ blocks n (drop block_size bytes)

unfoldable pub file_blocks : Bytes → List Bytes
unfolding blocks
file_blocks bytes = blocks (length bytes / block_size) bytes

abbrev pub concat : List Bytes → Bytes
concat [] = []
concat (c ∷ cs) = c ++ concat cs

-- Full blocks and one short block at the end.
pub data Framed : List Bytes → Type 0 where
  last : {c : Bytes} → length c < block_size → Framed (c ∷ [])
  full : {c : Bytes} {cs : List Bytes} → length c ≡ block_size → Framed cs → Framed (c ∷ cs)

concat-blocks : (n : ℕ) (bytes : Bytes) → concat (blocks n bytes) ≡ bytes
unfolding blocks
concat-blocks zero bytes = mathlib.Core.List.append-nil bytes
concat-blocks (suc n) bytes =
    mathlib.Core.Path.◌∙◌
      (ap (λ t. take block_size bytes ++ t) (concat-blocks n (drop block_size bytes)))
      (take-append-drop block_size bytes)

blocks-Framed : (n : ℕ) (bytes : Bytes) → n ≡ length bytes / block_size → Framed (blocks n bytes)
unfolding blocks
blocks-Framed zero bytes h = last (omega arith)
blocks-Framed (suc n) bytes h =
    full (omega (arith, length-take block_size bytes))
      (blocks-Framed n (drop block_size bytes) (omega (arith, length-drop block_size bytes)))

-- The blocks of a file give it back, and are framed as the protocol wants.
pub concat-file_blocks : (bytes : Bytes) → concat (file_blocks bytes) ≡ bytes
unfolding file_blocks
concat-file_blocks bytes = concat-blocks _ bytes

pub file_blocks-Framed : (bytes : Bytes) → Framed (file_blocks bytes)
unfolding file_blocks
file_blocks-Framed bytes = blocks-Framed _ bytes refl
