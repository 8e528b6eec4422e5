-- ===== src/Bencode.antt =====
-- src/bittorrent/bencode.rs: the values, and `encode`. `Decoder` has the decoder, `Skip` the walk
-- that builds nothing.
pub mod Decoder
mod Skip
mod RoundTrip
mod Spans
mod Fuel
mod Progress
mod Tests
use rsurl.Base.{ℕ, suc, Option, none, some, [], ◌∷◌, ◌++◌, length, ltb, ◌==◌, if◌then◌else◌}
use rsurl.Base.Bytes.{Bytes}
use rsurl.Base.Decimal.{decimal}

-- The integers: `negsuc n` is -(n + 1).
pub data ℤ : Type 0 where
  pos : ℕ → ℤ
  negsuc : ℕ → ℤ

-- A dictionary is its entries, in the order of their keys.
mutual
  pub data Value : Type 0 where
    int : ℤ → Value
    bytes : Bytes → Value
    list : Values → Value
    dict : Entries → Value

  pub data Values : Type 0 where
    nil : Values
    cons : Value → Values → Values

  pub data Entries : Type 0 where
    empty : Entries
    entry : Bytes → Value → Entries → Entries

-- The order of byte strings.
pub data Order : Type 0 where
  before : Order
  same : Order
  behind : Order

unfoldable pub order : Bytes → Bytes → Order
order [] [] = same
order [] (b ∷ bs) = before
order (a ∷ as_) [] = behind
order (a ∷ as_) (b ∷ bs) = if ltb a b then before else if a == b then order as_ bs else behind

abbrev pub placed :
    Order → Bytes → Value → Bytes → Value → Entries → Option Entries → Option Entries
placed before k v k' v' m rest = some (entry k v (entry k' v' m))
placed same k v k' v' m rest = none
placed behind k v k' v' m none = none
placed behind k v k' v' m (some m') = some (entry k' v' m')

-- `BTreeMap::insert`; none where it would replace a value.
unfoldable pub insert : Bytes → Value → Entries → Option Entries
insert k v empty = some (entry k v empty)
insert k v (entry k' v' m) = placed (order k k') k v k' v' m (insert k v m)

unfoldable pub encode_int : ℤ → Bytes
encode_int (pos n) = 105 ∷ (decimal n ++ (101 ∷ []))
encode_int (negsuc n) = 105 ∷ 45 ∷ (decimal (suc n) ++ (101 ∷ []))

unfoldable pub encode_bytes : Bytes → Bytes
encode_bytes b = decimal (length b) ++ (58 ∷ b)

unfoldable mutual
  unfolding encode_int encode_bytes

  pub encode : Value → Bytes
  encode (int i) = encode_int i
  encode (bytes b) = encode_bytes b
  encode (list l) = 108 ∷ (encode_list l ++ (101 ∷ []))
  encode (dict d) = 100 ∷ (encode_dict d ++ (101 ∷ []))

  pub encode_list : Values → Bytes
  encode_list nil = []
  encode_list (cons item l) = encode item ++ encode_list l

  pub encode_dict : Entries → Bytes
  encode_dict empty = []
  encode_dict (entry k v d) = encode_bytes k ++ (encode v ++ encode_dict d)
