-- ===== src/Base/Bytes.antt =====
-- Byte strings as lists of numbers, and the big-endian words of `to_be_bytes`/`from_be_bytes`.
use Prim.Native.Nat.{ℕ, ◌+◌, ◌*◌, ◌/◌, ◌%◌, ◌<◌}
use Prim.Native.Char.{code}
use Prim.Native.String.{String}
use mathlib.Core.Path.{◌≡◌}
use mathlib.Core.List.{List, [], ◌∷◌}
use native.Mathlib.Omega.{arith}
use rsurl.Base.Lists.{All}

abbrev pub Bytes : Type 0
Bytes = List ℕ

abbrev pub IsByte : ℕ → Type 0
IsByte b = b < 256

abbrev pub IsU16 : ℕ → Type 0
IsU16 n = n < 65536

abbrev pub IsU32 : ℕ → Type 0
IsU32 n = n < 4294967296

abbrev pub IsU64 : ℕ → Type 0
IsU64 n = n < 18446744073709551616

abbrev pub AreBytes : Bytes → Type 0
AreBytes = All IsByte

-- The code points of a literal: its bytes, since every literal of the code is ASCII.
abbrev pub codes : String → Bytes
codes String.[] = []
codes (String.◌∷◌ c s) = code c ∷ codes s

-- `uN::to_be_bytes`.
abbrev pub be16_bytes : ℕ → Bytes
be16_bytes n = (n / 256 % 256) ∷ (n % 256) ∷ []

abbrev pub be32_bytes : ℕ → Bytes
be32_bytes n = (n / 16777216 % 256) ∷ (n / 65536 % 256) ∷ (n / 256 % 256) ∷ (n % 256) ∷ []

abbrev pub be64_bytes : ℕ → Bytes
be64_bytes n =
    (n / 72057594037927936 % 256)
    ∷ (n / 281474976710656 % 256)
    ∷ (n / 1099511627776 % 256)
    ∷ (n / 4294967296 % 256)
    ∷ be32_bytes n

-- `uN::from_be_bytes`.
abbrev pub be16 : ℕ → ℕ → ℕ
be16 a b = a * 256 + b

abbrev pub be32 : ℕ → ℕ → ℕ → ℕ → ℕ
be32 a b c d = a * 16777216 + b * 65536 + c * 256 + d

abbrev pub be64 : ℕ → ℕ → ℕ → ℕ → ℕ → ℕ → ℕ → ℕ → ℕ
be64 a b c d e f g h = be32 a b c d * 4294967296 + be32 e f g h

pub be16_of_bytes : (n : ℕ) → IsU16 n → be16 (n / 256 % 256) (n % 256) ≡ n
be16_of_bytes n h = omega arith

pub be32_of_bytes :
    (n : ℕ) → IsU32 n → be32 (n / 16777216 % 256) (n / 65536 % 256) (n / 256 % 256) (n % 256) ≡ n
be32_of_bytes n h = omega arith
