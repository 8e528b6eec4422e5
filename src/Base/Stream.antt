-- ===== src/Base/Stream.antt =====
-- A reader as the bytes that it still delivers before its end. Failures of the transport other
-- than the end are not modelled.
use Prim.Native.Nat.{ℕ, ◌≤◌, ◌<◌}
use mathlib.Core.Path.{◌≡◌}
use mathlib.Core.List.{◌++◌}
use native.Mathlib.Omega.{arith}
use rsurl.Base.Bytes.{Bytes}
use rsurl.Base.Lists.{length, take, drop, length-append, take-length_append, drop-length_append}
use rsurl.Base.Outcome.{Result, ok, err, unexpected_eof}
use rsurl.Base.Tests.{ltb, if◌then◌else◌, lt→ltb, le→ltb}

-- `read_exact` into a buffer of `n` bytes; the end of the stream is `UnexpectedEof`.
unfoldable pub read_exact : ℕ → Bytes → Result (Bytes × Bytes)
read_exact n r = if ltb (length r) n then err unexpected_eof else ok (take n r, drop n r)

pub read_exact-append :
    (bytes rest : Bytes) → read_exact (length bytes) (bytes ++ rest) ≡ ok (bytes, rest)
unfolding read_exact
read_exact-append bytes rest = rw (
  le→ltb (length (bytes ++ rest)) (length bytes) (omega (arith, length-append bytes rest)),
  take-length_append bytes rest,
  drop-length_append bytes rest,
)

pub read_exact_short : (n : ℕ) (r : Bytes) → length r < n → read_exact n r ≡ err unexpected_eof
unfolding read_exact
read_exact_short n r h = rw (lt→ltb (length r) n h)

pub read_exact-eq-ok :
    (n : ℕ) (r : Bytes) {bytes rest : Bytes}
    → read_exact n r ≡ ok (bytes, rest)
    → (bytes ≡ take n r) × (rest ≡ drop n r) × (n ≤ length r)
unfolding read_exact
read_exact-eq-ok n r h = ground arith

pub read_exact_of_length :
    (n : ℕ) (bytes rest : Bytes)
    → length bytes ≡ n
    → read_exact n (bytes ++ rest) ≡ ok (bytes, rest)
read_exact_of_length n bytes rest h = rw (← h) (read_exact-append bytes rest)
