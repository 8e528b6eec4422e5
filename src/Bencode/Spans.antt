-- ===== src/Bencode/Spans.antt =====
-- src/bittorrent/bencode.rs: the spans of `dict_entry_spans`.
use rsurl.Base.{
  ℕ, zero, suc, ◌+◌, ◌-◌, ◌<◌, List, [], ◌∷◌, ◌++◌, append_assoc, length, length-append,
  take_append_of_length, ok, ◌≡◌, refl, ap, ◌∙◌, arith,
}
use rsurl.Base.Bytes.{Bytes}
use rsurl.Bencode.Decoder.{kind}
use rsurl.Bencode.RoundTrip.{
  Fits, FitsDict, kind-encode_bytes, byte_string-encode_bytes, length-encode_bytes,
  value_depth-encode,
}
use rsurl.Bencode.Skip.{behind_it, skip_value, spans, dict_entry_spans, skip_value-value_depth}
use rsurl.Bencode.{Value, dict, Entries, empty, entry, encode, encode_dict, encode_bytes}

-- The keys of a dictionary, and the encodings of its values.
abbrev pub encodings : Entries → List (Bytes × Bytes)
encodings empty = []
encodings (entry k v d) = (k, encode v) ∷ encodings d

skip_value-encode :
    (v : Value) (rest : Bytes)
    → Fits 0 v
    → skip_value (suc (length (encode v ++ rest) + length (encode v ++ rest))) 0 (encode v ++ rest)
      ≡ ok rest
skip_value-encode v rest fits =
    let fuel = suc (length (encode v ++ rest) + length (encode v ++ rest)) in
    skip_value-value_depth fuel 0 (encode v ++ rest)
    ∙ ap behind_it
        (value_depth-encode v fuel 0 rest (omega (arith, length-append (encode v) rest)) fits)

spans-encode_dict :
    (d : Entries) (fuel : ℕ) (rest : Bytes)
    → length (encode_dict d) < fuel
    → FitsDict 0 d
    → spans fuel (encode_dict d ++ (101 ∷ rest)) ≡ ok (encodings d)
unfolding spans encode_dict kind
spans-encode_dict d zero rest enough fits = absurd (omega arith)
spans-encode_dict empty (suc fuel) rest enough fits = refl
spans-encode_dict (entry k v d) (suc fuel) rest enough (short, fit, later, fits) =
    let more = encode_dict d ++ (101 ∷ rest) in
    let sum = length-append (encode_bytes k) (encode v ++ encode_dict d) in
    let sum' = length-append (encode v) (encode_dict d) in
    let size : length (encode v ++ more) - length more ≡ length (encode v) =
      omega (arith, length-append (encode v) more) in
    let others =
      spans-encode_dict d fuel rest (omega (arith, enough, sum, sum', length-encode_bytes k))
        fits in
    rw
      (
        append_assoc (encode_bytes k) (encode v ++ encode_dict d) (101 ∷ rest),
        append_assoc (encode v) (encode_dict d) (101 ∷ rest),
        kind-encode_bytes k (encode v ++ more),
        byte_string-encode_bytes k (encode v ++ more) short,
        skip_value-encode v more fit,
        others,
        size,
        take_append_of_length (length (encode v)) (encode v) more refl,
      )
      refl

-- On an encoded dictionary, whose keys are in order and whose values fit and nest no deeper than `MAX_DEPTH` by
-- themselves, `dict_entry_spans` gives each key with exactly the bytes that encode its value.
pub dict_entry_spans-encode :
    (d : Entries) → FitsDict 0 d → dict_entry_spans (encode (dict d)) ≡ ok (encodings d)
unfolding dict_entry_spans encode kind
dict_entry_spans-encode d fits =
    spans-encode_dict d (suc (length (encode_dict d ++ (101 ∷ [])))) []
      (omega (arith, length-append (encode_dict d) (101 ∷ []))) fits
