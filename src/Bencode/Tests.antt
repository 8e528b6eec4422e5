-- ===== src/Bencode/Tests.antt =====
-- A dictionary with nested values.
use rsurl.Base.{Answers, ok, ◌>>=◌, ◌≡◌, refl, arith}
use rsurl.Base.Bytes.{codes}
use rsurl.Bencode.Decoder.{whole, parse, value_depth}
use rsurl.Bencode.Fuel.{parse-enough}
use rsurl.Bencode.RoundTrip.{Fits, FitsDict, parse-encode}
use rsurl.Bencode.Skip.{skip_value, behind_it, dict_entry_spans, skip_value-value_depth}
use rsurl.Bencode.Spans.{encodings, dict_entry_spans-encode}
use rsurl.Bencode.{
  pos, negsuc, int, bytes, list, dict, nil, cons, Entries, empty, entry, order, encode,
}

-- `d1:ai-3e2:bcli7e2:xyee`.
abbrev two_entries : Entries
two_entries =
    entry (codes "a") (int (negsuc 2))
      (entry (codes "bc") (list (cons (int (pos 7)) (cons (bytes (codes "xy")) nil))) empty)

two_entries-FitsDict : FitsDict 0 two_entries
unfolding order
two_entries-FitsDict = (
  omega arith,
  (omega arith, omega arith),
  (refl, tt),
  (
    omega arith,
    (omega arith, ((omega arith, omega arith), ((omega arith, omega arith), tt))),
    tt,
    tt,
  ),
)

two_entries-Fits : Fits 0 (dict two_entries)
unfolding order
two_entries-Fits = (
  omega arith,
  (
    omega arith,
    (omega arith, omega arith),
    (refl, tt),
    (
      omega arith,
      (omega arith, ((omega arith, omega arith), ((omega arith, omega arith), tt))),
      tt,
      tt,
    ),
  ),
)

parse-encode_example : parse (encode (dict two_entries)) ≡ ok (dict two_entries)
parse-encode_example = parse-encode (dict two_entries) two_entries-Fits

dict_entry_spans-encode_example :
    dict_entry_spans (encode (dict two_entries)) ≡ ok (encodings two_entries)
dict_entry_spans-encode_example = dict_entry_spans-encode two_entries two_entries-FitsDict

skip_value-value_depth_example :
    skip_value 40 0 (codes "d1:ai-3e1:ai7eex")
    ≡ behind_it (value_depth 40 0 (codes "d1:ai-3e1:ai7eex"))
skip_value-value_depth_example = skip_value-value_depth 40 0 (codes "d1:ai-3e1:ai7eex")

parse-enough_example :
    Answers (parse (codes "li7e"))
    × (parse (codes "li7e") ≡ (value_depth 90 0 (codes "li7e") >>= whole))
parse-enough_example = parse-enough 90 (codes "li7e") (omega arith)
