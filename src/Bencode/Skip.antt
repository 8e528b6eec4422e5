-- ===== src/Bencode/Skip.antt =====
-- src/bittorrent/bencode.rs: `skip_value` and `dict_entry_spans`, and that a value is skipped as it
-- is read.
use rsurl.Base.{
  ℕ, zero, suc, ◌+◌, ◌-◌, Bool, true, false, Option, none, some, List, [], ◌∷◌, length, take, ltb,
  if◌then◌else◌, Result, ok, err, bad, exhausted, ◌>>=◌, ◌≡◌, refl, ap, ◌∙◌,
}
use rsurl.Base.Bytes.{Bytes}
use rsurl.Bencode.Decoder.{
  max_depth, integer, byte_string, inserted, Kind, at_int, at_list, at_dict, at_string, at_close,
  at_other, at_end, kind, on_value, on_item, on_key, value_depth, list_from, dict_from,
}
use rsurl.Bencode.{
  Value, int, bytes, list, dict, nil, cons, Entries, empty, entry, Order, before, same, behind,
  order, placed, insert,
}

abbrev pub placed_key :
    Order → Bytes → Bytes → List Bytes → Option (List Bytes) → Option (List Bytes)
placed_key before k k' keys rest = some (k ∷ k' ∷ keys)
placed_key same k k' keys rest = none
placed_key behind k k' keys none = none
placed_key behind k k' keys (some keys') = some (k' ∷ keys')

-- `BTreeSet::insert`; none where the key is there.
unfoldable pub insert_key : Bytes → List Bytes → Option (List Bytes)
insert_key k [] = some (k ∷ [])
insert_key k (k' ∷ keys) = placed_key (order k k') k k' keys (insert_key k keys)

abbrev pub new_key : Option (List Bytes) → Result (List Bytes)
new_key none = bad "bencode: duplicate dict key"
new_key (some keys) = ok keys

-- The bytes behind a value.
unfoldable mutual
  unfolding kind integer byte_string insert_key

  pub skip_value : ℕ → ℕ → Bytes → Result Bytes
  skip_value zero depth rest = exhausted
  skip_value (suc fuel) depth rest =
      if ltb max_depth depth
      then bad "bencode: nesting too deep"
      else on_value (kind rest) (λ r. integer r >>= λ p. ok p.1) (λ r. skip_list fuel depth r)
          (λ r. skip_dict fuel depth [] r) (byte_string rest >>= λ p. ok p.1)

  pub skip_list : ℕ → ℕ → Bytes → Result Bytes
  skip_list zero depth rest = exhausted
  skip_list (suc fuel) depth rest =
      on_item (kind rest) (λ r. r)
        (skip_value fuel (depth + 1) rest >>= λ r. skip_list fuel depth r)

  pub skip_dict : ℕ → ℕ → List Bytes → Bytes → Result Bytes
  skip_dict zero depth keys rest = exhausted
  skip_dict (suc fuel) depth keys rest =
      on_key (kind rest) (λ r. r)
        (byte_string rest >>= λ key. skip_value fuel (depth + 1) key.1 >>= λ r.
          new_key (insert_key key.0 keys) >>= λ keys'. skip_dict fuel depth keys' r)

-- The entries of a dictionary: each key, and the bytes of the buffer that its value takes.
unfoldable pub spans : ℕ → Bytes → Result (List (Bytes × Bytes))
unfolding skip_value
spans zero rest = exhausted
spans (suc fuel) rest =
    on_key (kind rest) (λ r. [])
      (byte_string rest >>= λ key. skip_value (suc (length key.1 + length key.1)) 0 key.1 >>= λ r.
        spans fuel r >>= λ more. ok ((key.0, take (length key.1 - length r) key.1) ∷ more))

unfoldable pub dict_entry_spans : Bytes → Result (List (Bytes × Bytes))
unfolding spans
dict_entry_spans input = elim (kind input) [
  | at_dict r ↦ spans (suc (length r)) r
  | at_end ↦ bad "bencode: unexpected end"
  | _ ↦ bad "bencode: expected dictionary"
]

-- The rest behind what was read.
abbrev pub behind_it : {A : Type 0} → Result (A × Bytes) → Result Bytes
behind_it r = r >>= λ p. ok p.1

abbrev keys_of : Entries → List Bytes
keys_of empty = []
keys_of (entry k v m) = k ∷ keys_of m

abbrev map_keys : Option Entries → Option (List Bytes)
map_keys none = none
map_keys (some m) = some (keys_of m)

placed-keys :
    (o : Order) (k : Bytes) (v : Value) (k' : Bytes) (v' : Value) (m : Entries)
    (rest : Option Entries)
    → placed_key o k k' (keys_of m) (map_keys rest) ≡ map_keys (placed o k v k' v' m rest)
placed-keys before k v k' v' m rest = refl
placed-keys same k v k' v' m rest = refl
placed-keys behind k v k' v' m none = refl
placed-keys behind k v k' v' m (some m') = refl

insert_key-keys_of :
    (k : Bytes) (v : Value) (m : Entries) → insert_key k (keys_of m) ≡ map_keys (insert k v m)
unfolding insert_key insert
insert_key-keys_of k v empty = refl
insert_key-keys_of k v (entry k' v' m) =
    ap (placed_key (order k k') k k' (keys_of m)) (insert_key-keys_of k v m)
    ∙ placed-keys (order k k') k v k' v' m (insert k v m)

-- The parts of the decoder, where each part skips what the other reads.
rebuilt :
    {A B : Type 0} (r : Result (A × Bytes)) (f : A → B)
    → behind_it r ≡ behind_it (r >>= λ p. ok (f p.0, p.1))
rebuilt (err e) f = refl
rebuilt (ok p) f = refl

chained :
    {A B : Type 0} (r : Result (A × Bytes)) (skip : Bytes → Result Bytes)
    (read : A × Bytes → Result (B × Bytes))
    → ((p : A × Bytes) → skip p.1 ≡ behind_it (read p))
    → (behind_it r >>= skip) ≡ behind_it (r >>= read)
chained (err e) skip read h = refl
chained (ok p) skip read h = h p

on_item-behind_it :
    {A : Type 0} (k : Kind) (close : Bytes → A) (next : Result (A × Bytes)) (skip : Result Bytes)
    → skip ≡ behind_it next
    → on_item k (λ r. r) skip ≡ behind_it (on_item k (λ r. (close r, r)) next)
on_item-behind_it (at_close r) close next skip h = refl
on_item-behind_it at_end close next skip h = refl
on_item-behind_it (at_int r) close next skip h = h
on_item-behind_it (at_list r) close next skip h = h
on_item-behind_it (at_dict r) close next skip h = h
on_item-behind_it at_string close next skip h = h
on_item-behind_it at_other close next skip h = h

on_key-behind_it :
    {A : Type 0} (k : Kind) (close : Bytes → A) (next : Result (A × Bytes)) (skip : Result Bytes)
    → skip ≡ behind_it next
    → on_key k (λ r. r) skip ≡ behind_it (on_key k (λ r. (close r, r)) next)
on_key-behind_it (at_close r) close next skip h = refl
on_key-behind_it at_end close next skip h = refl
on_key-behind_it at_string close next skip h = h
on_key-behind_it (at_int r) close next skip h = refl
on_key-behind_it (at_list r) close next skip h = refl
on_key-behind_it (at_dict r) close next skip h = refl
on_key-behind_it at_other close next skip h = refl

keyed :
    (o : Option Entries) (skip : List Bytes → Result Bytes)
    (read : Entries → Result (Entries × Bytes))
    → ((m : Entries) → skip (keys_of m) ≡ behind_it (read m))
    → (new_key (map_keys o) >>= skip) ≡ behind_it (inserted o >>= read)
keyed none skip read h = refl
keyed (some m) skip read h = h m

each :
    {A B : Type 0} (r : Result A) (skip : A → Result Bytes) (read : A → Result (B × Bytes))
    → ((a : A) → skip a ≡ behind_it (read a))
    → (r >>= skip) ≡ behind_it (r >>= read)
each (err e) skip read h = refl
each (ok a) skip read h = h a

value_parts :
    (k : Kind) (deep : Bool) (fuel depth : ℕ) (rest : Bytes)
    → ((r : Bytes) → skip_list fuel depth r ≡ behind_it (list_from fuel depth r))
    → ((r : Bytes) → skip_dict fuel depth [] r ≡ behind_it (dict_from fuel depth empty r))
    → (if deep
        then bad "bencode: nesting too deep"
        else on_value k
            (λ r. integer r >>= λ p. ok p.1)
            (λ r. skip_list fuel depth r)
            (λ r. skip_dict fuel depth [] r)
            (byte_string rest >>= λ p. ok p.1))
      ≡ behind_it (
          if deep
          then bad "bencode: nesting too deep"
          else on_value k
              (λ r. integer r >>= λ p. ok (int p.0, p.1))
              (λ r. list_from fuel depth r >>= λ p. ok (list p.0, p.1))
              (λ r. dict_from fuel depth empty r >>= λ p. ok (dict p.0, p.1))
              (byte_string rest >>= λ p. ok (bytes p.0, p.1)))
value_parts k true fuel depth rest hl hd = refl
value_parts (at_int r) false fuel depth rest hl hd = rebuilt (integer r) int
value_parts (at_list r) false fuel depth rest hl hd = hl r ∙ rebuilt (list_from fuel depth r) list
value_parts (at_dict r) false fuel depth rest hl hd =
    hd r ∙ rebuilt (dict_from fuel depth empty r) dict
value_parts at_string false fuel depth rest hl hd = rebuilt (byte_string rest) bytes
value_parts (at_close r) false fuel depth rest hl hd = refl
value_parts at_other false fuel depth rest hl hd = refl
value_parts at_end false fuel depth rest hl hd = refl

mutual
  unfolding skip_value value_depth list_from dict_from

  value_skips :
      (fuel depth : ℕ) (rest : Bytes)
      → skip_value fuel depth rest ≡ behind_it (value_depth fuel depth rest)
  value_skips zero depth rest = refl
  value_skips (suc fuel) depth rest =
      value_parts (kind rest) (ltb max_depth depth) fuel depth rest (λ r. list_skips fuel depth r)
        (λ r. dict_skips fuel depth empty r)

  list_skips :
      (fuel depth : ℕ) (rest : Bytes)
      → skip_list fuel depth rest ≡ behind_it (list_from fuel depth rest)
  list_skips zero depth rest = refl
  list_skips (suc fuel) depth rest =
      on_item-behind_it (kind rest) (λ r. nil) _ _
        (ap (λ r. r >>= λ l. skip_list fuel depth l) (value_skips fuel (depth + 1) rest)
          ∙ chained (value_depth fuel (depth + 1) rest) (λ l. skip_list fuel depth l)
              (λ p. list_from fuel depth p.1 >>= λ q. ok (cons p.0 q.0, q.1))
              (λ p.
                list_skips fuel depth p.1 ∙ rebuilt (list_from fuel depth p.1) (λ l. cons p.0 l)))

  dict_skips :
      (fuel depth : ℕ) (m : Entries) (rest : Bytes)
      → skip_dict fuel depth (keys_of m) rest ≡ behind_it (dict_from fuel depth m rest)
  dict_skips zero depth m rest = refl
  dict_skips (suc fuel) depth m rest =
      on_key-behind_it (kind rest) (λ r. m) _ _
        (each (byte_string rest) _ _ (λ key.
          ap
            (λ r. r >>= λ l.
              new_key (insert_key key.0 (keys_of m)) >>= λ keys. skip_dict fuel depth keys l)
            (value_skips fuel (depth + 1) key.1)
          ∙ chained (value_depth fuel (depth + 1) key.1)
              (λ l. new_key (insert_key key.0 (keys_of m)) >>= λ keys. skip_dict fuel depth keys l)
              (λ val. inserted (insert key.0 val.0 m) >>= λ m'. dict_from fuel depth m' val.1)
              (λ val.
                ap (λ o. new_key o >>= λ keys. skip_dict fuel depth keys val.1)
                  (insert_key-keys_of key.0 val.0 m)
                ∙ keyed (insert key.0 val.0 m) (λ keys. skip_dict fuel depth keys val.1)
                    (λ m'. dict_from fuel depth m' val.1) (λ m'. dict_skips fuel depth m' val.1))))

-- `skip_value` accepts exactly what `value_depth` does, at each depth and with each fuel, fails with
-- the same error, and stops at the same byte.
pub skip_value-value_depth :
    (fuel depth : ℕ) (rest : Bytes)
    → skip_value fuel depth rest ≡ behind_it (value_depth fuel depth rest)
skip_value-value_depth fuel depth rest = value_skips fuel depth rest
