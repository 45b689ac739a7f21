-- ===== src/Server/Cbor/RoundTrip.antt =====
-- The decoder on what the encoder writes.
use mathlib.Core.List.{append_assoc, append-nil}
use Prim.Native.Char.{code}
use vault_keep.Base.{
  ◌≢◌, ℕ, zero, suc, ◌+◌, ◌/◌, ◌%◌, ◌^◌, ◌<◌, some, Bool, false, if◌then◌else◌, ◌==◌, List, [],
  ◌++◌, ◌≡◌, ◌∙◌, ap, sym, refl, arith, ==_self, length, drop, take, String, ok, ok_inj,
  length-append, length-drop, take-append, drop-append,
}
use vault_keep.Base.Int.{ℤ, pos, negsuc}
use vault_keep.Server.Cbor.{
  CborKey, number_key, nan_key, text_key, CborValue, number, nan, undefined, text, bytes, array,
  map, CborItems, no_items, item, CborEntries, no_entries, entry, set_entry, Run, returned, thrown,
  and_then, run_of, Position, Length, known, key_of, decode_items, decode_entries, decode_major,
  decode_item, decode_cbor, is_past, is_end, write_head, count_items, count_entries, write_both,
  encode_number, encode_text, encode_key, encode_item, encode_items, encode_entries, encode_cbor,
  read_length, bits_at, slice,
}
use vault_keep.Server.Cbor.Head.{Reads, write_head_nonempty, write_head-Reads, drop-add}
use vault_keep.Server.Cbor.Entries.{
  is_small, push_entry, append_entries, Distinct, append-push_entry, append_nil, set_entry-new,
  write_both-ok, not_past,
}

-- The text does not begin with a byte order mark, which `TextDecoder` drops.
abbrev pub NoMark : String → Type 0
NoMark String.[] = Unit
NoMark (String.◌∷◌ c s) = code c ≢ 65279

module _ (to_utf8 : String → List ℕ) (from_utf8 : List ℕ → String) where
  -- Numbers and lengths fit 32 bits, keys are distinct, no text begins with a byte order mark, and there is
  -- no NaN and no `undefined`.
  abbrev pub IsPlainKey : CborKey → Type 0
  IsPlainKey (number_key z) = is_small z < 2 ^ 32
  IsPlainKey nan_key = ⊥
  IsPlainKey (text_key s) = (length (to_utf8 s) < 2 ^ 32) × NoMark s

  abbrev mutual
    pub IsPlain : CborValue → Type 0
    IsPlain (number z) = is_small z < 2 ^ 32
    IsPlain nan = ⊥
    IsPlain undefined = ⊥
    IsPlain (text s) = (length (to_utf8 s) < 2 ^ 32) × NoMark s
    IsPlain (bytes bs) = length bs < 2 ^ 32
    IsPlain (array vs) = (count_items vs < 2 ^ 32) × IsPlainItems vs
    IsPlain (map es) = (count_entries es < 2 ^ 32) × Distinct no_entries es × IsPlainEntries es

    pub IsPlainItems : CborItems → Type 0
    IsPlainItems no_items = Unit
    IsPlainItems (item v vs) = IsPlain v × IsPlainItems vs

    pub IsPlainEntries : CborEntries → Type 0
    IsPlainEntries no_entries = Unit
    IsPlainEntries (entry k v es) = IsPlainKey k × IsPlain v × IsPlainEntries es

  -- The head is read, and the rest of the work is `decode_major`'s.
  after_head :
      (fuel : ℕ) (buf : List ℕ) (a major n size : ℕ)
      → Reads buf a major n size
      → decode_item from_utf8 (suc fuel) buf (some a)
        ≡ decode_major from_utf8 buf
            (decode_item from_utf8 fuel buf)
            major
            (known n)
            (some (a + size))
  unfolding decode_item
  after_head fuel buf a major n size (inside, top, len) =
      let decode = decode_item from_utf8 fuel buf in
      let initial = bits_at buf (some a) in
      let rest =
        λ (p : Length × Position). decode_major from_utf8 buf decode (initial / 32) p.0 p.1 in
      ap
        (λ b.
          if b
          then thrown "cbor: truncated"
          else and_then (run_of (read_length buf (some (a + 1)) (initial % 32))) rest)
        inside
      ∙ ap (λ r. and_then (run_of r) rest) len
      ∙ ap (λ m. decode_major from_utf8 buf decode m (known n) (some (a + size))) top

  -- The bytes after a head.
  module _ (buf head bs rest : List ℕ) (a : ℕ) (h : drop a buf ≡ head ++ (bs ++ rest))
      (some_head : 0 < length head) where
    at_body : drop (a + length head) buf ≡ bs ++ rest
    at_body =
        drop-add buf a (length head) ∙ ap (drop (length head)) h ∙ drop-append head (bs ++ rest)

    body_fits : is_past buf (some (a + length head + length bs)) ≡ false
    body_fits =
        let sizes =
          sym (length-drop a buf)
          ∙ ap length h
          ∙ length-append head (bs ++ rest)
          ∙ ap (λ n. length head + n) (length-append bs rest) in
        not_past (length buf) (a + length head + length bs) (omega arith)

    slice_body : slice buf (some (a + length head)) (some (a + length head + length bs)) ≡ bs
    slice_body =
        ap (λ n. take n (drop (a + length head) buf)) (omega arith)
        ∙ ap (take (length bs)) at_body
        ∙ take-append bs rest

  -- The bytes of a value are at `a`, and what follows them.
  abbrev Stands : List ℕ → ℕ → List ℕ → List ℕ → Type 0
  Stands buf a bs rest = drop a buf ≡ bs ++ rest

  -- What `decode_item` gives for a head, with the bytes `body` after it.
  item_head :
      (fuel : ℕ) (buf : List ℕ) (a major n : ℕ) (body rest : List ℕ)
      → n < 2 ^ 32
      → Stands buf a (write_head major n ++ body) rest
      → decode_item from_utf8 (suc fuel) buf (some a)
        ≡ decode_major from_utf8 buf
            (decode_item from_utf8 fuel buf)
            major
            (known n)
            (some (a + length (write_head major n)))
  item_head fuel buf a major n body rest hn h =
      after_head fuel buf a major n (length (write_head major n)) (
        write_head-Reads buf (body ++ rest) a major n hn
          (h ∙ append_assoc (write_head major n) body rest))

  -- A byte or text string.
  string_item :
      (fuel : ℕ) (buf : List ℕ) (a major : ℕ) (bs rest : List ℕ)
      → length bs < 2 ^ 32
      → Stands buf a (write_head major (length bs) ++ bs) rest
      → (is_past buf (some (a + length (write_head major (length bs)) + length bs)) ≡ false)
        × (slice buf
              (some (a + length (write_head major (length bs))))
              (some (a + length (write_head major (length bs)) + length bs))
            ≡ bs)
  string_item fuel buf a major bs rest hn h =
      let head = write_head major (length bs) in
      let h' = h ∙ append_assoc head bs rest in
      (
        body_fits buf head bs rest a h' (write_head_nonempty major (length bs)),
        slice_body buf head bs rest a h' (write_head_nonempty major (length bs)),
      )

  abbrev at_place : CborValue → ℕ → Run (CborValue × Position)
  at_place v p = returned (v, some p)

  -- A string that is not past the end is returned.
  found :
      (f : List ℕ → CborValue) (e : String) (b : Bool) (xs : List ℕ) {ys : List ℕ} (p : ℕ)
      → b ≡ false
      → xs ≡ ys
      → (if b then thrown e else at_place (f xs) p) ≡ at_place (f ys) p
  found f e b xs p hb hx =
      ap (λ c. if c then thrown e else at_place (f xs) p) hb ∙ ap (λ z. at_place (f z) p) hx

  -- The position after two pieces.
  after_both : (a : ℕ) (xs ys : List ℕ) → a + length xs + length ys ≡ a + length (xs ++ ys)
  after_both a xs ys = omega (arith, length-append xs ys)

  decode_number :
      (z : ℤ)
      → is_small z < 2 ^ 32
      → (fuel : ℕ) (buf : List ℕ) (a : ℕ) (rest : List ℕ) → 0 < fuel
      → Stands buf a (encode_number to_utf8 z) rest
      → decode_item from_utf8 fuel buf (some a)
        ≡ returned (number z, some (a + length (encode_number to_utf8 z)))
  unfolding encode_number decode_major
  decode_number z hz zero buf a rest hf h = absurd (omega arith)
  decode_number (pos n) hz (suc fuel) buf a rest hf h =
      after_head fuel buf a 0 n (length (write_head 0 n)) (write_head-Reads buf rest a 0 n hz h)
  decode_number (negsuc n) hz (suc fuel) buf a rest hf h =
      after_head fuel buf a 1 n (length (write_head 1 n)) (write_head-Reads buf rest a 1 n hz h)

  decode_text :
      (s : String)
      → from_utf8 (to_utf8 s) ≡ s
      → length (to_utf8 s) < 2 ^ 32
      → (fuel : ℕ) (buf : List ℕ) (a : ℕ) (rest : List ℕ) → 0 < fuel
      → Stands buf a (encode_text to_utf8 s) rest
      → decode_item from_utf8 fuel buf (some a)
        ≡ returned (text s, some (a + length (encode_text to_utf8 s)))
  unfolding encode_text decode_major
  decode_text s utf8 hs zero buf a rest hf h = absurd (omega arith)
  decode_text s utf8 hs (suc fuel) buf a rest hf h =
      let bs = to_utf8 s in
      let (fits, same) = string_item fuel buf a 3 bs rest hs h in
      item_head fuel buf a 3 (length bs) bs rest hs h
      ∙ found (λ x. text (from_utf8 x)) "cbor: truncated text" _ _
          (a + length (write_head 3 (length bs)) + length bs) fits same
      ∙ ap (λ x. at_place (text x) (a + length (write_head 3 (length bs)) + length bs)) utf8
      ∙ ap (at_place (text s)) (after_both a (write_head 3 (length bs)) bs)

  -- The decoder reads every plain value whose bytes are fewer than `n`.
  abbrev ReadsPlain : ℕ → List ℕ → (Position → Run (CborValue × Position)) → Type 0
  ReadsPlain n buf decode =
      (v : CborValue) (bs : List ℕ)
      → IsPlain v
      → encode_item to_utf8 v ≡ ok bs
      → (a : ℕ) (rest : List ℕ) → length bs < n
      → Stands buf a bs rest
      → decode (some a) ≡ at_place v (a + length bs)

  -- What stands at `a`, when it is two pieces, and when the first is read.
  first_piece :
      (buf xs ys rest : List ℕ) {zs : List ℕ} (a : ℕ)
      → zs ≡ xs ++ ys
      → Stands buf a zs rest
      → Stands buf a xs (ys ++ rest) × Stands buf (a + length xs) ys rest
  first_piece buf xs ys rest a z h =
      let whole = h ∙ ap (λ l. l ++ rest) z ∙ append_assoc xs ys rest in
      (
        whole,
        drop-add buf a (length xs) ∙ ap (drop (length xs)) whole ∙ drop-append xs (ys ++ rest),
      )

  length_pieces : (xs ys : List ℕ) {zs : List ℕ} → zs ≡ xs ++ ys → length zs ≡ length xs + length ys
  length_pieces xs ys z = ap length z ∙ length-append xs ys

  -- A key as the value that its bytes stand for.
  value_of_key :
      (k : CborKey) {bs : List ℕ}
      → IsPlainKey k
      → encode_key to_utf8 k ≡ ok bs
      → (v : CborValue) × IsPlain v × (encode_item to_utf8 v ≡ ok bs) × (key_of v ≡ ok k)
  unfolding encode_key encode_item
  value_of_key (number_key z) hk e = (number z, hk, e, refl)
  value_of_key nan_key hk e = absurd hk
  value_of_key (text_key s) hk e = (text s, hk, e, refl)

  abbrev items_at : CborItems → ℕ → Run (CborItems × Position)
  items_at vs p = returned (vs, some p)

  abbrev entries_at : CborEntries → ℕ → Run (CborEntries × Position)
  entries_at es p = returned (es, some p)

  length-nothing : {bs : List ℕ} (a : ℕ) → ok [] ≡ ok bs → a ≡ a + length bs
  length-nothing a e = let size = ap length (ok_inj e) in omega arith

  module _ (n : ℕ) (buf : List ℕ) (decode : Position → Run (CborValue × Position))
      (reads : ReadsPlain n buf decode) where
    items-ReadsPlain :
        (vs : CborItems) {bs : List ℕ}
        → IsPlainItems vs
        → encode_items to_utf8 vs ≡ ok bs
        → (a : ℕ) (rest : List ℕ) → length bs < n
        → Stands buf a bs rest
        → decode_items decode (count_items vs) (some a) ≡ items_at vs (a + length bs)
    unfolding encode_items decode_items
    items-ReadsPlain no_items hv e a rest hn h = ap (items_at no_items) (length-nothing a e)
    items-ReadsPlain (item v vs) (hv, hvs) e a rest hn h =
        let (xs, ys, ex, ey, z) =
          write_both-ok (encode_item to_utf8 v) (encode_items to_utf8 vs) e in
        let (hx, hy) = first_piece buf xs ys rest a z h in
        let size = length_pieces xs ys z in
        let fx = reads v xs hv ex a (ys ++ rest) (omega arith) hx in
        let fy = items-ReadsPlain vs hvs ey (a + length xs) rest (omega arith) hy in
        ap
          (λ r. and_then r λ (w, next).
            and_then (decode_items decode (count_items vs) next)
              λ (ws, last). returned (item w ws, last))
          fx
        ∙ ap (λ r. and_then r λ (ws, last). returned (item v ws, last)) fy
        ∙ ap (items_at (item v vs)) (omega arith)

    entries-ReadsPlain :
        (es : CborEntries) {bs : List ℕ} (before : CborEntries)
        → Distinct before es
        → IsPlainEntries es
        → encode_entries to_utf8 es ≡ ok bs
        → (a : ℕ) (rest : List ℕ) → length bs < n
        → Stands buf a bs rest
        → decode_entries decode (count_entries es) before (some a)
          ≡ entries_at (append_entries before es) (a + length bs)
    unfolding encode_entries decode_entries
    entries-ReadsPlain no_entries before d hes e a rest hn h =
        ap (λ ds. entries_at ds a) (sym (append_nil before))
        ∙ ap (entries_at (append_entries before no_entries)) (length-nothing a e)
    entries-ReadsPlain (entry k v es) before (new, d) (hk, hv, hes) e a rest hn h =
        let (xs, ws, ex, ew, z) =
          write_both-ok (encode_key to_utf8 k)
            (write_both (encode_item to_utf8 v) (encode_entries to_utf8 es)) e in
        let (ys, zs, ey, ez, w) =
          write_both-ok (encode_item to_utf8 v) (encode_entries to_utf8 es) ew in
        let (u, hu, eu, is_key) = value_of_key k hk ex in
        let (hx, hw) = first_piece buf xs ws rest a z h in
        let (hy, hz) = first_piece buf ys zs rest (a + length xs) w hw in
        let size = length_pieces xs ws z in
        let size' = length_pieces ys zs w in
        let fx = reads u xs hu eu a (ws ++ rest) (omega arith) hx in
        let fy = reads v ys hv ey (a + length xs) (zs ++ rest) (omega arith) hy in
        let fz =
          entries-ReadsPlain es (push_entry before k v) d hes ez (a + length xs + length ys) rest
            (omega arith) hz in
        let after_value = λ (key : CborKey) (p : CborValue × Position).
          decode_entries decode (count_entries es) (set_entry key p.0 before) p.1 in
        let after_key =
          λ (next : Position) (key : CborKey). and_then (decode next) (after_value key) in
        ap (λ r. and_then r λ (x, next). and_then (run_of (key_of x)) (after_key next)) fx
        ∙ ap (λ r. and_then (run_of r) (after_key (some (a + length xs)))) is_key
        ∙ ap (λ r. and_then r (after_value k)) fy
        ∙ ap (λ ds. decode_entries decode (count_entries es) ds (some (a + length xs + length ys)))
            (set_entry-new k v before new)
        ∙ fz
        ∙ ap (λ ds. entries_at ds (a + length xs + length ys + length zs))
            (append-push_entry before k v es)
        ∙ ap (entries_at (append_entries before (entry k v es))) (omega arith)

  module _ (utf8 : (s : String) → NoMark s → from_utf8 (to_utf8 s) ≡ s) (buf : List ℕ) where
    item-ReadsPlain : (fuel : ℕ) → ReadsPlain fuel buf (decode_item from_utf8 fuel buf)
    unfolding encode_item decode_major
    item-ReadsPlain zero v bs hv e a rest hf h = absurd (omega arith)
    item-ReadsPlain (suc fuel) (number z) bs hv e a rest hf h =
        let same = ok_inj e in
        decode_number z hv (suc fuel) buf a rest (omega arith) (h ∙ ap (λ x. x ++ rest) (sym same))
        ∙ ap (λ x. at_place (number z) (a + length x)) same
    item-ReadsPlain (suc fuel) nan bs hv e a rest hf h = absurd hv
    item-ReadsPlain (suc fuel) undefined bs hv e a rest hf h = absurd hv
    item-ReadsPlain (suc fuel) (text s) bs hv e a rest hf h =
        let same = ok_inj e in
        decode_text s (utf8 s hv.1) hv.0 (suc fuel) buf a rest (omega arith)
          (h ∙ ap (λ x. x ++ rest) (sym same))
        ∙ ap (λ x. at_place (text s) (a + length x)) same
    item-ReadsPlain (suc fuel) (bytes xs) bs hv e a rest hf h =
        let same = ok_inj e in
        let h' = h ∙ ap (λ x. x ++ rest) (sym same) in
        let (fits, found_bytes) = string_item fuel buf a 2 xs rest hv h' in
        item_head fuel buf a 2 (length xs) xs rest hv h'
        ∙ found bytes "cbor: truncated bytes" _ _
            (a + length (write_head 2 (length xs)) + length xs) fits found_bytes
        ∙ ap (at_place (bytes xs)) (after_both a (write_head 2 (length xs)) xs)
        ∙ ap (λ x. at_place (bytes xs) (a + length x)) same
    item-ReadsPlain (suc fuel) (array vs) bs (hn, hvs) e a rest hf h =
        let (xs, ys, ex, ey, z) =
          write_both-ok (ok (write_head 4 (count_items vs))) (encode_items to_utf8 vs) e in
        let (hx, hy) =
          first_piece buf (write_head 4 (count_items vs)) ys rest a
            (z ∙ ap (λ x. x ++ ys) (sym (ok_inj ex))) h in
        let size =
          length_pieces (write_head 4 (count_items vs)) ys
            (z ∙ ap (λ x. x ++ ys) (sym (ok_inj ex))) in
        let some_head = write_head_nonempty 4 (count_items vs) in
        let body =
          items-ReadsPlain fuel buf (decode_item from_utf8 fuel buf) (item-ReadsPlain fuel) vs hvs
            ey (a + length (write_head 4 (count_items vs))) rest (omega arith) hy in
        after_head fuel buf a 4 (count_items vs) (length (write_head 4 (count_items vs)))
          (write_head-Reads buf (ys ++ rest) a 4 (count_items vs) hn hx)
        ∙ ap (λ r. and_then r λ (ws, last). returned (array ws, last)) body
        ∙ ap (at_place (array vs)) (omega arith)
    item-ReadsPlain (suc fuel) (map es) bs (hn, d, hes) e a rest hf h =
        let (xs, ys, ex, ey, z) =
          write_both-ok (ok (write_head 5 (count_entries es))) (encode_entries to_utf8 es) e in
        let (hx, hy) =
          first_piece buf (write_head 5 (count_entries es)) ys rest a
            (z ∙ ap (λ x. x ++ ys) (sym (ok_inj ex))) h in
        let size =
          length_pieces (write_head 5 (count_entries es)) ys
            (z ∙ ap (λ x. x ++ ys) (sym (ok_inj ex))) in
        let some_head = write_head_nonempty 5 (count_entries es) in
        let body =
          entries-ReadsPlain fuel buf (decode_item from_utf8 fuel buf) (item-ReadsPlain fuel) es
            no_entries d hes ey (a + length (write_head 5 (count_entries es))) rest (omega arith)
            hy in
        after_head fuel buf a 5 (count_entries es) (length (write_head 5 (count_entries es)))
          (write_head-Reads buf (ys ++ rest) a 5 (count_entries es) hn hx)
        ∙ ap (λ r. and_then r λ (ws, last). returned (map ws, last)) body
        ∙ ap (at_place (map es)) (omega arith)

  -- A value whose numbers and lengths are below 2^32, whose maps have no key twice, whose texts do not begin
  -- with a byte order mark, and which has no NaN and no `undefined` in it: what the encoder writes for it, the
  -- decoder reads back, with nothing left over, when UTF-8 decoding undoes the encoding of such texts.
  pub decode-encode_cbor :
      ((s : String) → NoMark s → from_utf8 (to_utf8 s) ≡ s)
      → (v : CborValue) (bs : List ℕ) → IsPlain v
      → encode_cbor to_utf8 v ≡ ok bs
      → decode_cbor from_utf8 bs ≡ returned v
  unfolding encode_cbor decode_cbor
  decode-encode_cbor utf8 v bs hv e =
      ap
        (λ r.
          and_then r λ (w, end).
            if is_end from_utf8 bs end then returned w else thrown "cbor: trailing bytes")
        (item-ReadsPlain utf8 bs (length bs + 1) v bs hv e 0 [] (omega arith) (sym (append-nil bs)))
      ∙ ap (λ n. if n == length bs then returned v else thrown "cbor: trailing bytes") (omega arith)
      ∙ ap (λ b. if b then returned v else thrown "cbor: trailing bytes") (==_self (length bs))
