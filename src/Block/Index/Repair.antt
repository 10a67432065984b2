-- ===== src/Block/Index/Repair.antt =====
-- internal/block/index.go: the repair of an index whose last append was cut short.
use scrap.Common.{
  ℕ, suc, ◌+◌, ◌-◌, ◌^◌, ◌≤◌, ◌<◌, ◌≡◌, refl, sym, ap, ◌∙◌, arith, Bool, true, false, List, [], ◌∷◌,
  ◌++◌, ◌==◌, ==_refl, if◌then◌else◌, length, take, take-append, length-append, append_assoc, All,
}
use scrap.Common.Bytes.{put_le, get_le-put_le}
use scrap.Common.Result.{ok, err, ◌>>=◌}
use scrap.Block.Frame.{read_full}
use scrap.Block.Frame.RoundTrip.{read_full-append}
use scrap.Block.Index.{
  read_eof, IndexEntry, encode_index_entry, entry_bytes, read_next_entry, idx_max_entry_len,
  new_index, validate_index_header, torn, repair_loop, repair_index_tail, entries_loop,
  read_index_entries, header_fields,
}
use scrap.Block.Index.Read.{
  IsStored, cut_error, entries_bytes, read_next_entry-append, read_next_entry-cut_payload,
  read_next_entry-cut_sum, read_next_entry-cut_length,
}

-- What a process that was killed in the append of an entry has left of it: no write of the three
-- is whole, or the first is, or the first two are. The test is whether it was killed between two
-- writes.
pub data Cut (crc : List ℕ → ℕ) (e : IndexEntry) : List ℕ → Bool → Type 0 where
  in_length : (kept : List ℕ) → 0 < length kept → length kept < 4 → Cut crc e kept false
  in_payload :
      (kept lost : List ℕ)
      → kept ++ lost ≡ encode_index_entry e
      → 0 < length lost
      → Cut crc e (put_le 4 (length (encode_index_entry e)) ++ kept) (length kept == 0)
  in_sum :
      (kept lost : List ℕ)
      → kept ++ lost ≡ put_le 4 (crc (encode_index_entry e))
      → 0 < length lost
      → Cut crc e
          (put_le 4 (length (encode_index_entry e)) ++ (encode_index_entry e ++ kept))
          (length kept == 0)

abbrev rounds : List IndexEntry → ℕ → ℕ
rounds [] fuel = fuel
rounds (e ∷ es) fuel = suc (rounds es fuel)

rounds-length : (es : List IndexEntry) (fuel : ℕ) → rounds es fuel ≡ length es + fuel
rounds-length [] fuel = omega arith
rounds-length (e ∷ es) fuel = omega (arith, rounds-length es fuel)

module _ (crc : List ℕ → ℕ) (bound : (xs : List ℕ) → crc xs < 2 ^ 32) where
  length-entries_bytes : (es : List IndexEntry) → length es ≤ length (entries_bytes crc bound es)
  length-entries_bytes [] = omega arith
  length-entries_bytes (e ∷ es) =
      let first : 0 < length (entry_bytes crc e) = omega arith in
      omega (
        arith,
        length-entries_bytes es,
        first,
        length-append (entry_bytes crc e) (entries_bytes crc bound es),
      )

  validate_index_header-append :
      (rest : List ℕ) → validate_index_header crc (new_index crc ++ rest) ≡ ok rest
  unfolding validate_index_header new_index
  validate_index_header-append rest =
      let fields = header_fields crc in
      rw (
        read_full-append (fields ++ put_le 4 (crc fields)) rest,
        get_le-put_le 4 (crc fields) (bound fields),
        ==_refl (crc fields),
      )

  repair_entries :
      (es : List IndexEntry) (fuel : ℕ) (file tail : List ℕ)
      → All IsStored es
      → repair_loop crc (rounds es fuel) file (entries_bytes crc bound es ++ tail)
        ≡ repair_loop crc fuel file tail
  unfolding repair_loop
  repair_entries [] fuel file tail h = refl
  repair_entries (e ∷ es) fuel file tail h =
      let rest = entries_bytes crc bound es ++ tail in
      let assoc : (entry_bytes crc e ++ entries_bytes crc bound es) ++ tail
          ≡ entry_bytes crc e ++ rest =
        append_assoc (entry_bytes crc e) (entries_bytes crc bound es) tail in
      ap (λ x. repair_loop crc (suc (rounds es fuel)) file x) assoc
      ∙ rw (read_next_entry-append crc bound e rest h.0) (repair_entries es fuel file tail h.1)

  -- The read of what a cut has left.
  read_next_entry-Cut :
      (e : IndexEntry) (tail : List ℕ) (between : Bool)
      → length (encode_index_entry e) ≤ idx_max_entry_len
      → Cut crc e tail between
      → read_next_entry crc tail ≡ err (cut_error between)
  read_next_entry-Cut e tail between small (in_length kept some_kept less) =
      read_next_entry-cut_length crc bound kept some_kept less
  read_next_entry-Cut e tail between small (in_payload kept lost whole some_lost) =
      read_next_entry-cut_payload crc bound e kept lost small whole some_lost
  read_next_entry-Cut e tail between small (in_sum kept lost whole some_lost) =
      read_next_entry-cut_sum crc bound e kept lost small whole some_lost

  -- The whole file, and the end of its last whole entry.
  torn-take :
      (es : List IndexEntry) (tail : List ℕ)
      → let file = new_index crc ++ (entries_bytes crc bound es ++ tail) in
        take (length file - length tail) file ≡ new_index crc ++ entries_bytes crc bound es
  torn-take es tail =
      let whole = new_index crc ++ entries_bytes crc bound es in
      let file = new_index crc ++ (entries_bytes crc bound es ++ tail) in
      let same : whole ++ tail ≡ file =
        append_assoc (new_index crc) (entries_bytes crc bound es) tail in
      let len : length file - length tail ≡ length whole =
        omega (arith, ap length same, length-append whole tail) in
      ap (λ n. take n file) len ∙ (ap (take (length whole)) (sym same) ∙ take-append whole tail)

  -- The last round, at what the cut has left.
  repair_loop-Cut :
      (es : List IndexEntry) (fuel : ℕ) (e : IndexEntry) (tail : List ℕ) (between : Bool)
      → length (encode_index_entry e) ≤ idx_max_entry_len
      → Cut crc e tail between
      → repair_loop crc (suc fuel) (new_index crc ++ (entries_bytes crc bound es ++ tail)) tail
        ≡ (if between then err read_eof else ok (new_index crc ++ entries_bytes crc bound es))
  unfolding repair_loop
  repair_loop-Cut es fuel e tail between small cut =
      rw (read_next_entry-Cut e tail between small cut) (ends between)
    where
      ends :
          (b : Bool)
          → torn
              (new_index crc ++ (entries_bytes crc bound es ++ tail))
              (length (new_index crc ++ (entries_bytes crc bound es ++ tail)) - length tail)
              (cut_error b)
            ≡ (if b then err read_eof else ok (new_index crc ++ entries_bytes crc bound es))
      ends true = refl
      ends false = ap ok (torn-take es tail)

  -- An index with whole entries, after which the process was killed in the append of one more, is
  -- repaired to the whole entries, unless it was killed between two of the three writes of the
  -- append: then the repair fails and changes nothing, since the read of nothing gives `io.EOF`.
  -- Each entry can be stored and is not over the reader's limit.
  pub repair_index_tail-Cut :
      (es : List IndexEntry) (e : IndexEntry) (tail : List ℕ) (between : Bool)
      → All IsStored es
      → length (encode_index_entry e) ≤ idx_max_entry_len
      → Cut crc e tail between
      → repair_index_tail crc (new_index crc ++ (entries_bytes crc bound es ++ tail))
        ≡ (if between then err read_eof else ok (new_index crc ++ entries_bytes crc bound es))
  unfolding repair_index_tail
  repair_index_tail-Cut es e tail between hes small cut =
      let input = entries_bytes crc bound es ++ tail in
      let file = new_index crc ++ input in
      let spare = length input - length es in
      let enough : suc (length input) ≡ rounds es (suc spare) = omega (
        arith,
        rounds-length es (suc spare),
        length-entries_bytes es,
        length-append (entries_bytes crc bound es) tail,
      ) in
      ap (λ r. r >>= (λ rest. repair_loop crc (suc (length rest)) file rest))
        (validate_index_header-append input)
      ∙ (ap (λ n. repair_loop crc n file input) enough
          ∙ (repair_entries es (suc spare) file tail hes
              ∙ repair_loop-Cut es spare e tail between small cut))

  entries_loop-append :
      (es : List IndexEntry) (fuel : ℕ)
      → All IsStored es
      → entries_loop crc (rounds es (suc fuel)) (entries_bytes crc bound es) ≡ ok es
  unfolding entries_loop read_next_entry read_full
  entries_loop-append [] fuel h = refl
  entries_loop-append (e ∷ es) fuel h = rw (
    read_next_entry-append crc bound e (entries_bytes crc bound es) h.0,
    entries_loop-append es fuel h.1,
  )

  -- An index is read as the entries that were appended to it, in their order, each of which can be
  -- stored and is not over the reader's limit.
  pub read_index_entries-append :
      (es : List IndexEntry)
      → All IsStored es
      → read_index_entries crc (new_index crc ++ entries_bytes crc bound es) ≡ ok es
  unfolding read_index_entries
  read_index_entries-append es h =
      let input = entries_bytes crc bound es in
      let spare = length input - length es in
      let enough : suc (length input) ≡ rounds es (suc spare) =
        omega (arith, rounds-length es (suc spare), length-entries_bytes es) in
      rw (validate_index_header-append input, enough) (entries_loop-append es spare h)
