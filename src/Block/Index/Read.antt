-- ===== src/Block/Index/Read.antt =====
-- internal/block/index.go: the reads of whole entries and of entries that were cut short.
use mathlib.Core.Path.{subst}
use scrap.Common.{
  ℕ, ◌^◌, ◌≤◌, ◌<◌, ◌≡◌, refl, ap, arith, Bool, true, false, List, [], ◌∷◌, ◌++◌, ltb, ◌==◌,
  ==_refl, if◌then◌else◌, length, length-append, append_assoc,
}
use scrap.Common.Bytes.{put_le, get_le-put_le}
use scrap.Common.Result.{Result, ok, err, either, ◌>>=◌}
use scrap.Block.Frame.{eof, truncated, read_full}
use scrap.Block.Frame.RoundTrip.{read_full-append}
use scrap.Block.Index.{
  IndexError, unexpected_eof, read_eof, IndexEntry, entry, encode_index_entry, entry_bytes,
  read_entry, read_next_entry, idx_max_entry_len, read_error,
}
use scrap.Block.Index.Entry.{IsEntry, decode_index_entry-encode}

read_full-short :
    (n : ℕ) (xs : List ℕ)
    → length xs < n
    → read_full n xs ≡ (if length xs == 0 then err eof else err truncated)
unfolding read_full
read_full-short n xs h = let short : ltb (length xs) n ≡ true = ground arith in rw short

-- An entry that can be stored and is not over the limit of a reader.
pub record IsStored (e : IndexEntry) : Type 0 where
  pub valid : IsEntry e
  pub small : length (encode_index_entry e) ≤ idx_max_entry_len

-- The error of a reader that finds no byte within an entry, or some.
abbrev pub cut_error : Bool → IndexError
cut_error none_left = if none_left then read_eof else unexpected_eof

cut_read :
    {B : Type 0} (none_left : Bool) (f : List ℕ × List ℕ → Result IndexError B)
    → (either (if none_left then err eof else err truncated) (λ e. err (read_error e)) ok >>= f)
      ≡ err (cut_error none_left)
cut_read true f = refl
cut_read false f = refl

module _ (crc : List ℕ → ℕ) (bound : (xs : List ℕ) → crc xs < 2 ^ 32) where
  abbrev pub entries_bytes : List IndexEntry → List ℕ
  entries_bytes [] = []
  entries_bytes (e ∷ es) = entry_bytes crc e ++ entries_bytes es

  pub read_next_entry-append :
      (e : IndexEntry) (rest : List ℕ)
      → IsStored e
      → read_next_entry crc (entry_bytes crc e ++ rest) ≡ ok (entry e rest)
  unfolding read_next_entry read_entry
  read_next_entry-append e rest h =
      let payload = encode_index_entry e in
      let len = put_le 4 (length payload) in
      let sum = put_le 4 (crc payload) in
      let fits : ltb idx_max_entry_len (length payload) ≡ false = ground (arith, h.small) in
      let short : length payload < 256 ^ 4 = omega (arith, h.small) in
      let assoc : (payload ++ sum) ++ rest ≡ payload ++ (sum ++ rest) =
        append_assoc payload sum rest in
      rw (
        assoc,
        read_full-append len (payload ++ (sum ++ rest)),
        get_le-put_le 4 (length payload) short,
        fits,
        read_full-append payload (sum ++ rest),
        read_full-append sum rest,
        get_le-put_le 4 (crc payload) (bound payload),
        ==_refl (crc payload),
        decode_index_entry-encode e h.valid,
      )

  pub read_next_entry-cut_payload :
      (e : IndexEntry) (kept lost : List ℕ)
      → length (encode_index_entry e) ≤ idx_max_entry_len
      → kept ++ lost ≡ encode_index_entry e
      → 0 < length lost
      → read_next_entry crc (put_le 4 (length (encode_index_entry e)) ++ kept)
        ≡ err (cut_error (length kept == 0))
  unfolding read_next_entry read_entry
  read_next_entry-cut_payload e kept lost small whole some_lost =
      let payload = encode_index_entry e in
      let len = put_le 4 (length payload) in
      let fits : ltb idx_max_entry_len (length payload) ≡ false = ground arith in
      let short : length payload < 256 ^ 4 = omega arith in
      let less : length kept < length payload =
        subst (λ xs. length kept < length xs) whole (omega (arith, length-append kept lost)) in
      rw
        (
          read_full-append len kept,
          get_le-put_le 4 (length payload) short,
          fits,
          read_full-short (length payload) kept less,
        )
        (cut_read (length kept == 0) _)

  pub read_next_entry-cut_sum :
      (e : IndexEntry) (kept lost : List ℕ)
      → length (encode_index_entry e) ≤ idx_max_entry_len
      → kept ++ lost ≡ put_le 4 (crc (encode_index_entry e))
      → 0 < length lost
      → read_next_entry crc
          (put_le 4 (length (encode_index_entry e)) ++ (encode_index_entry e ++ kept))
        ≡ err (cut_error (length kept == 0))
  unfolding read_next_entry read_entry
  read_next_entry-cut_sum e kept lost small whole some_lost =
      let payload = encode_index_entry e in
      let len = put_le 4 (length payload) in
      let fits : ltb idx_max_entry_len (length payload) ≡ false = ground arith in
      let short : length payload < 256 ^ 4 = omega arith in
      let less : length kept < 4 = omega (arith, length-append kept lost, ap length whole) in
      rw
        (
          read_full-append len (payload ++ kept),
          get_le-put_le 4 (length payload) short,
          fits,
          read_full-append payload kept,
          read_full-short 4 kept less,
        )
        (cut_read (length kept == 0) _)

  -- A part of the length prefix that is not empty is always taken for a torn tail.
  pub read_next_entry-cut_length :
      (kept : List ℕ)
      → 0 < length kept
      → length kept < 4
      → read_next_entry crc kept ≡ err unexpected_eof
  unfolding read_next_entry
  read_next_entry-cut_length kept some_kept less =
      let left : (length kept == 0) ≡ false = ground arith in rw (read_full-short 4 kept less, left)
