-- ===== src/Block/Index.antt =====
-- internal/block/index.go: the `.idx` file of a Block. A Go string is the list of its bytes, and
-- the creation time of an entry its microseconds, which is what is stored. What a decoder has left
-- of its input stands for the offset that the code keeps.
pub mod Entry
pub mod Read
pub mod Repair
mod Examples
use scrap.Common.{
  ℕ, zero, suc, ◌+◌, ◌-◌, ◌%◌, ◌^◌, Bool, true, false, not, ◌&&◌, ◌||◌, Option, none, some, List,
  [], ◌∷◌, ◌++◌, ltb, ◌==◌, if◌then◌else◌, length, take, drop,
}
use scrap.Common.Int.{ℤ, pos, negsuc}
use scrap.Common.Bytes.{put_le, get_le, slice, byte_at, same_bytes}
use scrap.Common.Result.{Result, ok, err, either, ◌>>=◌, ◌>>◌, fail_if}
use scrap.Block.Frame.{FrameError, read_full}

abbrev pub idx_header_len : ℕ
idx_header_len = 12

abbrev pub idx_min_entry_len : ℕ
idx_min_entry_len = 2

abbrev pub idx_fixed_field_size : ℕ
idx_fixed_field_size = 60

abbrev pub idx_max_entry_len : ℕ
idx_max_entry_len = 131072

-- `unexpected_eof` and `read_eof` wrap `io.ErrUnexpectedEOF` and `io.EOF`; every error but
-- `field_too_long` wraps `ErrIdxCorrupt`.
pub data IndexError : Type 0 where
  unexpected_eof : IndexError
  read_eof : IndexError
  bad_magic : IndexError
  header_crc : IndexError
  oversized : IndexError
  entry_crc : IndexError
  too_short : IndexError
  unknown_version : IndexError
  missing_prefix : IndexError
  truncated_string : IndexError
  truncated_fields : IndexError
  trailing_bytes : IndexError
  field_too_long : IndexError
  out_of_fuel : IndexError

pub record IndexEntry : Type 0 where
  pub transaction_id : List ℕ
  pub doc_name : List ℕ
  pub content_type : List ℕ
  pub created_at_us : ℤ
  pub first_frame_off : ℤ
  pub frame_count : ℕ
  pub total_bytes : ℤ
  pub sha256 : List ℕ
  pub encryption_envelope : List ℕ

-- `uint64` of an `int64`, and back.
unfoldable pub to_uint64 : ℤ → ℕ
to_uint64 (pos n) = n % 2 ^ 64
to_uint64 (negsuc n) = 2 ^ 64 - 1 - n % 2 ^ 64

unfoldable pub to_int64 : ℕ → ℤ
to_int64 n = if ltb n (2 ^ 63) then pos n else negsuc (2 ^ 64 - 1 - n)

abbrev pub len_prefixed : List ℕ → List ℕ
len_prefixed bytes = put_le 2 (length bytes % 2 ^ 16) ++ bytes

unfoldable pub read_len_prefixed : List ℕ → Result IndexError (List ℕ × List ℕ)
read_len_prefixed bytes =
    if ltb (length bytes) 2
    then err missing_prefix
    else let n = get_le (slice 0 2 bytes) in
      if ltb (length bytes) (2 + n)
      then err truncated_string
      else ok (slice 2 n bytes, drop (2 + n) bytes)

unfoldable pub validate_entry_field_lens : IndexEntry → Result IndexError (Unit {0})
validate_entry_field_lens e = do
  fail_if (ltb 65535 (length e.transaction_id)) field_too_long
  fail_if (ltb 65535 (length e.doc_name)) field_too_long
  fail_if (ltb 65535 (length e.content_type)) field_too_long
  fail_if (ltb 65535 (length e.encryption_envelope)) field_too_long

abbrev pub fixed_fields : IndexEntry → List ℕ
fixed_fields e =
    put_le 8 (to_uint64 e.created_at_us)
    ++ put_le 8 (to_uint64 e.first_frame_off)
    ++ put_le 4 e.frame_count
    ++ put_le 8 (to_uint64 e.total_bytes)
    ++ e.sha256

abbrev pub entry_version : List ℕ → ℕ
entry_version [] = 1
entry_version (b ∷ bs) = 2

abbrev pub envelope_bytes : List ℕ → List ℕ
envelope_bytes [] = []
envelope_bytes (b ∷ bs) = len_prefixed (b ∷ bs)

unfoldable pub encode_index_entry : IndexEntry → List ℕ
encode_index_entry e =
    entry_version e.encryption_envelope
    ∷ 0
    ∷ (len_prefixed e.transaction_id
        ++ (len_prefixed e.doc_name
            ++ (len_prefixed e.content_type
                ++ (fixed_fields e ++ envelope_bytes e.encryption_envelope))))

abbrev pub is_version : ℕ → Bool
is_version version = version == 1 || version == 2

abbrev pub decode_envelope : ℕ → List ℕ → Result IndexError (List ℕ × List ℕ)
decode_envelope version rest = if not (version == 2) then ok ([], rest) else read_len_prefixed rest

unfoldable pub decode_index_entry : List ℕ → Result IndexError IndexEntry
decode_index_entry bytes = do
  fail_if (ltb (length bytes) idx_min_entry_len) too_short
  fail_if (not (is_version (byte_at 0 bytes))) unknown_version
  (transaction_id, rest) ← read_len_prefixed (drop 2 bytes)
  (doc_name, rest) ← read_len_prefixed rest
  (content_type, rest) ← read_len_prefixed rest
  fail_if (ltb (length rest) idx_fixed_field_size) truncated_fields
  (envelope, last) ← decode_envelope (byte_at 0 bytes) (drop idx_fixed_field_size rest)
  fail_if (not (length last == 0)) trailing_bytes
  ok (record {
    transaction_id = transaction_id;
    doc_name = doc_name;
    content_type = content_type;
    created_at_us = to_int64 (get_le (slice 0 8 rest));
    first_frame_off = to_int64 (get_le (slice 8 8 rest));
    frame_count = get_le (slice 16 4 rest);
    total_bytes = to_int64 (get_le (slice 20 8 rest));
    sha256 = slice 28 32 rest;
    encryption_envelope = envelope;
  })

-- The error of an `io.ReadFull` of which the callers only keep what it wraps.
abbrev pub read_error : FrameError → IndexError
read_error FrameError.eof = read_eof
read_error _ = unexpected_eof

abbrev pub read_exactly : ℕ → List ℕ → Result IndexError (List ℕ × List ℕ)
read_exactly n input = either (read_full n input) (λ e. err (read_error e)) ok

-- A reader at its end, or an entry and what is left.
pub data Next : Type 0 where
  at_end : Next
  entry : IndexEntry → List ℕ → Next

-- `truncateIncompleteIndexTail`: only a read that ends within its bytes is a torn tail.
abbrev pub torn : List ℕ → ℕ → IndexError → Result IndexError (List ℕ)
torn file valid_end unexpected_eof = ok (take valid_end file)
torn file valid_end e = err e

abbrev pub classify_oversized_entry_len : ℕ → List ℕ → IndexError
classify_oversized_entry_len len rest =
    if ltb (length rest) (len + 4) then unexpected_eof else oversized

abbrev no_length : FrameError → Result IndexError Next
no_length FrameError.eof = ok at_end
no_length _ = err unexpected_eof

module _ (crc : List ℕ → ℕ) where
  -- The bytes of the three writes of `IndexWriter.Append`.
  abbrev pub entry_bytes : IndexEntry → List ℕ
  entry_bytes e =
      put_le 4 (length (encode_index_entry e))
      ++ (encode_index_entry e ++ put_le 4 (crc (encode_index_entry e)))

  unfoldable pub append : List ℕ → IndexEntry → Result IndexError (List ℕ)
  append file e = do validate_entry_field_lens e; ok (file ++ entry_bytes e)

  abbrev pub header_fields : List ℕ
  header_fields = 83 ∷ 73 ∷ 68 ∷ 88 ∷ (put_le 2 1 ++ put_le 2 idx_header_len)

  -- `NewIndexWriter`
  unfoldable pub new_index : List ℕ
  new_index = header_fields ++ put_le 4 (crc header_fields)

  abbrev pub is_magic : List ℕ → Bool
  is_magic hdr =
      byte_at 0 hdr == 83 && (byte_at 1 hdr == 73 && (byte_at 2 hdr == 68 && byte_at 3 hdr == 88))

  unfoldable pub validate_index_header : List ℕ → Result IndexError (List ℕ)
  validate_index_header file = do
    (hdr, rest) ← read_exactly idx_header_len file
    fail_if (not (is_magic hdr)) bad_magic
    fail_if (not (crc (slice 0 8 hdr) == get_le (slice 8 4 hdr))) header_crc
    ok rest

  -- From the length prefix on.
  unfoldable pub read_entry : ℕ → List ℕ → Result IndexError Next
  read_entry len rest =
      if ltb idx_max_entry_len len then err (classify_oversized_entry_len len rest) else do
        (payload, rest) ← read_exactly len rest
        (crc_buf, rest) ← read_exactly 4 rest
        fail_if (not (crc payload == get_le crc_buf)) entry_crc
        e ← decode_index_entry payload
        ok (entry e rest)

  unfoldable pub read_next_entry : List ℕ → Result IndexError Next
  read_next_entry input =
      either (read_full 4 input) no_length (λ (len_buf, rest). read_entry (get_le len_buf) rest)

  -- The loop of `readIndexEntries`; each round reads at least a length prefix.
  unfoldable pub entries_loop : ℕ → List ℕ → Result IndexError (List IndexEntry)
  entries_loop zero input = err out_of_fuel
  entries_loop (suc fuel) input = read_next_entry input >>= (λ next. elim next [
    | at_end ↦ ok []
    | entry e rest ↦ entries_loop fuel rest >>= (λ es. ok (e ∷ es))
  ])

  unfoldable pub read_index_entries : List ℕ → Result IndexError (List IndexEntry)
  read_index_entries file = do
    rest ← validate_index_header file
    entries_loop (suc (length rest)) rest

  -- The loop of `repairIndexTail`, which gives the file that it leaves.
  unfoldable pub repair_loop : ℕ → List ℕ → List ℕ → Result IndexError (List ℕ)
  repair_loop zero file input = err out_of_fuel
  repair_loop (suc fuel) file input =
      either (read_next_entry input) (torn file (length file - length input))
        (λ next. elim next [ at_end ↦ ok file | entry e rest ↦ repair_loop fuel file rest ])

  unfoldable pub repair_index_tail : List ℕ → Result IndexError (List ℕ)
  repair_index_tail file = do
    rest ← validate_index_header file
    repair_loop (suc (length rest)) file rest

-- `IndexReader.Find` in the entries that a reader holds, where none is `ErrDocNotFound`.
unfoldable pub find : List ℕ → List ℕ → List IndexEntry → Option IndexEntry
find tx_id doc_name [] = none
find tx_id doc_name (e ∷ entries) =
    if same_bytes e.transaction_id tx_id && same_bytes e.doc_name doc_name
    then some e
    else find tx_id doc_name entries

-- `IndexReader.FindByTransaction`
unfoldable pub find_by_transaction : List ℕ → List IndexEntry → List IndexEntry
find_by_transaction tx_id [] = []
find_by_transaction tx_id (e ∷ entries) =
    let rest = find_by_transaction tx_id entries in
    if same_bytes e.transaction_id tx_id then e ∷ rest else rest
