-- ===== src/Index/Entry.antt =====
-- internal/index/index.go: the value that is stored for a transaction.
pub mod RoundTrip
use scrap.Common.{
  ℕ, zero, suc, ◌+◌, ◌*◌, ◌%◌, ◌^◌, Bool, true, false, not, List, [], ◌∷◌, ◌++◌, ltb, ◌==◌,
  if◌then◌else◌, length,
}
use scrap.Common.Bytes.{put_le, get_le, slice, byte_at}
use scrap.Common.Result.{Result, ok, err, ◌>>=◌, ◌>>◌, fail_if}
use scrap.Index.Errors.{IndexError, too_short, unknown_version, length_mismatch}

abbrev pub header_len : ℕ
header_len = 3

abbrev pub trailer_len : ℕ
trailer_len = 3

abbrev pub size_block_id : ℕ
size_block_id = 8

pub record Entry : Type 0 where
  pub block_ids : List ℕ
  pub doc_count : ℕ
  pub completed : Bool

abbrev pub block_id_bytes : List ℕ → List ℕ
block_id_bytes [] = []
block_id_bytes (id ∷ ids) = put_le size_block_id id ++ block_id_bytes ids

abbrev pub flag : Bool → ℕ
flag completed = if completed then 1 else 0

unfoldable pub encode_entry : Entry → List ℕ
encode_entry e =
    1
    ∷ (put_le 2 (length e.block_ids % 2 ^ 16)
        ++ (block_id_bytes e.block_ids ++ (put_le 2 e.doc_count ++ flag e.completed ∷ [])))

-- The loop over the Block IDs that are left, from the offset `off` on.
abbrev pub read_block_ids : ℕ → ℕ → List ℕ → List ℕ
read_block_ids zero off val = []
read_block_ids (suc n) off val =
    get_le (slice off size_block_id val) ∷ read_block_ids n (off + size_block_id) val

abbrev pub read_entry : ℕ → List ℕ → Entry
read_entry block_count val =
    let off = header_len + size_block_id * block_count in
    record {
      block_ids = read_block_ids block_count header_len val;
      doc_count = get_le (slice off 2 val);
      completed = byte_at (off + 2) val == 1;
    }

unfoldable pub decode_entry : List ℕ → Result IndexError Entry
decode_entry val = do
  fail_if (ltb (length val) (header_len + trailer_len)) too_short
  fail_if (not (byte_at 0 val == 1)) unknown_version
  let block_count = get_le (slice 1 2 val)
  fail_if (not (length val == header_len + size_block_id * block_count + trailer_len))
      length_mismatch
  ok (read_entry block_count val)
