-- ===== src/Block/Header.antt =====
-- internal/block/header.go, and the header that internal/block/writer.go writes.
use scrap.Common.{ℕ, not, List, ◌∷◌, ◌++◌, ◌==◌, ◌&&◌, Bool}
use scrap.Common.Bytes.{put_le, get_le, slice, byte_at}
use scrap.Common.Result.{Result, ok, err, either, ◌>>=◌, ◌>>◌, fail_if}
use scrap.Block.Frame.{read_full}

abbrev pub header_size : ℕ
header_size = 40

-- Every error of `VerifyHeader` is `ErrBlockHeaderCorrupt`.
pub data HeaderError : Type 0 where
  header_corrupt : HeaderError

module _ (crc : List ℕ → ℕ) where
  -- `hdr[0:36]`, with the magic `SCRP`.
  abbrev pub header_fields : ℕ → ℕ → ℕ → List ℕ
  header_fields shard_id block_id created_at_us =
      83 ∷ 67 ∷ 82 ∷ 80 ∷ put_le 2 1
      ++ put_le 2 header_size
      ++ put_le 8 shard_id
      ++ put_le 8 block_id
      ++ put_le 8 created_at_us
      ++ put_le 4 0

  abbrev pub block_header : ℕ → ℕ → ℕ → List ℕ
  block_header shard_id block_id created_at_us =
      header_fields shard_id block_id created_at_us
      ++ put_le 4 (crc (header_fields shard_id block_id created_at_us))

  abbrev is_magic : List ℕ → Bool
  is_magic hdr =
      byte_at 0 hdr == 83 && (byte_at 1 hdr == 67 && (byte_at 2 hdr == 82 && byte_at 3 hdr == 80))

  abbrev read_header : List ℕ → Result HeaderError (List ℕ)
  read_header file =
      either (read_full header_size file) (λ e. err header_corrupt) (λ (hdr, rest). ok hdr)

  unfoldable pub verify_header : List ℕ → ℕ → ℕ → Result HeaderError (Unit {0})
  verify_header file shard_id block_id = do
    hdr ← read_header file
    fail_if (not (is_magic hdr)) header_corrupt
    fail_if (not (get_le (slice 4 2 hdr) == 1)) header_corrupt
    fail_if (not (get_le (slice 6 2 hdr) == header_size)) header_corrupt
    fail_if (not (get_le (slice 8 8 hdr) == shard_id)) header_corrupt
    fail_if (not (get_le (slice 16 8 hdr) == block_id)) header_corrupt
    fail_if (not (get_le (slice 36 4 hdr) == crc (slice 0 36 hdr))) header_corrupt
