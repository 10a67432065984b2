-- ===== src/Block/Reader.antt =====
-- internal/block/reader.go: the reads of a Document. SHA-256 is a parameter. An entry that the
-- index gives has an offset that is not negative.
pub mod Documents
pub mod Integrity
mod Examples
use scrap.Common.{
  ℕ, zero, suc, ◌%◌, ◌^◌, Bool, true, false, not, List, [], ◌∷◌, ◌++◌, ◌==◌, ◌&&◌, if◌then◌else◌,
  length, drop, replicate,
}
use scrap.Common.Bytes.{same_bytes}
use scrap.Common.Int.{ℤ}
use scrap.Common.Result.{Result, ok, err, either, ◌>>=◌, ◌>>◌, fail_if}
use scrap.Block.Frame.{FrameHeader, FrameError, read_frame}
use scrap.Block.Header.{HeaderError, verify_header}

pub data ReadError : Type 0 where
  encrypted_entry : ReadError
  corrupt : HeaderError → ReadError
  frame : FrameError → ReadError
  frame_sequence : ReadError
  sha256_mismatch : ReadError

-- The fields of an `IndexEntry` that a reader uses; `total_bytes` is only the capacity of a buffer.
-- A negative one, with which `make` panics, is not modelled.
pub record StoredDocument : Type 0 where
  pub first_frame_off : ℕ
  pub frame_count : ℕ
  pub total_bytes : ℤ
  pub sha256 : List ℕ
  pub encryption_envelope : List ℕ

unfoldable pub is_zero_sha256 : List ℕ → Bool
is_zero_sha256 digest = same_bytes digest (replicate 32 0)

unfoldable pub validate_read_frame_sequence : FrameHeader → ℕ → Result ReadError (Unit {0})
validate_read_frame_sequence hdr frame_seq =
    fail_if (not (hdr.frame_seq == frame_seq)) frame_sequence

abbrev pub concat : List (List ℕ) → List ℕ
concat [] = []
concat (p ∷ ps) = p ++ concat ps

module _ (crc : List ℕ → ℕ) where
  -- The loop over the Frames that are left, from the one at `frame_seq` on.
  unfoldable pub frames_loop : ℕ → ℕ → List ℕ → Result ReadError (List (List ℕ))
  frames_loop zero frame_seq input = ok []
  frames_loop (suc n) frame_seq input =
      either (read_frame crc input) (λ e. err (frame e))
        (λ (hdr, payload, rest).
          either (validate_read_frame_sequence hdr (frame_seq % 2 ^ 32)) err
            (λ _. frames_loop n (suc frame_seq) rest >>= (λ payloads. ok (payload ∷ payloads))))

  unfoldable pub read_document_frames : List ℕ → StoredDocument → Result ReadError (List (List ℕ))
  read_document_frames file entry =
      frames_loop entry.frame_count 0 (drop entry.first_frame_off file)

  abbrev pub verified : List ℕ → ℕ → ℕ → Result ReadError (Unit {0})
  verified file shard_id block_id =
      either (verify_header crc file shard_id block_id) (λ e. err (corrupt e)) ok

  unfoldable pub read_document_frames_from_block :
      List ℕ → ℕ → ℕ → StoredDocument → Result ReadError (List (List ℕ))
  read_document_frames_from_block file shard_id block_id entry = do
    verified file shard_id block_id
    read_document_frames file entry

  module _ (sha256 : List ℕ → List ℕ) where
    unfoldable pub verify_and_spool : List ℕ → StoredDocument → Result ReadError (List ℕ)
    verify_and_spool file entry = do
      fail_if (is_zero_sha256 entry.sha256) sha256_mismatch
      payloads ← frames_loop entry.frame_count 0 (drop entry.first_frame_off file)
      fail_if (not (same_bytes (sha256 (concat payloads)) entry.sha256)) sha256_mismatch
      ok (concat payloads)

    unfoldable pub read_document_two_pass : List ℕ → StoredDocument → Result ReadError (List ℕ)
    read_document_two_pass file entry = do
      fail_if (not (length entry.encryption_envelope == 0)) encrypted_entry
      verify_and_spool file entry

    unfoldable pub read_document_from_block :
        List ℕ → ℕ → ℕ → StoredDocument → Result ReadError (List ℕ)
    read_document_from_block file shard_id block_id entry = do
      verified file shard_id block_id
      read_document_two_pass file entry
