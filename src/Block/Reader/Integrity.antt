-- ===== src/Block/Reader/Integrity.antt =====
-- internal/block/reader.go: what is known of the bytes that a read gives.
use scrap.Common.{
  not-eq-false, ℕ, ◌≡◌, refl, ap, ◌∙◌, sym, arith, true, false, not, List, [], ◌∷◌, ◌==◌, length,
  drop,
}
use scrap.Common.Bytes.{same_bytes, same_bytes→eq}
use scrap.Common.Result.{ok, fail_if, >>=-eq-ok, fail_if-eq-ok}
use scrap.Block.Reader.{
  StoredDocument, is_zero_sha256, sha256_mismatch, encrypted_entry, concat, frames_loop, verified,
  verify_and_spool, read_document_two_pass, read_document_from_block, read_document_frames,
}

module _ (crc : List ℕ → ℕ) (sha256 : List ℕ → List ℕ) where
  -- What is known of the bytes that a read gives.
  pub record IsVerified (file : List ℕ) (shard_id block_id : ℕ) (entry : StoredDocument)
      (bytes : List ℕ) : Type 0 where
    pub header : verified crc file shard_id block_id ≡ ok tt
    pub plain : entry.encryption_envelope ≡ []
    pub digest : sha256 bytes ≡ entry.sha256
    pub nonzero : is_zero_sha256 entry.sha256 ≡ false
    pub frames : List (List ℕ)
    pub read : read_document_frames crc file entry ≡ ok frames
    pub whole : concat frames ≡ bytes

  empty : (xs : List ℕ) → (length xs == 0) ≡ true → xs ≡ []
  empty [] h = refl
  empty (x ∷ xs) h = ground arith

  -- A read of a Document from a Block that gives bytes has verified the header of the Block, the
  -- entry is not encrypted, the bytes are those of the Frames that the entry names, and their
  -- SHA-256 is the one that is stored, which is not zero.
  pub read_document_from_block-IsVerified :
      (file : List ℕ) (shard_id block_id : ℕ) (entry : StoredDocument) (bytes : List ℕ)
      → read_document_from_block crc sha256 file shard_id block_id entry ≡ ok bytes
      → IsVerified file shard_id block_id entry bytes
  unfolding read_document_from_block read_document_two_pass verify_and_spool read_document_frames
  read_document_from_block-IsVerified file shard_id block_id entry bytes h =
      let (a, ha, h1) = >>=-eq-ok (verified crc file shard_id block_id) _ h in
      let (b, hb, h2) =
        >>=-eq-ok (fail_if (not (length entry.encryption_envelope == 0)) encrypted_entry) _ h1 in
      let (c, hc, h3) = >>=-eq-ok (fail_if (is_zero_sha256 entry.sha256) sha256_mismatch) _ h2 in
      let (ps, hp, h4) =
        >>=-eq-ok (frames_loop crc entry.frame_count 0 (drop entry.first_frame_off file)) _ h3 in
      let (d, hd, h5) =
        >>=-eq-ok (fail_if (not (same_bytes (sha256 (concat ps)) entry.sha256)) sha256_mismatch) _
          h4 in
      let whole : concat ps ≡ bytes = cc in
      let matched =
        same_bytes→eq (sha256 (concat ps)) entry.sha256
          (not-eq-false _ (fail_if-eq-ok _ sha256_mismatch hd)) in
      record {
        header = ha;
        plain =
            empty entry.encryption_envelope (not-eq-false _ (fail_if-eq-ok _ encrypted_entry hb));
        digest = ap sha256 (sym whole) ∙ matched;
        nonzero = fail_if-eq-ok _ sha256_mismatch hc;
        frames = ps;
        read = hp;
        whole = whole;
      }
