-- ===== src/Block/Writer/Recovery.antt =====
-- internal/block/writer.go: the recovery of a Writer from its Block.
use mathlib.Core.Path.{subst}
use scrap.Common.{
  ℕ, suc, ◌+◌, ◌-◌, ◌^◌, ◌<◌, ◌≡◌, refl, sym, ap, ◌∙◌, arith, Bool, true, false, not, ◌&&◌, List,
  ◌++◌, ◌==◌, ==_refl, if◌then◌else◌, length, drop, All, length-append, drop-append,
}
use scrap.Common.Bytes.{get_le-put_le}
use scrap.Common.Result.{ok, err, either, ◌>>=◌, fail_if}
use scrap.Block.Frame.RoundTrip.{read_full-append}
use scrap.Block.Header.{header_corrupt, header_size, header_fields, block_header, verify_header}
use scrap.Block.Writer.{corrupt, Writer, ScanState, scan_start, scan_writer_state, open_writer}
use scrap.Block.Writer.Scan.{
  documents_bytes, frame_count, IsDocument, scan_documents, more_documents,
  more_documents-frame_count, offset_after_documents, offset_after_documents-length,
}

both_checks :
    (a b : Bool)
    → (fail_if (not a) header_corrupt >>= (λ x. fail_if (not b) header_corrupt >>= (λ y. ok tt)))
      ≡ fail_if (not (a && b)) header_corrupt
both_checks true true = refl
both_checks true false = refl
both_checks false b = refl

opened :
    {A : Type 0} (b : Bool) (a : A)
    → either (fail_if (not b) header_corrupt) (λ e. err (corrupt e)) (λ x. ok a)
      ≡ (if b then ok a else err (corrupt header_corrupt))
opened true a = refl
opened false a = refl

module _ (crc : List ℕ → ℕ) (bound : (xs : List ℕ) → crc xs < 2 ^ 32) where
  abbrev scanned : List ℕ → List (List (List ℕ)) → ScanState
  scanned file docs = record {
    offset = length file;
    doc_seq = length docs;
    frame_seq = 0;
    doc_count = length docs;
  }

  scan_writer_state-documents :
      (header : List ℕ) (docs : List (List (List ℕ)))
      → length header ≡ header_size
      → All IsDocument docs
      → length docs < 2 ^ 32
      → scan_writer_state crc (header ++ documents_bytes crc 0 docs)
        ≡ ok (scanned (header ++ documents_bytes crc 0 docs) docs)
  unfolding scan_writer_state
  scan_writer_state-documents header docs hh hd bd =
      let bytes = documents_bytes crc 0 docs in
      let rest : drop header_size (header ++ bytes) ≡ bytes =
        subst (λ n. drop n (header ++ bytes) ≡ bytes) hh (drop-append header bytes) in
      let len = offset_after_documents-length crc bound docs 0 header_size in
      let spare = length bytes - frame_count docs in
      let enough : suc (length bytes) ≡ more_documents crc bound docs (suc spare) =
        omega (arith, more_documents-frame_count crc bound docs (suc spare), len.1) in
      let none_before : 0 + length docs ≡ length docs = omega arith in
      let start : ScanState = scan_start crc in
      let ends : offset_after_documents crc bound header_size docs ≡ length (header ++ bytes) =
        omega (arith, len.0, length-append header bytes, hh) in
      rw (rest, enough)
        (scan_documents crc bound spare docs start 0 refl refl refl hd (omega arith)
          ∙ rw (ends, none_before))

  pub verify_header-append :
      (shard_id block_id now_us shard_id' block_id' : ℕ) (rest : List ℕ)
      → shard_id < 2 ^ 64
      → block_id < 2 ^ 64
      → verify_header crc (block_header crc shard_id block_id now_us ++ rest) shard_id' block_id'
        ≡ fail_if (not (shard_id == shard_id' && block_id == block_id')) header_corrupt
  unfolding verify_header
  verify_header-append shard_id block_id now_us shard_id' block_id' rest hs hb =
      let fields = header_fields crc shard_id block_id now_us in
      rw
        (
          read_full-append (block_header crc shard_id block_id now_us) rest,
          get_le-put_le 8 shard_id hs,
          get_le-put_le 8 block_id hb,
          get_le-put_le 4 (crc fields) (bound fields),
          ==_refl (crc fields),
        )
        (both_checks (shard_id == shard_id') (block_id == block_id'))

  -- The Writer stands at the end of a Block that holds the Documents.
  pub record Holds (w : Writer) (docs : List (List (List ℕ))) : Type 0 where
    pub now_us : ℕ
    pub bytes : w.file ≡ block_header crc w.shard_id w.block_id now_us ++ documents_bytes crc 0 docs
    pub shard : w.shard_id < 2 ^ 64
    pub block : w.block_id < 2 ^ 64
    pub at_end : w.offset ≡ length w.file
    pub seq : w.doc_seq ≡ length docs
    pub count : w.doc_count ≡ length docs
    pub each : All IsDocument docs
    pub few : length docs < 2 ^ 32

  pub Holds-scan :
      (w : Writer) (docs : List (List (List ℕ)))
      → Holds w docs
      → scan_writer_state crc w.file
        ≡ ok (record {
          offset = w.offset;
          doc_seq = w.doc_seq;
          frame_seq = 0;
          doc_count = w.doc_count;
        })
  Holds-scan w docs h =
      let header = block_header crc w.shard_id w.block_id h.now_us in
      let ends : length (header ++ documents_bytes crc 0 docs) ≡ w.offset =
        sym (h.at_end ∙ ap length h.bytes) in
      ap (scan_writer_state crc) h.bytes
      ∙ (scan_writer_state-documents header docs refl h.each h.few ∙ rw (ends, h.seq, h.count))

  -- A Writer that is opened on the Block of another one, which holds Documents, for the same Shard
  -- and Block, recovers the offset, the document sequence and the document count of that Writer,
  -- and for another Shard or Block it fails. CRC-32C is any function into the numbers below 2 ^ 32.
  pub open_writer-recovers :
      (w : Writer) (docs : List (List (List ℕ))) (shard_id block_id : ℕ)
      → Holds w docs
      → open_writer crc w.file shard_id block_id ≡ (
          if w.shard_id == shard_id && w.block_id == block_id
          then ok (record w { shard_id = shard_id; block_id = block_id; closed = false })
          else err (corrupt header_corrupt))
  unfolding open_writer
  open_writer-recovers w docs shard_id block_id h =
      let checked =
        ap (λ f. verify_header crc f shard_id block_id) h.bytes
        ∙ verify_header-append w.shard_id w.block_id h.now_us shard_id block_id
            (documents_bytes crc 0 docs) h.shard h.block in
      rw (checked, Holds-scan w docs h)
        (opened (w.shard_id == shard_id && w.block_id == block_id)
          (record w { shard_id = shard_id; block_id = block_id; closed = false }))
