-- ===== src/Block/Reader/Documents.antt =====
-- internal/block/reader.go: the read of a Document that was appended.
use scrap.Common.{
  ℕ, suc, ◌+◌, ◌%◌, ◌^◌, ◌<◌, ◌≡◌, refl, sym, ap, ◌∙◌, arith, Bool, true, false, List, [], ◌∷◌,
  ◌++◌, ==_refl, length, drop, All, append_assoc, length-append, drop-append,
}
use scrap.Common.Bytes.{same_bytes_refl}
use scrap.Common.Int.{pos}
use scrap.Common.Result.{ok, ◌>>=◌}
use scrap.Block.Frame.{frame_bytes}
use scrap.Block.Frame.RoundTrip.{read_frame-append}
use scrap.Block.Header.{block_header, verify_header}
use scrap.Block.Writer.{Writer, new_header}
use scrap.Block.Writer.Scan.{document_bytes, documents_bytes, IsPayload, IsDocument}
use scrap.Block.Writer.Recovery.{Holds, verify_header-append}
use scrap.Block.Reader.{
  StoredDocument, is_zero_sha256, validate_read_frame_sequence, concat, frames_loop,
  read_document_frames, verified, read_document_frames_from_block, verify_and_spool,
  read_document_two_pass, read_document_from_block,
}

module _ (crc : List ℕ → ℕ) (bound : (xs : List ℕ) → crc xs < 2 ^ 32) where
  frames_step :
      (n doc_seq frame_seq : ℕ) (last : Bool) (p rest : List ℕ)
      → IsPayload p
      → doc_seq < 2 ^ 32
      → frame_seq < 2 ^ 32
      → frames_loop crc
          (suc n)
          frame_seq
          (frame_bytes crc (new_header doc_seq frame_seq last) p ++ rest)
        ≡ (frames_loop crc n (suc frame_seq) rest >>= (λ payloads. ok (p ∷ payloads)))
  unfolding frames_loop validate_read_frame_sequence
  frames_step n doc_seq frame_seq last p rest hp hd hf =
      let kept : frame_seq % 2 ^ 32 ≡ frame_seq = omega arith in
      rw (
        read_frame-append crc bound (new_header doc_seq frame_seq last) p rest hp hd hf,
        kept,
        ==_refl frame_seq,
      )

  frames_loop-document :
      (doc_seq frame_seq : ℕ) (ps : List (List ℕ)) (rest : List ℕ)
      → All IsPayload ps
      → doc_seq < 2 ^ 32
      → frame_seq + length ps < 2 ^ 32
      → frames_loop crc (length ps) frame_seq (document_bytes crc doc_seq frame_seq ps ++ rest)
        ≡ ok ps
  unfolding frames_loop
  frames_loop-document doc_seq frame_seq [] rest hp hd hf = refl
  frames_loop-document doc_seq frame_seq (p ∷ []) rest hp hd hf =
      frames_step 0 doc_seq frame_seq true p rest hp.0 hd (omega arith)
  frames_loop-document doc_seq frame_seq (p ∷ q ∷ ps) rest hp hd hf =
      let frame = frame_bytes crc (new_header doc_seq frame_seq false) p in
      let next = document_bytes crc doc_seq (suc frame_seq) (q ∷ ps) in
      ap (frames_loop crc (length (p ∷ q ∷ ps)) frame_seq) (append_assoc frame next rest)
      ∙ (frames_step (length (q ∷ ps)) doc_seq frame_seq false p (next ++ rest) hp.0 hd
            (omega arith)
          ∙ rw (frames_loop-document doc_seq (suc frame_seq) (q ∷ ps) rest hp.1 hd (omega arith)))

  -- The Documents after some of them.
  documents_bytes-split :
      (doc_seq : ℕ) (docs more : List (List (List ℕ)))
      → documents_bytes crc doc_seq (docs ++ more)
        ≡ documents_bytes crc doc_seq docs ++ documents_bytes crc (doc_seq + length docs) more
  documents_bytes-split doc_seq [] more = let same : doc_seq + 0 ≡ doc_seq = omega arith in rw same
  documents_bytes-split doc_seq (e ∷ docs) more =
      let same : suc doc_seq + length docs ≡ doc_seq + suc (length docs) = omega arith in
      let first = document_bytes crc doc_seq 0 e in
      let mine = documents_bytes crc (suc doc_seq) docs in
      ap (λ x. first ++ x)
        (documents_bytes-split (suc doc_seq) docs more
          ∙ ap (λ n. mine ++ documents_bytes crc n more) same)
      ∙ sym (append_assoc first mine (documents_bytes crc (doc_seq + suc (length docs)) more))

  All-head :
      (docs : List (List (List ℕ))) (d : List (List ℕ)) (more : List (List (List ℕ)))
      → All IsDocument (docs ++ d ∷ more)
      → IsDocument d
  All-head [] d more h = h.0
  All-head (e ∷ docs) d more h = All-head docs d more h.1

  -- What is left of the later Block from the offset of the earlier one.
  drop-Holds :
      (w later : Writer) (docs more : List (List (List ℕ)))
      → Holds crc bound w docs
      → Holds crc bound later (docs ++ more)
      → drop w.offset later.file ≡ documents_bytes crc (length docs) more
  drop-Holds w later docs more h h' =
      let header = block_header crc later.shard_id later.block_id h'.now_us in
      let mine = documents_bytes crc 0 docs in
      let theirs = documents_bytes crc (length docs) more in
      let none_before : 0 + length docs ≡ length docs = omega arith in
      let whole : later.file ≡ (header ++ mine) ++ theirs =
        h'.bytes
        ∙ (ap (λ x. header ++ x)
              (documents_bytes-split 0 docs more
                ∙ ap (λ n. mine ++ documents_bytes crc n more) none_before)
            ∙ sym (append_assoc header mine theirs)) in
      let begins : w.offset ≡ length (header ++ mine) = omega (
        arith,
        h.at_end,
        ap length h.bytes,
        length-append (block_header crc w.shard_id w.block_id h.now_us) mine,
        length-append header mine,
      ) in
      ap (drop w.offset) whole
      ∙ (ap (λ n. drop n ((header ++ mine) ++ theirs)) begins ∙ drop-append (header ++ mine) theirs)

  abbrev pub stored : Writer → List (List ℕ) → List ℕ → StoredDocument
  stored w payloads digest = record {
    first_frame_off = w.offset;
    frame_count = length payloads;
    total_bytes = pos (length (concat payloads));
    sha256 = digest;
    encryption_envelope = [];
  }

  frames_loop-Holds :
      (w later : Writer) (docs : List (List (List ℕ))) (payloads : List (List ℕ))
      (more : List (List (List ℕ)))
      → Holds crc bound w docs
      → Holds crc bound later (docs ++ payloads ∷ more)
      → frames_loop crc (length payloads) 0 (drop w.offset later.file) ≡ ok payloads
  frames_loop-Holds w later docs payloads more h h' =
      let d = All-head docs payloads more h'.each in
      ap (frames_loop crc (length payloads) 0) (drop-Holds w later docs (payloads ∷ more) h h')
      ∙ frames_loop-document (length docs) 0 payloads (documents_bytes crc (suc (length docs)) more)
          d.2 h.few (omega (arith, d.1))

  verified-Holds :
      (w : Writer) (docs : List (List (List ℕ)))
      → Holds crc bound w docs
      → verified crc w.file w.shard_id w.block_id ≡ ok tt
  verified-Holds w docs h =
      let checked =
        ap (λ f. verify_header crc f w.shard_id w.block_id) h.bytes
        ∙ verify_header-append crc bound w.shard_id w.block_id h.now_us w.shard_id w.block_id
            (documents_bytes crc 0 docs) h.shard h.block in
      rw (checked, ==_refl w.shard_id, ==_refl w.block_id)

  -- A Document that a Writer appended at its offset is read from that offset of the Block, after
  -- any Documents that were appended later: its Frames are read as they were appended, and its
  -- bytes in their order if the digest that is stored is theirs and is not zero.
  pub read_document_from_block-Holds :
      (sha256 : List ℕ → List ℕ)
      → (w later : Writer) (docs : List (List (List ℕ))) (payloads : List (List ℕ))
        (more : List (List (List ℕ)))
      → Holds crc bound w docs
      → Holds crc bound later (docs ++ payloads ∷ more)
      → is_zero_sha256 (sha256 (concat payloads)) ≡ false
      → let entry = stored w payloads (sha256 (concat payloads)) in
        (read_document_frames_from_block crc later.file later.shard_id later.block_id entry
          ≡ ok payloads)
        × (read_document_from_block crc sha256 later.file later.shard_id later.block_id entry
            ≡ ok (concat payloads))
  unfolding read_document_frames_from_block read_document_frames read_document_from_block
      read_document_two_pass verify_and_spool
  read_document_from_block-Holds sha256 w later docs payloads more h h' nonzero =
      let open_block = verified-Holds later (docs ++ payloads ∷ more) h' in
      let read = frames_loop-Holds w later docs payloads more h h' in
      (
        rw (open_block, read),
        rw (open_block, nonzero, read, same_bytes_refl (sha256 (concat payloads))),
      )
