-- ===== src/Block/Writer/Scan.antt =====
-- internal/block/writer.go: what the scan of a Block finds. The independent description of a Block
-- is its header followed by the Frames of its Documents, in order.
use scrap.Common.{
  ℕ, suc, ◌+◌, ◌^◌, ◌≤◌, ◌<◌, ◌≡◌, refl, ap, ◌∙◌, arith, Bool, true, false, List, [], ◌∷◌, ◌++◌,
  ==_refl, length, All, append_assoc, length-append,
}
use scrap.Common.Result.{ok}
use scrap.Block.Frame.{FrameHeader, max_frame_payload, frame_bytes, read_full, read_frame}
use scrap.Block.Frame.RoundTrip.{read_frame-append}
use scrap.Block.Writer.{
  ScanState, frame_flags, is_last_frame, validate_writer_scan_frame, next32, advance, scan_loop,
  new_header,
}

-- The Frames of a Document, from the one at `frame_seq` on.
abbrev pub document_bytes : (List ℕ → ℕ) → ℕ → ℕ → List (List ℕ) → List ℕ
document_bytes crc doc_seq frame_seq [] = []
document_bytes crc doc_seq frame_seq (p ∷ []) =
    frame_bytes crc (new_header doc_seq frame_seq true) p
document_bytes crc doc_seq frame_seq (p ∷ q ∷ ps) =
    frame_bytes crc (new_header doc_seq frame_seq false) p
    ++ document_bytes crc doc_seq (suc frame_seq) (q ∷ ps)

abbrev pub documents_bytes : (List ℕ → ℕ) → ℕ → List (List (List ℕ)) → List ℕ
documents_bytes crc doc_seq [] = []
documents_bytes crc doc_seq (d ∷ ds) =
    document_bytes crc doc_seq 0 d ++ documents_bytes crc (suc doc_seq) ds

abbrev pub frame_count : List (List (List ℕ)) → ℕ
frame_count [] = 0
frame_count (d ∷ ds) = length d + frame_count ds

abbrev pub IsPayload : List ℕ → Type 0
IsPayload p = length p ≤ max_frame_payload

-- A Document has a Frame, and its Frames are counted by a `uint32`.
abbrev pub IsDocument : List (List ℕ) → Type 0
IsDocument d = (0 < length d) × (length d < 2 ^ 32) × All IsPayload d

-- The rounds that the Frames take, the offset after them, and the state after a Document.
abbrev pub more : List (List ℕ) → ℕ → ℕ
more [] fuel = fuel
more (p ∷ ps) fuel = suc (more ps fuel)

abbrev pub offset_after : ℕ → List (List ℕ) → ℕ
offset_after offset [] = offset
offset_after offset (p ∷ ps) = offset_after (offset + (32 + length p)) ps

abbrev pub after_document : List (List ℕ) → ScanState → ScanState
after_document ps s = record {
  offset = offset_after s.offset ps;
  doc_seq = next32 s.doc_seq;
  frame_seq = 0;
  doc_count = next32 s.doc_count;
}

is_last_frame-frame_flags : (seq : ℕ) (last : Bool) → is_last_frame (frame_flags seq last) ≡ last
unfolding is_last_frame frame_flags
is_last_frame-frame_flags seq true = ground arith
is_last_frame-frame_flags seq false = ground arith

module _ (crc : List ℕ → ℕ) (bound : (xs : List ℕ) → crc xs < 2 ^ 32) where
  -- A Frame that comes next is counted.
  scan_step :
      (fuel : ℕ) (last : Bool) (payload rest : List ℕ) (s : ScanState) (doc_seq frame_seq : ℕ)
      → s.doc_seq ≡ doc_seq
      → s.frame_seq ≡ frame_seq
      → IsPayload payload
      → doc_seq < 2 ^ 32
      → frame_seq < 2 ^ 32
      → scan_loop crc
          (suc fuel)
          (frame_bytes crc (new_header doc_seq frame_seq last) payload ++ rest)
          s
        ≡ scan_loop crc fuel rest (advance last (length payload) s)
  unfolding scan_loop validate_writer_scan_frame
  scan_step fuel last payload rest s doc_seq frame_seq ed ef hp hd hf = rw (
    read_frame-append crc bound (new_header doc_seq frame_seq last) payload rest hp hd hf,
    is_last_frame-frame_flags frame_seq last,
    ed,
    ef,
    ==_refl doc_seq,
    ==_refl frame_seq,
    ==_refl (frame_flags frame_seq last),
  )

  scan_document :
      (fuel : ℕ) (ps : List (List ℕ)) (rest : List ℕ) (s : ScanState) (doc_seq frame_seq : ℕ)
      → s.doc_seq ≡ doc_seq
      → s.frame_seq ≡ frame_seq
      → 0 < length ps
      → All IsPayload ps
      → doc_seq < 2 ^ 32
      → frame_seq + length ps < 2 ^ 32
      → scan_loop crc (more ps fuel) (document_bytes crc doc_seq frame_seq ps ++ rest) s
        ≡ scan_loop crc fuel rest (after_document ps s)
  scan_document fuel [] rest s doc_seq frame_seq ed ef some_frame hp hd hf = ground arith
  scan_document fuel (p ∷ []) rest s doc_seq frame_seq ed ef some_frame hp hd hf =
      scan_step fuel true p rest s doc_seq frame_seq ed ef hp.0 hd (omega arith)
  scan_document fuel (p ∷ q ∷ ps) rest s doc_seq frame_seq ed ef some_frame hp hd hf =
      let next = document_bytes crc doc_seq (suc frame_seq) (q ∷ ps) in
      let s' : ScanState = advance false (length p) s in
      ap (λ x. scan_loop crc (more (p ∷ q ∷ ps) fuel) x s)
        (append_assoc (frame_bytes crc (new_header doc_seq frame_seq false) p) next rest)
      ∙ (scan_step (more (q ∷ ps) fuel) false p (next ++ rest) s doc_seq frame_seq ed ef hp.0 hd
            (omega arith)
          ∙ scan_document fuel (q ∷ ps) rest s' doc_seq (suc frame_seq) ed (omega arith)
              (omega arith) hp.1 hd (omega arith))

  abbrev pub more_documents : List (List (List ℕ)) → ℕ → ℕ
  more_documents [] fuel = fuel
  more_documents (d ∷ ds) fuel = more d (more_documents ds fuel)

  abbrev pub offset_after_documents : ℕ → List (List (List ℕ)) → ℕ
  offset_after_documents offset [] = offset
  offset_after_documents offset (d ∷ ds) = offset_after_documents (offset_after offset d) ds

  pub scan_documents :
      (fuel : ℕ) (docs : List (List (List ℕ))) (s : ScanState) (doc_seq : ℕ)
      → s.doc_seq ≡ doc_seq
      → s.doc_count ≡ doc_seq
      → s.frame_seq ≡ 0
      → All IsDocument docs
      → doc_seq + length docs < 2 ^ 32
      → scan_loop crc (more_documents docs (suc fuel)) (documents_bytes crc doc_seq docs) s
        ≡ ok (record {
          offset = offset_after_documents s.offset docs;
          doc_seq = doc_seq + length docs;
          frame_seq = 0;
          doc_count = doc_seq + length docs;
        })
  unfolding scan_loop read_frame read_full
  scan_documents fuel [] s doc_seq ed ec ef hd bd =
      let same : doc_seq + 0 ≡ doc_seq = omega arith in rw (ef, same, ed, ec)
  scan_documents fuel (d ∷ ds) s doc_seq ed ec ef hd bd =
      let s' : ScanState = after_document d s in
      let same : suc doc_seq + length ds ≡ doc_seq + length (d ∷ ds) = omega arith in
      scan_document (more_documents ds (suc fuel)) d (documents_bytes crc (suc doc_seq) ds) s
        doc_seq 0 ed ef hd.0.0 hd.0.2 (omega arith) (omega (arith, hd.0.1))
      ∙ (scan_documents fuel ds s' (suc doc_seq) (omega arith) (omega arith) refl hd.1 (omega arith)
          ∙ ap
              (λ n. ok (record {
                offset = offset_after_documents s.offset (d ∷ ds);
                doc_seq = n;
                frame_seq = 0;
                doc_count = n;
              }))
              same)

  more-length : (ps : List (List ℕ)) (fuel : ℕ) → more ps fuel ≡ length ps + fuel
  more-length [] fuel = omega arith
  more-length (p ∷ ps) fuel = omega (arith, more-length ps fuel)

  pub more_documents-frame_count :
      (docs : List (List (List ℕ))) (fuel : ℕ) → more_documents docs fuel ≡ frame_count docs + fuel
  more_documents-frame_count [] fuel = omega arith
  more_documents-frame_count (d ∷ ds) fuel =
      omega (arith, more-length d (more_documents ds fuel), more_documents-frame_count ds fuel)

  pub length-frame_bytes :
      (hdr : FrameHeader) (payload : List ℕ)
      → length (frame_bytes crc hdr payload) ≡ 32 + length payload
  length-frame_bytes hdr payload = omega arith

  pub offset_after-length :
      (ps : List (List ℕ)) (doc_seq frame_seq offset : ℕ)
      → (offset_after offset ps ≡ offset + length (document_bytes crc doc_seq frame_seq ps))
        × (length ps ≤ length (document_bytes crc doc_seq frame_seq ps))
  offset_after-length [] doc_seq frame_seq offset = (omega arith, omega arith)
  offset_after-length (p ∷ []) doc_seq frame_seq offset = (omega arith, omega arith)
  offset_after-length (p ∷ q ∷ ps) doc_seq frame_seq offset =
      let ih = offset_after-length (q ∷ ps) doc_seq (suc frame_seq) (offset + (32 + length p)) in
      let whole =
        length-append (frame_bytes crc (new_header doc_seq frame_seq false) p)
          (document_bytes crc doc_seq (suc frame_seq) (q ∷ ps)) in
      let first = length-frame_bytes (new_header doc_seq frame_seq false) p in
      (omega (arith, ih.0, whole, first), omega (arith, ih.1, whole, first))

  pub offset_after_documents-length :
      (docs : List (List (List ℕ))) (doc_seq offset : ℕ)
      → (offset_after_documents offset docs ≡ offset + length (documents_bytes crc doc_seq docs))
        × (frame_count docs ≤ length (documents_bytes crc doc_seq docs))
  offset_after_documents-length [] doc_seq offset = (omega arith, omega arith)
  offset_after_documents-length (d ∷ ds) doc_seq offset =
      let ih = offset_after_documents-length ds (suc doc_seq) (offset_after offset d) in
      let whole =
        length-append (document_bytes crc doc_seq 0 d) (documents_bytes crc (suc doc_seq) ds) in
      let first = offset_after-length d doc_seq 0 offset in
      (omega (arith, ih.0, whole, first.0), omega (arith, ih.1, whole, first.1))
