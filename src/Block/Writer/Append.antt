-- ===== src/Block/Writer/Append.antt =====
-- internal/block/writer.go: what the append of a Document leaves in the Block.
use mathlib.Core.Path.{subst}
use scrap.Common.{
  ℕ, zero, suc, ◌+◌, ◌-◌, ◌%◌, ◌^◌, ◌≤◌, ◌<◌, ◌≡◌, refl, sym, ap, ◌∙◌, arith, Bool, true, false,
  List, [], ◌∷◌, ◌++◌, ◌==◌, if◌then◌else◌, length, take, drop, All, append_assoc, append-nil,
  length-append, none, All-append,
}
use scrap.Common.Int.{pos, ltb_ℤ}
use scrap.Common.Result.{ok}
use scrap.Block.Frame.{frame_bytes}
use scrap.Block.Frame.RoundTrip.{write_frame-eq-ok}
use scrap.Block.Header.{block_header}
use scrap.Block.Writer.{
  Writer, DocumentFrames, next32, new_header, write_at, append_loop, appended,
  append_document_frames,
}
use scrap.Block.Writer.Scan.{
  document_bytes, documents_bytes, IsPayload, IsDocument, offset_after, offset_after-length,
  length-frame_bytes,
}
use scrap.Block.Writer.Recovery.{Holds}

take_all : (xs : List ℕ) → take (length xs) xs ≡ xs
take_all [] = refl
take_all (x ∷ xs) = ap (λ ys. x ∷ ys) (take_all xs)

drop_all : (n : ℕ) (xs : List ℕ) → length xs ≤ n → drop n xs ≡ []
drop_all zero [] h = refl
drop_all (suc n) [] h = refl
drop_all zero (x ∷ xs) h = ground arith
drop_all (suc n) (x ∷ xs) h = drop_all n xs (omega arith)

-- A write at the end of the file appends.
write_at-end :
    (offset : ℕ) (bytes file : List ℕ)
    → offset ≡ length file
    → write_at offset bytes file ≡ file ++ bytes
write_at-end offset bytes file h = rw (
  h,
  take_all file,
  drop_all (length file + length bytes) file (omega arith),
  append-nil (file ++ bytes),
)

-- Three guards that let the code pass.
guards :
    {A : Type 0} (a b c : Bool) (x y z t : A)
    → a ≡ false
    → b ≡ false
    → c ≡ false
    → (if a then x else if b then y else if c then z else t) ≡ t
guards a b c x y z t ha hb hc = rw (ha, hb, hc)

module _ (crc : List ℕ → ℕ) (bound : (xs : List ℕ) → crc xs < 2 ^ 32) where
  abbrev with_document : Writer → ℕ → List (List ℕ) → Writer
  with_document w frame_seq ps = record w {
    file = w.file ++ document_bytes crc w.doc_seq frame_seq ps;
    offset = offset_after w.offset ps;
  }

  abbrev with_frame : Writer → ℕ → Bool → List ℕ → Writer
  with_frame w frame_seq last p = record w {
    file = w.file ++ frame_bytes crc (new_header w.doc_seq frame_seq last) p;
    offset = w.offset + (32 + length p);
  }

  append_step :
      (count frame_seq : ℕ) (last : Bool) (p : List ℕ) (ps : List (List ℕ)) (w : Writer)
      → w.offset ≡ length w.file
      → (frame_seq == count - 1) ≡ last
      → frame_seq < 2 ^ 32
      → IsPayload p
      → append_loop crc count frame_seq (p ∷ ps) w
        ≡ append_loop crc count (suc frame_seq) ps (with_frame w frame_seq last p)
  unfolding append_loop
  append_step count frame_seq last p ps w end is_last small hp =
      let kept : frame_seq % 2 ^ 32 ≡ frame_seq = omega arith in
      rw (
        kept,
        is_last,
        write_frame-eq-ok crc (new_header w.doc_seq frame_seq last) p hp,
        write_at-end w.offset (frame_bytes crc (new_header w.doc_seq frame_seq last) p) w.file end,
      )

  append_loop_lem :
      (count frame_seq : ℕ) (ps : List (List ℕ)) (w : Writer)
      → w.offset ≡ length w.file
      → frame_seq + length ps ≡ count
      → count < 2 ^ 32
      → All IsPayload ps
      → append_loop crc count frame_seq ps w ≡ (with_document w frame_seq ps, none)
  unfolding append_loop
  append_loop_lem count frame_seq [] w end total small hp = rw (append-nil w.file)
  append_loop_lem count frame_seq (p ∷ []) w end total small hp =
      append_step count frame_seq true p [] w end (ground arith) (omega arith) hp.0
  append_loop_lem count frame_seq (p ∷ q ∷ ps) w end total small hp =
      let frame = frame_bytes crc (new_header w.doc_seq frame_seq false) p in
      let w' = with_frame w frame_seq false p in
      let end' : w.offset + (32 + length p) ≡ length (w.file ++ frame) = omega (
        arith,
        length-append w.file frame,
        length-frame_bytes crc bound (new_header w.doc_seq frame_seq false) p,
      ) in
      append_step count frame_seq false p (q ∷ ps) w end (ground arith) (omega arith) hp.0
      ∙ (append_loop_lem count (suc frame_seq) (q ∷ ps) w' end' (omega arith) small hp.1
          ∙ ap
              (λ file. (
                record w {
                  file = file;
                  offset = offset_after (w.offset + (32 + length p)) (q ∷ ps);
                },
                none,
              ))
              (append_assoc w.file frame (document_bytes crc w.doc_seq (suc frame_seq) (q ∷ ps))))

  documents_bytes-append :
      (doc_seq : ℕ) (docs : List (List (List ℕ))) (d : List (List ℕ))
      → documents_bytes crc doc_seq (docs ++ d ∷ [])
        ≡ documents_bytes crc doc_seq docs ++ document_bytes crc (doc_seq + length docs) 0 d
  documents_bytes-append doc_seq [] d =
      let same : doc_seq + 0 ≡ doc_seq = omega arith in
      rw same (append-nil (document_bytes crc doc_seq 0 d))
  documents_bytes-append doc_seq (e ∷ docs) d =
      let same : suc doc_seq + length docs ≡ doc_seq + suc (length docs) = omega arith in
      let ih = documents_bytes-append (suc doc_seq) docs d in
      let first = document_bytes crc doc_seq 0 e in
      ap (λ x. first ++ x)
        (ih ∙ ap (λ n. documents_bytes crc (suc doc_seq) docs ++ document_bytes crc n 0 d) same)
      ∙ sym (
          append_assoc first (documents_bytes crc (suc doc_seq) docs)
            (document_bytes crc (doc_seq + suc (length docs)) 0 d))

  abbrev after_append : Writer → List (List ℕ) → Writer
  after_append w payloads = record w {
    file = w.file ++ document_bytes crc w.doc_seq 0 payloads;
    offset = offset_after w.offset payloads;
    doc_seq = next32 w.doc_seq;
    doc_count = next32 w.doc_count;
  }

  Holds-after_append :
      (w : Writer) (docs : List (List (List ℕ))) (payloads : List (List ℕ))
      → Holds crc bound w docs
      → IsDocument payloads
      → suc (length docs) < 2 ^ 32
      → Holds crc bound (after_append w payloads) (docs ++ payloads ∷ [])
  Holds-after_append w docs payloads h hd few =
      let header = block_header crc w.shard_id w.block_id h.now_us in
      let doc = document_bytes crc w.doc_seq 0 payloads in
      let longer = length-append docs (payloads ∷ []) in
      let new_bytes : documents_bytes crc 0 (docs ++ payloads ∷ [])
          ≡ documents_bytes crc 0 docs ++ doc =
        documents_bytes-append 0 docs payloads
        ∙ ap (λ n. documents_bytes crc 0 docs ++ document_bytes crc n 0 payloads)
            (omega (arith, h.seq)) in
      record {
        now_us = h.now_us;
        bytes =
            ap (λ x. x ++ doc) h.bytes
            ∙ (append_assoc header (documents_bytes crc 0 docs) doc
                ∙ ap (λ x. header ++ x) (sym new_bytes));
        shard = h.shard;
        block = h.block;
        at_end = omega (
          arith,
          (offset_after-length crc bound payloads w.doc_seq 0 w.offset).0,
          length-append w.file doc,
          h.at_end,
        );
        seq = omega (arith, h.seq, longer);
        count = omega (arith, h.count, longer);
        each = All-append IsDocument docs (payloads ∷ []) h.each (hd, tt);
        few = omega (arith, longer);
      }

  -- A Writer that stands at the end of a Block with Documents, is not closed and appends Frames of
  -- a Document, at least one, fewer than 2 ^ 32, none over 64 KiB, with a size that is not
  -- negative, stands at the end of the Block with that Document last, and returns the digest, the
  -- size, the number of Frames, and the offset where the Document begins. With it, the Block has
  -- fewer than 2 ^ 32 Documents. CRC-32C is any function into the numbers below 2 ^ 32.
  pub append_document_frames-Holds :
      (w : Writer) (docs : List (List (List ℕ))) (frames : DocumentFrames)
      → Holds crc bound w docs
      → w.closed ≡ false
      → ltb_ℤ frames.size (pos 0) ≡ false
      → IsDocument frames.payloads
      → suc (length docs) < 2 ^ 32
      → let (w', result) = append_document_frames crc w frames in
        Holds crc bound w' (docs ++ frames.payloads ∷ [])
        × (result
            ≡ ok (record {
              sha256 = frames.sha256;
              size = frames.size;
              frame_count = length frames.payloads;
              first_frame_offset = length w.file;
            }))
  unfolding append_document_frames
  append_document_frames-Holds w docs frames h opened sized hd few =
      let loop =
        append_loop_lem (length frames.payloads) 0 frames.payloads w h.at_end (omega arith) hd.1
          hd.2 in
      let some_frame : (length frames.payloads == 0) ≡ false = ground (arith, hd.0) in
      let kept : length frames.payloads % 2 ^ 32 ≡ length frames.payloads = omega (arith, hd.1) in
      let begins : w.offset ≡ length w.file = h.at_end in
      let run =
        guards w.closed (ltb_ℤ frames.size (pos 0)) (length frames.payloads == 0) _ _ _ _ opened
          sized some_frame
        ∙ ap (appended crc frames w.offset) loop in
      subst
        (λ r.
          Holds crc bound r.0 (docs ++ frames.payloads ∷ [])
          × (r.1
              ≡ ok (record {
                sha256 = frames.sha256;
                size = frames.size;
                frame_count = length frames.payloads;
                first_frame_offset = length w.file;
              })))
        (sym run) (Holds-after_append w docs frames.payloads h hd few, rw (kept, begins))
