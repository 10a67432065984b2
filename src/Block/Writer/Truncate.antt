-- ===== src/Block/Writer/Truncate.antt =====
-- internal/block/writer.go: the abort of an append.
use scrap.Common.{
  ℕ, ◌-◌, ◌^◌, ◌≤◌, ◌<◌, ◌≡◌, refl, sym, ap, ◌∙◌, arith, false, List, [], ◌++◌, ltb, length,
  append-nil, length-append, take-append, none, some, true, Bool, if◌then◌else◌,
}
use scrap.Block.Header.{header_size, block_header}
use scrap.Block.Writer.{
  Writer, file_closed, truncate_file, rescanned, scan_writer_state, new_writer, truncate,
}
use scrap.Block.Writer.Scan.{documents_bytes}
use scrap.Block.Writer.Recovery.{Holds, Holds-scan}

module _ (crc : List ℕ → ℕ) (bound : (xs : List ℕ) → crc xs < 2 ^ 32) where
  -- A new Writer stands at the end of a Block with no Document.
  pub new_writer-Holds :
      (shard_id block_id now_us : ℕ)
      → shard_id < 2 ^ 64
      → block_id < 2 ^ 64
      → Holds crc bound (new_writer crc shard_id block_id now_us) []
  unfolding new_writer
  new_writer-Holds shard_id block_id now_us hs hb = record {
    now_us = now_us;
    bytes = sym (append-nil (block_header crc shard_id block_id now_us));
    shard = hs;
    block = hb;
    at_end = refl;
    seq = refl;
    count = refl;
    each = tt;
    few = omega arith;
  }

  truncate_file-append : (file junk : List ℕ) → truncate_file (length file) (file ++ junk) ≡ file
  truncate_file-append file junk =
      let long : length file - length (file ++ junk) ≡ 0 = omega (arith, length-append file junk) in
      rw (take-append file junk, long) (append-nil file)

  after_header :
      (w : Writer) (docs : List (List (List ℕ))) → Holds crc bound w docs → header_size ≤ w.offset
  after_header w docs h =
      let header = block_header crc w.shard_id w.block_id h.now_us in
      let whole = ap length h.bytes ∙ length-append header (documents_bytes crc 0 docs) in
      omega (arith, h.at_end, whole)

  -- The Writer after an append that was not finished: there are more bytes, the offset is not
  -- before the one where it began, and the counters are any.
  abbrev pub disturbed : Writer → List ℕ → ℕ → ℕ → ℕ → Writer
  disturbed w junk offset doc_seq doc_count = record w {
    file = w.file ++ junk;
    offset = offset;
    doc_seq = doc_seq;
    doc_count = doc_count;
  }

  -- Whatever bytes an append has added after the Documents of a Block, and whatever it has done to
  -- the counters, a truncation to the offset where it began succeeds, if the Writer is not closed,
  -- and gives back the Writer as it was then, its file, its offset and its counters; if the Writer is
  -- closed, it fails and changes nothing.
  pub truncate-undoes :
      (w : Writer) (docs : List (List (List ℕ))) (junk : List ℕ) (offset doc_seq doc_count : ℕ)
      → Holds crc bound w docs
      → w.offset ≤ offset
      → let junked = disturbed w junk offset doc_seq doc_count in
        (w.closed ≡ false → truncate crc junked w.offset ≡ (w, none))
        × (w.closed ≡ true → truncate crc junked w.offset ≡ (junked, some file_closed))
  unfolding truncate
  truncate-undoes w docs junk offset doc_seq doc_count h later =
      let first : ltb w.offset header_size ≡ false = ground (arith, after_header w docs h) in
      let last : ltb offset w.offset ≡ false = ground arith in
      let cut : truncate_file w.offset (w.file ++ junk) ≡ w.file =
        ap (λ n. truncate_file n (w.file ++ junk)) h.at_end ∙ truncate_file-append w.file junk in
      let junked = disturbed w junk offset doc_seq doc_count in
      let tried =
        rescanned (record junked { file = truncate_file w.offset junked.file })
          (scan_writer_state crc (truncate_file w.offset junked.file)) in
      let guarded : truncate crc junked w.offset
          ≡ (if w.closed then (junked, some file_closed) else tried) =
        rw (first, last) in
      let by_closed = λ (closed : Bool). if closed then (junked, some file_closed) else tried in
      (
        λ opened.
            guarded
            ∙ (ap by_closed opened
                ∙ (ap
                      (λ file.
                        rescanned (record junked { file = file }) (scan_writer_state crc file))
                      cut
                    ∙ ap (rescanned (record junked { file = w.file }))
                        (Holds-scan crc bound w docs h))),
        λ shut. guarded ∙ ap by_closed shut,
      )
