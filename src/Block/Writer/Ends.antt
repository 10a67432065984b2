-- ===== src/Block/Writer/Ends.antt =====
-- internal/block/writer.go: the scan of any file, and its fuel.
use scrap.Common.{
  ℕ, zero, suc, ◌+◌, ◌≤◌, ◌<◌, ◌≡◌, ◌≢◌, refl, ap, arith, Bool, true, false, not, List, ltb, ◌==◌,
  if◌then◌else◌, length, take, drop, length-drop,
}
use scrap.Common.Bytes.{get_le, slice, byte_at}
use scrap.Common.Result.{Result, ok, err, either, ◌>>=◌, fail_if, >>=-eq-ok}
use scrap.Block.Frame.{
  FrameHeader, FrameError, header_crc, bad_magic, bad_version, payload_limit, crc_mismatch, eof,
  truncated, frame_magic, frame_version, max_frame_payload, read_full, read_frame,
}
use scrap.Block.Header.{header_size}
use scrap.Block.Writer.{
  WriterError, out_of_fuel, ScanState, validate_writer_scan_frame, frame_flags, is_last_frame,
  advance, scan_end, scan_loop, scan_start, scan_writer_state,
}

read_full-length :
    (n : ℕ) (input buf rest : List ℕ)
    → read_full n input ≡ ok (buf, rest)
    → length rest + n ≡ length input
unfolding read_full
read_full-length n input buf rest h = split (ltb (length input) n) refl h
  where
    split :
        (b : Bool)
        → ltb (length input) n ≡ b
        → ◌≡◌ {A = Result FrameError (List ℕ × List ℕ)}
            (if not b
              then ok (take n input, drop n input)
              else if length input == 0
              then err eof
              else err truncated)
            (ok (buf, rest))
        → length rest + n ≡ length input
    split true e h = short (length input == 0) h
      where
        short :
            (z : Bool)
            → ◌≡◌ {A = Result FrameError (List ℕ × List ℕ)}
                (if z then err eof else err truncated)
                (ok (buf, rest))
            → length rest + n ≡ length input
        short true h = cc
        short false h = cc
    split false e h =
        let left : drop n input ≡ rest = cc in
        let fits : n ≤ length input = ground arith in
        omega (arith, ap length left, length-drop n input, fits)

module _ (crc : List ℕ → ℕ) where
  -- A Frame that is read takes at least its header.
  read_frame-length :
      (input payload rest : List ℕ) (hdr : FrameHeader)
      → read_frame crc input ≡ ok (hdr, payload, rest)
      → length rest < length input
  unfolding read_frame
  read_frame-length input payload rest hdr h =
      let (r, hr, h1) = >>=-eq-ok (read_full 32 input) _ h in
      let buf = r.0 in
      let (u1, _, h2) =
        >>=-eq-ok (fail_if (not (crc (slice 0 28 buf) == get_le (slice 28 4 buf))) header_crc) _
          h1 in
      let (u2, _, h3) =
        >>=-eq-ok (fail_if (not (get_le (slice 0 2 buf) == frame_magic)) bad_magic) _ h2 in
      let (u3, _, h4) =
        >>=-eq-ok (fail_if (not (byte_at 2 buf == frame_version)) bad_version) _ h3 in
      let (u4, _, h5) =
        >>=-eq-ok (fail_if (ltb max_frame_payload (get_le (slice 16 4 buf))) payload_limit) _ h4 in
      let (q, hq, h6) = >>=-eq-ok (read_full (get_le (slice 16 4 buf)) r.1) _ h5 in
      let (u5, _, h7) =
        >>=-eq-ok (fail_if (not (crc q.0 == get_le (slice 20 4 buf))) crc_mismatch) _ h6 in
      let same : q.1 ≡ rest = cc in
      let whole : length r.1 + 32 ≡ length input = read_full-length 32 input r.0 r.1 hr in
      let part : length q.1 + get_le (slice 16 4 buf) ≡ length r.1 =
        read_full-length (get_le (slice 16 4 buf)) r.1 q.0 q.1 hq in
      omega (arith, whole, part, ap length same)

  scan_end_lem : (s : ScanState) (e : FrameError) → scan_end s e ≢ err out_of_fuel
  scan_end_lem s FrameError.eof = split (s.frame_seq == 0)
    where
      split : (b : Bool) → (if b then ok s else err WriterError.incomplete) ≢ err out_of_fuel
      split true = λ h. cc
      split false = λ h. cc
  scan_end_lem s FrameError.bad_magic = λ h. cc
  scan_end_lem s FrameError.bad_version = λ h. cc
  scan_end_lem s FrameError.crc_mismatch = λ h. cc
  scan_end_lem s FrameError.header_crc = λ h. cc
  scan_end_lem s FrameError.truncated = λ h. cc
  scan_end_lem s FrameError.payload_limit = λ h. cc

  validate_writer_scan_frame_lem :
      (hdr : FrameHeader) (doc_seq frame_seq : ℕ)
      → validate_writer_scan_frame hdr doc_seq frame_seq ≢ err out_of_fuel
  unfolding validate_writer_scan_frame
  validate_writer_scan_frame_lem hdr doc_seq frame_seq =
      split (not (hdr.doc_seq == doc_seq)) (not (hdr.frame_seq == frame_seq))
        (not (hdr.flags == frame_flags frame_seq (is_last_frame hdr.flags)))
    where
      split :
          (a b c : Bool)
          → (fail_if a WriterError.doc_seq_mismatch >>= (λ x.
              fail_if b WriterError.frame_seq_mismatch
              >>= (λ y. fail_if c WriterError.invalid_flags)))
            ≢ err out_of_fuel
      split true b c = λ h. cc
      split false true c = λ h. cc
      split false false true = λ h. cc
      split false false false = λ h. cc

  -- The rounds that are left do not run out of fuel.
  abbrev EndsWithin : ℕ → Type 0
  EndsWithin fuel =
      (input : List ℕ) (s : ScanState)
      → length input < fuel
      → scan_loop crc fuel input s ≢ err out_of_fuel

  checked_lem :
      (fuel : ℕ) (v : Result WriterError (Unit {0})) (rest : List ℕ) (s : ScanState)
      → EndsWithin fuel
      → v ≢ err out_of_fuel
      → length rest < fuel
      → either v err (λ x. scan_loop crc fuel rest s) ≢ err out_of_fuel
  checked_lem fuel (ok u) rest s ends fine less = ends rest s less
  checked_lem fuel (err e) rest s ends fine less =
      λ h. let same : e ≡ out_of_fuel = cc in fine (ap err same)

  round_lem :
      (fuel : ℕ) (input : List ℕ) (s : ScanState)
      (r : Result FrameError (FrameHeader × List ℕ × List ℕ))
      → EndsWithin fuel
      → length input < suc fuel
      → read_frame crc input ≡ r
      → either r (scan_end s) (λ (hdr, payload, rest).
        either
          (validate_writer_scan_frame hdr s.doc_seq s.frame_seq)
          err
          (λ x. scan_loop crc fuel rest (advance (is_last_frame hdr.flags) (length payload) s)))
        ≢ err out_of_fuel
  round_lem fuel input s (err e) ends enough h = scan_end_lem s e
  round_lem fuel input s (ok r) ends enough h =
      checked_lem fuel (validate_writer_scan_frame r.0 s.doc_seq s.frame_seq) r.2
        (advance (is_last_frame r.0.flags) (length r.1) s) ends
        (validate_writer_scan_frame_lem r.0 s.doc_seq s.frame_seq)
        (omega (arith, read_frame-length input r.1 r.2 r.0 h))

  scan_loop_lem : (fuel : ℕ) → EndsWithin fuel
  unfolding scan_loop
  scan_loop_lem zero input s enough = λ h. ground arith
  scan_loop_lem (suc fuel) input s enough =
      round_lem fuel input s (read_frame crc input) (scan_loop_lem fuel) enough refl

-- The scan of a file ends: with any bytes in it, it finds the state of a Writer or an error of the
-- file, and never runs out of fuel.
pub scan_writer_state_ends :
    (crc : List ℕ → ℕ) (file : List ℕ) → scan_writer_state crc file ≢ err out_of_fuel
unfolding scan_writer_state
scan_writer_state_ends crc file =
    scan_loop_lem crc (suc (length (drop header_size file))) (drop header_size file)
      (scan_start crc) (omega arith)
