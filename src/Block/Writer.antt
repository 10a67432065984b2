-- ===== src/Block/Writer.antt =====
-- internal/block/writer.go: the Writer of a Block. The file is its bytes; an operating system that
-- fails a read, a write or a sync is not modelled. An offset is an ℕ, and a `uint32` counter
-- wraps at 2 ^ 32.
pub mod Scan
pub mod Ends
pub mod Recovery
pub mod Append
pub mod Truncate
mod Examples
use mathlib.Core.Option.{get_or}
use scrap.Common.{
  ℕ, zero, suc, ◌+◌, ◌-◌, ◌%◌, ◌^◌, Bool, true, false, not, ◌&&◌, ◌||◌, Option, none, some, List,
  [], ◌∷◌, ◌++◌, ltb, ◌==◌, if◌then◌else◌, length, take, drop, replicate,
}
use scrap.Common.Int.{ℤ, pos, ltb_ℤ}
use scrap.Common.Result.{Result, ok, err, ◌>>=◌, ◌>>◌, fail_if, either}
use scrap.Block.Frame.{
  FrameHeader, FrameError, frame_header_size, flag_first_frame, flag_last_frame, flag_single_frame,
  write_frame, read_frame,
}
use scrap.Block.Header.{HeaderError, header_size, block_header, verify_header}

pub data WriterError : Type 0 where
  closed : WriterError
  file_closed : WriterError
  negative_size : WriterError
  no_frames : WriterError
  frame : FrameError → WriterError
  incomplete : WriterError
  doc_seq_mismatch : WriterError
  frame_seq_mismatch : WriterError
  invalid_flags : WriterError
  corrupt : HeaderError → WriterError
  before_header : WriterError
  beyond_end : WriterError
  source_failed : WriterError
  out_of_fuel : WriterError

pub record AppendResult : Type 0 where
  pub sha256 : List ℕ
  pub size : ℤ
  pub frame_count : ℕ
  pub first_frame_offset : ℕ

pub record DocumentFrames : Type 0 where
  pub payloads : List (List ℕ)
  pub sha256 : List ℕ
  pub size : ℤ

pub record Writer : Type 0 where
  pub file : List ℕ
  pub shard_id : ℕ
  pub block_id : ℕ
  pub offset : ℕ
  pub doc_seq : ℕ
  pub doc_count : ℕ
  pub closed : Bool

-- The variables of the loop of `scanWriterState`.
pub record ScanState : Type 0 where
  pub offset : ℕ
  pub doc_seq : ℕ
  pub frame_seq : ℕ
  pub doc_count : ℕ

unfoldable pub frame_flags : ℕ → Bool → ℕ
frame_flags seq is_last =
    if seq == 0 && is_last
    then flag_single_frame
    else if seq == 0
    then flag_first_frame
    else if is_last
    then flag_last_frame
    else 0

unfoldable pub is_last_frame : ℕ → Bool
is_last_frame flags = flags == flag_last_frame || flags == flag_single_frame

unfoldable pub validate_writer_scan_frame : FrameHeader → ℕ → ℕ → Result WriterError (Unit {0})
unfolding frame_flags is_last_frame
validate_writer_scan_frame hdr doc_seq frame_seq = do
  fail_if (not (hdr.doc_seq == doc_seq)) doc_seq_mismatch
  fail_if (not (hdr.frame_seq == frame_seq)) frame_seq_mismatch
  fail_if (not (hdr.flags == frame_flags frame_seq (is_last_frame hdr.flags))) invalid_flags

-- A `uint32` that grows by one.
abbrev pub next32 : ℕ → ℕ
next32 n = (n + 1) % 2 ^ 32

abbrev pub advance : Bool → ℕ → ScanState → ScanState
advance true len s = record {
  offset = s.offset + (frame_header_size + len);
  doc_seq = next32 s.doc_seq;
  frame_seq = 0;
  doc_count = next32 s.doc_count;
}
advance false len s = record s {
  offset = s.offset + (frame_header_size + len);
  frame_seq = next32 s.frame_seq;
}

-- Where no Frame is read: a clean end of the file, or an error.
abbrev pub scan_end : ScanState → FrameError → Result WriterError ScanState
scan_end s FrameError.eof = if s.frame_seq == 0 then ok s else err incomplete
scan_end s e = err (frame e)

module _ (crc : List ℕ → ℕ) where
  -- The loop of `scanWriterState`; each round reads at least the header of a Frame.
  unfoldable pub scan_loop : ℕ → List ℕ → ScanState → Result WriterError ScanState
  scan_loop zero input s = err out_of_fuel
  scan_loop (suc fuel) input s = either (read_frame crc input) (scan_end s) (λ (hdr, payload, rest).
      either (validate_writer_scan_frame hdr s.doc_seq s.frame_seq) err
        (λ _. scan_loop fuel rest (advance (is_last_frame hdr.flags) (length payload) s)))

  abbrev pub scan_start : ScanState
  scan_start = record { offset = header_size; doc_seq = 0; frame_seq = 0; doc_count = 0 }

  unfoldable pub scan_writer_state : List ℕ → Result WriterError ScanState
  scan_writer_state file =
      let input = drop header_size file in scan_loop (suc (length input)) input scan_start

  unfoldable pub new_writer : ℕ → ℕ → ℕ → Writer
  new_writer shard_id block_id now_us = record {
    file = block_header crc shard_id block_id now_us;
    shard_id = shard_id;
    block_id = block_id;
    offset = header_size;
    doc_seq = 0;
    doc_count = 0;
    closed = false;
  }

  unfoldable pub open_writer : List ℕ → ℕ → ℕ → Result WriterError Writer
  open_writer file shard_id block_id =
      either (verify_header crc file shard_id block_id) (λ e. err (corrupt e))
        (λ _. either (scan_writer_state file) err (λ s. ok (record {
          file = file;
          shard_id = shard_id;
          block_id = block_id;
          offset = s.offset;
          doc_seq = s.doc_seq;
          doc_count = s.doc_count;
          closed = false;
        })))

-- A write at the offset of the file.
abbrev pub write_at : ℕ → List ℕ → List ℕ → List ℕ
write_at offset bytes file = take offset file ++ bytes ++ drop (offset + length bytes) file

abbrev pub write_bytes : Writer → List ℕ → ℕ → Writer
write_bytes w bytes payload_len = record w {
  file = write_at w.offset bytes w.file;
  offset = w.offset + (frame_header_size + payload_len);
}

abbrev pub new_header : ℕ → ℕ → Bool → FrameHeader
new_header doc_seq frame_seq is_last = record {
  flags = frame_flags frame_seq is_last;
  doc_seq = doc_seq;
  frame_seq = frame_seq;
  payload_len = 0;
  payload_crc = 0;
}

-- `os.File.Truncate`, which pads a shorter file.
abbrev pub truncate_file : ℕ → List ℕ → List ℕ
truncate_file n file = take n file ++ replicate (n - length file) 0

abbrev pub rescanned : Writer → Result WriterError ScanState → Writer × Option WriterError
rescanned w (err e) = (w, some e)
rescanned w (ok s) =
    (record w { offset = s.offset; doc_seq = s.doc_seq; doc_count = s.doc_count }, none)

module _ (crc : List ℕ → ℕ) where
  -- The loop of `AppendDocumentFrames` over `count` payloads, from the one at `frame_seq` on.
  unfoldable pub append_loop : ℕ → ℕ → List (List ℕ) → Writer → Writer × Option FrameError
  append_loop count frame_seq [] w = (w, none)
  append_loop count frame_seq (payload ∷ payloads) w =
      either
        (write_frame crc (new_header w.doc_seq (frame_seq % 2 ^ 32) (frame_seq == count - 1))
          payload)
        (λ e. (w, some e))
        (λ bytes. append_loop count (suc frame_seq) payloads (write_bytes w bytes (length payload)))

  abbrev pub count_document : Writer → Writer
  count_document w = record w { doc_seq = next32 w.doc_seq; doc_count = next32 w.doc_count }

  abbrev pub appended :
      DocumentFrames → ℕ → Writer × Option FrameError → Writer × Result WriterError AppendResult
  appended frames first_offset (w, some e) = (w, err (frame e))
  appended frames first_offset (w, none) = (
    count_document w,
    ok (record {
      sha256 = frames.sha256;
      size = frames.size;
      frame_count = length frames.payloads % 2 ^ 32;
      first_frame_offset = first_offset;
    }),
  )

  unfoldable pub append_document_frames :
      Writer → DocumentFrames → Writer × Result WriterError AppendResult
  append_document_frames w frames =
      if w.closed
      then (w, err closed)
      else if ltb_ℤ frames.size (pos 0)
      then (w, err negative_size)
      else if length frames.payloads == 0
      then (w, err no_frames)
      else appended frames w.offset (append_loop (length frames.payloads) 0 frames.payloads w)

  unfoldable pub truncate : Writer → ℕ → Writer × Option WriterError
  truncate w offset =
      if ltb offset header_size
      then (w, some before_header)
      else if ltb w.offset offset
      then (w, some beyond_end)
      else if w.closed
      then (w, some file_closed)
      else let file = truncate_file offset w.file in
        rescanned (record w { file = file }) (scan_writer_state crc file)

  unfoldable pub close : Writer → Writer
  close w = record w { closed = true }
