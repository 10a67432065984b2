-- ===== src/Block/Frame.antt =====
-- internal/block/frame.go: Frames, as bytes. CRC-32C is a parameter. A reader is the list of the
-- bytes that are left to read; a failing `io.Writer` or `io.Reader` is not modelled.
pub mod RoundTrip
use scrap.Common.{
  ℕ, zero, suc, ◌+◌, ◌%◌, ◌^◌, Bool, true, false, not, ◌&&◌, ◌||◌, List, [], ◌∷◌, ◌++◌, ltb, ◌==◌,
  if◌then◌else◌, length, take, drop,
}
use scrap.Common.Bytes.{put_le, get_le, slice, byte_at}
use scrap.Common.Result.{Result, ok, err, ◌>>=◌, ◌>>◌, fail_if}

abbrev pub frame_header_size : ℕ
frame_header_size = 32

abbrev pub max_frame_payload : ℕ
max_frame_payload = 65536

abbrev pub frame_magic : ℕ
frame_magic = 21315

abbrev pub frame_version : ℕ
frame_version = 1

abbrev pub flag_first_frame : ℕ
flag_first_frame = 1

abbrev pub flag_last_frame : ℕ
flag_last_frame = 2

abbrev pub flag_single_frame : ℕ
flag_single_frame = 3

-- The sentinel errors, and `io.EOF` wrapped by a read of nothing.
pub data FrameError : Type 0 where
  bad_magic : FrameError
  bad_version : FrameError
  crc_mismatch : FrameError
  header_crc : FrameError
  truncated : FrameError
  payload_limit : FrameError
  eof : FrameError

pub record FrameHeader : Type 0 where
  pub flags : ℕ
  pub doc_seq : ℕ
  pub frame_seq : ℕ
  pub payload_len : ℕ
  pub payload_crc : ℕ

module _ (crc : List ℕ → ℕ) where
  -- `buf[0:28]`
  abbrev pub header_bytes : FrameHeader → List ℕ → List ℕ
  header_bytes hdr payload =
      put_le 2 frame_magic
      ++ frame_version ∷ hdr.flags ∷ put_le 2 frame_header_size
      ++ put_le 2 0
      ++ put_le 4 hdr.doc_seq
      ++ put_le 4 hdr.frame_seq
      ++ put_le 4 (length payload)
      ++ put_le 4 (crc payload)
      ++ put_le 4 0

  abbrev pub frame_header : FrameHeader → List ℕ → List ℕ
  frame_header hdr payload = header_bytes hdr payload ++ put_le 4 (crc (header_bytes hdr payload))

  abbrev pub frame_bytes : FrameHeader → List ℕ → List ℕ
  frame_bytes hdr payload = frame_header hdr payload ++ payload

  -- The bytes that `WriteFrame` writes.
  unfoldable pub write_frame : FrameHeader → List ℕ → Result FrameError (List ℕ)
  write_frame hdr payload =
      if ltb max_frame_payload (length payload)
      then err payload_limit
      else ok (frame_bytes hdr payload)

-- `io.ReadFull` of a buffer: what is read and what is left.
unfoldable pub read_full : ℕ → List ℕ → Result FrameError (List ℕ × List ℕ)
read_full n input =
    if not (ltb (length input) n)
    then ok (take n input, drop n input)
    else if length input == 0
    then err eof
    else err truncated

module _ (crc : List ℕ → ℕ) where
  -- The header, the payload and what is left. The checks come in the order of the code.
  unfoldable pub read_frame : List ℕ → Result FrameError (FrameHeader × List ℕ × List ℕ)
  read_frame input = do
    (buf, rest) ← read_full frame_header_size input
    fail_if (not (crc (slice 0 28 buf) == get_le (slice 28 4 buf))) header_crc
    fail_if (not (get_le (slice 0 2 buf) == frame_magic)) bad_magic
    fail_if (not (byte_at 2 buf == frame_version)) bad_version
    fail_if (ltb max_frame_payload (get_le (slice 16 4 buf))) payload_limit
    (payload, rest) ← read_full (get_le (slice 16 4 buf)) rest
    fail_if (not (crc payload == get_le (slice 20 4 buf))) crc_mismatch
    ok (
      record {
        flags = byte_at 3 buf;
        doc_seq = get_le (slice 8 4 buf);
        frame_seq = get_le (slice 12 4 buf);
        payload_len = get_le (slice 16 4 buf);
        payload_crc = get_le (slice 20 4 buf);
      },
      payload,
      rest,
    )
