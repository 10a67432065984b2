-- ===== src/Block/Frame/RoundTrip.antt =====
-- internal/block/frame.go: the read of a Frame that was written.
use scrap.Common.{
  ℕ, ◌^◌, ◌≤◌, ◌<◌, ◌≡◌, refl, sym, ap, ◌∙◌, arith, Bool, true, false, List, ◌++◌, ltb, ==_refl,
  if◌then◌else◌, length, take-append, drop-append, length-append,
}
use scrap.Common.Bytes.{get_le-put_le}
use scrap.Common.Result.{ok, err}
use scrap.Block.Frame.{
  FrameHeader, payload_limit, max_frame_payload, header_bytes, frame_header, frame_bytes,
  write_frame, read_full, read_frame,
}

pub read_full-append : (xs ys : List ℕ) → read_full (length xs) (xs ++ ys) ≡ ok (xs, ys)
unfolding read_full
read_full-append xs ys =
    let long : ltb (length (xs ++ ys)) (length xs) ≡ false = ground (arith, length-append xs ys) in
    rw (long, take-append xs ys, drop-append xs ys)

module _ (crc : List ℕ → ℕ) where
  -- The header that is read for a Frame.
  abbrev pub read_header : FrameHeader → List ℕ → FrameHeader
  read_header hdr payload = record hdr { payload_len = length payload; payload_crc = crc payload }

  pub write_frame-eq-ok :
      (hdr : FrameHeader) (payload : List ℕ)
      → length payload ≤ max_frame_payload
      → write_frame crc hdr payload ≡ ok (frame_bytes crc hdr payload)
  unfolding write_frame
  write_frame-eq-ok hdr payload h =
      let fits : ltb max_frame_payload (length payload) ≡ false = ground arith in rw fits

  pub read_frame-append :
      ((xs : List ℕ) → crc xs < 2 ^ 32)
      → (hdr : FrameHeader) (payload rest : List ℕ) → length payload ≤ max_frame_payload
      → hdr.doc_seq < 2 ^ 32
      → hdr.frame_seq < 2 ^ 32
      → read_frame crc (frame_bytes crc hdr payload ++ rest)
        ≡ ok (read_header hdr payload, payload, rest)
  unfolding read_frame
  read_frame-append bound hdr payload rest hl hd hf =
      let fits : ltb max_frame_payload (length payload) ≡ false = ground arith in
      let short : length payload < 256 ^ 4 = omega arith in
      rw (
        read_full-append (frame_header crc hdr payload) (payload ++ rest),
        get_le-put_le 4 (crc (header_bytes crc hdr payload)) (bound (header_bytes crc hdr payload)),
        get_le-put_le 4 hdr.doc_seq hd,
        get_le-put_le 4 hdr.frame_seq hf,
        get_le-put_le 4 (length payload) short,
        get_le-put_le 4 (crc payload) (bound payload),
        ==_refl (crc (header_bytes crc hdr payload)),
        fits,
        read_full-append payload rest,
        ==_refl (crc payload),
      )

  -- What was written fits, and it is the Frame.
  write_frame-fits :
      (hdr : FrameHeader) (payload bytes : List ℕ)
      → write_frame crc hdr payload ≡ ok bytes
      → (length payload ≤ max_frame_payload) × (frame_bytes crc hdr payload ≡ bytes)
  unfolding write_frame
  write_frame-fits hdr payload bytes h = split (ltb max_frame_payload (length payload)) refl h
    where
      split :
          (b : Bool)
          → ltb max_frame_payload (length payload) ≡ b
          → (if b then err payload_limit else ok (frame_bytes crc hdr payload)) ≡ ok bytes
          → (length payload ≤ max_frame_payload) × (frame_bytes crc hdr payload ≡ bytes)
      split true e h = cc
      split false e h = (ground arith, cc)

  -- What is written for a Frame whose sequence numbers are of a `uint32` is read, whatever comes
  -- after it, as its header, with the length and the checksum of the payload, and its payload, and
  -- what comes after it is left. CRC-32C is any function into the numbers below 2 ^ 32.
  read_frame-write_frame :
      ((xs : List ℕ) → crc xs < 2 ^ 32)
      → (hdr : FrameHeader) (payload bytes rest : List ℕ) → write_frame crc hdr payload ≡ ok bytes
      → hdr.doc_seq < 2 ^ 32
      → hdr.frame_seq < 2 ^ 32
      → read_frame crc (bytes ++ rest) ≡ ok (read_header hdr payload, payload, rest)
  read_frame-write_frame bound hdr payload bytes rest h hd hf =
      let (fits, same) = write_frame-fits hdr payload bytes h in
      ap (λ xs. read_frame crc (xs ++ rest)) (sym same)
      ∙ read_frame-append bound hdr payload rest fits hd hf
