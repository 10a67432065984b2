-- ===== src/Block/Samples.antt =====
-- Small inputs for the tests of internal/block: a sum in place of the checksum, a new Block, a
-- Document of two Frames and an entry of an index.
use scrap.Common.{refl, replicate, ℕ, ◌^◌, ◌<◌, ◌+◌, ◌%◌, arith, List, [], ◌∷◌}
use scrap.Common.Int.{pos, negsuc}
use scrap.Block.Index.{IndexEntry, encode_index_entry}
use scrap.Block.Index.Entry.{IsEntry}
use scrap.Block.Index.Read.{IsStored}
use scrap.Block.Writer.{Writer, DocumentFrames, new_writer}
use scrap.Block.Writer.Recovery.{Holds}
use scrap.Block.Writer.Truncate.{new_writer-Holds}

abbrev pub sum32 : List ℕ → ℕ
sum32 [] = 0
sum32 (b ∷ bs) = (b + sum32 bs) % 2 ^ 32

pub sum32-bound : (xs : List ℕ) → sum32 xs < 2 ^ 32
sum32-bound [] = omega arith
sum32-bound (b ∷ bs) = omega arith

abbrev pub empty_block : Writer
empty_block = new_writer sum32 2 7 1000

abbrev pub two_frames : DocumentFrames
two_frames = record { payloads = (1 ∷ 2 ∷ []) ∷ (3 ∷ []) ∷ []; sha256 = []; size = pos 3 }

pub empty_block-Holds : Holds sum32 sum32-bound empty_block []
empty_block-Holds = new_writer-Holds sum32 sum32-bound 2 7 1000 (omega arith) (omega arith)

abbrev pub small_entry : IndexEntry
small_entry = record {
  transaction_id = 116 ∷ 49 ∷ [];
  doc_name = 97 ∷ [];
  content_type = [];
  created_at_us = negsuc 4;
  first_frame_off = pos 40;
  frame_count = 1;
  total_bytes = pos 3;
  sha256 = replicate 32 7;
  encryption_envelope = 1 ∷ 2 ∷ [];
}

pub small_entry-IsEntry : IsEntry small_entry
small_entry-IsEntry = record {
  transaction_id = omega arith;
  doc_name = omega arith;
  content_type = omega arith;
  envelope = omega arith;
  created_at = (omega arith, omega arith);
  first_frame_off = (omega arith, omega arith);
  total_bytes = (omega arith, omega arith);
  frame_count = omega arith;
  sha256 = refl;
}

pub small_entry-IsStored : IsStored small_entry
unfolding encode_index_entry
small_entry-IsStored = record { valid = small_entry-IsEntry; small = omega arith }
