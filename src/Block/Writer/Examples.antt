-- ===== src/Block/Writer/Examples.antt =====
-- internal/block/writer.go: a Block with a Document of two Frames.
use scrap.Common.{◌≡◌, ◌≢◌, refl, arith, true, false, [], ◌∷◌, none, some}
use scrap.Common.Int.{pos}
use scrap.Common.Result.{ok, err}
use scrap.Block.Writer.{
  file_closed, new_writer, open_writer, append_document_frames, truncate, scan_writer_state,
  out_of_fuel,
}
use scrap.Block.Writer.Ends.{scan_writer_state_ends}
use scrap.Block.Writer.Recovery.{Holds, open_writer-recovers}
use scrap.Block.Writer.Append.{append_document_frames-Holds}
use scrap.Block.Writer.Truncate.{disturbed, truncate-undoes}
use scrap.Block.Samples.{sum32, sum32-bound, empty_block, two_frames, empty_block-Holds}

append_document_frames-Holds_example :
    let (w', result) = append_document_frames sum32 empty_block two_frames in
    Holds sum32 sum32-bound w' (two_frames.payloads ∷ [])
    × (result ≡ ok (record { sha256 = []; size = pos 3; frame_count = 2; first_frame_offset = 40 }))
unfolding new_writer
append_document_frames-Holds_example =
    append_document_frames-Holds sum32 sum32-bound empty_block [] two_frames empty_block-Holds refl
      refl (omega arith, omega arith, (omega arith, (omega arith, tt))) (omega arith)

open_writer-recovers_example :
    open_writer sum32 empty_block.file 2 7 ≡ ok (record empty_block { closed = false })
unfolding new_writer
open_writer-recovers_example =
    open_writer-recovers sum32 sum32-bound empty_block [] 2 7 empty_block-Holds

truncate-undoes_example :
    let junked = disturbed sum32 sum32-bound empty_block (1 ∷ 2 ∷ []) 90 1 1 in
    (empty_block.closed ≡ false → truncate sum32 junked empty_block.offset ≡ (empty_block, none))
    × (empty_block.closed ≡ true
        → truncate sum32 junked empty_block.offset ≡ (junked, some file_closed))
unfolding new_writer
truncate-undoes_example =
    truncate-undoes sum32 sum32-bound empty_block [] (1 ∷ 2 ∷ []) 90 1 1 empty_block-Holds
      (omega arith)

-- Bytes that are no Block.
scan_writer_state_ends_example : scan_writer_state sum32 (1 ∷ 2 ∷ 3 ∷ []) ≢ err out_of_fuel
scan_writer_state_ends_example = scan_writer_state_ends sum32 (1 ∷ 2 ∷ 3 ∷ [])
