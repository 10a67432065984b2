-- ===== src/Block/Reader/Examples.antt =====
-- internal/block/reader.go: a Document of two Frames, in a Block of its own.
use scrap.Common.{ℕ, ◌≡◌, refl, arith, List, [], ◌∷◌, length, replicate}
use scrap.Common.Result.{ok}
use scrap.Block.Writer.{Writer, new_writer, append_document_frames}
use scrap.Block.Writer.Recovery.{Holds}
use scrap.Block.Writer.Append.{append_document_frames-Holds}
use scrap.Block.Reader.{
  StoredDocument, is_zero_sha256, read_document_frames_from_block, read_document_from_block,
}
use scrap.Block.Reader.Documents.{stored, read_document_from_block-Holds}
use scrap.Block.Reader.Integrity.{IsVerified, read_document_from_block-IsVerified}
use scrap.Block.Samples.{sum32, sum32-bound, empty_block, two_frames, empty_block-Holds}

abbrev filled_block : Writer
filled_block = (append_document_frames sum32 empty_block two_frames).0

filled_block-Holds : Holds sum32 sum32-bound filled_block (two_frames.payloads ∷ [])
unfolding new_writer
filled_block-Holds =
    (append_document_frames-Holds sum32 sum32-bound empty_block [] two_frames empty_block-Holds refl
      refl (omega arith, omega arith, (omega arith, (omega arith, tt))) (omega arith)).0

-- A digest of a kind.
abbrev padded : List ℕ → List ℕ
padded bytes = length bytes ∷ replicate 31 0

abbrev first_document : StoredDocument
first_document = stored sum32 sum32-bound empty_block two_frames.payloads (padded (1 ∷ 2 ∷ 3 ∷ []))

read_document_from_block-Holds_example :
    (read_document_frames_from_block sum32 filled_block.file filled_block.shard_id
        filled_block.block_id first_document
      ≡ ok ((1 ∷ 2 ∷ []) ∷ (3 ∷ []) ∷ []))
    × (read_document_from_block sum32 padded filled_block.file filled_block.shard_id
          filled_block.block_id first_document
        ≡ ok (1 ∷ 2 ∷ 3 ∷ []))
unfolding is_zero_sha256
read_document_from_block-Holds_example =
    read_document_from_block-Holds sum32 sum32-bound padded empty_block filled_block []
      two_frames.payloads [] empty_block-Holds filled_block-Holds refl

read_document_from_block-IsVerified_example :
    IsVerified sum32 padded filled_block.file filled_block.shard_id filled_block.block_id
      first_document
      (1 ∷ 2 ∷ 3 ∷ [])
read_document_from_block-IsVerified_example =
    read_document_from_block-IsVerified sum32 padded filled_block.file filled_block.shard_id
      filled_block.block_id first_document (1 ∷ 2 ∷ 3 ∷ []) read_document_from_block-Holds_example.1
