-- ===== src/Lib.antt =====
-- S.C.R.A.P. stores the Documents of a transaction in Blocks, append-only files of a Shard, uploads
-- a Block once it is sealed, and evicts the local copies of uploaded Blocks to free disk space.
--
-- The parts and their files:
--
-- - Common: Boolean tests and lists over the native numbers, Go's int64 (Common.Int), a value and
--   an error (Common.Result), maps (Common.Assoc) and bytes (Common.Bytes).
-- - Eviction is internal/eviction. types.go is Eviction, planner.go (BuildPlan) is Eviction.Planner,
--   apply.go (ApplyBlocks) is Eviction.Apply, campaigns.go (StorePlan, BeginApply, FinishApply,
--   Status) is Eviction.Campaigns. A campaign is planned, its plan is stored, an apply of it begins
--   and finishes; the state is the record of the three maps of the Campaigns object.
-- - LocalBlock is internal/localblock. The markers and their validation are LocalBlock.Marker, the
--   blocks directory is LocalBlock.Disk, lifecycle.go (Classify, CleanupHotMarkers) is
--   LocalBlock.Lifecycle and transitions.go (PrepareEviction, UnlinkBlockData, PublishRestoredBlock,
--   RecordRestoreScan) is LocalBlock.Transitions. Code that calls the operating system is a function
--   of the directory and of the faults to come: each call is done, fails, or is the one in which the
--   process is killed. LocalBlock.Disk.Hoare holds the rules by which such code is reasoned about.
-- - Shard.EvictionApply is internal/shard/eviction_apply.go (applyEvictionBlockLocked and what it
--   calls) with the two functions of internal/shard/restore.go that it shares. It works on the
--   directory of LocalBlock and gives the results that Eviction.Apply counts. What the Raft node, the
--   clock and the upload record answer at each point are parameters.
-- - Shard.Commit is the apply of a committed Document, applyCommitDocument of
--   internal/shard/projection.go with replay_conflict.go. The inspection of what is there is
--   Shard.Commit and the rest Shard.Commit.Apply. It works on the database of Index and on .idx files
--   of Block.Index, and is what keeps the two in step.
-- - Admission is internal/admission/budget.go (New, Acquire, Release): the budget of bytes that
--   writes, transfers and restores share, and the runs of its calls.
-- - Routing is internal/routing. hash.go is Routing.Hash, placement.go (NewPlacement, addRange,
--   Lookup) is Routing.Placement and router.go is Routing.Router. Routing.Placement.Owners says what
--   the ranges of a configuration give each slot to.
-- - Ulid is internal/ulid: Compare, String, Parse and the Generator (New, incrementRandom). The
--   readings of the clock are a list, and a New that waits for one beyond it has no result.
-- - Index is internal/index, the projection of a Shard in a Pebble database, whose operations and
--   laws are the record Index.Pebble.Pebble. The entries of index.go are Index.Entry and the calls
--   Put, Get, AddBlockID and IncrementDocCount Index.Store; Index.Store.Spec is the same calls on a
--   function from transactions to entries. resolution.go is Index.Resolution, which reads the .idx
--   files of Block.Index; upload_outbox.go is Index.Outbox, confirmed_upload_catalog.go is
--   Index.Catalog, and scanner_watermark.go, applied_index.go and the hash of index.go are
--   Index.Watermark, and content_quarantine.go (PutContentQuarantine, ConfirmContentQuarantine,
--   ReleaseContentQuarantine) is Index.Quarantine.
-- - Block is internal/block. frame.go is Block.Frame, header.go is Block.Header, writer.go
--   (NewWriter, OpenWriter, AppendDocumentFrames, Truncate) is Block.Writer, reader.go
--   (ReadDocumentFromBlock, ReadDocumentFrames) is Block.Reader and index.go (Append,
--   RepairIndexTail, the reader) is Block.Index. That a Writer stands at the end of a Block of known
--   Documents is Block.Writer.Recovery.Holds, which the results on Blocks start from. Files are
--   lists of bytes, CRC-32C is any function into the numbers below 2 ^ 32, and SHA-256 is any
--   function.
--
-- Loops are structural, but those that read a file run on fuel: the length of what is left to read
-- and one, which is enough because each round reads at least a header or a length prefix. The
-- results on well-formed files give the value, and Block.Writer.Ends treats the scan of any file.
--
-- Not modelled: the texts of errors, temporary files, the loss of power (what a call of the operating
-- system has done stays done when the process is killed), reads and writes that fail in Block, the
-- order in which sort.Slice puts equal Block IDs, and the other parts of the program, above all Raft,
-- the other commands that a Shard applies, transport and the object store.
pub mod Common
pub mod Ulid
pub mod Routing
pub mod Eviction
pub mod LocalBlock
pub mod Admission
pub mod Index
pub mod Block
pub mod Shard
