-- ===== src/Shard/Commit.antt =====
-- internal/shard/projection.go and replay_conflict.go: the apply of a committed Document. The .idx
-- files are a function of the Block, with none for one that is not there; the writers of the open
-- Block are its ID. Refreshing the upload pressure and waking the uploader are left out.
pub mod Apply
pub mod Inspect
pub mod Preps
pub mod Replay
pub mod Listed
pub mod Counting
pub mod Appended
pub mod New
pub mod HalfDone
pub mod Resume
mod Examples
use scrap.Common.{
  ℕ, zero, suc, ◌+◌, ◌-◌, ◌^◌, Bool, true, false, not, ◌&&◌, Option, none, some, List, [], ◌∷◌,
  ◌++◌, ltb, leb, ◌==◌, if◌then◌else◌, length,
}
use scrap.Common.Int.{ℤ, pos, eq_ℤ}
use scrap.Common.Bytes.{same_bytes}
use scrap.Common.Result.{Result, ok, err, either, ◌>>=◌, and_then}
use scrap.Block.Index.{
  IndexEntry, read_index_entries, repair_index_tail, find, find_by_transaction, append, new_index,
}
use scrap.Index.{ConfirmedUpload}
use scrap.Index.Pebble.{Pebble}
use scrap.Index.Errors.{
  IndexError, transaction_not_found, pending_upload_not_found, confirmed_upload_not_found,
}
use scrap.Index.Entry.{Entry}
use scrap.Index.Store.{get, put, add_block_id, increment_doc_count}
use scrap.Index.Resolution.{ResolvedDocument, resolved}
use scrap.Index.Outbox.{PendingUpload, put_pending_upload, get_pending_upload}
use scrap.Index.Catalog.{Json, get_confirmed_upload}

pub data CommitError : Type 0 where
  data_loss : CommitError
  already_exists : CommitError
  apply_failed : CommitError

pub record CommitDocument : Type 0 where
  pub transaction_id : List ℕ
  pub document_name : List ℕ
  pub content_type : List ℕ
  pub block_id : ℕ
  pub first_frame_off : ℕ
  pub frame_count : ℕ
  pub total_bytes : ℤ
  pub sha256 : List ℕ
  pub created_at_us : ℤ
  pub encryption_envelope : List ℕ

abbrev pub Files : Type 0
Files = ℕ → Option (List ℕ)

abbrev pub set_file : Files → ℕ → List ℕ → Files
set_file files block_id file = λ other. if other == block_id then some file else files other

-- A `.prep` file of the openlog: what `openlogPrepMatchesCommit` reads of it.
pub record OpenlogPrep : Type 0 where
  pub transaction_id : List ℕ
  pub document_name : List ℕ
  pub block_id : ℕ
  pub start_offset : ℕ

pub record ShardState (D : Type 0) : Type 0 where
  pub db : D
  pub idx_files : Files
  pub block_sizes : ℕ → Option ℤ
  pub open_block : Option ℕ
  pub preps : List OpenlogPrep
  pub shard_id : ℕ
  pub upload_enabled : Bool

unfoldable pub duplicate_document_matches : List ℕ → List ℕ → ℤ → IndexEntry → Bool
duplicate_document_matches content_type sum size existing =
    same_bytes existing.content_type content_type
    && (eq_ℤ existing.total_bytes size && same_bytes existing.sha256 sum)

unfoldable pub commit_document_matches_existing : CommitDocument → IndexEntry → Bool
commit_document_matches_existing doc existing =
    if not (length doc.sha256 == 32)
    then false
    else duplicate_document_matches doc.content_type doc.sha256 doc.total_bytes existing

-- `target` is `existing` with its Block, and is there if `targetExists`.
pub record CommitState : Type 0 where
  pub target : Option ResolvedDocument
  pub target_counted : Bool

abbrev pub no_target : CommitState
no_target = record { target = none; target_counted = false }

-- An early return if a Document of the name was seen before.
abbrev pub unless_seen {ℓ} :
    {A : Type ℓ} → Option ResolvedDocument → Result CommitError A → Result CommitError A
unless_seen none rest = rest
unless_seen (some existing) rest = err data_loss

abbrev pub seen_target : ResolvedDocument → ℕ → ℕ → CommitState
seen_target existing seen doc_count = record {
  target = some existing;
  target_counted = leb seen doc_count;
}

-- `inspectCommitProjectionBlock`, with the count of the Documents that were seen.
unfoldable pub inspect_block :
    CommitDocument
    → ℕ
    → ℕ
    → ℕ
    → CommitState
    → List IndexEntry
    → Result CommitError (CommitState × ℕ)
inspect_block doc doc_count block_id seen state [] = ok (state, seen)
inspect_block doc doc_count block_id seen state (e ∷ entries) =
    if not (same_bytes e.doc_name doc.document_name)
    then inspect_block doc doc_count block_id (suc seen) state entries
    else unless_seen state.target (
        inspect_block doc doc_count block_id (suc seen)
          (seen_target (resolved block_id e) (suc seen) doc_count) entries)

abbrev pub is_block : List ℕ → ℕ → Bool
is_block [] block_id = false
is_block (other ∷ block_ids) block_id =
    if other == block_id then true else is_block block_ids block_id

-- `safeUint64ToInt64`
abbrev pub safe_uint64_to_int64 : ℕ → ℤ
safe_uint64_to_int64 v = if ltb (2 ^ 63 - 1) v then pos (2 ^ 63 - 1) else pos v

abbrev pub upload_generation_from_apply_index : ℕ → ℤ → ℤ
upload_generation_from_apply_index entry_index fallback =
    if ltb 0 entry_index && leb entry_index (2 ^ 63 - 1) then pos entry_index else fallback

abbrev pub committed_entry : CommitDocument → IndexEntry
committed_entry doc = record {
  transaction_id = doc.transaction_id;
  doc_name = doc.document_name;
  content_type = doc.content_type;
  created_at_us = doc.created_at_us;
  first_frame_off = safe_uint64_to_int64 doc.first_frame_off;
  frame_count = doc.frame_count;
  total_bytes = doc.total_bytes;
  sha256 = doc.sha256;
  encryption_envelope = doc.encryption_envelope;
}

-- `openlogPrepMatchesCommit`
unfoldable pub openlog_prep_matches_commit : OpenlogPrep → CommitDocument → Bool
openlog_prep_matches_commit prep doc =
    same_bytes prep.transaction_id doc.transaction_id
    && (same_bytes prep.document_name doc.document_name
        && (prep.block_id == doc.block_id && prep.start_offset == doc.first_frame_off))

-- The prep files that a cleanup leaves, when each removal is done.
abbrev pub kept_preps : CommitDocument → List OpenlogPrep → List OpenlogPrep
kept_preps doc [] = []
kept_preps doc (prep ∷ preps) =
    let rest = kept_preps doc preps in
    if openlog_prep_matches_commit prep doc then rest else prep ∷ rest

abbrev pub entry_error : IndexError → Result CommitError (Option Entry)
entry_error transaction_not_found = ok none
entry_error e = err data_loss

abbrev pub with_blocks : Entry → Result CommitError (Option Entry)
with_blocks entry = if length entry.block_ids == 0 then err data_loss else ok (some entry)

-- Whether a commit is already done, from what was found.
unfoldable pub handle_existing : CommitDocument → CommitState → Result CommitError Bool
handle_existing doc state = elim state.target [
  | none ↦ ok false
  | some existing ↦
      if state.target_counted
      then if commit_document_matches_existing doc existing.entry
        then ok true
        else err already_exists
      else if not (existing.block_id == doc.block_id)
      then err data_loss
      else if not (commit_document_matches_existing doc existing.entry)
      then err data_loss
      else ok false
]

abbrev pub inspected : CommitDocument → Entry → CommitState × ℕ → CommitState
inspected doc entry (state, seen) = elim state.target [
  | some existing ↦ state
  | none ↦ record {
    target = none;
    target_counted = is_block entry.block_ids doc.block_id && ltb seen entry.doc_count;
  }
]

module _ (crc : List ℕ → ℕ) where
  -- The entries of a file that may have a torn tail, which is repaired; none is a file that is not
  -- there.
  abbrev pub entries_of : Files → ℕ → Option (List ℕ) → Files × Result CommitError (List IndexEntry)
  entries_of files block_id none = (files, ok [])
  entries_of files block_id (some file) =
      either (read_index_entries crc file)
        (λ e.
          either (repair_index_tail crc file) (λ e. (files, err apply_failed))
            (λ repaired. (
              set_file files block_id repaired,
              either (read_index_entries crc repaired) (λ e. err apply_failed) ok,
            )))
        (λ entries. (files, ok entries))

  unfoldable pub block_index_entries_for_apply :
      Files → ℕ → List ℕ → Files × Result CommitError (List IndexEntry)
  block_index_entries_for_apply files block_id tx_id =
      and_then (entries_of files block_id (files block_id))
        (λ files entries. (files, ok (find_by_transaction tx_id entries)))

  -- The loop of `inspectCommitProjectionEntry` over the Blocks of a transaction.
  abbrev pub inspect_loop :
      CommitDocument
      → ℕ
      → List ℕ
      → ℕ
      → CommitState
      → Files
      → Files × Result CommitError (CommitState × ℕ)
  inspect_loop doc doc_count [] seen state files = (files, ok (state, seen))
  inspect_loop doc doc_count (block_id ∷ block_ids) seen state files =
      and_then (block_index_entries_for_apply files block_id doc.transaction_id) (λ files entries.
        and_then (files, inspect_block doc doc_count block_id seen state entries)
          (λ files next. inspect_loop doc doc_count block_ids next.1 next.0 files))

  unfoldable pub inspect_commit_projection_entry :
      Files → CommitDocument → Entry → Files × Result CommitError CommitState
  inspect_commit_projection_entry files doc entry =
      and_then (inspect_loop doc entry.doc_count entry.block_ids 0 no_target files)
        (λ files last. (files, ok (inspected doc entry last)))
