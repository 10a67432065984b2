-- ===== src/Shard/Commit/Apply.antt =====
-- internal/shard/projection.go: `applyCommitDocument` with the database of the projection.
use scrap.Common.{
  ℕ, Bool, true, false, not, ◌&&◌, Option, none, some, List, [], ◌∷◌, ◌==◌, if◌then◌else◌, length,
}
use scrap.Common.Int.{ℤ}
use scrap.Common.Result.{Result, ok, err, either, ◌>>=◌, and_then}
use scrap.Block.Index.{IndexEntry, find, append}
use scrap.Index.{ConfirmedUpload}
use scrap.Index.Pebble.{Pebble}
use scrap.Index.Errors.{IndexError, transaction_not_found, pending_upload_not_found}
use scrap.Index.Entry.{Entry}
use scrap.Index.Store.{get, put, add_block_id, increment_doc_count}
use scrap.Index.Outbox.{PendingUpload, put_pending_upload, get_pending_upload}
use scrap.Index.Catalog.{Json, get_confirmed_upload}
use scrap.Shard.Commit.{
  CommitError, data_loss, apply_failed, CommitDocument, set_file, ShardState, CommitState,
  no_target, upload_generation_from_apply_index, committed_entry, kept_preps, entries_of,
  inspect_commit_projection_entry, entry_error, with_blocks, handle_existing,
}

module _ (crc : List ℕ → ℕ) {D : Type 0} (p : Pebble D) (json : Json) where
  unfoldable pub commit_projection_entry : D → List ℕ → Result CommitError (Option Entry)
  commit_projection_entry d tx_id = either (get p d tx_id) entry_error with_blocks

  abbrev pub inspect_entry :
      ShardState D → CommitDocument → Option Entry → ShardState D × Result CommitError CommitState
  inspect_entry s doc none = (s, ok no_target)
  inspect_entry s doc (some entry) =
      let (files, found) = inspect_commit_projection_entry crc s.idx_files doc entry in
      (record s { idx_files = files }, found)

  unfoldable pub inspect_commit_projection_state :
      ShardState D → CommitDocument → ShardState D × Result CommitError CommitState
  inspect_commit_projection_state s doc =
      and_then (s, commit_projection_entry s.db doc.transaction_id)
        (λ s entry. inspect_entry s doc entry)

  abbrev cardinality : Entry → Result CommitError (Unit {0})
  cardinality entry = if entry.doc_count == 65535 then err apply_failed else ok tt

  abbrev missing_is_fine : IndexError → Result CommitError (Unit {0})
  missing_is_fine transaction_not_found = ok tt
  missing_is_fine e = err apply_failed

  unfoldable pub preflight_projection_doc_count : D → List ℕ → Result CommitError (Unit {0})
  preflight_projection_doc_count d tx_id = either (get p d tx_id) missing_is_fine cardinality

  -- An error of the Index, as one of the apply.
  abbrev pub as_failed : D × Result IndexError (Unit {0}) → D × Result CommitError (Unit {0})
  as_failed (d, out) = (d, either out (λ e. err apply_failed) ok)

  abbrev pub is_last : List ℕ → ℕ → Bool
  is_last [] block_id = false
  is_last (other ∷ []) block_id = other == block_id
  is_last (other ∷ next ∷ block_ids) block_id = is_last (next ∷ block_ids) block_id

  abbrev add_to : D → List ℕ → ℕ → Entry → D × Result CommitError (Unit {0})
  add_to d tx_id block_id existing =
      and_then
        (if is_last existing.block_ids block_id
          then (d, ok tt)
          else as_failed (add_block_id p d tx_id block_id))
        (λ d done. as_failed (increment_doc_count p d tx_id))

  abbrev add_first : D → List ℕ → ℕ → IndexError → D × Result CommitError (Unit {0})
  add_first d tx_id block_id transaction_not_found = as_failed (put p d tx_id block_id 1 false)
  add_first d tx_id block_id e = (d, err apply_failed)

  unfoldable pub add_projection_document : D → List ℕ → ℕ → D × Result CommitError (Unit {0})
  add_projection_document d tx_id block_id =
      either (get p d tx_id) (add_first d tx_id block_id) (add_to d tx_id block_id)

  abbrev confirmed_size : Result IndexError ConfirmedUpload → Result CommitError ℤ
  confirmed_size (ok confirmed) = ok confirmed.sealed_size_bytes
  confirmed_size (err e) = err apply_failed

  abbrev pending_size : D → ℕ → Result IndexError PendingUpload → Result CommitError ℤ
  pending_size d block_id (ok pending) = ok pending.sealed_size_bytes
  pending_size d block_id (err pending_upload_not_found) =
      confirmed_size (get_confirmed_upload json p d block_id)
  pending_size d block_id (err e) = err apply_failed

  unfoldable pub sealed_size_for_upload_requeue : ShardState D → ℕ → Result CommitError ℤ
  sealed_size_for_upload_requeue s block_id = elim (s.block_sizes block_id) [
    | some size ↦ ok size
    | none ↦ pending_size s.db block_id (get_pending_upload p s.db block_id)
  ]

  abbrev pub with_db :
      ShardState D
      → D × Result CommitError (Unit {0})
      → ShardState D × Result CommitError (Unit {0})
  with_db s (d, out) = (record s { db = d }, out)

  unfoldable pub requeue_block_upload :
      ShardState D → ℕ → ℤ → ShardState D × Result CommitError (Unit {0})
  requeue_block_upload s block_id generation =
      if not s.upload_enabled
      then (s, ok tt)
      else and_then (s, sealed_size_for_upload_requeue s block_id)
          (λ s size. with_db s (
            as_failed (
              put_pending_upload p s.db (record {
                block_id = block_id;
                shard_id = s.shard_id;
                sealed_size_bytes = size;
                sealed_at_us = generation;
                upload_generation = generation;
              }))))

  -- A file that an append of `block.IndexWriter` leaves.
  abbrev pub append_to :
      ShardState D → ℕ → IndexEntry → List ℕ → ShardState D × Result CommitError (Unit {0})
  append_to s block_id e file =
      either (append crc file e) (λ e. (s, err apply_failed))
        (λ next. (record s { idx_files = set_file s.idx_files block_id next }, ok tt))

  -- An append to the index of a Block that is not open. A file that is there was read before.
  abbrev pub append_historical :
      ShardState D → ℕ → IndexEntry → ShardState D × Result CommitError (Unit {0})
  append_historical s block_id e = elim (s.idx_files block_id) [
    | none ↦ (s, err apply_failed)
    | some file ↦ append_to s block_id e file
  ]

  abbrev pub is_found : Option IndexEntry → Bool
  is_found none = false
  is_found (some e) = true

  -- `blockIndexContainsDocumentRepairingTail`; a file that is not there is an error here.
  abbrev pub contains_in :
      ShardState D → CommitDocument → Option (List ℕ) → ShardState D × Result CommitError Bool
  contains_in s doc none = (s, err apply_failed)
  contains_in s doc (some file) =
      let (files, found) = entries_of crc s.idx_files doc.block_id (some file) in
      (
        record s { idx_files = files },
        found >>= (λ entries. ok (is_found (find doc.transaction_id doc.document_name entries))),
      )

  unfoldable pub block_index_contains :
      ShardState D → CommitDocument → ShardState D × Result CommitError Bool
  block_index_contains s doc = contains_in s doc (s.idx_files doc.block_id)

  abbrev pub is_open : ShardState D → ℕ → Bool
  is_open s block_id = elim s.open_block [ none ↦ false | some id ↦ id == block_id ]

  unfoldable pub append_document_index_entry :
      ShardState D → CommitDocument → ℕ → Bool → ShardState D × Result CommitError (Unit {0})
  append_document_index_entry s doc entry_index already_indexed =
      if is_open s doc.block_id
      then if already_indexed
        then (s, ok tt)
        else append_historical s doc.block_id (committed_entry doc)
      else let generation = upload_generation_from_apply_index entry_index doc.created_at_us in
        and_then (block_index_contains s doc) (λ s contains.
          if contains
          then requeue_block_upload s doc.block_id generation
          else and_then (append_historical s doc.block_id (committed_entry doc))
              (λ s done. requeue_block_upload s doc.block_id generation))

  unfoldable pub cleanup_committed_openlog_preps : ShardState D → CommitDocument → ShardState D
  cleanup_committed_openlog_preps s doc = record s { preps = kept_preps doc s.preps }

  abbrev pub is_target : CommitState → Bool
  is_target state = elim state.target [ none ↦ false | some existing ↦ true ]

  -- `applyCommitDocument` after the Document was found not to be done.
  abbrev pub commit_new :
      ShardState D → CommitDocument → ℕ → CommitState → ShardState D × Result CommitError (Unit {0})
  commit_new s doc entry_index state =
      if not (length doc.sha256 == 32)
      then (s, err data_loss)
      else and_then
          (
            s,
            if state.target_counted
                then ok tt
                else preflight_projection_doc_count s.db doc.transaction_id,
          )
          (λ s fits.
            and_then (append_document_index_entry s doc entry_index (is_target state))
              (λ s appended.
                and_then
                  (if state.target_counted
                    then (s, ok tt)
                    else with_db s (add_projection_document s.db doc.transaction_id doc.block_id))
                  (λ s counted. (cleanup_committed_openlog_preps s doc, ok tt))))

  -- What a Document that is counted, whatever its metadata, does to the openlog.
  abbrev pub after_existing : ShardState D → CommitDocument → CommitState → ShardState D
  after_existing s doc state =
      if is_target state && state.target_counted then cleanup_committed_openlog_preps s doc else s

  unfoldable pub apply_commit_document :
      ShardState D → CommitDocument → ℕ → ShardState D × Result CommitError (Unit {0})
  apply_commit_document s doc entry_index =
      and_then (inspect_commit_projection_state s doc) (λ s state.
        and_then (after_existing s doc state, handle_existing doc state)
          (λ s handled. if handled then (s, ok tt) else commit_new s doc entry_index state))
