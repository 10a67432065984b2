-- ===== src/Shard/Commit/Replay.antt =====
-- internal/shard/projection.go: a commit of a Document that is there already.
use scrap.Common.{
  ℕ, ◌<◌, ◌^◌, ◌≡◌, refl, ◌⊎◌, ap, ◌∙◌, arith, true, false, some, List, [], ◌∷◌, ◌==◌, length, All,
  inl, inr, Bool-cases,
}
use scrap.Common.Result.{Result, ok, err}
use scrap.Block.Index.{IndexEntry}
use scrap.Index.Pebble.{Pebble}
use scrap.Index.Entry.{Entry}
use scrap.Index.Catalog.{Json}
use scrap.Index.Store.Spec.{Projection, Reads}
use scrap.Index.Resolution.{ResolvedDocument}
use scrap.Index.Resolution.Stored.{documents}
use scrap.Shard.Commit.{
  CommitError, OpenlogPrep, kept_preps, already_exists, CommitDocument, ShardState, no_target,
  inspect_commit_projection_entry, handle_existing, commit_document_matches_existing,
}
use scrap.Shard.Commit.Apply.{
  commit_projection_entry, inspect_commit_projection_state, cleanup_committed_openlog_preps,
  apply_commit_document,
}
use scrap.Shard.Commit.Preps.{
  Cleaned, kept_preps-Cleaned, IsSame, commit_document_matches_existing→IsSame,
  commit_document_matches_existing-IsSame,
}
use scrap.Shard.Commit.Inspect.{
  of_name, IsWritten, inspect_loop-IsWritten, inspect_documents-existing,
}

module _ (crc : List ℕ → ℕ) (bound : (xs : List ℕ) → crc xs < 2 ^ 32) {D : Type 0} (p : Pebble D)
    (json : Json) where
  -- The projection counts the Documents of a transaction that the indexes of its Blocks hold.
  pub record IsCounted (s : ShardState D) (f : Projection) (contents : ℕ → List IndexEntry)
      (tx_id : List ℕ) (entry : Entry) : Type 0 where
    pub reads : Reads p s.db f
    pub stored : f tx_id ≡ some entry
    pub some_block : (length entry.block_ids == 0) ≡ false
    pub written : All (IsWritten crc bound contents s.idx_files) entry.block_ids
    pub counted : length (documents contents tx_id entry.block_ids) ≡ entry.doc_count

  pub commit_projection_entry-IsCounted :
      (s : ShardState D) (f : Projection) (contents : ℕ → List IndexEntry) (tx_id : List ℕ)
      (entry : Entry)
      → IsCounted s f contents tx_id entry
      → commit_projection_entry crc p json s.db tx_id ≡ ok (some entry)
  unfolding commit_projection_entry
  commit_projection_entry-IsCounted s f contents tx_id entry h =
      let read = h.reads tx_id in
      let is = h.stored in let some_block = h.some_block in rw (read, is, some_block)

  inspect-existing :
      (s : ShardState D) (f : Projection) (contents : ℕ → List IndexEntry) (doc : CommitDocument)
      (entry : Entry) (existing : ResolvedDocument)
      → IsCounted s f contents doc.transaction_id entry
      → of_name doc.document_name (documents contents doc.transaction_id entry.block_ids)
        ≡ existing ∷ []
      → inspect_commit_projection_state crc p json s doc
        ≡ (s, ok (record { target = some existing; target_counted = true }))
  unfolding inspect_commit_projection_state inspect_commit_projection_entry
  inspect-existing s f contents doc entry existing h one =
      let all = documents contents doc.transaction_id entry.block_ids in
      let counted = h.counted in
      let found =
        inspect_loop-IsWritten crc bound doc entry.doc_count contents entry.block_ids 0 no_target
          s.idx_files h.written
        ∙ ap (λ r. (s.idx_files, r))
            (inspect_documents-existing doc entry.doc_count 0 all one (omega arith)) in
      rw (commit_projection_entry-IsCounted s f contents doc.transaction_id entry h, found)

  -- What a commit leaves and gives that was done before.
  pub record IsReplayed (s : ShardState D) (doc : CommitDocument) (existing : IndexEntry)
      (result : ShardState D × Result CommitError (Unit {0})) : Type 0 where
    pub preps : List OpenlogPrep
    pub state : result.0 ≡ record s { preps = preps }
    pub cleaned : Cleaned doc s.preps preps
    pub outcome :
        ((result.1 ≡ ok tt) × IsSame doc existing)
        ⊎ ((result.1 ≡ err already_exists) × ¬ IsSame doc existing)

  -- A commit of a Document that is counted already, once, with its name changes nothing but the
  -- openlog, whose records of the Document are removed and the others kept; it succeeds if the
  -- content type, the size and the digest, of 32 bytes, are the same, and is a conflict if not.
  pub apply_commit_document-IsReplayed :
      (s : ShardState D) (f : Projection) (contents : ℕ → List IndexEntry) (doc : CommitDocument)
      (entry : Entry) (existing : ResolvedDocument) (entry_index : ℕ)
      → IsCounted s f contents doc.transaction_id entry
      → of_name doc.document_name (documents contents doc.transaction_id entry.block_ids)
        ≡ existing ∷ []
      → IsReplayed s doc existing.entry (apply_commit_document crc p json s doc entry_index)
  unfolding apply_commit_document handle_existing cleanup_committed_openlog_preps
  apply_commit_document-IsReplayed s f contents doc entry existing entry_index h one =
      elim (Bool-cases (commit_document_matches_existing doc existing.entry)) [
        | inl same ↦
            rw (inspect-existing s f contents doc entry existing h one, same)
              (record {
                preps = kept_preps doc s.preps;
                state = refl;
                cleaned = kept_preps-Cleaned doc s.preps;
                outcome =
                    inl (refl, commit_document_matches_existing→IsSame doc existing.entry same);
              })
        | inr differs ↦
            rw (inspect-existing s f contents doc entry existing h one, differs)
              (record {
                preps = kept_preps doc s.preps;
                state = refl;
                cleaned = kept_preps-Cleaned doc s.preps;
                outcome = inr (
                  refl,
                  λ is.
                      let same = commit_document_matches_existing-IsSame doc existing.entry is in
                      cc,
                );
              })
      ]
