-- ===== src/Shard/Commit/HalfDone.antt =====
-- internal/shard/projection.go: what is found of a commit that stopped before the count.
use scrap.Common.{
  ℕ, suc, ◌+◌, ◌<◌, ◌^◌, ◌≡◌, ap, ◌∙◌, arith, true, false, ◌⊎◌, inl, inr, some, List, [], ◌∷◌, ◌++◌,
  leb, ◌==◌, length, All,
}
use scrap.Common.Bytes.{same_bytes}
use scrap.Common.Result.{ok}
use scrap.Block.Index.{IndexEntry}
use scrap.Index.Pebble.{Pebble}
use scrap.Index.Entry.{Entry}
use scrap.Index.Catalog.{Json}
use scrap.Index.Store.Spec.{Projection, Reads, Fits, answer}
use scrap.Index.Resolution.{ResolvedDocument, resolved}
use scrap.Index.Resolution.Stored.{documents}
use scrap.Shard.Commit.{
  CommitDocument, CommitState, ShardState, no_target, inspect_commit_projection_entry, is_block,
}
use scrap.Shard.Commit.Apply.{
  commit_projection_entry, inspect_commit_projection_state, append_document_index_entry,
}
use scrap.Shard.Commit.Inspect.{of_name, IsWritten, inspect_loop-IsWritten}
use scrap.Block.Index.{find}
use scrap.Block.Index.Repair.{read_index_entries-append}
use scrap.Index.Resolution.{is_document}
use scrap.Shard.Commit.{commit_document_matches_existing}
use scrap.Shard.Commit.Apply.{is_open, is_found, block_index_contains, requeue_block_upload}
use scrap.Shard.Commit.Inspect.{inspect_documents}
use scrap.Shard.Commit.Appended.{nonempty}
use scrap.Common.{Bool-cases}

inspect_documents-skip :
    (doc : CommitDocument) (doc_count seen : ℕ) (state : CommitState)
    (old rest : List ResolvedDocument)
    → of_name doc.document_name old ≡ []
    → inspect_documents doc doc_count seen state (old ++ rest)
      ≡ inspect_documents doc doc_count (seen + length old) state rest
inspect_documents-skip doc doc_count seen state [] rest h =
    let same : seen + 0 ≡ seen = omega arith in rw same
inspect_documents-skip doc doc_count seen state (d ∷ old) rest h =
    elim (Bool-cases (is_document doc.document_name d)) [
      | inl named ↦ ground arith
      | inr differs ↦
          let same : seen + suc (length old) ≡ suc seen + length old = omega arith in
          let later : of_name doc.document_name old ≡ [] = ground arith in
          rw (differs, same, inspect_documents-skip doc doc_count (suc seen) state old rest later)
    ]

inspect_documents-uncounted :
    (doc : CommitDocument) (doc_count : ℕ) (old : List ResolvedDocument)
    (existing : ResolvedDocument)
    → of_name doc.document_name old ≡ []
    → is_document doc.document_name existing ≡ true
    → length old ≡ doc_count
    → inspect_documents doc doc_count 0 no_target (old ++ existing ∷ [])
      ≡ ok (record { target = some existing; target_counted = false }, suc (0 + length old))
inspect_documents-uncounted doc doc_count old existing unnamed named uncounted =
    let over : leb (suc (0 + length old)) doc_count ≡ false = ground arith in
    inspect_documents-skip doc doc_count 0 no_target old (existing ∷ []) unnamed ∙ rw (named, over)

module _ (crc : List ℕ → ℕ) (bound : (xs : List ℕ) → crc xs < 2 ^ 32) {D : Type 0} (p : Pebble D)
    (json : Json) where
  -- The index of the last Block of a transaction has the Document, after all that are counted. The
  -- Block is open, or uploads are off.
  pub record IsHalfDone (s : ShardState D) (f : Projection) (contents : ℕ → List IndexEntry)
      (doc : CommitDocument) (entry : Entry) (front : List ℕ) (old : List ResolvedDocument)
      (existing : IndexEntry) : Type 0 where
    pub reads : Reads p s.db f
    pub stored : f doc.transaction_id ≡ some entry
    pub block_ids : entry.block_ids ≡ front ++ doc.block_id ∷ []
    pub written : All (IsWritten crc bound contents s.idx_files) (front ++ doc.block_id ∷ [])
    pub here : IsWritten crc bound contents s.idx_files doc.block_id
    pub holds :
        documents contents doc.transaction_id (front ++ doc.block_id ∷ [])
        ≡ old ++ resolved doc.block_id existing ∷ []
    pub uncounted : length old ≡ entry.doc_count
    pub unnamed : of_name doc.document_name old ≡ []
    pub named : same_bytes existing.doc_name doc.document_name ≡ true
    pub found :
        is_found crc p json (find doc.transaction_id doc.document_name (contents doc.block_id))
        ≡ true
    pub matches : commit_document_matches_existing doc existing ≡ true
    pub digest : (length doc.sha256 == 32) ≡ true
    pub writer :
        (is_open crc p json s doc.block_id ≡ true)
        ⊎ ((is_open crc p json s doc.block_id ≡ false) × (s.upload_enabled ≡ false))
    pub room : Fits 2 f
    pub few : (entry.doc_count == 65535) ≡ false
    pub low : doc.block_id < 2 ^ 64
    pub fresh : is_block front doc.block_id ≡ false

  pub inspect-IsHalfDone :
      (s : ShardState D) (f : Projection) (contents : ℕ → List IndexEntry) (doc : CommitDocument)
      (entry : Entry) (front : List ℕ) (old : List ResolvedDocument) (existing : IndexEntry)
      → IsHalfDone s f contents doc entry front old existing
      → inspect_commit_projection_state crc p json s doc ≡ (
        s,
        ok (record { target = some (resolved doc.block_id existing); target_counted = false }),
      )
  unfolding inspect_commit_projection_state inspect_commit_projection_entry commit_projection_entry
  inspect-IsHalfDone s f contents doc entry front old existing h =
      let read = h.reads doc.transaction_id ∙ ap answer h.stored in
      let ids = h.block_ids in
      let some_block = nonempty front doc.block_id in
      let found =
        inspect_loop-IsWritten crc bound doc entry.doc_count contents (front ++ doc.block_id ∷ []) 0
          no_target s.idx_files h.written
        ∙ ap (λ r. (s.idx_files, r))
            (ap (inspect_documents doc entry.doc_count 0 no_target) h.holds
              ∙ inspect_documents-uncounted doc entry.doc_count old (resolved doc.block_id existing)
                  h.unnamed h.named h.uncounted) in
      rw (read, ids, some_block, found)

  contains-IsHalfDone :
      (s : ShardState D) (f : Projection) (contents : ℕ → List IndexEntry) (doc : CommitDocument)
      (entry : Entry) (front : List ℕ) (old : List ResolvedDocument) (existing : IndexEntry)
      → IsHalfDone s f contents doc entry front old existing
      → block_index_contains crc p json s doc ≡ (s, ok true)
  unfolding block_index_contains
  contains-IsHalfDone s f contents doc entry front old existing h =
      let file = h.here.1 in
      let read = read_index_entries-append crc bound (contents doc.block_id) h.here.0 in
      let found = h.found in rw (file, read, found)

  pub append-IsHalfDone :
      (s : ShardState D) (f : Projection) (contents : ℕ → List IndexEntry) (doc : CommitDocument)
      (entry : Entry) (front : List ℕ) (old : List ResolvedDocument) (existing : IndexEntry)
      (entry_index : ℕ)
      → IsHalfDone s f contents doc entry front old existing
      → append_document_index_entry crc p json s doc entry_index true ≡ (s, ok tt)
  unfolding append_document_index_entry requeue_block_upload
  append-IsHalfDone s f contents doc entry front old existing entry_index h = elim h.writer [
    | inl opened ↦ rw opened
    | inr (closed, off) ↦
        rw (closed, contains-IsHalfDone s f contents doc entry front old existing h, off)
  ]
