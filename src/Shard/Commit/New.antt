-- ===== src/Shard/Commit/New.antt =====
-- internal/shard/projection.go: a commit of a new Document in the open Block.
use scrap.Common.{ℕ, ◌<◌, ◌^◌, ◌≡◌, false, ◌⊎◌, List, [], ◌∷◌, ◌++◌}
use scrap.Common.Bytes.{same_bytes}
use scrap.Common.Result.{Result, ok, err}
use scrap.Block.Index.{IndexEntry}
use scrap.Index.Pebble.{Pebble}
use scrap.Index.Entry.{Entry}
use scrap.Index.Catalog.{Json}
use scrap.Index.Store.Spec.{Projection}
use scrap.Index.Resolution.{resolved}
use scrap.Index.Resolution.Stored.{documents}
use scrap.Shard.Commit.{CommitError, apply_failed, CommitDocument, ShardState, committed_entry}
use scrap.Shard.Commit.Replay.{IsCounted}
use scrap.Shard.Commit.Preps.{Cleaned}
use scrap.Shard.Commit.Listed.{extended}
use scrap.Shard.Commit.Counting.{counted, WriteFails}
use scrap.Shard.Commit.Appended.{appended}

module _ (crc : List ℕ → ℕ) (bound : (xs : List ℕ) → crc xs < 2 ^ 32) {D : Type 0} (p : Pebble D)
    (json : Json) where
  -- What a commit leaves: the Document is listed after the others of its transaction and counted,
  -- and the entries of other transactions are the same.
  pub record IsCommitted (s : ShardState D) (f : Projection) (contents : ℕ → List IndexEntry)
      (doc : CommitDocument) (entry : Entry) (front : List ℕ) (later : ShardState D) : Type 0 where
    pub projection : Projection
    pub projected :
        IsCounted crc bound p json later projection
          (extended contents doc.block_id (committed_entry doc))
          doc.transaction_id
          (counted crc p json entry (front ++ doc.block_id ∷ []))
    pub listed :
        documents
          (extended contents doc.block_id (committed_entry doc))
          doc.transaction_id
          (front ++ doc.block_id ∷ [])
        ≡ documents contents doc.transaction_id entry.block_ids
          ++ resolved doc.block_id (committed_entry doc) ∷ []
    pub others :
        (other : List ℕ) → same_bytes doc.transaction_id other ≡ false → projection other ≡ f other
    pub preps : Cleaned doc s.preps later.preps

  -- What a commit leaves whose write of the database is refused: the index has the Document and the
  -- rest of the Shard is as it was.
  abbrev pub IsUncounted :
      ShardState D
      → Projection
      → (ℕ → List IndexEntry)
      → CommitDocument
      → Entry
      → List ℕ
      → ShardState D
      → Type 0
  IsUncounted s f contents doc entry front later =
      (db : D) × (later ≡ record (appended crc bound p json s contents doc) { db = db })
      × WriteFails crc p json s.db f doc.transaction_id entry (front ++ doc.block_id ∷ []) db

  abbrev pub Commits :
      ShardState D
      → Projection
      → (ℕ → List IndexEntry)
      → CommitDocument
      → Entry
      → List ℕ
      → ShardState D × Result CommitError (Unit {0})
      → Type 0
  Commits s f contents doc entry front (later, out) =
      ((out ≡ ok tt) × IsCommitted s f contents doc entry front later)
      ⊎ ((out ≡ err apply_failed) × IsUncounted s f contents doc entry front later)
