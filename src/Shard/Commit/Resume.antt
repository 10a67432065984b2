-- ===== src/Shard/Commit/Resume.antt =====
-- internal/shard/projection.go: a commit that stopped between the index of a Block and the count.
use scrap.Common.{
  ℕ, ◌<◌, ◌^◌, ◌≡◌, refl, sym, ap, ◌∙◌, arith, false, ◌⊎◌, inl, inr, some, List, [], ◌∷◌, ◌++◌,
  ==_refl, length, length-append,
}
use scrap.Common.Bytes.{same_bytes}
use scrap.Common.Result.{Result, ok, err, and_then}
use scrap.Block.Index.{IndexEntry}
use scrap.Index.Pebble.{Pebble}
use scrap.Index.Entry.{Entry}
use scrap.Index.Catalog.{Json}
use scrap.Index.Store.Spec.{Projection, Reads, answer}
use scrap.Index.Resolution.{ResolvedDocument, resolved}
use scrap.Shard.Commit.{CommitError, apply_failed, CommitDocument, ShardState, handle_existing}
use scrap.Shard.Commit.Apply.{
  cleanup_committed_openlog_preps, apply_commit_document, preflight_projection_doc_count, with_db,
  add_projection_document,
}
use scrap.Shard.Commit.Replay.{IsCounted}
use scrap.Shard.Commit.Preps.{Cleaned, kept_preps-Cleaned}
use scrap.Shard.Commit.Listed.{IsPlaced, last}
use scrap.Shard.Commit.Counting.{counted, WriteFails, Counts, add_projection_document-Counts}
use scrap.Shard.Commit.Appended.{nonempty}
use mathlib.Core.Path.{subst}
use scrap.Shard.Commit.HalfDone.{IsHalfDone, inspect-IsHalfDone, append-IsHalfDone}

module _ (crc : List ℕ → ℕ) (bound : (xs : List ℕ) → crc xs < 2 ^ 32) {D : Type 0} (p : Pebble D)
    (json : Json) where
  -- What a commit leaves that is resumed: the files are as they were and the entry counts them.
  pub record IsResumed (s : ShardState D) (f : Projection) (contents : ℕ → List IndexEntry)
      (doc : CommitDocument) (entry : Entry) (front : List ℕ) (later : ShardState D) : Type 0 where
    pub files : later.idx_files ≡ s.idx_files
    pub projection : Projection
    pub projected :
        IsCounted crc bound p json later projection contents doc.transaction_id
          (counted crc p json entry (front ++ doc.block_id ∷ []))
    pub others :
        (other : List ℕ) → same_bytes doc.transaction_id other ≡ false → projection other ≡ f other
    pub preps : Cleaned doc s.preps later.preps

  -- What it leaves when its write of the database is refused: the rest of the Shard as it was.
  abbrev pub IsStillHalfDone :
      ShardState D → Projection → CommitDocument → Entry → List ℕ → ShardState D → Type 0
  IsStillHalfDone s f doc entry front later =
      (db : D) × (later ≡ record s { db = db })
      × WriteFails crc p json s.db f doc.transaction_id entry (front ++ doc.block_id ∷ []) db

  abbrev pub Resumes :
      ShardState D
      → Projection
      → (ℕ → List IndexEntry)
      → CommitDocument
      → Entry
      → List ℕ
      → ShardState D × Result CommitError (Unit {0})
      → Type 0
  Resumes s f contents doc entry front (later, out) =
      ((out ≡ ok tt) × IsResumed s f contents doc entry front later)
      ⊎ ((out ≡ err apply_failed) × IsStillHalfDone s f doc entry front later)

  counted-IsResumed :
      (s : ShardState D) (f : Projection) (contents : ℕ → List IndexEntry) (doc : CommitDocument)
      (entry : Entry) (front : List ℕ) (old : List ResolvedDocument) (existing : IndexEntry)
      (later : D) (g : Projection)
      → IsHalfDone crc bound p json s f contents doc entry front old existing
      → Reads p later g
      → g doc.transaction_id ≡ some (counted crc p json entry (front ++ doc.block_id ∷ []))
      → ((other : List ℕ) → same_bytes doc.transaction_id other ≡ false → g other ≡ f other)
      → IsResumed s f contents doc entry front
          (cleanup_committed_openlog_preps crc p json (record s { db = later }) doc)
  unfolding cleanup_committed_openlog_preps
  counted-IsResumed s f contents doc entry front old existing later g h reads is others =
      let before = h.uncounted in
      record {
        files = refl;
        projection = g;
        projected = record {
          reads = reads;
          stored = is;
          some_block = nonempty front doc.block_id;
          written = h.written;
          counted =
              ap length h.holds
              ∙ omega (arith, length-append old (resolved doc.block_id existing ∷ []), before);
        };
        others = others;
        preps = kept_preps-Cleaned doc s.preps;
      }

  IsHalfDone-IsPlaced :
      (s : ShardState D) (f : Projection) (contents : ℕ → List IndexEntry) (doc : CommitDocument)
      (entry : Entry) (front : List ℕ) (old : List ResolvedDocument) (existing : IndexEntry)
      → IsHalfDone crc bound p json s f contents doc entry front old existing
      → IsPlaced contents doc.transaction_id doc.block_id front entry.block_ids
  IsHalfDone-IsPlaced s f contents doc entry front old existing h =
      subst (λ ids. IsPlaced contents doc.transaction_id doc.block_id front ids) (sym h.block_ids)
        last

  -- A commit that stopped after the Document was in the index of the last Block of its transaction,
  -- and before it was counted, is finished by applying it again, if the Block is open or uploads are
  -- off: the index gets no second entry, the entry of the transaction counts all Documents that the
  -- indexes hold, no other transaction has changed, and the openlog has no record of the Document.
  -- It fails only if the database refuses a write of the entry, and then the rest of the Shard is as
  -- it was.
  pub apply_commit_document-IsResumed :
      (s : ShardState D) (f : Projection) (contents : ℕ → List IndexEntry) (doc : CommitDocument)
      (entry : Entry) (front : List ℕ) (old : List ResolvedDocument) (existing : IndexEntry)
      (entry_index : ℕ)
      → IsHalfDone crc bound p json s f contents doc entry front old existing
      → Resumes s f contents doc entry front (apply_commit_document crc p json s doc entry_index)
  unfolding apply_commit_document handle_existing preflight_projection_doc_count
  apply_commit_document-IsResumed s f contents doc entry front old existing entry_index h =
      let sha = h.digest in
      let matched = h.matches in
      let mine = ==_refl doc.block_id in
      let read = h.reads doc.transaction_id ∙ ap answer h.stored in
      let few = h.few in
      rw
        (
          inspect-IsHalfDone crc bound p json s f contents doc entry front old existing h,
          mine,
          matched,
          sha,
          read,
          few,
          append-IsHalfDone crc bound p json s f contents doc entry front old existing entry_index
              h,
        )
        (finish (add_projection_document crc p json s.db doc.transaction_id doc.block_id) (
          add_projection_document-Counts crc p json s.db f contents doc.transaction_id doc.block_id
            front entry h.reads h.room h.stored h.few h.low
            (IsHalfDone-IsPlaced s f contents doc entry front old existing h) h.fresh))
    where
      finish :
          (added : D × Result CommitError (Unit {0}))
          → Counts crc p json s.db f doc.transaction_id entry (front ++ doc.block_id ∷ []) added
          → Resumes s f contents doc entry front (
              and_then
                (with_db crc p json s added)
                (λ s done. (cleanup_committed_openlog_preps crc p json s doc, ok tt)))
      finish (later, ok one) (inl (out, (g, reads, is, others))) = inl (
        refl,
        counted-IsResumed s f contents doc entry front old existing later g h reads is others,
      )
      finish (later, err e) (inl (out, rest)) = cc
      finish (later, ok one) (inr (out, failed)) = cc
      finish (later, err e) (inr (out, failed)) = inr (out, (later, refl, failed))
