-- ===== src/Shard/Commit/Appended.antt =====
-- internal/shard/projection.go: the steps of a commit of a new Document in the open Block.
use scrap.Common.{
  ℕ, ◌+◌, ◌<◌, ◌^◌, ◌≡◌, refl, sym, ap, ◌∙◌, arith, Bool, true, false, ◌&&◌, none, some, List, [],
  ◌∷◌, ◌++◌, ltb, ◌==◌, ==_refl, length, All, All-append, append_assoc, append-nil,
}
use scrap.Common.Result.{ok}
use scrap.Block.Index.{IndexEntry, append, entry_bytes, new_index, validate_entry_field_lens}
use scrap.Block.Index.Read.{IsStored, entries_bytes}
use scrap.Index.Pebble.{Pebble}
use scrap.Index.Entry.{Entry}
use scrap.Index.Catalog.{Json}
use scrap.Index.Store.Spec.{Projection, Fits, answer}
use scrap.Index.Resolution.Stored.{documents}
use scrap.Shard.Commit.{
  CommitDocument, Files, ShardState, no_target, inspect_commit_projection_entry, committed_entry,
  set_file, is_block,
}
use scrap.Shard.Commit.Apply.{
  inspect_commit_projection_state, append_document_index_entry, preflight_projection_doc_count,
}
use scrap.Shard.Commit.Inspect.{of_name, IsWritten, inspect_loop-IsWritten, inspect_documents-new}
use scrap.Shard.Commit.Replay.{IsCounted, commit_projection_entry-IsCounted}
use scrap.Shard.Commit.Listed.{IsPlaced, last, missing, extended}

append-IsStored :
    (crc : List ℕ → ℕ) (file : List ℕ) (e : IndexEntry)
    → IsStored e
    → append crc file e ≡ ok (file ++ entry_bytes crc e)
unfolding append validate_entry_field_lens
append-IsStored crc file e h =
    let tx = h.valid.transaction_id in
    let name = h.valid.doc_name in
    let content = h.valid.content_type in let envelope = h.valid.envelope in ground arith

module _ (crc : List ℕ → ℕ) (bound : (xs : List ℕ) → crc xs < 2 ^ 32) where
  entries_bytes-append :
      (es : List IndexEntry) (e : IndexEntry)
      → entries_bytes crc bound (es ++ e ∷ []) ≡ entries_bytes crc bound es ++ entry_bytes crc e
  entries_bytes-append [] e = append-nil (entry_bytes crc e)
  entries_bytes-append (x ∷ es) e =
      ap (λ bs. entry_bytes crc x ++ bs) (entries_bytes-append es e)
      ∙ sym (append_assoc (entry_bytes crc x) (entries_bytes crc bound es) (entry_bytes crc e))

  -- The file after the append is that of the entries with one more.
  pub Block-IsWritten :
      (contents : ℕ → List IndexEntry) (files : Files) (block_id : ℕ) (e : IndexEntry)
      → All IsStored (contents block_id)
      → IsStored e
      → IsWritten crc bound
          (extended contents block_id e)
          (set_file files block_id
            ((new_index crc ++ entries_bytes crc bound (contents block_id)) ++ entry_bytes crc e))
          block_id
  Block-IsWritten contents files block_id e stored h =
      let mine = ==_refl block_id in
      let header = new_index crc in
      let old = entries_bytes crc bound (contents block_id) in
      let bytes : (header ++ old) ++ entry_bytes crc e
          ≡ header ++ entries_bytes crc bound (contents block_id ++ e ∷ []) =
        append_assoc header old (entry_bytes crc e)
        ∙ ap (λ bs. header ++ bs) (sym (entries_bytes-append (contents block_id) e)) in
      rw mine (All-append IsStored (contents block_id) (e ∷ []) stored (h, tt), ap some bytes)

  pub front-IsWritten :
      (contents : ℕ → List IndexEntry) (files : Files) (block_id : ℕ) (e : IndexEntry)
      (file : List ℕ) (front : List ℕ)
      → is_block front block_id ≡ false
      → All (IsWritten crc bound contents files) front
      → All
          (IsWritten crc bound (extended contents block_id e) (set_file files block_id file))
          front
  front-IsWritten contents files block_id e file [] fresh hs = tt
  front-IsWritten contents files block_id e file (other ∷ front) fresh hs =
      let differs : (other == block_id) ≡ false = ground arith in
      let rest : is_block front block_id ≡ false = ground arith in
      (rw differs hs.0, front-IsWritten contents files block_id e file front rest hs.1)

All-front : (P : ℕ → Type 0) (front rest : List ℕ) → All P (front ++ rest) → All P front
All-front P [] rest hs = tt
All-front P (x ∷ front) rest hs = (hs.0, All-front P front rest hs.1)

pub All-IsPlaced :
    (P : ℕ → Type 0) (contents : ℕ → List IndexEntry) (tx_id : List ℕ) (block_id : ℕ)
    (front block_ids : List ℕ)
    → IsPlaced contents tx_id block_id front block_ids
    → All P block_ids
    → All P front
All-IsPlaced P contents tx_id block_id front _ last hs = All-front P front (block_id ∷ []) hs
All-IsPlaced P contents tx_id block_id front _ (missing none_yet) hs = hs

pub nonempty : (front : List ℕ) (block_id : ℕ) → (length (front ++ block_id ∷ []) == 0) ≡ false
nonempty [] block_id = refl
nonempty (x ∷ front) block_id = ground arith

module _ (crc : List ℕ → ℕ) (bound : (xs : List ℕ) → crc xs < 2 ^ 32) {D : Type 0} (p : Pebble D)
    (json : Json) where
  -- A Document that can be committed to the open Block: it is new to its transaction, whose entry
  -- has room, and the Block is the last of the transaction or has none of its Documents.
  pub record IsNew (s : ShardState D) (f : Projection) (contents : ℕ → List IndexEntry)
      (doc : CommitDocument) (entry : Entry) (front : List ℕ) : Type 0 where
    pub projected : IsCounted crc bound p json s f contents doc.transaction_id entry
    pub unnamed :
        of_name doc.document_name (documents contents doc.transaction_id entry.block_ids) ≡ []
    pub digest : (length doc.sha256 == 32) ≡ true
    pub open_block : s.open_block ≡ some doc.block_id
    pub written : IsWritten crc bound contents s.idx_files doc.block_id
    pub storable : IsStored (committed_entry doc)
    pub room : Fits 2 f
    pub few : (entry.doc_count == 65535) ≡ false
    pub low : doc.block_id < 2 ^ 64
    pub placed : IsPlaced contents doc.transaction_id doc.block_id front entry.block_ids
    pub fresh : is_block front doc.block_id ≡ false

  pub inspect-new :
      (s : ShardState D) (f : Projection) (contents : ℕ → List IndexEntry) (doc : CommitDocument)
      (entry : Entry) (front : List ℕ)
      → IsNew s f contents doc entry front
      → inspect_commit_projection_state crc p json s doc ≡ (s, ok no_target)
  unfolding inspect_commit_projection_state inspect_commit_projection_entry
  inspect-new s f contents doc entry front h =
      let all = documents contents doc.transaction_id entry.block_ids in
      let found =
        inspect_loop-IsWritten crc bound doc entry.doc_count contents entry.block_ids 0 no_target
          s.idx_files h.projected.written
        ∙ ap (λ r. (s.idx_files, r))
            (inspect_documents-new doc entry.doc_count 0 no_target all h.unnamed) in
      let seen : ltb (0 + length all) entry.doc_count ≡ false =
        let same = h.projected.counted in ground arith in
      rw
        (
          commit_projection_entry-IsCounted crc bound p json s f contents doc.transaction_id entry
              h.projected,
          found,
          seen,
        )
        (ap (λ b. (s, ok (record { target = none; target_counted = b })))
          (and_false (is_block entry.block_ids doc.block_id)))
    where
      and_false : (b : Bool) → (b && false) ≡ false
      and_false true = refl
      and_false false = refl

  abbrev pub appended : ShardState D → (ℕ → List IndexEntry) → CommitDocument → ShardState D
  appended s contents doc = record s {
    idx_files = set_file s.idx_files doc.block_id (
        (new_index crc ++ entries_bytes crc bound (contents doc.block_id))
        ++ entry_bytes crc (committed_entry doc));
  }

  pub append_document_index_entry-IsNew :
      (s : ShardState D) (f : Projection) (contents : ℕ → List IndexEntry) (doc : CommitDocument)
      (entry : Entry) (front : List ℕ) (entry_index : ℕ)
      → IsNew s f contents doc entry front
      → append_document_index_entry crc p json s doc entry_index false
        ≡ (appended s contents doc, ok tt)
  unfolding append_document_index_entry
  append_document_index_entry-IsNew s f contents doc entry front entry_index h =
      let is_open = h.open_block in
      let file = h.written.1 in
      let same = ==_refl doc.block_id in
      rw (
        is_open,
        same,
        file,
        append-IsStored crc (new_index crc ++ entries_bytes crc bound (contents doc.block_id))
            (committed_entry doc) h.storable,
      )

  pub preflight-IsNew :
      (s : ShardState D) (f : Projection) (contents : ℕ → List IndexEntry) (doc : CommitDocument)
      (entry : Entry) (front : List ℕ)
      → IsNew s f contents doc entry front
      → preflight_projection_doc_count crc p json s.db doc.transaction_id ≡ ok tt
  unfolding preflight_projection_doc_count
  preflight-IsNew s f contents doc entry front h =
      let read = h.projected.reads doc.transaction_id ∙ ap answer h.projected.stored in
      let few = h.few in rw (read, few)
