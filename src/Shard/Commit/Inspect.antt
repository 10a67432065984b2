-- ===== src/Shard/Commit/Inspect.antt =====
-- internal/shard/projection.go: what the inspection finds when the projection counts what the
-- indexes hold.
use scrap.Common.{
  ℕ, suc, ◌+◌, ◌<◌, ◌≤◌, ◌^◌, ◌≡◌, refl, sym, ap, ◌∙◌, arith, true, not, some, List, [], ◌∷◌, ◌++◌,
  leb, if◌then◌else◌, length, map, All, inl, inr, Bool-cases, Option-cases,
}
use scrap.Common.Bytes.{same_bytes}
use scrap.Common.Result.{Result, ok, ◌>>=◌, and_then_keeps}
use scrap.Block.Index.{IndexEntry, find_by_transaction}
use scrap.Block.Index.Read.{IsStored}
use scrap.Block.Index.Repair.{read_index_entries-append}
use scrap.Index.Resolution.{ResolvedDocument, is_document, resolved}
use scrap.Index.Resolution.Stored.{documents, index_files}
use scrap.Shard.Commit.{
  CommitError, CommitDocument, CommitState, Files, no_target, unless_seen, seen_target,
  inspect_block, block_index_entries_for_apply, inspect_loop,
}

-- The inspection of the Documents of a transaction, one after the other.
abbrev pub inspect_documents :
    CommitDocument
    → ℕ
    → ℕ
    → CommitState
    → List ResolvedDocument
    → Result CommitError (CommitState × ℕ)
inspect_documents doc doc_count seen state [] = ok (state, seen)
inspect_documents doc doc_count seen state (d ∷ docs) =
    if not (is_document doc.document_name d)
    then inspect_documents doc doc_count (suc seen) state docs
    else unless_seen state.target
        (inspect_documents doc doc_count (suc seen) (seen_target d (suc seen) doc_count) docs)

inspect_block-append :
    (doc : CommitDocument) (doc_count block_id seen : ℕ) (state : CommitState)
    (entries : List IndexEntry) (docs : List ResolvedDocument)
    → (inspect_block doc doc_count block_id seen state entries
        >>= (λ next. inspect_documents doc doc_count next.1 next.0 docs))
      ≡ inspect_documents doc doc_count seen state (map (resolved block_id) entries ++ docs)
unfolding inspect_block
inspect_block-append doc doc_count block_id seen state [] docs = refl
inspect_block-append doc doc_count block_id seen state (e ∷ entries) docs =
    let other = inspect_block-append doc doc_count block_id (suc seen) state entries docs in
    let first =
      inspect_block-append doc doc_count block_id (suc seen)
        (seen_target (resolved block_id e) (suc seen) doc_count) entries docs in
    elim (Bool-cases (same_bytes e.doc_name doc.document_name)) [
      | inr differs ↦ rw (differs, other)
      | inl named ↦ elim (Option-cases state.target) [
        | inl none_yet ↦ rw (named, none_yet, first)
        | inr (existing, seen_before) ↦ rw (named, seen_before)
      ]
    ]

-- The Documents of a name.
abbrev pub of_name : List ℕ → List ResolvedDocument → List ResolvedDocument
of_name doc_name [] = []
of_name doc_name (d ∷ docs) =
    let rest = of_name doc_name docs in if is_document doc_name d then d ∷ rest else rest

pub inspect_documents-new :
    (doc : CommitDocument) (doc_count seen : ℕ) (state : CommitState) (docs : List ResolvedDocument)
    → of_name doc.document_name docs ≡ []
    → inspect_documents doc doc_count seen state docs ≡ ok (state, seen + length docs)
inspect_documents-new doc doc_count seen state [] h =
    let same : seen + 0 ≡ seen = omega arith in rw same
inspect_documents-new doc doc_count seen state (d ∷ docs) h =
    elim (Bool-cases (is_document doc.document_name d)) [
      | inl named ↦ ground arith
      | inr differs ↦
          let same : seen + suc (length docs) ≡ suc seen + length docs = omega arith in
          let rest : of_name doc.document_name docs ≡ [] = ground arith in
          rw (differs, same, inspect_documents-new doc doc_count (suc seen) state docs rest)
    ]

pub inspect_documents-existing :
    (doc : CommitDocument) (doc_count seen : ℕ) (docs : List ResolvedDocument)
    {existing : ResolvedDocument}
    → of_name doc.document_name docs ≡ existing ∷ []
    → seen + length docs ≤ doc_count
    → inspect_documents doc doc_count seen no_target docs
      ≡ ok (record { target = some existing; target_counted = true }, seen + length docs)
inspect_documents-existing doc doc_count seen [] h fits = cc
inspect_documents-existing doc doc_count seen (d ∷ docs) {existing = existing} h fits =
    let same : seen + suc (length docs) ≡ suc seen + length docs = omega arith in
    elim (Bool-cases (is_document doc.document_name d)) [
      | inr differs ↦
          let rest : of_name doc.document_name docs ≡ existing ∷ [] = ground arith in
          rw (
            differs,
            same,
            inspect_documents-existing doc doc_count (suc seen) docs rest (omega arith),
          )
      | inl named ↦
          let rest : of_name doc.document_name docs ≡ [] = ground arith in
          let mine : d ≡ existing = ground arith in
          let counted : leb (suc seen) doc_count ≡ true = ground arith in
          rw (named, same, counted, sym mine)
            (inspect_documents-new doc doc_count (suc seen)
              (record { target = some d; target_counted = true }) docs rest)
    ]

module _ (crc : List ℕ → ℕ) (bound : (xs : List ℕ) → crc xs < 2 ^ 32) where
  -- The index of a Block was written by appends.
  abbrev pub IsWritten : (ℕ → List IndexEntry) → Files → ℕ → Type 0
  IsWritten contents files block_id =
      All IsStored (contents block_id) × (files block_id ≡ index_files crc bound contents block_id)

  block_index_entries_for_apply-IsWritten :
      (contents : ℕ → List IndexEntry) (files : Files) (block_id : ℕ) (tx_id : List ℕ)
      → IsWritten contents files block_id
      → block_index_entries_for_apply crc files block_id tx_id
        ≡ (files, ok (find_by_transaction tx_id (contents block_id)))
  unfolding block_index_entries_for_apply
  block_index_entries_for_apply-IsWritten contents files block_id tx_id h =
      let file = h.1 in rw (file, read_index_entries-append crc bound (contents block_id) h.0)

  pub inspect_loop-IsWritten :
      (doc : CommitDocument) (doc_count : ℕ) (contents : ℕ → List IndexEntry) (block_ids : List ℕ)
      (seen : ℕ) (state : CommitState) (files : Files)
      → All (IsWritten contents files) block_ids
      → inspect_loop crc doc doc_count block_ids seen state files ≡ (
        files,
        inspect_documents doc doc_count seen state
            (documents contents doc.transaction_id block_ids),
      )
  inspect_loop-IsWritten doc doc_count contents [] seen state files hs = refl
  inspect_loop-IsWritten doc doc_count contents (block_id ∷ block_ids) seen state files hs =
      let here =
        block_index_entries_for_apply-IsWritten contents files block_id doc.transaction_id hs.0 in
      let entries = find_by_transaction doc.transaction_id (contents block_id) in
      let rest = documents contents doc.transaction_id block_ids in
      rw here (
        and_then_keeps files (inspect_block doc doc_count block_id seen state entries) _
          (λ next. inspect_documents doc doc_count next.1 next.0 rest)
          (λ next. inspect_loop-IsWritten doc doc_count contents block_ids next.1 next.0 files hs.1)
        ∙ ap (λ r. (files, r))
            (inspect_block-append doc doc_count block_id seen state entries rest))
