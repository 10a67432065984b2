-- ===== src/Shard/Commit/Preps.antt =====
-- internal/shard/openlog.go and replay_conflict.go: what a committed Document is told from.
use scrap.Common.{
  ◌≡◌, inl, inr, arith, true, ◌&&◌, List, [], ◌∷◌, ◌==◌, ==_iff, ==_refl, length, Bool-cases,
  and-split,
}
use scrap.Common.Bytes.{same_bytes, same_bytes_refl, same_bytes→eq}
use scrap.Common.Int.{eq_ℤ, eq_ℤ→eq, pos_part, neg_part}
use scrap.Block.Index.{IndexEntry}
use scrap.Shard.Commit.{
  CommitDocument, OpenlogPrep, openlog_prep_matches_commit, kept_preps,
  commit_document_matches_existing, duplicate_document_matches,
}

-- A prep file of the Document of a commit.
pub record IsPrepOf (doc : CommitDocument) (prep : OpenlogPrep) : Type 0 where
  pub transaction_id : prep.transaction_id ≡ doc.transaction_id
  pub document_name : prep.document_name ≡ doc.document_name
  pub block_id : prep.block_id ≡ doc.block_id
  pub start_offset : prep.start_offset ≡ doc.first_frame_off

-- The prep files of the Document are gone and the others are there, in their order.
pub data Cleaned (doc : CommitDocument) : List OpenlogPrep → List OpenlogPrep → Type 0 where
  done : Cleaned doc [] []
  removed :
      (prep : OpenlogPrep) (preps later : List OpenlogPrep)
      → IsPrepOf doc prep
      → Cleaned doc preps later
      → Cleaned doc (prep ∷ preps) later
  kept :
      (prep : OpenlogPrep) (preps later : List OpenlogPrep)
      → ¬ IsPrepOf doc prep
      → Cleaned doc preps later
      → Cleaned doc (prep ∷ preps) (prep ∷ later)

openlog_prep_matches_commit→IsPrepOf :
    (doc : CommitDocument) (prep : OpenlogPrep)
    → openlog_prep_matches_commit prep doc ≡ true
    → IsPrepOf doc prep
unfolding openlog_prep_matches_commit
openlog_prep_matches_commit→IsPrepOf doc prep h =
    let (tx, h1) = and-split (same_bytes prep.transaction_id doc.transaction_id) _ h in
    let (name, h2) = and-split (same_bytes prep.document_name doc.document_name) _ h1 in
    let (block, offset) = and-split (prep.block_id == doc.block_id) _ h2 in
    record {
      transaction_id = same_bytes→eq prep.transaction_id doc.transaction_id tx;
      document_name = same_bytes→eq prep.document_name doc.document_name name;
      block_id = (==_iff prep.block_id doc.block_id).0 block;
      start_offset = (==_iff prep.start_offset doc.first_frame_off).0 offset;
    }

openlog_prep_matches_commit-IsPrepOf :
    (doc : CommitDocument) (prep : OpenlogPrep)
    → IsPrepOf doc prep
    → openlog_prep_matches_commit prep doc ≡ true
unfolding openlog_prep_matches_commit
openlog_prep_matches_commit-IsPrepOf doc prep h =
    let tx = h.transaction_id in
    let name = h.document_name in
    let block = h.block_id in
    let offset = h.start_offset in
    rw (
      tx,
      name,
      block,
      offset,
      same_bytes_refl doc.transaction_id,
      same_bytes_refl doc.document_name,
      ==_refl doc.block_id,
      ==_refl doc.first_frame_off,
    )

pub kept_preps-Cleaned :
    (doc : CommitDocument) (preps : List OpenlogPrep) → Cleaned doc preps (kept_preps doc preps)
kept_preps-Cleaned doc [] = done
kept_preps-Cleaned doc (prep ∷ preps) = elim (Bool-cases (openlog_prep_matches_commit prep doc)) [
  | inl same ↦ rw same (
      removed prep preps _ (openlog_prep_matches_commit→IsPrepOf doc prep same)
        (kept_preps-Cleaned doc preps))
  | inr other ↦ rw other (
      kept prep preps _ (λ is. let same = openlog_prep_matches_commit-IsPrepOf doc prep is in cc)
        (kept_preps-Cleaned doc preps))
]

-- An entry has the content of the Document of a commit, whose digest is one.
pub record IsSame (doc : CommitDocument) (existing : IndexEntry) : Type 0 where
  pub digest : length doc.sha256 ≡ 32
  pub content_type : existing.content_type ≡ doc.content_type
  pub total_bytes : existing.total_bytes ≡ doc.total_bytes
  pub sha256 : existing.sha256 ≡ doc.sha256

pub commit_document_matches_existing→IsSame :
    (doc : CommitDocument) (existing : IndexEntry)
    → commit_document_matches_existing doc existing ≡ true
    → IsSame doc existing
unfolding commit_document_matches_existing duplicate_document_matches
commit_document_matches_existing→IsSame doc existing h =
    let size : (length doc.sha256 == 32) ≡ true = ground arith in
    let all : (same_bytes existing.content_type doc.content_type
          && (eq_ℤ existing.total_bytes doc.total_bytes && same_bytes existing.sha256 doc.sha256))
        ≡ true =
      rw size at h in
    let (content, h1) = and-split (same_bytes existing.content_type doc.content_type) _ all in
    let (bytes, sum) = and-split (eq_ℤ existing.total_bytes doc.total_bytes) _ h1 in
    record {
      digest = (==_iff (length doc.sha256) 32).0 size;
      content_type = same_bytes→eq existing.content_type doc.content_type content;
      total_bytes = eq_ℤ→eq existing.total_bytes doc.total_bytes bytes;
      sha256 = same_bytes→eq existing.sha256 doc.sha256 sum;
    }

pub commit_document_matches_existing-IsSame :
    (doc : CommitDocument) (existing : IndexEntry)
    → IsSame doc existing
    → commit_document_matches_existing doc existing ≡ true
unfolding commit_document_matches_existing duplicate_document_matches
commit_document_matches_existing-IsSame doc existing h =
    let digest = h.digest in
    let content = h.content_type in
    let bytes = h.total_bytes in
    let sum = h.sha256 in
    rw (
      content,
      bytes,
      sum,
      same_bytes_refl doc.content_type,
      same_bytes_refl doc.sha256,
      digest,
      ==_refl (pos_part doc.total_bytes),
      ==_refl (neg_part doc.total_bytes),
    )
