-- ===== src/Shard/Commit/Examples.antt =====
-- internal/shard/projection.go: commits to a transaction with one Document.
use scrap.Common.{
  ℕ, ◌≡◌, refl, sym, arith, true, false, none, some, List, [], ◌∷◌, if◌then◌else◌, replicate, inl,
  inr, Bool-cases, Bool, length, ◌<◌, ◌+◌, ◌^◌,
}
use scrap.Common.Int.{pos, negsuc}
use scrap.Common.Bytes.{same_bytes}
use scrap.Block.Index.{IndexEntry, encode_index_entry, find, find_by_transaction}
use scrap.Block.Index.Read.{IsStored}
use scrap.Block.Samples.{sum32, sum32-bound, small_entry, small_entry-IsStored}
use scrap.Index.Entry.{Entry, encode_entry, decode_entry}
use scrap.Index.Entry.RoundTrip.{IsEntry}
use scrap.Index.Store.{get, tx_key}
use scrap.Index.Store.Spec.{Projection, Reads, update, Fits}
use scrap.Index.Resolution.{resolved}
use scrap.Index.Resolution.Stored.{index_files}
use scrap.Index.Samples.{Writes, write_list, small_json}
use scrap.Shard.Commit.{
  CommitDocument, ShardState, committed_entry, commit_document_matches_existing,
  duplicate_document_matches,
}
use scrap.Shard.Commit.Apply.{apply_commit_document}
use scrap.Shard.Commit.Replay.{IsCounted, IsReplayed, apply_commit_document-IsReplayed}
use scrap.Shard.Commit.HalfDone.{IsHalfDone}
use scrap.Shard.Commit.Resume.{Resumes, apply_commit_document-IsResumed}

-- Block 7 has a Document "a" of the transaction "t1".
abbrev contents : ℕ → List IndexEntry
contents block_id = small_entry ∷ []

abbrev t1 : List ℕ
t1 = 116 ∷ 49 ∷ []

abbrev one_document : Entry
one_document = record { block_ids = 7 ∷ []; doc_count = 1; completed = false }

abbrev projection : Projection
projection = update (λ tx_id. none) t1 one_document

abbrev written : Writes
written = (tx_key t1, some (encode_entry one_document)) ∷ []

written-Reads : Reads write_list written projection
unfolding get tx_key encode_entry decode_entry
written-Reads tx_id = elim (Bool-cases (same_bytes t1 tx_id)) [
  | inl same ↦ rw same
  | inr other ↦ rw other
]

projection-Fits : Fits 2 projection
projection-Fits tx_id e found = at (same_bytes t1 tx_id) found
  where
    at :
        (same : Bool)
        → (if same then some one_document else none) ≡ some e
        → IsEntry e × (length e.block_ids + 2 < 2 ^ 16)
    at true h =
        let is : one_document ≡ e = cc in
        rw (sym is)
          (record { few = omega arith; ids = (omega arith, tt); docs = omega arith }, omega arith)
    at false h = cc

abbrev shard : ShardState Writes
shard = record {
  db = written;
  idx_files = index_files sum32 sum32-bound contents;
  block_sizes = λ block_id. none;
  open_block = some 7;
  preps =
      record { transaction_id = t1; document_name = 97 ∷ []; block_id = 7; start_offset = 40 } ∷ [];
  shard_id = 2;
  upload_enabled = true;
}

abbrev document : List ℕ → CommitDocument
document name = record {
  transaction_id = t1;
  document_name = name;
  content_type = [];
  block_id = 7;
  first_frame_off = 40;
  frame_count = 1;
  total_bytes = pos 3;
  sha256 = replicate 32 7;
  created_at_us = negsuc 4;
  encryption_envelope = [];
}

shard-IsCounted :
    IsCounted sum32 sum32-bound write_list small_json shard projection contents t1 one_document
unfolding find_by_transaction
shard-IsCounted = record {
  reads = written-Reads;
  stored = refl;
  some_block = refl;
  written = (((small_entry-IsStored, tt), refl), tt);
  counted = refl;
}

apply_commit_document-IsReplayed_example :
    IsReplayed sum32 sum32-bound write_list small_json shard
      (document (97 ∷ []))
      small_entry
      (apply_commit_document sum32 write_list small_json shard (document (97 ∷ [])) 12)
unfolding find_by_transaction
apply_commit_document-IsReplayed_example =
    apply_commit_document-IsReplayed sum32 sum32-bound write_list small_json shard projection
      contents (document (97 ∷ [])) one_document (resolved 7 small_entry) 12 shard-IsCounted refl

matches : commit_document_matches_existing (document (97 ∷ [])) small_entry ≡ true
unfolding commit_document_matches_existing duplicate_document_matches
matches = refl

second-IsStored : IsStored (committed_entry (document (98 ∷ [])))
unfolding encode_index_entry
second-IsStored = record {
  valid = record {
    transaction_id = omega arith;
    doc_name = omega arith;
    content_type = omega arith;
    envelope = omega arith;
    created_at = (omega arith, omega arith);
    first_frame_off = (omega arith, omega arith);
    total_bytes = (omega arith, omega arith);
    frame_count = omega arith;
    sha256 = refl;
  };
  small = omega arith;
}

-- The index of Block 7 has "a" and "b", and only "a" is counted.
abbrev both_contents : ℕ → List IndexEntry
both_contents block_id = small_entry ∷ committed_entry (document (98 ∷ [])) ∷ []

abbrev half_done : ShardState Writes
half_done = record shard {
  idx_files = index_files sum32 sum32-bound both_contents;
  open_block = some 8;
  upload_enabled = false;
}

half_done-IsHalfDone :
    IsHalfDone sum32 sum32-bound write_list small_json half_done projection both_contents
      (document (98 ∷ []))
      one_document
      []
      (resolved 7 small_entry ∷ [])
      (committed_entry (document (98 ∷ [])))
unfolding find find_by_transaction commit_document_matches_existing duplicate_document_matches
half_done-IsHalfDone = record {
  reads = written-Reads;
  stored = refl;
  block_ids = refl;
  written = (((small_entry-IsStored, (second-IsStored, tt)), refl), tt);
  here = ((small_entry-IsStored, (second-IsStored, tt)), refl);
  holds = refl;
  uncounted = refl;
  unnamed = refl;
  named = refl;
  found = refl;
  matches = refl;
  digest = refl;
  writer = inr (refl, refl);
  room = projection-Fits;
  few = refl;
  low = omega arith;
  fresh = refl;
}

apply_commit_document-IsResumed_example :
    Resumes sum32 sum32-bound write_list small_json half_done projection both_contents
      (document (98 ∷ []))
      one_document
      []
      (apply_commit_document sum32 write_list small_json half_done (document (98 ∷ [])) 12)
apply_commit_document-IsResumed_example =
    apply_commit_document-IsResumed sum32 sum32-bound write_list small_json half_done projection
      both_contents (document (98 ∷ [])) one_document [] (resolved 7 small_entry ∷ [])
      (committed_entry (document (98 ∷ []))) 12 half_done-IsHalfDone
