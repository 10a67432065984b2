-- ===== src/Index/Examples.antt =====
-- internal/index: small runs.
use scrap.Common.{
  ℕ, ◌<◌, ◌^◌, ◌≡◌, ◌≢◌, refl, arith, true, false, none, some, List, [], ◌∷◌, inl, inr, Bool-cases,
}
use scrap.Common.Int.{pos}
use scrap.Common.Bytes.{same_bytes}
use scrap.Common.Result.{ok, err}
use scrap.Block.Index.{IndexEntry}
use scrap.Block.Samples.{sum32, sum32-bound, small_entry, small_entry-IsStored}
use scrap.Index.Errors.{IndexError}
use scrap.Index.Entry.{Entry, encode_entry, decode_entry}
use scrap.Index.Entry.RoundTrip.{decode_entry-encode}
use scrap.Index.Store.{get, tx_key}
use scrap.Index.Store.Spec.{
  Projection, Op, put_op, add_block_id_op, increment_doc_count_op, Allows, Reads, calls, update,
}
use scrap.Index.Store.Refines.{calls_refine}
use scrap.Index.Resolution.{
  ResolvedDocument, resolved, list_documents, resolve_document, contains_document,
  contains_document_lenient,
}
use scrap.Index.Resolution.Agreement.{contains_document-lenient}
use scrap.Index.Resolution.Stored.{
  Belong, own, no_entry, Lists, no_block, in_block, IsFirst, resolver, list_documents-Holds,
}
use scrap.Index.Outbox.{PendingUpload, put_pending_upload, validate_pending_upload}
use scrap.Index.Outbox.RoundTrip.{Changes, put_pending_upload-Changes}
use scrap.Index.Catalog.{
  confirmed_upload_key, get_confirmed_upload, put_confirmed_upload, encode_confirmed_upload,
  decode_confirmed_upload, validate_confirmed_upload, validate_backend_object_metadata,
}
use scrap.Index.Catalog.Reads.{get_confirmed_upload-IsValid, put_confirmed_upload-Reads}
use scrap.Index.Samples.{Writes, write_list, small_upload, small_json}

abbrev two_blocks : Entry
two_blocks = record { block_ids = 7 ∷ 300 ∷ []; doc_count = 2; completed = true }

decode_entry-encode_example : decode_entry (encode_entry two_blocks) ≡ ok two_blocks
decode_entry-encode_example =
    decode_entry-encode two_blocks
      (record { few = omega arith; ids = (omega arith, (omega arith, tt)); docs = omega arith })

abbrev three_calls : List Op
three_calls =
    put_op (1 ∷ []) 7 1 false ∷ add_block_id_op (1 ∷ []) 300 ∷ increment_doc_count_op (2 ∷ []) ∷ []

abbrev no_entries : Projection
no_entries = λ tx_id. none

calls_refine_example :
    (g : Projection) × Allows write_list [] no_entries three_calls
      (calls write_list three_calls []).1
      (calls write_list three_calls []).0
      g
    × Reads write_list (calls write_list three_calls []).0 g
unfolding get
calls_refine_example =
    calls_refine write_list three_calls [] no_entries (omega arith)
      ((omega arith, omega arith), (omega arith, (tt, tt))) (λ tx_id e h. cc) (λ tx_id. refl)

-- Block 7 has a Document of the transaction "t1", and Block 300 another.
abbrev contents : ℕ → List IndexEntry
contents block_id = small_entry ∷ []

abbrev t1 : List ℕ
t1 = 116 ∷ 49 ∷ []

abbrev t1_entries : Projection
t1_entries = update no_entries t1 two_blocks

abbrev written : Writes
written = (tx_key t1, some (encode_entry two_blocks)) ∷ []

written-Reads : Reads write_list written t1_entries
unfolding get tx_key encode_entry decode_entry
written-Reads tx_id = elim (Bool-cases (same_bytes t1 tx_id)) [
  | inl same ↦ rw same
  | inr other ↦ rw other
]

abbrev two_documents : List ResolvedDocument
two_documents = resolved 7 small_entry ∷ resolved 300 small_entry ∷ []

two_documents-Lists : Lists contents t1 (7 ∷ 300 ∷ []) two_documents
two_documents-Lists =
    let belong : Belong t1 (small_entry ∷ []) (small_entry ∷ []) =
      own small_entry [] [] refl no_entry in
    in_block 7 (300 ∷ []) small_entry [] (resolved 300 small_entry ∷ []) belong
      (in_block 300 [] small_entry [] [] belong no_block)

list_documents-Holds_example :
    (list_documents write_list sum32 (resolver write_list sum32 sum32-bound written contents) t1
      ≡ ok two_documents)
    × ((doc_name : List ℕ)
        → IsFirst doc_name two_documents (
            resolve_document write_list sum32
              (resolver write_list sum32 sum32-bound written contents)
              t1
              doc_name))
list_documents-Holds_example =
    list_documents-Holds write_list sum32 sum32-bound written t1_entries contents t1 two_blocks
      two_documents written-Reads refl refl
      ((small_entry-IsStored, tt), ((small_entry-IsStored, tt), tt)) two_documents-Lists refl

contains_document-lenient_example :
    contains_document write_list sum32
      (resolver write_list sum32 sum32-bound written contents)
      t1
      (97 ∷ [])
    ≡ contains_document_lenient write_list sum32
        (resolver write_list sum32 sum32-bound written contents)
        t1
        (97 ∷ [])
contains_document-lenient_example =
    contains_document-lenient write_list sum32
      (resolver write_list sum32 sum32-bound written contents) t1 (97 ∷ []) two_documents
      list_documents-Holds_example.0

abbrev pending : PendingUpload
pending = record {
  block_id = 7;
  shard_id = 2;
  sealed_size_bytes = pos 64;
  sealed_at_us = pos 1000;
  upload_generation = pos 1;
}

put_pending_upload-Changes_example :
    Changes write_list written 7 (ok pending) (put_pending_upload write_list written pending)
    × ((e : IndexError)
        → validate_pending_upload pending ≡ err e
        → put_pending_upload write_list written pending ≡ (written, err e))
put_pending_upload-Changes_example = put_pending_upload-Changes write_list written pending (record {
  block = omega arith;
  shard = omega arith;
  size = (omega arith, omega arith);
  at = (omega arith, omega arith);
  generation = (omega arith, omega arith);
})

abbrev catalog : Writes
catalog = (confirmed_upload_key 7, some (123 ∷ [])) ∷ []

read_catalog : get_confirmed_upload small_json write_list catalog 7 ≡ ok small_upload
unfolding get_confirmed_upload decode_confirmed_upload validate_confirmed_upload
    validate_backend_object_metadata confirmed_upload_key
read_catalog = refl

get_confirmed_upload-IsValid_example :
    (small_upload.block_id ≢ 0)
    × (small_upload.block_id ≡ 7)
    × (validate_confirmed_upload small_upload ≡ ok tt)
get_confirmed_upload-IsValid_example =
    get_confirmed_upload-IsValid small_json write_list catalog 7 small_upload read_catalog

put_confirmed_upload-Reads_example :
    (validate_confirmed_upload small_upload ≡ ok tt)
    × (get_confirmed_upload small_json write_list catalog 7 ≡ ok small_upload)
    × ((other : ℕ)
        → other < 2 ^ 64
        → 7 ≢ other
        → get_confirmed_upload small_json write_list catalog other
          ≡ get_confirmed_upload small_json write_list [] other)
unfolding put_confirmed_upload encode_confirmed_upload validate_confirmed_upload
    validate_backend_object_metadata
put_confirmed_upload-Reads_example =
    put_confirmed_upload-Reads small_json write_list [] catalog small_upload (omega arith) refl
