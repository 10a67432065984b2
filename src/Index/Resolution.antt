-- ===== src/Index/Resolution.antt =====
-- internal/index/resolution.go: from a transaction to its Documents. The files of block indexes are
-- a function of the Block, with none for one that does not open; a nil pointer is none too.
pub mod Agreement
pub mod Stored
use scrap.Common.{
  ℕ, Bool, true, false, not, Option, none, some, List, [], ◌∷◌, ◌++◌, ◌==◌, if◌then◌else◌, length,
  map,
}
use scrap.Common.Bytes.{same_bytes}
use scrap.Common.Result.{Result, ok, err, either, ◌>>=◌, ◌>>◌, fail_if}
use scrap.Block.Index.{IndexEntry, read_index_entries, find, find_by_transaction}
use scrap.Index.Pebble.{Pebble}
use scrap.Index.Errors.{IndexError, transaction_not_found}
use scrap.Index.Entry.{Entry}
use scrap.Index.Store.{get}

-- `corrupt` is every error that wraps `ErrCorrupt`.
pub data ResolveError : Type 0 where
  unknown_transaction : ResolveError
  document_not_found : ResolveError
  corrupt : ResolveError

pub record ResolvedDocument : Type 0 where
  pub entry : IndexEntry
  pub block_id : ℕ

pub record Resolver (D : Type 0) : Type 0 where
  pub projection : Option D
  pub block_index : Option (ℕ → Option (List ℕ))

abbrev pub entry_error : IndexError → ResolveError
entry_error transaction_not_found = unknown_transaction
entry_error _ = corrupt

abbrev pub with_blocks : Entry → Result ResolveError Entry
with_blocks e = if length e.block_ids == 0 then err corrupt else ok e

abbrev pub is_document : List ℕ → ResolvedDocument → Bool
is_document doc_name doc = same_bytes doc.entry.doc_name doc_name

abbrev pub find_document : List ℕ → List ResolvedDocument → Result ResolveError ResolvedDocument
find_document doc_name [] = err document_not_found
find_document doc_name (doc ∷ docs) =
    if is_document doc_name doc then ok doc else find_document doc_name docs

abbrev pub resolved : ℕ → IndexEntry → ResolvedDocument
resolved block_id e = record { entry = e; block_id = block_id }

-- An answer of `Contains…`, from the error of what was not found.
abbrev pub absent : ResolveError → Result ResolveError Bool
absent corrupt = err corrupt
absent _ = ok false

-- `ListDocuments` on an unknown transaction has no Documents.
abbrev pub no_documents : ResolveError → Result ResolveError (List ResolvedDocument)
no_documents unknown_transaction = ok []
no_documents e = err e

abbrev pub is_some : Option IndexEntry → Bool
is_some none = false
is_some (some e) = true

module _ {D : Type 0} (p : Pebble D) (crc : List ℕ → ℕ) where
  abbrev pub entry_in : Option D → List ℕ → Result ResolveError Entry
  entry_in none tx_id = err corrupt
  entry_in (some d) tx_id = either (get p d tx_id) (λ e. err (entry_error e)) with_blocks

  unfoldable pub transaction_entry : Resolver D → List ℕ → Result ResolveError Entry
  transaction_entry r tx_id = entry_in r.projection tx_id

  -- `OpenIndexReader` on what is at the path.
  abbrev pub open_index_reader : Option (List ℕ) → Result ResolveError (List IndexEntry)
  open_index_reader none = err corrupt
  open_index_reader (some file) = either (read_index_entries crc file) (λ e. err corrupt) ok

  abbrev pub of_transaction : List ℕ → List IndexEntry → Result ResolveError (List IndexEntry)
  of_transaction tx_id entries =
      let found = find_by_transaction tx_id entries in
      if length found == 0 then err corrupt else ok found

  abbrev pub entries_in :
      Option (ℕ → Option (List ℕ)) → List ℕ → ℕ → Result ResolveError (List IndexEntry)
  entries_in none tx_id block_id = err corrupt
  entries_in (some files) tx_id block_id =
      open_index_reader (files block_id) >>= of_transaction tx_id

  unfoldable pub block_entries : Resolver D → List ℕ → ℕ → Result ResolveError (List IndexEntry)
  block_entries r tx_id block_id = entries_in r.block_index tx_id block_id

  -- The loop over the Blocks of a transaction.
  abbrev pub list_loop : Resolver D → List ℕ → List ℕ → Result ResolveError (List ResolvedDocument)
  list_loop r tx_id [] = ok []
  list_loop r tx_id (block_id ∷ block_ids) = do
    entries ← block_entries r tx_id block_id
    docs ← list_loop r tx_id block_ids
    ok (map (resolved block_id) entries ++ docs)

  abbrev pub list_entry : Resolver D → List ℕ → Entry → Result ResolveError (List ResolvedDocument)
  list_entry r tx_id entry = do
    docs ← list_loop r tx_id entry.block_ids
    fail_if (not (length docs == entry.doc_count)) corrupt
    ok docs

  unfoldable pub list_documents : Resolver D → List ℕ → Result ResolveError (List ResolvedDocument)
  list_documents r tx_id = either (transaction_entry r tx_id) no_documents (list_entry r tx_id)

  unfoldable pub resolve_document :
      Resolver D → List ℕ → List ℕ → Result ResolveError ResolvedDocument
  resolve_document r tx_id doc_name = list_documents r tx_id >>= find_document doc_name

  unfoldable pub contains_document : Resolver D → List ℕ → List ℕ → Result ResolveError Bool
  contains_document r tx_id doc_name =
      either (resolve_document r tx_id doc_name) absent (λ doc. ok true)

  -- Whether the index of a Block has the Document; one that does not open has none.
  abbrev pub contained_in :
      Option (ℕ → Option (List ℕ)) → List ℕ → List ℕ → ℕ → Result ResolveError Bool
  contained_in none tx_id doc_name block_id = err corrupt
  contained_in (some files) tx_id doc_name block_id =
      either (open_index_reader (files block_id)) (λ e. ok false)
        (λ entries. ok (is_some (find tx_id doc_name entries)))

  unfoldable pub block_contains_document_lenient :
      Resolver D → List ℕ → List ℕ → ℕ → Result ResolveError Bool
  block_contains_document_lenient r tx_id doc_name block_id =
      contained_in r.block_index tx_id doc_name block_id

  abbrev pub lenient_loop : Resolver D → List ℕ → List ℕ → List ℕ → Result ResolveError Bool
  lenient_loop r tx_id doc_name [] = ok false
  lenient_loop r tx_id doc_name (block_id ∷ block_ids) =
      block_contains_document_lenient r tx_id doc_name block_id
      >>= (λ exists. if exists then ok true else lenient_loop r tx_id doc_name block_ids)

  unfoldable pub contains_document_lenient : Resolver D → List ℕ → List ℕ → Result ResolveError Bool
  contains_document_lenient r tx_id doc_name =
      either (transaction_entry r tx_id) absent
        (λ entry. lenient_loop r tx_id doc_name entry.block_ids)
