-- ===== src/Index/Resolution/Agreement.antt =====
-- internal/index/resolution.go: the two answers on whether a Document is there.
use scrap.Common.{
  ℕ, ◌≡◌, refl, sym, ap, ◌∙◌, Bool, true, not, Option, none, some, List, [], ◌∷◌, ◌++◌, ◌==◌,
  if◌then◌else◌, length, map, inl, inr, Bool-cases,
}
use scrap.Common.Bytes.{same_bytes}
use scrap.Common.Result.{
  Result, ok, err, either, ◌>>=◌, fail_if, >>=-eq-ok, guard-eq-ok, ok-injective,
}
use scrap.Block.Index.{IndexEntry, find, find_by_transaction}
use scrap.Index.Pebble.{Pebble}
use scrap.Index.Entry.{Entry}
use scrap.Index.Resolution.{
  Resolver, ResolvedDocument, ResolveError, corrupt, unknown_transaction, document_not_found,
  find_document, resolved, absent, no_documents, transaction_entry, open_index_reader, is_some,
  entries_in, contained_in, block_entries, list_loop, list_entry, list_documents, resolve_document,
  contains_document, block_contains_document_lenient, lenient_loop, contains_document_lenient,
}

abbrev found :
    ℕ
    → Option IndexEntry
    → Result ResolveError ResolvedDocument
    → Result ResolveError ResolvedDocument
found block_id none rest = rest
found block_id (some e) rest = ok (resolved block_id e)

-- The first Document of a name is that which the index of the first Block with one has.
find_document-append :
    (tx_id doc_name : List ℕ) (block_id : ℕ) (entries : List IndexEntry)
    (docs : List ResolvedDocument)
    → find_document doc_name (map (resolved block_id) (find_by_transaction tx_id entries) ++ docs)
      ≡ found block_id (find tx_id doc_name entries) (find_document doc_name docs)
unfolding find find_by_transaction
find_document-append tx_id doc_name block_id [] docs = refl
find_document-append tx_id doc_name block_id (e ∷ entries) docs =
    let rest = find_document-append tx_id doc_name block_id entries docs in
    elim (Bool-cases (same_bytes e.transaction_id tx_id)) [
      | inr other ↦ rw (other, rest)
      | inl same ↦ elim (Bool-cases (same_bytes e.doc_name doc_name)) [
        | inl named ↦ rw (same, named)
        | inr unnamed ↦ rw (same, unnamed, rest)
      ]
    ]

module _ {D : Type 0} (p : Pebble D) (crc : List ℕ → ℕ) where
  -- The answer that a list of Documents gives.
  abbrev answer : List ℕ → List ResolvedDocument → Result ResolveError Bool
  answer doc_name docs = either (find_document doc_name docs) absent (λ doc. ok true)

  answer-found :
      (doc_name : List ℕ) (block_id : ℕ) (o : Option IndexEntry) (docs : List ResolvedDocument)
      → either (found block_id o (find_document doc_name docs)) absent (λ doc. ok true)
        ≡ (if is_some o then ok true else answer doc_name docs)
  answer-found doc_name block_id none docs = refl
  answer-found doc_name block_id (some e) docs = refl

  -- A Block whose entries are listed opens, and its index is searched.
  block_entries-eq-ok :
      (r : Resolver D) (tx_id doc_name : List ℕ) (block_id : ℕ) {listed : List IndexEntry}
      → block_entries p crc r tx_id block_id ≡ ok listed
      → (entries : List IndexEntry) × (find_by_transaction tx_id entries ≡ listed)
        × (block_contains_document_lenient p crc r tx_id doc_name block_id
            ≡ ok (is_some (find tx_id doc_name entries)))
  unfolding block_entries block_contains_document_lenient
  block_entries-eq-ok r tx_id doc_name block_id {listed = listed} h = at r.block_index h
    where
      at :
          (o : Option (ℕ → Option (List ℕ)))
          → entries_in p crc o tx_id block_id ≡ ok listed
          → (entries : List IndexEntry) × (find_by_transaction tx_id entries ≡ listed)
            × (contained_in p crc o tx_id doc_name block_id
                ≡ ok (is_some (find tx_id doc_name entries)))
      at none h = cc
      at (some files) h =
          let (entries, opened, rest) = >>=-eq-ok (open_index_reader p crc (files block_id)) _ h in
          (
            entries,
            ok-injective
                (guard-eq-ok (length (find_by_transaction tx_id entries) == 0) corrupt _ rest).1,
            rw opened,
          )

  list_loop-lenient :
      (r : Resolver D) (tx_id doc_name : List ℕ) (block_ids : List ℕ) {docs : List ResolvedDocument}
      → list_loop p crc r tx_id block_ids ≡ ok docs
      → lenient_loop p crc r tx_id doc_name block_ids ≡ answer doc_name docs
  list_loop-lenient r tx_id doc_name [] h = ap (answer doc_name) (ok-injective h)
  list_loop-lenient r tx_id doc_name (block_id ∷ block_ids) h =
      let (listed, here, h1) = >>=-eq-ok (block_entries p crc r tx_id block_id) _ h in
      let (docs, later, h2) = >>=-eq-ok (list_loop p crc r tx_id block_ids) _ h1 in
      let (entries, same, lenient) = block_entries-eq-ok r tx_id doc_name block_id here in
      let has = is_some (find tx_id doc_name entries) in
      let next : Bool → Result ResolveError Bool =
        λ exists. if exists then ok true else lenient_loop p crc r tx_id doc_name block_ids in
      let first =
        ap (λ es. find_document doc_name (map (resolved block_id) es ++ docs)) (sym same)
        ∙ find_document-append tx_id doc_name block_id entries docs in
      ap (λ x. x >>= next) lenient
      ∙ (ap (λ x. if has then ok true else x) (list_loop-lenient r tx_id doc_name block_ids later)
          ∙ (sym (
                ap (λ x. either x absent (λ doc. ok true)) first
                ∙ answer-found doc_name block_id (find tx_id doc_name entries) docs)
              ∙ ap (answer doc_name) (ok-injective h2)))

  -- If the Documents of a transaction are listed without an error, the strict and the lenient
  -- test of a Document give the same answer.
  pub contains_document-lenient :
      (r : Resolver D) (tx_id doc_name : List ℕ) (docs : List ResolvedDocument)
      → list_documents p crc r tx_id ≡ ok docs
      → contains_document p crc r tx_id doc_name ≡ contains_document_lenient p crc r tx_id doc_name
  unfolding contains_document contains_document_lenient resolve_document list_documents
  contains_document-lenient r tx_id doc_name docs h = at (transaction_entry p crc r tx_id) refl h
    where
      at :
          (entry : Result ResolveError Entry)
          → transaction_entry p crc r tx_id ≡ entry
          → either entry no_documents (list_entry p crc r tx_id) ≡ ok docs
          → either
              (either entry no_documents (list_entry p crc r tx_id) >>= find_document doc_name)
              absent
              (λ doc. ok true)
            ≡ either entry absent (λ entry. lenient_loop p crc r tx_id doc_name entry.block_ids)
      at (err unknown_transaction) is listed = refl
      at (err document_not_found) is listed = cc
      at (err corrupt) is listed = cc
      at (ok entry) is listed =
          let (all, loop, counted) = >>=-eq-ok (list_loop p crc r tx_id entry.block_ids) _ listed in
          let (a, b, same) =
            >>=-eq-ok (fail_if (not (length all == entry.doc_count)) corrupt) _ counted in
          ap (λ x. either (x >>= find_document doc_name) absent (λ doc. ok true)) listed
          ∙ (ap (answer doc_name) (sym (ok-injective same))
              ∙ sym (list_loop-lenient r tx_id doc_name entry.block_ids loop))
