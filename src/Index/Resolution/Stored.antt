-- ===== src/Index/Resolution/Stored.antt =====
-- internal/index/resolution.go: the Documents that were appended to the indexes of Blocks.
use scrap.Common.{
  ℕ, ◌<◌, ◌^◌, ◌≡◌, ◌≢◌, ◌⊎◌, inl, inr, ◌∙◌, arith, refl, sym, ap, true, false, Bool-cases, Option,
  some, List, [], ◌∷◌, ◌++◌, ◌==◌, ==_refl, length, map, All,
}
use scrap.Common.Bytes.{same_bytes, same_bytes_refl, same_bytes→eq}
use scrap.Common.Result.{Result, ok, err}
use scrap.Block.Index.{IndexEntry, new_index, find_by_transaction}
use scrap.Block.Index.Read.{IsStored, entries_bytes}
use scrap.Block.Index.Repair.{read_index_entries-append}
use scrap.Index.Pebble.{Pebble}
use scrap.Index.Entry.{Entry}
use scrap.Index.Store.Spec.{Projection, Reads}
use scrap.Index.Resolution.{
  ResolveError, document_not_found, is_document, Resolver, ResolvedDocument, find_document,
  resolved, transaction_entry, block_entries, list_loop, list_documents, resolve_document,
}

-- The Documents of a transaction in some Blocks, by what each Block has.
abbrev pub documents : (ℕ → List IndexEntry) → List ℕ → List ℕ → List ResolvedDocument
documents contents tx_id [] = []
documents contents tx_id (block_id ∷ block_ids) =
    map (resolved block_id) (find_by_transaction tx_id (contents block_id))
    ++ documents contents tx_id block_ids

-- The entries of a transaction, in their order.
pub data Belong (tx_id : List ℕ) : List IndexEntry → List IndexEntry → Type 0 where
  no_entry : Belong tx_id [] []
  own :
      (e : IndexEntry) (entries found : List IndexEntry)
      → e.transaction_id ≡ tx_id
      → Belong tx_id entries found
      → Belong tx_id (e ∷ entries) (e ∷ found)
  foreign :
      (e : IndexEntry) (entries found : List IndexEntry)
      → e.transaction_id ≢ tx_id
      → Belong tx_id entries found
      → Belong tx_id (e ∷ entries) found

-- The Documents of a transaction in some Blocks, of which each has one.
pub data Lists (contents : ℕ → List IndexEntry) (tx_id : List ℕ)
    : List ℕ → List ResolvedDocument → Type 0 where
  no_block : Lists contents tx_id [] []
  in_block :
      (block_id : ℕ) (block_ids : List ℕ) (e : IndexEntry) (found : List IndexEntry)
      (docs : List ResolvedDocument)
      → Belong tx_id (contents block_id) (e ∷ found)
      → Lists contents tx_id block_ids docs
      → Lists contents tx_id (block_id ∷ block_ids) (map (resolved block_id) (e ∷ found) ++ docs)

-- The first Document of a name, or an error if there is none.
abbrev pub IsFirst : List ℕ → List ResolvedDocument → Result ResolveError ResolvedDocument → Type 0
IsFirst doc_name docs result =
    ((before : List ResolvedDocument) × (doc : ResolvedDocument) × (after : List ResolvedDocument)
      × (docs ≡ before ++ doc ∷ after)
      × All (λ other. other.entry.doc_name ≢ doc_name) before
      × (doc.entry.doc_name ≡ doc_name)
      × (result ≡ ok doc))
    ⊎ (All (λ other. other.entry.doc_name ≢ doc_name) docs × (result ≡ err document_not_found))

same_bytes-ne : (xs ys : List ℕ) → xs ≢ ys → same_bytes xs ys ≡ false
same_bytes-ne xs ys differ = elim (Bool-cases (same_bytes xs ys)) [
  | inl same ↦ elim (differ (same_bytes→eq xs ys same)) [ ]
  | inr other ↦ other
]

find_document-IsFirst :
    (doc_name : List ℕ) (docs : List ResolvedDocument)
    → IsFirst doc_name docs (find_document doc_name docs)
find_document-IsFirst doc_name [] = inr (tt, refl)
find_document-IsFirst doc_name (doc ∷ docs) = elim (Bool-cases (is_document doc_name doc)) [
  | inl named ↦
      rw named
        (inl ([], doc, docs, refl, tt, same_bytes→eq doc.entry.doc_name doc_name named, refl))
  | inr other ↦ rw other (
      passed (find_document-IsFirst doc_name docs) (λ same.
        let reflexive = same_bytes_refl doc_name in
        let is = ap (λ name. same_bytes name doc_name) same in cc))
]
  where
    passed :
        {result : Result ResolveError ResolvedDocument}
        → IsFirst doc_name docs result
        → doc.entry.doc_name ≢ doc_name
        → IsFirst doc_name (doc ∷ docs) result
    passed (inl (before, found, after, split, others, named, is)) differs =
        inl (doc ∷ before, found, after, ap (λ ds. doc ∷ ds) split, (differs, others), named, is)
    passed (inr (others, is)) differs = inr ((differs, others), is)

Belong→find :
    (tx_id : List ℕ) (entries found : List IndexEntry)
    → Belong tx_id entries found
    → found ≡ find_by_transaction tx_id entries
unfolding find_by_transaction
Belong→find tx_id _ _ no_entry = refl
Belong→find tx_id _ _ (own e entries found is rest) =
    let same : same_bytes e.transaction_id tx_id ≡ true =
      ap (λ t. same_bytes t tx_id) is ∙ same_bytes_refl tx_id in
    rw (same, sym (Belong→find tx_id entries found rest))
Belong→find tx_id _ _ (foreign e entries found differs rest) =
    rw (same_bytes-ne e.transaction_id tx_id differs, sym (Belong→find tx_id entries found rest))

Lists→documents :
    (contents : ℕ → List IndexEntry) (tx_id block_ids : List ℕ) (docs : List ResolvedDocument)
    → Lists contents tx_id block_ids docs
    → docs ≡ documents contents tx_id block_ids
Lists→documents contents tx_id _ _ no_block = refl
Lists→documents contents tx_id _ _ (in_block block_id block_ids e found docs belong rest) = rw (
  sym (Belong→find tx_id (contents block_id) (e ∷ found) belong),
  sym (Lists→documents contents tx_id block_ids docs rest),
)

module _ (crc : List ℕ → ℕ) (bound : (xs : List ℕ) → crc xs < 2 ^ 32) where
  abbrev pub index_files : (ℕ → List IndexEntry) → ℕ → Option (List ℕ)
  index_files contents block_id =
      some (new_index crc ++ entries_bytes crc bound (contents block_id))

module _ {D : Type 0} (p : Pebble D) (crc : List ℕ → ℕ)
    (bound : (xs : List ℕ) → crc xs < 2 ^ 32) where
  abbrev pub resolver : D → (ℕ → List IndexEntry) → Resolver D
  resolver d contents = record {
    projection = some d;
    block_index = some (index_files crc bound contents);
  }

  -- A Block that holds what can be stored, and some of it of the transaction.
  abbrev pub Holds : (ℕ → List IndexEntry) → List ℕ → ℕ → Type 0
  Holds contents tx_id block_id =
      All IsStored (contents block_id)
      × ((length (find_by_transaction tx_id (contents block_id)) == 0) ≡ false)

  block_entries-Holds :
      (d : D) (contents : ℕ → List IndexEntry) (tx_id : List ℕ) (block_id : ℕ)
      → Holds contents tx_id block_id
      → block_entries p crc (resolver d contents) tx_id block_id
        ≡ ok (find_by_transaction tx_id (contents block_id))
  unfolding block_entries
  block_entries-Holds d contents tx_id block_id h =
      rw (read_index_entries-append crc bound (contents block_id) h.0, h.1)

  list_loop-Holds :
      (d : D) (contents : ℕ → List IndexEntry) (tx_id block_ids : List ℕ)
      → All (Holds contents tx_id) block_ids
      → list_loop p crc (resolver d contents) tx_id block_ids
        ≡ ok (documents contents tx_id block_ids)
  list_loop-Holds d contents tx_id [] hs = refl
  list_loop-Holds d contents tx_id (block_id ∷ block_ids) hs = rw (
    block_entries-Holds d contents tx_id block_id hs.0,
    list_loop-Holds d contents tx_id block_ids hs.1,
  )

  Lists→Holds :
      (contents : ℕ → List IndexEntry) (tx_id block_ids : List ℕ) (docs : List ResolvedDocument)
      → All (λ block_id. All IsStored (contents block_id)) block_ids
      → Lists contents tx_id block_ids docs
      → All (Holds contents tx_id) block_ids
  Lists→Holds contents tx_id _ _ stored no_block = tt
  Lists→Holds contents tx_id _ _ stored (in_block block_id block_ids e found docs belong rest) = (
    (stored.0, rw (sym (Belong→find tx_id (contents block_id) (e ∷ found) belong)) (ground arith)),
    Lists→Holds contents tx_id block_ids docs stored.1 rest,
  )

  -- If the projection reads as a function, the index of each Block that the entry of a transaction
  -- names was written by appends, and the Documents of the transaction that they hold, at least one
  -- in each Block, are as many as the entry counts, then these are listed, Block by Block in the
  -- order of the appends, and a name is resolved to the first Document that has it, or is not found
  -- if none has.
  pub list_documents-Holds :
      (d : D) (f : Projection) (contents : ℕ → List IndexEntry) (tx_id : List ℕ) (entry : Entry)
      (docs : List ResolvedDocument)
      → Reads p d f
      → f tx_id ≡ some entry
      → (length entry.block_ids == 0) ≡ false
      → All (λ block_id. All IsStored (contents block_id)) entry.block_ids
      → Lists contents tx_id entry.block_ids docs
      → length docs ≡ entry.doc_count
      → (list_documents p crc (resolver d contents) tx_id ≡ ok docs)
        × ((doc_name : List ℕ)
            → IsFirst doc_name docs (resolve_document p crc (resolver d contents) tx_id doc_name))
  unfolding list_documents resolve_document transaction_entry
  list_documents-Holds d f contents tx_id entry docs reads is some_block stored lists counted =
      let read = reads tx_id in
      let same = Lists→documents contents tx_id entry.block_ids docs lists in
      let loop =
        list_loop-Holds d contents tx_id entry.block_ids
          (Lists→Holds contents tx_id entry.block_ids docs stored lists)
        ∙ ap ok (sym same) in
      let listed : list_documents p crc (resolver d contents) tx_id ≡ ok docs =
        rw (read, is, some_block, loop, counted, ==_refl entry.doc_count) in
      (listed, λ doc_name. rw listed (find_document-IsFirst doc_name docs))
