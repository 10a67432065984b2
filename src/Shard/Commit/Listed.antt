-- ===== src/Shard/Commit/Listed.antt =====
-- internal/shard/projection.go: the Documents that an append to an index adds to a transaction.
use scrap.Common.{
  ℕ, ◌≡◌, refl, sym, ap, ◌∙◌, arith, true, false, inl, inr, List, [], ◌∷◌, ◌++◌, ◌==◌, ==_refl,
  if◌then◌else◌, map, append_assoc, append-nil, Bool-cases,
}
use scrap.Common.Bytes.{same_bytes}
use scrap.Block.Index.{IndexEntry, find_by_transaction}
use scrap.Index.Resolution.{resolved}
use scrap.Index.Resolution.Stored.{documents}
use scrap.Shard.Commit.{is_block}

-- Where a Block stands in the entry of a transaction: at the end, once, or not yet.
pub data IsPlaced (contents : ℕ → List IndexEntry) (tx_id : List ℕ) (block_id : ℕ) (front : List ℕ)
    : List ℕ → Type 0 where
  last : IsPlaced contents tx_id block_id front (front ++ block_id ∷ [])
  missing :
      find_by_transaction tx_id (contents block_id) ≡ []
      → IsPlaced contents tx_id block_id front front

abbrev pub extended : (ℕ → List IndexEntry) → ℕ → IndexEntry → ℕ → List IndexEntry
extended contents block_id e =
    λ other. if other == block_id then contents other ++ e ∷ [] else contents other

find_by_transaction-append :
    (tx_id : List ℕ) (entries : List IndexEntry) (e : IndexEntry)
    → same_bytes e.transaction_id tx_id ≡ true
    → find_by_transaction tx_id (entries ++ e ∷ []) ≡ find_by_transaction tx_id entries ++ e ∷ []
unfolding find_by_transaction
find_by_transaction-append tx_id [] e h = rw h
find_by_transaction-append tx_id (x ∷ entries) e h =
    let rest = find_by_transaction-append tx_id entries e h in
    elim (Bool-cases (same_bytes x.transaction_id tx_id)) [
      | inl mine ↦ rw (mine, rest)
      | inr other ↦ rw (other, rest)
    ]

documents-front :
    (contents : ℕ → List IndexEntry) (tx_id : List ℕ) (block_id : ℕ) (e : IndexEntry)
    (front rest : List ℕ)
    → is_block front block_id ≡ false
    → documents (extended contents block_id e) tx_id (front ++ rest)
      ≡ documents contents tx_id front ++ documents (extended contents block_id e) tx_id rest
documents-front contents tx_id block_id e [] rest h = refl
documents-front contents tx_id block_id e (other ∷ front) rest h =
    let differs : (other == block_id) ≡ false = ground arith in
    let later : is_block front block_id ≡ false = ground arith in
    let mine = map (resolved other) (find_by_transaction tx_id (contents other)) in
    rw (differs, documents-front contents tx_id block_id e front rest later)
      (sym (
        append_assoc mine (documents contents tx_id front)
          (documents (extended contents block_id e) tx_id rest)))

documents-append :
    (contents : ℕ → List IndexEntry) (tx_id xs ys : List ℕ)
    → documents contents tx_id (xs ++ ys)
      ≡ documents contents tx_id xs ++ documents contents tx_id ys
documents-append contents tx_id [] ys = refl
documents-append contents tx_id (x ∷ xs) ys =
    let mine = map (resolved x) (find_by_transaction tx_id (contents x)) in
    rw (documents-append contents tx_id xs ys)
      (sym (append_assoc mine (documents contents tx_id xs) (documents contents tx_id ys)))

map-append :
    (block_id : ℕ) (xs ys : List IndexEntry)
    → map (resolved block_id) (xs ++ ys) ≡ map (resolved block_id) xs ++ map (resolved block_id) ys
map-append block_id [] ys = refl
map-append block_id (x ∷ xs) ys = ap (λ zs. resolved block_id x ∷ zs) (map-append block_id xs ys)

-- What the Block holds of the transaction after the append.
documents-Block :
    (contents : ℕ → List IndexEntry) (tx_id : List ℕ) (block_id : ℕ) (e : IndexEntry)
    → same_bytes e.transaction_id tx_id ≡ true
    → documents (extended contents block_id e) tx_id (block_id ∷ [])
      ≡ map (resolved block_id) (find_by_transaction tx_id (contents block_id))
        ++ resolved block_id e ∷ []
documents-Block contents tx_id block_id e h =
    rw (==_refl block_id, find_by_transaction-append tx_id (contents block_id) e h)
      (append-nil _ ∙ map-append block_id (find_by_transaction tx_id (contents block_id)) (e ∷ []))

pub documents-extended :
    (contents : ℕ → List IndexEntry) (tx_id : List ℕ) (block_id : ℕ) (e : IndexEntry)
    (front block_ids : List ℕ)
    → IsPlaced contents tx_id block_id front block_ids
    → is_block front block_id ≡ false
    → same_bytes e.transaction_id tx_id ≡ true
    → documents (extended contents block_id e) tx_id (front ++ block_id ∷ [])
      ≡ documents contents tx_id block_ids ++ resolved block_id e ∷ []
documents-extended contents tx_id block_id e front _ last fresh h =
    let before = documents contents tx_id front in
    let mine = map (resolved block_id) (find_by_transaction tx_id (contents block_id)) in
    documents-front contents tx_id block_id e front (block_id ∷ []) fresh
    ∙ (ap (λ xs. before ++ xs) (documents-Block contents tx_id block_id e h)
        ∙ (sym (append_assoc before mine (resolved block_id e ∷ []))
            ∙ ap (λ xs. xs ++ resolved block_id e ∷ [])
                (ap (λ xs. before ++ xs) (sym (append-nil mine))
                  ∙ sym (documents-append contents tx_id front (block_id ∷ [])))))
documents-extended contents tx_id block_id e front _ (missing none_yet) fresh h =
    let before = documents contents tx_id front in
    documents-front contents tx_id block_id e front (block_id ∷ []) fresh
    ∙ ap (λ xs. before ++ xs)
        (documents-Block contents tx_id block_id e h
          ∙ ap (λ xs. map (resolved block_id) xs ++ resolved block_id e ∷ []) none_yet)
