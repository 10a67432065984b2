-- ===== src/Shard/Commit/Counting.antt =====
-- internal/shard/projection.go: `addProjectionDocument`.
use mathlib.Core.Path.{subst}
use scrap.Common.{
  ℕ, ◌+◌, ◌<◌, ◌^◌, ◌≡◌, refl, sym, ap, ◌∙◌, arith, true, false, ◌⊎◌, inl, inr, some, List, [], ◌∷◌,
  ◌++◌, ◌==◌, ==_refl, Option, Bool-cases,
}
use scrap.Common.Bytes.{same_bytes, same_bytes_refl, same_bytes→eq}
use scrap.Common.Result.{Result, ok, err, either, and_then}
use scrap.Block.Index.{IndexEntry}
use scrap.Index.Pebble.{Pebble, PebbleError}
use scrap.Index.Entry.{Entry, encode_entry}
use scrap.Index.Catalog.{Json}
use scrap.Index.Store.{tx_key, add_block_id, increment_doc_count}
use scrap.Index.Store.Spec.{
  Projection, update, Outcome, add_block_id_op, increment_doc_count_op, Fits, Reads, specified,
  answer, IsRefused,
}
use scrap.Index.Store.Refines.{Served, call-Served}
use scrap.Index.Store.Room.{specified-Fits}
use scrap.Shard.Commit.{CommitError, apply_failed, is_block}
use scrap.Shard.Commit.Apply.{add_projection_document, as_failed, is_last}
use scrap.Shard.Commit.Listed.{IsPlaced, last, missing}

some-injective : {A : Type 0} {a b : A} → ◌≡◌ {A = Option A} (some a) (some b) → a ≡ b
some-injective h = cc

module _ (crc : List ℕ → ℕ) {D : Type 0} (p : Pebble D) (json : Json) where
  is_last-end :
      (front : List ℕ) (block_id : ℕ) → is_last crc p json (front ++ block_id ∷ []) block_id ≡ true
  is_last-end [] block_id = ==_refl block_id
  is_last-end (x ∷ []) block_id = ==_refl block_id
  is_last-end (x ∷ y ∷ front) block_id = is_last-end (y ∷ front) block_id

  is_last-fresh :
      (front : List ℕ) (block_id : ℕ)
      → is_block front block_id ≡ false
      → is_last crc p json front block_id ≡ false
  is_last-fresh [] block_id h = refl
  is_last-fresh (x ∷ []) block_id h = ground arith
  is_last-fresh (x ∷ y ∷ front) block_id h =
      let rest : is_block (y ∷ front) block_id ≡ false = ground arith in
      is_last-fresh (y ∷ front) block_id rest

  -- The entry with one Document more, in a Block that is its last.
  abbrev pub counted : Entry → List ℕ → Entry
  counted entry block_ids = record entry { block_ids = block_ids; doc_count = entry.doc_count + 1 }

  -- The database refuses one of the two writes of a count: of the entry with its Blocks, in the
  -- database as it was, or then of the count.
  abbrev pub WriteFails : D → Projection → List ℕ → Entry → List ℕ → D → Type 0
  WriteFails d f tx_id entry block_ids later =
      ((e : PebbleError) × (later ≡ d)
        × (p.set d (tx_key tx_id) (encode_entry (record entry { block_ids = block_ids })) ≡ err e))
      ⊎ ((e : PebbleError) × Reads p later (update f tx_id (record entry { block_ids = block_ids }))
          × (p.set later (tx_key tx_id) (encode_entry (counted entry block_ids)) ≡ err e))

  -- The transaction has the counted entry now and others have theirs, or the database refuses a
  -- write.
  abbrev pub Counts :
      D → Projection → List ℕ → Entry → List ℕ → D × Result CommitError (Unit {0}) → Type 0
  Counts d f tx_id entry block_ids (later, out) =
      ((out ≡ ok tt)
        × ((g : Projection) × Reads p later g
            × (g tx_id ≡ some (counted entry block_ids))
            × ((other : List ℕ) → same_bytes tx_id other ≡ false → g other ≡ f other)))
      ⊎ ((out ≡ err apply_failed) × WriteFails d f tx_id entry block_ids later)

  -- The write that is refused is of the entry that is meant.
  IsRefused-update :
      (d : D) (f : Projection) (tx_id : List ℕ) (entry : Entry) {e : PebbleError}
      → IsRefused p d tx_id (update f tx_id entry, ok tt) e
      → p.set d (tx_key tx_id) (encode_entry entry) ≡ err e
  IsRefused-update d f tx_id entry refused =
      let same = same_bytes_refl tx_id in
      let meant : some entry ≡ some refused.entry = rw same at refused.meant_entry in
      ap (λ o. p.set d (tx_key tx_id) (encode_entry o)) (some-injective meant) ∙ refused.refused

  -- The count of an entry that has its Blocks.
  counts_one :
      (d first : D) (f : Projection) (tx_id : List ℕ) (entry : Entry) (block_ids : List ℕ)
      → Reads p d (update f tx_id (record entry { block_ids = block_ids }))
      → Fits 1 (update f tx_id (record entry { block_ids = block_ids }))
      → (entry.doc_count == 65535) ≡ false
      → Counts first f tx_id entry block_ids (as_failed crc p json (increment_doc_count p d tx_id))
  counts_one d first f tx_id entry block_ids reads fits small = at (increment_doc_count p d tx_id) (
      subst (λ r. Served p d tx_id r (increment_doc_count p d tx_id)) meant
        (call-Served p 0 (increment_doc_count_op tx_id) d before tt fits reads))
    where
      before : Projection
      before = update f tx_id (record entry { block_ids = block_ids })

      meant :
          (specified
            (increment_doc_count_op tx_id)
            (update f tx_id (record entry { block_ids = block_ids })))
          ≡ (
            update
                (update f tx_id (record entry { block_ids = block_ids }))
                tx_id
                (counted entry block_ids),
            ok tt,
          )
      meant = let same = same_bytes_refl tx_id in rw (same, small)

      at :
          (r : D × Outcome)
          → Served p d tx_id
              (
                update
                    (update f tx_id (record entry { block_ids = block_ids }))
                    tx_id
                    (counted entry block_ids),
                ok tt,
              )
              r
          → Counts first f tx_id entry block_ids (as_failed crc p json r)
      at (later, out) (inl (is, now)) = inl (
        ap (λ o. either o (λ e. err apply_failed) ok) is,
        (
          update (update f tx_id (record entry { block_ids = block_ids })) tx_id
              (counted entry block_ids),
          now,
          let same = same_bytes_refl tx_id in rw same,
          λ other differs. rw differs,
        ),
      )
      at (later, out) (inr (e, is, unchanged, refused)) = inr (
        ap (λ o. either o (λ e. err apply_failed) ok) is,
        inr (
          e,
          subst (λ d. Reads p d (update f tx_id (record entry { block_ids = block_ids })))
              (sym unchanged) reads,
          subst (λ d. p.set d (tx_key tx_id) (encode_entry (counted entry block_ids)) ≡ err e)
              (sym unchanged) (IsRefused-update d before tx_id (counted entry block_ids) refused),
        ),
      )

  -- An update by what is there changes nothing.
  update-stored :
      (f : Projection) (tx_id : List ℕ) (entry : Entry)
      → f tx_id ≡ some entry
      → (other : List ℕ) → update f tx_id entry other ≡ f other
  update-stored f tx_id entry is other = elim (Bool-cases (same_bytes tx_id other)) [
    | inl same ↦ rw same (sym is ∙ ap f (same_bytes→eq tx_id other same))
    | inr differs ↦ rw differs
  ]

  counts_stored :
      (d : D) (f : Projection) (tx_id : List ℕ) (entry : Entry)
      → Reads p d f
      → Fits 2 f
      → f tx_id ≡ some entry
      → (entry.doc_count == 65535) ≡ false
      → Counts d f tx_id entry entry.block_ids
          (as_failed crc p json (increment_doc_count p d tx_id))
  counts_stored d f tx_id entry reads fits is small =
      counts_one d d f tx_id entry entry.block_ids
        (λ other. reads other ∙ ap answer (sym (update-stored f tx_id entry is other)))
        (λ other e found.
          let (valid, room) = fits other e (sym (update-stored f tx_id entry is other) ∙ found) in
          (valid, omega arith))
        small

  -- An entry that gets one Block more, before the count.
  counts_block :
      (d : D) (f : Projection) (tx_id : List ℕ) (block_id : ℕ) (entry : Entry)
      → Reads p d f
      → Fits 2 f
      → f tx_id ≡ some entry
      → (entry.doc_count == 65535) ≡ false
      → block_id < 2 ^ 64
      → Counts d f tx_id entry (entry.block_ids ++ block_id ∷ []) (
          and_then
            (as_failed crc p json (add_block_id p d tx_id block_id))
            (λ d done. as_failed crc p json (increment_doc_count p d tx_id)))
  counts_block d f tx_id block_id entry reads fits is small low =
      let op = add_block_id_op tx_id block_id in
      let more = record entry { block_ids = entry.block_ids ++ block_id ∷ [] } in
      let meant : specified op f ≡ (update f tx_id more, ok tt) = rw is in
      at (add_block_id p d tx_id block_id)
        (subst (λ r. Served p d tx_id r (add_block_id p d tx_id block_id)) meant
          (call-Served p 1 op d f low fits reads))
        (subst (λ r. Fits 1 r.0) meant (specified-Fits 1 op f (omega arith) low fits))
    where
      at :
          (r : D × Outcome)
          → Served p d tx_id
              (
                update f tx_id (record entry { block_ids = entry.block_ids ++ block_id ∷ [] }),
                ok tt,
              )
              r
          → Fits 1 (update f tx_id (record entry { block_ids = entry.block_ids ++ block_id ∷ [] }))
          → Counts d f tx_id entry (entry.block_ids ++ block_id ∷ []) (
              and_then
                (as_failed crc p json r)
                (λ d done. as_failed crc p json (increment_doc_count p d tx_id)))
      at (later, ok one) (inl (out, now)) room =
          counts_one later d f tx_id entry (entry.block_ids ++ block_id ∷ []) now room small
      at (later, err e) (inl (out, now)) room = cc
      at (later, ok one) (inr (e, out, unchanged, refused)) room = cc
      at (later, err e') (inr (e, out, unchanged, refused)) room =
          inr (refl, inl (e, unchanged, IsRefused-update d f tx_id _ refused))

  placed-cases :
      (contents : ℕ → List IndexEntry) (tx_id : List ℕ) (block_id : ℕ) (front block_ids : List ℕ)
      → IsPlaced contents tx_id block_id front block_ids
      → is_block front block_id ≡ false
      → ((is_last crc p json block_ids block_id ≡ true) × (block_ids ≡ front ++ block_id ∷ []))
        ⊎ ((is_last crc p json block_ids block_id ≡ false)
            × (block_ids ++ block_id ∷ [] ≡ front ++ block_id ∷ []))
  placed-cases contents tx_id block_id front _ last fresh = inl (is_last-end front block_id, refl)
  placed-cases contents tx_id block_id front _ (missing none_yet) fresh =
      inr (is_last-fresh front block_id fresh, refl)

  pub add_projection_document-Counts :
      (d : D) (f : Projection) (contents : ℕ → List IndexEntry) (tx_id : List ℕ) (block_id : ℕ)
      (front : List ℕ) (entry : Entry)
      → Reads p d f
      → Fits 2 f
      → f tx_id ≡ some entry
      → (entry.doc_count == 65535) ≡ false
      → block_id < 2 ^ 64
      → IsPlaced contents tx_id block_id front entry.block_ids
      → is_block front block_id ≡ false
      → Counts d f tx_id entry
          (front ++ block_id ∷ [])
          (add_projection_document crc p json d tx_id block_id)
  unfolding add_projection_document
  add_projection_document-Counts d f contents tx_id block_id front entry reads fits is small low
        placed fresh =
      let read = reads tx_id ∙ ap answer is in
      elim (placed-cases contents tx_id block_id front entry.block_ids placed fresh) [
        | inl (end, ids) ↦
            rw (read, end, sym ids) (counts_stored d f tx_id entry reads fits is small)
        | inr (fresh_block, ids) ↦
            rw (read, fresh_block, sym ids)
              (counts_block d f tx_id block_id entry reads fits is small low)
      ]
