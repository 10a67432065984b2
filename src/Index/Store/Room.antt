-- ===== src/Index/Store/Room.antt =====
-- internal/index/index.go: the entries that calls leave can be stored.
use scrap.Common.{
  ℕ, suc, ◌+◌, ◌<◌, ◌^◌, ◌≡◌, refl, sym, arith, Bool, true, false, Option, none, some, List, [],
  ◌∷◌, ◌++◌, ◌==◌, if◌then◌else◌, length, length-append, All-append,
}
use scrap.Common.Bytes.{same_bytes}
use scrap.Common.Result.{ok, err}
use scrap.Index.Errors.{doc_count_at_maximum}
use scrap.Index.Entry.{Entry}
use scrap.Index.Entry.RoundTrip.{IsEntry}
use scrap.Index.Store.Spec.{
  Projection, update, Op, put_op, add_block_id_op, increment_doc_count_op, Outcome, specified_add,
  specified_increment, specified, IsOp, Fits,
}

pub fewer : (n : ℕ) (f : Projection) → Fits (suc n) f → Fits n f
fewer n f fits tx_id e found = let (valid, room) = fits tx_id e found in (valid, omega arith)

update-Fits :
    (n : ℕ) (f : Projection) (tx_id : List ℕ) (entry : Entry)
    → Fits (suc n) f
    → IsEntry entry
    → length entry.block_ids + n < 2 ^ 16
    → Fits n (update f tx_id entry)
update-Fits n f tx_id entry fits valid room other e found = at (same_bytes tx_id other) found
  where
    at :
        (same : Bool)
        → (if same then some entry else f other) ≡ some e
        → IsEntry e × (length e.block_ids + n < 2 ^ 16)
    at true h = let same : entry ≡ e = cc in rw (sym same) (valid, room)
    at false h = let (valid, room) = fits other e h in (valid, omega arith)

pub added-IsEntry :
    (e : Entry) (block_id n : ℕ)
    → IsEntry e
    → length e.block_ids + suc n < 2 ^ 16
    → block_id < 2 ^ 64
    → IsEntry (record e { block_ids = e.block_ids ++ block_id ∷ [] })
added-IsEntry e block_id n valid room h = record {
  few = omega (arith, length-append e.block_ids (block_id ∷ []));
  ids = All-append (λ id. id < 2 ^ 64) e.block_ids (block_id ∷ []) valid.ids (h, tt);
  docs = valid.docs;
}

pub counted-IsEntry :
    (e : Entry)
    → IsEntry e
    → (e.doc_count == 65535) ≡ false
    → IsEntry (record e { doc_count = e.doc_count + 1 })
counted-IsEntry e valid h = record {
  few = valid.few;
  ids = valid.ids;
  docs = let small = valid.docs in ground arith;
}

-- A call takes at most one of the rooms.
pub specified-Fits :
    (n : ℕ) (op : Op) (f : Projection)
    → suc n < 2 ^ 16
    → IsOp op
    → Fits (suc n) f
    → Fits n (specified op f).0
specified-Fits n (put_op tx_id block_id doc_count completed) f few h fits =
    update-Fits n f tx_id _ fits (record { few = omega arith; ids = (h.0, tt); docs = h.1 })
      (omega arith)
specified-Fits n (add_block_id_op tx_id block_id) f few h fits = at (f tx_id) refl
  where
    at : (o : Option Entry) → f tx_id ≡ o → Fits n (specified_add f tx_id block_id o).0
    at none found = fewer n f fits
    at (some e) found =
        let (valid, room) = fits tx_id e found in
        update-Fits n f tx_id _ fits (added-IsEntry e block_id n valid room h)
          (omega (arith, length-append e.block_ids (block_id ∷ [])))
specified-Fits n (increment_doc_count_op tx_id) f few h fits = at (f tx_id) refl
  where
    counted :
        (e : Entry) (full : Bool)
        → (e.doc_count == 65535) ≡ full
        → IsEntry e × (length e.block_ids + suc n < 2 ^ 16)
        → Fits n
            (if◌then◌else◌ {A = Projection × Outcome} full
              (f, err doc_count_at_maximum)
              (update f tx_id (record e { doc_count = e.doc_count + 1 }), ok tt)).0
    counted e true full valid = fewer n f fits
    counted e false full (valid, room) =
        update-Fits n f tx_id _ fits (counted-IsEntry e valid full) (omega arith)

    at : (o : Option Entry) → f tx_id ≡ o → Fits n (specified_increment f tx_id o).0
    at none found = fewer n f fits
    at (some e) found = counted e (e.doc_count == 65535) refl (fits tx_id e found)
