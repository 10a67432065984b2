-- ===== src/Index/Store/Refines.antt =====
-- internal/index/index.go: any sequence of calls, against a function from transactions to entries.
use mathlib.Core.Path.{subst}
use scrap.Common.{
  ℕ, suc, ◌+◌, ◌<◌, ◌^◌, ◌≡◌, refl, sym, ap, ◌∙◌, arith, Bool, true, false, ◌⊎◌, inl, inr, Option,
  none, some, List, [], ◌∷◌, ◌++◌, ◌==◌, if◌then◌else◌, length, All,
}
use scrap.Common.Bytes.{same_bytes, same_bytes_refl, same_bytes→eq}
use scrap.Common.Result.{Result, ok, err, either}
use scrap.Index.Pebble.{Pebble, PebbleError}
use scrap.Index.Errors.{pebble, doc_count_at_maximum}
use scrap.Index.Entry.{Entry, encode_entry, decode_entry}
use scrap.Index.Entry.RoundTrip.{IsEntry, decode_entry-encode}
use scrap.Index.Store.{tx_key, put_entry, put, get, add_block_id, increment_doc_count}
use scrap.Index.Store.Keys.{tx_key-injective}
use scrap.Index.Store.Spec.{
  Projection, update, Op, put_op, add_block_id_op, increment_doc_count_op, Outcome, specified_add,
  specified_increment, specified, Allows, nothing, served, write_failed, IsOp, IsRefused,
  transaction_of, Fits, answer, Reads, call, calls,
}
use scrap.Index.Store.Room.{fewer, added-IsEntry, counted-IsEntry, specified-Fits}

module _ {D : Type 0} (p : Pebble D) where
  -- A call that did what is meant, or whose write was refused.
  abbrev pub Served : D → List ℕ → Projection × Outcome → D × Outcome → Type 0
  Served d tx_id meant (later, out) =
      ((out ≡ meant.1) × Reads p later meant.0)
      ⊎ ((e : PebbleError) × (out ≡ err (pebble e)) × (later ≡ d) × IsRefused p d tx_id meant e)

  get-read :
      (d : D) (tx_id : List ℕ) {val : List ℕ}
      → p.get d (tx_key tx_id) ≡ ok val
      → get p d tx_id ≡ decode_entry val
  unfolding get
  get-read d tx_id h = rw h

  get-kept :
      (d e : D) (tx_id : List ℕ)
      → p.get d (tx_key tx_id) ≡ p.get e (tx_key tx_id)
      → get p d tx_id ≡ get p e tx_id
  unfolding get
  get-kept d e tx_id h = rw h

  put_entry-Served :
      (d : D) (f : Projection) (tx_id : List ℕ) (entry : Entry)
      → Reads p d f
      → IsEntry entry
      → Served d tx_id (update f tx_id entry, ok tt) (put_entry p d tx_id entry)
  unfolding put_entry get
  put_entry-Served d f tx_id entry reads valid =
      written (p.set d (tx_key tx_id) (encode_entry entry)) refl
    where
      read :
          (next : D) (other : List ℕ) (same : Bool)
          → same_bytes tx_id other ≡ same
          → p.set d (tx_key tx_id) (encode_entry entry) ≡ ok next
          → get p next other ≡ answer (if same then some entry else f other)
      read next other true h done =
          ap (get p next) (sym (same_bytes→eq tx_id other h))
          ∙ (get-read next tx_id (p.get-set d (tx_key tx_id) (encode_entry entry) done)
              ∙ decode_entry-encode entry valid)
      read next other false h done =
          get-kept next d other (
            p.get-set_other d (tx_key tx_id) (encode_entry entry) (tx_key other) done (λ same.
              let equal = tx_key-injective tx_id other same in
              let reflexive = same_bytes_refl tx_id in cc))
          ∙ reads other

      written :
          (r : Result PebbleError D)
          → p.set d (tx_key tx_id) (encode_entry entry) ≡ r
          → Served d tx_id
              (update f tx_id entry, ok tt)
              (either r (λ e. (d, err (pebble e))) (λ next. (next, ok tt)))
      written (ok next) h = inl (refl, λ other. read next other (same_bytes tx_id other) refl h)
      written (err e) h = inr (
        e,
        refl,
        refl,
        let same = same_bytes_refl tx_id in
            record { entry = entry; writes = refl; meant_entry = rw same; refused = h },
      )

  pub call-Served :
      (n : ℕ) (op : Op) (d : D) (f : Projection)
      → IsOp op
      → Fits (suc n) f
      → Reads p d f
      → Served d (transaction_of op) (specified op f) (call p op d)
  unfolding put add_block_id increment_doc_count
  call-Served n (put_op tx_id block_id doc_count completed) d f h fits reads =
      put_entry-Served d f tx_id _ reads (record { few = omega arith; ids = (h.0, tt); docs = h.1 })
  call-Served n (add_block_id_op tx_id block_id) d f h fits reads =
      rw (reads tx_id) (at (f tx_id) refl)
    where
      at :
          (o : Option Entry)
          → f tx_id ≡ o
          → Served d tx_id (specified_add f tx_id block_id o) (
              either
                (answer o)
                (λ e. (d, err e))
                (λ entry.
                  put_entry p d tx_id
                    (record entry { block_ids = entry.block_ids ++ block_id ∷ [] })))
      at none found = inl (refl, reads)
      at (some e) found =
          let (valid, room) = fits tx_id e found in
          put_entry-Served d f tx_id _ reads (added-IsEntry e block_id n valid room h)
  call-Served n (increment_doc_count_op tx_id) d f h fits reads =
      rw (reads tx_id) (at (f tx_id) refl)
    where
      counted :
          (e : Entry) (full : Bool)
          → (e.doc_count == 65535) ≡ full
          → IsEntry e
          → Served d tx_id
              (if full
                then (f, err doc_count_at_maximum)
                else (update f tx_id (record e { doc_count = e.doc_count + 1 }), ok tt))
              (if full
                then (d, err doc_count_at_maximum)
                else put_entry p d tx_id (record e { doc_count = e.doc_count + 1 }))
      counted e true full valid = inl (refl, reads)
      counted e false full valid = put_entry-Served d f tx_id _ reads (counted-IsEntry e valid full)

      at :
          (o : Option Entry)
          → f tx_id ≡ o
          → Served d tx_id (specified_increment f tx_id o) (
              either
                (answer o)
                (λ e. (d, err e))
                (λ entry.
                  if entry.doc_count == 65535
                  then (d, err doc_count_at_maximum)
                  else put_entry p d tx_id (record entry { doc_count = entry.doc_count + 1 })))
      at none found = inl (refl, reads)
      at (some e) found = counted e (e.doc_count == 65535) refl (fits tx_id e found).0

  -- A sequence of calls of Put, AddBlockID and IncrementDocCount has the outcomes, and leaves the
  -- entries, that the same calls have on a function from transactions to entries, except that a
  -- call of which the database refuses the write that is meant gives its error and changes nothing;
  -- the database that is left reads as the function that is left. There are fewer than
  -- 65,536 calls, and each entry that is there has room for one more Block per call.
  pub calls_refine :
      (ops : List Op) (d : D) (f : Projection)
      → length ops < 2 ^ 16
      → All IsOp ops
      → Fits (length ops) f
      → Reads p d f
      → (g : Projection) × Allows p d f ops (calls p ops d).1 (calls p ops d).0 g
        × Reads p (calls p ops d).0 g
  calls_refine [] d f few hs fits reads = (f, nothing d f, reads)
  calls_refine (op ∷ ops) d f few hs fits reads =
      elim (call-Served (length ops) op d f hs.0 fits reads) [
        | inl (out, later) ↦
            let (g, allows, last) =
              calls_refine ops (call p op d).0 (specified op f).0 (omega arith) hs.1
                (specified-Fits (length ops) op f few hs.0 fits) later in
            (
              g,
              subst
                  (λ o.
                    Allows p d f (op ∷ ops) (o ∷ (calls p ops (call p op d).0).1)
                      (calls p ops (call p op d).0).0 g)
                  (sym out)
                  (served d (call p op d).0 (calls p ops (call p op d).0).0 f g op ops
                    (calls p ops (call p op d).0).1 later allows),
              last,
            )
        | inr (e, out, same, refused) ↦
            let unchanged : Reads p (call p op d).0 f = subst (λ d. Reads p d f) (sym same) reads in
            let (g, allows, last) =
              calls_refine ops (call p op d).0 f (omega arith) hs.1 (fewer (length ops) f fits)
                unchanged in
            (g, failing f g op ops e _ _ (call p op d).0 _ out same refused allows, last)
      ]
    where
      failing :
          (f g : Projection) (op : Op) (ops : List Op) (e : PebbleError) (out : Outcome)
          (outs : List Outcome) (later last : D)
          → out ≡ err (pebble e)
          → later ≡ d
          → IsRefused p d (transaction_of op) (specified op f) e
          → Allows p later f ops outs last g
          → Allows p d f (op ∷ ops) (out ∷ outs) last g
      failing f g op ops e out outs later last h same refused allows = rw h (
          write_failed d last f g op ops e outs refused
            (subst (λ d. Allows p d f ops outs last g) same allows))
