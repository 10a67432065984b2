-- ===== src/Index/Store/Spec.antt =====
-- internal/index/index.go: the projection as a function from transactions to entries, and what a
-- sequence of calls does to it.
use scrap.Common.{
  ℕ, ◌+◌, ◌<◌, ◌^◌, ◌≡◌, Bool, Option, none, some, List, [], ◌∷◌, ◌++◌, ◌==◌, if◌then◌else◌, length,
}
use scrap.Common.Bytes.{same_bytes}
use scrap.Common.Result.{Result, ok, err}
use scrap.Index.Pebble.{Pebble, PebbleError}
use scrap.Index.Errors.{IndexError, transaction_not_found, pebble, doc_count_at_maximum}
use scrap.Index.Entry.{Entry, encode_entry}
use scrap.Index.Entry.RoundTrip.{IsEntry}
use scrap.Index.Store.{tx_key, put, get, add_block_id, increment_doc_count}

-- What the projection is for its clients.
abbrev pub Projection : Type 0
Projection = List ℕ → Option Entry

abbrev pub update : Projection → List ℕ → Entry → Projection
update f tx_id entry = λ other. if same_bytes tx_id other then some entry else f other

pub data Op : Type 0 where
  put_op : List ℕ → ℕ → ℕ → Bool → Op
  add_block_id_op : List ℕ → ℕ → Op
  increment_doc_count_op : List ℕ → Op

abbrev pub Outcome : Type 0
Outcome = Result IndexError (Unit {0})

-- Calls on what a function gives for a transaction.
abbrev pub specified_add : Projection → List ℕ → ℕ → Option Entry → Projection × Outcome
specified_add f tx_id block_id none = (f, err transaction_not_found)
specified_add f tx_id block_id (some e) =
    (update f tx_id (record e { block_ids = e.block_ids ++ block_id ∷ [] }), ok tt)

abbrev pub specified_increment : Projection → List ℕ → Option Entry → Projection × Outcome
specified_increment f tx_id none = (f, err transaction_not_found)
specified_increment f tx_id (some e) =
    if e.doc_count == 65535
    then (f, err doc_count_at_maximum)
    else (update f tx_id (record e { doc_count = e.doc_count + 1 }), ok tt)

-- The call on a function.
abbrev pub specified : Op → Projection → Projection × Outcome
specified (put_op tx_id block_id doc_count completed) f = (
  update f tx_id
      (record { block_ids = block_id ∷ []; doc_count = doc_count; completed = completed }),
  ok tt,
)
specified (add_block_id_op tx_id block_id) f = specified_add f tx_id block_id (f tx_id)
specified (increment_doc_count_op tx_id) f = specified_increment f tx_id (f tx_id)

-- The transaction of a call.
abbrev pub transaction_of : Op → List ℕ
transaction_of (put_op tx_id block_id doc_count completed) = tx_id
transaction_of (add_block_id_op tx_id block_id) = tx_id
transaction_of (increment_doc_count_op tx_id) = tx_id

-- What the types of the arguments say.
abbrev pub IsOp : Op → Type 0
IsOp (put_op tx_id block_id doc_count completed) = (block_id < 2 ^ 64) × (doc_count < 2 ^ 16)
IsOp (add_block_id_op tx_id block_id) = block_id < 2 ^ 64
IsOp (increment_doc_count_op tx_id) = Unit {0}

-- There is room for `n` more Blocks in every entry.
abbrev pub Fits : ℕ → Projection → Type 0
Fits n f =
    (tx_id : List ℕ) (e : Entry) → f tx_id ≡ some e → IsEntry e × (length e.block_ids + n < 2 ^ 16)

abbrev pub answer : Option Entry → Result IndexError Entry
answer none = err transaction_not_found
answer (some e) = ok e

module _ {D : Type 0} (p : Pebble D) where
  abbrev pub Reads : D → Projection → Type 0
  Reads d f = (tx_id : List ℕ) → get p d tx_id ≡ answer (f tx_id)

  abbrev pub call : Op → D → D × Outcome
  call (put_op tx_id block_id doc_count completed) d = put p d tx_id block_id doc_count completed
  call (add_block_id_op tx_id block_id) d = add_block_id p d tx_id block_id
  call (increment_doc_count_op tx_id) d = increment_doc_count p d tx_id

  abbrev pub calls : List Op → D → D × List Outcome
  calls [] d = (d, [])
  calls (op ∷ ops) d =
      let (next, out) = call op d in let (last, outs) = calls ops next in (last, out ∷ outs)

  -- A write that the database refuses: of the entry that the call means its transaction to have.
  pub record IsRefused (d : D) (tx_id : List ℕ) (meant : Projection × Outcome) (e : PebbleError)
      : Type 0 where
    pub entry : Entry
    pub writes : meant.1 ≡ ok tt
    pub meant_entry : meant.0 tx_id ≡ some entry
    pub refused : p.set d (tx_key tx_id) (encode_entry entry) ≡ err e

  -- The outcomes that calls may have on a database that reads as a function: each is as specified,
  -- and what is left then reads as is meant, or the database refuses the write that the call
  -- means, and it is left as it was.
  pub data Allows : D → Projection → List Op → List Outcome → D → Projection → Type 0 where
    nothing : (d : D) (f : Projection) → Allows d f [] [] d f
    served :
        (d next last : D) (f g : Projection) (op : Op) (ops : List Op) (outs : List Outcome)
        → Reads next (specified op f).0
        → Allows next (specified op f).0 ops outs last g
        → Allows d f (op ∷ ops) ((specified op f).1 ∷ outs) last g
    write_failed :
        (d last : D) (f g : Projection) (op : Op) (ops : List Op) (e : PebbleError)
        (outs : List Outcome)
        → IsRefused d (transaction_of op) (specified op f) e
        → Allows d f ops outs last g
        → Allows d f (op ∷ ops) (err (pebble e) ∷ outs) last g
