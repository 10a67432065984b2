-- ===== src/Index/Store.antt =====
-- internal/index/index.go: the operations on the entry of a transaction. A database is a value of
-- the type `D`, and an operation that writes gives the next one with its error.
pub mod Keys
pub mod Spec
pub mod Room
pub mod Refines
use scrap.Common.{ℕ, suc, ◌+◌, Bool, true, false, List, [], ◌∷◌, ◌++◌, ◌==◌, if◌then◌else◌}
use scrap.Common.Result.{Result, ok, err, either, ◌>>=◌}
use scrap.Index.Pebble.{Pebble, PebbleError, not_found}
use scrap.Index.Errors.{IndexError, transaction_not_found, pebble, doc_count_at_maximum}
use scrap.Index.Entry.{Entry, encode_entry, decode_entry}

-- The bytes of "\x00tx\x00".
abbrev pub tx_key_prefix : List ℕ
tx_key_prefix = 0 ∷ 116 ∷ 120 ∷ 0 ∷ []

unfoldable pub tx_key : List ℕ → List ℕ
tx_key tx_id = tx_key_prefix ++ tx_id

module _ {D : Type 0} (p : Pebble D) where
  -- `idx.put`
  unfoldable pub put_entry : D → List ℕ → Entry → D × Result IndexError (Unit {0})
  put_entry d tx_id entry =
      either (p.set d (tx_key tx_id) (encode_entry entry)) (λ e. (d, err (pebble e)))
        (λ next. (next, ok tt))

  unfoldable pub put : D → List ℕ → ℕ → ℕ → Bool → D × Result IndexError (Unit {0})
  put d tx_id block_id doc_count completed =
      put_entry d tx_id
        (record { block_ids = block_id ∷ []; doc_count = doc_count; completed = completed })

  abbrev get_error : PebbleError → IndexError
  get_error not_found = transaction_not_found
  get_error e = pebble e

  unfoldable pub get : D → List ℕ → Result IndexError Entry
  get d tx_id = either (p.get d (tx_key tx_id)) (λ e. err (get_error e)) decode_entry

  unfoldable pub exists : D → List ℕ → Bool
  exists d tx_id = either (p.get d (tx_key tx_id)) (λ e. false) (λ val. true)

  unfoldable pub add_block_id : D → List ℕ → ℕ → D × Result IndexError (Unit {0})
  add_block_id d tx_id block_id =
      either (get d tx_id) (λ e. (d, err e))
        (λ entry. put_entry d tx_id (record entry { block_ids = entry.block_ids ++ block_id ∷ [] }))

  unfoldable pub increment_doc_count : D → List ℕ → D × Result IndexError (Unit {0})
  increment_doc_count d tx_id =
      either (get d tx_id) (λ e. (d, err e))
        (λ entry.
          if entry.doc_count == 65535
          then (d, err doc_count_at_maximum)
          else put_entry d tx_id (record entry { doc_count = entry.doc_count + 1 }))
