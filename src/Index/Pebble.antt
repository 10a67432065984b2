-- ===== src/Index/Pebble.antt =====
-- The key-value store under internal/index, github.com/cockroachdb/pebble. Its operations and what
-- the code relies on are parameters: a write that succeeds is read back and leaves other keys as
-- they were. A write may fail, and then the database is the old one.
use scrap.Common.{ℕ, ◌≡◌, ◌≢◌, List}
use scrap.Common.Result.{Result, ok, err}

pub data PebbleError : Type 0 where
  not_found : PebbleError
  failed : PebbleError

pub record Pebble (D : Type 0) : Type 0 where
  pub get : D → List ℕ → Result PebbleError (List ℕ)
  pub set : D → List ℕ → List ℕ → Result PebbleError D
  pub delete : D → List ℕ → Result PebbleError D
  pub get-set :
      (d : D) (key value : List ℕ) {later : D}
      → set d key value ≡ ok later
      → get later key ≡ ok value
  pub get-set_other :
      (d : D) (key value other : List ℕ) {later : D}
      → set d key value ≡ ok later
      → key ≢ other
      → get later other ≡ get d other
  pub get-delete :
      (d : D) (key : List ℕ) {later : D} → delete d key ≡ ok later → get later key ≡ err not_found
  pub get-delete_other :
      (d : D) (key other : List ℕ) {later : D}
      → delete d key ≡ ok later
      → key ≢ other
      → get later other ≡ get d other
