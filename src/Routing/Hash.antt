-- ===== src/Routing/Hash.antt =====
-- internal/routing/hash.go: the slot of a Transaction identifier. A Go string is the list of its
-- bytes, and `hash/fnv`'s FNV-1a of 64 bits is written out.
use scrap.Common.{ℕ, zero, suc, ◌+◌, ◌*◌, ◌/◌, ◌%◌, ◌^◌, List, [], ◌∷◌}
use scrap.Common.Result.{Result, ok, err}

abbrev pub slot_count : ℕ
slot_count = 1024

pub data RoutingError : Type 0 where
  invalid_transaction : RoutingError
  route_not_found : RoutingError
  invalid_placement : RoutingError

-- The exclusive or of the low `w` bits.
abbrev pub xor : ℕ → ℕ → ℕ → ℕ
xor zero a b = 0
xor (suc w) a b = (a % 2 + b % 2) % 2 + 2 * xor w (a / 2) (b / 2)

-- The state of the hash after more bytes.
abbrev pub fnv1a : ℕ → List ℕ → ℕ
fnv1a state [] = state
fnv1a state (b ∷ bs) = fnv1a (xor 64 state b * 1099511628211 % 2 ^ 64) bs

unfoldable pub slot_for_transaction : List ℕ → Result RoutingError ℕ
slot_for_transaction [] = err invalid_transaction
slot_for_transaction (b ∷ bs) = ok (fnv1a 14695981039346656037 (b ∷ bs) % slot_count % 2 ^ 16)
