-- ===== src/Index/Store/Keys.antt =====
-- internal/index: the keys of different records differ.
use scrap.Common.{◌≡◌, ap, ℕ, List, drop}
use scrap.Index.Store.{tx_key}

pub tx_key-injective : (a b : List ℕ) → tx_key a ≡ tx_key b → a ≡ b
unfolding tx_key
tx_key-injective a b h = ap (drop 4) h
