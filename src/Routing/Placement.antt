-- ===== src/Routing/Placement.antt =====
-- internal/routing/placement.go: which Shard owns each slot. An array indexed by slots is a
-- function of the slot, and the set of known Shards a list.
pub mod Owners
pub mod Claims
pub mod Kept
pub mod Known
pub mod Accepts
use scrap.Common.{
  ℕ, zero, suc, ◌+◌, ◌-◌, Bool, true, false, not, ◌&&◌, ◌||◌, Option, none, some, List, [], ◌∷◌,
  ltb, leb, ◌==◌, if◌then◌else◌, length,
}
use scrap.Common.Int.{ℤ, pos, pos_part, ltb_ℤ, leb_ℤ, eq_ℤ}
use scrap.Common.Result.{Result, ok, err, either, ◌>>=◌, ◌>>◌, fail_if}
use scrap.Routing.Hash.{
  RoutingError, slot_count, invalid_placement, route_not_found, slot_for_transaction,
}

pub record SlotRange : Type 0 where
  pub shard_id : ℕ
  pub start_slot : ℤ
  pub end_slot : ℤ

pub record PlacementConfig : Type 0 where
  pub slot_count : ℤ
  pub shards : List ℕ
  pub ranges : List SlotRange

pub record Route : Type 0 where
  pub slot : ℕ
  pub shard_id : ℕ

pub record Placement : Type 0 where
  pub slots : ℕ → ℕ
  pub seen : ℕ → Bool
  pub ranges : List SlotRange

-- `SlotRange.UnmarshalJSON` after the decoder, which leaves an omitted or null field unset.
unfoldable pub require_fields : Option ℕ → Option ℤ → Option ℤ → Result RoutingError SlotRange
require_fields none start end = err invalid_placement
require_fields (some shard) none end = err invalid_placement
require_fields (some shard) (some start) none = err invalid_placement
require_fields (some shard) (some start) (some end) =
    ok (record { shard_id = shard; start_slot = start; end_slot = end })

unfoldable pub single_shard_config : ℕ → PlacementConfig
single_shard_config shard = record {
  slot_count = pos slot_count;
  shards = shard ∷ [];
  ranges = record { shard_id = shard; start_slot = pos 0; end_slot = pos (slot_count - 1) } ∷ [];
}

-- `_, exists := known[shard]`
abbrev pub is_known : List ℕ → ℕ → Bool
is_known [] shard = false
is_known (s ∷ known) shard = s == shard || is_known known shard

abbrev pub known_loop : List ℕ → List ℕ → Result RoutingError (List ℕ)
known_loop known [] = ok known
known_loop known (shard ∷ shards) =
    if is_known known shard then err invalid_placement else known_loop (shard ∷ known) shards

unfoldable pub known_shards : List ℕ → Result RoutingError (List ℕ)
known_shards shards = known_loop [] shards

-- The order of `sort.Slice`.
abbrev pub is_before : SlotRange → SlotRange → Bool
is_before r s =
    if eq_ℤ r.start_slot s.start_slot
    then ltb_ℤ r.end_slot s.end_slot
    else ltb_ℤ r.start_slot s.start_slot

abbrev pub insert_range : SlotRange → List SlotRange → List SlotRange
insert_range r [] = r ∷ []
insert_range r (s ∷ ranges) =
    let rest = insert_range r ranges in if is_before s r then s ∷ rest else r ∷ s ∷ ranges

abbrev pub sort_ranges : List SlotRange → List SlotRange
sort_ranges [] = []
sort_ranges (r ∷ ranges) = insert_range r (sort_ranges ranges)

-- `p.seen[slot] = true; p.slots[slot] = shard`
abbrev pub claim_slot : ℕ → ℕ → Placement → Placement
claim_slot shard slot p = record p {
  slots = λ other. if other == slot then shard else p.slots other;
  seen = λ other. if other == slot then true else p.seen other;
}

-- The loop over the slots of a range: `n` of them, from `slot` on.
abbrev pub claim_slots : ℕ → ℕ → ℕ → Placement → Result RoutingError Placement
claim_slots zero shard slot p = ok p
claim_slots (suc n) shard slot p =
    if p.seen slot
    then err invalid_placement
    else claim_slots n shard (suc slot) (claim_slot shard slot p)

abbrev pub is_outside : ℤ → Bool
is_outside slot = ltb_ℤ slot (pos 0) || leb_ℤ (pos slot_count) slot

unfoldable pub add_range : List ℕ → SlotRange → Placement → Result RoutingError Placement
add_range known r p = do
  fail_if (not (is_known known r.shard_id)) invalid_placement
  fail_if (is_outside r.start_slot || is_outside r.end_slot) invalid_placement
  fail_if (ltb_ℤ r.end_slot r.start_slot) invalid_placement
  claim_slots (suc (pos_part r.end_slot) - pos_part r.start_slot) r.shard_id (pos_part r.start_slot)
      p

abbrev pub add_ranges : List ℕ → List SlotRange → Placement → Result RoutingError Placement
add_ranges known [] p = ok p
add_ranges known (r ∷ ranges) p = add_range known r p >>= (λ q. add_ranges known ranges q)

-- Whether a test holds of each of the first `n` slots.
abbrev pub every_slot : ℕ → (ℕ → Bool) → Bool
every_slot zero test = true
every_slot (suc n) test = test n && every_slot n test

abbrev pub no_slots : List SlotRange → Placement
no_slots ranges = record { slots = λ slot. 0; seen = λ slot. false; ranges = ranges }

unfoldable pub new_placement : PlacementConfig → Result RoutingError Placement
new_placement cfg = do
  fail_if (not (eq_ℤ cfg.slot_count (pos slot_count))) invalid_placement
  fail_if (length cfg.shards == 0) invalid_placement
  fail_if (length cfg.ranges == 0) invalid_placement
  known ← known_shards cfg.shards
  p ← add_ranges known (sort_ranges cfg.ranges) (no_slots (sort_ranges cfg.ranges))
  fail_if (not (every_slot slot_count p.seen)) invalid_placement
  ok p

unfoldable pub lookup_route : Placement → List ℕ → Result RoutingError Route
lookup_route p transaction_id = do
  slot ← slot_for_transaction transaction_id
  fail_if (not (p.seen slot)) route_not_found
  ok (record { slot = slot; shard_id = p.slots slot })

unfoldable pub routes_only_to_shard : Placement → ℕ → Bool
routes_only_to_shard p shard =
    not (length p.ranges == 0)
    && every_slot slot_count (λ slot. p.seen slot && p.slots slot == shard)
