-- ===== src/Routing/Placement/Kept.antt =====
-- internal/routing/placement.go: the ranges that a placement keeps while slots are claimed.
use scrap.Common.{ℕ, zero, suc, ◌≡◌, ap, ◌∙◌, not, ◌||◌, List, [], ◌∷◌}
use scrap.Common.Int.{pos_part, ltb_ℤ}
use scrap.Common.Result.{ok, fail_if, >>=-eq-ok, guard-eq-ok, ok-injective}
use scrap.Routing.Hash.{invalid_placement}
use scrap.Routing.Placement.{
  SlotRange, Placement, is_known, is_outside, claim_slot, claim_slots, add_range, add_ranges,
}

claim_slots-ranges :
    (n shard slot : ℕ) (p : Placement) {q : Placement}
    → claim_slots n shard slot p ≡ ok q
    → p.ranges ≡ q.ranges
claim_slots-ranges zero shard slot p h = ap (λ r. r.ranges) (ok-injective h)
claim_slots-ranges (suc n) shard slot p h =
    claim_slots-ranges n shard (suc slot) (claim_slot shard slot p)
      (guard-eq-ok (p.seen slot) invalid_placement _ h).1

add_range-ranges :
    (shards : List ℕ) (r : SlotRange) (p : Placement) {q : Placement}
    → add_range shards r p ≡ ok q
    → p.ranges ≡ q.ranges
unfolding add_range
add_range-ranges shards r p h =
    let (a, known, h1) =
      >>=-eq-ok (fail_if (not (is_known shards r.shard_id)) invalid_placement) _ h in
    let (b, inside, h2) =
      >>=-eq-ok (fail_if (is_outside r.start_slot || is_outside r.end_slot) invalid_placement) _
        h1 in
    let (c, ordered, h3) =
      >>=-eq-ok (fail_if (ltb_ℤ r.end_slot r.start_slot) invalid_placement) _ h2 in
    claim_slots-ranges _ r.shard_id (pos_part r.start_slot) p h3

pub add_ranges-ranges :
    (shards : List ℕ) (ranges : List SlotRange) (p : Placement) {q : Placement}
    → add_ranges shards ranges p ≡ ok q
    → p.ranges ≡ q.ranges
add_ranges-ranges shards [] p h = ap (λ r. r.ranges) (ok-injective h)
add_ranges-ranges shards (r ∷ ranges) p h =
    let (q, done, rest) = >>=-eq-ok (add_range shards r p) _ h in
    add_range-ranges shards r p done ∙ add_ranges-ranges shards ranges q rest
