-- ===== src/Routing/Examples.antt =====
-- internal/routing: a placement on two Shards, with its ranges out of order.
use scrap.Common.{
  ℕ, ◌<◌, ◌≡◌, refl, arith, true, ◌↔◌, inl, inr, ltb, Bool-cases, some, List, [], ◌∷◌, false,
}
use scrap.Common.Int.{pos}
use scrap.Common.Result.{ok, err}
use scrap.Routing.Hash.{slot_count, slot_for_transaction, invalid_transaction}
use scrap.Routing.Placement.{
  PlacementConfig, Placement, Route, new_placement, routes_only_to_shard, single_shard_config,
}
use scrap.Routing.Placement.Owners.{owners, IsPartition}
use scrap.Routing.Placement.Accepts.{new_placement-IsPartition}
use scrap.Routing.Router.{Router, routed, rejected, matched, bad_transaction, router_lookup}
use scrap.Routing.Router.Routes.{
  IsRouted, IsRecorded, router_lookup-IsRouted, routes_only_to_shard-owners,
  single_shard_config-routes_only,
}

abbrev two_shards : PlacementConfig
two_shards = record {
  slot_count = pos slot_count;
  shards = 4 ∷ 9 ∷ [];
  ranges =
      record { shard_id = 9; start_slot = pos 512; end_slot = pos 1023 }
      ∷ record { shard_id = 4; start_slot = pos 0; end_slot = pos 511 }
      ∷ [];
}

new_placement-IsPartition_example :
    ((p : Placement) × (new_placement two_shards ≡ ok p)) ↔ IsPartition two_shards
new_placement-IsPartition_example = new_placement-IsPartition two_shards

-- FNV-1a of the byte "a" is 0xaf63dc4c8601ec8c.
slot_of_a : slot_for_transaction (97 ∷ []) ≡ ok 140
unfolding slot_for_transaction
slot_of_a = refl

two_shards-IsPartition : IsPartition two_shards
two_shards-IsPartition = record {
  total = refl;
  nodup = (refl, (refl, tt));
  each = (
    record { known = refl; starts = omega arith; ordered = omega arith; ends = omega arith },
    (record { known = refl; starts = omega arith; ordered = omega arith; ends = omega arith }, tt),
  );
  owned = λ slot low. elim (Bool-cases (ltb slot 512)) [
    | inl first ↦ (4, ground arith)
    | inr second ↦ (9, ground arith)
  ];
}

accepted : (p : Placement) × (new_placement two_shards ≡ ok p)
accepted = new_placement-IsPartition_example.1 two_shards-IsPartition

abbrev router : Router
router = record { placement = accepted.0; recorder = some [] }

router_lookup-IsRouted_example :
    ((b : ℕ) (bs : List ℕ)
      → let (later, result) = router_lookup router (b ∷ bs) in
        (route : Route) × (result ≡ ok route)
        × IsRouted two_shards (b ∷ bs) route
        × IsRecorded router
            (record {
              outcome = routed;
              reason = matched;
              shard_id = route.shard_id;
              shard_id_valid = true;
            })
            later)
    × ((router_lookup router []).1 ≡ err invalid_transaction)
    × IsRecorded router
        (record {
          outcome = rejected;
          reason = bad_transaction;
          shard_id = 0;
          shard_id_valid = false;
        })
        (router_lookup router []).0
router_lookup-IsRouted_example = router_lookup-IsRouted two_shards router accepted.1

routes_only_to_shard-owners_example :
    (routes_only_to_shard accepted.0 4 ≡ true)
    ↔ ((slot : ℕ) → slot < slot_count → owners slot two_shards.ranges ≡ 4 ∷ [])
routes_only_to_shard-owners_example = routes_only_to_shard-owners two_shards accepted.0 4 accepted.1

single_shard_config-routes_only_example :
    (p : Placement) × (new_placement (single_shard_config 3) ≡ ok p)
    × (routes_only_to_shard p 3 ≡ true)
single_shard_config-routes_only_example = single_shard_config-routes_only 3
