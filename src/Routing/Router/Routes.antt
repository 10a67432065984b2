-- ===== src/Routing/Router/Routes.antt =====
-- internal/routing: where a lookup routes a Transaction.
use scrap.Common.{
  ℕ, ◌<◌, ◌%◌, ◌^◌, ◌≡◌, refl, sym, ap, ◌∙◌, arith, true, false, not, ◌&&◌, ◌↔◌, inl, inr, none,
  some, List, [], ◌∷◌, ◌==◌, length, All, Bool-cases, and-split, ==_iff,
}
use scrap.Common.Result.{ok, err}
use scrap.Routing.Hash.{slot_count, slot_for_transaction, invalid_transaction, fnv1a}
use scrap.Routing.Placement.{
  SlotRange, PlacementConfig, Placement, Route, is_known, sort_ranges, new_placement, lookup_route,
  routes_only_to_shard, single_shard_config,
}
use scrap.Routing.Placement.Owners.{covers, owners, IsRange, IsPartition, sort_ranges-owner}
use scrap.Routing.Placement.Known.{every_slot-ok, every_slot→ok}
use scrap.Routing.Placement.Accepts.{
  owners-nonempty, new_placement→owner, new_placement-IsPartition,
}
use scrap.Routing.Router.{
  Router, LookupRecord, routed, rejected, matched, bad_transaction, router_lookup, record_lookup,
}

owner-known :
    (shards : List ℕ) (slot : ℕ) (ranges : List SlotRange) {shard : ℕ}
    → All (IsRange shards) ranges
    → owners slot ranges ≡ shard ∷ []
    → is_known shards shard ≡ true
owner-known shards slot [] valid h = cc
owner-known shards slot (r ∷ ranges) valid h = elim (Bool-cases (covers slot r)) [
  | inl c ↦
      let known = valid.0.known in
      let same : r.shard_id ≡ _ = ground arith in ap (is_known shards) (sym same) ∙ known
  | inr c ↦ owner-known shards slot ranges valid.1 (ground arith)
]

-- A Route is the one that a configuration means for a Transaction.
pub record IsRouted (cfg : PlacementConfig) (transaction_id : List ℕ) (route : Route) : Type 0 where
  pub slot : slot_for_transaction transaction_id ≡ ok route.slot
  pub low : route.slot < slot_count
  pub owner : owners route.slot cfg.ranges ≡ route.shard_id ∷ []
  pub known : is_known cfg.shards route.shard_id ≡ true

-- What a lookup leaves: the recorder, if there is one, has one record more.
pub record IsRecorded (r : Router) (entry : LookupRecord) (later : Router) : Type 0 where
  pub placement : later.placement ≡ r.placement
  pub silent : r.recorder ≡ none → later.recorder ≡ none
  pub told :
      (records : List LookupRecord)
      → r.recorder ≡ some records
      → later.recorder ≡ some (entry ∷ records)

-- A Router over an accepted placement routes every Transaction whose identifier is not empty, to
-- the Shard that owns its slot in the configuration, which is one that is listed there, and its
-- recorder, if there is one, gets one record, of that Shard; it rejects the empty identifier and
-- records that.
pub router_lookup-IsRouted :
    (cfg : PlacementConfig) (r : Router)
    → new_placement cfg ≡ ok r.placement
    → ((b : ℕ) (bs : List ℕ)
        → let (later, result) = router_lookup r (b ∷ bs) in
          (route : Route) × (result ≡ ok route)
          × IsRouted cfg (b ∷ bs) route
          × IsRecorded r
              (record {
                outcome = routed;
                reason = matched;
                shard_id = route.shard_id;
                shard_id_valid = true;
              })
              later)
      × ((router_lookup r []).1 ≡ err invalid_transaction)
      × IsRecorded r
          (record {
            outcome = rejected;
            reason = bad_transaction;
            shard_id = 0;
            shard_id_valid = false;
          })
          (router_lookup r []).0
unfolding router_lookup lookup_route slot_for_transaction
router_lookup-IsRouted cfg r h =
    let (partition, owner, ranges) = new_placement→owner cfg h in
    (
      λ b bs.
          let slot = fnv1a 14695981039346656037 (b ∷ bs) % slot_count % 2 ^ 16 in
          let low : slot < slot_count = omega arith in
          let (seen, owned) = owner slot low in
          rw seen (
            record { slot = slot; shard_id = r.placement.slots slot },
            refl,
            record {
              slot = refl;
              low = low;
              owner = owned;
              known = owner-known cfg.shards slot cfg.ranges partition.each owned;
            },
            record_lookup-IsRecorded r _,
          ),
      refl,
      record_lookup-IsRecorded r _,
    )
  where
    record_lookup-IsRecorded :
        (r : Router) (entry : LookupRecord) → IsRecorded r entry (record_lookup r entry)
    record_lookup-IsRecorded r entry = record {
      placement = refl;
      silent = λ none_there. rw none_there;
      told = λ records there. rw there;
    }

-- An accepted placement is reported to route only to a Shard exactly if that Shard owns every slot
-- in the configuration.
pub routes_only_to_shard-owners :
    (cfg : PlacementConfig) (p : Placement) (shard : ℕ)
    → new_placement cfg ≡ ok p
    → (routes_only_to_shard p shard ≡ true)
      ↔ ((slot : ℕ) → slot < slot_count → owners slot cfg.ranges ≡ shard ∷ [])
unfolding routes_only_to_shard
routes_only_to_shard-owners cfg p shard h =
    let (partition, owner, ranges) = new_placement→owner cfg h in
    (
      λ only slot low.
          let (ranged, every) = and-split (not (length p.ranges == 0)) _ only in
          let here =
            every_slot→ok slot_count (λ s. p.seen s && p.slots s == shard) every slot low in
          let (seen, same) = and-split (p.seen slot) (p.slots slot == shard) here in
          let mine = (==_iff (p.slots slot) shard).0 same in
          (owner slot low).1 ∙ ap (λ s. s ∷ []) mine,
      λ all.
          let ranged : (length p.ranges == 0) ≡ false =
            ap (λ rs. length rs == 0) ranges
            ∙ owners-nonempty 0 (sort_ranges cfg.ranges)
                (sort_ranges-owner 0 cfg.ranges (all 0 (omega arith))) in
          let every =
            every_slot-ok slot_count (λ s. p.seen s && p.slots s == shard)
              (λ s low.
                let (seen, owned) = owner s low in
                let mine = head (sym owned ∙ all s low) in
                rw (seen, (==_iff (p.slots s) shard).1 mine)) in
          rw (ranged, every),
    )
  where
    head : {x y : ℕ} → x ∷ [] ≡ y ∷ [] → x ≡ y
    head h = cc

single_shard_config-IsPartition : (shard : ℕ) → IsPartition (single_shard_config shard)
unfolding single_shard_config
single_shard_config-IsPartition shard = record {
  total = refl;
  nodup = (refl, tt);
  each = (
    record {
      known = ground arith;
      starts = omega arith;
      ordered = omega arith;
      ends = omega arith;
    },
    tt,
  );
  owned = λ slot low. (shard, ground arith);
}

-- The configuration of a single Shard is accepted, and its placement is reported to route only to
-- that Shard.
pub single_shard_config-routes_only :
    (shard : ℕ)
    → (p : Placement) × (new_placement (single_shard_config shard) ≡ ok p)
      × (routes_only_to_shard p shard ≡ true)
unfolding single_shard_config
single_shard_config-routes_only shard =
    let (p, accepted) =
      (new_placement-IsPartition (single_shard_config shard)).1
        (single_shard_config-IsPartition shard) in
    (
      p,
      accepted,
      (routes_only_to_shard-owners (single_shard_config shard) p shard accepted).1
          (λ slot low. ground arith),
    )
