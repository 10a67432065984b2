-- ===== src/Routing/Placement/Accepts.antt =====
-- internal/routing/placement.go: which configurations `NewPlacement` accepts.
use scrap.Common.{
  ℕ, ◌<◌, ◌≡◌, refl, sym, ap, ◌∙◌, arith, Bool, true, false, not, ◌↔◌, List, [], ◌∷◌, ◌++◌, ◌==◌,
  if◌then◌else◌, length, All, not-eq-false, append_assoc, append-nil,
}
use scrap.Common.Int.{pos, eq_ℤ, eq_ℤ→eq}
use scrap.Common.Result.{ok, fail_if, >>=-eq-ok, fail_if-eq-ok, ok-injective}
use scrap.Routing.Hash.{slot_count, invalid_placement}
use scrap.Routing.Placement.{
  SlotRange, PlacementConfig, Placement, is_known, known_loop, known_shards, sort_ranges, add_range,
  add_ranges, every_slot, no_slots, new_placement,
}
use scrap.Routing.Placement.Owners.{
  covers, owners, IsRange, IsPartition, sort_ranges-owner, sort_ranges→owner, sort_ranges-All,
  sort_ranges→All,
}
use scrap.Routing.Placement.Known.{
  Same, both, All-Same, known_loop-ok, known_loop→ok, IsFresh→IsNodup, IsNodup→IsFresh, both-Same,
  every_slot-ok, every_slot→ok,
}
use scrap.Routing.Placement.Kept.{add_ranges-ranges}
use scrap.Routing.Placement.Claims.{Tracks, owners-append, add_range-ok, add_range→ok}

-- The ranges of a configuration are added when each slot has one owner.
add_ranges-ok :
    (known : List ℕ) (ranges added : List SlotRange) (p : Placement)
    → All (IsRange known) ranges
    → Tracks p added
    → ((s : ℕ) → s < slot_count → (shard : ℕ) × (owners s (added ++ ranges) ≡ shard ∷ []))
    → (q : Placement) × (add_ranges known ranges p ≡ ok q) × Tracks q (added ++ ranges)
add_ranges-ok known [] added p valid tracks owned =
    (p, refl, λ s. ap (owners s) (append-nil added) ∙ tracks s)
add_ranges-ok known (r ∷ ranges) added p valid tracks owned =
    let later = sym (append_assoc added (r ∷ []) ranges) in
    let (q, done, tracks') = add_range-ok known r added p valid.0 tracks (λ s c.
      let (shard, one) = owned s (in_range r s valid.0 c) in
      first r.shard_id (owners s added) (owners s ranges) (
        sym (
          owners-append s added (r ∷ ranges)
          ∙ ap
              (λ b. owners s added ++ (if b then r.shard_id ∷ owners s ranges else owners s ranges))
              c)
        ∙ one)) in
    let (last, rest, tracks'') =
      add_ranges-ok known ranges (added ++ r ∷ []) q valid.1 tracks'
        (λ s low. let (shard, one) = owned s low in (shard, ap (owners s) (sym later) ∙ one)) in
    (last, rw (done, rest), λ s. ap (owners s) later ∙ tracks'' s)
  where
    first : (x : ℕ) (xs ys : List ℕ) {y : ℕ} → xs ++ x ∷ ys ≡ y ∷ [] → xs ≡ []
    first x [] ys h = refl
    first x (a ∷ []) ys h = cc
    first x (a ∷ b ∷ xs) ys h = cc

    in_range : (r : SlotRange) (s : ℕ) → IsRange known r → covers s r ≡ true → s < slot_count
    in_range r s valid c = let ends = valid.ends in ground arith

add_ranges→ok :
    (known : List ℕ) (ranges added : List SlotRange) (p : Placement) {q : Placement}
    → Tracks p added
    → add_ranges known ranges p ≡ ok q
    → All (IsRange known) ranges × Tracks q (added ++ ranges)
add_ranges→ok known [] added p tracks h = (
  tt,
  λ s.
      ap (owners s) (append-nil added)
      ∙ (tracks s ∙ ap (λ r. if r.seen s then r.slots s ∷ [] else []) (ok-injective h)),
)
add_ranges→ok known (r ∷ ranges) added p tracks h =
    let (q, done, rest) = >>=-eq-ok (add_range known r p) _ h in
    let (valid, tracks') = add_range→ok known r added p tracks done in
    let (others, tracks'') = add_ranges→ok known ranges (added ++ r ∷ []) q tracks' rest in
    ((valid, others), λ s. ap (owners s) (sym (append_assoc added (r ∷ []) ranges)) ∙ tracks'' s)

-- An accepted placement gives each slot to the Shard of the one range that covers it.
pub new_placement→owner :
    (cfg : PlacementConfig) {p : Placement}
    → new_placement cfg ≡ ok p
    → IsPartition cfg
      × ((slot : ℕ)
          → slot < slot_count
          → (p.seen slot ≡ true) × (owners slot cfg.ranges ≡ p.slots slot ∷ []))
      × (p.ranges ≡ sort_ranges cfg.ranges)
unfolding new_placement known_shards
new_placement→owner cfg {p = p} h =
    let (a, total, h1) =
      >>=-eq-ok (fail_if (not (eq_ℤ cfg.slot_count (pos slot_count))) invalid_placement) _ h in
    let (b, shards, h2) = >>=-eq-ok (fail_if (length cfg.shards == 0) invalid_placement) _ h1 in
    let (c, ranges, h3) = >>=-eq-ok (fail_if (length cfg.ranges == 0) invalid_placement) _ h2 in
    let (known, listed, h4) = >>=-eq-ok (known_loop [] cfg.shards) _ h3 in
    let (q, added, h5) =
      >>=-eq-ok (add_ranges known (sort_ranges cfg.ranges) (no_slots (sort_ranges cfg.ranges))) _
        h4 in
    let (d, every, h6) =
      >>=-eq-ok (fail_if (not (every_slot slot_count q.seen)) invalid_placement) _ h5 in
    let same : q ≡ p = ok-injective h6 in
    let (fresh, all) = known_loop→ok [] cfg.shards listed in
    let known_same : Same known cfg.shards =
      λ s. ap (λ k. is_known k s) (sym all) ∙ both-Same [] cfg.shards s in
    let (valid, tracks) = add_ranges→ok known (sort_ranges cfg.ranges) [] _ (λ s. refl) added in
    let seen =
      every_slot→ok slot_count q.seen (not-eq-false _ (fail_if-eq-ok _ invalid_placement every)) in
    let owner : (s : ℕ) → s < slot_count → owners s cfg.ranges ≡ q.slots s ∷ [] = λ s low.
      sort_ranges→owner s cfg.ranges
        (tracks s ∙ ap (λ b. if b then q.slots s ∷ [] else []) (seen s low)) in
    (
      record {
        total =
            eq_ℤ→eq cfg.slot_count (pos slot_count)
              (not-eq-false _ (fail_if-eq-ok _ invalid_placement total));
        nodup = (IsFresh→IsNodup [] cfg.shards fresh).0;
        each =
            sort_ranges→All (IsRange cfg.shards) cfg.ranges
              (All-Same known cfg.shards (sort_ranges cfg.ranges) known_same valid);
        owned = λ s low. (q.slots s, owner s low);
      },
      λ s low.
          (ap (λ r. r.seen s) (sym same) ∙ seen s low, owner s low ∙ ap (λ r. r.slots s ∷ []) same),
      sym (add_ranges-ranges known (sort_ranges cfg.ranges) _ added ∙ ap (λ r. r.ranges) same),
    )

pub owners-nonempty :
    (slot : ℕ) (ranges : List SlotRange) {shard : ℕ}
    → owners slot ranges ≡ shard ∷ []
    → (length ranges == 0) ≡ false
owners-nonempty slot [] h = cc
owners-nonempty slot (r ∷ ranges) h = ground arith

-- A configuration is accepted exactly if its slots are all the slots there are, no Shard is listed
-- twice, every range lies within the slots, is not reversed and belongs to a Shard that is listed,
-- and the ranges, in whichever order, give each slot exactly one owner.
pub new_placement-IsPartition :
    (cfg : PlacementConfig) → ((p : Placement) × (new_placement cfg ≡ ok p)) ↔ IsPartition cfg
unfolding new_placement known_shards
new_placement-IsPartition cfg = (λ accepted. (new_placement→owner cfg accepted.1).0, accept)
  where
    nonempty_known :
        (shards : List ℕ) (ranges : List SlotRange)
        → All (IsRange shards) ranges
        → (length ranges == 0) ≡ false
        → (length shards == 0) ≡ false
    nonempty_known (s ∷ shards) ranges valid h = ground arith
    nonempty_known [] [] valid h = ground arith
    nonempty_known [] (r ∷ ranges) valid h = let known = valid.0.known in cc

    owned :
        (b : Bool) (x : ℕ) {y : ℕ} {xs : List ℕ}
        → xs ≡ y ∷ []
        → xs ≡ (if b then x ∷ [] else [])
        → b ≡ true
    owned true x h h' = refl
    owned false x h h' = cc

    accept : IsPartition cfg → (p : Placement) × (new_placement cfg ≡ ok p)
    accept h =
        let (shard, one) = h.owned 0 (omega arith) in
        let total = ap (λ n. eq_ℤ n (pos slot_count)) h.total in
        let some_range = owners-nonempty 0 cfg.ranges one in
        let some_shard = nonempty_known cfg.shards cfg.ranges h.each some_range in
        let listed =
          known_loop-ok [] cfg.shards (IsNodup→IsFresh [] cfg.shards h.nodup (λ s k. refl)) in
        let valid =
          All-Same cfg.shards (both [] cfg.shards) (sort_ranges cfg.ranges)
            (λ s. sym (both-Same [] cfg.shards s))
            (sort_ranges-All (IsRange cfg.shards) cfg.ranges h.each) in
        let (q, added, tracks) =
          add_ranges-ok (both [] cfg.shards) (sort_ranges cfg.ranges) []
            (no_slots (sort_ranges cfg.ranges)) valid (λ s. refl)
            (λ s low.
              let (shard, one) = h.owned s low in (shard, sort_ranges-owner s cfg.ranges one)) in
        let every = every_slot-ok slot_count q.seen (λ s low.
          let (shard, one) = h.owned s low in
          owned (q.seen s) (q.slots s) (sort_ranges-owner s cfg.ranges one) (tracks s)) in
        (q, rw (total, some_shard, some_range, listed, added, every))
