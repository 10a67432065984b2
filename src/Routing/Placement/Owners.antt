-- ===== src/Routing/Placement/Owners.antt =====
-- internal/routing/placement.go: the Shards that a list of ranges gives a slot to, and that the
-- order of the ranges does not matter.
use scrap.Common.{
  ℕ, ◌<◌, ◌≡◌, refl, sym, ap, ◌∙◌, arith, Bool, true, false, ◌&&◌, inl, inr, List, [], ◌∷◌,
  if◌then◌else◌, length, Bool-cases, All,
}
use scrap.Common.Int.{pos, leb_ℤ, ◌≤ℤ◌, ◌<ℤ◌}
use scrap.Routing.Hash.{slot_count}
use scrap.Routing.Placement.{
  SlotRange, PlacementConfig, is_before, insert_range, sort_ranges, is_known,
}

abbrev pub covers : ℕ → SlotRange → Bool
covers slot r = leb_ℤ r.start_slot (pos slot) && leb_ℤ (pos slot) r.end_slot

-- The owners of a slot, in the order of the ranges that cover it.
abbrev pub owners : ℕ → List SlotRange → List ℕ
owners slot [] = []
owners slot (r ∷ ranges) =
    let rest = owners slot ranges in if covers slot r then r.shard_id ∷ rest else rest

-- Each Shard is listed once.
abbrev pub IsNodup : List ℕ → Type 0
IsNodup [] = Unit {0}
IsNodup (s ∷ shards) = (is_known shards s ≡ false) × IsNodup shards

-- A range of slots that exist, which is not reversed and belongs to a Shard that is listed.
pub record IsRange (shards : List ℕ) (r : SlotRange) : Type 0 where
  pub known : is_known shards r.shard_id ≡ true
  pub starts : pos 0 ≤ℤ r.start_slot
  pub ordered : r.start_slot ≤ℤ r.end_slot
  pub ends : r.end_slot <ℤ pos slot_count

-- What a placement has to be: the ranges are valid and give each slot exactly one owner.
pub record IsPartition (cfg : PlacementConfig) : Type 0 where
  pub total : cfg.slot_count ≡ pos slot_count
  pub nodup : IsNodup cfg.shards
  pub each : All (IsRange cfg.shards) cfg.ranges
  pub owned : (slot : ℕ) → slot < slot_count → (shard : ℕ) × (owners slot cfg.ranges ≡ shard ∷ [])

module _ (slot : ℕ) where
  insert_range-out :
      (r : SlotRange) (ranges : List SlotRange)
      → covers slot r ≡ false
      → owners slot (insert_range r ranges) ≡ owners slot ranges
  insert_range-out r [] h = rw h
  insert_range-out r (s ∷ ranges) h =
      let rest = insert_range-out r ranges h in
      elim (Bool-cases (is_before s r)) [ inl b ↦ rw (b, rest) | inr b ↦ rw (b, h) ]

  length-insert_range :
      (r : SlotRange) (ranges : List SlotRange)
      → length (owners slot (insert_range r ranges)) ≡ length (owners slot (r ∷ ranges))
  length-insert_range r [] = refl
  length-insert_range r (s ∷ ranges) = let rest = length-insert_range r ranges in ground arith

  insert_range-alone :
      (r : SlotRange) (ranges : List SlotRange)
      → owners slot ranges ≡ []
      → covers slot r ≡ true
      → owners slot (insert_range r ranges) ≡ r.shard_id ∷ []
  insert_range-alone r [] none_yet h = rw h
  insert_range-alone r (s ∷ ranges) none_yet h =
      let rest = insert_range-alone r ranges in ground arith

  empty : (xs : List ℕ) → length xs ≡ 0 → xs ≡ []
  empty [] h = refl
  empty (x ∷ xs) h = ground arith

  length-sort_ranges :
      (ranges : List SlotRange)
      → length (owners slot (sort_ranges ranges)) ≡ length (owners slot ranges)
  length-sort_ranges [] = refl
  length-sort_ranges (r ∷ ranges) =
      let inserted = length-insert_range r (sort_ranges ranges) in
      let rest = length-sort_ranges ranges in ground arith

  -- A slot that has one owner has the same one after the sort.
  pub sort_ranges-owner :
      (ranges : List SlotRange) {shard : ℕ}
      → owners slot ranges ≡ shard ∷ []
      → owners slot (sort_ranges ranges) ≡ shard ∷ []
  sort_ranges-owner [] h = h
  sort_ranges-owner (r ∷ ranges) h = elim (Bool-cases (covers slot r)) [
    | inl c ↦
        let shorter : length (owners slot ranges) ≡ 0 = ground arith in
        let alone =
          insert_range-alone r (sort_ranges ranges)
            (empty (owners slot (sort_ranges ranges)) (length-sort_ranges ranges ∙ shorter)) c in
        ground arith
    | inr c ↦
        let rest : owners slot ranges ≡ _ = ground arith in
        insert_range-out r (sort_ranges ranges) c ∙ sort_ranges-owner ranges rest
  ]

  single : (xs : List ℕ) → length xs ≡ 1 → (x : ℕ) × (xs ≡ x ∷ [])
  single [] h = ground arith
  single (x ∷ []) h = (x, refl)
  single (x ∷ y ∷ xs) h = ground arith

  -- A slot that has one owner after the sort had the same one before.
  pub sort_ranges→owner :
      (ranges : List SlotRange) {shard : ℕ}
      → owners slot (sort_ranges ranges) ≡ shard ∷ []
      → owners slot ranges ≡ shard ∷ []
  sort_ranges→owner ranges h =
      let (x, alone) =
        single (owners slot ranges) (sym (length-sort_ranges ranges) ∙ ap length h) in
      alone ∙ (sym (sort_ranges-owner ranges alone) ∙ h)

-- The sort keeps what holds of every range.
module _ (P : SlotRange → Type 0) where
  insert_range-All :
      (r : SlotRange) (ranges : List SlotRange) → P r → All P ranges → All P (insert_range r ranges)
  insert_range-All r [] h hs = (h, tt)
  insert_range-All r (s ∷ ranges) h hs = split (is_before s r) (insert_range-All r ranges h hs.1)
    where
      split :
          (b : Bool)
          → All P (insert_range r ranges)
          → All P (if b then s ∷ insert_range r ranges else r ∷ s ∷ ranges)
      split true rest = (hs.0, rest)
      split false rest = (h, hs)

  pub sort_ranges-All : (ranges : List SlotRange) → All P ranges → All P (sort_ranges ranges)
  sort_ranges-All [] hs = tt
  sort_ranges-All (r ∷ ranges) hs =
      insert_range-All r (sort_ranges ranges) hs.0 (sort_ranges-All ranges hs.1)

  insert_range→All :
      (r : SlotRange) (ranges : List SlotRange) → All P (insert_range r ranges) → P r × All P ranges
  insert_range→All r [] hs = (hs.0, tt)
  insert_range→All r (s ∷ ranges) hs = split (is_before s r) (insert_range→All r ranges) hs
    where
      split :
          (b : Bool)
          → (All P (insert_range r ranges) → P r × All P ranges)
          → All P (if b then s ∷ insert_range r ranges else r ∷ s ∷ ranges)
          → P r × (P s × All P ranges)
      split true rest hs = let (h, others) = rest hs.1 in (h, (hs.0, others))
      split false rest hs = hs

  pub sort_ranges→All : (ranges : List SlotRange) → All P (sort_ranges ranges) → All P ranges
  sort_ranges→All [] hs = tt
  sort_ranges→All (r ∷ ranges) hs =
      let (h, others) = insert_range→All r (sort_ranges ranges) hs in
      (h, sort_ranges→All ranges others)
