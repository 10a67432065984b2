-- ===== src/Routing/Placement/Claims.antt =====
-- internal/routing/placement.go: what `addRange` does to the slots.
use scrap.Common.{
  ℕ, zero, suc, ◌+◌, ◌-◌, ◌≤◌, ◌<◌, ◌≡◌, refl, sym, ap, ◌∙◌, arith, Bool, true, false, not, ◌&&◌,
  ◌||◌, inl, inr, List, [], ◌∷◌, ◌++◌, ltb, leb, ◌==◌, if◌then◌else◌, Bool-cases, not-eq-false,
  append-nil, ◌↔◌,
}
use scrap.Common.Int.{ℤ, pos, negsuc, pos_part, ltb_ℤ, leb_ℤ, ◌≤ℤ◌}
use scrap.Common.Result.{
  ok, fail_if, >>=-eq-ok, guard-eq-ok, fail_if-eq-ok, guard_passes, ok-injective,
}
use scrap.Routing.Hash.{invalid_placement}
use scrap.Routing.Placement.{
  SlotRange, Placement, is_known, is_outside, claim_slot, claim_slots, add_range,
}
use scrap.Routing.Placement.Owners.{covers, owners, IsRange}

abbrev is_claimed : ℕ → ℕ → ℕ → Bool
is_claimed n slot s = leb slot s && ltb s (slot + n)

-- The arrays after `n` slots, from `slot` on, are claimed.
record IsPainted (n shard slot : ℕ) (p q : Placement) : Type 0 where
  pub seen : (s : ℕ) → q.seen s ≡ (if is_claimed n slot s then true else p.seen s)
  pub slots : (s : ℕ) → q.slots s ≡ (if is_claimed n slot s then shard else p.slots s)

claim_slots-ok :
    (n shard slot : ℕ) (p : Placement)
    → ((s : ℕ) → slot ≤ s → s < slot + n → p.seen s ≡ false)
    → (q : Placement) × (claim_slots n shard slot p ≡ ok q) × IsPainted n shard slot p q
claim_slots-ok zero shard slot p free =
    (p, refl, record { seen = λ s. ground arith; slots = λ s. ground arith })
claim_slots-ok (suc n) shard slot p free =
    let (q, done, painted) =
      claim_slots-ok n shard (suc slot) (claim_slot shard slot p)
        (λ s h h'. let was = free s (omega arith) (omega arith) in ground arith) in
    let unseen = free slot (omega arith) (omega arith) in
    (
      q,
      guard_passes (p.seen slot) invalid_placement _ unseen ∙ done,
      record {
        seen = λ s. let after = painted.seen s in ground arith;
        slots = λ s. let after = painted.slots s in ground arith;
      },
    )

claim_slots→ok :
    (n shard slot : ℕ) (p : Placement) {q : Placement}
    → claim_slots n shard slot p ≡ ok q
    → ((s : ℕ) → slot ≤ s → s < slot + n → p.seen s ≡ false) × IsPainted n shard slot p q
claim_slots→ok zero shard slot p h =
    let same = ok-injective h in
    (
      λ s h h'. ground arith,
      record {
        seen = λ s. let at = ap (λ r. r.seen s) (sym same) in ground arith;
        slots = λ s. let at = ap (λ r. r.slots s) (sym same) in ground arith;
      },
    )
claim_slots→ok (suc n) shard slot p h =
    let (unseen, done) = guard-eq-ok (p.seen slot) invalid_placement _ h in
    let (free, painted) = claim_slots→ok n shard (suc slot) (claim_slot shard slot p) done in
    (
      λ s low high. elim (Bool-cases (s == slot)) [
        | inl same ↦ ap p.seen (ground arith) ∙ unseen
        | inr other ↦ let was = free s (ground arith) (omega arith) in ground arith
      ],
      record {
        seen = λ s. let after = painted.seen s in ground arith;
        slots = λ s. let after = painted.slots s in ground arith;
      },
    )

-- The arrays hold the owners of what was added.
abbrev pub Tracks : Placement → List SlotRange → Type 0
Tracks p added = (s : ℕ) → owners s added ≡ (if p.seen s then p.slots s ∷ [] else [])

is_claimed-covers :
    (start end : ℤ)
    → pos 0 ≤ℤ start
    → start ≤ℤ end
    → (s : ℕ)
    → is_claimed (suc (pos_part end) - pos_part start) (pos_part start) s
      ≡ (leb_ℤ start (pos s) && leb_ℤ (pos s) end)
is_claimed-covers (pos a) (pos b) low ordered s = ground arith
is_claimed-covers (pos a) (negsuc b) low ordered s = ground arith
is_claimed-covers (negsuc a) end low ordered s = ground arith

pub owners-append :
    (s : ℕ) (xs ys : List SlotRange) → owners s (xs ++ ys) ≡ owners s xs ++ owners s ys
owners-append s [] ys = refl
owners-append s (r ∷ xs) ys = let rest = owners-append s xs ys in ground arith

-- The owners of one slot after a claim of it, or of others.
owners_step :
    (claimed was now : Bool) (before : List ℕ) (old new shard : ℕ)
    → before ≡ (if was then old ∷ [] else [])
    → now ≡ (if claimed then true else was)
    → new ≡ (if claimed then shard else old)
    → (claimed ≡ true → was ≡ false)
    → before ++ (if claimed then shard ∷ [] else []) ≡ (if now then new ∷ [] else [])
owners_step true was now before old new shard h seen slot free =
    let unseen = free refl in
    ap (λ xs. xs ++ shard ∷ []) (h ∙ ap (λ b. if b then old ∷ [] else []) unseen) ∙ rw (seen, slot)
owners_step false was now before old new shard h seen slot free =
    append-nil before ∙ (h ∙ rw (seen, slot))

Tracks-painted :
    (shards : List ℕ) (r : SlotRange) (added : List SlotRange) (p q : Placement)
    → IsRange shards r
    → Tracks p added
    → ((s : ℕ) → covers s r ≡ true → p.seen s ≡ false)
    → IsPainted
        (suc (pos_part r.end_slot) - pos_part r.start_slot)
        r.shard_id
        (pos_part r.start_slot)
        p
        q
    → Tracks q (added ++ r ∷ [])
Tracks-painted shards r added p q valid tracks free painted s =
    let here = is_claimed-covers r.start_slot r.end_slot valid.starts valid.ordered s in
    owners-append s added (r ∷ [])
    ∙ owners_step (covers s r) (p.seen s) (q.seen s) (owners s added) (p.slots s) (q.slots s)
        r.shard_id (tracks s) (painted.seen s ∙ ap (λ b. if b then true else p.seen s) here)
        (painted.slots s ∙ ap (λ b. if b then r.shard_id else p.slots s) here) (free s)

-- The slots that a valid range claims are those that it covers.
covered :
    (shards : List ℕ) (r : SlotRange)
    → IsRange shards r
    → (s : ℕ)
    → (pos_part r.start_slot ≤ s)
        × (s < pos_part r.start_slot + (suc (pos_part r.end_slot) - pos_part r.start_slot))
      ↔ (covers s r ≡ true)
covered shards r valid s =
    let here = is_claimed-covers r.start_slot r.end_slot valid.starts valid.ordered s in
    ground arith

add_range_guards :
    (shards : List ℕ) (r : SlotRange)
    → IsRange shards r
    → (is_known shards r.shard_id ≡ true)
      × ((is_outside r.start_slot || is_outside r.end_slot) ≡ false)
      × (ltb_ℤ r.end_slot r.start_slot ≡ false)
add_range_guards shards r valid = (valid.known, ground arith, ground arith)

-- A valid range whose slots have no owner yet is added.
pub add_range-ok :
    (shards : List ℕ) (r : SlotRange) (added : List SlotRange) (p : Placement)
    → IsRange shards r
    → Tracks p added
    → ((s : ℕ) → covers s r ≡ true → owners s added ≡ [])
    → (q : Placement) × (add_range shards r p ≡ ok q) × Tracks q (added ++ r ∷ [])
unfolding add_range
add_range-ok shards r added p valid tracks alone =
    let (known, inside, ordered) = add_range_guards shards r valid in
    let (q, done, painted) =
      claim_slots-ok (suc (pos_part r.end_slot) - pos_part r.start_slot) r.shard_id
        (pos_part r.start_slot) p
        (λ s low high.
          unseen (p.seen s) (p.slots s) (alone s ((covered shards r valid s).0 (low, high)))
            (tracks s)) in
    (
      q,
      rw (known, inside, ordered, done),
      Tracks-painted shards r added p q valid tracks
          (λ s c. unseen (p.seen s) (p.slots s) (alone s c) (tracks s)) painted,
    )
  where
    unseen :
        (b : Bool) (x : ℕ) {xs : List ℕ} → xs ≡ [] → xs ≡ (if b then x ∷ [] else []) → b ≡ false
    unseen true x none_yet h = cc
    unseen false x none_yet h = refl

-- Inversion of an addition.
pub add_range→ok :
    (shards : List ℕ) (r : SlotRange) (added : List SlotRange) (p : Placement) {q : Placement}
    → Tracks p added
    → add_range shards r p ≡ ok q
    → IsRange shards r × Tracks q (added ++ r ∷ [])
unfolding add_range
add_range→ok shards r added p tracks h =
    let (a, known, h1) =
      >>=-eq-ok (fail_if (not (is_known shards r.shard_id)) invalid_placement) _ h in
    let (b, inside, h2) =
      >>=-eq-ok (fail_if (is_outside r.start_slot || is_outside r.end_slot) invalid_placement) _
        h1 in
    let (c, ordered, h3) =
      >>=-eq-ok (fail_if (ltb_ℤ r.end_slot r.start_slot) invalid_placement) _ h2 in
    let is_in = fail_if-eq-ok _ invalid_placement inside in
    let is_ordered = fail_if-eq-ok _ invalid_placement ordered in
    let valid : IsRange shards r = record {
      known = not-eq-false _ (fail_if-eq-ok _ invalid_placement known);
      starts = ground arith;
      ordered = ground arith;
      ends = ground arith;
    } in
    let (free, painted) = claim_slots→ok _ r.shard_id (pos_part r.start_slot) p h3 in
    (
      valid,
      Tracks-painted shards r added p _ valid tracks
          (λ s covers. let (low, high) = (covered shards r valid s).1 covers in free s low high)
          painted,
    )
