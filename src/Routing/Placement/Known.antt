-- ===== src/Routing/Placement/Known.antt =====
-- internal/routing/placement.go: the set of known Shards, and tests of every slot.
use scrap.Common.{
  ℕ, zero, suc, ◌<◌, ◌≡◌, refl, sym, ap, ◌∙◌, arith, Bool, true, false, ◌||◌, inl, inr, List, [],
  ◌∷◌, ◌==◌, All, Bool-cases,
}
use scrap.Common.Result.{ok, guard-eq-ok, guard_passes, ok-injective}
use scrap.Routing.Hash.{invalid_placement}
use scrap.Routing.Placement.{SlotRange, is_known, known_loop, every_slot}
use scrap.Routing.Placement.Owners.{IsNodup, IsRange}

-- A set of known Shards has the elements of a list.
abbrev pub Same : List ℕ → List ℕ → Type 0
Same known shards = (s : ℕ) → is_known known s ≡ is_known shards s

pub IsRange-Same :
    {known shards : List ℕ} {r : SlotRange} → Same known shards → IsRange known r → IsRange shards r
IsRange-Same {r = r} same h = record {
  known = sym (same r.shard_id) ∙ h.known;
  starts = h.starts;
  ordered = h.ordered;
  ends = h.ends;
}

pub All-Same :
    (known shards : List ℕ) (ranges : List SlotRange)
    → Same known shards
    → All (IsRange known) ranges
    → All (IsRange shards) ranges
All-Same known shards [] same h = tt
All-Same known shards (r ∷ ranges) same h =
    (IsRange-Same same h.0, All-Same known shards ranges same h.1)

-- Each Shard of `shards` is listed once, and none is in `known`.
abbrev pub IsFresh : List ℕ → List ℕ → Type 0
IsFresh known [] = Unit {0}
IsFresh known (s ∷ shards) = (is_known known s ≡ false) × IsFresh (s ∷ known) shards

abbrev pub both : List ℕ → List ℕ → List ℕ
both known [] = known
both known (s ∷ shards) = both (s ∷ known) shards

pub known_loop-ok :
    (known shards : List ℕ)
    → IsFresh known shards
    → known_loop known shards ≡ ok (both known shards)
known_loop-ok known [] h = refl
known_loop-ok known (s ∷ shards) h =
    guard_passes (is_known known s) invalid_placement _ h.0 ∙ known_loop-ok (s ∷ known) shards h.1

pub known_loop→ok :
    (known shards : List ℕ) {all : List ℕ}
    → known_loop known shards ≡ ok all
    → IsFresh known shards × (both known shards ≡ all)
known_loop→ok known [] h = (tt, ok-injective h)
known_loop→ok known (s ∷ shards) h =
    let (fresh, rest) = guard-eq-ok (is_known known s) invalid_placement _ h in
    let (others, all) = known_loop→ok (s ∷ known) shards rest in ((fresh, others), all)

pub IsFresh→IsNodup :
    (known shards : List ℕ)
    → IsFresh known shards
    → IsNodup shards × ((s : ℕ) → is_known shards s ≡ true → is_known known s ≡ false)
IsFresh→IsNodup known [] h = (tt, λ s k. ground arith)
IsFresh→IsNodup known (s ∷ shards) h =
    let (nodup, apart) = IsFresh→IsNodup (s ∷ known) shards h.1 in
    let here = h.0 in
    (
      (
        elim (Bool-cases (is_known shards s)) [
          | inl k ↦ let twice = apart s k in ground arith
          | inr k ↦ k
        ],
        nodup,
      ),
      λ x k. elim (Bool-cases (is_known shards x)) [
        | inl later ↦ let other = apart x later in ground arith
        | inr only ↦ let same : s ≡ x = ground arith in ap (is_known known) (sym same) ∙ here
      ],
    )

pub IsNodup→IsFresh :
    (known shards : List ℕ)
    → IsNodup shards
    → ((s : ℕ) → is_known shards s ≡ true → is_known known s ≡ false)
    → IsFresh known shards
IsNodup→IsFresh known [] h apart = tt
IsNodup→IsFresh known (s ∷ shards) h apart =
    let once = h.0 in
    (
      apart s (ground arith),
      IsNodup→IsFresh (s ∷ known) shards h.1 (λ x k. elim (Bool-cases (s == x)) [
        | inl same ↦
            let same : s ≡ x = ground arith in let k' = ap (is_known shards) same in ground arith
        | inr other ↦ let away = apart x (ground arith) in ground arith
      ]),
    )

pub both-Same :
    (known shards : List ℕ) (s : ℕ)
    → is_known (both known shards) s ≡ (is_known known s || is_known shards s)
both-Same known [] s = ground arith
both-Same known (x ∷ shards) s = let rest = both-Same (x ∷ known) shards s in ground arith

pub every_slot-ok :
    (n : ℕ) (test : ℕ → Bool) → ((s : ℕ) → s < n → test s ≡ true) → every_slot n test ≡ true
every_slot-ok zero test h = refl
every_slot-ok (suc n) test h =
    let here = h n (omega arith) in
    let rest = every_slot-ok n test (λ s low. h s (omega arith)) in rw (here, rest)

pub every_slot→ok :
    (n : ℕ) (test : ℕ → Bool) → every_slot n test ≡ true → (s : ℕ) → s < n → test s ≡ true
every_slot→ok zero test h s low = ground arith
every_slot→ok (suc n) test h s low = elim (Bool-cases (s == n)) [
  | inl same ↦
      let same : s ≡ n = ground arith in
      let last : test n ≡ true = ground arith in ap test same ∙ last
  | inr other ↦ every_slot→ok n test (ground arith) s (ground arith)
]
