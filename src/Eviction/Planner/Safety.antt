-- ===== src/Eviction/Planner/Safety.antt =====
-- internal/eviction/planner.go: which Blocks a plan may select.
use mathlib.Core.Path.{subst}
use mathlib.Core.List.{Memᴰ}
use scrap.Common.{
  ℕ, ◌+◌, ◌≤◌, ◌≡◌, ◌≢◌, refl, sym, ap, ◌∙◌, Bool-cases, inl, inr, Bool, true, false, some, List,
  [], ◌∷◌, All, All-append, eq_iff, arith,
}
use scrap.Common.Int.{
  ℤ, ◌+ℤ◌, ◌≤ℤ◌, pos_part, neg_part, sub_ℕ, quot_ℕ, add64, wrap64_id, IsInt64, ltb_ℤ,
}
use scrap.Common.Result.{ok}
use scrap.Eviction.{SkipReason, PlanRequest, PlanBlock, Plan}
use scrap.Eviction.Planner.{
  PlanConfig, PlanCandidate, PlanInput, microseconds, unix_micro, eligible_at, plan_block,
  plan_skip_reason, is_unset, sort_by_id, plan_candidate, plan_candidates, empty_plan,
  recommended_bounds, finish_plan, build_plan,
}
use scrap.Eviction.Planner.Loop.{IsSelected, plan_candidate_cases, plan_candidate_same}
use scrap.Eviction.Planner.Partition.{IsBlockOf, plan_block-IsBlockOf}
use scrap.Eviction.Planner.Sort.{All-sort}
use scrap.Eviction.Planner.Caps.{build_plan-eq-ok}

-- What the empty skip reason says of a candidate.
record HasNoReason (c : PlanCandidate) (req : PlanRequest) (is_leader : Bool) (now eligible : ℤ)
    : Type 0 where
  pub hot : c.local_evictable ≡ true
  pub durable : c.backend_key ≢ ""
  pub follower : is_leader ≡ false
  pub resident : eligible ≤ℤ now
  pub shard : (s : ℕ) → req.shard_id ≡ some s → c.shard_id ≡ s

plan_skip_reason-HasNoReason :
    (c : PlanCandidate) (req : PlanRequest) (is_leader : Bool) (now eligible : ℤ)
    → plan_skip_reason c req is_leader now eligible ≡ SkipReason.unset
    → HasNoReason c req is_leader now eligible
unfolding plan_skip_reason
plan_skip_reason-HasNoReason c req is_leader now eligible h = record {
  hot = ground arith;
  durable = λ e. ground (arith, eq_iff c.backend_key "");
  follower = ground arith;
  resident = ground arith;
  shard = λ s e. ground arith;
}

-- Where a selected Block comes from.
record IsPicked (input : PlanInput) (b : PlanBlock) : Type 0 where
  pub candidate : PlanCandidate
  pub listed : Memᴰ candidate input.candidates
  pub block : b ≡ plan_block candidate input.config
  pub eligible :
      HasNoReason candidate input.request input.is_leader
        (unix_micro input.now)
        (eligible_at candidate input.config)

is_unset→eq : (r : SkipReason) → is_unset r ≡ true → r ≡ SkipReason.unset
is_unset→eq r h = ground arith

record Sound (input : PlanInput) (plan : Plan) : Type 0 where
  now : plan.generated_at_us ≡ unix_micro input.now
  selected : All (IsPicked input) plan.selected

module _ (input : PlanInput) where
  IsSelected-IsPicked :
      (plan : Plan) (c : PlanCandidate)
      → plan.generated_at_us ≡ unix_micro input.now
      → Memᴰ c input.candidates
      → IsSelected input plan c
      → IsPicked input (plan_block c input.config)
  unfolding plan_block
  IsSelected-IsPicked plan c now listed s = record {
    candidate = c;
    listed = listed;
    block = refl;
    eligible = plan_skip_reason-HasNoReason c _ _ _ _ (rw now at (is_unset→eq _ s.reason));
  }

  plan_candidate-Sound :
      (plan : Plan) (c : PlanCandidate)
      → Memᴰ c input.candidates
      → Sound input plan
      → Sound input (plan_candidate input plan c)
  plan_candidate-Sound plan c listed sound =
      let now = (plan_candidate_same input plan c).generated_at_us ∙ sound.now in
      elim (plan_candidate_cases input plan c) [
        | inl s ↦ record { now = now; selected = rw s.selected sound.selected }
        | inr (inl s) ↦ record { now = now; selected = rw s.selected sound.selected }
        | inr (inr s) ↦ record {
          now = now;
          selected = rw s.selected (
              All-append _ plan.selected _ sound.selected
                (IsSelected-IsPicked plan c sound.now listed s, tt));
        }
      ]

  plan_candidates-Sound :
      (cs : List PlanCandidate) (plan : Plan)
      → All (λ c. Memᴰ c input.candidates) cs
      → Sound input plan
      → Sound input (plan_candidates input plan cs)
  unfolding plan_candidates
  plan_candidates-Sound [] plan listed sound = sound
  plan_candidates-Sound (c ∷ cs) plan listed sound =
      plan_candidates-Sound cs (plan_candidate input plan c) listed.1
        (plan_candidate-Sound plan c listed.0 sound)

All-map {ℓ} :
    {A : Type ℓ} (P Q : A → Type ℓ) (xs : List A) → ((a : A) → P a → Q a) → All P xs → All Q xs
All-map P Q [] f h = tt
All-map P Q (x ∷ xs) f h = (f x h.0, All-map P Q xs f h.1)

All-listed : (cs : List PlanCandidate) → All (λ c. Memᴰ c cs) cs
All-listed [] = tt
All-listed (c ∷ cs) = (Memᴰ.head refl, All-map _ _ cs (λ a m. Memᴰ.tail m) (All-listed cs))

All-Mem :
    (P : PlanCandidate → Type 0) (c : PlanCandidate) (cs : List PlanCandidate)
    → All P cs
    → Memᴰ c cs
    → P c
All-Mem P c [] h there = elim there [ ]
All-Mem P c (d ∷ ds) h (Memᴰ.head same) = subst P (sym same) h.0
All-Mem P c (d ∷ ds) h (Memᴰ.tail there) = All-Mem P c ds h.1 there

-- The end of the residency window after a time, in microseconds.
abbrev pub window_after : ℤ → PlanConfig → ℤ
window_after at config = at +ℤ quot_ℕ config.hot_residency_window 1000

-- The ends of a candidate's two windows are an `int64`.
pub record IsDated (config : PlanConfig) (c : PlanCandidate) : Type 0 where
  pub confirmed : IsInt64 (window_after c.confirmed_at_us config)
  pub restored : IsInt64 (window_after c.restored_at_us config)

sub_ℕ→le : (x y : ℕ) (n : ℤ) → sub_ℕ x y ≤ℤ n → x + neg_part n ≤ pos_part n + y
sub_ℕ→le x y n h = ground arith

le→sub_ℕ : (x y : ℕ) (n : ℤ) → x + neg_part n ≤ pos_part n + y → sub_ℕ x y ≤ℤ n
le→sub_ℕ x y n h = ground arith

+ℤ-monotone : (a b w n : ℤ) → a ≤ℤ b → (b +ℤ w) ≤ℤ n → (a +ℤ w) ≤ℤ n
unfolding ◌+ℤ◌
+ℤ-monotone a b w n below h =
    let sum = sub_ℕ→le (pos_part b + pos_part w) (neg_part b + neg_part w) n h in
    le→sub_ℕ (pos_part a + pos_part w) (neg_part a + neg_part w) n (omega arith)

window_after-eligible :
    (c : PlanCandidate) (config : PlanConfig) (now : ℤ)
    → IsDated config c
    → eligible_at c config ≤ℤ now
    → (window_after c.confirmed_at_us config ≤ℤ now) × (window_after c.restored_at_us config ≤ℤ now)
unfolding eligible_at microseconds add64
window_after-eligible c config now dated h =
    let w = quot_ℕ config.hot_residency_window 1000 in
    elim (Bool-cases (ltb_ℤ c.confirmed_at_us c.restored_at_us)) [
      | inl later ↦
          let kept : eligible_at c config ≡ c.restored_at_us +ℤ w =
            rw later (wrap64_id (c.restored_at_us +ℤ w) dated.restored) in
          let restored = subst (λ e. e ≤ℤ now) kept h in
          let order : c.confirmed_at_us ≤ℤ c.restored_at_us = ground arith in
          (+ℤ-monotone c.confirmed_at_us c.restored_at_us w now order restored, restored)
      | inr earlier ↦
          let kept : eligible_at c config ≡ c.confirmed_at_us +ℤ w =
            rw earlier (wrap64_id (c.confirmed_at_us +ℤ w) dated.confirmed) in
          let confirmed = subst (λ e. e ≤ℤ now) kept h in
          let order : c.restored_at_us ≤ℤ c.confirmed_at_us = ground arith in
          (confirmed, +ℤ-monotone c.restored_at_us c.confirmed_at_us w now order confirmed)
    ]

-- Where a selected Block comes from.
pub record IsEvictable (input : PlanInput) (b : PlanBlock) : Type 0 where
  pub candidate : PlanCandidate
  pub listed : Memᴰ candidate input.candidates
  pub block : IsBlockOf candidate b
  pub reason : b.reason ≡ SkipReason.unset
  pub hot : candidate.local_evictable ≡ true
  pub durable : candidate.backend_key ≢ ""
  pub follower : input.is_leader ≡ false
  pub shard : (s : ℕ) → input.request.shard_id ≡ some s → candidate.shard_id ≡ s
  pub confirmed : window_after candidate.confirmed_at_us input.config ≤ℤ unix_micro input.now
  pub restored : window_after candidate.restored_at_us input.config ≤ℤ unix_micro input.now

IsPicked-IsEvictable :
    (input : PlanInput) (b : PlanBlock)
    → All (IsDated input.config) input.candidates
    → IsPicked input b
    → IsEvictable input b
unfolding plan_block
IsPicked-IsEvictable input b dated h =
    let (confirmed, restored) =
      window_after-eligible h.candidate input.config (unix_micro input.now)
        (All-Mem (IsDated input.config) h.candidate input.candidates dated h.listed)
        h.eligible.resident in
    record {
      candidate = h.candidate;
      listed = h.listed;
      block =
          subst (IsBlockOf h.candidate) (sym h.block)
            (plan_block-IsBlockOf h.candidate input.config SkipReason.unset);
      reason = ap (λ (b : PlanBlock). b.reason) h.block;
      hot = h.eligible.hot;
      durable = h.eligible.durable;
      follower = h.eligible.follower;
      shard = h.eligible.shard;
      confirmed = confirmed;
      restored = restored;
    }

-- Every Block that a built plan selects is that of one of the candidates: a Block that is hot on
-- this Member, with a Backend copy, on a Member that does not lead the Shard, of the Shard that the
-- request asks for, if it asks, and for which the residency window has passed, when the plan is
-- made, since its upload was confirmed and since it was restored. The times of the candidates are
-- such that the ends of their windows are an int64.
pub build_plan-IsEvictable :
    (input : PlanInput) (plan : Plan)
    → All (IsDated input.config) input.candidates
    → build_plan input ≡ ok plan
    → All (IsEvictable input) plan.selected
unfolding finish_plan empty_plan
build_plan-IsEvictable input plan dated e =
    let (bounds, _, _, built) = build_plan-eq-ok input plan e in
    let sound =
      plan_candidates-Sound input (sort_by_id input.candidates)
        (empty_plan input (recommended_bounds input.config) bounds.0 bounds.1)
        (All-sort _ input.candidates (All-listed input.candidates))
        (record { now = refl; selected = tt }) in
    All-map (IsPicked input) (IsEvictable input) plan.selected
      (λ b picked. IsPicked-IsEvictable input b dated picked)
      (subst (λ (p : Plan). All (IsPicked input) p.selected) built sound.selected)
