-- ===== src/Eviction/Apply/Counting.antt =====
-- internal/eviction/apply.go: the counters, the status and the cancellation of a campaign.
use scrap.Common.{
  ℕ, suc, ◌+◌, ◌≤◌, ◌<◌, String, ◌≡◌, ◌≢◌, ◌↔◌, refl, ap, ◌∙◌, inl, inr, Bool, true, false, Option,
  none, some, List, [], ◌∷◌, ◌++◌, Option-cases, ltb, if◌then◌else◌, length, length-append, arith,
}
use scrap.Common.Int.{ℤ, pos}
use scrap.Eviction.{ApplyStatus, ApplyBlockStatus, Plan, PlanBlock, ApplyBlock, ApplyResult}
use scrap.Eviction.Apply.{
  failed_block, count_status, count_apply_block, apply_status, add_result, start_result, apply_one,
  cancel, apply_loop, apply_blocks, is_evicted, is_skipped, is_failed,
}

-- How many results have a status of the given kind.
abbrev pub tally : (ApplyBlockStatus → Bool) → List ApplyBlock → ℕ
tally p [] = 0
tally p (b ∷ bs) = (if p b.status then 1 else 0) + tally p bs

tally-append :
    (p : ApplyBlockStatus → Bool) (xs ys : List ApplyBlock)
    → tally p (xs ++ ys) ≡ tally p xs + tally p ys
tally-append p [] ys = omega arith
tally-append p (x ∷ xs) ys = omega (arith, tally-append p xs ys)

-- The counters agree with the results of the Blocks.
pub record IsTallied (result : ApplyResult) : Type 0 where
  pub evicted : result.evicted_blocks ≡ tally is_evicted result.blocks
  pub skipped : result.skipped_blocks ≡ tally is_skipped result.blocks
  pub failed : result.failed_blocks ≡ tally is_failed result.blocks

count_status-IsTallied :
    (st : ApplyBlockStatus) (result : ApplyResult) (block : ApplyBlock)
    → block.status ≡ st
    → IsTallied result
    → IsTallied (count_status st (add_result result block) block)
unfolding count_status
count_status-IsTallied st result block e h =
    let t = λ (p : ApplyBlockStatus → Bool). tally-append p result.blocks (block ∷ []) in
    ground (arith, t is_evicted, t is_skipped, t is_failed)

count_apply_block-IsTallied :
    (result : ApplyResult) (block : ApplyBlock)
    → IsTallied result
    → IsTallied (count_apply_block (add_result result block) block)
unfolding count_apply_block
count_apply_block-IsTallied result block h = count_status-IsTallied block.status result block refl h

count_apply_block-blocks :
    (result : ApplyResult) (block : ApplyBlock)
    → (count_apply_block result block).blocks ≡ result.blocks
unfolding count_apply_block count_status
count_apply_block-blocks result block = ground arith

cancel-IsTallied :
    (selected : PlanBlock) (result : ApplyResult) (error : String)
    → IsTallied result
    → IsTallied (cancel selected result error)
unfolding cancel failed_block
cancel-IsTallied selected result error h =
    let t = λ (p : ApplyBlockStatus → Bool).
      tally-append p result.blocks (failed_block selected error ∷ []) in
    ground (arith, t is_evicted, t is_skipped, t is_failed)

-- What holds of a loop's outcome when it began with `n` results and `m` Blocks were left.
record IsOutcome (n m : ℕ) (result : ApplyResult) (cacheable : Bool) : Type 0 where
  tallied : IsTallied result
  most : length result.blocks ≤ n + m
  whole : cacheable ≡ true → length result.blocks ≡ n + m
  cut : cacheable ≡ false → 0 < result.failed_blocks

-- The last test of `ApplyBlocks`.
abbrev final_cacheable : ApplyResult → Bool → Bool
final_cacheable result cacheable = if ltb 0 result.failed_blocks then false else cacheable

final_cacheable-cacheable :
    (result : ApplyResult) (cacheable : Bool)
    → final_cacheable result cacheable ≡ true
    → cacheable ≡ true
final_cacheable-cacheable result cacheable e = ground arith

final_cacheable_iff :
    (result : ApplyResult) (cacheable : Bool)
    → (cacheable ≡ false → 0 < result.failed_blocks)
    → (final_cacheable result cacheable ≡ true) ↔ (apply_status result ≢ ApplyStatus.failed)
unfolding apply_status
final_cacheable_iff result true cut = (λ e f. ground arith, λ f. ground arith)
final_cacheable_iff result false cut = (λ e f. ground arith, λ f. ground (arith, cut refl))

IsOutcome-shift :
    (n m : ℕ) {k : ℕ} {result : ApplyResult} {cacheable : Bool}
    → k ≡ n + 1
    → IsOutcome k m result cacheable
    → IsOutcome n (suc m) result cacheable
IsOutcome-shift n m e h = record {
  tallied = h.tallied;
  most = omega (arith, h.most);
  whole = λ c. omega (arith, h.whole c);
  cut = h.cut;
}

cancel-IsOutcome :
    (selected : PlanBlock) (result : ApplyResult) (error : String) (m : ℕ)
    → IsTallied result
    → IsOutcome (length result.blocks) (suc m) (cancel selected result error) false
unfolding cancel
cancel-IsOutcome selected result error m h = record {
  tallied = unfold cancel in cancel-IsTallied selected result error h;
  most = omega (arith, length-append result.blocks (failed_block selected error ∷ []));
  whole = λ e. cc;
  cut = λ e. omega arith;
}

module _ {S : Type 0} (ctx_err : ℕ → Option String) (apply : S → PlanBlock → ApplyBlock × S)
    (observe : Option (S → ApplyBlock → S)) where
  apply_one-IsTallied :
      (selected : PlanBlock) (result : ApplyResult) (s : S)
      → IsTallied result
      → IsTallied (apply_one apply observe selected result s).0
  unfolding apply_one
  apply_one-IsTallied selected result s h =
      count_apply_block-IsTallied result (apply s selected).0 h

  length-apply_one :
      (selected : PlanBlock) (result : ApplyResult) (s : S)
      → length (apply_one apply observe selected result s).0.blocks ≡ length result.blocks + 1
  unfolding apply_one
  length-apply_one selected result s =
      ap length
        (count_apply_block-blocks (add_result result (apply s selected).0) (apply s selected).0)
      ∙ length-append result.blocks _

  apply_loop-IsOutcome :
      (round : ℕ) (blocks : List PlanBlock) (result : ApplyResult) (s : S)
      → IsTallied result
      → let (result', cacheable, _) = apply_loop ctx_err apply observe round blocks result s in
        IsOutcome (length result.blocks) (length blocks) result' cacheable
  unfolding apply_loop
  apply_loop-IsOutcome round [] result s h = record {
    tallied = h;
    most = omega arith;
    whole = λ _. omega arith;
    cut = λ e. cc;
  }
  apply_loop-IsOutcome round (selected ∷ rest) result s h = elim (Option-cases (ctx_err round)) [
    | inl live ↦
        let (result', s') = apply_one apply observe selected result s in
        let one = length-apply_one selected result s in
        rw (live, apply_loop)
          (IsOutcome-shift (length result.blocks) (length rest) one (
            apply_loop-IsOutcome (round + 1) rest result' s'
              (apply_one-IsTallied selected result s h)))
    | inr (error, done) ↦
        rw (done, apply_loop) (cancel-IsOutcome selected result error (length rest) h)
  ]

  start-IsTallied : (plan : Plan) (now : ℤ) → IsTallied (start_result plan now)
  unfolding start_result
  start-IsTallied plan now = omega arith

  -- After a campaign the counters of evicted, skipped and failed Blocks are the numbers of results
  -- with that status, there are no more results than selected Blocks, and as many if the result
  -- may be cached. It may be cached exactly when no Block failed, which is when its status is not
  -- `failed`.
  pub apply_blocks_outcome :
      (plan : Plan) (now : ℤ) (s : S)
      → let (result, cacheable, _) = apply_blocks ctx_err apply observe plan now s in
        IsTallied result
        × (length result.blocks ≤ length plan.selected)
        × (cacheable ≡ true → length result.blocks ≡ length plan.selected)
        × ((cacheable ≡ true) ↔ (result.status ≢ ApplyStatus.failed))
  unfolding apply_blocks apply_status
  apply_blocks_outcome plan now s =
      let (result, cacheable, _) =
        apply_loop ctx_err apply observe 0 plan.selected (start_result plan now) s in
      let out : IsOutcome 0 (length plan.selected) result cacheable =
        unfold start_result in
        apply_loop-IsOutcome 0 plan.selected (start_result plan now) s (start-IsTallied plan now) in
      (
        omega (arith, out.tallied),
        omega (arith, out.most),
        λ e. omega (arith, out.whole (final_cacheable-cacheable result cacheable e)),
        final_cacheable_iff result cacheable out.cut,
      )

-- Every Block in turn, with no context.
abbrev pub apply_all :
    {S : Type 0} (apply : S → PlanBlock → ApplyBlock × S) (observe : Option (S → ApplyBlock → S))
    → List PlanBlock
    → ApplyResult
    → S
    → ApplyResult × S
apply_all apply observe [] result s = (result, s)
apply_all apply observe (selected ∷ rest) result s =
    let (result', s') = apply_one apply observe selected result s in
    apply_all apply observe rest result' s'

-- A result with the failure of one Block more.
abbrev pub with_failure : PlanBlock → String → ApplyResult → ApplyResult
with_failure selected error result = record result {
  blocks =
      result.blocks
      ++ record {
        block_id = selected.block_id;
        shard_id = selected.shard_id;
        size_bytes = selected.size_bytes;
        status = ApplyBlockStatus.failed;
        reason = "";
        error = error;
        bytes_freed = pos 0;
      }
        ∷ [];
  failed_blocks = result.failed_blocks + 1;
}

-- The loop with a context that is done first when the Blocks `before` have been tried makes the
-- calls for these alone, in order and on the states that they leave, adds one result, the failure
-- of the next Block with the text that the context gave and no bytes freed, and one to the count of
-- failures, and is not to be cached.
pub apply_loop_cancelled :
    {S : Type 0} (ctx_err : ℕ → Option String) (apply : S → PlanBlock → ApplyBlock × S)
    (observe : Option (S → ApplyBlock → S)) (error : String) (before : List PlanBlock)
    (selected : PlanBlock) (after : List PlanBlock) (round : ℕ) (result : ApplyResult) (s : S)
    → ((i : ℕ) → i < length before → ctx_err (round + i) ≡ none)
    → ctx_err (round + length before) ≡ some error
    → apply_loop ctx_err apply observe round (before ++ selected ∷ after) result s ≡ (
        let (result', s') = apply_all apply observe before result s in
        (with_failure selected error result', false, s'))
unfolding apply_loop cancel failed_block
apply_loop_cancelled ctx_err apply observe error [] selected after round result s live done =
    let e : round + 0 ≡ round = omega arith in rw (rw e at done, apply_loop)
apply_loop_cancelled ctx_err apply observe error (b ∷ bs) selected after round result s live done =
    let e : round + 0 ≡ round = omega arith in
    let (result', s') = apply_one apply observe b result s in
    rw (rw e at (live 0 (omega arith)), apply_loop)
      (apply_loop_cancelled ctx_err apply observe error bs selected after (round + 1) result' s'
        (λ i h.
          rw (let f : round + 1 + i ≡ round + suc i = omega arith in f)
            (live (suc i) (omega arith)))
        (rw (let f : round + 1 + length bs ≡ round + suc (length bs) = omega arith in f) done))
