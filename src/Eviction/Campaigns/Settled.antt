-- ===== src/Eviction/Campaigns/Settled.antt =====
-- internal/eviction/campaigns.go: campaigns that have a result.
use scrap.Common.{
  String, ◌≡◌, ◌≢◌, refl, ◌⊎◌, inl, inr, Bool, true, false, Option, none, List, [], ◌∷◌, Bool-cases,
  str_eq, eq_iff, if◌then◌else◌, arith, All,
}
use scrap.Common.Int.{ℤ}
use scrap.Common.Result.{Result, ok}
use scrap.Common.Assoc.{lookup, lookup-insert, lookup-delete}
use scrap.Eviction.{Error, Member, Plan, ApplyResult}
use scrap.Eviction.Planner.{unix_micro}
use scrap.Eviction.Campaigns.{
  Campaigns, Call, store, start, finish, ask, step, run, started, is_some, is_expired, forget,
  prune_loop, prune_expired, store_plan, valid_plan, begin_valid, begin_apply,
  should_cache_apply_result, finish_apply, status,
}
use scrap.Eviction.Campaigns.Invariant.{valid_plan_state, status_valid_state}
use scrap.Eviction.Campaigns.Exclusion.{begin_apply-IsGranted}

-- The campaign has a result, or its plan is gone.
abbrev pub IsSettled : String → Campaigns → Type 0
IsSettled id c = (lookup id c.plans ≡ none) ⊎ (is_some (lookup id c.apply_results) ≡ true)

settled_if :
    (b : Bool) (p : Option Plan) (r : Option ApplyResult)
    → ((p ≡ none) ⊎ (is_some r ≡ true))
    → ((if b then none else p) ≡ none) ⊎ (is_some (if b then none else r) ≡ true)
settled_if true p r h = inl refl
settled_if false p r h = h

forget-IsSettled : (id k : String) (c : Campaigns) → IsSettled id c → IsSettled id (forget k c)
unfolding forget
forget-IsSettled id k c h = rw (lookup-delete, lookup-delete) (settled_if _ _ _ h)

prune_loop-IsSettled :
    (id : String) (now_us : ℤ) (plans : List (String × Plan)) (c : Campaigns)
    → IsSettled id c
    → IsSettled id (prune_loop now_us plans c)
unfolding prune_loop
prune_loop-IsSettled id now_us [] c h = h
prune_loop-IsSettled id now_us ((k, plan) ∷ rest) c h =
    prune_loop-IsSettled id now_us rest _ (keep (is_expired plan now_us))
  where
    keep : (b : Bool) → IsSettled id (if b then forget k c else c)
    keep true = forget-IsSettled id k c h
    keep false = h

valid_plan-IsSettled :
    (id k : String) (member : Member) (now_us : ℤ) (c : Campaigns)
    → IsSettled id c
    → IsSettled id (valid_plan k member now_us c).1
valid_plan-IsSettled id k member now_us c h = elim (valid_plan_state k member now_us c) [
  | inl e ↦ rw e h
  | inr e ↦ rw e (forget-IsSettled id k c h)
]

begin_valid-IsSettled :
    (id k : String) (valid : Result Error Plan) (c : Campaigns)
    → IsSettled id c
    → IsSettled id (begin_valid k valid c).1
unfolding begin_valid
begin_valid-IsSettled id k valid c h = ground arith

-- The call does not store a plan under the ID.
abbrev pub IsNoStore : String → Call → Type 0
IsNoStore id (store plan) = str_eq plan.plan_id id ≡ false
IsNoStore id _ = Unit

begin_apply-IsSettled :
    (id k : String) (member : Member) (now : ℤ) (c : Campaigns)
    → IsSettled id c
    → IsSettled id (begin_apply k member now c).1
unfolding begin_apply
begin_apply-IsSettled id k member now c h = elim (Bool-cases (str_eq k "")) [
  | inl empty ↦ rw empty h
  | inr given ↦
      rw given
        (begin_valid-IsSettled id k _ _ (valid_plan-IsSettled id k member (unix_micro now) c h))
]

status-IsSettled :
    (id k : String) (member : Member) (now : ℤ) (c : Campaigns)
    → IsSettled id c
    → IsSettled id (status k member now c).1
unfolding status
status-IsSettled id k member now c h = elim (Bool-cases (str_eq k "")) [
  | inl empty ↦ rw empty h
  | inr given ↦
      rw (given, status_valid_state) (valid_plan-IsSettled id k member (unix_micro now) c h)
]

step-IsSettled :
    (id : String) (c : Campaigns) (call : Call)
    → IsNoStore id call
    → IsSettled id c
    → IsSettled id (step c call)
unfolding step store_plan prune_expired finish_apply
step-IsSettled id c (store plan) other h =
    rw (lookup-insert, other) (prune_loop-IsSettled id plan.generated_at_us c.plans c h)
step-IsSettled id c (start k member now) other h = begin_apply-IsSettled id k member now c h
step-IsSettled id c (finish k result cacheable) other h =
    ground (arith, lookup-insert k id result c.apply_results)
step-IsSettled id c (ask k member now) other h = status-IsSettled id k member now c h

run-IsSettled :
    (id : String) (c : Campaigns) (calls : List Call)
    → All (IsNoStore id) calls
    → IsSettled id c
    → IsSettled id (run c calls)
unfolding run
run-IsSettled id c [] others h = h
run-IsSettled id c (call ∷ calls) others h =
    run-IsSettled id (step c call) calls others.1 (step-IsSettled id c call others.0 h)

finish_apply-IsSettled :
    (id : String) (result : ApplyResult) (c : Campaigns)
    → should_cache_apply_result result ≡ true
    → IsSettled id (finish_apply id result true c)
unfolding finish_apply
finish_apply-IsSettled id result c terminal =
    ground (arith, lookup-insert id id result c.apply_results, eq_iff id id)

-- Once an application ends with a result that is to be cached and that had an effect or failed, no
-- later start of that plan is granted, whatever calls are made in between, as long as no plan is
-- stored under the same ID.
pub begin_apply_once :
    (id : String) (c : Campaigns) (result : ApplyResult) (calls : List Call) (member : Member)
    (now : ℤ) (plan : Plan)
    → should_cache_apply_result result ≡ true
    → All (IsNoStore id) calls
    → (begin_apply id member now (run (finish_apply id result true c) calls)).0 ≢ ok (started plan)
begin_apply_once id c result calls member now plan terminal others again =
    let c' = run (finish_apply id result true c) calls in
    let granted = begin_apply-IsGranted id member now c' plan again in
    let settled =
      run-IsSettled id (finish_apply id result true c) calls others
        (finish_apply-IsSettled id result c terminal) in
    ground (arith, granted.found, granted.fresh, settled)
