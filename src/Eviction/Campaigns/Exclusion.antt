-- ===== src/Eviction/Campaigns/Exclusion.antt =====
-- internal/eviction/campaigns.go: one application of a plan at a time, and its cached result.
use scrap.Common.{
  String, ◌≡◌, ◌≢◌, refl, inl, inr, Bool, true, false, Option, none, some, List, [], ◌∷◌,
  Bool-cases, str_eq, eq_iff, if◌then◌else◌, arith, All,
}
use scrap.Common.Int.{ℤ, ◌<ℤ◌}
use scrap.Common.Result.{Result, ok}
use scrap.Common.Assoc.{lookup, insert, lookup-insert, lookup-delete}
use scrap.Eviction.{Error, Member, Plan}
use scrap.Eviction.Planner.{unix_micro}
use scrap.Eviction.Campaigns.{
  Campaigns, Call, store, start, finish, ask, step, run, started, is_some, is_expired, forget,
  prune_loop, prune_expired, store_plan, valid_found, valid_plan, begin_valid, begin_apply,
  finish_apply, status,
}
use scrap.Eviction.Campaigns.Invariant.{valid_plan_state, status_valid_state}

-- The campaign is being applied.
abbrev pub is_running : String → Campaigns → Bool
is_running id c = is_some (lookup id c.apply_running)

-- What a start that is granted says of the campaigns before it and after it.
pub record IsGranted (id : String) (member : Member) (now : ℤ) (c : Campaigns) (plan : Plan)
    (c' : Campaigns) : Type 0 where
  pub found : lookup id c.plans ≡ some plan
  pub unexpired : unix_micro now <ℤ plan.expires_at_us
  pub hostname : plan.member_hostname ≡ member.hostname
  pub member_id : plan.member_id ≡ member.id
  pub fresh : lookup id c.apply_results ≡ none
  pub idle : is_running id c ≡ false
  pub marked : is_running id c' ≡ true
  pub plans : c'.plans ≡ c.plans

valid_found-eq-ok :
    (id : String) (member : Member) (now_us : ℤ) (c : Campaigns) (o : Option Plan) (plan : Plan)
    → (valid_found id member now_us c o).0 ≡ ok plan
    → (o ≡ some plan)
      × (is_expired plan now_us ≡ false)
      × (str_eq plan.member_hostname member.hostname ≡ true)
      × (str_eq plan.member_id member.id ≡ true)
      × ((valid_found id member now_us c o).1 ≡ c)
unfolding valid_found
valid_found-eq-ok id member now_us c o plan e = ground arith

begin_valid-eq-started :
    (id : String) (valid : Result Error Plan) (c : Campaigns) (plan : Plan)
    → (begin_valid id valid c).0 ≡ ok (started plan)
    → (valid ≡ ok plan)
      × (lookup id c.apply_results ≡ none)
      × (is_running id c ≡ false)
      × ((begin_valid id valid c).1 ≡ record c { apply_running = insert id tt c.apply_running })
unfolding begin_valid
begin_valid-eq-started id valid c plan e = ground arith

-- A start is granted only for a plan that is stored, has not expired and was made for this Member,
-- that has no cached result and is not being applied; the plan is then marked as being applied,
-- and no plan is lost.
pub begin_apply-IsGranted :
    (id : String) (member : Member) (now : ℤ) (c : Campaigns) (plan : Plan)
    → (begin_apply id member now c).0 ≡ ok (started plan)
    → IsGranted id member now c plan (begin_apply id member now c).1
unfolding begin_apply valid_plan
begin_apply-IsGranted id member now c plan e = elim (Bool-cases (str_eq id "")) [
  | inl empty ↦ absurd (cc (rw empty at e))
  | inr given ↦
      let v = valid_found id member (unix_micro now) c (lookup id c.plans) in
      let (valid, fresh, idle, c') = begin_valid-eq-started id v.0 v.1 plan (rw given at e) in
      let (found, live, host, same, kept) =
        valid_found-eq-ok id member (unix_micro now) c (lookup id c.plans) plan valid in
      rw given (record {
        found = found;
        unexpired = ground arith;
        hostname = (eq_iff _ _).0 host;
        member_id = (eq_iff _ _).0 same;
        fresh = rw kept at fresh;
        idle = rw kept at idle;
        marked = rw (c', lookup-insert) (ground (arith, eq_iff id id));
        plans = rw (c', kept);
      })
]

prune_loop-apply_running :
    (now_us : ℤ) (plans : List (String × Plan)) (c : Campaigns)
    → (prune_loop now_us plans c).apply_running ≡ c.apply_running
unfolding prune_loop forget
prune_loop-apply_running now_us [] c = refl
prune_loop-apply_running now_us ((id, plan) ∷ rest) c = ground (
  arith,
  prune_loop-apply_running now_us rest (if is_expired plan now_us then forget id c else c),
)

valid_plan-apply_running :
    (id : String) (member : Member) (now_us : ℤ) (c : Campaigns)
    → (valid_plan id member now_us c).1.apply_running ≡ c.apply_running
unfolding forget
valid_plan-apply_running id member now_us c = elim (valid_plan_state id member now_us c) [
  | inl e ↦ rw e
  | inr e ↦ rw e
]

begin_valid_running :
    (id k : String) (valid : Result Error Plan) (c : Campaigns)
    → is_running id c ≡ true
    → is_running id (begin_valid k valid c).1 ≡ true
unfolding begin_valid
begin_valid_running id k valid c e = ground (arith, lookup-insert k id tt c.apply_running)

-- The call does not finish the campaign.
abbrev pub IsNoFinish : String → Call → Type 0
IsNoFinish id (finish k result cacheable) = str_eq k id ≡ false
IsNoFinish id _ = Unit

begin_apply_running :
    (id k : String) (member : Member) (now : ℤ) (c : Campaigns)
    → is_running id c ≡ true
    → is_running id (begin_apply k member now c).1 ≡ true
unfolding begin_apply
begin_apply_running id k member now c e = elim (Bool-cases (str_eq k "")) [
  | inl empty ↦ rw empty e
  | inr given ↦
      let (valid, c') = valid_plan k member (unix_micro now) c in
      rw given (begin_valid_running id k valid c' (rw valid_plan-apply_running e))
]

status_running :
    (id k : String) (member : Member) (now : ℤ) (c : Campaigns)
    → is_running id c ≡ true
    → is_running id (status k member now c).1 ≡ true
unfolding status
status_running id k member now c e = elim (Bool-cases (str_eq k "")) [
  | inl empty ↦ rw empty e
  | inr given ↦ rw (given, status_valid_state) (rw valid_plan-apply_running e)
]

step_running :
    (id : String) (c : Campaigns) (call : Call)
    → IsNoFinish id call
    → is_running id c ≡ true
    → is_running id (step c call) ≡ true
unfolding step store_plan prune_expired finish_apply
step_running id c (store plan) other e = rw prune_loop-apply_running e
step_running id c (start k member now) other e = begin_apply_running id k member now c e
step_running id c (finish k result cacheable) other e =
    ground (arith, lookup-delete k id c.apply_running)
step_running id c (ask k member now) other e = status_running id k member now c e

run_running :
    (id : String) (c : Campaigns) (calls : List Call)
    → All (IsNoFinish id) calls
    → is_running id c ≡ true
    → is_running id (run c calls) ≡ true
unfolding run
run_running id c [] others e = e
run_running id c (call ∷ calls) others e =
    run_running id (step c call) calls others.1 (step_running id c call others.0 e)

-- Between a start that is granted and the end of that application no other start of the plan is
-- granted, whatever calls are made in between, by whom and when.
pub begin_apply_exclusive :
    (id : String) (c : Campaigns) (member : Member) (now : ℤ) (plan : Plan) (calls : List Call)
    (member' : Member) (now' : ℤ) (plan' : Plan)
    → (begin_apply id member now c).0 ≡ ok (started plan)
    → All (IsNoFinish id) calls
    → (begin_apply id member' now' (run (begin_apply id member now c).1 calls)).0
      ≢ ok (started plan')
begin_apply_exclusive id c member now plan calls member' now' plan' first others again =
    let marked = (begin_apply-IsGranted id member now c plan first).marked in
    let c' = run (begin_apply id member now c).1 calls in
    let idle = (begin_apply-IsGranted id member' now' c' plan' again).idle in
    cc (run_running id (begin_apply id member now c).1 calls others marked, idle)
