-- ===== src/Eviction/Campaigns/Invariant.antt =====
-- internal/eviction/campaigns.go: what holds of the campaigns between two calls.
use scrap.Common.{
  String, ◌≡◌, ◌≢◌, ap, ◌⊎◌, inl, inr, Bool, true, false, Option, none, some, List, [], ◌∷◌,
  Bool-cases, str_eq, eq_iff, if◌then◌else◌, arith,
}
use scrap.Common.Int.{ℤ}
use scrap.Common.Result.{Result}
use scrap.Common.Assoc.{lookup, lookup-insert, lookup-delete}
use scrap.Eviction.{ApplyStatus, Error, Member, Plan, ApplyResult}
use scrap.Eviction.Planner.{unix_micro}
use scrap.Eviction.Campaigns.{
  Campaigns, Call, store, start, finish, ask, step, run, new_campaigns, is_some, is_expired, forget,
  prune_loop, prune_expired, store_plan, valid_plan, begin_valid, begin_apply, is_terminal,
  finish_apply, status_valid, status,
}

-- A cached result is that of a plan that is known, and ends its campaign.
record IsCached (c : Campaigns) : Type 0 where
  pub known :
      (id : String)
      → is_some (lookup id c.apply_results) ≡ true
      → is_some (lookup id c.plans) ≡ true
  pub terminal :
      (id : String) (r : ApplyResult)
      → lookup id c.apply_results ≡ some r
      → is_terminal r.status ≡ true

if_known :
    (b : Bool) (r : Option ApplyResult) (p : Option Plan)
    → (is_some r ≡ true → is_some p ≡ true)
    → is_some (if b then none else r) ≡ true
    → is_some (if b then none else p) ≡ true
if_known true r p h e = e
if_known false r p h e = h e

forget-IsCached : (id : String) {c : Campaigns} → IsCached c → IsCached (forget id c)
unfolding forget
forget-IsCached id {c} h = record {
  known = λ k e. rw lookup-delete (if_known _ _ _ (h.known k) (rw lookup-delete at e));
  terminal = λ k r e. ground (arith, lookup-delete id k c.apply_results, h.terminal k r);
}

prune_loop-IsCached :
    (now_us : ℤ) (plans : List (String × Plan)) {c : Campaigns}
    → IsCached c
    → IsCached (prune_loop now_us plans c)
unfolding prune_loop
prune_loop-IsCached now_us [] h = h
prune_loop-IsCached now_us ((id, plan) ∷ rest) {c} h =
    prune_loop-IsCached now_us rest (keep (is_expired plan now_us))
  where
    keep : (b : Bool) → IsCached (if b then forget id c else c)
    keep true = forget-IsCached id h
    keep false = h

store_plan-IsCached : (plan : Plan) (c : Campaigns) → IsCached c → IsCached (store_plan plan c)
unfolding store_plan prune_expired
store_plan-IsCached plan c h =
    let h' = prune_loop-IsCached plan.generated_at_us c.plans h in
    let c' = prune_loop plan.generated_at_us c.plans c in
    record {
      known = λ k e. ground (arith, lookup-insert plan.plan_id k plan c'.plans, h'.known k e);
      terminal = h'.terminal;
    }

-- The lookup of a valid plan changes nothing or forgets the plan.
pub valid_plan_state :
    (id : String) (member : Member) (now_us : ℤ) (c : Campaigns)
    → ((valid_plan id member now_us c).1 ≡ c) ⊎ ((valid_plan id member now_us c).1 ≡ forget id c)
unfolding valid_plan
valid_plan_state id member now_us c = ground arith

valid_plan-IsCached :
    (id : String) (member : Member) (now_us : ℤ) (c : Campaigns)
    → IsCached c
    → IsCached (valid_plan id member now_us c).1
valid_plan-IsCached id member now_us c h = elim (valid_plan_state id member now_us c) [
  | inl e ↦ rw e h
  | inr e ↦ rw e (forget-IsCached id h)
]

begin_valid-IsCached :
    (id : String) (valid : Result Error Plan) (c : Campaigns)
    → IsCached c
    → IsCached (begin_valid id valid c).1
unfolding begin_valid
begin_valid-IsCached id valid c h = record {
  known = λ k e. ground (arith, h.known k);
  terminal = λ k r e. ground (arith, h.terminal k r);
}

begin_apply-IsCached :
    (id : String) (member : Member) (now : ℤ) (c : Campaigns)
    → IsCached c
    → IsCached (begin_apply id member now c).1
unfolding begin_apply
begin_apply-IsCached id member now c h = elim (Bool-cases (str_eq id "")) [
  | inl empty ↦ rw empty h
  | inr given ↦
      rw given (begin_valid-IsCached id _ _ (valid_plan-IsCached id member (unix_micro now) c h))
]

pub status_valid_state :
    (id : String) (valid : Result Error Plan) (c : Campaigns) → (status_valid id valid c).1 ≡ c
unfolding status_valid
status_valid_state id valid c = ground arith

status-IsCached :
    (id : String) (member : Member) (now : ℤ) (c : Campaigns)
    → IsCached c
    → IsCached (status id member now c).1
unfolding status
status-IsCached id member now c h = elim (Bool-cases (str_eq id "")) [
  | inl empty ↦ rw empty h
  | inr given ↦ rw (given, status_valid_state) (valid_plan-IsCached id member (unix_micro now) c h)
]

finish_apply-IsCached :
    (id : String) (result : ApplyResult) (cacheable : Bool) (c : Campaigns)
    → IsCached c
    → IsCached (finish_apply id result cacheable c)
unfolding finish_apply
finish_apply-IsCached id result cacheable c h = record {
  known = λ k e. ground (arith, lookup-insert id k result c.apply_results, eq_iff id k, h.known k);
  terminal = λ k r e. ground (arith, lookup-insert id k result c.apply_results, h.terminal k r);
}

step-IsCached : (c : Campaigns) (call : Call) → IsCached c → IsCached (step c call)
unfolding step
step-IsCached c (store plan) h = store_plan-IsCached plan c h
step-IsCached c (start id member now) h = begin_apply-IsCached id member now c h
step-IsCached c (finish id result cacheable) h = finish_apply-IsCached id result cacheable c h
step-IsCached c (ask id member now) h = status-IsCached id member now c h

new_campaigns-IsCached : IsCached new_campaigns
unfolding new_campaigns lookup
new_campaigns-IsCached = record { known = λ k e. e; terminal = λ k r e. cc }

run_from-IsCached : (c : Campaigns) (calls : List Call) → IsCached c → IsCached (run c calls)
unfolding run
run_from-IsCached c [] h = h
run_from-IsCached c (call ∷ calls) h =
    run_from-IsCached (step c call) calls (step-IsCached c call h)

is_terminal→settled :
    (status : ApplyStatus)
    → is_terminal status ≡ true
    → (status ≢ ApplyStatus.unset) × (status ≢ ApplyStatus.no_effect)
is_terminal→settled status h =
    (λ same. let stays = ap is_terminal same in cc, λ same. let stays = ap is_terminal same in cc)

-- A cached result is that of a plan that is known, and its status is one of those that end a
-- campaign.
pub record IsCoherent (c : Campaigns) : Type 0 where
  pub known :
      (id : String)
      → is_some (lookup id c.apply_results) ≡ true
      → is_some (lookup id c.plans) ≡ true
  pub settled :
      (id : String) (r : ApplyResult)
      → lookup id c.apply_results ≡ some r
      → (r.status ≢ ApplyStatus.unset) × (r.status ≢ ApplyStatus.no_effect)

-- After any calls, each cached result belongs to a plan that is still known, and has a status
-- that is neither empty nor `no_effect`.
pub run-IsCoherent : (calls : List Call) → IsCoherent (run new_campaigns calls)
run-IsCoherent calls =
    let h = run_from-IsCached new_campaigns calls new_campaigns-IsCached in
    record {
      known = h.known;
      settled = λ id r there. is_terminal→settled r.status (h.terminal id r there);
    }
