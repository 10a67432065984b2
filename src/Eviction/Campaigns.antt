-- ===== src/Eviction/Campaigns.antt =====
-- internal/eviction/campaigns.go: the plans of a Shard, their cached results, and which of them
-- are being applied. A nil map reads as the empty one, so `ensureMaps` does nothing here; a value
-- is its own clone. The set of running campaigns is a map to the empty struct.
mod Examples
pub mod Invariant
pub mod Exclusion
pub mod Settled
use scrap.Common.{
  String, Bool, true, false, not, ◌&&◌, ◌||◌, Option, none, some, List, [], ◌∷◌, str_eq,
  if◌then◌else◌,
}
use scrap.Common.Int.{ℤ, leb_ℤ}
use scrap.Common.Result.{Result, ok, err}
use scrap.Common.Assoc.{lookup, insert, delete}
use scrap.Eviction.{
  Error, invalid_plan_request, plan_not_found, plan_expired, apply_in_progress, plan_stale,
  ApplyStatus, CampaignStatus, pending, running, applied, Member, Plan, ApplyResult, PlanStatus,
}
use scrap.Eviction.Planner.{unix_micro}

pub record Campaigns : Type 0 where
  pub plans : List (String × Plan)
  pub apply_results : List (String × ApplyResult)
  pub apply_running : List (String × Unit {0})

-- `ApplyStart`: the plan to apply, or the result that is cached.
pub data ApplyStart : Type 0 where
  started : Plan → ApplyStart
  cached : ApplyResult → ApplyStart

pub new_campaigns : Campaigns
new_campaigns = record { plans = []; apply_results = []; apply_running = [] }

abbrev pub is_some {ℓ} : {A : Type ℓ} → Option A → Bool
is_some none = false
is_some (some _) = true

-- `ExpiresAtUs <= nowUs`
abbrev pub is_expired : Plan → ℤ → Bool
is_expired plan now_us = leb_ℤ plan.expires_at_us now_us

-- A plan and its result are forgotten; a running mark stays.
pub forget : String → Campaigns → Campaigns
forget id c = record c { plans = delete id c.plans; apply_results = delete id c.apply_results }

-- The range of `pruneExpired`, over the plans that it started from.
pub prune_loop : ℤ → List (String × Plan) → Campaigns → Campaigns
unfolding forget
prune_loop now_us [] c = c
prune_loop now_us ((id, plan) ∷ rest) c =
    prune_loop now_us rest (if is_expired plan now_us then forget id c else c)

pub prune_expired : ℤ → Campaigns → Campaigns
unfolding prune_loop
prune_expired now_us c = prune_loop now_us c.plans c

pub store_plan : Plan → Campaigns → Campaigns
unfolding prune_expired
store_plan plan c =
    let c' = prune_expired plan.generated_at_us c in
    record c' { plans = insert plan.plan_id plan c'.plans }

-- `Plan` and `ApplyResult`.
pub find_plan : String → Campaigns → Option Plan
find_plan id c = lookup id c.plans

pub find_apply_result : String → Campaigns → Option ApplyResult
find_apply_result id c = lookup id c.apply_results

abbrev is_stale : Plan → Member → Bool
is_stale plan member =
    not (str_eq plan.member_hostname member.hostname) || not (str_eq plan.member_id member.id)

valid_found : String → Member → ℤ → Campaigns → Option Plan → Result Error Plan × Campaigns
valid_found id member now_us c none = (err plan_not_found, c)
valid_found id member now_us c (some plan) =
    if is_expired plan now_us
    then (err plan_expired, forget id c)
    else if is_stale plan member
    then (err plan_stale, c)
    else (ok plan, c)

pub valid_plan : String → Member → ℤ → Campaigns → Result Error Plan × Campaigns
unfolding valid_found
valid_plan id member now_us c = valid_found id member now_us c (lookup id c.plans)

begin_valid : String → Result Error Plan → Campaigns → Result Error ApplyStart × Campaigns
begin_valid id (err e) c = (err e, c)
begin_valid id (ok plan) c = elim (lookup id c.apply_results) [
  | some result ↦ (ok (cached result), c)
  | none ↦
      if is_some (lookup id c.apply_running)
      then (err apply_in_progress, c)
      else (ok (started plan), record c { apply_running = insert id tt c.apply_running })
]

pub begin_apply : String → Member → ℤ → Campaigns → Result Error ApplyStart × Campaigns
unfolding begin_valid
begin_apply id member now c =
    if str_eq id ""
    then (err invalid_plan_request, c)
    else let (valid, c') = valid_plan id member (unix_micro now) c in begin_valid id valid c'

abbrev pub is_terminal : ApplyStatus → Bool
is_terminal ApplyStatus.unset = false
is_terminal ApplyStatus.no_effect = false
is_terminal _ = true

pub should_cache_apply_result : ApplyResult → Bool
should_cache_apply_result result = is_terminal result.status

pub finish_apply : String → ApplyResult → Bool → Campaigns → Campaigns
unfolding should_cache_apply_result
finish_apply id result cacheable c =
    let c' = record c { apply_running = delete id c.apply_running } in
    if is_some (lookup id c.plans) && (cacheable && should_cache_apply_result result)
    then record c' { apply_results = insert id result c.apply_results }
    else c'

pub status_valid : String → Result Error Plan → Campaigns → Result Error PlanStatus × Campaigns
status_valid id (err e) c = (err e, c)
status_valid id (ok plan) c = elim (lookup id c.apply_results) [
  | some result ↦ (
    ok (record {
      plan_id = id;
      status = applied result.status;
      plan = some plan;
      apply_result = some result;
    }),
    c,
  )
  | none ↦ (
    ok (record {
      plan_id = id;
      status = if is_some (lookup id c.apply_running) then running else pending;
      plan = some plan;
      apply_result = none;
    }),
    c,
  )
]

pub status : String → Member → ℤ → Campaigns → Result Error PlanStatus × Campaigns
unfolding status_valid
status id member now c =
    if str_eq id ""
    then (err invalid_plan_request, c)
    else let (valid, c') = valid_plan id member (unix_micro now) c in status_valid id valid c'

abbrev is_nonempty {ℓ} : {A : Type ℓ} → List A → Bool
is_nonempty [] = false
is_nonempty (x ∷ xs) = true

pub has_running_apply : Campaigns → Bool
has_running_apply c = is_nonempty c.apply_running

-- The calls that change the state.
pub data Call : Type 0 where
  store : Plan → Call
  start : String → Member → ℤ → Call
  finish : String → ApplyResult → Bool → Call
  ask : String → Member → ℤ → Call

pub step : Campaigns → Call → Campaigns
step c (store plan) = store_plan plan c
step c (start id member now) = (begin_apply id member now c).1
step c (finish id result cacheable) = finish_apply id result cacheable c
step c (ask id member now) = (status id member now c).1

pub run : Campaigns → List Call → Campaigns
run c [] = c
run c (call ∷ calls) = run (step c call) calls
