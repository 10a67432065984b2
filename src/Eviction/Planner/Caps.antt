-- ===== src/Eviction/Planner/Caps.antt =====
-- internal/eviction/planner.go: the selected Blocks and the caps of the request and of the
-- configuration.
use mathlib.Core.Path.{subst}
use scrap.Common.{
  ℕ, ◌+◌, ◌^◌, ◌<◌, ◌≡◌, refl, sym, ap, ◌∙◌, inl, inr, some, none, List, [], ◌∷◌, ◌++◌, All, length,
  length-append, arith, false, Option,
}
use scrap.Common.Int.{ℤ, pos, negsuc, pos_part, neg_part, ◌≤ℤ◌, leb_ℤ, ltb_ℤ, add64, add64-pos}
use scrap.Common.Result.{ok, >>=-eq-ok}
use scrap.Eviction.{Bounds, PlanRequest, PlanBlock, Plan}
use scrap.Eviction.Planner.{
  PlanConfig, PlanCandidate, PlanInput, validate_plan_identity, validate_plan_request,
  validate_plan_config, validate_plan_input, plan_cap, plan_bounds, plan_block, exceeds_bounds,
  sort_by_id, plan_candidate, plan_candidates, empty_plan, recommended_bounds, finish_plan,
  build_plan,
}
use scrap.Eviction.Planner.Sort.{All-sort}
use scrap.Eviction.Planner.Loop.{IsSelected, plan_candidate_cases, plan_candidate_same}

-- The exact sum of the sizes, which are those of files.
abbrev pub total_bytes : List PlanBlock → ℕ
total_bytes [] = 0
total_bytes (b ∷ bs) = pos_part b.size_bytes + total_bytes bs

total_bytes-append :
    (xs ys : List PlanBlock) → total_bytes (xs ++ ys) ≡ total_bytes xs + total_bytes ys
total_bytes-append [] ys = omega arith
total_bytes-append (x ∷ xs) ys = omega (arith, total_bytes-append xs ys)

-- A size that is no negative number and that an `int64` holds beside the ceiling.
abbrev pub IsFileSize : ℤ → PlanCandidate → Type 0
IsFileSize ceiling c =
    (neg_part c.size_bytes ≡ 0) × (pos_part c.size_bytes + pos_part ceiling < 2 ^ 63)

record Fits (selected : List PlanBlock) (bytes : ℤ) (effective : Bounds) : Type 0 where
  blocks : pos (length selected) ≤ℤ effective.max_blocks
  exact : bytes ≡ pos (total_bytes selected)
  within : pos (total_bytes selected) ≤ℤ effective.max_bytes

abbrev FitsPlan : Plan → Type 0
FitsPlan plan = Fits plan.selected plan.selected_bytes plan.effective_bounds

-- Adding to an exact sum that stays within the cap.
add64-exact :
    (n : ℕ) (size cap ceiling : ℤ)
    → pos n ≤ℤ cap
    → cap ≤ℤ ceiling
    → neg_part size ≡ 0
    → pos_part size + pos_part ceiling < 2 ^ 63
    → add64 (pos n) size ≡ pos (n + pos_part size)
add64-exact n (pos m) cap ceiling h k e f = add64-pos n m (omega arith)
add64-exact n (negsuc m) cap ceiling h k e f = absurd (omega arith)

add_block :
    (selected : List PlanBlock) (effective : Bounds) (b : PlanBlock) (sum : ℤ)
    → sum ≡ pos (total_bytes selected + pos_part b.size_bytes)
    → leb_ℤ effective.max_blocks (pos (length selected)) ≡ false
    → ltb_ℤ effective.max_bytes sum ≡ false
    → Fits (selected ++ b ∷ []) sum effective
add_block selected effective b sum exact full over =
    let whole : total_bytes (selected ++ b ∷ []) ≡ total_bytes selected + pos_part b.size_bytes =
      omega (arith, total_bytes-append selected (b ∷ [])) in
    record {
      blocks = ground (arith, length-append selected (b ∷ []));
      exact = exact ∙ ap pos (sym whole);
      within = ground (arith, whole);
    }

module _ (input : PlanInput) (ceiling : ℤ) where
  IsSelected-Fits :
      (plan : Plan) (c : PlanCandidate)
      → plan.effective_bounds.max_bytes ≤ℤ ceiling
      → IsFileSize ceiling c
      → FitsPlan plan
      → IsSelected input plan c
      → Fits
          (plan.selected ++ plan_block c input.config ∷ [])
          (add64 plan.selected_bytes c.size_bytes)
          plan.effective_bounds
  unfolding plan_block exceeds_bounds
  IsSelected-Fits plan c h size fits s =
      let exact : add64 plan.selected_bytes c.size_bytes
          ≡ pos (total_bytes plan.selected + pos_part c.size_bytes) =
        rw fits.exact (
          add64-exact _ c.size_bytes plan.effective_bounds.max_bytes ceiling fits.within h size.0
            size.1) in
      add_block plan.selected plan.effective_bounds (plan_block c input.config) _ exact
        (ground (arith, s.room)) (ground (arith, s.room))

  plan_candidate-Fits :
      (plan : Plan) (c : PlanCandidate)
      → plan.effective_bounds.max_bytes ≤ℤ ceiling
      → IsFileSize ceiling c
      → FitsPlan plan
      → FitsPlan (plan_candidate input plan c)
  unfolding plan_block
  plan_candidate-Fits plan c h size fits =
      let same = (plan_candidate_same input plan c).effective_bounds in
      elim (plan_candidate_cases input plan c) [
        | inl s ↦ rw (s.selected, s.selected_bytes, same) fits
        | inr (inl s) ↦ rw (s.selected, s.selected_bytes, same) fits
        | inr (inr s) ↦
            rw (s.selected, s.selected_bytes, same) (IsSelected-Fits plan c h size fits s)
      ]

  plan_candidates-Fits :
      (cs : List PlanCandidate) (plan : Plan)
      → plan.effective_bounds.max_bytes ≤ℤ ceiling
      → All (IsFileSize ceiling) cs
      → FitsPlan plan
      → FitsPlan (plan_candidates input plan cs)
  unfolding plan_candidates
  plan_candidates-Fits [] plan h sizes fits = fits
  plan_candidates-Fits (c ∷ cs) plan h sizes fits =
      plan_candidates-Fits cs (plan_candidate input plan c)
        (rw (plan_candidate_same input plan c).effective_bounds h) sizes.1
        (plan_candidate-Fits plan c h sizes.0 fits)

-- What a request and a configuration that pass the checks say of the bounds.
record IsCapped (req : PlanRequest) (cfg : PlanConfig) (effective : Bounds) : Type 0 where
  some_blocks : pos 1 ≤ℤ effective.max_blocks
  some_bytes : pos 1 ≤ℤ effective.max_bytes
  under_blocks : effective.max_blocks ≤ℤ cfg.recommended_max_blocks
  under_bytes : effective.max_bytes ≤ℤ cfg.recommended_max_bytes

plan_cap_bounds :
    (asked : Option ℤ) (ceiling cap eff : ℤ)
    → pos 1 ≤ℤ ceiling
    → plan_cap asked ceiling ≡ ok (cap, eff)
    → (pos 1 ≤ℤ eff) × (eff ≤ℤ ceiling)
unfolding plan_cap
plan_cap_bounds none ceiling cap eff h e = ground arith
plan_cap_bounds (some n) ceiling cap eff h e = ground arith

validate_plan_config_positive :
    (cfg : PlanConfig)
    → validate_plan_config cfg ≡ ok tt
    → (pos 1 ≤ℤ cfg.recommended_max_blocks) × (pos 1 ≤ℤ cfg.recommended_max_bytes)
unfolding validate_plan_config
validate_plan_config_positive cfg e = ground arith

-- A successful build passed the checks and ran the loop.
pub build_plan-eq-ok :
    (input : PlanInput) (plan : Plan)
    → build_plan input ≡ ok plan
    → (bounds : Bounds × Bounds) × (validate_plan_config input.config ≡ ok tt)
      × (plan_bounds input.request (recommended_bounds input.config) ≡ ok bounds)
      × (finish_plan input bounds ≡ plan)
unfolding build_plan validate_plan_input
build_plan-eq-ok input plan e =
    let (_, valid, e') = >>=-eq-ok (validate_plan_input input) _ e in
    let (bounds, capped, built) = >>=-eq-ok (plan_bounds input.request _) _ e' in
    let (_, _, valid') = >>=-eq-ok (validate_plan_identity input) _ valid in
    let (_, _, valid_config) = >>=-eq-ok (validate_plan_request input) _ valid' in
    (bounds, valid_config, capped, ground arith)

plan_bounds-IsCapped :
    (req : PlanRequest) (cfg : PlanConfig) (requested effective : Bounds)
    → validate_plan_config cfg ≡ ok tt
    → plan_bounds req (recommended_bounds cfg) ≡ ok (requested, effective)
    → IsCapped req cfg effective
unfolding plan_bounds plan_cap
plan_bounds-IsCapped req cfg requested effective v e =
    ground (arith, validate_plan_config_positive cfg v)

-- The plan that a build starts from fits its caps.
empty_plan-Fits :
    (input : PlanInput) (recommended requested effective : Bounds)
    → pos 1 ≤ℤ effective.max_blocks
    → pos 1 ≤ℤ effective.max_bytes
    → FitsPlan (empty_plan input recommended requested effective)
unfolding empty_plan
empty_plan-Fits input recommended requested effective h k = ground arith

plan_candidates-effective_bounds :
    (input : PlanInput) (cs : List PlanCandidate) (plan : Plan)
    → (plan_candidates input plan cs).effective_bounds ≡ plan.effective_bounds
unfolding plan_candidates
plan_candidates-effective_bounds input [] plan = refl
plan_candidates-effective_bounds input (c ∷ cs) plan =
    plan_candidates-effective_bounds input cs (plan_candidate input plan c)
    ∙ (plan_candidate_same input plan c).effective_bounds

empty_plan-effective_bounds :
    (input : PlanInput) (recommended requested effective : Bounds)
    → (empty_plan input recommended requested effective).effective_bounds ≡ effective
unfolding empty_plan
empty_plan-effective_bounds input recommended requested effective = refl

-- What a plan promises of its caps.
pub record IsWithinCaps (input : PlanInput) (plan : Plan) : Type 0 where
  pub blocks : pos (length plan.selected) ≤ℤ plan.effective_bounds.max_blocks
  pub exact : plan.selected_bytes ≡ pos (total_bytes plan.selected)
  pub bytes : plan.selected_bytes ≤ℤ plan.effective_bounds.max_bytes
  pub ceiling_blocks : plan.effective_bounds.max_blocks ≤ℤ input.config.recommended_max_blocks
  pub ceiling_bytes : plan.effective_bounds.max_bytes ≤ℤ input.config.recommended_max_bytes

finish_plan-IsWithinCaps :
    (input : PlanInput) (requested effective : Bounds)
    → All (IsFileSize input.config.recommended_max_bytes) input.candidates
    → IsCapped input.request input.config effective
    → IsWithinCaps input (finish_plan input (requested, effective))
unfolding finish_plan
finish_plan-IsWithinCaps input requested effective sizes capped =
    let start = empty_plan input (recommended_bounds input.config) requested effective in
    let candidates = sort_by_id input.candidates in
    let ceiling = input.config.recommended_max_bytes in
    let kept : (plan_candidates input start candidates).effective_bounds ≡ effective =
      plan_candidates-effective_bounds input candidates start
      ∙ empty_plan-effective_bounds input _ requested effective in
    let fits : Fits (plan_candidates input start candidates).selected
        (plan_candidates input start candidates).selected_bytes effective =
      rw kept at (
        plan_candidates-Fits input ceiling candidates start
          (rw empty_plan-effective_bounds capped.under_bytes) (All-sort _ input.candidates sizes)
          (empty_plan-Fits input _ requested effective capped.some_blocks capped.some_bytes)) in
    record {
      blocks = rw kept fits.blocks;
      exact = fits.exact;
      bytes = rw (kept, fits.exact) fits.within;
      ceiling_blocks = rw kept capped.under_blocks;
      ceiling_bytes = rw kept capped.under_bytes;
    }

-- Where every candidate has the size of a file, and an `int64` holds that size beside the
-- configured ceiling, a plan that is built selects no more Blocks than its effective cap, its
-- `selected_bytes` is the exact sum of the sizes of the selected Blocks and is within the
-- effective cap, and neither effective cap is above the configured ceiling.
pub build_plan-IsWithinCaps :
    (input : PlanInput) (plan : Plan)
    → All (IsFileSize input.config.recommended_max_bytes) input.candidates
    → build_plan input ≡ ok plan
    → IsWithinCaps input plan
build_plan-IsWithinCaps input plan sizes e =
    let ((requested, effective), valid, capped, built) = build_plan-eq-ok input plan e in
    subst (IsWithinCaps input) built (
      finish_plan-IsWithinCaps input requested effective sizes
        (plan_bounds-IsCapped input.request input.config requested effective valid capped))
