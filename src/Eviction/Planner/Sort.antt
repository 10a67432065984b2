-- ===== src/Eviction/Planner/Sort.antt =====
-- internal/eviction/planner.go: the sort of the candidates by Block ID.
use mathlib.Core.List.{Perm}
use mathlib.Core.List.Perm
use scrap.Common.{◌≡◌, refl, suc, length, List, [], ◌∷◌, All, Bool-cases, leb, inl, inr, arith}
use scrap.Eviction.Planner.{PlanCandidate, insert_by_id, sort_by_id}

module _ (P : PlanCandidate → Type 0) where
  All-insert :
      (c : PlanCandidate) (cs : List PlanCandidate) → P c → All P cs → All P (insert_by_id c cs)
  unfolding insert_by_id
  All-insert c [] p ps = (p, tt)
  All-insert c (d ∷ ds) p ps = ground (arith, All-insert c ds p)

  pub All-sort : (cs : List PlanCandidate) → All P cs → All P (sort_by_id cs)
  unfolding sort_by_id
  All-sort [] ps = tt
  All-sort (c ∷ cs) ps = All-insert c (sort_by_id cs) ps.0 (All-sort cs ps.1)

insert-perm : (c : PlanCandidate) (cs : List PlanCandidate) → Perm (insert_by_id c cs) (c ∷ cs)
unfolding insert_by_id
insert-perm c [] = Perm.refl (c ∷ [])
insert-perm c (d ∷ ds) = elim (Bool-cases (leb c.block_id d.block_id)) [
  | inl h ↦ rw h (Perm.refl _)
  | inr h ↦ rw h (Perm.trans (Perm.cons d (insert-perm c ds)) (Perm.swap c d ds))
]

-- The sort permutes the candidates.
pub sort-perm : (cs : List PlanCandidate) → Perm (sort_by_id cs) cs
unfolding sort_by_id
sort-perm [] = Perm.refl []
sort-perm (c ∷ cs) = Perm.trans (insert-perm c (sort_by_id cs)) (Perm.cons c (sort-perm cs))

length-insert :
    (c : PlanCandidate) (cs : List PlanCandidate) → length (insert_by_id c cs) ≡ suc (length cs)
unfolding insert_by_id
length-insert c [] = refl
length-insert c (d ∷ ds) = ground (arith, length-insert c ds)

pub length-sort : (cs : List PlanCandidate) → length (sort_by_id cs) ≡ length cs
unfolding sort_by_id
length-sort [] = refl
length-sort (c ∷ cs) = omega (arith, length-insert c (sort_by_id cs), length-sort cs)
