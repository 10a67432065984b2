-- ===== src/Admission/Runs.antt =====
-- internal/admission/budget.go: what holds in every run of a budget.
use scrap.Common.{
  ℕ, ◌+◌, ◌-◌, ◌^◌, ◌≤◌, ◌<◌, ◌≡◌, refl, sym, ap, ◌∙◌, arith, Bool, true, false, none, some, List,
  [], ◌∷◌, ◌++◌, if◌then◌else◌,
}
use scrap.Common.Int.{ℤ, pos, negsuc, ltb_ℤ, leb_ℤ, add64, add64-pos}
use scrap.Admission.{Budget, clamp, acquire, release, Run, started, acquired, released}

-- The bytes that a call with `n` takes of the budget.
abbrev pub weight : ℕ → ℤ → ℕ
weight capacity n = if leb_ℤ n (pos 0) then 0 else clamp capacity n

abbrev pub total : ℕ → List ℤ → ℕ
total capacity [] = 0
total capacity (n ∷ held) = weight capacity n + total capacity held

total-append :
    (capacity : ℕ) (xs ys : List ℤ)
    → total capacity (xs ++ ys) ≡ total capacity xs + total capacity ys
total-append capacity [] ys = omega arith
total-append capacity (x ∷ xs) ys = omega (arith, total-append capacity xs ys)

weight-bound : (capacity : ℕ) (n : ℤ) → weight capacity n ≤ capacity
weight-bound capacity (pos n) = ground arith
weight-bound capacity (negsuc n) = ground arith

-- The budget counts what is held, and no more than it has.
pub record IsConserved (start b : Budget) (held : List ℤ) : Type 0 where
  pub capacity : b.capacity ≡ start.capacity
  pub used : b.used ≡ total b.capacity held
  pub within : b.used ≤ b.capacity

-- The admission of some bytes, past the tests.
admitted :
    (b b' : Budget) (k : ℕ)
    → b.capacity < 2 ^ 62
    → b.used ≤ b.capacity
    → k ≤ b.capacity
    → (if ltb_ℤ (pos b.capacity) (add64 (pos b.used) (pos k))
        then none
        else some (record b { used = b.used + k }))
      ≡ some b'
    → (b'.capacity ≡ b.capacity) × (b'.used ≡ b.used + k) × (b'.used ≤ b.capacity)
admitted b b' k small within fits h = split (ltb_ℤ (pos b.capacity) (pos (b.used + k))) refl (
    ap (λ z. if ltb_ℤ (pos b.capacity) z then none else some (record b { used = b.used + k }))
      (sym (add64-pos b.used k (omega arith)))
    ∙ h)
  where
    split :
        (c : Bool)
        → ltb_ℤ (pos b.capacity) (pos (b.used + k)) ≡ c
        → (if c then none else some (record b { used = b.used + k })) ≡ some b'
        → (b'.capacity ≡ b.capacity) × (b'.used ≡ b.used + k) × (b'.used ≤ b.capacity)
    split true e h = cc
    split false e h =
        let low : b.used + k ≤ b.capacity = ground arith in
        let same : record b { used = b.used + k } ≡ b' = cc in
        let used : b'.used ≡ b.used + k = sym (ap (λ x. x.used) same) in
        (sym (ap (λ x. x.capacity) same), used, omega arith)

acquire-eq-some :
    (b b' : Budget) (n : ℤ)
    → b.capacity < 2 ^ 62
    → b.used ≤ b.capacity
    → acquire b n ≡ some b'
    → (b'.capacity ≡ b.capacity) × (b'.used ≡ b.used + weight b.capacity n) × (b'.used ≤ b.capacity)
unfolding acquire
acquire-eq-some b b' n small within h = split (leb_ℤ n (pos 0)) (weight-bound b.capacity n) h
  where
    split :
        (c : Bool)
        → (if c then 0 else clamp b.capacity n) ≤ b.capacity
        → (if c
            then some b
            else if ltb_ℤ (pos b.capacity) (add64 (pos b.used) (pos (clamp b.capacity n)))
            then none
            else some (record b { used = b.used + clamp b.capacity n }))
          ≡ some b'
        → (b'.capacity ≡ b.capacity)
          × (b'.used ≡ b.used + (if c then 0 else clamp b.capacity n))
          × (b'.used ≤ b.capacity)
    split true fits h =
        let same : b ≡ b' = cc in
        let used : b'.used ≡ b.used = sym (ap (λ x. x.used) same) in
        (sym (ap (λ x. x.capacity) same), omega arith, omega arith)
    split false fits h = admitted b b' (clamp b.capacity n) small within fits h

release_used : (b : Budget) (n : ℤ) → (release b n).used ≡ b.used - weight b.capacity n
unfolding release
release_used b n = split (leb_ℤ n (pos 0))
  where
    split :
        (c : Bool)
        → (if c then b else record b { used = b.used - clamp b.capacity n }).used
          ≡ b.used - (if c then 0 else clamp b.capacity n)
    split true = omega arith
    split false = refl

release_capacity : (b : Budget) (n : ℤ) → (release b n).capacity ≡ b.capacity
unfolding release
release_capacity b n = split (leb_ℤ n (pos 0))
  where
    split :
        (c : Bool)
        → (if c then b else record b { used = b.used - clamp b.capacity n }).capacity ≡ b.capacity
    split true = refl
    split false = refl

-- In every run of a new budget in which each caller releases what it acquired, once, and whose
-- capacity is below 2 ^ 62, the bytes in use are the sum of what is held, each number clamped to
-- the capacity, and never more than the capacity.
pub Run-IsConserved :
    (start b : Budget) (held : List ℤ)
    → start.used ≡ 0
    → start.capacity < 2 ^ 62
    → Run start b held
    → IsConserved start b held
Run-IsConserved start b held empty small started = record {
  capacity = refl;
  used = empty;
  within = omega arith;
}
Run-IsConserved start b held empty small (acquired {b = old} {held = rest} n run h) =
    let ih = Run-IsConserved start old rest empty small run in
    let step = acquire-eq-some old b n (omega (arith, ih.capacity)) ih.within h in
    let same : total b.capacity rest ≡ total old.capacity rest = ap (λ c. total c rest) step.0 in
    let mine : weight b.capacity n ≡ weight old.capacity n = ap (λ c. weight c n) step.0 in
    record {
      capacity = step.0 ∙ ih.capacity;
      used = omega (arith, step.1, ih.used, same, mine);
      within = omega (arith, step.2, step.0);
    }
Run-IsConserved start b held empty small (released {b = old} before n after run) =
    let ih = Run-IsConserved start old (before ++ n ∷ after) empty small run in
    let cap = release_capacity old n in
    let used = release_used old n in
    let same = ap (λ c. total c (before ++ after)) cap in
    record {
      capacity = cap ∙ ih.capacity;
      used = omega (
        arith,
        used,
        ih.used,
        same,
        total-append old.capacity before (n ∷ after),
        total-append old.capacity before after,
      );
      within = omega (arith, used, ih.within, cap);
    }

-- In such a run, when nothing is held, any number of bytes is admitted at once: a call never waits
-- for a budget that is idle.
pub acquire_idle :
    (start b : Budget) (n : ℤ)
    → start.used ≡ 0
    → start.capacity < 2 ^ 62
    → Run start b []
    → (b' : Budget) × (acquire b n ≡ some b')
unfolding acquire
acquire_idle start b n empty small run =
    let c = Run-IsConserved start b [] empty small run in
    let idle : b.used ≡ 0 = c.used in
    split (leb_ℤ n (pos 0)) (weight-bound b.capacity n) idle (omega (arith, c.capacity))
  where
    split :
        (t : Bool)
        → (if t then 0 else clamp b.capacity n) ≤ b.capacity
        → b.used ≡ 0
        → b.capacity < 2 ^ 62
        → (b' : Budget) × ((if t
              then some b
              else if ltb_ℤ (pos b.capacity) (add64 (pos b.used) (pos (clamp b.capacity n)))
              then none
              else some (record b { used = b.used + clamp b.capacity n }))
            ≡ some b')
    split true fits idle low = (b, refl)
    split false fits idle low =
        let k = clamp b.capacity n in
        let sum : add64 (pos b.used) (pos k) ≡ pos (b.used + k) =
          add64-pos b.used k (omega arith) in
        let admits : ltb_ℤ (pos b.capacity) (pos (b.used + k)) ≡ false = ground arith in
        (record b { used = b.used + k }, rw (sum, admits))
