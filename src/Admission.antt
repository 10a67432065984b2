-- ===== src/Admission.antt =====
-- internal/admission/budget.go: a budget of bytes that Document writes, transfers and restores
-- share. Each operation runs under the lock of the budget, so a run of a program is a sequence of
-- them. A call of `Acquire` that waits, or that gives up because its context ends, changes nothing.
pub mod Runs
mod Examples
use scrap.Common.{
  ℕ, ◌+◌, ◌-◌, Bool, true, false, Option, none, some, List, [], ◌∷◌, ◌++◌, ◌≡◌, min, if◌then◌else◌,
}
use scrap.Common.Int.{ℤ, pos, pos_part, ltb_ℤ, leb_ℤ, add64}

abbrev pub default_capacity_bytes : ℕ
default_capacity_bytes = 268435456

-- `used` never falls under 0, nor is `capacity` ever 0 or less.
pub record Budget : Type 0 where
  pub capacity : ℕ
  pub used : ℕ

unfoldable pub new_budget : ℤ → Budget
new_budget capacity =
    if leb_ℤ capacity (pos 0)
    then record { capacity = default_capacity_bytes; used = 0 }
    else record { capacity = pos_part capacity; used = 0 }

-- A number of bytes over 0, no more than the capacity.
abbrev pub clamp : ℕ → ℤ → ℕ
clamp capacity n = if ltb_ℤ (pos capacity) n then capacity else pos_part n

-- `none` where the code waits.
unfoldable pub acquire : Budget → ℤ → Option Budget
acquire b n =
    if leb_ℤ n (pos 0)
    then some b
    else let k = clamp b.capacity n in
      if ltb_ℤ (pos b.capacity) (add64 (pos b.used) (pos k))
      then none
      else some (record b { used = b.used + k })

-- The difference stops at 0, as in the code.
unfoldable pub release : Budget → ℤ → Budget
release b n = if leb_ℤ n (pos 0) then b else record b { used = b.used - clamp b.capacity n }

-- What the callers do with a budget, and the bytes that they hold: a caller releases what it has
-- acquired, once.
pub data Run (start : Budget) : Budget → List ℤ → Type 0 where
  started : Run start start []
  acquired :
      {b b' : Budget} {held : List ℤ} (n : ℤ)
      → Run start b held
      → acquire b n ≡ some b'
      → Run start b' (n ∷ held)
  released :
      {b : Budget} (before : List ℤ) (n : ℤ) (after : List ℤ)
      → Run start b (before ++ n ∷ after)
      → Run start (release b n) (before ++ after)
