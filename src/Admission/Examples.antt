-- ===== src/Admission/Examples.antt =====
-- internal/admission/budget.go: a budget of 100 bytes.
use scrap.Common.{◌≡◌, refl, arith, some, [], ◌∷◌}
use scrap.Common.Int.{pos, add64}
use scrap.Admission.{Budget, acquire, release, Run, started, acquired, released}
use scrap.Admission.Runs.{IsConserved, Run-IsConserved, acquire_idle}

abbrev hundred : Budget
hundred = record { capacity = 100; used = 0 }

abbrev used_sixty : Budget
used_sixty = record { capacity = 100; used = 60 }

abbrev used_ninety : Budget
used_ninety = record { capacity = 100; used = 90 }

first_acquire : acquire hundred (pos 60) ≡ some used_sixty
unfolding acquire add64
first_acquire = refl

second_acquire : acquire used_sixty (pos 30) ≡ some used_ninety
unfolding acquire add64
second_acquire = refl

-- 60 and 30 are acquired, and 60 is released.
abbrev one_left : Budget
one_left = release used_ninety (pos 60)

one_left-Run : Run hundred one_left (pos 30 ∷ [])
one_left-Run =
    released (pos 30 ∷ []) (pos 60) []
      (acquired (pos 30) (acquired (pos 60) started first_acquire) second_acquire)

Run-IsConserved_example : IsConserved hundred one_left (pos 30 ∷ [])
Run-IsConserved_example =
    Run-IsConserved hundred one_left (pos 30 ∷ []) refl (omega arith) one_left-Run

-- A request over the capacity is clamped.
acquire_idle_example : (b' : Budget) × (acquire hundred (pos 500) ≡ some b')
acquire_idle_example = acquire_idle hundred hundred (pos 500) refl (omega arith) started
