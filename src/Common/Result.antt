-- ===== src/Common/Result.antt =====
-- A Go pair of a value and an error: an error ends the chain, and its value is not read.
use mathlib.Core.Path.{◌≡◌, refl}
use mathlib.Core.Bool.{Bool, true, false}
use mathlib.Core.Option.{Option, none, some}
use scrap.Common.Tests.{if◌then◌else◌}

pub data Result {ℓ} (E : Type 0) (A : Type ℓ) : Type ℓ where
  ok : A → Result E A
  err : E → Result E A

infixl 5 ◌>>=◌ ◌>>◌
abbrev pub ◌>>=◌ {ℓ κ} :
    {E : Type 0} {A : Type ℓ} {B : Type κ} → Result E A → (A → Result E B) → Result E B
ok value >>= next = next value
err e >>= next = err e

abbrev pub ◌>>◌ {ℓ} : {E : Type 0} {B : Type ℓ} → Result E (Unit {0}) → Result E B → Result E B
first >> next = first >>= λ _. next

-- An early return of `e` if the test holds.
abbrev pub fail_if : {E : Type 0} → Bool → E → Result E (Unit {0})
fail_if true e = err e
fail_if false e = ok tt

-- `if err != nil { bad }; good`
abbrev pub either {ℓ κ} :
    {E : Type 0} {A : Type ℓ} {B : Type κ} → Result E A → (E → B) → (A → B) → B
either (ok a) bad good = good a
either (err e) bad good = bad e

-- An early return for what is there.
abbrev pub if_some {ℓ κ} : {A : Type ℓ} {B : Type κ} → Option A → (A → B) → B → B
if_some (some a) early rest = early a
if_some none early rest = rest

-- A chain that succeeds has a first step that does, with a value from which the rest does.
pub >>=-eq-ok {ℓ κ} :
    {E : Type 0} {A : Type ℓ} {B : Type κ} (first : Result E A) (rest : A → Result E B) {last : B}
    → (first >>= rest) ≡ ok last
    → (value : A) × (first ≡ ok value) × (rest value ≡ ok last)
>>=-eq-ok (ok value) rest done = (value, refl, done)
>>=-eq-ok (err e) rest done = cc

-- Inversion of a check that keeps a value.
pub either-eq-ok {ℓ} :
    {E : Type 0} {A : Type ℓ} (r : Result E (Unit {0})) (a : A) {b : A}
    → either r err (λ _. ok a) ≡ ok b
    → (r ≡ ok tt) × (a ≡ b)
either-eq-ok (ok tt) a h = (refl, cc)
either-eq-ok (err e) a h = cc

-- Inversion of an early return.
pub guard-eq-ok {ℓ} :
    {E : Type 0} {A : Type ℓ} (bad : Bool) (e : E) (rest : Result E A) {a : A}
    → (if bad then err e else rest) ≡ ok a
    → (bad ≡ false) × (rest ≡ ok a)
guard-eq-ok true e rest h = cc
guard-eq-ok false e rest h = (refl, h)

pub fail_if-eq-ok : {E : Type 0} (bad : Bool) (e : E) → fail_if bad e ≡ ok tt → bad ≡ false
fail_if-eq-ok true e h = cc
fail_if-eq-ok false e h = refl

pub ok-injective {ℓ} :
    {E : Type 0} {A : Type ℓ} {a b : A} → ◌≡◌ {A = Result E A} (ok a) (ok b) → a ≡ b
ok-injective h = cc

pub guard_passes {ℓ} :
    {E : Type 0} {A : Type ℓ} (bad : Bool) (e : E) (rest : Result E A)
    → bad ≡ false
    → (if bad then err e else rest) ≡ rest
guard_passes true e rest h = cc
guard_passes false e rest h = refl

-- The next step of code that changes a state and may fail.
abbrev pub and_then {ℓ κ ρ} :
    {S : Type ρ} {E : Type 0} {A : Type ℓ} {B : Type κ}
    → S × Result E A
    → (S → A → S × Result E B)
    → S × Result E B
and_then (s, ok a) next = next s a
and_then (s, err e) next = (s, err e)

-- Inversion of a step that keeps the state and returns on an error.
pub step-eq-ok {ℓ} :
    {D E F : Type 0} {A : Type ℓ} (r : Result E A) (state : D) (wrap : E → F)
    (good : A → D × Result F (Unit {0})) {last : D}
    → ◌≡◌ {A = D × Result F (Unit {0})} (either r (λ e. (state, err (wrap e))) good) (last, ok tt)
    → (a : A) × (r ≡ ok a) × ◌≡◌ {A = D × Result F (Unit {0})} (good a) (last, ok tt)
step-eq-ok (ok a) state wrap good h = (a, refl, h)
step-eq-ok (err e) state wrap good h = cc

pub if_some-eq-ok {ℓ} :
    {E : Type 0} {A : Type ℓ} (o : Option A) (e : E) {a : A}
    → if_some o ok (err e) ≡ ok a
    → o ≡ some a
if_some-eq-ok none e h = cc
if_some-eq-ok (some b) e h = cc

-- Steps that keep the state are a chain of their results.
pub and_then_keeps {ℓ κ ρ} :
    {S : Type ρ} {E : Type 0} {A : Type ℓ} {B : Type κ} (s : S) (r : Result E A)
    (next : S → A → S × Result E B) (result : A → Result E B)
    → ((a : A) → next s a ≡ (s, result a))
    → and_then (s, r) next ≡ (s, r >>= result)
and_then_keeps s (ok a) next result h = h a
and_then_keeps s (err e) next result h = refl
