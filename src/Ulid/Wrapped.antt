-- ===== src/Ulid/Wrapped.antt =====
-- internal/ulid/ulid.go: a Generator whose random bytes are used up within one millisecond.
use scrap.Common.{
  ℕ, ◌+◌, ◌%◌, ◌<◌, ◌≤◌, ◌≡◌, sym, ◌∙◌, ◌⊎◌, arith, true, false, some, List, [], ◌∷◌, ◌++◌, ltb,
  lt→ltb, le→ltb_false, ◌==◌, All, Bool-cases, and-split, inl, inr,
}
use scrap.Common.Bytes.{put_be}
use scrap.Ulid.{
  less, compare_ulid, Generator, increment_bytes, wait, increment_random, ulid_of, new,
}
use scrap.Ulid.Order.{IsGenerator, compare_ulid-append}

wait-append :
    (time t : ℕ) (slow after fresh : List ℕ)
    → All (λ reading. reading ≤ time) slow
    → time < t
    → wait time (slow ++ t ∷ after) fresh ≡ some (record { last_time = t; last_random = fresh })
wait-append time t [] after fresh hs above = rw (lt→ltb time t above)
wait-append time t (reading ∷ slow) after fresh hs above =
    rw (le→ltb_false time reading hs.0, wait-append time t slow after fresh hs.1 above)

increment_bytes-full :
    (xs : List ℕ) → All (λ b. b < 256) xs → (increment_bytes xs).1 ≡ true → All (λ b. b ≡ 255) xs
unfolding increment_bytes
increment_bytes-full [] hs h = tt
increment_bytes-full (x ∷ xs) hs h =
    let (carry, zeroed) = and-split (increment_bytes xs).1 ((x + 1) % 256 == 0) h in
    let low : x < 256 = hs.0 in (ground arith, increment_bytes-full xs hs.1 carry)

-- Nothing of the same length sorts after bytes that are all full.
compare_ulid-full :
    (xs ys : List ℕ) → All (λ b. b ≡ 255) xs → All (λ b. b < 256) ys → ¬ (compare_ulid xs ys ≡ less)
unfolding compare_ulid
compare_ulid-full [] ys hx hy h = cc
compare_ulid-full (x ∷ xs) [] hx hy h = cc
compare_ulid-full (x ∷ xs) (y ∷ ys) hx hy h =
    let full : x ≡ 255 = hx.0 in
    let low : y < 256 = hy.0 in
    let below : ltb x y ≡ false = ground arith in
    let rest : compare_ulid xs ys ≡ less = elim (Bool-cases (ltb y x)) [
      | inl above ↦ ground arith
      | inr same ↦ ground arith
    ] in
    compare_ulid-full xs ys hx.1 hy.1 rest

-- When the clock has not advanced and the random bytes are all used up, `New` waits for a reading
-- after the last time, and its ULID has the fresh bytes with the last time, not the new one: it does
-- not sort after the last ULID.
pub new-wrapped :
    (g : Generator) (now t : ℕ) (slow after fresh : List ℕ)
    → IsGenerator g
    → All (λ b. b < 256) fresh
    → (increment_bytes g.last_random).1 ≡ true
    → now ≤ g.last_time
    → All (λ reading. reading ≤ g.last_time) slow
    → g.last_time < t
    → (new g now (slow ++ t ∷ after) fresh
        ≡ some (ulid_of g.last_time fresh, record { last_time = t; last_random = fresh }))
      × ¬ (compare_ulid (ulid_of g.last_time g.last_random) (ulid_of g.last_time fresh) ≡ less)
unfolding new increment_random
new-wrapped g now t slow after fresh hg bytes full early hs above = (
  issued_late (Bool-cases (now == g.last_time)),
  λ h.
      compare_ulid-full g.last_random fresh (increment_bytes-full g.last_random hg.bytes full) bytes
        (sym (compare_ulid-append (put_be 6 g.last_time) g.last_random fresh) ∙ h),
)
  where
    waited :
        wait g.last_time (slow ++ t ∷ after) fresh
        ≡ some (record { last_time = t; last_random = fresh })
    waited = wait-append g.last_time t slow after fresh hs above

    issued_late :
        (((now == g.last_time) ≡ true) ⊎ ((now == g.last_time) ≡ false))
        → new g now (slow ++ t ∷ after) fresh
          ≡ some (ulid_of g.last_time fresh, record { last_time = t; last_random = fresh })
    issued_late (inl same) =
        let equal_times : now ≡ g.last_time = ground arith in rw (same, full, waited, equal_times)
    issued_late (inr other) =
        let past : ltb now g.last_time ≡ true = ground arith in rw (other, past, full, waited)
