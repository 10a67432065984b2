-- ===== src/Ulid/Order.antt =====
-- internal/ulid/ulid.go: the ULIDs of one Generator in the order they are issued.
use scrap.Common.{
  ℕ, zero, suc, ◌+◌, ◌/◌, ◌%◌, ◌^◌, ◌<◌, ◌≤◌, ◌≡◌, refl, ap, ◌∙◌, arith, Bool, true, false, some,
  List, [], ◌∷◌, ◌++◌, append_assoc, ltb, ltb→lt, lt→ltb, le→ltb_false, ◌==◌, if◌then◌else◌, length,
  All, Bool-cases, inl, inr,
}
use scrap.Common.Bytes.{put_be}
use scrap.Ulid.{less, compare_ulid, Generator, increment_bytes, increment_random, ulid_of, new}

ltb_irrefl : (a : ℕ) → ltb a a ≡ false
ltb_irrefl a = le→ltb_false a a (omega arith)

pub compare_ulid-append :
    (zs xs ys : List ℕ) → compare_ulid (zs ++ xs) (zs ++ ys) ≡ compare_ulid xs ys
unfolding compare_ulid
compare_ulid-append [] xs ys = refl
compare_ulid-append (z ∷ zs) xs ys = rw (ltb_irrefl z, compare_ulid-append zs xs ys)

compare_ulid-first : (x y : ℕ) (xs ys : List ℕ) → x < y → compare_ulid (x ∷ xs) (y ∷ ys) ≡ less
unfolding compare_ulid
compare_ulid-first x y xs ys h = rw (lt→ltb x y h)

-- A later time sorts after an earlier one, whatever follows.
compare_ulid-put_be :
    (w m n : ℕ) (xs ys : List ℕ)
    → n < 256 ^ w
    → m < n
    → compare_ulid (put_be w m ++ xs) (put_be w n ++ ys) ≡ less
compare_ulid-put_be zero m n xs ys small h = ground arith
compare_ulid-put_be (suc w) m n xs ys small h =
    let upper : n / 256 < 256 ^ w = omega arith in
    let before = put_be w (m / 256) in
    let after = put_be w (n / 256) in
    let digits : compare_ulid (before ++ m % 256 ∷ xs) (after ++ n % 256 ∷ ys) ≡ less =
      elim (Bool-cases (ltb (m / 256) (n / 256))) [
        | inl apart ↦
            compare_ulid-put_be w (m / 256) (n / 256) (m % 256 ∷ xs) (n % 256 ∷ ys) upper
              (ltb→lt (m / 256) (n / 256) apart)
        | inr together ↦
            let same : m / 256 ≡ n / 256 = ground arith in
            let last : m % 256 < n % 256 = omega (arith, same) in
            ap (λ k. compare_ulid (put_be w k ++ m % 256 ∷ xs) (after ++ n % 256 ∷ ys)) same
            ∙ (compare_ulid-append after (m % 256 ∷ xs) (n % 256 ∷ ys)
                ∙ compare_ulid-first (m % 256) (n % 256) xs ys last)
      ] in
    rw (append_assoc before (m % 256 ∷ []) xs, append_assoc after (n % 256 ∷ []) ys, digits)

compare_ulid-increment_bytes :
    (xs : List ℕ)
    → All (λ b. b < 256) xs
    → (increment_bytes xs).1 ≡ false
    → compare_ulid xs (increment_bytes xs).0 ≡ less
unfolding increment_bytes
compare_ulid-increment_bytes [] hs h = cc
compare_ulid-increment_bytes (x ∷ xs) hs h = elim (Bool-cases (increment_bytes xs).1) [
  | inl carry ↦
      let low : x < 256 = hs.0 in
      let some_left : ((x + 1) % 256 == 0) ≡ false = ground arith in
      let above : x < (x + 1) % 256 = ground arith in
      rw (carry, compare_ulid-first x ((x + 1) % 256) xs (increment_bytes xs).0 above)
  | inr done ↦ rw (
    done,
    compare_ulid-append (x ∷ []) xs (increment_bytes xs).0,
    compare_ulid-increment_bytes xs hs.1 done,
  )
]

if-small :
    (b : Bool) (xs ys : List ℕ)
    → All (λ b. b < 256) xs
    → All (λ b. b < 256) ys
    → All (λ b. b < 256) (if b then xs else ys)
if-small true xs ys hx hy = hx
if-small false xs ys hx hy = hy

increment_bytes-small :
    (xs : List ℕ) → All (λ b. b < 256) xs → All (λ b. b < 256) (increment_bytes xs).0
unfolding increment_bytes
increment_bytes-small [] hs = tt
increment_bytes-small (x ∷ xs) hs =
    let rest = increment_bytes-small xs hs.1 in
    if-small (increment_bytes xs).1 ((x + 1) % 256 ∷ (increment_bytes xs).0)
      (x ∷ (increment_bytes xs).0) (omega arith, rest) (hs.0, rest)

length-increment_bytes : (xs : List ℕ) → length (increment_bytes xs).0 ≡ length xs
unfolding increment_bytes
length-increment_bytes [] = refl
length-increment_bytes (x ∷ xs) = elim (Bool-cases (increment_bytes xs).1) [
  | inl carry ↦ rw (carry, length-increment_bytes xs)
  | inr done ↦ rw (done, length-increment_bytes xs)
]

-- A Generator whose bytes are bytes, with a time of 48 bits.
pub record IsGenerator (g : Generator) : Type 0 where
  pub time : g.last_time < 2 ^ 48
  pub size : length g.last_random ≡ 10
  pub bytes : All (λ b. b < 256) g.last_random

-- The ULID that is issued is the Generator's state afterwards, and it sorts after the state before.
pub record IsAfter (g : Generator) (next : List ℕ × Generator) : Type 0 where
  pub state : next.0 ≡ ulid_of next.1.last_time next.1.last_random
  pub above : compare_ulid (ulid_of g.last_time g.last_random) next.0 ≡ less
  pub kept : IsGenerator next.1

IsGenerator-IsAfter :
    (g : Generator)
    → IsGenerator g
    → (increment_bytes g.last_random).1 ≡ false
    → IsAfter g (
      ulid_of g.last_time (increment_bytes g.last_random).0,
      record g { last_random = (increment_bytes g.last_random).0 },
    )
IsGenerator-IsAfter g hg room = record {
  state = refl;
  above =
      compare_ulid-append (put_be 6 g.last_time) g.last_random (increment_bytes g.last_random).0
      ∙ compare_ulid-increment_bytes g.last_random hg.bytes room;
  kept = record {
    time = hg.time;
    size = length-increment_bytes g.last_random ∙ hg.size;
    bytes = increment_bytes-small g.last_random hg.bytes;
  };
}

-- At any reading of the clock, one in the past included, the ULID that is issued sorts after the
-- Generator's last one and is its next state, with a time of 48 bits and ten fresh bytes, unless the
-- clock has not advanced and the random bytes are all used up.
pub new-IsAfter :
    (g : Generator) (now : ℕ) (later fresh : List ℕ)
    → IsGenerator g
    → now < 2 ^ 48
    → length fresh ≡ 10
    → All (λ b. b < 256) fresh
    → (now ≤ g.last_time → (increment_bytes g.last_random).1 ≡ false)
    → (next : List ℕ × Generator) × (new g now later fresh ≡ some next) × IsAfter g next
unfolding new increment_random
new-IsAfter g now later fresh hg low size bytes room = elim (Bool-cases (now == g.last_time)) [
  | inl same ↦
      let equal_times : now ≡ g.last_time = ground arith in
      (
        (
          ulid_of g.last_time (increment_bytes g.last_random).0,
          record g { last_random = (increment_bytes g.last_random).0 },
        ),
        rw (same, room (omega arith), equal_times),
        IsGenerator-IsAfter g hg (room (omega arith)),
      )
  | inr other ↦ elim (Bool-cases (ltb now g.last_time)) [
    | inl past ↦
        let early : now ≤ g.last_time = ground arith in
        (
          (
            ulid_of g.last_time (increment_bytes g.last_random).0,
            record g { last_random = (increment_bytes g.last_random).0 },
          ),
          rw (other, past, room early),
          IsGenerator-IsAfter g hg (room early),
        )
    | inr future ↦
        let above : g.last_time < now = ground arith in
        (
          (ulid_of now fresh, record { last_time = now; last_random = fresh }),
          rw (other, future),
          record {
            state = refl;
            above = compare_ulid-put_be 6 g.last_time now g.last_random fresh low above;
            kept = record { time = low; size = size; bytes = bytes };
          },
        )
  ]
]
