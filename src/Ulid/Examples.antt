-- ===== src/Ulid/Examples.antt =====
-- internal/ulid/ulid.go: a ULID and two Generators.
use scrap.Common.Result.{ok}
use scrap.Common.{ℕ, take, ◌<◌, ◌≡◌, refl, arith, true, false, some, List, [], ◌∷◌, All}
use scrap.Ulid.{
  text_values, encode_char, Generator, less, compare_ulid, increment_bytes, ulid_of, new, parse,
  ulid_string,
}
use scrap.Ulid.Text.{IsUlid, sixteen, parse-ulid_string}
use scrap.Ulid.Order.{IsGenerator, IsAfter, new-IsAfter}
use scrap.Ulid.Wrapped.{new-wrapped}

abbrev some_ulid : List ℕ
some_ulid = 1 ∷ 146 ∷ 7 ∷ 255 ∷ 0 ∷ 64 ∷ 9 ∷ 8 ∷ 7 ∷ 6 ∷ 5 ∷ 4 ∷ 3 ∷ 2 ∷ 1 ∷ 200 ∷ []

some_ulid-IsUlid : IsUlid some_ulid
some_ulid-IsUlid = sixteen 1 146 7 255 0 64 9 8 7 6 5 4 3 2 1 200 (
  omega arith,
  (
    omega arith,
    (
      omega arith,
      (
        omega arith,
        (
          omega arith,
          (
            omega arith,
            (
              omega arith,
              (
                omega arith,
                (
                  omega arith,
                  (
                    omega arith,
                    (
                      omega arith,
                      (omega arith, (omega arith, (omega arith, (omega arith, (omega arith, tt))))),
                    ),
                  ),
                ),
              ),
            ),
          ),
        ),
      ),
    ),
  ),
)

parse-ulid_string_example : parse (ulid_string some_ulid) ≡ ok some_ulid
parse-ulid_string_example = parse-ulid_string some_ulid some_ulid-IsUlid

-- It starts with "01J8".
ulid_string_first : take 4 (ulid_string some_ulid) ≡ 48 ∷ 49 ∷ 74 ∷ 56 ∷ []
unfolding ulid_string text_values encode_char
ulid_string_first = refl

abbrev fresh_bytes : List ℕ
fresh_bytes = 10 ∷ 20 ∷ 30 ∷ 40 ∷ 50 ∷ 60 ∷ 70 ∷ 80 ∷ 90 ∷ 255 ∷ []

fresh_bytes-IsSmall : All (λ b. b < 256) fresh_bytes
fresh_bytes-IsSmall = (
  omega arith,
  (
    omega arith,
    (
      omega arith,
      (
        omega arith,
        (
          omega arith,
          (omega arith, (omega arith, (omega arith, (omega arith, (omega arith, tt))))),
        ),
      ),
    ),
  ),
)

abbrev running : Generator
running = record { last_time = 1700000000000; last_random = fresh_bytes }

running-IsGenerator : IsGenerator running
running-IsGenerator = record { time = omega arith; size = refl; bytes = fresh_bytes-IsSmall }

running_room : (increment_bytes fresh_bytes).1 ≡ false
unfolding increment_bytes
running_room = refl

new-IsAfter_example :
    (next : List ℕ × Generator) × (new running 1699999999999 [] fresh_bytes ≡ some next)
    × IsAfter running next
new-IsAfter_example =
    new-IsAfter running 1699999999999 [] fresh_bytes running-IsGenerator (omega arith) refl
      fresh_bytes-IsSmall (λ early. running_room)

abbrev full_bytes : List ℕ
full_bytes = 255 ∷ 255 ∷ 255 ∷ 255 ∷ 255 ∷ 255 ∷ 255 ∷ 255 ∷ 255 ∷ 255 ∷ []

abbrev used_up : Generator
used_up = record { last_time = 1700000000000; last_random = full_bytes }

full_bytes-IsSmall : All (λ b. b < 256) full_bytes
full_bytes-IsSmall = (
  omega arith,
  (
    omega arith,
    (
      omega arith,
      (
        omega arith,
        (
          omega arith,
          (omega arith, (omega arith, (omega arith, (omega arith, (omega arith, tt))))),
        ),
      ),
    ),
  ),
)

used_up_full : (increment_bytes full_bytes).1 ≡ true
unfolding increment_bytes
used_up_full = refl

new-wrapped_example :
    (new used_up 1700000000000 (1700000000000 ∷ 1700000000001 ∷ []) fresh_bytes
      ≡ some (
        ulid_of 1700000000000 fresh_bytes,
        record { last_time = 1700000000001; last_random = fresh_bytes },
      ))
    × ¬ (compare_ulid (ulid_of 1700000000000 full_bytes) (ulid_of 1700000000000 fresh_bytes) ≡ less)
new-wrapped_example =
    new-wrapped used_up 1700000000000 1700000000001 (1700000000000 ∷ []) [] fresh_bytes
      (record { time = omega arith; size = refl; bytes = full_bytes-IsSmall }) fresh_bytes-IsSmall
      used_up_full (omega arith) (omega arith, tt) (omega arith)
