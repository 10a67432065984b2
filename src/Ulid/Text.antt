-- ===== src/Ulid/Text.antt =====
-- internal/ulid/ulid.go: a ULID that is written and parsed.
use scrap.Common.{
  ℕ, zero, suc, ◌+◌, ◌*◌, ◌/◌, ◌%◌, ◌<◌, ◌≡◌, refl, ap, ◌∙◌, arith, Bool, true, false, ◌&&◌, Option,
  none, some, List, [], ◌∷◌, ◌++◌, ◌==◌, ==_iff, length, All, All-append, and-split, Bool-cases,
  inl, inr,
}
use scrap.Common.Result.{ok}
use scrap.Ulid.{
  decode_char, encode_char, five_bytes, from_five, text_values, encode_chars, ulid_string,
  decode_chars, value_bytes, parse,
}

abbrev decodes : ℕ → Bool
decodes v = elim (decode_char (encode_char v)) [ none ↦ false | some w ↦ w == v ]

abbrev all_below : ℕ → (ℕ → Bool) → Bool
all_below zero test = true
all_below (suc n) test = test n && all_below n test

all_below→ : (n : ℕ) (test : ℕ → Bool) → all_below n test ≡ true → (v : ℕ) → v < n → test v ≡ true
all_below→ zero test h v low = ground arith
all_below→ (suc n) test h v low =
    let (here, rest) = and-split (test n) (all_below n test) h in
    elim (Bool-cases (v == n)) [
      | inl same ↦ ap test ((==_iff v n).0 same) ∙ here
      | inr other ↦ all_below→ n test rest v (ground arith)
    ]

decode_char-encode_char : (v : ℕ) → v < 32 → decode_char (encode_char v) ≡ some v
unfolding decode_char encode_char
decode_char-encode_char v low = at (decode_char (encode_char v)) (all_below→ 32 decodes refl v low)
  where
    at : (o : Option ℕ) → elim o [ none ↦ false | some w ↦ w == v ] ≡ true → o ≡ some v
    at none h = cc
    at (some w) h = ap some ((==_iff w v).0 h)

decode_chars-encode_chars :
    (vs : List ℕ) → All (λ v. v < 32) vs → decode_chars (encode_chars vs) ≡ ok vs
decode_chars-encode_chars [] hs = refl
decode_chars-encode_chars (v ∷ vs) hs =
    rw (decode_char-encode_char v hs.0, decode_chars-encode_chars vs hs.1)

length-encode_chars : (vs : List ℕ) → length (encode_chars vs) ≡ length vs
length-encode_chars [] = refl
length-encode_chars (v ∷ vs) = ap suc (length-encode_chars vs)

from_five-five_bytes :
    (a b c d e : ℕ)
    → a < 256
    → b < 256
    → c < 256
    → d < 256
    → e < 256
    → from_five
        (a / 8)
        (a % 8 * 4 + b / 64)
        (b / 2 % 32)
        (b % 2 * 16 + c / 16)
        (c % 16 * 2 + d / 128)
        (d / 4 % 32)
        (d % 4 * 8 + e / 32)
        (e % 32)
      ≡ a ∷ b ∷ c ∷ d ∷ e ∷ []
from_five-five_bytes a b c d e ha hb hc hd he =
    let first : a / 8 * 8 % 256 + (a % 8 * 4 + b / 64) / 4 ≡ a = omega arith in
    let second : (a % 8 * 4 + b / 64) * 64 % 256 + b / 2 % 32 * 2 + (b % 2 * 16 + c / 16) / 16 ≡ b =
      omega arith in
    let third : (b % 2 * 16 + c / 16) * 16 % 256 + (c % 16 * 2 + d / 128) / 2 ≡ c = omega arith in
    let fourth : (c % 16 * 2 + d / 128) * 128 % 256 + d / 4 % 32 * 4 + (d % 4 * 8 + e / 32) / 8
        ≡ d =
      omega arith in
    let fifth : (d % 4 * 8 + e / 32) * 32 % 256 + e % 32 ≡ e = omega arith in
    rw (first, second, third, fourth, fifth)

five_bytes-small :
    (a b c d e : ℕ)
    → a < 256
    → b < 256
    → c < 256
    → d < 256
    → e < 256
    → All (λ v. v < 32) (five_bytes a b c d e)
five_bytes-small a b c d e ha hb hc hd he = (
  omega arith,
  (
    omega arith,
    (omega arith, (omega arith, (omega arith, (omega arith, (omega arith, (omega arith, tt)))))),
  ),
)

joined :
    {b b' : ℕ} {xs xs' ys ys' zs zs' : List ℕ}
    → b ≡ b'
    → xs ≡ xs'
    → ys ≡ ys'
    → zs ≡ zs'
    → b ∷ (xs ++ (ys ++ zs)) ≡ b' ∷ (xs' ++ (ys' ++ zs'))
joined h hx hy hz = rw (h, hx, hy, hz)

-- A ULID: sixteen bytes.
pub data IsUlid : List ℕ → Type 0 where
  sixteen :
      (u0 u1 u2 u3 u4 u5 u6 u7 u8 u9 u10 u11 u12 u13 u14 u15 : ℕ)
      → All
          (λ b. b < 256)
          (u0 ∷ u1 ∷ u2 ∷ u3 ∷ u4 ∷ u5 ∷ u6 ∷ u7 ∷ u8 ∷ u9 ∷ u10 ∷ u11 ∷ u12 ∷ u13 ∷ u14 ∷ u15 ∷ [])
      → IsUlid
          (u0 ∷ u1 ∷ u2 ∷ u3 ∷ u4 ∷ u5 ∷ u6 ∷ u7 ∷ u8 ∷ u9 ∷ u10 ∷ u11 ∷ u12 ∷ u13 ∷ u14 ∷ u15 ∷ [])

text_values-small :
    (u : List ℕ) → IsUlid u → (length (text_values u) ≡ 26) × All (λ v. v < 32) (text_values u)
unfolding text_values
text_values-small _ (sixteen u0 u1 u2 u3 u4 u5 u6 u7 u8 u9 u10 u11 u12 u13 u14 u15 h) =
    let h0 : u0 < 256 = h.0 in
    (
      refl,
      (
        omega arith,
        (
          omega arith,
          All-append (λ v. v < 32) (five_bytes u1 u2 u3 u4 u5)
              (five_bytes u6 u7 u8 u9 u10 ++ five_bytes u11 u12 u13 u14 u15)
              (five_bytes-small u1 u2 u3 u4 u5 h.1.0 h.1.1.0 h.1.1.1.0 h.1.1.1.1.0 h.1.1.1.1.1.0)
              (All-append (λ v. v < 32) (five_bytes u6 u7 u8 u9 u10)
                (five_bytes u11 u12 u13 u14 u15)
                (five_bytes-small u6 u7 u8 u9 u10 h.1.1.1.1.1.1.0 h.1.1.1.1.1.1.1.0
                  h.1.1.1.1.1.1.1.1.0 h.1.1.1.1.1.1.1.1.1.0 h.1.1.1.1.1.1.1.1.1.1.0)
                (five_bytes-small u11 u12 u13 u14 u15 h.1.1.1.1.1.1.1.1.1.1.1.0
                  h.1.1.1.1.1.1.1.1.1.1.1.1.0 h.1.1.1.1.1.1.1.1.1.1.1.1.1.0
                  h.1.1.1.1.1.1.1.1.1.1.1.1.1.1.0 h.1.1.1.1.1.1.1.1.1.1.1.1.1.1.1.0)),
        ),
      ),
    )

value_bytes-text_values : (u : List ℕ) → IsUlid u → value_bytes (text_values u) ≡ u
unfolding value_bytes text_values
value_bytes-text_values _ (sixteen u0 u1 u2 u3 u4 u5 u6 u7 u8 u9 u10 u11 u12 u13 u14 u15 h) =
    let h0 : u0 < 256 = h.0 in
    joined (omega arith)
      (from_five-five_bytes u1 u2 u3 u4 u5 h.1.0 h.1.1.0 h.1.1.1.0 h.1.1.1.1.0 h.1.1.1.1.1.0)
      (from_five-five_bytes u6 u7 u8 u9 u10 h.1.1.1.1.1.1.0 h.1.1.1.1.1.1.1.0 h.1.1.1.1.1.1.1.1.0
        h.1.1.1.1.1.1.1.1.1.0 h.1.1.1.1.1.1.1.1.1.1.0)
      (from_five-five_bytes u11 u12 u13 u14 u15 h.1.1.1.1.1.1.1.1.1.1.1.0
        h.1.1.1.1.1.1.1.1.1.1.1.1.0 h.1.1.1.1.1.1.1.1.1.1.1.1.1.0 h.1.1.1.1.1.1.1.1.1.1.1.1.1.1.0
        h.1.1.1.1.1.1.1.1.1.1.1.1.1.1.1.0)

-- The text of a ULID, sixteen bytes, is parsed as the ULID.
pub parse-ulid_string : (u : List ℕ) → IsUlid u → parse (ulid_string u) ≡ ok u
unfolding parse ulid_string
parse-ulid_string u h =
    let (size, small) = text_values-small u h in
    let total : length (encode_chars (text_values u)) ≡ 26 =
      length-encode_chars (text_values u) ∙ size in
    rw (total, decode_chars-encode_chars (text_values u) small, value_bytes-text_values u h)
