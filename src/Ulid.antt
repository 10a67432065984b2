-- ===== src/Ulid.antt =====
-- internal/ulid/ulid.go: identifiers that sort by time. A ULID is the list of its bytes, and a
-- string the list of its characters' codes.
pub mod Text
pub mod Order
pub mod Wrapped
mod Examples
use scrap.Common.{
  ℕ, zero, suc, ◌+◌, ◌*◌, ◌/◌, ◌%◌, ◌^◌, Bool, true, false, not, ◌&&◌, Option, none, some, List, [],
  ◌∷◌, ◌++◌, ltb, ◌==◌, if◌then◌else◌, length,
}
use scrap.Common.Bytes.{put_be, byte_at}
use scrap.Common.Result.{Result, ok, err, ◌>>=◌}

pub data UlidError : Type 0 where
  invalid_length : UlidError
  invalid_character : UlidError

pub data Comparison : Type 0 where
  less : Comparison
  equal : Comparison
  greater : Comparison

-- `Compare`, whose results -1, 0 and 1 these are.
unfoldable pub compare_ulid : List ℕ → List ℕ → Comparison
compare_ulid [] ys = equal
compare_ulid (x ∷ xs) [] = equal
compare_ulid (x ∷ xs) (y ∷ ys) =
    if ltb x y then less else if ltb y x then greater else compare_ulid xs ys

-- "0123456789ABCDEFGHJKMNPQRSTVWXYZ"
abbrev pub encoding_chars : List ℕ
encoding_chars =
    48 ∷ 49 ∷ 50 ∷ 51 ∷ 52 ∷ 53 ∷ 54 ∷ 55 ∷ 56 ∷ 57 ∷ 65 ∷ 66 ∷ 67 ∷ 68 ∷ 69 ∷ 70 ∷ 71 ∷ 72 ∷ 74
    ∷ 75 ∷ 77 ∷ 78 ∷ 80 ∷ 81 ∷ 82 ∷ 83 ∷ 84 ∷ 86 ∷ 87 ∷ 88 ∷ 89 ∷ 90 ∷ []

-- `decodeTable[c]`, by the loop that fills it: a letter is there in both cases.
abbrev pub is_char : ℕ → ℕ → Bool
is_char c char = if c == char then true else if ltb 64 char then c == char + 32 else false

abbrev pub decode_from : ℕ → List ℕ → ℕ → Option ℕ
decode_from i [] c = none
decode_from i (char ∷ chars) c = if is_char c char then some i else decode_from (suc i) chars c

unfoldable pub decode_char : ℕ → Option ℕ
decode_char c = decode_from 0 encoding_chars c

unfoldable pub encode_char : ℕ → ℕ
encode_char v = byte_at v encoding_chars

-- The values of the eight characters for five bytes, and back. The first byte has two characters
-- and the other fifteen come in fives. An `|` of bits that are apart is a sum.
abbrev pub five_bytes : ℕ → ℕ → ℕ → ℕ → ℕ → List ℕ
five_bytes a b c d e =
    a / 8
    ∷ (a % 8 * 4 + b / 64)
    ∷ b / 2 % 32
    ∷ (b % 2 * 16 + c / 16)
    ∷ (c % 16 * 2 + d / 128)
    ∷ d / 4 % 32
    ∷ (d % 4 * 8 + e / 32)
    ∷ e % 32
    ∷ []

abbrev pub from_five : ℕ → ℕ → ℕ → ℕ → ℕ → ℕ → ℕ → ℕ → List ℕ
from_five a b c d e f g h =
    (a * 8 % 256 + b / 4)
    ∷ (b * 64 % 256 + c * 2 + d / 16)
    ∷ (d * 16 % 256 + e / 2)
    ∷ (e * 128 % 256 + f * 4 + g / 8)
    ∷ (g * 32 % 256 + h)
    ∷ []

-- The values of the characters of `String`; a ULID has sixteen bytes.
unfoldable pub text_values : List ℕ → List ℕ
text_values
      (u0 ∷ u1 ∷ u2 ∷ u3 ∷ u4 ∷ u5 ∷ u6 ∷ u7 ∷ u8 ∷ u9 ∷ u10 ∷ u11 ∷ u12 ∷ u13 ∷ u14 ∷ u15 ∷ []) =
    u0 / 32
    ∷ u0 % 32
    ∷ (five_bytes u1 u2 u3 u4 u5 ++ (five_bytes u6 u7 u8 u9 u10 ++ five_bytes u11 u12 u13 u14 u15))
text_values bytes = []

abbrev pub encode_chars : List ℕ → List ℕ
encode_chars [] = []
encode_chars (v ∷ vs) = encode_char v ∷ encode_chars vs

unfoldable pub ulid_string : List ℕ → List ℕ
ulid_string u = encode_chars (text_values u)

abbrev pub decode_next : Option ℕ → Result UlidError (List ℕ) → Result UlidError (List ℕ)
decode_next none rest = err invalid_character
decode_next (some v) rest = rest >>= (λ vs. ok (v ∷ vs))

abbrev pub decode_chars : List ℕ → Result UlidError (List ℕ)
decode_chars [] = ok []
decode_chars (c ∷ cs) = decode_next (decode_char c) (decode_chars cs)

-- The bytes of the values of 26 characters.
unfoldable pub value_bytes : List ℕ → List ℕ
value_bytes
      (d0 ∷ d1 ∷ a ∷ b ∷ c ∷ d ∷ e ∷ f ∷ g ∷ h ∷ a' ∷ b' ∷ c' ∷ d' ∷ e' ∷ f' ∷ g' ∷ h' ∷ a'' ∷ b''
        ∷ c'' ∷ d'' ∷ e'' ∷ f'' ∷ g'' ∷ h'' ∷ []) =
    (d0 * 32 % 256 + d1)
    ∷ (from_five a b c d e f g h
        ++ (from_five a' b' c' d' e' f' g' h' ++ from_five a'' b'' c'' d'' e'' f'' g'' h''))
value_bytes values = []

unfoldable pub parse : List ℕ → Result UlidError (List ℕ)
parse s =
    if not (length s == 26)
    then err invalid_length
    else decode_chars s >>= (λ values. ok (value_bytes values))

pub record Generator : Type 0 where
  pub last_time : ℕ
  pub last_random : List ℕ

-- The loop of `incrementRandom` from the last byte on, and whether all bytes wrapped.
unfoldable pub increment_bytes : List ℕ → List ℕ × Bool
increment_bytes [] = ([], true)
increment_bytes (b ∷ bs) =
    let (rest, carry) = increment_bytes bs in
    let next = (b + 1) % 256 in (if carry then next ∷ rest else b ∷ rest, carry && next == 0)

-- The wait for a later millisecond, in readings of the clock; none if there are too few.
abbrev pub wait : ℕ → List ℕ → List ℕ → Option Generator
wait last_time [] fresh = none
wait last_time (now ∷ later) fresh =
    if ltb last_time now
    then some (record { last_time = now; last_random = fresh })
    else wait last_time later fresh

unfoldable pub increment_random : Generator → List ℕ → List ℕ → Option Generator
increment_random g later fresh =
    if (increment_bytes g.last_random).1
    then wait g.last_time later fresh
    else some (record g { last_random = (increment_bytes g.last_random).0 })

abbrev pub ulid_of : ℕ → List ℕ → List ℕ
ulid_of now random = put_be 6 now ++ random

-- The ULID of a time, from the Generator that is left.
abbrev pub issued : ℕ → Option Generator → Option (List ℕ × Generator)
issued now none = none
issued now (some g) = some (ulid_of now g.last_random, g)

-- `Generator.New`, with the readings of the clock, the first one apart, and the ten bytes that
-- `rand.Read` gives if it is called.
unfoldable pub new : Generator → ℕ → List ℕ → List ℕ → Option (List ℕ × Generator)
new g now later fresh =
    if now == g.last_time
    then issued now (increment_random g later fresh)
    else if ltb now g.last_time
    then issued g.last_time (increment_random g later fresh)
    else issued now (some (record { last_time = now; last_random = fresh }))
