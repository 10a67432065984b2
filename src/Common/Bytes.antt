-- ===== src/Common/Bytes.antt =====
-- Bytes, as native numbers, and Go's `binary.LittleEndian` on them.
use Prim.Native.Nat.{ℕ, zero, suc, ◌+◌, ◌*◌, ◌/◌, ◌%◌, ◌^◌, ◌<◌}
use mathlib.Core.Path.{◌≡◌, refl, ap, ◌∙◌}
use mathlib.Core.List.{List, [], ◌∷◌, ◌++◌}
use native.Mathlib.Omega.{arith}
use mathlib.Core.Bool.{Bool, true, false, ◌&&◌}
use scrap.Common.Tests.{◌==◌, ==_refl}
use scrap.Common.Lists.{length, take, drop, length-append, take-append}

-- `PutUint16`, `PutUint32` and `PutUint64`, with the number of bytes.
abbrev pub put_le : ℕ → ℕ → List ℕ
put_le zero n = []
put_le (suc w) n = n % 256 ∷ put_le w (n / 256)

abbrev pub get_le : List ℕ → ℕ
get_le [] = 0
get_le (b ∷ bs) = b + 256 * get_le bs

-- `data[first:first+n]`
abbrev pub slice : ℕ → ℕ → List ℕ → List ℕ
slice first n bytes = take n (drop first bytes)

-- `data[n]`; every use is within the bytes, and past them this is 0.
abbrev pub byte_at : ℕ → List ℕ → ℕ
byte_at n [] = 0
byte_at zero (b ∷ bs) = b
byte_at (suc n) (b ∷ bs) = byte_at n bs

pub length-put_le : (w n : ℕ) → length (put_le w n) ≡ w
length-put_le zero n = refl
length-put_le (suc w) n = omega (arith, length-put_le w (n / 256))

pub get_le-put_le : (w n : ℕ) → n < 256 ^ w → get_le (put_le w n) ≡ n
get_le-put_le zero n h = omega arith
get_le-put_le (suc w) n h =
    let small : n / 256 < 256 ^ w = omega arith in omega (arith, get_le-put_le w (n / 256) small)

-- `a == b` of arrays, as lists.
abbrev pub same_bytes : List ℕ → List ℕ → Bool
same_bytes [] [] = true
same_bytes [] (b ∷ bs) = false
same_bytes (a ∷ xs) [] = false
same_bytes (a ∷ xs) (b ∷ bs) = a == b && same_bytes xs bs

pub same_bytes_refl : (xs : List ℕ) → same_bytes xs xs ≡ true
same_bytes_refl [] = refl
same_bytes_refl (x ∷ xs) = rw (==_refl x, same_bytes_refl xs)

pub same_bytes→eq : (xs ys : List ℕ) → same_bytes xs ys ≡ true → xs ≡ ys
same_bytes→eq [] [] h = refl
same_bytes→eq [] (y ∷ ys) h = cc
same_bytes→eq (x ∷ xs) [] h = cc
same_bytes→eq (x ∷ xs) (y ∷ ys) h =
    let first : x ≡ y = ground arith in
    let rest : same_bytes xs ys ≡ true = ground arith in cc (first, same_bytes→eq xs ys rest)

-- `PutUint64` of `binary.BigEndian`, and back.
abbrev pub put_be : ℕ → ℕ → List ℕ
put_be zero n = []
put_be (suc w) n = put_be w (n / 256) ++ n % 256 ∷ []

abbrev pub get_be_from : ℕ → List ℕ → ℕ
get_be_from n [] = n
get_be_from n (b ∷ bs) = get_be_from (n * 256 + b) bs

abbrev pub get_be : List ℕ → ℕ
get_be bytes = get_be_from 0 bytes

get_be_from-append :
    (n : ℕ) (bytes : List ℕ) (b : ℕ)
    → get_be_from n (bytes ++ b ∷ []) ≡ get_be_from n bytes * 256 + b
get_be_from-append n [] b = refl
get_be_from-append n (x ∷ bytes) b = get_be_from-append (n * 256 + x) bytes b

pub get_be-put_be : (w n : ℕ) → n < 256 ^ w → get_be (put_be w n) ≡ n
get_be-put_be zero n h = omega arith
get_be-put_be (suc w) n h =
    let small : n / 256 < 256 ^ w = omega arith in
    omega
      (arith, get_be_from-append 0 (put_be w (n / 256)) (n % 256), get_be-put_be w (n / 256) small)

pub length-put_be : (w n : ℕ) → length (put_be w n) ≡ w
length-put_be zero n = refl
length-put_be (suc w) n =
    omega (arith, length-append (put_be w (n / 256)) (n % 256 ∷ []), length-put_be w (n / 256))

-- The bytes at an offset, by what is left there.
pub slice-drop :
    (first : ℕ) (bytes xs rest : List ℕ)
    → drop first bytes ≡ xs ++ rest
    → slice first (length xs) bytes ≡ xs
slice-drop first bytes xs rest h = ap (take (length xs)) h ∙ take-append xs rest

pub drop-drop : (m n : ℕ) (xs : List ℕ) → drop (m + n) xs ≡ drop n (drop m xs)
drop-drop zero n xs = let same : 0 + n ≡ n = omega arith in ap (λ k. drop k xs) same
drop-drop (suc m) zero [] = let same : suc m + 0 ≡ suc m = omega arith in ap (λ k. drop k []) same
drop-drop (suc m) (suc n) [] =
    let same : suc m + suc n ≡ suc (m + suc n) = omega arith in ap (λ k. drop k []) same
drop-drop (suc m) n (x ∷ xs) =
    let same : suc m + n ≡ suc (m + n) = omega arith in
    ap (λ k. drop k (x ∷ xs)) same ∙ drop-drop m n xs

pub byte_at-drop : (n : ℕ) (bytes : List ℕ) → byte_at n bytes ≡ byte_at 0 (drop n bytes)
byte_at-drop zero bytes = refl
byte_at-drop (suc n) [] = refl
byte_at-drop (suc n) (b ∷ bytes) = byte_at-drop n bytes
