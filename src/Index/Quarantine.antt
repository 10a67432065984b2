-- ===== src/Index/Quarantine.antt =====
-- internal/index/content_quarantine.go: the Documents in which a scan found something. A string is
-- the list of its bytes, and the errors of a field are one, without the field's name.
pub mod RoundTrip
pub mod Reads
mod Examples
use scrap.Common.{
  ℕ, zero, suc, ◌+◌, ◌-◌, ◌^◌, Bool, true, false, not, ◌&&◌, ◌||◌, Option, none, some, List, [],
  ◌∷◌, ◌++◌, ltb, leb, ◌==◌, if◌then◌else◌, length, drop,
}
use scrap.Common.Int.{ℤ, pos, ltb_ℤ, leb_ℤ}
use scrap.Common.Bytes.{put_le, get_le, slice, byte_at}
use scrap.Common.Result.{Result, ok, err, either, ◌>>=◌, ◌>>◌, fail_if}
use scrap.Block.Index.{to_uint64}
use scrap.Index.Pebble.{Pebble, PebbleError, not_found}

pub data QuarantineError : Type 0 where
  content_quarantine_not_found : QuarantineError
  invalid_content_quarantine : QuarantineError
  pebble_error : PebbleError → QuarantineError

pub record ContentQuarantine : Type 0 where
  pub transaction_id : List ℕ
  pub document_name : List ℕ
  pub block_id : ℕ
  pub detected_at_us : ℤ
  pub confirmed_at_us : ℤ
  pub scan_type : ℕ
  pub reason : ℕ

abbrev pub max_unix_micro : ℤ
max_unix_micro = pos 253402300799999999

-- `unicode.IsControl` of a rune of the string: below 32 or from 127 to 159, where from 128 on the
-- rune is the byte 194 and one more.
unfoldable pub has_control : List ℕ → Bool
has_control [] = false
has_control (b ∷ bs) =
    let rest = has_control bs in
    if ltb b 32 || b == 127
    then true
    else if b == 194 && (leb 128 (byte_at 0 bs) && leb (byte_at 0 bs) 159)
    then true
    else rest

unfoldable pub validate_text : ℕ → List ℕ → Result QuarantineError (Unit {0})
validate_text max_bytes value = do
  fail_if (length value == 0) invalid_content_quarantine
  fail_if (ltb max_bytes (length value)) invalid_content_quarantine
  fail_if (has_control value) invalid_content_quarantine

unfoldable pub validate_identity : List ℕ → List ℕ → Result QuarantineError (Unit {0})
validate_identity tx_id doc_name = validate_text 256 tx_id >> validate_text 512 doc_name

abbrev pub valid_scan_type : ℕ → Bool
valid_scan_type scan_type = scan_type == 1 || scan_type == 2

unfoldable pub validate_content_quarantine : ContentQuarantine → Result QuarantineError (Unit {0})
validate_content_quarantine q = do
  validate_identity q.transaction_id q.document_name
  fail_if (leb_ℤ q.detected_at_us (pos 0)) invalid_content_quarantine
  fail_if (ltb_ℤ max_unix_micro q.detected_at_us) invalid_content_quarantine
  fail_if (ltb_ℤ q.confirmed_at_us (pos 0)) invalid_content_quarantine
  fail_if (ltb_ℤ max_unix_micro q.confirmed_at_us) invalid_content_quarantine
  fail_if (not (valid_scan_type q.scan_type)) invalid_content_quarantine
  fail_if (not (q.reason == 1)) invalid_content_quarantine

-- The bytes of "q\x01".
abbrev pub content_quarantine_prefix : List ℕ
content_quarantine_prefix = 113 ∷ 1 ∷ []

abbrev pub key_bytes : List ℕ → List ℕ → List ℕ
key_bytes tx_id doc_name = content_quarantine_prefix ++ (tx_id ++ 0 ∷ doc_name)

unfoldable pub content_quarantine_key : List ℕ → List ℕ → Result QuarantineError (List ℕ)
content_quarantine_key tx_id doc_name = do
  validate_identity tx_id doc_name
  ok (key_bytes tx_id doc_name)

-- The bytes before the first zero and those after it.
abbrev pub split_at_zero : List ℕ → Option (List ℕ × List ℕ)
split_at_zero [] = none
split_at_zero (b ∷ bs) =
    let rest = split_at_zero bs in
    if b == 0
    then some ([], bs)
    else elim rest [ none ↦ none | some parts ↦ some (b ∷ parts.0, parts.1) ]

abbrev pub split_parts : Option (List ℕ × List ℕ) → Result QuarantineError (List ℕ × List ℕ)
split_parts none = err invalid_content_quarantine
split_parts (some parts) = do validate_identity parts.0 parts.1; ok parts

unfoldable pub decode_content_quarantine_key : List ℕ → Result QuarantineError (List ℕ × List ℕ)
decode_content_quarantine_key key =
    if byte_at 0 key == 113 && byte_at 1 key == 1
    then split_parts (split_at_zero (drop 2 key))
    else err invalid_content_quarantine

unfoldable pub encode_content_quarantine : ContentQuarantine → List ℕ
encode_content_quarantine q =
    2
    ∷ (put_le 8 q.block_id
        ++ (put_le 8 (to_uint64 q.detected_at_us)
            ++ (q.scan_type ∷ q.reason ∷ put_le 8 (to_uint64 q.confirmed_at_us))))

abbrev pub read_int64 : List ℕ → Result QuarantineError ℤ
read_int64 buf =
    let raw = get_le buf in
    if ltb (2 ^ 63 - 1) raw then err invalid_content_quarantine else ok (pos raw)

unfoldable pub version_for_decode : List ℕ → Result QuarantineError ℕ
version_for_decode val =
    if length val == 0
    then err invalid_content_quarantine
    else if byte_at 0 val == 1
    then fail_if (not (length val == 19)) invalid_content_quarantine >> ok 1
    else if byte_at 0 val == 2
    then fail_if (not (length val == 27)) invalid_content_quarantine >> ok 2
    else err invalid_content_quarantine

abbrev pub decode_confirmed_at : ℕ → List ℕ → Result QuarantineError ℤ
decode_confirmed_at version val = if version == 2 then read_int64 (slice 19 8 val) else ok (pos 0)

unfoldable pub decode_content_quarantine :
    List ℕ → List ℕ → Result QuarantineError ContentQuarantine
decode_content_quarantine key val = do
  parts ← decode_content_quarantine_key key
  version ← version_for_decode val
  detected_at ← read_int64 (slice 9 8 val)
  confirmed_at ← decode_confirmed_at version val
  let q : ContentQuarantine = record {
    transaction_id = parts.0;
    document_name = parts.1;
    block_id = get_le (slice 1 8 val);
    detected_at_us = detected_at;
    confirmed_at_us = confirmed_at;
    scan_type = byte_at 17 val;
    reason = byte_at 18 val;
  }
  validate_content_quarantine q
  ok q

-- A write that may fail, in which case the database is the old one.
abbrev pub write : {D : Type 0} → D → Result PebbleError D → D × Result QuarantineError (Unit {0})
write d written = either written (λ e. (d, err (pebble_error e))) (λ next. (next, ok tt))

abbrev pub get_error : PebbleError → QuarantineError
get_error not_found = content_quarantine_not_found
get_error e = pebble_error e

-- A record that is not there was released before, which is no error.
abbrev pub missing : {D : Type 0} → D → QuarantineError → D × Result QuarantineError (Unit {0})
missing d content_quarantine_not_found = (d, ok tt)
missing d e = (d, err e)

module _ {D : Type 0} (p : Pebble D) where
  unfoldable pub put_content_quarantine :
      D → ContentQuarantine → D × Result QuarantineError (Unit {0})
  put_content_quarantine d q =
      either (content_quarantine_key q.transaction_id q.document_name) (λ e. (d, err e))
        (λ key.
          either (validate_content_quarantine q) (λ e. (d, err e))
            (λ valid. write d (p.set d key (encode_content_quarantine q))))

  unfoldable pub get_content_quarantine :
      D → List ℕ → List ℕ → Result QuarantineError ContentQuarantine
  get_content_quarantine d tx_id doc_name = do
    key ← content_quarantine_key tx_id doc_name
    either (p.get d key) (λ e. err (get_error e)) (decode_content_quarantine key)

  unfoldable pub confirm_content_quarantine :
      D → List ℕ → List ℕ → ℤ → D × Result QuarantineError (Unit {0})
  confirm_content_quarantine d tx_id doc_name confirmed_at =
      if leb_ℤ confirmed_at (pos 0)
      then (d, err invalid_content_quarantine)
      else either (get_content_quarantine d tx_id doc_name) (missing d) (λ q.
        if ltb_ℤ (pos 0) q.confirmed_at_us
        then (d, ok tt)
        else put_content_quarantine d (record q { confirmed_at_us = confirmed_at }))

  unfoldable pub release_content_quarantine :
      D → List ℕ → List ℕ → D × Result QuarantineError (Unit {0})
  release_content_quarantine d tx_id doc_name =
      either (content_quarantine_key tx_id doc_name) (λ e. (d, err e))
        (λ key.
          either (get_content_quarantine d tx_id doc_name) (missing d)
            (λ q. write d (p.delete d key)))
