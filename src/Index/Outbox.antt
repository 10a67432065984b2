-- ===== src/Index/Outbox.antt =====
-- internal/index/upload_outbox.go: the uploads that are pending. An `int64` that was checked not to
-- be negative is written as its bits.
pub mod RoundTrip
use scrap.Common.{
  ℕ, suc, ◌+◌, ◌-◌, ◌^◌, Bool, true, false, not, ◌||◌, Option, none, some, List, [], ◌∷◌, ◌++◌, ltb,
  ◌==◌, if◌then◌else◌, length, drop,
}
use scrap.Common.Int.{ℤ, pos, ltb_ℤ}
use scrap.Common.Bytes.{put_le, get_le, put_be, get_be, slice, byte_at}
use scrap.Common.Result.{Result, ok, err, either, ◌>>=◌, ◌>>◌, fail_if}
use scrap.Block.Index.{to_uint64}
use scrap.Index.Pebble.{Pebble, PebbleError, not_found}
use scrap.Index.Errors.{
  IndexError, pebble, block_id_required, negative_field, pending_upload_not_found, key_length,
  value_length, value_version, overflows_int64,
}

pub record PendingUpload : Type 0 where
  pub block_id : ℕ
  pub shard_id : ℕ
  pub sealed_size_bytes : ℤ
  pub sealed_at_us : ℤ
  pub upload_generation : ℤ

-- The bytes of "\x00upload\x00".
abbrev pub pending_upload_prefix : List ℕ
pending_upload_prefix = 0 ∷ 117 ∷ 112 ∷ 108 ∷ 111 ∷ 97 ∷ 100 ∷ 0 ∷ []

unfoldable pub pending_upload_key : ℕ → List ℕ
pending_upload_key block_id = pending_upload_prefix ++ put_be 8 block_id

unfoldable pub encode_pending_upload : PendingUpload → List ℕ
encode_pending_upload upload =
    2
    ∷ (put_le 8 upload.shard_id
        ++ (put_le 8 (to_uint64 upload.sealed_size_bytes)
            ++ (put_le 8 (to_uint64 upload.sealed_at_us)
                ++ put_le 8 (to_uint64 upload.upload_generation))))

abbrev pub read_non_negative_int64 : List ℕ → Result IndexError ℤ
read_non_negative_int64 buf =
    let raw = get_le buf in if ltb (2 ^ 63 - 1) raw then err overflows_int64 else ok (pos raw)

abbrev pub require_value_len : List ℕ → ℕ → Result IndexError ℕ
require_value_len val want =
    if not (length val == want) then err value_length else ok (byte_at 0 val)

unfoldable pub pending_upload_value_version : List ℕ → Result IndexError ℕ
pending_upload_value_version val =
    if length val == 0
    then err value_length
    else if byte_at 0 val == 1
    then require_value_len val 25
    else if byte_at 0 val == 2
    then require_value_len val 33
    else err value_version

abbrev pub decode_generation : ℕ → List ℕ → Result IndexError ℤ
decode_generation version val =
    if version == 1 then ok (pos 0) else read_non_negative_int64 (slice 25 8 val)

unfoldable pub decode_pending_upload : List ℕ → List ℕ → Result IndexError PendingUpload
decode_pending_upload key val = do
  fail_if (not (length key == 16)) key_length
  version ← pending_upload_value_version val
  sealed_size ← read_non_negative_int64 (slice 9 8 val)
  sealed_at ← read_non_negative_int64 (slice 17 8 val)
  generation ← decode_generation version val
  ok (record {
    block_id = get_be (drop 8 key);
    shard_id = get_le (slice 1 8 val);
    sealed_size_bytes = sealed_size;
    sealed_at_us = sealed_at;
    upload_generation = generation;
  })

abbrev pub validate_pending_upload : PendingUpload → Result IndexError (Unit {0})
validate_pending_upload upload = do
  fail_if (upload.block_id == 0) block_id_required
  fail_if (ltb_ℤ upload.sealed_size_bytes (pos 0)) negative_field
  fail_if (ltb_ℤ upload.sealed_at_us (pos 0)) negative_field
  fail_if (ltb_ℤ upload.upload_generation (pos 0)) negative_field

-- The loop over what an iterator gives.
abbrev pub decode_uploads : List (List ℕ × List ℕ) → Result IndexError (List PendingUpload)
decode_uploads [] = ok []
decode_uploads ((key, val) ∷ entries) = do
  upload ← decode_pending_upload key val
  uploads ← decode_uploads entries
  ok (upload ∷ uploads)

module _ {D : Type 0} (p : Pebble D) where
  -- A write that may fail, in which case the database is the old one.
  abbrev pub write : D → Result PebbleError D → D × Result IndexError (Unit {0})
  write d written = either written (λ e. (d, err (pebble e))) (λ next. (next, ok tt))

  unfoldable pub put_pending_upload : D → PendingUpload → D × Result IndexError (Unit {0})
  put_pending_upload d upload =
      either (validate_pending_upload upload) (λ e. (d, err e))
        (λ valid.
          write d (p.set d (pending_upload_key upload.block_id) (encode_pending_upload upload)))

  unfoldable pub delete_pending_upload : D → ℕ → D × Result IndexError (Unit {0})
  delete_pending_upload d block_id =
      if block_id == 0
      then (d, err block_id_required)
      else write d (p.delete d (pending_upload_key block_id))

  abbrev pub get_error : PebbleError → IndexError
  get_error not_found = pending_upload_not_found
  get_error e = pebble e

  unfoldable pub get_pending_upload : D → ℕ → Result IndexError PendingUpload
  get_pending_upload d block_id =
      if block_id == 0
      then err block_id_required
      else either (p.get d (pending_upload_key block_id)) (λ e. err (get_error e))
          (decode_pending_upload (pending_upload_key block_id))
