-- ===== src/Index/Catalog.antt =====
-- internal/index/confirmed_upload_catalog.go: the uploads that are confirmed. `encoding/json` is a
-- pair of functions of the record.
pub mod Reads
use scrap.Common.{
  ℕ, ◌^◌, ◌<◌, ◌≡◌, Bool, true, false, not, Option, none, some, List, [], ◌∷◌, ◌++◌, String, str_eq,
  ◌==◌, if◌then◌else◌, length, drop,
}
use scrap.Common.Int.{ℤ, pos, ltb_ℤ}
use scrap.Common.Bytes.{put_be, get_be}
use scrap.Common.Result.{Result, ok, err, either, if_some, ◌>>=◌, ◌>>◌, fail_if}
use scrap.Index.{BackendObjectMetadata, ConfirmedUpload}
use scrap.Index.Pebble.{Pebble, PebbleError, not_found}
use scrap.Index.Errors.{
  IndexError, pebble, block_id_required, negative_field, object_key_required, object_token_required,
  confirmed_upload_not_found, key_length, value_version, block_id_mismatch, encode_failed,
  decode_failed,
}

pub record ConfirmedUploadRecord : Type 0 where
  pub version : ℕ
  pub upload : ConfirmedUpload

-- The bytes of "\x00confirmed-upload\x00".
abbrev pub confirmed_upload_prefix : List ℕ
confirmed_upload_prefix =
    0 ∷ 99 ∷ 111 ∷ 110 ∷ 102 ∷ 105 ∷ 114 ∷ 109 ∷ 101 ∷ 100 ∷ 45 ∷ 117 ∷ 112 ∷ 108 ∷ 111 ∷ 97 ∷ 100
    ∷ 0 ∷ []

unfoldable pub confirmed_upload_key : ℕ → List ℕ
confirmed_upload_key block_id = confirmed_upload_prefix ++ put_be 8 block_id

unfoldable pub confirmed_upload_block_id : List ℕ → Result IndexError ℕ
confirmed_upload_block_id key =
    if not (length key == 26) then err key_length else ok (get_be (drop 18 key))

unfoldable pub validate_backend_object_metadata :
    BackendObjectMetadata → Result IndexError (Unit {0})
validate_backend_object_metadata meta = do
  fail_if (str_eq meta.key "") object_key_required
  fail_if (ltb_ℤ meta.size_bytes (pos 0)) negative_field
  fail_if (str_eq meta.validation_token "") object_token_required

unfoldable pub validate_confirmed_upload : ConfirmedUpload → Result IndexError (Unit {0})
validate_confirmed_upload upload = do
  fail_if (upload.block_id == 0) block_id_required
  fail_if (ltb_ℤ upload.confirmed_at_us (pos 0)) negative_field
  fail_if (ltb_ℤ upload.sealed_size_bytes (pos 0)) negative_field
  fail_if (ltb_ℤ upload.upload_generation (pos 0)) negative_field
  validate_backend_object_metadata upload.block_object
  validate_backend_object_metadata upload.index_object

-- `decodeConfirmedUpload` after the decoder.
abbrev pub check_record : ℕ → ConfirmedUploadRecord → Result IndexError ConfirmedUpload
check_record block_id r = do
  fail_if (not (r.version == 1)) value_version
  fail_if (not (r.upload.block_id == block_id)) block_id_mismatch
  validate_confirmed_upload r.upload
  ok r.upload

-- What the code relies on of `json.Marshal` and `json.Unmarshal`: a record that is written is read
-- back.
pub record Json : Type 0 where
  pub marshal : ConfirmedUploadRecord → Option (List ℕ)
  pub unmarshal : List ℕ → Option ConfirmedUploadRecord
  pub unmarshal-marshal :
      (r : ConfirmedUploadRecord) {val : List ℕ} → marshal r ≡ some val → unmarshal val ≡ some r

module _ (json : Json) where
  unfoldable pub encode_confirmed_upload : ConfirmedUpload → Result IndexError (List ℕ)
  encode_confirmed_upload upload =
      if_some (json.marshal (record { version = 1; upload = upload })) ok (err encode_failed)

  unfoldable pub decode_confirmed_upload : ℕ → List ℕ → Result IndexError ConfirmedUpload
  decode_confirmed_upload block_id val =
      if_some (json.unmarshal val) (check_record block_id) (err decode_failed)

  -- The loop over what an iterator gives.
  abbrev pub decode_catalog : List (List ℕ × List ℕ) → Result IndexError (List ConfirmedUpload)
  decode_catalog [] = ok []
  decode_catalog ((key, val) ∷ entries) = do
    block_id ← confirmed_upload_block_id key
    upload ← decode_confirmed_upload block_id val
    uploads ← decode_catalog entries
    ok (upload ∷ uploads)

  module _ {D : Type 0} (p : Pebble D) where
    unfoldable pub put_confirmed_upload : D → ConfirmedUpload → D × Result IndexError (Unit {0})
    put_confirmed_upload d upload =
        either (validate_confirmed_upload upload) (λ e. (d, err e))
          (λ valid.
            either (encode_confirmed_upload upload) (λ e. (d, err e))
              (λ val.
                either (p.set d (confirmed_upload_key upload.block_id) val)
                  (λ e. (d, err (pebble e))) (λ next. (next, ok tt))))

    abbrev pub get_error : PebbleError → IndexError
    get_error not_found = confirmed_upload_not_found
    get_error e = pebble e

    unfoldable pub get_confirmed_upload : D → ℕ → Result IndexError ConfirmedUpload
    get_confirmed_upload d block_id =
        if block_id == 0
        then err block_id_required
        else either (p.get d (confirmed_upload_key block_id)) (λ e. err (get_error e))
            (decode_confirmed_upload block_id)
