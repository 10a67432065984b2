-- ===== src/Index/Catalog/Reads.antt =====
-- internal/index/confirmed_upload_catalog.go: what a read of the catalog gives.
use scrap.Common.{
  ℕ, ◌^◌, ◌<◌, ◌≡◌, ◌≢◌, sym, ap, ◌∙◌, arith, false, not, Option, none, some, List, ◌==◌, ==_iff,
  ==_refl, not-eq-false, drop,
}
use scrap.Common.Bytes.{get_be, get_be-put_be}
use scrap.Common.Result.{
  Result, ok, err, either, if_some, fail_if, >>=-eq-ok, guard-eq-ok, fail_if-eq-ok, ok-injective,
  step-eq-ok, if_some-eq-ok,
}
use scrap.Index.{ConfirmedUpload}
use scrap.Index.Pebble.{Pebble, PebbleError}
use scrap.Index.Errors.{
  pebble, block_id_required, block_id_mismatch, value_version, decode_failed, encode_failed,
}
use scrap.Index.Catalog.{
  Json, ConfirmedUploadRecord, check_record, get_error, confirmed_upload_key,
  validate_confirmed_upload, encode_confirmed_upload, decode_confirmed_upload, put_confirmed_upload,
  get_confirmed_upload,
}

check_record-eq-ok :
    (block_id : ℕ) (r : ConfirmedUploadRecord) {upload : ConfirmedUpload}
    → check_record block_id r ≡ ok upload
    → (upload.block_id ≡ block_id) × (validate_confirmed_upload upload ≡ ok tt)
check_record-eq-ok block_id r h =
    let (a, version, h1) = >>=-eq-ok (fail_if (not (r.version == 1)) value_version) _ h in
    let (b, matched, h2) =
      >>=-eq-ok (fail_if (not (r.upload.block_id == block_id)) block_id_mismatch) _ h1 in
    let (c, valid, h3) = >>=-eq-ok (validate_confirmed_upload r.upload) _ h2 in
    let same = ok-injective h3 in
    let equal =
      not-eq-false (r.upload.block_id == block_id) (fail_if-eq-ok _ block_id_mismatch matched) in
    (
      ap (λ u. u.block_id) (sym same) ∙ (==_iff r.upload.block_id block_id).0 equal,
      ap validate_confirmed_upload (sym same) ∙ valid,
    )

check_record-valid :
    (upload : ConfirmedUpload)
    → validate_confirmed_upload upload ≡ ok tt
    → check_record upload.block_id (record { version = 1; upload = upload }) ≡ ok upload
check_record-valid upload valid = rw (==_refl upload.block_id, valid)

confirmed_upload_key-injective :
    (a b : ℕ) → a < 2 ^ 64 → b < 2 ^ 64 → confirmed_upload_key a ≡ confirmed_upload_key b → a ≡ b
unfolding confirmed_upload_key
confirmed_upload_key-injective a b ha hb h =
    sym (get_be-put_be 8 a ha) ∙ (ap (λ key. get_be (drop 18 key)) h ∙ get_be-put_be 8 b hb)

block_id-nonzero :
    (upload : ConfirmedUpload)
    → validate_confirmed_upload upload ≡ ok tt
    → (upload.block_id == 0) ≡ false
unfolding validate_confirmed_upload
block_id-nonzero upload valid =
    let (a, some_block, rest) =
      >>=-eq-ok (fail_if (upload.block_id == 0) block_id_required) _ valid in
    fail_if-eq-ok _ block_id_required some_block

module _ (json : Json) {D : Type 0} (p : Pebble D) where
  decode_confirmed_upload-eq-ok :
      (block_id : ℕ) (o : Option ConfirmedUploadRecord) {upload : ConfirmedUpload}
      → if_some o (check_record block_id) (err decode_failed) ≡ ok upload
      → (upload.block_id ≡ block_id) × (validate_confirmed_upload upload ≡ ok tt)
  decode_confirmed_upload-eq-ok block_id none h = cc
  decode_confirmed_upload-eq-ok block_id (some r) h = check_record-eq-ok block_id r h

  -- Whatever the database holds, an upload that is read for a Block is of that Block, which is not
  -- zero, and passes the validation of a new one.
  pub get_confirmed_upload-IsValid :
      (d : D) (block_id : ℕ) (upload : ConfirmedUpload)
      → get_confirmed_upload json p d block_id ≡ ok upload
      → (block_id ≢ 0) × (upload.block_id ≡ block_id) × (validate_confirmed_upload upload ≡ ok tt)
  unfolding get_confirmed_upload decode_confirmed_upload
  get_confirmed_upload-IsValid d block_id upload h =
      let (nonzero, read) = guard-eq-ok (block_id == 0) block_id_required _ h in
      let (same, valid) = at (p.get d (confirmed_upload_key block_id)) read in
      (λ zero. ground arith, same, valid)
    where
      at :
          (r : Result PebbleError (List ℕ))
          → either r (λ e. err (get_error json p e)) (decode_confirmed_upload json block_id)
            ≡ ok upload
          → (upload.block_id ≡ block_id) × (validate_confirmed_upload upload ≡ ok tt)
      at (err e) read = cc
      at (ok val) read = decode_confirmed_upload-eq-ok block_id (json.unmarshal val) read

  -- The steps of a put that succeeds.
  put_confirmed_upload-eq-ok :
      (d later : D) (upload : ConfirmedUpload)
      → put_confirmed_upload json p d upload ≡ (later, ok tt)
      → (validate_confirmed_upload upload ≡ ok tt)
        × ((val : List ℕ) × (json.marshal (record { version = 1; upload = upload }) ≡ some val)
            × (p.set d (confirmed_upload_key upload.block_id) val ≡ ok later))
  unfolding put_confirmed_upload encode_confirmed_upload
  put_confirmed_upload-eq-ok d later upload done =
      let (a, valid, h1) = step-eq-ok (validate_confirmed_upload upload) d (λ e. e) _ done in
      let (val, encoded, h2) =
        step-eq-ok
          (if_some (json.marshal (record { version = 1; upload = upload })) ok (err encode_failed))
          d (λ e. e) _ h1 in
      let (next, stored, h3) =
        step-eq-ok (p.set d (confirmed_upload_key upload.block_id) val) d pebble
          (λ next. (next, ok tt)) h2 in
      (valid, (val, if_some-eq-ok _ encode_failed encoded, stored ∙ ap (λ r. ok r.0) h3))

  -- A put that succeeds is of a valid upload, which is then read as it was; the uploads of other
  -- Blocks are read as before.
  pub put_confirmed_upload-Reads :
      (d later : D) (upload : ConfirmedUpload)
      → upload.block_id < 2 ^ 64
      → put_confirmed_upload json p d upload ≡ (later, ok tt)
      → (validate_confirmed_upload upload ≡ ok tt)
        × (get_confirmed_upload json p later upload.block_id ≡ ok upload)
        × ((other : ℕ)
            → other < 2 ^ 64
            → upload.block_id ≢ other
            → get_confirmed_upload json p later other ≡ get_confirmed_upload json p d other)
  unfolding get_confirmed_upload decode_confirmed_upload
  put_confirmed_upload-Reads d later upload h done =
      let (valid, written) = put_confirmed_upload-eq-ok d later upload done in
      let (val, encoded, stored) = written in
      let key = confirmed_upload_key upload.block_id in
      let read = p.get-set d key val stored in
      let back = json.unmarshal-marshal (record { version = 1; upload = upload }) encoded in
      let nonzero = block_id-nonzero upload valid in
      (
        valid,
        rw (nonzero, read, back) (check_record-valid upload valid),
        λ other low differ.
            let kept = p.get-set_other d key val (confirmed_upload_key other) stored (λ equal.
              differ (confirmed_upload_key-injective upload.block_id other h low equal)) in
            rw kept,
      )
