-- ===== src/Index/Outbox/RoundTrip.antt =====
-- internal/index/upload_outbox.go: a pending upload that is put, read and deleted.
use scrap.Common.{
  ℕ, ◌<◌, ◌^◌, ◌≡◌, ◌≢◌, refl, sym, ap, ◌∙◌, arith, Bool, true, false, ◌⊎◌, inl, inr, List, ◌==◌,
  if◌then◌else◌, drop, le→ltb_false, ◌%◌, ◌-◌,
}
use scrap.Common.Int.{ℤ, pos, negsuc, ltb_ℤ, IsInt64}
use scrap.Common.Bytes.{put_le, get_be, byte_at, get_le-put_le, get_be-put_be}
use scrap.Common.Result.{Result, ok, err, either, fail_if, >>=-eq-ok, fail_if-eq-ok}
use scrap.Block.Index.{to_uint64}
use scrap.Index.Pebble.{Pebble, PebbleError}
use scrap.Index.Errors.{
  IndexError, pebble, pending_upload_not_found, block_id_required, negative_field,
}
use scrap.Index.Store.{tx_key, get}
use scrap.Index.Outbox.{
  PendingUpload, pending_upload_key, encode_pending_upload, read_non_negative_int64,
  pending_upload_value_version, decode_pending_upload, validate_pending_upload, write,
  put_pending_upload, delete_pending_upload, get_pending_upload,
}

-- What the types of the fields say.
pub record IsUpload (upload : PendingUpload) : Type 0 where
  pub block : upload.block_id < 2 ^ 64
  pub shard : upload.shard_id < 2 ^ 64
  pub size : IsInt64 upload.sealed_size_bytes
  pub at : IsInt64 upload.sealed_at_us
  pub generation : IsInt64 upload.upload_generation

field_round_trip :
    (z : ℤ)
    → IsInt64 z
    → ltb_ℤ z (pos 0) ≡ false
    → read_non_negative_int64 (put_le 8 (to_uint64 z)) ≡ ok z
unfolding to_uint64
field_round_trip (pos n) h nonneg =
    let low : n < 2 ^ 63 = h.0 in
    let same : n % 2 ^ 64 ≡ n = omega arith in
    rw (same, get_le-put_le 8 n (omega arith), le→ltb_false (2 ^ 63 - 1) n (omega arith))
field_round_trip (negsuc n) h nonneg = ground arith

pub decode_pending_upload-encode :
    (upload : PendingUpload)
    → IsUpload upload
    → validate_pending_upload upload ≡ ok tt
    → decode_pending_upload (pending_upload_key upload.block_id) (encode_pending_upload upload)
      ≡ ok upload
unfolding decode_pending_upload encode_pending_upload pending_upload_key
    pending_upload_value_version
decode_pending_upload-encode upload h valid =
    let (a, h0, h1) = >>=-eq-ok (fail_if (upload.block_id == 0) block_id_required) _ valid in
    let (b, size, h2) =
      >>=-eq-ok (fail_if (ltb_ℤ upload.sealed_size_bytes (pos 0)) negative_field) _ h1 in
    let (c, at, h3) = >>=-eq-ok (fail_if (ltb_ℤ upload.sealed_at_us (pos 0)) negative_field) _ h2 in
    rw (
      field_round_trip upload.sealed_size_bytes h.size (fail_if-eq-ok _ negative_field size),
      field_round_trip upload.sealed_at_us h.at (fail_if-eq-ok _ negative_field at),
      field_round_trip upload.upload_generation h.generation (fail_if-eq-ok _ negative_field h3),
      get_le-put_le 8 upload.shard_id h.shard,
      get_be-put_be 8 upload.block_id h.block,
    )

pending_upload_key-injective :
    (a b : ℕ) → a < 2 ^ 64 → b < 2 ^ 64 → pending_upload_key a ≡ pending_upload_key b → a ≡ b
unfolding pending_upload_key
pending_upload_key-injective a b ha hb h =
    sym (get_be-put_be 8 a ha) ∙ (ap (λ key. get_be (drop 8 key)) h ∙ get_be-put_be 8 b hb)

tx_key-pending_upload_key :
    (tx_id : List ℕ) (block_id : ℕ) → pending_upload_key block_id ≢ tx_key tx_id
unfolding pending_upload_key tx_key
tx_key-pending_upload_key tx_id block_id h = let second = ap (byte_at 1) h in omega arith

module _ {D : Type 0} (p : Pebble D) where
  -- The records of other Blocks and the entries of transactions are the same.
  pub record KeepsOthers (block_id : ℕ) (d later : D) : Type 0 where
    pub uploads :
        (other : ℕ)
        → other < 2 ^ 64
        → block_id ≢ other
        → get_pending_upload p later other ≡ get_pending_upload p d other
    pub entries : (tx_id : List ℕ) → get p later tx_id ≡ get p d tx_id

  -- A change of one key.
  KeepsOthers-key :
      (block_id : ℕ) (d later : D)
      → block_id < 2 ^ 64
      → ((key : List ℕ) → pending_upload_key block_id ≢ key → p.get later key ≡ p.get d key)
      → KeepsOthers block_id d later
  unfolding get_pending_upload get
  KeepsOthers-key block_id d later h same = record {
    uploads = λ other low differ.
        let kept =
          same (pending_upload_key other)
            (λ equal. differ (pending_upload_key-injective block_id other h low equal)) in
        rw kept;
    entries = λ tx_id.
        let kept = same (tx_key tx_id) (tx_key-pending_upload_key tx_id block_id) in rw kept;
  }

  -- What a call leaves, by its outcome: the old database and an error, or a change of one record.
  abbrev pub Changes :
      D → ℕ → Result IndexError PendingUpload → D × Result IndexError (Unit {0}) → Type 0
  Changes d block_id record_now (later, out) =
      ((out ≡ ok tt)
        × (get_pending_upload p later block_id ≡ record_now)
        × KeepsOthers block_id d later)
      ⊎ ((e : IndexError) × (out ≡ err e) × (later ≡ d))

  block_id-nonzero :
      (upload : PendingUpload)
      → validate_pending_upload upload ≡ ok tt
      → (upload.block_id == 0) ≡ false
  block_id-nonzero upload valid =
      let (a, h, rest) = >>=-eq-ok (fail_if (upload.block_id == 0) block_id_required) _ valid in
      fail_if-eq-ok _ block_id_required h

  -- An upload that is put is read back as it was and no other record or entry changes, or the call
  -- fails and changes nothing. It fails if the Block ID is zero or a size, a time or a generation
  -- is negative.
  pub put_pending_upload-Changes :
      (d : D) (upload : PendingUpload)
      → IsUpload upload
      → Changes d upload.block_id (ok upload) (put_pending_upload p d upload)
        × ((e : IndexError)
            → validate_pending_upload upload ≡ err e
            → put_pending_upload p d upload ≡ (d, err e))
  unfolding put_pending_upload get_pending_upload
  put_pending_upload-Changes d upload h =
      (at (validate_pending_upload upload) refl, λ e bad. rw bad)
    where
      written :
          (w : Result PebbleError D)
          → p.set d (pending_upload_key upload.block_id) (encode_pending_upload upload) ≡ w
          → validate_pending_upload upload ≡ ok tt
          → Changes d upload.block_id (ok upload) (write p d w)
      written (err e) is valid = inr (pebble e, refl, refl)
      written (ok later) is valid =
          let nonzero = block_id-nonzero upload valid in
          let read =
            p.get-set d (pending_upload_key upload.block_id) (encode_pending_upload upload) is in
          inl (
            refl,
            rw (nonzero, read, decode_pending_upload-encode upload h valid),
            KeepsOthers-key upload.block_id d later h.block
                (λ other differ. p.get-set_other d _ _ other is differ),
          )

      at :
          (v : Result IndexError (Unit {0}))
          → validate_pending_upload upload ≡ v
          → Changes d upload.block_id (ok upload) (
              either v
                (λ e. (d, err e))
                (λ valid.
                  write p d
                    (p.set d (pending_upload_key upload.block_id) (encode_pending_upload upload))))
      at (err e) is = inr (e, refl, refl)
      at (ok tt) is = written _ refl is

  -- A Block whose upload is deleted has none, and no other record or entry changes, or the call
  -- fails and changes nothing.
  pub delete_pending_upload-Changes :
      (d : D) (block_id : ℕ)
      → block_id < 2 ^ 64
      → Changes d block_id (err pending_upload_not_found) (delete_pending_upload p d block_id)
  unfolding delete_pending_upload get_pending_upload
  delete_pending_upload-Changes d block_id h = at (block_id == 0) refl
    where
      written :
          (w : Result PebbleError D)
          → p.delete d (pending_upload_key block_id) ≡ w
          → (block_id == 0) ≡ false
          → Changes d block_id (err pending_upload_not_found) (write p d w)
      written (err e) is nonzero = inr (pebble e, refl, refl)
      written (ok later) is nonzero =
          let read = p.get-delete d (pending_upload_key block_id) is in
          inl (
            refl,
            rw (nonzero, read),
            KeepsOthers-key block_id d later h
                (λ other differ. p.get-delete_other d _ other is differ),
          )

      at :
          (z : Bool)
          → (block_id == 0) ≡ z
          → Changes d block_id (err pending_upload_not_found) (
              if z
              then (d, err block_id_required)
              else write p d (p.delete d (pending_upload_key block_id)))
      at true is = inr (block_id_required, refl, refl)
      at false is = written _ refl is
