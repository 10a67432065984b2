-- ===== src/Index/Quarantine/RoundTrip.antt =====
-- internal/index/content_quarantine.go: the key and the value of a record, written and read.
use scrap.Common.{
  ℕ, ◌-◌, ◌^◌, ◌%◌, ◌<◌, ◌≡◌, refl, sym, ap, ◌∙◌, arith, false, some, List, [], ◌∷◌, ◌++◌, ltb,
  ◌==◌, length, le→ltb_false,
}
use scrap.Common.Int.{ℤ, pos, negsuc, ltb_ℤ, leb_ℤ, IsInt64}
use scrap.Common.Bytes.{put_le, get_le-put_le}
use scrap.Common.Result.{ok, fail_if, >>=-eq-ok, fail_if-eq-ok, ok-injective}
use scrap.Block.Index.{to_uint64}
use scrap.Index.Quarantine.{
  invalid_content_quarantine, ContentQuarantine, has_control, validate_text, validate_identity,
  validate_content_quarantine, key_bytes, content_quarantine_key, split_at_zero,
  decode_content_quarantine_key, encode_content_quarantine, read_int64, version_for_decode,
  decode_content_quarantine, max_unix_micro,
}

split_at_zero-append :
    (tx_id doc_name : List ℕ)
    → has_control tx_id ≡ false
    → split_at_zero (tx_id ++ 0 ∷ doc_name) ≡ some (tx_id, doc_name)
unfolding has_control
split_at_zero-append [] doc_name h = refl
split_at_zero-append (b ∷ bs) doc_name h =
    let nonzero : (b == 0) ≡ false = ground arith in
    let rest : has_control bs ≡ false = ground arith in
    rw (nonzero, split_at_zero-append bs doc_name rest)

validate_identity-text :
    (tx_id doc_name : List ℕ) → validate_identity tx_id doc_name ≡ ok tt → has_control tx_id ≡ false
unfolding validate_identity validate_text
validate_identity-text tx_id doc_name h =
    let (a, first, h1) = >>=-eq-ok (validate_text 256 tx_id) _ h in
    let (b, nonempty, h2) =
      >>=-eq-ok (fail_if (length tx_id == 0) invalid_content_quarantine) _ first in
    let (c, short, h3) =
      >>=-eq-ok (fail_if (ltb 256 (length tx_id)) invalid_content_quarantine) _ h2 in
    fail_if-eq-ok _ invalid_content_quarantine h3

pub decode_content_quarantine_key-key_bytes :
    (tx_id doc_name : List ℕ)
    → validate_identity tx_id doc_name ≡ ok tt
    → decode_content_quarantine_key (key_bytes tx_id doc_name) ≡ ok (tx_id, doc_name)
unfolding decode_content_quarantine_key
decode_content_quarantine_key-key_bytes tx_id doc_name h =
    rw (split_at_zero-append tx_id doc_name (validate_identity-text tx_id doc_name h), h)

-- What the types of the fields say.
pub record IsQuarantine (q : ContentQuarantine) : Type 0 where
  pub block : q.block_id < 2 ^ 64
  pub detected : IsInt64 q.detected_at_us
  pub confirmed : IsInt64 q.confirmed_at_us

read_int64-put_le :
    (z : ℤ) → IsInt64 z → ltb_ℤ z (pos 0) ≡ false → read_int64 (put_le 8 (to_uint64 z)) ≡ ok z
unfolding to_uint64
read_int64-put_le (pos n) h nonneg =
    let low : n < 2 ^ 63 = h.0 in
    let same : n % 2 ^ 64 ≡ n = omega arith in
    rw (same, get_le-put_le 8 n (omega arith), le→ltb_false (2 ^ 63 - 1) n (omega arith))
read_int64-put_le (negsuc n) h nonneg = ground arith

-- What a record's validation says of the fields that are encoded.
record IsEncodable (q : ContentQuarantine) : Type 0 where
  identity : validate_identity q.transaction_id q.document_name ≡ ok tt
  detected_at : ltb_ℤ q.detected_at_us (pos 0) ≡ false
  confirmed_at : ltb_ℤ q.confirmed_at_us (pos 0) ≡ false

validate_content_quarantine-IsEncodable :
    (q : ContentQuarantine) → validate_content_quarantine q ≡ ok tt → IsEncodable q
unfolding validate_content_quarantine
validate_content_quarantine-IsEncodable q valid =
    let (a, identity, h1) =
      >>=-eq-ok (validate_identity q.transaction_id q.document_name) _ valid in
    let (b, positive, h2) =
      >>=-eq-ok (fail_if (leb_ℤ q.detected_at_us (pos 0)) invalid_content_quarantine) _ h1 in
    let (c, low, h3) =
      >>=-eq-ok (fail_if (ltb_ℤ max_unix_micro q.detected_at_us) invalid_content_quarantine) _ h2 in
    let (d, nonneg, h4) =
      >>=-eq-ok (fail_if (ltb_ℤ q.confirmed_at_us (pos 0)) invalid_content_quarantine) _ h3 in
    let above =
      fail_if-eq-ok (leb_ℤ q.detected_at_us (pos 0)) invalid_content_quarantine positive in
    record {
      identity = identity;
      detected_at = ground arith;
      confirmed_at = fail_if-eq-ok _ invalid_content_quarantine nonneg;
    }

pub decode_content_quarantine-encode :
    (q : ContentQuarantine)
    → IsQuarantine q
    → validate_content_quarantine q ≡ ok tt
    → decode_content_quarantine
        (key_bytes q.transaction_id q.document_name)
        (encode_content_quarantine q)
      ≡ ok q
unfolding decode_content_quarantine encode_content_quarantine version_for_decode
decode_content_quarantine-encode q hq valid =
    let h = validate_content_quarantine-IsEncodable q valid in
    rw (
      decode_content_quarantine_key-key_bytes q.transaction_id q.document_name h.identity,
      read_int64-put_le q.detected_at_us hq.detected h.detected_at,
      read_int64-put_le q.confirmed_at_us hq.confirmed h.confirmed_at,
      get_le-put_le 8 q.block_id hq.block,
      valid,
    )

pub key_bytes-injective :
    (tx_id doc_name tx_other doc_other : List ℕ)
    → validate_identity tx_id doc_name ≡ ok tt
    → validate_identity tx_other doc_other ≡ ok tt
    → key_bytes tx_id doc_name ≡ key_bytes tx_other doc_other
    → ◌≡◌ {A = List ℕ × List ℕ} (tx_id, doc_name) (tx_other, doc_other)
key_bytes-injective tx_id doc_name tx_other doc_other valid valid_other same = ok-injective (
    sym (decode_content_quarantine_key-key_bytes tx_id doc_name valid)
    ∙ (ap decode_content_quarantine_key same
        ∙ decode_content_quarantine_key-key_bytes tx_other doc_other valid_other))

pub content_quarantine_key-valid :
    (tx_id doc_name : List ℕ) {key : List ℕ}
    → content_quarantine_key tx_id doc_name ≡ ok key
    → (validate_identity tx_id doc_name ≡ ok tt) × (key_bytes tx_id doc_name ≡ key)
unfolding content_quarantine_key
content_quarantine_key-valid tx_id doc_name h =
    let (a, identity, h1) = >>=-eq-ok (validate_identity tx_id doc_name) _ h in
    (identity, ok-injective h1)
