-- ===== src/Block/Index/Entry.antt =====
-- internal/block/index.go: the decoding of an entry that was encoded.
use mathlib.Core.Path.{subst}
use scrap.Common.{
  ℕ, suc, ◌+◌, ◌%◌, ◌^◌, ◌<◌, ◌≡◌, refl, sym, ap, ◌∙◌, arith, true, false, List, [], ◌∷◌, ◌++◌, ltb,
  length, take, drop, take-append, drop-append, length-append, append-nil,
}
use scrap.Common.Int.{ℤ, pos, negsuc, IsInt64}
use scrap.Common.Bytes.{get_le, slice, get_le-put_le}
use scrap.Common.Result.{ok}
use scrap.Block.Index.{
  IndexEntry, to_uint64, to_int64, len_prefixed, read_len_prefixed, fixed_fields, entry_version,
  envelope_bytes, encode_index_entry, is_version, decode_envelope, decode_index_entry,
  idx_fixed_field_size,
}

to_int64-to_uint64 : (z : ℤ) → IsInt64 z → to_int64 (to_uint64 z) ≡ z
unfolding to_int64 to_uint64
to_int64-to_uint64 (pos n) h = ground arith
to_int64-to_uint64 (negsuc n) h = ground arith

to_uint64-bound : (z : ℤ) → to_uint64 z < 2 ^ 64
unfolding to_uint64
to_uint64-bound (pos n) = omega arith
to_uint64-bound (negsuc n) = omega arith

read_len_prefixed-append :
    (bytes rest : List ℕ)
    → length bytes < 2 ^ 16
    → read_len_prefixed (len_prefixed bytes ++ rest) ≡ ok (bytes, rest)
unfolding read_len_prefixed
read_len_prefixed-append bytes rest h =
    let kept : length bytes % 2 ^ 16 ≡ length bytes = omega arith in
    let some : ltb (length (len_prefixed bytes ++ rest)) 2 ≡ false = ground arith in
    let n : get_le (slice 0 2 (len_prefixed bytes ++ rest)) ≡ length bytes =
      get_le-put_le 2 (length bytes % 2 ^ 16) (omega arith) ∙ kept in
    let long : ltb (length (len_prefixed bytes ++ rest)) (2 + length bytes) ≡ false =
      ground (arith, length-append bytes rest) in
    let two : 2 + length bytes ≡ suc (suc (length bytes)) = omega arith in
    rw (some, n, long, two, take-append bytes rest, drop-append bytes rest)

-- What an entry needs to be stored: its texts are counted by a `uint16`, its numbers fit, and the
-- digest has 32 bytes.
pub record IsEntry (e : IndexEntry) : Type 0 where
  pub transaction_id : length e.transaction_id < 2 ^ 16
  pub doc_name : length e.doc_name < 2 ^ 16
  pub content_type : length e.content_type < 2 ^ 16
  pub envelope : length e.encryption_envelope < 2 ^ 16
  pub created_at : IsInt64 e.created_at_us
  pub first_frame_off : IsInt64 e.first_frame_off
  pub total_bytes : IsInt64 e.total_bytes
  pub frame_count : e.frame_count < 2 ^ 32
  pub sha256 : length e.sha256 ≡ 32

take_exact : (n : ℕ) (xs ys : List ℕ) → length xs ≡ n → take n (xs ++ ys) ≡ xs
take_exact n xs ys h = subst (λ k. take k (xs ++ ys) ≡ xs) h (take-append xs ys)

drop_exact : (n : ℕ) (xs ys : List ℕ) → length xs ≡ n → drop n (xs ++ ys) ≡ ys
drop_exact n xs ys h = subst (λ k. drop k (xs ++ ys) ≡ ys) h (drop-append xs ys)

decode_envelope-bytes :
    (envelope : List ℕ)
    → length envelope < 2 ^ 16
    → decode_envelope (entry_version envelope) (envelope_bytes envelope) ≡ ok (envelope, [])
decode_envelope-bytes [] h = refl
decode_envelope-bytes (b ∷ bs) h =
    ap read_len_prefixed (sym (append-nil (len_prefixed (b ∷ bs))))
    ∙ read_len_prefixed-append (b ∷ bs) [] h

is_version-entry_version : (envelope : List ℕ) → is_version (entry_version envelope) ≡ true
is_version-entry_version [] = refl
is_version-entry_version (b ∷ bs) = refl

-- An entry whose texts and envelope are counted by a `uint16`, whose times, offsets and sizes are
-- of an `int64` and whose digest has 32 bytes is decoded from its encoding, and no byte is left.
pub decode_index_entry-encode :
    (e : IndexEntry) → IsEntry e → decode_index_entry (encode_index_entry e) ≡ ok e
unfolding decode_index_entry encode_index_entry
decode_index_entry-encode e h =
    let env = envelope_bytes e.encryption_envelope in
    let fixed = fixed_fields e ++ env in
    let ct = len_prefixed e.content_type ++ fixed in
    let dn = len_prefixed e.doc_name ++ ct in
    let whole : ltb
          (length (entry_version e.encryption_envelope ∷ 0 ∷ (len_prefixed e.transaction_id ++ dn)))
          2
        ≡ false =
      ground arith in
    let fields : ltb (length fixed) idx_fixed_field_size ≡ false =
      ground (arith, length-append e.sha256 env, h.sha256) in
    rw (
      whole,
      is_version-entry_version e.encryption_envelope,
      read_len_prefixed-append e.transaction_id dn h.transaction_id,
      read_len_prefixed-append e.doc_name ct h.doc_name,
      read_len_prefixed-append e.content_type fixed h.content_type,
      fields,
      drop_exact 32 e.sha256 env h.sha256,
      decode_envelope-bytes e.encryption_envelope h.envelope,
      get_le-put_le 8 (to_uint64 e.created_at_us) (to_uint64-bound e.created_at_us),
      get_le-put_le 8 (to_uint64 e.first_frame_off) (to_uint64-bound e.first_frame_off),
      get_le-put_le 4 e.frame_count h.frame_count,
      get_le-put_le 8 (to_uint64 e.total_bytes) (to_uint64-bound e.total_bytes),
      to_int64-to_uint64 e.created_at_us h.created_at,
      to_int64-to_uint64 e.first_frame_off h.first_frame_off,
      to_int64-to_uint64 e.total_bytes h.total_bytes,
      take_exact 32 e.sha256 env h.sha256,
    )
