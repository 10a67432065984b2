-- ===== src/Index/Watermark/Reads.antt =====
-- internal/index: what is read of the two records of a Member.
use scrap.Common.{
  ℕ, ◌+◌, ◌%◌, ◌^◌, ◌<◌, ◌≤◌, ◌≡◌, sym, ap, ◌∙◌, arith, true, false, List, [], ◌∷◌, ◌++◌, ltb,
  ==_refl, length, ◌⊎◌, inl, inr,
}
use scrap.Common.Bytes.{put_le, get_le, put_be, byte_at, get_le-put_le, get_be-put_be, same_bytes}
use scrap.Common.Result.{ok, step-eq-ok, guard-eq-ok}
use scrap.Index.Pebble.{Pebble}
use scrap.Index.Errors.{pebble, signature_too_long}
use scrap.Index.Watermark.{
  ScannerWatermark, scanner_watermark_prefix, scanner_watermark_key, applied_index_key,
  validate_scanner_signature_version, encode_scanner_watermark, decode_scanner_watermark, is_prefix,
  streaming_bytes, OpenIndex, put_scanner_watermark, get_scanner_watermark, persist_applied_index,
  open_index,
}

decode_scanner_watermark-encode :
    (w : ScannerWatermark)
    → w.last_scanned_block_id < 2 ^ 64
    → validate_scanner_signature_version w.last_signature_version_scanned ≡ ok tt
    → decode_scanner_watermark (encode_scanner_watermark w) ≡ ok w
unfolding decode_scanner_watermark encode_scanner_watermark validate_scanner_signature_version
decode_scanner_watermark-encode w h valid =
    let version = w.last_signature_version_scanned in
    let (short, bytes) = guard-eq-ok (ltb 128 (length version)) signature_too_long _ valid in
    let few : length version ≤ 128 = ground arith in
    let count : get_le (put_le 2 (length version % 2 ^ 16)) ≡ length version = omega arith in
    let total : length (encode_scanner_watermark w) ≡ 11 + length version = omega arith in
    let enough : ltb (11 + length version) 11 ≡ false = ground arith in
    rw (
      total,
      enough,
      count,
      ==_refl (11 + length version),
      short,
      bytes,
      get_le-put_le 8 w.last_scanned_block_id h,
    )

different_keys : scanner_watermark_key ≡ applied_index_key → ⊥
unfolding scanner_watermark_key
different_keys h = let second = ap (byte_at 1) h in omega arith

module _ {D : Type 0} (p : Pebble D) where
  -- A watermark that is put is read back, and an applied index that is persisted is the one in
  -- memory, and that of the database when it is opened again; neither call changes what is read of
  -- the other record.
  pub persist_applied_index-Reads :
      (idx later : OpenIndex D) (applied_index : ℕ) (d : D) (w : ScannerWatermark)
      → applied_index < 2 ^ 64
      → w.last_scanned_block_id < 2 ^ 64
      → persist_applied_index p idx applied_index ≡ (later, ok tt)
      → put_scanner_watermark p later.db w ≡ (d, ok tt)
      → (later.durable_applied_index ≡ applied_index)
        × (open_index p d
            ≡ ok (record { db = d; applied_index = 0; durable_applied_index = applied_index }))
        × (get_scanner_watermark p d ≡ ok w)
        × (get_scanner_watermark p later.db ≡ get_scanner_watermark p idx.db)
  unfolding persist_applied_index put_scanner_watermark open_index get_scanner_watermark
  persist_applied_index-Reads idx later applied_index d w h hw persisted put =
      let (next, stored, same) =
        step-eq-ok (p.set idx.db applied_index_key (put_be 8 applied_index)) idx pebble
          (λ next. (record idx { db = next; durable_applied_index = applied_index }, ok tt))
          persisted in
      let (a, valid, put1) =
        step-eq-ok (validate_scanner_signature_version w.last_signature_version_scanned) later.db
          (λ e. e) _ put in
      let (last, written, last_same) =
        step-eq-ok (p.set later.db scanner_watermark_key (encode_scanner_watermark w)) later.db
          pebble (λ next. (next, ok tt)) put1 in
      let now : next ≡ later.db = ap (λ r. r.0.db) same in
      let end : last ≡ d = ap (λ r. r.0) last_same in
      let written : p.set later.db scanner_watermark_key (encode_scanner_watermark w) ≡ ok d =
        written ∙ ap ok end in
      let stored : p.set idx.db applied_index_key (put_be 8 applied_index) ≡ ok later.db =
        stored ∙ ap ok now in
      let index_read =
        p.get-set_other later.db scanner_watermark_key (encode_scanner_watermark w)
          applied_index_key written different_keys
        ∙ p.get-set idx.db applied_index_key (put_be 8 applied_index) stored in
      let mark_read =
        p.get-set later.db scanner_watermark_key (encode_scanner_watermark w) written in
      let mark_kept =
        p.get-set_other idx.db applied_index_key (put_be 8 applied_index) scanner_watermark_key
          stored (λ e. different_keys (sym e)) in
      let back = get_be-put_be 8 applied_index h in
      (
        ap (λ r. r.0.durable_applied_index) (sym same),
        rw (index_read, back),
        rw (mark_read, decode_scanner_watermark-encode w hw valid),
        rw mark_kept,
      )

-- The hash of a projection does not depend on the two records of a Member, wherever they are among
-- the records that the iterator gives.
streaming_bytes-content :
    (before after : List (List ℕ × List ℕ)) (key val : List ℕ)
    → (is_prefix scanner_watermark_prefix key ≡ true) ⊎ (key ≡ applied_index_key)
    → streaming_bytes (before ++ (key, val) ∷ after) ≡ streaming_bytes (before ++ after)
unfolding streaming_bytes
streaming_bytes-content [] after key val (inl h) = rw h
streaming_bytes-content [] after key val (inr h) =
    let matches : same_bytes key applied_index_key ≡ true =
      ap (λ k. same_bytes k applied_index_key) h in
    let unlike : is_prefix scanner_watermark_prefix key ≡ false =
      ap (is_prefix scanner_watermark_prefix) h in
    rw (unlike, matches)
streaming_bytes-content ((k, v) ∷ before) after key val h =
    let rest = streaming_bytes-content before after key val h in rw rest
