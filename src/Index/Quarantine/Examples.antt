-- ===== src/Index/Quarantine/Examples.antt =====
-- internal/index/content_quarantine.go: the quarantine of a Document, confirmed and released.
use scrap.Common.{ℕ, ◌≡◌, refl, arith, true, false, some, none, List, [], ◌∷◌}
use scrap.Common.Int.{pos}
use scrap.Common.Result.{ok, err}
use scrap.Index.Samples.{write_list, Writes}
use scrap.Index.Quarantine.{
  ContentQuarantine, content_quarantine_not_found, key_bytes, encode_content_quarantine,
  get_content_quarantine, confirm_content_quarantine, release_content_quarantine,
  put_content_quarantine, content_quarantine_key, validate_identity, validate_text, has_control,
  validate_content_quarantine, decode_content_quarantine, decode_content_quarantine_key,
  version_for_decode,
}
use scrap.Index.Quarantine.Reads.{
  KeepsRecords, first_confirmed, confirm_content_quarantine-replayed,
  release_content_quarantine-replayed,
}
use scrap.Block.Index.{to_uint64}

-- The names "t1" and "a".
abbrev t1 : List ℕ
t1 = 116 ∷ 49 ∷ []

abbrev detected : ContentQuarantine
detected = record {
  transaction_id = t1;
  document_name = 97 ∷ [];
  block_id = 7;
  detected_at_us = pos 1000;
  confirmed_at_us = pos 0;
  scan_type = 1;
  reason = 1;
}

-- The byte 194 alone is no control character, and with a byte up to 159 it is.
control_runes :
    (has_control (194 ∷ 160 ∷ []) ≡ false)
    × (has_control (194 ∷ 133 ∷ []) ≡ true)
    × (has_control (9 ∷ []) ≡ true)
unfolding has_control
control_runes = (refl, refl, refl)

abbrev quarantined : Writes
quarantined = (key_bytes t1 (97 ∷ []), some (encode_content_quarantine detected)) ∷ []

abbrev confirmed : Writes
confirmed =
    (
      key_bytes t1 (97 ∷ []),
      some (encode_content_quarantine (record detected { confirmed_at_us = pos 2000 })),
    )
    ∷ quarantined

is_read : get_content_quarantine write_list quarantined t1 (97 ∷ []) ≡ ok detected
unfolding get_content_quarantine content_quarantine_key validate_identity validate_text has_control
    validate_content_quarantine decode_content_quarantine decode_content_quarantine_key
    version_for_decode encode_content_quarantine to_uint64
is_read = refl

is_confirmed :
    confirm_content_quarantine write_list quarantined t1 (97 ∷ []) (pos 2000) ≡ (confirmed, ok tt)
unfolding confirm_content_quarantine put_content_quarantine get_content_quarantine
    content_quarantine_key validate_identity validate_text has_control validate_content_quarantine
    decode_content_quarantine decode_content_quarantine_key version_for_decode
    encode_content_quarantine to_uint64
is_confirmed = refl

confirm_content_quarantine-replayed_example :
    (get_content_quarantine write_list confirmed t1 (97 ∷ [])
      ≡ ok (first_confirmed detected (pos 2000)))
    × KeepsRecords write_list t1 (97 ∷ []) quarantined confirmed
    × (confirm_content_quarantine write_list confirmed t1 (97 ∷ []) (pos 3000) ≡ (confirmed, ok tt))
confirm_content_quarantine-replayed_example =
    confirm_content_quarantine-replayed write_list quarantined confirmed t1 (97 ∷ []) (pos 2000)
      (pos 3000) detected
      (record {
        block = omega arith;
        detected = (omega arith, omega arith);
        confirmed = (omega arith, omega arith);
      })
      (omega arith, omega arith) refl is_read is_confirmed

abbrev released : Writes
released = (key_bytes t1 (97 ∷ []), none) ∷ confirmed

is_released : release_content_quarantine write_list confirmed t1 (97 ∷ []) ≡ (released, ok tt)
unfolding release_content_quarantine get_content_quarantine content_quarantine_key validate_identity
    validate_text has_control validate_content_quarantine decode_content_quarantine
    decode_content_quarantine_key version_for_decode encode_content_quarantine to_uint64
is_released = refl

release_content_quarantine-replayed_example :
    (get_content_quarantine write_list released t1 (97 ∷ []) ≡ err content_quarantine_not_found)
    × KeepsRecords write_list t1 (97 ∷ []) confirmed released
    × (release_content_quarantine write_list released t1 (97 ∷ []) ≡ (released, ok tt))
    × (confirm_content_quarantine write_list released t1 (97 ∷ []) (pos 3000) ≡ (released, ok tt))
release_content_quarantine-replayed_example =
    release_content_quarantine-replayed write_list confirmed released t1 (97 ∷ []) (pos 3000) refl
      is_released
