-- ===== src/Index/Errors.antt =====
-- internal/index: the errors of its operations.
use scrap.Index.Pebble.{PebbleError}

pub data IndexError : Type 0 where
  transaction_not_found : IndexError
  pebble : PebbleError → IndexError
  too_short : IndexError
  unknown_version : IndexError
  length_mismatch : IndexError
  doc_count_at_maximum : IndexError
  block_id_required : IndexError
  negative_field : IndexError
  pending_upload_not_found : IndexError
  confirmed_upload_not_found : IndexError
  watermark_not_found : IndexError
  key_length : IndexError
  value_length : IndexError
  value_version : IndexError
  overflows_int64 : IndexError
  invalid_byte : IndexError
  signature_too_long : IndexError
  object_key_required : IndexError
  object_token_required : IndexError
  block_id_mismatch : IndexError
  encode_failed : IndexError
  decode_failed : IndexError
