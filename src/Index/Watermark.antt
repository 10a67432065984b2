-- ===== src/Index/Watermark.antt =====
-- internal/index/scanner_watermark.go and applied_index.go: the two records of a Member that are not
-- content of the projection, and the bytes of index.go that `StreamingHash` reads.
pub mod Reads
use scrap.Common.{
  ℕ, zero, suc, ◌+◌, ◌%◌, ◌^◌, Bool, true, false, not, ◌&&◌, ◌||◌, List, [], ◌∷◌, ◌++◌, ltb, leb,
  ◌==◌, if◌then◌else◌, length, take, drop,
}
use scrap.Common.Bytes.{put_le, get_le, put_be, get_be, slice, byte_at, same_bytes}
use scrap.Common.Result.{Result, ok, err, either, ◌>>=◌, ◌>>◌, fail_if}
use scrap.Index.Pebble.{Pebble, PebbleError, not_found}
use scrap.Index.Errors.{
  IndexError, pebble, watermark_not_found, value_length, value_version, signature_too_long,
  invalid_byte,
}

pub record ScannerWatermark : Type 0 where
  pub last_scanned_block_id : ℕ
  pub last_signature_version_scanned : List ℕ

-- The bytes of "\x00scanner-watermark\x00", and of "current".
abbrev pub scanner_watermark_prefix : List ℕ
scanner_watermark_prefix =
    0 ∷ 115 ∷ 99 ∷ 97 ∷ 110 ∷ 110 ∷ 101 ∷ 114 ∷ 45 ∷ 119 ∷ 97 ∷ 116 ∷ 101 ∷ 114 ∷ 109 ∷ 97 ∷ 114
    ∷ 107 ∷ 0 ∷ []

unfoldable pub scanner_watermark_key : List ℕ
scanner_watermark_key = scanner_watermark_prefix ++ 99 ∷ 117 ∷ 114 ∷ 114 ∷ 101 ∷ 110 ∷ 116 ∷ []

-- The bytes of "\x00applied-index\x00".
abbrev pub applied_index_key : List ℕ
applied_index_key =
    0 ∷ 97 ∷ 112 ∷ 112 ∷ 108 ∷ 105 ∷ 101 ∷ 100 ∷ 45 ∷ 105 ∷ 110 ∷ 100 ∷ 101 ∷ 120 ∷ 0 ∷ []

abbrev pub is_between : ℕ → ℕ → ℕ → Bool
is_between low high b = leb low b && leb b high

-- A letter, a digit, '.', '-', '_' or ':'.
abbrev pub is_scanner_signature_version_byte : ℕ → Bool
is_scanner_signature_version_byte b =
    is_between 97 122 b
    || (is_between 65 90 b
        || (is_between 48 57 b || (b == 46 || (b == 45 || (b == 95 || b == 58)))))

-- The loop of `range version` over the indexes of runes: the bytes that start one. A byte that
-- continues a rune follows one that is not ASCII, which is rejected before it.
abbrev pub validate_bytes : List ℕ → Result IndexError (Unit {0})
validate_bytes [] = ok tt
validate_bytes (b ∷ bs) =
    if not (is_scanner_signature_version_byte b) then err invalid_byte else validate_bytes bs

unfoldable pub validate_scanner_signature_version : List ℕ → Result IndexError (Unit {0})
validate_scanner_signature_version version =
    if ltb 128 (length version) then err signature_too_long else validate_bytes version

unfoldable pub encode_scanner_watermark : ScannerWatermark → List ℕ
encode_scanner_watermark w =
    1
    ∷ (put_le 8 w.last_scanned_block_id
        ++ (put_le 2 (length w.last_signature_version_scanned % 2 ^ 16)
            ++ w.last_signature_version_scanned))

unfoldable pub decode_scanner_watermark : List ℕ → Result IndexError ScannerWatermark
decode_scanner_watermark val = do
  fail_if (ltb (length val) 11) value_length
  fail_if (not (byte_at 0 val == 1)) value_version
  fail_if (not (length val == 11 + get_le (slice 9 2 val))) value_length
  validate_scanner_signature_version (drop 11 val)
  ok (record {
    last_scanned_block_id = get_le (slice 1 8 val);
    last_signature_version_scanned = drop 11 val;
  })

-- What `StreamingHash` hashes of the records that its iterator gives.
abbrev pub is_prefix : List ℕ → List ℕ → Bool
is_prefix [] key = true
is_prefix (b ∷ bs) [] = false
is_prefix (b ∷ bs) (k ∷ key) = b == k && is_prefix bs key

unfoldable pub streaming_bytes : List (List ℕ × List ℕ) → List ℕ
streaming_bytes [] = []
streaming_bytes ((key, val) ∷ records) =
    let rest = streaming_bytes records in
    if is_prefix scanner_watermark_prefix key
    then rest
    else if same_bytes key applied_index_key
    then rest
    else key ++ (val ++ rest)

-- An Index that is open: the database, and the two applied indexes in memory.
pub record OpenIndex (D : Type 0) : Type 0 where
  pub db : D
  pub applied_index : ℕ
  pub durable_applied_index : ℕ

module _ {D : Type 0} (p : Pebble D) where
  unfoldable pub put_scanner_watermark : D → ScannerWatermark → D × Result IndexError (Unit {0})
  put_scanner_watermark d w =
      either (validate_scanner_signature_version w.last_signature_version_scanned) (λ e. (d, err e))
        (λ valid.
          either (p.set d scanner_watermark_key (encode_scanner_watermark w))
            (λ e. (d, err (pebble e))) (λ next. (next, ok tt)))

  abbrev pub get_error : PebbleError → IndexError
  get_error not_found = watermark_not_found
  get_error e = pebble e

  unfoldable pub get_scanner_watermark : D → Result IndexError ScannerWatermark
  get_scanner_watermark d =
      either (p.get d scanner_watermark_key) (λ e. err (get_error e)) decode_scanner_watermark

  unfoldable pub persist_applied_index :
      OpenIndex D → ℕ → OpenIndex D × Result IndexError (Unit {0})
  persist_applied_index idx applied_index =
      either (p.set idx.db applied_index_key (put_be 8 applied_index)) (λ e. (idx, err (pebble e)))
        (λ next. (record idx { db = next; durable_applied_index = applied_index }, ok tt))

  -- What an applied index that is stored means at the opening of a database.
  abbrev pub load_value : D → List ℕ → Result IndexError (OpenIndex D)
  load_value d val =
      if not (length val == 8)
      then err value_length
      else ok (record { db = d; applied_index = 0; durable_applied_index = get_be val })

  abbrev pub load_missing : D → PebbleError → Result IndexError (OpenIndex D)
  load_missing d not_found = ok (record { db = d; applied_index = 0; durable_applied_index = 0 })
  load_missing d e = err (pebble e)

  -- `Open` of a database, with `loadAppliedIndex`.
  unfoldable pub open_index : D → Result IndexError (OpenIndex D)
  open_index d = either (p.get d applied_index_key) (load_missing d) (load_value d)

  unfoldable pub set_applied_index : OpenIndex D → ℕ → OpenIndex D
  set_applied_index idx applied_index = record idx { applied_index = applied_index }

  -- `StreamingHash` of the records that the iterator of the database gives.
  unfoldable pub streaming_hash :
      (sha256 : List ℕ → List ℕ) → (D → List (List ℕ × List ℕ)) → OpenIndex D → ℕ × List ℕ
  streaming_hash sha256 records idx = (idx.applied_index, sha256 (streaming_bytes (records idx.db)))
