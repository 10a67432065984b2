-- ===== src/Index/Samples.antt =====
-- A store for the tests of internal/index: the writes, the last one first.
use scrap.Common.{
  ℕ, str_eq, eq_iff, ◌&&◌, and-split, ◌==◌, ==_iff, Bool, true, false, refl, ◌≡◌, ◌≢◌, sym, ap, ◌∙◌,
  Option, none, some, List, [], ◌∷◌, if◌then◌else◌, Bool-cases, inl, inr,
}
use scrap.Common.Bytes.{same_bytes, same_bytes_refl, same_bytes→eq}
use scrap.Common.Result.{Result, ok, err, ok-injective}
use scrap.Common.Int.{pos, eq_ℤ, eq_ℤ→eq}
use scrap.Index.{BackendObjectMetadata, ConfirmedUpload}
use scrap.Index.Catalog.{ConfirmedUploadRecord, Json}
use scrap.Index.Pebble.{Pebble, PebbleError, not_found}

abbrev pub Writes : Type 0
Writes = List (List ℕ × Option (List ℕ))

abbrev found : Option (List ℕ) → Result PebbleError (List ℕ)
found none = err not_found
found (some val) = ok val

abbrev get : Writes → List ℕ → Result PebbleError (List ℕ)
get [] key = err not_found
get ((k, val) ∷ writes) key = if same_bytes k key then found val else get writes key

pub get_first :
    (writes : Writes) (key : List ℕ) (val : Option (List ℕ))
    → get ((key, val) ∷ writes) key ≡ found val
get_first writes key val = rw (same_bytes_refl key)

pub get_other :
    (writes : Writes) (key other : List ℕ) (val : Option (List ℕ))
    → key ≢ other
    → get ((key, val) ∷ writes) other ≡ get writes other
get_other writes key other val differ = elim (Bool-cases (same_bytes key other)) [
  | inl same ↦ elim (differ (same_bytes→eq key other same)) [ ]
  | inr h ↦ rw h
]

abbrev pub write_list : Pebble Writes
write_list = record {
  get = get;
  set = λ writes key val. ok ((key, some val) ∷ writes);
  delete = λ writes key. ok ((key, none) ∷ writes);
  get-set =
      λ d key value h. ap (λ w. get w key) (sym (ok-injective h)) ∙ get_first d key (some value);
  get-set_other = λ d key value other h differ.
      ap (λ w. get w other) (sym (ok-injective h)) ∙ get_other d key other (some value) differ;
  get-delete = λ d key h. ap (λ w. get w key) (sym (ok-injective h)) ∙ get_first d key none;
  get-delete_other = λ d key other h differ.
      ap (λ w. get w other) (sym (ok-injective h)) ∙ get_other d key other none differ;
}

abbrev same_object : BackendObjectMetadata → BackendObjectMetadata → Bool
same_object a b =
    str_eq a.key b.key
    && (eq_ℤ a.size_bytes b.size_bytes && str_eq a.validation_token b.validation_token)

same_object→eq : (a b : BackendObjectMetadata) → same_object a b ≡ true → a ≡ b
same_object→eq a b h =
    let (key, h1) = and-split (str_eq a.key b.key) _ h in
    let (size, token) = and-split (eq_ℤ a.size_bytes b.size_bytes) _ h1 in
    rw (
      (eq_iff a.key b.key).0 key,
      eq_ℤ→eq a.size_bytes b.size_bytes size,
      (eq_iff a.validation_token b.validation_token).0 token,
    )

abbrev small_object : BackendObjectMetadata
small_object = record { key = "blocks/7"; size_bytes = pos 64; validation_token = "etag" }

abbrev pub small_upload : ConfirmedUpload
small_upload = record {
  block_id = 7;
  shard_id = 2;
  confirmed_at_us = pos 1000;
  sealed_size_bytes = pos 64;
  upload_generation = pos 1;
  block_object = small_object;
  index_object = small_object;
}

abbrev same_upload : ConfirmedUpload → ConfirmedUpload → Bool
same_upload a b =
    (a.block_id == b.block_id && a.shard_id == b.shard_id)
    && ((eq_ℤ a.confirmed_at_us b.confirmed_at_us && eq_ℤ a.sealed_size_bytes b.sealed_size_bytes)
        && (eq_ℤ a.upload_generation b.upload_generation
            && (same_object a.block_object b.block_object
                && same_object a.index_object b.index_object)))

same_upload→eq : (a b : ConfirmedUpload) → same_upload a b ≡ true → a ≡ b
same_upload→eq a b h =
    let (ids, h1) = and-split (a.block_id == b.block_id && a.shard_id == b.shard_id) _ h in
    let (block, shard) = and-split (a.block_id == b.block_id) _ ids in
    let (sizes, h2) =
      and-split
        (eq_ℤ a.confirmed_at_us b.confirmed_at_us && eq_ℤ a.sealed_size_bytes b.sealed_size_bytes) _
        h1 in
    let (at, size) = and-split (eq_ℤ a.confirmed_at_us b.confirmed_at_us) _ sizes in
    let (generation, objects) = and-split (eq_ℤ a.upload_generation b.upload_generation) _ h2 in
    let (block_object, index_object) =
      and-split (same_object a.block_object b.block_object) _ objects in
    rw (
      (==_iff a.block_id b.block_id).0 block,
      (==_iff a.shard_id b.shard_id).0 shard,
      eq_ℤ→eq a.confirmed_at_us b.confirmed_at_us at,
      eq_ℤ→eq a.sealed_size_bytes b.sealed_size_bytes size,
      eq_ℤ→eq a.upload_generation b.upload_generation generation,
      same_object→eq a.block_object b.block_object block_object,
      same_object→eq a.index_object b.index_object index_object,
    )

-- A codec of the one record above.
abbrev pub small_record : ConfirmedUploadRecord
small_record = record { version = 1; upload = small_upload }

abbrev marshal_small : ConfirmedUploadRecord → Option (List ℕ)
marshal_small r =
    if r.version == 1 && same_upload r.upload small_upload then some (123 ∷ []) else none

pub unmarshal-marshal_small :
    (r : ConfirmedUploadRecord) {val : List ℕ}
    → marshal_small r ≡ some val
    → some small_record ≡ some r
unmarshal-marshal_small r {val = val} h =
    at (r.version == 1 && same_upload r.upload small_upload) refl h
  where
    at :
        (b : Bool)
        → (r.version == 1 && same_upload r.upload small_upload) ≡ b
        → (if b then some (123 ∷ []) else none) ≡ some val
        → some small_record ≡ some r
    at true is h =
        let (version, same) = and-split (r.version == 1) _ is in
        rw ((==_iff r.version 1).0 version, same_upload→eq r.upload small_upload same)
    at false is h = cc

abbrev pub small_json : Json
small_json = record {
  marshal = marshal_small;
  unmarshal = λ val. some small_record;
  unmarshal-marshal = unmarshal-marshal_small;
}
