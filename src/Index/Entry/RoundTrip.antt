-- ===== src/Index/Entry/RoundTrip.antt =====
-- internal/index/index.go: an entry that is encoded and decoded.
use scrap.Common.{
  ℕ, ◌+◌, ◌*◌, ◌^◌, ◌<◌, ◌≡◌, refl, sym, ap, ◌∙◌, arith, Bool, true, false, List, [], ◌∷◌, ◌++◌,
  ltb, ◌==◌, ==_refl, length, drop, All, length-append, drop-append, append_assoc,
}
use scrap.Common.Bytes.{
  put_le, get_le, slice, byte_at, length-put_le, get_le-put_le, slice-drop, drop-drop, byte_at-drop,
}
use scrap.Common.Result.{ok}
use scrap.Index.Entry.{
  Entry, block_id_bytes, flag, encode_entry, decode_entry, read_block_ids, read_entry,
}

-- What an entry holds by its types, and a number of Blocks that fits the stored count.
pub record IsEntry (e : Entry) : Type 0 where
  pub few : length e.block_ids < 2 ^ 16
  pub ids : All (λ id. id < 2 ^ 64) e.block_ids
  pub docs : e.doc_count < 2 ^ 16

length-block_id_bytes : (ids : List ℕ) → length (block_id_bytes ids) ≡ 8 * length ids
length-block_id_bytes [] = omega arith
length-block_id_bytes (id ∷ ids) = omega (
  arith,
  length-append (put_le 8 id) (block_id_bytes ids),
  length-put_le 8 id,
  length-block_id_bytes ids,
)

-- What is left after a field at an offset.
drop-field :
    (off : ℕ) (val xs rest : List ℕ) → drop off val ≡ xs ++ rest → drop (off + length xs) val ≡ rest
drop-field off val xs rest h =
    drop-drop off (length xs) val ∙ (ap (drop (length xs)) h ∙ drop-append xs rest)

read_block_ids-bytes :
    (ids : List ℕ) (off : ℕ) (val rest : List ℕ)
    → All (λ id. id < 2 ^ 64) ids
    → drop off val ≡ block_id_bytes ids ++ rest
    → read_block_ids (length ids) off val ≡ ids
read_block_ids-bytes [] off val rest hs h = refl
read_block_ids-bytes (id ∷ ids) off val rest hs h =
    let here : drop off val ≡ put_le 8 id ++ (block_id_bytes ids ++ rest) =
      h ∙ append_assoc (put_le 8 id) (block_id_bytes ids) rest in
    let first = slice-drop off val (put_le 8 id) (block_id_bytes ids ++ rest) here in
    let later = drop-field off val (put_le 8 id) (block_id_bytes ids ++ rest) here in
    rw (first, get_le-put_le 8 id hs.0, read_block_ids-bytes ids (off + 8) val rest hs.1 later)

decode_entry-layout :
    (val : List ℕ) (n : ℕ)
    → byte_at 0 val ≡ 1
    → get_le (slice 1 2 val) ≡ n
    → length val ≡ 3 + 8 * n + 3
    → decode_entry val ≡ ok (read_entry n val)
unfolding decode_entry
decode_entry-layout val n version count total =
    let enough : ltb (length val) 6 ≡ false = ground arith in
    let matches = ==_refl (3 + 8 * n + 3) in rw (enough, version, count, total, matches)

length-encode_entry : (e : Entry) → length (encode_entry e) ≡ 3 + 8 * length e.block_ids + 3
unfolding encode_entry
length-encode_entry e = omega (
  arith,
  length-append (block_id_bytes e.block_ids) (put_le 2 e.doc_count ++ flag e.completed ∷ []),
  length-block_id_bytes e.block_ids,
)

flag_set : (b : Bool) → (flag b == 1) ≡ b
flag_set true = refl
flag_set false = refl

read_entry-encode : (e : Entry) → IsEntry e → read_entry (length e.block_ids) (encode_entry e) ≡ e
unfolding encode_entry
read_entry-encode e h =
    let ids = e.block_ids in
    let n = length ids in
    let last = flag e.completed ∷ [] in
    let val = encode_entry e in
    let tail = put_le 2 e.doc_count ++ last in
    let at_ids : drop 3 val ≡ block_id_bytes ids ++ tail = refl in
    let at_docs : drop (3 + 8 * n) val ≡ tail =
      ap (λ k. drop (3 + k) val) (sym (length-block_id_bytes ids))
      ∙ drop-field 3 val (block_id_bytes ids) tail at_ids in
    let at_flag : drop (3 + 8 * n + 2) val ≡ last =
      drop-field (3 + 8 * n) val (put_le 2 e.doc_count) last at_docs in
    let docs = slice-drop (3 + 8 * n) val (put_le 2 e.doc_count) last at_docs in
    let completed : byte_at (3 + 8 * n + 2) val ≡ flag e.completed =
      byte_at-drop (3 + 8 * n + 2) val ∙ ap (byte_at 0) at_flag in
    same (read_block_ids-bytes ids 3 val tail h.ids at_ids)
      (ap get_le docs ∙ get_le-put_le 2 e.doc_count h.docs)
      (ap (λ b. b == 1) completed ∙ flag_set e.completed)
  where
    same :
        {ids : List ℕ} {docs : ℕ} {completed : Bool}
        → ids ≡ e.block_ids
        → docs ≡ e.doc_count
        → completed ≡ e.completed
        → record { block_ids = ids; doc_count = docs; completed = completed } ≡ e
    same hi hd hc = rw (hi, hd, hc)

version-encode_entry : (e : Entry) → byte_at 0 (encode_entry e) ≡ 1
unfolding encode_entry
version-encode_entry e = refl

count-encode_entry :
    (e : Entry)
    → length e.block_ids < 2 ^ 16
    → get_le (slice 1 2 (encode_entry e)) ≡ length e.block_ids
unfolding encode_entry
count-encode_entry e few = omega arith

-- Decoding an entry that was encoded gives the entry, if it has fewer than 65,536 Blocks.
pub decode_entry-encode : (e : Entry) → IsEntry e → decode_entry (encode_entry e) ≡ ok e
decode_entry-encode e h =
    decode_entry-layout (encode_entry e) (length e.block_ids) (version-encode_entry e)
      (count-encode_entry e h.few) (length-encode_entry e)
    ∙ ap ok (read_entry-encode e h)
