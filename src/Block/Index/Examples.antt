-- ===== src/Block/Index/Examples.antt =====
-- internal/block/index.go: an index with an entry, and a second append that was cut short.
use scrap.Common.{◌≡◌, refl, arith, true, [], ◌∷◌, ◌++◌, length}
use scrap.Common.Bytes.{put_le}
use scrap.Common.Result.{ok, err}
use scrap.Block.Index.{
  read_eof, new_index, encode_index_entry, decode_index_entry, repair_index_tail,
  read_index_entries,
}
use scrap.Block.Index.Entry.{decode_index_entry-encode}
use scrap.Block.Index.Read.{entries_bytes}
use scrap.Block.Index.Repair.{Cut, in_payload, repair_index_tail-Cut, read_index_entries-append}
use scrap.Block.Samples.{sum32, sum32-bound, small_entry, small_entry-IsEntry, small_entry-IsStored}

decode_index_entry-encode_example :
    decode_index_entry (encode_index_entry small_entry) ≡ ok small_entry
decode_index_entry-encode_example = decode_index_entry-encode small_entry small_entry-IsEntry

-- Only the length prefix of the second entry was written.
only_length : Cut sum32 small_entry (put_le 4 (length (encode_index_entry small_entry)) ++ []) true
unfolding encode_index_entry
only_length = in_payload [] (encode_index_entry small_entry) refl (omega arith)

repair_index_tail-Cut_example :
    repair_index_tail sum32 (
      new_index sum32
      ++ (entries_bytes sum32 sum32-bound (small_entry ∷ [])
          ++ (put_le 4 (length (encode_index_entry small_entry)) ++ [])))
    ≡ err read_eof
repair_index_tail-Cut_example =
    repair_index_tail-Cut sum32 sum32-bound (small_entry ∷ []) small_entry
      (put_le 4 (length (encode_index_entry small_entry)) ++ []) true (small_entry-IsStored, tt)
      small_entry-IsStored.small only_length

read_index_entries-append_example :
    read_index_entries sum32 (new_index sum32 ++ entries_bytes sum32 sum32-bound (small_entry ∷ []))
    ≡ ok (small_entry ∷ [])
read_index_entries-append_example =
    read_index_entries-append sum32 sum32-bound (small_entry ∷ []) (small_entry-IsStored, tt)
