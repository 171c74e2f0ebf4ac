-- ===== src/Store/Kept.antt =====
-- A block that src/vm/store.rs stores, and what src/vm/read.rs reads of it.
use dbvm.Common.{
  ℕ, false, none, some, List, [], ◌∷◌, ◌++◌, Text, Bytes, same, same_refl, length, ◌≡◌, refl, arith,
  Option-cases, inl, inr,
}
use dbvm.Extern.{Extern, IsLossless}
use dbvm.Codec.{
  Effort, compress_with_effort, latest_dict, find_dict, has_zstd_magic, has_gzip_magic, dict_by_id,
  decode_block,
}
use dbvm.Codec.RoundTrip.{decode-compress, decode-stored}
use dbvm.Db.{Key, Blob, DictRow, Db, Result, ok, hash_mismatch}
use dbvm.Db.Blobs.{find_blob}
use dbvm.Read.{chunk_by_key, guard, ◌>>=◌, ◌>>◌}
use dbvm.Store.{add_blob, new_blob, encode_block, blob_insert_row, blob_ensure_with}

find_blob-append_one :
    (bs : List Blob) (b : Blob)
    → find_blob b.hash bs ≡ none
    → find_blob b.hash (bs ++ b ∷ []) ≡ some b
unfolding find_blob
find_blob-append_one [] b e = ground (arith, same_refl b.hash)
find_blob-append_one (c ∷ bs) b e = ground (arith, e, find_blob-append_one bs b)

module _ (x : Extern) (b : Bytes) (effort : Effort) (s : Db) where
  abbrev key : Key
  key = x.sha256 b

  -- The row of a new block is found by its key.
  ensured :
      find_blob key s.vm_blobs ≡ none
      → find_blob key (blob_ensure_with x key b effort s).1.vm_blobs
        ≡ some (new_blob key (length b) (encode_block x s b effort))
  unfolding blob_ensure_with blob_insert_row add_blob
  ensured e =
      rw (blob_ensure_with, e, blob_insert_row, e)
        (find_blob-append_one s.vm_blobs (new_blob key (length b) (encode_block x s b effort)) e)

  ensured-dicts : (blob_ensure_with x key b effort s).1.vm_dicts ≡ s.vm_dicts
  unfolding blob_ensure_with blob_insert_row add_blob
  ensured-dicts = ground arith

  -- The read of a chunk decodes the stored block and compares the hash.
  abbrev checked : Text → ℕ → Result Bytes → Result Bytes
  checked path idx decoded =
      decoded >>= λ piece. (guard (same (x.sha256 piece) key) (hash_mismatch path idx) >> ok piece)

  read_back :
      (path : Text) (idx : ℕ)
      → find_blob key s.vm_blobs ≡ none
      → chunk_by_key x (blob_ensure_with x key b effort s).1 path idx key ≡ (
          let e = encode_block x s b effort in
          checked path idx (decode_block x s.vm_dicts e.body e.flag e.dict_id))
  unfolding chunk_by_key
  read_back path idx new = rw (ensured new, ensured-dicts) refl

latest-held :
    (ds : List DictRow) (id : ℕ) (d : Bytes)
    → latest_dict ds ≡ some (id, d)
    → find_dict id ds ≡ some d
unfolding latest_dict dict_by_id
latest-held ds id d e = ground (arith, e)

-- With a lossless zstd, a new block that is stored, compressed or not, at either effort and with the
-- newest dictionary, is read back through its key as it was, unless it is stored as it is and begins
-- like a zstd frame or a gzip file.
pub chunk_by_key-blob_ensure_with :
    (x : Extern)
    → IsLossless x
    → (b : Bytes) (effort : Effort) (s : Db) (path : Text) (idx : ℕ)
    → find_blob (x.sha256 b) s.vm_blobs ≡ none
    → (compress_with_effort x b (latest_dict s.vm_dicts) effort ≡ none
        → (has_zstd_magic x b ≡ false) × (has_gzip_magic x b ≡ false))
    → chunk_by_key x (blob_ensure_with x (x.sha256 b) b effort s).1 path idx (x.sha256 b) ≡ ok b
unfolding encode_block
chunk_by_key-blob_ensure_with x law b effort s path idx new plain =
    rw (read_back x b effort s path idx new)
      (elim (Option-cases (compress_with_effort x b (latest_dict s.vm_dicts) effort)) [
        | inl e ↦
            let (z, g) = plain e in
            rw (encode_block, e, decode-stored x s.vm_dicts b z g, same_refl (x.sha256 b)) refl
        | inr (c, e) ↦
            let (back, shorter) =
              decode-compress x law s.vm_dicts b (latest_dict s.vm_dicts) effort c
                (latest-held s.vm_dicts) e in
            rw (encode_block, e, back, same_refl (x.sha256 b)) refl
      ])
