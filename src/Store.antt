-- ===== src/Store.antt =====
-- src/vm/store.rs and `ensure_parent_dirs` of src/vm/mod.rs: blob, chunk and node writes, ranged
-- writes and truncation. The content cache on the host and the chunk cache are left out: they hold
-- copies of what the database holds.
pub mod Counted
pub mod Kept
pub mod Ranged
pub mod Stream
use dbvm.Common.{
  ℕ, zero, suc, ◌+◌, ◌-◌, ◌*◌, ◌/◌, ◌%◌, min, max, Bool, true, false, not, ◌&&◌, ◌||◌, Option, none,
  some, List, [], ◌∷◌, ◌++◌, Text, Bytes, same, starts_with, ltb, leb, ◌==◌, if◌then◌else◌, length,
  take, drop, replicate, keep, find, any, pop,
}
use dbvm.VmPath.{slash, split_components, render, normalize_vm_path}
use dbvm.Extern.{Extern}
use dbvm.Codec.{Effort, archive, interactive, Encoded, compress_with_effort, latest_dict}
use dbvm.Db.{
  Key, Kind, file, dir, symlink, FsRow, Chunk, Blob, Db, Result, ok, err, Error, not_found,
  not_regular, bad_length, constraint, refused, Tx, after, ◌>>=◌, ◌>>◌, pure, fail, gets, lift,
  or_fail, modify, in_savepoint, for_each, LogRow, add_op,
}
use dbvm.Common.Int.{pos, ◌+ℤ◌}
use dbvm.Db.Blobs.{find_blob}
use dbvm.Db.Chunks.{of_path, at_index, chunk_at, insert_chunk, delete_chunks}
use dbvm.Db.Nodes.{find_row, insert_or_ignore_row, upsert_row, update_row, update_row_quiet}
use dbvm.Read.{chunk_size, chunk_bytes, read_range, resolve_path, is_regular}

-- `data.chunks(CHUNK_SIZE)`; the length of the data is fuel enough.
unfoldable pub chunks_of : ℕ → Bytes → List Bytes
chunks_of zero b = []
chunks_of (suc fuel) [] = []
chunks_of (suc fuel) (c ∷ b) = take chunk_size (c ∷ b) ∷ chunks_of fuel (drop chunk_size (c ∷ b))

unfoldable pub chunks : Bytes → List Bytes
unfolding chunks_of
chunks b = chunks_of (length b) b

abbrev pub directory : ℕ → Text → FsRow
directory now p = record {
  path = p;
  kind = dir;
  mode = 493;
  mtime = now;
  mtime_ns = 0;
  size = 0;
  link_target = none;
  hash = none;
  content = none;
  compressed = 0;
}

-- The loop of `ensure_parent_dirs` over the components of the parent: `cur` grows by one of them.
unfoldable pub ensure_each : Text → List Text → Tx (Unit {0})
unfolding insert_or_ignore_row
ensure_each cur [] s = (ok tt, s)
ensure_each cur (w ∷ ws) s =
    let p = cur ++ slash ∷ w in
    let rest = ensure_each p ws in after (insert_or_ignore_row (directory s.now p) s) (λ _. rest)

unfoldable pub ensure_parent_dirs : Text → Tx (Unit {0})
unfolding ensure_each split_components normalize_vm_path
ensure_parent_dirs vm_path = ensure_each [] (pop (split_components (normalize_vm_path vm_path)))

-- Upsert of a regular file's row; the nanosecond stamp of an old row stays.
abbrev pub file_row : Text → ℕ → ℕ → ℕ → ℕ → Key → FsRow
file_row p mode mtime mtime_ns size hash = record {
  path = p;
  kind = file;
  mode = mode;
  mtime = mtime;
  mtime_ns = mtime_ns;
  size = size;
  link_target = none;
  hash = some hash;
  content = none;
  compressed = 0;
}

abbrev pub keep_ns : FsRow → FsRow → FsRow
keep_ns new old = record new { path = old.path; mtime_ns = old.mtime_ns }

abbrev pub node_row : Text → Kind → ℕ → ℕ → Option Text → FsRow
node_row p kind mode mtime link = record {
  path = p;
  kind = kind;
  mode = mode;
  mtime = mtime;
  mtime_ns = 0;
  size = 0;
  link_target = link;
  hash = none;
  content = none;
  compressed = 0;
}

-- Upsert a non-file row; a file that it replaces releases its chunks.
unfoldable pub fs_put_node : Text → Kind → ℕ → ℕ → Option Text → Tx (Unit {0})
unfolding in_savepoint delete_chunks upsert_row
fs_put_node p kind mode mtime link = in_savepoint (do
  delete_chunks (of_path p)
  upsert_row (node_row p kind mode mtime link) (keep_ns (node_row p kind mode mtime link)))

unfoldable pub vm_add_symlink : Text → Text → Tx (Unit {0})
unfolding normalize_vm_path ensure_parent_dirs fs_put_node
vm_add_symlink vm_path target = do
  ensure_parent_dirs (normalize_vm_path vm_path)
  now ← gets (λ s. s.now)
  fs_put_node (normalize_vm_path vm_path) symlink 511 now (some target)

unfoldable pub vm_add_dir : Text → ℕ → ℕ → Tx (Unit {0})
unfolding normalize_vm_path ensure_parent_dirs fs_put_node
vm_add_dir vm_path mode mtime = do
  ensure_parent_dirs (normalize_vm_path vm_path)
  fs_put_node (normalize_vm_path vm_path) dir mode mtime none

-- Record a deferred write: the size and the time now, the hash later.
unfoldable pub mark_dirty : Text → ℕ → ℕ → Tx (Unit {0})
unfolding update_row same
mark_dirty p size mtime = do
  update_row p (λ r. record r { size = size; mtime = mtime })
  modify (λ s. if any (same p) s.vm_dirty then s else record s { vm_dirty = p ∷ s.vm_dirty })

-- The regular file that a path resolves to, with its size.
unfoldable pub regular_file : Text → Tx (Text × ℕ)
unfolding resolve_path find_row
regular_file vm_path = do
  found ← gets (λ s. resolve_path s vm_path)
  real ← lift found
  row ← gets (λ s. find_row real s.vm_fs)
  r ← or_fail row (not_found real)
  if is_regular r.kind then pure (real, r.size) else fail (not_regular real)

-- `v.resize(n, 0)` where `v` is not longer.
abbrev pub zero_fill : ℕ → Bytes → Bytes
zero_fill n b = b ++ replicate (n - length b) 0

-- The slice of `data`, which stands at `off`, over the part of the chunk from `base` that it covers.
unfoldable pub overlay_piece : ℕ → ℕ → Bytes → ℕ → Bytes → Bytes
overlay_piece base chunk_end fresh off piece =
    let from = max off base in
    let to = min (off + length fresh) chunk_end in
    if ltb from to
    then take (from - base) piece
      ++ (take (to - from) (drop (from - off) fresh) ++ drop (to - base) piece)
    else piece

-- A blob row is inserted, and vm_cnt_blob_ins counts its bytes.
unfoldable pub add_blob : Blob → Db → Db
add_blob b s = record s {
  vm_blobs = s.vm_blobs ++ b ∷ [];
  counters = record s.counters { blob_bytes = s.counters.blob_bytes +ℤ pos (length b.content) };
}

-- The row of vm_blobs; its refcnt is zero until a chunk row names it.
abbrev pub new_blob : Key → ℕ → Encoded → Blob
new_blob key raw_len enc = record {
  hash = key;
  content = enc.body;
  compressed = enc.flag;
  raw_size = raw_len;
  refcnt = 0;
  dict_id = enc.dict_id;
}

unfoldable pub blob_insert_row : Key → ℕ → Encoded → Tx (Unit {0})
unfolding find_blob add_blob
blob_insert_row key raw_len enc s = elim (find_blob key s.vm_blobs) [
  | some b ↦ (err constraint, s)
  | none ↦ (ok tt, add_blob (new_blob key raw_len enc) s)
]

module _ (x : Extern) where
  -- `compress_with_effort(...).unwrap_or_else(|| (data.to_vec(), 0, 0))`.
  unfoldable pub encode_block : Db → Bytes → Effort → Encoded
  unfolding compress_with_effort latest_dict
  encode_block s b effort = elim (compress_with_effort x b (latest_dict s.vm_dicts) effort) [
    | none ↦ record { body = b; flag = 0; dict_id = 0 }
    | some e ↦ e
  ]

  -- Ensure that a blob row exists for `key`.
  unfoldable pub blob_ensure_with : Key → Bytes → Effort → Tx (Unit {0})
  unfolding blob_insert_row encode_block
  blob_ensure_with key b effort s = elim (find_blob key s.vm_blobs) [
    | some old ↦ (ok tt, s)
    | none ↦ blob_insert_row key (length b) (encode_block s b effort) s
  ]

  abbrev pub chunk_row : Text → ℕ → Bytes → Chunk
  chunk_row p idx piece = record { path = p; idx = idx; hash = x.sha256 piece }

  -- One piece of a file: its blob, then the chunk row that names it.
  unfoldable pub store_piece : Text → ℕ → Bytes → Tx (Unit {0})
  unfolding blob_ensure_with insert_chunk
  store_piece p idx piece = do
    blob_ensure_with (x.sha256 piece) piece archive
    insert_chunk (chunk_row p idx piece)

  unfoldable pub store_pieces : Text → ℕ → List Bytes → Tx (Unit {0})
  unfolding store_piece
  store_pieces p idx [] s = (ok tt, s)
  store_pieces p idx (piece ∷ pieces) s =
      let rest = store_pieces p (idx + 1) pieces in after (store_piece p idx piece s) (λ _. rest)

  -- Store file content as chunks, in place of any previous chunk list.
  unfoldable pub chunks_replace : Text → Bytes → Tx (Unit {0})
  unfolding delete_chunks store_pieces chunks
  chunks_replace p b = do delete_chunks (of_path p); store_pieces p 0 (chunks b)

  -- Upsert a regular file: the chunk rows and the file row are one unit.
  unfoldable pub fs_put_file : Text → ℕ → ℕ → Bytes → Tx (Unit {0})
  unfolding in_savepoint chunks_replace upsert_row
  fs_put_file p mode mtime b =
      let row = file_row p mode mtime 0 (length b) (x.sha256 b) in
      in_savepoint (do chunks_replace p b; upsert_row row (keep_ns row))

  unfoldable pub vm_add_bytes : Text → Bytes → ℕ → ℕ → Tx (Unit {0})
  unfolding normalize_vm_path ensure_parent_dirs fs_put_file
  vm_add_bytes vm_path b mode mtime = do
    ensure_parent_dirs (normalize_vm_path vm_path)
    fs_put_file (normalize_vm_path vm_path) mode mtime b

  -- Delete the row of chunk `idx`, then insert it with its new key.
  unfoldable pub swap_chunk : Text → ℕ → Bytes → Tx (Unit {0})
  unfolding blob_ensure_with delete_chunks insert_chunk
  swap_chunk p idx piece = do
    blob_ensure_with (x.sha256 piece) piece interactive
    delete_chunks (at_index p idx)
    insert_chunk (chunk_row p idx piece)

  -- Point chunk `idx` at `piece`; an unchanged chunk is left alone.
  unfoldable pub put_chunk : Text → ℕ → Bytes → Tx (Unit {0})
  unfolding chunk_at same swap_chunk
  put_chunk p idx piece s = elim (chunk_at p idx s.vm_file_chunks) [
    | none ↦ swap_chunk p idx piece s
    | some c ↦ if same c.hash (x.sha256 piece) then (ok tt, s) else swap_chunk p idx piece s
  ]

  -- One round of a ranged write: the old bytes of the chunk, filled up, with the new ones over them.
  unfoldable pub write_chunk : Text → ℕ → ℕ → ℕ → Bytes → ℕ → Tx (Unit {0})
  unfolding read_range overlay_piece put_chunk
  write_chunk real old_size new_size off b idx = do
    let base = idx * chunk_size
    let chunk_end = min (base + chunk_size) new_size
    found ← gets (λ s. if ltb base old_size then read_range x s real base chunk_size else ok [])
    piece ← lift found
    put_chunk real idx (overlay_piece base chunk_end b off (zero_fill (chunk_end - base) piece))

  -- `for idx in first..=last`: the rounds left, and the index of the next one.
  unfoldable pub write_chunks : Text → ℕ → ℕ → ℕ → Bytes → ℕ → ℕ → Tx (Unit {0})
  unfolding write_chunk
  write_chunks real old_size new_size off b zero idx s = (ok tt, s)
  write_chunks real old_size new_size off b (suc n) idx s =
      let rest = write_chunks real old_size new_size off b n (idx + 1) in
      after (write_chunk real old_size new_size off b idx s) (λ _. rest)

  -- The chunks of a ranged write and those of the gap before it, then the mark.
  unfoldable pub write_all : Text → ℕ → ℕ → Bytes → ℕ → Tx (Unit {0})
  unfolding in_savepoint write_chunks mark_dirty
  write_all real old_size off b mtime =
      let new_size = max old_size (off + length b) in
      let first = min off old_size / chunk_size in
      let last = (off + length b - 1) / chunk_size in
      in_savepoint (do
        write_chunks real old_size new_size off b (last + 1 - first) first
        mark_dirty real new_size mtime)

  -- Write `b` at `off`, rewriting only the chunks it touches and those of the gap before it.
  unfoldable pub write_range_deferred : Text → ℕ → Bytes → ℕ → Tx (Unit {0})
  unfolding regular_file write_all
  write_range_deferred vm_path off b mtime = do
    (real, old_size) ← regular_file vm_path
    if length b == 0 then pure tt else write_all real old_size off b mtime

  -- The last chunk that stays, cut.
  unfoldable pub trim_chunk : Text → ℕ → ℕ → Tx (Unit {0})
  unfolding chunk_bytes put_chunk
  trim_chunk real new_size last = do
    found ← gets (λ s. chunk_bytes x s real last)
    piece ← lift found
    put_chunk real last (take (new_size - last * chunk_size) piece)

  -- Shrink a file: whole chunks go, and the last one that stays is trimmed.
  unfoldable pub shrink : Text → ℕ → ℕ → Tx (Unit {0})
  unfolding in_savepoint delete_chunks trim_chunk mark_dirty
  shrink real new_size mtime =
      let keep_chunks = (new_size + (chunk_size - 1)) / chunk_size in
      let partial = ltb 0 new_size && not (new_size % chunk_size == 0) in
      in_savepoint (do
        delete_chunks (λ c. of_path real c && leb keep_chunks c.idx)
        (if partial then trim_chunk real new_size (keep_chunks - 1) else pure tt)
        mark_dirty real new_size mtime)

  unfoldable pub truncate_range_deferred : Text → ℕ → ℕ → Tx (Unit {0})
  unfolding regular_file write_range_deferred shrink
  truncate_range_deferred vm_path new_size mtime = do
    (real, old_size) ← regular_file vm_path
    let grow = write_range_deferred real old_size (replicate (new_size - old_size) 0) mtime
    let fit = if ltb old_size new_size then grow else shrink real new_size mtime
    if new_size == old_size then pure tt else fit

  -- The content that `whole_file_hash` feeds to the hash, chunk by chunk: each chunk is read, checked
  -- against its key and against the length that the size implies.
  unfoldable pub hashed_content : Db → Text → ℕ → ℕ → ℕ → Result Bytes
  unfolding chunk_bytes
  hashed_content s p size zero idx = ok []
  hashed_content s p size (suc n) idx =
      let rest = hashed_content s p size n (idx + 1) in
      let want = min (size - idx * chunk_size) chunk_size in
      elim (chunk_bytes x s p idx) [
        | err e ↦ err e
        | ok piece ↦
            if length piece == want
            then elim rest [ err e ↦ err e | ok more ↦ ok (piece ++ more) ]
            else err (bad_length p idx)
      ]

  unfoldable pub whole_file_hash : Db → Text → ℕ → Result Key
  unfolding hashed_content
  whole_file_hash s p size =
      elim (hashed_content s p size ((size + (chunk_size - 1)) / chunk_size) 0) [
        | err e ↦ err e
        | ok b ↦ ok (x.sha256 b)
      ]

  unfoldable pub rehash : Text → Tx Bool
  unfolding in_savepoint find_row whole_file_hash update_row_quiet
  rehash p = in_savepoint (do
    row ← gets (λ s. find_row p s.vm_fs)
    r ← or_fail row (not_found p)
    found ← gets (λ s. whole_file_hash s p r.size)
    whole ← lift found
    update_row_quiet p (λ r. record r { hash = some whole })
    modify (λ s. record s { vm_dirty = keep (λ q. not (same p q)) s.vm_dirty })
    pure true)

  -- Recompute a stale hash; the result says whether it was stale.
  unfoldable pub finalize_file : Text → Tx Bool
  unfolding rehash
  finalize_file p s = (if any (same p) s.vm_dirty then rehash p else pure false) s

  unfoldable pub finalize_each : List Text → Tx ℕ
  unfolding finalize_file
  finalize_each [] s = (ok 0, s)
  finalize_each (p ∷ ps) s =
      let rest = finalize_each ps in
      after (finalize_file p s)
        (λ was s'. after (rest s') (λ n s''. (ok (if was then n + 1 else n), s'')))

  -- Recompute every stale hash; the number of the files.
  unfoldable pub finalize_dirty : Tx ℕ
  unfolding finalize_each
  finalize_dirty s = finalize_each s.vm_dirty s

  unfoldable pub write_range : Text → ℕ → Bytes → ℕ → Tx (Unit {0})
  unfolding in_savepoint write_range_deferred resolve_path finalize_file
  write_range vm_path off b mtime = in_savepoint (do
    write_range_deferred vm_path off b mtime
    found ← gets (λ s. resolve_path s vm_path)
    real ← lift found
    finalize_file real
    pure tt)

  unfoldable pub truncate_range : Text → ℕ → ℕ → Tx (Unit {0})
  unfolding in_savepoint truncate_range_deferred resolve_path finalize_file
  truncate_range vm_path new_size mtime = in_savepoint (do
    truncate_range_deferred vm_path new_size mtime
    found ← gets (λ s. resolve_path s vm_path)
    real ← lift found
    finalize_file real
    pure tt)
