-- ===== src/Overlay/Layered.antt =====
-- The reads of src/overlay.rs: a file that the Delta holds keeps only the chunks that were written, and
-- the Base has the others. A read is a function of the two databases of one connection.
use dbvm.Common.{
  ℕ, zero, suc, ◌+◌, ◌-◌, ◌*◌, ◌/◌, min, Bool, none, some, List, [], ◌∷◌, ◌++◌, Text, Bytes, same,
  leb, ◌==◌, if◌then◌else◌, length, take, keep,
}
use dbvm.VmPath.{normalize_vm_path}
use dbvm.Extern.{Extern}
use dbvm.Codec.{decode_block}
use dbvm.Db.{
  Chunk, Db, Result, ok, not_found, not_regular, missing_chunk, missing_blob, chunk_gap,
  hash_mismatch, bad_length, size_mismatch,
}
use dbvm.Db.Blobs.{find_blob}
use dbvm.Db.Chunks.{of_path, chunk_at}
use dbvm.Db.Nodes.{find_row}
use dbvm.Read.{chunk_size, ◌>>=◌, ◌>>◌, or_err, guard, is_regular, window, order_by_idx}
use dbvm.Overlay.{Overlay, Layer, base_layer, lookup_file}

abbrev pub layer_db : Overlay → Layer → Db
layer_db o base_layer = o.base
layer_db o _ = o.main

-- The largest `idx` plus one, and zero without a row.
unfoldable pub next_idx : List Chunk → ℕ
next_idx [] = 0
next_idx (c ∷ cs) = let rest = next_idx cs in if leb rest c.idx then c.idx + 1 else rest

-- True when the chunk list of a layer has no gap: the number of its rows is the index after the last.
unfoldable pub chunks_are_dense : Db → Text → Bool
unfolding next_idx
chunks_are_dense s p = let rows = keep (of_path p) s.vm_file_chunks in next_idx rows == length rows

module _ (x : Extern) where
  -- One chunk of a file from one layer, checked against its key.
  unfoldable pub read_chunk : Db → Text → ℕ → Result Bytes
  unfolding chunk_at find_blob decode_block same
  read_chunk s p idx = do
    c ← or_err (chunk_at p idx s.vm_file_chunks) (missing_chunk p idx)
    b ← or_err (find_blob c.hash s.vm_blobs) (missing_chunk p idx)
    piece ← decode_block x s.vm_dicts b.content b.compressed b.dict_id
    guard (same (x.sha256 piece) c.hash) (hash_mismatch p idx)
    ok piece

  -- One chunk of a file: what the Delta has no row for comes from the Base, and is empty where the
  -- Base has none either.
  unfoldable pub read_chunk_layered : Overlay → Layer → Text → ℕ → Result Bytes
  unfolding read_chunk chunk_at
  read_chunk_layered o base_layer p idx = read_chunk o.base p idx
  read_chunk_layered o _ p idx = elim (chunk_at p idx o.main.vm_file_chunks) [
    | some c ↦ read_chunk o.main p idx
    | none ↦ elim (chunk_at p idx o.base.vm_file_chunks) [
      | some d ↦ read_chunk o.base p idx
      | none ↦ ok []
    ]
  ]

  -- `for idx in first..=last`: the rounds left, and the index of the next one.
  unfoldable pub read_pieces : Overlay → Layer → Text → ℕ → ℕ → ℕ → ℕ → Result Bytes
  unfolding read_chunk_layered window
  read_pieces o layer p start stop zero idx = ok []
  read_pieces o layer p start stop (suc n) idx =
      let more = read_pieces o layer p start stop n (idx + 1) in
      do
        piece ← read_chunk_layered o layer p idx
        rest ← more
        ok (window x start stop idx piece ++ rest)

  -- The pieces of a window that is not empty have to fill it.
  unfoldable pub read_span : Overlay → Layer → Text → ℕ → ℕ → Result Bytes
  unfolding read_pieces
  read_span o layer p start stop =
      let first = start / chunk_size in
      let last = (stop - 1) / chunk_size in
      do
        out ← read_pieces o layer p start stop (last + 1 - first) first
        guard (length out == stop - start) (size_mismatch p (length out) (stop - start))
        ok out

  -- A byte range of a file, clamped to its size.
  unfoldable pub read_range : Overlay → Text → ℕ → ℕ → Result Bytes
  unfolding normalize_vm_path lookup_file find_row read_span
  read_range o vm_path off len = do
    let p = normalize_vm_path vm_path
    layer ← or_err (lookup_file o p) (not_found p)
    r ← or_err (find_row p (layer_db o layer).vm_fs) (not_found p)
    let start = min off r.size
    let stop = min (start + len) r.size
    if start == stop then ok [] else read_span o layer p start stop

  -- The chunks of a file from `idx` on, each cut to what the size leaves of it. Only the last one may
  -- be longer.
  unfoldable pub layered_pieces : Overlay → Layer → Text → ℕ → ℕ → ℕ → Result Bytes
  unfolding read_chunk_layered
  layered_pieces o layer p size zero idx = ok []
  layered_pieces o layer p size (suc n) idx =
      let more = layered_pieces o layer p size n (idx + 1) in
      let want = min (size - idx * chunk_size) chunk_size in
      do
        piece ← read_chunk_layered o layer p idx
        guard (if n == 0 then leb want (length piece) else length piece == want) (bad_length p idx)
        rest ← more
        ok (take want piece ++ rest)

  unfoldable pub read_file_layered : Overlay → Layer → Text → Result Bytes
  unfolding find_row layered_pieces
  read_file_layered o layer p = do
    r ← or_err (find_row p (layer_db o layer).vm_fs) (not_found p)
    guard (is_regular r.kind) (not_regular p)
    out ← layered_pieces o layer p r.size ((r.size + (chunk_size - 1)) / chunk_size) 0
    guard (length out == r.size) (size_mismatch p (length out) r.size)
    ok out

  -- The rows of a file in order, each with its block.
  unfoldable pub dense_rows : Db → Text → ℕ → List Chunk → Result Bytes
  unfolding find_blob decode_block same
  dense_rows s p expect [] = ok []
  dense_rows s p expect (c ∷ cs) =
      let more = dense_rows s p (expect + 1) cs in
      do
        guard (c.idx == expect) (chunk_gap p expect)
        b ← or_err (find_blob c.hash s.vm_blobs) (missing_blob p c.idx)
        piece ← decode_block x s.vm_dicts b.content b.compressed b.dict_id
        guard (same (x.sha256 piece) c.hash) (hash_mismatch p c.idx)
        rest ← more
        ok (piece ++ rest)

  unfoldable pub read_dense : Db → Text → Result Bytes
  unfolding dense_rows order_by_idx find_row
  read_dense s p = do
    r ← or_err (find_row p s.vm_fs) (not_found p)
    out ← dense_rows s p 0 (order_by_idx (keep (of_path p) s.vm_file_chunks))
    guard (is_regular r.kind) (not_regular p)
    guard (length out == r.size) (size_mismatch p (length out) r.size)
    ok out

  unfoldable pub read_from : Overlay → Layer → Text → Result Bytes
  unfolding chunks_are_dense read_dense read_file_layered
  read_from o layer p =
      let whole = read_file_layered o layer p in
      if chunks_are_dense (layer_db o layer) p then read_dense (layer_db o layer) p else whole

  -- Read a regular file through the overlay.
  unfoldable pub read : Overlay → Text → Result Bytes
  unfolding normalize_vm_path lookup_file read_from
  read o vm_path = do
    let p = normalize_vm_path vm_path
    layer ← or_err (lookup_file o p) (not_found p)
    read_from o layer p
