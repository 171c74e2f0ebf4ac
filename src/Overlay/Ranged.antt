-- ===== src/Overlay/Ranged.antt =====
-- The ranged writes and truncation of src/overlay.rs: only the chunks that a call touches are written
-- to the Delta.
use dbvm.Common.{
  ℕ, zero, suc, ◌+◌, ◌-◌, ◌*◌, ◌/◌, min, max, ◌&&◌, Option, none, some, [], ◌++◌, Text, Bytes, ltb,
  leb, ◌==◌, if◌then◌else◌, length, take,
}
use dbvm.Common.Int.{pos, ◌-ℤ◌}
use dbvm.VmPath.{normalize_vm_path}
use dbvm.Extern.{Extern}
use dbvm.Codec.{archive}
use dbvm.Db.{file, FsRow, Result, ok, err, not_found, Tx, after, ◌>>=◌, ◌>>◌, gets, lift}
use dbvm.Db.Chunks.{of_path, at_index, insert_chunk, delete_chunks}
use dbvm.Db.Nodes.{find_row, insert_row, update_row}
use dbvm.Read.{chunk_size}
use dbvm.Store.{blob_ensure_with, chunk_row, overlay_piece, zero_fill}
use dbvm.Overlay.{
  Overlay, Layer, delta_layer, missing, lookup_file, check_base_policy, check_base_max_file,
  check_base_quota, clear_whiteouts_for, held_in_delta, commit, checked,
}
use dbvm.Overlay.Layered.{layer_db, read_chunk_layered}

-- A file as the overlay shows it: where it is, its size and its mode.
pub record Shown : Type 0 where
  pub layer : Layer
  pub size : ℕ
  pub mode : ℕ

unfoldable pub shown : Overlay → Text → Option Shown
unfolding lookup_file find_row
shown o p = elim (lookup_file o p) [
  | none ↦ none
  | some layer ↦ elim (find_row p (layer_db o layer).vm_fs) [
    | none ↦ none
    | some r ↦ some (record { layer = layer; size = r.size; mode = r.mode })
  ]
]

-- What a write starts from: the file, or an empty one of mode 0o644.
abbrev pub shown_or_new : Option Shown → Shown
shown_or_new (some f) = f
shown_or_new none = record { layer = missing; size = 0; mode = 420 }

-- The row that the first write of a file puts in the Delta.
abbrev pub delta_row : Text → ℕ → ℕ → ℕ → FsRow
delta_row p mode mtime size = record {
  path = p;
  kind = file;
  mode = mode;
  mtime = mtime;
  mtime_ns = 0;
  size = size;
  link_target = none;
  hash = some [];
  content = none;
  compressed = 0;
}

-- Make sure that the Delta has a row of the file: inserted once, then updated in place.
unfoldable pub ensure_delta_file_row : Text → ℕ → ℕ → ℕ → Tx (Unit {0})
unfolding find_row update_row insert_row
ensure_delta_file_row p mode mtime size s = elim (find_row p s.vm_fs) [
  | some old ↦ update_row p (λ r. record r { size = size; mtime = mtime }) s
  | none ↦ insert_row (delta_row p mode mtime size) s
]

module _ (x : Extern) where
  -- The piece becomes chunk `idx` of the Delta's file.
  unfoldable pub put_delta_chunk : Text → ℕ → Bytes → Tx (Unit {0})
  unfolding blob_ensure_with delete_chunks insert_chunk
  put_delta_chunk p idx piece = do
    blob_ensure_with x (x.sha256 piece) piece archive
    delete_chunks (at_index p idx)
    insert_chunk (chunk_row x p idx piece)

  -- One round: the chunk as the layers show it, filled up, with the new bytes over it.
  unfoldable pub write_delta_chunk : Overlay → Shown → Text → ℕ → ℕ → Bytes → ℕ → Tx (Unit {0})
  unfolding read_chunk_layered overlay_piece put_delta_chunk
  write_delta_chunk o f p new_size off b idx = do
    let base = idx * chunk_size
    let chunk_end = min (base + chunk_size) new_size
    found ← gets (λ s.
        if ltb base f.size
        then read_chunk_layered x (record o { main = s }) f.layer p idx
        else ok [])
    piece ← lift found
    put_delta_chunk p idx (overlay_piece base chunk_end b off (zero_fill (chunk_end - base) piece))

  -- `for idx in first..=last`: the rounds left, and the index of the next one.
  unfoldable pub write_delta_chunks : Overlay → Shown → Text → ℕ → ℕ → Bytes → ℕ → ℕ → Tx (Unit {0})
  unfolding write_delta_chunk
  write_delta_chunks o f p new_size off b zero idx s = (ok tt, s)
  write_delta_chunks o f p new_size off b (suc n) idx s =
      let rest = write_delta_chunks o f p new_size off b n (idx + 1) in
      after (write_delta_chunk o f p new_size off b idx s) (λ _. rest)

  -- What `refresh_delta_file` feeds to the hash.
  unfoldable pub delta_content : Overlay → Text → ℕ → ℕ → Result Bytes
  unfolding read_chunk_layered
  delta_content o p zero idx = ok []
  delta_content o p (suc n) idx =
      let more = delta_content o p n (idx + 1) in
      elim (read_chunk_layered x o delta_layer p idx) [
        | err e ↦ err e
        | ok piece ↦ elim more [ err e ↦ err e | ok rest ↦ ok (piece ++ rest) ]
      ]

  -- Write the hash of the whole file and its size to the row of the Delta.
  unfoldable pub refresh_delta_file : Overlay → Text → ℕ → ℕ → Tx (Unit {0})
  unfolding delta_content update_row
  refresh_delta_file o p size mtime = do
    found ←
        gets
          (λ s. delta_content (record o { main = s }) p ((size + (chunk_size - 1)) / chunk_size) 0)
    whole ← lift found
    update_row p (λ r. record r { size = size; hash = some (x.sha256 whole); mtime = mtime })

  -- The body of the transaction of a ranged write.
  unfoldable pub write_delta : Overlay → Shown → Text → ℕ → Bytes → ℕ → Tx (Unit {0})
  unfolding ensure_delta_file_row write_delta_chunks refresh_delta_file
  write_delta o f p off b mtime =
      let new_size = max f.size (off + length b) in
      let first = min off f.size / chunk_size in
      let last = (off + length b - 1) / chunk_size in
      do
        ensure_delta_file_row p f.mode mtime new_size
        write_delta_chunks o f p new_size off b (last + 1 - first) first
        refresh_delta_file o p new_size mtime

  -- Write a byte range, copying only the chunks that it touches from the Base.
  unfoldable pub write_range : Overlay → Text → ℕ → Bytes → ℕ → Result (Unit {0}) × Overlay
  unfolding normalize_vm_path check_base_policy check_base_max_file check_base_quota shown
      clear_whiteouts_for write_delta find_row
  write_range o vm_path off b mtime =
      let p = normalize_vm_path vm_path in
      let size_after = max (shown_or_new (shown o p)).size (off + length b) in
      let held = held_in_delta o p in
      let growth = if ltb 0 held then pos size_after -ℤ pos held else pos size_after in
      let o' = clear_whiteouts_for o p in
      let done = commit o o' (write_delta o' (shown_or_new (shown o' p)) p off b mtime o'.main) in
      checked (check_base_policy o p)
        (if length b == 0
          then (ok tt, o)
          else checked (check_base_max_file o size_after)
              (checked (check_base_quota o growth) done o) o)
        o

  -- One round of a truncation: the chunk cut or filled up to what the new size leaves of it.
  unfoldable pub fit_chunk : Overlay → Shown → Text → ℕ → ℕ → Tx (Unit {0})
  unfolding read_chunk_layered put_delta_chunk
  fit_chunk o f p new_size idx = do
    let base = idx * chunk_size
    let want = min (new_size - base) chunk_size
    found ← gets (λ s.
        if ltb base f.size
        then read_chunk_layered x (record o { main = s }) f.layer p idx
        else ok [])
    piece ← lift found
    put_delta_chunk p idx (zero_fill want (take want piece))

  unfoldable pub fit_chunks : Overlay → Shown → Text → ℕ → ℕ → ℕ → Tx (Unit {0})
  unfolding fit_chunk
  fit_chunks o f p new_size zero idx s = (ok tt, s)
  fit_chunks o f p new_size (suc n) idx s =
      let rest = fit_chunks o f p new_size n (idx + 1) in
      after (fit_chunk o f p new_size idx s) (λ _. rest)

  unfoldable pub fit_delta : Overlay → Shown → Text → ℕ → ℕ → Tx (Unit {0})
  unfolding ensure_delta_file_row fit_chunks delete_chunks refresh_delta_file
  fit_delta o f p new_size mtime =
      let kept = (new_size + (chunk_size - 1)) / chunk_size in
      let tail_start = (if ltb new_size f.size then new_size else f.size) / chunk_size in
      do
        ensure_delta_file_row p f.mode mtime new_size
        fit_chunks o f p new_size (kept - tail_start) tail_start
        delete_chunks (λ c. of_path p c && leb kept c.idx)
        refresh_delta_file o p new_size mtime

  -- Truncate or extend a file, touching only the chunks that change.
  unfoldable pub truncate_range : Overlay → Text → ℕ → ℕ → Result (Unit {0}) × Overlay
  unfolding normalize_vm_path check_base_policy clear_whiteouts_for shown fit_delta
  truncate_range o vm_path new_size mtime =
      let p = normalize_vm_path vm_path in
      let o' = clear_whiteouts_for o p in
      checked (check_base_policy o p)
        (commit o o' (elim (shown o' p) [
          | none ↦ (err (not_found p), o'.main)
          | some f ↦
              let fitted = fit_delta o' f p new_size mtime o'.main in
              if new_size == f.size then (ok tt, o'.main) else fitted
        ]))
        o
