-- ===== src/Read.antt =====
-- src/vm/read.rs: path resolution, whole-file and ranged reads. The reads are functions of one
-- database: the transaction that `in_read_snapshot` opens gives them a single snapshot. The chunk
-- cache is left out (`cache` = None).
pub mod Resolve
use dbvm.Common.{
  ℕ, zero, suc, ◌+◌, ◌-◌, ◌*◌, ◌/◌, ◌%◌, min, Bool, true, false, not, ◌&&◌, ◌||◌, Option, none,
  some, List, [], ◌∷◌, ◌++◌, Text, Bytes, same, starts_with, ltb, leb, ◌==◌, if◌then◌else◌, length,
  take, drop, keep, find, any, pop,
}
use dbvm.VmPath.{slash, split_components, render, normalize_vm_path}
use dbvm.Extern.{Extern}
use dbvm.Codec.{decode_block, decompress_bytes_raw}
use dbvm.Db.{
  Key, Kind, file, dir, symlink, FsRow, Chunk, Blob, Db, Result, ok, err, Error, not_found,
  is_directory, not_regular, no_content, symlink_loop, too_many_levels, corrupt_row, missing_chunk,
  chunk_gap, missing_blob, hash_mismatch, bad_length, size_mismatch,
}
use dbvm.Db.Blobs.{find_blob}
use dbvm.Db.Chunks.{of_path, chunk_at}
use dbvm.Db.Nodes.{find_row}

abbrev pub chunk_size : ℕ
chunk_size = 65536

-- What a read goes on with: nothing after an error.
abbrev pub and_then : {A B : Type 0} → Result A → (A → Result B) → Result B
and_then (err e) next = err e
and_then (ok a) next = next a

infixl 5 ◌>>=◌ ◌>>◌
abbrev pub ◌>>=◌ : {A B : Type 0} → Result A → (A → Result B) → Result B
r >>= next = and_then r next

abbrev pub ◌>>◌ : {B : Type 0} → Result (Unit {0}) → Result B → Result B
r >> later = and_then r (λ done. later)

abbrev pub or_err : {A : Type 0} → Option A → Error → Result A
or_err (some a) e = ok a
or_err none e = err e

abbrev pub guard : Bool → Error → Result (Unit {0})
guard holds e = if holds then ok tt else err e

-- `Path::parent` of a path in normal form, and `/` for the root.
unfoldable pub parent_dir : Text → Text
unfolding split_components
parent_dir p = render (pop (split_components p))

-- Where a link leads from the path that it stands at.
unfoldable pub link_next : Text → Text → Text
unfolding normalize_vm_path starts_with parent_dir same
link_next cur target = normalize_vm_path (
    if starts_with (slash ∷ []) target
    then normalize_vm_path target
    else if same (parent_dir cur) (slash ∷ [])
    then slash ∷ target
    else parent_dir cur ++ slash ∷ target)

abbrev target_of : FsRow → Text
target_of r = elim r.link_target [ none ↦ [] | some t ↦ t ]

abbrev pub is_symlink : Kind → Bool
is_symlink symlink = true
is_symlink _ = false

-- The rounds left, the paths visited, and the path to look at.
unfoldable pub resolve_loop : Text → List FsRow → ℕ → List Text → Text → Result Text
unfolding same find_row link_next
resolve_loop vm_path rows zero visited cur = err (too_many_levels vm_path)
resolve_loop vm_path rows (suc n) visited cur =
    if any (same cur) visited then err (symlink_loop cur) else elim (find_row cur rows) [
      | none ↦ err (not_found cur)
      | some r ↦ elim (is_symlink r.kind) [
        | true ↦ resolve_loop vm_path rows n (cur ∷ visited) (link_next cur (target_of r))
        | false ↦ ok cur
      ]
    ]

-- Follow symlinks and return the real path.
unfoldable pub resolve_path : Db → Text → Result Text
unfolding normalize_vm_path resolve_loop
resolve_path s vm_path = resolve_loop vm_path s.vm_fs 40 [] (normalize_vm_path vm_path)

-- Rows in the order of `idx`.
insert_by_idx : Chunk → List Chunk → List Chunk
insert_by_idx c [] = c ∷ []
insert_by_idx c (d ∷ ds) = if leb c.idx d.idx then c ∷ d ∷ ds else d ∷ insert_by_idx c ds

unfoldable pub order_by_idx : List Chunk → List Chunk
unfolding insert_by_idx
order_by_idx [] = []
order_by_idx (c ∷ cs) = insert_by_idx c (order_by_idx cs)

abbrev pub is_dir : Kind → Bool
is_dir dir = true
is_dir _ = false

abbrev pub is_regular : Kind → Bool
is_regular file = true
is_regular _ = false

module _ (x : Extern) where
  -- The blob of a chunk, decoded and checked against its key.
  unfoldable pub chunk_by_key : Db → Text → ℕ → Key → Result Bytes
  unfolding find_blob decode_block same
  chunk_by_key s path idx key = do
    b ← or_err (find_blob key s.vm_blobs) (missing_blob path idx)
    piece ← decode_block x s.vm_dicts b.content b.compressed b.dict_id
    guard (same (x.sha256 piece) key) (hash_mismatch path idx)
    ok piece

  -- Chunk `idx` of `path`.
  unfoldable pub chunk_bytes : Db → Text → ℕ → Result Bytes
  unfolding chunk_at chunk_by_key
  chunk_bytes s path idx = do
    c ← or_err (chunk_at path idx s.vm_file_chunks) (missing_chunk path idx)
    chunk_by_key s path idx c.hash

  -- The part of a chunk that the window [start, stop) takes.
  unfoldable pub window : ℕ → ℕ → ℕ → Bytes → Bytes
  window start stop idx piece =
      let from = min (start - idx * chunk_size) (length piece) in
      let to = min (stop - idx * chunk_size) (length piece) in
      if ltb from to then take (to - from) (drop from piece) else []

  -- The pieces of the rows, which have to stand at the indices from `expect` on.
  unfoldable pub read_rows : Db → Text → ℕ → ℕ → ℕ → List Chunk → Result Bytes
  unfolding chunk_by_key window
  read_rows s path start stop expect [] = ok []
  read_rows s path start stop expect (c ∷ cs) =
      let more = read_rows s path start stop (expect + 1) cs in
      do
        guard (c.idx == expect) (missing_chunk path expect)
        piece ← chunk_by_key s path c.idx c.hash
        rest ← more
        ok (window start stop c.idx piece ++ rest)

  -- The window [start, stop) of a file, not empty.
  unfoldable pub read_window : Db → Text → ℕ → ℕ → Result Bytes
  unfolding read_rows order_by_idx
  read_window s path start stop =
      let first = start / chunk_size in
      let last = (stop - 1) / chunk_size in
      let keys =
        order_by_idx
          (keep (λ c. of_path path c && (leb first c.idx && leb c.idx last)) s.vm_file_chunks) in
      do
        out ← read_rows s path start stop first keys
        guard (length keys == last - first + 1) (missing_chunk path last)
        ok out

  -- The bytes of [off, off + len) in the file, clamped to its size.
  unfoldable pub read_range : Db → Text → ℕ → ℕ → Result Bytes
  unfolding resolve_path find_row read_window
  read_range s vm_path off len = do
    real ← resolve_path s vm_path
    r ← or_err (find_row real s.vm_fs) (not_found real)
    guard (not (is_dir r.kind)) (is_directory vm_path)
    guard (is_regular r.kind) (not_regular vm_path)
    h ← or_err r.hash (corrupt_row real)
    let start = min off r.size
    let stop = min (start + len) r.size
    if start == stop then ok [] else read_window s real start stop

  -- The rows of a file behind a join with vm_blobs, read in order from the index `expect`.
  unfoldable pub join_chunks : Db → Text → ℕ → List Chunk → Result Bytes
  unfolding find_blob decode_block same
  join_chunks s path expect [] = ok []
  join_chunks s path expect (c ∷ cs) =
      let skipped = join_chunks s path expect cs in
      let rest = join_chunks s path (expect + 1) cs in
      elim (find_blob c.hash s.vm_blobs) [
        | none ↦ skipped
        | some b ↦ do
          guard (c.idx == expect) (chunk_gap path expect)
          piece ← decode_block x s.vm_dicts b.content b.compressed b.dict_id
          guard (same (x.sha256 piece) c.hash) (hash_mismatch path c.idx)
          more ← rest
          ok (piece ++ more)
      ]

  -- Assemble a regular file's bytes from its chunk list.
  unfoldable pub file_bytes : Db → Text → Result Bytes
  unfolding find_row order_by_idx join_chunks
  file_bytes s path = do
    r ← or_err (find_row path s.vm_fs) (not_regular path)
    guard (is_regular r.kind) (not_regular path)
    out ← join_chunks s path 0 (order_by_idx (keep (of_path path) s.vm_file_chunks))
    guard (length out == r.size) (size_mismatch path (length out) r.size)
    ok out

  -- Where a path ends up after following symlinks.
  pub record Resolved : Type 0 where
    pub path : Text
    pub kind : Kind
    pub content : Option Bytes
    pub mode : ℕ

  -- The content of a regular file's row: its chunks, or the bytes of a legacy row.
  unfoldable pub row_content : Db → FsRow → Result Bytes
  unfolding file_bytes decompress_bytes_raw
  row_content s r = elim r.hash [
    | some h ↦ file_bytes s r.path
    | none ↦ elim r.content [
      | some b ↦ decompress_bytes_raw x b r.compressed
      | none ↦ err (corrupt_row r.path)
    ]
  ]

  unfoldable pub resolve_in_snapshot : Db → Text → Result Resolved
  unfolding resolve_path find_row row_content
  resolve_in_snapshot s vm_path = do
    real ← resolve_path s vm_path
    r ← or_err (find_row real s.vm_fs) (not_found real)
    let node : Resolved = record { path = real; kind = r.kind; content = none; mode = r.mode }
    let whole : Result Resolved = (do b ← row_content s r; ok (record node { content = some b }))
    if is_dir r.kind then ok node else whole

  unfoldable pub vm_cat : Db → Text → Result Bytes
  unfolding resolve_in_snapshot
  vm_cat s vm_path = do
    r ← resolve_in_snapshot s vm_path
    guard (not (is_dir r.kind)) (is_directory vm_path)
    or_err r.content (no_content vm_path)
