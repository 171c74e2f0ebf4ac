-- ===== src/Maint/Inline.antt =====
-- A legacy row of src/vm/maint.rs whose inline content `vm_recompress` has moved to a blob.
use dbvm.Common.{
  ◌<◌, true, Option, none, some, List, [], ◌∷◌, Text, Bytes, same, length, keep, ◌≡◌, refl, arith,
  ap, ◌∙◌,
}
use dbvm.Extern.{Extern}
use dbvm.Db.{file, FsRow, Blob, Db, ok, err, size_mismatch, ◌>>=◌, ◌>>◌}
use dbvm.Db.Blobs.{find_blob}
use dbvm.Db.Chunks.{of_path}
use dbvm.Db.Nodes.{find_row, update_row, replace_row}
use dbvm.Db.Keeps.{after-ok}
use dbvm.Read.{file_bytes, order_by_idx, join_chunks}
use dbvm.Store.{blob_ensure_with, blob_insert_row, add_blob}
use dbvm.Maint.{Shrunk, ensure_held, inline_to_blob, in_blob}

find_row-replace_row :
    (p : Text) (old new : FsRow) (rows : List FsRow)
    → find_row p rows ≡ some old
    → same new.path p ≡ true
    → find_row p (replace_row p new rows) ≡ some new
unfolding find_row replace_row
find_row-replace_row p old new [] e t = absurd (ground (arith, e))
find_row-replace_row p old new (r ∷ rs) e t =
    ground (arith, e, t, find_row-replace_row p old new rs)

find_row-path :
    (p : Text) (rows : List FsRow) (r : FsRow) → find_row p rows ≡ some r → same r.path p ≡ true
unfolding find_row
find_row-path p [] r e = absurd (ground (arith, e))
find_row-path p (q ∷ rows) r e = ground (arith, e, find_row-path p rows r)

update_row-ok :
    (p : Text) (f : FsRow → FsRow) (old : FsRow) (s : Db)
    → find_row p s.vm_fs ≡ some old
    → (update_row p f s).0 ≡ ok tt
    → (update_row p f s).1.vm_fs ≡ replace_row p (f old) s.vm_fs
unfolding update_row
update_row-ok p f old s at e = ground (arith, at, e)

update_row-chunks :
    (p : Text) (f : FsRow → FsRow) (s : Db) → (update_row p f s).1.vm_file_chunks ≡ s.vm_file_chunks
unfolding update_row
update_row-chunks p f s = ground arith

module _ (x : Extern) where
  ensure_held-tables :
      (raw : Bytes) (held : Option Blob) (s : Db)
      → ((ensure_held x raw held s).1.vm_fs ≡ s.vm_fs)
        × ((ensure_held x raw held s).1.vm_file_chunks ≡ s.vm_file_chunks)
  unfolding ensure_held blob_ensure_with blob_insert_row add_blob
  ensure_held-tables raw (some b) s = (refl, refl)
  ensure_held-tables raw none s = (ground arith, ground arith)

  empty_file :
      (p : Text) (r : FsRow) (s : Db)
      → find_row p s.vm_fs ≡ some r
      → r.kind ≡ file
      → keep (of_path p) s.vm_file_chunks ≡ []
      → 0 < r.size
      → file_bytes x s p ≡ err (size_mismatch p 0 r.size)
  unfolding file_bytes order_by_idx join_chunks
  empty_file p r s at regular no_chunks lt =
      rw (file_bytes, at, regular, no_chunks) (ground (arith, lt))

  moved :
      (r : FsRow) (raw : Bytes) (held : Option Blob) (s : Db) (n : Shrunk)
      → find_row r.path s.vm_fs ≡ some r
      → r.kind ≡ file
      → keep (of_path r.path) s.vm_file_chunks ≡ []
      → 0 < length raw
      → (stored : Option Blob)
      → (update_row r.path (in_blob (x.sha256 raw) stored (length raw)) s).0 ≡ ok tt
      → file_bytes x (update_row r.path (in_blob (x.sha256 raw) stored (length raw)) s).1 r.path
        ≡ err (size_mismatch r.path 0 (length raw))
  moved r raw held s n at regular no_chunks lt stored done =
      let f = in_blob (x.sha256 raw) stored (length raw) in
      empty_file r.path (f r) (update_row r.path f s).1
        (ap (find_row r.path) (update_row-ok r.path f r s at done)
          ∙ find_row-replace_row r.path r (f r) s.vm_fs at (find_row-path r.path s.vm_fs r at))
        regular (ap (keep (of_path r.path)) (update_row-chunks r.path f s) ∙ no_chunks) lt

  -- A legacy file with inline content and no chunk rows, as an old schema stored it, cannot be read
  -- after vm_recompress has moved its content to a blob: the row names the blob, no chunk row does.
  pub inline_to_blob-unreadable :
      (r : FsRow) (old_body raw : Bytes) (n m : Shrunk) (s : Db)
      → find_row r.path s.vm_fs ≡ some r
      → r.kind ≡ file
      → keep (of_path r.path) s.vm_file_chunks ≡ []
      → 0 < length raw
      → (inline_to_blob x r old_body raw n s).0 ≡ ok m
      → file_bytes x (inline_to_blob x r old_body raw n s).1 r.path
        ≡ err (size_mismatch r.path 0 (length raw))
  unfolding inline_to_blob ◌>>=◌ ◌>>◌
  inline_to_blob-unreadable r old_body raw n m s at regular no_chunks lt done =
      let key = x.sha256 raw in
      let held = find_blob key s.vm_blobs in
      let t = (ensure_held x raw held s).1 in
      let (rows, chunks) = ensure_held-tables raw held s in
      let stored = find_blob key t.vm_blobs in
      let (made, next, end) = after-ok (ensure_held x raw held s) _ m done in
      let (put, last, end') =
        after-ok (update_row r.path (in_blob key stored (length raw)) t) _ m next in
      rw (end, end') (moved r raw held t n (rw rows at) regular (rw chunks no_chunks) lt stored put)
