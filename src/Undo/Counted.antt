-- ===== src/Undo/Counted.antt =====
-- The operations of src/vm/undo.rs and the count of the references.
use dbvm.Common.{
  Bool-cases, ℕ, Option, none, some, List, Text, map, keep, refl, arith, Option-cases, inl, inr,
}
use mathlib.Core.List.{reverse}
use dbvm.Db.{FsRow, SavedNode, Db, for_each, modify, gets, ◌>>=◌}
use dbvm.Db.Chunks.{insert_chunk, of_path}
use dbvm.Db.Nodes.{find_row, insert_row, delete_row}
use dbvm.Db.Refs.{
  IsCounted, refcnt_of-bump_each, rows_of-bump_each, saved_refs-append, saved_refs-keep,
  refcnt_of-release_each, rows_of-release_each,
}
use dbvm.Db.Keeps.{Keeps, then-Keeps, in_savepoint-Keeps, for_each-Keeps}
use dbvm.Db.Counted.{insert_row-IsCounted, delete_row-IsCounted, bypassed-IsCounted, same-IsCounted}
use dbvm.Saved.{chunk_of, owned_chunk, find_saved, restored}
use dbvm.Saved.Counted.{insert_each-IsCounted, live-Held, undo-Held, keep-Held}
use dbvm.Undo.{
  has_begun, record_path, undo_capture, undo_capture_tree, put_row, put_back, log_undo, apply_rows,
  apply_record, undo_apply, undo_delete,
}

record_path-IsCounted :
    (undo : ℕ) (p : Text) (s : Db) → IsCounted s → IsCounted (record_path undo p s)
unfolding record_path
record_path-IsCounted undo p s h = elim (Option-cases (find_row p s.vm_fs)) [
  | inl e ↦ rw (record_path, e) (same-IsCounted s _ refl refl refl refl h)
  | inr (r, e) ↦
      let held = keep (of_path p) s.vm_file_chunks in
      rw (record_path, e)
        (record {
          counted = λ k. omega (
            arith,
            refcnt_of-bump_each k held s.vm_blobs h.unique
                (keep-Held (of_path p) s.vm_file_chunks s (live-Held s h)),
            saved_refs-append k undo s.vm_undo_chunks held,
            h.counted k,
          );
          unique = λ k. omega (arith, rows_of-bump_each k held s.vm_blobs, h.unique k);
          keyed = h.keyed;
        })
]

pub undo_capture-IsCounted : (undo : ℕ) (p : Text) → Keeps IsCounted (undo_capture undo p)
unfolding undo_capture
undo_capture-IsCounted undo p s h = elim (Option-cases (find_saved undo p s.vm_undo_fs)) [
  | inl e ↦ elim (Bool-cases (has_begun undo s)) [
    | inl b ↦ rw (undo_capture, e, b) (record_path-IsCounted undo p s h)
    | inr b ↦ rw (undo_capture, e, b) h
  ]
  | inr (n, e) ↦ rw (undo_capture, e) h
]

-- Recording a subtree before a step keeps the count of the references: the chunk rows that the record
-- takes count their blobs, and a path that is recorded already is left alone.
pub undo_capture_tree-IsCounted :
    (undo : ℕ) (p : Text) (s : Db) → IsCounted s → IsCounted (undo_capture_tree undo p s).1
unfolding undo_capture_tree
undo_capture_tree-IsCounted undo p s h =
    for_each-Keeps IsCounted (undo_capture undo) (undo_capture-IsCounted undo) _ s h

put_chunks-IsCounted :
    (undo : ℕ) (p : Text)
    → Keeps IsCounted (
        gets (λ s. keep (of_path p) (map chunk_of (keep (owned_chunk undo) s.vm_undo_chunks)))
        >>= for_each insert_chunk)
unfolding ◌>>=◌
put_chunks-IsCounted undo p s h =
    insert_each-IsCounted _ s h (keep-Held (of_path p) _ s (undo-Held s (owned_chunk undo) h))

put_row-IsCounted :
    (undo : ℕ) (p : Text) (row : Option FsRow) → Keeps IsCounted (put_row undo p row)
unfolding put_row
put_row-IsCounted undo p none s h = h
put_row-IsCounted undo p (some r) s h =
    then-Keeps IsCounted (insert_row (restored r)) _ (insert_row-IsCounted (restored r))
      (put_chunks-IsCounted undo p) s h

put_back-IsCounted : (undo : ℕ) (n : SavedNode) → Keeps IsCounted (put_back undo n)
unfolding put_back
put_back-IsCounted undo n = put_row-IsCounted undo n.path n.row

apply_rows-IsCounted : (undo : ℕ) (rows : List SavedNode) → Keeps IsCounted (apply_rows undo rows)
unfolding apply_rows
apply_rows-IsCounted undo rows =
    then-Keeps IsCounted (for_each (λ (n : SavedNode). delete_row n.path) rows) _
      (for_each-Keeps IsCounted (λ (n : SavedNode). delete_row n.path)
        (λ n. delete_row-IsCounted n.path) rows)
      (then-Keeps IsCounted (for_each (put_back undo) (reverse rows)) (modify (log_undo undo))
        (for_each-Keeps IsCounted (put_back undo) (put_back-IsCounted undo) (reverse rows))
        (λ s. same-IsCounted s (log_undo undo s) refl refl refl refl))

-- Undoing a step keeps the count of the references: the chunk rows that it takes out release their
-- blobs, those that it puts back name blobs that the record holds, and an undo that fails leaves them
-- as they were.
pub undo_apply-IsCounted : (undo : ℕ) (s : Db) → IsCounted s → IsCounted (undo_apply undo s).1
unfolding undo_apply apply_record
undo_apply-IsCounted undo =
    bypassed-IsCounted (apply_record undo)
      (λ s h. in_savepoint-Keeps IsCounted (apply_rows undo _) (apply_rows-IsCounted undo _) s h)

-- Dropping an undo record keeps the count of the references: the blobs that only it held are gone.
pub undo_delete-IsCounted : (undo : ℕ) (s : Db) → IsCounted s → IsCounted (undo_delete undo s).1
unfolding undo_delete
undo_delete-IsCounted undo s h =
    let gone = map chunk_of (keep (owned_chunk undo) s.vm_undo_chunks) in
    record {
      counted = λ k. omega (
        arith,
        refcnt_of-release_each k gone s.vm_blobs h.unique,
        saved_refs-keep k (owned_chunk undo) s.vm_undo_chunks,
        h.counted k,
      );
      unique = λ k. omega (arith, rows_of-release_each k gone s.vm_blobs, h.unique k);
      keyed = h.keyed;
    }
