-- ===== src/Undo.antt =====
-- src/vm/undo.rs: the rows that a step changed, as they were before it.
pub mod Counted
use dbvm.Common.{
  ℕ, zero, suc, ◌+◌, ◌-◌, max, Bool, true, false, not, ◌&&◌, ◌||◌, Option, none, some, List, [],
  ◌∷◌, ◌++◌, map, Text, Bytes, same, ltb, leb, ◌==◌, if◌then◌else◌, keep, find, any, length, last?,
  pop,
}
use mathlib.Core.List.{reverse}
use dbvm.Common.Int.{pos, ◌-ℤ◌}
use dbvm.Common.Decimal.{to_string}
use dbvm.VmPath.{slash}
use dbvm.Policy.{like}
use dbvm.Db.{
  FsRow, Chunk, SavedNode, SavedChunk, Db, Tx, Result, ok, err, constraint, after, ◌>>=◌, ◌>>◌,
  pure, gets, modify, in_savepoint, for_each, bypassed, LogRow, undo_op,
}
use dbvm.Db.Chunks.{of_path, release_each, freed_bytes, insert_chunk}
use dbvm.Db.Nodes.{find_row, insert_row, delete_row}
use dbvm.Saved.{
  SnapDiff, text_le, order_texts, bump_each, save_chunk, save_node, owned_chunk, owned_node,
  chunk_of, restored, changed, find_saved,
}

unfoldable pub next_undo_id : List ℕ → ℕ
next_undo_id [] = 1
next_undo_id (i ∷ is) = max (i + 1) (next_undo_id is)

-- Open a new, empty undo record.
unfoldable pub undo_begin : Tx ℕ
unfolding next_undo_id
undo_begin s =
    let id = next_undo_id s.vm_undo in (ok id, record s { vm_undo = s.vm_undo ++ id ∷ [] })

-- The row as it is, with its chunk rows and vm_unc_ins behind them; or that there is none.
unfoldable pub record_path : ℕ → Text → Db → Db
unfolding find_row bump_each
record_path undo p s = elim (find_row p s.vm_fs) [
  | none ↦ record s {
    vm_undo_fs = s.vm_undo_fs ++ record { owner = undo; path = p; row = none } ∷ [];
  }
  | some r ↦
      let held = keep (of_path p) s.vm_file_chunks in
      record s {
        vm_undo_fs = s.vm_undo_fs ++ record { owner = undo; path = p; row = some r } ∷ [];
        vm_undo_chunks = s.vm_undo_chunks ++ map (save_chunk undo) held;
        vm_blobs = bump_each held s.vm_blobs;
      }
]

-- The foreign key of vm_undo_fs: the record has begun.
abbrev pub has_begun : ℕ → Db → Bool
has_begun undo s = any (λ i. i == undo) s.vm_undo

-- Record a path before it is written; only the first capture in a record counts.
unfoldable pub undo_capture : ℕ → Text → Tx (Unit {0})
unfolding find_saved record_path
undo_capture undo p s = elim (find_saved undo p s.vm_undo_fs) [
  | some n ↦ (ok tt, s)
  | none ↦ if has_begun undo s then (ok tt, record_path undo p s) else (err constraint, s)
]

abbrev all_slashes : Text → Bool
all_slashes [] = true
all_slashes (c ∷ s) = c == slash && all_slashes s

-- `trim_end_matches('/')`.
abbrev pub trim_slashes : Text → Text
trim_slashes [] = []
trim_slashes (c ∷ s) = if all_slashes (c ∷ s) then [] else c ∷ trim_slashes s

abbrev pub row_path : FsRow → Text
row_path r = r.path

-- `WHERE path=?1 OR path LIKE ?2`, with the pattern `<path>/%` and no escape.
unfoldable pub in_tree : Text → FsRow → Bool
unfolding like
in_tree p r = same r.path p || like false (trim_slashes p ++ slash ∷ b'%' ∷ []) r.path

-- Record a path and everything below it.
unfoldable pub undo_capture_tree : ℕ → Text → Tx (Unit {0})
unfolding in_tree for_each undo_capture
undo_capture_tree undo p s =
    for_each (undo_capture undo) (map row_path (keep (in_tree p) s.vm_fs)) s

abbrev undo_created : Db → List SavedNode → List Text
undo_created s [] = []
undo_created s (n ∷ ns) =
    let rest = undo_created s ns in
    elim n.row [
      | some old ↦ rest
      | none ↦ elim (find_row n.path s.vm_fs) [ none ↦ rest | some cur ↦ n.path ∷ rest ]
    ]

abbrev undo_deleted : Db → List SavedNode → List Text
undo_deleted s [] = []
undo_deleted s (n ∷ ns) =
    let rest = undo_deleted s ns in
    elim n.row [
      | none ↦ rest
      | some old ↦ elim (find_row n.path s.vm_fs) [ none ↦ n.path ∷ rest | some cur ↦ rest ]
    ]

abbrev undo_modified : Db → List SavedNode → List Text
undo_modified s [] = []
undo_modified s (n ∷ ns) =
    let rest = undo_modified s ns in
    elim n.row [
      | none ↦ rest
      | some old ↦ elim (find_row n.path s.vm_fs) [
        | none ↦ rest
        | some cur ↦ if changed old cur then n.path ∷ rest else rest
      ]
    ]

-- The change list of a step: its record against the live rows.
unfoldable pub undo_diff : ℕ → Db → SnapDiff
unfolding order_texts find_row changed
undo_diff undo s =
    let mine = keep (owned_node undo) s.vm_undo_fs in
    record {
      created = order_texts (undo_created s mine);
      modified = order_texts (undo_modified s mine);
      deleted = order_texts (undo_deleted s mine);
    }

-- `ORDER BY length(path) DESC, path`.
abbrev before_node : SavedNode → SavedNode → Bool
before_node a b =
    ltb (length b.path) (length a.path) || (length a.path == length b.path && text_le a.path b.path)

insert_node : SavedNode → List SavedNode → List SavedNode
unfolding text_le
insert_node n [] = n ∷ []
insert_node n (m ∷ ms) = if before_node n m then n ∷ m ∷ ms else m ∷ insert_node n ms

unfoldable pub deepest_first : List SavedNode → List SavedNode
unfolding insert_node
deepest_first [] = []
deepest_first (n ∷ ns) = insert_node n (deepest_first ns)

-- One path of the record, put back with its chunk rows.
unfoldable pub put_row : ℕ → Text → Option FsRow → Tx (Unit {0})
unfolding insert_row for_each insert_chunk
put_row undo p none = pure tt
put_row undo p (some r) = do
  insert_row (restored r)
  held ← gets (λ s. keep (of_path p) (map chunk_of (keep (owned_chunk undo) s.vm_undo_chunks)))
  for_each insert_chunk held

unfoldable pub put_back : ℕ → SavedNode → Tx (Unit {0})
unfolding put_row
put_back undo n = put_row undo n.path n.row

abbrev pub log_undo : ℕ → Db → Db
log_undo undo s = record s {
  vm_log = s.vm_log ++ record { op = undo_op; subject = to_string undo } ∷ [];
}

-- Every path of the record, deepest first out, shallowest first in.
unfoldable pub apply_rows : ℕ → List SavedNode → Tx (Unit {0})
unfolding for_each delete_row put_back to_string
apply_rows undo rows = do
  for_each (λ (n : SavedNode). delete_row n.path) rows
  for_each (put_back undo) (reverse rows)
  modify (log_undo undo)

unfoldable pub apply_record : ℕ → Tx (Unit {0})
unfolding in_savepoint deepest_first apply_rows
apply_record undo s =
    in_savepoint (apply_rows undo (deepest_first (keep (owned_node undo) s.vm_undo_fs))) s

-- Put every path of the record back, under the bypass.
unfoldable pub undo_apply : ℕ → Tx (Unit {0})
unfolding bypassed apply_record
undo_apply undo = bypassed (apply_record undo)

-- Drop an undo record; the blobs that only it referenced are released.
unfoldable pub undo_delete : ℕ → Tx (Unit {0})
unfolding release_each freed_bytes
undo_delete undo s =
    let gone = map chunk_of (keep (owned_chunk undo) s.vm_undo_chunks) in
    (
      ok tt,
      record s {
        vm_undo = keep (λ i. not (i == undo)) s.vm_undo;
        vm_undo_fs = keep (λ n. not (owned_node undo n)) s.vm_undo_fs;
        vm_undo_chunks = keep (λ c. not (owned_chunk undo c)) s.vm_undo_chunks;
        vm_blobs = release_each gone s.vm_blobs;
        counters = record s.counters {
          blob_bytes = s.counters.blob_bytes -ℤ pos (freed_bytes gone s.vm_blobs);
        };
      },
    )
