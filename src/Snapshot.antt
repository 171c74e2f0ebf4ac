-- ===== src/Snapshot.antt =====
-- src/vm/snapshot.rs: content snapshots, which copy metadata and chunk references, never a blob.
pub mod Counted
use dbvm.Common.{
  ℕ, zero, suc, ◌+◌, ◌-◌, max, Bool, true, false, not, ◌&&◌, ◌||◌, Option, none, some, List, [],
  ◌∷◌, ◌++◌, map, Text, Bytes, same, leb, ◌==◌, if◌then◌else◌, keep, find, any, length, take,
}
use dbvm.Common.Int.{pos, ◌-ℤ◌}
use dbvm.Common.Decimal.{to_string}
use dbvm.Extern.{Extern}
use dbvm.Db.{
  FsRow, Chunk, Snapshot, SavedNode, SavedChunk, Db, Tx, Result, ok, err, constraint,
  no_such_snapshot, after, ◌>>=◌, ◌>>◌, pure, fail, gets, lift, or_fail, modify, in_savepoint,
  for_each, bypassed, LogRow, snapshot_op, restore_op, snapshot_delete_op,
}
use dbvm.Db.Chunks.{release_each, freed_bytes, insert_chunk, delete_chunks}
use dbvm.Db.Nodes.{find_row, insert_row, delete_row}
use dbvm.Store.{finalize_dirty}
use dbvm.Saved.{
  SnapDiff, order_texts, bump_each, save_chunk, save_node, owned_chunk, owned_node, chunk_of,
  saved_rows, shallowest_first, changed, find_saved,
}

unfoldable pub find_snapshot : Text → List Snapshot → Option Snapshot
find_snapshot name snaps = find (λ n. same n.name name) snaps

unfoldable pub snapshot_id : Text → Tx ℕ
unfolding find_snapshot
snapshot_id name s = elim (find_snapshot name s.vm_snapshots) [
  | none ↦ (err (no_such_snapshot name), s)
  | some n ↦ (ok n.id, s)
]

unfoldable pub next_snapshot_id : List Snapshot → ℕ
next_snapshot_id [] = 1
next_snapshot_id (n ∷ ns) = max (n.id + 1) (next_snapshot_id ns)

-- The two INSERT ... SELECT of a snapshot, with vm_snc_ins behind each chunk row.
unfoldable pub copy_tree : ℕ → Db → Db
unfolding bump_each
copy_tree id s = record s {
  vm_snapshot_fs = s.vm_snapshot_fs ++ map (save_node id) s.vm_fs;
  vm_snapshot_chunks = s.vm_snapshot_chunks ++ map (save_chunk id) s.vm_file_chunks;
  vm_blobs = bump_each s.vm_file_chunks s.vm_blobs;
}

abbrev pub log_op : LogRow → Db → Db
log_op row s = record s { vm_log = s.vm_log ++ row ∷ [] }

-- The row of a new snapshot: its name is unique.
unfoldable pub insert_snapshot : Text → Text → Tx ℕ
unfolding find_snapshot next_snapshot_id
insert_snapshot name note s = elim (find_snapshot name s.vm_snapshots) [
  | some n ↦ (err constraint, s)
  | none ↦
      let id = next_snapshot_id s.vm_snapshots in
      (
        ok id,
        record s {
          vm_snapshots = s.vm_snapshots ++ record { id = id; name = name; note = note } ∷ [];
        },
      )
]

abbrev rename_in : ℕ → Text → List Snapshot → List Snapshot
rename_in id name [] = []
rename_in id name (n ∷ ns) =
    (if n.id == id then record n { name = name } else n) ∷ rename_in id name ns

-- `UPDATE vm_snapshots SET name=?1 WHERE id=?2`.
unfoldable pub rename_snapshot : ℕ → Text → Tx (Unit {0})
unfolding find_snapshot
rename_snapshot id name s = elim (find_snapshot name s.vm_snapshots) [
  | some n ↦ (err constraint, s)
  | none ↦ (ok tt, record s { vm_snapshots = rename_in id name s.vm_snapshots })
]

-- Delete a content snapshot: its rows go with it, and vm_snc_del releases their blobs.
unfoldable pub drop_snapshot : ℕ → Db → Db
unfolding release_each freed_bytes
drop_snapshot id s =
    let gone = map chunk_of (keep (owned_chunk id) s.vm_snapshot_chunks) in
    record s {
      vm_snapshots = keep (λ n. not (n.id == id)) s.vm_snapshots;
      vm_snapshot_fs = keep (λ n. not (owned_node id n)) s.vm_snapshot_fs;
      vm_snapshot_chunks = keep (λ c. not (owned_chunk id c)) s.vm_snapshot_chunks;
      vm_blobs = release_each gone s.vm_blobs;
      counters = record s.counters {
        blob_bytes = s.counters.blob_bytes -ℤ pos (freed_bytes gone s.vm_blobs);
      };
    }

unfoldable pub snapshot_delete : Text → Tx (Unit {0})
unfolding snapshot_id in_savepoint drop_snapshot
snapshot_delete name = do
  id ← snapshot_id name
  in_savepoint (do
    modify (drop_snapshot id)
    modify (log_op (record { op = snapshot_delete_op; subject = name })))

-- The loop of `snapshot_retain`.
unfoldable pub delete_each : List Text → Tx (Unit {0})
unfolding snapshot_delete
delete_each [] s = (ok tt, s)
delete_each (name ∷ names) s =
    let rest = delete_each names in after (snapshot_delete name s) (λ _. rest)

abbrev snapshot_name : Snapshot → Text
snapshot_name n = n.name

-- Keep the newest snapshots and delete the rest: the names removed, oldest first. Rows are appended
-- with growing ids, so the table is in the order of its ids.
unfoldable pub snapshot_retain : ℕ → Tx (List Text)
unfolding delete_each
snapshot_retain newest s =
    let names = map snapshot_name s.vm_snapshots in
    let dropped = take (length names - newest) names in
    after (delete_each dropped s) (λ _ s'. (ok dropped, s'))

-- The chunk rows, then the rows, of the live tree.
unfoldable pub clear_tree : Tx (Unit {0})
unfolding delete_chunks for_each delete_row
clear_tree = do
  delete_chunks (λ c. true)
  rows ← gets (λ s. s.vm_fs)
  for_each (λ (r : FsRow). delete_row r.path) rows

-- The rows of a snapshot, then its chunk rows, into the live tree.
unfoldable pub refill_tree : ℕ → Tx (Unit {0})
unfolding shallowest_first for_each insert_row insert_chunk
refill_tree id = do
  nodes ← gets (λ s. shallowest_first (saved_rows (keep (owned_node id) s.vm_snapshot_fs)))
  for_each insert_row nodes
  pieces ← gets (λ s. map chunk_of (keep (owned_chunk id) s.vm_snapshot_chunks))
  for_each insert_chunk pieces

-- The tree is taken out and the snapshot's tree put in: one unit.
unfoldable pub restore_tree : Text → Tx (Unit {0})
unfolding snapshot_id in_savepoint clear_tree refill_tree
restore_tree name = do
  id ← snapshot_id name
  in_savepoint
      (do clear_tree; refill_tree id; modify (log_op (record { op = restore_op; subject = name })))

-- Replace the live tree with a snapshot's tree, under the bypass.
unfoldable pub snapshot_restore : Text → Tx (Unit {0})
unfolding bypassed restore_tree
snapshot_restore name = bypassed (restore_tree name)

-- The paths whose row differs from the snapshot, among those that it knows or does not know.
abbrev created_since : ℕ → List SavedNode → List FsRow → List Text
created_since id saved [] = []
created_since id saved (r ∷ rs) = elim (find_saved id r.path saved) [
  | none ↦ r.path ∷ created_since id saved rs
  | some n ↦ created_since id saved rs
]

abbrev modified_since : ℕ → List SavedNode → List FsRow → List Text
modified_since id saved [] = []
modified_since id saved (r ∷ rs) =
    let rest = modified_since id saved rs in
    elim (find_saved id r.path saved) [
      | none ↦ rest
      | some n ↦ elim n.row [
        | none ↦ rest
        | some old ↦ if changed old r then r.path ∷ rest else rest
      ]
    ]

abbrev deleted_since : List FsRow → List SavedNode → List Text
deleted_since rows [] = []
deleted_since rows (n ∷ ns) = elim (find_row n.path rows) [
  | none ↦ n.path ∷ deleted_since rows ns
  | some r ↦ deleted_since rows ns
]

unfoldable pub diff_live : ℕ → Db → SnapDiff
unfolding order_texts find_saved changed find_row
diff_live id s = record {
  created = order_texts (created_since id s.vm_snapshot_fs s.vm_fs);
  modified = order_texts (modified_since id s.vm_snapshot_fs s.vm_fs);
  deleted = order_texts (deleted_since s.vm_fs (keep (owned_node id) s.vm_snapshot_fs));
}

module _ (x : Extern) where
  -- Capture the whole live tree under a name.
  unfoldable pub snapshot_create : Text → Text → Tx ℕ
  unfolding finalize_dirty in_savepoint insert_snapshot copy_tree
  snapshot_create name note = do
    n ← finalize_dirty x
    in_savepoint (do
      id ← insert_snapshot name note
      modify (copy_tree id)
      modify (log_op (record { op = snapshot_op; subject = name }))
      pure id)

  -- As above, under the name `<prefix>-<id>`; `placeholder` is a name that no other row has.
  unfoldable pub snapshot_create_named : Text → Text → Text → Tx (ℕ × Text)
  unfolding finalize_dirty in_savepoint insert_snapshot rename_snapshot copy_tree to_string
  snapshot_create_named placeholder prefix note = do
    n ← finalize_dirty x
    in_savepoint (do
      id ← insert_snapshot placeholder note
      let name = prefix ++ b'-' ∷ to_string id
      rename_snapshot id name
      modify (copy_tree id)
      modify (log_op (record { op = snapshot_op; subject = name }))
      pure (id, name))

  -- Compare the live tree with a snapshot.
  unfoldable pub snapshot_diff_live : Text → Tx SnapDiff
  unfolding finalize_dirty snapshot_id diff_live
  snapshot_diff_live name = do n ← finalize_dirty x; id ← snapshot_id name; gets (diff_live id)
