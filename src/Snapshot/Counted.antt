-- ===== src/Snapshot/Counted.antt =====
-- The operations of src/vm/snapshot.rs and the count of the references.
use dbvm.Common.{ℕ, true, Text, map, keep, refl, arith}
use dbvm.Extern.{Extern}
use dbvm.Db.{FsRow, Db, for_each, modify, gets, ◌>>=◌, LogRow}
use dbvm.Db.Chunks.{insert_chunk, delete_chunks}
use dbvm.Db.Nodes.{insert_row, delete_row}
use dbvm.Db.Refs.{
  IsCounted, refcnt_of-bump_each, rows_of-bump_each, saved_refs-append, saved_refs-keep,
  refcnt_of-release_each, rows_of-release_each,
}
use dbvm.Db.Keeps.{Keeps, then-Keeps, bind-Keeps, gets-Keeps, in_savepoint-Keeps, for_each-Keeps}
use dbvm.Db.Counted.{
  delete_chunks-IsCounted, insert_row-IsCounted, delete_row-IsCounted, bypassed-IsCounted,
  same-IsCounted,
}
use dbvm.Store.Ranged.{finalize_dirty-IsCounted}
use dbvm.Store.{finalize_dirty}
use dbvm.Saved.{chunk_of, owned_chunk}
use dbvm.Saved.Counted.{insert_each-IsCounted, live-Held, snapshot-Held}
use dbvm.Snapshot.{
  copy_tree, drop_snapshot, log_op, insert_snapshot, snapshot_id, clear_tree, refill_tree,
  restore_tree, snapshot_create, snapshot_restore, snapshot_delete,
}

pub log_op-IsCounted : (row : LogRow) → Keeps IsCounted (modify (log_op row))
log_op-IsCounted row s = same-IsCounted s _ refl refl refl refl

insert_snapshot-IsCounted : (name note : Text) → Keeps IsCounted (insert_snapshot name note)
unfolding insert_snapshot
insert_snapshot-IsCounted name note s =
    same-IsCounted s _ (ground arith) (ground arith) (ground arith) (ground arith)

snapshot_id-IsCounted : (name : Text) → Keeps IsCounted (snapshot_id name)
unfolding snapshot_id
snapshot_id-IsCounted name s =
    same-IsCounted s _ (ground arith) (ground arith) (ground arith) (ground arith)

copy_tree-IsCounted : (id : ℕ) → Keeps IsCounted (modify (copy_tree id))
unfolding copy_tree
copy_tree-IsCounted id s h = record {
  counted = λ k. omega (
    arith,
    refcnt_of-bump_each k s.vm_file_chunks s.vm_blobs h.unique (live-Held s h),
    saved_refs-append k id s.vm_snapshot_chunks s.vm_file_chunks,
    h.counted k,
  );
  unique = λ k. omega (arith, rows_of-bump_each k s.vm_file_chunks s.vm_blobs, h.unique k);
  keyed = h.keyed;
}

drop_snapshot-IsCounted : (id : ℕ) → Keeps IsCounted (modify (drop_snapshot id))
unfolding drop_snapshot
drop_snapshot-IsCounted id s h =
    let gone = map chunk_of (keep (owned_chunk id) s.vm_snapshot_chunks) in
    record {
      counted = λ k. omega (
        arith,
        refcnt_of-release_each k gone s.vm_blobs h.unique,
        saved_refs-keep k (owned_chunk id) s.vm_snapshot_chunks,
        h.counted k,
      );
      unique = λ k. omega (arith, rows_of-release_each k gone s.vm_blobs, h.unique k);
      keyed = h.keyed;
    }

module _ (x : Extern) where
  -- Taking a snapshot keeps the count of the references: the chunk rows that it copies count their
  -- blobs once more.
  pub snapshot_create-IsCounted :
      (name note : Text) (s : Db) → IsCounted s → IsCounted (snapshot_create x name note s).1
  unfolding snapshot_create
  snapshot_create-IsCounted name note =
      bind-Keeps IsCounted (finalize_dirty x) _ (finalize_dirty-IsCounted x) (λ n.
        in_savepoint-Keeps IsCounted _ (
          bind-Keeps IsCounted (insert_snapshot name note) _ (insert_snapshot-IsCounted name note)
            (λ id.
              then-Keeps IsCounted (modify (copy_tree id)) _ (copy_tree-IsCounted id)
                (then-Keeps IsCounted (modify _) _ (log_op-IsCounted _) (λ s h. h)))))

-- Deleting a snapshot keeps the count of the references: the blobs that only it held are gone, those
-- that the live tree, another snapshot or an undo record holds stay.
pub snapshot_delete-IsCounted :
    (name : Text) (s : Db) → IsCounted s → IsCounted (snapshot_delete name s).1
unfolding snapshot_delete
snapshot_delete-IsCounted name =
    bind-Keeps IsCounted (snapshot_id name) _ (snapshot_id-IsCounted name) (λ id.
      in_savepoint-Keeps IsCounted _ (
        then-Keeps IsCounted (modify (drop_snapshot id)) _ (drop_snapshot-IsCounted id)
          (log_op-IsCounted _)))

clear_tree-IsCounted : Keeps IsCounted clear_tree
unfolding clear_tree
clear_tree-IsCounted =
    then-Keeps IsCounted (delete_chunks (λ c. true)) _ (delete_chunks-IsCounted (λ c. true)) (
      gets-Keeps IsCounted _ _ (λ rows.
        for_each-Keeps IsCounted (λ (r : FsRow). delete_row r.path)
          (λ r. delete_row-IsCounted r.path) rows))

refill_chunks-IsCounted :
    (id : ℕ)
    → Keeps IsCounted (
        gets (λ s. map chunk_of (keep (owned_chunk id) s.vm_snapshot_chunks))
        >>= for_each insert_chunk)
unfolding ◌>>=◌
refill_chunks-IsCounted id s h = insert_each-IsCounted _ s h (snapshot-Held s (owned_chunk id) h)

refill_tree-IsCounted : (id : ℕ) → Keeps IsCounted (refill_tree id)
unfolding refill_tree
refill_tree-IsCounted id = gets-Keeps IsCounted _ _ (λ nodes.
    then-Keeps IsCounted (for_each insert_row nodes) _
      (for_each-Keeps IsCounted insert_row insert_row-IsCounted nodes) (refill_chunks-IsCounted id))

restore_tree-IsCounted : (name : Text) → Keeps IsCounted (restore_tree name)
unfolding restore_tree
restore_tree-IsCounted name =
    bind-Keeps IsCounted (snapshot_id name) _ (snapshot_id-IsCounted name) (λ id.
      in_savepoint-Keeps IsCounted _ (
        then-Keeps IsCounted clear_tree _ clear_tree-IsCounted (
          then-Keeps IsCounted (refill_tree id) _ (refill_tree-IsCounted id) (log_op-IsCounted _))))

-- Restoring a snapshot keeps the count of the references: the chunk rows that it takes out of the tree
-- release their blobs, those that it puts back name blobs that the snapshot holds, and a restore that
-- fails leaves them as they were.
pub snapshot_restore-IsCounted :
    (name : Text) (s : Db) → IsCounted s → IsCounted (snapshot_restore name s).1
unfolding snapshot_restore
snapshot_restore-IsCounted name =
    bypassed-IsCounted (restore_tree name) (restore_tree-IsCounted name)
