-- ===== src/Tree/Counted.antt =====
-- The syncs of src/vm/tree.rs and the count of the references.
use dbvm.Common.{ℕ, Bool, true, false, Option, none, some, List, Text, Bytes}
use dbvm.Extern.{Extern}
use dbvm.Db.{Kind, file, dir, symlink, FsRow, Db, Result, ok, Tx, ◌>>◌, pure, lift}
use dbvm.Db.Nodes.{update_row_quiet}
use dbvm.Db.Chunks.{of_path, delete_chunks}
use dbvm.Db.Refs.{IsCounted}
use dbvm.Db.Keeps.{
  Keeps, then-Keeps, bind-Keeps, gets-Keeps, lift-Keeps, if-Keeps, in_savepoint-Keeps,
}
use dbvm.Db.Counted.{update_row_quiet-IsCounted, upsert_row-IsCounted, delete_chunks-IsCounted}
use dbvm.Store.{fs_put_node, node_row}
use dbvm.Store.Stream.{write_file_checked-IsCounted}
use dbvm.Undo.{undo_capture, undo_capture_tree}
use dbvm.Undo.Counted.{undo_capture-IsCounted, undo_capture_tree-IsCounted}
use dbvm.Tree.Sync.{
  HostEntry, HostKind, host_dir, host_symlink, host_file, host_other, SyncCtx, capture, put_dir,
  put_symlink, put_file, sync_dir, sync_symlink, content_current, rewrite_file, sync_file, sync_new,
  sync_replaced, sync_known, sync_one,
}
use dbvm.Tree.Walked.{capture_tree}

recorded :
    (o : Option ℕ) (f : ℕ → Tx (Unit {0})) (s : Db)
    → ((u : ℕ) → Keeps IsCounted (f u))
    → IsCounted s
    → IsCounted (elim o as (λ _. Result (Unit {0}) × Db) [ none ↦ (ok tt, s) | some u ↦ f u s ]).1
recorded none f s k h = h
recorded (some u) f s k h = k u s h

pub capture-IsCounted : (ctx : SyncCtx) (p : Text) → Keeps IsCounted (capture ctx p)
unfolding capture
capture-IsCounted ctx p s h =
    recorded ctx.undo (λ u. undo_capture u p) s (λ u. undo_capture-IsCounted u p) h

pub capture_tree-IsCounted : (ctx : SyncCtx) (p : Text) → Keeps IsCounted (capture_tree ctx p)
unfolding capture_tree
capture_tree-IsCounted ctx p s h =
    recorded ctx.undo (λ u. undo_capture_tree u p) s (λ u. undo_capture_tree-IsCounted u p) h

pub fs_put_node-IsCounted :
    (p : Text) (k : Kind) (mode mtime : ℕ) (link : Option Text)
    → Keeps IsCounted (fs_put_node p k mode mtime link)
unfolding fs_put_node
fs_put_node-IsCounted p k mode mtime link = in_savepoint-Keeps IsCounted _ (
    then-Keeps IsCounted (delete_chunks (of_path p)) _ (delete_chunks-IsCounted (of_path p))
      (upsert_row-IsCounted (node_row p k mode mtime link) _))

put_dir-IsCounted : (ctx : SyncCtx) (h : HostEntry) (p : Text) → Keeps IsCounted (put_dir ctx h p)
unfolding put_dir
put_dir-IsCounted ctx h p = fs_put_node-IsCounted p dir _ _ none

put_symlink-IsCounted :
    (ctx : SyncCtx) (h : HostEntry) (p t : Text) → Keeps IsCounted (put_symlink ctx h p t)
unfolding put_symlink
put_symlink-IsCounted ctx h p t = fs_put_node-IsCounted p symlink _ _ (some t)

-- A row is recorded and written, and a result returned.
done-IsCounted :
    {A : Type 0} (ctx : SyncCtx) (p : Text) (m : Tx A) (b : Option Bool)
    → Keeps IsCounted m
    → Keeps IsCounted (capture ctx p >> (m >> pure b))
done-IsCounted ctx p m b k =
    then-Keeps IsCounted (capture ctx p) _ (capture-IsCounted ctx p)
      (then-Keeps IsCounted m _ k (λ s h. h))

sync_dir-IsCounted :
    (ctx : SyncCtx) (h : HostEntry) (p : Text) (r : FsRow) → Keeps IsCounted (sync_dir ctx h p r)
unfolding sync_dir
sync_dir-IsCounted ctx h p r =
    if-Keeps IsCounted _ (pure none) _ (λ s c. c)
      (done-IsCounted ctx p (update_row_quiet p _) (some true) (update_row_quiet-IsCounted p _))

sync_symlink-IsCounted :
    (ctx : SyncCtx) (h : HostEntry) (p : Text) (r : FsRow)
    → Keeps IsCounted (sync_symlink ctx h p r)
unfolding sync_symlink
sync_symlink-IsCounted ctx h p r =
    bind-Keeps IsCounted (lift h.link) _ (lift-Keeps IsCounted h.link) (λ t.
      if-Keeps IsCounted _ (pure none) _ (λ s c. c)
        (done-IsCounted ctx p (update_row_quiet p _) (some true) (update_row_quiet-IsCounted p _)))

module _ (x : Extern) where
  put_file-IsCounted :
      (ctx : SyncCtx) (h : HostEntry) (p : Text) (reads : List (Result Bytes))
      → Keeps IsCounted (put_file x ctx h p reads)
  unfolding put_file
  put_file-IsCounted ctx h p reads = write_file_checked-IsCounted x p _ _ _ _ reads

  content_current-IsCounted :
      (ctx : SyncCtx) (h : HostEntry) (p : Text) (r : FsRow)
      → Keeps IsCounted (content_current x ctx h p r)
  unfolding content_current
  content_current-IsCounted ctx h p r =
      if-Keeps IsCounted _ _ (pure _)
        (gets-Keeps IsCounted _ _ (λ stored.
          bind-Keeps IsCounted (lift h.hashed) _ (lift-Keeps IsCounted h.hashed) (λ b s c. c)))
        (λ s c. c)

  rewrite_file-IsCounted :
      (ctx : SyncCtx) (h : HostEntry) (p : Text) → Keeps IsCounted (rewrite_file x ctx h p)
  unfolding rewrite_file
  rewrite_file-IsCounted ctx h p =
      bind-Keeps IsCounted (lift h.opened) _ (lift-Keeps IsCounted h.opened) (λ reads.
        done-IsCounted ctx p (put_file x ctx h p reads) (some true)
          (put_file-IsCounted ctx h p reads))

  sync_file-IsCounted :
      (ctx : SyncCtx) (h : HostEntry) (p : Text) (r : FsRow)
      → Keeps IsCounted (sync_file x ctx h p r)
  unfolding sync_file
  sync_file-IsCounted ctx h p r =
      bind-Keeps IsCounted (content_current x ctx h p r) _ (content_current-IsCounted ctx h p r)
        (λ current.
          if-Keeps IsCounted current (pure none) (rewrite_file x ctx h p) (λ s c. c)
            (rewrite_file-IsCounted ctx h p))

  sync_new-IsCounted :
      (ctx : SyncCtx) (h : HostEntry) (p : Text) (k : HostKind)
      → Keeps IsCounted (sync_new x ctx h p k)
  unfolding sync_new
  sync_new-IsCounted ctx h p host_other s c = c
  sync_new-IsCounted ctx h p host_dir s c =
      done-IsCounted ctx p (put_dir ctx h p) (some false) (put_dir-IsCounted ctx h p) s c
  sync_new-IsCounted ctx h p host_symlink s c =
      bind-Keeps IsCounted (lift h.link) _ (lift-Keeps IsCounted h.link)
        (λ t.
          done-IsCounted ctx p (put_symlink ctx h p t) (some false)
            (put_symlink-IsCounted ctx h p t))
        s c
  sync_new-IsCounted ctx h p host_file s c =
      bind-Keeps IsCounted (lift h.opened) _ (lift-Keeps IsCounted h.opened)
        (λ reads.
          done-IsCounted ctx p (put_file x ctx h p reads) (some false)
            (put_file-IsCounted ctx h p reads))
        s c

  sync_replaced-IsCounted :
      (ctx : SyncCtx) (h : HostEntry) (p : Text) (k : HostKind)
      → Keeps IsCounted (sync_replaced x ctx h p k)
  unfolding sync_replaced
  sync_replaced-IsCounted ctx h p host_other s c = c
  sync_replaced-IsCounted ctx h p host_dir s c =
      done-IsCounted ctx p (put_dir ctx h p) (some true) (put_dir-IsCounted ctx h p) s c
  sync_replaced-IsCounted ctx h p host_symlink s c =
      then-Keeps IsCounted (capture ctx p) _ (capture-IsCounted ctx p)
        (bind-Keeps IsCounted (lift h.link) _ (lift-Keeps IsCounted h.link) (λ t.
          then-Keeps IsCounted (put_symlink ctx h p t) _ (put_symlink-IsCounted ctx h p t)
            (λ u q. q)))
        s c
  sync_replaced-IsCounted ctx h p host_file s c =
      then-Keeps IsCounted (capture ctx p) _ (capture-IsCounted ctx p)
        (bind-Keeps IsCounted (lift h.opened) _ (lift-Keeps IsCounted h.opened) (λ reads.
          then-Keeps IsCounted (put_file x ctx h p reads) _ (put_file-IsCounted ctx h p reads)
            (λ u q. q)))
        s c

  sync_known-IsCounted :
      (ctx : SyncCtx) (h : HostEntry) (p : Text) (r : FsRow) (k : HostKind) (j : Kind) (s : Db)
      → IsCounted s
      → IsCounted (sync_known x ctx h p r k j s).1
  unfolding sync_known
  sync_known-IsCounted ctx h p r host_dir dir = sync_dir-IsCounted ctx h p r
  sync_known-IsCounted ctx h p r host_symlink symlink = sync_symlink-IsCounted ctx h p r
  sync_known-IsCounted ctx h p r host_file file = sync_file-IsCounted ctx h p r
  sync_known-IsCounted ctx h p r host_dir file = sync_replaced-IsCounted ctx h p host_dir
  sync_known-IsCounted ctx h p r host_dir symlink = sync_replaced-IsCounted ctx h p host_dir
  sync_known-IsCounted ctx h p r host_symlink file = sync_replaced-IsCounted ctx h p host_symlink
  sync_known-IsCounted ctx h p r host_symlink dir = sync_replaced-IsCounted ctx h p host_symlink
  sync_known-IsCounted ctx h p r host_file dir = sync_replaced-IsCounted ctx h p host_file
  sync_known-IsCounted ctx h p r host_file symlink = sync_replaced-IsCounted ctx h p host_file
  sync_known-IsCounted ctx h p r host_other _ = sync_replaced-IsCounted ctx h p host_other

  pub sync_one-IsCounted :
      (ctx : SyncCtx) (h : HostEntry) (p : Text) (prev : Option FsRow) (s : Db)
      → IsCounted s
      → IsCounted (sync_one x ctx h p prev s).1
  unfolding sync_one
  sync_one-IsCounted ctx h p none = sync_new-IsCounted ctx h p h.kind
  sync_one-IsCounted ctx h p (some r) = sync_known-IsCounted ctx h p r h.kind r.kind
