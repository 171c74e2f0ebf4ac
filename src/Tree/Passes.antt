-- ===== src/Tree/Passes.antt =====
-- The passes of the sync in src/vm/tree.rs and the count of the references.
use dbvm.Common.{ℕ, Bool, false, ◌&&◌, Option, List, [], ◌∷◌, Text, inl, inr, Option-cases}
use dbvm.Extern.{Extern}
use dbvm.Db.{FsRow, Db, Result, ok, err, pure, in_savepoint, for_each}
use dbvm.Db.Nodes.{find_row, delete_row}
use dbvm.Db.Refs.{IsCounted}
use dbvm.Db.Keeps.{
  Keeps, after-Keeps, then-Keeps, bind-Keeps, gets-Keeps, if-Keeps, in_savepoint-Keeps,
  for_each-Keeps,
}
use dbvm.Db.Counted.{delete_row-IsCounted}
use dbvm.Store.{finalize_dirty}
use dbvm.Store.Ranged.{finalize_dirty-IsCounted}
use dbvm.Snapshot.Counted.{log_op-IsCounted}
use dbvm.Tree.{Links, is_reserved_vm_path, get, link_aliases}
use dbvm.Tree.Sync.{HostEntry, SyncCtx, capture}
use dbvm.Tree.Counted.{capture-IsCounted, capture_tree-IsCounted, sync_one-IsCounted}
use dbvm.Tree.Walked.{
  SyncReport, capture_tree, log_sync, sync_entry, sync_gone, sync_path, sync_each, vm_sync_paths,
  HostStatus, present, gone, unreadable, WalkStep, walked, walk_failed, sync_step, sync_steps,
  delete_gone, delete_each, sync_report_impl, is_host_link, is_alias, path_status, known_entry,
  walked_entry, walked_link, walked_status, no_report,
}

sync_gone-IsCounted :
    (ctx : SyncCtx) (alias : Links) (p : Text) (rep : SyncReport)
    → Keeps IsCounted (sync_gone ctx alias p rep)
unfolding sync_gone
sync_gone-IsCounted ctx alias p rep =
    then-Keeps IsCounted (capture_tree ctx _) _ (capture_tree-IsCounted ctx _) (
      gets-Keeps IsCounted _ _ (λ below.
        then-Keeps IsCounted (for_each delete_row below) _
          (for_each-Keeps IsCounted delete_row delete_row-IsCounted below) (λ s h. h)))

delete_gone-IsCounted :
    (ctx : SyncCtx) (p : Text) (rep : SyncReport) → Keeps IsCounted (delete_gone ctx p rep)
unfolding delete_gone
delete_gone-IsCounted ctx p rep = then-Keeps IsCounted (capture ctx p) _ (capture-IsCounted ctx p) (
    gets-Keeps IsCounted _ _
      (λ held. then-Keeps IsCounted (delete_row p) _ (delete_row-IsCounted p) (λ s h. h)))

delete_each-IsCounted :
    (ctx : SyncCtx) (ps : List Text) (rep : SyncReport) → Keeps IsCounted (delete_each ctx ps rep)
unfolding delete_each
delete_each-IsCounted ctx [] rep s h = h
delete_each-IsCounted ctx (p ∷ ps) rep s h =
    after-Keeps IsCounted (delete_gone ctx p rep s) _ (delete_gone-IsCounted ctx p rep s h)
      (λ rep'. delete_each-IsCounted ctx ps rep')

log_sync-IsCounted : (host_root : Text) → Keeps IsCounted (log_sync host_root)
unfolding log_sync
log_sync-IsCounted host_root = log_op-IsCounted _

module _ (x : Extern) where
  sync_entry-IsCounted :
      (ctx : SyncCtx) (h : HostEntry) (p : Text) (prev : Option FsRow) (rep : SyncReport)
      → Keeps IsCounted (sync_entry x ctx h p prev rep)
  unfolding sync_entry
  sync_entry-IsCounted ctx h p prev rep s c = sync_one-IsCounted x ctx h p prev s c

  known_entry-IsCounted :
      (ctx : SyncCtx) (h : HostEntry) (p : Text) (rep : SyncReport)
      → Keeps IsCounted (known_entry x ctx h p rep)
  unfolding known_entry
  known_entry-IsCounted ctx h p rep =
      gets-Keeps IsCounted _ _ (λ prev. sync_entry-IsCounted ctx h p prev rep)

  path_status-IsCounted :
      (ctx : SyncCtx) (alias : Links) (p : Text) (rep : SyncReport) (status : HostStatus)
      → Keeps IsCounted (path_status x ctx alias p rep status)
  unfolding path_status
  path_status-IsCounted ctx alias p rep (present h) s c =
      if-Keeps IsCounted (is_host_link h && is_alias p alias) (pure rep) (known_entry x ctx h p rep)
        (λ s c. c) (known_entry-IsCounted ctx h p rep) s c
  path_status-IsCounted ctx alias p rep gone s c = sync_gone-IsCounted ctx alias p rep s c
  path_status-IsCounted ctx alias p rep (unreadable e) s c = c

  sync_each-IsCounted :
      (ctx : SyncCtx) (host : Text → HostStatus) (alias : Links) (ps : List Text) (rep : SyncReport)
      → Keeps IsCounted (sync_each x ctx host alias ps rep)
  unfolding sync_each sync_path
  sync_each-IsCounted ctx host alias [] rep s c = c
  sync_each-IsCounted ctx host alias (p ∷ ps) rep s c =
      after-Keeps IsCounted (sync_path x ctx host alias p rep s) _
        (if-Keeps IsCounted (is_reserved_vm_path p) (pure rep)
          (path_status x ctx alias p rep (host p)) (λ t q. q)
          (path_status-IsCounted ctx alias p rep (host p)) s c)
        (λ rep'. sync_each-IsCounted ctx host alias ps rep')

  -- A sync of the paths that may have changed keeps the count of the references, whatever the host says
  -- of them, with or without an undo record, and whether it returns or fails: every blob is counted as
  -- often as the chunk rows name it, no key has two blobs, and no chunk of a path two rows.
  pub vm_sync_paths-IsCounted :
      (host : Text → HostStatus) (host_root : Text) (paths : List Text) (undo : Option ℕ) (s : Db)
      → IsCounted s
      → IsCounted (vm_sync_paths x host host_root paths undo s).1
  unfolding vm_sync_paths
  vm_sync_paths-IsCounted host host_root paths undo =
      then-Keeps IsCounted (finalize_dirty x) _ (finalize_dirty-IsCounted x) (
        gets-Keeps IsCounted _ _ (λ links. gets-Keeps IsCounted _ _ (λ now.
          bind-Keeps IsCounted (in_savepoint _) _
            (in_savepoint-Keeps IsCounted _ (
              sync_each-IsCounted (record { verify_content = false; undo = undo; now = now }) host
                (link_aliases links) paths no_report))
            (λ rep.
              then-Keeps IsCounted (log_sync host_root) _ (log_sync-IsCounted host_root)
                (λ s h. h)))))

  walked_entry-IsCounted :
      (ctx : SyncCtx) (rows : List FsRow) (h : HostEntry) (p : Text)
      (found : SyncReport × List Text)
      → Keeps IsCounted (walked_entry x ctx rows h p found)
  unfolding walked_entry
  walked_entry-IsCounted ctx rows h p found =
      bind-Keeps IsCounted (sync_entry x ctx h p (find_row p rows) found.0) _
        (sync_entry-IsCounted ctx h p (find_row p rows) found.0) (λ rep s c. c)

  walked_link-IsCounted :
      (ctx : SyncCtx) (rows : List FsRow) (alias : Links) (h : HostEntry) (p : Text)
      (found : SyncReport × List Text)
      → Keeps IsCounted (walked_link x ctx rows alias h p found)
  unfolding walked_link
  walked_link-IsCounted ctx rows alias h p found s c = elim (Option-cases (get p alias)) [
    | inl e ↦ rw (walked_link, e) (walked_entry-IsCounted ctx rows h p found s c)
    | inr (row, e) ↦ rw (walked_link, e) c
  ]

  walked_status-IsCounted :
      (ctx : SyncCtx) (rows : List FsRow) (alias : Links) (p : Text)
      (found : SyncReport × List Text) (status : Result HostEntry)
      → Keeps IsCounted (walked_status x ctx rows alias p found status)
  unfolding walked_status
  walked_status-IsCounted ctx rows alias p found (err e) s c = c
  walked_status-IsCounted ctx rows alias p found (ok h) s c =
      if-Keeps IsCounted (is_host_link h) (walked_link x ctx rows alias h p found)
        (walked_entry x ctx rows h p found) (walked_link-IsCounted ctx rows alias h p found)
        (walked_entry-IsCounted ctx rows h p found) s c

  sync_step-IsCounted :
      (ctx : SyncCtx) (rows : List FsRow) (alias : Links) (found : SyncReport × List Text)
      (w : WalkStep)
      → Keeps IsCounted (sync_step x ctx rows alias found w)
  unfolding sync_step
  sync_step-IsCounted ctx rows alias found (walk_failed e) s c = c
  sync_step-IsCounted ctx rows alias found (walked p status) s c =
      if-Keeps IsCounted (is_reserved_vm_path p) (pure found)
        (walked_status x ctx rows alias p found status) (λ t q. q)
        (walked_status-IsCounted ctx rows alias p found status) s c

  sync_steps-IsCounted :
      (ctx : SyncCtx) (rows : List FsRow) (alias : Links) (ws : List WalkStep)
      (found : SyncReport × List Text)
      → Keeps IsCounted (sync_steps x ctx rows alias ws found)
  unfolding sync_steps
  sync_steps-IsCounted ctx rows alias [] found s c = c
  sync_steps-IsCounted ctx rows alias (w ∷ ws) found s c =
      after-Keeps IsCounted (sync_step x ctx rows alias found w s) _
        (sync_step-IsCounted ctx rows alias found w s c)
        (λ found'. sync_steps-IsCounted ctx rows alias ws found')

-- A sync of the whole tree keeps the count of the references, whatever the walk meets on the host, by
-- metadata or by content, with or without an undo record, and also when it ends with an error on the
-- way.
pub sync_report_impl-IsCounted :
    (x : Extern) (host_root : Text) (walk : List WalkStep) (verify_content : Bool) (undo : Option ℕ)
    (s : Db)
    → IsCounted s
    → IsCounted (sync_report_impl x host_root walk verify_content undo s).1
unfolding sync_report_impl
sync_report_impl-IsCounted x host_root walk verify_content undo =
    then-Keeps IsCounted (finalize_dirty x) _ (finalize_dirty-IsCounted x) (
      gets-Keeps IsCounted _ _ (λ rows. gets-Keeps IsCounted _ _ (λ now.
        bind-Keeps IsCounted (sync_steps x _ rows _ walk _) _
          (sync_steps-IsCounted x _ rows _ walk _)
          (λ (rep, seen).
            bind-Keeps IsCounted
              (delete_each (record { verify_content = verify_content; undo = undo; now = now }) _
                rep)
              _
              (delete_each-IsCounted
                (record { verify_content = verify_content; undo = undo; now = now }) _ rep)
              (λ rep'.
                then-Keeps IsCounted (log_sync host_root) _ (log_sync-IsCounted host_root)
                  (λ s h. h))))))
