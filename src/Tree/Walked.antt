-- ===== src/Tree/Walked.antt =====
-- The sync of a whole tree in src/vm/tree.rs, and that of the paths that may have changed. The walk over
-- the host is the list of what it meets; the host is asked for a path by a function.
use dbvm.Common.{
  ℕ, ◌+◌, Bool, true, false, not, ◌&&◌, Option, none, some, List, [], ◌∷◌, ◌++◌, Text, codes, same,
  leb, if◌then◌else◌, keep, any, map, length,
}
use dbvm.Extern.{Extern}
use dbvm.Db.{
  FsRow, Error, Result, ok, err, Tx, after, ◌>>=◌, ◌>>◌, pure, gets, modify, in_savepoint, for_each,
  sync_op,
}
use dbvm.Db.Nodes.{find_row, delete_row}
use dbvm.Read.{is_symlink}
use dbvm.Store.{finalize_dirty}
use dbvm.Snapshot.{log_op}
use dbvm.Undo.{in_tree, undo_capture_tree, row_path}
use dbvm.Tree.{Links, get, is_reserved_vm_path, link_aliases, link_alias_target_of}
use dbvm.Tree.Sync.{HostEntry, host_symlink, SyncCtx, capture, sync_one}

-- Summary of one sync pass; `failures` says why each failed path failed.
pub record SyncReport : Type 0 where
  pub created : ℕ
  pub updated : ℕ
  pub unchanged : ℕ
  pub deleted : ℕ
  pub failed : ℕ
  pub failures : List (Text × Error)

abbrev pub no_report : SyncReport
no_report = record {
  created = 0;
  updated = 0;
  unchanged = 0;
  deleted = 0;
  failed = 0;
  failures = [];
}

-- The number of the failures and the first of them, which the text names.
unfoldable pub failure_summary : SyncReport → Option (ℕ × Text × Error)
failure_summary rep = elim rep.failures [ [] ↦ none | f ∷ fs ↦ some (rep.failed, f.0, f.1) ]

unfoldable pub add_failure : SyncReport → Text → Error → SyncReport
add_failure rep p e = record rep { failed = rep.failed + 1; failures = rep.failures ++ (p, e) ∷ [] }

unfoldable pub count : SyncReport → Text → Result (Option Bool) → SyncReport
unfolding add_failure
count rep p (ok none) = record rep { unchanged = rep.unchanged + 1 }
count rep p (ok (some false)) = record rep { created = rep.created + 1 }
count rep p (ok (some true)) = record rep { updated = rep.updated + 1 }
count rep p (err e) = add_failure rep p e

-- What the host says of a path.
pub data HostStatus : Type 0 where
  present : HostEntry → HostStatus
  gone : HostStatus
  unreadable : Error → HostStatus

-- A step of the walk: a path with what its metadata call says, or an error of the walk.
pub data WalkStep : Type 0 where
  walked : Text → Result HostEntry → WalkStep
  walk_failed : Error → WalkStep

abbrev pub is_host_link : HostEntry → Bool
is_host_link h = elim h.kind [ host_symlink ↦ true | _ ↦ false ]

abbrev pub is_alias : Text → Links → Bool
is_alias p alias = elim (get p alias) [ none ↦ false | some row ↦ true ]

-- The links of the tree with their targets.
unfoldable pub links_of : List FsRow → Links
links_of [] = []
links_of (r ∷ rs) =
    let rest = links_of rs in
    elim r.link_target [
      | none ↦ rest
      | some t ↦ if is_symlink r.kind then (r.path, t) ∷ rest else rest
    ]

unfoldable pub log_sync : Text → Tx (Unit {0})
log_sync host_root = modify (log_op (record { op = sync_op; subject = host_root }))

-- The row that lived at a path of the host.
abbrev pub row_at : Text → Links → Text
row_at p alias = elim (get p alias) [ none ↦ p | some q ↦ q ]

unfoldable pub capture_tree : SyncCtx → Text → Tx (Unit {0})
unfolding undo_capture_tree
capture_tree ctx p s = elim ctx.undo [ none ↦ (ok tt, s) | some u ↦ undo_capture_tree u p s ]

-- A path that is missing on the host is deleted with everything below it, or the link that lived there.
unfoldable pub sync_gone : SyncCtx → Links → Text → SyncReport → Tx SyncReport
unfolding get capture_tree in_tree for_each delete_row
sync_gone ctx alias p rep = do
  let row = row_at p alias
  capture_tree ctx row
  below ← gets (λ s. map row_path (keep (in_tree row) s.vm_fs))
  for_each delete_row below
  pure (record rep { deleted = rep.deleted + length below })

module _ (x : Extern) where
  -- One entry against its row: a failure is counted, not returned.
  unfoldable pub sync_entry : SyncCtx → HostEntry → Text → Option FsRow → SyncReport → Tx SyncReport
  unfolding sync_one count
  sync_entry ctx h p prev rep s =
      let (r, s') = sync_one x ctx h p prev s in (ok (count rep p r), s')

  -- An entry against the row that it has now.
  unfoldable pub known_entry : SyncCtx → HostEntry → Text → SyncReport → Tx SyncReport
  unfolding find_row sync_entry
  known_entry ctx h p rep = do prev ← gets (λ s. find_row p s.vm_fs); sync_entry ctx h p prev rep

  unfoldable pub path_status : SyncCtx → Links → Text → SyncReport → HostStatus → Tx SyncReport
  unfolding get known_entry sync_gone add_failure
  path_status ctx alias p rep (present h) =
      if is_host_link h && is_alias p alias then pure rep else known_entry ctx h p rep
  path_status ctx alias p rep gone = sync_gone ctx alias p rep
  path_status ctx alias p rep (unreadable e) = pure (add_failure rep p e)

  -- One path that may have changed.
  unfoldable pub sync_path :
      SyncCtx → (Text → HostStatus) → Links → Text → SyncReport → Tx SyncReport
  unfolding is_reserved_vm_path path_status
  sync_path ctx host alias p rep =
      if is_reserved_vm_path p then pure rep else path_status ctx alias p rep (host p)

  unfoldable pub sync_each :
      SyncCtx → (Text → HostStatus) → Links → List Text → SyncReport → Tx SyncReport
  unfolding sync_path
  sync_each ctx host alias [] rep s = (ok rep, s)
  sync_each ctx host alias (p ∷ ps) rep s =
      let rest = sync_each ctx host alias ps in
      after (sync_path ctx host alias p rep s) (λ rep' s'. rest rep' s')

  -- Sync only `paths`, in their order: all of it or nothing but the hashes.
  unfoldable pub vm_sync_paths : (Text → HostStatus) → Text → List Text → Option ℕ → Tx SyncReport
  unfolding finalize_dirty links_of link_aliases in_savepoint sync_each log_sync
  vm_sync_paths host host_root paths undo = do
    finalize_dirty x
    links ← gets (λ s. links_of s.vm_fs)
    now ← gets (λ s. s.now)
    let ctx : SyncCtx = record { verify_content = false; undo = undo; now = now }
    rep ← in_savepoint (sync_each ctx host (link_aliases links) paths no_report)
    log_sync host_root
    pure rep

  -- The rows are those of when the sync began; a path that is seen on the host keeps its row.
  unfoldable pub walked_entry :
      SyncCtx → List FsRow → HostEntry → Text → SyncReport × List Text → Tx (SyncReport × List Text)
  unfolding find_row sync_entry
  walked_entry ctx rows h p found = do
    rep ← sync_entry ctx h p (find_row p rows) found.0
    pure (rep, p ∷ found.1)

  -- A link that the host shows at its translated path is the row of its own path.
  unfoldable pub walked_link :
      SyncCtx
      → List FsRow
      → Links
      → HostEntry
      → Text
      → SyncReport × List Text
      → Tx (SyncReport × List Text)
  unfolding get walked_entry
  walked_link ctx rows alias h p found = elim (get p alias) [
    | none ↦ walked_entry ctx rows h p found
    | some row ↦ pure (found.0, row ∷ found.1)
  ]

  unfoldable pub walked_status :
      SyncCtx
      → List FsRow
      → Links
      → Text
      → SyncReport × List Text
      → Result HostEntry
      → Tx (SyncReport × List Text)
  unfolding walked_link walked_entry add_failure
  walked_status ctx rows alias p found (err e) = pure (add_failure found.0 p e, found.1)
  walked_status ctx rows alias p found (ok h) =
      if is_host_link h
      then walked_link ctx rows alias h p found
      else walked_entry ctx rows h p found

  unfoldable pub sync_step :
      SyncCtx → List FsRow → Links → SyncReport × List Text → WalkStep → Tx (SyncReport × List Text)
  unfolding is_reserved_vm_path walked_status add_failure
  sync_step ctx rows alias found (walk_failed e) =
      pure (add_failure found.0 (codes "<walk>") e, found.1)
  sync_step ctx rows alias found (walked p status) =
      if is_reserved_vm_path p then pure found else walked_status ctx rows alias p found status

  unfoldable pub sync_steps :
      SyncCtx
      → List FsRow
      → Links
      → List WalkStep
      → SyncReport × List Text
      → Tx (SyncReport × List Text)
  unfolding sync_step
  sync_steps ctx rows alias [] found s = (ok found, s)
  sync_steps ctx rows alias (w ∷ ws) found s =
      let rest = sync_steps ctx rows alias ws in
      after (sync_step ctx rows alias found w s) (λ found' s'. rest found' s')

-- Links that stand for a real entry at their translated path: the host never shows them.
unfoldable pub served_links : List FsRow → Links → List FsRow → List Text
unfolding link_alias_target_of find_row
served_links rows alias [] = []
served_links rows alias (r ∷ rs) =
    let rest = served_links rows alias rs in
    let served : List Text = elim (link_alias_target_of r.path alias) [
      | none ↦ rest
      | some t ↦ elim (find_row t rows) [
        | none ↦ rest
        | some real ↦ if is_symlink real.kind then rest else r.path ∷ rest
      ]
    ] in
    if is_symlink r.kind then served else rest

-- `sort_by_key(|p| Reverse(p.len()))`.
insert_longest : Text → List Text → List Text
insert_longest p [] = p ∷ []
insert_longest p (q ∷ qs) =
    if leb (length q) (length p) then p ∷ q ∷ qs else q ∷ insert_longest p qs

unfoldable pub longest_first : List Text → List Text
unfolding insert_longest
longest_first [] = []
longest_first (p ∷ ps) = insert_longest p (longest_first ps)

abbrev has_row : Option FsRow → Bool
has_row none = false
has_row (some r) = true

-- A row that the host does not have any more.
unfoldable pub delete_gone : SyncCtx → Text → SyncReport → Tx SyncReport
unfolding capture find_row delete_row
delete_gone ctx p rep = do
  capture ctx p
  held ← gets (λ s. has_row (find_row p s.vm_fs))
  delete_row p
  pure (if held then record rep { deleted = rep.deleted + 1 } else rep)

unfoldable pub delete_each : SyncCtx → List Text → SyncReport → Tx SyncReport
unfolding delete_gone
delete_each ctx [] rep s = (ok rep, s)
delete_each ctx (p ∷ ps) rep s =
    let rest = delete_each ctx ps in after (delete_gone ctx p rep s) (λ rep' s'. rest rep' s')

-- The whole tree against the database: what the walk meets, then what it did not meet.
unfoldable pub sync_report_impl : Extern → Text → List WalkStep → Bool → Option ℕ → Tx SyncReport
unfolding finalize_dirty links_of link_aliases served_links sync_steps longest_first
    is_reserved_vm_path same delete_each log_sync
sync_report_impl x host_root walk verify_content undo = do
  finalize_dirty x
  rows ← gets (λ s. s.vm_fs)
  now ← gets (λ s. s.now)
  let alias = link_aliases (links_of rows)
  let ctx : SyncCtx = record { verify_content = verify_content; undo = undo; now = now }
  (rep, seen) ← sync_steps x ctx rows alias walk (no_report, served_links rows alias rows)
  let lost = keep (λ p. not (is_reserved_vm_path p) && not (any (same p) seen)) (map row_path rows)
  rep' ← delete_each ctx (longest_first lost) rep
  log_sync host_root
  pure rep'
