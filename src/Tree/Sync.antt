-- ===== src/Tree/Sync.antt =====
-- `sync_one` of src/vm/tree.rs: one entry of the host against its row. What the host says of the entry,
-- and what reading it gives, is a record.
use dbvm.Common.{
  ℕ, ◌%◌, Bool, true, false, ◌&&◌, Option, none, some, List, Text, Bytes, same, ◌==◌, if◌then◌else◌,
}
use dbvm.Extern.{Extern}
use dbvm.Db.{Key, Kind, file, dir, symlink, FsRow, Result, ok, Tx, ◌>>=◌, ◌>>◌, pure, gets, lift}
use dbvm.Db.Nodes.{find_row, update_row_quiet}
use dbvm.Store.{fs_put_node}
use dbvm.Store.Stream.{write_file_checked, ns_matches}
use dbvm.Undo.{undo_capture}

pub data HostKind : Type 0 where
  host_dir host_symlink host_file host_other : HostKind

-- The metadata of an entry, its stamps at the three times that they are taken, where a link leads, what
-- the reads of a file give, and what hashing it reads.
pub record HostEntry : Type 0 where
  pub kind : HostKind
  pub raw_mode : ℕ
  pub modified : Option ℕ
  pub size : ℕ
  pub seen_ns : ℕ
  pub before_ns : ℕ
  pub after_ns : ℕ
  pub link : Result Text
  pub opened : Result (List (Result Bytes))
  pub hashed : Result Bytes

-- What stays the same for every entry of one sync.
pub record SyncCtx : Type 0 where
  pub verify_content : Bool
  pub undo : Option ℕ
  pub now : ℕ

-- The permission bits, `& 0o7777`.
abbrev pub mode_of : HostEntry → ℕ
mode_of h = h.raw_mode % 4096

abbrev pub mtime_of : SyncCtx → HostEntry → ℕ
mtime_of ctx h = elim h.modified [ none ↦ ctx.now | some t ↦ t ]

-- The row is recorded before it is written.
unfoldable pub capture : SyncCtx → Text → Tx (Unit {0})
unfolding undo_capture
capture ctx p s = elim ctx.undo [ none ↦ (ok tt, s) | some u ↦ undo_capture u p s ]

abbrev same_link : Option Text → Text → Bool
same_link none t = false
same_link (some u) t = same u t

abbrev has_key : Option Key → Key → Bool
has_key none k = false
has_key (some h) k = same h k

unfoldable pub put_dir : SyncCtx → HostEntry → Text → Tx (Unit {0})
unfolding fs_put_node
put_dir ctx h p = fs_put_node p dir (mode_of h) ctx.now none

unfoldable pub put_symlink : SyncCtx → HostEntry → Text → Text → Tx (Unit {0})
unfolding fs_put_node
put_symlink ctx h p t = fs_put_node p symlink (mode_of h) ctx.now (some t)

-- A directory whose mode may have changed.
unfoldable pub sync_dir : SyncCtx → HostEntry → Text → FsRow → Tx (Option Bool)
unfolding capture update_row_quiet
sync_dir ctx h p r =
    let change : Tx (Option Bool) = (do
      capture ctx p
      update_row_quiet p (λ old. record old { mode = mode_of h; mtime = ctx.now })
      pure (some true)) in
    if r.mode == mode_of h then pure none else change

unfoldable pub sync_symlink : SyncCtx → HostEntry → Text → FsRow → Tx (Option Bool)
unfolding capture update_row_quiet
sync_symlink ctx h p r = do
  t ← lift h.link
  let change : Tx (Option Bool) = (do
    capture ctx p
    update_row_quiet p
        (λ old. record old { mode = mode_of h; link_target = some t; mtime = ctx.now })
    pure (some true))
  if same_link r.link_target t && r.mode == mode_of h then pure none else change

-- The row says what the metadata of the host says.
abbrev pub metadata_current : SyncCtx → HostEntry → FsRow → Bool
metadata_current ctx h r =
    r.size == h.size
    && (r.mtime == mtime_of ctx h && (r.mode == mode_of h && ns_matches r.mtime_ns h.seen_ns))

abbrev stored_hash : Option FsRow → Option Key
stored_hash none = none
stored_hash (some r) = r.hash

module _ (x : Extern) where
  unfoldable pub put_file : SyncCtx → HostEntry → Text → List (Result Bytes) → Tx ℕ
  unfolding write_file_checked
  put_file ctx h p reads =
      write_file_checked x p (mode_of h) (mtime_of ctx h) h.before_ns h.after_ns reads

  -- Whether the content is current: a full sync compares it with the stored hash.
  unfoldable pub content_current : SyncCtx → HostEntry → Text → FsRow → Tx Bool
  unfolding find_row
  content_current ctx h p r =
      let compare : Tx Bool = (do
        stored ← gets (λ s. stored_hash (find_row p s.vm_fs))
        content ← lift h.hashed
        pure (has_key stored (x.sha256 content))) in
      if ctx.verify_content && metadata_current ctx h r
      then compare
      else pure (metadata_current ctx h r)

  unfoldable pub rewrite_file : SyncCtx → HostEntry → Text → Tx (Option Bool)
  unfolding capture put_file
  rewrite_file ctx h p = do
    reads ← lift h.opened
    capture ctx p
    put_file ctx h p reads
    pure (some true)

  unfoldable pub sync_file : SyncCtx → HostEntry → Text → FsRow → Tx (Option Bool)
  unfolding content_current rewrite_file
  sync_file ctx h p r = do
    current ← content_current ctx h p r
    if current then pure none else rewrite_file ctx h p

  -- An entry without a row.
  unfoldable pub sync_new : SyncCtx → HostEntry → Text → HostKind → Tx (Option Bool)
  unfolding capture put_dir put_symlink put_file
  sync_new ctx h p host_other = pure none
  sync_new ctx h p host_dir = do capture ctx p; put_dir ctx h p; pure (some false)
  sync_new ctx h p host_symlink = do
    t ← lift h.link
    capture ctx p
    put_symlink ctx h p t
    pure (some false)
  sync_new ctx h p host_file = do
    reads ← lift h.opened
    capture ctx p
    put_file ctx h p reads
    pure (some false)

  -- An entry whose row is of another kind: the row is replaced.
  unfoldable pub sync_replaced : SyncCtx → HostEntry → Text → HostKind → Tx (Option Bool)
  unfolding capture put_dir put_symlink put_file
  sync_replaced ctx h p host_other = pure none
  sync_replaced ctx h p host_dir = do capture ctx p; put_dir ctx h p; pure (some true)
  sync_replaced ctx h p host_symlink = do
    capture ctx p
    t ← lift h.link
    put_symlink ctx h p t
    pure (some true)
  sync_replaced ctx h p host_file = do
    capture ctx p
    reads ← lift h.opened
    put_file ctx h p reads
    pure (some true)

  -- An entry of the kind of its row, or of another.
  unfoldable pub sync_known :
      SyncCtx → HostEntry → Text → FsRow → HostKind → Kind → Tx (Option Bool)
  unfolding sync_dir sync_symlink sync_file sync_replaced
  sync_known ctx h p r host_dir dir = sync_dir ctx h p r
  sync_known ctx h p r host_symlink symlink = sync_symlink ctx h p r
  sync_known ctx h p r host_file file = sync_file ctx h p r
  sync_known ctx h p r k _ = sync_replaced ctx h p k

  -- Bring the row of `p` in line with the host: some false is created, some true updated, and none
  -- unchanged or of a kind that is not stored.
  unfoldable pub sync_one : SyncCtx → HostEntry → Text → Option FsRow → Tx (Option Bool)
  unfolding sync_new sync_known
  sync_one ctx h p none = sync_new ctx h p h.kind
  sync_one ctx h p (some r) = sync_known ctx h p r h.kind r.kind
