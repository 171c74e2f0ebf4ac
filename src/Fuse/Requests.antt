-- ===== src/Fuse/Requests.antt =====
-- The requests of src/fuse.rs that read or change one entry: each answers, and leaves the tree and the
-- database.
use dbvm.Common.{
  ℕ, ◌+◌, ◌%◌, max, Bool, true, false, not, ◌&&◌, ◌||◌, Option, none, some, [], ◌∷◌, Text, Bytes,
  if◌then◌else◌, length,
}
use dbvm.Common.Int.{ℤ, pos, negsuc}
use dbvm.VmPath.{mount_link_text}
use dbvm.Extern.{Extern}
use dbvm.Db.{file, dir, symlink, FsRow, Db, Result, ok, err}
use dbvm.Db.Nodes.{find_row, update_row_quiet, delete_row}
use dbvm.Read.{read_range}
use dbvm.Store.{
  vm_add_bytes, vm_add_dir, vm_add_symlink, write_range_deferred, truncate_range_deferred,
}
use dbvm.Fuse.{
  Errno, enoent, enotdir, eisdir, einval, eexist, enotempty, eperm, enosys, eio, Reply, done,
  failed, Node, VmFuse, is_owner_change, find_node, change_node, child, new_entry_paths, add_node,
  remove_node, write_errno, is_directory_node, is_file_node,
}

abbrev pub Answer : Type 0 → Type 0
Answer A = Reply A × VmFuse

-- A statement on the connection, and what follows when it succeeds.
unfoldable pub with_db :
    {A : Type 0} {B : Type 0} → VmFuse → Result A × Db → (VmFuse → Answer B) → Answer B
unfolding write_errno
with_db v (err e, s) next = (failed (write_errno e), record v { conn = s })
with_db v (ok a, s) next = next (record v { conn = s })

-- The node of an inode, or an error.
unfoldable pub node_or : {B : Type 0} → Errno → VmFuse → ℕ → (Node → Answer B) → Answer B
unfolding find_node
node_or e v ino next = elim (find_node ino v.nodes) [ none ↦ (failed e, v) | some n ↦ next n ]

abbrev pub at_node : {B : Type 0} → VmFuse → ℕ → (Node → Answer B) → Answer B
at_node v ino next = node_or enoent v ino next

-- The child of a directory with its node, or an error.
unfoldable pub child_or :
    {B : Type 0} → Errno → VmFuse → ℕ → Text → (ℕ → Node → Answer B) → Answer B
unfolding child node_or
child_or e v parent name next = elim (child v parent name) [
  | none ↦ (failed e, v)
  | some ino ↦ node_or e v ino (next ino)
]

abbrev pub at_child : {B : Type 0} → VmFuse → ℕ → Text → (ℕ → Node → Answer B) → Answer B
at_child v parent name next = child_or enoent v parent name next

unfoldable pub lookup : VmFuse → ℕ → Text → Answer Node
unfolding child_or
lookup v parent name = at_child v parent name (λ ino n. (done n, v))

unfoldable pub getattr : VmFuse → ℕ → Answer Node
unfolding node_or
getattr v ino = at_node v ino (λ n. (done n, v))

abbrev pub link_text : Text → Option FsRow → Option Text
link_text view none = none
link_text view (some r) = elim r.link_target [
  | none ↦ none
  | some t ↦ some (mount_link_text view t)
]

abbrev pub answered : VmFuse → Option Text → Answer Text
answered v none = (failed enoent, v)
answered v (some t) = (done t, v)

abbrev pub text_at : VmFuse → Node → Answer Text
text_at v n = answered v (link_text n.view (find_row n.db_path v.conn.vm_fs))

unfoldable pub readlink : VmFuse → ℕ → Answer Text
unfolding node_or find_row mount_link_text
readlink v ino = at_node v ino (text_at v)

abbrev pub resized : ℕ → ℕ → Node → Node
resized size now n = record n { size = size; mtime = now }

-- The row goes, and then the node.
abbrev pub delete_node : VmFuse → ℕ → Node → Answer (Unit {0})
delete_node v ino n = with_db v (delete_row n.db_path v.conn) (λ v'. (done tt, remove_node v' ino))

abbrev pub unlink_node : VmFuse → ℕ → Node → Answer (Unit {0})
unlink_node v ino n =
    let gone = delete_node v ino n in if is_directory_node n then (failed eisdir, v) else gone

unfoldable pub unlink : VmFuse → ℕ → Text → Answer (Unit {0})
unfolding child_or with_db delete_row remove_node
unlink v parent name = at_child v parent name (unlink_node v)

abbrev pub no_children : Node → Bool
no_children n = elim n.children [ [] ↦ true | e ∷ es ↦ false ]

abbrev pub rmdir_node : VmFuse → ℕ → Node → Answer (Unit {0})
rmdir_node v ino n =
    let gone = delete_node v ino n in
    if not (is_directory_node n)
    then (failed enotdir, v)
    else if not (no_children n)
    then (failed enotempty, v)
    else gone

unfoldable pub rmdir : VmFuse → ℕ → Text → Answer (Unit {0})
unfolding child_or with_db delete_row remove_node
rmdir v parent name = at_child v parent name (rmdir_node v)

-- What follows the paths of a new entry.
unfoldable pub with_paths :
    {B : Type 0}
    → VmFuse
    → Reply (Text × Text)
    → (Errno → Answer B)
    → (Text × Text → Answer B)
    → Answer B
with_paths v (failed e) other next = other e
with_paths v (done ps) other next = next ps

abbrev pub add_symlink : VmFuse → ℕ → Text → Text × Text → Answer (Unit {0})
add_symlink v parent target ps =
    with_db v (vm_add_symlink ps.0 target v.conn)
      (λ v'. (done tt, add_node v' parent ps.0 ps.1 symlink 511 (length target)))

abbrev pub not_made : VmFuse → Errno → Answer (Unit {0})
not_made v e = (failed e, v)

unfoldable pub make_symlink : VmFuse → ℕ → Text → Text → Answer (Unit {0})
unfolding with_paths new_entry_paths with_db vm_add_symlink add_node
make_symlink v parent name target =
    with_paths v (new_entry_paths v parent name) (not_made v) (add_symlink v parent target)

abbrev pub directory_or_exists : VmFuse → ℕ → Node → Answer (Unit {0})
directory_or_exists v ino n = if is_directory_node n then (done tt, v) else (failed eexist, v)

-- An existing directory is a success; any other existing entry is not.
abbrev pub existing_dir : VmFuse → ℕ → Text → Errno → Answer (Unit {0})
existing_dir v parent name eexist = child_or eexist v parent name (directory_or_exists v)
existing_dir v parent name e = (failed e, v)

abbrev pub add_dir : VmFuse → ℕ → ℕ → Text × Text → Answer (Unit {0})
add_dir v parent mode ps =
    with_db v (vm_add_dir ps.0 (mode % 4096) v.conn.now v.conn)
      (λ v'. (done tt, add_node v' parent ps.0 ps.1 dir (mode % 4096) 4096))

unfoldable pub make_dir : VmFuse → ℕ → Text → ℕ → Answer (Unit {0})
unfolding with_paths new_entry_paths child_or with_db vm_add_dir add_node
make_dir v parent name mode =
    with_paths v (new_entry_paths v parent name) (existing_dir v parent name)
      (add_dir v parent mode)

-- What `setattr` may ask for.
pub record Attributes : Type 0 where
  pub mode : Option ℕ
  pub uid : Option ℕ
  pub gid : Option ℕ
  pub size : Option ℕ
  pub mtime : Option ℕ

module _ (x : Extern) where
  abbrev pub truncate_found : VmFuse → ℕ → ℕ → Node → Answer (Unit {0})
  truncate_found v ino size n =
      with_db v (truncate_range_deferred x n.db_path size v.conn.now v.conn)
        (λ v'. (done tt, record v' { nodes = change_node ino (resized size v.conn.now) v'.nodes }))

  -- Set a regular file's size.
  unfoldable pub truncate_node : VmFuse → ℕ → ℕ → Answer (Unit {0})
  unfolding node_or with_db truncate_range_deferred change_node
  truncate_node v ino size = at_node v ino (λ n.
      with_db v (truncate_range_deferred x n.db_path size v.conn.now v.conn)
        (λ v'. (done tt, record v' { nodes = change_node ino (resized size v.conn.now) v'.nodes })))

  abbrev pub open_node : VmFuse → ℕ → Bool → Node → Answer (Unit {0})
  open_node v ino truncated n =
      let cut = truncate_node v ino 0 in
      if is_directory_node n
      then (failed eisdir, v)
      else if truncated && is_file_node n
      then cut
      else (done tt, v)

  -- `truncated` says whether the flags have O_TRUNC.
  unfoldable pub open_file : VmFuse → ℕ → Bool → Answer (Unit {0})
  unfolding node_or truncate_node
  open_file v ino truncated = at_node v ino (open_node v ino truncated)

  abbrev pub content_of : VmFuse → Result Bytes → Answer Bytes
  content_of v (err e) = (failed eio, v)
  content_of v (ok b) = (done b, v)

  abbrev pub read_node : VmFuse → ℕ → ℕ → Node → Answer Bytes
  read_node v off len n = elim n.kind [
    | dir ↦ (failed eisdir, v)
    | symlink ↦ (failed einval, v)
    | file ↦ content_of v (read_range x v.conn n.db_path off len)
  ]

  unfoldable pub read : VmFuse → ℕ → ℤ → ℕ → Answer Bytes
  unfolding node_or read_range
  read v ino (negsuc n) len = (failed einval, v)
  read v ino (pos off) len = at_node v ino (read_node v off len)

  abbrev pub write_found : VmFuse → ℕ → ℕ → Bytes → Node → Answer ℕ
  write_found v ino off b n =
      let now = v.conn.now in
      let resize : Node → Node = λ m. resized (max m.size (off + length b)) now m in
      with_db v (write_range_deferred x n.db_path off b now v.conn)
        (λ v'. (done (length b), record v' { nodes = change_node ino resize v'.nodes }))

  abbrev pub write_node : VmFuse → ℕ → ℕ → Bytes → Node → Answer ℕ
  write_node v ino off b n =
      let written = write_found v ino off b n in
      if is_directory_node n then (failed eisdir, v) else written

  unfoldable pub write : VmFuse → ℕ → ℤ → Bytes → Answer ℕ
  unfolding node_or with_db write_range_deferred change_node
  write v ino (negsuc n) b = (failed einval, v)
  write v ino (pos off) b = at_node v ino (write_node v ino off b)

  abbrev pub file_or_exists : VmFuse → Bool → Bool → ℕ → Node → Answer (Unit {0})
  file_or_exists v exclusive truncated ino n =
      let cut = truncate_node v ino 0 in
      if not (is_file_node n) || exclusive
      then (failed eexist, v)
      else if truncated
      then cut
      else (done tt, v)

  -- An existing regular file is opened unless the flags have O_EXCL, and cut when they have O_TRUNC.
  abbrev pub existing_file : VmFuse → ℕ → Text → Bool → Bool → Errno → Answer (Unit {0})
  existing_file v parent name exclusive truncated eexist =
      child_or eexist v parent name (file_or_exists v exclusive truncated)
  existing_file v parent name exclusive truncated e = (failed e, v)

  -- A new regular file without content.
  unfoldable pub new_file : VmFuse → ℕ → ℕ → Text × Text → Answer (Unit {0})
  unfolding with_db vm_add_bytes add_node
  new_file v parent mode ps =
      with_db v (vm_add_bytes x ps.0 [] (mode % 4096) v.conn.now v.conn)
        (λ v'. (done tt, add_node v' parent ps.0 ps.1 file (mode % 4096) 0))

  unfoldable pub create : VmFuse → ℕ → Text → ℕ → Bool → Bool → Answer (Unit {0})
  unfolding with_paths new_entry_paths child_or truncate_node new_file
  create v parent name mode exclusive truncated =
      with_paths v (new_entry_paths v parent name) (existing_file v parent name exclusive truncated)
        (new_file v parent mode)

  -- `regular` says whether the mode asks for a regular file.
  unfoldable pub mknod : VmFuse → ℕ → Text → ℕ → Bool → Answer (Unit {0})
  unfolding with_paths new_entry_paths new_file
  mknod v parent name mode regular =
      let made =
        with_paths v (new_entry_paths v parent name) (λ e. (failed e, v))
          (new_file v parent mode) in
      if regular then made else (failed enosys, v)

  abbrev pub set_perm : VmFuse → ℕ → Node → Option ℕ → (VmFuse → Answer Node) → Answer Node
  set_perm v ino n none next = next v
  set_perm v ino n (some m) next =
      with_db v (update_row_quiet n.db_path (λ r. record r { mode = m }) v.conn) (λ v'.
        next (record v' { nodes = change_node ino (λ k. record k { perm = m % 4096 }) v'.nodes }))

  abbrev pub set_mtime : VmFuse → ℕ → Node → Option ℕ → (VmFuse → Answer Node) → Answer Node
  set_mtime v ino n none next = next v
  set_mtime v ino n (some t) next =
      with_db v (update_row_quiet n.db_path (λ r. record r { mtime = t }) v.conn)
        (λ v'. next (record v' { nodes = change_node ino (λ k. record k { mtime = t }) v'.nodes }))

  abbrev pub then_next : {A : Type 0} → Answer A → (VmFuse → Answer Node) → Answer Node
  then_next (failed e, v) next = (failed e, v)
  then_next (done a, v) next = next v

  abbrev pub set_size : VmFuse → ℕ → Option ℕ → (VmFuse → Answer Node) → Answer Node
  set_size v ino none next = next v
  set_size v ino (some size) next = then_next (truncate_node v ino size) next

  abbrev pub setattr_node : VmFuse → ℕ → Attributes → Node → Answer Node
  setattr_node v ino a n =
      let changed =
        set_perm v ino n a.mode (λ v1.
          set_mtime v1 ino n a.mtime (λ v2. set_size v2 ino a.size (λ v3. getattr v3 ino))) in
      if is_owner_change v.owner a.uid a.gid then (failed eperm, v) else changed

  -- Mode, time of change and size in this order; the ones before one that fails stay.
  unfoldable pub setattr : VmFuse → ℕ → Attributes → Answer Node
  unfolding node_or is_owner_change with_db update_row_quiet change_node truncate_node getattr
  setattr v ino a = at_node v ino (setattr_node v ino a)
