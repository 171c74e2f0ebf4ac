-- ===== src/Fuse/Counted.antt =====
-- The requests of src/fuse.rs that look at entries, add them and take them away, and the count of the
-- references.
use dbvm.Common.{
  ℕ, ◌%◌, not, any, ◌==◌, length, Option, none, some, List, Text, Option-cases, inl, inr,
}
use dbvm.Db.{dir, symlink}
use dbvm.Db.Refs.{IsCounted}
use dbvm.Db.Nodes.{find_row, delete_row}
use dbvm.Db.Counted.{delete_row-IsCounted}
use dbvm.Store.{vm_add_dir, vm_add_symlink}
use dbvm.Fuse.{
  Errno, enoent, enotdir, eisdir, einval, eexist, enotempty, eperm, eacces, eio, enosys, done,
  failed, Node, VmFuse, find_node, remove_node, add_node, new_entry_paths, is_directory_node,
  bad_name, entry_ino, subtree,
}
use dbvm.Fuse.Requests.{
  lookup, getattr, link_text, answered, text_at, readlink, add_dir, make_dir, directory_or_exists,
  existing_dir, delete_node, unlink_node, unlink, no_children, rmdir_node, rmdir, add_symlink,
  not_made, make_symlink,
}
use dbvm.Fuse.Rename.{
  Move, move_all, moves_to, rename_onto, rename_into, rename_node, rename, rename_rows, renamed,
  node_of, is_itself, is_replaced_dir,
}
use dbvm.Fuse.Added.{vm_add_dir-IsCounted, vm_add_symlink-IsCounted}
use dbvm.Fuse.Moved.{rename_rows-IsCounted}
use dbvm.Fuse.Answered.{
  AnswerIsCounted, ended, node_or-holds, child_or-holds, with_paths-holds, either-holds,
  with_db-IsCounted,
}

remove_node-IsCounted : (v : VmFuse) (i : ℕ) → IsCounted v.conn → IsCounted (remove_node v i).conn
unfolding remove_node
remove_node-IsCounted v i h = elim (Option-cases (find_node i v.nodes)) [
  | inl e ↦ rw (remove_node, e) h
  | inr (n, e) ↦ rw (remove_node, e) h
]

pub lookup-IsCounted :
    (v : VmFuse) (i : ℕ) (name : Text) → IsCounted v.conn → AnswerIsCounted (lookup v i name)
unfolding lookup
lookup-IsCounted v i name h =
    child_or-holds AnswerIsCounted enoent v i name (λ j n. (done n, v)) (ended (failed enoent) v h)
      (λ j n. ended (done n) v h)

pub getattr-IsCounted : (v : VmFuse) (i : ℕ) → IsCounted v.conn → AnswerIsCounted (getattr v i)
unfolding getattr
getattr-IsCounted v i h =
    node_or-holds AnswerIsCounted enoent v i (λ n. (done n, v)) (ended (failed enoent) v h)
      (λ n. ended (done n) v h)

text_of-IsCounted :
    (o : Option Text) (v : VmFuse) → IsCounted v.conn → AnswerIsCounted (answered v o)
text_of-IsCounted none v h = ended (failed enoent) v h
text_of-IsCounted (some t) v h = ended (done t) v h

pub readlink-IsCounted : (v : VmFuse) (i : ℕ) → IsCounted v.conn → AnswerIsCounted (readlink v i)
unfolding readlink
readlink-IsCounted v i h =
    node_or-holds AnswerIsCounted enoent v i (text_at v) (ended (failed enoent) v h)
      (λ n. text_of-IsCounted (link_text n.view (find_row n.db_path v.conn.vm_fs)) v h)

-- A row is deleted, and its node.
delete_node-IsCounted :
    (v : VmFuse) (j : ℕ) (n : Node) → IsCounted v.conn → AnswerIsCounted (delete_node v j n)
delete_node-IsCounted v j n h =
    with_db-IsCounted v (delete_row n.db_path v.conn) (λ w. (done tt, remove_node w j))
      (delete_row-IsCounted n.db_path v.conn h)
      (λ w q. ended (done tt) (remove_node w j) (remove_node-IsCounted w j q))

unlink_node-IsCounted :
    (v : VmFuse) (j : ℕ) (n : Node) → IsCounted v.conn → AnswerIsCounted (unlink_node v j n)
unlink_node-IsCounted v j n h =
    either-holds AnswerIsCounted (is_directory_node n) (failed eisdir, v) (delete_node v j n)
      (ended (failed eisdir) v h) (delete_node-IsCounted v j n h)

pub unlink-IsCounted :
    (v : VmFuse) (i : ℕ) (name : Text) → IsCounted v.conn → AnswerIsCounted (unlink v i name)
unfolding unlink
unlink-IsCounted v i name h =
    child_or-holds AnswerIsCounted enoent v i name (unlink_node v) (ended (failed enoent) v h)
      (λ j n. unlink_node-IsCounted v j n h)

rmdir_node-IsCounted :
    (v : VmFuse) (j : ℕ) (n : Node) → IsCounted v.conn → AnswerIsCounted (rmdir_node v j n)
rmdir_node-IsCounted v j n h =
    let C = AnswerIsCounted {B = Unit {0}} in
    either-holds C (not (is_directory_node n)) (failed enotdir, v) _ (ended (failed enotdir) v h)
      (either-holds C (not (no_children n)) (failed enotempty, v) (delete_node v j n)
        (ended (failed enotempty) v h) (delete_node-IsCounted v j n h))

pub rmdir-IsCounted :
    (v : VmFuse) (i : ℕ) (name : Text) → IsCounted v.conn → AnswerIsCounted (rmdir v i name)
unfolding rmdir
rmdir-IsCounted v i name h =
    child_or-holds AnswerIsCounted enoent v i name (rmdir_node v) (ended (failed enoent) v h)
      (λ j n. rmdir_node-IsCounted v j n h)

add_symlink-IsCounted :
    (v : VmFuse) (i : ℕ) (target : Text) (ps : Text × Text)
    → IsCounted v.conn
    → AnswerIsCounted (add_symlink v i target ps)
unfolding add_node
add_symlink-IsCounted v i target ps h =
    with_db-IsCounted v (vm_add_symlink ps.0 target v.conn)
      (λ w. (done tt, add_node w i ps.0 ps.1 symlink 511 (length target)))
      (vm_add_symlink-IsCounted ps.0 target v.conn h)
      (λ w q. ended (done tt) (add_node w i ps.0 ps.1 symlink 511 (length target)) q)

pub make_symlink-IsCounted :
    (v : VmFuse) (i : ℕ) (name target : Text)
    → IsCounted v.conn
    → AnswerIsCounted (make_symlink v i name target)
unfolding make_symlink
make_symlink-IsCounted v i name target h =
    with_paths-holds AnswerIsCounted v (new_entry_paths v i name) (not_made v)
      (add_symlink v i target) (λ e. ended (failed e) v h)
      (λ ps. add_symlink-IsCounted v i target ps h)

existing_dir-IsCounted :
    (v : VmFuse) (i : ℕ) (name : Text) (e : Errno)
    → IsCounted v.conn
    → AnswerIsCounted (existing_dir v i name e)
existing_dir-IsCounted v i name eexist h =
    child_or-holds AnswerIsCounted eexist v i name (directory_or_exists v)
      (ended (failed eexist) v h)
      (λ j n.
        either-holds AnswerIsCounted (is_directory_node n) (done tt, v) (failed eexist, v)
          (ended (done tt) v h) (ended (failed eexist) v h))
existing_dir-IsCounted v i name enoent h = ended (failed enoent) v h
existing_dir-IsCounted v i name enotdir h = ended (failed enotdir) v h
existing_dir-IsCounted v i name eisdir h = ended (failed eisdir) v h
existing_dir-IsCounted v i name einval h = ended (failed einval) v h
existing_dir-IsCounted v i name enotempty h = ended (failed enotempty) v h
existing_dir-IsCounted v i name eperm h = ended (failed eperm) v h
existing_dir-IsCounted v i name eacces h = ended (failed eacces) v h
existing_dir-IsCounted v i name eio h = ended (failed eio) v h
existing_dir-IsCounted v i name enosys h = ended (failed enosys) v h

add_dir-IsCounted :
    (v : VmFuse) (i mode : ℕ) (ps : Text × Text)
    → IsCounted v.conn
    → AnswerIsCounted (add_dir v i mode ps)
unfolding add_node
add_dir-IsCounted v i mode ps h =
    with_db-IsCounted v (vm_add_dir ps.0 (mode % 4096) v.conn.now v.conn)
      (λ w. (done tt, add_node w i ps.0 ps.1 dir (mode % 4096) 4096))
      (vm_add_dir-IsCounted ps.0 (mode % 4096) v.conn.now v.conn h)
      (λ w q. ended (done tt) (add_node w i ps.0 ps.1 dir (mode % 4096) 4096) q)

pub make_dir-IsCounted :
    (v : VmFuse) (i : ℕ) (name : Text) (mode : ℕ)
    → IsCounted v.conn
    → AnswerIsCounted (make_dir v i name mode)
unfolding make_dir
make_dir-IsCounted v i name mode h =
    with_paths-holds AnswerIsCounted v (new_entry_paths v i name) (existing_dir v i name)
      (add_dir v i mode) (λ e. existing_dir-IsCounted v i name e h)
      (λ ps. add_dir-IsCounted v i mode ps h)

renamed-IsCounted :
    (v : VmFuse) (r : Option ℕ) (i : ℕ) (n : Node) (j : ℕ) (name : Text) (ms : List Move)
    → IsCounted v.conn
    → IsCounted (renamed v r i n j name ms).conn
unfolding renamed
renamed-IsCounted v none i n j name ms h = h
renamed-IsCounted v (some r) i n j name ms h = remove_node-IsCounted v r h

move_all-IsCounted :
    (v : VmFuse) (j : ℕ) (name : Text) (i : ℕ) (n : Node) (r : Option ℕ) (ms : List Move)
    → IsCounted v.conn
    → AnswerIsCounted (move_all v j name i n r ms)
move_all-IsCounted v j name i n r ms h =
    with_db-IsCounted v (rename_rows (node_of r v) ms v.conn)
      (λ w. (done tt, renamed w r i n j name ms)) (rename_rows-IsCounted (node_of r v) ms v.conn h)
      (λ w q. ended (done tt) (renamed w r i n j name ms) (renamed-IsCounted w r i n j name ms q))

rename_onto-IsCounted :
    (v : VmFuse) (j : ℕ) (name : Text) (i : ℕ) (n : Node) (r : Option ℕ) (ms : List Move)
    → IsCounted v.conn
    → AnswerIsCounted (rename_onto v j name i n r ms)
rename_onto-IsCounted v j name i n r ms h =
    let C = AnswerIsCounted {B = Unit {0}} in
    either-holds C (is_itself i r) (done tt, v) _ (ended (done tt) v h)
      (either-holds C (is_replaced_dir (node_of r v)) (failed eexist, v) _
        (ended (failed eexist) v h)
        (either-holds C (any (λ k. k == j) (subtree v i)) (failed einval, v)
          (move_all v j name i n r ms) (ended (failed einval) v h)
          (move_all-IsCounted v j name i n r ms h)))

rename_into-IsCounted :
    (v : VmFuse) (j : ℕ) (name : Text) (i : ℕ) (n np : Node)
    → IsCounted v.conn
    → AnswerIsCounted (rename_into v j name i n np)
rename_into-IsCounted v j name i n np h =
    let C = AnswerIsCounted {B = Unit {0}} in
    let r = entry_ino name np.children in
    let ms = moves_to v name i n np in
    either-holds C (not (is_directory_node np)) (failed enotdir, v) _ (ended (failed enotdir) v h)
      (either-holds C (bad_name name) (failed einval, v) (rename_onto v j name i n r ms)
        (ended (failed einval) v h) (rename_onto-IsCounted v j name i n r ms h))

pub rename-IsCounted :
    (v : VmFuse) (i : ℕ) (name : Text) (j : ℕ) (newname : Text)
    → IsCounted v.conn
    → AnswerIsCounted (rename v i name j newname)
unfolding rename
rename-IsCounted v i name j newname h =
    child_or-holds AnswerIsCounted enoent v i name (rename_node v j newname)
      (ended (failed enoent) v h)
      (λ k n.
        node_or-holds AnswerIsCounted enoent v j (rename_into v j newname k n)
          (ended (failed enoent) v h) (λ np. rename_into-IsCounted v j newname k n np h))
