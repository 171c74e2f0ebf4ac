-- ===== src/Fuse/Refused.antt =====
-- The requests of src/fuse.rs that fail, and the tree that the mount shows.
use dbvm.Common.{
  ℕ, ◌%◌, Bool, true, false, not, any, ◌==◌, Option, none, some, List, Text, length, ◌≡◌, refl,
  arith,
}
use dbvm.Db.{dir, symlink, Db, Result}
use dbvm.Db.Nodes.{find_row, delete_row}
use dbvm.Store.{vm_add_dir, vm_add_symlink}
use dbvm.Fuse.{
  Errno, enoent, enotdir, eisdir, einval, eexist, enotempty, eperm, eacces, eio, enosys, Reply,
  done, failed, Node, VmFuse, add_node, remove_node, new_entry_paths, is_directory_node, bad_name,
  entry_ino, subtree,
}
use dbvm.Fuse.Requests.{
  Answer, with_db, lookup, getattr, link_text, answered, text_at, readlink, not_made, add_symlink,
  make_symlink, directory_or_exists, existing_dir, add_dir, make_dir, delete_node, unlink_node,
  unlink, no_children, rmdir_node, rmdir,
}
use dbvm.Fuse.Rename.{
  Move, move_all, moves_to, rename_onto, rename_into, rename_node, rename, rename_rows, renamed,
  node_of, is_itself, is_replaced_dir,
}
use dbvm.Fuse.Answered.{
  node_or-holds, child_or-holds, with_paths-holds, with_db-holds, either-holds,
}
use dbvm.Fuse.Served.{outcome}

abbrev pub is_failed : {A : Type 0} → Reply A → Bool
is_failed (done a) = false
is_failed (failed e) = true

-- An answer to a request on `v` that shows the same tree when it is a failure.
pub record Refused (v : VmFuse) {B : Type 0} (a : Answer B) : Type 0 where
  pub same_tree : is_failed a.0 ≡ true → a.1.nodes ≡ v.nodes

pub refuse :
    {B : Type 0} (v w : VmFuse) (e : Errno) → w.nodes ≡ v.nodes → Refused v {B = B} (failed e, w)
refuse v w e h = record { same_tree = λ _. h }

pub answer : {B : Type 0} (v w : VmFuse) (b : B) → Refused v (done b, w)
answer v w b = record { same_tree = λ t. absurd (ground (arith, t)) }

-- A statement that fails leaves the tree; what follows one that succeeds is an answer.
pub with_db-Refused :
    {A B : Type 0} (v : VmFuse) (r : Result A × Db) (b : B) (f : VmFuse → VmFuse)
    → Refused v (with_db v r (λ w. (done b, f w)))
with_db-Refused v r b f =
    with_db-holds (Refused v) v r (λ w. (done b, f w))
      (λ e. refuse v (record v { conn = r.1 }) e refl) (answer v (f (record v { conn = r.1 })) b)

pub outcome-Refused : {A : Type 0} (v : VmFuse) (a : Answer A) → Refused v a → Refused v (outcome a)
outcome-Refused v (done r, w) h = answer v w tt
outcome-Refused v (failed e, w) h = refuse v w e (h.same_tree refl)

module _ (v : VmFuse) where
  no : {B : Type 0} (e : Errno) → Refused v {B = B} (failed e, v)
  no e = refuse v v e refl

  pub lookup-Refused : (i : ℕ) (name : Text) → Refused v (lookup v i name)
  unfolding lookup
  lookup-Refused i name =
      child_or-holds (Refused v) enoent v i name (λ j n. (done n, v)) (no enoent)
        (λ j n. answer v v n)

  pub getattr-Refused : (i : ℕ) → Refused v (getattr v i)
  unfolding getattr
  getattr-Refused i =
      node_or-holds (Refused v) enoent v i (λ n. (done n, v)) (no enoent) (λ n. answer v v n)

  answered-Refused : (o : Option Text) → Refused v (answered v o)
  answered-Refused none = no enoent
  answered-Refused (some t) = answer v v t

  pub readlink-Refused : (i : ℕ) → Refused v (readlink v i)
  unfolding readlink
  readlink-Refused i =
      node_or-holds (Refused v) enoent v i (text_at v) (no enoent)
        (λ n. answered-Refused (link_text n.view (find_row n.db_path v.conn.vm_fs)))

  delete_node-Refused : (j : ℕ) (n : Node) → Refused v (delete_node v j n)
  delete_node-Refused j n =
      with_db-Refused v (delete_row n.db_path v.conn) tt (λ w. remove_node w j)

  pub unlink-Refused : (i : ℕ) (name : Text) → Refused v (unlink v i name)
  unfolding unlink
  unlink-Refused i name =
      child_or-holds (Refused v) enoent v i name (unlink_node v) (no enoent) (λ j n.
        either-holds (Refused v) (is_directory_node n) (failed eisdir, v) (delete_node v j n)
          (no eisdir) (delete_node-Refused j n))

  rmdir_node-Refused : (j : ℕ) (n : Node) → Refused v (rmdir_node v j n)
  rmdir_node-Refused j n =
      let C = Refused v {B = Unit {0}} in
      either-holds C (not (is_directory_node n)) (failed enotdir, v) _ (no enotdir)
        (either-holds C (not (no_children n)) (failed enotempty, v) (delete_node v j n)
          (no enotempty) (delete_node-Refused j n))

  pub rmdir-Refused : (i : ℕ) (name : Text) → Refused v (rmdir v i name)
  unfolding rmdir
  rmdir-Refused i name =
      child_or-holds (Refused v) enoent v i name (rmdir_node v) (no enoent)
        (λ j n. rmdir_node-Refused j n)

  pub make_symlink-Refused : (i : ℕ) (name target : Text) → Refused v (make_symlink v i name target)
  unfolding make_symlink
  make_symlink-Refused i name target =
      with_paths-holds (Refused v) v (new_entry_paths v i name) (not_made v)
        (add_symlink v i target) (λ e. no e)
        (λ ps.
          with_db-Refused v (vm_add_symlink ps.0 target v.conn) tt
            (λ w. add_node w i ps.0 ps.1 symlink 511 (length target)))

  existing_dir-Refused : (i : ℕ) (name : Text) (e : Errno) → Refused v (existing_dir v i name e)
  existing_dir-Refused i name eexist =
      child_or-holds (Refused v) eexist v i name (directory_or_exists v) (no eexist) (λ j n.
        either-holds (Refused v) (is_directory_node n) (done tt, v) (failed eexist, v)
          (answer v v tt) (no eexist))
  existing_dir-Refused i name enoent = no enoent
  existing_dir-Refused i name enotdir = no enotdir
  existing_dir-Refused i name eisdir = no eisdir
  existing_dir-Refused i name einval = no einval
  existing_dir-Refused i name enotempty = no enotempty
  existing_dir-Refused i name eperm = no eperm
  existing_dir-Refused i name eacces = no eacces
  existing_dir-Refused i name eio = no eio
  existing_dir-Refused i name enosys = no enosys

  pub make_dir-Refused : (i : ℕ) (name : Text) (mode : ℕ) → Refused v (make_dir v i name mode)
  unfolding make_dir
  make_dir-Refused i name mode =
      with_paths-holds (Refused v) v (new_entry_paths v i name) (existing_dir v i name)
        (add_dir v i mode) (λ e. existing_dir-Refused i name e)
        (λ ps.
          with_db-Refused v (vm_add_dir ps.0 (mode % 4096) v.conn.now v.conn) tt
            (λ w. add_node w i ps.0 ps.1 dir (mode % 4096) 4096))

  rename_onto-Refused :
      (j : ℕ) (name : Text) (i : ℕ) (n : Node) (r : Option ℕ) (ms : List Move)
      → Refused v (rename_onto v j name i n r ms)
  rename_onto-Refused j name i n r ms =
      let C = Refused v {B = Unit {0}} in
      either-holds C (is_itself i r) (done tt, v) _ (answer v v tt)
        (either-holds C (is_replaced_dir (node_of r v)) (failed eexist, v) _ (no eexist)
          (either-holds C (any (λ k. k == j) (subtree v i)) (failed einval, v)
            (move_all v j name i n r ms) (no einval)
            (with_db-Refused v (rename_rows (node_of r v) ms v.conn) tt
              (λ w. renamed w r i n j name ms))))

  rename_into-Refused :
      (j : ℕ) (name : Text) (i : ℕ) (n np : Node) → Refused v (rename_into v j name i n np)
  rename_into-Refused j name i n np =
      let C = Refused v {B = Unit {0}} in
      let r = entry_ino name np.children in
      let ms = moves_to v name i n np in
      either-holds C (not (is_directory_node np)) (failed enotdir, v) _ (no enotdir)
        (either-holds C (bad_name name) (failed einval, v) (rename_onto v j name i n r ms)
          (no einval) (rename_onto-Refused j name i n r ms))

  pub rename-Refused :
      (i : ℕ) (name : Text) (j : ℕ) (newname : Text) → Refused v (rename v i name j newname)
  unfolding rename
  rename-Refused i name j newname =
      child_or-holds (Refused v) enoent v i name (rename_node v j newname) (no enoent) (λ k n.
        node_or-holds (Refused v) enoent v j (rename_into v j newname k n) (no enoent)
          (λ np. rename_into-Refused j newname k n np))
