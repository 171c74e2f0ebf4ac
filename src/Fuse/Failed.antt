-- ===== src/Fuse/Failed.antt =====
-- The requests of src/fuse.rs on the content of files that fail, all requests, and the tree that the
-- mount shows.
use dbvm.Common.{
  ℕ, ◌%◌, Bool, true, false, not, ◌&&◌, ◌||◌, [], Text, Bytes, length, ◌≡◌, refl, arith,
}
use dbvm.Common.Int.{ℤ, pos, negsuc}
use dbvm.Extern.{Extern}
use dbvm.Db.{Kind, file, dir, symlink, Result, ok, err}
use dbvm.Read.{read_range}
use dbvm.Store.{vm_add_bytes, write_range_deferred, truncate_range_deferred}
use dbvm.Fuse.{
  Errno, enoent, enotdir, eisdir, einval, eexist, enotempty, eperm, eacces, eio, enosys, done,
  failed, Node, VmFuse, add_node, new_entry_paths, is_directory_node, is_file_node,
}
use dbvm.Fuse.Requests.{
  Answer, truncate_found, truncate_node, open_node, open_file, content_of, read_node, read,
  write_found, write_node, write, new_file, not_made, file_or_exists, existing_file, create, mknod,
}
use dbvm.Fuse.Answered.{node_or-holds, child_or-holds, with_paths-holds, either-holds}
use dbvm.Fuse.Served.{
  Request, lookup_at, getattr_of, readlink_of, open_of, read_of, write_of, create_at, make_dir_at,
  unlink_at, rmdir_at, symlink_at, rename_to, setattr_of, mknod_at, serve,
}
use dbvm.Fuse.Refused.{
  is_failed, Refused, answer, with_db-Refused, outcome-Refused, lookup-Refused, getattr-Refused,
  readlink-Refused, unlink-Refused, rmdir-Refused, make_symlink-Refused, make_dir-Refused,
  rename-Refused, refuse,
}

module _ (v : VmFuse) (x : Extern) where
  no : {B : Type 0} (e : Errno) → Refused v {B = B} (failed e, v)
  no e = refuse v v e refl

  truncate_node-Refused : (i size : ℕ) → Refused v (truncate_node x v i size)
  unfolding truncate_node
  truncate_node-Refused i size =
      node_or-holds (Refused v) enoent v i (truncate_found x v i size) (no enoent)
        (λ n. with_db-Refused v (truncate_range_deferred x n.db_path size v.conn.now v.conn) tt _)

  open_node-Refused :
      (i : ℕ) (truncated : Bool) (n : Node) → Refused v (open_node x v i truncated n)
  open_node-Refused i truncated n =
      let C = Refused v {B = Unit {0}} in
      either-holds C (is_directory_node n) (failed eisdir, v) _ (no eisdir)
        (either-holds C (truncated && is_file_node n) (truncate_node x v i 0) (done tt, v)
          (truncate_node-Refused i 0) (answer v v tt))

  open_file-Refused : (i : ℕ) (truncated : Bool) → Refused v (open_file x v i truncated)
  unfolding open_file
  open_file-Refused i truncated =
      node_or-holds (Refused v) enoent v i (open_node x v i truncated) (no enoent)
        (λ n. open_node-Refused i truncated n)

  content_of-Refused : (r : Result Bytes) → Refused v (content_of x v r)
  content_of-Refused (err e) = no eio
  content_of-Refused (ok b) = answer v v b

  kind-Refused :
      (k : Kind) (r : Result Bytes)
      → Refused v (elim k as (λ _. Answer Bytes) [
        | dir ↦ (failed eisdir, v)
        | symlink ↦ (failed einval, v)
        | file ↦ content_of x v r
      ])
  kind-Refused dir r = no eisdir
  kind-Refused symlink r = no einval
  kind-Refused file r = content_of-Refused r

  read-Refused : (i : ℕ) (off : ℤ) (len : ℕ) → Refused v (read x v i off len)
  unfolding read
  read-Refused i (negsuc m) len = no einval
  read-Refused i (pos off) len =
      node_or-holds (Refused v) enoent v i (read_node x v off len) (no enoent)
        (λ n. kind-Refused n.kind (read_range x v.conn n.db_path off len))

  write-Refused : (i : ℕ) (off : ℤ) (b : Bytes) → Refused v (write x v i off b)
  unfolding write
  write-Refused i (negsuc m) b = no einval
  write-Refused i (pos off) b =
      node_or-holds (Refused v) enoent v i (write_node x v i off b) (no enoent) (λ n.
        either-holds (Refused v) (is_directory_node n) (failed eisdir, v)
          (write_found x v i off b n) (no eisdir)
          (with_db-Refused v (write_range_deferred x n.db_path off b v.conn.now v.conn) (length b)
            _))

  file_or_exists-Refused :
      (exclusive truncated : Bool) (i : ℕ) (n : Node)
      → Refused v (file_or_exists x v exclusive truncated i n)
  file_or_exists-Refused ex tr i n =
      let C = Refused v {B = Unit {0}} in
      either-holds C (not (is_file_node n) || ex) (failed eexist, v) _ (no eexist)
        (either-holds C tr (truncate_node x v i 0) (done tt, v) (truncate_node-Refused i 0)
          (answer v v tt))

  existing_file-Refused :
      (i : ℕ) (name : Text) (exclusive truncated : Bool) (e : Errno)
      → Refused v (existing_file x v i name exclusive truncated e)
  existing_file-Refused i name ex tr eexist =
      child_or-holds (Refused v) eexist v i name (file_or_exists x v ex tr) (no eexist)
        (λ j n. file_or_exists-Refused ex tr j n)
  existing_file-Refused i name ex tr enoent = no enoent
  existing_file-Refused i name ex tr enotdir = no enotdir
  existing_file-Refused i name ex tr eisdir = no eisdir
  existing_file-Refused i name ex tr einval = no einval
  existing_file-Refused i name ex tr enotempty = no enotempty
  existing_file-Refused i name ex tr eperm = no eperm
  existing_file-Refused i name ex tr eacces = no eacces
  existing_file-Refused i name ex tr eio = no eio
  existing_file-Refused i name ex tr enosys = no enosys

  new_file-Refused : (i mode : ℕ) (ps : Text × Text) → Refused v (new_file x v i mode ps)
  unfolding new_file
  new_file-Refused i mode ps =
      with_db-Refused v (vm_add_bytes x ps.0 [] (mode % 4096) v.conn.now v.conn) tt
        (λ w. add_node w i ps.0 ps.1 file (mode % 4096) 0)

  create-Refused :
      (i : ℕ) (name : Text) (mode : ℕ) (exclusive truncated : Bool)
      → Refused v (create x v i name mode exclusive truncated)
  unfolding create
  create-Refused i name mode ex tr =
      with_paths-holds (Refused v) v (new_entry_paths v i name) (existing_file x v i name ex tr)
        (new_file x v i mode) (λ e. existing_file-Refused i name ex tr e)
        (λ ps. new_file-Refused i mode ps)

  mknod-Refused :
      (i : ℕ) (name : Text) (mode : ℕ) (regular : Bool) → Refused v (mknod x v i name mode regular)
  unfolding mknod
  mknod-Refused i name mode false = no enosys
  mknod-Refused i name mode true =
      with_paths-holds (Refused v) v (new_entry_paths v i name) (not_made v) (new_file x v i mode)
        (λ e. no e) (λ ps. new_file-Refused i mode ps)

abbrev pub is_setattr : Request → Bool
is_setattr (setattr_of i a) = true
is_setattr _ = false

serve-Refused :
    (x : Extern) (r : Request) (v : VmFuse) → is_setattr r ≡ false → Refused v (serve x r v)
unfolding serve
serve-Refused x (lookup_at i name) v h = outcome-Refused v _ (lookup-Refused v i name)
serve-Refused x (getattr_of i) v h = outcome-Refused v _ (getattr-Refused v i)
serve-Refused x (readlink_of i) v h = outcome-Refused v _ (readlink-Refused v i)
serve-Refused x (open_of i tr) v h = open_file-Refused v x i tr
serve-Refused x (read_of i off len) v h = outcome-Refused v _ (read-Refused v x i off len)
serve-Refused x (write_of i off b) v h = outcome-Refused v _ (write-Refused v x i off b)
serve-Refused x (create_at i name mode ex tr) v h = create-Refused v x i name mode ex tr
serve-Refused x (make_dir_at i name mode) v h = make_dir-Refused v i name mode
serve-Refused x (unlink_at i name) v h = unlink-Refused v i name
serve-Refused x (rmdir_at i name) v h = rmdir-Refused v i name
serve-Refused x (symlink_at i name target) v h = make_symlink-Refused v i name target
serve-Refused x (rename_to i name j newname) v h = rename-Refused v i name j newname
serve-Refused x (setattr_of i a) v h = absurd (ground (arith, h))
serve-Refused x (mknod_at i name mode regular) v h = mknod-Refused v x i name mode regular

-- A request to a mount that is answered with an error, and is not a setattr, leaves the tree that the
-- mount shows as it was.
pub serve_refused-nodes :
    (x : Extern) (r : Request) (v : VmFuse)
    → is_setattr r ≡ false
    → is_failed (serve x r v).0 ≡ true
    → (serve x r v).1.nodes ≡ v.nodes
serve_refused-nodes x r v h e = (serve-Refused x r v h).same_tree e
