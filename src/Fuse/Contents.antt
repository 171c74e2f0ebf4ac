-- ===== src/Fuse/Contents.antt =====
-- The requests of src/fuse.rs on the content and the attributes of files, the requests in order, and the
-- count of the references.
use dbvm.Common.{
  ℕ, ◌%◌, Bool, true, false, not, ◌&&◌, ◌||◌, Option, none, some, List, [], ◌∷◌, Text, Bytes,
  length,
}
use dbvm.Common.Int.{ℤ, pos, negsuc}
use dbvm.Extern.{Extern}
use dbvm.Db.{Kind, file, dir, symlink, Result, ok, err}
use dbvm.Db.Refs.{IsCounted}
use dbvm.Db.Nodes.{update_row_quiet}
use dbvm.Db.Counted.{update_row_quiet-IsCounted}
use dbvm.Read.{read_range}
use dbvm.Store.{vm_add_bytes, write_range_deferred, truncate_range_deferred}
use dbvm.Store.Ranged.{
  write_range_deferred-IsCounted, truncate_range_deferred-IsCounted, finalize_dirty-IsCounted,
}
use dbvm.Fuse.{
  Errno, enoent, enotdir, eisdir, einval, eexist, enotempty, eperm, eacces, eio, enosys, done,
  failed, Node, VmFuse, is_owner_change, add_node, new_entry_paths, is_directory_node, is_file_node,
}
use dbvm.Fuse.Requests.{
  Answer, Attributes, truncate_found, truncate_node, open_node, open_file, content_of, read_node,
  read, write_found, write_node, write, new_file, not_made, file_or_exists, existing_file, create,
  mknod, set_perm, set_mtime, then_next, set_size, setattr_node, setattr,
}
use dbvm.Fuse.Added.{vm_add_bytes-IsCounted}
use dbvm.Fuse.Answered.{
  AnswerIsCounted, ended, node_or-holds, child_or-holds, with_paths-holds, either-holds,
  with_db-IsCounted,
}
use dbvm.Fuse.Counted.{
  lookup-IsCounted, getattr-IsCounted, readlink-IsCounted, unlink-IsCounted, rmdir-IsCounted,
  make_symlink-IsCounted, make_dir-IsCounted, rename-IsCounted,
}
use dbvm.Fuse.Served.{
  Request, lookup_at, getattr_of, readlink_of, open_of, read_of, write_of, create_at, make_dir_at,
  unlink_at, rmdir_at, symlink_at, rename_to, setattr_of, mknod_at, outcome, serve, serve_all,
  destroy,
}

outcome-IsCounted : {A : Type 0} (a : Answer A) → AnswerIsCounted a → AnswerIsCounted (outcome a)
outcome-IsCounted (done r, v) h = ended (done tt) v h.count
outcome-IsCounted (failed e, v) h = ended (failed e) v h.count

module _ (x : Extern) where
  truncate_found-IsCounted :
      (v : VmFuse) (i size : ℕ) (n : Node)
      → IsCounted v.conn
      → AnswerIsCounted (truncate_found x v i size n)
  truncate_found-IsCounted v i size n h =
      with_db-IsCounted v (truncate_range_deferred x n.db_path size v.conn.now v.conn) _
        (truncate_range_deferred-IsCounted x n.db_path size v.conn.now v.conn h)
        (λ w q. ended (done tt) _ q)

  truncate_node-IsCounted :
      (v : VmFuse) (i size : ℕ) → IsCounted v.conn → AnswerIsCounted (truncate_node x v i size)
  unfolding truncate_node
  truncate_node-IsCounted v i size h =
      node_or-holds AnswerIsCounted enoent v i (truncate_found x v i size)
        (ended (failed enoent) v h) (λ n. truncate_found-IsCounted v i size n h)

  open_node-IsCounted :
      (v : VmFuse) (i : ℕ) (truncated : Bool) (n : Node)
      → IsCounted v.conn
      → AnswerIsCounted (open_node x v i truncated n)
  open_node-IsCounted v i truncated n h =
      let C = AnswerIsCounted {B = Unit {0}} in
      either-holds C (is_directory_node n) (failed eisdir, v) _ (ended (failed eisdir) v h)
        (either-holds C (truncated && is_file_node n) (truncate_node x v i 0) (done tt, v)
          (truncate_node-IsCounted v i 0 h) (ended (done tt) v h))

  open_file-IsCounted :
      (v : VmFuse) (i : ℕ) (truncated : Bool)
      → IsCounted v.conn
      → AnswerIsCounted (open_file x v i truncated)
  unfolding open_file
  open_file-IsCounted v i truncated h =
      node_or-holds AnswerIsCounted enoent v i (open_node x v i truncated)
        (ended (failed enoent) v h) (λ n. open_node-IsCounted v i truncated n h)

  content_of-IsCounted :
      (v : VmFuse) (r : Result Bytes) → IsCounted v.conn → AnswerIsCounted (content_of x v r)
  content_of-IsCounted v (err e) h = ended (failed eio) v h
  content_of-IsCounted v (ok b) h = ended (done b) v h

  kind-IsCounted :
      (v : VmFuse) (k : Kind) (r : Result Bytes)
      → IsCounted v.conn
      → AnswerIsCounted (elim k as (λ _. Answer Bytes) [
        | dir ↦ (failed eisdir, v)
        | symlink ↦ (failed einval, v)
        | file ↦ content_of x v r
      ])
  kind-IsCounted v dir r h = ended (failed eisdir) v h
  kind-IsCounted v symlink r h = ended (failed einval) v h
  kind-IsCounted v file r h = content_of-IsCounted v r h

  read-IsCounted :
      (v : VmFuse) (i : ℕ) (off : ℤ) (len : ℕ)
      → IsCounted v.conn
      → AnswerIsCounted (read x v i off len)
  unfolding read
  read-IsCounted v i (negsuc m) len h = ended (failed einval) v h
  read-IsCounted v i (pos off) len h =
      node_or-holds AnswerIsCounted enoent v i (read_node x v off len) (ended (failed enoent) v h)
        (λ n. kind-IsCounted v n.kind (read_range x v.conn n.db_path off len) h)

  write_found-IsCounted :
      (v : VmFuse) (i off : ℕ) (b : Bytes) (n : Node)
      → IsCounted v.conn
      → AnswerIsCounted (write_found x v i off b n)
  write_found-IsCounted v i off b n h =
      with_db-IsCounted v (write_range_deferred x n.db_path off b v.conn.now v.conn) _
        (write_range_deferred-IsCounted x n.db_path off b v.conn.now v.conn h)
        (λ w q. ended (done (length b)) _ q)

  write-IsCounted :
      (v : VmFuse) (i : ℕ) (off : ℤ) (b : Bytes)
      → IsCounted v.conn
      → AnswerIsCounted (write x v i off b)
  unfolding write
  write-IsCounted v i (negsuc m) b h = ended (failed einval) v h
  write-IsCounted v i (pos off) b h =
      node_or-holds AnswerIsCounted enoent v i (write_node x v i off b) (ended (failed enoent) v h)
        (λ n.
          either-holds AnswerIsCounted (is_directory_node n) (failed eisdir, v)
            (write_found x v i off b n) (ended (failed eisdir) v h)
            (write_found-IsCounted v i off b n h))

  file_or_exists-IsCounted :
      (v : VmFuse) (exclusive truncated : Bool) (i : ℕ) (n : Node)
      → IsCounted v.conn
      → AnswerIsCounted (file_or_exists x v exclusive truncated i n)
  file_or_exists-IsCounted v exclusive truncated i n h =
      let C = AnswerIsCounted {B = Unit {0}} in
      either-holds C (not (is_file_node n) || exclusive) (failed eexist, v) _
        (ended (failed eexist) v h)
        (either-holds C truncated (truncate_node x v i 0) (done tt, v)
          (truncate_node-IsCounted v i 0 h) (ended (done tt) v h))

  existing_file-IsCounted :
      (v : VmFuse) (i : ℕ) (name : Text) (exclusive truncated : Bool) (e : Errno)
      → IsCounted v.conn
      → AnswerIsCounted (existing_file x v i name exclusive truncated e)
  existing_file-IsCounted v i name ex tr eexist h =
      child_or-holds AnswerIsCounted eexist v i name (file_or_exists x v ex tr)
        (ended (failed eexist) v h) (λ j n. file_or_exists-IsCounted v ex tr j n h)
  existing_file-IsCounted v i name ex tr enoent h = ended (failed enoent) v h
  existing_file-IsCounted v i name ex tr enotdir h = ended (failed enotdir) v h
  existing_file-IsCounted v i name ex tr eisdir h = ended (failed eisdir) v h
  existing_file-IsCounted v i name ex tr einval h = ended (failed einval) v h
  existing_file-IsCounted v i name ex tr enotempty h = ended (failed enotempty) v h
  existing_file-IsCounted v i name ex tr eperm h = ended (failed eperm) v h
  existing_file-IsCounted v i name ex tr eacces h = ended (failed eacces) v h
  existing_file-IsCounted v i name ex tr eio h = ended (failed eio) v h
  existing_file-IsCounted v i name ex tr enosys h = ended (failed enosys) v h

  new_file-IsCounted :
      (v : VmFuse) (i mode : ℕ) (ps : Text × Text)
      → IsCounted v.conn
      → AnswerIsCounted (new_file x v i mode ps)
  unfolding new_file add_node
  new_file-IsCounted v i mode ps h =
      with_db-IsCounted v (vm_add_bytes x ps.0 [] (mode % 4096) v.conn.now v.conn)
        (λ w. (done tt, add_node w i ps.0 ps.1 file (mode % 4096) 0))
        (vm_add_bytes-IsCounted x ps.0 [] (mode % 4096) v.conn.now v.conn h)
        (λ w q. ended (done tt) (add_node w i ps.0 ps.1 file (mode % 4096) 0) q)

  create-IsCounted :
      (v : VmFuse) (i : ℕ) (name : Text) (mode : ℕ) (exclusive truncated : Bool)
      → IsCounted v.conn
      → AnswerIsCounted (create x v i name mode exclusive truncated)
  unfolding create
  create-IsCounted v i name mode ex tr h =
      with_paths-holds AnswerIsCounted v (new_entry_paths v i name) (existing_file x v i name ex tr)
        (new_file x v i mode) (λ e. existing_file-IsCounted v i name ex tr e h)
        (λ ps. new_file-IsCounted v i mode ps h)

  mknod-IsCounted :
      (v : VmFuse) (i : ℕ) (name : Text) (mode : ℕ) (regular : Bool)
      → IsCounted v.conn
      → AnswerIsCounted (mknod x v i name mode regular)
  unfolding mknod
  mknod-IsCounted v i name mode false h = ended (failed enosys) v h
  mknod-IsCounted v i name mode true h =
      with_paths-holds AnswerIsCounted v (new_entry_paths v i name) (not_made v)
        (new_file x v i mode) (λ e. ended (failed e) v h) (λ ps. new_file-IsCounted v i mode ps h)

  -- What follows a part of `setattr`.
  abbrev Follows : (VmFuse → Answer Node) → Type 0
  Follows next = (w : VmFuse) → IsCounted w.conn → AnswerIsCounted (next w)

  set_perm-IsCounted :
      (v : VmFuse) (i : ℕ) (n : Node) (o : Option ℕ) (next : VmFuse → Answer Node)
      → Follows next
      → IsCounted v.conn
      → AnswerIsCounted (set_perm x v i n o next)
  set_perm-IsCounted v i n none next k h = k v h
  set_perm-IsCounted v i n (some m) next k h =
      with_db-IsCounted v (update_row_quiet n.db_path _ v.conn) _
        (update_row_quiet-IsCounted n.db_path (λ r. record r { mode = m }) v.conn h) (λ w q. k _ q)

  set_mtime-IsCounted :
      (v : VmFuse) (i : ℕ) (n : Node) (o : Option ℕ) (next : VmFuse → Answer Node)
      → Follows next
      → IsCounted v.conn
      → AnswerIsCounted (set_mtime x v i n o next)
  set_mtime-IsCounted v i n none next k h = k v h
  set_mtime-IsCounted v i n (some t) next k h =
      with_db-IsCounted v (update_row_quiet n.db_path _ v.conn) _
        (update_row_quiet-IsCounted n.db_path (λ r. record r { mtime = t }) v.conn h) (λ w q. k _ q)

  then_next-IsCounted :
      {A : Type 0} (a : Answer A) (next : VmFuse → Answer Node)
      → Follows next
      → AnswerIsCounted a
      → AnswerIsCounted (then_next x a next)
  then_next-IsCounted (failed e, v) next k h = ended (failed e) v h.count
  then_next-IsCounted (done a, v) next k h = k v h.count

  set_size-IsCounted :
      (v : VmFuse) (i : ℕ) (o : Option ℕ) (next : VmFuse → Answer Node)
      → Follows next
      → IsCounted v.conn
      → AnswerIsCounted (set_size x v i o next)
  set_size-IsCounted v i none next k h = k v h
  set_size-IsCounted v i (some size) next k h =
      then_next-IsCounted (truncate_node x v i size) next k (truncate_node-IsCounted v i size h)

  setattr-IsCounted :
      (v : VmFuse) (i : ℕ) (a : Attributes) → IsCounted v.conn → AnswerIsCounted (setattr x v i a)
  unfolding setattr
  setattr-IsCounted v i a h =
      node_or-holds AnswerIsCounted enoent v i (setattr_node x v i a) (ended (failed enoent) v h)
        (λ n.
          either-holds AnswerIsCounted (is_owner_change v.owner a.uid a.gid) (failed eperm, v) _
            (ended (failed eperm) v h)
            (set_perm-IsCounted v i n a.mode _
              (λ w.
                set_mtime-IsCounted w i n a.mtime _
                  (λ u. set_size-IsCounted u i a.size _ (λ t. getattr-IsCounted t i)))
              h))

  -- One request keeps the count.
  serve-IsCounted : (r : Request) (v : VmFuse) → IsCounted v.conn → AnswerIsCounted (serve x r v)
  unfolding serve
  serve-IsCounted (lookup_at i name) v h = outcome-IsCounted _ (lookup-IsCounted v i name h)
  serve-IsCounted (getattr_of i) v h = outcome-IsCounted _ (getattr-IsCounted v i h)
  serve-IsCounted (readlink_of i) v h = outcome-IsCounted _ (readlink-IsCounted v i h)
  serve-IsCounted (open_of i tr) v h = open_file-IsCounted v i tr h
  serve-IsCounted (read_of i off len) v h = outcome-IsCounted _ (read-IsCounted v i off len h)
  serve-IsCounted (write_of i off b) v h = outcome-IsCounted _ (write-IsCounted v i off b h)
  serve-IsCounted (create_at i name mode ex tr) v h = create-IsCounted v i name mode ex tr h
  serve-IsCounted (make_dir_at i name mode) v h = make_dir-IsCounted v i name mode h
  serve-IsCounted (unlink_at i name) v h = unlink-IsCounted v i name h
  serve-IsCounted (rmdir_at i name) v h = rmdir-IsCounted v i name h
  serve-IsCounted (symlink_at i name target) v h = make_symlink-IsCounted v i name target h
  serve-IsCounted (rename_to i name j newname) v h = rename-IsCounted v i name j newname h
  serve-IsCounted (setattr_of i a) v h = outcome-IsCounted _ (setattr-IsCounted v i a h)
  serve-IsCounted (mknod_at i name mode regular) v h = mknod-IsCounted v i name mode regular h

  serve_all-IsCounted :
      (rs : List Request) (v : VmFuse) → IsCounted v.conn → IsCounted (serve_all x rs v).conn
  unfolding serve_all
  serve_all-IsCounted [] v h = h
  serve_all-IsCounted (r ∷ rs) v h =
      serve_all-IsCounted rs (serve x r v).1 (serve-IsCounted r v h).count

  -- Whatever requests a mount answers or refuses, and in whatever order, the references to content stay
  -- counted in its database, once they are served and once the mount is taken down after them.
  pub destroy-serve_all-IsCounted :
      (rs : List Request) (v : VmFuse)
      → IsCounted v.conn
      → IsCounted (serve_all x rs v).conn × IsCounted (destroy x (serve_all x rs v)).conn
  unfolding destroy
  destroy-serve_all-IsCounted rs v h =
      let served = serve_all-IsCounted rs v h in
      (served, finalize_dirty-IsCounted x (serve_all x rs v).conn served)
