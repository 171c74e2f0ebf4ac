-- ===== src/Fuse/Served.antt =====
-- The requests of src/fuse.rs in the order of their arrival: fuser calls the handlers on one thread.
use dbvm.Common.{ℕ, Bool, List, [], ◌∷◌, Text, Bytes}
use dbvm.Common.Int.{ℤ}
use dbvm.Extern.{Extern}
use dbvm.Store.{finalize_dirty}
use dbvm.Fuse.{done, failed, VmFuse}
use dbvm.Fuse.Requests.{
  Answer, Attributes, lookup, getattr, readlink, open_file, read, write, create, make_dir, unlink,
  rmdir, make_symlink, mknod, setattr,
}
use dbvm.Fuse.Rename.{rename}

pub data Request : Type 0 where
  lookup_at : ℕ → Text → Request
  getattr_of readlink_of : ℕ → Request
  open_of : ℕ → Bool → Request
  read_of : ℕ → ℤ → ℕ → Request
  write_of : ℕ → ℤ → Bytes → Request
  create_at : ℕ → Text → ℕ → Bool → Bool → Request
  make_dir_at : ℕ → Text → ℕ → Request
  unlink_at rmdir_at : ℕ → Text → Request
  symlink_at : ℕ → Text → Text → Request
  rename_to : ℕ → Text → ℕ → Text → Request
  setattr_of : ℕ → Attributes → Request
  mknod_at : ℕ → Text → ℕ → Bool → Request

-- Whether a request is answered, and what it leaves.
abbrev pub outcome : {A : Type 0} → Answer A → Answer (Unit {0})
outcome (done a, v) = (done tt, v)
outcome (failed e, v) = (failed e, v)

module _ (x : Extern) where
  unfoldable pub serve : Request → VmFuse → Answer (Unit {0})
  unfolding lookup getattr readlink open_file read write create make_dir unlink rmdir make_symlink
      rename setattr mknod
  serve (lookup_at i name) v = outcome (lookup v i name)
  serve (getattr_of i) v = outcome (getattr v i)
  serve (readlink_of i) v = outcome (readlink v i)
  serve (open_of i truncated) v = open_file x v i truncated
  serve (read_of i off len) v = outcome (read x v i off len)
  serve (write_of i off b) v = outcome (write x v i off b)
  serve (create_at i name mode exclusive truncated) v = create x v i name mode exclusive truncated
  serve (make_dir_at i name mode) v = make_dir v i name mode
  serve (unlink_at i name) v = unlink v i name
  serve (rmdir_at i name) v = rmdir v i name
  serve (symlink_at i name target) v = make_symlink v i name target
  serve (rename_to i name j newname) v = rename v i name j newname
  serve (setattr_of i a) v = outcome (setattr x v i a)
  serve (mknod_at i name mode regular) v = mknod x v i name mode regular

  unfoldable pub serve_all : List Request → VmFuse → VmFuse
  unfolding serve
  serve_all [] v = v
  serve_all (r ∷ rs) v = serve_all rs (serve r v).1

  -- Unmounting computes the hashes that are still missing; a failure keeps them in vm_dirty.
  unfoldable pub destroy : VmFuse → VmFuse
  unfolding finalize_dirty
  destroy v = record v { conn = (finalize_dirty x v.conn).1 }
