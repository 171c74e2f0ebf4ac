-- ===== src/Tests/Mount.antt =====
-- Runs of the requests of a mount, and their theorems at inputs where the hypotheses hold.
use dbvm.Common.Int.{pos}
use dbvm.Common.{ℕ, true, false, Option, none, some, List, [], ◌∷◌, Text, codes, ◌≡◌, refl, ap}
use dbvm.Db.{Kind, FsRow, Db, file, dir, ok, ◌>>=◌, ◌>>◌}
use dbvm.Db.Refs.{IsCounted}
use dbvm.Read.{file_bytes}
use dbvm.Policy.{under_prefix}
use dbvm.Fuse.Refused.{is_failed}
use dbvm.Policy.Triggers.{under, old_row}
use dbvm.Fuse.{failed, eperm, eacces, Node, VmFuse, drop_entry, find_node}
use dbvm.Fuse.Served.{
  Request, write_of, create_at, make_dir_at, unlink_at, rename_to, setattr_of, serve, serve_all,
  destroy,
}
use dbvm.Fuse.Contents.{destroy-serve_all-IsCounted}
use dbvm.Fuse.Rebuild.{rebuild}
use dbvm.Fuse.Failed.{serve_refused-nodes}
use dbvm.Samples.{no_triggers, sample_extern, file_b, stored, stored-IsCounted}

abbrev root_node : Node
root_node = record {
  db_path = codes "/";
  view = codes "/";
  kind = dir;
  perm = 493;
  size = 4096;
  mtime = 0;
  parent = 1;
  children = (codes "b", 2) ∷ [];
}

abbrev b_node : Node
b_node = record {
  db_path = file_b;
  view = file_b;
  kind = file;
  perm = 420;
  size = 5;
  mtime = 7;
  parent = 1;
  children = [];
}

-- A mount of the database with one file.
abbrev mount : VmFuse
mount = record {
  conn = stored;
  nodes = (1, root_node) ∷ (2, b_node) ∷ [];
  next_ino = 3;
  owner = record { uid = 1000; gid = 1000 };
}

-- A directory is made, the file is written, moved into it, and its old name created again.
abbrev requests : List Request
requests =
    make_dir_at 1 (codes "d") 493
    ∷ write_of 2 (pos 1) (codes "ull")
    ∷ rename_to 1 (codes "b") 3 (codes "c")
    ∷ create_at 1 (codes "b") 420 true false
    ∷ unlink_at 1 (codes "x")
    ∷ []

moved_content :
    file_bytes sample_extern (serve_all sample_extern requests mount).conn (codes "/d/c")
    ≡ ok (codes "hullo")
unfolding file_bytes serve_all ◌>>=◌ ◌>>◌ drop_entry
moved_content = refl

created_again :
    file_bytes sample_extern (serve_all sample_extern requests mount).conn (codes "/b") ≡ ok []
unfolding file_bytes serve_all ◌>>=◌ ◌>>◌ drop_entry
created_again = refl

of_another_owner :
    (serve sample_extern
      (setattr_of 2 (record { mode = none; uid = some 0; gid = none; size = none; mtime = none }))
      mount).0
    ≡ failed eperm
unfolding serve
of_another_owner = refl

destroy-serve_all_example :
    IsCounted (serve_all sample_extern requests mount).conn
    × IsCounted (destroy sample_extern (serve_all sample_extern requests mount)).conn
destroy-serve_all_example =
    destroy-serve_all-IsCounted sample_extern requests mount stored-IsCounted

-- The mount of a database whose rows are protected from deletion.
abbrev protected : VmFuse
protected = record mount {
  conn = record stored {
    triggers = record no_triggers { fs_del = under old_row (codes "/") ∷ [] };
  };
}

unlink_is_refused : (serve sample_extern (unlink_at 1 (codes "b")) protected).0 ≡ failed eacces
unfolding serve ◌>>◌ under_prefix
unlink_is_refused = refl

serve_refused_example :
    (serve sample_extern (unlink_at 1 (codes "b")) protected).1.nodes ≡ protected.nodes
serve_refused_example =
    serve_refused-nodes sample_extern (unlink_at 1 (codes "b")) protected refl
      (ap is_failed unlink_is_refused)

abbrev row : Text → Kind → FsRow
row p k = record {
  path = p;
  kind = k;
  mode = 493;
  mtime = 7;
  mtime_ns = 0;
  size = 5;
  link_target = none;
  hash = none;
  content = none;
  compressed = 0;
}

-- The directory /a has no row, /a/b and what is below it have.
abbrev orphans_db : Db
orphans_db = record stored {
  vm_fs = row (codes "/a/b/c") file ∷ row (codes "/a/b") dir ∷ row (codes "/d") file ∷ [];
}

abbrev mounted : List ℕ → Option VmFuse
mounted keys = rebuild mount.owner (λ es. keys) orphans_db

abbrev names : Option VmFuse → Option (List (Text × ℕ))
names none = none
names (some v) = elim (find_node 1 v.nodes) [ none ↦ none | some n ↦ some n.children ]

-- With what is below first, both entries are unreachable; with the directory first, the code panics.
children_before : names (mounted (4 ∷ 3 ∷ 2 ∷ [])) ≡ some ((codes "d", 2) ∷ [])
unfolding rebuild find_node drop_entry
children_before = refl

parents_before : mounted (3 ∷ 4 ∷ 2 ∷ []) ≡ none
unfolding rebuild
parents_before = refl
