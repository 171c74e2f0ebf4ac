-- ===== src/Fuse/Added.antt =====
-- The writes of new entries in src/vm/store.rs and the count of the references.
use dbvm.Common.{ℕ, none, some, List, [], ◌∷◌, ◌++◌, Text, Bytes}
use dbvm.Extern.{Extern}
use dbvm.VmPath.{slash, normalize_vm_path}
use dbvm.Db.{dir, symlink}
use dbvm.Db.Refs.{IsCounted}
use dbvm.Db.Keeps.{Keeps, then-Keeps, gets-Keeps, after-Keeps}
use dbvm.Db.Nodes.{insert_or_ignore_row}
use dbvm.Db.Counted.{insert_or_ignore_row-IsCounted}
use dbvm.Store.{
  directory, ensure_each, ensure_parent_dirs, vm_add_bytes, vm_add_dir, vm_add_symlink,
}
use dbvm.Store.Counted.{fs_put_file-IsCounted}
use dbvm.Tree.Counted.{fs_put_node-IsCounted}

ensure_each-IsCounted : (cur : Text) (ws : List Text) → Keeps IsCounted (ensure_each cur ws)
unfolding ensure_each
ensure_each-IsCounted cur [] s h = h
ensure_each-IsCounted cur (w ∷ ws) s h =
    after-Keeps IsCounted (insert_or_ignore_row (directory s.now (cur ++ slash ∷ w)) s)
      (λ _. ensure_each (cur ++ slash ∷ w) ws)
      (insert_or_ignore_row-IsCounted (directory s.now (cur ++ slash ∷ w)) s h)
      (λ _. ensure_each-IsCounted (cur ++ slash ∷ w) ws)

ensure_parent_dirs-IsCounted : (p : Text) → Keeps IsCounted (ensure_parent_dirs p)
unfolding ensure_parent_dirs
ensure_parent_dirs-IsCounted p = ensure_each-IsCounted [] _

pub vm_add_dir-IsCounted : (p : Text) (mode mtime : ℕ) → Keeps IsCounted (vm_add_dir p mode mtime)
unfolding vm_add_dir
vm_add_dir-IsCounted p mode mtime =
    then-Keeps IsCounted (ensure_parent_dirs (normalize_vm_path p)) _
      (ensure_parent_dirs-IsCounted (normalize_vm_path p))
      (fs_put_node-IsCounted (normalize_vm_path p) dir mode mtime none)

pub vm_add_symlink-IsCounted : (p target : Text) → Keeps IsCounted (vm_add_symlink p target)
unfolding vm_add_symlink
vm_add_symlink-IsCounted p target =
    then-Keeps IsCounted (ensure_parent_dirs (normalize_vm_path p)) _
      (ensure_parent_dirs-IsCounted (normalize_vm_path p))
      (gets-Keeps IsCounted _ _
        (λ now. fs_put_node-IsCounted (normalize_vm_path p) symlink 511 now (some target)))

pub vm_add_bytes-IsCounted :
    (x : Extern) (p : Text) (b : Bytes) (mode mtime : ℕ)
    → Keeps IsCounted (vm_add_bytes x p b mode mtime)
unfolding vm_add_bytes
vm_add_bytes-IsCounted x p b mode mtime =
    then-Keeps IsCounted (ensure_parent_dirs (normalize_vm_path p)) _
      (ensure_parent_dirs-IsCounted (normalize_vm_path p))
      (fs_put_file-IsCounted x (normalize_vm_path p) mode mtime b)
