-- ===== src/Fuse.antt =====
-- src/fuse.rs: the tree of a mounted VM, and the rows that a rename moves. Names are texts: one that is
-- no UTF-8 is not looked at. Attributes are those that a request changes.
pub mod Requests
pub mod Rename
pub mod Moved
pub mod Served
pub mod Answered
pub mod Added
pub mod Counted
pub mod Contents
pub mod Rebuild
pub mod Refused
pub mod Failed
use dbvm.Common.{
  ℕ, zero, suc, ◌+◌, ◌-◌, ◌%◌, Bool, true, false, not, ◌&&◌, ◌||◌, Option, none, some, List, [],
  ◌∷◌, ◌++◌, map, Text, same, ◌==◌, if◌then◌else◌, keep, any, length,
}
use dbvm.VmPath.{slash, is_nil, dot, dotdot}
use dbvm.Policy.Triggers.{refuses}
use dbvm.Db.{
  Kind, file, dir, symlink, FsRow, Chunk, Db, Error, refused, constraint, Result, ok, err, Tx,
}
use dbvm.Db.Chunks.{of_path, at_index, chunk_event, chunk_view}
use dbvm.Db.Nodes.{find_row, row_event, replace_row, held_size}
use dbvm.Tree.{file_name}

pub data Errno : Type 0 where
  enoent enotdir eisdir einval eexist enotempty eperm eacces eio enosys : Errno

-- What a request is answered with.
pub data Reply (A : Type 0) : Type 0 where
  done : A → Reply A
  failed : Errno → Reply A

-- One entry: its row, the path that the kernel reaches it by, and its directory entries.
pub record Node : Type 0 where
  pub db_path : Text
  pub view : Text
  pub kind : Kind
  pub perm : ℕ
  pub size : ℕ
  pub mtime : ℕ
  pub parent : ℕ
  pub children : List (Text × ℕ)

abbrev pub Nodes : Type 0
Nodes = List (ℕ × Node)

-- The identity that every node reports.
pub record Owner : Type 0 where
  pub uid : ℕ
  pub gid : ℕ

pub record VmFuse : Type 0 where
  pub conn : Db
  pub nodes : Nodes
  pub next_ino : ℕ
  pub owner : Owner

abbrev differs_from : Option ℕ → ℕ → Bool
differs_from none id = false
differs_from (some u) id = not (u == id)

-- Whether a request asks for another owner.
unfoldable pub is_owner_change : Owner → Option ℕ → Option ℕ → Bool
is_owner_change o uid gid = differs_from uid o.uid || differs_from gid o.gid

unfoldable pub find_node : ℕ → Nodes → Option Node
find_node i [] = none
find_node i (e ∷ es) = if e.0 == i then some e.1 else find_node i es

unfoldable pub drop_node : ℕ → Nodes → Nodes
drop_node i es = keep (λ e. not (e.0 == i)) es

unfoldable pub put_node : ℕ → Node → Nodes → Nodes
unfolding drop_node
put_node i n es = (i, n) ∷ drop_node i es

abbrev entry_under : Text → Text × ℕ → Bool
entry_under name e = same e.0 name

abbrev pub first_ino : List (Text × ℕ) → Option ℕ
first_ino [] = none
first_ino (e ∷ es) = some e.1

unfoldable pub entry_ino : Text → List (Text × ℕ) → Option ℕ
unfolding same
entry_ino name es = first_ino (keep (entry_under name) es)

unfoldable pub drop_entry : Text → List (Text × ℕ) → List (Text × ℕ)
unfolding same
drop_entry name es = keep (λ e. not (same e.0 name)) es

-- `get_mut` and a change; nothing without the node.
unfoldable pub change_node : ℕ → (Node → Node) → Nodes → Nodes
unfolding find_node put_node
change_node i f es = elim (find_node i es) [ none ↦ es | some n ↦ put_node i (f n) es ]

abbrev pub without_entry : Text → Node → Node
without_entry name n = record n { children = drop_entry name n.children }

abbrev pub with_entry : Text → ℕ → Node → Node
with_entry name ino n = record n { children = (name, ino) ∷ drop_entry name n.children }

-- The child `name` of a directory.
unfoldable pub child : VmFuse → ℕ → Text → Option ℕ
unfolding find_node entry_ino
child v parent name = elim (find_node parent v.nodes) [
  | none ↦ none
  | some n ↦ entry_ino name n.children
]

unfoldable pub join : Text → Text → Text
unfolding same
join d name = if same d (slash ∷ []) then slash ∷ name else d ++ slash ∷ name

-- Empty, with a slash, or one of the two dots.
unfoldable pub bad_name : Text → Bool
unfolding same
bad_name n = is_nil n || (any (λ c. c == slash) n || (same n dot || same n dotdot))

abbrev pub is_directory_node : Node → Bool
is_directory_node n = elim n.kind [ dir ↦ true | _ ↦ false ]

abbrev pub is_file_node : Node → Bool
is_file_node n = elim n.kind [ file ↦ true | _ ↦ false ]

abbrev held_entry : Option ℕ → Bool
held_entry none = false
held_entry (some i) = true

-- The paths of a new entry, or the error.
unfoldable pub new_entry_paths : VmFuse → ℕ → Text → Reply (Text × Text)
unfolding find_node bad_name entry_ino join
new_entry_paths v parent name = elim (find_node parent v.nodes) [
  | none ↦ failed enoent
  | some p ↦
      if not (is_directory_node p)
      then failed enotdir
      else if bad_name name
      then failed einval
      else if held_entry (entry_ino name p.children)
      then failed eexist
      else done (join p.db_path name, join p.view name)
]

-- Register a created entry.
unfoldable pub add_node : VmFuse → ℕ → Text → Text → Kind → ℕ → ℕ → VmFuse
unfolding change_node put_node file_name
add_node v parent db_path view kind perm size =
    let node : Node = record {
      db_path = db_path;
      view = view;
      kind = kind;
      perm = perm;
      size = size;
      mtime = v.conn.now;
      parent = parent;
      children = [];
    } in
    record v {
      nodes =
          put_node v.next_ino node
            (change_node parent (with_entry (file_name view) v.next_ino) v.nodes);
      next_ino = v.next_ino + 1;
    }

abbrev pub inos : List (Text × ℕ) → List ℕ
inos [] = []
inos (e ∷ es) = e.1 ∷ inos es

-- The loop over the stack of what is below a removed entry; each round with a node takes one away.
unfoldable pub drop_below : ℕ → List ℕ → Nodes → Nodes
unfolding find_node drop_node
drop_below zero stack es = es
drop_below (suc n) [] es = es
drop_below (suc n) (i ∷ stack) es =
    let skip = drop_below n stack es in
    elim (find_node i es) [
      | none ↦ skip
      | some node ↦ drop_below n (inos node.children ++ stack) (drop_node i es)
    ]

abbrev entries_of : Nodes → ℕ
entries_of [] = 0
entries_of (e ∷ es) = length e.1.children + entries_of es

-- Drop an entry and everything under it.
unfoldable pub remove_node : VmFuse → ℕ → VmFuse
unfolding find_node drop_node change_node drop_below file_name
remove_node v ino = elim (find_node ino v.nodes) [
  | none ↦ v
  | some node ↦
      let rest =
        change_node node.parent (without_entry (file_name node.view)) (drop_node ino v.nodes) in
      record v { nodes = drop_below (entries_of v.nodes) (inos node.children) rest }
]

-- An entry and its descendants: the rounds left, and those that are still to be looked at.
unfoldable pub subtree_loop : Nodes → ℕ → List ℕ → List ℕ
unfolding find_node
subtree_loop es zero todo = todo
subtree_loop es (suc n) [] = []
subtree_loop es (suc n) (i ∷ todo) =
    let below : List ℕ = elim (find_node i es) [ none ↦ [] | some node ↦ inos node.children ] in
    i ∷ subtree_loop es n (todo ++ below)

unfoldable pub subtree : VmFuse → ℕ → List ℕ
unfolding subtree_loop
subtree v ino = subtree_loop v.nodes (entries_of v.nodes + 1) (ino ∷ [])

-- A policy refusal is EACCES, anything else EIO.
unfoldable pub write_errno : Error → Errno
write_errno refused = eacces
write_errno _ = eio

-- `UPDATE vm_fs SET path=?1 WHERE path=?2`: the mark in vm_dirty follows.
unfoldable pub move_row : Text → Text → Tx (Unit {0})
unfolding find_row refuses replace_row same held_size
move_row old new s = elim (find_row old s.vm_fs) [
  | none ↦ (ok tt, s)
  | some r ↦
      let moved = record r { path = new } in
      let taken = elim (find_row new s.vm_fs) as (λ _. Bool) [
        | none ↦ false
        | some q ↦ not (same old new)
      ] in
      if refuses s.triggers.fs_upd s.bypass (row_event s r moved)
      then (err refused, s)
      else if taken
      then (err constraint, s)
      else (
        ok tt,
        record s {
          vm_fs = replace_row old moved s.vm_fs;
          vm_dirty = map (λ q. if same q old then new else q) s.vm_dirty;
        },
      )
]

abbrev pub moved_chunk : Text → Text → Chunk → Chunk
moved_chunk old new c = if same c.path old then record c { path = new } else c

-- A row of another path that a moved row would meet.
unfoldable pub meets : Text → Text → List Chunk → Chunk → Bool
unfolding same
meets old new cs c = of_path old c && any (λ d. not (of_path old d) && at_index new c.idx d) cs

-- `UPDATE vm_file_chunks SET path=?1 WHERE path=?2`: the key is (path, idx).
unfoldable pub move_chunks : Text → Text → Tx (Unit {0})
unfolding refuses meets same
move_chunks old new s =
    if any
      (λ c.
        refuses s.triggers.ch_upd s.bypass (record (chunk_event s c.path) { new = chunk_view new }))
      (keep (of_path old) s.vm_file_chunks)
    then (err refused, s)
    else if any (meets old new s.vm_file_chunks) s.vm_file_chunks
    then (err constraint, s)
    else (ok tt, record s { vm_file_chunks = map (moved_chunk old new) s.vm_file_chunks })
