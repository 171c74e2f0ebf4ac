-- ===== src/Fuse/Rename.antt =====
-- `rename` of src/fuse.rs: the rows move in one savepoint, and the tree follows when it commits.
use dbvm.Common.{
  ℕ, Bool, false, not, Option, none, some, List, [], ◌∷◌, ◌++◌, Text, any, drop, ◌==◌,
  if◌then◌else◌, length,
}
use dbvm.Db.{Tx, ok, ◌>>◌, in_savepoint, for_each}
use dbvm.Db.Nodes.{delete_row}
use dbvm.Tree.{file_name}
use dbvm.Fuse.{
  enotdir, einval, eexist, done, failed, Node, Nodes, VmFuse, find_node, change_node, entry_ino,
  without_entry, with_entry, join, bad_name, remove_node, subtree, move_row, move_chunks,
  is_directory_node,
}
use dbvm.Fuse.Requests.{Answer, with_db, at_node, node_or, at_child, child_or}

-- One entry that moves: its row, and its paths afterwards.
pub record Move : Type 0 where
  pub ino : ℕ
  pub old_db : Text
  pub new_db : Text
  pub new_view : Text

abbrev move_of : Text → Text → Text → ℕ → Node → Move
move_of old_view new_db new_view i n =
    let rel = drop (length old_view) n.view in
    record { ino = i; old_db = n.db_path; new_db = new_db ++ rel; new_view = new_view ++ rel }

-- Every moved entry lands under the new path by its position in the tree. The entries of a subtree have
-- nodes.
unfoldable pub moves_of : Nodes → Text → Text → Text → List ℕ → List Move
unfolding find_node
moves_of es old_view new_db new_view [] = []
moves_of es old_view new_db new_view (i ∷ is) =
    let rest = moves_of es old_view new_db new_view is in
    elim (find_node i es) [ none ↦ rest | some n ↦ move_of old_view new_db new_view i n ∷ rest ]

abbrev pub move_one : Move → Tx (Unit {0})
move_one m = move_row m.old_db m.new_db >> move_chunks m.old_db m.new_db

abbrev pub delete_replaced : Option Node → Tx (Unit {0})
delete_replaced none s = (ok tt, s)
delete_replaced (some r) s = delete_row r.db_path s

unfoldable pub rename_rows : Option Node → List Move → Tx (Unit {0})
unfolding in_savepoint for_each move_row move_chunks delete_row
rename_rows replaced ms = in_savepoint (delete_replaced replaced >> for_each move_one ms)

abbrev with_paths_of : Move → Node → Node
with_paths_of m n = record n { db_path = m.new_db; view = m.new_view }

unfoldable pub retitle : List Move → Nodes → Nodes
unfolding change_node
retitle [] es = es
retitle (m ∷ ms) es = retitle ms (change_node m.ino (with_paths_of m) es)

abbrev remove_replaced : Option ℕ → VmFuse → VmFuse
remove_replaced none v = v
remove_replaced (some r) v = remove_node v r

-- The tree after the commit.
unfoldable pub renamed : VmFuse → Option ℕ → ℕ → Node → ℕ → Text → List Move → VmFuse
unfolding remove_node change_node retitle file_name
renamed v replaced ino n newparent newname ms =
    let v' = remove_replaced replaced v in
    let out = change_node n.parent (without_entry (file_name n.view)) v'.nodes in
    let into = change_node newparent (with_entry newname ino) out in
    let placed = change_node ino (λ m. record m { parent = newparent }) into in
    record v' { nodes = retitle ms placed }

abbrev pub node_of : Option ℕ → VmFuse → Option Node
node_of none v = none
node_of (some r) v = find_node r v.nodes

abbrev pub is_replaced_dir : Option Node → Bool
is_replaced_dir none = false
is_replaced_dir (some r) = is_directory_node r

abbrev pub is_itself : ℕ → Option ℕ → Bool
is_itself ino none = false
is_itself ino (some r) = r == ino

abbrev pub move_all : VmFuse → ℕ → Text → ℕ → Node → Option ℕ → List Move → Answer (Unit {0})
move_all v newparent newname ino n replaced ms =
    with_db v (rename_rows (node_of replaced v) ms v.conn)
      (λ v'. (done tt, renamed v' replaced ino n newparent newname ms))

abbrev pub moves_to : VmFuse → Text → ℕ → Node → Node → List Move
moves_to v newname ino n np =
    moves_of v.nodes n.view (join np.db_path newname) (join np.view newname) (subtree v ino)

-- What is replaced must be another entry and no directory, and a directory does not move into itself.
abbrev pub rename_onto : VmFuse → ℕ → Text → ℕ → Node → Option ℕ → List Move → Answer (Unit {0})
rename_onto v newparent newname ino n replaced ms =
    let all_moved = move_all v newparent newname ino n replaced ms in
    if is_itself ino replaced
    then (done tt, v)
    else if is_replaced_dir (node_of replaced v)
    then (failed eexist, v)
    else if any (λ i. i == newparent) (subtree v ino)
    then (failed einval, v)
    else all_moved

abbrev pub rename_into : VmFuse → ℕ → Text → ℕ → Node → Node → Answer (Unit {0})
rename_into v newparent newname ino n np =
    let onto =
      rename_onto v newparent newname ino n (entry_ino newname np.children)
        (moves_to v newname ino n np) in
    if not (is_directory_node np)
    then (failed enotdir, v)
    else if bad_name newname
    then (failed einval, v)
    else onto

abbrev pub rename_node : VmFuse → ℕ → Text → ℕ → Node → Answer (Unit {0})
rename_node v newparent newname ino n = at_node v newparent (rename_into v newparent newname ino n)

unfoldable pub rename : VmFuse → ℕ → Text → ℕ → Text → Answer (Unit {0})
unfolding child_or node_or bad_name entry_ino subtree join moves_of with_db rename_rows renamed
    find_node
rename v parent name newparent newname = at_child v parent name (rename_node v newparent newname)
