-- ===== src/Fuse/Rebuild.antt =====
-- `rebuild` of src/fuse.rs: the tree of a mount from the rows of the database. The order in which a
-- HashMap gives its keys is an argument. A missing key that is indexed is a panic.
use dbvm.Common.{
  ℕ, ◌+◌, ◌%◌, Bool, true, false, not, ◌&&◌, ◌||◌, Option, none, some, List, [], ◌∷◌, Text, same,
  any, ltb, ◌==◌, if◌then◌else◌, length, pop,
}
use dbvm.VmPath.{slash, normalize_vm_path, split_components, render}
use dbvm.Db.{Kind, file, dir, symlink, FsRow, Db}
use dbvm.Tree.{Links, put, resolve_parent_in_vm, shown_at, file_name}
use dbvm.Fuse.{
  Node, Nodes, VmFuse, Owner, find_node, put_node, drop_node, change_node, with_entry, entry_ino,
  is_directory_node,
}

abbrev pub root_ino : ℕ
root_ino = 1

abbrev is_link : Kind → Bool
is_link symlink = true
is_link _ = false

-- Normalized path -> target of the links; reading a link without a target is an error.
unfoldable pub link_map : List FsRow → Links → Option Links
unfolding normalize_vm_path put
link_map [] links = some links
link_map (r ∷ rs) links =
    let skip = link_map rs links in
    let put_target : Option Links = elim r.link_target [
      | none ↦ none
      | some t ↦ link_map rs (put (normalize_vm_path r.path) t links)
    ] in
    if is_link r.kind then put_target else skip

unfoldable pub real_paths : List FsRow → List Text
unfolding normalize_vm_path
real_paths [] = []
real_paths (r ∷ rs) =
    let rest = real_paths rs in if is_link r.kind then rest else normalize_vm_path r.path ∷ rest

-- The order of texts in SQLite.
unfoldable pub text_before : Text → Text → Bool
text_before [] b = true
text_before (c ∷ a) [] = false
text_before (c ∷ a) (d ∷ b) = let rest = text_before a b in ltb c d || (c == d && rest)

abbrev row_before : FsRow → FsRow → Bool
row_before q r =
    ltb (length q.path) (length r.path)
    || (length q.path == length r.path && text_before q.path r.path)

unfoldable insert_ordered : FsRow → List FsRow → List FsRow
unfolding text_before
insert_ordered r [] = r ∷ []
insert_ordered r (q ∷ qs) = if row_before r q then r ∷ q ∷ qs else q ∷ insert_ordered r qs

-- `ORDER BY length(path), path`.
unfoldable pub order_by_length : List FsRow → List FsRow
unfolding insert_ordered
order_by_length [] = []
order_by_length (r ∷ rs) = insert_ordered r (order_by_length rs)

-- The path that the kernel reaches.
unfoldable pub view_of : Links → Text → Text
unfolding resolve_parent_in_vm shown_at normalize_vm_path
view_of links p = elim (resolve_parent_in_vm p links) [
  | none ↦ p
  | some pv ↦ normalize_vm_path (shown_at pv p)
]

abbrev text_length : Option Text → ℕ
text_length none = 0
text_length (some t) = length t

abbrev node_size : FsRow → ℕ
node_size r = elim r.kind [ dir ↦ 4096 | symlink ↦ text_length r.link_target | file ↦ r.size ]

-- What the loop over the rows keeps: the tree, and the inode of each view.
pub record Registered : Type 0 where
  pub nodes : Nodes
  pub next_ino : ℕ
  pub by_view : List (Text × ℕ)

abbrev is_known : Text → List (Text × ℕ) → Bool
is_known view known = any (λ e. same e.0 view) known

-- An alias link that points at a real entry has no room in the tree, nor has a second entry of a view.
unfoldable pub register : Links → List Text → FsRow → Registered → Registered
unfolding normalize_vm_path view_of put_node change_node
register links real r g =
    let norm = normalize_vm_path r.path in
    let view = view_of links norm in
    let node : Node = record {
      db_path = norm;
      view = view;
      kind = r.kind;
      perm = r.mode % 4096;
      size = node_size r;
      mtime = r.mtime;
      parent = root_ino;
      children = [];
    } in
    if same norm (slash ∷ [])
    then record g { nodes = change_node root_ino (λ n. record n { mtime = r.mtime }) g.nodes }
    else if not (same view norm) && any (same view) real
    then g
    else if is_known view g.by_view
    then g
    else record {
      nodes = put_node g.next_ino node g.nodes;
      next_ino = g.next_ino + 1;
      by_view = (view, g.next_ino) ∷ g.by_view;
    }

unfoldable pub register_all : Links → List Text → List FsRow → Registered → Registered
unfolding register
register_all links real [] g = g
register_all links real (r ∷ rs) g = register_all links real rs (register links real r g)

unfoldable pub parent_of : Text → Text
unfolding normalize_vm_path split_components
parent_of p = normalize_vm_path (render (pop (split_components p)))

abbrev enter : ℕ → ℕ → Node → Nodes → Nodes
enter ino parent n es =
    change_node parent (with_entry (file_name n.view) ino)
      (change_node ino (λ m. record m { parent = parent }) es)

-- Parents are linked when every node exists; `self.nodes[&parent]` wants the node.
unfoldable pub link_each : List (Text × ℕ) → List ℕ → Nodes → Option Nodes
unfolding find_node entry_ino drop_node change_node parent_of file_name
link_each by_view [] es = some es
link_each by_view (ino ∷ inos) es = elim (find_node ino es) [
  | none ↦ none
  | some n ↦ elim (entry_ino (parent_of n.view) by_view) [
    | none ↦ link_each by_view inos (drop_node ino es)
    | some parent ↦ elim (find_node parent es) [
      | none ↦ none
      | some p ↦
          link_each by_view inos
            (if is_directory_node p then enter ino parent n es else drop_node ino es)
    ]
  ]
]

abbrev root_alone : Nodes
root_alone =
    (
      root_ino,
      record {
        db_path = slash ∷ [];
        view = slash ∷ [];
        kind = dir;
        perm = 493;
        size = 4096;
        mtime = 0;
        parent = root_ino;
        children = [];
      },
    )
    ∷ []

unfoldable pub registered : Db → Links → Registered
unfolding register_all real_paths order_by_length
registered s links =
    register_all links (real_paths s.vm_fs) (order_by_length s.vm_fs) (record {
      nodes = root_alone;
      next_ino = root_ino + 1;
      by_view = (slash ∷ [], root_ino) ∷ [];
    })

-- `keys` is the order of the inodes below the root.
unfoldable pub rebuild : Owner → (Nodes → List ℕ) → Db → Option VmFuse
unfolding link_map registered link_each
rebuild owner keys s = elim (link_map s.vm_fs []) [
  | none ↦ none
  | some links ↦
      let g = registered s links in
      elim (link_each g.by_view (keys g.nodes) g.nodes) [
        | none ↦ none
        | some es ↦ some (record { conn = s; nodes = es; next_ino = g.next_ino; owner = owner })
      ]
]
