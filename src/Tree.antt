-- ===== src/Tree.antt =====
-- src/vm/tree.rs: the paths of a tree on the host and those of the database. The walk over the host
-- and what it writes there are left out; a map is the list of its pairs, the latest first.
pub mod Sync
pub mod Walked
pub mod Counted
pub mod Passes
use dbvm.Common.{
  Bool, true, false, ◌||◌, Option, none, some, List, [], ◌∷◌, ◌++◌, Text, codes, same, starts_with,
  if◌then◌else◌, keep, any, pop, last?,
}
use dbvm.VmPath.{slash, split_components, normalize_vm_path}
use dbvm.Read.{parent_dir}
use dbvm.Undo.{trim_slashes}

abbrev pub Links : Type 0
Links = List (Text × Text)

-- `HashMap::get`.
unfoldable pub get : Text → Links → Option Text
unfolding same
get p [] = none
get p ((q, t) ∷ ls) = if same q p then some t else get p ls

-- `HashMap::insert`.
unfoldable pub put : Text → Text → Links → Links
unfolding same
put p t ls = (p, t) ∷ keep (λ (q, u). if same q p then false else true) ls

-- `str::contains` at a string.
unfoldable pub contains : Text → Text → Bool
unfolding starts_with
contains w [] = starts_with w []
contains w (c ∷ s) = starts_with w (c ∷ s) || contains w s

abbrev at_or_below : Text → Text → Bool
at_or_below d p = same p d || starts_with (d ++ slash ∷ []) p

-- Paths that the sync never mirrors.
unfoldable pub is_reserved_vm_path : Text → Bool
unfolding same starts_with contains
is_reserved_vm_path p =
    same p (slash ∷ [])
    || any (λ d. at_or_below d p)
        (codes "/dev"
          ∷ codes "/proc"
          ∷ codes "/sys"
          ∷ codes "/tmp"
          ∷ codes "/opt/piagent"
          ∷ codes "/.selfdb"
          ∷ [])
    || contains (codes "/__pycache__") p

-- `format!("/{}", comp)` below the root, `format!("{}/{}", cur, comp)` elsewhere.
unfoldable pub child_of : Text → Text → Text
unfolding same
child_of cur comp = if same cur (slash ∷ []) then slash ∷ comp else cur ++ slash ∷ comp

-- Where the link `next` leads: the path that stands for it, and the directory that holds it is `cur`.
unfoldable pub follow : Text → Text → Text
unfolding starts_with normalize_vm_path parent_dir
follow cur t =
    if starts_with (slash ∷ []) t
    then normalize_vm_path t
    else normalize_vm_path (parent_dir cur ++ slash ∷ t)

-- The loop over the components: the path so far, and whether a link was replaced.
unfoldable pub resolve_components : Links → Text → Bool → List Text → Text × Bool
unfolding child_of get follow
resolve_components links cur changed [] = (cur, changed)
resolve_components links cur changed (comp ∷ comps) =
    let next = child_of cur comp in
    let kept = resolve_components links next changed comps in
    elim (get next links) [
      | none ↦ kept
      | some t ↦ resolve_components links (follow cur t) true comps
    ]

-- The parent of `p` with every ancestor that is a link replaced by its target, if there is one.
unfoldable pub resolve_parent_in_vm : Text → Links → Option Text
unfolding resolve_components split_components
resolve_parent_in_vm p links =
    let (cur, changed) = resolve_components links (slash ∷ []) false (pop (split_components p)) in
    if changed then some cur else none

abbrev or_empty : Option Text → Text
or_empty none = []
or_empty (some t) = t

-- `Path::file_name`.
unfoldable pub file_name : Text → Text
unfolding split_components
file_name p = or_empty (last? (split_components p))

-- The path at which a tree on the host shows `p` whose parent is `pv`.
unfoldable pub shown_at : Text → Text → Text
unfolding file_name
shown_at pv p = trim_slashes pv ++ slash ∷ file_name p

-- Translated path -> database path, for the links below a link.
unfoldable pub aliases_of : Links → Links → Links
unfolding resolve_parent_in_vm shown_at put normalize_vm_path
aliases_of links [] = []
aliases_of links ((p, t) ∷ rest) =
    let others = aliases_of links rest in
    elim (resolve_parent_in_vm p links) [
      | none ↦ others
      | some pv ↦ put (normalize_vm_path (shown_at pv p)) p others
    ]

unfoldable pub link_aliases : Links → Links
unfolding aliases_of
link_aliases links = aliases_of links links

-- The translated path of a link.
unfoldable pub link_alias_target_of : Text → Links → Option Text
unfolding same
link_alias_target_of p [] = none
link_alias_target_of p ((q, t) ∷ alias) = if same t p then some q else link_alias_target_of p alias
