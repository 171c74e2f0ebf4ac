-- ===== src/Overlay.antt =====
-- src/overlay.rs: a Delta that is written over a Base that is not, with whiteouts for what is deleted.
-- The Base's rows are those of its tables at the time of a call.
pub mod Whiteouts
pub mod Layered
pub mod Ranged
pub mod Counted
pub mod Rewritten
pub mod Calls
pub mod Hidden
use dbvm.Common.{
  ℕ, zero, suc, ◌+◌, ◌-◌, ◌^◌, min, Bool, true, false, not, ◌&&◌, ◌||◌, Option, none, some, List,
  [], ◌∷◌, ◌++◌, Text, Bytes, same, starts_with, ltb, ◌==◌, if◌then◌else◌, length, drop, keep, find,
  any, map,
}
use dbvm.Common.Int.{ℤ, pos, negsuc, ◌+ℤ◌, ◌-ℤ◌, ltb_ℤ}
use dbvm.Common.Decimal.{parse_u64}
use dbvm.VmPath.{slash, is_nil, normalize_vm_path}
use dbvm.Policy.{covers, like}
use dbvm.Policy.Triggers.{
  PolicyRow, RuleType, readonly_prefix, max_file_size, disk_quota, unknown, strictest,
}
use dbvm.Extern.{Extern}
use dbvm.Db.{
  Kind, file, dir, symlink, FsRow, Db, Result, ok, err, Error, refused, not_found, not_directory,
  not_symlink, bad_input, Tx, for_each,
}
use dbvm.Db.Nodes.{find_row, is_file, delete_row}
use dbvm.Read.{◌>>=◌, ◌>>◌, or_err, guard}
use dbvm.Saved.{text_le}
use dbvm.Store.{vm_add_bytes, vm_add_dir, vm_add_symlink}

-- The connection: the Delta, the attached Base with its policies (no row where it has no table of
-- them), and the table vm_whiteouts.
pub record Overlay : Type 0 where
  pub main : Db
  pub base : Db
  pub policies : List PolicyRow
  pub vm_whiteouts : List Text

-- Which layer answered a lookup.
pub data Layer : Type 0 where
  delta_layer base_layer missing : Layer

abbrev pub root : Text
root = slash ∷ []

-- `&cur[..i]` for `i = cur.rfind('/')`.
unfoldable pub before_slash : Text → Option Text
before_slash [] = none
before_slash (c ∷ s) = elim (before_slash s) [
  | some t ↦ some (c ∷ t)
  | none ↦ if c == slash then some [] else none
]

-- The loop that cuts a path at its last `/` until nothing stands before it: `at_root` is what it then
-- gives. The length of the path is fuel enough.
unfoldable pub cut_loop : List Text → ℕ → Text → List Text
unfolding before_slash
cut_loop at_root zero p = []
cut_loop at_root (suc n) p = elim (before_slash p) [
  | none ↦ []
  | some t ↦ elim t [ [] ↦ at_root | c ∷ u ↦ (c ∷ u) ∷ cut_loop at_root n (c ∷ u) ]
]

-- The ancestors of a path below the root, nearest first.
unfoldable pub ancestors : Text → List Text
unfolding cut_loop
ancestors p = cut_loop [] (length p) p

-- The path and its ancestors, the root included.
unfoldable pub upward : Text → List Text
unfolding cut_loop
upward p = p ∷ cut_loop (root ∷ []) (length p) p

unfoldable pub whited_out_exact : Overlay → Text → Bool
unfolding same
whited_out_exact o p = any (same p) o.vm_whiteouts

-- True if `p` or any ancestor of it is whited out.
unfoldable pub whited_out : Overlay → Text → Bool
unfolding upward whited_out_exact
whited_out o p = any (whited_out_exact o) (upward p)

abbrev pub kind_in : Db → Text → Option Kind
kind_in s p = elim (find_row p s.vm_fs) [ none ↦ none | some r ↦ some r.kind ]

abbrev pub in_layer : Db → Text → Bool
in_layer s p = elim (find_row p s.vm_fs) [ none ↦ false | some r ↦ true ]

-- Where a path currently resolves, the path in normal form.
unfoldable pub layer_of : Overlay → Text → Layer
unfolding whited_out find_row
layer_of o p =
    if whited_out o p
    then missing
    else if in_layer o.main p
    then delta_layer
    else if in_layer o.base p
    then base_layer
    else missing

unfoldable pub locate : Overlay → Text → Layer
unfolding normalize_vm_path layer_of
locate o vm_path = layer_of o (normalize_vm_path vm_path)

unfoldable pub exists : Overlay → Text → Bool
unfolding locate
exists o vm_path = elim (locate o vm_path) [ missing ↦ false | _ ↦ true ]

-- Which layer holds a regular file that the overlay exposes at `p`.
unfoldable pub lookup_file : Overlay → Text → Option Layer
unfolding find_row whited_out
lookup_file o p = elim (kind_in o.main p) [
  | some k ↦ if is_file k then some delta_layer else none
  | none ↦ elim (kind_in o.base p) [
    | none ↦ none
    | some k ↦ if not (is_file k) || whited_out o p then none else some base_layer
  ]
]

-- Kind of a path as seen through the overlay.
unfoldable pub kind_in_overlay : Overlay → Text → Option Kind
unfolding locate find_row
kind_in_overlay o p = elim (locate o p) [
  | delta_layer ↦ kind_in o.main p
  | base_layer ↦ kind_in o.base p
  | missing ↦ none
]

abbrev file_bytes_of : List FsRow → ℕ
file_bytes_of [] = 0
file_bytes_of (r ∷ rs) = (if is_file r.kind then r.size else 0) + file_bytes_of rs

-- Total bytes of regular files: the Base's, and those of the Delta whose path the Base does not hold.
unfoldable pub view_file_bytes : Overlay → ℕ
unfolding find_row
view_file_bytes o =
    file_bytes_of o.base.vm_fs
    + file_bytes_of (keep (λ r. not (in_layer o.base r.path)) o.main.vm_fs)

-- The loop over the Base's rules: the strictest quota.
unfoldable pub check_rules : Text → Option ℕ → List PolicyRow → Result (Option ℕ)
unfolding covers
check_rules p quota [] = ok quota
check_rules p quota (r ∷ rs) = elim r.rule_type [
  | readonly_prefix ↦
      let rest = check_rules p quota rs in if covers r.pattern p then err refused else rest
  | max_file_size ↦ elim (parse_u64 r.pattern) [
    | none ↦ err bad_input
    | some n ↦ check_rules p quota rs
  ]
  | disk_quota ↦ elim (parse_u64 r.pattern) [
    | none ↦ err bad_input
    | some n ↦ check_rules p (some (strictest quota n)) rs
  ]
  | unknown ↦ check_rules p quota rs
]

-- Check the Base's write policies before touching a path.
unfoldable pub check_base_policy : Overlay → Text → Result (Unit {0})
unfolding check_rules view_file_bytes
check_base_policy o p = do
  quota ← check_rules p none o.policies
  guard (elim quota [ none ↦ true | some q ↦ not (ltb q (view_file_bytes o)) ]) refused

-- The strictest value of the rules of one type.
unfoldable pub strictest_of : (RuleType → Bool) → Option ℕ → List PolicyRow → Result (Option ℕ)
unfolding parse_u64
strictest_of is out [] = ok out
strictest_of is out (r ∷ rs) =
    let rest = strictest_of is out rs in
    let taken : Result (Option ℕ) = elim (parse_u64 r.pattern) [
      | none ↦ err bad_input
      | some n ↦ strictest_of is (some (strictest out n)) rs
    ] in
    if is r.rule_type then taken else rest

abbrev is_max_file : RuleType → Bool
is_max_file max_file_size = true
is_max_file _ = false

abbrev is_quota : RuleType → Bool
is_quota disk_quota = true
is_quota _ = false

abbrev in_i64 : ℤ → Option ℤ
in_i64 (pos n) = if ltb n (2 ^ 63) then some (pos n) else none
in_i64 (negsuc n) = if ltb n (2 ^ 63) then some (negsuc n) else none

abbrev negated : Option ℕ → Option ℤ
negated none = none
negated (some n) = in_i64 (pos 0 -ℤ pos n)

abbrev not_negated : Option ℕ → Option ℤ
not_negated none = none
not_negated (some n) = in_i64 (pos n)

-- `str::parse::<i64>`.
unfoldable pub parse_i64 : Text → Option ℤ
unfolding parse_u64 starts_with ◌-ℤ◌
parse_i64 [] = none
parse_i64 (c ∷ s) =
    if c == b'-'
    then (if starts_with (b'+' ∷ []) s then none else negated (parse_u64 s))
    else not_negated (parse_u64 (c ∷ s))

abbrev strictest_ℤ : Option ℤ → ℤ → ℤ
strictest_ℤ none n = n
strictest_ℤ (some m) n = if ltb_ℤ m n then m else n

-- The smallest disk quota; one that is no i64 is an error.
unfoldable pub strictest_quota : Option ℤ → List PolicyRow → Result (Option ℤ)
unfolding parse_i64
strictest_quota out [] = ok out
strictest_quota out (r ∷ rs) =
    let rest = strictest_quota out rs in
    let taken : Result (Option ℤ) = elim (parse_i64 r.pattern) [
      | none ↦ err bad_input
      | some n ↦ strictest_quota (some (strictest_ℤ out n)) rs
    ] in
    if is_quota r.rule_type then taken else rest

-- Refuse a write that would push the view past the Base's quota; `growth` may be negative.
unfoldable pub check_base_quota : Overlay → ℤ → Result (Unit {0})
unfolding strictest_quota view_file_bytes
check_base_quota o growth = do
  quota ← strictest_quota none o.policies
  guard (elim quota [ none ↦ true | some q ↦ not (ltb_ℤ q (pos (view_file_bytes o) +ℤ growth)) ])
      refused

-- The largest file size the Base's policies allow.
unfoldable pub base_max_file : Overlay → Result (Option ℕ)
unfolding strictest_of
base_max_file o = strictest_of is_max_file none o.policies

unfoldable pub check_base_max_file : Overlay → ℕ → Result (Unit {0})
unfolding base_max_file
check_base_max_file o size = do
  limit ← base_max_file o
  guard (elim limit [ none ↦ true | some n ↦ not (ltb n size) ]) refused

-- `INSERT OR IGNORE INTO main.vm_whiteouts`.
unfoldable pub add_whiteout : List Text → Text → List Text
unfolding same
add_whiteout ws p = if any (same p) ws then ws else ws ++ p ∷ []

unfoldable pub add_whiteouts : List Text → List Text → List Text
unfolding add_whiteout
add_whiteouts ws [] = ws
add_whiteouts ws (p ∷ ps) = add_whiteouts (add_whiteout ws p) ps

abbrev row_path : FsRow → Text
row_path r = r.path

-- `SELECT path FROM base.vm_fs WHERE path LIKE '<p>/%'`, not escaped.
unfoldable pub base_paths_below : Overlay → Text → List Text
unfolding like
base_paths_below o p = keep (like false (p ++ slash ∷ b'%' ∷ [])) (map row_path o.base.vm_fs)

-- The Base paths below a whited-out ancestor that stay hidden when `p` becomes visible.
unfoldable pub locked_below : Overlay → Text → Text → List Text
unfolding base_paths_below same starts_with ancestors
locked_below o p anc =
    keep
      (λ bp.
        not (same bp p || starts_with (p ++ slash ∷ []) bp) && not (any (same bp) (ancestors p)))
      (base_paths_below o anc)

abbrev pub lock_each : Overlay → Text → List Text → List Text → List Text
lock_each o p [] ws = ws
lock_each o p (anc ∷ ancs) ws = lock_each o p ancs (add_whiteouts ws (locked_below o p anc))

-- Make `p` visible for writing.
unfoldable pub clear_whiteouts_for : Overlay → Text → Overlay
unfolding ancestors whited_out_exact add_whiteouts locked_below base_paths_below same
clear_whiteouts_for o p =
    let whited = keep (whited_out_exact o) (ancestors p) in
    let locked = lock_each o p whited o.vm_whiteouts in
    let below =
      if any (same p) locked then add_whiteouts locked (base_paths_below o p) else locked in
    record o {
      vm_whiteouts = keep (λ w. not (same p w) && not (any (λ a. same a w) (ancestors p))) below;
    }

-- A write transaction on the Delta and its whiteouts: nothing stays of one that fails.
unfoldable pub commit : Overlay → Overlay → Result (Unit {0}) × Db → Result (Unit {0}) × Overlay
commit before o (ok u, s) = (ok u, record o { main = s })
commit before o (err e, s) = (err e, before)

-- A check that fails ends the call.
unfoldable pub checked :
    Result (Unit {0}) → Result (Unit {0}) × Overlay → Overlay → Result (Unit {0}) × Overlay
checked (ok u) done o = done
checked (err e) done o = (err e, o)

abbrev pub held_in_delta : Overlay → Text → ℕ
held_in_delta o p = elim (find_row p o.main.vm_fs) [ none ↦ 0 | some r ↦ r.size ]

module _ (x : Extern) where
  -- Write a regular file: always to the Delta.
  unfoldable pub write : Overlay → Text → Bytes → ℕ → ℕ → Result (Unit {0}) × Overlay
  unfolding normalize_vm_path check_base_policy check_base_max_file check_base_quota
      clear_whiteouts_for vm_add_bytes find_row
  write o vm_path b mode mtime =
      let p = normalize_vm_path vm_path in
      let may = (do
        check_base_policy o p
        check_base_max_file o (length b)
        check_base_quota o (pos (length b) -ℤ pos (held_in_delta o p))) in
      let o' = clear_whiteouts_for o p in
      checked may (commit o o' (vm_add_bytes x p b mode mtime o'.main)) o

-- Create a directory in the Delta.
unfoldable pub mkdir : Overlay → Text → Result (Unit {0}) × Overlay
unfolding normalize_vm_path check_base_policy clear_whiteouts_for vm_add_dir
mkdir o vm_path =
    let p = normalize_vm_path vm_path in
    let o' = clear_whiteouts_for o p in
    checked (check_base_policy o p) (commit o o' (vm_add_dir p 493 o.main.now o'.main)) o

-- Create a symlink in the Delta.
unfoldable pub make_symlink : Overlay → Text → Text → Result (Unit {0}) × Overlay
unfolding normalize_vm_path check_base_policy clear_whiteouts_for vm_add_symlink
make_symlink o vm_path target =
    let p = normalize_vm_path vm_path in
    let o' = clear_whiteouts_for o p in
    checked (check_base_policy o p) (commit o o' (vm_add_symlink p target o'.main)) o

abbrev is_link : Kind → Bool
is_link symlink = true
is_link _ = false

abbrev link_in : Db → Text → Option Text
link_in s p = elim (find_row p s.vm_fs) [
  | none ↦ none
  | some r ↦ if is_link r.kind then r.link_target else none
]

-- Target of a symlink as seen through the overlay.
unfoldable pub readlink : Overlay → Text → Result Text
unfolding normalize_vm_path locate find_row
readlink o vm_path =
    let p = normalize_vm_path vm_path in
    elim (locate o p) [
      | delta_layer ↦ or_err (link_in o.main p) (not_symlink p)
      | base_layer ↦ or_err (link_in o.base p) (not_symlink p)
      | missing ↦ err (not_found p)
    ]

-- `path=?1 OR path LIKE ?2` with the pattern `<p>/%`, not escaped.
unfoldable pub in_subtree : Text → Text → Bool
unfolding same like
in_subtree p q = same q p || like false ((if same p root then [] else p) ++ slash ∷ b'%' ∷ []) q

unfoldable pub in_base_subtree : Overlay → Text → Bool
unfolding in_subtree
in_base_subtree o p = any (in_subtree p) (map row_path o.base.vm_fs)

-- Delete a path as seen through the overlay: the Delta's subtree goes, a whiteout hides the Base's.
unfoldable pub remove : Overlay → Text → Result (Unit {0}) × Overlay
unfolding normalize_vm_path check_base_policy in_subtree in_base_subtree add_whiteout for_each
    delete_row
remove o vm_path =
    let p = normalize_vm_path vm_path in
    let o' =
      if in_base_subtree o p
      then record o { vm_whiteouts = add_whiteout o.vm_whiteouts p }
      else o in
    let gone = keep (in_subtree p) (map row_path o.main.vm_fs) in
    checked (check_base_policy o p) (commit o o' (for_each delete_row gone o.main)) o

-- `BTreeSet::insert`.
insert_name : Text → List Text → List Text
unfolding same text_le
insert_name n [] = n ∷ []
insert_name n (m ∷ ms) =
    if same n m then m ∷ ms else if text_le n m then n ∷ m ∷ ms else m ∷ insert_name n ms

unfoldable pub insert_names : List Text → List Text → List Text
unfolding insert_name
insert_names [] set = set
insert_names (n ∷ ns) set = insert_names ns (insert_name n set)

-- What `direct` returns for each path that has a name directly below the prefix.
unfoldable pub direct_names : Text → List Text → List Text
direct_names prefix [] = []
direct_names prefix (q ∷ qs) =
    let rest = drop (length prefix) q in
    if is_nil rest || any (λ c. c == slash) rest
    then direct_names prefix qs
    else rest ∷ direct_names prefix qs

-- Names of the direct children of a directory, merged across layers.
unfoldable pub list : Overlay → Text → Result (List Text)
unfolding normalize_vm_path kind_in_overlay same like direct_names insert_names upward
    whited_out_exact
list o vm_path =
    let p = normalize_vm_path vm_path in
    let prefix = if same p root then root else p ++ slash ∷ [] in
    let below = like false (prefix ++ b'%' ∷ []) in
    let delta_names = direct_names prefix (keep below (map row_path o.main.vm_fs)) in
    let base_names = direct_names prefix (keep below (map row_path o.base.vm_fs)) in
    let seen = keep (λ w. same w p || below w) o.vm_whiteouts in
    let hidden = direct_names prefix seen in
    let up = upward p in
    let hide_all = any (λ w. any (same w) up) seen || any (whited_out_exact o) (drop 1 up) in
    let shown = if hide_all then [] else keep (λ n. not (any (same n) hidden)) base_names in
    elim (kind_in_overlay o p) [
      | none ↦ err (not_directory p)
      | some k ↦ elim k [
        | dir ↦ ok (insert_names shown (insert_names delta_names []))
        | _ ↦ err (not_directory p)
      ]
    ]
