-- ===== src/VmPath.antt =====
-- Paths inside a VM: `normalize_vm_path` of src/vm/mod.rs, and the helpers of src/owner.rs that turn
-- a stored symlink target into the text that a mount shows. A path is the list of its code points.
pub mod Split
pub mod Walk
pub mod Normalize
pub mod Link
pub mod Tests
use dbvm.Common.{
  ℕ, zero, suc, ◌+◌, ◌-◌, Bool, true, false, not, ◌&&◌, ◌||◌, Option, none, some, List, [], ◌∷◌,
  ◌++◌, Text, codes, same, starts_with, ltb, leb, ◌==◌, if◌then◌else◌, length, drop, replicate, pop,
  last?,
}

abbrev pub slash : ℕ
slash = b'/'

-- `char::is_whitespace`: the code points with the property White_Space.
unfoldable pub is_whitespace : ℕ → Bool
is_whitespace c =
    (leb 9 c && leb c 13)
    || c == 32
    || c == 0x85
    || c == 0xa0
    || c == 0x1680
    || (leb 0x2000 c && leb c 0x200a)
    || c == 0x2028
    || c == 0x2029
    || c == 0x202f
    || c == 0x205f
    || c == 0x3000

trim_start : Text → Text
trim_start [] = []
trim_start (c ∷ s) = if is_whitespace c then trim_start s else c ∷ s

all_whitespace : Text → Bool
all_whitespace [] = true
all_whitespace (c ∷ s) = is_whitespace c && all_whitespace s

trim_end : Text → Text
trim_end [] = []
trim_end (c ∷ s) = if all_whitespace (c ∷ s) then [] else c ∷ trim_end s

-- `str::trim`.
unfoldable pub trim : Text → Text
unfolding is_whitespace trim_start all_whitespace trim_end
trim s = trim_end (trim_start s)

-- `str::split` at one character: as many pieces as separators, and one more.
into_first : ℕ → List Text → List Text
into_first c [] = (c ∷ []) ∷ []
into_first c (w ∷ ws) = (c ∷ w) ∷ ws

unfoldable pub split : ℕ → Text → List Text
unfolding into_first
split sep [] = [] ∷ []
split sep (c ∷ s) = if c == sep then [] ∷ split sep s else into_first c (split sep s)

-- `[String]::join("/")`.
unfoldable pub join : List Text → Text
join [] = []
join (w ∷ []) = w
join (w ∷ v ∷ ws) = w ++ slash ∷ join (v ∷ ws)

abbrev pub dot : Text
dot = b'.' ∷ []

abbrev pub dotdot : Text
dotdot = b'.' ∷ b'.' ∷ []

abbrev pub is_nil : Text → Bool
is_nil [] = true
is_nil (c ∷ s) = false

-- One round of the loop over the segments: `parts` is the vector built so far.
unfoldable pub step_segment : List Text → Text → List Text
unfolding same
step_segment parts seg =
    if is_nil seg || same seg dot
    then parts
    else if same seg dotdot
    then pop parts
    else parts ++ seg ∷ []

unfoldable pub walk : List Text → List Text → List Text
walk parts [] = parts
walk parts (seg ∷ segs) = walk (step_segment parts seg) segs

-- `s.contains("//")`.
has_double : Text → Bool
has_double [] = false
has_double (c ∷ []) = false
has_double (c ∷ d ∷ s) = (c == slash && d == slash) || has_double (d ∷ s)

-- `s.replace("//", "/")`: the matches do not overlap.
replace_double : Text → Text
replace_double [] = []
replace_double (c ∷ []) = c ∷ []
replace_double (c ∷ d ∷ s) =
    if c == slash && d == slash then slash ∷ replace_double s else c ∷ replace_double (d ∷ s)

-- `while s.contains("//") { ... }`.
collapse : ℕ → Text → Text
collapse zero s = s
collapse (suc fuel) s =
    let rest = collapse fuel (replace_double s) in if has_double s then rest else s

-- `s.ends_with('/')`.
ends_with_slash : Text → Bool
ends_with_slash s = elim (last? s) [ none ↦ false | some c ↦ c == slash ]

-- `if !s.starts_with('/') { s = format!("/{}", s); }`.
add_slash : Text → Text
unfolding starts_with
add_slash s = if starts_with (slash ∷ []) s then s else slash ∷ s

-- `if s.len() > 1 && s.ends_with('/') { s.pop(); }`.
drop_slash : Text → Text
unfolding ends_with_slash
drop_slash s = if ltb 1 (length s) && ends_with_slash s then pop s else s

-- `if s.is_empty() { s = "/".to_string(); }`.
or_slash : Text → Text
or_slash s = if is_nil s then slash ∷ [] else s

-- The text that is split into segments. Each round of `collapse` drops a slash, so its length is fuel.
prepare : Text → Text
unfolding has_double replace_double collapse add_slash drop_slash or_slash
prepare t = let s = drop_slash (add_slash t) in or_slash (collapse (length s) s)

abbrev pub render : List Text → Text
render [] = slash ∷ []
render (w ∷ ws) = slash ∷ join (w ∷ ws)

unfoldable pub normalize_vm_path : Text → Text
unfolding trim prepare split join walk step_segment
normalize_vm_path p = render (walk [] (split slash (prepare (trim p))))

-- Components of a VM path with `.` and `..` resolved lexically, not climbing above `/`.
unfoldable pub split_components : Text → List Text
unfolding split walk step_segment
split_components p = walk [] (split slash p)

-- Components of the directory that contains `p`.
unfoldable pub parent_components : Text → List Text
unfolding split_components
parent_components p = pop (split_components p)

-- The length of the common prefix of the two directory paths.
common : List Text → List Text → ℕ
common [] to = 0
common (a ∷ from) [] = 0
common (a ∷ from) (b ∷ to) = if same a b then suc (common from to) else 0

-- `if out.is_empty() { "." } else { out.join("/") }`.
or_dot : List Text → Text
or_dot [] = dot
or_dot (w ∷ ws) = join (w ∷ ws)

-- The link text relative to the directory `from`.
relative : List Text → List Text → Text
unfolding common same join or_dot
relative from to =
    or_dot (replicate (length from - common from to) dotdot ++ drop (common from to) to)

unfoldable pub mount_link_text : Text → Text → Text
unfolding starts_with relative parent_components split_components
mount_link_text link_vm_path stored_target =
    if not (starts_with (slash ∷ []) stored_target)
    then stored_target
    else relative (parent_components link_vm_path) (split_components stored_target)
