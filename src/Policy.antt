-- ===== src/Policy.antt =====
-- src/policy.rs: write rules that are compiled into triggers of the database.
pub mod Like
pub mod Covers
pub mod Triggers
pub mod Enforce
use dbvm.Common.{
  ℕ, zero, suc, ◌+◌, ◌-◌, ◌≤◌, ◌<◌, min, Bool, true, false, not, ◌&&◌, ◌||◌, Option, none, some,
  List, [], ◌∷◌, ◌++◌, map, Text, codes, same, starts_with, ltb, leb, ◌==◌, if◌then◌else◌, any,
}
use dbvm.VmPath.{slash, trim, is_nil, normalize_vm_path}

-- True if `path` is `prefix` or lies under it, by whole path components.
unfoldable pub covers : Text → Text → Bool
unfolding same starts_with
covers prefix path =
    if same prefix (slash ∷ [])
    then true
    else same path prefix || starts_with (prefix ++ slash ∷ []) path

-- `s.replace(c, with)` at a character.
replace_char : ℕ → Text → Text → Text
replace_char c by [] = []
replace_char c by (x ∷ s) = if x == c then by ++ replace_char c by s else x ∷ replace_char c by s

abbrev pub backslash : ℕ
backslash = b'\\'

abbrev percent : ℕ
percent = b'%'

abbrev underscore : ℕ
underscore = b'_'

-- Escapes LIKE wildcards so a prefix matches literally.
unfoldable pub like_escape : Text → Text
unfolding replace_char
like_escape s = replace_char underscore (backslash ∷ underscore ∷ []) (
    replace_char percent (backslash ∷ percent ∷ [])
      (replace_char backslash (backslash ∷ backslash ∷ []) s))

-- LIKE takes the ASCII letters without their case.
unfoldable pub fold_case : ℕ → ℕ
fold_case c = if leb b'A' c && leb c b'Z' then c + 32 else c

-- One character, and the rest of the pattern on the rest of the text.
match_one : (ℕ → Bool) → (Text → Bool) → Text → Bool
match_one p rest [] = false
match_one p rest (c ∷ s) = p c && rest s

match_some_suffix : (Text → Bool) → Text → Bool
match_some_suffix rest [] = rest []
match_some_suffix rest (c ∷ s) = rest (c ∷ s) || match_some_suffix rest s

-- `text LIKE pattern`, with `ESCAPE '\'` if the flag is set.
unfoldable pub like : Bool → Text → Text → Bool
unfolding match_one match_some_suffix fold_case
like esc [] s = is_nil s
like esc (p ∷ []) s =
    if esc && p == backslash
    then false
    else if p == percent
    then true
    else if p == underscore
    then match_one (λ c. true) is_nil s
    else match_one (λ c. fold_case p == fold_case c) is_nil s
like esc (p ∷ q ∷ ps) s =
    if esc && p == backslash
    then match_one (λ c. fold_case q == fold_case c) (like esc ps) s
    else if p == percent
    then match_some_suffix (like esc (q ∷ ps)) s
    else if p == underscore
    then match_one (λ c. true) (like esc (q ∷ ps)) s
    else match_one (λ c. fold_case p == fold_case c) (like esc (q ∷ ps)) s

-- SQL condition: the column is the protected path or under it.
unfoldable pub under_prefix : Text → Text → Bool
unfolding same like like_escape
under_prefix prefix col =
    if same prefix (slash ∷ [])
    then true
    else same col prefix || like true (like_escape prefix ++ slash ∷ percent ∷ []) col
