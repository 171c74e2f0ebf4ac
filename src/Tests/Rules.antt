-- ===== src/Tests/Rules.antt =====
-- Runs of the path functions, the policies and the overlay, and their theorems at inputs where the
-- hypotheses hold.
use dbvm.Common.{
  true, false, none, some, List, [], ◌∷◌, ◌++◌, Text, All, codes, same, any, starts_with, ◌≡◌, ◌↔◌,
  refl, arith, map, ◌||◌,
}
use dbvm.Common.Int.{pos}
use dbvm.Common.Decimal.{parse_u64}
use dbvm.VmPath.{
  slash, split, walk, render, trim, split_components, parent_components, normalize_vm_path,
  is_whitespace, mount_link_text,
}
use dbvm.VmPath.Walk.{IsName}
use dbvm.VmPath.Link.{split_components-All, walk-mount_link_text}
use dbvm.VmPath.Normalize.{normalize_vm_path-render, normalize-append_whitespace}
use dbvm.Policy.{covers, under_prefix, fold_case}
use dbvm.Policy.Like.{under_prefix-fold, under_prefix-covers}
use dbvm.Policy.Covers.{covers_iff_components}
use dbvm.Policy.Triggers.{
  Rule, RuleType, PolicyRow, Triggers, Event, under, larger_than, new_row, old_row, refuses,
  rebuild_triggers, encode, decode,
}
use dbvm.Policy.Enforce.{refuses-rebuild_triggers, breaks_prefix, breaks_size, decode-encode}
use dbvm.Overlay.{
  Overlay, base_layer, layer_of, lookup_file, whited_out, whited_out_exact, clear_whiteouts_for,
  ancestors, base_paths_below,
}
use dbvm.Overlay.Whiteouts.{lookup_file-layer_of, clear_whiteouts_for-uncovers}
use dbvm.Overlay.Hidden.{clear_whiteouts_for-hides, below_ancestor}
use dbvm.Db.{file, FsRow}
use dbvm.Samples.{empty_db, file_b, linked}

abbrev rules : List PolicyRow
rules =
    record { id = 1; rule_type = RuleType.readonly_prefix; pattern = codes "/etc" }
    ∷ record { id = 2; rule_type = RuleType.max_file_size; pattern = codes "10" }
    ∷ []

abbrev compiled : Triggers
compiled = record {
  fs_ins = under new_row (codes "/etc") ∷ larger_than 10 ∷ [];
  fs_upd = under old_row (codes "/etc") ∷ under new_row (codes "/etc") ∷ larger_than 10 ∷ [];
  fs_del = under old_row (codes "/etc") ∷ [];
  ch_ins = under new_row (codes "/etc") ∷ [];
  ch_upd = under old_row (codes "/etc") ∷ under new_row (codes "/etc") ∷ [];
  ch_del = under old_row (codes "/etc") ∷ [];
}

rules_compile : rebuild_triggers rules ≡ some compiled
unfolding rebuild_triggers parse_u64
rules_compile = refl

abbrev growth : Event
growth = record {
  old = record { path = file_b; is_file = true; size = 5 };
  new = record { path = file_b; is_file = true; size = 50 };
  logical_bytes = pos 5;
  held = 5;
}

refuses-rebuild_triggers_example :
    (refuses compiled.fs_ins 0 growth
      ≡ (any (breaks_prefix growth new_row) rules || any (breaks_size growth) rules))
    × (refuses compiled.fs_del 0 growth ≡ any (breaks_prefix growth old_row) rules)
    × (refuses compiled.fs_upd 0 growth ≡ (
        any (breaks_prefix growth old_row) rules
        || (any (breaks_prefix growth new_row) rules || any (breaks_size growth) rules)))
    × (refuses compiled.ch_ins 0 growth ≡ any (breaks_prefix growth new_row) rules)
    × (refuses compiled.ch_del 0 growth ≡ any (breaks_prefix growth old_row) rules)
    × (refuses compiled.ch_upd 0 growth
        ≡ (any (breaks_prefix growth old_row) rules || any (breaks_prefix growth new_row) rules))
refuses-rebuild_triggers_example = refuses-rebuild_triggers rules compiled growth rules_compile

abbrev etc : Text
etc = codes "/etc"

under_prefix-fold_example : under_prefix etc (codes "/ETC/passwd") ≡ (
    same etc (slash ∷ [])
    || (same (codes "/ETC/passwd") etc
        || starts_with (map fold_case etc ++ slash ∷ []) (map fold_case (codes "/ETC/passwd"))))
under_prefix-fold_example = under_prefix-fold etc (codes "/ETC/passwd")

covered : covers etc (codes "/etc/passwd") ≡ true
unfolding covers
covered = refl

under_prefix-covers_example : under_prefix etc (codes "/etc/passwd") ≡ true
under_prefix-covers_example = under_prefix-covers etc (codes "/etc/passwd") covered

covers_iff_components_example :
    (covers (render (split_components etc)) (render (split_components (codes "/etc/a"))) ≡ true)
    ↔ ((c : List Text) × (split_components (codes "/etc/a") ≡ split_components etc ++ c))
covers_iff_components_example =
    covers_iff_components (split_components etc) (split_components (codes "/etc/a"))
      (split_components-All etc) (split_components-All (codes "/etc/a"))

ten_encoded : encode (Rule.max_file_size 10) ≡ some (RuleType.max_file_size, codes "10")
unfolding encode
ten_encoded = refl

decode-encode_example :
    decode (record { id = 4; rule_type = RuleType.max_file_size; pattern = codes "10" })
    ≡ some (record { id = 4; rule = Rule.max_file_size 10 })
decode-encode_example =
    decode-encode (Rule.max_file_size 10) 4 RuleType.max_file_size (codes "10") (omega arith)
      ten_encoded

walk-mount_link_text_example :
    walk
      (parent_components (codes "/usr/bin/sh"))
      (split slash (mount_link_text (codes "/usr/bin/sh") (codes "/bin/dash")))
    ≡ split_components (codes "/bin/dash")
unfolding starts_with
walk-mount_link_text_example = walk-mount_link_text (codes "/usr/bin/sh") (codes "/bin/dash") refl

normalize_vm_path-render_example :
    (normalize_vm_path (codes " a//./b") ≡ render (split_components (trim (codes " a//./b"))))
    × All IsName (split_components (trim (codes " a//./b")))
normalize_vm_path-render_example = normalize_vm_path-render (codes " a//./b")

normalize-append_whitespace_example :
    normalize_vm_path (file_b ++ 32 ∷ []) ≡ normalize_vm_path file_b
unfolding is_whitespace
normalize-append_whitespace_example = normalize-append_whitespace file_b 32 refl

-- An overlay whose Base holds a file below a directory that was deleted.
abbrev layered : Overlay
layered = record {
  main = empty_db;
  base = linked;
  policies = rules;
  vm_whiteouts = codes "/a" ∷ [];
}

in_base : lookup_file layered file_b ≡ some base_layer
unfolding lookup_file
in_base = refl

lookup_file-layer_of_example : layer_of layered file_b ≡ base_layer
lookup_file-layer_of_example = lookup_file-layer_of layered file_b in_base

clear_whiteouts_for_example :
    whited_out (clear_whiteouts_for layered (codes "/a/c")) (codes "/a/c") ≡ false
clear_whiteouts_for_example =
    clear_whiteouts_for-uncovers layered (codes "/a/c") (unfold clear_whiteouts_for in refl)

abbrev held : Text → FsRow
held p = record {
  path = p;
  kind = file;
  mode = 420;
  mtime = 7;
  mtime_ns = 0;
  size = 5;
  link_target = none;
  hash = none;
  content = none;
  compressed = 0;
}

-- The Base has two files below the removed directory.
abbrev crowded : Overlay
crowded = record layered {
  base = record linked { vm_fs = held (codes "/a/x") ∷ held (codes "/a/c") ∷ [] };
}

clear_whiteouts_for-hides_example :
    whited_out_exact (clear_whiteouts_for crowded (codes "/a/c")) (codes "/a/x") ≡ true
unfolding same ancestors whited_out_exact base_paths_below starts_with
clear_whiteouts_for-hides_example =
    clear_whiteouts_for-hides crowded (codes "/a/c") (codes "/a/x") refl refl
      (below_ancestor (codes "/a") refl refl refl refl)
