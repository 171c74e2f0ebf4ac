-- ===== src/Policy/Triggers.antt =====
-- Rules, the table that keeps them, and the triggers that `rebuild_triggers` compiles from it. A
-- trigger is the list of the conditions that its WHEN clause joins by OR; no condition, no trigger.
use dbvm.Common.{
  ℕ, min, Bool, not, ◌&&◌, Option, none, some, List, [], ◌∷◌, ◌++◌, map, Text, ltb, ◌==◌,
  if◌then◌else◌, any,
}
use dbvm.Common.Int.{ℤ, pos, ◌+ℤ◌, ◌-ℤ◌, ltb_ℤ}
use dbvm.Common.Decimal.{to_string, parse_u64}
use dbvm.VmPath.{trim, is_nil, normalize_vm_path}
use dbvm.Policy.{under_prefix}

pub data Rule : Type 0 where
  readonly_prefix : Text → Rule
  max_file_size : ℕ → Rule
  disk_quota : ℕ → Rule

-- The column rule_type. Its CHECK admits the first three texts; `unknown` is any other.
pub data RuleType : Type 0 where
  readonly_prefix max_file_size disk_quota unknown : RuleType

pub record PolicyRow : Type 0 where
  pub id : ℕ
  pub rule_type : RuleType
  pub pattern : Text

pub record Policy : Type 0 where
  pub id : ℕ
  pub rule : Rule

-- The two rows that a trigger can name.
pub data Side : Type 0 where
  old_row new_row : Side

pub data Cond : Type 0 where
  under : Side → Text → Cond
  larger_than : ℕ → Cond
  over_quota : ℕ → Cond

pub record Triggers : Type 0 where
  pub fs_ins : List Cond
  pub fs_upd : List Cond
  pub fs_del : List Cond
  pub ch_ins : List Cond
  pub ch_upd : List Cond
  pub ch_del : List Cond

-- What the loop over the rows gathers.
pub record Limits : Type 0 where
  pub prefixes : List Text
  pub max_size : Option ℕ
  pub quota : Option ℕ

abbrev pub no_limits : Limits
no_limits = record { prefixes = []; max_size = none; quota = none }

-- `max_size.map_or(n, |m| m.min(n))`.
abbrev pub strictest : Option ℕ → ℕ → ℕ
strictest none n = n
strictest (some m) n = min m n

-- One round of the loop; `none` is an error.
unfoldable pub gather_row : Limits → PolicyRow → Option Limits
gather_row l r = elim r.rule_type [
  | readonly_prefix ↦ some (record l { prefixes = l.prefixes ++ r.pattern ∷ [] })
  | max_file_size ↦ elim (parse_u64 r.pattern) [
    | none ↦ none
    | some n ↦ some (record l { max_size = some (strictest l.max_size n) })
  ]
  | disk_quota ↦ elim (parse_u64 r.pattern) [
    | none ↦ none
    | some n ↦ some (record l { quota = some (strictest l.quota n) })
  ]
  | unknown ↦ none
]

unfoldable pub gather : Limits → List PolicyRow → Option Limits
unfolding gather_row
gather l [] = some l
gather l (r ∷ rs) = elim (gather_row l r) [ none ↦ none | some l' ↦ gather l' rs ]

abbrev pub size_conds : Limits → List Cond
size_conds l =
    elim l.max_size [ none ↦ [] | some m ↦ larger_than m ∷ [] ]
    ++ elim l.quota [ none ↦ [] | some q ↦ over_quota q ∷ [] ]

-- Size and quota apply to the new row only.
unfoldable pub fs_row : Limits → Side → List Cond
fs_row l old_row = map (under old_row) l.prefixes
fs_row l new_row = map (under new_row) l.prefixes ++ size_conds l

unfoldable pub ch_row : Limits → Side → List Cond
ch_row l side = map (under side) l.prefixes

-- An UPDATE is refused when either side is protected.
unfoldable pub compile : Limits → Triggers
unfolding fs_row ch_row
compile l = record {
  fs_ins = fs_row l new_row;
  fs_upd = fs_row l old_row ++ fs_row l new_row;
  fs_del = fs_row l old_row;
  ch_ins = ch_row l new_row;
  ch_upd = ch_row l old_row ++ ch_row l new_row;
  ch_del = ch_row l old_row;
}

-- Drops and recreates every policy trigger from the current rule set; the table is read by id.
unfoldable pub rebuild_triggers : List PolicyRow → Option Triggers
unfolding gather compile
rebuild_triggers rows = elim (gather no_limits rows) [ none ↦ none | some l ↦ some (compile l) ]

-- What a condition reads of a row.
pub record RowView : Type 0 where
  pub path : Text
  pub is_file : Bool
  pub size : ℕ

-- What a trigger's WHEN clause reads: the rows, the counter `logical_bytes`, and the size that vm_fs
-- holds for a file at the new path.
pub record Event : Type 0 where
  pub old : RowView
  pub new : RowView
  pub logical_bytes : ℤ
  pub held : ℕ

unfoldable pub holds : Event → Cond → Bool
holds e (under old_row prefix) = under_prefix prefix e.old.path
holds e (under new_row prefix) = under_prefix prefix e.new.path
holds e (larger_than m) = e.new.is_file && ltb m e.new.size
holds e (over_quota q) =
    e.new.is_file && ltb_ℤ (pos q) (e.logical_bytes -ℤ pos e.held +ℤ pos e.new.size)

-- `WHEN NOT vm_policy_bypassed() AND (...)`: the bypass is a count of entries.
unfoldable pub refuses : List Cond → ℕ → Event → Bool
unfolding holds
refuses conds bypass e = not (ltb 0 bypass) && any (holds e) conds

-- `Rule` as the two columns, or the error that `add` returns for it.
unfoldable pub encode : Rule → Option (RuleType × Text)
unfolding normalize_vm_path to_string
encode (readonly_prefix p) =
    if is_nil (trim p) then none else some (readonly_prefix, normalize_vm_path p)
encode (max_file_size n) = if n == 0 then none else some (max_file_size, to_string n)
encode (disk_quota n) = if n == 0 then none else some (disk_quota, to_string n)

-- One row of `list` as a policy.
unfoldable pub decode : PolicyRow → Option Policy
unfolding parse_u64
decode r = elim r.rule_type [
  | readonly_prefix ↦ some (record { id = r.id; rule = readonly_prefix r.pattern })
  | max_file_size ↦ elim (parse_u64 r.pattern) [
    | none ↦ none
    | some n ↦ some (record { id = r.id; rule = max_file_size n })
  ]
  | disk_quota ↦ elim (parse_u64 r.pattern) [
    | none ↦ none
    | some n ↦ some (record { id = r.id; rule = disk_quota n })
  ]
  | unknown ↦ none
]

-- All stored rules; the first one that cannot be read is an error.
unfoldable pub list : List PolicyRow → Option (List Policy)
unfolding decode
list [] = some []
list (r ∷ rs) = elim (decode r) [
  | none ↦ none
  | some p ↦ elim (list rs) [ none ↦ none | some ps ↦ some (p ∷ ps) ]
]

-- The pattern of the oldest rule on file sizes.
unfoldable pub size_limit : List PolicyRow → Option (Option ℕ)
unfolding parse_u64
size_limit [] = some none
size_limit (r ∷ rs) = elim r.rule_type [
  | max_file_size ↦ elim (parse_u64 r.pattern) [ none ↦ none | some n ↦ some (some n) ]
  | _ ↦ size_limit rs
]
