-- ===== src/Db/Nodes.antt =====
-- vm_fs and vm_dirty: their statements, with the policy triggers before them and the triggers of
-- src/vm/schema.rs behind them, which keep the counters and delete the chunks of a deleted row.
use dbvm.Common.{
  ℕ, Bool, true, false, not, Option, none, some, List, [], ◌∷◌, ◌++◌, Text, same, if◌then◌else◌,
  find, keep,
}
use dbvm.Common.Int.{pos, ◌+ℤ◌, ◌-ℤ◌}
use dbvm.Policy.Triggers.{RowView, Event, refuses}
use dbvm.Db.{Kind, file, dir, symlink, FsRow, Db, Counters, Tx, ok, err, refused, constraint, after}
use dbvm.Db.Chunks.{of_path, delete_chunks}

abbrev pub is_file : Kind → Bool
is_file file = true
is_file _ = false

unfoldable pub same_kind : Kind → Kind → Bool
same_kind file file = true
same_kind dir dir = true
same_kind symlink symlink = true
same_kind _ _ = false

unfoldable pub find_row : Text → List FsRow → Option FsRow
find_row p rows = find (λ r. same r.path p) rows

abbrev pub row_view : FsRow → RowView
row_view r = record { path = r.path; is_file = is_file r.kind; size = r.size }

-- `COALESCE((SELECT CASE WHEN kind='file' THEN size ELSE 0 END FROM vm_fs WHERE path=NEW.path), 0)`.
abbrev file_size : FsRow → ℕ
file_size r = if is_file r.kind then r.size else 0

unfoldable pub held_size : Text → List FsRow → ℕ
unfolding find_row
held_size p rows = elim (find_row p rows) [ none ↦ 0 | some r ↦ file_size r ]

abbrev pub row_event : Db → FsRow → FsRow → Event
row_event s old new = record {
  old = row_view old;
  new = row_view new;
  logical_bytes = s.counters.logical_bytes;
  held = held_size new.path s.vm_fs;
}

-- `count_<kind>` plus a number.
abbrev count_more : Kind → Counters → Counters
count_more file c = record c { count_file = c.count_file +ℤ pos 1 }
count_more dir c = record c { count_dir = c.count_dir +ℤ pos 1 }
count_more symlink c = record c { count_symlink = c.count_symlink +ℤ pos 1 }

abbrev count_less : Kind → Counters → Counters
count_less file c = record c { count_file = c.count_file -ℤ pos 1 }
count_less dir c = record c { count_dir = c.count_dir -ℤ pos 1 }
count_less symlink c = record c { count_symlink = c.count_symlink -ℤ pos 1 }

-- vm_cnt_fs_ins.
unfoldable pub counted_insert : FsRow → Counters → Counters
counted_insert r c =
    let c' = count_more r.kind c in
    record c' { logical_bytes = c.logical_bytes +ℤ pos (file_size r) }

-- vm_cnt_fs_del.
unfoldable pub counted_delete : FsRow → Counters → Counters
counted_delete r c =
    let c' = count_less r.kind c in
    record c' { logical_bytes = c.logical_bytes -ℤ pos (file_size r) }

-- vm_cnt_fs_upd.
unfoldable pub counted_update : FsRow → FsRow → Counters → Counters
unfolding same_kind
counted_update old new c =
    let c' =
      if same_kind old.kind new.kind then c else count_more new.kind (count_less old.kind c) in
    record c' { logical_bytes = c.logical_bytes -ℤ pos (file_size old) +ℤ pos (file_size new) }

unfoldable pub replace_row : Text → FsRow → List FsRow → List FsRow
replace_row p new [] = []
replace_row p new (r ∷ rs) = (if same r.path p then new else r) ∷ replace_row p new rs

-- `INSERT INTO vm_fs`: the path is unique.
unfoldable pub insert_row : FsRow → Tx (Unit {0})
unfolding refuses find_row held_size counted_insert
insert_row r s =
    if refuses s.triggers.fs_ins s.bypass (row_event s r r)
    then (err refused, s)
    else elim (find_row r.path s.vm_fs) [
      | some old ↦ (err constraint, s)
      | none ↦
          (ok tt, record s { vm_fs = s.vm_fs ++ r ∷ []; counters = counted_insert r s.counters })
    ]

-- `INSERT OR IGNORE INTO vm_fs`: the trigger runs first.
unfoldable pub insert_or_ignore_row : FsRow → Tx (Unit {0})
unfolding refuses find_row held_size counted_insert
insert_or_ignore_row r s =
    if refuses s.triggers.fs_ins s.bypass (row_event s r r)
    then (err refused, s)
    else elim (find_row r.path s.vm_fs) [
      | some old ↦ (ok tt, s)
      | none ↦
          (ok tt, record s { vm_fs = s.vm_fs ++ r ∷ []; counters = counted_insert r s.counters })
    ]

-- `UPDATE vm_fs SET ... WHERE path=?`, with a column that vm_cnt_fs_upd watches.
unfoldable pub update_row : Text → (FsRow → FsRow) → Tx (Unit {0})
unfolding refuses find_row held_size counted_update replace_row
update_row p f s = elim (find_row p s.vm_fs) [
  | none ↦ (ok tt, s)
  | some old ↦
      if refuses s.triggers.fs_upd s.bypass (row_event s old (f old)) then (err refused, s) else (
        ok tt,
        record s {
          vm_fs = replace_row p (f old) s.vm_fs;
          counters = counted_update old (f old) s.counters;
        },
      )
]

-- `UPDATE vm_fs SET ... WHERE path=?` of columns that no counter watches.
unfoldable pub update_row_quiet : Text → (FsRow → FsRow) → Tx (Unit {0})
unfolding refuses find_row held_size replace_row
update_row_quiet p f s = elim (find_row p s.vm_fs) [
  | none ↦ (ok tt, s)
  | some old ↦
      if refuses s.triggers.fs_upd s.bypass (row_event s old (f old))
      then (err refused, s)
      else (ok tt, record s { vm_fs = replace_row p (f old) s.vm_fs })
]

-- `INSERT ... ON CONFLICT(path) DO UPDATE SET ...`: the triggers of the insert run before the conflict
-- is seen, those of the update after it.
unfoldable pub upsert_row : FsRow → (FsRow → FsRow) → Tx (Unit {0})
unfolding insert_row update_row
upsert_row r f s = elim (find_row r.path s.vm_fs) [
  | none ↦ insert_row r s
  | some old ↦
      if refuses s.triggers.fs_ins s.bypass (row_event s r r)
      then (err refused, s)
      else update_row r.path f s
]

-- The row is gone, the foreign key takes the mark in vm_dirty, and vm_cnt_fs_del counts.
unfoldable pub forget_row : Text → FsRow → Db → Db
unfolding counted_delete
forget_row p old s = record s {
  vm_fs = keep (λ r. not (same r.path p)) s.vm_fs;
  vm_dirty = keep (λ q. not (same q p)) s.vm_dirty;
  counters = counted_delete old s.counters;
}

-- `DELETE FROM vm_fs WHERE path=?`: vm_fs_del_chunks deletes the chunks. A refused chunk undoes the
-- statement.
unfoldable pub delete_row : Text → Tx (Unit {0})
unfolding refuses find_row held_size forget_row delete_chunks
delete_row p s = elim (find_row p s.vm_fs) [
  | none ↦ (ok tt, s)
  | some old ↦
      if refuses s.triggers.fs_del s.bypass (row_event s old old)
      then (err refused, s)
      else after (delete_chunks (of_path p) s) (λ _ s'. (ok tt, forget_row p old s'))
]
