-- ===== src/Db.antt =====
-- The database of a VM: the tables of `vm_schema_sql` (src/vm/schema.rs), one list of rows for each,
-- and the statements that src/vm runs on it. A row id that nothing reads is left out, and so are the
-- columns uid and gid of vm_fs, which keep their default. Text keys of vm_meta are the fields of
-- `Counters`.
pub mod Blobs
pub mod Refs
pub mod Chunks
pub mod Nodes
pub mod Keeps
pub mod Counted
use dbvm.Common.{
  ℕ, zero, suc, ◌+◌, ◌-◌, Bool, true, false, ◌&&◌, Option, none, some, List, [], ◌∷◌, ◌++◌, Text,
  Bytes, same, ltb, leb, ◌==◌, if◌then◌else◌, find, keep, any, max,
}
use dbvm.Common.Int.{ℤ, pos, ◌+ℤ◌, ◌-ℤ◌}
use dbvm.Policy.Triggers.{PolicyRow, Triggers}

-- A content key: the SHA-256 of the bytes.
abbrev pub Key : Type 0
Key = Bytes

pub data Kind : Type 0 where
  file dir symlink : Kind

pub record FsRow : Type 0 where
  pub path : Text
  pub kind : Kind
  pub mode : ℕ
  pub mtime : ℕ
  pub mtime_ns : ℕ
  pub size : ℕ
  pub link_target : Option Text
  pub hash : Option Key
  pub content : Option Bytes
  pub compressed : ℕ

pub record Chunk : Type 0 where
  pub path : Text
  pub idx : ℕ
  pub hash : Key

-- `refcnt` never goes below zero: a row that reaches zero by a release is deleted.
pub record Blob : Type 0 where
  pub hash : Key
  pub content : Bytes
  pub compressed : ℕ
  pub raw_size : ℕ
  pub refcnt : ℕ
  pub dict_id : ℕ

pub record DictRow : Type 0 where
  pub id : ℕ
  pub dict : Bytes
  pub samples : ℕ

pub record Snapshot : Type 0 where
  pub id : ℕ
  pub name : Text
  pub note : Text

-- A row of vm_snapshot_fs or of vm_undo_fs: its owner, and the row of vm_fs that it copies.
pub record SavedNode : Type 0 where
  pub owner : ℕ
  pub path : Text
  pub row : Option FsRow

-- A row of vm_snapshot_chunks or of vm_undo_chunks.
pub record SavedChunk : Type 0 where
  pub owner : ℕ
  pub chunk : Chunk

pub data Op : Type 0 where
  add_op snapshot_op restore_op snapshot_delete_op undo_op sync_op : Op

pub record LogRow : Type 0 where
  pub op : Op
  pub subject : Text

pub record Counters : Type 0 where
  pub count_file : ℤ
  pub count_dir : ℤ
  pub count_symlink : ℤ
  pub logical_bytes : ℤ
  pub blob_bytes : ℤ

pub record Db : Type 0 where
  pub vm_fs : List FsRow
  pub vm_file_chunks : List Chunk
  pub vm_blobs : List Blob
  pub vm_dicts : List DictRow
  pub vm_dirty : List Text
  pub counters : Counters
  pub vm_snapshots : List Snapshot
  pub vm_snapshot_fs : List SavedNode
  pub vm_snapshot_chunks : List SavedChunk
  pub vm_undo : List ℕ
  pub vm_undo_fs : List SavedNode
  pub vm_undo_chunks : List SavedChunk
  pub vm_log : List LogRow
  pub triggers : Triggers
  pub bypass : ℕ
  pub now : ℕ

-- The errors that src/vm raises, by what they say.
pub data Error : Type 0 where
  refused constraint : Error
  not_found is_directory not_directory not_regular not_symlink no_content : Text → Error
  symlink_loop too_many_levels corrupt_row : Text → Error
  missing_chunk chunk_gap missing_blob hash_mismatch bad_length : Text → ℕ → Error
  size_mismatch : Text → ℕ → ℕ → Error
  missing_dictionary : ℕ → Error
  undecodable : Error
  no_such_snapshot : Text → Error
  bad_input : Error
  out_of_rounds : Error

pub data Result {ℓ} (A : Type ℓ) : Type ℓ where
  ok : A → Result A
  err : Error → Result A

-- A function of a connection: it returns or fails, and leaves a database.
abbrev pub Tx {ℓ} : Type ℓ → Type ℓ
Tx A = Db → Result A × Db

-- What follows a result.
abbrev pub after {ℓ κ} :
    {A : Type ℓ} {B : Type κ} → Result A × Db → (A → Db → Result B × Db) → Result B × Db
after (ok a, s) f = f a s
after (err e, s) f = (err e, s)

infixl 5 ◌>>=◌ ◌>>◌
unfoldable pub ◌>>=◌ : {A B : Type 0} → Tx A → (A → Tx B) → Tx B
◌>>=◌ m f s = after (m s) f

unfoldable pub ◌>>◌ : {A B : Type 0} → Tx A → Tx B → Tx B
◌>>◌ m k s = after (m s) (λ _. k)

abbrev pub pure : {A : Type 0} → A → Tx A
pure a s = (ok a, s)

abbrev pub fail : {A : Type 0} → Error → Tx A
fail e s = (err e, s)

abbrev pub gets : {A : Type 0} → (Db → A) → Tx A
gets f s = (ok (f s), s)

abbrev pub lift : {A : Type 0} → Result A → Tx A
lift r s = (r, s)

abbrev pub or_fail : {A : Type 0} → Option A → Error → Tx A
or_fail none e = fail e
or_fail (some a) e = pure a

abbrev pub modify : (Db → Db) → Tx (Unit {0})
modify f s = (ok tt, f s)

abbrev pub keep_or_restore : {A : Type 0} → Db → Result A × Db → Result A × Db
keep_or_restore before (ok a, s) = (ok a, s)
keep_or_restore before (err e, s) = (err e, before)

-- Run `f` inside a savepoint: released if `f` succeeds, rolled back otherwise.
unfoldable pub in_savepoint : {A : Type 0} → Tx A → Tx A
in_savepoint f s = keep_or_restore s (f s)

-- Run `f` in an immediate write transaction.
unfoldable pub write_tx : {A : Type 0} → Tx A → Tx A
write_tx f s = keep_or_restore s (f s)

-- A loop over a list whose rounds may fail.
unfoldable pub for_each : {A : Type 0} → (A → Tx (Unit {0})) → List A → Tx (Unit {0})
for_each f [] s = (ok tt, s)
for_each f (x ∷ xs) s = let rest = for_each f xs in after (f x s) (λ _. rest)

-- The bypass guard: entered before the body and left behind it, whatever the body returns.
unfoldable pub bypassed : {A : Type 0} → Tx A → Tx A
bypassed f s = let (r, s') = f (record s { bypass = 1 }) in (r, record s' { bypass = 0 })
