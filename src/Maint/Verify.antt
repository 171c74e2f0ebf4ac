-- ===== src/Maint/Verify.antt =====
-- `vm_verify` of src/vm/maint.rs: every counter and reference count computed again from the rows. The
-- pages and the integrity check are SQLite's, and the text that the result is printed as is left out.
use dbvm.Common.{
  ℕ, ◌+◌, Bool, not, ◌&&◌, Option, none, some, List, [], ◌∷◌, ◌++◌, Text, same, ltb, leb, ◌==◌,
  if◌then◌else◌, length, keep, any, map,
}
use dbvm.Common.Int.{ℤ, pos, ◌+ℤ◌, same_ℤ}
use dbvm.Extern.{Extern}
use dbvm.Db.{FsRow, Chunk, SavedChunk, Blob, Db, Counters, ok, Tx, after}
use dbvm.Db.Blobs.{find_blob}
use dbvm.Db.Chunks.{of_path}
use dbvm.Db.Nodes.{is_file}
use dbvm.Db.Refs.{refs}
use dbvm.Saved.{chunk_of}
use dbvm.Store.{finalize_dirty}

-- What does not agree, with the stored number and the one counted from the rows.
pub data Drift : Type 0 where
  files_drift logical_drift blob_bytes_drift : ℤ → ℕ → Drift
  bad_refcnt_drift orphan_drift snapshot_gap_drift gap_drift no_chunks_drift : ℕ → Drift
  uncovered_drift short_drift : ℕ → Drift

unfoldable pub bytes_of_files : List FsRow → ℕ
bytes_of_files [] = 0
bytes_of_files (r ∷ rs) = (if is_file r.kind then r.size else 0) + bytes_of_files rs

unfoldable pub bytes_of_blobs : List Blob → ℕ
bytes_of_blobs [] = 0
bytes_of_blobs (b ∷ bs) = length b.content + bytes_of_blobs bs

-- The blobs whose reference count is not the number of the rows that name them.
unfoldable pub bad_refcnt : Db → List Blob → ℕ
bad_refcnt s [] = 0
bad_refcnt s (b ∷ bs) = (if b.refcnt == refs b.hash s then 0 else 1) + bad_refcnt s bs

-- The rows that name a blob which is not there.
unfoldable pub orphans : List Blob → List Chunk → ℕ
unfolding find_blob
orphans bs [] = 0
orphans bs (c ∷ cs) = (elim (find_blob c.hash bs) [ none ↦ 1 | some b ↦ 0 ]) + orphans bs cs

-- The chunk rows of the live tree, of the snapshots and of the undo records.
unfoldable pub all_orphans : Db → ℕ
unfolding orphans
all_orphans s =
    orphans s.vm_blobs s.vm_file_chunks
    + orphans s.vm_blobs (map chunk_of s.vm_snapshot_chunks)
    + orphans s.vm_blobs (map chunk_of s.vm_undo_chunks)

-- `max(idx) + 1`, and zero without a row.
unfoldable pub after_last : List Chunk → ℕ
after_last [] = 0
after_last (c ∷ cs) = let rest = after_last cs in if leb rest c.idx then c.idx + 1 else rest

-- The groups of a list of rows by a test of equality: each row of a group takes the others with it.
unfoldable pub gaps_of : {A : Type 0} → (A → A → Bool) → (A → Chunk) → List A → List A → ℕ
unfolding after_last
gaps_of alike row seen [] = 0
gaps_of alike row seen (c ∷ cs) =
    let group = map row (c ∷ keep (alike c) cs) in
    let here = if after_last group == length group then 0 else 1 in
    (if any (alike c) seen then 0 else here) + gaps_of alike row (c ∷ seen) cs

abbrev same_file : Chunk → Chunk → Bool
same_file c d = same c.path d.path

abbrev same_saved : SavedChunk → SavedChunk → Bool
same_saved c d = c.owner == d.owner && same c.chunk.path d.chunk.path

-- `kind='file' AND size>0` without a row in one of the lists.
unfoldable pub without_chunks : List Chunk → List FsRow → ℕ
without_chunks cs [] = 0
without_chunks cs (r ∷ rs) =
    (if is_file r.kind && ltb 0 r.size && not (any (of_path r.path) cs) then 1 else 0)
    + without_chunks cs rs

-- The sizes of the blobs behind the chunks of a file.
unfoldable pub raw_bytes : List Blob → List Chunk → ℕ
unfolding find_blob
raw_bytes bs [] = 0
raw_bytes bs (c ∷ cs) =
    (elim (find_blob c.hash bs) [ none ↦ 0 | some b ↦ b.raw_size ]) + raw_bytes bs cs

abbrev raw_size_of : Db → Text → ℕ
raw_size_of s p = raw_bytes s.vm_blobs (keep (of_path p) s.vm_file_chunks)

-- The files of a Delta that neither layer covers.
unfoldable pub short_files : Db → Db → List FsRow → ℕ
unfolding raw_bytes
short_files base s [] = 0
short_files base s (r ∷ rs) =
    (if is_file r.kind && ltb (raw_size_of s r.path + raw_size_of base r.path) r.size then 1 else 0)
    + short_files base s rs

abbrev found : ℕ → (ℕ → Drift) → List Drift
found n what = if ltb 0 n then what n ∷ [] else []

abbrev differs : ℤ → ℕ → (ℤ → ℕ → Drift) → List Drift
differs stored real what = if same_ℤ stored (pos real) then [] else what stored real ∷ []

-- The checks of a database that stands alone, and of a Delta over a Base.
unfoldable pub layer_drift : Option Db → Db → List Drift
unfolding gaps_of without_chunks short_files
layer_drift none s =
    found (gaps_of same_file (λ c. c) [] s.vm_file_chunks) gap_drift
    ++ found (without_chunks s.vm_file_chunks s.vm_fs) no_chunks_drift
layer_drift (some base) s =
    found (without_chunks (s.vm_file_chunks ++ base.vm_file_chunks) s.vm_fs) uncovered_drift
    ++ found (short_files base s s.vm_fs) short_drift

abbrev count_all : Counters → ℤ
count_all c = c.count_file +ℤ c.count_dir +ℤ c.count_symlink

unfoldable pub deep_drift : Option Db → Db → List Drift
unfolding bytes_of_files bytes_of_blobs bad_refcnt all_orphans gaps_of layer_drift
deep_drift base s =
    differs (count_all s.counters) (length s.vm_fs) files_drift
    ++ (differs s.counters.logical_bytes (bytes_of_files s.vm_fs) logical_drift
        ++ (differs s.counters.blob_bytes (bytes_of_blobs s.vm_blobs) blob_bytes_drift
            ++ (found (bad_refcnt s s.vm_blobs) bad_refcnt_drift
                ++ (found (all_orphans s) orphan_drift
                    ++ (found (gaps_of same_saved chunk_of [] s.vm_snapshot_chunks)
                          snapshot_gap_drift
                        ++ layer_drift base s)))))

-- The pending hashes first; then what is reported.
unfoldable pub vm_verify : Extern → Option Db → Bool → Tx (List Drift)
unfolding finalize_dirty deep_drift
vm_verify x base deep s =
    after (finalize_dirty x s) (λ n s'. (ok (if deep then deep_drift base s' else []), s'))
