-- ===== src/Tests/Host.antt =====
-- Runs of the sync, of the maintenance of stored content and of the cache's limit, and their theorems
-- at inputs where the hypotheses hold.
use dbvm.Common.Int.{◌+ℤ◌, ◌-ℤ◌}
use dbvm.Common.{
  map, true, false, none, some, List, [], ◌∷◌, Text, Bytes, codes, ◌≡◌, ◌↔◌, refl, arith, same,
}
use dbvm.Db.{file, FsRow, Db, Result, ok, err, after, size_mismatch, ◌>>=◌, ◌>>◌}
use dbvm.Db.Nodes.{find_row}
use dbvm.Db.Refs.{IsCounted, refs_in, saved_refs}
use dbvm.Read.{file_bytes, link_next}
use dbvm.Store.{fs_put_file, chunks, store_pieces}
use dbvm.Store.Stream.{stream_chunks, rounds}
use dbvm.Store.Stream.Rounds.{Streams, stream_chunks-rounds}
use dbvm.Store.Stream.Chunked.{joined, stream_chunks-store_pieces}
use dbvm.Maint.{Shrunk, vm_recompress, inline_to_blob, add_row}
use dbvm.Maint.Verify.{bad_refcnt, all_orphans, deep_drift}
use dbvm.Maint.Sound.{verify_iff-IsCounted}
use dbvm.Maint.Counted.{vm_recompress-IsCounted}
use dbvm.Maint.Inline.{inline_to_blob-unreadable}
use dbvm.Tree.{is_reserved_vm_path, resolve_parent_in_vm}
use dbvm.Tree.Sync.{HostEntry, host_file}
use dbvm.Tree.Walked.{HostStatus, present, gone, WalkStep, walked, vm_sync_paths, sync_report_impl}
use dbvm.Tree.Passes.{vm_sync_paths-IsCounted, sync_report_impl-IsCounted}
use dbvm.Cache.{CacheFile, parse_size_bytes, vm_cache_prune}
use dbvm.Cache.Limit.{IsOldestPrune, vm_cache_prune-least}
use dbvm.Samples.{sample_extern, empty_db, file_b, stored, stored-IsCounted, begun, begun-IsCounted}

-- A file on the host.
abbrev entry : HostEntry
entry = record {
  kind = host_file;
  raw_mode = 420;
  modified = some 50;
  size = 3;
  seen_ns = 5;
  before_ns = 5;
  after_ns = 5;
  link = err (size_mismatch [] 0 0);
  opened = ok (ok (codes "new") ∷ []);
  hashed = ok (codes "new");
}

abbrev host : Text → HostStatus
host p = present entry

synced_file :
    file_bytes sample_extern
      (vm_sync_paths sample_extern host (codes "/h") (file_b ∷ []) (some 1) begun).1
      file_b
    ≡ ok (codes "new")
unfolding file_bytes vm_sync_paths fs_put_file ◌>>=◌ ◌>>◌
synced_file = refl

removed_file :
    (vm_sync_paths sample_extern (λ p. gone) (codes "/h") (file_b ∷ []) none stored).1.vm_fs ≡ []
unfolding vm_sync_paths fs_put_file ◌>>=◌ ◌>>◌
removed_file = refl

-- Nothing below /tmp is mirrored.
below_tmp : is_reserved_vm_path (codes "/tmp/a") ≡ true
unfolding is_reserved_vm_path
below_tmp = refl

-- A relative link is followed from the directory above its own, where a read follows it from its own.
followed :
    resolve_parent_in_vm (codes "/usr/lib64/x") ((codes "/usr/lib64", codes "lib") ∷ [])
    ≡ some (codes "/lib")
unfolding resolve_parent_in_vm
followed = refl

followed_by_reads : link_next (codes "/usr/lib64") (codes "lib") ≡ codes "/usr/lib"
unfolding link_next
followed_by_reads = refl

vm_sync_paths_example :
    IsCounted (vm_sync_paths sample_extern host (codes "/h") (file_b ∷ []) (some 1) begun).1
vm_sync_paths_example =
    vm_sync_paths-IsCounted sample_extern host (codes "/h") (file_b ∷ []) (some 1) begun
      begun-IsCounted

abbrev walk : List WalkStep
walk = walked (codes "/c") (ok entry) ∷ []

sync_report_impl_example :
    IsCounted (sync_report_impl sample_extern (codes "/h") walk false (some 1) begun).1
sync_report_impl_example =
    sync_report_impl-IsCounted sample_extern (codes "/h") walk false (some 1) begun begun-IsCounted

no_drift : deep_drift none stored ≡ []
unfolding deep_drift fs_put_file ◌>>=◌ ◌>>◌ ◌+ℤ◌ ◌-ℤ◌ same refs_in saved_refs
no_drift = refl

verify_iff_example :
    ((bad_refcnt stored stored.vm_blobs ≡ 0) × (all_orphans stored ≡ 0)) ↔ IsCounted stored
verify_iff_example = verify_iff-IsCounted stored stored-IsCounted.unique stored-IsCounted.keyed

vm_recompress_example : IsCounted (vm_recompress sample_extern stored).1
vm_recompress_example = vm_recompress-IsCounted sample_extern stored stored-IsCounted

-- A row of an old schema: its content stands in the row.
abbrev legacy_row : FsRow
legacy_row = record {
  path = file_b;
  kind = file;
  mode = 420;
  mtime = 0;
  mtime_ns = 0;
  size = 2;
  link_target = none;
  hash = none;
  content = some (codes "hi");
  compressed = 0;
}

abbrev legacy : Db
legacy = record empty_db { vm_fs = legacy_row ∷ [] }

abbrev nothing : Shrunk
nothing = record { rows = 0; before = 0; after_it = 0 }

legacy_found : find_row file_b legacy.vm_fs ≡ some legacy_row
unfolding find_row same
legacy_found = refl

moved_once :
    (inline_to_blob sample_extern legacy_row (codes "hi") (codes "hi") nothing legacy).0
    ≡ ok (add_row nothing 2 2)
unfolding inline_to_blob ◌>>=◌ ◌>>◌ same
moved_once = refl

inline_to_blob-unreadable_example :
    file_bytes sample_extern
      (inline_to_blob sample_extern legacy_row (codes "hi") (codes "hi") nothing legacy).1
      file_b
    ≡ err (size_mismatch file_b 0 2)
inline_to_blob-unreadable_example =
    inline_to_blob-unreadable sample_extern legacy_row (codes "hi") (codes "hi") nothing
      (add_row nothing 2 2) legacy legacy_found refl refl (ground arith) moved_once

abbrev cached : List CacheFile
cached =
    record { path = codes "new"; size = 5; mtime = 9; removable = true }
    ∷ record { path = codes "old"; size = 4; mtime = 3; removable = true }
    ∷ []

size_with_unit : parse_size_bytes (codes " 2k ") ≡ some 2048
unfolding parse_size_bytes
size_with_unit = refl

vm_cache_prune_example : IsOldestPrune cached 6 (vm_cache_prune cached 6)
vm_cache_prune_example = vm_cache_prune-least cached 6 (refl, (refl, tt))

prune_takes_the_old : (vm_cache_prune cached 6).freed ≡ 4
unfolding vm_cache_prune
prune_takes_the_old = refl

abbrev reads : List (Result Bytes)
reads = ok (codes "ab") ∷ []

stream_chunks_example :
    Streams sample_extern file_b 0 [] reads empty_db
      (stream_chunks sample_extern file_b 9 0 [] reads empty_db)
stream_chunks_example =
    stream_chunks-rounds sample_extern file_b 9 0 [] reads empty_db (ground arith)

abbrev short_reads : List Bytes
short_reads = codes "ab" ∷ codes "c" ∷ []

store_pieces_example :
    stream_chunks sample_extern file_b
      (rounds (map ok short_reads))
      0
      []
      (map ok short_reads)
      empty_db
    ≡ after
        (store_pieces sample_extern file_b 0 (chunks (joined short_reads)) empty_db)
        (λ _ t. (ok (joined short_reads), t))
store_pieces_example =
    stream_chunks-store_pieces sample_extern file_b short_reads empty_db
      (ground arith, (ground arith, tt))
