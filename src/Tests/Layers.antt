-- ===== src/Tests/Layers.antt =====
-- Runs of the overlay's ranged calls, and their theorems at inputs where the hypotheses hold.
use dbvm.Common.{none, some, [], codes, ◌≡◌, refl, same}
use dbvm.VmPath.{normalize_vm_path}
use dbvm.Db.{Chunk, ok, err, missing_chunk, not_found, ◌>>=◌, ◌>>◌}
use dbvm.Db.Blobs.{refcnt_of}
use dbvm.Db.Chunks.{chunk_at}
use dbvm.Db.Refs.{IsCounted}
use dbvm.Store.{fs_put_file}
use dbvm.Overlay.{Overlay, checked, commit}
use dbvm.Overlay.Layered.{read_range, read, read_chunk}
use dbvm.Overlay.Ranged.{write_range, truncate_range, put_delta_chunk}
use dbvm.Overlay.Counted.{first_write_range-IsCounted}
use dbvm.Overlay.Rewritten.{put_delta_chunk-unchanged}
use dbvm.Overlay.Calls.{truncate_call, perform, perform_error}
use dbvm.Samples.{sample_extern, empty_db, empty_db-IsCounted, file_b, stored, stored-IsCounted}

-- A Delta that holds nothing, over a Base with one file.
abbrev over_stored : Overlay
over_stored = record { main = empty_db; base = stored; policies = []; vm_whiteouts = [] }

abbrev rewritten : Overlay
rewritten = (write_range sample_extern over_stored file_b 1 (codes "ull") 9).1

read_base : read_range sample_extern over_stored file_b 1 3 ≡ ok (codes "ell")
unfolding read_range fs_put_file ◌>>=◌ ◌>>◌
read_base = refl

read_written : read sample_extern rewritten file_b ≡ ok (codes "hullo")
unfolding read write_range fs_put_file ◌>>=◌ ◌>>◌ checked commit
read_written = refl

read_cut :
    read sample_extern (truncate_range sample_extern rewritten file_b 2 9).1 file_b
    ≡ ok (codes "hu")
unfolding read truncate_range write_range fs_put_file ◌>>=◌ ◌>>◌ checked commit
read_cut = refl

-- The same bytes again: the call fails.
write_again :
    (write_range sample_extern rewritten file_b 1 (codes "ull") 9).0 ≡ err (missing_chunk file_b 0)
unfolding write_range fs_put_file ◌>>=◌ ◌>>◌ checked commit
write_again = refl

no_rows : chunk_at (normalize_vm_path file_b) 0 empty_db.vm_file_chunks ≡ none
unfolding chunk_at
no_rows = refl

first_write_range_example :
    IsCounted (write_range sample_extern over_stored file_b 1 (codes "ull") 9).1.main
first_write_range_example =
    first_write_range-IsCounted sample_extern over_stored file_b 1 (codes "ull") 9
      (λ i. unfold chunk_at in refl) empty_db-IsCounted

abbrev hello_row : Chunk
hello_row = record { path = file_b; idx = 0; hash = codes "hello" }

held_row : chunk_at file_b 0 stored.vm_file_chunks ≡ some hello_row
unfolding chunk_at fs_put_file ◌>>=◌ ◌>>◌ same
held_row = refl

one_reference : refcnt_of (codes "hello") stored.vm_blobs ≡ 1
unfolding refcnt_of fs_put_file ◌>>=◌ ◌>>◌ same
one_reference = refl

put_again : (put_delta_chunk sample_extern file_b 0 (codes "hello") stored).0 ≡ ok tt
unfolding put_delta_chunk fs_put_file ◌>>=◌ ◌>>◌ same
put_again = refl

put_delta_chunk-unchanged_example :
    read_chunk sample_extern
      (put_delta_chunk sample_extern file_b 0 (codes "hello") stored).1
      file_b
      0
    ≡ err (missing_chunk file_b 0)
put_delta_chunk-unchanged_example =
    put_delta_chunk-unchanged sample_extern file_b 0 (codes "hello") hello_row stored
      stored-IsCounted held_row refl one_reference put_again

no_file :
    (perform sample_extern (truncate_call (codes "/x") 3 9) over_stored).0
    ≡ err (not_found (codes "/x"))
unfolding perform fs_put_file ◌>>=◌ ◌>>◌ checked commit
no_file = refl

perform_error_example :
    (perform sample_extern (truncate_call (codes "/x") 3 9) over_stored).1 ≡ over_stored
perform_error_example =
    perform_error sample_extern (truncate_call (codes "/x") 3 9) over_stored
      (not_found (codes "/x")) no_file
