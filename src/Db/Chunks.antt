-- ===== src/Db/Chunks.antt =====
-- vm_file_chunks: its statements, with the policy triggers before them and the triggers vm_fc_ins and
-- vm_fc_del behind them.
use dbvm.Common.{
  ℕ, ◌+◌, Bool, false, not, ◌&&◌, Option, none, some, List, [], ◌∷◌, ◌++◌, Text, same, ◌==◌,
  if◌then◌else◌, find, keep, any,
}
use dbvm.Common.Int.{pos, ◌-ℤ◌}
use dbvm.Policy.Triggers.{RowView, Event, refuses}
use dbvm.Db.{Chunk, Blob, Db, Tx, ok, err, refused, constraint}
use dbvm.Db.Blobs.{bump, release, released_bytes}

-- A chunk row as a trigger's WHEN clause sees it.
abbrev pub chunk_view : Text → RowView
chunk_view p = record { path = p; is_file = false; size = 0 }

abbrev pub chunk_event : Db → Text → Event
chunk_event s p = record {
  old = chunk_view p;
  new = chunk_view p;
  logical_bytes = s.counters.logical_bytes;
  held = 0;
}

abbrev pub at_index : Text → ℕ → Chunk → Bool
at_index p i c = same c.path p && c.idx == i

-- `SELECT hash FROM vm_file_chunks WHERE path=?1 AND idx=?2`.
unfoldable pub chunk_at : Text → ℕ → List Chunk → Option Chunk
chunk_at p i cs = find (at_index p i) cs

-- `INSERT INTO vm_file_chunks`: the key is (path, idx).
unfoldable pub insert_chunk : Chunk → Tx (Unit {0})
unfolding refuses chunk_at bump
insert_chunk c s =
    if refuses s.triggers.ch_ins s.bypass (chunk_event s c.path)
    then (err refused, s)
    else elim (chunk_at c.path c.idx s.vm_file_chunks) [
      | some d ↦ (err constraint, s)
      | none ↦ (
        ok tt,
        record s { vm_file_chunks = s.vm_file_chunks ++ c ∷ []; vm_blobs = bump c.hash s.vm_blobs },
      )
    ]

unfoldable pub release_each : List Chunk → List Blob → List Blob
unfolding release
release_each [] bs = bs
release_each (c ∷ cs) bs = release_each cs (release c.hash bs)

unfoldable pub freed_bytes : List Chunk → List Blob → ℕ
unfolding release released_bytes
freed_bytes [] bs = 0
freed_bytes (c ∷ cs) bs = released_bytes c.hash bs + freed_bytes cs (release c.hash bs)

-- The rows are gone and each has released its blob.
unfoldable pub drop_chunks : (Chunk → Bool) → Db → Db
unfolding release_each freed_bytes
drop_chunks p s =
    let gone = keep p s.vm_file_chunks in
    record s {
      vm_file_chunks = keep (λ c. not (p c)) s.vm_file_chunks;
      vm_blobs = release_each gone s.vm_blobs;
      counters = record s.counters {
        blob_bytes = s.counters.blob_bytes -ℤ pos (freed_bytes gone s.vm_blobs);
      };
    }

-- `DELETE FROM vm_file_chunks WHERE ...`: one refused row undoes the statement.
unfoldable pub delete_chunks : (Chunk → Bool) → Tx (Unit {0})
unfolding refuses drop_chunks
delete_chunks p s =
    if any (λ c. refuses s.triggers.ch_del s.bypass (chunk_event s c.path))
      (keep p s.vm_file_chunks)
    then (err refused, s)
    else (ok tt, drop_chunks p s)

abbrev pub of_path : Text → Chunk → Bool
of_path p c = same c.path p
