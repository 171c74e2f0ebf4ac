-- ===== src/Saved/Counted.antt =====
-- Chunk rows that move between the live tree, the snapshots and the undo records, and the count of the
-- references.
use dbvm.Common.{◌<◌, Bool, List, [], ◌∷◌, map, keep, ◌≡◌, arith, same_refl}
use dbvm.Db.{Key, Chunk, SavedChunk, Db, for_each}
use dbvm.Db.Blobs.{rows_of, rows_of-bump}
use dbvm.Db.Chunks.{insert_chunk}
use dbvm.Db.Refs.{IsCounted, refs_in, refs_in-keep, saved_refs-keep, rows_of_refcnt}
use dbvm.Db.Keeps.{after-holds}
use dbvm.Db.Counted.{insert_chunk-IsCounted}
use dbvm.Saved.{chunk_of}

-- Every key that a row of the list names has a blob.
abbrev pub Held : List Chunk → Db → Type 0
Held cs s = (h : Key) → 0 < refs_in h cs → 0 < rows_of h s.vm_blobs

rows_of-insert_chunk :
    (h : Key) (c : Chunk) (s : Db) → rows_of h (insert_chunk c s).1.vm_blobs ≡ rows_of h s.vm_blobs
unfolding insert_chunk
rows_of-insert_chunk h c s = ground (arith, rows_of-bump c.hash h s.vm_blobs)

pub insert_each-IsCounted :
    (cs : List Chunk) (s : Db) → IsCounted s → Held cs s → IsCounted (for_each insert_chunk cs s).1
unfolding for_each refs_in
insert_each-IsCounted [] s h held = h
insert_each-IsCounted (c ∷ cs) s h held =
    after-holds (λ t. IsCounted t × Held cs t) IsCounted (insert_chunk c s)
      (λ _. for_each insert_chunk cs)
      (
        insert_chunk-IsCounted c s h (held c.hash (ground (arith, same_refl c.hash))),
        λ k lt. omega (arith, rows_of-insert_chunk k c s, held k (omega arith)),
      )
      (λ t q. q.0) (λ _ t q. insert_each-IsCounted cs t q.0 q.1)

-- The rows that the live tree, a snapshot or an undo record holds have their blobs.
pub live-Held : (s : Db) → IsCounted s → Held s.vm_file_chunks s
live-Held s h k lt = rows_of_refcnt k s.vm_blobs (omega (arith, h.counted k))

pub snapshot-Held :
    (s : Db) (p : SavedChunk → Bool)
    → IsCounted s
    → Held (map chunk_of (keep p s.vm_snapshot_chunks)) s
snapshot-Held s p h k lt =
    rows_of_refcnt k s.vm_blobs
      (omega (arith, h.counted k, saved_refs-keep k p s.vm_snapshot_chunks))

pub undo-Held :
    (s : Db) (p : SavedChunk → Bool) → IsCounted s → Held (map chunk_of (keep p s.vm_undo_chunks)) s
undo-Held s p h k lt =
    rows_of_refcnt k s.vm_blobs (omega (arith, h.counted k, saved_refs-keep k p s.vm_undo_chunks))

pub keep-Held : (p : Chunk → Bool) (cs : List Chunk) (s : Db) → Held cs s → Held (keep p cs) s
keep-Held p cs s held k lt = held k (omega (arith, refs_in-keep k p cs))
