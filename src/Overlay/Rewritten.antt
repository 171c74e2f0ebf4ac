-- ===== src/Overlay/Rewritten.antt =====
-- A chunk of the Delta that `write_range` of src/overlay.rs writes again.
use dbvm.Common.{
  ℕ, ◌≤◌, ◌<◌, Bool, true, not, none, some, List, [], ◌∷◌, ◌++◌, Text, Bytes, keep, ◌≡◌, refl,
  arith, same_refl, Option-cases, inl, inr, ap, sym, ◌∙◌,
}
use dbvm.Extern.{Extern}
use dbvm.Codec.{archive}
use dbvm.Db.{Key, Chunk, Blob, Db, ok, err, missing_chunk, after, ◌>>◌}
use dbvm.Db.Blobs.{find_blob, refcnt_of, rows_of, bump, release}
use dbvm.Db.Chunks.{chunk_at, at_index, delete_chunks, drop_chunks, insert_chunk, release_each}
use dbvm.Db.Refs.{IsCounted, copies, rows_of_refcnt}
use dbvm.Db.Keeps.{after-ok}
use dbvm.Store.{blob_ensure_with, chunk_row}
use dbvm.Store.Counted.{rows_of_missing}
use dbvm.Overlay.Layered.{read_chunk}
use dbvm.Overlay.Ranged.{put_delta_chunk}

delete_chunks-ok :
    (q : Chunk → Bool) (s : Db)
    → (delete_chunks q s).0 ≡ ok tt
    → (delete_chunks q s).1 ≡ drop_chunks q s
unfolding delete_chunks
delete_chunks-ok q s e = ground (arith, e)

insert_chunk-ok :
    (c : Chunk) (s : Db)
    → (insert_chunk c s).0 ≡ ok tt
    → ((insert_chunk c s).1.vm_file_chunks ≡ s.vm_file_chunks ++ c ∷ [])
      × ((insert_chunk c s).1.vm_blobs ≡ bump c.hash s.vm_blobs)
unfolding insert_chunk
insert_chunk-ok c s e = (ground (arith, e), ground (arith, e))

release-none :
    (h : Key) (bs : List Blob)
    → rows_of h bs ≤ 1
    → refcnt_of h bs ≤ 1
    → find_blob h (release h bs) ≡ none
unfolding rows_of refcnt_of find_blob release
release-none h [] u r = refl
release-none h (b ∷ bs) u r = ground (arith, release-none h bs)

bump-none : (h : Key) (bs : List Blob) → find_blob h bs ≡ none → find_blob h (bump h bs) ≡ none
unfolding find_blob bump
bump-none h [] e = refl
bump-none h (b ∷ bs) e = ground (arith, e, bump-none h bs)

no_copies : (p : Text) (i : ℕ) (cs : List Chunk) → copies p i cs ≤ 0 → keep (at_index p i) cs ≡ []
unfolding copies
no_copies p i [] u = refl
no_copies p i (c ∷ cs) u = ground (arith, no_copies p i cs)

one_copy :
    (p : Text) (i : ℕ) (cs : List Chunk) (c : Chunk)
    → copies p i cs ≤ 1
    → chunk_at p i cs ≡ some c
    → keep (at_index p i) cs ≡ c ∷ []
unfolding copies chunk_at
one_copy p i [] c u e = absurd (ground (arith, e))
one_copy p i (d ∷ cs) c u e = ground (arith, no_copies p i cs, one_copy p i cs c, e)

chunk_at-dropped :
    (p : Text) (i : ℕ) (cs : List Chunk) (c : Chunk)
    → at_index p i c ≡ true
    → chunk_at p i (keep (λ d. not (at_index p i d)) cs ++ c ∷ []) ≡ some c
unfolding chunk_at
chunk_at-dropped p i [] c e = ground (arith, e)
chunk_at-dropped p i (d ∷ cs) c e = ground (arith, e, chunk_at-dropped p i cs c e)

module _ (x : Extern) where
  blob_ensure_with-held :
      (key : Key) (b : Bytes) (s : Db)
      → 0 < rows_of key s.vm_blobs
      → blob_ensure_with x key b archive s ≡ (ok tt, s)
  unfolding blob_ensure_with
  blob_ensure_with-held key b s lt = elim (Option-cases (find_blob key s.vm_blobs)) [
    | inl e ↦ absurd (omega (arith, rows_of_missing key s.vm_blobs e, lt))
    | inr (old, e) ↦ rw (blob_ensure_with, e) refl
  ]

  -- The blob is gone and the row that names it is there.
  replaced :
      (p : Text) (i : ℕ) (key : Key) (c : Chunk) (s : Db)
      → IsCounted s
      → chunk_at p i s.vm_file_chunks ≡ some c
      → c.hash ≡ key
      → refcnt_of key s.vm_blobs ≡ 1
      → (find_blob key (bump key (drop_chunks (at_index p i) s).vm_blobs) ≡ none)
        × (chunk_at p i (
              (drop_chunks (at_index p i) s).vm_file_chunks
              ++ record { path = p; idx = i; hash = key } ∷ [])
            ≡ some (record { path = p; idx = i; hash = key }))
  unfolding drop_chunks release_each
  replaced p i key c s h at named single =
      let gone : keep (at_index p i) s.vm_file_chunks ≡ c ∷ [] =
        one_copy p i s.vm_file_chunks c (h.keyed p i) at in
      let freed : find_blob key (release key s.vm_blobs) ≡ none =
        release-none key s.vm_blobs (h.unique key) (omega (arith, single)) in
      (
        bump-none key _ (rw (gone, named) freed),
        chunk_at-dropped p i s.vm_file_chunks (record { path = p; idx = i; hash = key })
            (ground (arith, same_refl p)),
      )

  read_chunk-missing :
      (p : Text) (i : ℕ) (key : Key) (s : Db)
      → chunk_at p i s.vm_file_chunks ≡ some (record { path = p; idx = i; hash = key })
      → find_blob key s.vm_blobs ≡ none
      → read_chunk x s p i ≡ err (missing_chunk p i)
  unfolding read_chunk
  read_chunk-missing p i key s at free = rw (read_chunk, at, free) refl

  put_delta_chunk-held :
      (p : Text) (i : ℕ) (piece : Bytes) (s : Db)
      → 0 < rows_of (x.sha256 piece) s.vm_blobs
      → put_delta_chunk x p i piece s
        ≡ after (delete_chunks (at_index p i) s) (λ _. insert_chunk (chunk_row x p i piece))
  unfolding put_delta_chunk ◌>>◌
  put_delta_chunk-held p i piece s lt = rw (blob_ensure_with-held (x.sha256 piece) piece s lt) refl

  -- A chunk that a ranged write leaves as it was, and whose blob nothing else names, cannot be read any
  -- more when its statements have succeeded: the blob goes with the row that is deleted, and the row
  -- that is inserted names none. This holds of every database whose references are counted.
  pub put_delta_chunk-unchanged :
      (p : Text) (i : ℕ) (piece : Bytes) (c : Chunk) (s : Db)
      → IsCounted s
      → chunk_at p i s.vm_file_chunks ≡ some c
      → c.hash ≡ x.sha256 piece
      → refcnt_of (x.sha256 piece) s.vm_blobs ≡ 1
      → (put_delta_chunk x p i piece s).0 ≡ ok tt
      → read_chunk x (put_delta_chunk x p i piece s).1 p i ≡ err (missing_chunk p i)
  put_delta_chunk-unchanged p i piece c s h at named single done =
      let key = x.sha256 piece in
      let row = chunk_row x p i piece in
      let held = rows_of_refcnt key s.vm_blobs (omega (arith, single)) in
      let run = put_delta_chunk-held p i piece s held in
      let (deleted, inserted, end) =
        after-ok (delete_chunks (at_index p i) s) (λ _. insert_chunk row) tt
          (ap (λ r. r.0) (sym run) ∙ done) in
      let dropped = delete_chunks-ok (at_index p i) s deleted in
      let (rows, blobs) = insert_chunk-ok row (delete_chunks (at_index p i) s).1 inserted in
      let (freed, found) = replaced p i key c s h at named single in
      rw (run, end)
        (read_chunk-missing p i key _
          (ap (chunk_at p i) rows
            ∙ ap (λ t. chunk_at p i (t.vm_file_chunks ++ row ∷ [])) dropped
            ∙ found)
          (ap (find_blob key) blobs
            ∙ ap (λ t. find_blob key (bump key t.vm_blobs)) dropped
            ∙ freed))
