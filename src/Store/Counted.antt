-- ===== src/Store/Counted.antt =====
-- The content writes of src/vm/store.rs and the count of the references, on every branch.
use dbvm.Common.{
  ℕ, ◌+◌, ◌<◌, false, none, some, List, [], ◌∷◌, ◌++◌, Text, Bytes, keep, if◌then◌else◌, ◌≡◌, refl,
  arith, Bool-cases, Option-cases, inl, inr, same, same_refl, same-eq, length,
}
use dbvm.Extern.{Extern}
use dbvm.Codec.{Effort, archive, interactive}
use dbvm.Db.{Key, Chunk, Blob, Db, after, ◌>>◌}
use dbvm.Db.Blobs.{find_blob, rows_of, refcnt_of}
use dbvm.Db.Chunks.{chunk_at, insert_chunk, delete_chunks, drop_chunks, at_index, of_path}
use dbvm.Db.Refs.{IsCounted, refs_in-at_index, rows_of-release_none}
use dbvm.Db.Nodes.{upsert_row}
use dbvm.Db.Keeps.{Keeps, then-Keeps, after-Keeps, after-holds, in_savepoint-Keeps}
use dbvm.Db.Counted.{delete_chunks-IsCounted, insert_chunk-IsCounted, upsert_row-IsCounted}
use dbvm.Store.{
  add_blob, new_blob, blob_insert_row, blob_ensure_with, encode_block, store_piece, store_pieces,
  chunks_replace, chunks, fs_put_file, file_row, keep_ns, chunk_row, swap_chunk, put_chunk,
}

rows_of_found : (h : Key) (bs : List Blob) (b : Blob) → find_blob h bs ≡ some b → 0 < rows_of h bs
unfolding find_blob rows_of
rows_of_found h [] b e = ground (arith, e)
rows_of_found h (c ∷ bs) b e = ground (arith, rows_of_found h bs b)

pub rows_of_missing : (h : Key) (bs : List Blob) → find_blob h bs ≡ none → rows_of h bs ≡ 0
unfolding find_blob rows_of
rows_of_missing h [] e = refl
rows_of_missing h (b ∷ bs) e = ground (arith, rows_of_missing h bs)

rows_of-append_one :
    (h : Key) (bs : List Blob) (b : Blob)
    → rows_of h (bs ++ b ∷ []) ≡ rows_of h bs + (if same b.hash h then 1 else 0)
unfolding rows_of
rows_of-append_one h [] b = omega arith
rows_of-append_one h (c ∷ bs) b = omega (arith, rows_of-append_one h bs b)

refcnt_of-append_one :
    (h : Key) (bs : List Blob) (b : Blob)
    → b.refcnt ≡ 0
    → refcnt_of h (bs ++ b ∷ []) ≡ refcnt_of h bs
unfolding refcnt_of
refcnt_of-append_one h [] b e = ground (arith, e)
refcnt_of-append_one h (c ∷ bs) b e = omega (arith, refcnt_of-append_one h bs b e)

-- The count, and a blob for a key.
record Holds (key : Key) (s : Db) : Type 0 where
  count : IsCounted s
  held : 0 < rows_of key s.vm_blobs

add_blob-Holds :
    (b : Blob) (s : Db)
    → IsCounted s
    → rows_of b.hash s.vm_blobs ≡ 0
    → b.refcnt ≡ 0
    → Holds b.hash (add_blob b s)
unfolding add_blob
add_blob-Holds b s h free zero_refs = record {
  count = record {
    counted = λ k. omega (arith, refcnt_of-append_one k s.vm_blobs b zero_refs, h.counted k);
    unique = λ k. elim (Bool-cases (same b.hash k)) [
      | inl e ↦
          let other : rows_of k s.vm_blobs ≡ 0 = rw (← same-eq b.hash k e) free in
          ground (arith, rows_of-append_one k s.vm_blobs b, other, e)
      | inr e ↦ ground (arith, rows_of-append_one k s.vm_blobs b, h.unique k, e)
    ];
    keyed = h.keyed;
  };
  held = ground (arith, rows_of-append_one b.hash s.vm_blobs b, same_refl b.hash);
}

module _ (x : Extern) where
  blob_ensure_with-Holds :
      (key : Key) (b : Bytes) (effort : Effort) (s : Db)
      → IsCounted s
      → Holds key (blob_ensure_with x key b effort s).1
  unfolding blob_ensure_with blob_insert_row
  blob_ensure_with-Holds key b effort s h = elim (Option-cases (find_blob key s.vm_blobs)) [
    | inr (old, e) ↦
        rw (blob_ensure_with, e) (record { count = h; held = rows_of_found key s.vm_blobs old e })
    | inl e ↦
        rw (blob_ensure_with, e, blob_insert_row, e)
          (add_blob-Holds (new_blob key (length b) (encode_block x s b effort)) s h
            (rows_of_missing key s.vm_blobs e) refl)
  ]

  pub blob_ensure_with-IsCounted :
      (key : Key) (b : Bytes) (effort : Effort) → Keeps IsCounted (blob_ensure_with x key b effort)
  blob_ensure_with-IsCounted key b effort s h = (blob_ensure_with-Holds key b effort s h).count

  pub blob_ensure_with-chunks :
      (key : Key) (b : Bytes) (effort : Effort) (s : Db)
      → (blob_ensure_with x key b effort s).1.vm_file_chunks ≡ s.vm_file_chunks
  unfolding blob_ensure_with blob_insert_row add_blob
  blob_ensure_with-chunks key b effort s = ground arith

  pub store_piece-IsCounted :
      (p : Text) (i : ℕ) (piece : Bytes) → Keeps IsCounted (store_piece x p i piece)
  unfolding store_piece ◌>>◌
  store_piece-IsCounted p i piece s h =
      after-holds (Holds (x.sha256 piece)) IsCounted
        (blob_ensure_with x (x.sha256 piece) piece archive s)
        (λ _. insert_chunk (chunk_row x p i piece))
        (blob_ensure_with-Holds (x.sha256 piece) piece archive s h) (λ _ q. q.count)
        (λ _ t q. insert_chunk-IsCounted (chunk_row x p i piece) t q.count q.held)

  pub store_pieces-IsCounted :
      (p : Text) (i : ℕ) (pieces : List Bytes) → Keeps IsCounted (store_pieces x p i pieces)
  unfolding store_pieces
  store_pieces-IsCounted p i [] s h = h
  store_pieces-IsCounted p i (piece ∷ pieces) s h =
      after-Keeps IsCounted (store_piece x p i piece s) (λ _. store_pieces x p (i + 1) pieces)
        (store_piece-IsCounted p i piece s h) (λ _. store_pieces-IsCounted p (i + 1) pieces)

  pub chunks_replace-IsCounted : (p : Text) (b : Bytes) → Keeps IsCounted (chunks_replace x p b)
  unfolding chunks_replace
  chunks_replace-IsCounted p b =
      then-Keeps IsCounted (delete_chunks (of_path p)) (store_pieces x p 0 (chunks b))
        (delete_chunks-IsCounted (of_path p)) (store_pieces-IsCounted p 0 (chunks b))

  -- Storing a whole file keeps the count of the references: every blob is counted as often as the chunk
  -- rows name it, no key has two blobs, and no chunk of a path two rows, whether the write succeeds or
  -- fails.
  pub fs_put_file-IsCounted :
      (p : Text) (mode mtime : ℕ) (b : Bytes) (s : Db)
      → IsCounted s
      → IsCounted (fs_put_file x p mode mtime b s).1
  unfolding fs_put_file
  fs_put_file-IsCounted p mode mtime b =
      let row = file_row p mode mtime 0 (length b) (x.sha256 b) in
      in_savepoint-Keeps IsCounted _ (
        then-Keeps IsCounted (chunks_replace x p b) (upsert_row row (keep_ns row))
          (chunks_replace-IsCounted p b) (upsert_row-IsCounted row (keep_ns row)))

  -- Deleting the row of a chunk whose key is another keeps the blob of the new key.
  delete_chunks-Holds :
      (key : Key) (p : Text) (i : ℕ) (s : Db)
      → Holds key s
      → ((c : Chunk) → chunk_at p i s.vm_file_chunks ≡ some c → same c.hash key ≡ false)
      → Holds key (delete_chunks (at_index p i) s).1
  unfolding delete_chunks drop_chunks
  delete_chunks-Holds key p i s h other = record {
    count = delete_chunks-IsCounted (at_index p i) s h.count;
    held = ground (
      arith,
      h.held,
      rows_of-release_none key (keep (at_index p i) s.vm_file_chunks) s.vm_blobs
          (refs_in-at_index key p i s.vm_file_chunks (h.count.keyed p i) other),
    );
  }

  -- A chunk row is deleted and inserted again with the key of another piece, at either effort.
  pub swapped-IsCounted :
      (effort : Effort) (p : Text) (i : ℕ) (piece : Bytes) (s : Db)
      → IsCounted s
      → ((c : Chunk)
          → chunk_at p i s.vm_file_chunks ≡ some c
          → same c.hash (x.sha256 piece) ≡ false)
      → IsCounted
          ((blob_ensure_with x (x.sha256 piece) piece effort
              >> (delete_chunks (at_index p i) >> insert_chunk (chunk_row x p i piece)))
            s).1
  unfolding ◌>>◌
  swapped-IsCounted effort p i piece s h other =
      let key = x.sha256 piece in
      after-holds (λ t. Holds key t × (t.vm_file_chunks ≡ s.vm_file_chunks)) IsCounted
        (blob_ensure_with x key piece effort s)
        (λ _ t. after (delete_chunks (at_index p i) t) (λ _. insert_chunk (chunk_row x p i piece)))
        (blob_ensure_with-Holds key piece effort s h, blob_ensure_with-chunks key piece effort s)
        (λ t q. q.0.count)
        (λ _ t q.
          after-holds (Holds key) IsCounted (delete_chunks (at_index p i) t)
            (λ _. insert_chunk (chunk_row x p i piece))
            (delete_chunks-Holds key p i t q.0 (λ c e. other c (rw (← q.1) e))) (λ u r. r.count)
            (λ _ u r. insert_chunk-IsCounted (chunk_row x p i piece) u r.count r.held))

  swap_chunk-IsCounted :
      (p : Text) (i : ℕ) (piece : Bytes) (s : Db)
      → IsCounted s
      → ((c : Chunk)
          → chunk_at p i s.vm_file_chunks ≡ some c
          → same c.hash (x.sha256 piece) ≡ false)
      → IsCounted (swap_chunk x p i piece s).1
  unfolding swap_chunk
  swap_chunk-IsCounted = swapped-IsCounted interactive

  pub put_chunk-IsCounted :
      (p : Text) (i : ℕ) (piece : Bytes) → Keeps IsCounted (put_chunk x p i piece)
  unfolding put_chunk
  put_chunk-IsCounted p i piece s h = elim (Option-cases (chunk_at p i s.vm_file_chunks)) [
    | inl e ↦
        rw (put_chunk, e)
          (swap_chunk-IsCounted p i piece s h (λ c t. absurd (ground (arith, e, t))))
    | inr (old, e) ↦ elim (Bool-cases (same old.hash (x.sha256 piece))) [
      | inl t ↦ rw (put_chunk, e, t) h
      | inr f ↦
          rw (put_chunk, e, f) (swap_chunk-IsCounted p i piece s h (λ c t. ground (arith, e, t, f)))
    ]
  ]
