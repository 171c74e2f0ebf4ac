-- ===== src/Store/Ranged.antt =====
-- The ranged writes, truncation and the recomputed hashes of src/vm/store.rs, and the count of the
-- references.
use dbvm.Common.{
  ℕ, zero, suc, ◌+◌, false, List, [], ◌∷◌, Text, Bytes, ltb, any, same, ◌==◌, length, refl, arith,
}
use dbvm.Extern.{Extern}
use dbvm.Db.{FsRow, Db, Result, ◌>>=◌, ◌>>◌, lift, or_fail, fail, pure, not_found, not_regular}
use dbvm.Read.{is_regular}
use dbvm.Db.Chunks.{delete_chunks}
use dbvm.Db.Nodes.{update_row}
use dbvm.Db.Refs.{IsCounted}
use dbvm.Db.Keeps.{
  Keeps, then-Keeps, bind-Keeps, gets-Keeps, after-Keeps, in_savepoint-Keeps, if-Keeps, lift-Keeps,
  or_fail-Keeps,
}
use dbvm.Db.Counted.{
  delete_chunks-IsCounted, update_row-IsCounted, update_row_quiet-IsCounted, same-IsCounted,
}
use dbvm.Store.Counted.{put_chunk-IsCounted}
use dbvm.Store.{
  regular_file, write_all, trim_chunk, rehash, mark_dirty, write_chunk, write_chunks,
  write_range_deferred, shrink, truncate_range_deferred, finalize_file, finalize_each,
  finalize_dirty, write_range, truncate_range,
}

mark_dirty-IsCounted : (p : Text) (size mtime : ℕ) → Keeps IsCounted (mark_dirty p size mtime)
unfolding mark_dirty
mark_dirty-IsCounted p size mtime =
    then-Keeps IsCounted (update_row p _) _ (update_row-IsCounted p _)
      (λ s. same-IsCounted s _ (ground arith) (ground arith) (ground arith) (ground arith))

regular_file-IsCounted : (p : Text) → Keeps IsCounted (regular_file p)
unfolding regular_file
regular_file-IsCounted p = gets-Keeps IsCounted _ _ (λ found.
    bind-Keeps IsCounted (lift found) _ (lift-Keeps IsCounted found) (λ real.
      gets-Keeps IsCounted _ _ (λ row.
        bind-Keeps IsCounted (or_fail row (not_found real)) _
          (or_fail-Keeps IsCounted row (not_found real))
          (λ (r : FsRow).
            if-Keeps IsCounted {A = Text × ℕ} (is_regular r.kind) (pure (real, r.size))
              (fail (not_regular real)) (λ s h. h) (λ s h. h)))))

module _ (x : Extern) where
  write_chunk-IsCounted :
      (real : Text) (old_size new_size off : ℕ) (b : Bytes) (idx : ℕ)
      → Keeps IsCounted (write_chunk x real old_size new_size off b idx)
  unfolding write_chunk
  write_chunk-IsCounted real old_size new_size off b idx = gets-Keeps IsCounted _ _ (λ found.
      bind-Keeps IsCounted (lift found) _ (lift-Keeps IsCounted found)
        (λ piece. put_chunk-IsCounted x real idx _))

  write_chunks-IsCounted :
      (real : Text) (old_size new_size off : ℕ) (b : Bytes) (n idx : ℕ)
      → Keeps IsCounted (write_chunks x real old_size new_size off b n idx)
  unfolding write_chunks
  write_chunks-IsCounted real old_size new_size off b zero idx s h = h
  write_chunks-IsCounted real old_size new_size off b (suc n) idx s h =
      after-Keeps IsCounted (write_chunk x real old_size new_size off b idx s)
        (λ _. write_chunks x real old_size new_size off b n (idx + 1))
        (write_chunk-IsCounted real old_size new_size off b idx s h)
        (λ _. write_chunks-IsCounted real old_size new_size off b n (idx + 1))

  write_all-IsCounted :
      (real : Text) (old_size off : ℕ) (b : Bytes) (mtime : ℕ)
      → Keeps IsCounted (write_all x real old_size off b mtime)
  unfolding write_all
  write_all-IsCounted real old_size off b mtime = in_savepoint-Keeps IsCounted _ (
      then-Keeps IsCounted _ _ (write_chunks-IsCounted real old_size _ off b _ _)
        (mark_dirty-IsCounted real _ mtime))

  pub write_range_deferred-IsCounted :
      (p : Text) (off : ℕ) (b : Bytes) (mtime : ℕ)
      → Keeps IsCounted (write_range_deferred x p off b mtime)
  unfolding write_range_deferred
  write_range_deferred-IsCounted p off b mtime =
      bind-Keeps IsCounted (regular_file p) _ (regular_file-IsCounted p) (λ (real, old_size).
        if-Keeps IsCounted (length b == 0) (pure tt) (write_all x real old_size off b mtime)
          (λ s h. h) (write_all-IsCounted real old_size off b mtime))

  trim_chunk-IsCounted :
      (real : Text) (size last : ℕ) → Keeps IsCounted (trim_chunk x real size last)
  unfolding trim_chunk
  trim_chunk-IsCounted real size last = gets-Keeps IsCounted _ _ (λ found.
      bind-Keeps IsCounted (lift found) _ (lift-Keeps IsCounted found)
        (λ piece. put_chunk-IsCounted x real last _))

  shrink-IsCounted : (real : Text) (size mtime : ℕ) → Keeps IsCounted (shrink x real size mtime)
  unfolding shrink
  shrink-IsCounted real size mtime = in_savepoint-Keeps IsCounted _ (
      then-Keeps IsCounted (delete_chunks _) _ (delete_chunks-IsCounted _) (
        then-Keeps IsCounted _ _
          (if-Keeps IsCounted _ (trim_chunk x real size _) (pure tt)
            (trim_chunk-IsCounted real size _) (λ s h. h))
          (mark_dirty-IsCounted real size mtime)))

  pub truncate_range_deferred-IsCounted :
      (p : Text) (size mtime : ℕ) → Keeps IsCounted (truncate_range_deferred x p size mtime)
  unfolding truncate_range_deferred
  truncate_range_deferred-IsCounted p size mtime =
      bind-Keeps IsCounted (regular_file p) _ (regular_file-IsCounted p) (λ (real, old_size).
        if-Keeps IsCounted (size == old_size) (pure tt) _ (λ s h. h)
          (if-Keeps IsCounted (ltb old_size size) _ (shrink x real size mtime)
            (write_range_deferred-IsCounted real old_size _ mtime)
            (shrink-IsCounted real size mtime)))

  rehash-IsCounted : (p : Text) → Keeps IsCounted (rehash x p)
  unfolding rehash
  rehash-IsCounted p = in_savepoint-Keeps IsCounted _ (
      gets-Keeps IsCounted _ _ (λ row.
        bind-Keeps IsCounted _ _ (or_fail-Keeps IsCounted row (not_found p)) (λ (r : FsRow).
          gets-Keeps IsCounted _ _ (λ found.
            bind-Keeps IsCounted (lift found) _ (lift-Keeps IsCounted found) (λ whole.
              then-Keeps IsCounted _ _ (update_row_quiet-IsCounted p _) (
                then-Keeps IsCounted _ _ (λ s. same-IsCounted s _ refl refl refl refl)
                  (λ s h. h)))))))

  pub finalize_file-IsCounted : (p : Text) → Keeps IsCounted (finalize_file x p)
  unfolding finalize_file
  finalize_file-IsCounted p s =
      if-Keeps IsCounted (any (same p) s.vm_dirty) (rehash x p) (pure false) (rehash-IsCounted p)
        (λ s h. h) s

  finalize_each-IsCounted : (ps : List Text) → Keeps IsCounted (finalize_each x ps)
  unfolding finalize_each
  finalize_each-IsCounted [] s h = h
  finalize_each-IsCounted (p ∷ ps) s h =
      after-Keeps IsCounted (finalize_file x p s) _ (finalize_file-IsCounted p s h) (λ was t q.
        after-Keeps IsCounted (finalize_each x ps t) _ (finalize_each-IsCounted ps t q)
          (λ n u r. r))

  pub finalize_dirty-IsCounted : Keeps IsCounted (finalize_dirty x)
  unfolding finalize_dirty
  finalize_dirty-IsCounted s = finalize_each-IsCounted s.vm_dirty s

  finalize_found-IsCounted :
      (found : Result Text)
      → Keeps IsCounted (lift found >>= λ real. finalize_file x real >> pure tt)
  finalize_found-IsCounted found =
      bind-Keeps IsCounted (lift found) _ (lift-Keeps IsCounted found) (λ real.
        then-Keeps IsCounted (finalize_file x real) (pure tt) (finalize_file-IsCounted real)
          (λ s h. h))

  -- A ranged write keeps the count of the references, with the chunks that it rewrites, the hash that
  -- it recomputes, and whatever part of it fails: every blob is counted as often as the chunk rows name
  -- it, no key has two blobs, and no chunk of a path two rows.
  pub write_range-IsCounted :
      (p : Text) (off : ℕ) (b : Bytes) (mtime : ℕ) (s : Db)
      → IsCounted s
      → IsCounted (write_range x p off b mtime s).1
  unfolding write_range
  write_range-IsCounted p off b mtime = in_savepoint-Keeps IsCounted _ (
      then-Keeps IsCounted _ _ (write_range_deferred-IsCounted p off b mtime)
        (gets-Keeps IsCounted _ _ finalize_found-IsCounted))

  -- Truncation keeps the count of the references, whether it shrinks the file, grows it or fails.
  pub truncate_range-IsCounted :
      (p : Text) (size mtime : ℕ) (s : Db)
      → IsCounted s
      → IsCounted (truncate_range x p size mtime s).1
  unfolding truncate_range
  truncate_range-IsCounted p size mtime = in_savepoint-Keeps IsCounted _ (
      then-Keeps IsCounted _ _ (truncate_range_deferred-IsCounted p size mtime)
        (gets-Keeps IsCounted _ _ finalize_found-IsCounted))
