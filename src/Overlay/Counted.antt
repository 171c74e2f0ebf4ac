-- ===== src/Overlay/Counted.antt =====
-- The ranged writes of src/overlay.rs and the count of the references in the Delta.
use dbvm.Common.{
  ℕ, zero, suc, ◌+◌, ◌≤◌, Bool, true, false, not, none, List, [], ◌∷◌, ◌++◌, Text, Bytes, keep,
  ◌==◌, ◌≡◌, refl, arith, length, if◌then◌else◌,
}
use dbvm.VmPath.{normalize_vm_path}
use dbvm.Extern.{Extern}
use dbvm.Codec.{archive}
use dbvm.Db.{Chunk, Db, Result, ok, err, ◌>>◌, lift}
use dbvm.Db.Chunks.{chunk_at, at_index, delete_chunks, drop_chunks, insert_chunk}
use dbvm.Db.Nodes.{insert_row, update_row}
use dbvm.Db.Refs.{IsCounted}
use dbvm.Db.Keeps.{
  Keeps, read-holds, after-holds, after-Keeps, then-Keeps, bind-Keeps, gets-Keeps, lift-Keeps,
}
use dbvm.Db.Counted.{same-IsCounted, update_row-IsCounted}
use dbvm.Store.{blob_ensure_with, chunk_row}
use dbvm.Store.Counted.{swapped-IsCounted, blob_ensure_with-chunks}
use dbvm.Overlay.{Overlay, commit, checked, clear_whiteouts_for}
use dbvm.Overlay.Ranged.{
  Shown, shown, shown_or_new, ensure_delta_file_row, put_delta_chunk, write_delta_chunk,
  write_delta_chunks, refresh_delta_file, write_delta, write_range,
}

-- No row of the file at the index or behind it.
record IsFree (p : Text) (from : ℕ) (s : Db) : Type 0 where
  count : IsCounted s
  free : (i : ℕ) → from ≤ i → chunk_at p i s.vm_file_chunks ≡ none

chunk_at-keep :
    (p : Text) (i : ℕ) (q : Chunk → Bool) (cs : List Chunk)
    → chunk_at p i cs ≡ none
    → chunk_at p i (keep q cs) ≡ none
unfolding chunk_at
chunk_at-keep p i q [] e = refl
chunk_at-keep p i q (c ∷ cs) e = ground (arith, chunk_at-keep p i q cs)

chunk_at-append_one :
    (p : Text) (i : ℕ) (cs : List Chunk) (c : Chunk)
    → chunk_at p i cs ≡ none
    → at_index p i c ≡ false
    → chunk_at p i (cs ++ c ∷ []) ≡ none
unfolding chunk_at
chunk_at-append_one p i [] c e f = ground (arith, f)
chunk_at-append_one p i (d ∷ cs) c e f = ground (arith, chunk_at-append_one p i cs c)

delete_chunks-none :
    (p : Text) (i : ℕ) (q : Chunk → Bool) (s : Db)
    → chunk_at p i s.vm_file_chunks ≡ none
    → chunk_at p i (delete_chunks q s).1.vm_file_chunks ≡ none
unfolding delete_chunks drop_chunks
delete_chunks-none p i q s e =
    ground (arith, e, chunk_at-keep p i (λ c. not (q c)) s.vm_file_chunks e)

insert_chunk-none :
    (p : Text) (i : ℕ) (c : Chunk) (s : Db)
    → at_index p i c ≡ false
    → chunk_at p i s.vm_file_chunks ≡ none
    → chunk_at p i (insert_chunk c s).1.vm_file_chunks ≡ none
unfolding insert_chunk
insert_chunk-none p i c s f e = ground (arith, e, chunk_at-append_one p i s.vm_file_chunks c e f)

module _ (x : Extern) where
  put_delta_chunk-none :
      (p : Text) (i j : ℕ) (piece : Bytes)
      → (j == i) ≡ false
      → Keeps (λ s. chunk_at p i s.vm_file_chunks ≡ none) (put_delta_chunk x p j piece)
  unfolding put_delta_chunk
  put_delta_chunk-none p i j piece f =
      let P : Db → Type 0 = λ s. chunk_at p i s.vm_file_chunks ≡ none in
      then-Keeps P (blob_ensure_with x (x.sha256 piece) piece archive) _
        (λ s e. rw (blob_ensure_with-chunks x (x.sha256 piece) piece archive s) e)
        (then-Keeps P (delete_chunks _) _ (delete_chunks-none p i _)
          (λ s. insert_chunk-none p i (chunk_row x p j piece) s (ground (arith, f))))

  put_delta_chunk-IsFree :
      (p : Text) (idx : ℕ) (piece : Bytes) (s : Db)
      → IsFree p idx s
      → IsFree p (idx + 1) (put_delta_chunk x p idx piece s).1
  unfolding put_delta_chunk
  put_delta_chunk-IsFree p idx piece s h = record {
    count =
        swapped-IsCounted x archive p idx piece s h.count
          (λ c e. absurd (ground (arith, e, h.free idx (omega arith))));
    free = λ i lt. put_delta_chunk-none p i idx piece (ground arith) s (h.free i (omega arith));
  }

  later-IsFree : (p : Text) (idx : ℕ) (s : Db) → IsFree p idx s → IsFree p (idx + 1) s
  later-IsFree p idx s h = record { count = h.count; free = λ i lt. h.free i (omega arith) }

  write_delta_chunk-IsFree :
      (o : Overlay) (f : Shown) (p : Text) (new_size off : ℕ) (b : Bytes) (idx : ℕ) (s : Db)
      → IsFree p idx s
      → IsFree p (idx + 1) (write_delta_chunk x o f p new_size off b idx s).1
  unfolding write_delta_chunk
  write_delta_chunk-IsFree o f p new_size off b idx s h =
      read-holds (IsFree p (idx + 1)) _ _ s (later-IsFree p idx s h)
        (λ piece. put_delta_chunk-IsFree p idx _ s h)

  write_delta_chunks-IsCounted :
      (o : Overlay) (f : Shown) (p : Text) (new_size off : ℕ) (b : Bytes) (n idx : ℕ) (s : Db)
      → IsFree p idx s
      → IsCounted (write_delta_chunks x o f p new_size off b n idx s).1
  unfolding write_delta_chunks
  write_delta_chunks-IsCounted o f p new_size off b zero idx s h = h.count
  write_delta_chunks-IsCounted o f p new_size off b (suc n) idx s h =
      after-holds (IsFree p (idx + 1)) IsCounted (write_delta_chunk x o f p new_size off b idx s) _
        (write_delta_chunk-IsFree o f p new_size off b idx s h) (λ t q. q.count)
        (λ _ t q. write_delta_chunks-IsCounted o f p new_size off b n (idx + 1) t q)

  refresh_delta_file-IsCounted :
      (o : Overlay) (p : Text) (size mtime : ℕ)
      → Keeps IsCounted (refresh_delta_file x o p size mtime)
  unfolding refresh_delta_file
  refresh_delta_file-IsCounted o p size mtime = gets-Keeps IsCounted _ _ (λ found.
      bind-Keeps IsCounted (lift found) _ (lift-Keeps IsCounted found)
        (λ whole. update_row-IsCounted p _))

ensure_delta_file_row-chunks :
    (p : Text) (mode mtime size : ℕ) (s : Db)
    → (ensure_delta_file_row p mode mtime size s).1.vm_file_chunks ≡ s.vm_file_chunks
unfolding ensure_delta_file_row update_row insert_row
ensure_delta_file_row-chunks p mode mtime size s = ground arith

ensure_delta_file_row-IsCounted :
    (p : Text) (mode mtime size : ℕ) → Keeps IsCounted (ensure_delta_file_row p mode mtime size)
unfolding ensure_delta_file_row update_row insert_row
ensure_delta_file_row-IsCounted p mode mtime size s =
    same-IsCounted s _ (ground arith) (ground arith) (ground arith) (ground arith)

ensure_delta_file_row-IsFree :
    (p : Text) (mode mtime size from : ℕ) (s : Db)
    → IsFree p from s
    → IsFree p from (ensure_delta_file_row p mode mtime size s).1
ensure_delta_file_row-IsFree p mode mtime size from s h = record {
  count = ensure_delta_file_row-IsCounted p mode mtime size s h.count;
  free = λ i lt. rw (ensure_delta_file_row-chunks p mode mtime size s) (h.free i lt);
}

module _ (x : Extern) where
  write_delta-IsCounted :
      (o : Overlay) (f : Shown) (p : Text) (off : ℕ) (b : Bytes) (mtime : ℕ) (s : Db)
      → IsFree p 0 s
      → IsCounted (write_delta x o f p off b mtime s).1
  unfolding write_delta ◌>>◌
  write_delta-IsCounted o f p off b mtime s h =
      after-holds (IsFree p 0) IsCounted (ensure_delta_file_row p f.mode mtime _ s) _
        (ensure_delta_file_row-IsFree p f.mode mtime _ 0 s h) (λ t q. q.count)
        (λ _ t q.
          after-Keeps IsCounted (write_delta_chunks x o f p _ off b _ _ t) _
            (write_delta_chunks-IsCounted x o f p _ off b _ _ t
              (record { count = q.count; free = λ i lt. q.free i (omega arith) }))
            (λ _. refresh_delta_file-IsCounted x o p _ mtime))

commit-holds :
    (P : Db → Type 0) (before o : Overlay) (r : Result (Unit {0}) × Db)
    → P before.main
    → P r.1
    → P (commit before o r).1.main
unfolding commit
commit-holds P before o (ok u, s) pb ps = ps
commit-holds P before o (err e, s) pb ps = pb

checked-holds :
    (P : Db → Type 0) (r : Result (Unit {0})) (done : Result (Unit {0}) × Overlay) (o : Overlay)
    → P o.main
    → P done.1.main
    → P (checked r done o).1.main
unfolding checked
checked-holds P (ok u) done o po pd = pd
checked-holds P (err e) done o po pd = po

if-holds :
    (P : Db → Type 0) (b : Bool) (a c : Result (Unit {0}) × Overlay)
    → P a.1.main
    → P c.1.main
    → P (if b then a else c).1.main
if-holds P true a c pa pc = pa
if-holds P false a c pa pc = pc

clear_whiteouts_for-IsFree :
    (o : Overlay) (p : Text)
    → ((i : ℕ) → chunk_at p i o.main.vm_file_chunks ≡ none)
    → IsCounted o.main
    → IsFree p 0 (clear_whiteouts_for o p).main
unfolding clear_whiteouts_for
clear_whiteouts_for-IsFree o p free h = record { count = h; free = λ i lt. free i }

-- The first ranged write to a file, when the Delta holds no chunk of it, keeps the count of the
-- references in the Delta, whether it succeeds or fails: every blob is counted as often as the chunk
-- rows name it, no key has two blobs, and no chunk of a path two rows.
pub first_write_range-IsCounted :
    (x : Extern) (o : Overlay) (p : Text) (off : ℕ) (b : Bytes) (mtime : ℕ)
    → ((i : ℕ) → chunk_at (normalize_vm_path p) i o.main.vm_file_chunks ≡ none)
    → IsCounted o.main
    → IsCounted (write_range x o p off b mtime).1.main
unfolding write_range
first_write_range-IsCounted x o vm_path off b mtime free h =
    let p = normalize_vm_path vm_path in
    let o' = clear_whiteouts_for o p in
    let written : IsCounted (write_delta x o' (shown_or_new (shown o' p)) p off b mtime o'.main).1 =
      write_delta-IsCounted x o' (shown_or_new (shown o' p)) p off b mtime o'.main
        (clear_whiteouts_for-IsFree o p free h) in
    checked-holds IsCounted _ _ o h (
      if-holds IsCounted (length b == 0) (ok tt, o) _ h
        (checked-holds IsCounted _ _ o h
          (checked-holds IsCounted _ _ o h (commit-holds IsCounted o o' _ h written))))
