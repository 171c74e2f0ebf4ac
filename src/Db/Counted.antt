-- ===== src/Db/Counted.antt =====
-- The statements of src/vm on vm_fs and vm_file_chunks, with their triggers, and the count of the
-- references.
use dbvm.Common.{
  ℕ, ◌<◌, Bool, true, false, not, ◌&&◌, ◌==◌, none, [], ◌∷◌, ◌++◌, Text, keep, if◌then◌else◌, ◌≡◌,
  refl, arith, Bool-cases, Option-cases, inl, inr, same, same-eq,
}
use dbvm.Db.{Chunk, FsRow, Db, Tx, Result, ok, bypassed}
use dbvm.Db.Blobs.{bump, rows_of, refcnt_of-bump, rows_of-bump}
use dbvm.Db.Chunks.{chunk_at, insert_chunk, delete_chunks, drop_chunks, at_index, of_path}
use dbvm.Db.Nodes.{
  insert_row, insert_or_ignore_row, update_row, update_row_quiet, upsert_row, delete_row, find_row,
  forget_row,
}
use dbvm.Db.Refs.{
  IsCounted, refs_in, copies, copies-none, refs_in-append, refs_in-keep, copies-append_one,
  copies-keep, rows_of-release_each, refcnt_of-release_each,
}
use dbvm.Db.Keeps.{Keeps, after-Keeps}

pub same-IsCounted :
    (s t : Db)
    → s.vm_blobs ≡ t.vm_blobs
    → s.vm_file_chunks ≡ t.vm_file_chunks
    → s.vm_snapshot_chunks ≡ t.vm_snapshot_chunks
    → s.vm_undo_chunks ≡ t.vm_undo_chunks
    → IsCounted s
    → IsCounted t
same-IsCounted s t a b c d h = record {
  counted = λ k. rw (← a, ← b, ← c, ← d) (h.counted k);
  unique = λ k. rw (← a) (h.unique k);
  keyed = λ p i. rw (← b) (h.keyed p i);
}

pub insert_row-IsCounted : (r : FsRow) → Keeps IsCounted (insert_row r)
unfolding insert_row
insert_row-IsCounted r s =
    same-IsCounted s _ (ground arith) (ground arith) (ground arith) (ground arith)

pub insert_or_ignore_row-IsCounted : (r : FsRow) → Keeps IsCounted (insert_or_ignore_row r)
unfolding insert_or_ignore_row
insert_or_ignore_row-IsCounted r s =
    same-IsCounted s _ (ground arith) (ground arith) (ground arith) (ground arith)

pub update_row-IsCounted : (p : Text) (f : FsRow → FsRow) → Keeps IsCounted (update_row p f)
unfolding update_row
update_row-IsCounted p f s =
    same-IsCounted s _ (ground arith) (ground arith) (ground arith) (ground arith)

pub update_row_quiet-IsCounted :
    (p : Text) (f : FsRow → FsRow) → Keeps IsCounted (update_row_quiet p f)
unfolding update_row_quiet
update_row_quiet-IsCounted p f s =
    same-IsCounted s _ (ground arith) (ground arith) (ground arith) (ground arith)

pub upsert_row-IsCounted : (r : FsRow) (f : FsRow → FsRow) → Keeps IsCounted (upsert_row r f)
unfolding upsert_row insert_row update_row
upsert_row-IsCounted r f s =
    same-IsCounted s _ (ground arith) (ground arith) (ground arith) (ground arith)

pub drop_chunks-IsCounted : (p : Chunk → Bool) (s : Db) → IsCounted s → IsCounted (drop_chunks p s)
unfolding drop_chunks
drop_chunks-IsCounted p s h = record {
  counted = λ k. omega (
    arith,
    refcnt_of-release_each k (keep p s.vm_file_chunks) s.vm_blobs h.unique,
    refs_in-keep k p s.vm_file_chunks,
    h.counted k,
  );
  unique =
      λ k. omega (arith, rows_of-release_each k (keep p s.vm_file_chunks) s.vm_blobs, h.unique k);
  keyed = λ q i. omega (arith, copies-keep q i (λ c. not (p c)) s.vm_file_chunks, h.keyed q i);
}

pick :
    {A : Type 0} (b : Bool) (x y : Result A × Db)
    → IsCounted x.1
    → IsCounted y.1
    → IsCounted (if b then x else y).1
pick true x y hx hy = hx
pick false x y hx hy = hy

and-split : (a b : Bool) → (a && b) ≡ true → (a ≡ true) × (b ≡ true)
and-split true true e = (refl, refl)
and-split true false e = absurd (ground (arith, e))
and-split false b e = absurd (ground (arith, e))

at_index-split : (p : Text) (i : ℕ) (c : Chunk) → at_index p i c ≡ true → (c.path ≡ p) × (c.idx ≡ i)
at_index-split p i c e =
    let (a, b) = and-split (same c.path p) (c.idx == i) e in (same-eq c.path p a, ground arith)

pub delete_chunks-IsCounted : (p : Chunk → Bool) → Keeps IsCounted (delete_chunks p)
unfolding delete_chunks
delete_chunks-IsCounted p s h = pick _ _ _ h (drop_chunks-IsCounted p s h)

inserted-IsCounted :
    (c : Chunk) (s : Db)
    → IsCounted s
    → 0 < rows_of c.hash s.vm_blobs
    → chunk_at c.path c.idx s.vm_file_chunks ≡ none
    → IsCounted (record s {
      vm_file_chunks = s.vm_file_chunks ++ c ∷ [];
      vm_blobs = bump c.hash s.vm_blobs;
    })
unfolding refs_in
inserted-IsCounted c s h held e = record {
  counted = λ k. ground (
    arith,
    refcnt_of-bump c.hash k s.vm_blobs,
    refs_in-append k s.vm_file_chunks (c ∷ []),
    h.counted k,
    h.unique c.hash,
    held,
  );
  unique = λ k. omega (arith, rows_of-bump c.hash k s.vm_blobs, h.unique k);
  keyed = λ p i. elim (Bool-cases (at_index p i c)) [
    | inl t ↦
        let (sp, si) = at_index-split p i c t in
        let none_here : copies p i s.vm_file_chunks ≡ 0 =
          rw (← sp, ← si) (copies-none c.path c.idx s.vm_file_chunks e) in
        ground (arith, copies-append_one p i s.vm_file_chunks c, none_here)
    | inr f ↦ ground (arith, copies-append_one p i s.vm_file_chunks c, h.keyed p i, f)
  ];
}

-- A chunk row whose blob exists is inserted.
pub insert_chunk-IsCounted :
    (c : Chunk) (s : Db)
    → IsCounted s
    → 0 < rows_of c.hash s.vm_blobs
    → IsCounted (insert_chunk c s).1
unfolding insert_chunk
insert_chunk-IsCounted c s h held = elim (Option-cases (chunk_at c.path c.idx s.vm_file_chunks)) [
  | inr (d, e) ↦ rw e (pick _ _ _ h h)
  | inl e ↦ rw e (pick _ _ _ h (inserted-IsCounted c s h held e))
]

forget_row-IsCounted :
    (p : Text) (old : FsRow) (s : Db) → IsCounted s → IsCounted (forget_row p old s)
unfolding forget_row
forget_row-IsCounted p old s = same-IsCounted s _ refl refl refl refl

pub delete_row-IsCounted : (p : Text) → Keeps IsCounted (delete_row p)
unfolding delete_row
delete_row-IsCounted p s h = elim (Option-cases (find_row p s.vm_fs)) [
  | inl e ↦ rw (delete_row, e) h
  | inr (old, e) ↦
      rw (delete_row, e)
        (pick _ _ _ h (
          after-Keeps IsCounted (delete_chunks (of_path p) s) (λ _ s'. (ok tt, forget_row p old s'))
            (delete_chunks-IsCounted (of_path p) s h) (λ _. forget_row-IsCounted p old)))
]

pub bypassed-IsCounted : {A : Type 0} (m : Tx A) → Keeps IsCounted m → Keeps IsCounted (bypassed m)
unfolding bypassed
bypassed-IsCounted m k s h =
    let inside : Db = record s { bypass = 1 } in
    same-IsCounted (m inside).1 _ refl refl refl refl
      (k inside (same-IsCounted s inside refl refl refl refl h))
