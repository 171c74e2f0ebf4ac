-- ===== src/Db/Refs.antt =====
-- The invariant of content storage: every blob is counted as often as a chunk row names it, in the
-- live tree, in a snapshot or in an undo record, and no key has two blobs.
use dbvm.Common.{
  ℕ, Text, map, ◌+◌, ◌-◌, ◌≤◌, ◌<◌, Bool, false, not, ◌&&◌, none, some, List, [], ◌∷◌, ◌++◌, same,
  same_refl, same-congr, if◌then◌else◌, keep, ◌≡◌, refl, arith, Bool-cases, inl, inr, ◌==◌,
}
use dbvm.Db.{Key, Chunk, SavedChunk, Blob, Db}
use dbvm.Db.Blobs.{
  bump, release, refcnt_of, rows_of, refcnt_of-bump, rows_of-bump, refcnt_of-release,
  rows_of-release,
}
use dbvm.Db.Chunks.{release_each, chunk_at, at_index}
use dbvm.Saved.{bump_each, save_chunk, chunk_of}

unfoldable pub refs_in : Key → List Chunk → ℕ
refs_in h [] = 0
refs_in h (c ∷ cs) = (if same c.hash h then 1 else 0) + refs_in h cs

unfoldable pub saved_refs : Key → List SavedChunk → ℕ
saved_refs h [] = 0
saved_refs h (c ∷ cs) = (if same c.chunk.hash h then 1 else 0) + saved_refs h cs

abbrev pub refs : Key → Db → ℕ
refs h s =
    refs_in h s.vm_file_chunks + saved_refs h s.vm_snapshot_chunks + saved_refs h s.vm_undo_chunks

-- The rows of chunk `i` of a path.
unfoldable pub copies : Text → ℕ → List Chunk → ℕ
unfolding same
copies p i [] = 0
copies p i (c ∷ cs) = (if same c.path p && c.idx == i then 1 else 0) + copies p i cs

pub record IsCounted (s : Db) : Type 0 where
  pub counted : (h : Key) → refcnt_of h s.vm_blobs ≡ refs h s
  pub unique : (h : Key) → rows_of h s.vm_blobs ≤ 1
  pub keyed : (p : Text) (i : ℕ) → copies p i s.vm_file_chunks ≤ 1

pub refs_in-append :
    (h : Key) (xs ys : List Chunk) → refs_in h (xs ++ ys) ≡ refs_in h xs + refs_in h ys
unfolding refs_in
refs_in-append h [] ys = omega arith
refs_in-append h (c ∷ xs) ys = omega (arith, refs_in-append h xs ys)

pub refs_in-keep :
    (h : Key) (p : Chunk → Bool) (cs : List Chunk)
    → refs_in h (keep p cs) + refs_in h (keep (λ c. not (p c)) cs) ≡ refs_in h cs
unfolding refs_in
refs_in-keep h p [] = refl
refs_in-keep h p (c ∷ cs) = ground (arith, refs_in-keep h p cs)

pub rows_of-release_each :
    (k : Key) (cs : List Chunk) (bs : List Blob) → rows_of k (release_each cs bs) ≤ rows_of k bs
unfolding release_each
rows_of-release_each k [] bs = omega arith
rows_of-release_each k (c ∷ cs) bs =
    omega (arith, rows_of-release_each k cs (release c.hash bs), rows_of-release c.hash k bs)

pub refcnt_of-release_each :
    (k : Key) (cs : List Chunk) (bs : List Blob)
    → ((h : Key) → rows_of h bs ≤ 1)
    → refcnt_of k (release_each cs bs) ≡ refcnt_of k bs - refs_in k cs
unfolding release_each refs_in
refcnt_of-release_each k [] bs u = omega arith
refcnt_of-release_each k (c ∷ cs) bs u =
    let below : (h : Key) → rows_of h (release c.hash bs) ≤ 1 =
      λ h. omega (arith, rows_of-release c.hash h bs, u h) in
    ground (
      arith,
      refcnt_of-release_each k cs (release c.hash bs) below,
      refcnt_of-release c.hash k bs (u c.hash),
    )

-- A key that is referenced has a blob.
pub rows_of_refcnt : (h : Key) (bs : List Blob) → 0 < refcnt_of h bs → 0 < rows_of h bs
unfolding refcnt_of rows_of
rows_of_refcnt h [] lt = absurd (omega arith)
rows_of_refcnt h (b ∷ bs) lt = ground (arith, rows_of_refcnt h bs)

-- The triggers of the rows of a list that is inserted.
pub rows_of-bump_each :
    (k : Key) (cs : List Chunk) (bs : List Blob) → rows_of k (bump_each cs bs) ≡ rows_of k bs
unfolding bump_each
rows_of-bump_each k [] bs = refl
rows_of-bump_each k (c ∷ cs) bs =
    omega (arith, rows_of-bump_each k cs (bump c.hash bs), rows_of-bump c.hash k bs)

pub refcnt_of-bump_each :
    (k : Key) (cs : List Chunk) (bs : List Blob)
    → ((h : Key) → rows_of h bs ≤ 1)
    → ((h : Key) → 0 < refs_in h cs → 0 < rows_of h bs)
    → refcnt_of k (bump_each cs bs) ≡ refcnt_of k bs + refs_in k cs
unfolding bump_each refs_in
refcnt_of-bump_each k [] bs u held = omega arith
refcnt_of-bump_each k (c ∷ cs) bs u held =
    let below : (h : Key) → rows_of h (bump c.hash bs) ≤ 1 =
      λ h. omega (arith, rows_of-bump c.hash h bs, u h) in
    let still : (h : Key) → 0 < refs_in h cs → 0 < rows_of h (bump c.hash bs) =
      λ h lt. omega (arith, rows_of-bump c.hash h bs, held h (omega arith)) in
    let here : rows_of c.hash bs ≡ 1 =
      omega (arith, u c.hash, held c.hash (ground (arith, same_refl c.hash))) in
    ground (
      arith,
      refcnt_of-bump_each k cs (bump c.hash bs) below still,
      refcnt_of-bump c.hash k bs,
      here,
    )

pub saved_refs-append :
    (h : Key) (owner : ℕ) (xs : List SavedChunk) (cs : List Chunk)
    → saved_refs h (xs ++ map (save_chunk owner) cs) ≡ saved_refs h xs + refs_in h cs
unfolding saved_refs refs_in
saved_refs-append h owner [] [] = refl
saved_refs-append h owner [] (c ∷ cs) = omega (arith, saved_refs-append h owner [] cs)
saved_refs-append h owner (c ∷ xs) cs = omega (arith, saved_refs-append h owner xs cs)

pub saved_refs-keep :
    (h : Key) (p : SavedChunk → Bool) (cs : List SavedChunk)
    → refs_in h (map chunk_of (keep p cs)) + saved_refs h (keep (λ c. not (p c)) cs)
      ≡ saved_refs h cs
unfolding saved_refs refs_in
saved_refs-keep h p [] = refl
saved_refs-keep h p (c ∷ cs) = ground (arith, saved_refs-keep h p cs)

pub copies-append_one :
    (p : Text) (i : ℕ) (cs : List Chunk) (c : Chunk)
    → copies p i (cs ++ c ∷ []) ≡ copies p i cs + (if at_index p i c then 1 else 0)
unfolding copies same
copies-append_one p i [] c = omega arith
copies-append_one p i (d ∷ cs) c = omega (arith, copies-append_one p i cs c)

pub copies-keep :
    (p : Text) (i : ℕ) (q : Chunk → Bool) (cs : List Chunk) → copies p i (keep q cs) ≤ copies p i cs
unfolding copies
copies-keep p i q [] = omega arith
copies-keep p i q (c ∷ cs) = ground (arith, copies-keep p i q cs)

pub copies-none : (p : Text) (i : ℕ) (cs : List Chunk) → chunk_at p i cs ≡ none → copies p i cs ≡ 0
unfolding chunk_at copies
copies-none p i [] e = refl
copies-none p i (c ∷ cs) e = ground (arith, copies-none p i cs)

-- A key that no row of the list names keeps its rows.
pub rows_of-release_other :
    (h k : Key) (bs : List Blob) → same h k ≡ false → rows_of k (release h bs) ≡ rows_of k bs
unfolding rows_of release
rows_of-release_other h k [] e = refl
rows_of-release_other h k (b ∷ bs) e =
    ground (arith, rows_of-release_other h k bs e, same-congr b.hash h k)

pub rows_of-release_none :
    (k : Key) (cs : List Chunk) (bs : List Blob)
    → refs_in k cs ≡ 0
    → rows_of k (release_each cs bs) ≡ rows_of k bs
unfolding release_each refs_in
rows_of-release_none k [] bs e = refl
rows_of-release_none k (c ∷ cs) bs e =
    ground (arith, rows_of-release_none k cs (release c.hash bs), rows_of-release_other c.hash k bs)

pub keep_none :
    (k : Key) (p : Text) (i : ℕ) (cs : List Chunk)
    → copies p i cs ≡ 0
    → refs_in k (keep (at_index p i) cs) ≡ 0
unfolding copies refs_in
keep_none k p i [] e = refl
keep_none k p i (c ∷ cs) e = ground (arith, keep_none k p i cs)

-- The rows of one chunk name another key.
pub refs_in-at_index :
    (k : Key) (p : Text) (i : ℕ) (cs : List Chunk)
    → copies p i cs ≤ 1
    → ((c : Chunk) → chunk_at p i cs ≡ some c → same c.hash k ≡ false)
    → refs_in k (keep (at_index p i) cs) ≡ 0
unfolding copies refs_in chunk_at
refs_in-at_index k p i [] u other = refl
refs_in-at_index k p i (c ∷ cs) u other = elim (Bool-cases (at_index p i c)) [
  | inl e ↦ ground (arith, e, keep_none k p i cs, other c (ground (arith, e)))
  | inr e ↦ ground (
    arith,
    e,
    refs_in-at_index k p i cs (ground (arith, e)) (λ d t. other d (ground (arith, e, t))),
  )
]
