-- ===== src/Maint/Sound.antt =====
-- What `vm_verify --deep` of src/vm/maint.rs finds wrong with the reference counts, and their
-- invariant.
use dbvm.Common.{
  ℕ, ◌+◌, ◌≤◌, ◌<◌, none, List, [], ◌∷◌, Text, map, same, same_refl, same-eq, ◌≡◌, refl, arith,
  Bool-cases, Option-cases, inl, inr, ap, ◌↔◌, ◌∙◌, true, zero, suc, ◌⊎◌,
}
use dbvm.Db.{Key, Chunk, SavedChunk, Blob, Db}
use dbvm.Db.Blobs.{find_blob, refcnt_of, rows_of}
use dbvm.Db.Refs.{IsCounted, refs, refs_in, saved_refs, copies, rows_of_refcnt}
use dbvm.Saved.{chunk_of}
use dbvm.Store.Counted.{rows_of_missing}
use dbvm.Maint.Verify.{bad_refcnt, orphans, all_orphans}

zero_or_more : (n : ℕ) → (n ≡ 0) ⊎ (0 < n)
zero_or_more zero = inl refl
zero_or_more (suc n) = inr (omega arith)

refcnt_of_missing : (h : Key) (bs : List Blob) → rows_of h bs ≡ 0 → refcnt_of h bs ≡ 0
unfolding rows_of refcnt_of
refcnt_of_missing h [] e = refl
refcnt_of_missing h (b ∷ bs) e = ground (arith, refcnt_of_missing h bs)

find_blob_missing : (h : Key) (bs : List Blob) → rows_of h bs ≡ 0 → find_blob h bs ≡ none
unfolding rows_of find_blob
find_blob_missing h [] e = refl
find_blob_missing h (b ∷ bs) e = ground (arith, find_blob_missing h bs)

refs-congr : (h k : Key) (s : Db) → same h k ≡ true → refs h s ≡ refs k s
refs-congr h k s e = ap (λ t. refs t s) (same-eq h k e)

-- One blob of a key with a good count: the key's references are its count.
counted_once :
    (s : Db) (h : Key) (bs : List Blob)
    → bad_refcnt s bs ≡ 0
    → rows_of h bs ≤ 1
    → 0 < rows_of h bs
    → refcnt_of h bs ≡ refs h s
unfolding bad_refcnt rows_of refcnt_of
counted_once s h [] bad u lt = absurd (omega arith)
counted_once s h (b ∷ bs) bad u lt = elim (Bool-cases (same b.hash h)) [
  | inl e ↦ ground (arith, e, refcnt_of_missing h bs, refs-congr b.hash h s e)
  | inr e ↦ ground (arith, e, counted_once s h bs)
]

unreferenced :
    (h : Key) (bs : List Blob) (cs : List Chunk)
    → rows_of h bs ≡ 0
    → orphans bs cs ≡ 0
    → refs_in h cs ≡ 0
unfolding orphans refs_in
unreferenced h bs [] free none_lost = refl
unreferenced h bs (c ∷ cs) free none_lost = elim (Bool-cases (same c.hash h)) [
  | inl e ↦
      let lost : find_blob c.hash bs ≡ none =
        ap (λ k. find_blob k bs) (same-eq c.hash h e) ∙ find_blob_missing h bs free in
      absurd (ground (arith, lost, none_lost))
  | inr e ↦ ground (arith, e, unreferenced h bs cs)
]

saved_refs-map : (h : Key) (cs : List SavedChunk) → saved_refs h cs ≡ refs_in h (map chunk_of cs)
unfolding saved_refs refs_in
saved_refs-map h [] = refl
saved_refs-map h (c ∷ cs) = omega (arith, saved_refs-map h cs)

no_references : (h : Key) (s : Db) → rows_of h s.vm_blobs ≡ 0 → all_orphans s ≡ 0 → refs h s ≡ 0
unfolding all_orphans
no_references h s free none_lost = omega (
  arith,
  none_lost,
  unreferenced h s.vm_blobs s.vm_file_chunks free (omega (arith, none_lost)),
  unreferenced h s.vm_blobs (map chunk_of s.vm_snapshot_chunks) free (omega (arith, none_lost)),
  unreferenced h s.vm_blobs (map chunk_of s.vm_undo_chunks) free (omega (arith, none_lost)),
  saved_refs-map h s.vm_snapshot_chunks,
  saved_refs-map h s.vm_undo_chunks,
)

sound :
    (s : Db)
    → ((h : Key) → rows_of h s.vm_blobs ≤ 1)
    → ((p : Text) (i : ℕ) → copies p i s.vm_file_chunks ≤ 1)
    → (bad_refcnt s s.vm_blobs ≡ 0) × (all_orphans s ≡ 0)
    → IsCounted s
sound s unique keyed (bad, none_lost) = record {
  counted = λ h. elim (zero_or_more (rows_of h s.vm_blobs)) [
    | inl free ↦
        omega (arith, refcnt_of_missing h s.vm_blobs free, no_references h s free none_lost)
    | inr lt ↦ counted_once s h s.vm_blobs bad (unique h) lt
  ];
  unique = unique;
  keyed = keyed;
}

-- The blobs of a list behind others, when both together are counted and hold no key twice.
counted_each :
    (s : Db) (before bs : List Blob)
    → ((h : Key) → rows_of h before + rows_of h bs ≤ 1)
    → ((h : Key) → refcnt_of h before + refcnt_of h bs ≡ refs h s)
    → bad_refcnt s bs ≡ 0
unfolding bad_refcnt rows_of refcnt_of
counted_each s before [] u counted = refl
counted_each s before (b ∷ bs) u counted =
    let alone : rows_of b.hash before + rows_of b.hash bs ≤ 0 =
      ground (arith, u b.hash, same_refl b.hash) in
    let good : b.refcnt ≡ refs b.hash s = ground (
      arith,
      counted b.hash,
      same_refl b.hash,
      refcnt_of_missing b.hash before (omega (arith, alone)),
      refcnt_of_missing b.hash bs (omega (arith, alone)),
    ) in
    let rest =
      counted_each s (b ∷ before) bs (λ h. omega (arith, u h)) (λ h. omega (arith, counted h)) in
    ground (arith, good, rest)

held_each :
    (bs : List Blob) (cs : List Chunk)
    → ((h : Key) → 0 < refs_in h cs → 0 < rows_of h bs)
    → orphans bs cs ≡ 0
unfolding orphans refs_in
held_each bs [] held = refl
held_each bs (c ∷ cs) held = elim (Option-cases (find_blob c.hash bs)) [
  | inl e ↦
      absurd
        (omega (arith, rows_of_missing c.hash bs e, held c.hash (ground (arith, same_refl c.hash))))
  | inr (b, e) ↦ ground (arith, e, held_each bs cs (λ h lt. held h (ground (arith, lt))))
]

referenced : (s : Db) → IsCounted s → (h : Key) → 0 < refs h s → 0 < rows_of h s.vm_blobs
referenced s c h lt = rows_of_refcnt h s.vm_blobs (omega (arith, c.counted h, lt))

complete : (s : Db) → IsCounted s → (bad_refcnt s s.vm_blobs ≡ 0) × (all_orphans s ≡ 0)
unfolding all_orphans rows_of refcnt_of
complete s c =
    let live =
      held_each s.vm_blobs s.vm_file_chunks (λ h lt. referenced s c h (omega (arith, lt))) in
    let in_snapshots =
      held_each s.vm_blobs (map chunk_of s.vm_snapshot_chunks)
        (λ h lt. referenced s c h (omega (arith, lt, saved_refs-map h s.vm_snapshot_chunks))) in
    let in_records =
      held_each s.vm_blobs (map chunk_of s.vm_undo_chunks)
        (λ h lt. referenced s c h (omega (arith, lt, saved_refs-map h s.vm_undo_chunks))) in
    (
      counted_each s [] s.vm_blobs (λ h. omega (arith, c.unique h))
          (λ h. omega (arith, c.counted h)),
      omega (arith, live, in_snapshots, in_records),
    )

-- In a database whose keys are unique, as the primary keys of its tables make them, vm_verify counts
-- no bad reference count and no chunk row without a blob exactly when the references are counted.
pub verify_iff-IsCounted :
    (s : Db)
    → ((h : Key) → rows_of h s.vm_blobs ≤ 1)
    → ((p : Text) (i : ℕ) → copies p i s.vm_file_chunks ≤ 1)
    → ((bad_refcnt s s.vm_blobs ≡ 0) × (all_orphans s ≡ 0)) ↔ IsCounted s
verify_iff-IsCounted s unique keyed = (sound s unique keyed, complete s)
