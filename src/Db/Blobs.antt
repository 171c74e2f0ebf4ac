-- ===== src/Db/Blobs.antt =====
-- vm_blobs and the triggers that count its references.
use dbvm.Common.{
  ℕ, ◌+◌, ◌-◌, ◌≤◌, ◌&&◌, Option, none, some, List, [], ◌∷◌, same, same-congr, same-eq, same_refl,
  leb, if◌then◌else◌, length, ◌≡◌, refl, arith, Bool-cases, inl, inr,
}
use dbvm.Db.{Key, Blob}

unfoldable pub find_blob : Key → List Blob → Option Blob
find_blob h [] = none
find_blob h (b ∷ bs) = if same b.hash h then some b else find_blob h bs

-- `UPDATE vm_blobs SET refcnt=refcnt+1 WHERE hash=NEW.hash`.
unfoldable pub bump : Key → List Blob → List Blob
bump h [] = []
bump h (b ∷ bs) = (if same b.hash h then record b { refcnt = b.refcnt + 1 } else b) ∷ bump h bs

-- `UPDATE ... SET refcnt=refcnt-1`, then `DELETE ... AND refcnt<=0`.
unfoldable pub release : Key → List Blob → List Blob
release h [] = []
release h (b ∷ bs) =
    let rest = release h bs in
    if same b.hash h
    then (if leb b.refcnt 1 then rest else record b { refcnt = b.refcnt - 1 } ∷ rest)
    else b ∷ rest

-- The bytes of the blobs that a release deletes: vm_cnt_blob_del takes them off `blob_bytes`.
unfoldable pub released_bytes : Key → List Blob → ℕ
released_bytes h [] = 0
released_bytes h (b ∷ bs) =
    (if same b.hash h && leb b.refcnt 1 then length b.content else 0) + released_bytes h bs

-- The references that vm_blobs counts for a key, and its rows.
unfoldable pub refcnt_of : Key → List Blob → ℕ
refcnt_of h [] = 0
refcnt_of h (b ∷ bs) = (if same b.hash h then b.refcnt else 0) + refcnt_of h bs

unfoldable pub rows_of : Key → List Blob → ℕ
rows_of h [] = 0
rows_of h (b ∷ bs) = (if same b.hash h then 1 else 0) + rows_of h bs

pub refcnt_of-bump :
    (h k : Key) (bs : List Blob)
    → refcnt_of k (bump h bs) ≡ refcnt_of k bs + (if same h k then rows_of h bs else 0)
unfolding refcnt_of bump rows_of
refcnt_of-bump h k [] = ground arith
refcnt_of-bump h k (b ∷ bs) = ground (arith, refcnt_of-bump h k bs, same-congr b.hash h k)

pub rows_of-bump : (h k : Key) (bs : List Blob) → rows_of k (bump h bs) ≡ rows_of k bs
unfolding rows_of bump
rows_of-bump h k [] = refl
rows_of-bump h k (b ∷ bs) = ground (arith, rows_of-bump h k bs)

rows_zero : (h : Key) (bs : List Blob) → rows_of h bs ≡ 0 → release h bs ≡ bs
unfolding rows_of release
rows_zero h [] e = refl
rows_zero h (b ∷ bs) e = ground (arith, rows_zero h bs)

refcnt_zero : (h : Key) (bs : List Blob) → rows_of h bs ≡ 0 → refcnt_of h bs ≡ 0
unfolding rows_of refcnt_of
refcnt_zero h [] e = refl
refcnt_zero h (b ∷ bs) e = ground (arith, refcnt_zero h bs)

pub refcnt_of-release :
    (h k : Key) (bs : List Blob)
    → rows_of h bs ≤ 1
    → refcnt_of k (release h bs) ≡ refcnt_of k bs - (if same h k then 1 else 0)
unfolding refcnt_of release rows_of
refcnt_of-release h k [] u = ground arith
refcnt_of-release h k (b ∷ bs) u = elim (Bool-cases (same h k)) [
  | inl e ↦
      let p : h ≡ k = same-eq h k e in
      rw (← p, same_refl h)
        (ground (arith, rows_zero h bs, refcnt_zero h bs, refcnt_of-release h h bs, same_refl h))
  | inr e ↦ ground (arith, e, rows_zero h bs, refcnt_of-release h k bs, same-congr b.hash h k)
]

pub rows_of-release : (h k : Key) (bs : List Blob) → rows_of k (release h bs) ≤ rows_of k bs
unfolding rows_of release
rows_of-release h k [] = omega arith
rows_of-release h k (b ∷ bs) = ground (arith, rows_of-release h k bs)
