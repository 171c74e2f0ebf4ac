-- ===== src/Cache/Limit.antt =====
-- What the evictions of src/vm/cache.rs leave in the cache.
use mathlib.Core.List.{Perm}
use dbvm.Common.{
  ℕ, zero, suc, ◌+◌, ◌-◌, ◌≤◌, ◌<◌, true, false, List, [], ◌∷◌, ◌++◌, take, drop, length, All, leb,
  length-take, take-append-drop, ◌≡◌, refl, ap, arith, Bool-cases, inl, inr, ◌⊎◌,
}
use dbvm.Cache.Age.{
  IsOlder, All-insert_by_age, oldest_first-IsOrdered, oldest_first-perm, taken-IsOlder,
}
use dbvm.Cache.{
  CacheFile, Evicted, total_size, insert_by_age, oldest_first, evict, enforce_cache_limit,
  vm_cache_prune,
}

total_size-insert_by_age :
    (f : CacheFile) (fs : List CacheFile) → total_size (insert_by_age f fs) ≡ f.size + total_size fs
unfolding total_size insert_by_age
total_size-insert_by_age f [] = refl
total_size-insert_by_age f (g ∷ gs) = ground (arith, total_size-insert_by_age f gs)

total_size-oldest_first : (fs : List CacheFile) → total_size (oldest_first fs) ≡ total_size fs
unfolding total_size oldest_first
total_size-oldest_first [] = refl
total_size-oldest_first (f ∷ fs) =
    omega (arith, total_size-insert_by_age f (oldest_first fs), total_size-oldest_first fs)

-- The bytes that are there are those that stay and those that were freed.
evict-conserves :
    (max_bytes total : ℕ) (fs : List CacheFile)
    → total_size (evict max_bytes total fs).left + (evict max_bytes total fs).freed ≡ total_size fs
unfolding total_size evict
evict-conserves max_bytes total [] = refl
evict-conserves max_bytes total (f ∷ fs) =
    ground
      (arith, evict-conserves max_bytes (total - f.size) fs, evict-conserves max_bytes total fs)

abbrev pub IsRemovable : CacheFile → Type 0
IsRemovable f = f.removable ≡ true

-- What an eviction of removable files, in the order given, leaves: the files behind those that it
-- removed, as few as make the rest fit.
record IsLeast (max_bytes : ℕ) (fs : List CacheFile) (e : Evicted) : Type 0 where
  behind : e.left ≡ drop e.removed fs
  fits : total_size e.left ≤ max_bytes
  needed : (e.removed ≡ 0) ⊎ (max_bytes < total_size (drop (e.removed - 1) fs))

above-drop :
    (max_bytes n : ℕ) (f : CacheFile) (fs : List CacheFile)
    → max_bytes < total_size (f ∷ fs)
    → (n ≡ 0) ⊎ (max_bytes < total_size (drop (n - 1) fs))
    → max_bytes < total_size (drop n (f ∷ fs))
above-drop max_bytes zero f fs lt h = lt
above-drop max_bytes (suc n) f fs lt (inl e) = absurd (omega arith)
above-drop max_bytes (suc n) f fs lt (inr more) =
    let e : suc n - 1 ≡ n = omega arith in rw e at more

one_more :
    (max_bytes : ℕ) (f : CacheFile) (fs : List CacheFile) (e : Evicted)
    → max_bytes < total_size (f ∷ fs)
    → IsLeast max_bytes fs e
    → IsLeast max_bytes
        (f ∷ fs)
        (record { removed = e.removed + 1; freed = e.freed + f.size; left = e.left })
one_more max_bytes f fs e lt h = record {
  behind = let t : e.removed + 1 ≡ suc e.removed = omega arith in rw t h.behind;
  fits = h.fits;
  needed =
      let t : e.removed + 1 - 1 ≡ e.removed = omega arith in
      inr (rw t (above-drop max_bytes e.removed f fs lt h.needed));
}

evict-removes :
    (max_bytes total : ℕ) (f : CacheFile) (fs : List CacheFile)
    → leb total max_bytes ≡ false
    → f.removable ≡ true
    → evict max_bytes total (f ∷ fs) ≡ record {
      removed = (evict max_bytes (total - f.size) fs).removed + 1;
      freed = (evict max_bytes (total - f.size) fs).freed + f.size;
      left = (evict max_bytes (total - f.size) fs).left;
    }
unfolding evict
evict-removes max_bytes total f fs over can = ground (arith, over, can)

evict-IsLeast :
    (max_bytes : ℕ) (fs : List CacheFile)
    → All IsRemovable fs
    → IsLeast max_bytes fs (evict max_bytes (total_size fs) fs)
unfolding total_size evict
evict-IsLeast max_bytes [] h = record { behind = refl; fits = omega arith; needed = inl refl }
evict-IsLeast max_bytes (f ∷ fs) h = elim (Bool-cases (leb (f.size + total_size fs) max_bytes)) [
  | inl e ↦ rw e (record { behind = refl; fits = ground (arith, e); needed = inl refl })
  | inr e ↦
      let t : f.size + total_size fs - f.size ≡ total_size fs = omega arith in
      let rest : IsLeast max_bytes fs (evict max_bytes (f.size + total_size fs - f.size) fs) =
        rw t (evict-IsLeast max_bytes fs h.1) in
      rw (evict-removes max_bytes (f.size + total_size fs) f fs e h.0) (
        one_more max_bytes f fs (evict max_bytes (f.size + total_size fs - f.size) fs)
          (ground (arith, e)) rest)
]

All-oldest_first : (fs : List CacheFile) → All IsRemovable fs → All IsRemovable (oldest_first fs)
unfolding oldest_first
All-oldest_first [] h = tt
All-oldest_first (f ∷ fs) h =
    All-insert_by_age IsRemovable f (oldest_first fs) h.0 (All-oldest_first fs h.1)

removed-length :
    (max_bytes total : ℕ) (fs : List CacheFile) → (evict max_bytes total fs).removed ≤ length fs
unfolding evict
removed-length max_bytes total [] = omega arith
removed-length max_bytes total (f ∷ fs) =
    ground (arith, removed-length max_bytes (total - f.size) fs, removed-length max_bytes total fs)

-- The files from the `m`-th on are those up to the `n`-th and those behind it.
total_size-split :
    (m n : ℕ) (fs : List CacheFile)
    → m ≤ n
    → total_size (drop m fs) ≡ total_size (drop m (take n fs)) + total_size (drop n fs)
unfolding total_size
total_size-split zero zero fs le = omega arith
total_size-split zero (suc n) [] le = omega arith
total_size-split zero (suc n) (f ∷ fs) le = omega (arith, total_size-split zero n fs (omega arith))
total_size-split (suc m) zero fs le = absurd (omega arith)
total_size-split (suc m) (suc n) [] le = omega arith
total_size-split (suc m) (suc n) (f ∷ fs) le = total_size-split m n fs (omega arith)

-- A prune to `max_bytes` that removes no file before an older one, and none too many: `gone` are the
-- removed files, the last of them the youngest.
pub record IsOldestPrune (files : List CacheFile) (max_bytes : ℕ) (e : Evicted) : Type 0 where
  pub gone : List CacheFile
  pub parts : Perm (gone ++ e.left) files
  pub older : All (λ f. All (IsOlder f) e.left) gone
  pub removed_files : length gone ≡ e.removed
  pub freed_bytes : total_size gone ≡ e.freed
  pub fits : total_size e.left ≤ max_bytes
  pub needed :
      (e.removed ≡ 0) ⊎ (max_bytes < total_size (drop (e.removed - 1) gone) + total_size e.left)

needed_of :
    (max_bytes n : ℕ) (fs : List CacheFile)
    → (n ≡ 0) ⊎ (max_bytes < total_size (drop (n - 1) fs))
    → (n ≡ 0) ⊎ (max_bytes < total_size (drop (n - 1) (take n fs)) + total_size (drop n fs))
needed_of max_bytes n fs (inl e) = inl e
needed_of max_bytes n fs (inr lt) =
    inr (omega (arith, lt, total_size-split (n - 1) n fs (omega arith)))

IsOldestPrune-of_least :
    (files : List CacheFile) (max_bytes : ℕ) (e : Evicted)
    → IsLeast max_bytes (oldest_first files) e
    → total_size e.left + e.freed ≡ total_size (oldest_first files)
    → e.removed ≤ length (oldest_first files)
    → IsOldestPrune files max_bytes e
unfolding total_size
IsOldestPrune-of_least files max_bytes e least kept le =
    let fs = oldest_first files in
    record {
      gone = take e.removed fs;
      parts = rw (least.behind, take-append-drop e.removed fs) (oldest_first-perm files);
      older = rw least.behind (taken-IsOlder e.removed fs (oldest_first-IsOrdered files));
      removed_files = omega (arith, length-take e.removed fs, le);
      freed_bytes =
          let behind : total_size e.left ≡ total_size (drop e.removed fs) =
            ap total_size least.behind in
          omega (arith, kept, behind, total_size-split 0 e.removed fs (omega arith));
      fits = least.fits;
      needed = rw least.behind (needed_of max_bytes e.removed fs least.needed);
    }

-- When every file can be removed, a prune parts the files into those that it removes and those that it
-- leaves, and removes none that was used later than one that it leaves. What is left fits the limit, the
-- last file that it removed was needed for that, and the numbers that it reports are those of the
-- removed files and of their bytes.
pub vm_cache_prune-least :
    (files : List CacheFile) (max_bytes : ℕ)
    → All IsRemovable files
    → IsOldestPrune files max_bytes (vm_cache_prune files max_bytes)
unfolding vm_cache_prune
vm_cache_prune-least files max_bytes h =
    let e = total_size-oldest_first files in
    let least : IsLeast max_bytes (oldest_first files)
        (evict max_bytes (total_size files) (oldest_first files)) =
      rw (← e) (evict-IsLeast max_bytes (oldest_first files) (All-oldest_first files h)) in
    IsOldestPrune-of_least files max_bytes _ least
      (evict-conserves max_bytes (total_size files) (oldest_first files))
      (removed-length max_bytes (total_size files) (oldest_first files))

evict-fits :
    (max_bytes total : ℕ) (fs : List CacheFile)
    → leb total max_bytes ≡ true
    → evict max_bytes total fs ≡ record { removed = 0; freed = 0; left = fs }
unfolding evict
evict-fits max_bytes total [] e = refl
evict-fits max_bytes total (f ∷ fs) e = ground (arith, e)

-- The limit after an import and the prune on demand remove the same number of files and free the same
-- bytes.
pub enforce_cache_limit-vm_cache_prune :
    (files : List CacheFile) (max_bytes : ℕ)
    → ((enforce_cache_limit files max_bytes).removed ≡ (vm_cache_prune files max_bytes).removed)
      × ((enforce_cache_limit files max_bytes).freed ≡ (vm_cache_prune files max_bytes).freed)
unfolding enforce_cache_limit vm_cache_prune
enforce_cache_limit-vm_cache_prune files max_bytes =
    elim (Bool-cases (leb (total_size files) max_bytes)) [
      | inl e ↦ rw (e, evict-fits max_bytes (total_size files) (oldest_first files) e) (refl, refl)
      | inr e ↦ rw e (refl, refl)
    ]
