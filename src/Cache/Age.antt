-- ===== src/Cache/Age.antt =====
-- The order in which src/vm/cache.rs evicts: the files by age, each of them once.
use mathlib.Core.List.{Perm}
use mathlib.Core.List.Perm
use dbvm.Common.{
  ℕ, zero, suc, ◌≤◌, List, [], ◌∷◌, take, drop, All, leb, arith, Bool-cases, inl, inr,
}
use dbvm.Cache.{CacheFile, insert_by_age, oldest_first}

-- `f` was not used later than `g`.
abbrev pub IsOlder : CacheFile → CacheFile → Type 0
IsOlder f g = f.mtime ≤ g.mtime

-- Each file is older than those behind it.
abbrev pub IsOrdered : List CacheFile → Type 0
IsOrdered [] = Unit
IsOrdered (f ∷ fs) = All (IsOlder f) fs × IsOrdered fs

pub All-insert_by_age {ℓ} :
    (P : CacheFile → Type ℓ) (f : CacheFile) (fs : List CacheFile)
    → P f
    → All P fs
    → All P (insert_by_age f fs)
unfolding insert_by_age
All-insert_by_age P f [] h hs = (h, tt)
All-insert_by_age P f (g ∷ gs) h hs = elim (Bool-cases (leb f.mtime g.mtime)) [
  | inl e ↦ rw e (h, hs)
  | inr e ↦ rw e (hs.0, All-insert_by_age P f gs h hs.1)
]

All-IsOlder :
    (f g : CacheFile) (fs : List CacheFile)
    → f.mtime ≤ g.mtime
    → All (IsOlder g) fs
    → All (IsOlder f) fs
All-IsOlder f g [] le h = tt
All-IsOlder f g (k ∷ fs) le h = (omega (arith, le, h.0), All-IsOlder f g fs le h.1)

insert_by_age-IsOrdered :
    (f : CacheFile) (fs : List CacheFile) → IsOrdered fs → IsOrdered (insert_by_age f fs)
unfolding insert_by_age
insert_by_age-IsOrdered f [] h = (tt, tt)
insert_by_age-IsOrdered f (g ∷ gs) h = elim (Bool-cases (leb f.mtime g.mtime)) [
  | inl e ↦
      let le : f.mtime ≤ g.mtime = ground (arith, e) in rw e ((le, All-IsOlder f g gs le h.0), h)
  | inr e ↦
      rw e (
        All-insert_by_age (IsOlder g) f gs (ground (arith, e)) h.0,
        insert_by_age-IsOrdered f gs h.1,
      )
]

pub oldest_first-IsOrdered : (fs : List CacheFile) → IsOrdered (oldest_first fs)
unfolding oldest_first
oldest_first-IsOrdered [] = tt
oldest_first-IsOrdered (f ∷ fs) =
    insert_by_age-IsOrdered f (oldest_first fs) (oldest_first-IsOrdered fs)

insert_by_age-perm : (f : CacheFile) (fs : List CacheFile) → Perm (insert_by_age f fs) (f ∷ fs)
unfolding insert_by_age
insert_by_age-perm f [] = Perm.refl (f ∷ [])
insert_by_age-perm f (g ∷ gs) = elim (Bool-cases (leb f.mtime g.mtime)) [
  | inl e ↦ rw e (Perm.refl (f ∷ g ∷ gs))
  | inr e ↦ rw e (Perm.trans (Perm.cons g (insert_by_age-perm f gs)) (Perm.swap f g gs))
]

pub oldest_first-perm : (fs : List CacheFile) → Perm (oldest_first fs) fs
unfolding oldest_first
oldest_first-perm [] = Perm.refl []
oldest_first-perm (f ∷ fs) =
    Perm.trans (insert_by_age-perm f (oldest_first fs)) (Perm.cons f (oldest_first-perm fs))

All-drop {ℓ} : (P : CacheFile → Type ℓ) (n : ℕ) (fs : List CacheFile) → All P fs → All P (drop n fs)
All-drop P zero fs h = h
All-drop P (suc n) [] h = tt
All-drop P (suc n) (f ∷ fs) h = All-drop P n fs h.1

-- What is taken from the front of ordered files is older than what is left.
pub taken-IsOlder :
    (n : ℕ) (fs : List CacheFile)
    → IsOrdered fs
    → All (λ f. All (IsOlder f) (drop n fs)) (take n fs)
taken-IsOlder zero fs h = tt
taken-IsOlder (suc n) [] h = tt
taken-IsOlder (suc n) (f ∷ fs) h = (All-drop (IsOlder f) n fs h.0, taken-IsOlder n fs h.1)
