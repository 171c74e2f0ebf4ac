-- ===== src/Cache.antt =====
-- src/vm/cache.rs: the limit of the content cache, and the sizes that the command line takes. The files
-- below the cache's directory are a list, with whether the host lets each of them be removed.
pub mod Age
pub mod Limit
use dbvm.Common.{
  ℕ, ◌+◌, ◌-◌, ◌*◌, ◌^◌, ◌≤◌, ◌<◌, Bool, true, false, ◌&&◌, Option, none, some, List, [], ◌∷◌, map,
  Text, ltb, leb, ◌==◌, if◌then◌else◌, pop, last?,
}
use dbvm.Common.Decimal.{parse_u64}
use dbvm.VmPath.{trim}

pub record CacheFile : Type 0 where
  pub path : Text
  pub size : ℕ
  pub mtime : ℕ
  pub removable : Bool

-- What an eviction removed, and the files that stay.
pub record Evicted : Type 0 where
  pub removed : ℕ
  pub freed : ℕ
  pub left : List CacheFile

unfoldable pub total_size : List CacheFile → ℕ
total_size [] = 0
total_size (f ∷ fs) = f.size + total_size fs

-- `sort_by_key(|(_, _, t)| *t)`, which keeps the order of equal keys.
unfoldable pub insert_by_age : CacheFile → List CacheFile → List CacheFile
insert_by_age f [] = f ∷ []
insert_by_age f (g ∷ gs) = if leb f.mtime g.mtime then f ∷ g ∷ gs else g ∷ insert_by_age f gs

unfoldable pub oldest_first : List CacheFile → List CacheFile
unfolding insert_by_age
oldest_first [] = []
oldest_first (f ∷ fs) = insert_by_age f (oldest_first fs)

-- The loop over the files: it ends as soon as the total fits.
unfoldable pub evict : ℕ → ℕ → List CacheFile → Evicted
evict max_bytes total [] = record { removed = 0; freed = 0; left = [] }
evict max_bytes total (f ∷ fs) =
    let next = evict max_bytes (total - f.size) fs in
    let kept = evict max_bytes total fs in
    if leb total max_bytes
    then record { removed = 0; freed = 0; left = f ∷ fs }
    else if f.removable
    then record { removed = next.removed + 1; freed = next.freed + f.size; left = next.left }
    else record { removed = kept.removed; freed = kept.freed; left = f ∷ kept.left }

-- Evict the files that were used longest ago until the cache fits its limit.
unfoldable pub enforce_cache_limit : List CacheFile → ℕ → Evicted
unfolding total_size oldest_first evict
enforce_cache_limit files max_bytes =
    let total = total_size files in
    if leb total max_bytes
    then record { removed = 0; freed = 0; left = files }
    else evict max_bytes total (oldest_first files)

-- The same on demand.
unfoldable pub vm_cache_prune : List CacheFile → ℕ → Evicted
unfolding total_size oldest_first evict
vm_cache_prune files max_bytes = evict max_bytes (total_size files) (oldest_first files)

abbrev lower : ℕ → ℕ
lower c = if leb b'A' c && leb c b'Z' then c + 32 else c

-- `parse::<u64>().ok()?.checked_mul(mul)`.
abbrev scaled : Text → ℕ → Option ℕ
scaled digits unit = elim (parse_u64 digits) [
  | none ↦ none
  | some n ↦ if ltb (n * unit) (2 ^ 64) then some (n * unit) else none
]

abbrev is_digit : ℕ → Bool
is_digit c = leb b'0' c && leb c b'9'

-- A size like 512M, 2G or 1048576.
unfoldable pub parse_size_bytes : Text → Option ℕ
unfolding trim parse_u64
parse_size_bytes s =
    let t = map lower (trim s) in
    elim (last? t) [
      | none ↦ none
      | some c ↦
          if c == b'k'
          then scaled (pop t) 1024
          else if c == b'm'
          then scaled (pop t) (1024 * 1024)
          else if c == b'g'
          then scaled (pop t) (1024 * 1024 * 1024)
          else if is_digit c
          then scaled t 1
          else none
    ]

-- The limit that the environment sets, 2 GiB where it sets none or no size.
unfoldable pub cache_limit_from_env : Option Text → ℕ
unfolding parse_size_bytes
cache_limit_from_env none = 2 * 1024 * 1024 * 1024
cache_limit_from_env (some v) = elim (parse_size_bytes v) [
  | none ↦ 2 * 1024 * 1024 * 1024
  | some n ↦ n
]

-- What the host says of a cache entry, and whether a copy of it succeeds.
pub record Entry : Type 0 where
  pub len : Option ℕ
  pub copies : Bool

-- Whether the entry was copied, and whether it is still there.
unfoldable pub cache_copy_out : Entry → ℕ → Bool × Bool
cache_copy_out e len = elim e.len [
  | none ↦ (false, false)
  | some n ↦ if n == len then (e.copies, true) else (false, false)
]
