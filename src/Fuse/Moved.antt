-- ===== src/Fuse/Moved.antt =====
-- The statements of a rename in src/fuse.rs and the count of the references.
use dbvm.Common.{
  ℕ, ◌+◌, ◌≤◌, ◌<◌, ◌==◌, Bool, true, false, not, ◌&&◌, List, [], ◌∷◌, Text, same, same_refl,
  same-eq, keep, map, any, if◌then◌else◌, ◌≡◌, refl, arith, Bool-cases, inl, inr, Option, none,
  some,
}
use dbvm.Db.{Key, Chunk, Db, Result, err, refused, constraint}
use dbvm.Db.Chunks.{of_path, at_index}
use dbvm.Db.Refs.{IsCounted, refs_in, copies, copies-keep}
use dbvm.Db.Keeps.{Keeps, then-Keeps, in_savepoint-Keeps, for_each-Keeps}
use dbvm.Db.Counted.{same-IsCounted, delete_row-IsCounted}
use dbvm.Fuse.{Node, move_row, move_chunks, moved_chunk, meets}
use dbvm.Fuse.Rename.{Move, move_one, delete_replaced, rename_rows}

pub move_row-IsCounted : (old new : Text) → Keeps IsCounted (move_row old new)
unfolding move_row
move_row-IsCounted old new s =
    same-IsCounted s _ (ground arith) (ground arith) (ground arith) (ground arith)

refs_in-moved :
    (k : Key) (old new : Text) (cs : List Chunk)
    → refs_in k (map (moved_chunk old new) cs) ≡ refs_in k cs
unfolding refs_in
refs_in-moved k old new [] = refl
refs_in-moved k old new (c ∷ cs) = ground (arith, refs_in-moved k old new cs)

-- At the new path stand its own rows and those of the old one.
copies-moved :
    (old new : Text) (i : ℕ) (cs : List Chunk)
    → copies new i (map (moved_chunk old new) cs)
      ≡ copies new i (keep (λ c. not (of_path old c)) cs) + copies old i cs
unfolding copies
copies-moved old new i [] = refl
copies-moved old new i (c ∷ cs) = ground (arith, copies-moved old new i cs, same_refl new)

copies-moved_other :
    (old new p : Text) (i : ℕ) (cs : List Chunk)
    → same new p ≡ false
    → copies p i (map (moved_chunk old new) cs) ≤ copies p i cs
unfolding copies
copies-moved_other old new p i [] e = omega arith
copies-moved_other old new p i (c ∷ cs) e = ground (arith, e, copies-moved_other old new p i cs e)

abbrev other_at : Text → Text → ℕ → Chunk → Bool
other_at old new i d = not (of_path old d) && at_index new i d

copies-other_at :
    (old new : Text) (i : ℕ) (ds : List Chunk)
    → any (other_at old new i) ds ≡ false
    → copies new i (keep (λ c. not (of_path old c)) ds) ≡ 0
unfolding copies
copies-other_at old new i [] e = refl
copies-other_at old new i (d ∷ ds) e = ground (arith, e, copies-other_at old new i ds)

-- A row of the old path that meets no row has a free place.
free_place :
    (old new : Text) (i : ℕ) (ds cs : List Chunk)
    → any (meets old new ds) cs ≡ false
    → 0 < copies old i cs
    → any (other_at old new i) ds ≡ false
unfolding copies meets
free_place old new i ds [] e lt = absurd (omega arith)
free_place old new i ds (c ∷ cs) e lt = elim (Bool-cases (at_index old i c)) [
  | inl t ↦ ground (arith, e, t)
  | inr f ↦ ground (arith, e, f, free_place old new i ds cs)
]

moved-keyed :
    (old new p : Text) (i : ℕ) (cs : List Chunk)
    → ((q : Text) (j : ℕ) → copies q j cs ≤ 1)
    → any (meets old new cs) cs ≡ false
    → copies p i (map (moved_chunk old new) cs) ≤ 1
moved-keyed old new p i cs u e = elim (Bool-cases (same new p)) [
  | inr f ↦ omega (arith, copies-moved_other old new p i cs f, u p i)
  | inl t ↦
      let left = keep (λ c. not (of_path old c)) cs in
      let here : copies new i (map (moved_chunk old new) cs) ≤ 1 =
        elim (Bool-cases (copies old i cs == 0)) [
          | inl z ↦ ground (
            arith,
            z,
            copies-moved old new i cs,
            copies-keep new i (λ c. not (of_path old c)) cs,
            u new i,
          )
          | inr z ↦
              let free : copies new i left ≡ 0 =
                copies-other_at old new i cs (free_place old new i cs cs e (ground (arith, z))) in
              ground (arith, free, copies-moved old new i cs, u old i)
        ] in
      rw (← same-eq new p t) here
]

pick :
    (b : Bool) (s : Db) (r : Result (Unit {0}) × Db)
    → IsCounted s
    → (b ≡ false → IsCounted r.1)
    → IsCounted (if b then (err constraint, s) else r).1
pick true s r h k = h
pick false s r h k = k refl

pick_refused :
    (b : Bool) (s : Db) (r : Result (Unit {0}) × Db)
    → IsCounted s
    → IsCounted r.1
    → IsCounted (if b then (err refused, s) else r).1
pick_refused true s r h k = h
pick_refused false s r h k = k

pub move_chunks-IsCounted : (old new : Text) → Keeps IsCounted (move_chunks old new)
unfolding move_chunks
move_chunks-IsCounted old new s h = pick_refused _ s _ h (
    pick (any (meets old new s.vm_file_chunks) s.vm_file_chunks) s _ h (λ e. record {
      counted = λ k. omega (arith, refs_in-moved k old new s.vm_file_chunks, h.counted k);
      unique = h.unique;
      keyed = λ p i. moved-keyed old new p i s.vm_file_chunks h.keyed e;
    }))

delete_replaced-IsCounted : (r : Option Node) → Keeps IsCounted (delete_replaced r)
delete_replaced-IsCounted none s h = h
delete_replaced-IsCounted (some r) s h = delete_row-IsCounted r.db_path s h

pub rename_rows-IsCounted : (r : Option Node) (ms : List Move) → Keeps IsCounted (rename_rows r ms)
unfolding rename_rows
rename_rows-IsCounted r ms = in_savepoint-Keeps IsCounted _ (
    then-Keeps IsCounted (delete_replaced r) _ (delete_replaced-IsCounted r) (
      for_each-Keeps IsCounted move_one
        (λ m.
          then-Keeps IsCounted (move_row m.old_db m.new_db) _ (move_row-IsCounted m.old_db m.new_db)
            (move_chunks-IsCounted m.old_db m.new_db))
        ms))
