-- ===== src/Saved.antt =====
-- What snapshots and undo records share: rows that copy the tree, and chunk rows that hold blobs.
pub mod Counted
use dbvm.Common.{
  ℕ, zero, suc, ◌+◌, max, Bool, true, false, not, ◌&&◌, ◌||◌, Option, none, some, List, [], ◌∷◌,
  ◌++◌, map, Text, Bytes, same, ltb, leb, ◌==◌, if◌then◌else◌, keep, length,
}
use dbvm.Common.Int.{pos, ◌-ℤ◌}
use dbvm.Db.{Key, Kind, FsRow, Chunk, Blob, SavedNode, SavedChunk, Db, Tx, ok, err, after, for_each}
use dbvm.Db.Blobs.{bump}
use dbvm.Db.Chunks.{release_each, freed_bytes, insert_chunk, of_path}
use dbvm.Db.Nodes.{same_kind, find_row, insert_row}

-- The changes between two states of the tree, by path.
pub record SnapDiff : Type 0 where
  pub created : List Text
  pub modified : List Text
  pub deleted : List Text

-- Texts in the order of their bytes, as ORDER BY compares them.
unfoldable pub text_le : Text → Text → Bool
text_le [] b = true
text_le (x ∷ a) [] = false
text_le (x ∷ a) (y ∷ b) = ltb x y || (x == y && text_le a b)

insert_text : Text → List Text → List Text
insert_text p [] = p ∷ []
insert_text p (q ∷ qs) = if text_le p q then p ∷ q ∷ qs else q ∷ insert_text p qs

unfoldable pub order_texts : List Text → List Text
unfolding insert_text text_le
order_texts [] = []
order_texts (p ∷ ps) = insert_text p (order_texts ps)

-- The AFTER INSERT triggers of the chunk rows, one by one.
unfoldable pub bump_each : List Chunk → List Blob → List Blob
unfolding bump
bump_each [] bs = bs
bump_each (c ∷ cs) bs = bump_each cs (bump c.hash bs)

abbrev pub save_chunk : ℕ → Chunk → SavedChunk
save_chunk owner c = record { owner = owner; chunk = c }

abbrev pub save_node : ℕ → FsRow → SavedNode
save_node owner r = record { owner = owner; path = r.path; row = some r }

abbrev pub owned_chunk : ℕ → SavedChunk → Bool
owned_chunk id c = c.owner == id

abbrev pub owned_node : ℕ → SavedNode → Bool
owned_node id n = n.owner == id

abbrev pub chunk_of : SavedChunk → Chunk
chunk_of c = c.chunk

-- The rows that an INSERT ... SELECT reads: the content of a legacy row is not kept.
abbrev pub restored : FsRow → FsRow
restored r = record r { content = none; compressed = 0 }

abbrev pub saved_rows : List SavedNode → List FsRow
saved_rows [] = []
saved_rows (n ∷ ns) = elim n.row [ none ↦ saved_rows ns | some r ↦ restored r ∷ saved_rows ns ]

-- A NULL is compared as a value.
unfoldable pub same_option : Option Text → Option Text → Bool
same_option none none = true
same_option (some a) (some b) = same a b
same_option _ _ = false

-- `kind IS NOT ... OR hash IS NOT ... OR mode IS NOT ... OR link_target IS NOT ...`.
unfoldable pub changed : FsRow → FsRow → Bool
unfolding same_kind same_option
changed old cur =
    not (same_kind old.kind cur.kind)
    || not (same_option old.hash cur.hash)
    || not (old.mode == cur.mode)
    || not (same_option old.link_target cur.link_target)

unfoldable pub find_saved : ℕ → Text → List SavedNode → Option SavedNode
find_saved id p [] = none
find_saved id p (n ∷ ns) = if n.owner == id && same n.path p then some n else find_saved id p ns

-- `ORDER BY length(path), path`.
insert_shallow : FsRow → List FsRow → List FsRow
unfolding text_le
insert_shallow r [] = r ∷ []
insert_shallow r (q ∷ qs) =
    if ltb (length r.path) (length q.path)
      || (length r.path == length q.path && text_le r.path q.path)
    then r ∷ q ∷ qs
    else q ∷ insert_shallow r qs

unfoldable pub shallowest_first : List FsRow → List FsRow
unfolding insert_shallow
shallowest_first [] = []
shallowest_first (r ∷ rs) = insert_shallow r (shallowest_first rs)
