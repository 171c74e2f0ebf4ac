-- ===== src/Maint.antt =====
-- src/vm/maint.rs: the rewrites of stored content. A rewrite of many rows is one transaction, which a
-- failure leaves open: the database is then what the connection sees.
pub mod Verify
pub mod Sound
pub mod Counted
pub mod Inline
use dbvm.Common.{
  ℕ, ◌+◌, ◌*◌, Bool, true, false, ◌&&◌, Option, none, some, List, [], ◌∷◌, Text, Bytes, same, ltb,
  ◌==◌, if◌then◌else◌, length, take, keep, map,
}
use dbvm.Common.Int.{pos, ◌+ℤ◌, ◌-ℤ◌}
use dbvm.Extern.{Extern}
use dbvm.Codec.{archive, Encoded, compress_with_dict, latest_dict, decompress_bytes_raw}
use dbvm.Db.{
  Key, FsRow, Blob, Db, Result, ok, err, hash_mismatch, Tx, after, ◌>>=◌, ◌>>◌, pure, fail, gets,
  lift, modify, in_savepoint, keep_or_restore,
}
use dbvm.Db.Blobs.{find_blob}
use dbvm.Db.Chunks.{of_path}
use dbvm.Db.Nodes.{is_file, update_row}
use dbvm.Read.{chunk_size, file_bytes}
use dbvm.Store.{chunks_replace, blob_ensure_with}

abbrev pub bytes_in : Option Bytes → Bytes
bytes_in none = []
bytes_in (some b) = b

-- What `vm_rechunk` returns.
pub record Rechunked : Type 0 where
  pub rechunked : ℕ
  pub skipped : ℕ
  pub failed : ℕ

-- What `vm_recompress` returns: the rows rewritten, their bytes before and after.
pub record Shrunk : Type 0 where
  pub rows : ℕ
  pub before : ℕ
  pub after_it : ℕ

abbrev has_hash : FsRow → Bool
has_hash r = elim r.hash [ none ↦ false | some h ↦ true ]

abbrev has_content : FsRow → Bool
has_content r = elim r.content [ none ↦ false | some b ↦ true ]

-- The files that may be one legacy chunk.
unfoldable pub candidates : Db → List FsRow
candidates s = keep (λ r. is_file r.kind && ltb chunk_size r.size && has_hash r) s.vm_fs

abbrev counted_one : Rechunked → Result (Unit {0}) → Rechunked
counted_one n (ok u) = record n { rechunked = n.rechunked + 1 }
counted_one n (err e) = record n { failed = n.failed + 1 }

-- `UPDATE vm_blobs SET ... WHERE hash=?1`: vm_cnt_blob_upd counts the bytes.
unfoldable pub rewrite_blob : Key → (Blob → Blob) → List Blob → List Blob
rewrite_blob h f [] = []
rewrite_blob h f (b ∷ bs) = (if same b.hash h then f b else b) ∷ rewrite_blob h f bs

abbrev body_of : Option Blob → Bytes
body_of none = []
body_of (some b) = b.content

unfoldable pub update_blob : Key → (Blob → Blob) → Tx (Unit {0})
unfolding find_blob rewrite_blob
update_blob h f s =
    let blobs = rewrite_blob h f s.vm_blobs in
    (
      ok tt,
      record s {
        vm_blobs = blobs;
        counters = record s.counters {
          blob_bytes =
              s.counters.blob_bytes
              -ℤ pos (length (body_of (find_blob h s.vm_blobs)))
              +ℤ pos (length (body_of (find_blob h blobs)));
        };
      },
    )

-- A block takes a new encoding; its key, its size and its references stay.
abbrev pub encoded_as : Encoded → Blob → Blob
encoded_as e b = record b { content = e.body; compressed = e.flag; dict_id = e.dict_id }

-- The row of a legacy file whose content is now in a blob.
abbrev pub in_blob : Key → Option Blob → ℕ → FsRow → FsRow
in_blob key stored size old = record old {
  hash = some key;
  content = none;
  compressed = elim stored [ none ↦ 2 | some b ↦ b.compressed ];
  size = size;
}

abbrev pub add_row : Shrunk → ℕ → ℕ → Shrunk
add_row n old new = record {
  rows = n.rows + 1;
  before = n.before + old;
  after_it = n.after_it + new;
}

module _ (x : Extern) where
  -- One file: the new chunk list is read back before it stays.
  unfoldable pub rechunk_file : Text → Bytes → Tx (Unit {0})
  unfolding in_savepoint chunks_replace file_bytes same
  rechunk_file p whole = in_savepoint (do
    chunks_replace x p whole
    found ← gets (λ s. file_bytes x s p)
    again ← lift found
    if same (x.sha256 again) (x.sha256 whole) && same again whole
        then pure tt
        else fail (hash_mismatch p 0))

  -- One candidate: the counts behind it.
  unfoldable pub rechunk_next : FsRow → Rechunked → Tx Rechunked
  unfolding file_bytes rechunk_file
  rechunk_next r n s =
      let one : Result Rechunked × Db = elim (file_bytes x s r.path) [
        | err e ↦ (err e, s)
        | ok whole ↦ let (res, s') = rechunk_file r.path whole s in (ok (counted_one n res), s')
      ] in
      if length (keep (of_path r.path) s.vm_file_chunks) == 1
      then one
      else (ok (record n { skipped = n.skipped + 1 }), s)

  unfoldable pub rechunk_each : List FsRow → Rechunked → Tx Rechunked
  unfolding rechunk_next
  rechunk_each [] n s = (ok n, s)
  rechunk_each (r ∷ rs) n s =
      let rest = rechunk_each rs in after (rechunk_next r n s) (λ n' s'. rest n' s')

  -- Split legacy files of one chunk.
  unfoldable pub vm_rechunk : Tx Rechunked
  unfolding candidates rechunk_each
  vm_rechunk s = rechunk_each (candidates s) (record { rechunked = 0; skipped = 0; failed = 0 }) s

  -- A blob for the content of a row that is not in the table yet.
  unfoldable pub ensure_held : Bytes → Option Blob → Tx (Unit {0})
  unfolding blob_ensure_with
  ensure_held raw (some b) s = (ok tt, s)
  ensure_held raw none s = blob_ensure_with x (x.sha256 raw) raw archive s

  -- The inline content of a legacy row moves to a blob: the row names it by its hash.
  unfoldable pub inline_to_blob : FsRow → Bytes → Bytes → Shrunk → Tx Shrunk
  unfolding find_blob ensure_held update_row
  inline_to_blob r old_body raw n = do
    let key = x.sha256 raw
    held ← gets (λ s. find_blob key s.vm_blobs)
    ensure_held raw held
    stored ← gets (λ s. find_blob key s.vm_blobs)
    update_row r.path (in_blob key stored (length raw))
    pure (add_row n (length old_body) (elim held [ none ↦ length raw | some b ↦ length b.content ]))

  unfoldable pub inline_each : List FsRow → Shrunk → Tx Shrunk
  unfolding decompress_bytes_raw inline_to_blob
  inline_each [] n s = (ok n, s)
  inline_each (r ∷ rs) n s =
      let old_body = bytes_in r.content in
      elim (decompress_bytes_raw x old_body r.compressed) [
        | err e ↦ (err e, s)
        | ok raw ↦
            let rest = inline_each rs in
            after (inline_to_blob r old_body raw n s) (λ n' s'. rest n' s')
      ]

  -- The bytes that a block is encoded from, and its new encoding: kept only where there is one.
  unfoldable pub gzip_each : List Blob → Shrunk → Tx Shrunk
  unfolding decompress_bytes_raw compress_with_dict latest_dict update_blob
  gzip_each [] n s = (ok n, s)
  gzip_each (b ∷ bs) n s =
      let rest = gzip_each bs in
      elim (decompress_bytes_raw x b.content 1) [
        | err e ↦ (err e, s)
        | ok raw ↦ elim (compress_with_dict x raw (latest_dict s.vm_dicts)) [
          | none ↦
              let old = length b.content in
              rest (record n { before = n.before + old; after_it = n.after_it + old }) s
          | some e ↦
              let n' = add_row n (length b.content) (length e.body) in
              after (update_blob b.hash (encoded_as e) s) (λ _. rest n')
        ]
      ]

  unfoldable pub plain_each : List Blob → Shrunk → Tx Shrunk
  unfolding compress_with_dict latest_dict update_blob
  plain_each [] n s = (ok n, s)
  plain_each (b ∷ bs) n s =
      let rest = plain_each bs in
      elim (compress_with_dict x b.content (latest_dict s.vm_dicts)) [
        | none ↦ rest n s
        | some e ↦
            let n' = add_row n (length b.content) (length e.body) in
            after (update_blob b.hash (encoded_as e) s) (λ _. rest n')
      ]

  -- Whether the block at level 19 is worth its place.
  abbrev pub saves : Bytes → Bytes → Bytes → Bool
  saves best raw cur = ltb (length best + 64) (length raw) && ltb (length best + 32) (length cur)

  unfoldable pub zstd_each : List Blob → Shrunk → Tx Shrunk
  unfolding decompress_bytes_raw update_blob
  zstd_each [] n s = (ok n, s)
  zstd_each (b ∷ bs) n s =
      let rest = zstd_each bs in
      elim (decompress_bytes_raw x b.content b.compressed) [
        | err e ↦ (err e, s)
        | ok raw ↦ elim (x.zstd_compress 19 raw) [
          | none ↦ rest n s
          | some best ↦
              let n' = add_row n (length b.content) (length best) in
              let kept = rest n s in
              let better =
                after (update_blob b.hash (λ old. record old { content = best }) s)
                  (λ _. rest n') in
              if saves best raw b.content then better else kept
        ]
      ]

  -- The four passes, each over the rows that it finds when it starts.
  unfoldable pub vm_recompress : Tx Shrunk
  unfolding inline_each gzip_each plain_each zstd_each
  vm_recompress = do
    legacy ← gets (λ s. keep (λ r. is_file r.kind && has_content r) s.vm_fs)
    n ← inline_each legacy (record { rows = 0; before = 0; after_it = 0 })
    gz ← gets (λ s. keep (λ b. b.compressed == 1) s.vm_blobs)
    n ← gzip_each gz n
    plain ← gets (λ s. take 200 (keep (λ b. b.compressed == 0 && ltb 1024 b.raw_size) s.vm_blobs))
    n ← plain_each plain n
    packed ← gets (λ s. take 300 (keep (λ b. b.compressed == 2) s.vm_blobs))
    zstd_each packed n
