-- ===== src/Maint/Counted.antt =====
-- The rewrites of stored content in src/vm/maint.rs and the count of the references.
use dbvm.Common.{
  Option, none, some, List, [], ◌∷◌, Bytes, Text, same, ◌≡◌, refl, arith, length, ◌==◌,
  Option-cases, inl, inr, Bool-cases, ap, keep,
}
use dbvm.Extern.{Extern}
use dbvm.Codec.{archive, Encoded, compress_with_dict, latest_dict, decompress_bytes_raw}
use dbvm.Db.{Key, FsRow, Blob, Db, lift, pure, fail}
use dbvm.Db.Blobs.{refcnt_of, rows_of}
use dbvm.Db.Chunks.{of_path}
use dbvm.Db.Refs.{IsCounted}
use dbvm.Db.Keeps.{
  Keeps, Result-cases, after-Keeps, then-Keeps, bind-Keeps, gets-Keeps, lift-Keeps, if-Keeps,
  in_savepoint-Keeps,
}
use dbvm.Db.Counted.{update_row-IsCounted}
use dbvm.Read.{file_bytes}
use dbvm.Store.{chunks_replace}
use dbvm.Store.Counted.{chunks_replace-IsCounted, blob_ensure_with-IsCounted}
use dbvm.Maint.{
  Rechunked, Shrunk, rewrite_blob, update_blob, rechunk_file, rechunk_next, rechunk_each,
  vm_rechunk, inline_to_blob, inline_each, gzip_each, plain_each, zstd_each, vm_recompress,
  encoded_as, bytes_in, saves, add_row, ensure_held,
}

-- The key and the references of a blob stay.
record IsEncoding (f : Blob → Blob) : Type 0 where
  hash_same : (b : Blob) → (f b).hash ≡ b.hash
  refcnt_same : (b : Blob) → (f b).refcnt ≡ b.refcnt

encoded_as-IsEncoding : (e : Encoded) → IsEncoding (encoded_as e)
encoded_as-IsEncoding e = record { hash_same = λ b. refl; refcnt_same = λ b. refl }

refcnt_of-rewrite_blob :
    (h k : Key) (f : Blob → Blob) (bs : List Blob)
    → IsEncoding f
    → refcnt_of k (rewrite_blob h f bs) ≡ refcnt_of k bs
unfolding refcnt_of rewrite_blob
refcnt_of-rewrite_blob h k f [] e = refl
refcnt_of-rewrite_blob h k f (b ∷ bs) e =
    ground (
      arith,
      refcnt_of-rewrite_blob h k f bs e,
      ap (λ t. same t k) (e.hash_same b),
      e.refcnt_same b,
    )

rows_of-rewrite_blob :
    (h k : Key) (f : Blob → Blob) (bs : List Blob)
    → IsEncoding f
    → rows_of k (rewrite_blob h f bs) ≡ rows_of k bs
unfolding rows_of rewrite_blob
rows_of-rewrite_blob h k f [] e = refl
rows_of-rewrite_blob h k f (b ∷ bs) e =
    ground (arith, rows_of-rewrite_blob h k f bs e, ap (λ t. same t k) (e.hash_same b))

update_blob-IsCounted :
    (h : Key) (f : Blob → Blob) → IsEncoding f → Keeps IsCounted (update_blob h f)
unfolding update_blob
update_blob-IsCounted h f e s c = record {
  counted = λ k. omega (arith, refcnt_of-rewrite_blob h k f s.vm_blobs e, c.counted k);
  unique = λ k. omega (arith, rows_of-rewrite_blob h k f s.vm_blobs e, c.unique k);
  keyed = c.keyed;
}

module _ (x : Extern) where
  rechunk_file-IsCounted : (p : Text) (whole : Bytes) → Keeps IsCounted (rechunk_file x p whole)
  unfolding rechunk_file
  rechunk_file-IsCounted p whole = in_savepoint-Keeps IsCounted _ (
      then-Keeps IsCounted (chunks_replace x p whole) _ (chunks_replace-IsCounted x p whole) (
        gets-Keeps IsCounted _ _ (λ found.
          bind-Keeps IsCounted (lift found) _ (lift-Keeps IsCounted found)
            (λ again. if-Keeps IsCounted _ (pure tt) (fail _) (λ s h. h) (λ s h. h)))))

  rechunk_next-IsCounted : (r : FsRow) (n : Rechunked) → Keeps IsCounted (rechunk_next x r n)
  unfolding rechunk_next
  rechunk_next-IsCounted r n s h =
      elim (Bool-cases (length (keep (of_path r.path) s.vm_file_chunks) == 1)) [
        | inr e ↦ rw (rechunk_next, e) h
        | inl e ↦ elim (Result-cases (file_bytes x s r.path)) [
          | inl (f, t) ↦ rw (rechunk_next, e, t) h
          | inr (whole, t) ↦ rw (rechunk_next, e, t) (rechunk_file-IsCounted r.path whole s h)
        ]
      ]

  rechunk_each-IsCounted : (rs : List FsRow) (n : Rechunked) → Keeps IsCounted (rechunk_each x rs n)
  unfolding rechunk_each
  rechunk_each-IsCounted [] n s h = h
  rechunk_each-IsCounted (r ∷ rs) n s h =
      after-Keeps IsCounted (rechunk_next x r n s) _ (rechunk_next-IsCounted r n s h)
        (λ n'. rechunk_each-IsCounted rs n')

  -- Splitting legacy files into chunks keeps the count of the references, also when it ends with an
  -- error: every blob is counted as often as the chunk rows name it, no key has two blobs, and no
  -- chunk of a path two rows.
  pub vm_rechunk-IsCounted : (s : Db) → IsCounted s → IsCounted (vm_rechunk x s).1
  unfolding vm_rechunk
  vm_rechunk-IsCounted s = rechunk_each-IsCounted _ _ s

  ensure_held-IsCounted :
      (raw : Bytes) (held : Option Blob) → Keeps IsCounted (ensure_held x raw held)
  unfolding ensure_held
  ensure_held-IsCounted raw (some b) s h = h
  ensure_held-IsCounted raw none s h = blob_ensure_with-IsCounted x (x.sha256 raw) raw archive s h

  inline_to_blob-IsCounted :
      (r : FsRow) (old_body raw : Bytes) (n : Shrunk)
      → Keeps IsCounted (inline_to_blob x r old_body raw n)
  unfolding inline_to_blob
  inline_to_blob-IsCounted r old_body raw n = gets-Keeps IsCounted _ _ (λ held.
      then-Keeps IsCounted _ _ (ensure_held-IsCounted raw held) (
        gets-Keeps IsCounted _ _
          (λ stored. then-Keeps IsCounted _ _ (update_row-IsCounted r.path _) (λ s h. h))))

  inline_each-IsCounted : (rs : List FsRow) (n : Shrunk) → Keeps IsCounted (inline_each x rs n)
  unfolding inline_each
  inline_each-IsCounted [] n s h = h
  inline_each-IsCounted (r ∷ rs) n s h =
      elim (Result-cases (decompress_bytes_raw x (bytes_in r.content) r.compressed)) [
        | inl (e, t) ↦ rw (inline_each, t) h
        | inr (raw, t) ↦
            rw (inline_each, t)
              (after-Keeps IsCounted (inline_to_blob x r (bytes_in r.content) raw n s) _
                (inline_to_blob-IsCounted r (bytes_in r.content) raw n s h)
                (λ n'. inline_each-IsCounted rs n'))
      ]

  gzip_each-IsCounted : (bs : List Blob) (n : Shrunk) → Keeps IsCounted (gzip_each x bs n)
  unfolding gzip_each
  gzip_each-IsCounted [] n s h = h
  gzip_each-IsCounted (b ∷ bs) n s h = elim (Result-cases (decompress_bytes_raw x b.content 1)) [
    | inl (e, t) ↦ rw (gzip_each, t) h
    | inr (raw, t) ↦ elim (Option-cases (compress_with_dict x raw (latest_dict s.vm_dicts))) [
      | inl u ↦ rw (gzip_each, t, u) (gzip_each-IsCounted bs _ s h)
      | inr (e, u) ↦
          rw (gzip_each, t, u)
            (after-Keeps IsCounted (update_blob b.hash (encoded_as e) s)
              (λ _. gzip_each x bs (add_row n (length b.content) (length e.body)))
              (update_blob-IsCounted b.hash (encoded_as e) (encoded_as-IsEncoding e) s h)
              (λ _. gzip_each-IsCounted bs _))
    ]
  ]

  plain_each-IsCounted : (bs : List Blob) (n : Shrunk) → Keeps IsCounted (plain_each x bs n)
  unfolding plain_each
  plain_each-IsCounted [] n s h = h
  plain_each-IsCounted (b ∷ bs) n s h =
      elim (Option-cases (compress_with_dict x b.content (latest_dict s.vm_dicts))) [
        | inl u ↦ rw (plain_each, u) (plain_each-IsCounted bs n s h)
        | inr (e, u) ↦
            rw (plain_each, u)
              (after-Keeps IsCounted (update_blob b.hash (encoded_as e) s)
                (λ _. plain_each x bs (add_row n (length b.content) (length e.body)))
                (update_blob-IsCounted b.hash (encoded_as e) (encoded_as-IsEncoding e) s h)
                (λ _. plain_each-IsCounted bs _))
      ]

  zstd_each-IsCounted : (bs : List Blob) (n : Shrunk) → Keeps IsCounted (zstd_each x bs n)
  unfolding zstd_each
  zstd_each-IsCounted [] n s h = h
  zstd_each-IsCounted (b ∷ bs) n s h =
      elim (Result-cases (decompress_bytes_raw x b.content b.compressed)) [
        | inl (e, t) ↦ rw (zstd_each, t) h
        | inr (raw, t) ↦ elim (Option-cases (x.zstd_compress 19 raw)) [
          | inl u ↦ rw (zstd_each, t, u) (zstd_each-IsCounted bs n s h)
          | inr (best, u) ↦ elim (Bool-cases (saves x best raw b.content)) [
            | inr v ↦ rw (zstd_each, t, u, v) (zstd_each-IsCounted bs n s h)
            | inl v ↦
                rw (zstd_each, t, u, v)
                  (after-Keeps IsCounted
                    (update_blob b.hash (λ old. record old { content = best }) s)
                    (λ _. zstd_each x bs (add_row n (length b.content) (length best)))
                    (update_blob-IsCounted b.hash _
                      (record { hash_same = λ _. refl; refcnt_same = λ _. refl }) s h)
                    (λ _. zstd_each-IsCounted bs _))
          ]
        ]
      ]

  -- Recompressing what is stored keeps the count of the references, in each of its passes and also
  -- when one of them ends with an error: every blob is counted as often as the chunk rows name it, no
  -- key has two blobs, and no chunk of a path two rows.
  pub vm_recompress-IsCounted : (s : Db) → IsCounted s → IsCounted (vm_recompress x s).1
  unfolding vm_recompress
  vm_recompress-IsCounted = gets-Keeps IsCounted _ _ (λ legacy.
      bind-Keeps IsCounted (inline_each x legacy _) _ (inline_each-IsCounted legacy _) (λ n.
        gets-Keeps IsCounted _ _ (λ gz.
          bind-Keeps IsCounted (gzip_each x gz n) _ (gzip_each-IsCounted gz n) (λ m.
            gets-Keeps IsCounted _ _ (λ plain.
              bind-Keeps IsCounted (plain_each x plain m) _ (plain_each-IsCounted plain m)
                (λ k. gets-Keeps IsCounted _ _ (λ packed. zstd_each-IsCounted packed k)))))))
