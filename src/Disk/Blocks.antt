-- ===== src/Disk/Blocks.antt =====
-- A block of src/vm/disk.rs, stored and read.
use dbvm.Common.{
  ℕ, none, some, Bytes, length, append-nil, Option-cases, inl, inr, ◌≡◌, refl, arith, ap, ◌∙◌,
}
use dbvm.Extern.{Extern, IsLossless}
use dbvm.Codec.{compress_bytes, level_for}
use dbvm.Db.{ok}
use dbvm.Disk.{disk_block_size, row_of, block_row, block_bytes, filled_up}

module _ (x : Extern) where
  compress_bytes-zstd :
      (b c : Bytes)
      → compress_bytes x b ≡ some c
      → x.zstd_compress (level_for (length b)) b ≡ some c
  unfolding compress_bytes
  compress_bytes-zstd b c e = elim (Option-cases (x.zstd_compress (level_for (length b)) b)) [
    | inl n ↦ absurd (ground (arith, e, n))
    | inr (d, t) ↦ ground (arith, e, t)
  ]

  filled_up-full : (b : Bytes) → length b ≡ disk_block_size → filled_up b ≡ b
  filled_up-full b len = rw (len) (append-nil b)

  stored-back : (bid : ℕ) (b : Bytes) → block_bytes x (row_of bid b none) ≡ ok (filled_up b)
  unfolding block_bytes
  stored-back bid b = refl

  zstd-back :
      (bid : ℕ) (b c : Bytes)
      → x.zstd_decompress c disk_block_size ≡ some b
      → block_bytes x (row_of bid b (some c)) ≡ ok (filled_up b)
  unfolding block_bytes
  zstd-back bid b c e = rw e refl

  -- A block of the disk that is stored, compressed or not, is read back as it was, with a lossless zstd.
  pub block_bytes-block_row :
      IsLossless x
      → (bid : ℕ) (b : Bytes) → length b ≡ disk_block_size
      → block_bytes x (block_row x bid b) ≡ ok b
  unfolding block_row
  block_bytes-block_row law bid b len = elim (Option-cases (compress_bytes x b)) [
    | inl e ↦ rw (block_row, e) (stored-back bid b ∙ ap ok (filled_up-full b len))
    | inr (c, e) ↦
        let back : x.zstd_decompress c disk_block_size ≡ some b =
          rw (← len) (law.plain_back (level_for (length b)) b c (compress_bytes-zstd b c e)) in
        rw (block_row, e) (zstd-back bid b c back ∙ ap ok (filled_up-full b len))
  ]
