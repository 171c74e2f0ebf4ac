-- ===== src/Disk.antt =====
-- src/vm/disk.rs: a raw disk image as a table of blocks, where a block of zeros has no row. The raw file
-- is its bytes; the files themselves, the checkpoints and the text of vm_disk_info are left out.
pub mod Blocks
use dbvm.Common.{
  ℕ, zero, suc, ◌+◌, ◌-◌, ◌*◌, ◌/◌, ◌%◌, Bool, true, false, not, ◌&&◌, Option, none, some, List, [],
  ◌∷◌, ◌++◌, Bytes, ltb, leb, ◌==◌, if◌then◌else◌, length, take, drop, replicate, all, keep,
}
use dbvm.Extern.{Extern}
use dbvm.Codec.{compress_bytes}
use dbvm.Db.{Result, ok, err, Error, bad_input, undecodable}
use dbvm.Read.{◌>>=◌, ◌>>◌, guard}

abbrev pub disk_block_size : ℕ
disk_block_size = 4096

pub record DiskBlock : Type 0 where
  pub block_id : ℕ
  pub content : Bytes
  pub compressed : ℕ
  pub raw_size : ℕ

-- vm_disk_blocks, and the size in vm_meta.
pub record Disk : Type 0 where
  pub blocks : List DiskBlock
  pub size : Option ℕ

unfoldable pub vm_disk_init : ℕ → Disk → Result Disk
vm_disk_init size_bytes d = do
  guard (size_bytes % disk_block_size == 0) bad_input
  ok (record d { size = some size_bytes })

abbrev pub vm_disk_size : Disk → ℕ
vm_disk_size d = elim d.size [ none ↦ 0 | some n ↦ n ]

abbrev pub is_all_zero : Bytes → Bool
is_all_zero b = all (λ c. c == 0) b

-- `DELETE FROM vm_disk_blocks WHERE block_id=?1`.
abbrev pub drop_block : ℕ → List DiskBlock → List DiskBlock
drop_block id bs = keep (λ b. not (b.block_id == id)) bs

-- The rest of a block that the file did not fill.
abbrev pub filled_up : Bytes → Bytes
filled_up b = b ++ replicate (disk_block_size - length b) 0

-- The rows of the holes behind the file: the rounds left, and the next block.
abbrev pub drop_from : ℕ → ℕ → List DiskBlock → List DiskBlock
drop_from zero bid bs = bs
drop_from (suc n) bid bs = drop_from n (bid + 1) (drop_block bid bs)

-- The row of a block: compressed if that pays.
abbrev pub row_of : ℕ → Bytes → Option Bytes → DiskBlock
row_of bid b none = record {
  block_id = bid;
  content = b;
  compressed = 0;
  raw_size = disk_block_size;
}
row_of bid b (some c) = record {
  block_id = bid;
  content = c;
  compressed = 2;
  raw_size = disk_block_size;
}

module _ (x : Extern) where
  unfoldable pub block_row : ℕ → Bytes → DiskBlock
  unfolding compress_bytes
  block_row bid b = row_of bid b (compress_bytes x b)

  -- `INSERT OR REPLACE INTO vm_disk_blocks`, or nothing for a block of zeros.
  unfoldable pub put_block : ℕ → Bytes → List DiskBlock → List DiskBlock
  unfolding block_row
  put_block bid b bs =
      if is_all_zero b then drop_block bid bs else drop_block bid bs ++ block_row bid b ∷ []

  -- The loop over the raw file: the rounds left, the next block, the non-zero blocks so far, and the
  -- file behind what was read.
  unfoldable pub import_loop : ℕ → ℕ → ℕ → ℕ → Bytes → List DiskBlock → (ℕ × ℕ) × List DiskBlock
  unfolding put_block
  import_loop disk_size zero bid nonzero raw bs = ((bid, nonzero), bs)
  import_loop disk_size (suc n) bid nonzero [] bs = ((bid, nonzero), bs)
  import_loop disk_size (suc n) bid nonzero (c ∷ raw) bs =
      let block = filled_up (take disk_block_size (c ∷ raw)) in
      let count = if is_all_zero block then nonzero else nonzero + 1 in
      let stored = put_block bid block bs in
      let rest = import_loop disk_size n (bid + 1) count (drop disk_block_size (c ∷ raw)) stored in
      if leb disk_size ((bid + 1) * disk_block_size) then ((bid + 1, count), stored) else rest

  -- The blocks read and those that are not zero. The length of the file is fuel enough.
  unfoldable pub vm_disk_import_raw : Bytes → ℕ → Disk → Result ((ℕ × ℕ) × Disk)
  unfolding vm_disk_init import_loop
  vm_disk_import_raw raw disk_size d =
      let existing = vm_disk_size d in
      let target = if ltb 0 existing && ltb disk_size existing then existing else disk_size in
      do
        d' ← vm_disk_init target d
        let done = import_loop disk_size (length raw) 0 0 raw d'.blocks
        let bid = done.0.0
        ok (done.0, record d' { blocks = drop_from (disk_size / disk_block_size - bid) bid done.1 })

  -- One row of the table, decoded and filled up.
  unfoldable pub block_bytes : DiskBlock → Result Bytes
  block_bytes b =
      let decoded : Result Bytes = elim (x.zstd_decompress b.content disk_block_size) [
        | none ↦ err undecodable
        | some o ↦ ok (filled_up o)
      ] in
      let unzipped : Result Bytes = elim (x.gunzip b.content) [
        | none ↦ err undecodable
        | some o ↦ ok (filled_up o)
      ] in
      if b.compressed == 2
      then decoded
      else if b.compressed == 1
      then unzipped
      else ok (filled_up b.content)

  -- Bytes at an offset of a file: a hole before them reads as zeros.
  abbrev pub write_at : ℕ → Bytes → Bytes → Bytes
  write_at off b raw =
      take off (raw ++ replicate (off - length raw) 0) ++ (b ++ drop (off + length b) raw)

  unfoldable pub export_loop : List DiskBlock → ℕ → Bytes → Result (ℕ × Bytes)
  unfolding block_bytes
  export_loop [] nonzero raw = ok (nonzero, raw)
  export_loop (b ∷ bs) nonzero raw = elim (block_bytes b) [
    | err e ↦ err e
    | ok o ↦
        if is_all_zero o
        then export_loop bs nonzero raw
        else export_loop bs (nonzero + 1) (write_at (b.block_id * disk_block_size) o raw)
  ]

  -- The blocks of the disk, those written, and the raw file. Each block has its own place in the file,
  -- so the order of the rows does not show.
  unfoldable pub vm_disk_export_raw : Disk → Result ((ℕ × ℕ) × Bytes)
  unfolding export_loop
  vm_disk_export_raw d = do
    let total = vm_disk_size d / disk_block_size
    guard (leb total 10000000) bad_input
    done ← export_loop d.blocks 0 (replicate (vm_disk_size d) 0)
    ok ((total, done.0), done.1)
