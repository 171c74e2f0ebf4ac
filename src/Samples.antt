-- ===== src/Samples.antt =====
-- A codec to run the code with, and small databases.
use dbvm.Common.{
  Option, none, some, [], ◌∷◌, Text, Bytes, codes, same, same-eq, length, replicate, if◌then◌else◌,
  ◌≡◌, refl, arith, Bool-cases, inl, inr, ap, sym,
}
use dbvm.Common.Int.{pos}
use dbvm.Policy.Triggers.{Triggers}
use dbvm.Extern.{Extern, FrameSize, not_a_frame, sized, IsLossless}
use dbvm.Db.{file, symlink, Db}
use dbvm.Db.Blobs.{refcnt_of, rows_of}
use dbvm.Db.Refs.{IsCounted, refs_in, saved_refs, copies}
use dbvm.Store.{fs_put_file}
use dbvm.Store.Counted.{fs_put_file-IsCounted}
use dbvm.Snapshot.{snapshot_create}
use dbvm.Snapshot.Counted.{snapshot_create-IsCounted}
use dbvm.Db.Counted.{same-IsCounted}
use dbvm.Undo.{undo_capture_tree}
use dbvm.Undo.Counted.{undo_capture_tree-IsCounted}

-- A codec that compresses runs of zero bytes to their length, and has a file as its own key.
abbrev pub zeros_to_frame : Bytes → Option Bytes
zeros_to_frame b = if same b (replicate (length b) 0) then some (length b ∷ []) else none

abbrev pub frame_length : Bytes → FrameSize
frame_length (n ∷ []) = sized n
frame_length _ = not_a_frame

abbrev pub frame_to_zeros : Bytes → Option Bytes
frame_to_zeros (n ∷ []) = some (replicate n 0)
frame_to_zeros _ = none

abbrev pub after_magic : Bytes → Option Bytes
after_magic (a ∷ b ∷ rest) = some rest
after_magic _ = none

abbrev pub sample_extern : Extern
sample_extern = record {
  sha256 = λ b. b;
  zstd_compress = λ level b. zeros_to_frame b;
  zstd_compress_dict = λ level d b. zeros_to_frame b;
  zstd_frame_size = frame_length;
  zstd_decompress = λ c n. frame_to_zeros c;
  zstd_decompress_dict = λ d c n. frame_to_zeros c;
  gunzip = after_magic;
}

frame_of_zeros :
    (b c : Bytes)
    → zeros_to_frame b ≡ some c
    → (frame_length c ≡ sized (length b)) × (frame_to_zeros c ≡ some b)
frame_of_zeros b c e = elim (Bool-cases (same b (replicate (length b) 0))) [
  | inr f ↦ absurd (ground (arith, e, f))
  | inl t ↦
      let framed : c ≡ length b ∷ [] = ground (arith, e, t) in
      rw framed (refl, ap some (sym (same-eq b (replicate (length b) 0) t)))
]

pub sample-IsLossless : IsLossless sample_extern
sample-IsLossless = record {
  plain_size = λ level b c e. (frame_of_zeros b c e).0;
  plain_back = λ level b c e. (frame_of_zeros b c e).1;
  dict_size = λ level d b c e. (frame_of_zeros b c e).0;
  dict_back = λ level d b c e. (frame_of_zeros b c e).1;
}

abbrev pub no_triggers : Triggers
no_triggers = record {
  fs_ins = [];
  fs_upd = [];
  fs_del = [];
  ch_ins = [];
  ch_upd = [];
  ch_del = [];
}

abbrev pub empty_db : Db
empty_db = record {
  vm_fs = [];
  vm_file_chunks = [];
  vm_blobs = [];
  vm_dicts = [];
  vm_dirty = [];
  counters = record {
    count_file = pos 0;
    count_dir = pos 0;
    count_symlink = pos 0;
    logical_bytes = pos 0;
    blob_bytes = pos 0;
  };
  vm_snapshots = [];
  vm_snapshot_fs = [];
  vm_snapshot_chunks = [];
  vm_undo = [];
  vm_undo_fs = [];
  vm_undo_chunks = [];
  vm_log = [];
  triggers = no_triggers;
  bypass = 0;
  now = 1000;
}

pub empty_db-IsCounted : IsCounted empty_db
unfolding refs_in refcnt_of saved_refs rows_of copies
empty_db-IsCounted = record {
  counted = λ h. refl;
  unique = λ h. omega arith;
  keyed = λ p i. omega arith;
}

abbrev pub file_b : Text
file_b = codes "/b"

-- A database with one file, one with a snapshot of it, one with an undo record of it.
abbrev pub stored : Db
stored = (fs_put_file sample_extern file_b 420 7 (codes "hello") empty_db).1

pub stored-IsCounted : IsCounted stored
stored-IsCounted =
    fs_put_file-IsCounted sample_extern file_b 420 7 (codes "hello") empty_db empty_db-IsCounted

abbrev pub saved : Db
saved = (snapshot_create sample_extern (codes "s") (codes "a note") stored).1

pub saved-IsCounted : IsCounted saved
saved-IsCounted =
    snapshot_create-IsCounted sample_extern (codes "s") (codes "a note") stored stored-IsCounted

-- An undo record has begun.
abbrev pub begun : Db
begun = record stored { vm_undo = 1 ∷ [] }

pub begun-IsCounted : IsCounted begun
begun-IsCounted = same-IsCounted stored begun refl refl refl refl stored-IsCounted

abbrev pub captured : Db
captured = (undo_capture_tree 1 file_b begun).1

pub captured-IsCounted : IsCounted captured
captured-IsCounted = undo_capture_tree-IsCounted 1 file_b begun begun-IsCounted

abbrev pub linked : Db
linked = record empty_db {
  vm_fs =
      record {
        path = codes "/l";
        kind = symlink;
        mode = 511;
        mtime = 0;
        mtime_ns = 0;
        size = 0;
        link_target = some (codes "./x/../b");
        hash = none;
        content = none;
        compressed = 0;
      }
      ∷ record {
        path = file_b;
        kind = file;
        mode = 420;
        mtime = 0;
        mtime_ns = 0;
        size = 0;
        link_target = none;
        hash = some [];
        content = none;
        compressed = 0;
      }
      ∷ [];
}
