-- ===== src/Tests.antt =====
-- Runs of the content store, the codec, snapshots and undo records, and their theorems at inputs where
-- the hypotheses hold.
pub mod Rules
pub mod Layers
pub mod Host
pub mod Mount
use dbvm.Common.{
  ℕ, length-replicate, ◌+◌, ◌<◌, Option, none, some, List, [], ◌∷◌, ◌++◌, Text, Bytes, All, codes,
  same, same-eq, any, starts_with, length, replicate, if◌then◌else◌, ◌≡◌, ◌↔◌, refl, arith,
  Bool-cases, inl, inr, map, ◌||◌, ap, sym,
}
use dbvm.Common.Int.{pos}
use dbvm.Common.Decimal.{parse_u64}
use dbvm.VmPath.{
  slash, split, walk, render, trim, split_components, parent_components, normalize_vm_path,
  is_whitespace, mount_link_text,
}
use dbvm.VmPath.Walk.{IsName}
use dbvm.VmPath.Link.{split_components-All, walk-mount_link_text}
use dbvm.VmPath.Normalize.{normalize_vm_path-render, normalize-append_whitespace}
use dbvm.Policy.{covers, under_prefix, fold_case}
use dbvm.Policy.Like.{under_prefix-fold, under_prefix-covers}
use dbvm.Policy.Covers.{covers_iff_components}
use dbvm.Policy.Triggers.{
  Rule, RuleType, PolicyRow, Triggers, Event, under, larger_than, new_row, old_row, refuses,
  rebuild_triggers, encode, decode,
}
use dbvm.Policy.Enforce.{refuses-rebuild_triggers, breaks_prefix, breaks_size, decode-encode}
use dbvm.Extern.{Extern, FrameSize, not_a_frame, sized, IsLossless}
use dbvm.Db.{file, symlink, Db, ok, err, refused, not_found, ◌>>=◌, ◌>>◌}
use dbvm.Db.Blobs.{refcnt_of, rows_of}
use dbvm.Db.Refs.{IsCounted, refs_in, saved_refs, copies}
use dbvm.Codec.{archive, compress_with_effort, decode_block}
use dbvm.Codec.RoundTrip.{decode-compress}
use dbvm.Read.{resolve_path, file_bytes, chunk_by_key}
use dbvm.Db.Blobs.{find_blob}
use dbvm.Store.{blob_ensure_with}
use dbvm.Store.Kept.{chunk_by_key-blob_ensure_with}
use dbvm.Read.Resolve.{IsNode, resolve_path-IsNode}
use dbvm.Store.{chunks, fs_put_file, write_range, truncate_range}
use dbvm.Store.Counted.{fs_put_file-IsCounted}
use dbvm.Store.Ranged.{write_range-IsCounted, truncate_range-IsCounted}
use dbvm.Snapshot.{snapshot_create, snapshot_delete, snapshot_restore}
use dbvm.Snapshot.Counted.{
  snapshot_create-IsCounted, snapshot_delete-IsCounted, snapshot_restore-IsCounted,
}
use dbvm.Undo.{undo_capture_tree, undo_apply, undo_delete}
use dbvm.Undo.Counted.{undo_capture_tree-IsCounted, undo_apply-IsCounted, undo_delete-IsCounted}
use dbvm.Overlay.{
  Overlay, base_layer, layer_of, lookup_file, whited_out_exact, clear_whiteouts_for, ancestors,
  write, mkdir, make_symlink, remove,
}
use dbvm.Overlay.Whiteouts.{lookup_file-layer_of, clear_whiteouts_for-uncovers}
use dbvm.Samples.{
  zeros_to_frame, frame_length, frame_to_zeros, after_magic, sample_extern, sample-IsLossless,
  no_triggers, empty_db, empty_db-IsCounted, file_b, stored, stored-IsCounted, saved,
  saved-IsCounted, captured, captured-IsCounted, begun, begun-IsCounted, linked,
}
use dbvm.Store.Stream.{write_file_checked, write_file_checked-IsCounted}
use dbvm.Disk.{disk_block_size, block_row, block_bytes}
use dbvm.Disk.Blocks.{block_bytes-block_row}

fs_put_file_example : IsCounted (fs_put_file sample_extern file_b 420 8 (codes "other") stored).1
fs_put_file_example =
    fs_put_file-IsCounted sample_extern file_b 420 8 (codes "other") stored stored-IsCounted

write_range_example : IsCounted (write_range sample_extern file_b 3 (codes "p!") 9 stored).1
write_range_example =
    write_range-IsCounted sample_extern file_b 3 (codes "p!") 9 stored stored-IsCounted

truncate_range_example : IsCounted (truncate_range sample_extern file_b 2 9 stored).1
truncate_range_example = truncate_range-IsCounted sample_extern file_b 2 9 stored stored-IsCounted

snapshot_create_example : IsCounted (snapshot_create sample_extern (codes "s") [] stored).1
snapshot_create_example =
    snapshot_create-IsCounted sample_extern (codes "s") [] stored stored-IsCounted

snapshot_delete_example : IsCounted (snapshot_delete (codes "s") saved).1
snapshot_delete_example = snapshot_delete-IsCounted (codes "s") saved saved-IsCounted

snapshot_restore_example : IsCounted (snapshot_restore (codes "s") saved).1
snapshot_restore_example = snapshot_restore-IsCounted (codes "s") saved saved-IsCounted

undo_capture_tree_example : IsCounted (undo_capture_tree 1 file_b begun).1
undo_capture_tree_example = undo_capture_tree-IsCounted 1 file_b begun begun-IsCounted

undo_apply_example : IsCounted (undo_apply 1 captured).1
undo_apply_example = undo_apply-IsCounted 1 captured captured-IsCounted

-- What is written is read back: the file is there with its chunk and its blob.
stored_bytes : file_bytes sample_extern stored file_b ≡ ok (codes "hello")
unfolding file_bytes fs_put_file ◌>>=◌ ◌>>◌
stored_bytes = refl

patched_bytes :
    file_bytes sample_extern (write_range sample_extern file_b 3 (codes "p!") 9 stored).1 file_b
    ≡ ok (codes "help!")
unfolding file_bytes fs_put_file write_range ◌>>=◌ ◌>>◌
patched_bytes = refl

grown_bytes :
    file_bytes sample_extern (truncate_range sample_extern file_b 7 9 stored).1 file_b
    ≡ ok (codes "hello" ++ 0 ∷ 0 ∷ [])
unfolding file_bytes fs_put_file truncate_range ◌>>=◌ ◌>>◌
grown_bytes = refl

restored_bytes :
    file_bytes sample_extern
      (snapshot_restore
        (codes "s")
        (fs_put_file sample_extern file_b 420 8 (codes "other") saved).1).1
      file_b
    ≡ ok (codes "hello")
unfolding file_bytes fs_put_file snapshot_create snapshot_restore ◌>>=◌ ◌>>◌
restored_bytes = refl

undone_bytes :
    file_bytes sample_extern
      (undo_apply 1 (fs_put_file sample_extern file_b 420 8 (codes "other") captured).1).1
      file_b
    ≡ ok (codes "hello")
unfolding file_bytes fs_put_file undo_capture_tree undo_apply ◌>>=◌ ◌>>◌
undone_bytes = refl

-- A file that the policy refuses, and ranged writes to a path that is not there.
abbrev guarded : Db
guarded = record empty_db {
  triggers = record no_triggers { fs_ins = under new_row (codes "/") ∷ [] };
}

put_is_refused :
    fs_put_file sample_extern file_b 420 7 (codes "hello") guarded ≡ (err refused, guarded)
unfolding fs_put_file under_prefix ◌>>=◌ ◌>>◌
put_is_refused = refl

no_such_file :
    write_range sample_extern (codes "/c") 0 (codes "x") 9 stored
    ≡ (err (not_found (codes "/c")), stored)
unfolding fs_put_file write_range ◌>>=◌ ◌>>◌
no_such_file = refl

linked_resolves : resolve_path linked (codes "/l") ≡ ok file_b
unfolding resolve_path
linked_resolves = refl

resolve_path-IsNode_example : IsNode linked.vm_fs file_b
resolve_path-IsNode_example = resolve_path-IsNode linked (codes "/l") file_b linked_resolves

abbrev zeros : Bytes
zeros = replicate 600 0

abbrev frame : Bytes
frame = 600 ∷ []

zeros_encoded :
    compress_with_effort sample_extern zeros none archive
    ≡ some (record { body = frame; flag = 2; dict_id = 0 })
unfolding compress_with_effort same
zeros_encoded = refl

decode-compress_example :
    (decode_block sample_extern [] frame 2 0 ≡ ok zeros) × (length frame + 32 < length zeros)
decode-compress_example =
    decode-compress sample_extern sample-IsLossless [] zeros none archive
      (record { body = frame; flag = 2; dict_id = 0 }) (λ id d e. absurd (ground (arith, e)))
      zeros_encoded

abbrev gzip_file : Bytes
gzip_file = 31 ∷ 139 ∷ codes "inside"

kept_zeros_example :
    chunk_by_key sample_extern
      (blob_ensure_with sample_extern (sample_extern.sha256 zeros) zeros archive empty_db).1
      file_b
      0
      (sample_extern.sha256 zeros)
    ≡ ok zeros
unfolding find_blob
kept_zeros_example =
    chunk_by_key-blob_ensure_with sample_extern sample-IsLossless zeros archive empty_db file_b 0
      refl (λ e. (refl, refl))

no_such_file_to_cut :
    truncate_range sample_extern (codes "/c") 2 9 stored ≡ (err (not_found (codes "/c")), stored)
unfolding fs_put_file truncate_range ◌>>=◌ ◌>>◌
no_such_file_to_cut = refl

-- A reader that gives the file in three reads, and a host file that changed on the way.
write_file_checked_example :
    IsCounted
      (write_file_checked sample_extern file_b 420 7 5 6
        (ok (codes "he") ∷ ok (codes "ll") ∷ ok (codes "o") ∷ [])
        saved).1
write_file_checked_example =
    write_file_checked-IsCounted sample_extern file_b 420 7 5 6
      (ok (codes "he") ∷ ok (codes "ll") ∷ ok (codes "o") ∷ []) saved saved-IsCounted

streamed_bytes :
    file_bytes sample_extern
      (write_file_checked sample_extern
        (codes "/c")
        420
        7
        5
        6
        (ok (codes "he") ∷ ok (codes "ll") ∷ ok (codes "o") ∷ [])
        stored).1
      (codes "/c")
    ≡ ok (codes "hello")
unfolding file_bytes fs_put_file write_file_checked ◌>>=◌ ◌>>◌
streamed_bytes = refl

abbrev ones : Bytes
ones = replicate disk_block_size 1

block_bytes-block_row_example : block_bytes sample_extern (block_row sample_extern 3 ones) ≡ ok ones
block_bytes-block_row_example =
    block_bytes-block_row sample_extern sample-IsLossless 3 ones
      (length-replicate {A = ℕ} disk_block_size 1)
