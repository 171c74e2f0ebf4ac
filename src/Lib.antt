-- ===== src/Lib.antt =====
-- DBVM keeps a file system in one SQLite database. This library models the parts of it that decide
-- what the database holds: how a path is read, which writes a policy refuses, how content is cut,
-- compressed, shared and counted, and how snapshots, undo records and overlays move it.
--
-- - VmPath: normalize_vm_path (src/vm/mod.rs) and mount_link_text (src/owner.rs). Texts are lists of
--   character codes.
-- - Policy and its children: src/policy.rs, the rules, the LIKE conditions and the triggers that
--   rebuild_triggers compiles.
-- - Extern: SHA-256, zstd and gzip, the crates that the code calls: a parameter of the model.
-- - Codec: src/vm/codec.rs, the encoding decision and the decoder.
-- - Db and its children: the tables and triggers of src/vm/schema.rs as a record of lists, the
--   statements that the code runs on them, in_savepoint and write_tx. A function of a connection is a
--   function from a database to a result and a database. Db.Refs has the invariant of content
--   storage, Db.Counted the lemmas on the statements, Db.Keeps those on their composition.
-- - Read and Store: src/vm/read.rs and src/vm/store.rs. Store uses the reads of one database, Read
--   nothing of Store.
-- - Saved, Snapshot and Undo: src/vm/snapshot.rs and src/vm/undo.rs, on top of Store.
-- - Overlay and its children: src/overlay.rs, a Delta that is written through Store over a Base that is
--   not. Overlay.Layered has the reads across the layers, Overlay.Ranged the ranged writes and
--   truncation, Overlay.Calls the calls that write.
-- - Maint: src/vm/maint.rs, rechunking and recompression; Maint.Verify the counts of vm_verify.
-- - Tree, Tree.Sync and Tree.Walked: src/vm/tree.rs, the sync of a host tree and of changed paths. The
--   host is an argument: what it answers for a path, and the steps of the walk over it.
-- - Cache: src/vm/cache.rs, the limit of the content cache and what a prune removes. A file of the cache
--   is its size, the time of its last use, and whether it can be removed.
-- - Fuse: src/fuse.rs, the tree of a mount. Fuse.Rebuild reads it from the database, with the order of a
--   HashMap's keys as an argument and an index of a missing key as a failure.
--   Fuse.Requests and Fuse.Rename have the requests, each a function from the mount to an answer and a
--   mount; Fuse.Served has them in the order of arrival.
-- - Disk: src/vm/disk.rs, over the bytes of a raw file.
-- - Samples and Tests: a concrete codec, small databases, and runs; Tests.Rules, Tests.Layers, Tests.Host
--   and Tests.Mount go with the parts above.
--
-- Names follow the source; make_symlink is Overlay::symlink and the symlink of a mount, make_dir its
-- mkdir, open_file its open. Sizes, offsets and indices are natural numbers without a bound: the code
-- keeps them in u64 and i64, and no file reaches those bounds.
-- Counters are integers. A list bounds each loop: resolve_path makes its 40 rounds as the code does,
-- and the loops over chunks count the rounds that are left, which the code computes first too. A streaming
-- write has a round for each byte of its reads and one more, and the walks over the tree of a mount one
-- for each directory entry: no inode is in two directories.
--
-- Where the requests of src/fuse.rs index self.nodes with an inode that has no node the code panics, and
-- the model answers with an error. chunks and oldest_first stand for slice::chunks and sort_by_key of
-- the standard library.
--
-- Not modelled: caches of chunks, dictionaries and contents, which hold copies; what is written to the
-- host (materialising, file copies of a database) and the walks over it; the listings of a mount, statfs
-- and access times; vm_gc and vm_status, which are PRAGMAs and text; import, sandbox, agent, proxy,
-- sessions, packing and the command line, which are processes and host I/O; the training of
-- dictionaries; migrations of old schemas.
pub mod Common
pub mod VmPath
pub mod Policy
pub mod Extern
pub mod Db
pub mod Codec
pub mod Read
pub mod Store
pub mod Saved
pub mod Snapshot
pub mod Undo
pub mod Overlay
pub mod Disk
pub mod Maint
pub mod Tree
pub mod Cache
pub mod Fuse
pub mod Samples
pub mod Tests
