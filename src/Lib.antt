-- ===== src/Lib.antt =====
-- Conserve: a backup program whose archives hold versions, called bands, of a tree of files.
--
-- A backup merges the live tree with the previous band (src/merge.rs), writes the contents of
-- changed files as content-addressed blocks (src/blockdir.rs) and the entries as hunks of an index
-- (src/index.rs) in the order of archive paths (src/apath.rs). A restore reads the index, stitched
-- together from earlier bands when a band is incomplete (src/stitch.rs), and the blocks. All of it
-- goes through a transport (src/transport.rs).
--
-- The files and the parts they model:
--   Apath: src/apath.rs. `cmp` is the order of `Ord`; a path is the list of its characters.
--   Entry: src/entry.rs, src/kind.rs, src/owner.rs, src/unix_mode.rs, src/unix_time.rs and the
--     entry types of src/index.rs and src/blockdir.rs.
--   Merge: src/merge.rs. An iterator over known items is the list of the items that are left.
--   Change: src/change.rs, src/diff.rs and `to_entry_change` of src/merge.rs.
--   BandId: src/bandid.rs.
--   Transport: src/transport.rs. The `Protocol` trait is a record of operations on a store that is
--     passed from call to call; `IsLawful` states what the trait documents.
--   Index: src/index.rs: `read_hunk`, the iterators over hunks (Index/Hunks) and over
--     entries (Index/Entries) and the writer (Index/Writer).
--   BlockDir: src/blockdir.rs and src/blockhash.rs. The caches are explicit state.
--   Band: src/band.rs, src/jsonio.rs, the tests on bands of src/archive.rs and the listing of hunks.
--   Archive: src/archive.rs: creating, opening, bands and their selection; Archive/Delete is the
--     deletion of bands and the garbage collection, under the lock of GcLock (src/gc_lock.rs).
--   Validate: src/validate.rs and the validation of src/archive.rs; BlockDir/Listing is that of
--     src/blockdir.rs.
--   Combiner: `FileCombiner` of src/backup.rs.
--   Backup: `store_file_content` of src/backup.rs and `read_with_retries` of src/io.rs;
--     Backup/Copy: `copy_entry` of src/backup.rs and what it calls;
--     Backup/Session and Backup/Loop: `begin`, `flush_group`, `finish` and `backup`.
--   Stitch: src/stitch.rs: each turn of the loop of `next` is `turn_of`. Stitch/Tree is
--     src/stored_tree.rs: `tree_entries` is all that its iterator returns.
--   Tests: concrete stores, codecs and caches, and the results that have hypotheses at concrete inputs.
--   Common: the library's names passed on, and lemmas on lists, text, numbers and orders.
--
-- Machine integers: numbers are natural; a sum of 32-bit numbers that can wrap is taken modulo 2^32,
-- the sum of `read_address` is a panic from 2^64 on, as in a debug build, and sums of sizes and
-- counters are taken to stay below 2^64. Panics are `none`, and assertions are those of a debug
-- build.
--
-- Fuel: the stitched iterator's loop and the collecting of what an iterator yields run on fuel. The
-- results say how much is enough: a turn for each of the states that a band can still pass through,
-- a call for each item and one more, and a turn for each byte of a file and one more.
--
-- Parameters: the compression, JSON, hash, hex, time, version and cache crates are records of
-- functions, with what they document as named hypotheses. Not modelled: the command line, progress
-- and counters, the implementations of transports, the walk of the live tree, the globs of
-- exclusions, and restore; restore stands on these parts.
pub mod Common
pub mod Apath
pub mod Merge
pub mod Entry
pub mod Change
pub mod BandId
pub mod Transport
pub mod Index
pub mod BlockDir
pub mod Band
pub mod Stitch
pub mod Combiner
pub mod Tests
pub mod Archive
pub mod GcLock
pub mod Validate
pub mod Backup
