-- ===== src/Lib.antt =====
-- AirGap Mirror copies package repositories (apt, maven, npm, pypi) into a network that has no
-- connection to theirs. On the connected side a client plans an epoch of changes, downloads the
-- artifacts and writes them into pack files; the packs are carried over and uploaded to the server
-- in resumable chunks; the server checks and imports them and publishes the metadata.
--
-- The parts that are modelled, by the file that models them:
--   * Domain (Status, Types, Transitions, Path, Lifecycle): internal/domain. The statuses are data
--     types with a constructor `other` for texts that are no constant; CanTransitionEpoch is
--     `can_transition_epoch`, and so on. Path and Lifecycle are about runs of transitions.
--   * Pack (Bytes, Uuid, Clean, Format, Reader, Writer): internal/pack, and NewID of internal/domain.
--     A file is the list of its bytes with a position. NewReaderFile is `new_reader`, Next is `next`;
--     Create, Resume, Append, Close and writeHeader have their names in snake_case. Spec says what a
--     pack file is, independently of the code that writes and reads it; Slices, Fields and Lengths
--     compute with that description. `append_io` is Append where one call of the operating system may
--     fail (Writer.Faults), and `append` where none does.
--   * Store: the queries of internal/storage/sqlite/server_import_registration.go that uploads use. A
--     table is the list of its rows, and a transaction that fails changes nothing. Store.Commit is
--     CommitImportedEntry of internal/storage/sqlite/server_import_commit.go, with its own tables.
--   * Transfer (Chunk, Upload): internal/service/transfer.go. A server is its store and a map from
--     paths to the bytes of the files. appendChunk is `append_chunk`, AppendPack `append_pack`.
--     Upload.Step is one call, or a crash between the write of the file and that of the database.
--   * Registrar (Room): BundleRegistrar.Register of internal/service/transfer.go, `register`; what
--     CapacityInspector reports and the id that NewID gives are parameters.
--   * Database (Sources, Jobs, Epochs, Units, Register, Replace, Manifest): the other queries of
--     internal/storage/sqlite/server_*.go on all tables, with the keys, indexes, CHECKs, REFERENCES and
--     triggers of server_schema.sql and maintenance_schema.sql that can refuse them. CreateMaintenanceJob
--     is `create_maintenance_job`, and so on. Exclusion, Completion, Catalog, Units.Full, Jobs.Recovery and
--     Register.Repeats are about them. Manifest is RegisterManifest, `register_manifest`, and
--     CompleteManifest of internal/service/transfer.go; the attached database is a parameter, whose
--     columns can be NULL, but not the id of a unit.
--   * Site (Target, Written): internal/service/files.go on tables and files. safeTarget is `safe_target`,
--     writeVerified `write_verified`; what os.Lstat finds is a parameter that does not change.
--   * Publisher (Metadata, Keeps): internal/service/publisher.go. PublishReady is `publish_ready`,
--     publishMetadata `publish_metadata`. A call returns its error, if any, and what it leaves.
--   * Importer (Completes, Packs, Again): internal/service/importer.go. CompleteBatch is
--     `complete_batch`; Packs has CommitPack, `commit_pack`, with WalkPack and FileInstaller.
--   * Planner (Totals, Place, Pages, Assigned, Results): BatchPlanner.Plan of internal/service/planner.go, and
--     ListUnassignedArtifacts of internal/storage/sqlite/client.go. What Plan tells its two stores is
--     the list of these calls; fp and fb are `flush_pack` and `flush_batch`.
--   * Prelude: Boolean tests, lists over the native numbers, Go's int64 and uint64 (Int64), tables of
--     a database (Tables), tests of Go's package strings (Texts).
--   * Examples: a concrete run for each theorem that has hypotheses, and tests.
-- The transfer component takes the store, and the pack component gives it writes into a file; the
-- statuses of the domain are those of the rows. The importer reads packs by the pack component, writes
-- files by Site, changes tables by Database and Store, and calls the publisher.
--
-- Numbers: an int64 or uint64 is its bit pattern below 2 ^ 64, with the sums and the comparisons that
-- can overflow written out (`add64`, `sub64`, `lt64`). A string is its list of bytes.
-- Fuel: the loop of Resume has one round more than the file has bytes, where a record has at least 80;
-- `read_on`, which calls Next again and again, is used with one round more than there are entries,
-- and the page loop of the planner has one round more than there are rows, each page holding one.
-- Every other function is by structural recursion.
--
-- Parameters: SHA-256, the bytes of crypto/rand, the clock, which stands still during a call of the
-- importer or the publisher, and what the record `Outside` of Publisher names: filepath.Abs, os.Lstat,
-- the adapter's ValidatePublish and the rows of an uploaded manifest. Not modelled: cancellation, the
-- audit log, directories, I/O errors other than the end of a file, a missing file and those of Append,
-- values of the uploaded manifest that CommitPack cannot scan, errors of the database driver, and concurrent calls on one pack. Outside the model are garbage collection, the
-- downloader, bundles and capsules, the adapters, the client, the HTTP API, the desktop program, the
-- commands and the rest of the database's queries.
pub mod Prelude
pub mod Domain
pub mod Pack
pub mod Store
pub mod Database
pub mod Transfer
pub mod Importer
pub mod Publisher
pub mod Registrar
pub mod Site
pub mod Planner
pub mod Examples
