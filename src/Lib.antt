-- ===== src/Lib.antt =====
-- Omnistorage: a Go library with one interface for many kinds of storage, and what is built on that
-- interface: copies and moves, and the synchronisation of two places.
--
-- A Go string and a `[]byte` are both a list of byte values (Base/Equality); an `int64` that may be
-- negative is an integer over the native numbers (Base/Int); a Go map is an association list whose
-- order is that of `range` (Base/Dict); a call that returns `(value, error)` gives a value, an
-- error or a panic (Base/Outcome), and a method is a function on the state of its object that gives
-- such a result and the state that it leaves, also when it fails (Base/Action). Times are
-- nanoseconds from the zero time.
--
-- The parts, the files that model them, and their source:
--   Options                errors.go and options.go: the sentinel errors are in Base/Outcome; options
--                          are functions on a configuration
--   Paths                  `path.Clean` and `path.Join` of the standard library (Clean), and
--                          validatePath and normalizePath of backend/memory/backend.go (Normal)
--   Memory                 backend/memory/backend.go: the state and the guards (State), NewReader,
--                          Exists, Stat, Size and Count (Query), List (Listing), NewWriter with the
--                          writer and the reader (Stream), Mkdir and Rmdir (Directory), Copy, Move,
--                          Delete, Clear and Close (Transfer); what each of its calls promises of
--                          the abstract view, a function from paths to objects, is in Spec
--   Channel                backend/channel/backend.go: the backend and its channels, in a heap, since
--                          writers and readers hold pointers (State), the writer and the reader
--                          (Pipe), and the methods (Calls)
--   File                   backend/file: what is asked of the operating system, as a record (System),
--                          where a path is on the disk (Place), backend.go (Backend) and extended.go
--                          (Extended)
--   Sftp                   backend/sftp/backend.go: what is asked of the client, as a record (Client),
--                          and the methods (Backend); options.go, and New over what opens connections
--                          (Config), and its limited reader (Reader)
--   S3                     backend/s3/backend.go: what is asked of the client, as a record (Client), the
--                          methods (Backend) and the writer (Writer); options.go and New (Config)
--   Dropbox                backend/dropbox/options.go
--   Compress               compress/gzip and compress/zstd: what their writers and readers share
--                          (Wrapper), and both (Gzip, Zstd), over the codecs
--   Registry               registry.go
--   Ndjson                 format/ndjson: `bufio.Writer` (Buffer) and `bufio.Scanner` (Scanner) of the
--                          standard library, writer.go (Writer) and reader.go (Reader)
--   Features               features.go and the hash types of hash.go
--   Backends               interfaces.go, extended.go and object_info.go: the records of operations
--                          that the parts below take as parameters, over a world that holds the state
--                          of all backends of a run
--   HashSet                the type HashSet of hash.go
--   Transfer               copy.go and move.go: CopyPath, MovePath, SmartCopy and SmartMove, and
--                          CopyPathWithHash with the hashes that it needs (Hashed)
--   Retry                  sync/retry.go: retryOperation
--   RateLimit              sync/ratelimit.go: the token bucket and the reader with a limit
--   Multi                  multi/writer.go: the writer that writes to many backends, and its
--                          constructors (Build)
--   Sync/Options           sync/options.go: options, results and NeedsUpdate
--   Sync/Filter            sync/filter/filter.go: Match; the options and FromFile (Build)
--   Sync/Compare           sync/sync.go: the plan that Sync makes
--   Sync/Listing           sync/sync.go: listFiles, copyFileWithContext and what it calls, MoveFile
--   Sync/Run               sync/sync.go: Sync
--   Sync/Workers           sync/sync.go: the pool of workers inside Sync
--   Sync/Content, Check    sync/check.go and sync/verify.go: compareContent, Check, Diff and Verify
--   Sync/Move              sync/sync.go: Move
--   Sync/Copies            sync/copy.go: Copy, CopyFile, CopyBetweenPaths and TreeCopy
--   Sync/Verify            sync/verify.go: VerifyFile, VerifyWithDetails and the integrity checks
--   Sync/Conflict          sync/bisync.go: resolveConflict
--   Sync/Bisync            sync/bisync.go: options and results (Options), the actions (Plan), the loop
--                          over them and Bisync (Run)
-- The other files under these prove what holds of them: Memory/Invariant, Calls, RoundTrip,
-- Queries, Transfers, Directories, Faults and Refines; Channel/Flow, Drain and Ends;
-- File/Confined, Faults, Refused and SelfCopy; Sftp/Handles and Connect; S3/Store, RoundTrip and
-- Listing; Compress/Closings and Once; Ndjson/WriterLaws and RoundTrip; Paths/Settled, Laws and
-- Confined; Laws under Transfer, Retry, RateLimit and Multi, and Transfer/HashedLaws;
-- Multi/Openings; Sync/CompareLaws, TransferLaws, RunLaws, Outcomes, ContentLaws, CheckLaws,
-- CheckVerdicts, CheckResults, FilterLaws, CopiesLaws, TreeLaws and VerifyLaws;
-- Sync/Filter/FileLaws; Total, Balance, Counted, Bounds, Ends and Progress under Sync/Workers;
-- PlanLaws, Acts, Loop, Effects and Outcomes under Sync/Bisync. Tests runs the code on small
-- inputs.
--
-- Parameters: `filepath.Match` and the comparison of times of github.com/grokify/oscompat, whose
-- symmetry is a hypothesis where it is needed; what the context answers at each moment at which
-- the code asks it; the clock; what a refill of the token bucket gains, and what other users of
-- the bucket do while a wait for tokens sleeps; the backends of Sync; the hash functions; the
-- operating system and the data base of content types under the file backend; the client under the
-- SFTP backend, which counts the files that are open where that is needed, and what reads keys and
-- opens connections for it; the client under the S3 backend, and the loader of its configuration;
-- the codecs of gzip and zstd; what `os.Open` gives for a filter file; the environment. A decimal
-- number and what a setting takes from a map or from the environment are in Base/Decimal and
-- Base/Setting.
--
-- Fuel: the loop of compareContent has one more round than the first file has bytes, and takes at
-- least a byte in each; the loop of a wait for tokens is stated for any fuel. The loop of the
-- reader of records has one more round than its input has bytes, each of which takes a byte at
-- least. The walk of the SFTP backend has fuel for the depth of the tree, and is only run. The
-- listing of the S3 backend has a round for each page and one more. The loop over a filter file has
-- one more round than the file has bytes, each of which takes a byte at least.
--
-- Interleavings: a method of the memory backend that holds its lock is one step. Mkdir gives its
-- lock back in the middle: its two halves are definitions of their own, and `mkdir` is a call in
-- which no other comes between them. What a reader delivers is fixed when it is opened, so a write
-- to the file of an open reader is left out where one backend is read through the interface of
-- Backends. In Sync/Run no two transfers overlap: the workers take the actions in order from a
-- channel, so this is every run of a single worker, and one run of many. Sync/Workers has the
-- steps of the sender and of all workers in any order, where what each copy answers is arbitrary
-- and the contents of the backends are left out. The counters of a run, which are of 32 and 64
-- bits in the source, do not wrap around. A write to a channel is two steps, and Channel/Flow has
-- the steps of all its users in any order.
--
-- Not modelled: how long a retry waits, which is computed in floating point, and which errors it
-- retries; channels without a buffer; reports as text; logging and progress reports. Clients,
-- codecs and drivers of other projects are parameters.
pub mod Base
pub mod Paths
pub mod Options
pub mod Memory
pub mod Features
pub mod HashSet
pub mod Backends
pub mod Registry
pub mod Transfer
pub mod Retry
pub mod RateLimit
pub mod Channel
pub mod Ndjson
pub mod File
pub mod Sftp
pub mod S3
pub mod Dropbox
pub mod Compress
pub mod Multi
pub mod Sync
mod Tests
