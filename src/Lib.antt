-- ===== src/Lib.antt =====
-- A model of the decision logic of Buckets, a distributed object store written in C, and the theorems
-- that it meets. The code is translated function by function; records stand for structs, lists for
-- arrays with their counts, and results or options for the error paths.
--
-- The program's parts and how they meet here. Objects are placed by hashing: SipHash and xxHash give
-- positions, the consistent hash ring maps a name to the node whose virtual node comes next. The cluster
-- topology says which sets of disks exist and in which state; it is changed in memory and written to all
-- disks, of which a majority has to accept it, and read back by a vote over the disks. The topology
-- manager does so for each change and then puts the new topology in the cache. When the topology has
-- changed, a migration job scans the disks for objects that the rings of the two topologies place
-- differently, and a pool of workers moves them, slowed down by a token bucket that they share.
-- Writes to chunk files go through the group commit, which syncs several of them at once.
--
-- Throttle: src/migration/throttle.c. A `Throttle` is `buckets_throttle_t` without its lock, `init`,
--   `set_rate`, `set_enabled`, `get_stats` and `create` are the functions of these names, `refill` is
--   `refill_tokens` and `round` one pass of the loop of `buckets_throttle_wait`. `wait` runs over a list
--   of turns, each the time that gettimeofday reads and what other threads do to the bucket while the
--   lock is free; the list is as long as the rounds that are looked at. Products past i64 are `none`.
-- Hash: src/hash/siphash.c and src/hash/xxhash.c. Words are numbers below 2^64, with the wrap-around
--   written out. Both `update` functions are one function with the block's width and compression.
-- Circle, Ring: src/hash/ring.c. The binary search takes the length of its range as fuel, which shrinks
--   in each round. `qsort` is a parameter: a sorted list of the same entries. In `lookup_n` an access
--   outside `seen` is `none`.
-- Topology: src/cluster/topology.c with the paths of src/cluster/disk_utils.c. Topology.Json writes and
--   reads a topology as JSON. Topology.Quorum has `buckets_topology_save_quorum` and
--   `buckets_topology_load_quorum`; a disk path that is NULL is `none`. Topology.Endpoints is
--   `buckets_topology_populate_endpoints_from_config`, where a write past `uuid_map`, or a
--   product of the counts of sets and disks that is negative or past an int, is `none`.
-- Placement: src/placement/placement.c. A `Placement` is the globals of the file, and the topology that
--   `buckets_topology_manager_get` returns is an argument of `build_hash_ring`, `init` and `compute`.
--   `buckets_uuid_parse` and the paths of the multidisk layer are arguments as well. A vnode's index is
--   always one of the ring, so the reads of `compute` are those of C.
-- Manager: src/cluster/topology_manager.c over the topology cache of src/cluster/cache.c. A `Manager` is
--   the manager's globals with the cache, the disks and the topologies that the callback was given; each
--   operation holds the manager's lock, so it is one step. `change` is the body that add_pool, add_set
--   and the two mark functions share.
-- Scanner: src/migration/scanner.c. `Entries` is what readdir and stat tell of a directory; a folder
--   holds entries, so that the descent is structural. Scanner.Shape and Scanner.Listing are about `scan`.
-- Worker: src/migration/worker.c. A `TaskQueue` is `task_queue_t`, whose operations say `none` where they
--   wait for a condition variable; Worker.Fifo reads it as a list. A `Step` is what one thread does
--   between two locks, and `Runs` is every order of such steps. What each attempt to migrate a task
--   answers is an argument, since the transfer is a placeholder in the source.
-- Job: src/migration/orchestrator.c. The operations take `others`, what other threads do to the job
--   wherever it is not locked, and what the calls of the scanner and the pool answer, since that depends
--   on the disks and on the threads. `wait` runs over a list of turns, one for each round of the loop; the
--   list is as long as the rounds that are looked at. Job.Checkpoint writes and reads checkpoints.
-- Registry: the cache of object locations in src/registry/registry.c. A `LocationCache` is
--   `registry_cache_t`; each chain is a list, and the doubly linked LRU list is the list of its entries'
--   keys, most recent first. Registry.Table reads the hash table as a map.
--   Registry.Store has the operations of the registry over that cache and over an `ObjectStore`, the put, get
--   and delete of the bucket .buckets-registry, whose failures are values; Registry.Location has the keys and
--   the JSON of a location, and Registry.Coherence is about what a lookup answers after another operation.
-- Erasure: src/erasure/erasure.c over ISA-L's matrices and Galois field sums, an `Isal`. A chunk that is not
--   there is `none` among the chunks; what reads outside a matrix or an array is `outside`. The buffer that a
--   decode fills is a list of the data's size, written at the offsets of the C code.
-- AtomicIo: src/cluster/atomic_io.c. `FileSystem` is what it asks of the operating system; a write is the list of
--   the states that the disks pass through between two such calls, those between two new directories included.
--   CrashLaws are POSIX's guarantees on what a crash leaves: a sync of a file is for its content, and one of a
--   directory for its entries where the directory itself stays. The calls of `buckets_ensure_directory` nest at most as deep as the path is long.
-- GroupCommit: src/storage/group_commit.c. A `Context` is the context of this name with two counts for each
--   file that the C does not keep: its writes since its last sync, and those that are written but not
--   accounted for yet. A write is two steps, `os_write` and `account`, since other threads come between
--   them; the flush of a file is one, as it holds the lock of its state, and the flush of all files is one for each
--   state, `flush_slot`. GroupCommit.Slots is about the table of open files,
--   GroupCommit.Tracking and GroupCommit.Runs about the counts along runs of such steps.
-- ConnPool: src/net/conn_pool.c. A connection is known by its address, which stands for the pointer. `get_idle`
--   and `add_connection` are what `buckets_conn_pool_get` does under the lock before and after it connects.
-- Json: src/cluster/json_helpers.c, with cJSON, strtoull and whole files as a record of functions.
-- Status and Text: the error codes of include/buckets.h, C strings and the formats of snprintf.
-- Prelude: names of the libraries, Boolean tests, lists and signed integers over the native numbers.
--
-- Not modelled: NULL arguments, whose tests return at once; running out of memory, since the program's
-- allocators abort then; logging; the freeing of memory. The counters of tasks and bytes do not wrap: they
-- would need 2^63 of them. The S3 front end, the servers and the RPC, the set-up of the erasure code and the range
-- queries of the registry are left out: they are mostly I/O around libraries. Of the migration, the statistics
-- of the scan, a start of the pool whose threads cannot all be created, and the throughput, which is
-- floating point, are left out.
pub mod AtomicIo
pub mod Circle
pub mod ConnPool
pub mod Erasure
pub mod GroupCommit
pub mod Hash
pub mod Job
pub mod Json
pub mod Manager
pub mod Placement
pub mod Prelude
pub mod Registry
pub mod Ring
pub mod Scanner
pub mod Status
pub mod Text
pub mod Throttle
pub mod Topology
pub mod Worker
