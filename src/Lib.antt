-- ===== src/Lib.antt =====
-- A model of the emulator in source/, which runs the functions of a trace, each in a container of
-- Podman, and keeps those that have run in a memory cache, a disk cache and an object store, so
-- that their next start is warm, lukewarm or remote instead of cold.
--
-- How the parts interact. main_loop (source/main.c) reads the trace and gives each invocation to a
-- pool of workers. A worker (allocate_invocation, source/invocation.c) looks its function up in the
-- memory cache; if it is not there, it reserves memory, frees memory for that if need be, creates a
-- container, and either has the function read by the reader of the disk or of the network or starts
-- it cold; when the function has run it goes into the memory cache. The write-back thread
-- (writeToDisk, source/disk_cache.c) moves functions from the memory cache to the disk cache while
-- the former is too full; what the disk cache evicts goes to the upload thread (netThreadFunc) and
-- from there to the object store. Another thread (pruneDisk) removes containers that have stopped.
--
-- The files:
-- Common         lists, whole numbers, C strings, text, outcomes of C code, floats as a parameter
-- Types          source/types.h: invocations and nodes, and what is done to the outside as effects
-- Nodes          linked lists as nodes in memory: next, its assignment, free, and the loops over it
-- Ram            source/ram_cache.c: initRam, searchRam, insertRamItem, freeRam; Ram/Nodes: the
--                first two on nodes in memory
-- Disk           source/disk_cache.c: findInDisk, freeDisk, insertDiskItem, retrieveFromDisk, and
--                checkpointContainer of source/containers.c; Disk/Nodes: findInDisk on nodes in
--                memory; Disk/Recency: the order of eviction; Disk/Reader: the reader against
--                the other threads
-- Storage        the disk cache, the upload queue and the checkpoints under all the threads that use
--                them, and the disk cache as a bag of functions
-- Network        source/disk_cache.c: findInNetwork, insertNetCache, netThreadFunc, destroyNetCache
-- ReadBuffer     source/disk_cache.c: addToReadBuffer, addToNetworkReadBuffer, and the rounds of
--                readFromDisk and readFromNetwork; ReadBuffer/Answers: what the requests' threads
--                are answered
-- WriteBack      source/disk_cache.c: writeToDisk
-- Stats          source/stats.c, all of it
-- Invocation     source/invocation.c: line_to_invocation, getTid, the choice of start_type
-- Allocate       source/invocation.c: allocate_invocation as steps of a worker, and the workers
--                together with the write-back thread, the main loop and the pool of the statistics;
--                Allocate/Printed, Allocate/Finished: the totals, and the end of all workers
-- Containers     source/containers.c: the callbacks of curl, createContainer, restoreCheckpoint,
--                the ports; Containers/Prune: pruneDisk against createContainer; Containers/Setup:
--                initPodman and destroyPodman; Containers/Urls: the texts printed into blocks
--                of a fixed size; Containers/Requests: what is asked of Podman for a container,
--                and its order; Containers/Latencies: test_speeds_containers
-- Options        source/option_reader.c: the loop of read_options; Options/Speeds: its end,
--                test_speeds and test_bandwidth
-- Main           source/main.c: the loop of main_loop over the lines of the trace, endPools, and what
--                follows them; Main/Run: the loop together with the threads of Allocate
-- Examples       concrete runs
--
-- State and operations. A linked list is the list of its contents; that the code for searchRam,
-- insertRamItem and findInDisk, with its assignments to next, does to the nodes what these functions
-- do to the list is shown over a memory of nodes, where a bad pointer is a fault. An array with a
-- size is the list of its entries, except for the read queue, whose array is modelled with the loop
-- that shifts it. A section of code under a lock is one function or one step; where a lock is given
-- up half way the operation is several. The clock is what its calls give, one after the other. Code
-- that can exit or do what C leaves undefined has an Outcome. int and long are whole numbers without
-- a bound: they count megabytes and milliseconds, and a signed overflow is undefined in C. float and
-- double are a record of operations (Common/Floats), of which a theorem assumes only what it names.
-- The calls that reach the outside are a list of effects; killContainer, which asks until curl reports
-- success, is one effect, so that its waiting is not seen.
--
-- Where the code reads memory that it may no longer read. With containers, freeDisk adds the memory of
-- a node to its counters after it has freed the node or handed it to the upload thread. What it reads
-- there is any number: the field read_after of the disk, and in Storage an argument of the step.
-- Without containers, createContainer and endPools dereference NULL: a worker stops before the
-- container is made (goes_on), and endPools is a fault. Names copied by strncpy without a terminator
-- are taken as whole.
--
-- Bounds and fuel. The buffers have their sizes of the source: 500 entries of the upload queue, 1000
-- of the read queue, 100 of the batch, 65 bytes of a hash, 500 bytes of a line. On fuel run the upload
-- thread and the loop over the lines, one unit a round, and the loops over nodes in memory, one unit a
-- node; each theorem about them gives the rounds that are enough.
--
-- Not modelled: thpool.c, a copy of another project's library, and minio, of which only the header
-- is there; the requests to Podman beyond the effects, steps and texts above, and the JSON
-- that json-c makes of their arguments; condition variables.
pub mod Common
pub mod Types
pub mod Nodes
pub mod Stats
pub mod Ram
pub mod Network
pub mod Disk
pub mod ReadBuffer
pub mod Invocation
pub mod WriteBack
pub mod Allocate
pub mod Containers
pub mod Options
pub mod Main
pub mod Storage
pub mod Examples
