-- ===== src/Lib.antt =====
-- Virthub is a distributed KV-cache store with a software shared-memory layer below it. This
-- library models the parts that decide: src/precision (which precision a KV block is stored in),
-- src/master (Raft log, placement of allocations, heartbeats of the nodes), src/klnk/klnk-core (regions,
-- page coherence, locks, page diffs), src/klnk/klnk-daemon (resource limits, invalidation messages),
-- src/klnk/klnk-ebpf (stride detection), src/klnk/librmashim (registry of memory regions,
-- refills of the receive queue), src/index
-- (eviction, hash index, radix tree) and src/store (blocks, tiers and staging slots).
--
-- How the parts interact: the master's scheduler keeps a memory-pressure state and a predictor, and
-- asks the predictor for the policy word of each new block; the Raft log carries commands and lock
-- operations, which its commit callback hands to the control plane; the control plane keeps the page
-- entries that the daemon's fault handler reads; a remote writer's invalidation messages reach it over
-- a ring whose poller calls the control plane; a dirty page travels as a diff against its baseline;
-- the daemon's limits stand before its staging memory; the hash index and the radix tree find blocks
-- by key and by address, and the eviction policy orders the keys.
--
-- Which file models which part:
--   Common       shared names: Tests (Boolean tests), Lists, Word (u32, u64), Bits (masks and shifts),
--                Map (maps read and written by key), Float (f64 as an interface), Result, Steps (the
--                addresses of a stepping loop).
--   Precision    src/precision/src: Hysteresis (hysteresis.rs), Policy (policy.rs), Lut (lut.rs),
--                Predictor (predictor.rs); their children hold the proofs.
--   Diff         src/klnk/klnk-core/src/diff.rs.
--   Domain       src/klnk/klnk-core/src/domain.rs.
--   ControlPlane src/klnk/klnk-core/src/control_plane.rs: Regions, Pages and Locks for the proofs.
--   Raft         src/master/src/raft_state.rs: Terms, Votes, Log and Commit for the proofs.
--   Scheduler    src/master/src/scheduler.rs: Placement, Registry and Balance for the proofs.
--   Coordinator  src/master/src/coordinator.rs: Nodes and Counts for the proofs.
--   Limits       src/klnk/klnk-daemon/src/limits.rs: Bounds and Backpressure for the proofs.
--   Invalidation src/klnk/klnk-daemon/src/invalidation.rs: Ring (the ring as a queue), Poller (its
--                effect on the control plane) and Stuck (a refused message) for the proofs.
--   Eviction     src/index/src/eviction.rs: Recency for the proofs.
--   HashIndex    src/index/src/hash_index.rs: Slots and Tables (what a Robin Hood table is), Gets, Inserts,
--                Stores, Updates, Shifts and Removes (the loops), Maps, Refines, News, Deletes and
--                Capacity for the proofs.
--   Radix        src/index/src/radix_tree.rs: Paths, Reads, Inserts and Range for the proofs.
--   KvBlock      src/store/src/kv_block.rs and the descriptors of src/store/src/psp_kv.rs: Codec for the
--                proofs.
--   TierManager  src/store/src/tier_manager.rs: Races for the proofs.
--   StagingPool  src/store/src/staging_pool.rs: Sharing and Batches for the proofs.
--   Stride       src/klnk/klnk-ebpf/src/lib.rs: Streams and Steady for the proofs.
--   MrRegistry   src/klnk/librmashim/src/mr_registry.rs: Index for the proofs.
--   RqRefill     src/klnk/librmashim/src/rq_refill.rs: Depth for the proofs.
-- Each Examples module evaluates the theorems of its part on concrete data.
--
-- Correspondence: a method `&self` over locked or atomic state is a function from the state to the new
-- state and the result, under the method's name. An operation under one lock is one step; the limits
-- keep the steps of their compare-and-exchange loops apart, the tiers the check and the addition of an
-- allocation, and the registry of memory regions the two locks of clear. Result is Rust's; `none` around a result
-- is a panic or a loop that does not end. An f64 literal is given in hundredths, and f64 is the
-- parameter F with the facts of IEEE 754 that the proofs use.
--
-- Bounds and fuel: arithmetic on u64 and usize wraps as in a release build. A page loop of the
-- control plane has fuel for region_size / unit + 1 rounds, which the register and deregister theorems
-- show to be enough when the addresses do not wrap. The word scan of a diff has fuel for one round per
-- word; each round moves on by a word at least. A loop of the hash index has a round for each bucket and
-- one more, a range query of the radix tree a round for each step, and the ring's loop one for each index
-- between head and tail; the theorems on them show that this is enough. The ring's two counters are taken
-- not to reach 2^64.
--
-- Not modelled: network, files, system calls and foreign interfaces (klnk-net, klnk-uffd, klnk-shim,
-- klnk-dsm-api, the RDMA providers, the connectors, api, config, the eBPF trace manager), the
-- floating-point kernels of store/quantization, and the daemon's prefetcher, whose work is remote reads. CRC32, bincode and mmap are parameters, and the clock's reading is an
-- argument. A hash map's
-- iteration order is the order of a list. NodeId and socket addresses are numbers.
pub mod Common
pub mod Precision
pub mod Diff
pub mod Raft
pub mod Domain
pub mod ControlPlane
pub mod Limits
pub mod Eviction
pub mod RqRefill
pub mod Scheduler
pub mod MrRegistry
pub mod Radix
pub mod Invalidation
pub mod KvBlock
pub mod TierManager
pub mod HashIndex
pub mod Coordinator
pub mod Stride
pub mod StagingPool
