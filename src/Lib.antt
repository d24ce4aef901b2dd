-- ===== src/Lib.antt =====
-- The distributed lock of this repository: nodes that share CXL memory take locks through a local
-- mutex and a global lock whose state lies in the shared memory, and a lock manager scans that
-- state and grants each lock to one waiting node at a time.
--
-- Types: include/lock_types.h. Memory: src/shared_memory.cpp, the mapped region, pointers into it
-- and the atomic accesses to its 32-bit words; a null pointer or an access outside of the mapping
-- is a fault, `none`. Memory.Offsets: its pointers and offsets. Region: the life of that mapping,
-- init and cleanup of src/shared_memory.cpp, over the calls of the operating system as a record of
-- parameters; Region.Moves has the moves and the destructor, Region.Objects the runs of calls on
-- several objects, and Region.Ledger what such a process has open. Pool and Flush:
-- src/cxl_memory_pool.cpp, with its moves in Pool.Moves, and the loop of include/cxl_memory_pool.h.
-- Lines: the layout that three of the algorithms share. Algorithm: the interface of
-- include/lock_interface.h. Cas: src/cas_global_lock.cpp, one slot per lock and node. Faa:
-- src/faa_global_lock.cpp, a ticket lock. Mcs: src/mcs_global_lock.cpp, a linked queue; Mcs.Fifo is
-- its specification as a queue. Qspinlock: src/qspinlock_global_lock.cpp, a lock word with a queue
-- behind it. Each method of the source is a function of the same name over the algorithm's object,
-- the region handle and the offset of the lock state; `is_granted` is the algorithm's branch of
-- TwoTierLock::poll_for_grant. LockManager: src/lock_manager.cpp over any algorithm;
-- LockManager.Scan says what it relies on, as a record that LockManager.Servers fills for the four
-- algorithms; LockManager.Runs is about any number of scans. LocalLock: src/local_lock.cpp over the
-- calls of pthread; LocalLock.Object is the class around its Impl, whose pointer may be null.
-- TwoTier: src/two_tier_lock.cpp, which takes both locks and polls; TwoTier.Setup is its set-up and
-- its hashes. NodeRegistry: src/node_registry.cpp, the array of node records in the shared memory,
-- and NodeRegistry.Config the parser of its configuration file. AlgorithmRegistry:
-- src/lock_interface.cpp. AnyLock: the virtual calls on an object of one of the four algorithms.
-- DistributedLock: src/distributed_lock.cpp, which opens a pool, makes the locks over it and starts
-- the manager, over a record of everything it calls, and DistributedLock.Setup and
-- DistributedLock.Calls are its operations. DistributedLock.Startable puts the four algorithms in;
-- DistributedLock.Locking, DistributedLock.Uncontended and DistributedLock.Managers are about a
-- system that runs: its calls, and its manager; DistributedLock.Closing is about its end. The state
-- of 1024 locks and 64 nodes has at most 262144 bytes, the lower bound on the region there. Client:
-- where a caller of src/two_tier_lock.cpp stands. Examples: the theorems at concrete inputs, and
-- tests.
--
-- Loops over locks and nodes recur on the rounds that are left, so they need no fuel. The retry
-- loops of Mcs and Qspinlock, and the unbounded wait of the MCS release, take a number of rounds,
-- and running out of them is a fault, as in the poll of TwoTier; the theorems say how many are
-- enough when no other node runs in between. The bounded wait of the qspinlock release has the
-- 1000001 reads of the source. Offsets are 64-bit and words 32-bit unsigned numbers that wrap.
-- Memory is sequentially consistent: cache flushes and fences change no value, and are left out of
-- the operations; Flush gives the lines that they write back. Cas.System interleaves single
-- accesses to slots; Faa.System interleaves whole operations; the theorems on Mcs, Qspinlock and
-- LockManager are on operations that run as a whole. The theorems on regions take a region that is
-- open and has room for the lock state.
--
-- A clock is an argument of the operations that read it. A configuration file is its bytes. The
-- call of pthread_mutex_lock waits for a mutex that another thread holds, and where it does not
-- return, `acquire` does not either: both are `none`, and the theorems on `acquire` take as a
-- hypothesis that it returns. The run of the manager takes what other nodes do to the memory before
-- each scan; a scan runs as a whole. A registry record is 160 bytes; Memory keeps the value of a
-- field at the offset where the field begins.
--
-- Not modelled: what the operating system and pthread do, beyond the laws that a theorem names as
-- hypotheses; the barriers and cache instructions; the lists that are only printed; the tests.
pub mod Common
pub mod Types
pub mod Memory
pub mod Region
pub mod Algorithm
pub mod AnyLock
pub mod Client
pub mod Lines
pub mod Cas
pub mod Faa
pub mod Mcs
pub mod Qspinlock
pub mod LockManager
pub mod Pool
pub mod NodeRegistry
pub mod Flush
pub mod LocalLock
pub mod AlgorithmRegistry
pub mod TwoTier
pub mod DistributedLock
pub mod Examples
