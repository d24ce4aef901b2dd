-- ===== src/LockManager.antt =====
-- src/lock_manager.cpp and include/lock_manager.h: the scan that grants locks to waiting nodes, over
-- any global lock algorithm.
pub mod Counters
pub mod Scan
pub mod Servers
pub mod Service
pub mod Runs
use cxl_dis_lock.Common.{
  ℕ, zero, suc, ◌+◌, Bool, true, false, not, ◌&&◌, ◌||◌, ltb, ◌==◌, if◌then◌else◌, Option, none,
  some,
}
use cxl_dis_lock.Types.{
  LockResult, is_success, success, error_invalid_param, error_timeout, error_busy, error_not_owner,
  error_shm_failure, error_node_not_registered, error_lock_not_initialized, error_unknown, u64,
  invalid_node_id, max_node_count, max_lock_count,
}
use cxl_dis_lock.Memory.{Shm, M, pure, ◌>>=◌, ◌>>◌, fault, Handle, nullptr, region}
use cxl_dis_lock.Algorithm.{GlobalLockAlgorithm}

-- `LockManager::Stats`, counters of 64 bits that wrap.
pub record Stats : Type 0 where
  pub grants_total : ℕ
  pub grants_by_lock : ℕ → ℕ
  pub scan_cycles : ℕ
  pub idle_cycles : ℕ

abbrev pub no_stats : Stats
no_stats = record { grants_total = 0; grants_by_lock = λ lid. 0; scan_cycles = 0; idle_cycles = 0 }

-- The fields of `LockManager`. `worker_thread` says whether the thread is joinable.
pub record LockManager (A : Type 0) : Type 0 where
  pub shm : Handle
  pub algorithm : Option A
  pub max_locks : ℕ
  pub node_count : ℕ
  pub scan_interval_us : ℕ
  pub state_offset : ℕ
  pub running : Bool
  pub stop_requested : Bool
  pub worker_thread : Bool
  pub stats : Stats
  pub initialized : Bool
  pub is_manager : Bool

abbrev pub new_manager : {A : Type 0} → LockManager A
new_manager = record {
  shm = nullptr;
  algorithm = none;
  max_locks = 0;
  node_count = 0;
  scan_interval_us = 100;
  state_offset = 0;
  running = false;
  stop_requested = false;
  worker_thread = false;
  stats = no_stats;
  initialized = false;
  is_manager = false;
}

abbrev pub acquire_manager_role : Bool
acquire_manager_role = true

-- The statistics after a grant of `lid`, and after a scan.
unfoldable pub count_grant : Stats → ℕ → Stats
count_grant stats lid = record stats {
  grants_total = u64 (stats.grants_total + 1);
  grants_by_lock =
      λ k. if lid == k then u64 (stats.grants_by_lock k + 1) else stats.grants_by_lock k;
}

unfoldable pub count_scan : Stats → Bool → Stats
count_scan stats any_work = record stats {
  scan_cycles = u64 (stats.scan_cycles + 1);
  idle_cycles = if any_work then stats.idle_cycles else u64 (stats.idle_cycles + 1);
}

-- What other nodes do to the memory.
abbrev pub disturbed : (Shm → Shm) → M (Unit {0})
disturbed f s = some (tt, f s)

module _ {A : Type 0} (alg : GlobalLockAlgorithm A) where
  -- What `initialize` does once its guards have passed.
  unfoldable pub set_up : LockManager A → Handle → A → ℕ → ℕ → ℕ → M (LockManager A × LockResult)
  set_up manager shm algorithm max_locks node_count scan_interval_us = do
    let fresh = record manager {
      shm = shm;
      max_locks = max_locks;
      node_count = node_count;
      scan_interval_us = scan_interval_us;
      state_offset = 0;
    }
    (started, rc) ← alg.initialize algorithm shm 0 node_count
    if not (is_success rc)
        then pure (record fresh { algorithm = some started }, rc)
        else (if not acquire_manager_role
            then pure (record fresh { algorithm = some started; initialized = true }, success)
            else pure (
              record fresh { algorithm = some started; initialized = true; is_manager = true },
              success,
            ))

  unfoldable pub initialize :
      LockManager A → Handle → Option A → ℕ → ℕ → ℕ → M (LockManager A × LockResult)
  initialize manager nullptr algorithm max_locks node_count scan_interval_us =
      pure (manager, error_invalid_param)
  initialize manager region none max_locks node_count scan_interval_us =
      pure (manager, error_invalid_param)
  initialize manager region (some algorithm) max_locks node_count scan_interval_us =
      if max_locks == 0 || ltb max_lock_count max_locks
      then pure (manager, error_invalid_param)
      else (if node_count == 0 || ltb max_node_count node_count
          then pure (manager, error_invalid_param)
          else (if manager.initialized
              then pure (manager, error_unknown)
              else set_up manager region algorithm max_locks node_count scan_interval_us))

  -- The body of the loop of `run_single_scan`, for one lock: `any_work` and the statistics.
  unfoldable pub scan_lock : LockManager A → A → ℕ → Bool → Stats → M (Bool × Stats)
  scan_lock manager algorithm lid any_work stats = do
    grantee ← alg.check_grant algorithm lid manager.shm manager.state_offset manager.node_count
    if grantee == invalid_node_id then pure (any_work, stats) else (do
      rc ← alg.grant_lock algorithm grantee lid manager.shm manager.state_offset
      if is_success rc then pure (true, count_grant stats lid) else pure (any_work, stats))

  -- The loop, `left` rounds from `lid` on.
  unfoldable pub scan_locks : LockManager A → A → ℕ → ℕ → Bool → Stats → M (Bool × Stats)
  scan_locks manager algorithm lid zero any_work stats = pure (any_work, stats)
  scan_locks manager algorithm lid (suc left) any_work stats = do
    (work, counted) ← scan_lock manager algorithm lid any_work stats
    scan_locks manager algorithm (lid + 1) left work counted

  -- Without an algorithm no lock is managed, and a call through the null pointer is a fault.
  unfoldable pub scan_all : LockManager A → Option A → M (Bool × Stats)
  scan_all manager none = if manager.max_locks == 0 then pure (false, manager.stats) else fault
  scan_all manager (some algorithm) =
      scan_locks manager algorithm 0 manager.max_locks false manager.stats

  unfoldable pub run_single_scan : LockManager A → M (LockManager A)
  run_single_scan manager = do
    (any_work, stats) ← scan_all manager manager.algorithm
    pure (record manager { stats = count_scan stats any_work })

  -- The loop of `run`, where the flag is seen after `cycles` scans; `others` is what other nodes do to the
  -- memory before a scan, while the thread sleeps or waits to run.
  unfoldable pub run : (ℕ → Shm → Shm) → ℕ → LockManager A → M (LockManager A)
  run others zero manager = pure manager
  run others (suc cycles) manager = do
    disturbed (others cycles)
    scanned ← run_single_scan manager
    run others cycles scanned

unfoldable pub start : {A : Type 0} → LockManager A → LockManager A × LockResult
start manager =
    if not manager.initialized
    then (manager, error_lock_not_initialized)
    else (if manager.running
        then (manager, error_unknown)
        else (if not manager.is_manager then (manager, error_not_owner) else (
          record manager { stop_requested = false; running = true; worker_thread = true },
          success,
        )))

unfoldable pub stop : {A : Type 0} → LockManager A → LockManager A × LockResult
stop manager =
    if not manager.running
    then (manager, error_lock_not_initialized)
    else (record manager { stop_requested = true; worker_thread = false; running = false }, success)

unfoldable pub reset_stats : {A : Type 0} → LockManager A → LockManager A
reset_stats manager = record manager { stats = no_stats }
