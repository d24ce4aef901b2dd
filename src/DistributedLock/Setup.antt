-- ===== src/DistributedLock/Setup.antt =====
-- `initialize` and `shutdown` of src/distributed_lock.cpp.
use cxl_dis_lock.Common.{
  ℕ, Bool, true, false, not, ◌&&◌, if◌then◌else◌, Option, none, some, ◌*◌, codes,
}
use cxl_dis_lock.Types.{
  software_consistency, LockResult, is_success, success, error_invalid_param, error_unknown,
  invalid_node_id,
}
use cxl_dis_lock.Memory.{region}
use cxl_dis_lock.LocalLock.{LocalLockArray}
use cxl_dis_lock.LocalLock.Setup as Local
use cxl_dis_lock.Pool.{Pool, new_pool, open_device, open_file_backed, close}
use cxl_dis_lock.TwoTier as Tier
use cxl_dis_lock.TwoTier.{TwoTierLock}
use cxl_dis_lock.TwoTier.Setup as TierSetup
use cxl_dis_lock.LockManager.{LockManager, new_manager, start, stop}
use cxl_dis_lock.LockManager as Manager
use cxl_dis_lock.DistributedLock.{
  Config, DistributedLockSystem, Platform, D, pure, ◌>>=◌, ◌>>◌, modify, fields, on_pool, on_memory,
}

-- `Config{}` and a new object.
abbrev pub default_config : Config
default_config = record {
  shm_device_path = codes "/dev/dax0.0";
  shm_size = 64 * 1024 * 1024;
  max_nodes = 16;
  max_locks = 256;
  lock_algorithm = codes "cas";
  node_id = 0;
  consistency_mode = software_consistency;
  lock_manager_scan_interval_us = 100;
  use_file_backed_shm = false;
  shm_backing_file = codes "/tmp/cxl_distributed_lock.shm";
}

abbrev pub new_system : {A : Type 0} → DistributedLockSystem A
new_system = record {
  pool = none;
  local_locks = none;
  two_tier_lock = none;
  lock_manager = none;
  algorithm = none;
  config = default_config;
  node_id = invalid_node_id;
  is_lock_manager = false;
  initialized = false;
  lock_manager_started = false;
}

abbrev pub has : {A : Type 0} → Option A → Bool
has none = false
has (some x) = true

module _ {W A : Type 0} (p : Platform W A) where
  -- What the destructors of the objects that a pointer is taken from do.
  abbrev pub dropped_pool : Option Pool → W → W
  dropped_pool none w = w
  dropped_pool (some pool) w = (close p.os pool w).1

  abbrev pub dropped_locks : Option LocalLockArray → W → W
  dropped_locks none w = w
  dropped_locks (some locks) w = (Local.destroy p.setup locks w).1

  abbrev pub reset_pool : Option Pool → D W A (Unit {0})
  reset_pool pool (sys, w) = some (tt, (record sys { pool = pool }, dropped_pool sys.pool w))

  abbrev pub reset_locks : Option LocalLockArray → D W A (Unit {0})
  reset_locks locks (sys, w) =
      some (tt, (record sys { local_locks = locks }, dropped_locks sys.local_locks w))

  -- `pool_->close()` and `local_locks_->destroy()`
  abbrev pub close_pool : D W A (Unit {0})
  close_pool (sys, w) = elim sys.pool [
    | none ↦ none
    | some pool ↦
        let (pool', w') = close p.os pool w in some (tt, (record sys { pool = some pool' }, w'))
  ]

  abbrev pub destroy_locks : D W A (Unit {0})
  destroy_locks (sys, w) = elim sys.local_locks [
    | none ↦ none
    | some locks ↦
        let (locks', w') = Local.destroy p.setup locks w in
        some (tt, (record sys { local_locks = some locks' }, w'))
  ]

  abbrev pub shutdown_two_tier : D W A (Unit {0})
  shutdown_two_tier (sys, w) = elim sys.two_tier_lock [
    | none ↦ none
    | some lock ↦ some (tt, (record sys { two_tier_lock = some (TierSetup.shutdown lock) }, w))
  ]

  -- Step 1.
  unfoldable pub open_pool : Config → D W A LockResult
  open_pool config = do
    reset_pool (some new_pool)
    let file_backed = on_pool λ pool.
        open_file_backed p.os pool config.shm_backing_file config.shm_size config.consistency_mode
    if config.use_file_backed_shm then file_backed else (do
      rc ← on_pool λ pool.
          open_device p.os pool config.shm_device_path config.shm_size config.consistency_mode
      if is_success rc then pure rc else file_backed)

  abbrev pub finish : D W A LockResult
  finish = do modify λ sys. record sys { initialized = true }; pure success

  -- What a failure after the two-tier lock is initialized does.
  abbrev pub undo : LockResult → D W A LockResult
  undo rc = do shutdown_two_tier; destroy_locks; close_pool; pure rc

  -- `lock_manager_->initialize` and `lock_manager_->start`
  abbrev pub initialize_manager : Config → A → D W A LockResult
  initialize_manager config algorithm = do
    (manager, rc) ← on_memory (
        Tier.on_memory (
          Manager.initialize p.alg new_manager region (some algorithm) config.max_locks
            config.max_nodes config.lock_manager_scan_interval_us))
    modify λ sys. record sys { lock_manager = some manager }
    pure rc

  abbrev pub start_manager : D W A LockResult
  start_manager (sys, w) = elim sys.lock_manager [
    | none ↦ none
    | some manager ↦
        let (manager', rc) = start manager in
        some (rc, (record sys { lock_manager = some manager' }, w))
  ]

  -- Step 5.
  unfoldable pub run_manager : Config → D W A LockResult
  run_manager config = elim (p.named config.lock_algorithm) [
    | none ↦ do
      modify λ sys. record sys { lock_manager = some new_manager }
      pure error_invalid_param
    | some algorithm ↦ do
      rc ← initialize_manager config algorithm
      if not (is_success rc) then undo rc else (do
        started ← start_manager
        if not (is_success started)
            then undo started
            else (do modify λ sys. record sys { lock_manager_started = true }; finish))
  ]

  -- Step 4.
  abbrev pub initialize_two_tier : Config → A → D W A LockResult
  initialize_two_tier config algorithm = do
    sys ← fields
    (lock, rc) ← on_memory (
        Tier.on_memory (
          TierSetup.initialize p.alg none sys.node_id sys.local_locks region (some algorithm) 0
            config.max_locks config.max_nodes))
    modify λ t. record t { two_tier_lock = some lock }
    pure rc

  unfoldable pub build_locks : Config → Bool → A → D W A LockResult
  build_locks config as_lock_manager algorithm = do
    rc ← initialize_two_tier config algorithm
    if not (is_success rc)
        then (do destroy_locks; close_pool; pure rc)
        else if as_lock_manager
        then run_manager config
        else finish

  -- Step 3.
  abbrev pub initialize_locks : ℕ → D W A LockResult
  initialize_locks lock_count (sys, w) = elim sys.local_locks [
    | none ↦ none
    | some locks ↦
        let ((locks', rc), w') = Local.initialize p.setup locks lock_count w in
        some (rc, (record sys { local_locks = some locks' }, w'))
  ]

  unfoldable pub build : Config → Bool → A → D W A LockResult
  build config as_lock_manager algorithm = do
    modify λ sys. record sys { algorithm = some algorithm }
    reset_locks (some Local.new_locks)
    rc ← initialize_locks config.max_locks
    if not (is_success rc)
        then (do close_pool; pure rc)
        else build_locks config as_lock_manager algorithm

  -- Step 2.
  unfoldable pub choose : Config → Bool → D W A LockResult
  choose config as_lock_manager = elim (p.named config.lock_algorithm) [
    | none ↦ pure error_invalid_param
    | some algorithm ↦ build config as_lock_manager algorithm
  ]

  unfoldable pub initialize : Config → Bool → D W A LockResult
  initialize config as_lock_manager = do
    sys ← fields
    if sys.initialized then pure error_unknown else (do
      modify λ t. record t {
        config = config;
        node_id = config.node_id;
        is_lock_manager = as_lock_manager;
      }
      rc ← open_pool config
      if not (is_success rc) then pure rc else choose config as_lock_manager)

  abbrev pub stopped : Bool → Option (LockManager A) → Option (LockManager A)
  stopped started none = none
  stopped started (some manager) = if started then some (stop manager).0 else some manager

  -- The order of the resets is that of the source; each of them drops an object.
  unfoldable pub shutdown : D W A (Unit {0})
  shutdown = do
    sys ← fields
    if not sys.initialized then pure tt else (do
      modify λ t. record t {
        lock_manager = stopped t.lock_manager_started t.lock_manager;
        lock_manager_started = t.lock_manager_started && not (has t.lock_manager);
      }
      modify λ t. record t { two_tier_lock = none }
      reset_locks none
      modify λ t. record t { algorithm = none }
      reset_pool none
      modify λ t. record t { lock_manager = none; initialized = false })
