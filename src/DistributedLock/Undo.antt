-- ===== src/DistributedLock/Undo.antt =====
-- How `initialize` of src/distributed_lock.cpp may end, and its error paths.
use cxl_dis_lock.Common.{ℕ, ◌≡◌, ◌⊎◌, inr, refl, Bool, true, false, none, some}
use cxl_dis_lock.Types.{LockResult, is_success, success}
use cxl_dis_lock.LocalLock.Setup as Local
use cxl_dis_lock.Pool.{close}
use cxl_dis_lock.TwoTier.Setup as TierSetup
use cxl_dis_lock.LockManager.{LockManager}
use cxl_dis_lock.DistributedLock.{Config, DistributedLockSystem, Platform, pure, ◌>>=◌}
use cxl_dis_lock.DistributedLock.Setup.{close_pool, destroy_locks, shutdown_two_tier, undo}
use cxl_dis_lock.DistributedLock.Stages.{HasPool, IsShut, HasLocks, Ends, bind-Ends, pure-Ends}
use cxl_dis_lock.DistributedLock.Parts.{IsTier, IsEquipped}
use cxl_dis_lock.DistributedLock.Opening.{close-shut}

-- Every part is there and ready.
pub record IsRunning {A : Type 0} (Made : A → ℕ → Type 0) (config : Config) (as_lock_manager : Bool)
    (sys : DistributedLockSystem A) : Type 0 where
  pub ready : sys.initialized ≡ true
  pub pool : HasPool config.shm_size sys.pool
  pub locks : HasLocks config.max_locks sys.local_locks
  pub tier :
      IsTier Made config.node_id config.max_locks config.max_nodes locks.locks sys.two_tier_lock
  pub manager :
      as_lock_manager ≡ true
      → (sys.lock_manager_started ≡ true)
        × ((manager : LockManager A) × (sys.lock_manager ≡ some manager)
            × (manager.running ≡ true)
            × IsEquipped Made config.max_locks config.max_nodes manager)

-- Success with a running system, or an error with a system that is not initialized and a pool that is closed.
abbrev pub Outcome :
    {A : Type 0} → (A → ℕ → Type 0) → Config → Bool → LockResult → DistributedLockSystem A → Type 0
Outcome Made config as_lock_manager rc sys =
    ((rc ≡ success) × IsRunning Made config as_lock_manager sys)
    ⊎ ((is_success rc ≡ false) × (sys.initialized ≡ false) × IsShut sys.pool)

module _ {W A : Type 0} {Made : A → ℕ → Type 0} (p : Platform W A) (config : Config)
    (as_lock_manager : Bool) where
  pub close_pool-Ends :
      (sys : DistributedLockSystem A) (w : W) (rc : LockResult)
      → HasPool config.shm_size sys.pool
      → sys.initialized ≡ false
      → is_success rc ≡ false
      → Ends (Outcome Made config as_lock_manager) ((close_pool p >>= λ u. pure rc) (sys, w))
  close_pool-Ends sys w rc has idle bad =
      let (pool', w') = close p.os has.pool w in
      bind-Ends (close_pool p) (λ u. pure rc) (sys, w) tt (record sys { pool = some pool' }, w')
        (rw has.at_pool refl)
        (pure-Ends rc _ w' (
          inr (
            bad,
            idle,
            record { pool = pool'; at_pool = refl; shut = close-shut p.os has.pool w },
          )))

  -- A failure after the local locks were made.
  pub destroy_locks-Ends :
      (sys : DistributedLockSystem A) (w : W) (rc : LockResult)
      → HasPool config.shm_size sys.pool
      → HasLocks config.max_locks sys.local_locks
      → sys.initialized ≡ false
      → is_success rc ≡ false
      → Ends
          (Outcome Made config as_lock_manager)
          ((destroy_locks p >>= λ u. close_pool p >>= λ v. pure rc) (sys, w))
  destroy_locks-Ends sys w rc has made idle bad =
      let (locks', w') = Local.destroy p.setup made.locks w in
      bind-Ends (destroy_locks p) (λ u. close_pool p >>= λ v. pure rc) (sys, w) tt
        (record sys { local_locks = some locks' }, w') (rw made.at_locks refl)
        (close_pool-Ends (record sys { local_locks = some locks' }) w' rc has idle bad)

  pub undo-Ends :
      (sys : DistributedLockSystem A) (w : W) (rc : LockResult)
      → (has : HasPool config.shm_size sys.pool) (made : HasLocks config.max_locks sys.local_locks)
      → IsTier Made config.node_id config.max_locks config.max_nodes made.locks sys.two_tier_lock
      → sys.initialized ≡ false
      → is_success rc ≡ false
      → Ends (Outcome Made config as_lock_manager) (undo p rc (sys, w))
  unfolding TierSetup.shutdown
  undo-Ends sys w rc has made tier idle bad =
      bind-Ends (shutdown_two_tier p) (λ x. destroy_locks p >>= λ u. close_pool p >>= λ v. pure rc)
        (sys, w) tt (record sys { two_tier_lock = some none }, w) (rw tier.at_tier refl)
        (destroy_locks-Ends (record sys { two_tier_lock = some none }) w rc has made idle bad)
