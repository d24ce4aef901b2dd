-- ===== src/DistributedLock/Managing.antt =====
-- Step 5 of `initialize` of src/distributed_lock.cpp, which starts the lock manager.
use cxl_dis_lock.Common.{
  ℕ, ◌≡◌, ◌⊎◌, inl, inr, refl, ap, Bool, true, false, not, if◌then◌else◌, Option, none, some,
}
use cxl_dis_lock.Types.{LockResult, is_success, success}
use cxl_dis_lock.Memory.{region}
use cxl_dis_lock.Pool.{Pool}
use cxl_dis_lock.TwoTier.{TwoTierLock}
use cxl_dis_lock.TwoTier as Tier
use cxl_dis_lock.LockManager.{LockManager, new_manager, start}
use cxl_dis_lock.LockManager as Manager
use cxl_dis_lock.DistributedLock.{Config, DistributedLockSystem, Platform, D, ◌>>=◌, ◌>>◌, modify}
use cxl_dis_lock.DistributedLock.Setup.{
  undo, finish, initialize_manager, start_manager, run_manager,
}
use cxl_dis_lock.DistributedLock.Stages.{
  HasPool, HasLocks, IsStartable, Ends, bind-Ends, on_memory-run,
}
use cxl_dis_lock.DistributedLock.Parts.{IsTier, IsEquipped}
use cxl_dis_lock.DistributedLock.Starting.{initialize_manager-run, start-run}
use cxl_dis_lock.DistributedLock.Undo.{Outcome, undo-Ends}

module _ {W A : Type 0} (p : Platform W A) (config : Config) (as_lock_manager : Bool) where
  abbrev started : LockResult → D W A LockResult
  started rc =
      if not (is_success rc)
      then undo p rc
      else (do modify λ sys. record sys { lock_manager_started = true }; finish p)

  module _ {Made : A → ℕ → Type 0} (a : A) (named : p.named config.lock_algorithm ≡ some a)
      (startable : IsStartable Made p.alg a config.shm_size) where
    start_manager-Ends :
        (sys : DistributedLockSystem A) (w : W) (manager : LockManager A)
        → (has : HasPool config.shm_size sys.pool)
          (made : HasLocks config.max_locks sys.local_locks)
        → IsTier Made config.node_id config.max_locks config.max_nodes made.locks sys.two_tier_lock
        → sys.lock_manager ≡ some manager
        → manager.initialized ≡ true
        → manager.is_manager ≡ true
        → manager.running ≡ false
        → IsEquipped Made config.max_locks config.max_nodes manager
        → Ends (Outcome Made config as_lock_manager) ((start_manager p >>= started) (sys, w))
    start_manager-Ends sys w manager has made tier at_manager ready role idle set =
        let result = start-run manager ready role idle set in
        let manager' = (start manager).0 in
        bind-Ends (start_manager p) started (sys, w) success
          (record sys { lock_manager = some manager' }, w)
          (rw at_manager
            (ap (λ rc. some (rc, (record sys { lock_manager = some manager' }, w))) result.0))
          (
            success,
            record sys {
              lock_manager = some manager';
              lock_manager_started = true;
              initialized = true;
            },
            w,
            refl,
            inl (
              refl,
              record {
                ready = refl;
                pool = has;
                locks = made;
                tier = tier;
                manager = λ h. (refl, (manager', refl, result.1, result.2));
              },
            ),
          )

    -- What the call of the manager's `initialize` comes to.
    abbrev ManagerResult : LockManager A × LockResult → Type 0
    ManagerResult (manager, rc) =
        ((rc ≡ success)
          × (manager.initialized ≡ true)
          × (manager.is_manager ≡ true)
          × (manager.running ≡ false)
          × IsEquipped Made config.max_locks config.max_nodes manager)
        ⊎ (is_success rc ≡ false)

    manager_run :
        (sys : DistributedLockSystem A) (w : W)
        → HasPool config.shm_size sys.pool
        → (x : LockManager A × LockResult) × (pool : Option Pool) × (w' : W) × (initialize_manager p
              config a
              (sys, w)
            ≡ some (x.1, (record sys { pool = pool; lock_manager = some x.0 }, w')))
          × HasPool config.shm_size pool
          × ManagerResult x
    manager_run sys w has =
        let m : Tier.T W (LockManager A × LockResult) = Tier.on_memory (
          Manager.initialize p.alg new_manager region (some a) config.max_locks config.max_nodes
            config.lock_manager_scan_interval_us) in
        let (x, pool, w', run, has', result) =
          on_memory-run m ManagerResult config.shm_size sys w has λ s opened same.
            let (manager, rc, t, e, opened', same', good) =
              initialize_manager-run p.alg a config.shm_size startable config.max_locks
                config.max_nodes config.lock_manager_scan_interval_us s opened same in
            (
              (manager, rc),
              w,
              t,
              ap (λ o. elim o [ none ↦ none | some (y, u) ↦ some (y, (w, u)) ]) e,
              opened',
              same',
              good,
            ) in
        (
          x,
          pool,
          w',
          ap
              (λ o. elim o [
                | none ↦ none
                | some (y, (v, u)) ↦ some (y.1, (record v { lock_manager = some y.0 }, u))
              ])
              run,
          has',
          result,
        )

    pub run_manager-Ends :
        (sys : DistributedLockSystem A) (w : W)
        → (has : HasPool config.shm_size sys.pool)
          (made : HasLocks config.max_locks sys.local_locks)
        → IsTier Made config.node_id config.max_locks config.max_nodes made.locks sys.two_tier_lock
        → sys.initialized ≡ false
        → Ends (Outcome Made config as_lock_manager) (run_manager p config (sys, w))
    unfolding run_manager
    run_manager-Ends sys w has made tier idle =
        let ((manager, rc), pool, w', run, has', result) = manager_run sys w has in
        let rest : LockResult → D W A LockResult =
          λ c. if not (is_success c) then undo p c else (start_manager p >>= started) in
        let sys' : DistributedLockSystem A = record sys {
          pool = pool;
          lock_manager = some manager;
        } in
        rw (named, run_manager)
          (bind-Ends (initialize_manager p config a) rest (sys, w) rc (sys', w') run
            (elim result [
              | inl (ok, ready, role, unstarted, set) ↦
                  rw (ap is_success ok) (
                    start_manager-Ends sys' w' manager has' made tier refl ready role unstarted set)
              | inr bad ↦
                  rw bad (undo-Ends p config as_lock_manager sys' w' rc has' made tier idle bad)
            ]))
