-- ===== src/DistributedLock/Outcome.antt =====
-- How `initialize` of src/distributed_lock.cpp ends.
use cxl_dis_lock.Common.{
  ℕ, ◌≡◌, ◌≢◌, ◌⊎◌, inl, inr, arith, refl, ap, sym, subst, ◌∙◌, Bool, true, false, not,
  if◌then◌else◌, Option, none, some, Bool-cases,
}
use cxl_dis_lock.Types.{LockResult, is_success, success, error_unknown}
use cxl_dis_lock.Memory.{null_base, region}
use cxl_dis_lock.LocalLock.{LocalLockArray}
use cxl_dis_lock.LocalLock.Setup as Local
use cxl_dis_lock.Pool.{Pool}
use cxl_dis_lock.TwoTier.{TwoTierLock}
use cxl_dis_lock.TwoTier as Tier
use cxl_dis_lock.TwoTier.Setup as TierSetup
use cxl_dis_lock.DistributedLock.{
  Config, DistributedLockSystem, Platform, D, pure, ◌>>=◌, ◌>>◌, modify, on_memory,
}
use cxl_dis_lock.DistributedLock.Setup.{
  open_pool, dropped_locks, close_pool, destroy_locks, finish, run_manager, initialize_two_tier,
  build_locks, initialize_locks, build, choose, initialize,
}
use cxl_dis_lock.DistributedLock.Stages.{
  HasPool, HasLocks, IsStartable, Ends, bind-Ends, pure-Ends, on_memory-run,
}
use cxl_dis_lock.DistributedLock.Parts.{initialize_locks-Made, IsTier}
use cxl_dis_lock.DistributedLock.Starting.{initialize-IsTier}
use cxl_dis_lock.DistributedLock.Opening.{open_pool-run}
use cxl_dis_lock.DistributedLock.Undo.{Outcome, close_pool-Ends, destroy_locks-Ends}
use cxl_dis_lock.DistributedLock.Managing.{run_manager-Ends}

module _ {W A : Type 0} (p : Platform W A) (config : Config) (as_lock_manager : Bool) where
  module _ {Made : A → ℕ → Type 0} (a : A) (named : p.named config.lock_algorithm ≡ some a)
      (startable : IsStartable Made p.alg a config.shm_size) where
    -- What the call of the two-tier lock's `initialize` comes to.
    abbrev TierResult : LocalLockArray → Option (TwoTierLock A) × LockResult → Type 0
    TierResult locks (lock, rc) =
        ((rc ≡ success)
          × IsTier Made config.node_id config.max_locks config.max_nodes locks (some lock))
        ⊎ (is_success rc ≡ false)

    initialize_two_tier-run :
        (sys : DistributedLockSystem A) (w : W)
        → HasPool config.shm_size sys.pool
        → (made : HasLocks config.max_locks sys.local_locks) → sys.node_id ≡ config.node_id
        → (x : Option (TwoTierLock A) × LockResult) × (pool : Option Pool) × (w' : W)
          × (initialize_two_tier p config a (sys, w)
              ≡ some (x.1, (record sys { pool = pool; two_tier_lock = some x.0 }, w')))
          × HasPool config.shm_size pool
          × TierResult made.locks x
    initialize_two_tier-run sys w has made node =
        let call : Option LocalLockArray → ℕ → Tier.T W (Option (TwoTierLock A) × LockResult) =
          λ locks id. Tier.on_memory (
            TierSetup.initialize p.alg none id locks region (some a) 0 config.max_locks
              config.max_nodes) in
        let (x, pool, w', run, has', result) =
          on_memory-run (call (some made.locks) config.node_id) (TierResult made.locks)
            config.shm_size sys w has
            λ s opened same.
              let (lock, rc, t, e, opened', same', good) =
                initialize-IsTier p.alg a config.shm_size startable config.node_id made.locks
                  config.max_locks config.max_nodes s opened same in
              (
                (lock, rc),
                w,
                t,
                ap (λ o. elim o [ none ↦ none | some (y, u) ↦ some (y, (w, u)) ]) e,
                opened',
                same',
                good,
              ) in
        let same : on_memory (call sys.local_locks sys.node_id) (sys, w)
            ≡ on_memory (call (some made.locks) config.node_id) (sys, w) =
          ap (λ o. on_memory (call o sys.node_id) (sys, w)) made.at_locks
          ∙ ap (λ n. on_memory (call (some made.locks) n) (sys, w)) node in
        (
          x,
          pool,
          w',
          ap
              (λ o. elim o [
                | none ↦ none
                | some (y, (v, u)) ↦ some (y.1, (record v { two_tier_lock = some y.0 }, u))
              ])
              (same ∙ run),
          has',
          result,
        )

    build_locks-Ends :
        (sys : DistributedLockSystem A) (w : W)
        → HasPool config.shm_size sys.pool
        → HasLocks config.max_locks sys.local_locks
        → sys.node_id ≡ config.node_id
        → sys.initialized ≡ false
        → Ends
            (Outcome Made config as_lock_manager)
            (build_locks p config as_lock_manager a (sys, w))
    unfolding build_locks
    build_locks-Ends sys w has made node idle =
        let ((lock, rc), pool, w', run, has', result) =
          initialize_two_tier-run sys w has made node in
        let rest : LockResult → D W A LockResult = λ c.
          if not (is_success c)
          then (destroy_locks p >>= λ u. close_pool p >>= λ v. pure c)
          else if as_lock_manager
          then run_manager p config
          else finish p in
        let sys' : DistributedLockSystem A = record sys {
          pool = pool;
          two_tier_lock = some lock;
        } in
        bind-Ends (initialize_two_tier p config a) rest (sys, w) rc (sys', w') run
          (elim result [
            | inr bad ↦
                rw bad (destroy_locks-Ends p config as_lock_manager sys' w' rc has' made idle bad)
            | inl (ok, tier) ↦ elim (Bool-cases as_lock_manager) [
              | inl e ↦ rw (ap is_success ok) (
                  subst
                    (λ b.
                      Ends (Outcome Made config as_lock_manager)
                        ((if b then run_manager p config else finish p) (sys', w')))
                    (sym e)
                    (run_manager-Ends p config as_lock_manager a named startable sys' w' has' made
                      tier idle))
              | inr e ↦ rw (ap is_success ok) (
                  subst
                    (λ b.
                      Ends (Outcome Made config as_lock_manager)
                        ((if b then run_manager p config else finish p) (sys', w')))
                    (sym e)
                    (
                      success,
                      record sys' { initialized = true },
                      w',
                      refl,
                      inl (
                        refl,
                        record {
                          ready = refl;
                          pool = has';
                          locks = made;
                          tier = tier;
                          manager = λ h. absurd (ground (arith, e, h));
                        },
                      ),
                    ))
            ]
          ])

    build-Ends :
        (sys : DistributedLockSystem A) (w : W)
        → HasPool config.shm_size sys.pool
        → sys.node_id ≡ config.node_id
        → sys.initialized ≡ false
        → Ends (Outcome Made config as_lock_manager) (build p config as_lock_manager a (sys, w))
    unfolding build
    build-Ends sys w has node idle =
        let w₀ = dropped_locks p sys.local_locks w in
        let ((locks, rc), w') = Local.initialize p.setup Local.new_locks config.max_locks w₀ in
        let sys₀ : DistributedLockSystem A = record sys {
          algorithm = some a;
          local_locks = some Local.new_locks;
        } in
        let sys' : DistributedLockSystem A = record sys {
          algorithm = some a;
          local_locks = some locks;
        } in
        let rest : LockResult → D W A LockResult = λ c.
          if not (is_success c)
          then (close_pool p >>= λ u. pure c)
          else build_locks p config as_lock_manager a in
        bind-Ends (initialize_locks p config.max_locks) rest (sys₀, w₀) rc (sys', w') refl
          (elim (initialize_locks-Made p.setup config.max_locks w₀) [
            | inr bad ↦ rw bad (close_pool-Ends p config as_lock_manager sys' w' rc has idle bad)
            | inl (ok, ready, count) ↦ rw (ap is_success ok) (
                build_locks-Ends sys' w' has
                  (record { locks = locks; at_locks = refl; ready = ready; count = count }) node
                  idle)
          ])

  module _
      (nonnull : (fd size : ℕ) (sync : Bool) (w : W) → (p.os.mmap fd size sync w).0 ≢ null_base)
      (pos : config.shm_size ≢ 0) where
    -- A system that is not initialized, with a name of an algorithm, a size other than zero, an
    -- algorithm whose `initialize` returns on an open region of that size and keeps it so, and no
    -- mapping that is a null pointer: `initialize` returns, whatever the calls of the system
    -- answer. It ends in success, with the pool open, the local locks and the two-tier lock over
    -- them ready, and on a manager node the manager running; or in an error, with a system that
    -- is not initialized and a pool that is closed.
    pub initialize-Outcome :
        {Made : A → ℕ → Type 0} (a : A) (sys : DistributedLockSystem A) (w : W)
        → p.named config.lock_algorithm ≡ some a
        → IsStartable Made p.alg a config.shm_size
        → sys.initialized ≡ false
        → Ends (Outcome Made config as_lock_manager) (initialize p config as_lock_manager (sys, w))
    unfolding initialize choose
    initialize-Outcome {Made} a sys w named startable idle =
        let sys₀ : DistributedLockSystem A = record sys {
          config = config;
          node_id = config.node_id;
          is_lock_manager = as_lock_manager;
        } in
        let (rc, pool, w', run, o) = open_pool-run p nonnull config sys₀ w pos in
        let sys' : DistributedLockSystem A = record sys₀ { pool = pool } in
        let rest : LockResult → D W A LockResult =
          λ c. if not (is_success c) then pure c else choose p config as_lock_manager in
        let start_up : D W A LockResult =
          modify (λ t. record t {
            config = config;
            node_id = config.node_id;
            is_lock_manager = as_lock_manager;
          })
          >> (open_pool p config >>= rest) in
        subst
          (λ b.
            Ends (Outcome Made config as_lock_manager)
              ((if b then pure error_unknown else start_up) (sys, w)))
          (sym idle)
          (bind-Ends (open_pool p config) rest (sys₀, w) rc (sys', w') run
            (elim o [
              | inl (ok, has) ↦
                  rw (ap is_success ok)
                    (rw (named, choose) (build-Ends a named startable sys' w' has refl idle))
              | inr (bad, shut) ↦
                  rw (ap is_success bad)
                    (pure-Ends rc sys' w' (inr (ap is_success bad, idle, shut)))
            ]))
