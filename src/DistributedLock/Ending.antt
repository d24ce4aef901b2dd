-- ===== src/DistributedLock/Ending.antt =====
-- `initialize` with an unknown algorithm, `shutdown` and the locks of data keys of src/distributed_lock.cpp.
use cxl_dis_lock.Common.{
  ℕ, ◌<◌, ◌^◌, ◌%◌, ◌≡◌, ◌≢◌, ◌⊎◌, inl, inr, arith, refl, ap, sym, subst, Bool, true, false, not,
  ◌&&◌, if◌then◌else◌, none, some, Bytes,
}
use cxl_dis_lock.Types.{
  LockResult, is_success, error_invalid_param, error_shm_failure, error_unknown,
  error_lock_not_initialized, u32,
}
use cxl_dis_lock.Memory.{null_base}
use cxl_dis_lock.TwoTier.Setup.{hash_bytes, lock_of_hash, hash_data_to_lock_id}
use cxl_dis_lock.DistributedLock.{
  Config, DistributedLockSystem, Platform, D, pure, ◌>>=◌, ◌>>◌, modify,
}
use cxl_dis_lock.DistributedLock.Setup.{
  open_pool, choose, initialize, shutdown, has, dropped_pool, dropped_locks,
}
use cxl_dis_lock.DistributedLock.Calls.{
  acquire_lock, release_lock, try_lock, get_data_lock_id, acquire_data_lock, release_data_lock,
}
use cxl_dis_lock.DistributedLock.Stages.{HasPool, IsShut, Ends, bind-Ends, pure-Ends, bind-eq}
use cxl_dis_lock.DistributedLock.Opening.{open_pool-run}

module _ {W A : Type 0} (p : Platform W A) where
  -- A system that is not initialized, with a closed pool or with one that stays open.
  abbrev pub Misconfigured : ℕ → LockResult → DistributedLockSystem A → Type 0
  Misconfigured size rc t =
      (t.initialized ≡ false)
      × (((rc ≡ error_shm_failure) × IsShut t.pool)
          ⊎ ((rc ≡ error_invalid_param)
              × HasPool size t.pool
              × ((v : W) → shutdown p (t, v) ≡ some (tt, (t, v)))))

  -- On a system that is not initialized, with a name that no algorithm has, a size other than
  -- zero, and no mapping that is a null pointer, `initialize` returns. Where the pool cannot be
  -- opened this is ERROR_SHM_FAILURE; otherwise ERROR_INVALID_PARAM, and the pool stays open
  -- though the system is not initialized, so that `shutdown` does not close it.
  pub initialize_unknown :
      ((fd size : ℕ) (sync : Bool) (w : W) → (p.os.mmap fd size sync w).0 ≢ null_base)
      → (config : Config) (as_lock_manager : Bool) (sys : DistributedLockSystem A) (w : W)
      → config.shm_size ≢ 0
      → p.named config.lock_algorithm ≡ none
      → sys.initialized ≡ false
      → Ends (Misconfigured config.shm_size) (initialize p config as_lock_manager (sys, w))
  unfolding initialize choose shutdown
  initialize_unknown nonnull config as_lock_manager sys w pos unnamed idle =
      let sys₀ : DistributedLockSystem A = record sys {
        config = config;
        node_id = config.node_id;
        is_lock_manager = as_lock_manager;
      } in
      let (rc, pool, w', run, o) = open_pool-run p nonnull config sys₀ w pos in
      let sys' : DistributedLockSystem A = record sys₀ { pool = pool } in
      let rest : LockResult → D W A LockResult =
        λ c. if not (is_success c) then pure c else choose p config as_lock_manager in
      let start_up : D W A LockResult =
        modify (λ t. record t {
          config = config;
          node_id = config.node_id;
          is_lock_manager = as_lock_manager;
        })
        >> (open_pool p config >>= rest) in
      subst
        (λ b.
          Ends (Misconfigured config.shm_size)
            ((if b then pure error_unknown else start_up) (sys, w)))
        (sym idle)
        (bind-Ends (open_pool p config) rest (sys₀, w) rc (sys', w') run
          (elim o [
            | inr (bad, shut) ↦
                rw (ap is_success bad) (pure-Ends rc sys' w' (idle, inl (bad, shut)))
            | inl (ok, has) ↦ rw (ap is_success ok) (
                rw (unnamed, choose)
                  (pure-Ends error_invalid_param sys' w'
                    (idle, inr (refl, has, λ v. rw idle refl))))
          ]))

  -- The system has no parts, and refuses every lock operation.
  abbrev pub Stopped : Unit {0} → DistributedLockSystem A → Type 0
  Stopped x t =
      (t.pool ≡ none)
      × (t.local_locks ≡ none)
      × (t.two_tier_lock ≡ none)
      × (t.lock_manager ≡ none)
      × (t.algorithm ≡ none)
      × ((rounds lock_id timeout_ms : ℕ) (v : W)
          → (acquire_lock p rounds lock_id timeout_ms (t, v)
              ≡ some (error_lock_not_initialized, (t, v)))
            × (release_lock p lock_id (t, v) ≡ some (error_lock_not_initialized, (t, v)))
            × (try_lock p rounds lock_id (t, v) ≡ some (error_lock_not_initialized, (t, v))))

  -- `shutdown` returns. A system that is initialized loses all its parts, so that every later call of a
  -- lock operation answers ERROR_LOCK_NOT_INITIALIZED and changes nothing.
  pub shutdown-Refuses :
      (sys : DistributedLockSystem A) (w : W)
      → sys.initialized ≡ true
      → Ends Stopped (shutdown p (sys, w))
  unfolding shutdown acquire_lock release_lock try_lock
  shutdown-Refuses sys w ready =
      let t : DistributedLockSystem A = record sys {
        pool = none;
        local_locks = none;
        two_tier_lock = none;
        lock_manager = none;
        algorithm = none;
        lock_manager_started = sys.lock_manager_started && not (has sys.lock_manager);
        initialized = false;
      } in
      (
        tt,
        t,
        dropped_pool p sys.pool (dropped_locks p sys.local_locks w),
        simp ready refl,
        (refl, refl, refl, refl, refl, λ rounds lock_id timeout_ms v. (refl, refl, refl)),
      )

  -- `get_data_lock_id` on a system, from the lock that the hash stands for, and what follows it.
  found :
      (sys : DistributedLockSystem A) (w : W) (key : Bytes) (lid : ℕ) (f : ℕ → D W A LockResult)
      → hash_data_to_lock_id key sys.config.max_locks ≡ some lid
      → (get_data_lock_id p key >>= f) (sys, w) ≡ f lid (sys, w)
  unfolding get_data_lock_id
  found sys w key lid f e =
      bind-eq (get_data_lock_id p key) f (sys, w) (sys, w) lid
        (ap (λ o. elim o [ none ↦ none | some l ↦ some (l, (sys, w)) ]) e)

  faults :
      (sys : DistributedLockSystem A) (w : W) (key : Bytes) (f : ℕ → D W A LockResult)
      → hash_data_to_lock_id key sys.config.max_locks ≡ none
      → (get_data_lock_id p key >>= f) (sys, w) ≡ none
  unfolding get_data_lock_id
  faults sys w key f e =
      let nothing : get_data_lock_id p key (sys, w) ≡ none =
        ap (λ o. elim o [ none ↦ none | some l ↦ some (l, (sys, w)) ]) e in
      ap (λ o. elim o [ none ↦ none | some (x, t) ↦ f x t ]) nothing

  -- With a number of locks from 1 to 2^32 - 1, a data key stands for one lock below that number: the calls of
  -- `acquire_data_lock` and `release_data_lock` are those of the lock. With a number of zero both fault, also on
  -- a system that is not initialized.
  pub data_lock-Agrees :
      (sys : DistributedLockSystem A) (key : Bytes)
      → sys.config.max_locks < 2 ^ 32
      → ((sys.config.max_locks ≢ 0)
          → (lid : ℕ) × (lid < sys.config.max_locks)
            × ((rounds timeout_ms : ℕ) (w : W)
                → acquire_data_lock p rounds key timeout_ms (sys, w)
                  ≡ acquire_lock p rounds lid timeout_ms (sys, w))
            × ((w : W) → release_data_lock p key (sys, w) ≡ release_lock p lid (sys, w)))
        × (sys.config.max_locks ≡ 0
            → (rounds timeout_ms : ℕ) (w : W)
            → (acquire_data_lock p rounds key timeout_ms (sys, w) ≡ none)
              × (release_data_lock p key (sys, w) ≡ none))
  unfolding acquire_data_lock release_data_lock get_data_lock_id hash_data_to_lock_id lock_of_hash
  data_lock-Agrees sys key small =
      let n = sys.config.max_locks in
      let h = hash_bytes 14695981039346656037 key in
      (
        λ some_locks.
            let e : hash_data_to_lock_id key n ≡ some (u32 (h % n)) = ground (arith, some_locks) in
            (
              u32 (h % n),
              omega (arith, small, some_locks),
              (λ rounds timeout_ms w.
                  found sys w key (u32 (h % n)) (λ lid. acquire_lock p rounds lid timeout_ms) e),
              λ w. found sys w key (u32 (h % n)) (release_lock p) e,
            ),
        λ no_locks rounds timeout_ms w.
            let e : hash_data_to_lock_id key n ≡ none = ground (arith, no_locks) in
            (
              faults sys w key (λ lid. acquire_lock p rounds lid timeout_ms) e,
              faults sys w key (release_lock p) e,
            ),
      )
