-- ===== src/DistributedLock/Locking.antt =====
-- `acquire_lock` and `release_lock` of src/distributed_lock.cpp on a system that runs with one of the
-- algorithms without a queue.
use cxl_dis_lock.Common.{
  ℕ, ◌^◌, ◌*◌, ◌≤◌, ◌<◌, ◌≡◌, arith, ap, ◌∙◌, Bool, true, false, ◌==◌, if◌then◌else◌, Option, some,
}
use cxl_dis_lock.Types.{LockResult, is_success, max_lock_count}
use cxl_dis_lock.Memory.{Shm, IsOpen}
use cxl_dis_lock.Region.{Os}
use cxl_dis_lock.LocalLock.{Mutexes, lacks}
use cxl_dis_lock.LocalLock.Setup.{MutexSetup}
use cxl_dis_lock.Pool.{Pool}
use cxl_dis_lock.TwoTier.{TwoTierLock}
use cxl_dis_lock.TwoTier as Tier
use cxl_dis_lock.LocalLock.Ownership.{IsOwned}
use cxl_dis_lock.TwoTier.Balance.{Answers, acquire-Balanced, release-Balanced}
use cxl_dis_lock.TwoTier.Polling.{poll_for_grant-Ends}
use cxl_dis_lock.AnyLock.{AnyLock, any_algorithm, any_is_granted}
use cxl_dis_lock.AnyLock.Answers.{
  is_queueless, any_acquire_lock-Returns, any_release_lock-Returns, any_is_granted-run,
}
use cxl_dis_lock.DistributedLock.{Config, DistributedLockSystem, Platform, D}
use cxl_dis_lock.DistributedLock.Calls.{acquire_lock, release_lock}
use cxl_dis_lock.DistributedLock.Guarded.{Keeps, guarded-eq}
use cxl_dis_lock.DistributedLock.Stages.{HasPool, on_memory-runs}
use cxl_dis_lock.DistributedLock.Undo.{IsRunning}
use cxl_dis_lock.DistributedLock.Startable.{SetUp, with_algorithms}

module _ {W : Type 0} (os : Os W) (setup : MutexSetup W) (pthread : Mutexes W)
    (others : ℕ → Shm → Shm) (elapsed_ms : ℕ → ℕ) (rounds : ℕ) {held : W → ℕ → Bool}
    (owns : IsOwned pthread held) (kept : Keeps others) (config : Config)
    (room : 4096 * 64 ≤ config.shm_size) (small : config.shm_size < 2 ^ 64) (as_lock_manager : Bool)
    (a : AnyLock) (queueless : is_queueless a ≡ true) where
  abbrev p : Platform W AnyLock
  p = with_algorithms os setup pthread others elapsed_ms rounds

  abbrev Inv : Shm → Type 0
  Inv s = IsOpen s × (s.size ≡ config.shm_size)

  module _ (sys : DistributedLockSystem AnyLock)
      (running : IsRunning (SetUp a) config as_lock_manager sys)
      (known : config.node_id < config.max_nodes) (l : ℕ) (hl : l < config.max_locks) where
    abbrev lock : TwoTierLock AnyLock
    lock = running.tier.tier

    node-lt : lock.node_id < lock.node_count
    node-lt = ground (arith, running.tier.node, running.tier.nodes, known)

    lock-lt : l < max_lock_count
    lock-lt = omega (arith, hl, running.tier.few)

    usable : lacks lock.local_locks l ≡ false
    usable =
        ap (λ x. lacks x l) running.tier.over
        ∙ ground (arith, running.locks.ready, running.locks.count, hl)

    requests :
        (s : Shm)
        → Inv s
        → (rc : LockResult) × (t : Shm) × ((any_algorithm rounds).acquire_lock lock.algorithm
              lock.node_id l lock.shm lock.state_offset s
            ≡ some (rc, t))
          × Inv t
    requests s (opened, same) =
        let (rc, t, run, still, size) =
          any_acquire_lock-Returns rounds opened (omega (arith, same, room))
            (omega (arith, same, small)) running.tier.made.1 running.tier.made.2 lock.node_id l
            node-lt lock-lt a queueless in
        (
          rc,
          t,
          rw (running.tier.made.0, running.tier.at_region, running.tier.at_base) run,
          (still, size ∙ same),
        )

    cancels :
        (s : Shm)
        → Inv s
        → (rc : LockResult) × (t : Shm) × ((any_algorithm rounds).release_lock lock.algorithm
              lock.node_id l lock.shm lock.state_offset s
            ≡ some (rc, t))
          × Inv t
    cancels s (opened, same) =
        let (rc, t, run, still, size) =
          any_release_lock-Returns rounds opened (omega (arith, same, room))
            (omega (arith, same, small)) running.tier.made.1 running.tier.made.2 lock.node_id l
            node-lt lock-lt a queueless in
        (
          rc,
          t,
          rw (running.tier.made.0, running.tier.at_region, running.tier.at_base) run,
          (still, size ∙ same),
        )

    answers :
        (s : Shm)
        → Inv s
        → (b : Bool) × (any_is_granted lock.algorithm l lock.node_id lock.node_count
              lock.state_offset s
            ≡ some (b, s))
    answers s (opened, same) =
        let (b, run) =
          any_is_granted-run rounds opened (omega (arith, same, room)) (omega (arith, same, small))
            running.tier.made.1 running.tier.made.2 lock.node_id l node-lt lock-lt a queueless in
        (b, rw (running.tier.made.0, running.tier.at_base) run)

    polls :
        (w : W) (s : Shm)
        → Inv s
        → (rc : LockResult) × (t : Shm) × (Tier.poll_for_grant pthread p.alg p.around 1002 lock l 0
              (w, s)
            ≡ some (rc, (w, t)))
          × Inv t
    polls w s inv =
        let (rc, t, run, still, ends) =
          poll_for_grant-Ends pthread p.alg p.around lock l Inv
            (λ k u (opened, same). ((kept k u opened).0, (kept k u opened).1 ∙ same)) answers w s
            inv in
        (rc, t, run, still)

    -- From `w` to `v` only mutex `l` changes.
    abbrev pub Sets : W → W → Bool → Type 0
    Sets w v b = (j : ℕ) → held v j ≡ (if l == j then b else held w j)

    still-IsRunning :
        (pool : Option Pool)
        → HasPool config.shm_size pool
        → IsRunning (SetUp a) config as_lock_manager (record sys { pool = pool })
    still-IsRunning pool has = record {
      ready = running.ready;
      pool = has;
      locks = running.locks;
      tier = running.tier;
      manager = running.manager;
    }

    -- The system still runs, and of the mutexes of the thread only that of the lock has changed.
    abbrev pub Leaves : W → (LockResult → Bool) → D W AnyLock LockResult → Type 0
    Leaves w owned m =
        (rc : LockResult) × (sys' : DistributedLockSystem AnyLock) × (w' : W) × (m (sys, w)
          ≡ some (rc, (sys', w')))
        × IsRunning (SetUp a) config as_lock_manager sys'
        × Sets w w' (owned rc)

    -- On a system that runs with the CAS or the FAA lock, on a node whose id is below the number of nodes,
    -- in a region of 262144 to 2^64 - 1 bytes that other nodes keep open and of its size, with mutexes
    -- that belong to threads as IsOwned says: if the thread has not locked the local mutex of a lock of
    -- the system, and the call of `pthread_mutex_lock` on that mutex returns, which it does not while
    -- another thread holds the mutex, then `acquire_lock` of the lock without a timeout returns within
    -- 1002 polls, whatever other nodes store in between, and the system still runs; and the thread has
    -- locked that mutex exactly where the result is `success`, and every other mutex as before.
    pub acquire_lock-Leaves :
        (w : W)
        → held w l ≡ false
        → Answers owns lock.local_locks l w
        → Leaves w is_success (acquire_lock p 1002 l 0)
    unfolding acquire_lock
    acquire_lock-Leaves w free answers =
        let (rc, pool, w', run, has, set) =
          on_memory-runs (Tier.acquire pthread p.alg p.around 1002 lock l 0)
            (λ rc v. Sets w v (is_success rc)) config.shm_size sys w running.pool
            λ s opened same.
              let (rc, v, t, ran, (still, size), set) =
                acquire-Balanced owns p.alg p.around lock l 1002 0 Inv usable requests cancels polls
                  w s free answers (opened, same) in
              (rc, v, t, ran, still, size, set) in
        (
          rc,
          record sys { pool = pool },
          w',
          guarded-eq p sys lock running.ready running.tier.at_tier
                (λ tier. Tier.acquire pthread p.alg p.around 1002 tier l 0) w
              ∙ run,
          still-IsRunning pool has,
          set,
        )

    -- On a system that runs with the CAS or the FAA lock, on a node whose id is below the
    -- number of nodes, in a region of 262144 to 2^64 - 1 bytes, with mutexes that belong to
    -- threads as IsOwned says: if the thread has locked the local mutex of a lock of the
    -- system, then `release_lock` of the lock returns, whatever the shared state holds, the
    -- system still runs, and the thread has unlocked that mutex and no other one.
    pub release_lock-Leaves : (w : W) → held w l ≡ true → Leaves w (λ rc. false) (release_lock p l)
    unfolding release_lock
    release_lock-Leaves w mine =
        let (rc, pool, w', run, has, set) =
          on_memory-runs (Tier.release pthread p.alg p.around lock l) (λ rc v. Sets w v false)
            config.shm_size sys w running.pool
            λ s opened same.
              let (rc, t, ran, (still, size)) = cancels s (opened, same) in
              let (rc', v, done, set, result) =
                release-Balanced owns p.alg p.around lock l usable w s running.tier.ready
                  (ground (arith, running.tier.count, hl)) mine rc t ran in
              (rc', v, t, done, still, size, set) in
        (
          rc,
          record sys { pool = pool },
          w',
          guarded-eq p sys lock running.ready running.tier.at_tier
                (λ tier. Tier.release pthread p.alg p.around tier l) w
              ∙ run,
          still-IsRunning pool has,
          set,
        )
