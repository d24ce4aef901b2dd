-- ===== src/DistributedLock/Startable.antt =====
-- The system of src/distributed_lock.cpp over the four algorithms, on a region that holds the largest state
-- of any of them.
use cxl_dis_lock.Common.{
  ℕ, ◌^◌, ◌*◌, ◌≤◌, ◌<◌, ◌≡◌, ◌≢◌, arith, refl, ◌∙◌, Bool, false, some, inl, inr,
}
use cxl_dis_lock.Types.{success, error_invalid_param, max_node_count}
use cxl_dis_lock.Memory.{Shm, null_base}
use cxl_dis_lock.Region.{Os}
use cxl_dis_lock.LocalLock.{Mutexes}
use cxl_dis_lock.LocalLock.Setup.{MutexSetup}
use cxl_dis_lock.AnyLock.{
  AnyLock, cas, faa, mcs, qspinlock, any_algorithm, any_is_granted, any_get_state_size,
  algorithm_named,
}
use cxl_dis_lock.AnyLock.Fits.{with_count, any-Start}
use cxl_dis_lock.Cas as CasLock
use cxl_dis_lock.Faa as FaaLock
use cxl_dis_lock.Mcs as McsLock
use cxl_dis_lock.Qspinlock as QspinlockLock
use cxl_dis_lock.DistributedLock.{Config, DistributedLockSystem, Platform}
use cxl_dis_lock.DistributedLock.Setup.{initialize}
use cxl_dis_lock.DistributedLock.Stages.{IsStartable, Ends}
use cxl_dis_lock.DistributedLock.Undo.{Outcome}
use cxl_dis_lock.DistributedLock.Outcome.{initialize-Outcome}

-- 64 nodes and 1024 locks.
state_size-le :
    (rounds : ℕ) (a : AnyLock) (n : ℕ) → n ≤ 64 → any_get_state_size rounds a n ≤ 4096 * 64
unfolding any_get_state_size CasLock.get_state_size FaaLock.get_state_size McsLock.get_state_size
    QspinlockLock.get_state_size
state_size-le rounds (cas a) n h = omega (arith, h)
state_size-le rounds (faa a) n h = omega (arith, h)
state_size-le rounds (mcs a) n h = omega (arith, h)
state_size-le rounds (qspinlock a) n h = omega (arith, h)

-- The object is the one that was selected, set up for a number of nodes that the algorithms accept.
abbrev pub SetUp : AnyLock → AnyLock → ℕ → Type 0
SetUp a b n = (b ≡ with_count n a) × (0 < n) × (n ≤ max_node_count)

pub any-IsStartable :
    (rounds : ℕ) (a : AnyLock) (size : ℕ)
    → 4096 * 64 ≤ size
    → size < 2 ^ 64
    → IsStartable (SetUp a) (any_algorithm rounds) a size
any-IsStartable rounds a size room small = record {
  starts = λ s n opened same. elim (any-Start opened (omega (arith, same, small)) rounds n a) [
    | inl (bad, run) ↦ (a, error_invalid_param, s, run, opened, same, λ h. ground (arith, h))
    | inr rest ↦ elim rest [
      | inl (some_nodes, few, fits, (t, run, still, kept)) ↦
          (with_count n a, success, t, run, still, kept ∙ same, λ h. (refl, some_nodes, few))
      | inr (some_nodes, few, past, run) ↦
          absurd (omega (arith, past, state_size-le rounds a n few, room, same))
    ]
  ];
}

-- The calls of the source with the four algorithms; `rounds` bounds the loops of the MCS and the queued
-- lock.
abbrev pub with_algorithms :
    {W : Type 0}
    → Os W
    → MutexSetup W
    → Mutexes W
    → (ℕ → Shm → Shm)
    → (ℕ → ℕ)
    → ℕ
    → Platform W AnyLock
with_algorithms os setup pthread others elapsed_ms rounds = record {
  os = os;
  setup = setup;
  pthread = pthread;
  alg = any_algorithm rounds;
  named = algorithm_named;
  around = record { is_granted = any_is_granted; others = others; elapsed_ms = elapsed_ms };
}

-- A system that is not initialized, with a name that `initialize` knows, a region size from 262144,
-- which is the state of 1024 locks for 64 nodes, to 2^64 - 1, and no mapping that is a null
-- pointer: `initialize` returns, whatever the calls of the system answer and whatever the region
-- held. It ends in success, with the pool open, the local locks ready, the two-tier lock ready over
-- them and over an object of the named algorithm, and on a manager node the manager running over
-- such an object; or in an error, with a system that is not initialized and a pool that is closed.
pub initialize-Ends :
    {W : Type 0} (os : Os W) (setup : MutexSetup W) (pthread : Mutexes W) (others : ℕ → Shm → Shm)
    (elapsed_ms : ℕ → ℕ) (rounds : ℕ) (config : Config) (as_lock_manager : Bool) (a : AnyLock)
    (sys : DistributedLockSystem AnyLock) (w : W)
    → ((fd size : ℕ) (sync : Bool) (v : W) → (os.mmap fd size sync v).0 ≢ null_base)
    → algorithm_named config.lock_algorithm ≡ some a
    → 4096 * 64 ≤ config.shm_size
    → config.shm_size < 2 ^ 64
    → sys.initialized ≡ false
    → Ends (Outcome (SetUp a) config as_lock_manager) (
        initialize
          (with_algorithms os setup pthread others elapsed_ms rounds)
          config
          as_lock_manager
          (sys, w))
initialize-Ends os setup pthread others elapsed_ms rounds config as_lock_manager a sys w nonnull
      named room small idle =
    initialize-Outcome (with_algorithms os setup pthread others elapsed_ms rounds) config
      as_lock_manager nonnull (λ e. absurd (omega (arith, e, room))) a sys w named
      (any-IsStartable rounds a config.shm_size room small) idle
