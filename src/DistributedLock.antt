-- ===== src/DistributedLock.antt =====
-- src/distributed_lock.cpp: the parts put together, over what they call as one record, with one state `W`
-- of the process.
pub mod Setup
pub mod Calls
pub mod Stages
pub mod Parts
pub mod Starting
pub mod Opening
pub mod Undo
pub mod Managing
pub mod Outcome
pub mod Ending
pub mod Closing
pub mod NoLocks
pub mod Startable
pub mod Guarded
pub mod Locking
pub mod Managers
pub mod Scanning
pub mod Uncontended
use cxl_dis_lock.Common.{ℕ, Bool, true, false, not, ◌&&◌, if◌then◌else◌, Option, none, some, Bytes}
use cxl_dis_lock.Types.{
  ConsistencyMode, LockResult, is_success, success, error_invalid_param, error_lock_not_initialized,
  error_unknown,
}
use cxl_dis_lock.Memory.{Shm, M, Handle, region}
use cxl_dis_lock.Region.{Os, Region}
use cxl_dis_lock.Algorithm.{GlobalLockAlgorithm}
use cxl_dis_lock.LocalLock.{Mutexes, LocalLockArray}
use cxl_dis_lock.LocalLock.Setup.{MutexSetup}
use cxl_dis_lock.Pool.{Pool}
use cxl_dis_lock.TwoTier.{TwoTierLock, Surroundings, T}
use cxl_dis_lock.LockManager.{LockManager}

pub record Config : Type 0 where
  pub shm_device_path : Bytes
  pub shm_size : ℕ
  pub max_nodes : ℕ
  pub max_locks : ℕ
  pub lock_algorithm : Bytes
  pub node_id : ℕ
  pub consistency_mode : ConsistencyMode
  pub lock_manager_scan_interval_us : ℕ
  pub use_file_backed_shm : Bool
  pub shm_backing_file : Bytes

-- The fields of `DistributedLockSystem::Impl`; a null pointer is `none`. The object of `two_tier_lock` is
-- itself an option, as in TwoTier.Setup.
pub record DistributedLockSystem (A : Type 0) : Type 0 where
  pub pool : Option Pool
  pub local_locks : Option LocalLockArray
  pub two_tier_lock : Option (Option (TwoTierLock A))
  pub lock_manager : Option (LockManager A)
  pub algorithm : Option A
  pub config : Config
  pub node_id : ℕ
  pub is_lock_manager : Bool
  pub initialized : Bool
  pub lock_manager_started : Bool

-- What the source calls: the operating system, pthread, the virtual methods of the algorithms, and the
-- classes by their names in a configuration.
pub record Platform (W A : Type 0) : Type 0 where
  pub os : Os W
  pub setup : MutexSetup W
  pub pthread : Mutexes W
  pub alg : GlobalLockAlgorithm A
  pub named : Bytes → Option A
  pub around : Surroundings A

-- `none` is a fault: an access through a null pointer or outside of the mapping.
abbrev pub D : Type 0 → Type 0 → Type 0 → Type 0
D W A R = DistributedLockSystem A × W → Option (R × (DistributedLockSystem A × W))

-- A computation on the memory of the region in a pool.
abbrev pub on_region : {W R : Type 0} → T W R → Pool → W → Option (R × (Pool × W))
on_region m pool w = elim pool.shm [
  | none ↦ none
  | some r ↦ elim (m (w, r.shm)) [
    | none ↦ none
    | some (x, (w', shm)) ↦ some (x, (record pool { shm = some (record r { shm = shm }) }, w'))
  ]
]

module _ {W A : Type 0} where
  abbrev pub pure : {R : Type 0} → R → D W A R
  pure x s = some (x, s)

  infixl 5 ◌>>=◌ ◌>>◌
  abbrev pub ◌>>=◌ : {R S : Type 0} → D W A R → (R → D W A S) → D W A S
  ◌>>=◌ m f s = elim (m s) [ none ↦ none | some (x, t) ↦ f x t ]

  abbrev pub ◌>>◌ : {R S : Type 0} → D W A R → D W A S → D W A S
  m >> k = m >>= λ _. k

  abbrev pub modify : (DistributedLockSystem A → DistributedLockSystem A) → D W A (Unit {0})
  modify f (sys, w) = some (tt, (f sys, w))

  abbrev pub fields : D W A (DistributedLockSystem A)
  fields (sys, w) = some (sys, (sys, w))

  -- A call on the object of `pool`.
  abbrev pub on_pool : (Pool → W → Option ((Pool × LockResult) × W)) → D W A LockResult
  on_pool f (sys, w) = elim sys.pool [
    | none ↦ none
    | some pool ↦ elim (f pool w) [
      | none ↦ none
      | some ((pool', rc), w') ↦ some (rc, (record sys { pool = some pool' }, w'))
    ]
  ]

  abbrev pub on_memory : {R : Type 0} → T W R → D W A R
  on_memory m (sys, w) = elim sys.pool [
    | none ↦ none
    | some pool ↦ elim (on_region m pool w) [
      | none ↦ none
      | some (x, (pool', w')) ↦ some (x, (record sys { pool = some pool' }, w'))
    ]
  ]
