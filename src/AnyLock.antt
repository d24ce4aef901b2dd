-- ===== src/AnyLock.antt =====
-- The virtual calls of include/lock_interface.h on an object of one of the four algorithms.
pub mod Fits
pub mod Room
pub mod Answers
use cxl_dis_lock.Common.{ℕ, Bool, ◌||◌, if◌then◌else◌, Option, none, some, Bytes, codes, equal}
use cxl_dis_lock.Types.{LockResult}
use cxl_dis_lock.Memory.{M, pure, ◌>>=◌, Handle}
use cxl_dis_lock.Algorithm.{GlobalLockAlgorithm}
use cxl_dis_lock.Cas.{Cas, cas_algorithm}
use cxl_dis_lock.Faa.{Faa, faa_algorithm}
use cxl_dis_lock.Mcs.{Mcs, mcs_algorithm}
use cxl_dis_lock.Qspinlock.{Qspinlock, qspinlock_algorithm}
use cxl_dis_lock.Cas as CasLock
use cxl_dis_lock.Faa as FaaLock
use cxl_dis_lock.Mcs as McsLock
use cxl_dis_lock.Qspinlock as QspinlockLock

-- An object of a class derived from `GlobalLockAlgorithm`.
pub data AnyLock : Type 0 where
  cas : Cas → AnyLock
  faa : Faa → AnyLock
  mcs : Mcs → AnyLock
  qspinlock : Qspinlock → AnyLock

abbrev keep : {A : Type 0} → (A → AnyLock) → M (A × LockResult) → M (AnyLock × LockResult)
keep f m = do (a, rc) ← m; pure (f a, rc)

-- A call through the table of virtual functions; `rounds` bounds the loops of the MCS and the queued lock.
unfoldable pub any_initialize : ℕ → AnyLock → Handle → ℕ → ℕ → M (AnyLock × LockResult)
any_initialize rounds (cas a) shm off count = keep cas (cas_algorithm.initialize a shm off count)
any_initialize rounds (faa a) shm off count = keep faa (faa_algorithm.initialize a shm off count)
any_initialize rounds (mcs a) shm off count =
    keep mcs ((mcs_algorithm rounds).initialize a shm off count)
any_initialize rounds (qspinlock a) shm off count =
    keep qspinlock ((qspinlock_algorithm rounds).initialize a shm off count)

unfoldable pub any_acquire_lock : ℕ → AnyLock → ℕ → ℕ → Handle → ℕ → M LockResult
any_acquire_lock rounds (cas a) = cas_algorithm.acquire_lock a
any_acquire_lock rounds (faa a) = faa_algorithm.acquire_lock a
any_acquire_lock rounds (mcs a) = (mcs_algorithm rounds).acquire_lock a
any_acquire_lock rounds (qspinlock a) = (qspinlock_algorithm rounds).acquire_lock a

unfoldable pub any_release_lock : ℕ → AnyLock → ℕ → ℕ → Handle → ℕ → M LockResult
any_release_lock rounds (cas a) = cas_algorithm.release_lock a
any_release_lock rounds (faa a) = faa_algorithm.release_lock a
any_release_lock rounds (mcs a) = (mcs_algorithm rounds).release_lock a
any_release_lock rounds (qspinlock a) = (qspinlock_algorithm rounds).release_lock a

unfoldable pub any_check_grant : ℕ → AnyLock → ℕ → Handle → ℕ → ℕ → M ℕ
any_check_grant rounds (cas a) = cas_algorithm.check_grant a
any_check_grant rounds (faa a) = faa_algorithm.check_grant a
any_check_grant rounds (mcs a) = (mcs_algorithm rounds).check_grant a
any_check_grant rounds (qspinlock a) = (qspinlock_algorithm rounds).check_grant a

unfoldable pub any_grant_lock : ℕ → AnyLock → ℕ → ℕ → Handle → ℕ → M LockResult
any_grant_lock rounds (cas a) = cas_algorithm.grant_lock a
any_grant_lock rounds (faa a) = faa_algorithm.grant_lock a
any_grant_lock rounds (mcs a) = (mcs_algorithm rounds).grant_lock a
any_grant_lock rounds (qspinlock a) = (qspinlock_algorithm rounds).grant_lock a

unfoldable pub any_get_state_size : ℕ → AnyLock → ℕ → ℕ
any_get_state_size rounds (cas a) = cas_algorithm.get_state_size a
any_get_state_size rounds (faa a) = faa_algorithm.get_state_size a
any_get_state_size rounds (mcs a) = (mcs_algorithm rounds).get_state_size a
any_get_state_size rounds (qspinlock a) = (qspinlock_algorithm rounds).get_state_size a

abbrev pub any_algorithm : ℕ → GlobalLockAlgorithm AnyLock
any_algorithm rounds = record {
  initialize = any_initialize rounds;
  acquire_lock = any_acquire_lock rounds;
  release_lock = any_release_lock rounds;
  check_grant = any_check_grant rounds;
  grant_lock = any_grant_lock rounds;
  get_state_size = any_get_state_size rounds;
}

-- The dispatch on the algorithm's type in `poll_for_grant`.
unfoldable pub any_is_granted : AnyLock → ℕ → ℕ → ℕ → ℕ → M Bool
any_is_granted (cas a) = CasLock.is_granted
any_is_granted (faa a) = FaaLock.is_granted
any_is_granted (mcs a) = McsLock.is_granted
any_is_granted (qspinlock a) = QspinlockLock.is_granted

-- A new object of the class that a name in `DistributedLockSystem::Config` selects.
unfoldable pub algorithm_named : Bytes → Option AnyLock
algorithm_named name =
    if equal name (codes "cas") || equal name (codes "CAS")
    then some (cas (record { node_count = 0 }))
    else if equal name (codes "faa") || equal name (codes "FAA")
    then some (faa (record { node_count = 0 }))
    else if equal name (codes "mcs") || equal name (codes "MCS")
    then some (mcs (record { node_count = 0 }))
    else if equal name (codes "qspinlock") || equal name (codes "QSPINLOCK")
    then some (qspinlock (record { node_count = 0 }))
    else none

unfoldable pub get_name : AnyLock → Bytes
get_name (cas a) = codes "CASGlobalLock"
get_name (faa a) = codes "FAAGlobalLock"
get_name (mcs a) = codes "MCSGlobalLock"
get_name (qspinlock a) = codes "QspinlockGlobalLock"
