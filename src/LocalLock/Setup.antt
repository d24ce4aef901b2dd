-- ===== src/LocalLock/Setup.antt =====
-- The life of a `LocalLockArray` of src/local_lock.cpp: `initialize` and `destroy`.
pub mod Balance
use cxl_dis_lock.Common.{
  ℕ, zero, suc, ◌+◌, Bool, true, false, not, ◌&&◌, ◌||◌, ltb, ◌==◌, if◌then◌else◌,
}
use cxl_dis_lock.Types.{
  LockResult, success, error_invalid_param, error_shm_failure, error_unknown, max_lock_count,
}
use cxl_dis_lock.LocalLock.{LocalLockArray}

-- The calls that make and remove mutexes: `new` and `delete` of the array, and `pthread_mutex_init`, with
-- the calls on its attributes, and `pthread_mutex_destroy` of the mutex at an index. `W` is the state of
-- the process.
pub record MutexSetup (W : Type 0) : Type 0 where
  pub allocate : ℕ → W → Bool × W
  pub mutex_init : ℕ → W → ℕ × W
  pub mutex_destroy : ℕ → W → W
  pub free : W → W

abbrev pub new_locks : LocalLockArray
new_locks = record { has_mutexes = false; lock_count = 0; initialized = false }

module _ {W : Type 0} (pthread : MutexSetup W) where
  -- The loop of `pthread_mutex_destroy`, `left` rounds from `j` on.
  unfoldable pub destroy_from : ℕ → ℕ → W → W
  destroy_from j zero w = w
  destroy_from j (suc left) w = destroy_from (j + 1) left (pthread.mutex_destroy j w)

  -- The loop of `initialize`; `false` where a mutex could not be made.
  unfoldable pub init_from : ℕ → ℕ → W → Bool × W
  init_from i zero w = (true, w)
  init_from i (suc left) w =
      let (rc, made) = pthread.mutex_init i w in
      let rest = init_from (i + 1) left made in
      if not (rc == 0) then (false, pthread.free (destroy_from 0 i made)) else rest

  unfoldable pub fill : LocalLockArray → ℕ → W → (LocalLockArray × LockResult) × W
  fill locks lock_count w =
      let (filled, w') = init_from 0 lock_count w in
      if filled
      then (
        (record { has_mutexes = true; lock_count = lock_count; initialized = true }, success),
        w',
      )
      else ((record locks { has_mutexes = false }, error_unknown), w')

  unfoldable pub initialize : LocalLockArray → ℕ → W → (LocalLockArray × LockResult) × W
  initialize locks lock_count w =
      if lock_count == 0 || ltb max_lock_count lock_count
      then ((locks, error_invalid_param), w)
      else if locks.initialized
      then ((locks, error_unknown), w)
      else (let (allocated, w') = pthread.allocate lock_count w in
          if not allocated
          then ((record locks { has_mutexes = false }, error_shm_failure), w')
          else fill locks lock_count w')

  unfoldable pub destroy : LocalLockArray → W → LocalLockArray × W
  destroy locks w =
      if not locks.initialized || not locks.has_mutexes
      then (locks, w)
      else (new_locks, pthread.free (destroy_from 0 locks.lock_count w))
