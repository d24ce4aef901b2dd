-- ===== src/LocalLock.antt =====
-- src/local_lock.cpp: an array of mutexes in local memory. The mutexes themselves are a parameter.
pub mod Ownership
pub mod Setup
pub mod Object
use cxl_dis_lock.Common.{ℕ, Bool, false, not, ◌||◌, leb, ◌==◌, if◌then◌else◌, Option, none, some}
use cxl_dis_lock.Types.{
  LockResult, success, error_invalid_param, error_not_owner, error_busy, error_unknown,
}

-- What the source calls of pthread, for one thread: a call takes the index of the mutex and answers with
-- a return code. `W` is the state of the mutexes. `mutex_lock` waits for a mutex that another thread
-- holds; it is `none` where it does not return.
pub record Mutexes (W : Type 0) : Type 0 where
  pub mutex_lock : ℕ → W → Option (ℕ × W)
  pub mutex_unlock : ℕ → W → ℕ × W
  pub mutex_trylock : ℕ → W → ℕ × W
  pub ebusy : ℕ
  pub eperm : ℕ
  pub edeadlk : ℕ

-- The fields of `LocalLockArray::Impl`.
pub record LocalLockArray : Type 0 where
  pub has_mutexes : Bool  -- `mutexes_` is not a null pointer
  pub lock_count : ℕ
  pub initialized : Bool

abbrev pub lacks : LocalLockArray → ℕ → Bool
lacks locks lock_id = not locks.initialized || leb locks.lock_count lock_id

module _ {W : Type 0} (pthread : Mutexes W) where
  abbrev pub acquire_result : ℕ → LockResult
  acquire_result rc = if rc == 0 then success else error_unknown

  -- `none` where it waits for ever.
  unfoldable pub acquire : LocalLockArray → ℕ → W → Option (LockResult × W)
  acquire locks lock_id w =
      if lacks locks lock_id
      then some (error_invalid_param, w)
      else elim (pthread.mutex_lock lock_id w) [
        | none ↦ none
        | some (rc, v) ↦ some (acquire_result rc, v)
      ]

  abbrev pub release_result : ℕ → LockResult
  release_result rc =
      if rc == 0 then success else (if rc == pthread.eperm then error_not_owner else error_unknown)

  unfoldable pub release : LocalLockArray → ℕ → W → LockResult × W
  release locks lock_id w =
      if lacks locks lock_id
      then (error_invalid_param, w)
      else (let (rc, v) = pthread.mutex_unlock lock_id w in (release_result rc, v))

  abbrev pub try_acquire_result : ℕ → LockResult
  try_acquire_result rc =
      if rc == 0 then success else (if rc == pthread.ebusy then error_busy else error_unknown)

  unfoldable pub try_acquire : LocalLockArray → ℕ → W → LockResult × W
  try_acquire locks lock_id w =
      if lacks locks lock_id
      then (error_invalid_param, w)
      else (let (rc, v) = pthread.mutex_trylock lock_id w in (try_acquire_result rc, v))

  -- The test of ownership: a probe with `mutex_trylock`, undone where it locks the mutex.
  unfoldable pub is_held_by_this_thread : LocalLockArray → ℕ → W → Bool × W
  is_held_by_this_thread locks lock_id w =
      if lacks locks lock_id
      then (false, w)
      else (let (rc, v) = pthread.mutex_trylock lock_id w in
          if rc == 0
          then (false, (pthread.mutex_unlock lock_id v).1)
          else (rc == pthread.edeadlk || rc == pthread.eperm, v))
