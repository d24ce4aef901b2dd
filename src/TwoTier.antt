-- ===== src/TwoTier.antt =====
-- src/two_tier_lock.cpp: a local mutex and a global lock behind it.
pub mod Balance
pub mod Polling
pub mod Granted
pub mod Setup
use cxl_dis_lock.Common.{
  ℕ, zero, suc, ◌+◌, Bool, true, false, not, ltb, leb, ◌==◌, if◌then◌else◌, Option, none, some,
}
use cxl_dis_lock.Types.{
  LockResult, success, error_invalid_param, error_lock_not_initialized, error_timeout, error_busy,
  u32,
}
use cxl_dis_lock.Memory.{Shm, M, Handle}
use cxl_dis_lock.Algorithm.{GlobalLockAlgorithm}
use cxl_dis_lock.Types.{is_success}
use cxl_dis_lock.LocalLock.{Mutexes, LocalLockArray}
use cxl_dis_lock.LocalLock as Local

-- The local mutexes and the shared memory.
abbrev pub T : Type 0 → Type 0 → Type 0
T W A = W × Shm → Option (A × (W × Shm))

abbrev pub pure : {W A : Type 0} → A → T W A
pure x s = some (x, s)

infixl 5 ◌>>=◌ ◌>>◌
abbrev pub ◌>>=◌ : {W A B : Type 0} → T W A → (A → T W B) → T W B
◌>>=◌ m f s = elim (m s) [ none ↦ none | some (x, t) ↦ f x t ]

abbrev pub ◌>>◌ : {W A B : Type 0} → T W A → T W B → T W B
m >> k = m >>= λ _. k

abbrev pub fault : {W A : Type 0} → T W A
fault s = none

-- A call that may wait for ever.
abbrev pub on_blocking : {W A : Type 0} → (W → Option (A × W)) → T W A
on_blocking f s = elim (f s.0) [ none ↦ none | some (x, v) ↦ some (x, (v, s.1)) ]

abbrev pub on_local : {W A : Type 0} → (W → A × W) → T W A
on_local f s = some ((f s.0).0, ((f s.0).1, s.1))

abbrev pub on_memory : {W A : Type 0} → M A → T W A
on_memory m s = elim (m s.1) [ none ↦ none | some (x, t) ↦ some (x, (s.0, t)) ]

-- The fields of `TwoTierLock`. `local_locks` and `algorithm` are the objects that it points to.
pub record TwoTierLock (A : Type 0) : Type 0 where
  pub node_id : ℕ
  pub local_locks : LocalLockArray
  pub shm : Handle
  pub algorithm : A
  pub state_offset : ℕ
  pub max_locks : ℕ
  pub node_count : ℕ
  pub initialized : Bool

-- What a run depends on besides the code: the test of a granted lock for the algorithm's type, what
-- other nodes do to the memory before a poll, and the milliseconds that have passed at a poll.
pub record Surroundings (A : Type 0) : Type 0 where
  pub is_granted : A → ℕ → ℕ → ℕ → ℕ → M Bool
  pub others : ℕ → Shm → Shm
  pub elapsed_ms : ℕ → ℕ

abbrev pub wait_for_others : {A : Type 0} → Surroundings A → ℕ → M (Unit {0})
wait_for_others around spin_count s = some (tt, around.others spin_count s)

module _ {W A : Type 0} (pthread : Mutexes W) (alg : GlobalLockAlgorithm A)
    (around : Surroundings A) where
  -- What one round of the loop returns, if it ends the loop.
  unfoldable pub verdict : Bool → ℕ → ℕ → Option LockResult
  verdict granted timeout_ms spin_count =
      if granted
      then some success
      else (if ltb 0 timeout_ms
          then (if leb timeout_ms (around.elapsed_ms spin_count) then some error_timeout else none)
          else (if ltb 1000 spin_count then some error_busy else none))

  -- The loop of `poll_for_grant`, at most `rounds` times.
  unfoldable pub poll_from : ℕ → TwoTierLock A → ℕ → ℕ → ℕ → T W LockResult
  poll_from zero lock lock_id timeout_ms spin_count = fault
  poll_from (suc rounds) lock lock_id timeout_ms spin_count = do
    on_memory (wait_for_others around spin_count)
    granted ←
        on_memory
          (around.is_granted lock.algorithm lock_id lock.node_id lock.node_count lock.state_offset)
    elim (verdict granted timeout_ms spin_count) [
      | some rc ↦ pure rc
      | none ↦ poll_from rounds lock lock_id timeout_ms (u32 (spin_count + 1))
    ]

  unfoldable pub poll_for_grant : ℕ → TwoTierLock A → ℕ → ℕ → T W LockResult
  poll_for_grant rounds lock lock_id timeout_ms = poll_from rounds lock lock_id timeout_ms 0

  -- The calls through the pointers of the object.
  abbrev pub request : TwoTierLock A → ℕ → T W LockResult
  request lock lock_id =
      on_memory (alg.acquire_lock lock.algorithm lock.node_id lock_id lock.shm lock.state_offset)

  abbrev pub cancel : TwoTierLock A → ℕ → T W LockResult
  cancel lock lock_id =
      on_memory (alg.release_lock lock.algorithm lock.node_id lock_id lock.shm lock.state_offset)

  abbrev pub unlock : TwoTierLock A → ℕ → T W LockResult
  unlock lock lock_id = on_local (Local.release pthread lock.local_locks lock_id)

  -- Steps 2 and 3 of `acquire`, with the local lock held.
  unfoldable pub acquire_global : ℕ → TwoTierLock A → ℕ → ℕ → T W LockResult
  acquire_global rounds lock lock_id timeout_ms = do
    asked ← request lock lock_id
    if not (is_success asked) then (do unlock lock lock_id; pure asked) else (do
      rc ← poll_for_grant rounds lock lock_id timeout_ms
      if is_success rc
          then pure success
          else (do cancel lock lock_id; unlock lock lock_id; pure rc))

  unfoldable pub acquire : ℕ → TwoTierLock A → ℕ → ℕ → T W LockResult
  acquire rounds lock lock_id timeout_ms =
      if not lock.initialized
      then pure error_lock_not_initialized
      else (if leb lock.max_locks lock_id then pure error_invalid_param else (do
        rc ← on_blocking (Local.acquire pthread lock.local_locks lock_id)
        if not (is_success rc) then pure rc else acquire_global rounds lock lock_id timeout_ms))

  unfoldable pub release : TwoTierLock A → ℕ → T W LockResult
  release lock lock_id =
      if not lock.initialized
      then pure error_lock_not_initialized
      else (if leb lock.max_locks lock_id then pure error_invalid_param else (do
        rc ← cancel lock lock_id
        if not (is_success rc) then (do unlock lock lock_id; pure rc) else unlock lock lock_id))

  -- Steps 2 and 3 of `try_acquire`.
  unfoldable pub try_global : ℕ → TwoTierLock A → ℕ → T W LockResult
  try_global rounds lock lock_id = do
    asked ← request lock lock_id
    if not (is_success asked) then (do unlock lock lock_id; pure asked) else (do
      rc ← poll_for_grant rounds lock lock_id 0
      if is_success rc
          then pure success
          else (do cancel lock lock_id; unlock lock lock_id; pure error_busy))

  unfoldable pub try_acquire : ℕ → TwoTierLock A → ℕ → T W LockResult
  try_acquire rounds lock lock_id =
      if not lock.initialized
      then pure error_lock_not_initialized
      else (if leb lock.max_locks lock_id then pure error_invalid_param else (do
        rc ← on_local (Local.try_acquire pthread lock.local_locks lock_id)
        if not (is_success rc) then pure rc else try_global rounds lock lock_id))
