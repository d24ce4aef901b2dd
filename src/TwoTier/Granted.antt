-- ===== src/TwoTier/Granted.antt =====
-- An `acquire` of src/two_tier_lock.cpp whose first poll finds the lock granted.
use cxl_dis_lock.Common.{ℕ, suc, ◌<◌, ◌≡◌, arith, true, some}
use cxl_dis_lock.Types.{success}
use cxl_dis_lock.Memory.{Shm}
use cxl_dis_lock.Algorithm.{GlobalLockAlgorithm}
use cxl_dis_lock.LocalLock.{Mutexes}
use cxl_dis_lock.LocalLock as Local
use cxl_dis_lock.TwoTier.{
  TwoTierLock, Surroundings, verdict, poll_from, poll_for_grant, acquire_global, acquire,
}

pub acquire-eq_granted :
    {W A : Type 0} (pthread : Mutexes W) (alg : GlobalLockAlgorithm A) (around : Surroundings A)
    (lock : TwoTierLock A) (l rounds timeout_ms : ℕ) (w v : W) (s s₁ t : Shm)
    → lock.initialized ≡ true
    → l < lock.max_locks
    → Local.acquire pthread lock.local_locks l w ≡ some (success, v)
    → alg.acquire_lock lock.algorithm lock.node_id l lock.shm lock.state_offset s
      ≡ some (success, s₁)
    → around.is_granted lock.algorithm l lock.node_id lock.node_count lock.state_offset
        (around.others 0 s₁)
      ≡ some (true, t)
    → acquire pthread alg around (suc rounds) lock l timeout_ms (w, s) ≡ some (success, (v, t))
unfolding acquire acquire_global poll_for_grant poll_from verdict
acquire-eq_granted pthread alg around lock l rounds timeout_ms w v s s₁ t ready here local asked
      granted =
    ground (arith, ready, here, local, asked, granted)
