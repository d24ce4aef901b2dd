-- ===== src/AnyLock/Answers.antt =====
-- The calls of src/cas_global_lock.cpp and src/faa_global_lock.cpp return on every region that holds their
-- state: they wait for no other node.
use cxl_dis_lock.Common.{ℕ, ◌^◌, ◌*◌, ◌≤◌, ◌<◌, ◌≡◌, refl, Bool, true, false, Option, some}
use cxl_dis_lock.Types.{LockResult, success, max_node_count, max_lock_count}
use cxl_dis_lock.Memory.{Shm, IsOpen, region}
use cxl_dis_lock.AnyLock.{
  AnyLock, cas, faa, mcs, qspinlock, any_acquire_lock, any_release_lock, any_is_granted,
}
use cxl_dis_lock.AnyLock.Fits.{with_count}
use cxl_dis_lock.AnyLock.Room.{slots-IsReady, lines-IsReady}
use cxl_dis_lock.Cas.Layout as CasLayout
use cxl_dis_lock.Cas.Slots as CasSlots
use cxl_dis_lock.Lines.{IsReady}
use cxl_dis_lock.Faa.Ops as FaaOps

-- The algorithms without a queue.
abbrev pub is_queueless : AnyLock → Bool
is_queueless (cas a) = true
is_queueless (faa a) = true
is_queueless (mcs a) = false
is_queueless (qspinlock a) = false

-- The call returns and keeps the region open and its size.
abbrev pub Returns : Shm → (Shm → Option (LockResult × Shm)) → Type 0
Returns s m = (rc : LockResult) × (t : Shm) × (m s ≡ some (rc, t)) × IsOpen t × (t.size ≡ s.size)

module _ (rounds : ℕ) {s : Shm} {n : ℕ} (opened : IsOpen s) (room : 4096 * 64 ≤ s.size)
    (small : s.size < 2 ^ 64) (some_nodes : 0 < n) (few : n ≤ max_node_count) (i l : ℕ) (hi : i < n)
    (hl : l < max_lock_count) where
  slots : CasLayout.IsReady s 0 n
  slots = slots-IsReady opened room small some_nodes few

  lines : IsReady s 0 n
  lines = lines-IsReady opened room small some_nodes few

  still-IsOpen : (words : ℕ → ℕ) → IsOpen (record s { words = words })
  still-IsOpen words = record {
    is_valid = opened.is_valid;
    address = opened.address;
    is_mapped = opened.is_mapped;
  }

  pub any_acquire_lock-Returns :
      (a : AnyLock)
      → is_queueless a ≡ true
      → Returns s (any_acquire_lock rounds (with_count n a) i l region 0)
  unfolding any_acquire_lock
  any_acquire_lock-Returns (cas a) h =
      (success, _, CasSlots.acquire_lock-eq slots l i hl hi _ refl, still-IsOpen _, refl)
  any_acquire_lock-Returns (faa a) h =
      (success, _, FaaOps.acquire_lock-eq lines l i hl hi _ refl, still-IsOpen _, refl)
  any_acquire_lock-Returns (mcs a) h = cc
  any_acquire_lock-Returns (qspinlock a) h = cc

  pub any_release_lock-Returns :
      (a : AnyLock)
      → is_queueless a ≡ true
      → Returns s (any_release_lock rounds (with_count n a) i l region 0)
  unfolding any_release_lock
  any_release_lock-Returns (cas a) h =
      (success, _, CasSlots.release_lock-eq slots l i hl hi _ refl, still-IsOpen _, refl)
  any_release_lock-Returns (faa a) h =
      (success, _, FaaOps.release_lock-eq lines l i hl hi _ refl, still-IsOpen _, refl)
  any_release_lock-Returns (mcs a) h = cc
  any_release_lock-Returns (qspinlock a) h = cc

  pub any_is_granted-run :
      (a : AnyLock)
      → is_queueless a ≡ true
      → (b : Bool) × (any_is_granted (with_count n a) l i n 0 s ≡ some (b, s))
  unfolding any_is_granted
  any_is_granted-run (cas a) h = (_, CasSlots.is_granted-eq slots l i hl hi _ refl)
  any_is_granted-run (faa a) h = (_, FaaOps.is_granted-eq lines l i hl hi _ refl)
  any_is_granted-run (mcs a) h = cc
  any_is_granted-run (qspinlock a) h = cc
