-- ===== src/DistributedLock/NoLocks.antt =====
-- `initialize` of src/distributed_lock.cpp with a number of locks of zero, and the data keys after it.
use cxl_dis_lock.Common.{ℕ, ◌≡◌, false, none, some, Bytes}
use cxl_dis_lock.Types.{LockResult, is_success, error_lock_not_initialized}
use cxl_dis_lock.LocalLock.Setup as Local
use cxl_dis_lock.DistributedLock.{DistributedLockSystem, Platform}
use cxl_dis_lock.DistributedLock.Calls.{
  acquire_lock, release_lock, acquire_data_lock, release_data_lock,
}

module _ {W A : Type 0} (p : Platform W A) where
  -- The system is not initialized, its calls on locks answer so, and its calls on data keys fault.
  abbrev pub Divides : LockResult → DistributedLockSystem A → Type 0
  Divides rc t =
      (is_success rc ≡ false)
      × (t.initialized ≡ false)
      × ((rounds lock_id timeout_ms : ℕ) (v : W)
          → (acquire_lock p rounds lock_id timeout_ms (t, v)
              ≡ some (error_lock_not_initialized, (t, v)))
            × (release_lock p lock_id (t, v) ≡ some (error_lock_not_initialized, (t, v))))
      × ((key : Bytes) (rounds timeout_ms : ℕ) (v : W)
          → (acquire_data_lock p rounds key timeout_ms (t, v) ≡ none)
            × (release_data_lock p key (t, v) ≡ none))
