-- ===== src/DistributedLock/Guarded.antt =====
-- The guards of the lock operations of src/distributed_lock.cpp on a system that is initialized, and what is
-- said of the other nodes.
use cxl_dis_lock.Common.{ℕ, ◌≡◌, ap, ◌∙◌, true, not, none, some}
use cxl_dis_lock.Types.{LockResult, error_lock_not_initialized}
use cxl_dis_lock.Memory.{Shm, IsOpen}
use cxl_dis_lock.TwoTier.{TwoTierLock, T}
use cxl_dis_lock.DistributedLock.{DistributedLockSystem, Platform, pure, on_memory}
use cxl_dis_lock.DistributedLock.Calls.{guarded, on_two_tier}
use cxl_dis_lock.DistributedLock.Stages.{if_no}

-- What other nodes do to the memory keeps the region open and its size.
abbrev pub Keeps : (ℕ → Shm → Shm) → Type 0
Keeps others = (k : ℕ) (s : Shm) → IsOpen s → IsOpen (others k s) × ((others k s).size ≡ s.size)

module _ {W A : Type 0} (p : Platform W A) (sys : DistributedLockSystem A) (lock : TwoTierLock A)
    (ready : sys.initialized ≡ true) (at_tier : sys.two_tier_lock ≡ some (some lock)) where
  -- The call runs on the two-tier lock.
  pub guarded-eq :
      (f : TwoTierLock A → T W LockResult) (w : W)
      → guarded p f (sys, w) ≡ on_memory (f lock) (sys, w)
  guarded-eq f w =
      if_no (not sys.initialized) (pure error_lock_not_initialized) (on_two_tier p f) (sys, w)
        (ap not ready)
      ∙ ap
          (λ o. elim o [
            | none ↦ none
            | some object ↦ elim object [
              | none ↦ some (error_lock_not_initialized, (sys, w))
              | some tier ↦ on_memory (f tier) (sys, w)
            ]
          ])
          at_tier
