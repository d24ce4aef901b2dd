-- ===== src/DistributedLock/Parts.antt =====
-- How the parts that `initialize` of src/distributed_lock.cpp calls end.
use cxl_dis_lock.Common.{
  ℕ, ◌≡◌, ◌⊎◌, inl, inr, refl, true, false, ◌||◌, ◌≤◌, ltb, ◌==◌, if◌then◌else◌, Option, some,
  Bool-cases,
}
use cxl_dis_lock.Types.{is_success, success, max_lock_count}
use cxl_dis_lock.Memory.{region}
use cxl_dis_lock.LocalLock.{LocalLockArray}
use cxl_dis_lock.LocalLock.Setup as Local
use cxl_dis_lock.TwoTier.{TwoTierLock}
use cxl_dis_lock.LockManager.{LockManager}

-- A new array of locks is made or not.
pub initialize_locks-Made :
    {W : Type 0} (setup : Local.MutexSetup W) (n : ℕ) (w : W)
    → let ((locks, rc), w') = Local.initialize setup Local.new_locks n w in
      ((rc ≡ success) × (locks.initialized ≡ true) × (locks.lock_count ≡ n))
      ⊎ (is_success rc ≡ false)
unfolding Local.initialize Local.fill
initialize_locks-Made setup n w =
    let w₁ = (setup.allocate n w).1 in
    elim (Bool-cases (n == 0 || ltb max_lock_count n)) [
      | inl e ↦ rw e (inr refl)
      | inr e ↦ elim (Bool-cases (setup.allocate n w).0) [
        | inr refused ↦ rw (e, refused) (inr refl)
        | inl given ↦ elim (Bool-cases (Local.init_from setup 0 n w₁).0) [
          | inl all ↦ rw (e, given, all) (inl (refl, refl, refl))
          | inr some_missing ↦ rw (e, given, some_missing) (inr refl)
        ]
      ]
    ]

-- A two-tier lock that is ready, over given local locks.
pub record IsTier {A : Type 0} (Made : A → ℕ → Type 0) (node_id max_locks max_nodes : ℕ)
    (locks : LocalLockArray) (o : Option (Option (TwoTierLock A))) : Type 0 where
  pub tier : TwoTierLock A
  pub at_tier : o ≡ some (some tier)
  pub ready : tier.initialized ≡ true
  pub over : tier.local_locks ≡ locks
  pub node : tier.node_id ≡ node_id
  pub count : tier.max_locks ≡ max_locks
  pub few : max_locks ≤ max_lock_count
  pub nodes : tier.node_count ≡ (if ltb 0 max_nodes then max_nodes else max_locks)
  pub made : Made tier.algorithm tier.node_count
  pub at_region : tier.shm ≡ region
  pub at_base : tier.state_offset ≡ 0

-- A manager over an object that is set up.
pub record IsEquipped {A : Type 0} (Made : A → ℕ → Type 0) (max_locks max_nodes : ℕ)
    (manager : LockManager A) : Type 0 where
  pub object : A
  pub at_object : manager.algorithm ≡ some object
  pub made : Made object max_nodes
  pub at_region : manager.shm ≡ region
  pub at_base : manager.state_offset ≡ 0
  pub locks : manager.max_locks ≡ max_locks
  pub few : max_locks ≤ max_lock_count
  pub nodes : manager.node_count ≡ max_nodes
