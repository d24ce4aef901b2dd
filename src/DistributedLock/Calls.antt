-- ===== src/DistributedLock/Calls.antt =====
-- The lock operations and the queries of src/distributed_lock.cpp.
use cxl_dis_lock.Common.{ℕ, not, if◌then◌else◌, Option, none, some, Bytes, codes}
use cxl_dis_lock.Types.{LockResult, success, error_lock_not_initialized}
use cxl_dis_lock.TwoTier.{TwoTierLock, T}
use cxl_dis_lock.TwoTier as Tier
use cxl_dis_lock.TwoTier.Setup.{hash_data_to_lock_id}
use cxl_dis_lock.LockManager.{LockManager, Stats, no_stats}
use cxl_dis_lock.DistributedLock.{
  DistributedLockSystem, Platform, D, pure, ◌>>=◌, fields, on_memory,
}

module _ {W A : Type 0} (p : Platform W A) where
  -- A call on the object of `two_tier_lock`; each of them begins with the test of `initialized_`.
  abbrev pub on_two_tier : (TwoTierLock A → T W LockResult) → D W A LockResult
  on_two_tier f (sys, w) = elim sys.two_tier_lock [
    | none ↦ none
    | some object ↦ elim object [
      | none ↦ some (error_lock_not_initialized, (sys, w))
      | some lock ↦ on_memory (f lock) (sys, w)
    ]
  ]

  abbrev pub guarded : (TwoTierLock A → T W LockResult) → D W A LockResult
  guarded f = do
    sys ← fields
    if not sys.initialized then pure error_lock_not_initialized else on_two_tier f

  -- `rounds` bounds the poll.
  unfoldable pub acquire_lock : ℕ → ℕ → ℕ → D W A LockResult
  acquire_lock rounds lock_id timeout_ms =
      guarded λ lock. Tier.acquire p.pthread p.alg p.around rounds lock lock_id timeout_ms

  unfoldable pub release_lock : ℕ → D W A LockResult
  release_lock lock_id = guarded λ lock. Tier.release p.pthread p.alg p.around lock lock_id

  unfoldable pub try_lock : ℕ → ℕ → D W A LockResult
  try_lock rounds lock_id =
      guarded λ lock. Tier.try_acquire p.pthread p.alg p.around rounds lock lock_id

  unfoldable pub get_data_lock_id : Bytes → D W A ℕ
  get_data_lock_id key (sys, w) = elim (hash_data_to_lock_id key sys.config.max_locks) [
    | none ↦ none
    | some lid ↦ some (lid, (sys, w))
  ]

  unfoldable pub acquire_data_lock : ℕ → Bytes → ℕ → D W A LockResult
  acquire_data_lock rounds key timeout_ms = do
    lid ← get_data_lock_id key
    acquire_lock rounds lid timeout_ms

  unfoldable pub release_data_lock : Bytes → D W A LockResult
  release_data_lock key = do lid ← get_data_lock_id key; release_lock lid

abbrev pub name_of : {A : Type 0} → (A → Bytes) → Option A → Bytes
name_of get_name none = codes "<none>"
name_of get_name (some algorithm) = get_name algorithm

unfoldable pub get_algorithm_name : {A : Type 0} → (A → Bytes) → DistributedLockSystem A → Bytes
get_algorithm_name get_name sys = name_of get_name sys.algorithm

abbrev pub stats_of : {A : Type 0} → Option (LockManager A) → Stats
stats_of none = no_stats
stats_of (some manager) = manager.stats

unfoldable pub get_lock_manager_stats : {A : Type 0} → DistributedLockSystem A → Stats
get_lock_manager_stats sys = stats_of sys.lock_manager

unfoldable pub initiate_fault_recovery : {A : Type 0} → DistributedLockSystem A → LockResult
initiate_fault_recovery sys = success

unfoldable pub check_node_health : {A : Type 0} → DistributedLockSystem A → ℕ → LockResult
check_node_health sys node_id = success
