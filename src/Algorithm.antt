-- ===== src/Algorithm.antt =====
-- include/lock_interface.h: the interface of a global lock algorithm, over the object's own fields.
use cxl_dis_lock.Common.{ℕ}
use cxl_dis_lock.Types.{LockResult}
use cxl_dis_lock.Memory.{M, Handle}

-- The virtual methods of `GlobalLockAlgorithm`. `initialize` also stores into the object.
pub record GlobalLockAlgorithm (A : Type 0) : Type 0 where
  pub initialize : A → Handle → ℕ → ℕ → M (A × LockResult)
  pub acquire_lock : A → ℕ → ℕ → Handle → ℕ → M LockResult
  pub release_lock : A → ℕ → ℕ → Handle → ℕ → M LockResult
  pub check_grant : A → ℕ → Handle → ℕ → ℕ → M ℕ
  pub grant_lock : A → ℕ → ℕ → Handle → ℕ → M LockResult
  pub get_state_size : A → ℕ → ℕ
