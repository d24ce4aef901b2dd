-- ===== src/Cas.antt =====
-- src/cas_global_lock.cpp and include/cas_global_lock.h: one slot per lock and node, which the node
-- sets to WAITING and to IDLE, and the lock manager from WAITING to LOCKED.
pub mod Layout
pub mod Slots
pub mod Ops
pub mod System
pub mod Hazards
use cxl_dis_lock.Common.{ℕ, zero, suc, ◌+◌, ◌*◌, Bool, true, false, ◌||◌, ltb, ◌==◌, if◌then◌else◌}
use cxl_dis_lock.Types.{
  LockResult, success, error_invalid_param, error_busy, u64, slot_idle, slot_waiting, slot_locked,
  invalid_node_id, max_node_count, max_lock_count,
}
use cxl_dis_lock.Memory.{
  M, pure, ◌>>=◌, ◌>>◌, Handle, nullptr, region, ptr_at, load, store, compare_exchange, memset_zero,
}
use cxl_dis_lock.Algorithm.{GlobalLockAlgorithm}

-- The fields of `CasGlobalLockAlgorithm`.
pub record Cas : Type 0 where
  pub node_count : ℕ

-- Unsigned 64-bit arithmetic throughout.
unfoldable pub get_slot_offset : ℕ → ℕ → ℕ → ℕ → ℕ
get_slot_offset lock_id node_id node_count state_offset =
    u64 (state_offset + lock_id * node_count * 4 + node_id * 4)

unfoldable pub read_slot_state : ℕ → ℕ → ℕ → ℕ → M ℕ
read_slot_state lock_id node_id node_count state_offset = do
  addr ← ptr_at (get_slot_offset lock_id node_id node_count state_offset)
  load addr

unfoldable pub write_slot_state : ℕ → ℕ → ℕ → ℕ → ℕ → M (Unit {0})
write_slot_state lock_id node_id node_count state_offset state = do
  addr ← ptr_at (get_slot_offset lock_id node_id node_count state_offset)
  store addr state

unfoldable pub get_state_size : ℕ → ℕ
get_state_size node_count = u64 (max_lock_count * node_count * 4)

unfoldable pub initialize : Cas → Handle → ℕ → ℕ → M (Cas × LockResult)
initialize a nullptr state_offset node_count = pure (a, error_invalid_param)
initialize a region state_offset node_count =
    if node_count == 0 || ltb max_node_count node_count then pure (a, error_invalid_param) else (do
      base ← ptr_at state_offset
      memset_zero base (get_state_size node_count)
      pure (record a { node_count = node_count }, success))

unfoldable pub acquire_lock : Cas → ℕ → ℕ → Handle → ℕ → M LockResult
acquire_lock a node_id lock_id nullptr state_offset = pure error_invalid_param
acquire_lock a node_id lock_id region state_offset =
    if node_id == invalid_node_id
    then pure error_invalid_param
    else (do write_slot_state lock_id node_id a.node_count state_offset slot_waiting; pure success)

unfoldable pub release_lock : Cas → ℕ → ℕ → Handle → ℕ → M LockResult
release_lock a node_id lock_id nullptr state_offset = pure error_invalid_param
release_lock a node_id lock_id region state_offset =
    if node_id == invalid_node_id
    then pure error_invalid_param
    else (do write_slot_state lock_id node_id a.node_count state_offset slot_idle; pure success)

-- The first loop of `check_grant`, `left` rounds from `nid` on: is a slot LOCKED?
unfoldable pub find_locked : ℕ → ℕ → ℕ → ℕ → ℕ → M Bool
find_locked lock_id node_count state_offset nid zero = pure false
find_locked lock_id node_count state_offset nid (suc left) = do
  st ← read_slot_state lock_id nid node_count state_offset
  if st == slot_locked
      then pure true
      else find_locked lock_id node_count state_offset (nid + 1) left

-- The second loop: the first WAITING node.
unfoldable pub find_waiting : ℕ → ℕ → ℕ → ℕ → ℕ → M ℕ
find_waiting lock_id node_count state_offset nid zero = pure invalid_node_id
find_waiting lock_id node_count state_offset nid (suc left) = do
  st ← read_slot_state lock_id nid node_count state_offset
  if st == slot_waiting
      then pure nid
      else find_waiting lock_id node_count state_offset (nid + 1) left

unfoldable pub check_grant : Cas → ℕ → Handle → ℕ → ℕ → M ℕ
check_grant a lock_id nullptr state_offset node_count = pure invalid_node_id
check_grant a lock_id region state_offset node_count =
    if node_count == 0 then pure invalid_node_id else (do
      held ← find_locked lock_id node_count state_offset 0 node_count
      if held
          then pure invalid_node_id
          else find_waiting lock_id node_count state_offset 0 node_count)

unfoldable pub grant_lock : Cas → ℕ → ℕ → Handle → ℕ → M LockResult
grant_lock a node_id lock_id nullptr state_offset = pure error_invalid_param
grant_lock a node_id lock_id region state_offset =
    if node_id == invalid_node_id then pure error_invalid_param else (do
      addr ← ptr_at (get_slot_offset lock_id node_id a.node_count state_offset)
      granted ← compare_exchange addr slot_waiting slot_locked
      if granted then pure success else pure error_busy)

-- The CAS branch of `TwoTierLock::poll_for_grant`.
unfoldable pub is_granted : ℕ → ℕ → ℕ → ℕ → M Bool
is_granted lock_id node_id node_count state_offset = do
  slot_addr ← ptr_at (get_slot_offset lock_id node_id node_count state_offset)
  val ← load slot_addr
  pure (val == slot_locked)

abbrev pub cas_algorithm : GlobalLockAlgorithm Cas
cas_algorithm = record {
  initialize = initialize;
  acquire_lock = acquire_lock;
  release_lock = release_lock;
  check_grant = check_grant;
  grant_lock = grant_lock;
  get_state_size = λ a. get_state_size;
}
