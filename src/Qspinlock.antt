-- ===== src/Qspinlock.antt =====
-- src/qspinlock_global_lock.cpp and include/qspinlock_global_lock.h: a lock word with a fast path,
-- and a queue of node records behind it.
pub mod Layout
pub mod Ops
pub mod Words
pub mod Grants
pub mod Dead
pub mod Forced
pub mod Queue
pub mod Init
pub mod Hazards
use cxl_dis_lock.Common.{
  ℕ, zero, suc, ◌+◌, ◌*◌, ◌/◌, ◌%◌, ◌-◌, ◌^◌, Bool, true, false, not, ◌&&◌, ◌||◌, ltb, leb, ◌==◌,
  if◌then◌else◌,
}
use cxl_dis_lock.Types.{
  LockResult, success, error_invalid_param, error_not_owner, u32, u64, invalid_node_id,
  invalid_lock_id, max_node_count, max_lock_count,
}
use cxl_dis_lock.Memory.{
  M, pure, ◌>>=◌, ◌>>◌, fault, Ptr, Handle, nullptr, region, field_of, ptr_at, load, store,
  compare_exchange, memset_zero,
}
use cxl_dis_lock.Algorithm.{GlobalLockAlgorithm}

-- `QspinlockEntry`, 64 bytes: the offsets of its fields.
abbrev pub lock_word : ℕ
lock_word = 0

abbrev pub owner_node : ℕ
owner_node = 4

abbrev pub pending_tail : ℕ
pending_tail = 8

abbrev pub grant_in_progress : ℕ
grant_in_progress = 12

-- `QspinNode`, 64 bytes.
abbrev pub next_node : ℕ
next_node = 0

abbrev pub locked : ℕ
locked = 4

abbrev pub waiting_lock : ℕ
waiting_lock = 8

abbrev pub mcs_tail : ℕ
mcs_tail = 12

-- The fields of `QspinlockGlobalLockAlgorithm`.
pub record Qspinlock : Type 0 where
  pub node_count : ℕ

-- The lock word. A mask of ones is a remainder, and the `|` of words without a common bit a sum.
unfoldable pub qspin_locked : ℕ → ℕ
qspin_locked word = word % 2

unfoldable pub qspin_pending : ℕ → ℕ
qspin_pending word = word / 2 % 2

unfoldable pub qspin_tail_idx : ℕ → ℕ
qspin_tail_idx word = word / 4 % 65536

unfoldable pub qspin_set_tail : ℕ → ℕ → ℕ
qspin_set_tail old_word tail_idx = old_word % 4 + u32 (tail_idx * 4)

unfoldable pub qspin_tail_to_node : ℕ → ℕ
qspin_tail_to_node tail_idx = if tail_idx == 0 then invalid_node_id else tail_idx - 1

unfoldable pub qspin_node_to_tail : ℕ → ℕ
qspin_node_to_tail node_id = u32 (node_id + 1)

-- The word with this tail whose locked bit alone is set.
unfoldable pub held_word : ℕ → ℕ
held_word tail_idx = u32 (tail_idx * 4) + 1

unfoldable pub get_entry_offset : ℕ → ℕ → ℕ
get_entry_offset lock_id state_offset = u64 (state_offset + lock_id * 64)

unfoldable pub get_entry : ℕ → ℕ → M Ptr
get_entry lock_id state_offset = ptr_at (get_entry_offset lock_id state_offset)

unfoldable pub get_node_offset : ℕ → ℕ → ℕ → ℕ
get_node_offset node_id node_count state_offset =
    u64 (state_offset + max_lock_count * 64 + node_id * 64)

unfoldable pub get_node : ℕ → ℕ → ℕ → M Ptr
get_node node_id node_count state_offset = ptr_at (get_node_offset node_id node_count state_offset)

unfoldable pub get_state_size : ℕ → ℕ
get_state_size node_count = u64 (max_lock_count * 64 + node_count * 64)

-- The loop over the entries in `initialize`, `left` rounds from `lid` on, and the one over the nodes.
unfoldable pub init_entries : ℕ → ℕ → ℕ → M (Unit {0})
init_entries state_offset lid zero = pure tt
init_entries state_offset lid (suc left) = do
  entry ← get_entry lid state_offset
  store (field_of entry lock_word) 0
  store (field_of entry owner_node) invalid_node_id
  store (field_of entry pending_tail) invalid_node_id
  store (field_of entry grant_in_progress) 0
  init_entries state_offset (lid + 1) left

unfoldable pub init_nodes : ℕ → ℕ → ℕ → ℕ → M (Unit {0})
init_nodes node_count state_offset nid zero = pure tt
init_nodes node_count state_offset nid (suc left) = do
  node ← get_node nid node_count state_offset
  store (field_of node next_node) invalid_node_id
  store (field_of node locked) 0
  store (field_of node waiting_lock) invalid_lock_id
  store (field_of node mcs_tail) 0
  init_nodes node_count state_offset (nid + 1) left

unfoldable pub initialize : Qspinlock → Handle → ℕ → ℕ → M (Qspinlock × LockResult)
initialize a nullptr state_offset node_count = pure (a, error_invalid_param)
initialize a region state_offset node_count =
    if node_count == 0 || ltb max_node_count node_count then pure (a, error_invalid_param) else (do
      base ← ptr_at state_offset
      memset_zero base (get_state_size node_count)
      init_entries state_offset 0 max_lock_count
      init_nodes node_count state_offset 0 node_count
      pure (record a { node_count = node_count }, success))

-- The guards that `acquire_lock`, `release_lock` and `grant_lock` begin with.
abbrev pub refuses : Qspinlock → ℕ → ℕ → Bool
refuses a node_id lock_id =
    node_id == invalid_node_id || leb a.node_count node_id || leb max_lock_count lock_id

-- Step 3 of `acquire_lock`, at most `rounds` attempts.
unfoldable pub join_queue : ℕ → Qspinlock → ℕ → Ptr → ℕ → M LockResult
join_queue zero a node_id entry state_offset = fault
join_queue (suc rounds) a node_id entry state_offset = do
  old_word ← load (field_of entry lock_word)
  swapped ←
      compare_exchange (field_of entry lock_word) old_word
        (qspin_set_tail old_word (qspin_node_to_tail node_id))
  if not swapped then join_queue rounds a node_id entry state_offset else (do
    if qspin_tail_idx old_word == 0 then store (field_of entry pending_tail) node_id else (do
      pred ← get_node (qspin_tail_to_node (qspin_tail_idx old_word)) a.node_count state_offset
      store (field_of pred next_node) node_id)
    pure success)

unfoldable pub acquire_lock : ℕ → Qspinlock → ℕ → ℕ → Handle → ℕ → M LockResult
acquire_lock rounds a node_id lock_id nullptr state_offset = pure error_invalid_param
acquire_lock rounds a node_id lock_id region state_offset =
    if refuses a node_id lock_id then pure error_invalid_param else (do
      node ← get_node node_id a.node_count state_offset
      entry ← get_entry lock_id state_offset
      store (field_of node next_node) invalid_node_id
      store (field_of node locked) 1
      store (field_of node waiting_lock) lock_id
      swapped ←
          compare_exchange (field_of entry lock_word) 0 (held_word (qspin_node_to_tail node_id))
      if swapped
          then (do
            store (field_of node locked) 2
            store (field_of entry owner_node) node_id
            store (field_of entry pending_tail) node_id
            pure success)
          else join_queue rounds a node_id entry state_offset)

-- The bounded busy-wait of `release_lock`: `left` reads of `next_node` at most.
unfoldable pub await_next : ℕ → Ptr → M (Unit {0})
await_next zero node = pure tt
await_next (suc left) node = do
  succ ← load (field_of node next_node)
  if succ == invalid_node_id then await_next left node else pure tt

-- Step 2 of `release_lock`.
unfoldable pub pass_on : Qspinlock → ℕ → Ptr → Ptr → M LockResult
pass_on a state_offset node entry = do
  succ_id ← load (field_of node next_node)
  succ ← get_node succ_id a.node_count state_offset
  store (field_of entry pending_tail) succ_id
  store (field_of entry owner_node) succ_id
  store (field_of entry lock_word) (held_word (qspin_node_to_tail succ_id))
  store (field_of succ locked) 2
  store (field_of node next_node) invalid_node_id
  store (field_of node locked) 0
  store (field_of node waiting_lock) invalid_lock_id
  pure success

-- Step 1 of `release_lock` after its `compare_exchange` did not release the lock. The busy-wait ends
-- when its counter passes 1000000.
unfoldable pub wait_or_force : Qspinlock → ℕ → Ptr → Ptr → M LockResult
wait_or_force a state_offset node entry = do
  await_next 1000001 node
  succ ← load (field_of node next_node)
  if not (succ == invalid_node_id) then pass_on a state_offset node entry else (do
    store (field_of entry owner_node) invalid_node_id
    store (field_of node locked) 0
    store (field_of node waiting_lock) invalid_lock_id
    pure success)

unfoldable pub release_lock : Qspinlock → ℕ → ℕ → Handle → ℕ → M LockResult
release_lock a node_id lock_id nullptr state_offset = pure error_invalid_param
release_lock a node_id lock_id region state_offset =
    if refuses a node_id lock_id then pure error_invalid_param else (do
      node ← get_node node_id a.node_count state_offset
      entry ← get_entry lock_id state_offset
      owner ← load (field_of entry owner_node)
      if not (owner == node_id) then pure error_not_owner else (do
        succ ← load (field_of node next_node)
        if not (succ == invalid_node_id) then pass_on a state_offset node entry else (do
          old_word ← load (field_of entry lock_word)
          let is_tail = qspin_tail_idx old_word == qspin_node_to_tail node_id
          swapped ←
              compare_exchange (field_of entry lock_word) old_word (if is_tail then 0 else old_word)
          if not (swapped && is_tail) then wait_or_force a state_offset node entry else (do
            store (field_of entry pending_tail) invalid_node_id
            store (field_of entry owner_node) invalid_node_id
            store (field_of node next_node) invalid_node_id
            store (field_of node locked) 0
            store (field_of node waiting_lock) invalid_lock_id
            pure success))))

unfoldable pub check_grant : Qspinlock → ℕ → Handle → ℕ → ℕ → M ℕ
check_grant a lock_id nullptr state_offset node_count = pure invalid_node_id
check_grant a lock_id region state_offset node_count =
    if node_count == 0 || leb max_lock_count lock_id then pure invalid_node_id else (do
      entry ← get_entry lock_id state_offset
      word ← load (field_of entry lock_word)
      if not (qspin_locked word == 0) || qspin_tail_idx word == 0 then pure invalid_node_id else (do
        gip ← load (field_of entry grant_in_progress)
        if not (gip == 0) then pure invalid_node_id else (do
          head ← load (field_of entry pending_tail)
          if head == invalid_node_id || leb node_count head then pure invalid_node_id else (do
            node ← get_node head node_count state_offset
            flag ← load (field_of node locked)
            waiting ← load (field_of node waiting_lock)
            if not (flag == 1) || not (waiting == lock_id)
                then pure invalid_node_id
                else (do store (field_of entry grant_in_progress) 1; pure head)))))

unfoldable pub grant_lock : Qspinlock → ℕ → ℕ → Handle → ℕ → M LockResult
grant_lock a node_id lock_id nullptr state_offset = pure error_invalid_param
grant_lock a node_id lock_id region state_offset =
    if refuses a node_id lock_id then pure error_invalid_param else (do
      entry ← get_entry lock_id state_offset
      node ← get_node node_id a.node_count state_offset
      store (field_of node locked) 2
      store (field_of entry owner_node) node_id
      store (field_of entry lock_word) (held_word (qspin_node_to_tail node_id))
      next_head ← load (field_of node next_node)
      store (field_of entry pending_tail) next_head
      store (field_of entry grant_in_progress) 0
      pure success)

-- The qspinlock branch of `TwoTierLock::poll_for_grant`.
unfoldable pub is_granted : ℕ → ℕ → ℕ → ℕ → M Bool
is_granted lock_id node_id node_count state_offset = do
  node ← get_node node_id node_count state_offset
  flag ← load (field_of node locked)
  waiting ← load (field_of node waiting_lock)
  pure (flag == 2 && waiting == lock_id)

abbrev pub qspinlock_algorithm : ℕ → GlobalLockAlgorithm Qspinlock
qspinlock_algorithm rounds = record {
  initialize = initialize;
  acquire_lock = acquire_lock rounds;
  release_lock = release_lock;
  check_grant = check_grant;
  grant_lock = grant_lock;
  get_state_size = λ a. get_state_size;
}
