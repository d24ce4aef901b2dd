-- ===== src/Mcs.antt =====
-- src/mcs_global_lock.cpp and include/mcs_global_lock.h: an explicit queue of the waiting nodes,
-- linked through one record per node.
pub mod Layout
pub mod Ops
pub mod Chain
pub mod Queue
pub mod Init
pub mod Fifo
pub mod Hazards
use cxl_dis_lock.Common.{
  ℕ, zero, suc, ◌+◌, ◌*◌, Bool, true, false, not, ◌&&◌, ◌||◌, ltb, leb, ◌==◌, if◌then◌else◌,
}
use cxl_dis_lock.Types.{
  LockResult, success, error_invalid_param, error_not_owner, u64, invalid_node_id, invalid_lock_id,
  max_node_count, max_lock_count,
}
use cxl_dis_lock.Memory.{
  M, pure, ◌>>=◌, ◌>>◌, fault, Ptr, Handle, nullptr, region, field_of, ptr_at, load, store,
  compare_exchange, memset_zero,
}
use cxl_dis_lock.Algorithm.{GlobalLockAlgorithm}

-- `McsLockEntry`, 64 bytes: the offsets of its fields.
abbrev pub tail_node : ℕ
tail_node = 0

abbrev pub head_node : ℕ
head_node = 4

abbrev pub owner_node : ℕ
owner_node = 8

-- `McsNode`, 64 bytes.
abbrev pub next_node : ℕ
next_node = 0

abbrev pub locked : ℕ
locked = 4

abbrev pub waiting_lock : ℕ
waiting_lock = 8

-- The fields of `McsGlobalLockAlgorithm`.
pub record Mcs : Type 0 where
  pub node_count : ℕ

unfoldable pub get_entry_offset : ℕ → ℕ → ℕ
get_entry_offset lock_id state_offset = u64 (state_offset + lock_id * 64)

unfoldable pub get_entry : ℕ → ℕ → M Ptr
get_entry lock_id state_offset = ptr_at (get_entry_offset lock_id state_offset)

unfoldable pub get_node_offset : ℕ → ℕ → ℕ → ℕ
get_node_offset node_id node_count state_offset =
    u64 (state_offset + max_lock_count * 64 + node_id * 64)

unfoldable pub get_node : ℕ → ℕ → ℕ → M Ptr
get_node node_id node_count state_offset = ptr_at (get_node_offset node_id node_count state_offset)

unfoldable pub get_state_size : ℕ → ℕ
get_state_size node_count = u64 (max_lock_count * 64 + node_count * 64)

-- The loop over the entries in `initialize`, `left` rounds from `lid` on.
unfoldable pub init_entries : ℕ → ℕ → ℕ → M (Unit {0})
init_entries state_offset lid zero = pure tt
init_entries state_offset lid (suc left) = do
  entry ← get_entry lid state_offset
  store (field_of entry tail_node) invalid_node_id
  store (field_of entry head_node) invalid_node_id
  store (field_of entry owner_node) invalid_node_id
  init_entries state_offset (lid + 1) left

unfoldable pub init_nodes : ℕ → ℕ → ℕ → ℕ → M (Unit {0})
init_nodes node_count state_offset nid zero = pure tt
init_nodes node_count state_offset nid (suc left) = do
  node ← get_node nid node_count state_offset
  store (field_of node waiting_lock) invalid_lock_id
  init_nodes node_count state_offset (nid + 1) left

unfoldable pub initialize : Mcs → Handle → ℕ → ℕ → M (Mcs × LockResult)
initialize a nullptr state_offset node_count = pure (a, error_invalid_param)
initialize a region state_offset node_count =
    if node_count == 0 || ltb max_node_count node_count then pure (a, error_invalid_param) else (do
      base ← ptr_at state_offset
      memset_zero base (get_state_size node_count)
      init_entries state_offset 0 max_lock_count
      init_nodes node_count state_offset 0 node_count
      pure (record a { node_count = node_count }, success))

-- The guards that `acquire_lock`, `release_lock` and `grant_lock` begin with.
abbrev pub refuses : Mcs → ℕ → ℕ → Bool
refuses a node_id lock_id =
    node_id == invalid_node_id || leb max_lock_count lock_id || leb a.node_count node_id

-- The loop that swaps the tail for `my_id`, at most `rounds` times; the value is `old_tail`.
unfoldable pub swap_tail : ℕ → Ptr → ℕ → ℕ → M ℕ
swap_tail zero entry old_tail my_id = fault
swap_tail (suc rounds) entry old_tail my_id = do
  swapped ← compare_exchange (field_of entry tail_node) old_tail my_id
  if swapped then pure old_tail else (do
    tail ← load (field_of entry tail_node)
    if tail == my_id then pure tail else swap_tail rounds entry tail my_id)

unfoldable pub acquire_lock : ℕ → Mcs → ℕ → ℕ → Handle → ℕ → M LockResult
acquire_lock rounds a node_id lock_id nullptr state_offset = pure error_invalid_param
acquire_lock rounds a node_id lock_id region state_offset =
    if refuses a node_id lock_id then pure error_invalid_param else (do
      node ← get_node node_id a.node_count state_offset
      store (field_of node next_node) invalid_node_id
      store (field_of node locked) 1
      store (field_of node waiting_lock) lock_id
      entry ← get_entry lock_id state_offset
      old_tail ← swap_tail rounds entry invalid_node_id node_id
      if old_tail == invalid_node_id then store (field_of entry head_node) node_id else (do
        pred ← get_node old_tail a.node_count state_offset
        store (field_of pred next_node) node_id)
      pure success)

-- The busy-wait of `release_lock`, at most `rounds` times.
unfoldable pub await_next : ℕ → Ptr → M ℕ
await_next zero node = fault
await_next (suc rounds) node = do
  succ ← load (field_of node next_node)
  if succ == invalid_node_id then await_next rounds node else pure succ

-- The stores that end both paths of `release_lock`.
unfoldable pub reset_node : Ptr → M (Unit {0})
reset_node node = do
  store (field_of node next_node) invalid_node_id
  store (field_of node locked) 0
  store (field_of node waiting_lock) invalid_lock_id

-- Steps 3 and 4 of `release_lock`: the successor gets the lock.
unfoldable pub pass_on : Mcs → ℕ → Ptr → Ptr → ℕ → M LockResult
pass_on a state_offset node entry succ = do
  succ_node ← get_node succ a.node_count state_offset
  store (field_of entry head_node) succ
  store (field_of entry owner_node) succ
  store (field_of succ_node locked) 0
  reset_node node
  pure success

unfoldable pub release_lock : ℕ → Mcs → ℕ → ℕ → Handle → ℕ → M LockResult
release_lock rounds a node_id lock_id nullptr state_offset = pure error_invalid_param
release_lock rounds a node_id lock_id region state_offset =
    if refuses a node_id lock_id then pure error_invalid_param else (do
      node ← get_node node_id a.node_count state_offset
      entry ← get_entry lock_id state_offset
      owner ← load (field_of entry owner_node)
      if not (owner == node_id) then pure error_not_owner else (do
        succ ← load (field_of node next_node)
        if not (succ == invalid_node_id) then pass_on a state_offset node entry succ else (do
          is_last ← compare_exchange (field_of entry tail_node) node_id invalid_node_id
          if is_last
              then (do
                store (field_of entry head_node) invalid_node_id
                store (field_of entry owner_node) invalid_node_id
                reset_node node
                pure success)
              else (do found ← await_next rounds node; pass_on a state_offset node entry found))))

unfoldable pub check_grant : Mcs → ℕ → Handle → ℕ → ℕ → M ℕ
check_grant a lock_id nullptr state_offset node_count = pure invalid_node_id
check_grant a lock_id region state_offset node_count =
    if node_count == 0 || leb max_lock_count lock_id then pure invalid_node_id else (do
      entry ← get_entry lock_id state_offset
      owner ← load (field_of entry owner_node)
      if not (owner == invalid_node_id) then pure invalid_node_id else (do
        head ← load (field_of entry head_node)
        if head == invalid_node_id || leb node_count head then pure invalid_node_id else (do
          node ← get_node head node_count state_offset
          flag ← load (field_of node locked)
          waiting ← load (field_of node waiting_lock)
          if flag == 1 && waiting == lock_id then pure head else pure invalid_node_id)))

unfoldable pub grant_lock : Mcs → ℕ → ℕ → Handle → ℕ → M LockResult
grant_lock a node_id lock_id nullptr state_offset = pure error_invalid_param
grant_lock a node_id lock_id region state_offset =
    if refuses a node_id lock_id then pure error_invalid_param else (do
      node ← get_node node_id a.node_count state_offset
      entry ← get_entry lock_id state_offset
      store (field_of node locked) 2
      store (field_of entry owner_node) node_id
      pure success)

-- The MCS branch of `TwoTierLock::poll_for_grant`.
unfoldable pub is_granted : ℕ → ℕ → ℕ → ℕ → M Bool
is_granted lock_id node_id node_count state_offset = do
  node ← get_node node_id node_count state_offset
  flag ← load (field_of node locked)
  waiting ← load (field_of node waiting_lock)
  pure ((flag == 2 || flag == 0) && waiting == lock_id)

abbrev pub mcs_algorithm : ℕ → GlobalLockAlgorithm Mcs
mcs_algorithm rounds = record {
  initialize = initialize;
  acquire_lock = acquire_lock rounds;
  release_lock = release_lock rounds;
  check_grant = check_grant;
  grant_lock = grant_lock;
  get_state_size = λ a. get_state_size;
}
