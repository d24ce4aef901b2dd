-- ===== src/Faa.antt =====
-- src/faa_global_lock.cpp and include/faa_global_lock.h: a ticket lock. A node takes a ticket and
-- publishes it in its record; the lock manager serves the smallest ticket that is published.
pub mod Layout
pub mod Ops
pub mod Choice
pub mod Init
pub mod System
pub mod Hazards
use cxl_dis_lock.Common.{
  ℕ, zero, suc, ◌+◌, ◌*◌, ◌-◌, ◌^◌, Bool, true, false, not, ◌&&◌, ◌||◌, ltb, leb, ◌==◌,
  if◌then◌else◌,
}
use cxl_dis_lock.Types.{
  LockResult, success, error_invalid_param, u32, u64, invalid_node_id, max_node_count,
  max_lock_count,
}
use cxl_dis_lock.Memory.{
  M, pure, ◌>>=◌, ◌>>◌, Ptr, Handle, nullptr, region, field_of, ptr_at, load, store, fetch_add,
  memset_zero,
}
use cxl_dis_lock.Algorithm.{GlobalLockAlgorithm}

-- `FaaGlobalLockEntry`, 64 bytes: the offsets of its fields.
abbrev pub next_ticket : ℕ
next_ticket = 0

abbrev pub now_serving : ℕ
now_serving = 4

abbrev pub owner_node : ℕ
owner_node = 8

abbrev pub padding : ℕ
padding = 12

-- `FaaNodeTicket`, 64 bytes.
abbrev pub ticket : ℕ
ticket = 0

abbrev pub active : ℕ
active = 4

-- The fields of `FaaGlobalLockAlgorithm`.
pub record Faa : Type 0 where
  pub node_count : ℕ

unfoldable pub get_entry_offset : ℕ → ℕ → ℕ
get_entry_offset lock_id state_offset = u64 (state_offset + lock_id * 64)

unfoldable pub get_entry : ℕ → ℕ → M Ptr
get_entry lock_id state_offset = ptr_at (get_entry_offset lock_id state_offset)

unfoldable pub get_ticket_offset : ℕ → ℕ → ℕ → ℕ
get_ticket_offset node_id node_count state_offset =
    u64 (state_offset + max_lock_count * 64 + node_id * 64)

unfoldable pub get_ticket : ℕ → ℕ → ℕ → M Ptr
get_ticket node_id node_count state_offset =
    ptr_at (get_ticket_offset node_id node_count state_offset)

unfoldable pub get_state_size : ℕ → ℕ
get_state_size node_count = u64 (max_lock_count * 64 + node_count * 64)

-- The loop over the entries in `initialize`, `left` rounds from `lid` on.
unfoldable pub init_entries : ℕ → ℕ → ℕ → M (Unit {0})
init_entries state_offset lid zero = pure tt
init_entries state_offset lid (suc left) = do
  entry ← get_entry lid state_offset
  store (field_of entry next_ticket) 0
  store (field_of entry now_serving) 0
  store (field_of entry owner_node) invalid_node_id
  store (field_of entry padding) 0
  init_entries state_offset (lid + 1) left

unfoldable pub init_tickets : ℕ → ℕ → ℕ → ℕ → M (Unit {0})
init_tickets node_count state_offset nid zero = pure tt
init_tickets node_count state_offset nid (suc left) = do
  t ← get_ticket nid node_count state_offset
  store (field_of t ticket) 0
  store (field_of t active) 0
  init_tickets node_count state_offset (nid + 1) left

unfoldable pub initialize : Faa → Handle → ℕ → ℕ → M (Faa × LockResult)
initialize a nullptr state_offset node_count = pure (a, error_invalid_param)
initialize a region state_offset node_count =
    if node_count == 0 || ltb max_node_count node_count then pure (a, error_invalid_param) else (do
      base ← ptr_at state_offset
      memset_zero base (get_state_size node_count)
      init_entries state_offset 0 max_lock_count
      init_tickets node_count state_offset 0 node_count
      pure (record a { node_count = node_count }, success))

-- Step 1 of `acquire_lock`: the fetch-and-add.
unfoldable pub take_ticket : ℕ → ℕ → M ℕ
take_ticket lock_id state_offset = do
  entry ← get_entry lock_id state_offset
  fetch_add (field_of entry next_ticket) 1

-- Step 2 of `acquire_lock`: the node's record. Other nodes may run between the two.
unfoldable pub publish_ticket : Faa → ℕ → ℕ → ℕ → M (Unit {0})
publish_ticket a node_id my_ticket state_offset = do
  nt ← get_ticket node_id a.node_count state_offset
  store (field_of nt ticket) my_ticket
  store (field_of nt active) 1

unfoldable pub acquire_lock : Faa → ℕ → ℕ → Handle → ℕ → M LockResult
acquire_lock a node_id lock_id nullptr state_offset = pure error_invalid_param
acquire_lock a node_id lock_id region state_offset =
    if node_id == invalid_node_id then pure error_invalid_param else (do
      my_ticket ← take_ticket lock_id state_offset
      publish_ticket a node_id my_ticket state_offset
      pure success)

unfoldable pub release_lock : Faa → ℕ → ℕ → Handle → ℕ → M LockResult
release_lock a node_id lock_id nullptr state_offset = pure error_invalid_param
release_lock a node_id lock_id region state_offset =
    if node_id == invalid_node_id then pure error_invalid_param else (do
      nt ← get_ticket node_id a.node_count state_offset
      store (field_of nt ticket) 0
      store (field_of nt active) 0
      entry ← get_entry lock_id state_offset
      store (field_of entry owner_node) invalid_node_id
      pure success)

-- The loop of `check_grant`, `left` rounds from `nid` on.
unfoldable pub find_min : ℕ → ℕ → ℕ → ℕ → ℕ → ℕ → M ℕ
find_min node_count state_offset nid zero min_ticket min_node = pure min_node
find_min node_count state_offset nid (suc left) min_ticket min_node = do
  nt ← get_ticket nid node_count state_offset
  is_active ← load (field_of nt active)
  if is_active == 0
      then find_min node_count state_offset (nid + 1) left min_ticket min_node
      else (do
        t ← load (field_of nt ticket)
        if ltb t min_ticket
            then find_min node_count state_offset (nid + 1) left t nid
            else find_min node_count state_offset (nid + 1) left min_ticket min_node)

unfoldable pub check_grant : Faa → ℕ → Handle → ℕ → ℕ → M ℕ
check_grant a lock_id nullptr state_offset node_count = pure invalid_node_id
check_grant a lock_id region state_offset node_count =
    if node_count == 0 then pure invalid_node_id else (do
      entry ← get_entry lock_id state_offset
      owner ← load (field_of entry owner_node)
      if not (owner == invalid_node_id)
          then pure invalid_node_id
          else find_min node_count state_offset 0 node_count (2 ^ 32 - 1) invalid_node_id)

unfoldable pub grant_lock : Faa → ℕ → ℕ → Handle → ℕ → M LockResult
grant_lock a node_id lock_id nullptr state_offset = pure error_invalid_param
grant_lock a node_id lock_id region state_offset =
    if node_id == invalid_node_id then pure error_invalid_param else (do
      entry ← get_entry lock_id state_offset
      nt ← get_ticket node_id a.node_count state_offset
      grant_ticket ← load (field_of nt ticket)
      store (field_of entry owner_node) node_id
      store (field_of entry now_serving) grant_ticket
      pure success)

-- The FAA branch of `TwoTierLock::poll_for_grant`.
unfoldable pub is_granted : ℕ → ℕ → ℕ → ℕ → M Bool
is_granted lock_id node_id node_count state_offset = do
  entry ← get_entry lock_id state_offset
  serving ← load (field_of entry now_serving)
  nt ← get_ticket node_id node_count state_offset
  my_ticket ← load (field_of nt ticket)
  is_active ← load (field_of nt active)
  pure (leb my_ticket serving && not (is_active == 0))

abbrev pub faa_algorithm : GlobalLockAlgorithm Faa
faa_algorithm = record {
  initialize = initialize;
  acquire_lock = acquire_lock;
  release_lock = release_lock;
  check_grant = check_grant;
  grant_lock = grant_lock;
  get_state_size = λ a. get_state_size;
}
