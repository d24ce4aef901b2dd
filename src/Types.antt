-- ===== src/Types.antt =====
-- include/lock_types.h: slot states, result codes, sentinels and capacities.
use cxl_dis_lock.Common.{ℕ, Bool, true, false, ◌-◌, ◌%◌, ◌^◌}

-- `enum class LockSlotState : uint32_t`, as the words that stand in memory.
abbrev pub slot_idle : ℕ
slot_idle = 0

abbrev pub slot_waiting : ℕ
slot_waiting = 1

abbrev pub slot_locked : ℕ
slot_locked = 2

-- `static_cast<NodeId>(-1)` and `static_cast<LockId>(-1)` of a uint32_t.
abbrev pub invalid_node_id : ℕ
invalid_node_id = 2 ^ 32 - 1

abbrev pub invalid_lock_id : ℕ
invalid_lock_id = 2 ^ 32 - 1

-- `static_cast<ShmOffset>(-1)` of a uint64_t.
abbrev pub invalid_offset : ℕ
invalid_offset = 2 ^ 64 - 1

abbrev pub max_node_count : ℕ
max_node_count = 64

abbrev pub max_lock_count : ℕ
max_lock_count = 1024

pub data ConsistencyMode : Type 0 where
  software_consistency hardware_consistency : ConsistencyMode

pub data LockResult : Type 0 where
  success : LockResult
  error_invalid_param : LockResult
  error_timeout : LockResult
  error_busy : LockResult
  error_not_owner : LockResult
  error_shm_failure : LockResult
  error_node_not_registered : LockResult
  error_lock_not_initialized : LockResult
  error_unknown : LockResult

abbrev pub is_success : LockResult → Bool
is_success success = true
is_success error_invalid_param = false
is_success error_timeout = false
is_success error_busy = false
is_success error_not_owner = false
is_success error_shm_failure = false
is_success error_node_not_registered = false
is_success error_lock_not_initialized = false
is_success error_unknown = false

-- Unsigned arithmetic wraps.
abbrev pub u32 : ℕ → ℕ
u32 n = n % 2 ^ 32

abbrev pub u64 : ℕ → ℕ
u64 n = n % 2 ^ 64
