-- ===== src/TwoTier/Setup.antt =====
-- The life of a `TwoTierLock` of src/two_tier_lock.cpp, its hashes from data to locks, and how long a
-- round of its poll waits.
use Prim.Native.Nat.{bit_xor}
use cxl_dis_lock.Common.{
  ℕ, ◌+◌, ◌*◌, ◌/◌, ◌%◌, ◌^◌, Bool, true, false, not, ◌||◌, ltb, leb, ◌==◌, if◌then◌else◌, [], ◌∷◌,
  Option, none, some, Bytes,
}
use cxl_dis_lock.Types.{
  LockResult, is_success, success, error_invalid_param, error_unknown, u32, u64, invalid_node_id,
  max_lock_count,
}
use cxl_dis_lock.Memory.{M, pure, ◌>>=◌, Handle, nullptr, region}
use cxl_dis_lock.Algorithm.{GlobalLockAlgorithm}
use cxl_dis_lock.LocalLock.{LocalLockArray}
use cxl_dis_lock.TwoTier.{TwoTierLock}

-- An object without an algorithm, new, after `shutdown` or after a failure, is `none`: it is not initialized,
-- and its other fields are not read then.
abbrev pub is_initialized : {A : Type 0} → Option (TwoTierLock A) → Bool
is_initialized none = false
is_initialized (some lock) = lock.initialized

-- `initialize` after its guards.
unfoldable pub set_up :
    {A : Type 0}
    → GlobalLockAlgorithm A
    → ℕ
    → LocalLockArray
    → A
    → ℕ
    → ℕ
    → ℕ
    → M (Option (TwoTierLock A) × LockResult)
set_up alg node_id local_locks algorithm state_offset max_locks node_count = do
  (started, rc) ← alg.initialize algorithm region state_offset node_count
  if not (is_success rc)
      then pure (none, rc)
      else pure (
        some (record {
          node_id = node_id;
          local_locks = local_locks;
          shm = region;
          algorithm = started;
          state_offset = state_offset;
          max_locks = max_locks;
          node_count = node_count;
          initialized = true;
        }),
        success,
      )

unfoldable pub initialize :
    {A : Type 0}
    → GlobalLockAlgorithm A
    → Option (TwoTierLock A)
    → ℕ
    → Option LocalLockArray
    → Handle
    → Option A
    → ℕ
    → ℕ
    → ℕ
    → M (Option (TwoTierLock A) × LockResult)
initialize alg lock node_id none shm algorithm state_offset max_locks node_count =
    pure (lock, error_invalid_param)
initialize alg lock node_id (some local_locks) nullptr algorithm state_offset max_locks node_count =
    pure (lock, error_invalid_param)
initialize alg lock node_id (some local_locks) region none state_offset max_locks node_count =
    pure (lock, error_invalid_param)
initialize alg lock node_id (some local_locks) region (some algorithm) state_offset max_locks
      node_count =
    if node_id == invalid_node_id
    then pure (lock, error_invalid_param)
    else if max_locks == 0 || ltb max_lock_count max_locks
    then pure (lock, error_invalid_param)
    else if is_initialized lock
    then pure (lock, error_unknown)
    else set_up alg node_id local_locks algorithm state_offset max_locks
        (if ltb 0 node_count then node_count else max_locks)

unfoldable pub shutdown : {A : Type 0} → Option (TwoTierLock A) → Option (TwoTierLock A)
shutdown lock = none

unfoldable pub is_locked : {A : Type 0} → TwoTierLock A → ℕ → Bool
is_locked lock lock_id = false

-- FNV-1a with 64 bits; `bytes[i]` is below 256.
unfoldable pub hash_bytes : ℕ → Bytes → ℕ
hash_bytes hash [] = hash
hash_bytes hash (b ∷ bytes) = hash_bytes (u64 (bit_xor hash b * 1099511628211)) bytes

-- The remainder by zero is a fault.
unfoldable pub lock_of_hash : ℕ → ℕ → Option ℕ
lock_of_hash hash lock_count = if lock_count == 0 then none else some (u32 (hash % lock_count))

unfoldable pub hash_data_to_lock_id : Bytes → ℕ → Option ℕ
hash_data_to_lock_id key lock_count = lock_of_hash (hash_bytes 14695981039346656037 key) lock_count

-- `hash ^= hash >> 33`
abbrev pub mix : ℕ → ℕ
mix hash = bit_xor hash (hash / 2 ^ 33)

-- The overload for an id of 64 bits.
unfoldable pub hash_id_to_lock_id : ℕ → ℕ → Option ℕ
hash_id_to_lock_id data_id lock_count =
    lock_of_hash (mix (u64 (mix (u64 (mix data_id * 0xff51afd7ed558ccd)) * 0xc4ceb9fe1a85ec53)))
      lock_count

-- What `adaptive_backoff` does in its four phases.
pub data Wait : Type 0 where
  pause : ℕ → Wait
  yield : Wait
  sleep_us : ℕ → Wait

unfoldable pub wait_for : ℕ → Wait
wait_for spin_count =
    if leb spin_count 100
    then pause 1
    else if leb spin_count 1000
    then pause 10
    else if leb spin_count 10000
    then yield
    else sleep_us 10

unfoldable pub adaptive_backoff : ℕ → ℕ × Wait
adaptive_backoff spin_count = let next = u32 (spin_count + 1) in (next, wait_for next)
