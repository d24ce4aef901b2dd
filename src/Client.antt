-- ===== src/Client.antt =====
-- Where a client stands in `TwoTierLock::acquire` and `release` of src/two_tier_lock.cpp, and the operations
-- that runs on a lock are made of.
use cxl_dis_lock.Common.{ℕ}

pub data Client : Type 0 where
  idle : Client  -- no request
  polling : Client  -- requested, in `poll_for_grant`
  holding : Client  -- `poll_for_grant` has returned SUCCESS

-- An operation on a lock: by a node, or by the manager.
pub data Event : Type 0 where
  request : ℕ → Event
  scan : Event
  leave : ℕ → Event
