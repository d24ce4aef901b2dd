-- ===== src/Mcs/Hazards.antt =====
-- What a node that gives up leaves behind in the queue of src/mcs_global_lock.cpp.
use cxl_dis_lock.Common.{ℕ, ◌<◌, ◌≡◌, arith, List, ◌∷◌, some, true, false}
use cxl_dis_lock.Types.{success, error_not_owner, max_lock_count}
use cxl_dis_lock.Memory.{Shm, region}
use cxl_dis_lock.Mcs.{Mcs, release_lock, check_grant, grant_lock}
use cxl_dis_lock.Mcs.Chain.{Chain-bound}
use cxl_dis_lock.Mcs.Ops.{release_lock-eq_not_owner}
use cxl_dis_lock.Mcs.Queue.{Holds, check_grant-Holds, grant_lock-Holds}

-- If the head of the queue of lock `l` waits for the manager and cancels its request by `release_lock`,
-- as `TwoTierLock::acquire` does after a timeout, then the call returns ERROR_NOT_OWNER and changes
-- nothing: the next `check_grant` still names the node, and the `grant_lock` that follows gives it the
-- lock.
pub cancelled_head-Holds :
    {s : Shm} {base count l : ℕ}
    → l < max_lock_count
    → (a : Mcs) → a.node_count ≡ count
    → (rounds n : ℕ) (ms : List ℕ) → Holds s base count l (n ∷ ms) false
    → (t : Shm) × (release_lock rounds a n l region base s ≡ some (error_not_owner, s))
      × (check_grant a l region base count s ≡ some (n, s))
      × (grant_lock a n l region base s ≡ some (success, t))
      × Holds t base count l (n ∷ ms) true
cancelled_head-Holds {s} {base} {count} {l} hl a own rounds n ms h =
    let hn = Chain-bound base count l s n ms h.queue.4 in
    let (t, given, after) = grant_lock-Holds hl a own n ms h in
    (
      t,
      release_lock-eq_not_owner h.ready l n hl hn a own rounds
          (ground (arith, h.queue.2, hn, h.ready.few)),
      check_grant-Holds hl a own (n ∷ ms) false h,
      given,
      after,
    )
