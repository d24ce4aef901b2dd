-- ===== src/Cas/System.antt =====
-- The clients of src/two_tier_lock.cpp and the scan of src/lock_manager.cpp over the CAS algorithm,
-- interleaved in any order, one access to a slot at a time. The mutex of a node for a lock leaves
-- one client at a time for each lock and node, so a client is named by the two.
pub mod Exclusion
use cxl_dis_lock.Common.{ℕ, ◌+◌, ◌<◌, ◌≡◌, ◌≢◌, ◌&&◌, some, ◌==◌, if◌then◌else◌}
use cxl_dis_lock.Types.{LockResult, success, slot_waiting, slot_locked, max_lock_count}
use cxl_dis_lock.Memory.{Shm, region}
use cxl_dis_lock.Client.{Client, idle, polling, holding}
use cxl_dis_lock.Cas.{Cas, read_slot_state, acquire_lock, release_lock, grant_lock}

-- Where the manager stands in `run_single_scan`, with the lock and the node that it looks at.
pub data Manager : Type 0 where
  resting : Manager
  finding : (lock_id nid : ℕ) → Manager  -- the first loop of `check_grant`
  seeking : (lock_id nid : ℕ) → Manager  -- its second loop
  granting : (lock_id nid : ℕ) → Manager  -- before the compare-exchange of `grant_lock`

pub record System : Type 0 where
  pub shm : Shm
  pub client : ℕ → ℕ → Client
  pub manager : Manager

-- Every client before its first request, and the manager between two scans.
abbrev pub boot : Shm → System
boot t = record { shm = t; client = λ l n. idle; manager = resting }

abbrev pub set_client : (ℕ → ℕ → Client) → ℕ → ℕ → Client → ℕ → ℕ → Client
set_client f l n c m k = if l == m && n == k then c else f m k

abbrev pub client_step : System → Shm → ℕ → ℕ → Client → System
client_step s t l n c = record s { shm = t; client = set_client s.client l n c }

abbrev pub manager_step : System → Shm → Manager → System
manager_step s t m = record s { shm = t; manager = m }

module _ (a : Cas) (base count : ℕ) where
  -- A step of client `n` of lock `l`. `acquire_lock` and `release_lock` are one store each.
  pub data ClientStep (s : System) (l n : ℕ) : System → Type 0 where
    request :
        {t : Shm}
        → s.client l n ≡ idle
        → acquire_lock a n l region base s.shm ≡ some (success, t)
        → ClientStep s l n (client_step s t l n polling)
    poll :
        {t : Shm} {st : ℕ}
        → s.client l n ≡ polling
        → read_slot_state l n count base s.shm ≡ some (st, t)
        → ClientStep s l n (client_step s t l n (if st == slot_locked then holding else polling))
    cancel :
        {t : Shm}
        → s.client l n ≡ polling
        → release_lock a n l region base s.shm ≡ some (success, t)
        → ClientStep s l n (client_step s t l n idle)
    leave :
        {t : Shm}
        → s.client l n ≡ holding
        → release_lock a n l region base s.shm ≡ some (success, t)
        → ClientStep s l n (client_step s t l n idle)

  -- A step of the manager. A scan reads one slot at a time.
  pub data ManagerStep (s : System) : System → Type 0 where
    scan :
        (l : ℕ)
        → l < max_lock_count
        → s.manager ≡ resting
        → ManagerStep s (manager_step s s.shm (finding l 0))
    find :
        {t : Shm} {l n st : ℕ}
        → s.manager ≡ finding l n
        → n < count
        → read_slot_state l n count base s.shm ≡ some (st, t)
        → ManagerStep s
            (manager_step s t (if st == slot_locked then resting else finding l (n + 1)))
    found_none :
        {l n : ℕ}
        → s.manager ≡ finding l n
        → n ≡ count
        → ManagerStep s (manager_step s s.shm (seeking l 0))
    seek :
        {t : Shm} {l n st : ℕ}
        → s.manager ≡ seeking l n
        → n < count
        → read_slot_state l n count base s.shm ≡ some (st, t)
        → ManagerStep s
            (manager_step s t (if st == slot_waiting then granting l n else seeking l (n + 1)))
    give_up :
        {l n : ℕ}
        → s.manager ≡ seeking l n
        → n ≡ count
        → ManagerStep s (manager_step s s.shm resting)
    grant :
        {t : Shm} {l n : ℕ} {rc : LockResult}
        → s.manager ≡ granting l n
        → grant_lock a n l region base s.shm ≡ some (rc, t)
        → ManagerStep s (manager_step s t resting)

  pub data Step (s : System) : System → Type 0 where
    of_client :
        (l n : ℕ) {t : System} → l < max_lock_count → n < count → ClientStep s l n t → Step s t
    of_manager : {t : System} → ManagerStep s t → Step s t

  pub data Reach (s : System) : System → Type 0 where
    start : Reach s s
    later : {t u : System} → Reach s t → Step t u → Reach s u
