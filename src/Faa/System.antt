-- ===== src/Faa/System.antt =====
-- The nodes and the lock manager over one lock of the FAA algorithm, interleaved operation by
-- operation: `acquire_lock` runs as a whole, and so do `check_grant` and the `grant_lock` after it.
pub mod Exclusion
use cxl_dis_lock.Common.{ℕ, ◌+◌, ◌^◌, ◌<◌, ◌≡◌, ◌≢◌, Bool, some, ◌==◌, if◌then◌else◌}
use cxl_dis_lock.Types.{LockResult, success, invalid_node_id}
use cxl_dis_lock.Client.{Client, idle, polling, holding}
use cxl_dis_lock.Memory.{Shm, region}
use cxl_dis_lock.Faa.{
  Faa, next_ticket, acquire_lock, release_lock, check_grant, grant_lock, is_granted,
}
use cxl_dis_lock.Lines.{entry_word}

pub record System : Type 0 where
  pub shm : Shm
  pub client : ℕ → Client

-- Every client before its first request.
abbrev pub boot : Shm → System
boot t = record { shm = t; client = λ n. idle }

abbrev pub set_client : (ℕ → Client) → ℕ → Client → ℕ → Client
set_client f n c m = if n == m then c else f m

abbrev pub moved : System → Shm → ℕ → Client → System
moved s t n c = record { shm = t; client = set_client s.client n c }

module _ (a : Faa) (base count l : ℕ) where
  -- A request is refused a step once 2 ^ 32 - 1 tickets are out: after that they would repeat.
  pub data Step (s : System) : System → Type 0 where
    request :
        (n : ℕ) {t : Shm}
        → n < count
        → s.client n ≡ idle
        → entry_word s.shm base l next_ticket + 1 < 2 ^ 32
        → acquire_lock a n l region base s.shm ≡ some (success, t)
        → Step s (moved s t n polling)
    poll :
        (n : ℕ) {t : Shm} {seen : Bool}
        → n < count
        → s.client n ≡ polling
        → is_granted l n count base s.shm ≡ some (seen, t)
        → Step s (moved s t n (if seen then holding else polling))
    drop :
        (n : ℕ) {t : Shm}
        → n < count
        → s.client n ≢ idle
        → release_lock a n l region base s.shm ≡ some (success, t)
        → Step s (moved s t n idle)
    serve :
        {g : ℕ} {t u : Shm} {rc : LockResult}
        → check_grant a l region base count s.shm ≡ some (g, t)
        → g ≢ invalid_node_id
        → grant_lock a g l region base t ≡ some (rc, u)
        → Step s (record s { shm = u })

  pub data Reach (s : System) : System → Type 0 where
    start : Reach s s
    later : {t u : System} → Reach s t → Step t u → Reach s u
