-- ===== src/Examples/LockManager.antt =====
-- src/lock_manager.cpp at concrete inputs: one scan of two locks with the CAS lock.
use cxl_dis_lock.Common.{ℕ, ◌<◌, ◌≡◌, refl, arith, some, true}
use cxl_dis_lock.Types.{slot_waiting}
use cxl_dis_lock.Memory.{Shm, region}
use cxl_dis_lock.Cas.{Cas, cas_algorithm}
use cxl_dis_lock.Cas.Layout.{IsReady}
use cxl_dis_lock.LockManager.{LockManager, new_manager, run_single_scan}
use cxl_dis_lock.LockManager.Service.{Pending, Served, run_single_scan-Serves}
use cxl_dis_lock.Memory.Access.{put, put-IsOpen}
use cxl_dis_lock.Cas.Slots.{slot_at}
use cxl_dis_lock.Examples.Base.{blank, blank-IsOpen}

abbrev three_nodes : Cas
three_nodes = record { node_count = 3 }

abbrev manager : LockManager Cas
manager = record new_manager {
  shm = region;
  algorithm = some three_nodes;
  max_locks = 2;
  node_count = 3;
  initialized = true;
  is_manager = true;
}

-- Node 2 waits for lock 1.
abbrev one_waits : Shm
one_waits = put blank (slot_at 0 3 1 2) slot_waiting

run_single_scan-Serves_example :
    (after : LockManager Cas) × (t : Shm) × (run_single_scan cas_algorithm manager one_waits
      ≡ some (after, t))
    × IsReady t 0 3
    × (t.size ≡ one_waits.size)
    × ((l : ℕ) → l < 2 → Pending 0 3 one_waits l → Served 0 3 one_waits t l)
run_single_scan-Serves_example =
    run_single_scan-Serves cas_algorithm three_nodes three_nodes 0 3 refl (λ l s. refl)
      (λ n l s. refl) manager refl refl refl refl (omega arith) one_waits
      (record {
        is_open = put-IsOpen blank-IsOpen (slot_at 0 3 1 2) slot_waiting;
        few = omega arith;
        room = omega arith;
        small = omega arith;
      })

-- Lock 1 is one that the scan serves.
one_waits-Pending : Pending 0 3 one_waits 1
one_waits-Pending = ((2, omega arith, refl), λ n hn. ground arith)
