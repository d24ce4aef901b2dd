-- ===== src/Examples/Cas.antt =====
-- src/cas_global_lock.cpp at concrete inputs.
use cxl_dis_lock.Common.{ℕ, ◌≡◌, ◌≤◌, ◌<◌, refl, arith, some}
use cxl_dis_lock.Types.{success, slot_waiting, slot_locked}
use cxl_dis_lock.Memory.{Shm, region, load, store, compare_exchange, offset_to_ptr}
use cxl_dis_lock.Memory.Access.{put}
use cxl_dis_lock.Cas.{
  Cas, get_slot_offset, read_slot_state, write_slot_state, acquire_lock, check_grant, find_locked,
  find_waiting, grant_lock,
}
use cxl_dis_lock.Cas.Layout.{IsReady}
use cxl_dis_lock.Cas.Slots.{slot, slot_at, zeroed, initialize-eq}
use cxl_dis_lock.Cas.Ops.{check_grant-Choice, scan_serves, Choice}
use cxl_dis_lock.Client.{holding}
use cxl_dis_lock.Cas.System.{
  System, boot, request, poll, scan, find, found_none, seek, grant, of_client, of_manager, Reach,
  start, later,
}
use cxl_dis_lock.Cas.System.Exclusion.{mutual_exclusion}
use cxl_dis_lock.Cas.Hazards.{acquire_lock-past, late_start, initialize_regrants}
use cxl_dis_lock.Examples.Base.{blank, blank-IsOpen}

abbrev one_node : Cas
one_node = record { node_count = 1 }

blank-IsReady : (count : ℕ) → 0 < count → count ≤ 4 → IsReady blank 0 count
blank-IsReady count p q = record {
  is_open = blank-IsOpen;
  few = omega arith;
  room = omega arith;
  small = omega arith;
}

-- The only client requests lock 7, the manager scans it and grants, and the client polls.
granted_run :
    (u : System) × Reach one_node 0 1 (boot (zeroed blank 0 1)) u × (u.client 7 0 ≡ holding)
unfolding acquire_lock write_slot_state read_slot_state grant_lock get_slot_offset load store
    compare_exchange offset_to_ptr
granted_run = (
  _,
  later
      (later
        (later
          (later
            (later
              (later (later start (of_client 7 0 (omega arith) (omega arith) (request refl refl)))
                (of_manager (scan 7 (omega arith) refl)))
              (of_manager (find refl (omega arith) refl)))
            (of_manager (found_none refl refl)))
          (of_manager (seek refl (omega arith) refl)))
        (of_manager (grant refl refl)))
      (of_client 7 0 (omega arith) (omega arith) (poll refl refl)),
  refl,
)

mutual_exclusion_example : ◌≡◌ {A = ℕ} 0 0
mutual_exclusion_example =
    mutual_exclusion {s = blank} one_node (blank-IsReady 1 (omega arith) (omega arith))
      (initialize-eq one_node (blank-IsReady 1 (omega arith) (omega arith))) granted_run.1 7 0 0
      (omega arith) (omega arith) (omega arith) granted_run.2 granted_run.2

-- Node 1 of 3 waits for lock 5.
abbrev waiting : Shm
waiting = put blank (slot_at 0 3 5 1) slot_waiting

waiting-IsReady : IsReady waiting 0 3
waiting-IsReady = record {
  is_open = record { is_valid = refl; address = 4096; is_mapped = refl };
  few = omega arith;
  room = omega arith;
  small = omega arith;
}

check_grant_run : check_grant (record { node_count = 3 }) 5 region 0 3 waiting ≡ some (1, waiting)
unfolding check_grant find_locked find_waiting read_slot_state get_slot_offset load offset_to_ptr
check_grant_run = refl

check_grant-Choice_example :
    (g : ℕ) × (check_grant (record { node_count = 3 }) 5 region 0 3 waiting ≡ some (g, waiting))
    × Choice waiting-IsReady 5 (omega arith) g
check_grant-Choice_example =
    check_grant-Choice waiting-IsReady 5 (omega arith) (record { node_count = 3 })

scan_serves_example :
    (g : ℕ) × (g ≤ 1)
    × (slot waiting 0 3 5 g ≡ slot_waiting)
    × (check_grant (record { node_count = 3 }) 5 region 0 3 waiting ≡ some (g, waiting))
    × (grant_lock (record { node_count = 3 }) g 5 region 0 waiting
        ≡ some (success, put waiting (slot_at 0 3 5 g) slot_locked))
scan_serves_example =
    scan_serves waiting-IsReady 5 (omega arith) (record { node_count = 3 }) refl 1 (omega arith)
      refl (λ n lo hi. ground arith)

acquire_lock-past_example :
    acquire_lock (record { node_count = 3 }) 4 5 region 0
    ≡ acquire_lock (record { node_count = 3 }) 1 6 region 0
acquire_lock-past_example = acquire_lock-past (record { node_count = 3 }) 5 1 0 (omega arith)

abbrev locked : Shm
locked = put blank (slot_at 0 3 5 0) slot_locked

initialize_regrants_example :
    (t : Shm) × (late_start (record { node_count = 3 }) 2 5 0 3 locked ≡ some (success, t))
    × (slot t 0 3 5 2 ≡ slot_locked)
initialize_regrants_example =
    initialize_regrants (record { node_count = 3 })
      (record {
        is_open = record { is_valid = refl; address = 4096; is_mapped = refl };
        few = omega arith;
        room = omega arith;
        small = omega arith;
      })
      5 0 2 (omega arith) (omega arith) (omega arith) refl
