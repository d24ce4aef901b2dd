-- ===== src/Examples/Mcs.antt =====
-- src/mcs_global_lock.cpp at concrete inputs: on lock 5, nodes 0 and 1 queue up, node 0 is granted
-- the lock and hands it to node 1.
use cxl_dis_lock.Common.{ℕ, ◌≡◌, refl, arith, some, Bool, true, false, List, [], ◌∷◌, ◌++◌}
use cxl_dis_lock.Types.{LockResult, success, error_not_owner, invalid_node_id}
use cxl_dis_lock.Memory.{Shm, M, region}
use cxl_dis_lock.Memory.Access.{put, put-IsOpen}
use cxl_dis_lock.Mcs.{
  Mcs, initialize, tail_node, head_node, owner_node, acquire_lock, release_lock, check_grant,
  grant_lock,
}
use cxl_dis_lock.Lines.{entry_at}
use cxl_dis_lock.Mcs.Queue.{Holds, acquire_lock-Holds}
use cxl_dis_lock.Client.{Event, request, scan, leave}
use cxl_dis_lock.Mcs.Fifo.{
  run, Trace, done, joins, scans, leaves, requests, releases, Polls, run-Fifo,
}
use cxl_dis_lock.Mcs.Hazards.{cancelled_head-Holds}
use cxl_dis_lock.Examples.Base.{blank, blank-IsOpen}

abbrev two_nodes : Mcs
two_nodes = record { node_count = 2 }

-- Lock 5 as `initialize` leaves it.
abbrev idle_lock : Shm
idle_lock =
    put
      (put (put blank (entry_at 0 5 tail_node) invalid_node_id) (entry_at 0 5 head_node)
        invalid_node_id)
      (entry_at 0 5 owner_node) invalid_node_id

nobody : Holds idle_lock 0 2 5 [] false
nobody = record {
  ready = record {
    is_open =
        put-IsOpen
          (put-IsOpen (put-IsOpen blank-IsOpen (entry_at 0 5 tail_node) invalid_node_id)
            (entry_at 0 5 head_node) invalid_node_id)
          (entry_at 0 5 owner_node) invalid_node_id;
    few = omega arith;
    room = omega arith;
    small = omega arith;
  };
  queue = (refl, refl, refl, refl);
}

-- `op` succeeds on `s` and leaves `q` queued.
abbrev Leads : M LockResult → Shm → List ℕ → Bool → Type 0
Leads op s q held = (t : Shm) × (op s ≡ some (success, t)) × Holds t 0 2 5 q held

one : Leads (acquire_lock 2 two_nodes 0 5 region 0) idle_lock (0 ∷ []) false
one = acquire_lock-Holds {l = 5} (omega arith) two_nodes refl 0 0 [] (omega arith) tt nobody

two : Leads (acquire_lock 2 two_nodes 1 5 region 0) (one.0) (0 ∷ 1 ∷ []) false
two =
    acquire_lock-Holds {l = 5} (omega arith) two_nodes refl 0 1 (0 ∷ []) (omega arith)
      (omega arith, tt) (one.2)

cancelled_head-Holds_example :
    (t : Shm) × (release_lock 0 two_nodes 0 5 region 0 (two.0) ≡ some (error_not_owner, two.0))
    × (check_grant two_nodes 5 region 0 2 (two.0) ≡ some (0, two.0))
    × (grant_lock two_nodes 0 5 region 0 (two.0) ≡ some (success, t))
    × Holds t 0 2 5 (0 ∷ 1 ∷ []) true
cancelled_head-Holds_example =
    cancelled_head-Holds {l = 5} (omega arith) two_nodes refl 0 0 (1 ∷ []) (two.2)

-- Nodes 0 and 1 ask for lock 5, a scan gives it to node 0, which releases it.
abbrev events : List Event
events = request 0 ∷ request 1 ∷ scan ∷ leave 0 ∷ []

events-Trace : Trace 2 events [] false (1 ∷ []) true
events-Trace =
    joins 0 (omega arith) tt (joins 1 (omega arith) (omega arith, tt) (scans (leaves done)))

run-Fifo_example :
    (b : Mcs) × (t : Shm) × (u : Shm) × (initialize two_nodes region 0 2 blank
      ≡ some ((b, success), t))
    × (run b 5 0 2 events t ≡ some (success, u))
    × Holds u 0 2 5 (1 ∷ []) true
    × (requests events ≡ releases events ++ 1 ∷ [])
    × Polls 0 2 5 u true (1 ∷ [])
run-Fifo_example =
    run-Fifo two_nodes
      (record {
        is_open = blank-IsOpen;
        few = omega arith;
        room = omega arith;
        small = omega arith;
      })
      (omega arith) events-Trace
