-- ===== src/AnyLock/Room.antt =====
-- A region of 262144 bytes, which is 1024 locks of 64 nodes in words, has room for the state of every
-- algorithm.
use cxl_dis_lock.Common.{ℕ, ◌^◌, ◌*◌, ◌≤◌, ◌<◌, arith}
use cxl_dis_lock.Types.{max_node_count}
use cxl_dis_lock.Memory.{Shm, IsOpen}
use cxl_dis_lock.Cas.Layout as CasLayout
use cxl_dis_lock.Lines.{IsReady}

module _ {s : Shm} {n : ℕ} (opened : IsOpen s) (room : 4096 * 64 ≤ s.size) (small : s.size < 2 ^ 64)
    (some_nodes : 0 < n) (few : n ≤ max_node_count) where
  pub slots-IsReady : CasLayout.IsReady s 0 n
  slots-IsReady = record {
    is_open = opened;
    few = (some_nodes, few);
    room = omega (arith, room, few);
    small = small;
  }

  pub lines-IsReady : IsReady s 0 n
  lines-IsReady = record {
    is_open = opened;
    few = (some_nodes, few);
    room = omega (arith, room, few);
    small = small;
  }
