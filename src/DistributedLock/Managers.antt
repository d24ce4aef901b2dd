-- ===== src/DistributedLock/Managers.antt =====
-- The manager that `initialize` of src/distributed_lock.cpp has started, with any of the four algorithms.
use cxl_dis_lock.Common.{ℕ, ◌+◌, ◌*◌, ◌^◌, ◌≤◌, ◌<◌, ◌≡◌, arith, ap, ◌∙◌, some}
use cxl_dis_lock.Types.{u64, max_node_count}
use cxl_dis_lock.Memory.{Shm, IsOpen}
use cxl_dis_lock.AnyLock.{AnyLock, cas, faa, mcs, qspinlock, any_algorithm}
use cxl_dis_lock.AnyLock.Room.{slots-IsReady, lines-IsReady}
use cxl_dis_lock.LockManager.{Stats, LockManager, run}
use cxl_dis_lock.LockManager.Counters.{IsConsistent}
use cxl_dis_lock.LockManager.Servers.{Ready, any-IsServable}
use cxl_dis_lock.LockManager.Runs.{run-Counts}
use cxl_dis_lock.DistributedLock.Parts.{IsEquipped}
use cxl_dis_lock.Cas.Layout as CasLayout
use cxl_dis_lock.Lines as Lines
use cxl_dis_lock.DistributedLock.Guarded.{Keeps}
use cxl_dis_lock.DistributedLock.Startable.{SetUp}

open-Ready :
    (a : AnyLock) (n : ℕ) {s : Shm}
    → 0 < n
    → n ≤ max_node_count
    → IsOpen s
    → 4096 * 64 ≤ s.size
    → s.size < 2 ^ 64
    → Ready a n s
open-Ready (cas a) n some_nodes few opened room small =
    slots-IsReady opened room small some_nodes few
open-Ready (faa a) n some_nodes few opened room small =
    lines-IsReady opened room small some_nodes few
open-Ready (mcs a) n some_nodes few opened room small =
    lines-IsReady opened room small some_nodes few
open-Ready (qspinlock a) n some_nodes few opened room small =
    lines-IsReady opened room small some_nodes few

-- Other nodes that keep the region open and its size keep the room for the state.
module _ (others : ℕ → Shm → Shm) (kept : Keeps others) where
  slots-Kept : (n k : ℕ) (s : Shm) → CasLayout.IsReady s 0 n → CasLayout.IsReady (others k s) 0 n
  slots-Kept n k s r =
      let (opened, same) = kept k s r.is_open in
      record {
        is_open = opened;
        few = r.few;
        room = omega (arith, r.room, same);
        small = omega (arith, r.small, same);
      }

  lines-Kept : (n k : ℕ) (s : Shm) → Lines.IsReady s 0 n → Lines.IsReady (others k s) 0 n
  lines-Kept n k s r =
      let (opened, same) = kept k s r.is_open in
      record {
        is_open = opened;
        few = r.few;
        room = omega (arith, r.room, same);
        small = omega (arith, r.small, same);
      }

  keeps-Ready : (a : AnyLock) (n k : ℕ) (s : Shm) → Ready a n s → Ready a n (others k s)
  keeps-Ready (cas a) = slots-Kept
  keeps-Ready (faa a) = lines-Kept
  keeps-Ready (mcs a) = lines-Kept
  keeps-Ready (qspinlock a) = lines-Kept

-- A manager that `initialize` has set up with any of the four algorithms, in an open region of 262144 to
-- 2^64 - 1 bytes, whatever stands in it: any number of scans returns and counts as many scan cycles,
-- up to the wrap at 64 bits, whatever other nodes store between two scans, as long as they keep the
-- region open and its size; if the total of the grants was the sum of the grants by lock before, up to
-- that wrap, so it is afterwards; the region stays open.
pub run-Returns :
    (others : ℕ → Shm → Shm) (rounds : ℕ) (a : AnyLock) (max_locks max_nodes cycles : ℕ)
    (manager : LockManager AnyLock) (s : Shm)
    → Keeps others
    → IsEquipped (SetUp a) max_locks max_nodes manager
    → IsOpen s
    → 4096 * 64 ≤ s.size
    → s.size < 2 ^ 64
    → IsConsistent manager.stats
    → (stats : Stats) × (t : Shm) × (run (any_algorithm rounds) others cycles manager s
        ≡ some (record manager { stats = stats }, t))
      × (u64 stats.scan_cycles ≡ u64 (manager.stats.scan_cycles + cycles))
      × IsConsistent stats
      × Ready a max_nodes t
run-Returns others rounds a max_locks max_nodes cycles manager s kept set opened room small ok =
    run-Counts (any-IsServable rounds max_nodes a) (omega (arith, set.made.2)) manager set.at_region
      set.at_base set.nodes (set.at_object ∙ ap (λ o. some o) set.made.0)
      (omega (arith, set.locks, set.few)) others (keeps-Ready others kept a max_nodes) cycles
      manager.stats s (open-Ready a max_nodes set.made.1 set.made.2 opened room small) ok
