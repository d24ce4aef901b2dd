-- ===== src/LockManager/Runs.antt =====
-- The loop of the manager's thread in src/lock_manager.cpp, over an algorithm whose calls return.
use cxl_dis_lock.Common.{ℕ, zero, suc, ◌+◌, ◌≤◌, ◌<◌, ◌≡◌, arith, refl, some}
use cxl_dis_lock.Types.{u64, max_lock_count}
use cxl_dis_lock.Memory.{Shm, region}
use cxl_dis_lock.Algorithm.{GlobalLockAlgorithm}
use cxl_dis_lock.LockManager.{Stats, LockManager, run}
use cxl_dis_lock.LockManager.Counters.{IsConsistent}
use cxl_dis_lock.LockManager.Scan.{IsServable, run_single_scan-Counts}

module _ {A : Type 0} {alg : GlobalLockAlgorithm A} {a : A} {base count : ℕ} {Inv : Shm → Type 0}
    (serves : IsServable alg a base count Inv) (few : count < 65535) (manager : LockManager A)
    (at_region : manager.shm ≡ region) (at_base : manager.state_offset ≡ base)
    (at_count : manager.node_count ≡ count) (set : manager.algorithm ≡ some a)
    (most : manager.max_locks ≤ max_lock_count) (others : ℕ → Shm → Shm)
    (keeps : (k : ℕ) (s : Shm) → Inv s → Inv (others k s)) where
  -- From any statistics whose total agrees with the counters by lock, and a memory that the calls of the
  -- algorithm and the other nodes between the scans keep, any number of scans returns, counts as many scan cycles, and keeps both.
  pub run-Counts :
      (cycles : ℕ) (stats : Stats) (s : Shm)
      → Inv s
      → IsConsistent stats
      → (stats' : Stats) × (t : Shm) × (run alg others cycles (record manager { stats = stats }) s
          ≡ some (record manager { stats = stats' }, t))
        × (u64 stats'.scan_cycles ≡ u64 (stats.scan_cycles + cycles))
        × IsConsistent stats'
        × Inv t
  unfolding run
  run-Counts zero stats s inv ok = (stats, s, refl, omega arith, ok, inv)
  run-Counts (suc cycles) stats s inv ok =
      let (st₁, t, here, counted, ok₁, inv₁) =
        run_single_scan-Counts serves few (record manager { stats = stats }) at_region at_base
          at_count set most (others cycles s) (keeps cycles s inv) ok in
      let (st₂, u, rest, all, ok₂, inv₂) = run-Counts cycles st₁ t inv₁ ok₁ in
      (st₂, u, ground (arith, here, rest), omega (arith, counted, all), ok₂, inv₂)
