-- ===== src/Examples/Running.antt =====
-- A system of src/distributed_lock.cpp that runs, with the CAS lock for 16 locks and 4 nodes on a region of
-- one megabyte, and a manager.
use cxl_dis_lock.Common.{
  ℕ, suc, ◌+◌, ◌≡◌, refl, arith, ap, Bool, true, false, none, some, codes, total_zero,
}
use cxl_dis_lock.Types.{is_success, success, software_consistency, slot_locked, slot_waiting, u64}
use cxl_dis_lock.Memory.{Shm, null_base, region}
use cxl_dis_lock.Region.{Os, Region}
use cxl_dis_lock.LocalLock.{LocalLockArray}
use cxl_dis_lock.LocalLock.Setup.{MutexSetup}
use cxl_dis_lock.TwoTier.{TwoTierLock}
use cxl_dis_lock.Memory.Access.{put, put-IsOpen}
use cxl_dis_lock.Cas.{Cas}
use cxl_dis_lock.Cas.Slots.{slot}
use cxl_dis_lock.AnyLock.{AnyLock, cas, any_algorithm}
use cxl_dis_lock.LockManager.{LockManager, Stats, new_manager, run, run_single_scan}
use cxl_dis_lock.LockManager.Counters.{IsConsistent}
use cxl_dis_lock.LockManager.Servers.{Ready}
use cxl_dis_lock.DistributedLock.{Config, DistributedLockSystem, Platform}
use cxl_dis_lock.DistributedLock.Calls.{acquire_lock, release_lock}
use cxl_dis_lock.DistributedLock.Parts.{IsEquipped}
use cxl_dis_lock.DistributedLock.Undo.{IsRunning}
use cxl_dis_lock.DistributedLock.Startable.{SetUp, with_algorithms}
use cxl_dis_lock.DistributedLock.Locking.{Leaves, acquire_lock-Leaves, release_lock-Leaves}
use cxl_dis_lock.DistributedLock.Uncontended.{acquire_lock-Succeeds}
use cxl_dis_lock.DistributedLock.Managers.{run-Returns}
use cxl_dis_lock.Examples.Base.{blank, blank-IsOpen}
use cxl_dis_lock.Examples.TwoTier.{mutexes, mutexes-IsOwned}

-- A system that refuses every call.
abbrev os : Os (ℕ → Bool)
os = record {
  is_directory = λ p w. false;
  open_file = λ p c w. (none, w);
  ftruncate = λ fd size w. (false, w);
  mmap = λ fd size sync w. (null_base, (λ i. 0), w);
  munmap = λ a size w. w;
  close = λ fd w. w;
}

abbrev setup : MutexSetup (ℕ → Bool)
setup = record {
  allocate = λ n w. (false, w);
  mutex_init = λ i w. (12, w);
  mutex_destroy = λ i w. w;
  free = λ w. w;
}

abbrev config : Config
config = record {
  shm_device_path = codes "/dev/dax0.0";
  shm_size = 1048576;
  max_nodes = 4;
  max_locks = 16;
  lock_algorithm = codes "cas";
  node_id = 1;
  consistency_mode = software_consistency;
  lock_manager_scan_interval_us = 100;
  use_file_backed_shm = false;
  shm_backing_file = codes "";
}

-- The object before and after its `initialize`.
abbrev first : Cas
first = record { node_count = 0 }

abbrev four_nodes : AnyLock
four_nodes = cas (record { node_count = 4 })

abbrev manager : LockManager AnyLock
manager = record new_manager {
  shm = region;
  algorithm = some four_nodes;
  max_locks = 16;
  node_count = 4;
  running = true;
  initialized = true;
  is_manager = true;
}

abbrev locks : LocalLockArray
locks = record { has_mutexes = true; lock_count = 16; initialized = true }

abbrev tier : TwoTierLock AnyLock
tier = record {
  node_id = 1;
  local_locks = locks;
  shm = region;
  algorithm = four_nodes;
  state_offset = 0;
  max_locks = 16;
  node_count = 4;
  initialized = true;
}

abbrev mapping : Region
mapping = record { shm = blank; fd = some 3; path = codes "/dev/dax0.0" }

abbrev pub sys : DistributedLockSystem AnyLock
sys = record {
  pool = some (record {
    shm = some mapping;
    consistency_mode = software_consistency;
    size = 1048576;
    is_open = true;
  });
  local_locks = some locks;
  two_tier_lock = some (some tier);
  lock_manager = some manager;
  algorithm = some four_nodes;
  config = config;
  node_id = 1;
  is_lock_manager = true;
  initialized = true;
  lock_manager_started = true;
}

pub manager-IsEquipped : IsEquipped (SetUp (cas first)) 16 4 manager
manager-IsEquipped = record {
  object = four_nodes;
  at_object = refl;
  made = (refl, omega arith, omega arith);
  at_region = refl;
  at_base = refl;
  locks = refl;
  few = omega arith;
  nodes = refl;
}

abbrev pub running : IsRunning (SetUp (cas first)) config true sys
running = record {
  ready = refl;
  pool = record {
    pool = record {
      shm = some mapping;
      consistency_mode = software_consistency;
      size = 1048576;
      is_open = true;
    };
    at_pool = refl;
    opened = refl;
    region = mapping;
    at_region = refl;
    is_open = blank-IsOpen;
    size_eq = refl;
  };
  locks = record { locks = locks; at_locks = refl; ready = refl; count = refl };
  tier = record {
    tier = tier;
    at_tier = refl;
    ready = refl;
    over = refl;
    node = refl;
    count = refl;
    few = omega arith;
    nodes = refl;
    made = (refl, omega arith, omega arith);
    at_region = refl;
    at_base = refl;
  };
  manager = λ e. (refl, (manager, refl, refl, manager-IsEquipped));
}

-- Nobody else does anything.
abbrev alone : Platform (ℕ → Bool) AnyLock
alone = with_algorithms os setup mutexes (λ k s. s) (λ k. k) 10

acquire_lock-Leaves_example :
    Leaves os setup mutexes
      (λ k s. s)
      (λ k. k)
      10
      mutexes-IsOwned
      (λ k s o. (o, refl))
      config
      (omega arith)
      (omega arith)
      true
      (cas first)
      refl
      sys
      running
      (omega arith)
      5
      (omega arith)
      (λ i. false)
      is_success
      (acquire_lock alone 1002 5 0)
acquire_lock-Leaves_example =
    acquire_lock-Leaves os setup mutexes (λ k s. s) (λ k. k) 10 mutexes-IsOwned (λ k s o. (o, refl))
      config (omega arith) (omega arith) true (cas first) refl sys running (omega arith) 5
      (omega arith) (λ i. false) refl (0, _, refl)

release_lock-Leaves_example :
    Leaves os setup mutexes
      (λ k s. s)
      (λ k. k)
      10
      mutexes-IsOwned
      (λ k s o. (o, refl))
      config
      (omega arith)
      (omega arith)
      true
      (cas first)
      refl
      sys
      running
      (omega arith)
      5
      (omega arith)
      (λ i. true)
      (λ rc. false)
      (release_lock alone 5)
release_lock-Leaves_example =
    release_lock-Leaves os setup mutexes (λ k s. s) (λ k. k) 10 mutexes-IsOwned (λ k s o. (o, refl))
      config (omega arith) (omega arith) true (cas first) refl sys running (omega arith) 5
      (omega arith) (λ i. true) refl

-- Between two polls the manager scans once.
abbrev scanning : ℕ → Shm → Shm
scanning k s = elim (run_single_scan (any_algorithm 10) manager s) [
  | none ↦ s
  | some (after, t) ↦ t
]

acquire_lock-Succeeds_example :
    (sys' : DistributedLockSystem AnyLock) × (w' : ℕ → Bool) × (acquire_lock
        (with_algorithms os setup mutexes scanning (λ k. k) 10)
        (suc 0)
        5
        100
        (sys, λ i. false)
      ≡ some (success, (sys', w')))
    × ((still : IsRunning (SetUp (cas first)) config true sys') × (slot still.pool.region.shm 0 4 5
            1
          ≡ slot_locked))
acquire_lock-Succeeds_example =
    acquire_lock-Succeeds os setup mutexes scanning (λ k. k) 10 config (omega arith) (omega arith)
      true first manager manager-IsEquipped
      (λ s t after e. ap (λ o. elim o [ none ↦ s | some (x, u) ↦ u ]) e) sys running (λ i. false) _
      5 100 0 (omega arith) (omega arith) refl (λ n h other. refl)

run-Returns_example :
    (stats : Stats) × (t : Shm) × (run
        (any_algorithm 10)
        (λ k s. put s 16 slot_waiting)
        1000
        manager
        blank
      ≡ some (record manager { stats = stats }, t))
    × (u64 stats.scan_cycles ≡ u64 (0 + 1000))
    × IsConsistent stats
    × Ready (cas first) 4 t
run-Returns_example =
    run-Returns (λ k s. put s 16 slot_waiting) 10 (cas first) 16 4 1000 manager blank
      (λ k s o. (put-IsOpen o 16 slot_waiting, refl)) manager-IsEquipped blank-IsOpen (omega arith)
      (omega arith) (omega (arith, total_zero (λ lid. 0) 1024 (λ k. refl)))
