-- ===== src/Examples/Closing.antt =====
-- `shutdown` of src/distributed_lock.cpp on the system of Examples.Running, in the process of Examples.Process.
use cxl_dis_lock.Common.{◌+◌, ◌≡◌, refl, arith, some}
use cxl_dis_lock.AnyLock.{AnyLock}
use cxl_dis_lock.DistributedLock.{DistributedLockSystem, Platform}
use cxl_dis_lock.DistributedLock.Setup.{shutdown}
use cxl_dis_lock.DistributedLock.Startable.{with_algorithms}
use cxl_dis_lock.DistributedLock.Ending.{Stopped}
use cxl_dis_lock.DistributedLock.Closing.{IsApart, shutdown-Releases}
use cxl_dis_lock.Examples.Process.{
  Process, os, setup, mutexes, os-IsCounted, os-nonnull, setup-IsCounted,
}
use cxl_dis_lock.Examples.Running.{sys, running}

abbrev platform : Platform Process AnyLock
platform = with_algorithms os setup mutexes (λ k s. s) (λ k. k) 10

-- Three files are open, of which one is that of the pool, and there are two mappings and two arrays.
abbrev busy : Process
busy = record { files = 3; maps = 2; live = 20; arrays = 2 }

os-IsApart : IsApart os setup (λ w. w.files) (λ w. w.maps) (λ w. w.live) (λ w. w.arrays)
os-IsApart = record {
  destroys = λ i w. (refl, refl);
  frees = λ w. (refl, refl);
  munmaps = λ a size w. (refl, refl);
  closes = λ fd w. (refl, refl);
}

shutdown-Releases_example :
    (t : DistributedLockSystem AnyLock) × (v : Process) × (shutdown platform (sys, busy)
      ≡ some (tt, (t, v)))
    × Stopped platform tt t
    × (v.files + 1 ≡ 3)
    × (v.maps + 1 ≡ 2)
    × (v.live + 16 ≡ 20)
    × (v.arrays + 1 ≡ 2)
shutdown-Releases_example =
    shutdown-Releases platform (λ w. w.files) (λ w. w.maps) (λ w. w.live) (λ w. w.arrays) os-IsApart
      setup-IsCounted os-IsCounted os-nonnull 1048576 16 sys busy refl (running.pool)
      (running.locks) refl (omega arith) (omega arith) (omega arith) (omega arith)
