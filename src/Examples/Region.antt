-- ===== src/Examples/Region.antt =====
-- src/shared_memory.cpp and src/cxl_memory_pool.cpp at concrete inputs.
use cxl_dis_lock.Common.{
  ℕ, ◌+◌, false, none, set, total, ◌≡◌, arith, refl, true, codes, contains, starts_with, inr, some,
}
use cxl_dis_lock.Types.{LockResult, software_consistency, error_shm_failure}
use cxl_dis_lock.Region.{Region, Config, new_region, init, open_backing, extend, is_dax_device}
use cxl_dis_lock.Region.Outcome.{IsClosed}
use cxl_dis_lock.Region.Moves.{move_assign}
use cxl_dis_lock.Region.Objects.{State, Reach, start, later, construct, opens, assigns}
use cxl_dis_lock.Region.Ledger.{fds, mappings, Sound, Reach-Balanced}
use cxl_dis_lock.Pool.{Pool, new_pool, open_device, open_file_backed}
use cxl_dis_lock.Pool.Sound.{IsSound, IsZero, Opened, open-Opened}
use cxl_dis_lock.Examples.Process.{Process, idle, os, os-IsCounted, os-nonnull}

new_region-IsClosed : IsClosed new_region
new_region-IsClosed = record { not_valid = refl; no_mapping = refl; no_size = refl; no_file = refl }

-- A file that cannot be extended.
abbrev too_large : Config
too_large = record {
  device_path = codes "/tmp/a";
  size = 4194304;
  consistency = software_consistency;
  create = true;
}

init-too_large : (init os new_region too_large idle).0.1 ≡ error_shm_failure
unfolding init open_backing extend is_dax_device contains starts_with
init-too_large = refl

new_pool-IsSound : IsSound new_pool
new_pool-IsSound = record {
  region = new_region;
  has_region = refl;
  holds = inr (refl, new_region-IsClosed, refl);
}

open-Opened_example :
    ((pool' : Pool) × (rc : LockResult) × (w' : Process) × (open_device os new_pool
          (codes "/dev/dax0.0")
          1048576
          software_consistency
          idle
        ≡ some ((pool', rc), w'))
      × IsSound pool'
      × Opened os os-nonnull (λ r. Unit {0}) 1048576 software_consistency pool' rc)
    × ((pool' : Pool) × (rc : LockResult) × (w' : Process) × (open_file_backed os new_pool
            (codes "/dev/dax0.0")
            1048576
            software_consistency
            idle
          ≡ some ((pool', rc), w'))
        × IsSound pool'
        × Opened os os-nonnull (IsZero 1048576) 1048576 software_consistency pool' rc)
open-Opened_example =
    open-Opened os os-nonnull new_pool (codes "/dev/dax0.0") 1048576 software_consistency idle
      new_pool-IsSound refl (λ e. ground (arith, e))

abbrev fits : Config
fits = record too_large { size = 1048576 }

abbrev empty : State Process
empty = record { objects = λ k. none; process = idle }

-- Two objects, of which the first is opened and assigned to the second.
abbrev made : State Process
made = record empty { objects = set (set (λ k. none) 0 (some new_region)) 1 (some new_region) }

abbrev opened : State Process
opened = record {
  objects = set made.objects 0 (some (init os new_region fits idle).0.0);
  process = (init os new_region fits idle).1;
}

abbrev source : Region
source = (init os new_region fits idle).0.0

abbrev moved : State Process
moved = record {
  objects =
      set (set opened.objects 0 (some (move_assign os false new_region source opened.process).0.1))
        1 (some (move_assign os false new_region source opened.process).0.0);
  process = (move_assign os false new_region source opened.process).1;
}

moved-Reach : Reach os 2 empty moved
unfolding move_assign
moved-Reach =
    later
      (later (later (later start (construct 0 (omega arith) refl)) (construct 1 (omega arith) refl))
        (opens 0 new_region fits (omega arith) refl))
      (assigns 1 0 new_region source (omega arith) (omega arith) refl refl)

Reach-Balanced_example :
    (moved.process.files ≡ 0 + total (λ k. fds (moved.objects k)) 2)
    × (moved.process.maps ≡ 0 + total (λ k. mappings (moved.objects k)) 2)
    × ((k : ℕ) → Sound (moved.objects k))
Reach-Balanced_example =
    Reach-Balanced os (λ w. w.files) (λ w. w.maps) os-IsCounted os-nonnull 2 idle moved moved-Reach
