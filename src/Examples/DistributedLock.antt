-- ===== src/Examples/DistributedLock.antt =====
-- src/distributed_lock.cpp at concrete inputs: the process of Examples.Process and the four algorithms.
use cxl_dis_lock.Common.{equal, ◌≡◌, arith, refl, true, false, Bytes, codes, some, none}
use cxl_dis_lock.Types.{software_consistency}
use cxl_dis_lock.AnyLock.{AnyLock, mcs, algorithm_named}
use cxl_dis_lock.DistributedLock.{Config, Platform}
use cxl_dis_lock.DistributedLock.Setup.{new_system, initialize}
use cxl_dis_lock.DistributedLock.Stages.{Ends}
use cxl_dis_lock.DistributedLock.Startable.{SetUp, with_algorithms, initialize-Ends}
use cxl_dis_lock.DistributedLock.Undo.{Outcome}
use cxl_dis_lock.DistributedLock.Ending.{Misconfigured, initialize_unknown}
use cxl_dis_lock.Examples.Process.{Process, idle, os, os-nonnull, setup, mutexes}

abbrev platform : Platform Process AnyLock
platform = with_algorithms os setup mutexes (λ k s. s) (λ k. k) 10

abbrev config : Bytes → Config
config name = record {
  shm_device_path = codes "/dev/dax0.0";
  shm_size = 1048576;
  max_nodes = 4;
  max_locks = 16;
  lock_algorithm = name;
  node_id = 1;
  consistency_mode = software_consistency;
  lock_manager_scan_interval_us = 100;
  use_file_backed_shm = true;
  shm_backing_file = codes "/tmp/a";
}

named_mcs : algorithm_named (codes "mcs") ≡ some (mcs (record { node_count = 0 }))
unfolding algorithm_named equal
named_mcs = refl

named_dog : algorithm_named (codes "dog") ≡ none
unfolding algorithm_named equal
named_dog = refl

initialize-Ends_example :
    Ends
      (Outcome (SetUp (mcs (record { node_count = 0 }))) (config (codes "mcs")) true)
      (initialize platform (config (codes "mcs")) true (new_system, idle))
initialize-Ends_example =
    initialize-Ends os setup mutexes (λ k s. s) (λ k. k) 10 (config (codes "mcs")) true
      (mcs (record { node_count = 0 })) new_system idle os-nonnull named_mcs (omega arith)
      (omega arith) refl

initialize_unknown_example :
    Ends
      (Misconfigured platform 1048576)
      (initialize platform (config (codes "dog")) false (new_system, idle))
initialize_unknown_example =
    initialize_unknown platform os-nonnull (config (codes "dog")) false new_system idle
      (λ e. ground (arith, e)) named_dog refl

abbrev no_locks : Config
no_locks = record (config (codes "mcs")) { max_locks = 0 }
