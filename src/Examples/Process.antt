-- ===== src/Examples/Process.antt =====
-- A process with its descriptors, mappings and mutexes counted, for src/shared_memory.cpp,
-- src/local_lock.cpp and src/distributed_lock.cpp at concrete inputs.
use cxl_dis_lock.Common.{ℕ, ◌+◌, ◌-◌, ◌≢◌, arith, refl, Bool, true, false, ltb, if◌then◌else◌, some}
use cxl_dis_lock.Memory.{mapped, null_base}
use cxl_dis_lock.Region.{Os}
use cxl_dis_lock.Region.Balance.{IsCounted}
use cxl_dis_lock.LocalLock.{Mutexes}
use cxl_dis_lock.LocalLock.Setup.{MutexSetup}
use cxl_dis_lock.LocalLock.Setup.Balance as Locks

pub record Process : Type 0 where
  pub files : ℕ
  pub maps : ℕ
  pub live : ℕ
  pub arrays : ℕ

abbrev pub idle : Process
idle = record { files = 0; maps = 0; live = 0; arrays = 0 }

-- Files open, cannot be extended beyond two megabytes, and hold the value 7 everywhere.
abbrev pub os : Os Process
os = record {
  is_directory = λ p w. false;
  open_file = λ p c w. (some 3, record w { files = w.files + 1 });
  ftruncate = λ fd size w. (ltb size 2097152, w);
  mmap = λ fd size sync w. (mapped 4096, (λ i. 7), record w { maps = w.maps + 1 });
  munmap = λ a size w. record w { maps = w.maps - 1 };
  close = λ fd w. record w { files = w.files - 1 };
}

pub os-IsCounted : IsCounted os (λ w. w.files) (λ w. w.maps)
os-IsCounted = record {
  opens = λ p c w. refl;
  opens_maps = λ p c w. omega arith;
  extends = λ fd size w. (refl, refl);
  mmaps = λ fd size sync w. refl;
  mmaps_maps = λ fd size sync w. refl;
  munmaps = λ a size w h. (refl, omega (arith, h));
  closes = λ fd w h. (omega (arith, h), refl);
}

pub os-nonnull : (fd size : ℕ) (sync : Bool) (w : Process) → (os.mmap fd size sync w).0 ≢ null_base
os-nonnull fd size sync w = λ e. ground (arith, e)

-- Twenty mutexes can be made.
abbrev pub setup : MutexSetup Process
setup = record {
  allocate = λ n w. (true, record w { arrays = w.arrays + 1 });
  mutex_init = λ i w. if ltb w.live 20 then (0, record w { live = w.live + 1 }) else (12, w);
  mutex_destroy = λ i w. record w { live = w.live - 1 };
  free = λ w. record w { arrays = w.arrays - 1 };
}

pub setup-IsCounted : Locks.IsCounted setup (λ w. w.live) (λ w. w.arrays)
setup-IsCounted = record {
  allocates = λ n w. (refl, refl);
  inits = λ i w. (ground arith, ground arith);
  destroys = λ i w h. (omega (arith, h), refl);
  frees = λ w h. (omega (arith, h), refl);
}

-- Every call succeeds.
abbrev pub mutexes : Mutexes Process
mutexes = record {
  mutex_lock = λ i w. some (0, w);
  mutex_unlock = λ i w. (0, w);
  mutex_trylock = λ i w. (0, w);
  ebusy = 16;
  eperm = 1;
  edeadlk = 35;
}
