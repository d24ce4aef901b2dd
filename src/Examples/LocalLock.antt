-- ===== src/Examples/LocalLock.antt =====
-- The life of the local locks of src/local_lock.cpp at concrete inputs.
use cxl_dis_lock.Common.{ℕ, ◌+◌, arith, refl, ◌≡◌, false, true, some}
use cxl_dis_lock.Types.{error_unknown}
use cxl_dis_lock.LocalLock.Setup.{new_locks, initialize, fill, init_from}
use cxl_dis_lock.LocalLock.Setup.Balance.{IsConsistent, Attempt, initialize-Attempt}
use cxl_dis_lock.LocalLock.{LocalLockArray}
use cxl_dis_lock.LocalLock.Object.{move_assign, Faults, move_assign-Frees}
use cxl_dis_lock.Examples.Process.{Process, idle, setup, setup-IsCounted, mutexes}

-- Thirty mutexes are too many.
initialize_thirty : (initialize setup new_locks 30 idle).0.1 ≡ error_unknown
unfolding initialize fill init_from
initialize_thirty = refl

new_locks-IsConsistent : IsConsistent new_locks
new_locks-IsConsistent = record { has = λ h. ground (arith, h) }

initialize-Attempt_example :
    Attempt setup
      (λ w. w.live)
      (λ w. w.arrays)
      setup-IsCounted
      new_locks
      30
      idle
      (initialize setup new_locks 30 idle)
initialize-Attempt_example =
    initialize-Attempt setup (λ w. w.live) (λ w. w.arrays) setup-IsCounted new_locks 30 idle
      new_locks-IsConsistent

-- An object with four mutexes is assigned to one with three.
abbrev with_locks : ℕ → LocalLockArray
with_locks n = record { has_mutexes = true; lock_count = n; initialized = true }

abbrev busy : Process
busy = record { files = 0; maps = 0; live = 7; arrays = 2 }

move_assign-Frees_example :
    let ((new, left), w') =
      move_assign setup false (some (with_locks 3)) (some (with_locks 4)) busy in
    (new ≡ some (with_locks 4))
    × (w'.live + 3 ≡ 7)
    × (w'.arrays + 1 ≡ 2)
    × Faults setup mutexes (λ w. w.live) (λ w. w.arrays) setup-IsCounted left
move_assign-Frees_example =
    move_assign-Frees setup mutexes (λ w. w.live) (λ w. w.arrays) setup-IsCounted
      (some (with_locks 3)) (some (with_locks 4)) busy (record { has = λ h. refl }) (omega arith)
      (omega arith)
