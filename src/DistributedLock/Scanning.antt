-- ===== src/DistributedLock/Scanning.antt =====
-- What a scan of the manager of a system with the CAS lock does for a node that alone wants a lock.
use cxl_dis_lock.Common.{ℕ, ◌<◌, ◌≡◌, ◌≢◌, arith, refl, sym, ap, ◌∙◌, some, ℕ_discrete}
use cxl_dis_lock.Types.{slot_idle, slot_waiting, slot_locked}
use cxl_dis_lock.Memory.{Shm}
use cxl_dis_lock.Cas.{Cas}
use cxl_dis_lock.Cas.Layout.{IsReady}
use cxl_dis_lock.Cas.Slots.{slot}
use cxl_dis_lock.AnyLock.{AnyLock, cas, any_algorithm, any_check_grant, any_grant_lock}
use cxl_dis_lock.LockManager.{LockManager, run_single_scan}
use cxl_dis_lock.LockManager.Service.{run_single_scan-Serves}
use cxl_dis_lock.DistributedLock.Parts.{IsEquipped}
use cxl_dis_lock.DistributedLock.Startable.{SetUp}

module _ (rounds : ℕ) (c : Cas) (count : ℕ) (manager : LockManager AnyLock) (max_locks : ℕ)
    (set : IsEquipped (SetUp (cas c)) max_locks count manager) where
  abbrev pub object : Cas
  object = record { node_count = count }

  -- The scan of a manager of the system that has the CAS lock.
  pub scan-Grants :
      (node l : ℕ)
      → node < count
      → l < max_locks
      → (s : Shm) → IsReady s 0 count
      → slot s 0 count l node ≡ slot_waiting
      → ((n : ℕ) → n < count → n ≢ node → slot s 0 count l n ≡ slot_idle)
      → (after : LockManager AnyLock) × (t : Shm) × (run_single_scan
            (any_algorithm rounds)
            manager
            s
          ≡ some (after, t))
        × IsReady t 0 count
        × (t.size ≡ s.size)
        × (slot t 0 count l node ≡ slot_locked)
  unfolding any_check_grant any_grant_lock
  scan-Grants node l hn hl s r waits idle =
      let at_object : manager.algorithm ≡ some (cas object) =
        set.at_object ∙ ap (λ o. some o) set.made.0 in
      let (after, t, ran, ready, same_size, serves) =
        run_single_scan-Serves (any_algorithm rounds) (cas object) object 0 count refl (λ m u. refl)
          (λ n m u. refl) manager set.at_region set.at_base set.nodes at_object
          (omega (arith, set.locks, set.few)) s r in
      let quiet : (n : ℕ) → n < count → slot s 0 count l n ≢ slot_locked = λ n h e.
        elim (ℕ_discrete n node) [
          | yes same ↦ ground (arith, sym e ∙ ap (λ x. slot s 0 count l x) same ∙ waits)
          | no other ↦ ground (arith, sym e ∙ idle n h other)
        ] in
      let (g, hg, waited, locked) =
        serves l (omega (arith, set.locks, hl)) ((node, hn, waits), quiet) in
      (
        after,
        t,
        ran,
        ready,
        same_size,
        elim (ℕ_discrete g node) [
          | yes same ↦ sym (ap (λ x. slot t 0 count l x) same) ∙ locked
          | no other ↦ ground (arith, sym waited ∙ idle g hg other)
        ],
      )
