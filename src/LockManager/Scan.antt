-- ===== src/LockManager/Scan.antt =====
-- The scan of src/lock_manager.cpp over an algorithm whose calls return: it returns, it keeps what the
-- calls keep, and its counters stay right.
use cxl_dis_lock.Common.{
  ℕ, zero, suc, ◌+◌, ◌≤◌, ◌<◌, ◌≡◌, arith, refl, ap, ◌∙◌, Bool, true, false, some, ◌⊎◌, inl, inr,
  Bool-cases,
}
use cxl_dis_lock.Types.{LockResult, u64, invalid_node_id, max_lock_count}
use cxl_dis_lock.Memory.{Shm, region}
use cxl_dis_lock.Algorithm.{GlobalLockAlgorithm}
use cxl_dis_lock.LockManager.{
  Stats, LockManager, count_grant, count_scan, scan_lock, scan_locks, scan_all, run_single_scan,
}
use cxl_dis_lock.Types.{is_success}
use cxl_dis_lock.LockManager.Counters.{IsConsistent, count_grant-IsConsistent}

-- What the manager relies on: from a state with `Inv`, both calls return and leave such a state, and
-- `check_grant` names a node or nobody.
pub record IsServable {A : Type 0} (alg : GlobalLockAlgorithm A) (a : A) (base count : ℕ)
    (Inv : Shm → Type 0) : Type 0 where
  pub checks :
      (s : Shm) (l : ℕ)
      → l < max_lock_count
      → Inv s
      → (g : ℕ) × (t : Shm) × (alg.check_grant a l region base count s ≡ some (g, t))
        × Inv t
        × ((g ≡ invalid_node_id) ⊎ (g < count))
  pub grants :
      (s : Shm) (l g : ℕ)
      → l < max_lock_count
      → g < count
      → Inv s
      → (rc : LockResult) × (t : Shm) × (alg.grant_lock a g l region base s ≡ some (rc, t)) × Inv t

module _ {A : Type 0} {alg : GlobalLockAlgorithm A} {a : A} {base count : ℕ} {Inv : Shm → Type 0}
    (serves : IsServable alg a base count Inv) (few : count < 65535) (manager : LockManager A)
    (at_region : manager.shm ≡ region) (at_base : manager.state_offset ≡ base)
    (at_count : manager.node_count ≡ count) where
  scan_lock-lem :
      (l : ℕ) (work : Bool) (stats : Stats) (s : Shm)
      → l < max_lock_count
      → IsConsistent stats
      → Inv s
      → (work' : Bool) × (stats' : Stats) × (t : Shm) × (scan_lock alg manager a l work stats s
          ≡ some ((work', stats'), t))
        × IsConsistent stats'
        × (stats'.scan_cycles ≡ stats.scan_cycles)
        × Inv t
  unfolding scan_lock count_grant
  scan_lock-lem l work stats s hl ok inv =
      let (g, t, asked, kept, range) = serves.checks s l hl inv in
      elim range [
        | inl nobody ↦ (
          work,
          stats,
          t,
          ground (arith, at_region, at_base, at_count, asked, nobody),
          ok,
          refl,
          kept,
        )
        | inr node ↦
            let (rc, u, given, still) = serves.grants t l g hl node kept in
            elim (Bool-cases (is_success rc)) [
              | inl yes_rc ↦ (
                true,
                count_grant stats l,
                u,
                ground (arith, at_region, at_base, at_count, asked, node, few, given, yes_rc),
                count_grant-IsConsistent stats l hl ok,
                refl,
                still,
              )
              | inr no_rc ↦ (
                work,
                stats,
                u,
                ground (arith, at_region, at_base, at_count, asked, node, few, given, no_rc),
                ok,
                refl,
                still,
              )
            ]
      ]

  scan_locks-lem :
      (left l : ℕ) (work : Bool) (stats : Stats) (s : Shm)
      → l + left ≤ max_lock_count
      → IsConsistent stats
      → Inv s
      → (work' : Bool) × (stats' : Stats) × (t : Shm) × (scan_locks alg manager a l left work stats
            s
          ≡ some ((work', stats'), t))
        × IsConsistent stats'
        × (stats'.scan_cycles ≡ stats.scan_cycles)
        × Inv t
  unfolding scan_locks
  scan_locks-lem zero l work stats s h ok inv = (work, stats, s, refl, ok, refl, inv)
  scan_locks-lem (suc left) l work stats s h ok inv =
      let (w₁, st₁, t₁, here, ok₁, same₁, inv₁) =
        scan_lock-lem l work stats s (omega (arith, h)) ok inv in
      let (w₂, st₂, t₂, rest, ok₂, same₂, inv₂) =
        scan_locks-lem left (l + 1) w₁ st₁ t₁ (omega (arith, h)) ok₁ inv₁ in
      (w₂, st₂, t₂, ground (arith, here, rest), ok₂, same₂ ∙ same₁, inv₂)

  -- A scan of at most 1024 locks returns, keeps what the calls keep, counts one more scan cycle,
  -- changes nothing of the manager but its statistics, and keeps the total of the grants equal to the
  -- sum of the grants by lock, up to the wrap at 64 bits.
  pub run_single_scan-Counts :
      manager.algorithm ≡ some a
      → manager.max_locks ≤ max_lock_count
      → (s : Shm) → Inv s
      → IsConsistent manager.stats
      → (stats : Stats) × (t : Shm) × (run_single_scan alg manager s
          ≡ some (record manager { stats = stats }, t))
        × (stats.scan_cycles ≡ u64 (manager.stats.scan_cycles + 1))
        × IsConsistent stats
        × Inv t
  unfolding run_single_scan scan_all count_scan
  run_single_scan-Counts set most s inv ok =
      let (work, st, t, ran, right, same, kept) =
        scan_locks-lem manager.max_locks 0 false manager.stats s (omega (arith, most)) ok inv in
      (count_scan st work, t, ground (arith, set, ran), ap (λ n. u64 (n + 1)) same, right, kept)
