-- ===== src/LockManager/Service.antt =====
-- Whom a scan of src/lock_manager.cpp serves with the lock of src/cas_global_lock.cpp.
use cxl_dis_lock.Common.{
  ℕ, zero, suc, ◌+◌, ◌≤◌, ◌<◌, ◌≡◌, ◌≢◌, arith, refl, sym, ap, subst, ◌∙◌, Bool, true, false, some,
  inl, inr, ℕ_discrete,
}
use cxl_dis_lock.Types.{slot_waiting, slot_locked, max_lock_count}
use cxl_dis_lock.Memory.{Shm, region}
use cxl_dis_lock.Algorithm.{GlobalLockAlgorithm}
use cxl_dis_lock.Cas.{Cas, check_grant, grant_lock}
use cxl_dis_lock.Cas.Layout.{IsReady}
use cxl_dis_lock.Cas.Slots.{slot, slot_at, slot-put, put-IsReady, grant_lock-eq}
use cxl_dis_lock.Cas.Ops.{check_grant-Choice}
use cxl_dis_lock.LockManager.{
  Stats, LockManager, count_grant, scan_lock, scan_locks, scan_all, run_single_scan, count_scan,
}

module _ (base count : ℕ) where
  -- A node waits for the lock, and none holds it.
  abbrev pub Pending : Shm → ℕ → Type 0
  Pending s l =
      ((n : ℕ) × (n < count) × (slot s base count l n ≡ slot_waiting))
      × ((n : ℕ) → n < count → slot s base count l n ≢ slot_locked)

  -- A node that waited for the lock holds it.
  abbrev pub Served : Shm → Shm → ℕ → Type 0
  Served s t l =
      (g : ℕ) × (g < count)
      × (slot s base count l g ≡ slot_waiting)
      × (slot t base count l g ≡ slot_locked)

module _ {A : Type 0} (alg : GlobalLockAlgorithm A) (o : A) (a : Cas) (base count : ℕ)
    (own : a.node_count ≡ count)
    (checks : (l : ℕ) (s : Shm)
      → alg.check_grant o l region base count s ≡ check_grant a l region base count s)
    (grants : (n l : ℕ) (s : Shm)
      → alg.grant_lock o n l region base s ≡ grant_lock a n l region base s)
    (manager : LockManager A) (at_region : manager.shm ≡ region)
    (at_base : manager.state_offset ≡ base) (at_count : manager.node_count ≡ count) where
  abbrev Same : Shm → Shm → ℕ → Type 0
  Same s t m = (k : ℕ) → k < count → slot t base count m k ≡ slot s base count m k

  Pending-Same : (s t : Shm) (m : ℕ) → Same s t m → Pending base count s m → Pending base count t m
  Pending-Same s t m same p =
      let (n, hn, waits) = p.0 in
      ((n, hn, same n hn ∙ waits), λ k hk e. p.1 k hk (sym (same k hk) ∙ e))

  scan_lock-lem :
      (l : ℕ) (work : Bool) (stats : Stats) (s : Shm)
      → l < max_lock_count
      → IsReady s base count
      → (work' : Bool) × (stats' : Stats) × (t : Shm) × (scan_lock alg manager o l work stats s
          ≡ some ((work', stats'), t))
        × IsReady t base count
        × (t.size ≡ s.size)
        × ((m : ℕ) → m ≢ l → Same s t m)
        × (Pending base count s l → Served base count s t l)
  unfolding scan_lock
  scan_lock-lem l work stats s hl r =
      let (g, run, choice) = check_grant-Choice r l hl a in
      elim choice [
        | inl (nobody, shows) ↦ (
          work,
          stats,
          s,
          ground (arith, at_region, at_base, at_count, checks l s, run, nobody),
          r,
          refl,
          (λ m ne k hk. refl),
          λ p. absurd (p.1 shows.0 shows.1 shows.2),
        )
        | inr rest ↦ elim rest [
          | inl (nobody, unlocked, quiet) ↦ (
            work,
            stats,
            s,
            ground (arith, at_region, at_base, at_count, checks l s, run, nobody),
            r,
            refl,
            (λ m ne k hk. refl),
            λ p. absurd (quiet p.0.0 (omega arith) p.0.1 p.0.2),
          )
          | inr (hg, waits, unlocked, below) ↦ (
            true,
            count_grant stats l,
            _,
            ground (
              arith,
              at_region,
              at_base,
              at_count,
              checks l s,
              grants g l s,
              run,
              hg,
              r.few,
              waits,
              grant_lock-eq r l g hl hg a own,
            ),
            put-IsReady r (slot_at base count l g) slot_locked,
            refl,
            (λ m ne k hk. ground (arith, ne, slot-put s base count l g m k slot_locked hg hk)),
            λ p. (g, hg, waits, ground (arith, slot-put s base count l g l g slot_locked hg hg)),
          )
        ]
      ]

  scan_locks-lem :
      (left l : ℕ) (work : Bool) (stats : Stats) (s : Shm)
      → l + left ≤ max_lock_count
      → IsReady s base count
      → (work' : Bool) × (stats' : Stats) × (t : Shm) × (scan_locks alg manager o l left work stats
            s
          ≡ some ((work', stats'), t))
        × IsReady t base count
        × (t.size ≡ s.size)
        × ((m : ℕ) → m < l → Same s t m)
        × ((m : ℕ) → l ≤ m → m < l + left → Pending base count s m → Served base count s t m)
  unfolding scan_locks
  scan_locks-lem zero l work stats s h r = (
    work,
    stats,
    s,
    refl,
    r,
    refl,
    (λ m lt k hk. refl),
    λ m lo hi p. absurd (omega (arith, lo, hi)),
  )
  scan_locks-lem (suc left) l work stats s h r =
      let (w₁, st₁, t₁, here, r₁, size₁, same₁, served₁) =
        scan_lock-lem l work stats s (omega (arith, h)) r in
      let (w₂, st₂, t₂, rest, r₂, size₂, same₂, served₂) =
        scan_locks-lem left (l + 1) w₁ st₁ t₁ (omega (arith, h)) r₁ in
      (
        w₂,
        st₂,
        t₂,
        ground (arith, here, rest),
        r₂,
        size₂ ∙ size₁,
        (λ m lt k hk. same₂ m (omega (arith, lt)) k hk ∙ same₁ m (omega (arith, lt)) k hk),
        λ m lo hi p. elim (ℕ_discrete m l) [
          | yes e ↦
              let (g, hg, waited, locked) = served₁ (subst (λ x. Pending base count s x) e p) in
              (
                g,
                hg,
                ap (λ x. slot s base count x g) e ∙ waited,
                ap (λ x. slot t₂ base count x g) e ∙ same₂ l (omega arith) g hg ∙ locked,
              )
          | no ne ↦
              let (g, hg, waited, locked) =
                served₂ m (omega (arith, lo, ne)) (omega (arith, hi))
                  (Pending-Same s t₁ m (same₁ m ne) p) in
              (g, hg, sym (same₁ m ne g hg) ∙ waited, locked)
        ],
      )

  -- On a region with room for the state, a scan of at most 1024 locks with an algorithm whose
  -- `check_grant` and `grant_lock` are those of the CAS lock returns, keeps that room and the
  -- size of the region, and every lock of the manager for which a node was WAITING and none
  -- LOCKED before the scan has after it a LOCKED node that was WAITING before.
  pub run_single_scan-Serves :
      manager.algorithm ≡ some o
      → manager.max_locks ≤ max_lock_count
      → (s : Shm) → IsReady s base count
      → (after : LockManager A) × (t : Shm) × (run_single_scan alg manager s ≡ some (after, t))
        × IsReady t base count
        × (t.size ≡ s.size)
        × ((l : ℕ) → l < manager.max_locks → Pending base count s l → Served base count s t l)
  unfolding run_single_scan scan_all
  run_single_scan-Serves set most s r =
      let (work, st, t, ran, r₁, size, same, served) =
        scan_locks-lem manager.max_locks 0 false manager.stats s (omega (arith, most)) r in
      (
        record manager { stats = count_scan st work },
        t,
        ground (arith, set, ran),
        r₁,
        size,
        λ l hl p. served l (omega arith) (omega (arith, hl)) p,
      )
