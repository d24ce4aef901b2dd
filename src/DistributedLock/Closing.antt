-- ===== src/DistributedLock/Closing.antt =====
-- What `shutdown` of src/distributed_lock.cpp gives back to the process.
use cxl_dis_lock.Common.{
  ℕ, zero, suc, ◌+◌, ◌≤◌, ◌<◌, ◌≡◌, ◌≢◌, arith, refl, ap, ◌∙◌, true, false, not, ◌&&◌, Bool, none,
  some,
}
use cxl_dis_lock.Region.Outcome.{IsClosed, cleanup-IsClosed}
use cxl_dis_lock.Memory.{IsOpen, Base, map_failed, null_base, mapped}
use cxl_dis_lock.Region.{Os, Region, unmap, close_fd, cleanup}
use cxl_dis_lock.Region.Balance as Regions
use cxl_dis_lock.Region.Balance.{fd_count, mapping_count, cleanup-Balanced}
use cxl_dis_lock.LocalLock.Setup.{MutexSetup, destroy_from, destroy}
use cxl_dis_lock.LocalLock.Setup.Balance as Locks
use cxl_dis_lock.LocalLock.Setup.Balance.{IsConsistent, destroy_from-Counted}
use cxl_dis_lock.LocalLock.{LocalLockArray}
use cxl_dis_lock.Pool.{Pool, close}
use cxl_dis_lock.DistributedLock.{DistributedLockSystem, Platform}
use cxl_dis_lock.DistributedLock.Setup.{shutdown, has, dropped_pool, dropped_locks}
use cxl_dis_lock.DistributedLock.Stages.{HasPool, HasLocks}
use cxl_dis_lock.DistributedLock.Ending.{Stopped}
use cxl_dis_lock.DistributedLock.Calls.{acquire_lock, release_lock, try_lock}

-- The calls on mutexes leave descriptors and mappings alone, and the calls on those the mutexes.
pub record IsApart {W : Type 0} (os : Os W) (setup : MutexSetup W) (files maps live arrays : W → ℕ)
    : Type 0 where
  pub destroys :
      (i : ℕ) (w : W)
      → (files (setup.mutex_destroy i w) ≡ files w) × (maps (setup.mutex_destroy i w) ≡ maps w)
  pub frees : (w : W) → (files (setup.free w) ≡ files w) × (maps (setup.free w) ≡ maps w)
  pub munmaps :
      (a size : ℕ) (w : W)
      → (live (os.munmap a size w) ≡ live w) × (arrays (os.munmap a size w) ≡ arrays w)
  pub closes :
      (fd : ℕ) (w : W) → (live (os.close fd w) ≡ live w) × (arrays (os.close fd w) ≡ arrays w)

module _ {W : Type 0} (os : Os W) (setup : MutexSetup W) (files maps live arrays : W → ℕ)
    (apart : IsApart os setup files maps live arrays) where
  destroy_from-files :
      (j n : ℕ) (w : W)
      → (files (destroy_from setup j n w) ≡ files w) × (maps (destroy_from setup j n w) ≡ maps w)
  unfolding destroy_from
  destroy_from-files j zero w = (refl, refl)
  destroy_from-files j (suc n) w =
      let rest = destroy_from-files (j + 1) n (setup.mutex_destroy j w) in
      (rest.0 ∙ (apart.destroys j w).0, rest.1 ∙ (apart.destroys j w).1)

  unmap-live :
      (b : Base) (size : ℕ) (w : W)
      → (live (unmap os b size w).1 ≡ live w) × (arrays (unmap os b size w).1 ≡ arrays w)
  unmap-live map_failed size w = (refl, refl)
  unmap-live null_base size w = (refl, refl)
  unmap-live (mapped a) size w = apart.munmaps a size w

  close_fd-live :
      (r : Region) (w : W)
      → (live (close_fd os r.fd w) ≡ live w) × (arrays (close_fd os r.fd w) ≡ arrays w)
  close_fd-live r w =
      elim r.fd
        as (λ fd. (live (close_fd os fd w) ≡ live w) × (arrays (close_fd os fd w) ≡ arrays w)) [
          | none ↦ (refl, refl)
          | some fd ↦ apart.closes fd w
        ]

  cleanup-live :
      (r : Region) (w : W)
      → (live (cleanup os r w).1 ≡ live w) × (arrays (cleanup os r w).1 ≡ arrays w)
  unfolding cleanup
  cleanup-live r w =
      let w₁ = (unmap os r.shm.base r.shm.size w).1 in
      let unmapped = unmap-live r.shm.base r.shm.size w in
      let closed = close_fd-live r w₁ in (closed.0 ∙ unmapped.0, closed.1 ∙ unmapped.1)

  module _ (counted : Locks.IsCounted setup live arrays) where
    -- The end of an array of `n` mutexes.
    destroy-Frees :
        (locks : LocalLockArray) (n : ℕ) (w : W)
        → locks.initialized ≡ true
        → locks.has_mutexes ≡ true
        → locks.lock_count ≡ n
        → n ≤ live w
        → 0 < arrays w
        → (live (destroy setup locks w).1 + n ≡ live w)
          × (arrays (destroy setup locks w).1 + 1 ≡ arrays w)
          × (files (destroy setup locks w).1 ≡ files w)
          × (maps (destroy setup locks w).1 ≡ maps w)
    unfolding destroy
    destroy-Frees locks n w ready there count few array =
        let w₁ = destroy_from setup 0 n w in
        let gone = destroy_from-Counted setup live arrays counted 0 n w few in
        let alone = destroy_from-files 0 n w in
        let freed = counted.frees w₁ (omega (arith, gone, array)) in
        let apart_too = apart.frees w₁ in
        rw (ready, there, count)
          (
            omega (arith, gone, freed),
            omega (arith, gone, freed),
            apart_too.0 ∙ alone.0,
            apart_too.1 ∙ alone.1,
          )

    module _ (system : Regions.IsCounted os files maps)
        (nonnull : (fd size : ℕ) (sync : Bool) (w : W)
          → (os.mmap fd size sync w).0 ≢ null_base) where
      -- The end of an open pool.
      close-Frees :
          (pool : Pool) (r : Region) (w : W)
          → pool.is_open ≡ true
          → pool.shm ≡ some r
          → IsOpen r.shm
          → fd_count r.fd ≤ files w
          → 0 < maps w
          → (files (close os pool w).1 + fd_count r.fd ≡ files w)
            × (maps (close os pool w).1 + 1 ≡ maps w)
            × (live (close os pool w).1 ≡ live w)
            × (arrays (close os pool w).1 ≡ arrays w)
      unfolding close
      close-Frees pool r w opened at_region open_region file mapping =
          let one : mapping_count r.shm.base ≡ 1 = ap mapping_count open_region.is_mapped in
          let closed : IsClosed (cleanup os r w).0 =
            cleanup-IsClosed os nonnull r w (λ e. ground (arith, e, open_region.is_mapped)) in
          let balanced =
            cleanup-Balanced os files maps system nonnull r w (file, omega (arith, one, mapping)) in
          let alone = cleanup-live r w in
          rw (opened, at_region)
            (
              omega (arith, balanced, ap fd_count closed.no_file),
              omega (arith, balanced, one, ap mapping_count closed.no_mapping),
              alone.0,
              alone.1,
            )

module _ {W A : Type 0} (p : Platform W A) (files maps live arrays : W → ℕ)
    (apart : IsApart p.os p.setup files maps live arrays)
    (counted : Locks.IsCounted p.setup live arrays) (system : Regions.IsCounted p.os files maps)
    (nonnull : (fd size : ℕ) (sync : Bool) (w : W) → (p.os.mmap fd size sync w).0 ≢ null_base) where
  -- If the calls on descriptors, mappings, mutexes and arrays count one thing at a time and leave the other
  -- kinds alone, no mapping is a null pointer, and a system that is initialized has an open pool and
  -- ready local locks with their array, all of them among those of the process, then `shutdown`
  -- returns: the process has exactly the descriptor and the mapping of the pool, and the mutexes and
  -- the array of the locks, less than before, and the system has no parts and refuses every lock
  -- operation.
  pub shutdown-Releases :
      (size n : ℕ) (sys : DistributedLockSystem A) (w : W)
      → sys.initialized ≡ true
      → (pool : HasPool size sys.pool) (locks : HasLocks n sys.local_locks)
      → locks.locks.has_mutexes ≡ true
      → fd_count pool.region.fd ≤ files w
      → 0 < maps w
      → n ≤ live w
      → 0 < arrays w
      → (t : DistributedLockSystem A) × (v : W) × (shutdown p (sys, w) ≡ some (tt, (t, v)))
        × Stopped p tt t
        × (files v + fd_count pool.region.fd ≡ files w)
        × (maps v + 1 ≡ maps w)
        × (live v + n ≡ live w)
        × (arrays v + 1 ≡ arrays w)
  unfolding shutdown acquire_lock release_lock try_lock
  shutdown-Releases size n sys w ready pool locks there file mapping few array =
      let t : DistributedLockSystem A = record sys {
        pool = none;
        local_locks = none;
        two_tier_lock = none;
        lock_manager = none;
        algorithm = none;
        lock_manager_started = sys.lock_manager_started && not (has sys.lock_manager);
        initialized = false;
      } in
      let w₁ = (destroy p.setup locks.locks w).1 in
      let v = (close p.os pool.pool w₁).1 in
      let unlocked =
        destroy-Frees p.os p.setup files maps live arrays apart counted locks.locks n w locks.ready
          there locks.count few array in
      let closed =
        close-Frees p.os p.setup files maps live arrays apart counted system nonnull pool.pool
          pool.region w₁ pool.opened pool.at_region pool.is_open (omega (arith, unlocked, file))
          (omega (arith, unlocked, mapping)) in
      let ended : dropped_pool p sys.pool (dropped_locks p sys.local_locks w) ≡ v =
        rw (pool.at_pool, locks.at_locks) refl in
      let run : shutdown p (sys, w)
          ≡ some (tt, (t, dropped_pool p sys.pool (dropped_locks p sys.local_locks w))) =
        simp ready refl in
      (
        t,
        v,
        run ∙ ap (λ u. some (tt, (t, u))) ended,
        (refl, refl, refl, refl, refl, λ rounds lock_id timeout_ms u. (refl, refl, refl)),
        omega (arith, unlocked, closed),
        omega (arith, unlocked, closed),
        omega (arith, unlocked, closed),
        omega (arith, unlocked, closed),
      )
