-- ===== src/DistributedLock/Opening.antt =====
-- Step 1 of `initialize` of src/distributed_lock.cpp, which opens the pool.
use cxl_dis_lock.Common.{
  ℕ, ◌≡◌, ◌≢◌, ◌⊎◌, inl, inr, arith, refl, ap, ◌∙◌, Bool, false, if◌then◌else◌, Option, some,
  Bool-cases, Bytes,
}
use cxl_dis_lock.Types.{ConsistencyMode, LockResult, is_success, success, error_shm_failure}
use cxl_dis_lock.Memory.{null_base}
use cxl_dis_lock.Region.{Os, Region, new_region}
use cxl_dis_lock.Pool.{Pool, new_pool, open_device, open_file_backed, close}
use cxl_dis_lock.Pool.Sound.{IsSound, Opened, open-Opened}
use cxl_dis_lock.DistributedLock.{Config, DistributedLockSystem, Platform, D, pure, ◌>>=◌, on_pool}
use cxl_dis_lock.DistributedLock.Setup.{open_pool, dropped_pool}
use cxl_dis_lock.DistributedLock.Stages.{HasPool, IsShut, bind-eq, if_yes, if_no, on_pool-eq}

new_pool-IsSound : IsSound new_pool
new_pool-IsSound = record {
  region = new_region;
  has_region = refl;
  holds =
      inr (
        refl,
        record { not_valid = refl; no_mapping = refl; no_size = refl; no_file = refl },
        refl,
      );
}

pub close-shut :
    {W : Type 0} (os : Os W) (pool : Pool) (w : W) → (close os pool w).0.is_open ≡ false
unfolding close
close-shut os pool w = elim (Bool-cases pool.is_open) [
  | inl e ↦ rw e refl
  | inr e ↦ ground (arith, e)
]

module _ {W A : Type 0} (p : Platform W A)
    (nonnull : (fd size : ℕ) (sync : Bool) (w : W) → (p.os.mmap fd size sync w).0 ≢ null_base) where
  Opened-HasPool :
      {P : Region → Type 0} (size : ℕ) (mode : ConsistencyMode) (pool : Pool) (rc : LockResult)
      → Opened p.os nonnull P size mode pool rc
      → ((rc ≡ success) × HasPool size (some pool))
        ⊎ ((rc ≡ error_shm_failure) × (pool.is_open ≡ false))
  Opened-HasPool size mode pool rc
        (inl (ok, opened, same, mode_eq, (r, at_region, used, size_eq, good))) =
      inl (
        ok,
        record {
          pool = pool;
          at_pool = refl;
          opened = opened;
          region = r;
          at_region = at_region;
          is_open = used.is_open;
          size_eq = size_eq;
        },
      )
  Opened-HasPool size mode pool rc (inr (bad, shut)) = inr (bad, shut)

  -- Opening a pool that is not open, from a device or from a file.
  abbrev Tried : ℕ → Option ((Pool × LockResult) × W) → Type 0
  Tried size o =
      (pool : Pool) × (rc : LockResult) × (w : W) × (o ≡ some ((pool, rc), w))
      × IsSound pool
      × (((rc ≡ success) × HasPool size (some pool))
          ⊎ ((rc ≡ error_shm_failure) × (pool.is_open ≡ false)))

  device-Tried :
      (pool : Pool) (path : Bytes) (size : ℕ) (mode : ConsistencyMode) (w : W)
      → IsSound pool
      → pool.is_open ≡ false
      → size ≢ 0
      → Tried size (open_device p.os pool path size mode w)
  device-Tried pool path size mode w sound shut pos =
      let (pool', rc, w', e, sound', o) =
        (open-Opened p.os nonnull pool path size mode w sound shut pos).0 in
      (pool', rc, w', e, sound', Opened-HasPool size mode pool' rc o)

  file-Tried :
      (pool : Pool) (path : Bytes) (size : ℕ) (mode : ConsistencyMode) (w : W)
      → IsSound pool
      → pool.is_open ≡ false
      → size ≢ 0
      → Tried size (open_file_backed p.os pool path size mode w)
  file-Tried pool path size mode w sound shut pos =
      let (pool', rc, w', e, sound', o) =
        (open-Opened p.os nonnull pool path size mode w sound shut pos).1 in
      (pool', rc, w', e, sound', Opened-HasPool size mode pool' rc o)

  -- Step 1 returns, with an open pool or with one that is not open.
  pub open_pool-run :
      (config : Config) (sys : DistributedLockSystem A) (w : W)
      → config.shm_size ≢ 0
      → (rc : LockResult) × (pool : Option Pool) × (w' : W) × (open_pool p config (sys, w)
          ≡ some (rc, (record sys { pool = pool }, w')))
        × (((rc ≡ success) × HasPool config.shm_size pool)
            ⊎ ((rc ≡ error_shm_failure) × IsShut pool))
  unfolding open_pool
  open_pool-run config sys w pos =
      let size = config.shm_size in
      let mode = config.consistency_mode in
      let w₀ = dropped_pool p sys.pool w in
      let file = λ (pool : Pool). open_file_backed p.os pool config.shm_backing_file size mode in
      let device = λ (pool : Pool). open_device p.os pool config.shm_device_path size mode in
      let second : LockResult → D W A LockResult =
        λ rc. if is_success rc then pure rc else on_pool file in
      let s₀ : DistributedLockSystem A × W = (record sys { pool = some new_pool }, w₀) in
      elim (Bool-cases config.use_file_backed_shm) [
        | inl e ↦
            let (pool, rc, w', run, sound, o) =
              file-Tried new_pool config.shm_backing_file size mode w₀ new_pool-IsSound refl pos in
            (
              rc,
              some pool,
              w',
              if_yes config.use_file_backed_shm (on_pool file) (on_pool device >>= second) s₀ e
                  ∙ on_pool-eq file sys w₀ w' new_pool pool rc run,
              ended pool rc o,
            )
        | inr e ↦
            let (pool, rc, w₁, run, sound, o) =
              device-Tried new_pool config.shm_device_path size mode w₀ new_pool-IsSound refl pos in
            let s₁ : DistributedLockSystem A × W = (record sys { pool = some pool }, w₁) in
            let first =
              if_no config.use_file_backed_shm (on_pool file) (on_pool device >>= second) s₀ e
              ∙ bind-eq (on_pool device) second s₀ s₁ rc
                  (on_pool-eq device sys w₀ w₁ new_pool pool rc run) in
            elim o [
              | inl (ok, has) ↦ (
                rc,
                some pool,
                w₁,
                first ∙ if_yes (is_success rc) (pure rc) (on_pool file) s₁ (ap is_success ok),
                inl (ok, has),
              )
              | inr (bad, shut) ↦
                  let (pool', rc', w', again, sound', o') =
                    file-Tried pool config.shm_backing_file size mode w₁ sound shut pos in
                  (
                    rc',
                    some pool',
                    w',
                    first
                        ∙ if_no (is_success rc) (pure rc) (on_pool file) s₁ (ap is_success bad)
                        ∙ on_pool-eq file sys w₁ w' pool pool' rc' again,
                    ended pool' rc' o',
                  )
            ]
      ]
    where
      ended :
          (pool : Pool) (rc : LockResult)
          → ((rc ≡ success) × HasPool config.shm_size (some pool))
            ⊎ ((rc ≡ error_shm_failure) × (pool.is_open ≡ false))
          → ((rc ≡ success) × HasPool config.shm_size (some pool))
            ⊎ ((rc ≡ error_shm_failure) × IsShut (some pool))
      ended pool rc (inl h) = inl h
      ended pool rc (inr (bad, shut)) =
          inr (bad, record { pool = pool; at_pool = refl; shut = shut })
