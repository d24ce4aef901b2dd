-- ===== src/Pool/Sound.antt =====
-- The state of a pool of src/cxl_memory_pool.cpp.
use cxl_dis_lock.Common.{
  ℕ, ◌<◌, ◌≡◌, ◌≢◌, arith, refl, sym, ◌∙◌, Bool, true, false, some, ◌⊎◌, inl, inr, Bytes,
}
use cxl_dis_lock.Types.{
  ConsistencyMode, LockResult, success, error_shm_failure, error_unknown, error_invalid_param,
}
use cxl_dis_lock.Memory.{null_base}
use cxl_dis_lock.Region.{Os, Region, cleanup, init}
use cxl_dis_lock.Region.Outcome.{IsClosed, IsInUse, init-Outcome, cleanup-IsClosed}
use cxl_dis_lock.Pool.{
  Pool, zero_all, open_with, open_guarded, open_device, open_file_backed, close, config_of,
}

-- An open pool has a region in use of its size and mode; a pool that is not open has a closed region.
abbrev pub Holds : Pool → Region → Type 0
Holds pool r =
    ((pool.is_open ≡ true)
      × IsInUse r
      × (pool.size ≡ r.shm.size)
      × (pool.consistency_mode ≡ r.shm.consistency))
    ⊎ ((pool.is_open ≡ false) × IsClosed r × (pool.size ≡ 0))

pub record IsSound (pool : Pool) : Type 0 where
  pub region : Region
  pub has_region : pool.shm ≡ some region
  pub holds : Holds pool region

-- The words of the first `size` bytes are zero.
abbrev pub IsZero : ℕ → Region → Type 0
IsZero size r = (i : ℕ) → i < size → r.shm.words i ≡ 0

zero_all-IsInUse :
    (size : ℕ) (r : Region)
    → IsInUse r
    → IsInUse (zero_all size r)
      × ((zero_all size r).shm.size ≡ r.shm.size)
      × ((zero_all size r).shm.consistency ≡ r.shm.consistency)
      × IsZero size (zero_all size r)
unfolding zero_all
zero_all-IsInUse size r used =
    let o = used.is_open in
    (
      record {
        is_open = record {
          is_valid = ground (arith, o.is_valid, o.is_mapped);
          address = o.address;
          is_mapped = ground (arith, o.is_valid, o.is_mapped);
        };
        fd = used.fd;
        has_file = ground (arith, o.is_valid, o.is_mapped, used.has_file);
      },
      ground (arith, o.is_valid, o.is_mapped),
      ground (arith, o.is_valid, o.is_mapped),
      λ i h. ground (arith, o.is_valid, o.is_mapped),
    )

module _ {W : Type 0} (os : Os W)
    (nonnull : (fd size : ℕ) (sync : Bool) (w : W) → (os.mmap fd size sync w).0 ≢ null_base) where
  -- Closing a sound pool leaves a sound pool that is not open.
  pub close-IsSound :
      (pool : Pool) (w : W)
      → IsSound pool
      → IsSound (close os pool w).0 × ((close os pool w).0.is_open ≡ false)
  unfolding close
  close-IsSound pool w sound =
      let r = sound.region in
      elim sound.holds [
        | inl (opened, used, same_size, same_mode) ↦
            let closed =
              cleanup-IsClosed os nonnull r w (λ h. ground (arith, used.is_open.is_mapped)) in
            (
              record {
                region = (cleanup os r w).0;
                has_region = ground (arith, opened, sound.has_region);
                holds = inr (ground (arith, opened), closed, ground (arith, opened));
              },
              ground (arith, opened),
            )
        | inr (unopened, closed, size) ↦ (
          record {
            region = r;
            has_region = ground (arith, unopened, sound.has_region);
            holds = inr (ground (arith, unopened), closed, ground (arith, unopened, size));
          },
          ground (arith, unopened),
        )
      ]

  -- How an attempt to open ends.
  abbrev pub Opened : (Region → Type 0) → ℕ → ConsistencyMode → Pool → LockResult → Type 0
  Opened P size consistency pool' rc =
      ((rc ≡ success)
        × (pool'.is_open ≡ true)
        × (pool'.size ≡ size)
        × (pool'.consistency_mode ≡ consistency)
        × ((r : Region) × (pool'.shm ≡ some r) × IsInUse r × (r.shm.size ≡ size) × P r))
      ⊎ ((rc ≡ error_shm_failure) × (pool'.is_open ≡ false))

  open_guarded-Opened :
      (prepare : Region → Region) (P : Region → Type 0) (pool : Pool) (path : Bytes) (size : ℕ)
      (consistency : ConsistencyMode) (w : W)
      → ((r : Region)
          → IsInUse r
          → IsInUse (prepare r)
            × ((prepare r).shm.size ≡ r.shm.size)
            × ((prepare r).shm.consistency ≡ r.shm.consistency)
            × P (prepare r))
      → IsSound pool
      → pool.is_open ≡ false
      → size ≢ 0
      → (pool' : Pool) × (rc : LockResult) × (w' : W) × (open_guarded os prepare pool path size
            consistency w
          ≡ some ((pool', rc), w'))
        × IsSound pool'
        × Opened P size consistency pool' rc
  unfolding open_guarded open_with
  open_guarded-Opened prepare P pool path size consistency w keeps sound unopened pos =
      let r = sound.region in
      let x = init os r (config_of path size consistency) w in
      let sound_region : IsClosed r ⊎ IsInUse r = elim sound.holds [
        | inl h ↦ inr h.1
        | inr h ↦ inl h.1
      ] in
      elim ((init-Outcome os nonnull r (config_of path size consistency) w sound_region).0 pos) [
        | inl (ok, used, same_size, same_mode) ↦ (
          record pool {
            shm = some (prepare x.0.0);
            size = size;
            consistency_mode = consistency;
            is_open = true;
          },
          success,
          x.1,
          ground (arith, unopened, pos, sound.has_region, ok),
          record {
            region = prepare x.0.0;
            has_region = refl;
            holds = inl (
              refl,
              (keeps x.0.0 used).0,
              sym ((keeps x.0.0 used).1 ∙ same_size),
              sym ((keeps x.0.0 used).2 ∙ same_mode),
            );
          },
          inl (
            refl,
            refl,
            refl,
            refl,
            (
              prepare x.0.0,
              refl,
              (keeps x.0.0 used).0,
              (keeps x.0.0 used).1 ∙ same_size,
              (keeps x.0.0 used).3,
            ),
          ),
        )
        | inr (bad, closed) ↦ (
          record pool { shm = some x.0.0 },
          error_shm_failure,
          x.1,
          ground (arith, unopened, pos, sound.has_region, bad),
          record {
            region = x.0.0;
            has_region = refl;
            holds = inr (unopened, closed, empty sound.holds);
          },
          inr (refl, unopened),
        )
      ]
    where
      empty : Holds pool sound.region → pool.size ≡ 0
      empty (inl h) = ground (arith, unopened)
      empty (inr h) = h.2

  -- Opening a sound pool that is not open with a positive size, from a device or from a file,
  -- where no mapping is a null pointer, returns; it ends in `success` with an open pool of the
  -- given size and mode, or in ERROR_SHM_FAILURE with a pool that is not open. Either way the
  -- pool is sound. With a file, every word of an open pool is then zero, whatever other nodes
  -- have stored in it.
  pub open-Opened :
      (pool : Pool) (path : Bytes) (size : ℕ) (consistency : ConsistencyMode) (w : W)
      → IsSound pool
      → pool.is_open ≡ false
      → size ≢ 0
      → ((pool' : Pool) × (rc : LockResult) × (w' : W) × (open_device os pool path size consistency
              w
            ≡ some ((pool', rc), w'))
          × IsSound pool'
          × Opened (λ r. Unit {0}) size consistency pool' rc)
        × ((pool' : Pool) × (rc : LockResult) × (w' : W) × (open_file_backed os pool path size
                consistency w
              ≡ some ((pool', rc), w'))
            × IsSound pool'
            × Opened (IsZero size) size consistency pool' rc)
  unfolding open_device open_file_backed
  open-Opened pool path size consistency w sound unopened pos = (
    open_guarded-Opened (λ r. r) (λ r. Unit {0}) pool path size consistency w
        (λ r used. (used, refl, refl, tt)) sound unopened pos,
    open_guarded-Opened (zero_all size) (IsZero size) pool path size consistency w
        (zero_all-IsInUse size) sound unopened pos,
  )

  -- A pool that is open, and a size of zero, are refused, and nothing changes.
  pub open-refused :
      (pool : Pool) (path : Bytes) (size : ℕ) (consistency : ConsistencyMode) (w : W)
      → (pool.is_open ≡ true
          → open_device os pool path size consistency w ≡ some ((pool, error_unknown), w))
        × (pool.is_open ≡ false
            → open_device os pool path 0 consistency w ≡ some ((pool, error_invalid_param), w))
  unfolding open_device open_guarded
  open-refused pool path size consistency w = (λ e. ground (arith, e), λ e. ground (arith, e))
