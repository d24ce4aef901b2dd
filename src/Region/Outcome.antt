-- ===== src/Region/Outcome.antt =====
-- What `init` and `cleanup` of src/shared_memory.cpp leave behind.
use cxl_dis_lock.Common.{
  ℕ, ◌≡◌, ◌≢◌, arith, refl, Bool, true, false, not, ◌==◌, none, some, ◌⊎◌, inl, inr, Bool-cases,
  Option-cases,
}
use cxl_dis_lock.Types.{
  ConsistencyMode, LockResult, success, error_invalid_param, error_shm_failure,
}
use cxl_dis_lock.Memory.{Base, map_failed, null_base, mapped, IsOpen}
use cxl_dis_lock.Region.{
  Os, Region, Config, cleanup, map_backing, finish, extend, open_backing, recycle, init,
}

-- A region that is not in use.
pub record IsClosed (r : Region) : Type 0 where
  pub not_valid : r.shm.valid ≡ false
  pub no_mapping : r.shm.base ≡ map_failed
  pub no_size : r.shm.size ≡ 0
  pub no_file : r.fd ≡ none

-- A region that `init` has opened with a configuration.
pub record IsInUse (r : Region) : Type 0 where
  pub is_open : IsOpen r.shm
  pub fd : ℕ
  pub has_file : r.fd ≡ some fd

-- The end of `init` past its guards: the region is in use with the given size and mode, or closed.
abbrev pub Outcome : ℕ → ConsistencyMode → Region × LockResult → Type 0
Outcome size consistency x =
    ((x.1 ≡ success) × IsInUse x.0 × (x.0.shm.size ≡ size) × (x.0.shm.consistency ≡ consistency))
    ⊎ ((x.1 ≡ error_shm_failure) × IsClosed x.0)

pub Base-cases : (b : Base) → (b ≡ map_failed) ⊎ (b ≡ null_base) ⊎ ((a : ℕ) × (b ≡ mapped a))
Base-cases map_failed = inl refl
Base-cases null_base = inr (inl refl)
Base-cases (mapped a) = inr (inr (a, refl))

module _ {W : Type 0} (os : Os W)
    (nonnull : (fd size : ℕ) (sync : Bool) (w : W) → (os.mmap fd size sync w).0 ≢ null_base) where
  pub cleanup-IsClosed : (r : Region) (w : W) → r.shm.base ≢ null_base → IsClosed (cleanup os r w).0
  unfolding cleanup
  cleanup-IsClosed r w h = elim (Base-cases r.shm.base) [
    | inl e ↦ record {
      not_valid = refl;
      no_mapping = ground (arith, e);
      no_size = refl;
      no_file = refl;
    }
    | inr rest ↦ elim rest [
      | inl e ↦ absurd (h e)
      | inr e ↦ record {
        not_valid = refl;
        no_mapping = ground (arith, e.1);
        no_size = refl;
        no_file = refl;
      }
    ]
  ]

  map_backing-ne_null :
      (fd size : ℕ) (dax : Bool) (w : W) → (map_backing os fd size dax w).0 ≢ null_base
  unfolding map_backing
  map_backing-ne_null fd size false w = nonnull fd size false w
  map_backing-ne_null fd size true w =
      let (base, words, w') = os.mmap fd size true w in
      elim (Base-cases (os.mmap fd size true w).0) [
        | inl e ↦ ground (arith, e, nonnull fd size false (os.mmap fd size true w).2)
        | inr rest ↦ elim rest [
          | inl e ↦ absurd (nonnull fd size true w e)
          | inr e ↦ ground (arith, e.1)
        ]
      ]

  finish-Outcome :
      (r : Region) (fd : ℕ) (dax : Bool) (w : W)
      → r.fd ≡ some fd
      → Outcome r.shm.size r.shm.consistency (finish os r fd dax w).0
  unfolding finish
  finish-Outcome r fd dax w has =
      let b = map_backing os fd r.shm.size dax w in
      elim (Base-cases b.0) [
        | inl e ↦ rw (e, finish) (inr (refl, cleanup-IsClosed _ b.2 (λ h. cc)))
        | inr rest ↦ elim rest [
          | inl e ↦ absurd (map_backing-ne_null fd r.shm.size dax w e)
          | inr (a, e) ↦
              rw (e, finish)
                (inl (
                  refl,
                  record {
                    is_open = record { is_valid = refl; address = a; is_mapped = e };
                    fd = fd;
                    has_file = has;
                  },
                  refl,
                  refl,
                ))
        ]
      ]

  extend-Outcome :
      (r : Region) (fd : ℕ) (dax : Bool) (w : W)
      → r.fd ≡ some fd
      → r.shm.base ≡ map_failed
      → Outcome r.shm.size r.shm.consistency (extend os r fd dax w).0
  unfolding extend
  extend-Outcome r fd true w has none_yet = finish-Outcome r fd true w has
  extend-Outcome r fd false w has none_yet = elim (Bool-cases (os.ftruncate fd r.shm.size w).0) [
    | inl ok ↦ rw ok (finish-Outcome r fd false (os.ftruncate fd r.shm.size w).1 has)
    | inr bad ↦ rw bad (inr (refl, cleanup-IsClosed r (os.ftruncate fd r.shm.size w).1 (λ h. cc)))
  ]

  open_backing-Outcome :
      (r : Region) (dax : Bool) (w : W)
      → r.shm.base ≡ map_failed
      → Outcome r.shm.size r.shm.consistency (open_backing os r dax w).0
  unfolding open_backing
  open_backing-Outcome r dax w none_yet = elim (Option-cases (os.open_file r.path (not dax) w).0) [
    | inl e ↦
        rw (e, open_backing)
          (inr (refl, cleanup-IsClosed r (os.open_file r.path (not dax) w).1 (λ h. cc)))
    | inr (fd, e) ↦
        rw (e, open_backing)
          (extend-Outcome (record r { fd = some fd }) fd dax (os.open_file r.path (not dax) w).1
            refl none_yet)
  ]

  pub recycle-IsClosed : (r : Region) (w : W) → IsClosed r ⊎ IsInUse r → IsClosed (recycle os r w).0
  unfolding recycle
  recycle-IsClosed r w (inl closed) = simp closed.not_valid closed
  recycle-IsClosed r w (inr used) =
      let o = used.is_open in
      simp o.is_valid (cleanup-IsClosed r w (λ h. ground (arith, o.is_mapped)))

  -- From a region that is closed or in use, `init` with a positive size ends in `success` and a region
  -- in use, of the requested size and consistency mode, or in ERROR_SHM_FAILURE and a closed region,
  -- whatever the calls of the system return, as long as `mmap` returns no null pointer. With size zero it
  -- returns ERROR_INVALID_PARAM and changes nothing.
  pub init-Outcome :
      (r : Region) (config : Config) (w : W)
      → IsClosed r ⊎ IsInUse r
      → (config.size ≢ 0 → Outcome config.size config.consistency (init os r config w).0)
        × (config.size ≡ 0 → init os r config w ≡ ((r, error_invalid_param), w))
  unfolding init
  init-Outcome r config w sound = (
    λ pos.
        (let test : (config.size == 0) ≡ false = ground (arith, pos) in
          rw test
            (open_backing-Outcome _ _ (recycle os r w).1 (recycle-IsClosed r w sound).no_mapping)),
    λ e. rw e refl,
  )
