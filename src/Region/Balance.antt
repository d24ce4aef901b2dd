-- ===== src/Region/Balance.antt =====
-- The descriptors and mappings that `init` and `cleanup` of src/shared_memory.cpp hold and give back.
use cxl_dis_lock.Common.{
  ℕ, ◌+◌, ◌≤◌, ◌<◌, ◌≡◌, ◌≢◌, arith, refl, ap, Bool, true, false, ◌&&◌, not, ◌==◌, Option, none,
  some, ◌⊎◌, inl, inr, Bool-cases, Option-cases, if◌then◌else◌, ◌++◌, codes, Bytes,
}
use cxl_dis_lock.Memory.{Base, map_failed, null_base, mapped}
use cxl_dis_lock.Region.{
  Os, Region, Config, is_dax_device, unmap, close_fd, cleanup, map_backing, finish, extend,
  open_backing, recycle, init,
}
use cxl_dis_lock.Region.Outcome.{IsClosed, IsInUse, Base-cases, recycle-IsClosed}

abbrev pub fd_count : Option ℕ → ℕ
fd_count none = 0
fd_count (some fd) = 1

abbrev pub mapping_count : Base → ℕ
mapping_count map_failed = 0
mapping_count null_base = 0
mapping_count (mapped a) = 1

-- What the calls do to the numbers of open descriptors and of mappings of the process.
pub record IsCounted {W : Type 0} (os : Os W) (files maps : W → ℕ) : Type 0 where
  pub opens :
      (p : Bytes) (c : Bool) (w : W)
      → files (os.open_file p c w).1 ≡ files w + fd_count (os.open_file p c w).0
  pub opens_maps : (p : Bytes) (c : Bool) (w : W) → maps (os.open_file p c w).1 ≡ maps w
  pub extends :
      (fd size : ℕ) (w : W)
      → (files (os.ftruncate fd size w).1 ≡ files w) × (maps (os.ftruncate fd size w).1 ≡ maps w)
  pub mmaps : (fd size : ℕ) (sync : Bool) (w : W) → files (os.mmap fd size sync w).2 ≡ files w
  pub mmaps_maps :
      (fd size : ℕ) (sync : Bool) (w : W)
      → maps (os.mmap fd size sync w).2 ≡ maps w + mapping_count (os.mmap fd size sync w).0
  pub munmaps :
      (a size : ℕ) (w : W)
      → 0 < maps w
      → (files (os.munmap a size w) ≡ files w) × (maps (os.munmap a size w) + 1 ≡ maps w)
  pub closes :
      (fd : ℕ) (w : W)
      → 0 < files w
      → (files (os.close fd w) + 1 ≡ files w) × (maps (os.close fd w) ≡ maps w)

module _ {W : Type 0} (os : Os W) (files maps : W → ℕ) (counts : IsCounted os files maps)
    (nonnull : (fd size : ℕ) (sync : Bool) (w : W) → (os.mmap fd size sync w).0 ≢ null_base) where
  -- From `r` and `w` to `r'` and `w'` the process has opened and mapped what the region holds more, and
  -- nothing else; and what the region holds is open.
  abbrev pub Balanced : Region → W → Region → W → Type 0
  Balanced r w r' w' =
      (files w' + fd_count r.fd ≡ files w + fd_count r'.fd)
      × (maps w' + mapping_count r.shm.base ≡ maps w + mapping_count r'.shm.base)

  abbrev pub Backed : Region → W → Type 0
  Backed r w = (fd_count r.fd ≤ files w) × (mapping_count r.shm.base ≤ maps w)

  unmap_lem :
      (b : Base) (size : ℕ) (w : W)
      → mapping_count b ≤ maps w
      → (files (unmap os b size w).1 ≡ files w)
        × (maps (unmap os b size w).1 + mapping_count b
            ≡ maps w + mapping_count (unmap os b size w).0)
  unmap_lem map_failed size w h = (refl, refl)
  unmap_lem null_base size w h = (refl, refl)
  unmap_lem (mapped a) size w h =
      ((counts.munmaps a size w h).0, omega (arith, counts.munmaps a size w h))

  close_fd_lem :
      (fd : Option ℕ) (w : W)
      → fd_count fd ≤ files w
      → (files (close_fd os fd w) + fd_count fd ≡ files w) × (maps (close_fd os fd w) ≡ maps w)
  close_fd_lem none w h = omega arith
  close_fd_lem (some fd) w h = counts.closes fd w h

  pub cleanup-Balanced :
      (r : Region) (w : W) → Backed r w → Balanced r w (cleanup os r w).0 (cleanup os r w).1
  unfolding cleanup
  cleanup-Balanced r w backed =
      let b = r.shm.base in
      let w₁ = (unmap os b r.shm.size w).1 in
      let freed = unmap_lem b r.shm.size w backed.1 in
      omega (arith, freed, close_fd_lem r.fd w₁ (omega (arith, freed, backed)))

  map_backing-Balanced :
      (fd size : ℕ) (dax : Bool) (w : W)
      → (files (map_backing os fd size dax w).2 ≡ files w)
        × (maps (map_backing os fd size dax w).2
            ≡ maps w + mapping_count (map_backing os fd size dax w).0)
  unfolding map_backing
  map_backing-Balanced fd size false w =
      (counts.mmaps fd size false w, counts.mmaps_maps fd size false w)
  map_backing-Balanced fd size true w =
      let w₁ = (os.mmap fd size true w).2 in
      elim (Base-cases (os.mmap fd size true w).0) [
        | inl e ↦ ground (
          arith,
          e,
          counts.mmaps fd size true w,
          counts.mmaps_maps fd size true w,
          counts.mmaps fd size false w₁,
          counts.mmaps_maps fd size false w₁,
        )
        | inr rest ↦ elim rest [
          | inl e ↦ ground (arith, e, counts.mmaps fd size true w, counts.mmaps_maps fd size true w)
          | inr e ↦
              ground (arith, e.1, counts.mmaps fd size true w, counts.mmaps_maps fd size true w)
        ]
      ]

  finish-Balanced :
      (r : Region) (fd : ℕ) (dax : Bool) (w : W)
      → r.shm.base ≡ map_failed
      → Backed r w
      → Balanced r w (finish os r fd dax w).0.0 (finish os r fd dax w).1
  unfolding finish
  finish-Balanced r fd dax w unused backed =
      let b = map_backing os fd r.shm.size dax w in
      let kept = map_backing-Balanced fd r.shm.size dax w in
      let tried = record r { shm = record r.shm { base = b.0; words = b.1 } } in
      elim (Base-cases b.0) [
        | inl e ↦
            let freed = cleanup-Balanced tried b.2 (ground (arith, kept, backed, e)) in
            rw (e, finish) (omega (arith, freed, kept, ap mapping_count e, ap mapping_count unused))
        | inr rest ↦ elim rest [
          | inl e ↦
              rw (e, finish) (omega (arith, kept, ap mapping_count e, ap mapping_count unused))
          | inr e ↦
              rw (e.1, finish) (omega (arith, kept, ap mapping_count e.1, ap mapping_count unused))
        ]
      ]

  extend-Balanced :
      (r : Region) (fd : ℕ) (dax : Bool) (w : W)
      → r.shm.base ≡ map_failed
      → Backed r w
      → Balanced r w (extend os r fd dax w).0.0 (extend os r fd dax w).1
  unfolding extend
  extend-Balanced r fd true w unused backed = finish-Balanced r fd true w unused backed
  extend-Balanced r fd false w unused backed =
      let w₁ = (os.ftruncate fd r.shm.size w).1 in
      let same = counts.extends fd r.shm.size w in
      let backed₁ : Backed r w₁ = omega (arith, same, backed) in
      elim (Bool-cases (os.ftruncate fd r.shm.size w).0) [
        | inl ok ↦ rw ok (omega (arith, same, finish-Balanced r fd false w₁ unused backed₁))
        | inr bad ↦ rw bad (omega (arith, same, cleanup-Balanced r w₁ backed₁))
      ]

  open_backing-Balanced :
      (r : Region) (dax : Bool) (w : W)
      → r.shm.base ≡ map_failed
      → r.fd ≡ none
      → Balanced r w (open_backing os r dax w).0.0 (open_backing os r dax w).1
  unfolding open_backing
  open_backing-Balanced r dax w unused unopened =
      let w₁ = (os.open_file r.path (not dax) w).1 in
      let counted = counts.opens r.path (not dax) w in
      let same = counts.opens_maps r.path (not dax) w in
      elim (Option-cases (os.open_file r.path (not dax) w).0) [
        | inl e ↦
            let freed = cleanup-Balanced r w₁ (ground (arith, unused, unopened)) in
            rw (e, open_backing) (omega (arith, freed, same, counted, ap fd_count e))
        | inr (fd, e) ↦
            let r₁ = record r { fd = some fd } in
            let backed : Backed r₁ w₁ = ground (arith, unused, counted, e) in
            rw (e, open_backing)
              (omega (
                arith,
                extend-Balanced r₁ fd dax w₁ unused backed,
                same,
                counted,
                ap fd_count e,
                ap fd_count unopened,
              ))
      ]

  recycle-Balanced :
      (r : Region) (w : W) → Backed r w → Balanced r w (recycle os r w).0 (recycle os r w).1
  unfolding recycle
  recycle-Balanced r w backed = elim (Bool-cases r.shm.valid) [
    | inl e ↦ simp e (cleanup-Balanced r w backed)
    | inr e ↦ simp e (refl, refl)
  ]

  -- If the calls of the system open, map, unmap and close one thing at a time, no mapping is a
  -- null pointer, and the descriptor and the mapping of a closed or used region are among the
  -- open ones, then after `init`, whatever its result and whatever the calls return, the process
  -- has open exactly what the region holds more than before: a failure leaks no descriptor and no
  -- mapping.
  pub init-Balanced :
      (r : Region) (config : Config) (w : W)
      → IsClosed r ⊎ IsInUse r
      → Backed r w
      → Balanced r w (init os r config w).0.0 (init os r config w).1
  unfolding init
  init-Balanced r config w sound backed = elim (Bool-cases (config.size == 0)) [
    | inl e ↦ rw e (refl, refl)
    | inr e ↦
        let r₁ = (recycle os r w).0 in
        let closed = recycle-IsClosed os nonnull r w sound in
        let dir =
          is_dax_device config.device_path
          && os.is_directory config.device_path (recycle os r w).1 in
        rw e (
          omega (
            arith,
            recycle-Balanced r w backed,
            ap fd_count closed.no_file,
            ap mapping_count closed.no_mapping,
            open_backing-Balanced
                (record r₁ {
                  path = if dir then config.device_path ++ codes "/shm.bin" else config.device_path;
                  shm = record r₁.shm { size = config.size; consistency = config.consistency };
                })
                (is_dax_device config.device_path && not dir) (recycle os r w).1 closed.no_mapping
                closed.no_file,
          ))
  ]
