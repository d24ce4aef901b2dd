-- ===== src/Region.antt =====
-- The life of a `SharedMemoryRegion` of src/shared_memory.cpp: `init` and `cleanup`, over the calls of
-- the operating system as a parameter.
pub mod Outcome
pub mod Balance
pub mod Moves
pub mod Objects
pub mod Ledger
use cxl_dis_lock.Common.{
  ℕ, Bool, true, false, not, ◌&&◌, ◌==◌, if◌then◌else◌, Option, none, some, [], ◌++◌, Bytes, codes,
  contains,
}
use cxl_dis_lock.Types.{
  ConsistencyMode, software_consistency, LockResult, success, error_invalid_param,
  error_shm_failure,
}
use cxl_dis_lock.Memory.{Base, map_failed, null_base, mapped, Shm}

-- The calls of the operating system that the source makes. `W` is the state of the system. `open_file`
-- takes whether O_CREAT is set, and answers `none` for a negative descriptor; `mmap` takes whether
-- MAP_SYNC is set, and answers with the words that stand in the mapping.
pub record Os (W : Type 0) : Type 0 where
  pub is_directory : Bytes → W → Bool
  pub open_file : Bytes → Bool → W → Option ℕ × W
  pub ftruncate : ℕ → ℕ → W → Bool × W
  pub mmap : ℕ → ℕ → Bool → W → Base × (ℕ → ℕ) × W
  pub munmap : ℕ → ℕ → W → W
  pub close : ℕ → W → W

-- `SharedMemoryRegion::Impl`: the part that the memory accesses read, the descriptor (`none` is -1) and
-- the path.
pub record Region : Type 0 where
  pub shm : Shm
  pub fd : Option ℕ
  pub path : Bytes

pub record Config : Type 0 where
  pub device_path : Bytes
  pub size : ℕ
  pub consistency : ConsistencyMode
  pub create : Bool

abbrev pub unmapped : Shm
unmapped = record {
  base = map_failed;
  size = 0;
  consistency = software_consistency;
  valid = false;
  words = λ i. 0;
}

abbrev pub new_region : Region
new_region = record { shm = unmapped; fd = none; path = [] }

unfoldable pub is_dax_device : Bytes → Bool
is_dax_device p = contains (codes "/dev/dax") p

module _ {W : Type 0} (os : Os W) where
  abbrev pub unmap : Base → ℕ → W → Base × W
  unmap map_failed size w = (map_failed, w)
  unmap null_base size w = (null_base, w)
  unmap (mapped a) size w = (map_failed, os.munmap a size w)

  abbrev pub close_fd : Option ℕ → W → W
  close_fd none w = w
  close_fd (some fd) w = os.close fd w

  unfoldable pub cleanup : Region → W → Region × W
  cleanup r w =
      let (base, w') = unmap r.shm.base r.shm.size w in
      (
        record {
          shm = record r.shm {
            base = base;
            size = 0;
            valid = false;
            consistency = software_consistency;
          };
          fd = none;
          path = [];
        },
        close_fd r.fd w',
      )

  -- What every failure of `init` after its guards does.
  abbrev pub give_up : Region → W → (Region × LockResult) × W
  give_up r w = let (r', w') = cleanup r w in ((r', error_shm_failure), w')

  -- Step 3 of `init`: a real DAX device is mapped with MAP_SYNC, and without where that fails.
  unfoldable pub map_backing : ℕ → ℕ → Bool → W → Base × (ℕ → ℕ) × W
  map_backing fd size false w = os.mmap fd size false w
  map_backing fd size true w =
      let (base, words, w') = os.mmap fd size true w in
      elim base [
        | map_failed ↦ os.mmap fd size false w'
        | null_base ↦ (null_base, words, w')
        | mapped a ↦ (mapped a, words, w')
      ]

  -- Steps 3 and 4, with the backing store open.
  unfoldable pub finish : Region → ℕ → Bool → W → (Region × LockResult) × W
  finish r fd dax w =
      let (base, words, w') = map_backing fd r.shm.size dax w in
      let tried = record r { shm = record r.shm { base = base; words = words } } in
      elim base [
        | map_failed ↦ give_up tried w'
        | null_base ↦ ((record tried { shm = record tried.shm { valid = true } }, success), w')
        | mapped a ↦ ((record tried { shm = record tried.shm { valid = true } }, success), w')
      ]

  -- Step 2: a regular file gets the requested size.
  unfoldable pub extend : Region → ℕ → Bool → W → (Region × LockResult) × W
  extend r fd true w = finish r fd true w
  extend r fd false w =
      let (ok, w') = os.ftruncate fd r.shm.size w in
      if ok then finish r fd false w' else give_up r w'

  -- Step 1.
  unfoldable pub open_backing : Region → Bool → W → (Region × LockResult) × W
  open_backing r dax w =
      let (opened, w') = os.open_file r.path (not dax) w in
      elim opened [ none ↦ give_up r w' | some fd ↦ extend (record r { fd = some fd }) fd dax w' ]

  -- The mapping that an earlier `init` left is given up first.
  unfoldable pub recycle : Region → W → Region × W
  recycle r w = if r.shm.valid then cleanup r w else (r, w)

  unfoldable pub init : Region → Config → W → (Region × LockResult) × W
  init r config w =
      if config.size == 0
      then ((r, error_invalid_param), w)
      else (let (r', w') = recycle r w in
          let in_directory =
            is_dax_device config.device_path && os.is_directory config.device_path w' in
          let path =
            if in_directory then config.device_path ++ codes "/shm.bin" else config.device_path in
          open_backing
            (record r' {
              path = path;
              shm = record r'.shm { size = config.size; consistency = config.consistency };
            })
            (is_dax_device config.device_path && not in_directory) w')

abbrev pub get_base_address : Region → Base
get_base_address r = if r.shm.valid then r.shm.base else null_base

abbrev pub get_size : Region → ℕ
get_size r = if r.shm.valid then r.shm.size else 0
