-- ===== src/Pool.antt =====
-- src/cxl_memory_pool.cpp: a region that is opened and closed as a whole.
pub mod Sound
pub mod Moves
use cxl_dis_lock.Common.{ℕ, Bool, true, false, not, ◌==◌, if◌then◌else◌, Option, none, some, Bytes}
use cxl_dis_lock.Types.{
  ConsistencyMode, software_consistency, LockResult, success, error_invalid_param, error_unknown,
}
use cxl_dis_lock.Memory.{Base, map_failed, null_base, mapped, Shm, zero_span}
use cxl_dis_lock.Region.{Os, Region, Config, new_region, cleanup, init, get_base_address}
use cxl_dis_lock.Types.{is_success}

-- The fields of `CxlMemoryPool`; `shm` is `none` in a pool that has been moved from.
pub record Pool : Type 0 where
  pub shm : Option Region
  pub consistency_mode : ConsistencyMode
  pub size : ℕ
  pub is_open : Bool

abbrev pub new_pool : Pool
new_pool = record {
  shm = some new_region;
  consistency_mode = software_consistency;
  size = 0;
  is_open = false;
}

-- The move constructor: the new pool, and what is left of the other one.
unfoldable pub move_from : Pool → Pool × Pool
move_from other = (other, record other { shm = none; size = 0; is_open = false })

abbrev pub config_of : Bytes → ℕ → ConsistencyMode → Config
config_of path size consistency = record {
  device_path = path;
  size = size;
  consistency = consistency;
  create = true;
}

-- `memset(base, 0, size)` on the whole mapping, where there is one.
abbrev pub zero_base : Base → ℕ → Region → Region
zero_base map_failed size r = r
zero_base null_base size r = r
zero_base (mapped a) size r = record r {
  shm = record r.shm { words = zero_span r.shm.words 0 size };
}

unfoldable pub zero_all : ℕ → Region → Region
zero_all size r = zero_base (get_base_address r) size r

module _ {W : Type 0} (os : Os W) where
  -- `open` and `open_file_backed` from the call of `init` on; `prepare` is what is done to a region that
  -- has been mapped. A null region is a fault.
  unfoldable pub open_with :
      (Region → Region) → Pool → Bytes → ℕ → ConsistencyMode → W → Option ((Pool × LockResult) × W)
  open_with prepare pool path size consistency w = elim pool.shm [
    | none ↦ none
    | some r ↦
        let ((r', rc), w') = init os r (config_of path size consistency) w in
        if not (is_success rc)
        then some ((record pool { shm = some r' }, rc), w')
        else some (
          (
            record pool {
              shm = some (prepare r');
              size = size;
              consistency_mode = consistency;
              is_open = true;
            },
            success,
          ),
          w',
        )
  ]

  unfoldable pub open_guarded :
      (Region → Region) → Pool → Bytes → ℕ → ConsistencyMode → W → Option ((Pool × LockResult) × W)
  open_guarded prepare pool path size consistency w =
      if pool.is_open
      then some ((pool, error_unknown), w)
      else (if size == 0
          then some ((pool, error_invalid_param), w)
          else open_with prepare pool path size consistency w)

  unfoldable pub open_device :
      Pool → Bytes → ℕ → ConsistencyMode → W → Option ((Pool × LockResult) × W)
  open_device pool path size consistency w = open_guarded (λ r. r) pool path size consistency w

  unfoldable pub open_file_backed :
      Pool → Bytes → ℕ → ConsistencyMode → W → Option ((Pool × LockResult) × W)
  open_file_backed pool path size consistency w =
      open_guarded (zero_all size) pool path size consistency w

  abbrev pub close_region : Option Region → W → Option Region × W
  close_region none w = (none, w)
  close_region (some r) w = let (r', w') = cleanup os r w in (some r', w')

  unfoldable pub close : Pool → W → Pool × W
  close pool w =
      if not pool.is_open
      then (pool, w)
      else (let (shm, w') = close_region pool.shm w in
          (record pool { shm = shm; size = 0; is_open = false }, w'))
