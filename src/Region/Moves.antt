-- ===== src/Region/Moves.antt =====
-- The objects of `SharedMemoryRegion` of src/shared_memory.cpp: construction, destruction and the two moves.
use cxl_dis_lock.Common.{Bool, if◌then◌else◌}
use cxl_dis_lock.Types.{ConsistencyMode}
use cxl_dis_lock.Region.{Os, Region, new_region, cleanup}

-- The move constructor: the new object, and what is left of the other one.
unfoldable pub move_construct : Region → Region × Region
move_construct other = (other, new_region)

module _ {W : Type 0} (os : Os W) where
  -- `this = std::move(other)`: this object, the other one, and whether they are the same object.
  unfoldable pub move_assign : Bool → Region → Region → W → (Region × Region) × W
  move_assign same this other w =
      if same
      then ((this, other), w)
      else (let (cleaned, w') = cleanup os this w in ((other, new_region), w'))

  -- The destructor.
  unfoldable pub destruct : Region → W → W
  destruct r w = (cleanup os r w).1

abbrev pub is_valid : Region → Bool
is_valid r = r.shm.valid

abbrev pub get_consistency_mode : Region → ConsistencyMode
get_consistency_mode r = r.shm.consistency
