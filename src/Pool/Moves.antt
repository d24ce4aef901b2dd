-- ===== src/Pool/Moves.antt =====
-- The moves of src/cxl_memory_pool.cpp, and what they leave behind.
use cxl_dis_lock.Common.{
  ℕ, ◌≡◌, ◌≢◌, arith, refl, Bool, false, if◌then◌else◌, Option, none, some, Bytes,
}
use cxl_dis_lock.Types.{ConsistencyMode}
use cxl_dis_lock.Region.{Os, Region}
use cxl_dis_lock.Region.Moves.{destruct}
use cxl_dis_lock.Pool.{
  Pool, move_from, open_with, open_guarded, open_device, open_file_backed, close,
}
use cxl_dis_lock.Pool.Sound.{IsSound}

module _ {W : Type 0} (os : Os W) where
  -- The region of a `unique_ptr` that is given another one.
  abbrev pub drop_region : Option Region → W → W
  drop_region none w = w
  drop_region (some r) w = destruct os r w

  -- `this = std::move(other)`: this pool, the other one, and whether they are the same object.
  unfoldable pub move_assign : Bool → Pool → Pool → W → (Pool × Pool) × W
  move_assign same this other w =
      if same
      then ((this, other), w)
      else (let (closed, w') = close os this w in (move_from other, drop_region closed.shm w'))

  -- The destructor: `close`, and the region with the `unique_ptr`.
  unfoldable pub destruct_pool : Pool → W → W
  destruct_pool pool w = let (closed, w') = close os pool w in drop_region closed.shm w'

  -- What a pool that has been moved from answers to an attempt to open it: an access through the null
  -- pointer, as soon as the size is not zero.
  abbrev pub Unopenable : Pool → Type 0
  Unopenable pool =
      (path : Bytes) (size : ℕ) (mode : ConsistencyMode) (w : W)
      → size ≢ 0
      → (open_device os pool path size mode w ≡ none)
        × (open_file_backed os pool path size mode w ≡ none)

  left-Unopenable : (pool : Pool) → Unopenable (move_from pool).1
  unfolding move_from open_device open_file_backed open_guarded open_with
  left-Unopenable pool path size mode w pos = (ground (arith, pos), ground (arith, pos))

  -- The assignment of a sound pool to another object: that object is then sound, open exactly where the
  -- source was, and the source is not open and has no region, so that opening it again faults.
  pub move_assign-IsSound :
      (this other : Pool) (w : W)
      → IsSound other
      → let ((new, left), w') = move_assign false this other w in
        IsSound new
        × (new.is_open ≡ other.is_open)
        × (new.size ≡ other.size)
        × (left.is_open ≡ false)
        × (left.size ≡ 0)
        × Unopenable left
  unfolding move_assign move_from
  move_assign-IsSound this other w sound = (sound, refl, refl, refl, refl, left-Unopenable other)

abbrev pub get_shm : Pool → Option Region
get_shm pool = pool.shm

abbrev pub get_consistency_mode : Pool → ConsistencyMode
get_consistency_mode pool = pool.consistency_mode
