-- ===== src/LocalLock/Object.antt =====
-- The class `LocalLockArray` of src/local_lock.cpp around its `Impl`: the moves and the calls through the
-- pointer `impl_`, which is null in an object that has been moved from.
use cxl_dis_lock.Common.{
  ℕ, ◌+◌, ◌≤◌, ◌≡◌, arith, refl, Bool, false, if◌then◌else◌, Option, none, some,
}
use cxl_dis_lock.Types.{LockResult}
use cxl_dis_lock.LocalLock.{Mutexes, LocalLockArray}
use cxl_dis_lock.LocalLock as Impl
use cxl_dis_lock.LocalLock.Setup.{MutexSetup, new_locks}
use cxl_dis_lock.LocalLock.Setup as Life
use cxl_dis_lock.LocalLock.Setup.Balance.{
  IsCounted, IsConsistent, mutexes_of, arrays_of, destroy-Balanced,
}

-- `impl_`; `none` is the null pointer.
abbrev pub Object : Type 0
Object = Option LocalLockArray

abbrev pub new_object : Object
new_object = some new_locks

-- The move constructor: the new object, and what is left of the other one.
unfoldable pub move_construct : Object → Object × Object
move_construct other = (other, none)

-- The move constructor of `Impl`.
unfoldable pub move_impl : LocalLockArray → LocalLockArray × LocalLockArray
move_impl other = (other, new_locks)

module _ {W : Type 0} (setup : MutexSetup W) where
  -- `delete impl_`, whose destructor calls `destroy`.
  unfoldable pub delete_impl : Object → W → W
  delete_impl none w = w
  delete_impl (some locks) w = (Life.destroy setup locks w).1

  unfoldable pub move_assign : Bool → Object → Object → W → (Object × Object) × W
  move_assign same this other w =
      if same then ((this, other), w) else ((other, none), delete_impl this w)

  -- The move assignment of `Impl`.
  unfoldable pub assign_impl :
      Bool → LocalLockArray → LocalLockArray → W → (LocalLockArray × LocalLockArray) × W
  assign_impl same this other w =
      if same then ((this, other), w) else ((other, new_locks), (Life.destroy setup this w).1)

  -- The calls that forward to `Impl`; `none` is a fault.
  unfoldable pub initialize : Object → ℕ → W → Option ((Object × LockResult) × W)
  initialize none lock_count w = none
  initialize (some locks) lock_count w =
      let ((locks', rc), w') = Life.initialize setup locks lock_count w in
      some ((some locks', rc), w')

  unfoldable pub destroy : Object → W → Option (Object × W)
  destroy none w = none
  destroy (some locks) w = let (locks', w') = Life.destroy setup locks w in some (some locks', w')

module _ {W : Type 0} (pthread : Mutexes W) where
  -- It is also `none` where it waits for ever.
  unfoldable pub acquire : Object → ℕ → W → Option (LockResult × W)
  acquire none lock_id w = none
  acquire (some locks) lock_id w = Impl.acquire pthread locks lock_id w

  unfoldable pub release : Object → ℕ → W → Option (LockResult × W)
  release none lock_id w = none
  release (some locks) lock_id w = some (Impl.release pthread locks lock_id w)

  unfoldable pub try_acquire : Object → ℕ → W → Option (LockResult × W)
  try_acquire none lock_id w = none
  try_acquire (some locks) lock_id w = some (Impl.try_acquire pthread locks lock_id w)

  unfoldable pub is_held_by_this_thread : Object → ℕ → W → Option (Bool × W)
  is_held_by_this_thread none lock_id w = none
  is_held_by_this_thread (some locks) lock_id w =
      some (Impl.is_held_by_this_thread pthread locks lock_id w)

-- The mutexes and the array behind a pointer.
abbrev pub mutexes : Object → ℕ
mutexes none = 0
mutexes (some locks) = mutexes_of locks

abbrev pub arrays_at : Object → ℕ
arrays_at none = 0
arrays_at (some locks) = arrays_of locks

abbrev pub Sound : Object → Type 0
Sound none = Unit {0}
Sound (some locks) = IsConsistent locks

module _ {W : Type 0} (setup : MutexSetup W) (pthread : Mutexes W) (live arrays : W → ℕ)
    (counts : IsCounted setup live arrays) where
  -- What a moved-from object answers to every call.
  abbrev pub Faults : Object → Type 0
  Faults object =
      ((n : ℕ) (w : W) → initialize setup object n w ≡ none)
      × ((w : W) → destroy setup object w ≡ none)
      × ((l : ℕ) (w : W)
          → (acquire pthread object l w ≡ none)
            × (release pthread object l w ≡ none)
            × (try_acquire pthread object l w ≡ none)
            × (is_held_by_this_thread pthread object l w ≡ none))

  delete_impl-lem :
      (object : Object) (w : W)
      → Sound object
      → mutexes object ≤ live w
      → arrays_at object ≤ arrays w
      → (live (delete_impl setup object w) + mutexes object ≡ live w)
        × (arrays (delete_impl setup object w) + arrays_at object ≡ arrays w)
  unfolding delete_impl
  delete_impl-lem none w good few array = omega arith
  delete_impl-lem (some locks) w good few array =
      let (balanced, no_mutex, no_array) =
        destroy-Balanced setup live arrays counts locks w good few array in
      omega (arith, balanced, no_mutex, no_array)

  -- If the calls make and remove one mutex or array at a time, an initialized object has its
  -- array, and the mutexes and the array of an object are among those of the process, then the
  -- assignment of another object to it removes exactly the mutexes and the array that it had,
  -- takes over those of the other one, and leaves that one with a null pointer, on which every
  -- call faults.
  pub move_assign-Frees :
      (this other : Object) (w : W)
      → Sound this
      → mutexes this ≤ live w
      → arrays_at this ≤ arrays w
      → let ((new, left), w') = move_assign setup false this other w in
        (new ≡ other)
        × (live w' + mutexes this ≡ live w)
        × (arrays w' + arrays_at this ≡ arrays w)
        × Faults left
  unfolding move_assign initialize destroy acquire release try_acquire is_held_by_this_thread
  move_assign-Frees this other w good few array =
      let freed = delete_impl-lem this w good few array in
      (refl, freed.0, freed.1, ((λ n v. refl), (λ v. refl), (λ l v. (refl, refl, refl, refl))))
