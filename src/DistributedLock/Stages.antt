-- ===== src/DistributedLock/Stages.antt =====
-- What each stage of `initialize` of src/distributed_lock.cpp leaves behind.
use cxl_dis_lock.Common.{
  ℕ, ◌≡◌, refl, ap, sym, subst, Bool, true, false, if◌then◌else◌, Option, none, some,
}
use cxl_dis_lock.Types.{LockResult, is_success}
use cxl_dis_lock.Memory.{Shm, IsOpen, region}
use cxl_dis_lock.Region.{Region}
use cxl_dis_lock.LocalLock.{LocalLockArray}
use cxl_dis_lock.Algorithm.{GlobalLockAlgorithm}
use cxl_dis_lock.Pool.{Pool}
use cxl_dis_lock.TwoTier.{T}
use cxl_dis_lock.DistributedLock.{DistributedLockSystem, D, pure, ◌>>=◌, on_pool, on_memory}

-- The pool is open on a region of the given size.
pub record HasPool (size : ℕ) (o : Option Pool) : Type 0 where
  pub pool : Pool
  pub at_pool : o ≡ some pool
  pub opened : pool.is_open ≡ true
  pub region : Region
  pub at_region : pool.shm ≡ some region
  pub is_open : IsOpen region.shm
  pub size_eq : region.shm.size ≡ size

-- There is a pool, and it is not open.
pub record IsShut (o : Option Pool) : Type 0 where
  pub pool : Pool
  pub at_pool : o ≡ some pool
  pub shut : pool.is_open ≡ false

-- The local locks are made.
pub record HasLocks (n : ℕ) (o : Option LocalLockArray) : Type 0 where
  pub locks : LocalLockArray
  pub at_locks : o ≡ some locks
  pub ready : locks.initialized ≡ true
  pub count : locks.lock_count ≡ n

-- What the calls of an algorithm's `initialize` come to on an open region of the given size, whatever the
-- number of nodes; `Made` holds of the object and that number where they succeed.
pub record IsStartable {A : Type 0} (Made : A → ℕ → Type 0) (alg : GlobalLockAlgorithm A) (a : A)
    (size : ℕ) : Type 0 where
  pub starts :
      (s : Shm) (n : ℕ)
      → IsOpen s
      → s.size ≡ size
      → (b : A) × (rc : LockResult) × (t : Shm) × (alg.initialize a region 0 n s
          ≡ some ((b, rc), t))
        × IsOpen t
        × (t.size ≡ size)
        × (is_success rc ≡ true → Made b n)

-- The computation returns, and `Q` holds of what it returns.
abbrev pub Ends :
    {W A R : Type 0}
    → (R → DistributedLockSystem A → Type 0)
    → Option (R × (DistributedLockSystem A × W))
    → Type 0
Ends {W} {A} {R} Q o =
    (x : R) × (sys : DistributedLockSystem A) × (w : W) × (o ≡ some (x, (sys, w))) × Q x sys

module _ {W A : Type 0} where
  pub bind-Ends :
      {R S : Type 0} {Q : S → DistributedLockSystem A → Type 0} (m : D W A R) (f : R → D W A S)
      (s : DistributedLockSystem A × W) (x : R) (t : DistributedLockSystem A × W)
      → m s ≡ some (x, t)
      → Ends Q (f x t)
      → Ends Q ((m >>= f) s)
  bind-Ends {R} {S} {Q} m f s x t e h =
      subst (λ o. Ends Q (elim o [ none ↦ none | some (y, u) ↦ f y u ])) (sym e) h

  pub pure-Ends :
      {R : Type 0} {Q : R → DistributedLockSystem A → Type 0} (x : R)
      (sys : DistributedLockSystem A) (w : W)
      → Q x sys
      → Ends Q (pure x (sys, w))
  pure-Ends x sys w q = (x, sys, w, refl, q)

  -- The steps of a computation.
  pub bind-eq :
      {R S : Type 0} (m : D W A R) (f : R → D W A S) (s t : DistributedLockSystem A × W) (x : R)
      → m s ≡ some (x, t)
      → (m >>= f) s ≡ f x t
  bind-eq m f s t x e = ap (λ o. elim o [ none ↦ none | some (y, u) ↦ f y u ]) e

  pub if_yes :
      {R : Type 0} (b : Bool) (m n : D W A R) (s : DistributedLockSystem A × W)
      → b ≡ true
      → (if b then m else n) s ≡ m s
  if_yes b m n s e = ap (λ c. (if c then m else n) s) e

  pub if_no :
      {R : Type 0} (b : Bool) (m n : D W A R) (s : DistributedLockSystem A × W)
      → b ≡ false
      → (if b then m else n) s ≡ n s
  if_no b m n s e = ap (λ c. (if c then m else n) s) e

  pub on_pool-eq :
      (f : Pool → W → Option ((Pool × LockResult) × W)) (sys : DistributedLockSystem A) (w w' : W)
      (pool pool' : Pool) (rc : LockResult)
      → f pool w ≡ some ((pool', rc), w')
      → on_pool f (record sys { pool = some pool }, w)
        ≡ some (rc, (record sys { pool = some pool' }, w'))
  on_pool-eq f sys w w' pool pool' rc e =
      ap
        (λ o. elim o [
          | none ↦ none
          | some ((q, c), v) ↦ some (c, (record sys { pool = some q }, v))
        ])
        e

  -- A computation on the memory of an open pool.
  pub on_memory-runs :
      {R : Type 0} (m : T W R) (P : R → W → Type 0) (size : ℕ) (sys : DistributedLockSystem A)
      (w : W)
      → HasPool size sys.pool
      → ((s : Shm)
          → IsOpen s
          → s.size ≡ size
          → (x : R) × (w' : W) × (t : Shm) × (m (w, s) ≡ some (x, (w', t)))
            × IsOpen t
            × (t.size ≡ size)
            × P x w')
      → (x : R) × (pool : Option Pool) × (w' : W) × (on_memory m (sys, w)
          ≡ some (x, (record sys { pool = pool }, w')))
        × HasPool size pool
        × P x w'
  on_memory-runs m P size sys w h run =
      let (x, w', t, e, opened, same, good) = run h.region.shm h.is_open h.size_eq in
      let r' = record h.region { shm = t } in
      let pool' = record h.pool { shm = some r' } in
      (
        x,
        some pool',
        w',
        rw (h.at_pool, h.at_region, e) refl,
        record {
          pool = pool';
          at_pool = refl;
          opened = h.opened;
          region = r';
          at_region = refl;
          is_open = opened;
          size_eq = same;
        },
        good,
      )

  pub on_memory-run :
      {R : Type 0} (m : T W R) (P : R → Type 0) (size : ℕ) (sys : DistributedLockSystem A) (w : W)
      → HasPool size sys.pool
      → ((s : Shm)
          → IsOpen s
          → s.size ≡ size
          → (x : R) × (w' : W) × (t : Shm) × (m (w, s) ≡ some (x, (w', t)))
            × IsOpen t
            × (t.size ≡ size)
            × P x)
      → (x : R) × (pool : Option Pool) × (w' : W) × (on_memory m (sys, w)
          ≡ some (x, (record sys { pool = pool }, w')))
        × HasPool size pool
        × P x
  on_memory-run m P size sys w h run = on_memory-runs m (λ x v. P x) size sys w h run
