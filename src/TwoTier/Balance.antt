-- ===== src/TwoTier/Balance.antt =====
-- The local mutex under src/two_tier_lock.cpp: it stays locked exactly where an acquire succeeds.
use cxl_dis_lock.Common.{
  ℕ, ◌<◌, ◌≡◌, arith, refl, ◌∙◌, Bool, true, false, some, ◌==◌, leb, if◌then◌else◌, inl, inr,
  Bool-cases,
}
use cxl_dis_lock.Types.{
  LockResult, success, error_invalid_param, error_lock_not_initialized, error_unknown,
}
use cxl_dis_lock.Memory.{Shm}
use cxl_dis_lock.Algorithm.{GlobalLockAlgorithm}
use cxl_dis_lock.Types.{is_success}
use cxl_dis_lock.LocalLock.{Mutexes, LocalLockArray, lacks}
use cxl_dis_lock.LocalLock.Ownership.{IsOwned}
use cxl_dis_lock.LocalLock as Local
use cxl_dis_lock.TwoTier.{
  TwoTierLock, Surroundings, poll_for_grant, acquire_global, acquire, release,
}

module _ {W : Type 0} {pthread : Mutexes W} {held : W → ℕ → Bool} (owns : IsOwned pthread held)
    (locks : LocalLockArray) (l : ℕ) where
  -- From `w` to `v` only mutex `l` changes.
  abbrev pub Sets : W → W → Bool → Type 0
  Sets w v b = (j : ℕ) → held v j ≡ (if l == j then b else held w j)

  -- The call of `pthread_mutex_lock` returns.
  abbrev pub Answers : W → Type 0
  Answers w = (rc : ℕ) × (v : W) × (pthread.mutex_lock l w ≡ some (rc, v))

  pub acquire-Sets :
      (w : W)
      → held w l ≡ false
      → Answers w
      → (rc : LockResult) × (v : W) × (Local.acquire pthread locks l w ≡ some (rc, v))
        × Sets w v (is_success rc)
  unfolding Local.acquire
  acquire-Sets w free (rc, v, locked) = elim (Bool-cases (lacks locks l)) [
    | inl missing ↦ (error_invalid_param, w, ground (arith, missing), λ j. ground (arith, free))
    | inr there ↦ elim (Bool-cases (rc == 0)) [
      | inl ok ↦ (
        success,
        v,
        ground (arith, there, locked, ok),
        λ j. ground (arith, ok, owns.locks l w free rc v locked j),
      )
      | inr bad ↦ (
        error_unknown,
        v,
        ground (arith, there, locked, bad),
        λ j. ground (arith, bad, owns.locks l w free rc v locked j),
      )
    ]
  ]

  pub try_acquire-Sets :
      (w : W)
      → held w l ≡ false
      → Sets w
          (Local.try_acquire pthread locks l w).1
          (is_success (Local.try_acquire pthread locks l w).0)
  unfolding Local.try_acquire
  try_acquire-Sets w free j = elim (Bool-cases ((pthread.mutex_trylock l w).0 == 0)) [
    | inl ok ↦ ground (arith, ok, owns.tries l w free j)
    | inr bad ↦ ground (arith, bad, owns.tries l w free j)
  ]

  pub untouched : (w : W) → held w l ≡ false → Sets w w false
  untouched w free j = ground (arith, free)

  pub release-Sets :
      (w v : W)
      → lacks locks l ≡ false
      → Sets w v true
      → Sets w (Local.release pthread locks l v).1 false
  unfolding Local.release
  release-Sets w v usable set j =
      let mine : held v l ≡ true = ground (arith, set l) in
      ground (arith, usable, owns.unlocks l v mine j, set j)

module _ {W A : Type 0} {pthread : Mutexes W} {held : W → ℕ → Bool} (owns : IsOwned pthread held)
    (alg : GlobalLockAlgorithm A) (around : Surroundings A) (lock : TwoTierLock A)
    (l rounds timeout_ms : ℕ) (Inv : Shm → Type 0) (usable : lacks lock.local_locks l ≡ false)
    (requests : (s : Shm)
      → Inv s
      → (rc : LockResult) × (t : Shm) × (alg.acquire_lock lock.algorithm lock.node_id l lock.shm
            lock.state_offset s
          ≡ some (rc, t))
        × Inv t)
    (cancels : (s : Shm)
      → Inv s
      → (rc : LockResult) × (t : Shm) × (alg.release_lock lock.algorithm lock.node_id l lock.shm
            lock.state_offset s
          ≡ some (rc, t))
        × Inv t)
    (polls : (w : W) (s : Shm)
      → Inv s
      → (rc : LockResult) × (t : Shm) × (poll_for_grant pthread alg around rounds lock l timeout_ms
            (w, s)
          ≡ some (rc, (w, t)))
        × Inv t) where
  acquire_global-lem :
      (w v : W) (s : Shm)
      → Sets owns lock.local_locks l w v true
      → Inv s
      → (rc : LockResult) × (u : W) × (t : Shm) × (acquire_global pthread alg around rounds lock l
            timeout_ms
            (v, s)
          ≡ some (rc, (u, t)))
        × Inv t
        × Sets owns lock.local_locks l w u (is_success rc)
  unfolding acquire_global
  acquire_global-lem w v s set inv =
      let (asked, s₁, run₁, inv₁) = requests s inv in
      let unlocked = release-Sets owns lock.local_locks l w v usable set in
      elim (Bool-cases (is_success asked)) [
        | inr refused ↦ (
          asked,
          (Local.release pthread lock.local_locks l v).1,
          s₁,
          ground (arith, run₁, refused),
          inv₁,
          λ j. unlocked j ∙ ground (arith, refused),
        )
        | inl accepted ↦
            let (rc, s₂, run₂, inv₂) = polls v s₁ inv₁ in
            elim (Bool-cases (is_success rc)) [
              | inl ok ↦ (success, v, s₂, ground (arith, run₁, accepted, run₂, ok), inv₂, set)
              | inr no_grant ↦
                  let (rc₃, s₃, run₃, inv₃) = cancels s₂ inv₂ in
                  (
                    rc,
                    (Local.release pthread lock.local_locks l v).1,
                    s₃,
                    ground (arith, run₁, accepted, run₂, no_grant, run₃),
                    inv₃,
                    λ j. unlocked j ∙ ground (arith, no_grant),
                  )
            ]
      ]

  -- If the thread has not locked the mutex of lock `l`, and the call of `pthread_mutex_lock` on it, the
  -- calls of the algorithm and the poll return, then `acquire` returns; afterwards the thread has locked that mutex exactly where the result
  -- is `success`, and every other mutex as before.
  pub acquire-Balanced :
      (w : W) (s : Shm)
      → held w l ≡ false
      → Answers owns lock.local_locks l w
      → Inv s
      → (rc : LockResult) × (u : W) × (t : Shm) × (acquire pthread alg around rounds lock l
            timeout_ms
            (w, s)
          ≡ some (rc, (u, t)))
        × Inv t
        × ((j : ℕ) → held u j ≡ (if l == j then is_success rc else held w j))
  unfolding acquire
  acquire-Balanced w s free answers inv =
      let (mine, v, took, locked) = acquire-Sets owns lock.local_locks l w free answers in
      elim (Bool-cases lock.initialized) [
        | inr off ↦ (
          error_lock_not_initialized,
          w,
          s,
          ground (arith, off),
          inv,
          untouched owns lock.local_locks l w free,
        )
        | inl on ↦ elim (Bool-cases (leb lock.max_locks l)) [
          | inl past ↦ (
            error_invalid_param,
            w,
            s,
            ground (arith, on, past),
            inv,
            untouched owns lock.local_locks l w free,
          )
          | inr here ↦ elim (Bool-cases (is_success mine)) [
            | inr no_mutex ↦ (mine, v, s, ground (arith, on, here, took, no_mutex), inv, locked)
            | inl taken ↦
                let (rc, u, t, ran, inv_t, set) =
                  acquire_global-lem w v s (λ j. locked j ∙ ground (arith, taken)) inv in
                (rc, u, t, ground (arith, on, here, took, taken, ran), inv_t, set)
          ]
        ]
      ]

module _ {W A : Type 0} {pthread : Mutexes W} {held : W → ℕ → Bool} (owns : IsOwned pthread held)
    (alg : GlobalLockAlgorithm A) (around : Surroundings A) (lock : TwoTierLock A) (l : ℕ)
    (usable : lacks lock.local_locks l ≡ false) where
  -- If the thread has locked the mutex of lock `l` and the release of the global lock returns, whatever
  -- its result, then `release` returns, and the thread has unlocked that mutex and no other one. The
  -- result is the error of the global release, if there is one.
  pub release-Balanced :
      (w : W) (s : Shm)
      → lock.initialized ≡ true
      → l < lock.max_locks
      → held w l ≡ true
      → (rc : LockResult) (t : Shm)
      → alg.release_lock lock.algorithm lock.node_id l lock.shm lock.state_offset s ≡ some (rc, t)
      → (rc' : LockResult) × (u : W) × (release pthread alg around lock l (w, s)
          ≡ some (rc', (u, t)))
        × ((j : ℕ) → held u j ≡ (if l == j then false else held w j))
        × (is_success rc ≡ false → rc' ≡ rc)
  unfolding release
  release-Balanced w s on here mine rc t ran =
      let freed = release-Sets owns lock.local_locks l w w usable (λ j. ground (arith, mine)) in
      let below : leb lock.max_locks l ≡ false = ground (arith, here) in
      elim (Bool-cases (is_success rc)) [
        | inl ok ↦ (
          (Local.release pthread lock.local_locks l w).0,
          (Local.release pthread lock.local_locks l w).1,
          ground (arith, on, below, ran, ok),
          freed,
          λ bad. ground (arith, ok, bad),
        )
        | inr bad ↦ (
          rc,
          (Local.release pthread lock.local_locks l w).1,
          ground (arith, on, below, ran, bad),
          freed,
          λ e. refl,
        )
      ]
