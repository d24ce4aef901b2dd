-- ===== src/LocalLock/Ownership.antt =====
-- The mutexes that a thread owns, and the test of ownership of src/local_lock.cpp.
use cxl_dis_lock.Common.{
  ℕ, ◌≡◌, ◌≢◌, arith, ◌∙◌, Bool, true, false, ◌==◌, if◌then◌else◌, some, ◌⊎◌, inl, inr, Bool-cases,
  Option-cases, sym, ap,
}
use cxl_dis_lock.Types.{success}
use cxl_dis_lock.LocalLock.{
  Mutexes, LocalLockArray, lacks, acquire, release, is_held_by_this_thread,
}

-- The mutexes of one thread that are locked by it: locking one that is not, where the call returns,
-- succeeds and locks it, or fails and changes nothing; unlocking one that it has locked succeeds and unlocks it.
pub record IsOwned {W : Type 0} (pthread : Mutexes W) (held : W → ℕ → Bool) : Type 0 where
  pub locks :
      (i : ℕ) (w : W)
      → held w i ≡ false
      → (rc : ℕ) (v : W) → pthread.mutex_lock i w ≡ some (rc, v)
      → (j : ℕ) → held v j ≡ (if i == j then rc == 0 else held w j)
  pub tries :
      (i : ℕ) (w : W)
      → held w i ≡ false
      → (j : ℕ)
      → held (pthread.mutex_trylock i w).1 j
        ≡ (if i == j then (pthread.mutex_trylock i w).0 == 0 else held w j)
  pub unlocks :
      (i : ℕ) (w : W)
      → held w i ≡ true
      → (j : ℕ) → held (pthread.mutex_unlock i w).1 j ≡ (if i == j then false else held w j)

-- What POSIX says of `pthread_mutex_trylock` and `pthread_mutex_unlock` on a mutex that checks for errors: a
-- trylock takes the mutex or answers EBUSY, also to the thread that has it, and that thread can unlock it.
-- EBUSY is neither zero nor EDEADLK nor EPERM.
pub record IsChecking {W : Type 0} (pthread : Mutexes W) (held : W → ℕ → Bool) : Type 0 where
  pub busy_deadlk : pthread.ebusy ≢ pthread.edeadlk
  pub busy_perm : pthread.ebusy ≢ pthread.eperm
  pub busy_zero : pthread.ebusy ≢ 0
  pub tries :
      (i : ℕ) (w : W)
      → held w i ≡ false
      → ((pthread.mutex_trylock i w).0 ≡ 0) ⊎ ((pthread.mutex_trylock i w).0 ≡ pthread.ebusy)
  pub tries_own : (i : ℕ) (w : W) → held w i ≡ true → pthread.mutex_trylock i w ≡ (pthread.ebusy, w)
  pub unlocks : (i : ℕ) (w : W) → held w i ≡ true → (pthread.mutex_unlock i w).0 ≡ 0

module _ {W : Type 0} {pthread : Mutexes W} {held : W → ℕ → Bool} (owns : IsOwned pthread held)
    (checks : IsChecking pthread held) (locks : LocalLockArray) (l : ℕ) where
  -- The test answers `false`, and the thread has the mutexes that it had.
  abbrev pub Blind : W → Type 0
  Blind w =
      ((is_held_by_this_thread pthread locks l w).0 ≡ false)
      × ((j : ℕ) → held (is_held_by_this_thread pthread locks l w).1 j ≡ held w j)

  own-Blind : (w : W) → held w l ≡ true → Blind w
  unfolding is_held_by_this_thread
  own-Blind w mine =
      let busy = checks.tries_own l w mine in
      elim (Bool-cases (lacks locks l)) [
        | inl missing ↦ (ground (arith, missing), λ j. ground (arith, missing))
        | inr there ↦ (
          ground (arith, there, busy, checks.busy_zero, checks.busy_deadlk, checks.busy_perm),
          λ j. ground (arith, there, busy, checks.busy_zero),
        )
      ]

  other-Blind : (w : W) → held w l ≡ false → Blind w
  unfolding is_held_by_this_thread
  other-Blind w free =
      let v = (pthread.mutex_trylock l w).1 in
      let tried = owns.tries l w free in
      elim (Bool-cases (lacks locks l)) [
        | inl missing ↦ (ground (arith, missing), λ j. ground (arith, missing))
        | inr there ↦ elim (checks.tries l w free) [
          | inl taken ↦ (
            ground (arith, there, taken),
            λ j.
                let mine : held v l ≡ true = ground (arith, taken, tried l) in
                ground (arith, there, taken, free, tried j, owns.unlocks l v mine j),
          )
          | inr busy ↦ (
            ground (arith, there, busy, checks.busy_zero, checks.busy_deadlk, checks.busy_perm),
            λ j. ground (arith, there, busy, checks.busy_zero, free, tried j),
          )
        ]
      ]

  -- An `acquire` succeeds where the mutex is there and the thread has it then.
  acquire-Taken :
      (w v : W)
      → held w l ≡ false
      → acquire pthread locks l w ≡ some (success, v)
      → (lacks locks l ≡ false) × (held v l ≡ true)
  unfolding acquire
  acquire-Taken w v free took = elim (Bool-cases (lacks locks l)) [
    | inl missing ↦ absurd (ground (arith, missing, took))
    | inr there ↦ elim (Option-cases (pthread.mutex_lock l w)) [
      | inl waits ↦ absurd (ground (arith, there, waits, took))
      | inr ((rc, u), answered) ↦
          let same : u ≡ v = ground (arith, there, answered, took) in
          let zero_rc : (rc == 0) ≡ true = ground (arith, there, answered, took) in
          (
            there,
            ap (λ x. held x l) (sym same)
                ∙ ground (arith, owns.locks l w free rc u answered l, zero_rc),
          )
    ]
  ]

  -- Where mutexes belong to threads as IsOwned says, and check for errors as IsChecking says after POSIX,
  -- so that a trylock answers EBUSY also to the thread that has the mutex, `is_held_by_this_thread` answers
  -- `false` whether or not the thread has the mutex, and changes nothing of what the thread has. So
  -- after an `acquire` that succeeds, by a thread without the mutex, the thread has it, the test says
  -- that it has not, and a `release` after the test still succeeds and unlocks it.
  pub acquire-is_held_by_this_thread :
      ((w : W) → Blind w)
      × ((w v : W)
          → held w l ≡ false
          → acquire pthread locks l w ≡ some (success, v)
          → let u = (is_held_by_this_thread pthread locks l v).1 in
            (held v l ≡ true)
            × Blind v
            × ((release pthread locks l u).0 ≡ success)
            × (held (release pthread locks l u).1 l ≡ false))
  unfolding release
  acquire-is_held_by_this_thread =
      let blind : (w : W) → Blind w = λ w. elim (Bool-cases (held w l)) [
        | inl mine ↦ own-Blind w mine
        | inr free ↦ other-Blind w free
      ] in
      (
        blind,
        λ w v free took.
            let (there, mine) = acquire-Taken w v free took in
            let u = (is_held_by_this_thread pthread locks l v).1 in
            let still : held u l ≡ true = (blind v).1 l ∙ mine in
            (
              mine,
              blind v,
              ground (arith, there, checks.unlocks l u still),
              ground (arith, there, owns.unlocks l u still l),
            ),
      )
