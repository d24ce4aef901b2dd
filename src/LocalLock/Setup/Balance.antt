-- ===== src/LocalLock/Setup/Balance.antt =====
-- The mutexes that the life of an array of src/local_lock.cpp makes and removes.
use cxl_dis_lock.Common.{
  ℕ, zero, suc, ◌+◌, ◌≤◌, ◌<◌, ◌≡◌, arith, refl, sym, ap, Bool, true, false, ◌||◌, ltb, ◌==◌,
  if◌then◌else◌, Bool-cases, inl, inr, ◌⊎◌,
}
use cxl_dis_lock.Types.{
  LockResult, is_success, success, error_invalid_param, error_unknown, max_lock_count,
}
use cxl_dis_lock.LocalLock.{LocalLockArray}
use cxl_dis_lock.LocalLock.Setup.{MutexSetup, destroy_from, init_from, fill, initialize, destroy}

abbrev pub one_if : Bool → ℕ
one_if true = 1
one_if false = 0

-- What the calls do to the numbers of mutexes and of arrays that the process has.
pub record IsCounted {W : Type 0} (pthread : MutexSetup W) (live arrays : W → ℕ) : Type 0 where
  pub allocates :
      (n : ℕ) (w : W)
      → (live (pthread.allocate n w).1 ≡ live w)
        × (arrays (pthread.allocate n w).1 ≡ arrays w + one_if (pthread.allocate n w).0)
  pub inits :
      (i : ℕ) (w : W)
      → (live (pthread.mutex_init i w).1 ≡ live w + one_if ((pthread.mutex_init i w).0 == 0))
        × (arrays (pthread.mutex_init i w).1 ≡ arrays w)
  pub destroys :
      (i : ℕ) (w : W)
      → 0 < live w
      → (live (pthread.mutex_destroy i w) + 1 ≡ live w)
        × (arrays (pthread.mutex_destroy i w) ≡ arrays w)
  pub frees :
      (w : W)
      → 0 < arrays w
      → (arrays (pthread.free w) + 1 ≡ arrays w) × (live (pthread.free w) ≡ live w)

-- The mutexes and the arrays that an object owns.
abbrev pub mutexes_of : LocalLockArray → ℕ
mutexes_of locks = if locks.initialized then locks.lock_count else 0

abbrev pub arrays_of : LocalLockArray → ℕ
arrays_of locks = one_if locks.initialized

-- An initialized object has its array.
pub record IsConsistent (locks : LocalLockArray) : Type 0 where
  pub has : locks.initialized ≡ true → locks.has_mutexes ≡ true

module _ {W : Type 0} (pthread : MutexSetup W) (live arrays : W → ℕ)
    (counts : IsCounted pthread live arrays) where
  pub destroy_from-Counted :
      (j n : ℕ) (w : W)
      → n ≤ live w
      → (live (destroy_from pthread j n w) + n ≡ live w)
        × (arrays (destroy_from pthread j n w) ≡ arrays w)
  unfolding destroy_from
  destroy_from-Counted j zero w h = omega arith
  destroy_from-Counted j (suc n) w h =
      let one = counts.destroys j w (omega (arith, h)) in
      omega (
        arith,
        one,
        destroy_from-Counted (j + 1) n (pthread.mutex_destroy j w) (omega (arith, one, h)),
      )

  -- The loop makes all mutexes, or undoes those it made and frees the array.
  abbrev Filled : ℕ → ℕ → W → Bool × W → Type 0
  Filled i left w (ok, w') =
      ((ok ≡ true) × (live w' ≡ live w + left) × (arrays w' ≡ arrays w))
      ⊎ ((ok ≡ false) × (live w' + i ≡ live w) × (arrays w' + 1 ≡ arrays w))

  init_from-Filled :
      (i left : ℕ) (w : W)
      → i ≤ live w
      → 0 < arrays w
      → Filled i left w (init_from pthread i left w)
  unfolding init_from
  init_from-Filled i zero w h one = inl (refl, omega arith, refl)
  init_from-Filled i (suc left) w h one =
      let made = (pthread.mutex_init i w).1 in
      let counted = counts.inits i w in
      elim (Bool-cases ((pthread.mutex_init i w).0 == 0)) [
        | inl e ↦
            let again = ap one_if e in
            elim (init_from-Filled (i + 1) left made (omega (arith, h, counted, again))
              (omega (arith, one, counted))) [
                | inl all ↦
                    rw e
                      (inl (all.0, omega (arith, all, counted, again), omega (arith, all, counted)))
                | inr undone ↦ rw e (
                    inr (
                      undone.0,
                      omega (arith, undone, counted, again),
                      omega (arith, undone, counted),
                    ))
              ]
        | inr e ↦
            let none_made = ap one_if e in
            let freed = destroy_from-Counted 0 i made (omega (arith, h, counted)) in
            let gone =
              counts.frees (destroy_from pthread 0 i made) (omega (arith, one, counted, freed)) in
            rw e (
              inr (
                refl,
                omega (arith, counted, none_made, freed, gone),
                omega (arith, counted, freed, gone),
              ))
      ]

  -- From `locks` and `w` to `locks'` and `w'` the process has made what the object owns more, and nothing
  -- else.
  abbrev pub Balanced : LocalLockArray → W → LocalLockArray → W → Type 0
  Balanced locks w locks' w' =
      (live w' + mutexes_of locks ≡ live w + mutexes_of locks')
      × (arrays w' + arrays_of locks ≡ arrays w + arrays_of locks')

  -- An attempt either makes all mutexes or leaves the object as it was, up to the pointer.
  pub record Attempt (locks : LocalLockArray) (n : ℕ) (w : W)
      (o : (LocalLockArray × LockResult) × W) : Type 0 where
    pub consistent : IsConsistent o.0.0
    pub balanced : Balanced locks w o.0.0 o.1
    pub result :
        ((o.0.1 ≡ success)
          × (o.0.0.initialized ≡ true)
          × (o.0.0.lock_count ≡ n)
          × (0 < n)
          × (n ≤ max_lock_count))
        ⊎ ((is_success o.0.1 ≡ false) × (o.0.0.initialized ≡ locks.initialized))

  fill-Attempt :
      (locks : LocalLockArray) (n : ℕ) (w₀ w : W)
      → locks.initialized ≡ false
      → live w ≡ live w₀
      → arrays w ≡ arrays w₀ + 1
      → 0 < n
      → n ≤ max_lock_count
      → Attempt locks n w₀ (fill pthread locks n w)
  unfolding fill
  fill-Attempt locks n w₀ w unused same one some_locks few =
      elim (init_from-Filled 0 n w (omega arith) (omega (arith, one))) [
        | inl all ↦
            rw (all.0, fill)
              (record {
                consistent = record { has = λ h. refl };
                balanced = ground (arith, unused, all.1, same, one);
                result = inl (refl, refl, refl, some_locks, few);
              })
        | inr undone ↦
            rw (undone.0, fill)
              (record {
                consistent = record { has = λ h. ground (arith, h, unused) };
                balanced = ground (arith, unused, undone.1, same, one);
                result = inr (refl, refl);
              })
      ]

  -- If the calls make and remove one mutex or array at a time, and an initialized object has its
  -- array, then `initialize`, whatever the calls return, either succeeds, with from 1 to 1024
  -- mutexes made, or fails, with every mutex that it made and the array removed again.
  pub initialize-Attempt :
      (locks : LocalLockArray) (n : ℕ) (w : W)
      → IsConsistent locks
      → Attempt locks n w (initialize pthread locks n w)
  unfolding initialize
  initialize-Attempt locks n w ok =
      let counted = counts.allocates n w in
      let kept : (rc : LockResult) → is_success rc ≡ false → Attempt locks n w ((locks, rc), w) =
        λ rc bad. record { consistent = ok; balanced = (refl, refl); result = inr (bad, refl) } in
      elim (Bool-cases (n == 0 || ltb max_lock_count n)) [
        | inl e ↦ rw e (kept error_invalid_param refl)
        | inr e ↦ elim (Bool-cases locks.initialized) [
          | inl used ↦ simp (e, used, initialize) (kept error_unknown refl)
          | inr unused ↦ elim (Bool-cases (pthread.allocate n w).0) [
            | inl given ↦
                simp (e, unused, given, initialize)
                  (fill-Attempt locks n w (pthread.allocate n w).1 unused counted.0
                    (omega (arith, counted, ap one_if given)) (ground (arith, e))
                    (ground (arith, e)))
            | inr refused ↦
                simp (e, unused, refused, initialize)
                  (record {
                    consistent = record { has = λ h. ground (arith, h) };
                    balanced = ground (arith, unused, counted, refused);
                    result = inr (refl, sym unused);
                  })
          ]
        ]
      ]

  -- If an initialized object has its array and its mutexes are among those that the process has, then
  -- `destroy` removes exactly these, and the object owns none.
  pub destroy-Balanced :
      (locks : LocalLockArray) (w : W)
      → IsConsistent locks
      → mutexes_of locks ≤ live w
      → arrays_of locks ≤ arrays w
      → let (locks', w') = destroy pthread locks w in
        Balanced locks w locks' w' × (mutexes_of locks' ≡ 0) × (arrays_of locks' ≡ 0)
  unfolding destroy
  destroy-Balanced locks w ok mutexes array = elim (Bool-cases locks.initialized) [
    | inr unused ↦ ground (arith, unused)
    | inl used ↦
        let has = ok.has used in
        let freed = destroy_from-Counted 0 locks.lock_count w (ground (arith, used, mutexes)) in
        let gone =
          counts.frees (destroy_from pthread 0 locks.lock_count w)
            (ground (arith, used, array, freed)) in
        ground (arith, used, has, freed, gone)
  ]
