-- ===== src/TwoTier/Polling.antt =====
-- The poll of src/two_tier_lock.cpp with a timeout of zero.
use cxl_dis_lock.Common.{
  ℕ, zero, suc, ◌+◌, ◌<◌, ◌≡◌, arith, refl, ap, ◌∙◌, Bool, true, false, some, ◌⊎◌, inl, inr,
  Bool-cases, ltb,
}
use cxl_dis_lock.Types.{LockResult, u32, success, error_busy}
use cxl_dis_lock.Memory.{Shm}
use cxl_dis_lock.LocalLock.{Mutexes}
use cxl_dis_lock.Algorithm.{GlobalLockAlgorithm}
use cxl_dis_lock.TwoTier.{TwoTierLock, Surroundings, verdict, poll_from, poll_for_grant}

module _ {W A : Type 0} (pthread : Mutexes W) (alg : GlobalLockAlgorithm A)
    (around : Surroundings A) (lock : TwoTierLock A) (l : ℕ) (Inv : Shm → Type 0)
    (kept : (k : ℕ) (s : Shm) → Inv s → Inv (around.others k s))
    (answers : (s : Shm)
      → Inv s
      → (b : Bool) × (around.is_granted lock.algorithm l lock.node_id lock.node_count
            lock.state_offset s
          ≡ some (b, s))) where
  -- The poll ends with `success` where the test succeeds, or with `error_busy`.
  abbrev pub Ends : LockResult → Shm → Type 0
  Ends rc t =
      ((rc ≡ success)
        × (around.is_granted lock.algorithm l lock.node_id lock.node_count lock.state_offset t
            ≡ some (true, t)))
      ⊎ ((rc ≡ error_busy)
          × (around.is_granted lock.algorithm l lock.node_id lock.node_count lock.state_offset t
              ≡ some (false, t)))

  poll_from-lem :
      (rounds k : ℕ) (w : W) (s : Shm)
      → k + rounds ≡ 1002
      → 0 < rounds
      → Inv s
      → (rc : LockResult) × (t : Shm) × (poll_from pthread alg around rounds lock l 0 k (w, s)
          ≡ some (rc, (w, t)))
        × Inv t
        × Ends rc t
  unfolding poll_from verdict
  poll_from-lem zero k w s e pos inv = absurd (omega (arith, pos))
  poll_from-lem (suc rounds) k w s e pos inv =
      let t = around.others k s in
      let inv_t = kept k s inv in
      let (b, asked) = answers t inv_t in
      elim (Bool-cases b) [
        | inl granted ↦ (
          success,
          t,
          ground (arith, asked, granted),
          inv_t,
          inl (refl, asked ∙ ap (λ x. some (x, t)) granted),
        )
        | inr refused ↦ elim (Bool-cases (ltb 1000 k)) [
          | inl late ↦ (
            error_busy,
            t,
            ground (arith, asked, refused, late),
            inv_t,
            inr (refl, asked ∙ ap (λ x. some (x, t)) refused),
          )
          | inr early ↦
              let next : u32 (k + 1) ≡ k + 1 = ground arith in
              let (rc, u, ran, inv_u, ends) =
                poll_from-lem rounds (k + 1) w t (omega (arith, e)) (ground (arith, e)) inv_t in
              (rc, u, ground (arith, asked, refused, early, next, ran), inv_u, ends)
        ]
      ]

  -- With a timeout of zero, 1002 rounds are enough, whatever other nodes do in between, if the test of a
  -- granted lock returns and changes nothing: the poll returns `success` where the last test found the
  -- lock granted, and `error_busy` where it did not.
  pub poll_for_grant-Ends :
      (w : W) (s : Shm)
      → Inv s
      → (rc : LockResult) × (t : Shm) × (poll_for_grant pthread alg around 1002 lock l 0 (w, s)
          ≡ some (rc, (w, t)))
        × Inv t
        × Ends rc t
  unfolding poll_for_grant
  poll_for_grant-Ends w s inv = poll_from-lem 1002 0 w s refl (omega arith) inv
