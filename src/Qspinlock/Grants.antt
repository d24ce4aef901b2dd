-- ===== src/Qspinlock/Grants.antt =====
-- The two calls that the manager makes on src/qspinlock_global_lock.cpp, on any state.
use cxl_dis_lock.Common.{
  ℕ, ◌<◌, ◌≡◌, arith, refl, true, not, ◌&&◌, ◌==◌, leb, some, Bool-cases, ◌⊎◌, inl, inr,
}
use cxl_dis_lock.Types.{success, invalid_node_id, max_lock_count}
use cxl_dis_lock.Memory.{Shm, region}
use cxl_dis_lock.Memory.Access.{put}
use cxl_dis_lock.Lines.{
  IsReady, put-IsReady, entry_at, node_at, entry_word, node_word, entry_load, entry_store,
  node_load, node_store,
}
use cxl_dis_lock.Qspinlock.{
  Qspinlock, lock_word, owner_node, pending_tail, grant_in_progress, next_node, locked,
  waiting_lock, get_entry, get_node, qspin_locked, qspin_tail_idx, qspin_node_to_tail, held_word,
  check_grant, grant_lock,
}
use cxl_dis_lock.Qspinlock.Layout.{entry_ptr, node_ptr}
use cxl_dis_lock.Qspinlock.Ops.{check_grant-eq_nobody}

-- The state after `grant_lock`.
abbrev pub granted : Shm → ℕ → ℕ → ℕ → Shm
granted s base l n =
    put
      (put
        (put (put (put s (node_at base n locked) 2) (entry_at base l owner_node) n)
          (entry_at base l lock_word) (held_word (qspin_node_to_tail n)))
        (entry_at base l pending_tail) (node_word s base n next_node))
      (entry_at base l grant_in_progress) 0

module _ {s : Shm} {base count : ℕ} (r : IsReady s base count) (l : ℕ) (hl : l < max_lock_count)
    (a : Qspinlock) where
  -- The scan names a node that waits for the lock, and marks the grant, or it names nobody and changes
  -- nothing.
  abbrev pub Named : ℕ → Shm → Type 0
  Named g t =
      ((g ≡ invalid_node_id) × (t ≡ s))
      ⊎ ((g < count)
          × (entry_word s base l pending_tail ≡ g)
          × (node_word s base g locked ≡ 1)
          × (node_word s base g waiting_lock ≡ l)
          × (entry_word s base l grant_in_progress ≡ 0)
          × (t ≡ put s (entry_at base l grant_in_progress) 1))

  abbrev Result : Type 0
  Result =
      (g : ℕ) × (t : Shm) × (check_grant a l region base count s ≡ some (g, t))
      × IsReady t base count
      × Named g t

  -- The lock is free, and a node is at the head of the queue.
  head-Named :
      (qspin_locked (entry_word s base l lock_word) == 0
          && not (qspin_tail_idx (entry_word s base l lock_word) == 0))
        ≡ true
      → (entry_word s base l grant_in_progress == 0) ≡ true
      → entry_word s base l pending_tail < count
      → Result
  unfolding check_grant get_entry get_node
  head-Named free calm inside =
      let head = entry_word s base l pending_tail in
      let at_entry = entry_ptr r l hl in
      let at_node = node_ptr r head inside in
      let word = entry_load r l lock_word hl (omega arith) in
      let in_progress = entry_load r l grant_in_progress hl (omega arith) in
      let pending = entry_load r l pending_tail hl (omega arith) in
      let flag = node_load r head locked inside (omega arith) in
      let waiting = node_load r head waiting_lock inside (omega arith) in
      elim (Bool-cases
        (node_word s base head locked == 1 && node_word s base head waiting_lock == l)) [
          | inl waits ↦ (
            head,
            put s (entry_at base l grant_in_progress) 1,
            ground (
              arith,
              r.few,
              free,
              calm,
              inside,
              waits,
              at_entry,
              at_node,
              word,
              in_progress,
              pending,
              flag,
              waiting,
              entry_store r l grant_in_progress hl (omega arith) 1,
            ),
            put-IsReady r (entry_at base l grant_in_progress) 1,
            inr (
              inside,
              refl,
              ground (arith, waits),
              ground (arith, waits),
              ground (arith, calm),
              refl,
            ),
          )
          | inr other ↦ (
            invalid_node_id,
            s,
            ground (
              arith, r.few, free, calm, inside, other, at_entry, at_node, word, in_progress,
              pending, flag, waiting,
            ),
            r,
            inl (refl, refl),
          )
        ]

  pub check_grant-Named :
      (g : ℕ) × (t : Shm) × (check_grant a l region base count s ≡ some (g, t))
      × IsReady t base count
      × Named g t
  unfolding check_grant get_entry get_node
  check_grant-Named =
      let w = entry_word s base l lock_word in
      let head = entry_word s base l pending_tail in
      let gip = entry_word s base l grant_in_progress in
      elim (Bool-cases (qspin_locked w == 0 && not (qspin_tail_idx w == 0))) [
        | inr none_free ↦
            (invalid_node_id, s, check_grant-eq_nobody r l hl a none_free, r, inl (refl, refl))
        | inl free ↦ elim (Bool-cases (gip == 0)) [
          | inr busy ↦ (
            invalid_node_id,
            s,
            ground (
              arith,
              r.few,
              free,
              busy,
              entry_ptr r l hl,
              entry_load r l lock_word hl (omega arith),
              entry_load r l grant_in_progress hl (omega arith),
            ),
            r,
            inl (refl, refl),
          )
          | inl calm ↦ elim (Bool-cases (leb count head)) [
            | inl outside ↦ (
              invalid_node_id,
              s,
              ground (
                arith,
                r.few,
                free,
                calm,
                outside,
                entry_ptr r l hl,
                entry_load r l lock_word hl (omega arith),
                entry_load r l grant_in_progress hl (omega arith),
                entry_load r l pending_tail hl (omega arith),
              ),
              r,
              inl (refl, refl),
            )
            | inr inside ↦ head-Named free calm (ground (arith, inside))
          ]
        ]
      ]

  module _ (n : ℕ) (hn : n < count) (own : a.node_count ≡ count) where
    pub grant_lock-eq : grant_lock a n l region base s ≡ some (success, granted s base l n)
    unfolding grant_lock get_entry get_node
    grant_lock-eq =
        let w = held_word (qspin_node_to_tail n) in
        let r₁ = put-IsReady r (node_at base n locked) 2 in
        let r₂ = put-IsReady r₁ (entry_at base l owner_node) n in
        let r₃ = put-IsReady r₂ (entry_at base l lock_word) w in
        let r₄ = put-IsReady r₃ (entry_at base l pending_tail) (node_word s base n next_node) in
        let s₃ =
          put (put (put s (node_at base n locked) 2) (entry_at base l owner_node) n)
            (entry_at base l lock_word) w in
        let next : node_word s₃ base n next_node ≡ node_word s base n next_node = ground arith in
        rw own (
          ground (
            arith,
            r.few,
            node_ptr r n hn,
            entry_ptr r l hl,
            node_store r n locked hn (omega arith) 2,
            entry_store r₁ l owner_node hl (omega arith) n,
            entry_store r₂ l lock_word hl (omega arith) w,
            node_load r₃ n next_node hn (omega arith),
            next,
            entry_store r₃ l pending_tail hl (omega arith) (node_word s base n next_node),
            entry_store r₄ l grant_in_progress hl (omega arith) 0,
          ))
