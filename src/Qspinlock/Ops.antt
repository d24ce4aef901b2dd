-- ===== src/Qspinlock/Ops.antt =====
-- What the operations of src/qspinlock_global_lock.cpp do on a region that holds the lock state, when
-- no other node runs in between.
use cxl_dis_lock.Common.{ℕ, suc, ◌+◌, ◌<◌, ◌≡◌, ◌≢◌, arith, false, some, ◌==◌, ◌||◌, ◌&&◌, not, leb}
use cxl_dis_lock.Types.{success, error_not_owner, invalid_node_id, invalid_lock_id, max_lock_count}
use cxl_dis_lock.Memory.{Shm, region}
use cxl_dis_lock.Memory.Access.{put}
use cxl_dis_lock.Lines.{
  IsReady, put-IsReady, entry_at, node_at, entry_word, node_word, entry_load, entry_store,
  entry_exchange, node_load, node_store,
}
use cxl_dis_lock.Qspinlock.{
  Qspinlock, lock_word, owner_node, pending_tail, next_node, locked, waiting_lock, get_entry,
  get_node, qspin_locked, qspin_tail_idx, qspin_set_tail, qspin_node_to_tail, held_word, join_queue,
  acquire_lock, pass_on, release_lock, check_grant, is_granted,
}
use cxl_dis_lock.Qspinlock.Words.{node_of_tail}
use cxl_dis_lock.Qspinlock.Layout.{entry_ptr, node_ptr}

abbrev pub set_node : Shm → ℕ → ℕ → ℕ → ℕ → ℕ → Shm
set_node s base n next flag lock =
    put (put (put s (node_at base n next_node) next) (node_at base n locked) flag)
      (node_at base n waiting_lock) lock

pub set_node-IsReady :
    {s : Shm} {base count : ℕ}
    → IsReady s base count
    → (n next flag lock : ℕ) → IsReady (set_node s base n next flag lock) base count
set_node-IsReady {s} {base} r n next flag lock =
    put-IsReady
      (put-IsReady (put-IsReady r (node_at base n next_node) next) (node_at base n locked) flag)
      (node_at base n waiting_lock) lock

abbrev pub set_held : Shm → ℕ → ℕ → ℕ → Shm
set_held s base l n =
    put (put (put s (entry_at base l pending_tail) n) (entry_at base l owner_node) n)
      (entry_at base l lock_word) (held_word (qspin_node_to_tail n))

-- The states after the fast path of `acquire_lock`, after its slow path behind node `p`, and after the
-- two ways `release_lock` ends.
abbrev pub taken : Shm → ℕ → ℕ → ℕ → Shm
taken s base l n =
    put
      (put
        (put
          (put (set_node s base n invalid_node_id 1 l) (entry_at base l lock_word)
            (held_word (qspin_node_to_tail n)))
          (node_at base n locked) 2)
        (entry_at base l owner_node) n)
      (entry_at base l pending_tail) n

abbrev pub joined : Shm → ℕ → ℕ → ℕ → ℕ → Shm
joined s base l n p =
    put
      (put (set_node s base n invalid_node_id 1 l) (entry_at base l lock_word)
        (qspin_set_tail (entry_word s base l lock_word) (qspin_node_to_tail n)))
      (node_at base p next_node) n

abbrev pub handed : Shm → ℕ → ℕ → ℕ → ℕ → Shm
handed s base l n m =
    set_node (put (set_held s base l m) (node_at base m locked) 2) base n invalid_node_id 0
      invalid_lock_id

abbrev pub freed : Shm → ℕ → ℕ → ℕ → Shm
freed s base l n =
    set_node
      (put
        (put (put s (entry_at base l lock_word) 0) (entry_at base l pending_tail) invalid_node_id)
        (entry_at base l owner_node) invalid_node_id)
      base n invalid_node_id 0 invalid_lock_id

module _ {s : Shm} {base count : ℕ} (r : IsReady s base count) (l n : ℕ) (hl : l < max_lock_count)
    (hn : n < count) (a : Qspinlock) (own : a.node_count ≡ count) where
  accepts : (n == invalid_node_id || leb count n || leb max_lock_count l) ≡ false
  accepts = ground (arith, r.few)

  pub acquire_lock-eq_fast :
      (rounds : ℕ)
      → entry_word s base l lock_word ≡ 0
      → acquire_lock rounds a n l region base s ≡ some (success, taken s base l n)
  unfolding acquire_lock get_entry get_node
  acquire_lock-eq_fast rounds free =
      let w = held_word (qspin_node_to_tail n) in
      let r₁ = put-IsReady r (node_at base n next_node) invalid_node_id in
      let r₂ = put-IsReady r₁ (node_at base n locked) 1 in
      let r₃ = put-IsReady r₂ (node_at base n waiting_lock) l in
      let r₄ = put-IsReady r₃ (entry_at base l lock_word) w in
      let r₅ = put-IsReady r₄ (node_at base n locked) 2 in
      let r₆ = put-IsReady r₅ (entry_at base l owner_node) n in
      let word : entry_word (set_node s base n invalid_node_id 1 l) base l lock_word ≡ 0 =
        ground arith in
      rw own (
        ground (
          arith,
          accepts,
          node_ptr r n hn,
          entry_ptr r l hl,
          node_store r n next_node hn (omega arith) invalid_node_id,
          node_store r₁ n locked hn (omega arith) 1,
          node_store r₂ n waiting_lock hn (omega arith) l,
          word,
          entry_exchange r₃ l lock_word hl (omega arith) 0 w,
          node_store r₄ n locked hn (omega arith) 2,
          entry_store r₅ l owner_node hl (omega arith) n,
          entry_store r₆ l pending_tail hl (omega arith) n,
        ))

  -- One attempt is enough.
  pub acquire_lock-eq_joined :
      (rounds p : ℕ)
      → p < count
      → entry_word s base l lock_word ≢ 0
      → qspin_tail_idx (entry_word s base l lock_word) ≡ p + 1
      → acquire_lock (suc rounds) a n l region base s ≡ some (success, joined s base l n p)
  unfolding acquire_lock join_queue get_entry get_node
  acquire_lock-eq_joined rounds p hp busy tail =
      let w = entry_word s base l lock_word in
      let new = qspin_set_tail w (qspin_node_to_tail n) in
      let r₁ = put-IsReady r (node_at base n next_node) invalid_node_id in
      let r₂ = put-IsReady r₁ (node_at base n locked) 1 in
      let r₃ = put-IsReady r₂ (node_at base n waiting_lock) l in
      let r₄ = put-IsReady r₃ (entry_at base l lock_word) new in
      let word : entry_word (set_node s base n invalid_node_id 1 l) base l lock_word ≡ w =
        ground arith in
      rw own (
        ground (
          arith,
          accepts,
          node_ptr r n hn,
          entry_ptr r l hl,
          node_store r n next_node hn (omega arith) invalid_node_id,
          node_store r₁ n locked hn (omega arith) 1,
          node_store r₂ n waiting_lock hn (omega arith) l,
          word,
          entry_exchange r₃ l lock_word hl (omega arith) 0 (held_word (qspin_node_to_tail n)),
          entry_load r₃ l lock_word hl (omega arith),
          entry_exchange r₃ l lock_word hl (omega arith) w new,
          node_of_tail p,
          node_ptr r₄ p hp,
          node_store r₄ p next_node hp (omega arith) n,
        ))

  pub release_lock-eq_not_owner :
      entry_word s base l owner_node ≢ n
      → release_lock a n l region base s ≡ some (error_not_owner, s)
  unfolding release_lock get_entry get_node
  release_lock-eq_not_owner other = rw own (
      ground (
        arith,
        accepts,
        node_ptr r n hn,
        entry_ptr r l hl,
        entry_load r l owner_node hl (omega arith),
      ))

  pub release_lock-eq_freed :
      entry_word s base l owner_node ≡ n
      → node_word s base n next_node ≡ invalid_node_id
      → qspin_tail_idx (entry_word s base l lock_word) ≡ qspin_node_to_tail n
      → release_lock a n l region base s ≡ some (success, freed s base l n)
  unfolding release_lock get_entry get_node
  release_lock-eq_freed owned no_next last =
      let w = entry_word s base l lock_word in
      let r₁ = put-IsReady r (entry_at base l lock_word) 0 in
      let r₂ = put-IsReady r₁ (entry_at base l pending_tail) invalid_node_id in
      let r₃ = put-IsReady r₂ (entry_at base l owner_node) invalid_node_id in
      let r₄ = put-IsReady r₃ (node_at base n next_node) invalid_node_id in
      let r₅ = put-IsReady r₄ (node_at base n locked) 0 in
      rw own (
        ground (
          arith,
          accepts,
          node_ptr r n hn,
          entry_ptr r l hl,
          entry_load r l owner_node hl (omega arith),
          node_load r n next_node hn (omega arith),
          entry_load r l lock_word hl (omega arith),
          entry_exchange r l lock_word hl (omega arith) w 0,
          entry_store r₁ l pending_tail hl (omega arith) invalid_node_id,
          entry_store r₂ l owner_node hl (omega arith) invalid_node_id,
          node_store r₃ n next_node hn (omega arith) invalid_node_id,
          node_store r₄ n locked hn (omega arith) 0,
          node_store r₅ n waiting_lock hn (omega arith) invalid_lock_id,
        ))

  pub release_lock-eq_handed :
      (m : ℕ)
      → m < count
      → entry_word s base l owner_node ≡ n
      → node_word s base n next_node ≡ m
      → release_lock a n l region base s ≡ some (success, handed s base l n m)
  unfolding release_lock pass_on get_entry get_node
  release_lock-eq_handed m hm owned next =
      let w = held_word (qspin_node_to_tail m) in
      let r₁ = put-IsReady r (entry_at base l pending_tail) m in
      let r₂ = put-IsReady r₁ (entry_at base l owner_node) m in
      let r₃ = put-IsReady r₂ (entry_at base l lock_word) w in
      let r₄ = put-IsReady r₃ (node_at base m locked) 2 in
      let r₅ = put-IsReady r₄ (node_at base n next_node) invalid_node_id in
      let r₆ = put-IsReady r₅ (node_at base n locked) 0 in
      rw own (
        ground (
          arith,
          r.few,
          accepts,
          node_ptr r n hn,
          node_ptr r m hm,
          entry_ptr r l hl,
          entry_load r l owner_node hl (omega arith),
          node_load r n next_node hn (omega arith),
          entry_store r l pending_tail hl (omega arith) m,
          entry_store r₁ l owner_node hl (omega arith) m,
          entry_store r₂ l lock_word hl (omega arith) w,
          node_store r₃ m locked hm (omega arith) 2,
          node_store r₄ n next_node hn (omega arith) invalid_node_id,
          node_store r₅ n locked hn (omega arith) 0,
          node_store r₆ n waiting_lock hn (omega arith) invalid_lock_id,
        ))

  pub is_granted-eq :
      is_granted l n count base s
      ≡ some (node_word s base n locked == 2 && node_word s base n waiting_lock == l, s)
  unfolding is_granted get_node
  is_granted-eq = ground (
    arith,
    node_ptr r n hn,
    node_load r n locked hn (omega arith),
    node_load r n waiting_lock hn (omega arith),
  )

-- Where the locked bit is set, and where the word has no tail, the scan finds nobody.
pub check_grant-eq_nobody :
    {s : Shm} {base count : ℕ}
    → IsReady s base count
    → (l : ℕ) → l < max_lock_count
    → (a : Qspinlock)
    → (qspin_locked (entry_word s base l lock_word) == 0
        && not (qspin_tail_idx (entry_word s base l lock_word) == 0))
      ≡ false
    → check_grant a l region base count s ≡ some (invalid_node_id, s)
unfolding check_grant get_entry
check_grant-eq_nobody r l hl a h =
    ground (arith, r.few, entry_ptr r l hl, entry_load r l lock_word hl (omega arith))
