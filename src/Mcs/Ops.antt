-- ===== src/Mcs/Ops.antt =====
-- What the operations of src/mcs_global_lock.cpp do on a region that holds the lock state, when no
-- other node runs in between.
use cxl_dis_lock.Common.{
  ℕ, suc, ◌<◌, ◌≡◌, ◌≢◌, arith, false, some, ◌==◌, ◌||◌, ◌&&◌, leb, if◌then◌else◌, ◌⊎◌, inl, inr,
  dec_lt,
}
use cxl_dis_lock.Types.{success, error_not_owner, invalid_node_id, invalid_lock_id, max_lock_count}
use cxl_dis_lock.Memory.{Shm, region}
use cxl_dis_lock.Memory.Access.{put}
use cxl_dis_lock.Lines.{
  IsReady, put-IsReady, entry_at, node_at, entry_word, node_word, entry_load, entry_store,
  entry_exchange, node_load, node_store,
}
use cxl_dis_lock.Mcs.{
  Mcs, tail_node, head_node, owner_node, next_node, locked, waiting_lock, get_entry, get_node,
  swap_tail, acquire_lock, reset_node, pass_on, release_lock, check_grant, grant_lock, is_granted,
}
use cxl_dis_lock.Mcs.Layout.{entry_ptr, node_ptr}

-- Step 1 of `acquire_lock`, and the reset at the end of `release_lock`.
abbrev pub set_node : Shm → ℕ → ℕ → ℕ → ℕ → ℕ → Shm
set_node s base n next flag lock =
    put (put (put s (node_at base n next_node) next) (node_at base n locked) flag)
      (node_at base n waiting_lock) lock

abbrev pub set_tail : Shm → ℕ → ℕ → ℕ → Shm
set_tail s base l v = put s (entry_at base l tail_node) v

abbrev pub set_owner : Shm → ℕ → ℕ → ℕ → ℕ → Shm
set_owner s base l head owner =
    put (put s (entry_at base l head_node) head) (entry_at base l owner_node) owner

pub set_node-IsReady :
    {s : Shm} {base count : ℕ}
    → IsReady s base count
    → (n next flag lock : ℕ) → IsReady (set_node s base n next flag lock) base count
set_node-IsReady {s} {base} r n next flag lock =
    put-IsReady
      (put-IsReady (put-IsReady r (node_at base n next_node) next) (node_at base n locked) flag)
      (node_at base n waiting_lock) lock

-- The state after `acquire_lock` of node `n` where the tail was `p`.
abbrev pub queued : Shm → ℕ → ℕ → ℕ → ℕ → Shm
queued s base l n p =
    let t = set_tail (set_node s base n invalid_node_id 1 l) base l n in
    if p == invalid_node_id
    then put t (entry_at base l head_node) n
    else put t (node_at base p next_node) n

module _ {s : Shm} {base count : ℕ} (r : IsReady s base count) (l n : ℕ) (hl : l < max_lock_count)
    (hn : n < count) (a : Mcs) (own : a.node_count ≡ count) where
  accepts : (n == invalid_node_id || leb max_lock_count l || leb count n) ≡ false
  accepts = ground (arith, r.few)

  -- The swap loop needs two rounds at most.
  pub acquire_lock-eq :
      (rounds p : ℕ)
      → entry_word s base l tail_node ≡ p
      → p ≢ n
      → (p ≡ invalid_node_id) ⊎ (p < count)
      → acquire_lock (suc (suc rounds)) a n l region base s ≡ some (success, queued s base l n p)
  unfolding acquire_lock swap_tail get_entry get_node
  acquire_lock-eq rounds p e ne range =
      let r₁ = put-IsReady r (node_at base n next_node) invalid_node_id in
      let r₂ = put-IsReady r₁ (node_at base n locked) 1 in
      let r₃ = put-IsReady r₂ (node_at base n waiting_lock) l in
      let r₄ = put-IsReady r₃ (entry_at base l tail_node) n in
      let s₃ = set_node s base n invalid_node_id 1 l in
      let tail : entry_word s₃ base l tail_node ≡ p = ground arith in
      elim range [
        | inl empty ↦ rw own (
            ground (
              arith,
              accepts,
              node_ptr r n hn,
              node_store r n next_node hn (omega arith) invalid_node_id,
              node_store r₁ n locked hn (omega arith) 1,
              node_store r₂ n waiting_lock hn (omega arith) l,
              entry_ptr r₃ l hl,
              tail,
              entry_exchange r₃ l tail_node hl (omega arith) invalid_node_id n,
              entry_store r₄ l head_node hl (omega arith) n,
            ))
        | inr some_node ↦ rw own (
            ground (
              arith,
              accepts,
              r.few,
              node_ptr r n hn,
              node_store r n next_node hn (omega arith) invalid_node_id,
              node_store r₁ n locked hn (omega arith) 1,
              node_store r₂ n waiting_lock hn (omega arith) l,
              entry_ptr r₃ l hl,
              tail,
              entry_exchange r₃ l tail_node hl (omega arith) invalid_node_id n,
              entry_load r₃ l tail_node hl (omega arith),
              entry_exchange r₃ l tail_node hl (omega arith) p n,
              node_ptr r₄ p some_node,
              node_store r₄ p next_node some_node (omega arith) n,
            ))
      ]

-- The state after `release_lock` of the last node, and after the lock is passed on to `m`.
abbrev pub emptied : Shm → ℕ → ℕ → ℕ → Shm
emptied s base l n =
    set_node (set_owner (set_tail s base l invalid_node_id) base l invalid_node_id invalid_node_id)
      base n invalid_node_id 0 invalid_lock_id

abbrev pub passed : Shm → ℕ → ℕ → ℕ → ℕ → Shm
passed s base l n m =
    set_node (put (set_owner s base l m m) (node_at base m locked) 0) base n invalid_node_id 0
      invalid_lock_id

abbrev pub granted : Shm → ℕ → ℕ → ℕ → Shm
granted s base l n = put (put s (node_at base n locked) 2) (entry_at base l owner_node) n

module _ {s : Shm} {base count : ℕ} (r : IsReady s base count) (l n : ℕ) (hl : l < max_lock_count)
    (hn : n < count) (a : Mcs) (own : a.node_count ≡ count) where
  -- A node that is not the owner is refused, and nothing changes.
  pub release_lock-eq_not_owner :
      (rounds : ℕ)
      → entry_word s base l owner_node ≢ n
      → release_lock rounds a n l region base s ≡ some (error_not_owner, s)
  unfolding release_lock get_entry get_node
  release_lock-eq_not_owner rounds other = rw own (
      ground (
        arith,
        accepts r l n hl hn a own,
        node_ptr r n hn,
        entry_ptr r l hl,
        entry_load r l owner_node hl (omega arith),
      ))

  pub release_lock-eq_last :
      (rounds : ℕ)
      → entry_word s base l owner_node ≡ n
      → node_word s base n next_node ≡ invalid_node_id
      → entry_word s base l tail_node ≡ n
      → release_lock rounds a n l region base s ≡ some (success, emptied s base l n)
  unfolding release_lock get_entry get_node reset_node
  release_lock-eq_last rounds owned no_next last =
      let r₁ = put-IsReady r (entry_at base l tail_node) invalid_node_id in
      let r₂ = put-IsReady r₁ (entry_at base l head_node) invalid_node_id in
      let r₃ = put-IsReady r₂ (entry_at base l owner_node) invalid_node_id in
      let r₄ = put-IsReady r₃ (node_at base n next_node) invalid_node_id in
      let r₅ = put-IsReady r₄ (node_at base n locked) 0 in
      rw own (
        ground (
          arith,
          accepts r l n hl hn a own,
          node_ptr r n hn,
          entry_ptr r l hl,
          entry_load r l owner_node hl (omega arith),
          node_load r n next_node hn (omega arith),
          entry_exchange r l tail_node hl (omega arith) n invalid_node_id,
          entry_store r₁ l head_node hl (omega arith) invalid_node_id,
          entry_store r₂ l owner_node hl (omega arith) invalid_node_id,
          node_store r₃ n next_node hn (omega arith) invalid_node_id,
          node_store r₄ n locked hn (omega arith) 0,
          node_store r₅ n waiting_lock hn (omega arith) invalid_lock_id,
        ))

  pub release_lock-eq_passed :
      (rounds m : ℕ)
      → m < count
      → entry_word s base l owner_node ≡ n
      → node_word s base n next_node ≡ m
      → release_lock rounds a n l region base s ≡ some (success, passed s base l n m)
  unfolding release_lock pass_on get_entry get_node reset_node
  release_lock-eq_passed rounds m hm owned next =
      let r₁ = put-IsReady r (entry_at base l head_node) m in
      let r₂ = put-IsReady r₁ (entry_at base l owner_node) m in
      let r₃ = put-IsReady r₂ (node_at base m locked) 0 in
      let r₄ = put-IsReady r₃ (node_at base n next_node) invalid_node_id in
      let r₅ = put-IsReady r₄ (node_at base n locked) 0 in
      rw own (
        ground (
          arith,
          r.few,
          accepts r l n hl hn a own,
          node_ptr r n hn,
          node_ptr r m hm,
          entry_ptr r l hl,
          entry_load r l owner_node hl (omega arith),
          node_load r n next_node hn (omega arith),
          entry_store r l head_node hl (omega arith) m,
          entry_store r₁ l owner_node hl (omega arith) m,
          node_store r₂ m locked hm (omega arith) 0,
          node_store r₃ n next_node hn (omega arith) invalid_node_id,
          node_store r₄ n locked hn (omega arith) 0,
          node_store r₅ n waiting_lock hn (omega arith) invalid_lock_id,
        ))

  pub grant_lock-eq : grant_lock a n l region base s ≡ some (success, granted s base l n)
  unfolding grant_lock get_entry get_node
  grant_lock-eq =
      let r₁ = put-IsReady r (node_at base n locked) 2 in
      rw own (
        ground (
          arith,
          accepts r l n hl hn a own,
          node_ptr r n hn,
          entry_ptr r l hl,
          node_store r n locked hn (omega arith) 2,
          entry_store r₁ l owner_node hl (omega arith) n,
        ))

  pub is_granted-eq :
      is_granted l n count base s
      ≡ some (
        (node_word s base n locked == 2 || node_word s base n locked == 0)
            && node_word s base n waiting_lock == l,
        s,
      )
  unfolding is_granted get_node
  is_granted-eq = ground (
    arith,
    node_ptr r n hn,
    node_load r n locked hn (omega arith),
    node_load r n waiting_lock hn (omega arith),
  )

-- `check_grant` answers with the head of the queue, where no node owns the lock and the head waits
-- for it.
abbrev pub named : Shm → ℕ → ℕ → ℕ → ℕ → ℕ
named s base count l head =
    if entry_word s base l owner_node == invalid_node_id
      && leb (suc head) count
      && node_word s base head locked == 1
      && node_word s base head waiting_lock == l
    then head
    else invalid_node_id

pub check_grant-eq :
    {s : Shm} {base count : ℕ}
    → IsReady s base count
    → (l : ℕ) → l < max_lock_count
    → (a : Mcs)
    → check_grant a l region base count s
      ≡ some (named s base count l (entry_word s base l head_node), s)
unfolding check_grant get_entry get_node
check_grant-eq {s} {base} {count} r l hl a = elim (dec_lt (entry_word s base l head_node) count) [
  | yes hn ↦ ground (
    arith,
    r.few,
    entry_ptr r l hl,
    entry_load r l owner_node hl (omega arith),
    entry_load r l head_node hl (omega arith),
    node_ptr r (entry_word s base l head_node) hn,
    node_load r (entry_word s base l head_node) locked hn (omega arith),
    node_load r (entry_word s base l head_node) waiting_lock hn (omega arith),
  )
  | no hn ↦ ground (
    arith,
    r.few,
    entry_ptr r l hl,
    entry_load r l owner_node hl (omega arith),
    entry_load r l head_node hl (omega arith),
  )
]
