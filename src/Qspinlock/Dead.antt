-- ===== src/Qspinlock/Dead.antt =====
-- The forced release of src/qspinlock_global_lock.cpp: a node has put itself at the tail of the lock word and
-- has not linked itself behind the holder when the holder's bounded wait ends.
use cxl_dis_lock.Common.{ℕ, zero, suc, ◌+◌, ◌*◌, ◌-◌, ◌≤◌, ◌<◌, ◌≡◌, ◌≢◌, arith, refl, some}
use cxl_dis_lock.Types.{success, error_not_owner, invalid_node_id, invalid_lock_id, max_lock_count}
use cxl_dis_lock.Memory.{Shm, at, region}
use cxl_dis_lock.Memory.Access.{put}
use cxl_dis_lock.Lines.{
  IsReady, put-IsReady, entry_at, node_at, entry_word, node_word, entry_load, entry_store,
  entry_exchange, node_load, node_store, address,
}
use cxl_dis_lock.Qspinlock.{
  Qspinlock, lock_word, owner_node, next_node, locked, waiting_lock, get_entry, get_node,
  qspin_locked, qspin_tail_idx, qspin_node_to_tail, acquire_lock, release_lock, check_grant,
  await_next, wait_or_force,
}
use cxl_dis_lock.Qspinlock.Words.{tail_idx_of_set, set_tail-Exact, word-ne}
use cxl_dis_lock.Qspinlock.Layout.{entry_ptr, node_ptr}
use cxl_dis_lock.Qspinlock.Ops.{
  joined, acquire_lock-eq_joined, release_lock-eq_not_owner, check_grant-eq_nobody,
}
use cxl_dis_lock.Qspinlock.Queue.{joined-IsReady}

-- No node owns the lock, and its word says that it is locked, with a node at its tail.
pub record IsDead (s : Shm) (base count l : ℕ) : Type 0 where
  pub ready : IsReady s base count
  pub no_owner : entry_word s base l owner_node ≡ invalid_node_id
  pub bit : qspin_locked (entry_word s base l lock_word) ≡ 1
  pub tail :
      (0 < qspin_tail_idx (entry_word s base l lock_word))
      × (qspin_tail_idx (entry_word s base l lock_word) ≤ count)

-- The state after a forced release.
abbrev pub forced : Shm → ℕ → ℕ → ℕ → Shm
forced s base l n =
    put
      (put
        (put (put s (entry_at base l lock_word) (entry_word s base l lock_word))
          (entry_at base l owner_node) invalid_node_id)
        (node_at base n locked) 0)
      (node_at base n waiting_lock) invalid_lock_id

module _ {base count l : ℕ} (hl : l < max_lock_count) (a : Qspinlock)
    (own : a.node_count ≡ count) where
  await_next-quiet :
      {s : Shm} (r : IsReady s base count) (n : ℕ) (hn : n < count)
      → node_word s base n next_node ≡ invalid_node_id
      → (left : ℕ) → await_next left (at (address r + (base + 65536 + n * 64))) s ≡ some (tt, s)
  unfolding await_next
  await_next-quiet r n hn no_next zero = refl
  await_next-quiet r n hn no_next (suc left) = ground (
    arith,
    node_load r n next_node hn (omega arith),
    no_next,
    await_next-quiet r n hn no_next left,
  )

  pub release_lock-eq_forced :
      {s : Shm} (r : IsReady s base count) (n : ℕ) (hn : n < count)
      → entry_word s base l owner_node ≡ n
      → node_word s base n next_node ≡ invalid_node_id
      → qspin_tail_idx (entry_word s base l lock_word) ≢ qspin_node_to_tail n
      → release_lock a n l region base s ≡ some (success, forced s base l n)
  unfolding release_lock wait_or_force get_entry get_node
  release_lock-eq_forced {s} r n hn owned no_next other =
      let w = entry_word s base l lock_word in
      let r₁ = put-IsReady r (entry_at base l lock_word) w in
      let r₂ = put-IsReady r₁ (entry_at base l owner_node) invalid_node_id in
      let r₃ = put-IsReady r₂ (node_at base n locked) 0 in
      let s₁ = put s (entry_at base l lock_word) w in
      let still : node_word s₁ base n next_node ≡ invalid_node_id = ground (arith, no_next) in
      rw own (
        ground (
          arith,
          r.few,
          node_ptr r n hn,
          entry_ptr r l hl,
          entry_load r l owner_node hl (omega arith),
          owned,
          node_load r n next_node hn (omega arith),
          no_next,
          entry_load r l lock_word hl (omega arith),
          other,
          entry_exchange r l lock_word hl (omega arith) w w,
          await_next-quiet r₁ n hn still 1000001,
          node_load r₁ n next_node hn (omega arith),
          still,
          entry_store r₁ l owner_node hl (omega arith) invalid_node_id,
          node_store r₂ n locked hn (omega arith) 0,
          node_store r₃ n waiting_lock hn (omega arith) invalid_lock_id,
        ))

  -- A lock that is dead stays dead: the request of a node succeeds and is queued, a scan names nobody, and
  -- no node can release it.
  pub IsDead-Stays :
      {s : Shm}
      → IsDead s base count l
      → (rounds x : ℕ) → x < count
      → ((t : Shm) × (acquire_lock (suc rounds) a x l region base s ≡ some (success, t))
          × IsDead t base count l
          × (node_word t base x locked ≡ 1))
        × (check_grant a l region base count s ≡ some (invalid_node_id, s))
        × (release_lock a x l region base s ≡ some (error_not_owner, s))
  IsDead-Stays {s} d rounds x hx =
      let r = d.ready in
      let w = entry_word s base l lock_word in
      let p = qspin_tail_idx w - 1 in
      let hp : p < count = omega (arith, d.tail) in
      let few : x < 65535 = omega (arith, r.few, hx) in
      (
        (
          joined s base l x p,
          acquire_lock-eq_joined r l x hl hx a own rounds p hp (word-ne w d.bit)
              (omega (arith, d.tail)),
          record {
            ready = joined-IsReady l r x p;
            no_owner = ground (arith, d.no_owner);
            bit = ground (arith, (set_tail-Exact w x few).1, d.bit);
            tail = ground (arith, tail_idx_of_set w x few, hx);
          },
          ground arith,
        ),
        check_grant-eq_nobody r l hl a (ground (arith, d.bit)),
        release_lock-eq_not_owner r l x hl hx a own (ground (arith, d.no_owner, hx, r.few)),
      )
