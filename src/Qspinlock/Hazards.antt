-- ===== src/Qspinlock/Hazards.antt =====
-- How the lock of src/qspinlock_global_lock.cpp loses a waiter.
use cxl_dis_lock.Common.{ℕ, suc, ◌+◌, ◌<◌, ◌≡◌, arith, sym, ap, ◌∙◌, some, List, [], ◌∷◌}
use cxl_dis_lock.Types.{success, max_lock_count}
use cxl_dis_lock.Memory.{Shm, region}
use cxl_dis_lock.Lines.{entry_word, node_word}
use cxl_dis_lock.Mcs.Chain.{Absent, Chain-lock}
use cxl_dis_lock.Qspinlock.{
  Qspinlock, lock_word, locked, waiting_lock, qspin_tail_idx, qspin_locked, held_word,
  qspin_node_to_tail, acquire_lock, release_lock,
}
use cxl_dis_lock.Qspinlock.Words.{
  tail_idx_of_held, tail_idx_of_set, set_tail-Exact, locked_of_held, word-ne,
}
use cxl_dis_lock.Qspinlock.Ops.{handed, joined, acquire_lock-eq_joined, release_lock-eq_handed}
use cxl_dis_lock.Qspinlock.Queue.{Holds, joined-IsReady, handed-IsReady}

module _ {base count l : ℕ} (hl : l < max_lock_count) (a : Qspinlock)
    (own : a.node_count ≡ count) where
  -- If at least two nodes `m` and `k` wait behind the holder `n`, and `n` releases the lock and then a
  -- node `x` outside of the queue requests it, both succeed and leave the queue `m`, `x`: the node `k`
  -- is still WAITING for the lock, and no longer in its queue.
  pub release_lock-loses :
      {s : Shm} (rounds n m k x : ℕ) (ks : List ℕ)
      → Holds s base count l (n ∷ m ∷ k ∷ ks)
      → x < count
      → Absent x (n ∷ m ∷ k ∷ ks)
      → (t : Shm) × (u : Shm) × (release_lock a n l region base s ≡ some (success, t))
        × (acquire_lock (suc rounds) a x l region base t ≡ some (success, u))
        × Holds u base count l (m ∷ x ∷ [])
        × (node_word u base k locked ≡ 1)
        × (node_word u base k waiting_lock ≡ l)
  release_lock-loses {s} rounds n m k x ks h hx out =
      let r = h.ready in
      let (tail, bit, owned, flag, apart, chain) = h.queue in
      let hm = chain.4.0 in
      let t = handed s base l n m in
      let u = joined t base l x m in
      let r₁ = handed-IsReady l r n m in
      let few : (m < 65535) × (x < 65535) = (omega (arith, r.few, hm), omega (arith, r.few, hx)) in
      let word : entry_word t base l lock_word ≡ held_word (qspin_node_to_tail m) = ground arith in
      let bit_t : qspin_locked (entry_word t base l lock_word) ≡ 1 =
        ap qspin_locked word ∙ locked_of_held m in
      let tail_t : qspin_tail_idx (entry_word t base l lock_word) ≡ m + 1 =
        ap qspin_tail_idx word ∙ tail_idx_of_held m few.0 in
      let exact = set_tail-Exact (entry_word t base l lock_word) x few.1 in
      (
        t,
        u,
        release_lock-eq_handed r l n hl chain.0 a own m hm owned chain.2,
        acquire_lock-eq_joined r₁ l x hl hx a own rounds m hm (word-ne _ bit_t) tail_t,
        record {
          ready = joined-IsReady l r₁ x m;
          queue = (
            ground (arith, tail_idx_of_set (entry_word t base l lock_word) x few.1),
            ground (arith, exact.1, bit_t),
            ground arith,
            ground (arith, apart.0, out),
            ((λ e. out.1.0 (sym e), tt), (tt, tt)),
            (
              hm,
              ground (arith, apart.0, out, chain.4.1),
              ground arith,
              ground (arith, out),
              (hx, ground (arith, out), ground (arith, out)),
            ),
          );
        },
        ground (arith, apart, out, chain.4.3),
        ground (arith, apart, out, Chain-lock base count l s k ks chain.4.4),
      )
