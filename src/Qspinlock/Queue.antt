-- ===== src/Qspinlock/Queue.antt =====
-- The lock of src/qspinlock_global_lock.cpp as a first-in first-out queue: what each operation does to
-- the queue, as long as each runs as a whole. The node records link like those of the MCS lock.
use cxl_dis_lock.Common.{
  ℕ, suc, ◌+◌, ◌<◌, ◌≡◌, arith, sym, ◌∙◌, true, false, some, List, [], ◌∷◌, ◌++◌,
}
use cxl_dis_lock.Types.{success, invalid_node_id, max_lock_count}
use cxl_dis_lock.Memory.{Shm, region}
use cxl_dis_lock.Lines.{IsReady, put-IsReady, entry_at, node_at, entry_word, node_word}
use cxl_dis_lock.Mcs.Chain.{
  last, Absent, Distinct, Distinct-append, last-append, ne-last, Chain, Chain-last, Chain-append,
  Linked,
}
use cxl_dis_lock.Qspinlock.{
  Qspinlock, lock_word, owner_node, pending_tail, next_node, locked, waiting_lock, qspin_locked,
  qspin_tail_idx, qspin_set_tail, qspin_node_to_tail, held_word, acquire_lock, release_lock,
  check_grant, is_granted,
}
use cxl_dis_lock.Qspinlock.Words.{
  tail_idx_of_held, tail_idx_of_set, set_tail-Exact, locked_of_held, node_to_tail-eq, word-ne,
}
use cxl_dis_lock.Qspinlock.Ops.{
  set_node-IsReady, taken, joined, handed, freed, acquire_lock-eq_fast, acquire_lock-eq_joined,
  release_lock-eq_freed, release_lock-eq_handed, check_grant-eq_nobody, is_granted-eq,
}

-- The shared state of lock `l` stands for the queue `q`, whose head holds the lock.
abbrev pub Queue : Shm → ℕ → ℕ → ℕ → List ℕ → Type 0
Queue s base count l [] = entry_word s base l lock_word ≡ 0
Queue s base count l (n ∷ ms) =
    (qspin_tail_idx (entry_word s base l lock_word) ≡ last n ms + 1)
    × (qspin_locked (entry_word s base l lock_word) ≡ 1)
    × (entry_word s base l owner_node ≡ n)
    × (node_word s base n locked ≡ 2)
    × Distinct (n ∷ ms)
    × Chain base count l s n ms

-- A state that is ready and stands for a queue.
pub record Holds (s : Shm) (base count l : ℕ) (q : List ℕ) : Type 0 where
  pub ready : IsReady s base count
  pub queue : Queue s base count l q

taken-IsReady :
    {s : Shm} {base count : ℕ} (l : ℕ)
    → IsReady s base count
    → (x : ℕ) → IsReady (taken s base l x) base count
taken-IsReady {s} {base} l r x =
    put-IsReady
      (put-IsReady
        (put-IsReady
          (put-IsReady (set_node-IsReady r x invalid_node_id 1 l) (entry_at base l lock_word)
            (held_word (qspin_node_to_tail x)))
          (node_at base x locked) 2)
        (entry_at base l owner_node) x)
      (entry_at base l pending_tail) x

pub joined-IsReady :
    {s : Shm} {base count : ℕ} (l : ℕ)
    → IsReady s base count
    → (x p : ℕ) → IsReady (joined s base l x p) base count
joined-IsReady {s} {base} l r x p =
    put-IsReady
      (put-IsReady (set_node-IsReady r x invalid_node_id 1 l) (entry_at base l lock_word)
        (qspin_set_tail (entry_word s base l lock_word) (qspin_node_to_tail x)))
      (node_at base p next_node) x

pub handed-IsReady :
    {s : Shm} {base count : ℕ} (l : ℕ)
    → IsReady s base count
    → (n m : ℕ) → IsReady (handed s base l n m) base count
handed-IsReady {s} {base} l r n m =
    set_node-IsReady
      (put-IsReady
        (put-IsReady
          (put-IsReady (put-IsReady r (entry_at base l pending_tail) m) (entry_at base l owner_node)
            m)
          (entry_at base l lock_word) (held_word (qspin_node_to_tail m)))
        (node_at base m locked) 2)
      n invalid_node_id 0 0xffffffff

module _ {base count l : ℕ} (hl : l < max_lock_count) (a : Qspinlock)
    (own : a.node_count ≡ count) where
  -- `acquire_lock` of a node outside of the queue puts it at the end; in an empty queue it has the
  -- lock at once. One attempt of its loop is enough.
  pub enqueue-Holds :
      {s : Shm} (rounds x : ℕ) (q : List ℕ)
      → x < count
      → Absent x q
      → Holds s base count l q
      → (t : Shm) × (acquire_lock (suc rounds) a x l region base s ≡ some (success, t))
        × Holds t base count l (q ++ x ∷ [])
  enqueue-Holds {s} rounds x [] hx out h =
      let r = h.ready in
      (
        taken s base l x,
        acquire_lock-eq_fast r l x hl hx a own (suc rounds) h.queue,
        record {
          ready = taken-IsReady l r x;
          queue = (
            ground (arith, r.few, tail_idx_of_held x (omega (arith, r.few))),
            ground (arith, locked_of_held x),
            ground arith,
            ground arith,
            (tt, tt),
            (hx, ground arith, ground arith),
          );
        },
      )
  enqueue-Holds {s} rounds x (n ∷ ms) hx out h =
      let r = h.ready in
      let (tail, bit, owned, flag, apart, chain) = h.queue in
      let p = last n ms in
      let w = entry_word s base l lock_word in
      let hp : p < count = Chain-last base count l s n ms chain in
      let t = joined s base l x p in
      let exact = set_tail-Exact w x (omega (arith, r.few)) in
      let linked : Linked base count l s t x p = record {
        bound = hx;
        new_next = ground (arith, r.few, ne-last x n ms out);
        new_flag = ground (arith, r.few);
        new_lock = ground (arith, r.few);
        link = ground (arith, r.few);
        others = λ k ne nep. ground (arith, r.few);
        flags = λ k ne. ground (arith, r.few);
        locks = λ k ne. ground (arith, r.few);
      } in
      (
        t,
        acquire_lock-eq_joined r l x hl hx a own rounds p hp (word-ne w bit) tail,
        record {
          ready = joined-IsReady l r x p;
          queue = (
            ground (arith, r.few, last-append n x ms, tail_idx_of_set w x (omega (arith, r.few))),
            ground (arith, r.few, exact.1),
            ground (arith, r.few),
            linked.flags n (λ e. out.0 (sym e)) ∙ flag,
            Distinct-append x (n ∷ ms) apart out,
            Chain-append base count l x n ms linked apart out chain,
          );
        },
      )

  -- While a node is in the queue, `check_grant` names no node and changes nothing: only the holder
  -- passes the lock on.
  pub busy-check_grant :
      {s : Shm} (n : ℕ) (ms : List ℕ)
      → Holds s base count l (n ∷ ms)
      → check_grant a l region base count s ≡ some (invalid_node_id, s)
  busy-check_grant n ms h = check_grant-eq_nobody h.ready l hl a (ground (arith, h.queue.1))

  -- If no node waits behind the holder `n`, its release succeeds and leaves the queue empty, which is
  -- the lock word zero.
  pub release-Holds_last :
      {s : Shm} (n : ℕ)
      → Holds s base count l (n ∷ [])
      → (t : Shm) × (release_lock a n l region base s ≡ some (success, t)) × Holds t base count l []
  release-Holds_last {s} n h =
      let r = h.ready in
      let (tail, bit, owned, flag, apart, chain) = h.queue in
      (
        freed s base l n,
        release_lock-eq_freed r l n hl chain.0 a own owned chain.2
            (tail ∙ sym (node_to_tail-eq n (omega (arith, r.few, chain.0)))),
        record {
          ready =
              set_node-IsReady
                (put-IsReady
                  (put-IsReady (put-IsReady r (entry_at base l lock_word) 0)
                    (entry_at base l pending_tail) invalid_node_id)
                  (entry_at base l owner_node) invalid_node_id)
                n invalid_node_id 0 0xffffffff;
          queue = ground arith;
        },
      )

  -- If exactly one node `m` waits behind the holder `n`, the release of `n` succeeds and leaves `m` alone
  -- in the queue; the poll of `m` then finds the lock granted, and that of `n` does not.
  pub release-Holds_next :
      {s : Shm} (n m : ℕ)
      → Holds s base count l (n ∷ m ∷ [])
      → (t : Shm) × (release_lock a n l region base s ≡ some (success, t))
        × Holds t base count l (m ∷ [])
        × (is_granted l n count base t ≡ some (false, t))
        × (is_granted l m count base t ≡ some (true, t))
  release-Holds_next {s} n m h =
      let r = h.ready in
      let (tail, bit, owned, flag, apart, chain) = h.queue in
      let hm = chain.4.0 in
      let t = handed s base l n m in
      let r₁ = handed-IsReady l r n m in
      let ne = apart.0.0 in
      let has_lock : node_word t base m waiting_lock ≡ l = ground (arith, ne, chain.4.1) in
      (
        t,
        release_lock-eq_handed r l n hl chain.0 a own m hm owned chain.2,
        record {
          ready = r₁;
          queue = (
            ground (arith, r.few, tail_idx_of_held m (omega (arith, r.few, hm))),
            ground (arith, locked_of_held m),
            ground arith,
            ground (arith, ne),
            (tt, tt),
            (hm, has_lock, ground (arith, ne, chain.4.2)),
          );
        },
        is_granted-eq r₁ l n hl chain.0 a own ∙ ground (arith, ne),
        is_granted-eq r₁ l m hl hm a own ∙ ground (arith, ne, has_lock),
      )
