-- ===== src/Mcs/Queue.antt =====
-- The MCS lock of src/mcs_global_lock.cpp as a first-in first-out queue: what each operation does
-- to the queue, as long as each runs as a whole.
use cxl_dis_lock.Common.{
  ℕ, suc, ◌≤◌, ◌<◌, ◌≡◌, ◌≢◌, arith, refl, sym, ◌∙◌, Bool, true, false, some, ◌==◌, List, [], ◌∷◌,
  ◌++◌, inl, inr, Bool-cases,
}
use cxl_dis_lock.Types.{success, invalid_node_id, invalid_lock_id, max_lock_count}
use cxl_dis_lock.Memory.{Shm, region}
use cxl_dis_lock.Lines.{IsReady, put-IsReady, entry_at, node_at, entry_word, node_word}
use cxl_dis_lock.Mcs.{
  Mcs, tail_node, head_node, owner_node, next_node, locked, acquire_lock, release_lock, check_grant,
  grant_lock, is_granted,
}
use cxl_dis_lock.Mcs.Ops.{
  set_node-IsReady, queued, emptied, passed, granted, acquire_lock-eq, release_lock-eq_last,
  release_lock-eq_passed, grant_lock-eq, is_granted-eq, check_grant-eq,
}
use cxl_dis_lock.Mcs.Chain.{
  last, Absent, Distinct, Distinct-append, last-append, ne-last, Chain, Chain-bound, Chain-lock,
  Chain-Absent, Chain-last, Chain-frame, Chain-append, Linked,
}

-- The node at the head holds the lock (`true`), or waits for the manager.
abbrev pub Head : Shm → ℕ → ℕ → ℕ → Bool → Type 0
Head s base l n true =
    (entry_word s base l owner_node ≡ n)
    × (node_word s base n locked ≢ 1)
    × (node_word s base n locked ≤ 2)
Head s base l n false =
    (entry_word s base l owner_node ≡ invalid_node_id) × (node_word s base n locked ≡ 1)

-- The shared state of lock `l` stands for the queue `q`, whose head holds the lock or not.
abbrev pub Queue : Shm → ℕ → ℕ → ℕ → List ℕ → Bool → Type 0
Queue s base count l [] held =
    (entry_word s base l tail_node ≡ invalid_node_id)
    × (entry_word s base l head_node ≡ invalid_node_id)
    × (entry_word s base l owner_node ≡ invalid_node_id)
    × (held ≡ false)
Queue s base count l (n ∷ ms) held =
    (entry_word s base l tail_node ≡ last n ms)
    × (entry_word s base l head_node ≡ n)
    × Head s base l n held
    × Distinct (n ∷ ms)
    × Chain base count l s n ms

-- A state that is ready and stands for a queue.
pub record Holds (s : Shm) (base count l : ℕ) (q : List ℕ) (held : Bool) : Type 0 where
  pub ready : IsReady s base count
  pub queue : Queue s base count l q held

pub Head-same :
    (base l : ℕ) (s t : Shm) (n : ℕ) (held : Bool)
    → entry_word t base l owner_node ≡ entry_word s base l owner_node
    → node_word t base n locked ≡ node_word s base n locked
    → Head s base l n held
    → Head t base l n held
Head-same base l s t n true owner flag h = ground arith
Head-same base l s t n false owner flag h = ground arith

-- The node that `check_grant` is to name.
abbrev pub next_grant : List ℕ → Bool → ℕ
next_grant [] held = invalid_node_id
next_grant (n ∷ ms) true = invalid_node_id
next_grant (n ∷ ms) false = n

-- After a release the next node holds the lock.
abbrev pub handed : List ℕ → Bool
handed [] = false
handed (m ∷ ms) = true

queued-IsReady :
    {s : Shm} {base count : ℕ} (l : ℕ)
    → IsReady s base count
    → (x p : ℕ) → IsReady (queued s base l x p) base count
queued-IsReady {s} {base} {count} l r x p =
    let r₁ = put-IsReady (set_node-IsReady r x invalid_node_id 1 l) (entry_at base l tail_node) x in
    elim (Bool-cases (p == invalid_node_id)) [
      | inl e ↦ rw e (put-IsReady r₁ (entry_at base l head_node) x)
      | inr e ↦ rw e (put-IsReady r₁ (node_at base p next_node) x)
    ]

module _ {base count l : ℕ} (hl : l < max_lock_count) (a : Mcs) (own : a.node_count ≡ count) where
  -- `acquire_lock` of a node outside of the queue puts it at the end; two rounds of its loop are
  -- enough.
  pub acquire_lock-Holds :
      {s : Shm} {held : Bool} (rounds x : ℕ) (q : List ℕ)
      → x < count
      → Absent x q
      → Holds s base count l q held
      → (t : Shm) × (acquire_lock (suc (suc rounds)) a x l region base s ≡ some (success, t))
        × Holds t base count l (q ++ x ∷ []) held
  acquire_lock-Holds {s} {held} rounds x [] hx out h =
      let r = h.ready in
      let e = h.queue in
      (
        queued s base l x invalid_node_id,
        acquire_lock-eq r l x hl hx a own rounds invalid_node_id e.0 (omega (arith, r.few))
            (inl refl),
        record {
          ready =
              put-IsReady
                (put-IsReady (set_node-IsReady r x invalid_node_id 1 l) (entry_at base l tail_node)
                  x)
                (entry_at base l head_node) x;
          queue = rw e.3 (
            ground arith,
            ground arith,
            (ground arith, ground arith),
            (tt, tt),
            (hx, ground arith, ground arith),
          );
        },
      )
  acquire_lock-Holds {s} {held} rounds x (n ∷ ms) hx out h =
      let r = h.ready in
      let (tail, head, state, apart, chain) = h.queue in
      let p = last n ms in
      let hp : p < count = Chain-last base count l s n ms chain in
      let t = queued s base l x p in
      let linked : Linked base count l s t x p = record {
        bound = hx;
        new_next = ground (arith, r.few, ne-last x n ms out);
        new_flag = ground (arith, r.few);
        new_lock = ground (arith, r.few);
        link = ground (arith, r.few);
        others = λ k ne nep. ground (arith, r.few);
        flags = λ k ne. ground (arith, r.few);
        locks = λ k ne. ground (arith, r.few);
      } in
      (
        t,
        acquire_lock-eq r l x hl hx a own rounds p tail (λ e. ne-last x n ms out (sym e)) (inr hp),
        record {
          ready = queued-IsReady l r x p;
          queue = (
            ground (arith, r.few, last-append n x ms),
            ground (arith, r.few),
            Head-same base l s t n held (ground (arith, r.few))
                (linked.flags n (λ e. out.0 (sym e))) state,
            Distinct-append x (n ∷ ms) apart out,
            Chain-append base count l x n ms linked apart out chain,
          );
        },
      )

  -- `check_grant` names the head of the queue, where it does not hold the lock yet, and no node
  -- otherwise.
  pub check_grant-Holds :
      {s : Shm} (q : List ℕ) (held : Bool)
      → Holds s base count l q held
      → check_grant a l region base count s ≡ some (next_grant q held, s)
  check_grant-Holds [] held h = check_grant-eq h.ready l hl a ∙ ground (arith, h.queue, h.ready.few)
  check_grant-Holds {s} (n ∷ ms) true h =
      let hn = Chain-bound base count l s n ms h.queue.4 in
      check_grant-eq h.ready l hl a ∙ ground (arith, h.queue, h.ready.few)
  check_grant-Holds {s} (n ∷ ms) false h =
      let chain = h.queue.4 in
      let hn = Chain-bound base count l s n ms chain in
      let waits = Chain-lock base count l s n ms chain in
      check_grant-eq h.ready l hl a ∙ ground (arith, h.queue, h.ready.few)

  -- `grant_lock` of the head gives it the lock.
  pub grant_lock-Holds :
      {s : Shm} (n : ℕ) (ms : List ℕ)
      → Holds s base count l (n ∷ ms) false
      → (t : Shm) × (grant_lock a n l region base s ≡ some (success, t))
        × Holds t base count l (n ∷ ms) true
  grant_lock-Holds {s} n ms h =
      let r = h.ready in
      let (tail, head, state, apart, chain) = h.queue in
      let hn = Chain-bound base count l s n ms chain in
      let t = granted s base l n in
      (
        t,
        grant_lock-eq r l n hl hn a own,
        record {
          ready =
              put-IsReady (put-IsReady r (node_at base n locked) 2) (entry_at base l owner_node) n;
          queue = (
            ground (arith, r.few),
            ground (arith, r.few),
            (ground arith, ground arith, ground arith),
            apart,
            Chain-frame base count l s t count n n ms (λ k ne. (ground arith, ground arith))
                (λ k ne other. ground arith) (Chain-Absent base count l s n ms chain) apart.0 chain,
          );
        },
      )

  -- `release_lock` of the head that holds the lock takes it off the queue and hands the lock to the
  -- next node, if there is one. No other node runs in between, so its loop needs no round.
  pub release_lock-Holds :
      {s : Shm} (rounds n : ℕ) (ms : List ℕ)
      → Holds s base count l (n ∷ ms) true
      → (t : Shm) × (release_lock rounds a n l region base s ≡ some (success, t))
        × Holds t base count l ms (handed ms)
  release_lock-Holds {s} rounds n [] h =
      let r = h.ready in
      let (tail, head, state, apart, chain) = h.queue in
      (
        emptied s base l n,
        release_lock-eq_last r l n hl chain.0 a own rounds state.0 chain.2 tail,
        record {
          ready =
              set_node-IsReady
                (put-IsReady
                  (put-IsReady (put-IsReady r (entry_at base l tail_node) invalid_node_id)
                    (entry_at base l head_node) invalid_node_id)
                  (entry_at base l owner_node) invalid_node_id)
                n invalid_node_id 0 invalid_lock_id;
          queue = (ground arith, ground arith, ground arith, refl);
        },
      )
  release_lock-Holds {s} rounds n (m ∷ ms) h =
      let r = h.ready in
      let (tail, head, state, apart, chain) = h.queue in
      let hm = Chain-bound base count l s m ms chain.4 in
      let t = passed s base l n m in
      (
        t,
        release_lock-eq_passed r l n hl chain.0 a own rounds m hm state.0 chain.2,
        record {
          ready =
              set_node-IsReady
                (put-IsReady
                  (put-IsReady (put-IsReady r (entry_at base l head_node) m)
                    (entry_at base l owner_node) m)
                  (node_at base m locked) 0)
                n invalid_node_id 0 invalid_lock_id;
          queue = (
            ground arith,
            ground arith,
            (ground arith, ground (arith, apart.0), ground (arith, apart.0)),
            apart.1,
            Chain-frame base count l s t n m m ms (λ k ne. (ground arith, ground arith))
                (λ k ne other. ground arith) apart.0 apart.1.0 chain.4,
          );
        },
      )

  -- A node that polls finds the lock granted exactly where it is the head and holds the lock.
  pub is_granted-Holds :
      {s : Shm} (n : ℕ) (ms : List ℕ) (held : Bool)
      → Holds s base count l (n ∷ ms) held
      → is_granted l n count base s ≡ some (held, s)
  is_granted-Holds {s} n ms true h =
      let (tail, head, state, apart, chain) = h.queue in
      is_granted-eq h.ready l n hl (Chain-bound base count l s n ms chain) a own
      ∙ ground (arith, Chain-lock base count l s n ms chain)
  is_granted-Holds {s} n ms false h =
      let (tail, head, state, apart, chain) = h.queue in
      is_granted-eq h.ready l n hl (Chain-bound base count l s n ms chain) a own
      ∙ ground (arith, Chain-lock base count l s n ms chain)
