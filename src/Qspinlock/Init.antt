-- ===== src/Qspinlock/Init.antt =====
-- What `initialize` of src/qspinlock_global_lock.cpp leaves behind.
use native.Mathlib.Numerals.{add-one}
use cxl_dis_lock.Common.{ℕ, zero, suc, ◌+◌, ◌*◌, ◌<◌, ◌≡◌, arith, refl, some, []}
use cxl_dis_lock.Types.{u64, success, invalid_node_id, invalid_lock_id, max_lock_count}
use cxl_dis_lock.Memory.{Shm, region, zero_span}
use cxl_dis_lock.Memory.Access.{put, store-field, memset_zero-ptr}
use cxl_dis_lock.Lines.{IsReady, put-IsReady, entry_at, node_at, entry_word, node_word}
use cxl_dis_lock.Qspinlock.{
  Qspinlock, lock_word, owner_node, pending_tail, grant_in_progress, next_node, locked,
  waiting_lock, mcs_tail, get_entry, get_node, get_state_size, init_entries, init_nodes, initialize,
}
use cxl_dis_lock.Qspinlock.Layout.{entry_ptr, node_ptr}
use cxl_dis_lock.Qspinlock.Queue.{Holds}

-- Every lock word is zero, the locks below `lid` have no owner, and no node waits.
pub record IsIdle (lid base count size : ℕ) (s : Shm) : Type 0 where
  pub ready : IsReady s base count
  pub size_eq : s.size ≡ size
  pub no_word : (l : ℕ) → l < max_lock_count → entry_word s base l lock_word ≡ 0
  pub no_owner :
      (l : ℕ) → l < lid → l < max_lock_count → entry_word s base l owner_node ≡ invalid_node_id
  pub none_waiting : (n : ℕ) → n < count → node_word s base n locked ≡ 0

abbrev entry_cleared : Shm → ℕ → ℕ → Shm
entry_cleared s base l =
    put
      (put (put (put s (entry_at base l lock_word) 0) (entry_at base l owner_node) invalid_node_id)
        (entry_at base l pending_tail) invalid_node_id)
      (entry_at base l grant_in_progress) 0

abbrev node_cleared : Shm → ℕ → ℕ → Shm
node_cleared s base n =
    put
      (put (put (put s (node_at base n next_node) invalid_node_id) (node_at base n locked) 0)
        (node_at base n waiting_lock) invalid_lock_id)
      (node_at base n mcs_tail) 0

module _ {base count size : ℕ} where
  entry_cleared-IsIdle :
      {s : Shm} (l : ℕ)
      → l < max_lock_count
      → IsIdle l base count size s
      → IsIdle (suc l) base count size (entry_cleared s base l)
  entry_cleared-IsIdle l hl f = record {
    ready =
        put-IsReady
          (put-IsReady
            (put-IsReady (put-IsReady f.ready (entry_at base l lock_word) 0)
              (entry_at base l owner_node) invalid_node_id)
            (entry_at base l pending_tail) invalid_node_id)
          (entry_at base l grant_in_progress) 0;
    size_eq = f.size_eq;
    no_word = λ m hm. ground (arith, f.no_word m hm);
    no_owner = λ m lt hm. ground (arith, f.no_owner m);
    none_waiting = λ n hn. ground (arith, f.none_waiting n hn);
  }

  init_entries-IsIdle :
      (lid left : ℕ) {s : Shm}
      → lid + left ≡ max_lock_count
      → IsIdle lid base count size s
      → (t : Shm) × (init_entries base lid left s ≡ some (tt, t))
        × IsIdle max_lock_count base count size t
  unfolding init_entries get_entry
  init_entries-IsIdle lid zero {s} e f =
      let all : lid ≡ max_lock_count = omega arith in (s, refl, rw all at f)
  init_entries-IsIdle lid (suc left) {s} e f =
      let r = f.ready in
      let hl : lid < max_lock_count = omega arith in
      let r₁ = put-IsReady r (entry_at base lid lock_word) 0 in
      let r₂ = put-IsReady r₁ (entry_at base lid owner_node) invalid_node_id in
      let r₃ = put-IsReady r₂ (entry_at base lid pending_tail) invalid_node_id in
      let next : IsIdle (lid + 1) base count size (entry_cleared s base lid) =
        rw add-one (entry_cleared-IsIdle lid hl f) in
      let (t, run, idle) =
        init_entries-IsIdle (lid + 1) left {s = entry_cleared s base lid} (omega arith) next in
      let byte = base + lid * 64 in
      (
        t,
        ground (
          arith,
          run,
          entry_ptr r lid hl,
          store-field r.is_open byte lock_word (omega (arith, r.room)) 0,
          store-field r₁.is_open byte owner_node (omega (arith, r.room)) invalid_node_id,
          store-field r₂.is_open byte pending_tail (omega (arith, r.room)) invalid_node_id,
          store-field r₃.is_open byte grant_in_progress (omega (arith, r.room)) 0,
        ),
        idle,
      )

  node_cleared-IsIdle :
      {s : Shm} (lid n : ℕ)
      → n < count
      → IsIdle lid base count size s
      → IsIdle lid base count size (node_cleared s base n)
  node_cleared-IsIdle lid n hn f = record {
    ready =
        put-IsReady
          (put-IsReady
            (put-IsReady (put-IsReady f.ready (node_at base n next_node) invalid_node_id)
              (node_at base n locked) 0)
            (node_at base n waiting_lock) invalid_lock_id)
          (node_at base n mcs_tail) 0;
    size_eq = f.size_eq;
    no_word = λ m hm. ground (arith, f.no_word m hm);
    no_owner = λ m lt hm. ground (arith, f.no_owner m lt hm);
    none_waiting = λ k hk. ground (arith, f.none_waiting k hk);
  }

  init_nodes-IsIdle :
      (nid left lid : ℕ) {s : Shm}
      → nid + left ≡ count
      → IsIdle lid base count size s
      → (t : Shm) × (init_nodes count base nid left s ≡ some (tt, t)) × IsIdle lid base count size t
  unfolding init_nodes get_node
  init_nodes-IsIdle nid zero lid {s} e f = (s, refl, f)
  init_nodes-IsIdle nid (suc left) lid {s} e f =
      let r = f.ready in
      let hn : nid < count = omega arith in
      let r₁ = put-IsReady r (node_at base nid next_node) invalid_node_id in
      let r₂ = put-IsReady r₁ (node_at base nid locked) 0 in
      let r₃ = put-IsReady r₂ (node_at base nid waiting_lock) invalid_lock_id in
      let (t, run, idle) =
        init_nodes-IsIdle (nid + 1) left lid {s = node_cleared s base nid} (omega arith)
          (node_cleared-IsIdle lid nid hn f) in
      let byte = base + 65536 + nid * 64 in
      (
        t,
        ground (
          arith,
          run,
          node_ptr r nid hn,
          store-field r.is_open byte next_node (omega (arith, r.room)) invalid_node_id,
          store-field r₁.is_open byte locked (omega (arith, r.room)) 0,
          store-field r₂.is_open byte waiting_lock (omega (arith, r.room)) invalid_lock_id,
          store-field r₃.is_open byte mcs_tail (omega (arith, r.room)) 0,
        ),
        idle,
      )

zeroed-IsIdle :
    {s : Shm} {base count : ℕ}
    → IsReady s base count
    → IsIdle 0 base count s.size (record s { words = zero_span s.words base (65536 + count * 64) })
zeroed-IsIdle r = record {
  ready = record {
    is_open = record {
      is_valid = r.is_open.is_valid;
      address = r.is_open.address;
      is_mapped = r.is_open.is_mapped;
    };
    few = r.few;
    room = r.room;
    small = r.small;
  };
  size_eq = refl;
  no_word = λ l hl. ground arith;
  no_owner = λ l lt hl. absurd (omega arith);
  none_waiting = λ n hn. ground arith;
}

initialize-IsIdle :
    {s : Shm} {base count : ℕ} (a : Qspinlock)
    → IsReady s base count
    → (t : Shm) × (initialize a region base count s
        ≡ some ((record { node_count = count }, success), t))
      × IsIdle max_lock_count base count s.size t
unfolding initialize get_state_size
initialize-IsIdle {s} {base} {count} a r =
    let (t, run, idle) = init_entries-IsIdle 0 max_lock_count refl (zeroed-IsIdle r) in
    let (u, again, done) = init_nodes-IsIdle 0 count max_lock_count (omega arith) idle in
    let total : u64 (max_lock_count * 64 + count * 64) ≡ 65536 + count * 64 =
      omega (arith, r.few) in
    (
      u,
      ground (
        arith,
        r.few,
        total,
        run,
        again,
        memset_zero-ptr r.is_open base (65536 + count * 64) (omega arith) (omega (arith, r.room)),
      ),
      done,
    )

-- On a region with room for the state, `initialize` succeeds, whatever stood there before, keeps the size
-- of the region, and leaves every lock with an empty queue.
pub initialize-Empty :
    {s : Shm} {base count : ℕ} (a : Qspinlock)
    → IsReady s base count
    → (t : Shm) × (initialize a region base count s
        ≡ some ((record { node_count = count }, success), t))
      × (t.size ≡ s.size)
      × ((l : ℕ) → l < max_lock_count → Holds t base count l [])
initialize-Empty {s} {base} {count} a r =
    let (t, run, f) = initialize-IsIdle a r in
    (t, run, f.size_eq, λ l hl. record { ready = f.ready; queue = f.no_word l hl })
