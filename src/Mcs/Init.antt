-- ===== src/Mcs/Init.antt =====
-- What `initialize` of src/mcs_global_lock.cpp leaves behind.
use native.Mathlib.Numerals.{add-one}
use cxl_dis_lock.Common.{ℕ, zero, suc, ◌+◌, ◌*◌, ◌<◌, ◌≡◌, arith, refl, false, some, []}
use cxl_dis_lock.Types.{u64, success, invalid_node_id, invalid_lock_id, max_lock_count}
use cxl_dis_lock.Memory.{Shm, region, zero_span}
use cxl_dis_lock.Memory.Access.{put, store-field, memset_zero-ptr}
use cxl_dis_lock.Lines.{IsReady, put-IsReady, entry_at, node_at, entry_word, node_word}
use cxl_dis_lock.Mcs.{
  Mcs, tail_node, head_node, owner_node, waiting_lock, get_entry, get_node, get_state_size,
  init_entries, init_nodes, initialize,
}
use cxl_dis_lock.Mcs.Layout.{entry_ptr, node_ptr}
use cxl_dis_lock.Mcs.Queue.{Holds}

-- The locks below `lid` have no node in any of their fields, and the nodes below `nid` wait for no lock.
pub record IsIdle (lid nid base count size : ℕ) (s : Shm) : Type 0 where
  pub ready : IsReady s base count
  pub size_eq : s.size ≡ size
  pub no_tail :
      (l : ℕ) → l < lid → l < max_lock_count → entry_word s base l tail_node ≡ invalid_node_id
  pub no_head :
      (l : ℕ) → l < lid → l < max_lock_count → entry_word s base l head_node ≡ invalid_node_id
  pub no_owner :
      (l : ℕ) → l < lid → l < max_lock_count → entry_word s base l owner_node ≡ invalid_node_id
  pub no_lock : (n : ℕ) → n < nid → n < count → node_word s base n waiting_lock ≡ invalid_lock_id

abbrev entry_cleared : Shm → ℕ → ℕ → Shm
entry_cleared s base l =
    put
      (put (put s (entry_at base l tail_node) invalid_node_id) (entry_at base l head_node)
        invalid_node_id)
      (entry_at base l owner_node) invalid_node_id

module _ {base count size : ℕ} where
  entry_cleared-IsIdle :
      {s : Shm} (l nid : ℕ)
      → l < max_lock_count
      → IsIdle l nid base count size s
      → IsIdle (suc l) nid base count size (entry_cleared s base l)
  entry_cleared-IsIdle l nid hl f = record {
    ready =
        put-IsReady
          (put-IsReady (put-IsReady f.ready (entry_at base l tail_node) invalid_node_id)
            (entry_at base l head_node) invalid_node_id)
          (entry_at base l owner_node) invalid_node_id;
    size_eq = f.size_eq;
    no_tail = λ m lt hm. ground (arith, f.no_tail m);
    no_head = λ m lt hm. ground (arith, f.no_head m);
    no_owner = λ m lt hm. ground (arith, f.no_owner m);
    no_lock = λ n lt hn. ground (arith, f.no_lock n lt hn);
  }

  init_entries-IsIdle :
      (lid left nid : ℕ) {s : Shm}
      → lid + left ≡ max_lock_count
      → IsIdle lid nid base count size s
      → (t : Shm) × (init_entries base lid left s ≡ some (tt, t))
        × IsIdle max_lock_count nid base count size t
  unfolding init_entries get_entry
  init_entries-IsIdle lid zero nid {s} e f =
      let all : lid ≡ max_lock_count = omega arith in (s, refl, rw all at f)
  init_entries-IsIdle lid (suc left) nid {s} e f =
      let r = f.ready in
      let hl : lid < max_lock_count = omega arith in
      let r₁ = put-IsReady r (entry_at base lid tail_node) invalid_node_id in
      let r₂ = put-IsReady r₁ (entry_at base lid head_node) invalid_node_id in
      let next : IsIdle (lid + 1) nid base count size (entry_cleared s base lid) =
        rw add-one (entry_cleared-IsIdle lid nid hl f) in
      let (t, run, idle) =
        init_entries-IsIdle (lid + 1) left nid {s = entry_cleared s base lid} (omega arith) next in
      (
        t,
        ground (
          arith,
          run,
          entry_ptr r lid hl,
          store-field r.is_open (base + lid * 64) tail_node (omega (arith, r.room)) invalid_node_id,
          store-field r₁.is_open (base + lid * 64) head_node (omega (arith, r.room))
              invalid_node_id,
          store-field r₂.is_open (base + lid * 64) owner_node (omega (arith, r.room))
              invalid_node_id,
        ),
        idle,
      )

  node_cleared-IsIdle :
      {s : Shm} (nid : ℕ)
      → nid < count
      → IsIdle max_lock_count nid base count size s
      → IsIdle max_lock_count
          (suc nid)
          base
          count
          size
          (put s (node_at base nid waiting_lock) invalid_lock_id)
  node_cleared-IsIdle nid hn f = record {
    ready = put-IsReady f.ready (node_at base nid waiting_lock) invalid_lock_id;
    size_eq = f.size_eq;
    no_tail = λ m lt hm. ground (arith, f.no_tail m lt hm);
    no_head = λ m lt hm. ground (arith, f.no_head m lt hm);
    no_owner = λ m lt hm. ground (arith, f.no_owner m lt hm);
    no_lock = λ n lt hn'. ground (arith, f.no_lock n);
  }

  init_nodes-IsIdle :
      (nid left : ℕ) {s : Shm}
      → nid + left ≡ count
      → IsIdle max_lock_count nid base count size s
      → (t : Shm) × (init_nodes count base nid left s ≡ some (tt, t))
        × IsIdle max_lock_count count base count size t
  unfolding init_nodes get_node
  init_nodes-IsIdle nid zero {s} e f = let all : nid ≡ count = omega arith in (s, refl, rw all at f)
  init_nodes-IsIdle nid (suc left) {s} e f =
      let r = f.ready in
      let hn : nid < count = omega arith in
      let next : IsIdle max_lock_count (nid + 1) base count size
          (put s (node_at base nid waiting_lock) invalid_lock_id) =
        rw add-one (node_cleared-IsIdle nid hn f) in
      let (t, run, idle) =
        init_nodes-IsIdle (nid + 1) left {s = put s (node_at base nid waiting_lock) invalid_lock_id}
          (omega arith) next in
      (
        t,
        ground (
          arith,
          run,
          node_ptr r nid hn,
          store-field r.is_open (base + 65536 + nid * 64) waiting_lock (omega (arith, r.room))
              invalid_lock_id,
        ),
        idle,
      )

zeroed-IsIdle :
    {s : Shm} {base count : ℕ}
    → IsReady s base count
    → IsIdle 0 0 base count s.size
        (record s { words = zero_span s.words base (65536 + count * 64) })
zeroed-IsIdle r = record {
  ready = record {
    is_open = record {
      is_valid = r.is_open.is_valid;
      address = r.is_open.address;
      is_mapped = r.is_open.is_mapped;
    };
    few = r.few;
    room = r.room;
    small = r.small;
  };
  size_eq = refl;
  no_tail = λ l lt hl. absurd (omega arith);
  no_head = λ l lt hl. absurd (omega arith);
  no_owner = λ l lt hl. absurd (omega arith);
  no_lock = λ n lt hn. absurd (omega arith);
}

initialize-IsIdle :
    {s : Shm} {base count : ℕ} (a : Mcs)
    → IsReady s base count
    → (t : Shm) × (initialize a region base count s
        ≡ some ((record { node_count = count }, success), t))
      × IsIdle max_lock_count count base count s.size t
unfolding initialize get_state_size
initialize-IsIdle {s} {base} {count} a r =
    let (t, run, idle) = init_entries-IsIdle 0 max_lock_count 0 refl (zeroed-IsIdle r) in
    let (u, again, done) = init_nodes-IsIdle 0 count (omega arith) idle in
    let total : u64 (max_lock_count * 64 + count * 64) ≡ 65536 + count * 64 =
      omega (arith, r.few) in
    (
      u,
      ground (
        arith,
        r.few,
        total,
        run,
        again,
        memset_zero-ptr r.is_open base (65536 + count * 64) (omega arith) (omega (arith, r.room)),
      ),
      done,
    )

-- On a region with room for the state, `initialize` succeeds, whatever stood there before, keeps the size
-- of the region, and leaves every lock with an empty queue.
pub initialize-Empty :
    {s : Shm} {base count : ℕ} (a : Mcs)
    → IsReady s base count
    → (t : Shm) × (initialize a region base count s
        ≡ some ((record { node_count = count }, success), t))
      × (t.size ≡ s.size)
      × ((l : ℕ) → l < max_lock_count → Holds t base count l [] false)
initialize-Empty {s} {base} {count} a r =
    let (t, run, f) = initialize-IsIdle a r in
    (
      t,
      run,
      f.size_eq,
      λ l hl. record {
        ready = f.ready;
        queue = (f.no_tail l hl hl, f.no_head l hl hl, f.no_owner l hl hl, refl);
      },
    )
