-- ===== src/Faa/Init.antt =====
-- What `initialize` of src/faa_global_lock.cpp leaves behind.
use native.Mathlib.Numerals.{add-one}
use cxl_dis_lock.Common.{ℕ, zero, suc, ◌+◌, ◌*◌, ◌<◌, ◌≡◌, arith, refl, ◌∙◌, some}
use cxl_dis_lock.Types.{u64, success, invalid_node_id, max_lock_count}
use cxl_dis_lock.Memory.{Shm, region, zero_span}
use cxl_dis_lock.Memory.Access.{put, store-field, memset_zero-ptr}
use cxl_dis_lock.Faa.{
  Faa, next_ticket, now_serving, owner_node, padding, ticket, active, get_entry, get_ticket,
  get_state_size, init_entries, init_tickets, initialize,
}
use cxl_dis_lock.Lines.{IsReady, put-IsReady, entry_at, node_at, entry_word, node_word}
use cxl_dis_lock.Faa.Layout.{entry_ptr, ticket_ptr}

-- No ticket is out, no node waits, and the locks below `lid` have no owner.
pub record IsFresh (lid base count : ℕ) (s : Shm) : Type 0 where
  pub ready : IsReady s base count
  pub no_tickets : (l : ℕ) → l < max_lock_count → entry_word s base l next_ticket ≡ 0
  pub none_served : (l : ℕ) → l < max_lock_count → entry_word s base l now_serving ≡ 0
  pub none_waiting : (n : ℕ) → n < count → node_word s base n active ≡ 0
  pub no_owner :
      (l : ℕ) → l < lid → l < max_lock_count → entry_word s base l owner_node ≡ invalid_node_id

-- The four stores of one round over the entries.
abbrev entry_cleared : Shm → ℕ → ℕ → Shm
entry_cleared s base l =
    put
      (put (put (put s (entry_at base l next_ticket) 0) (entry_at base l now_serving) 0)
        (entry_at base l owner_node) invalid_node_id)
      (entry_at base l padding) 0

abbrev ticket_cleared : Shm → ℕ → ℕ → Shm
ticket_cleared s base n = put (put s (node_at base n ticket) 0) (node_at base n active) 0

module _ {base count : ℕ} where
  entry_cleared-IsReady :
      {s : Shm} → IsReady s base count → (l : ℕ) → IsReady (entry_cleared s base l) base count
  entry_cleared-IsReady r l =
      put-IsReady
        (put-IsReady
          (put-IsReady (put-IsReady r (entry_at base l next_ticket) 0) (entry_at base l now_serving)
            0)
          (entry_at base l owner_node) invalid_node_id)
        (entry_at base l padding) 0

  entry_cleared-IsFresh :
      {s : Shm} (l : ℕ)
      → l < max_lock_count
      → IsFresh l base count s
      → IsFresh (suc l) base count (entry_cleared s base l)
  entry_cleared-IsFresh l hl f = record {
    ready = entry_cleared-IsReady f.ready l;
    no_tickets = λ m hm. ground (arith, f.no_tickets m hm);
    none_served = λ m hm. ground (arith, f.none_served m hm);
    none_waiting = λ n hn. ground (arith, f.none_waiting n hn);
    no_owner = λ m lt hm. ground (arith, f.no_owner m);
  }

  ticket_cleared-IsFresh :
      {s : Shm} (lid n : ℕ)
      → n < count
      → IsFresh lid base count s
      → IsFresh lid base count (ticket_cleared s base n)
  ticket_cleared-IsFresh lid n hn f = record {
    ready = put-IsReady (put-IsReady f.ready (node_at base n ticket) 0) (node_at base n active) 0;
    no_tickets = λ m hm. ground (arith, f.no_tickets m hm);
    none_served = λ m hm. ground (arith, f.none_served m hm);
    none_waiting = λ k hk. ground (arith, f.none_waiting k hk);
    no_owner = λ m lt hm. ground (arith, f.no_owner m);
  }

  init_entries-IsFresh :
      (lid left : ℕ) {s : Shm}
      → lid + left ≡ max_lock_count
      → IsFresh lid base count s
      → (t : Shm) × (init_entries base lid left s ≡ some (tt, t))
        × (t.size ≡ s.size)
        × IsFresh max_lock_count base count t
  unfolding init_entries get_entry
  init_entries-IsFresh lid zero {s} e f =
      let all : lid ≡ max_lock_count = omega arith in (s, refl, refl, rw all at f)
  init_entries-IsFresh lid (suc left) {s} e f =
      let r = f.ready in
      let hl : lid < max_lock_count = omega arith in
      let r₁ = put-IsReady r (entry_at base lid next_ticket) 0 in
      let r₂ = put-IsReady r₁ (entry_at base lid now_serving) 0 in
      let r₃ = put-IsReady r₂ (entry_at base lid owner_node) invalid_node_id in
      let next : IsFresh (lid + 1) base count (entry_cleared s base lid) =
        rw add-one (entry_cleared-IsFresh lid hl f) in
      let (t, run, same, fresh) =
        init_entries-IsFresh (lid + 1) left {s = entry_cleared s base lid} (omega arith) next in
      (
        t,
        ground (
          arith,
          run,
          entry_ptr r lid hl,
          store-field r.is_open (base + lid * 64) next_ticket (omega (arith, r.room)) 0,
          store-field r₁.is_open (base + lid * 64) now_serving (omega (arith, r.room)) 0,
          store-field r₂.is_open (base + lid * 64) owner_node (omega (arith, r.room))
              invalid_node_id,
          store-field r₃.is_open (base + lid * 64) padding (omega (arith, r.room)) 0,
        ),
        same,
        fresh,
      )

  init_tickets-IsFresh :
      (nid left lid : ℕ) {s : Shm}
      → nid + left ≡ count
      → IsFresh lid base count s
      → (t : Shm) × (init_tickets count base nid left s ≡ some (tt, t))
        × (t.size ≡ s.size)
        × IsFresh lid base count t
  unfolding init_tickets get_ticket
  init_tickets-IsFresh nid zero lid {s} e f = (s, refl, refl, f)
  init_tickets-IsFresh nid (suc left) lid {s} e f =
      let r = f.ready in
      let hn : nid < count = omega arith in
      let r₁ = put-IsReady r (node_at base nid ticket) 0 in
      let (t, run, same, fresh) =
        init_tickets-IsFresh (nid + 1) left lid {s = ticket_cleared s base nid} (omega arith)
          (ticket_cleared-IsFresh lid nid hn f) in
      (
        t,
        ground (
          arith,
          run,
          ticket_ptr r nid hn,
          store-field r.is_open (base + 65536 + nid * 64) ticket (omega (arith, r.room)) 0,
          store-field r₁.is_open (base + 65536 + nid * 64) active (omega (arith, r.room)) 0,
        ),
        same,
        fresh,
      )

zeroed-IsFresh :
    {s : Shm} {base count : ℕ}
    → IsReady s base count
    → IsFresh 0 base count (record s { words = zero_span s.words base (65536 + count * 64) })
zeroed-IsFresh r = record {
  ready = record {
    is_open = record {
      is_valid = r.is_open.is_valid;
      address = r.is_open.address;
      is_mapped = r.is_open.is_mapped;
    };
    few = r.few;
    room = r.room;
    small = r.small;
  };
  no_tickets = λ l hl. ground arith;
  none_served = λ l hl. ground arith;
  none_waiting = λ n hn. ground arith;
  no_owner = λ l lt hl. absurd (omega arith);
}

-- On a region with room for the state, `initialize` succeeds, whatever stood there before, keeps the size
-- of the region, and leaves every lock without tickets and owner, and every node inactive.
pub initialize-IsFresh :
    {s : Shm} {base count : ℕ} (a : Faa)
    → IsReady s base count
    → (t : Shm) × (initialize a region base count s
        ≡ some ((record { node_count = count }, success), t))
      × (t.size ≡ s.size)
      × IsFresh max_lock_count base count t
unfolding initialize get_state_size
initialize-IsFresh {s} {base} {count} a r =
    let wiped = zeroed-IsFresh r in
    let (t, run, same, fresh) = init_entries-IsFresh 0 max_lock_count refl wiped in
    let (u, again, still, done) = init_tickets-IsFresh 0 count max_lock_count (omega arith) fresh in
    let total : u64 (max_lock_count * 64 + count * 64) ≡ 65536 + count * 64 =
      omega (arith, r.few) in
    (
      u,
      ground (
        arith,
        r.few,
        total,
        run,
        again,
        memset_zero-ptr r.is_open base (65536 + count * 64) (omega arith) (omega (arith, r.room)),
      ),
      still ∙ same,
      done,
    )
