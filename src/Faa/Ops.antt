-- ===== src/Faa/Ops.antt =====
-- What the operations of src/faa_global_lock.cpp do on a region that holds the lock state.
use cxl_dis_lock.Common.{ℕ, ◌+◌, ◌*◌, ◌<◌, ◌≡◌, arith, not, some, ◌==◌, leb, ◌&&◌}
use cxl_dis_lock.Types.{success, u32, invalid_node_id, max_lock_count}
use cxl_dis_lock.Memory.{Shm, region}
use cxl_dis_lock.Memory.Access.{put, load-field, store-field, fetch_add-field, put-IsOpen}
use cxl_dis_lock.Faa.{
  Faa, next_ticket, now_serving, owner_node, ticket, active, get_entry, get_ticket, take_ticket,
  publish_ticket, acquire_lock, release_lock, grant_lock, is_granted,
}
use cxl_dis_lock.Lines.{IsReady, put-IsReady, entry_at, node_at, entry_word, node_word}
use cxl_dis_lock.Faa.Layout.{entry_ptr, ticket_ptr}

-- The state after the two stores of `publish_ticket`.
abbrev pub published : Shm → ℕ → ℕ → ℕ → Shm
published s base n t = put (put s (node_at base n ticket) t) (node_at base n active) 1

abbrev pub taken : Shm → ℕ → ℕ → Shm
taken s base l = put s (entry_at base l next_ticket) (u32 (entry_word s base l next_ticket + 1))

module _ {s : Shm} {base count : ℕ} (r : IsReady s base count) (l n : ℕ) (hl : l < max_lock_count)
    (hn : n < count) (a : Faa) (own : a.node_count ≡ count) where
  pub take_ticket-eq : take_ticket l base s ≡ some (entry_word s base l next_ticket, taken s base l)
  unfolding take_ticket get_entry
  take_ticket-eq =
      rw (entry_ptr r l hl)
        (fetch_add-field r.is_open (base + l * 64) next_ticket (omega (arith, r.room)) 1)

  pub publish_ticket-eq : (t : ℕ) → publish_ticket a n t base s ≡ some (tt, published s base n t)
  unfolding publish_ticket get_ticket
  publish_ticket-eq t =
      rw (own, ticket_ptr r n hn)
        (ground (
          arith,
          store-field r.is_open (base + 65536 + n * 64) ticket (omega (arith, r.room)) t,
          store-field (put-IsOpen r.is_open (node_at base n ticket) t) (base + 65536 + n * 64)
              active (omega (arith, r.room)) 1,
        ))

-- The states after the operations.
abbrev pub requested : Shm → ℕ → ℕ → ℕ → Shm
requested s base l n = published (taken s base l) base n (entry_word s base l next_ticket)

abbrev pub cleared : Shm → ℕ → ℕ → Shm
cleared s base n = put (put s (node_at base n ticket) 0) (node_at base n active) 0

abbrev pub released : Shm → ℕ → ℕ → ℕ → Shm
released s base l n = put (cleared s base n) (entry_at base l owner_node) invalid_node_id

abbrev pub granted : Shm → ℕ → ℕ → ℕ → Shm
granted s base l n =
    put (put s (entry_at base l owner_node) n) (entry_at base l now_serving)
      (node_word s base n ticket)

module _ {s : Shm} {base count : ℕ} (r : IsReady s base count) (l n : ℕ) (hl : l < max_lock_count)
    (hn : n < count) (a : Faa) (own : a.node_count ≡ count) where
  pub acquire_lock-eq : acquire_lock a n l region base s ≡ some (success, requested s base l n)
  unfolding acquire_lock
  acquire_lock-eq = ground (
    arith,
    r.few,
    take_ticket-eq r l n hl hn a own,
    publish_ticket-eq
        (put-IsReady r (entry_at base l next_ticket) (u32 (entry_word s base l next_ticket + 1))) l
        n hl hn a own (entry_word s base l next_ticket),
  )

  pub release_lock-eq : release_lock a n l region base s ≡ some (success, released s base l n)
  unfolding release_lock get_entry get_ticket
  release_lock-eq =
      let r₁ = put-IsReady r (node_at base n ticket) 0 in
      let r₂ = put-IsReady r₁ (node_at base n active) 0 in
      rw own (
        ground (
          arith,
          r.few,
          ticket_ptr r n hn,
          store-field r.is_open (base + 65536 + n * 64) ticket (omega (arith, r.room)) 0,
          store-field r₁.is_open (base + 65536 + n * 64) active (omega (arith, r.room)) 0,
          entry_ptr r₂ l hl,
          store-field r₂.is_open (base + l * 64) owner_node (omega (arith, r.room)) invalid_node_id,
        ))

  pub grant_lock-eq : grant_lock a n l region base s ≡ some (success, granted s base l n)
  unfolding grant_lock get_entry get_ticket
  grant_lock-eq =
      let r₁ = put-IsReady r (entry_at base l owner_node) n in
      rw own (
        ground (
          arith,
          r.few,
          ticket_ptr r n hn,
          entry_ptr r l hl,
          load-field r.is_open (base + 65536 + n * 64) ticket (omega (arith, r.room)),
          store-field r.is_open (base + l * 64) owner_node (omega (arith, r.room)) n,
          store-field r₁.is_open (base + l * 64) now_serving (omega (arith, r.room))
              (node_word s base n ticket),
        ))

  pub is_granted-eq :
      is_granted l n count base s
      ≡ some (
        leb (node_word s base n ticket) (entry_word s base l now_serving)
            && not (node_word s base n active == 0),
        s,
      )
  unfolding is_granted get_entry get_ticket
  is_granted-eq = ground (
    arith,
    ticket_ptr r n hn,
    entry_ptr r l hl,
    load-field r.is_open (base + 65536 + n * 64) ticket (omega (arith, r.room)),
    load-field r.is_open (base + 65536 + n * 64) active (omega (arith, r.room)),
    load-field r.is_open (base + l * 64) now_serving (omega (arith, r.room)),
  )
