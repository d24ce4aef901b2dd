-- ===== src/Cas/Slots.antt =====
-- One access to a slot of src/cas_global_lock.cpp, on a region that holds the lock state.
use cxl_dis_lock.Common.{
  ℕ, ◌+◌, ◌*◌, ◌≤◌, ◌<◌, ◌≡◌, arith, some, ◌&&◌, ◌==◌, if◌then◌else◌, inl, inr, Bool-cases, ==_iff,
}
use cxl_dis_lock.Types.{
  u64, success, error_busy, slot_idle, slot_waiting, slot_locked, max_lock_count,
}
use cxl_dis_lock.Memory.{Shm, region, zero_span}
use cxl_dis_lock.Memory.Access.{
  put, put-IsOpen, memset_zero-ptr, load-ptr, store-ptr, compare_exchange-ptr,
}
use cxl_dis_lock.Cas.{
  Cas, initialize, get_state_size, get_slot_offset, read_slot_state, write_slot_state, acquire_lock,
  release_lock, grant_lock, is_granted,
}
use cxl_dis_lock.Cas.Layout.{IsReady, slot_index, slot_index-lt, slot_index-injective}

abbrev pub slot_at : ℕ → ℕ → ℕ → ℕ → ℕ
slot_at base count l n = base + 4 * slot_index count l n

-- The word of a slot.
abbrev pub slot : Shm → ℕ → ℕ → ℕ → ℕ → ℕ
slot s base count l n = s.words (slot_at base count l n)

pub put-IsReady :
    {s : Shm} {base count : ℕ} → IsReady s base count → (i v : ℕ) → IsReady (put s i v) base count
put-IsReady r i v = record {
  is_open = put-IsOpen r.is_open i v;
  few = r.few;
  room = r.room;
  small = r.small;
}

pub slot-put :
    (s : Shm) (base count l n m k v : ℕ)
    → n < count
    → k < count
    → slot (put s (slot_at base count l n) v) base count m k
      ≡ (if l == m && n == k then v else slot s base count m k)
slot-put s base count l n m k v hn hk =
    elim (Bool-cases (slot_at base count l n == slot_at base count m k)) [
      | inl e ↦
          let same = slot_index-injective count l m n k hn hk (omega (arith, (==_iff _ _).0 e)) in
          ground (arith, same, e)
      | inr e ↦ ground (arith, e)
    ]

-- The state after `initialize`.
abbrev pub zeroed : Shm → ℕ → ℕ → Shm
zeroed s base count = record s { words = zero_span s.words base (4096 * count) }

pub zeroed-IsReady :
    {s : Shm} {base count : ℕ} → IsReady s base count → IsReady (zeroed s base count) base count
zeroed-IsReady r = record {
  is_open = record {
    is_valid = r.is_open.is_valid;
    address = r.is_open.address;
    is_mapped = r.is_open.is_mapped;
  };
  few = r.few;
  room = r.room;
  small = r.small;
}

pub initialize-eq :
    {s : Shm} {base count : ℕ} (a : Cas)
    → IsReady s base count
    → initialize a region base count s
      ≡ some ((record { node_count = count }, success), zeroed s base count)
unfolding initialize get_state_size
initialize-eq {s} {base} {count} a r =
    let total : u64 (max_lock_count * count * 4) ≡ 4096 * count = omega (arith, r.few) in
    ground (
      arith,
      r.few,
      total,
      memset_zero-ptr r.is_open base (4096 * count) (omega (arith, r.few)) r.room,
    )

pub zeroed-slot :
    (s : Shm) (base count l n : ℕ)
    → l < max_lock_count
    → n < count
    → slot (zeroed s base count) base count l n ≡ slot_idle
zeroed-slot s base count l n hl hn = ground (arith, slot_index-lt count l n hl hn)

module _ {s : Shm} {base count : ℕ} (r : IsReady s base count) (l n : ℕ) (hl : l < max_lock_count)
    (hn : n < count) where
  get_slot_offset-eq : get_slot_offset l n count base ≡ slot_at base count l n
  unfolding get_slot_offset
  get_slot_offset-eq = omega (arith, slot_index-lt count l n hl hn, r.room, r.small)

  pub slot-fits : slot_at base count l n + 4 ≤ s.size
  slot-fits = omega (arith, slot_index-lt count l n hl hn, r.room)

  pub read_slot_state-eq : read_slot_state l n count base s ≡ some (slot s base count l n, s)
  unfolding read_slot_state
  read_slot_state-eq = rw get_slot_offset-eq (load-ptr r.is_open _ slot-fits)

  pub write_slot_state-eq :
      (v : ℕ) → write_slot_state l n count base v s ≡ some (tt, put s (slot_at base count l n) v)
  unfolding write_slot_state
  write_slot_state-eq v = rw get_slot_offset-eq (store-ptr r.is_open _ v slot-fits)

  module _ (a : Cas) (own : a.node_count ≡ count) where
    pub is_granted-eq : is_granted l n count base s ≡ some (slot s base count l n == slot_locked, s)
    unfolding is_granted
    is_granted-eq =
        ground (arith, get_slot_offset-eq, load-ptr r.is_open (slot_at base count l n) slot-fits)

    pub acquire_lock-eq :
        acquire_lock a n l region base s
        ≡ some (success, put s (slot_at base count l n) slot_waiting)
    unfolding acquire_lock
    acquire_lock-eq = rw own (ground (arith, r.few, write_slot_state-eq slot_waiting))

    pub release_lock-eq :
        release_lock a n l region base s ≡ some (success, put s (slot_at base count l n) slot_idle)
    unfolding release_lock
    release_lock-eq = rw own (ground (arith, r.few, write_slot_state-eq slot_idle))

    -- The compare-exchange grants only a slot that is still WAITING.
    pub grant_lock-eq : grant_lock a n l region base s ≡ (
        if slot s base count l n == slot_waiting
        then some (success, put s (slot_at base count l n) slot_locked)
        else some (error_busy, s))
    unfolding grant_lock
    grant_lock-eq = rw own (
        ground (
          arith,
          r.few,
          get_slot_offset-eq,
          compare_exchange-ptr r.is_open (slot_at base count l n) slot_waiting slot_locked
              slot-fits,
        ))
