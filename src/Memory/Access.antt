-- ===== src/Memory/Access.antt =====
-- What each access of src/shared_memory.cpp does on an open region.
use cxl_dis_lock.Common.{ℕ, ◌+◌, ◌≤◌, ◌<◌, ◌≡◌, arith, true, false, some, none, ◌==◌, if◌then◌else◌}
use cxl_dis_lock.Types.{u32}
use cxl_dis_lock.Memory.{
  Shm, at, offset_to_ptr, load, store, compare_exchange, fetch_add, memset_zero, write, zero_span,
  IsOpen,
}

-- The state after a store of `v` at offset `i`.
abbrev pub put : Shm → ℕ → ℕ → Shm
put s i v = record s { words = write s.words i v }

pub put-IsOpen : {s : Shm} → IsOpen s → (i v : ℕ) → IsOpen (put s i v)
put-IsOpen o i v = record { is_valid = o.is_valid; address = o.address; is_mapped = o.is_mapped }

module _ {s : Shm} (o : IsOpen s) (i : ℕ) where
  pub load-ptr : i + 4 ≤ s.size → load (offset_to_ptr s i) s ≡ some (s.words i, s)
  unfolding load offset_to_ptr
  load-ptr h = ground (arith, o.is_valid, o.is_mapped)

  pub store-ptr : (v : ℕ) → i + 4 ≤ s.size → store (offset_to_ptr s i) v s ≡ some (tt, put s i v)
  unfolding store offset_to_ptr
  store-ptr v h = ground (arith, o.is_valid, o.is_mapped)

  pub compare_exchange-ptr :
      (e d : ℕ)
      → i + 4 ≤ s.size
      → compare_exchange (offset_to_ptr s i) e d s
        ≡ (if s.words i == e then some (true, put s i d) else some (false, s))
  unfolding compare_exchange
  compare_exchange-ptr e d h = ground (arith, load-ptr h, store-ptr d h)

  pub memset_zero-ptr :
      (n : ℕ)
      → 0 < n
      → i + n ≤ s.size
      → memset_zero (offset_to_ptr s i) n s ≡ some (tt, record s { words = zero_span s.words i n })
  unfolding memset_zero offset_to_ptr
  memset_zero-ptr n p h = ground (arith, o.is_valid, o.is_mapped)

  -- Past the end of the mapping.
  pub memset_zero-past : (n : ℕ) → s.size < i + n → memset_zero (offset_to_ptr s i) n s ≡ none
  unfolding memset_zero offset_to_ptr
  memset_zero-past n h = ground (arith, o.is_valid, o.is_mapped)

  -- The pointer to offset `i`.
  pub ptr-at : i < s.size → offset_to_ptr s i ≡ at (o.address + i)
  unfolding offset_to_ptr
  ptr-at h = ground (arith, o.is_valid, o.is_mapped)

  -- An access to the field at byte `k` of the structure at offset `i`.
  module _ (k : ℕ) (h : i + k + 4 ≤ s.size) where
    pub load-field : load (at (o.address + i + k)) s ≡ some (s.words (i + k), s)
    unfolding load
    load-field = ground (arith, o.is_valid, o.is_mapped)

    pub store-field : (v : ℕ) → store (at (o.address + i + k)) v s ≡ some (tt, put s (i + k) v)
    unfolding store
    store-field v = ground (arith, o.is_valid, o.is_mapped)

    pub fetch_add-field :
        (v : ℕ)
        → fetch_add (at (o.address + i + k)) v s
          ≡ some (s.words (i + k), put s (i + k) (u32 (s.words (i + k) + v)))
    unfolding fetch_add
    fetch_add-field v = ground (arith, load-field, store-field (u32 (s.words (i + k) + v)))

    pub compare_exchange-field :
        (e d : ℕ)
        → compare_exchange (at (o.address + i + k)) e d s
          ≡ (if s.words (i + k) == e then some (true, put s (i + k) d) else some (false, s))
    unfolding compare_exchange
    compare_exchange-field e d = ground (arith, load-field, store-field d)
