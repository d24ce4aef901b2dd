-- ===== src/Lines.antt =====
-- The layout that the FAA, MCS and qspinlock algorithms share: 1024 entries of 64 bytes, one per lock,
-- and then one record of 64 bytes per node.
use cxl_dis_lock.Common.{
  ℕ, ◌+◌, ◌*◌, ◌^◌, ◌≤◌, ◌<◌, ◌≡◌, arith, some, true, false, ◌==◌, if◌then◌else◌,
}
use cxl_dis_lock.Types.{u64, max_node_count, max_lock_count}
use cxl_dis_lock.Memory.{Shm, at, offset_to_ptr, load, store, compare_exchange, IsOpen}
use cxl_dis_lock.Memory.Access.{
  put, put-IsOpen, ptr-at, load-field, store-field, compare_exchange-field,
}

-- The region is open and holds the state of `count` nodes from `base` on.
pub record IsReady (s : Shm) (base count : ℕ) : Type 0 where
  pub is_open : IsOpen s
  pub few : (0 < count) × (count ≤ max_node_count)
  pub room : base + 65536 + 64 * count ≤ s.size
  pub small : s.size < 2 ^ 64

pub put-IsReady :
    {s : Shm} {base count : ℕ} → IsReady s base count → (i v : ℕ) → IsReady (put s i v) base count
put-IsReady r i v = record {
  is_open = put-IsOpen r.is_open i v;
  few = r.few;
  room = r.room;
  small = r.small;
}

-- The field at byte `k` of the entry of lock `l`, and of the record of node `n`.
abbrev pub entry_at : ℕ → ℕ → ℕ → ℕ
entry_at base l k = base + l * 64 + k

abbrev pub node_at : ℕ → ℕ → ℕ → ℕ
node_at base n k = base + 65536 + n * 64 + k

abbrev pub entry_word : Shm → ℕ → ℕ → ℕ → ℕ
entry_word s base l k = s.words (entry_at base l k)

abbrev pub node_word : Shm → ℕ → ℕ → ℕ → ℕ
node_word s base n k = s.words (node_at base n k)

module _ {s : Shm} {base count : ℕ} (r : IsReady s base count) where
  abbrev pub address : ℕ
  address = r.is_open.address

  pub entry_line :
      (l : ℕ)
      → l < max_lock_count
      → offset_to_ptr s (u64 (base + l * 64)) ≡ at (address + (base + l * 64))
  entry_line l h =
      let plain : u64 (base + l * 64) ≡ base + l * 64 = omega (arith, r.room, r.small) in
      rw plain (ptr-at r.is_open (base + l * 64) (omega (arith, r.room)))

  pub node_line :
      (n : ℕ)
      → n < count
      → offset_to_ptr s (u64 (base + max_lock_count * 64 + n * 64))
        ≡ at (address + (base + 65536 + n * 64))
  node_line n h =
      let plain : u64 (base + max_lock_count * 64 + n * 64) ≡ base + 65536 + n * 64 =
        omega (arith, r.room, r.small) in
      rw plain (ptr-at r.is_open (base + 65536 + n * 64) (omega (arith, r.room)))

  -- Accesses to the field at byte `k` of an entry, and of a node's record.
  module _ (l k : ℕ) (hl : l < max_lock_count) (hk : k + 4 ≤ 64) where
    pub entry_load : load (at (address + (base + l * 64) + k)) s ≡ some (entry_word s base l k, s)
    entry_load = load-field r.is_open (base + l * 64) k (omega (arith, r.room))

    pub entry_store :
        (v : ℕ)
        → store (at (address + (base + l * 64) + k)) v s ≡ some (tt, put s (entry_at base l k) v)
    entry_store v = store-field r.is_open (base + l * 64) k (omega (arith, r.room)) v

    pub entry_exchange :
        (e d : ℕ)
        → compare_exchange (at (address + (base + l * 64) + k)) e d s ≡ (
            if entry_word s base l k == e
            then some (true, put s (entry_at base l k) d)
            else some (false, s))
    entry_exchange e d =
        compare_exchange-field r.is_open (base + l * 64) k (omega (arith, r.room)) e d

  module _ (n k : ℕ) (hn : n < count) (hk : k + 4 ≤ 64) where
    pub node_load :
        load (at (address + (base + 65536 + n * 64) + k)) s ≡ some (node_word s base n k, s)
    node_load = load-field r.is_open (base + 65536 + n * 64) k (omega (arith, r.room))

    pub node_store :
        (v : ℕ)
        → store (at (address + (base + 65536 + n * 64) + k)) v s
          ≡ some (tt, put s (node_at base n k) v)
    node_store v = store-field r.is_open (base + 65536 + n * 64) k (omega (arith, r.room)) v
