-- ===== src/NodeRegistry/Slots.antt =====
-- One access to a slot of src/node_registry.cpp, on a region that holds the whole array.
use cxl_dis_lock.Common.{ℕ, ◌+◌, ◌*◌, ◌^◌, ◌≤◌, ◌<◌, ◌≡◌, arith, ap, ◌==◌, if◌then◌else◌, some}
use cxl_dis_lock.Types.{u64, max_node_count}
use cxl_dis_lock.Memory.{Shm, at, IsOpen}
use cxl_dis_lock.Memory.Access.{ptr-at}
use cxl_dis_lock.NodeRegistry.{
  NodeGlobalInfo, info_size, info_from, with_info, copy_to, copy_from, store_field, load_field,
  slot_offset, slot_ptr,
}

-- The region is open and holds the 64 slots from `base` on.
pub record IsReady (s : Shm) (base : ℕ) : Type 0 where
  pub is_open : IsOpen s
  pub room : base + info_size * max_node_count ≤ s.size
  pub small : s.size < 2 ^ 64

-- Where slot `n` begins.
abbrev pub slot_at : ℕ → ℕ → ℕ
slot_at base n = base + n * info_size

module _ {s : Shm} {base : ℕ} (r : IsReady s base) (n : ℕ) (hn : n < max_node_count) where
  pub slot_ptr-eq : slot_ptr base n s ≡ some (at (r.is_open.address + slot_at base n), s)
  unfolding slot_ptr slot_offset
  slot_ptr-eq =
      let plain : u64 (base + n * info_size) ≡ slot_at base n = omega (arith, r.room, r.small) in
      rw plain (ap (λ p. some (p, s)) (ptr-at r.is_open (slot_at base n) (omega (arith, r.room))))

  pub copy_to-eq :
      (info : NodeGlobalInfo)
      → copy_to (at (r.is_open.address + slot_at base n)) info s
        ≡ some (tt, record s { words = with_info s.words (slot_at base n) info })
  unfolding copy_to
  copy_to-eq info = ground (arith, r.is_open.is_valid, r.is_open.is_mapped, r.room)

  pub copy_from-eq :
      copy_from (at (r.is_open.address + slot_at base n)) s
      ≡ some (info_from s.words (slot_at base n), s)
  unfolding copy_from
  copy_from-eq = ground (arith, r.is_open.is_valid, r.is_open.is_mapped, r.room)

  pub store_field-eq :
      (k width v : ℕ)
      → k + width ≤ info_size
      → store_field (at (r.is_open.address + slot_at base n)) k width v s
        ≡ some (tt, record s { words = λ j. if slot_at base n + k == j then v else s.words j })
  unfolding store_field
  store_field-eq k width v h = ground (arith, r.is_open.is_valid, r.is_open.is_mapped, r.room)

  pub load_field-eq :
      (k width : ℕ)
      → k + width ≤ info_size
      → load_field (at (r.is_open.address + slot_at base n)) k width s
        ≡ some (s.words (slot_at base n + k), s)
  unfolding load_field
  load_field-eq k width h = ground (arith, r.is_open.is_valid, r.is_open.is_mapped, r.room)
