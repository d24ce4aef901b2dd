-- ===== src/Mcs/Layout.antt =====
-- Where the entries and the node records of src/mcs_global_lock.cpp stand in the mapping.
use cxl_dis_lock.Common.{ℕ, ◌+◌, ◌*◌, ◌<◌, ◌≡◌}
use cxl_dis_lock.Types.{max_lock_count}
use cxl_dis_lock.Memory.{Shm, at, offset_to_ptr}
use cxl_dis_lock.Lines.{IsReady, address, entry_line, node_line}
use cxl_dis_lock.Mcs.{get_entry_offset, get_node_offset}

module _ {s : Shm} {base count : ℕ} (r : IsReady s base count) where
  pub entry_ptr :
      (l : ℕ)
      → l < max_lock_count
      → offset_to_ptr s (get_entry_offset l base) ≡ at (address r + (base + l * 64))
  unfolding get_entry_offset
  entry_ptr l h = entry_line r l h

  pub node_ptr :
      (n : ℕ)
      → n < count
      → offset_to_ptr s (get_node_offset n count base) ≡ at (address r + (base + 65536 + n * 64))
  unfolding get_node_offset
  node_ptr n h = node_line r n h
