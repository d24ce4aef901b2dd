-- ===== src/NodeRegistry/Count.antt =====
-- The two loops of src/node_registry.cpp over the slots: the count of the active nodes and their list.
use Prim.Native.Nat.{min}
use cxl_dis_lock.Common.{
  ℕ, zero, suc, ◌+◌, ◌≤◌, ◌<◌, ◌≡◌, arith, ap, sym, ◌==◌, not, if◌then◌else◌, List, [], ◌∷◌, ◌++◌,
  length, some, Bool-cases, inl, inr,
}
use mathlib.Core.List.{append-nil, append_assoc}
use cxl_dis_lock.Types.{u32, max_node_count}
use cxl_dis_lock.Memory.{Shm, region}
use cxl_dis_lock.NodeRegistry.{
  NodeGlobalInfo, active_at, limit_of, info_from, count_slot, count_slots, get_active_node_count,
  discover_slot, discover_slots, discover_nodes,
}
use cxl_dis_lock.NodeRegistry.Slots.{IsReady, slot_ptr-eq, copy_from-eq, load_field-eq}
use cxl_dis_lock.NodeRegistry.Life.{info_of}

-- The records of the active nodes among the slots `i`, `i + 1`, …, `i + left - 1`, in this order.
unfoldable pub active_nodes : Shm → ℕ → ℕ → ℕ → List NodeGlobalInfo
active_nodes s base i zero = []
active_nodes s base i (suc left) =
    let rest = active_nodes s base (i + 1) left in
    if (info_of s base i).is_active == 0 then rest else info_of s base i ∷ rest

module _ {s : Shm} {base : ℕ} (r : IsReady s base) where
  count_slot-eq :
      (i count : ℕ)
      → i < max_node_count
      → count_slot base i count s
        ≡ some (if not ((info_of s base i).is_active == 0) then u32 (count + 1) else count, s)
  unfolding count_slot info_from
  count_slot-eq i count hi =
      ground (arith, slot_ptr-eq r i hi, load_field-eq r i hi active_at 1 (omega arith))

  discover_slot-eq :
      (i : ℕ) (found : List NodeGlobalInfo)
      → i < max_node_count
      → discover_slot base i found s
        ≡ some (
          if not ((info_of s base i).is_active == 0) then found ++ info_of s base i ∷ [] else found,
          s,
        )
  unfolding discover_slot
  discover_slot-eq i found hi = ground (arith, slot_ptr-eq r i hi, copy_from-eq r i hi)

  count_slots-eq :
      (i left count : ℕ)
      → i + left ≤ max_node_count
      → count ≤ i
      → count_slots base i left count s ≡ some (count + length (active_nodes s base i left), s)
  unfolding count_slots active_nodes
  count_slots-eq i zero count fits few = ground arith
  count_slots-eq i (suc left) count fits few =
      elim (Bool-cases ((info_of s base i).is_active == 0)) [
        | inl e ↦ ground (
          arith,
          e,
          fits,
          few,
          count_slot-eq i count (omega (arith, fits)),
          count_slots-eq (i + 1) left count (omega (arith, fits)) (omega (arith, few)),
        )
        | inr e ↦ ground (
          arith,
          e,
          fits,
          few,
          count_slot-eq i count (omega (arith, fits)),
          count_slots-eq (i + 1) left (count + 1) (omega (arith, fits)) (omega (arith, few)),
        )
      ]

  discover_slots-eq :
      (i left : ℕ) (found : List NodeGlobalInfo)
      → i + left ≤ max_node_count
      → discover_slots base i left found s ≡ some (found ++ active_nodes s base i left, s)
  unfolding discover_slots active_nodes
  discover_slots-eq i zero found fits = ap (λ l. some (l, s)) (sym (append-nil found))
  discover_slots-eq i (suc left) found fits =
      elim (Bool-cases ((info_of s base i).is_active == 0)) [
        | inl e ↦ ground (
          arith,
          e,
          fits,
          discover_slot-eq i found (omega (arith, fits)),
          discover_slots-eq (i + 1) left found (omega (arith, fits)),
        )
        | inr e ↦ ground (
          arith,
          e,
          fits,
          discover_slot-eq i found (omega (arith, fits)),
          discover_slots-eq (i + 1) left (found ++ info_of s base i ∷ []) (omega (arith, fits)),
          append_assoc found (info_of s base i ∷ []) (active_nodes s base (i + 1) left),
        )
      ]

  -- On a region that holds all 64 slots, `discover_nodes` finds the records of the active nodes among the
  -- first `max_nodes`, or 64, slots, in the order of their slots, and `get_active_node_count` answers with the
  -- length of that list; neither changes the memory.
  pub discover_nodes-get_active_node_count :
      (max_nodes : ℕ)
      → let nodes = active_nodes s base 0 (min max_nodes max_node_count) in
        (discover_nodes region base max_nodes s ≡ some (nodes, s))
        × (get_active_node_count region base max_nodes s ≡ some (length nodes, s))
  unfolding discover_nodes get_active_node_count
  discover_nodes-get_active_node_count max_nodes =
      let n = min max_nodes max_node_count in
      let limit : limit_of max_nodes ≡ n = ground arith in
      let fits : 0 + n ≤ max_node_count = omega arith in
      (
        ground (arith, r.is_open.is_valid, limit, discover_slots-eq 0 n [] fits),
        ground (arith, r.is_open.is_valid, limit, count_slots-eq 0 n 0 fits (omega arith)),
      )
