-- ===== src/Cas/Hazards.antt =====
-- What src/cas_global_lock.cpp leaves unguarded.
use cxl_dis_lock.Common.{ℕ, ◌+◌, ◌<◌, ◌≡◌, arith, refl, some, ◌==◌, if◌then◌else◌}
use cxl_dis_lock.Types.{
  LockResult, success, slot_idle, slot_waiting, slot_locked, invalid_node_id, max_lock_count,
}
use cxl_dis_lock.Memory.{Shm, M, ◌>>=◌, ◌>>◌, region}
use cxl_dis_lock.Cas.{
  Cas, get_slot_offset, write_slot_state, initialize, acquire_lock, check_grant, grant_lock,
}
use cxl_dis_lock.Cas.Layout.{IsReady}
use cxl_dis_lock.Cas.Slots.{
  slot, slot_at, slot-put, zeroed, zeroed-slot, zeroed-IsReady, put-IsReady, initialize-eq,
  acquire_lock-eq,
}
use cxl_dis_lock.Cas.Ops.{scan_serves}
use cxl_dis_lock.Memory.Access.{put}

-- A node id that is not below `node_count` is not refused: the slot of node `node_count + k` of
-- lock `l` is that of node `k` of lock `l + 1`.
slot_offset-past :
    (l k count base : ℕ)
    → get_slot_offset l (count + k) count base ≡ get_slot_offset (l + 1) k count base
unfolding get_slot_offset
slot_offset-past l k count base = omega arith

-- So a request of node `node_count + k` for lock `l` is carried out as a request of node `k` for
-- lock `l + 1`, in every state.
pub acquire_lock-past :
    (a : Cas) (l k base : ℕ)
    → a.node_count + k < invalid_node_id
    → acquire_lock a (a.node_count + k) l region base ≡ acquire_lock a k (l + 1) region base
unfolding acquire_lock write_slot_state
acquire_lock-past a l k base h = rw (slot_offset-past l k a.node_count base) (ground arith)

-- A client that starts while others run: it initialises the lock state, requests lock `l`, and the
-- manager scans.
unfoldable pub late_start : Cas → ℕ → ℕ → ℕ → ℕ → M LockResult
late_start a k l base count = do
  b ← initialize a region base count
  acquire_lock b.0 k l region base
  g ← check_grant b.0 l region base count
  grant_lock b.0 g l region base

-- `TwoTierLock::initialize` runs `initialize` on every node. It wipes out the LOCKED slot of a node
-- `n` that holds lock `l`: the lock is then granted to `k` although `n` has not released it.
pub initialize_regrants :
    {s : Shm} {base count : ℕ} (a : Cas)
    → IsReady s base count
    → (l n k : ℕ) → l < max_lock_count
    → n < count
    → k < count
    → slot s base count l n ≡ slot_locked
    → (t : Shm) × (late_start a k l base count s ≡ some (success, t))
      × (slot t base count l k ≡ slot_locked)
unfolding late_start
initialize_regrants {s} {base} {count} a r l n k hl hn hk held =
    let s₁ = zeroed s base count in
    let s₂ = put s₁ (slot_at base count l k) slot_waiting in
    let r₁ = zeroed-IsReady r in
    let b : Cas = record { node_count = count } in
    let word : (m : ℕ)
        → m < count
        → slot s₂ base count l m ≡ (if k == m then slot_waiting else slot_idle) =
      λ m hm. ground (
        arith,
        slot-put s₁ base count l k l m slot_waiting hk hm,
        zeroed-slot s base count l m hl hm,
      ) in
    let (g, le, waits, checked, granted) =
      scan_serves (put-IsReady r₁ (slot_at base count l k) slot_waiting) l hl b refl k hk
        (ground (arith, word k hk)) (λ m lo hi. ground (arith, word m hi)) in
    let same : g ≡ k = ground (arith, word g (omega arith)) in
    (
      put s₂ (slot_at base count l g) slot_locked,
      ground (arith, initialize-eq a r, acquire_lock-eq r₁ l k hl hk b refl, checked, granted),
      ground (arith, slot-put s₂ base count l g l k slot_locked (omega arith) hk),
    )
