-- ===== src/NodeRegistry/Life.antt =====
-- Registration, heartbeats and the test of a live node of src/node_registry.cpp.
use cxl_dis_lock.Common.{
  ℕ, ◌+◌, ◌-◌, ◌*◌, ◌≤◌, ◌<◌, ◌≡◌, ◌≢◌, arith, ap, ◌∙◌, true, false, ltb, ◌==◌, if◌then◌else◌, some,
}
use cxl_dis_lock.Types.{success, u64, max_node_count}
use cxl_dis_lock.Memory.{Shm, region}
use cxl_dis_lock.NodeRegistry.{
  NodeConfig, NodeGlobalInfo, NodeRegistry, name_at, active_at, heartbeat_at, fixed_text, ip_at,
  info_from, with_info, with_slot, new_info, register_in_shared_memory, unregister,
  update_heartbeat, get_node_info, is_fresh, is_node_alive,
}
use cxl_dis_lock.NodeRegistry.Slots.{
  IsReady, slot_at, slot_ptr-eq, copy_to-eq, copy_from-eq, store_field-eq,
}
use cxl_dis_lock.NodeRegistry.Texts.{
  length-fixed_text, info_from-with_info, info_from-same, bytes_from-same,
}

-- The record of an active node that was registered at `now`.
abbrev pub active_record : NodeConfig → ℕ → NodeGlobalInfo
active_record config now = record {
  node_id = config.node_id;
  node_name = fixed_text 63 config.node_name;
  ip_address = fixed_text 63 config.ip_address;
  num_compute_threads = config.num_compute_threads;
  is_active = 1;
  registration_time = now;
  last_heartbeat = now;
}

-- The record in the slot of a node.
abbrev pub info_of : Shm → ℕ → ℕ → NodeGlobalInfo
info_of s base n = info_from s.words (slot_at base n)

-- The states after the three writes of node `n`.
abbrev pub registered : Shm → ℕ → ℕ → NodeGlobalInfo → Shm
registered s base n info = record s { words = with_info s.words (slot_at base n) info }

abbrev pub stored : Shm → ℕ → ℕ → ℕ → ℕ → Shm
stored s base n k v = record s { words = λ j. if slot_at base n + k == j then v else s.words j }

rewritten-IsReady :
    {s : Shm} {base : ℕ} → IsReady s base → (f : ℕ → ℕ) → IsReady (record s { words = f }) base
rewritten-IsReady r f = record {
  is_open = record {
    is_valid = r.is_open.is_valid;
    address = r.is_open.address;
    is_mapped = r.is_open.is_mapped;
  };
  room = r.room;
  small = r.small;
}

-- Writing one slot leaves the record of every other one.
with_info-other :
    (words : ℕ → ℕ) (base n m : ℕ) (info : NodeGlobalInfo)
    → m ≢ n
    → info_from (with_info words (slot_at base n) info) (slot_at base m)
      ≡ info_from words (slot_at base m)
unfolding with_info
with_info-other words base n m info other =
    info_from-same _ _ (slot_at base m) λ k hk. ground (arith, hk, other)

module _ {s : Shm} {base : ℕ} (r : IsReady s base) where
  pub get_node_info-eq :
      (n : ℕ)
      → n < max_node_count
      → get_node_info region base n true s ≡ some ((success, some (info_of s base n)), s)
  unfolding get_node_info
  get_node_info-eq n hn =
      ground (arith, r.is_open.is_valid, slot_ptr-eq r n hn, copy_from-eq r n hn)

  pub is_node_alive-eq :
      (n timeout_ms now : ℕ)
      → n < max_node_count
      → timeout_ms ≢ 0
      → is_node_alive region base n timeout_ms now s
        ≡ some (is_fresh (info_of s base n) now timeout_ms, s)
  unfolding is_node_alive
  is_node_alive-eq n timeout_ms now hn pos =
      ground (arith, r.is_open.is_valid, pos, get_node_info-eq n hn)

  module _ (registry : NodeRegistry) (ok : registry.has_local_config ≡ true)
      (hn : registry.local_config.node_id < max_node_count) where
    pub register-eq :
        (now : ℕ)
        → register_in_shared_memory registry region base now s
          ≡ some (
            success,
            registered s base registry.local_config.node_id (new_info registry.local_config now),
          )
    unfolding register_in_shared_memory with_slot
    register-eq now = ground (
      arith,
      r.is_open.is_valid,
      slot_ptr-eq r registry.local_config.node_id hn,
      copy_to-eq r registry.local_config.node_id hn (new_info registry.local_config now),
    )

    pub unregister-eq :
        unregister registry region base s
        ≡ some (success, stored s base registry.local_config.node_id active_at 0)
    unfolding unregister with_slot
    unregister-eq = ground (
      arith,
      r.is_open.is_valid,
      slot_ptr-eq r registry.local_config.node_id hn,
      store_field-eq r registry.local_config.node_id hn active_at 1 0 (omega arith),
    )

    pub update_heartbeat-eq :
        (now : ℕ)
        → update_heartbeat registry region base now s
          ≡ some (success, stored s base registry.local_config.node_id heartbeat_at now)
    unfolding update_heartbeat with_slot
    update_heartbeat-eq now = ground (
      arith,
      r.is_open.is_valid,
      slot_ptr-eq r registry.local_config.node_id hn,
      store_field-eq r registry.local_config.node_id hn heartbeat_at 8 now (omega arith),
    )

-- Storing the active flag or the heartbeat changes that field of the record alone.
stored_active :
    (s : Shm) (base n v : ℕ)
    → info_of (stored s base n active_at v) base n ≡ record (info_of s base n) { is_active = v }
unfolding info_from
stored_active s base n v = ground (
  arith,
  bytes_from-same (stored s base n active_at v).words s.words 64 (slot_at base n + name_at)
      (λ k hk. ground (arith, hk)),
  bytes_from-same (stored s base n active_at v).words s.words 64 (slot_at base n + ip_at)
      (λ k hk. ground (arith, hk)),
)

stored_heartbeat :
    (s : Shm) (base n v : ℕ)
    → info_of (stored s base n heartbeat_at v) base n
      ≡ record (info_of s base n) { last_heartbeat = v }
unfolding info_from
stored_heartbeat s base n v = ground (
  arith,
  bytes_from-same (stored s base n heartbeat_at v).words s.words 64 (slot_at base n + name_at)
      (λ k hk. ground (arith, hk)),
  bytes_from-same (stored s base n heartbeat_at v).words s.words 64 (slot_at base n + ip_at)
      (λ k hk. ground (arith, hk)),
)

module _ {s : Shm} {base : ℕ} (r : IsReady s base) (registry : NodeRegistry)
    (ok : registry.has_local_config ≡ true)
    (hn : registry.local_config.node_id < max_node_count) where
  -- On a region that holds all 64 slots, the registration of a node with a configuration and an id
  -- below 64 succeeds; afterwards `get_node_info` of that node answers with the configuration of an active
  -- node registered at that time, both texts cut to 63 bytes and ended by zeros, and of every other node with the same as before.
  pub register-get_node_info :
      (now : ℕ)
      → let n = registry.local_config.node_id in
        (t : Shm) × (register_in_shared_memory registry region base now s ≡ some (success, t))
        × (get_node_info region base n true t
            ≡ some ((success, some (active_record registry.local_config now)), t))
        × ((m : ℕ)
            → m < max_node_count
            → m ≢ n
            → get_node_info region base m true t ≡ some ((success, some (info_of s base m)), t))
  unfolding new_info
  register-get_node_info now =
      let n = registry.local_config.node_id in
      let info = new_info registry.local_config now in
      let t = registered s base n info in
      let ready : IsReady t base = rewritten-IsReady r (with_info s.words (slot_at base n) info) in
      (
        t,
        register-eq r registry ok hn now,
        get_node_info-eq ready n hn
            ∙ ap (λ i. some ((success, some i), t))
                (info_from-with_info s.words (slot_at base n) info (length-fixed_text 63 _)
                  (length-fixed_text 63 _)),
        λ m hm other.
            get_node_info-eq ready m hm
            ∙ ap (λ i. some ((success, some i), t)) (with_info-other s.words base n m info other),
      )

  -- On a region that holds all 64 slots, a node that is marked active and writes its heartbeat at a time
  -- other than zero counts as alive at a later time just when fewer nanoseconds have passed than the
  -- timeout has, as a 64-bit product, and as dead as soon as it has unregistered.
  pub update_heartbeat-is_node_alive :
      (now later timeout_ms : ℕ)
      → (info_of s base registry.local_config.node_id).is_active ≢ 0
      → now ≢ 0
      → now ≤ later
      → timeout_ms ≢ 0
      → let n = registry.local_config.node_id in
        (t : Shm) × (u : Shm) × (update_heartbeat registry region base now s ≡ some (success, t))
        × (is_node_alive region base n timeout_ms later t
            ≡ some (ltb (later - now) (u64 (timeout_ms * 1000000)), t))
        × (unregister registry region base t ≡ some (success, u))
        × (is_node_alive region base n timeout_ms later u ≡ some (false, u))
  unfolding is_fresh
  update_heartbeat-is_node_alive now later timeout_ms active started order pos =
      let n = registry.local_config.node_id in
      let t = stored s base n heartbeat_at now in
      let u = stored t base n active_at 0 in
      let ready : IsReady t base = rewritten-IsReady r t.words in
      (
        t,
        u,
        update_heartbeat-eq r registry ok hn now,
        is_node_alive-eq ready n timeout_ms later hn pos
            ∙ ap (λ i. some (is_fresh i later timeout_ms, t)) (stored_heartbeat s base n now)
            ∙ ground (arith, active, started, order),
        unregister-eq ready registry ok hn,
        is_node_alive-eq (rewritten-IsReady ready u.words) n timeout_ms later hn pos
            ∙ ap (λ i. some (is_fresh i later timeout_ms, u)) (stored_active t base n 0),
      )
