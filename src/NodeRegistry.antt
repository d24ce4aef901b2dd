-- ===== src/NodeRegistry.antt =====
-- src/node_registry.cpp: the nodes that take part, as an array of records in the shared memory.
pub mod Slots
pub mod Texts
pub mod Life
pub mod Count
pub mod Config
pub mod Moves
use mathlib.Core.Option
use cxl_dis_lock.Common.{
  ℕ, zero, suc, ◌+◌, ◌-◌, ◌*◌, Bool, true, false, not, ◌&&◌, ◌||◌, ltb, leb, ◌==◌, if◌then◌else◌,
  List, [], ◌∷◌, ◌++◌, Option, none, some, Bytes,
}
use cxl_dis_lock.Types.{
  LockResult, is_success, success, error_invalid_param, error_shm_failure, u32, u64,
  invalid_node_id, max_node_count,
}
use cxl_dis_lock.Memory.{
  M, pure, ◌>>=◌, ◌>>◌, fault, Ptr, null, at, Shm, Handle, nullptr, region, offset_to_ptr, span,
}

pub record NodeConfig : Type 0 where
  pub node_id : ℕ
  pub node_name : Bytes
  pub ip_address : Bytes
  pub num_compute_threads : ℕ
  pub is_lock_manager : Bool

-- The two texts are the 64 bytes of their arrays.
pub record NodeGlobalInfo : Type 0 where
  pub node_id : ℕ
  pub node_name : Bytes
  pub ip_address : Bytes
  pub num_compute_threads : ℕ
  pub is_active : ℕ
  pub registration_time : ℕ
  pub last_heartbeat : ℕ

-- The fields of `NodeRegistry::Impl`.
pub record NodeRegistry : Type 0 where
  pub local_config : NodeConfig
  pub has_local_config : Bool

-- The layout of `NodeGlobalInfo`, 160 bytes.
abbrev pub info_size : ℕ
info_size = 160

abbrev pub name_at : ℕ
name_at = 4

abbrev pub ip_at : ℕ
ip_at = 68

abbrev pub threads_at : ℕ
threads_at = 132

abbrev pub active_at : ℕ
active_at = 136

abbrev pub registered_at : ℕ
registered_at = 144

abbrev pub heartbeat_at : ℕ
heartbeat_at = 152

-- `c_str()` up to its first zero byte, at most `n` bytes of it, and zeros up to `n + 1` bytes: what
-- `strncpy` with `n` leaves in an array of `n + 1` zero bytes.
unfoldable pub fixed_text : ℕ → Bytes → Bytes
fixed_text zero s = 0 ∷ []
fixed_text (suc n) [] = 0 ∷ fixed_text n []
fixed_text (suc n) (c ∷ s) = if c == 0 then 0 ∷ fixed_text n [] else c ∷ fixed_text n s

-- The element at an index, and zero past the end.
unfoldable pub byte_of : Bytes → ℕ → ℕ
byte_of [] k = 0
byte_of (c ∷ s) zero = c
byte_of (c ∷ s) (suc k) = byte_of s k

-- The value of the field that begins at byte `k`.
unfoldable pub field_value : NodeGlobalInfo → ℕ → ℕ
field_value info k =
    if k == 0
    then info.node_id
    else if ltb k name_at
    then 0
    else if ltb k ip_at
    then byte_of info.node_name (k - name_at)
    else if ltb k threads_at
    then byte_of info.ip_address (k - ip_at)
    else if k == threads_at
    then info.num_compute_threads
    else if k == active_at
    then info.is_active
    else if k == registered_at
    then info.registration_time
    else if k == heartbeat_at
    then info.last_heartbeat
    else 0

-- `n` bytes from offset `i` on.
unfoldable pub bytes_from : (ℕ → ℕ) → ℕ → ℕ → Bytes
bytes_from words i zero = []
bytes_from words i (suc n) = words i ∷ bytes_from words (i + 1) n

unfoldable pub info_from : (ℕ → ℕ) → ℕ → NodeGlobalInfo
info_from words i = record {
  node_id = words i;
  node_name = bytes_from words (i + name_at) 64;
  ip_address = bytes_from words (i + ip_at) 64;
  num_compute_threads = words (i + threads_at);
  is_active = words (i + active_at);
  registration_time = words (i + registered_at);
  last_heartbeat = words (i + heartbeat_at);
}

unfoldable pub with_info : (ℕ → ℕ) → ℕ → NodeGlobalInfo → ℕ → ℕ
with_info words i info j =
    if leb i j && ltb j (i + info_size) then field_value info (j - i) else words j

-- `memcpy` of a whole record to and from the memory, and accesses to a field of `width` bytes.
unfoldable pub copy_to : Ptr → NodeGlobalInfo → M (Unit {0})
copy_to p info s =
    Option.map (λ i. (tt, record s { words = with_info s.words i info })) (span s info_size p)

unfoldable pub copy_from : Ptr → M NodeGlobalInfo
copy_from p s = Option.map (λ i. (info_from s.words i, s)) (span s info_size p)

abbrev pub byte_at : Ptr → ℕ → Ptr
byte_at null k = null
byte_at (at p) k = at (p + k)

unfoldable pub store_field : Ptr → ℕ → ℕ → ℕ → M (Unit {0})
store_field p k width v s =
    Option.map (λ i. (tt, record s { words = λ j. if i == j then v else s.words j }))
      (span s width (byte_at p k))

unfoldable pub load_field : Ptr → ℕ → ℕ → M ℕ
load_field p k width s = Option.map (λ i. (s.words i, s)) (span s width (byte_at p k))

-- The slot of a node; `none` where `offset_to_ptr` returns a null pointer.
unfoldable pub slot_offset : ℕ → ℕ → ℕ
slot_offset registry_offset node_id = u64 (registry_offset + node_id * info_size)

unfoldable pub slot_ptr : ℕ → ℕ → M Ptr
slot_ptr registry_offset node_id s = some (offset_to_ptr s (slot_offset registry_offset node_id), s)

abbrev pub is_valid : M Bool
is_valid s = some (s.valid, s)

-- The guards that `register_in_shared_memory`, `unregister` and `update_heartbeat` begin with; `action`
-- is what they do with the slot.
unfoldable pub with_slot : NodeRegistry → Handle → ℕ → (Ptr → M LockResult) → M LockResult
with_slot registry nullptr registry_offset action = pure error_invalid_param
with_slot registry region registry_offset action = do
  valid ← is_valid
  if not valid || not registry.has_local_config || leb max_node_count registry.local_config.node_id
      then pure error_invalid_param
      else (do
        p ← slot_ptr registry_offset registry.local_config.node_id
        elim p [ null ↦ pure error_shm_failure | at q ↦ action (at q) ])

-- The record that `register_in_shared_memory` builds; `now` is the monotonic clock in nanoseconds.
unfoldable pub new_info : NodeConfig → ℕ → NodeGlobalInfo
new_info config now = record {
  node_id = config.node_id;
  node_name = fixed_text 63 config.node_name;
  ip_address = fixed_text 63 config.ip_address;
  num_compute_threads = config.num_compute_threads;
  is_active = 1;
  registration_time = now;
  last_heartbeat = now;
}

unfoldable pub register_in_shared_memory : NodeRegistry → Handle → ℕ → ℕ → M LockResult
register_in_shared_memory registry shm registry_offset now =
    with_slot registry shm registry_offset
      λ p. copy_to p (new_info registry.local_config now) >> pure success

unfoldable pub unregister : NodeRegistry → Handle → ℕ → M LockResult
unregister registry shm registry_offset =
    with_slot registry shm registry_offset λ p. store_field p active_at 1 0 >> pure success

unfoldable pub update_heartbeat : NodeRegistry → Handle → ℕ → ℕ → M LockResult
update_heartbeat registry shm registry_offset now =
    with_slot registry shm registry_offset λ p. store_field p heartbeat_at 8 now >> pure success

-- `get_node_info`, with the record that it writes through its pointer; `has_info` says that this pointer
-- is not null.
unfoldable pub get_node_info : Handle → ℕ → ℕ → Bool → M (LockResult × Option NodeGlobalInfo)
get_node_info nullptr registry_offset node_id has_info = pure (error_invalid_param, none)
get_node_info region registry_offset node_id has_info = do
  valid ← is_valid
  if not valid || not has_info || leb max_node_count node_id
      then pure (error_invalid_param, none)
      else (do
        p ← slot_ptr registry_offset node_id
        elim p [
          | null ↦ pure (error_shm_failure, none)
          | at q ↦ (do info ← copy_from (at q); pure (success, some info))
        ])

-- `std::min(max_nodes, MAX_NODE_COUNT)`, as the source writes it.
abbrev pub limit_of : ℕ → ℕ
limit_of max_nodes = if ltb max_node_count max_nodes then max_node_count else max_nodes

-- One round of the loop of `get_active_node_count`: the count after slot `i`.
unfoldable pub count_slot : ℕ → ℕ → ℕ → M ℕ
count_slot registry_offset i count = do
  p ← slot_ptr registry_offset i
  elim p [
    | null ↦ pure count
    | at q ↦ (do
      active ← load_field (at q) active_at 1
      pure (if not (active == 0) then u32 (count + 1) else count))
  ]

unfoldable pub count_slots : ℕ → ℕ → ℕ → ℕ → M ℕ
count_slots registry_offset i zero count = pure count
count_slots registry_offset i (suc left) count = do
  counted ← count_slot registry_offset i count
  count_slots registry_offset (i + 1) left counted

unfoldable pub get_active_node_count : Handle → ℕ → ℕ → M ℕ
get_active_node_count nullptr registry_offset max_nodes = pure 0
get_active_node_count region registry_offset max_nodes = do
  valid ← is_valid
  if not valid then pure 0 else count_slots registry_offset 0 (limit_of max_nodes) 0

-- The same for `discover_nodes`.
unfoldable pub discover_slot : ℕ → ℕ → List NodeGlobalInfo → M (List NodeGlobalInfo)
discover_slot registry_offset i result = do
  p ← slot_ptr registry_offset i
  elim p [
    | null ↦ pure result
    | at q ↦ (do
      info ← copy_from (at q)
      pure (if not (info.is_active == 0) then result ++ info ∷ [] else result))
  ]

unfoldable pub discover_slots : ℕ → ℕ → ℕ → List NodeGlobalInfo → M (List NodeGlobalInfo)
discover_slots registry_offset i zero result = pure result
discover_slots registry_offset i (suc left) result = do
  found ← discover_slot registry_offset i result
  discover_slots registry_offset (i + 1) left found

unfoldable pub discover_nodes : Handle → ℕ → ℕ → M (List NodeGlobalInfo)
discover_nodes nullptr registry_offset max_nodes = pure []
discover_nodes region registry_offset max_nodes = do
  valid ← is_valid
  if not valid then pure [] else discover_slots registry_offset 0 (limit_of max_nodes) []

-- The end of `is_node_alive`, from the record that was read.
unfoldable pub is_fresh : NodeGlobalInfo → ℕ → ℕ → Bool
is_fresh info now timeout_ms =
    not (info.is_active == 0)
    && not (info.last_heartbeat == 0)
    && (ltb now info.last_heartbeat || ltb (now - info.last_heartbeat) (u64 (timeout_ms * 1000000)))

abbrev pub fresh_info : Option NodeGlobalInfo → ℕ → ℕ → Bool
fresh_info none now timeout_ms = false
fresh_info (some info) now timeout_ms = is_fresh info now timeout_ms

unfoldable pub is_node_alive : Handle → ℕ → ℕ → ℕ → ℕ → M Bool
is_node_alive nullptr registry_offset node_id timeout_ms now = pure false
is_node_alive region registry_offset node_id timeout_ms now = do
  valid ← is_valid
  if not valid || leb max_node_count node_id || timeout_ms == 0 then pure false else (do
    (rc, info) ← get_node_info region registry_offset node_id true
    if not (is_success rc) then pure false else pure (fresh_info info now timeout_ms))
