-- ===== src/NodeRegistry/Moves.antt =====
-- The construction and the moves of src/node_registry.cpp.
use cxl_dis_lock.Common.{Bool, false, if◌then◌else◌, []}
use cxl_dis_lock.NodeRegistry.{NodeConfig, NodeRegistry}

-- `Impl()`, whose configuration is zeroed.
abbrev pub new_registry : NodeRegistry
new_registry = record {
  local_config = record {
    node_id = 0;
    node_name = [];
    ip_address = [];
    num_compute_threads = 0;
    is_lock_manager = false;
  };
  has_local_config = false;
}

-- The move constructor: the new object, and what is left of the other one.
unfoldable pub move_construct : NodeRegistry → NodeRegistry × NodeRegistry
move_construct other = (other, new_registry)

-- `this = std::move(other)`: this object, the other one, and whether they are the same object.
unfoldable pub move_assign : Bool → NodeRegistry → NodeRegistry → NodeRegistry × NodeRegistry
move_assign same this other = if same then (this, other) else (other, new_registry)

abbrev pub get_local_config : NodeRegistry → NodeConfig
get_local_config registry = registry.local_config
