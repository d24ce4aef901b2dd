-- ===== src/Examples/NodeRegistry.antt =====
-- src/node_registry.cpp and src/lock_interface.cpp at concrete inputs: the array at offset 4096 of a region
-- of one megabyte.
use cxl_dis_lock.Common.{
  ℕ, ◌*◌, ◌-◌, ◌<◌, ◌≡◌, ◌≢◌, arith, refl, true, false, not, ltb, Bytes, codes, none, some, [], ◌∷◌,
  length,
}
use cxl_dis_lock.Types.{success, u64, max_node_count}
use cxl_dis_lock.Memory.{Shm, region}
use cxl_dis_lock.NodeRegistry.{
  NodeConfig, NodeRegistry, register_in_shared_memory, unregister, update_heartbeat, get_node_info,
  is_node_alive, info_from, discover_nodes, get_active_node_count,
}
use cxl_dis_lock.NodeRegistry.Slots.{IsReady}
use cxl_dis_lock.NodeRegistry.Life.{
  active_record, info_of, register-get_node_info, update_heartbeat-is_node_alive,
}
use cxl_dis_lock.NodeRegistry.Count.{active_nodes, discover_nodes-get_active_node_count}
use cxl_dis_lock.NodeRegistry.Config.{load_local_config, getlines}
use cxl_dis_lock.NodeRegistry.Config.Getline.{on_one_line}
use cxl_dis_lock.NodeRegistry.Config.Load.{config_text, load_local_config-config_text}
use cxl_dis_lock.NodeRegistry.Config.Ranges.{Loaded, load_local_config-Loaded}
use cxl_dis_lock.AlgorithmRegistry.{
  LockRegistryData, is_some, register_algorithm, invoke_found, create,
}
use cxl_dis_lock.AlgorithmRegistry.Lookup.{entry, register_algorithm-entry}
use cxl_dis_lock.Examples.Base.{blank}

-- Every word is 1, so that each slot is active.
abbrev busy : Shm
busy = record blank { words = λ i. 1 }

busy-IsReady : IsReady busy 4096
busy-IsReady = record {
  is_open = record { is_valid = refl; address = 4096; is_mapped = refl };
  room = omega arith;
  small = omega arith;
}

abbrev node5 : NodeConfig
node5 = record {
  node_id = 5;
  node_name = codes "node5";
  ip_address = codes "192.168.1.105";
  num_compute_threads = 4;
  is_lock_manager = true;
}

abbrev here : NodeRegistry
here = record { local_config = node5; has_local_config = true }

register-get_node_info_example :
    (t : Shm) × (register_in_shared_memory here region 4096 1000 busy ≡ some (success, t))
    × (get_node_info region 4096 5 true t ≡ some ((success, some (active_record node5 1000)), t))
    × ((m : ℕ)
        → m < max_node_count
        → m ≢ 5
        → get_node_info region 4096 m true t ≡ some ((success, some (info_of busy 4096 m)), t))
register-get_node_info_example = register-get_node_info busy-IsReady here refl (omega arith) 1000

busy_active : (info_of busy 4096 5).is_active ≢ 0
unfolding info_from
busy_active = λ e. ground (arith, e)

-- A timeout of more than 584 years, whose product wraps to 448384 nanoseconds.
update_heartbeat-is_node_alive_example :
    (t : Shm) × (u : Shm) × (update_heartbeat here region 4096 1000 busy ≡ some (success, t))
    × (is_node_alive region 4096 5 18446744073710 2000000 t
        ≡ some (ltb (2000000 - 1000) (u64 (18446744073710 * 1000000)), t))
    × (unregister here region 4096 t ≡ some (success, u))
    × (is_node_alive region 4096 5 18446744073710 2000000 u ≡ some (false, u))
update_heartbeat-is_node_alive_example =
    update_heartbeat-is_node_alive busy-IsReady here refl (omega arith) 1000 2000000 18446744073710
      busy_active (omega arith) (omega arith) (omega arith)

wrapped_timeout : ltb (2000000 - 1000) (u64 (18446744073710 * 1000000)) ≡ false
wrapped_timeout = refl

discover_nodes-get_active_node_count_example :
    let nodes = active_nodes busy 4096 0 64 in
    (discover_nodes region 4096 100 busy ≡ some (nodes, busy))
    × (get_active_node_count region 4096 100 busy ≡ some (length nodes, busy))
discover_nodes-get_active_node_count_example = discover_nodes-get_active_node_count busy-IsReady 100

node5_name : on_one_line node5.node_name ≡ true
unfolding on_one_line
node5_name = refl

node5_address : on_one_line node5.ip_address ≡ true
unfolding on_one_line
node5_address = refl

-- The last line of a file may lack its newline, and an empty line counts.
getlines_test : getlines (65 ∷ 10 ∷ 10 ∷ 66 ∷ []) ≡ (65 ∷ []) ∷ [] ∷ (66 ∷ []) ∷ []
unfolding getlines
getlines_test = refl

load_local_config-config_text_example :
    load_local_config
      (record { local_config = node5; has_local_config = false })
      (codes "a.json")
      (some (config_text node5))
    ≡ (success, here)
load_local_config-config_text_example =
    load_local_config-config_text (record { local_config = node5; has_local_config = false }) 97
      (codes ".json") node5 (omega arith) (omega arith) node5_name node5_address

load_local_config-Loaded_example :
    Loaded here (load_local_config here (codes "a.json") (some (codes "\"node_id\": -1")))
load_local_config-Loaded_example =
    load_local_config-Loaded here (codes "a.json") (some (codes "\"node_id\": -1"))

-- Factories are numbers, and each makes itself.
abbrev algorithms : LockRegistryData ℕ
algorithms = record { factories = (codes "cas", 1) ∷ [] }

register_algorithm-entry_example :
    let (done, after) = register_algorithm algorithms (some (codes "cas")) (some 2) in
    (done ≡ not (is_some (entry algorithms (codes "cas"))))
    × (entry after (codes "cas")
        ≡ (elim (entry algorithms (codes "cas")) [ none ↦ some 2 | some old ↦ some old ]))
    × ((other : Bytes) → other ≢ codes "cas" → entry after other ≡ entry algorithms other)
    × ((other : Bytes)
        → other ≢ []
        → create some after (some other) ≡ invoke_found some (entry after other))
register_algorithm-entry_example =
    register_algorithm-entry some algorithms (codes "cas") 2 (λ e. ground (arith, e))
