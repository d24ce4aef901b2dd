-- ===== src/NodeRegistry/Config.antt =====
-- `NodeRegistry::load_local_config` of src/node_registry.cpp and its parser of JSON lines. A file is the
-- list of its bytes.
pub mod Lines
pub mod Getline
pub mod Load
pub mod Ranges
use mathlib.Core.Option
use cxl_dis_lock.Common.{
  ℕ, zero, suc, ◌+◌, ◌-◌, ◌*◌, ◌^◌, Bool, true, false, not, ◌&&◌, ◌||◌, ltb, leb, ◌==◌,
  if◌then◌else◌, List, [], ◌∷◌, Option, none, some, Bytes, codes, equal, length,
}
use cxl_dis_lock.Types.{
  LockResult, success, error_invalid_param, error_shm_failure, error_unknown, u32, invalid_node_id,
}
use cxl_dis_lock.NodeRegistry.{NodeConfig, NodeRegistry}

-- `std::isspace` in the C locale.
abbrev pub is_space : ℕ → Bool
is_space c = c == 32 || (leb 9 c && leb c 13)

abbrev pub is_digit : ℕ → Bool
is_digit c = leb 48 c && leb c 57

abbrev pub quote : ℕ
quote = 34

abbrev pub comma : ℕ
comma = 44

abbrev pub colon : ℕ
colon = 58

abbrev pub newline : ℕ
newline = 10

abbrev pub is_empty : Bytes → Bool
is_empty [] = true
is_empty (c ∷ s) = false

-- The two loops of `trim`.
unfoldable pub trim_start : Bytes → Bytes
trim_start [] = []
trim_start (c ∷ s) = if is_space c then trim_start s else c ∷ s

unfoldable pub trim_end : Bytes → Bytes
trim_end [] = []
trim_end (c ∷ s) = let rest = trim_end s in if is_space c && is_empty rest then [] else c ∷ rest

abbrev pub trim : Bytes → Bytes
trim s = trim_end (trim_start s)

-- What follows the first `c`, and what precedes it; `none` where it does not occur.
unfoldable pub after : ℕ → Bytes → Option Bytes
after c [] = none
after c (x ∷ s) = if x == c then some s else after c s

unfoldable pub before : ℕ → Bytes → Option Bytes
before c [] = none
before c (x ∷ s) = if x == c then some [] else Option.map (λ t. x ∷ t) (before c s)

-- `back() == c`, where the text is not empty, and `pop_back`.
unfoldable pub ends_with : ℕ → Bytes → Bool
ends_with c [] = false
ends_with c (x ∷ []) = x == c
ends_with c (x ∷ y ∷ s) = ends_with c (y ∷ s)

unfoldable pub pop_back : Bytes → Bytes
pop_back [] = []
pop_back (x ∷ []) = []
pop_back (x ∷ y ∷ s) = x ∷ pop_back (y ∷ s)

abbrev pub drop_comma : Bytes → Bytes
drop_comma s = if ends_with comma s then trim (pop_back s) else s

abbrev pub drop_quotes : Bytes → Bytes
drop_quotes [] = []
drop_quotes (x ∷ []) = x ∷ []
drop_quotes (x ∷ y ∷ s) =
    if x == quote && ends_with quote (y ∷ s) then pop_back (y ∷ s) else x ∷ y ∷ s

abbrev pub value_in : Option Bytes → Bytes
value_in none = []
value_in (some s) = drop_quotes (drop_comma (trim s))

unfoldable pub extract_json_value : Bytes → Bytes
extract_json_value line = value_in (after colon line)

abbrev pub key_in : Option Bytes → Bytes
key_in none = []
key_in (some s) = elim (before quote s) [ none ↦ [] | some key ↦ key ]

unfoldable pub extract_json_key : Bytes → Bytes
extract_json_key line = key_in (after quote line)

-- `std::stoul` in base ten with 64 bits; `none` is an exception.
unfoldable pub scan : ℕ → Bytes → ℕ
scan n [] = n
scan n (c ∷ s) = if is_digit c then scan (n * 10 + (c - 48)) s else n

abbrev pub magnitude : Bytes → Option ℕ
magnitude [] = none
magnitude (c ∷ s) =
    if is_digit c
    then (if ltb (scan 0 (c ∷ s)) (2 ^ 64) then some (scan 0 (c ∷ s)) else none)
    else none

abbrev pub negated : ℕ → ℕ
negated n = if n == 0 then 0 else 2 ^ 64 - n

abbrev pub signed : Bytes → Option ℕ
signed [] = none
signed (c ∷ s) =
    if c == 45
    then Option.map negated (magnitude s)
    else if c == 43
    then magnitude s
    else magnitude (c ∷ s)

unfoldable pub stoul : Bytes → Option ℕ
stoul s = signed (trim_start s)

-- The assignment that a known key makes; `none` where `stoul` throws.
unfoldable pub assign : NodeConfig → Bytes → Bytes → Option NodeConfig
assign config key value =
    if equal key (codes "node_id")
    then Option.map (λ n. record config { node_id = u32 n }) (stoul value)
    else if equal key (codes "node_name")
    then some (record config { node_name = value })
    else if equal key (codes "ip_address")
    then some (record config { ip_address = value })
    else if equal key (codes "num_compute_threads")
    then Option.map (λ n. record config { num_compute_threads = u32 n }) (stoul value)
    else if equal key (codes "is_lock_manager")
    then some (record config { is_lock_manager = equal value (codes "true") })
    else some config

-- The body of the loop, on a trimmed line.
unfoldable pub read_line : NodeConfig → Bytes → Option NodeConfig
read_line config line =
    if is_empty line || equal line (codes "{") || equal line (codes "}")
    then some config
    else if is_empty (extract_json_key line) || is_empty (extract_json_value line)
    then some config
    else assign config (extract_json_key line) (extract_json_value line)

-- A byte before the first of the lines that follow.
abbrev pub before_line : ℕ → List Bytes → List Bytes
before_line c [] = (c ∷ []) ∷ []
before_line c (line ∷ lines) = (c ∷ line) ∷ lines

-- What `std::getline` yields until it fails: a line ends at a newline, which it drops, or at the end of the
-- file, where no line is empty.
unfoldable pub getlines : Bytes → List Bytes
getlines [] = []
getlines (c ∷ s) = let rest = getlines s in if c == newline then [] ∷ rest else before_line c rest

-- The loop over the lines that `getlines` yields; `false` is the return in the middle of it.
unfoldable pub read_lines : NodeConfig → List Bytes → Bool × NodeConfig
read_lines config [] = (true, config)
read_lines config (line ∷ lines) = elim (read_line config (trim line)) [
  | none ↦ (false, config)
  | some next ↦ read_lines next lines
]

-- `NodeConfig{}` after the assignments before the loop.
abbrev pub default_config : NodeConfig
default_config = record {
  node_id = invalid_node_id;
  node_name = [];
  ip_address = [];
  num_compute_threads = 0;
  is_lock_manager = false;
}

-- The end of `load_local_config`.
unfoldable pub finish_load : NodeRegistry → Bool × NodeConfig → LockResult × NodeRegistry
finish_load registry (parsed, config) =
    if not parsed || config.node_id == invalid_node_id
    then (error_unknown, record registry { local_config = config })
    else (success, record { local_config = config; has_local_config = true })

-- `file` is the content under the path, where the file opens.
unfoldable pub load_local_config : NodeRegistry → Bytes → Option Bytes → LockResult × NodeRegistry
load_local_config registry [] file = (error_invalid_param, registry)
load_local_config registry (c ∷ path) none = (error_shm_failure, registry)
load_local_config registry (c ∷ path) (some text) =
    finish_load registry (read_lines default_config (getlines text))
