-- ===== src/NodeRegistry/Config/Ranges.antt =====
-- The numbers that `load_local_config` of src/node_registry.cpp stores fit in their fields, whatever the file.
use cxl_dis_lock.Common.{
  ℕ, ◌^◌, ◌<◌, ◌≡◌, ◌≢◌, ◌⊎◌, arith, refl, Bool, true, false, ◌||◌, ◌==◌, if◌then◌else◌, List, [],
  ◌∷◌, Option, some, none, Bytes, codes, equal, Bool-cases, inl, inr,
}
use mathlib.Core.Option
use cxl_dis_lock.Types.{
  LockResult, success, error_invalid_param, error_shm_failure, error_unknown, invalid_node_id,
}
use cxl_dis_lock.NodeRegistry.{NodeConfig, NodeRegistry}
use cxl_dis_lock.NodeRegistry.Config.{
  is_empty, trim, extract_json_value, extract_json_key, stoul, assign, read_line, read_lines,
  default_config, getlines, finish_load, load_local_config,
}

-- The two numbers are values of a `uint32_t`.
pub record InRange (config : NodeConfig) : Type 0 where
  pub id : config.node_id < 2 ^ 32
  pub threads : config.num_compute_threads < 2 ^ 32

-- Every configuration that the outcome of a line names is in range.
unfoldable Ranged : Option NodeConfig → Type 0
Ranged none = Unit
Ranged (some config) = InRange config

if-Ranged : (b : Bool) (x y : Option NodeConfig) → Ranged x → Ranged y → Ranged (if b then x else y)
unfolding Ranged
if-Ranged true x y rx ry = rx
if-Ranged false x y rx ry = ry

map-Ranged :
    (f : ℕ → NodeConfig) (o : Option ℕ) → ((n : ℕ) → InRange (f n)) → Ranged (Option.map f o)
unfolding Ranged
map-Ranged f none h = tt
map-Ranged f (some n) h = h n

assign-Ranged :
    (config : NodeConfig) (key value : Bytes) → InRange config → Ranged (assign config key value)
unfolding assign Ranged
assign-Ranged config key value r =
    if-Ranged (equal key (codes "node_id")) _ _
      (map-Ranged _ (stoul value) λ n. record { id = omega arith; threads = r.threads })
      (if-Ranged (equal key (codes "node_name")) _ _ (record { id = r.id; threads = r.threads })
        (if-Ranged (equal key (codes "ip_address")) _ _ (record { id = r.id; threads = r.threads })
          (if-Ranged (equal key (codes "num_compute_threads")) _ _
            (map-Ranged _ (stoul value) λ n. record { id = r.id; threads = omega arith })
            (if-Ranged (equal key (codes "is_lock_manager")) _ _
              (record { id = r.id; threads = r.threads }) r))))

read_line-Ranged :
    (config : NodeConfig) (line : Bytes) → InRange config → Ranged (read_line config line)
unfolding read_line Ranged
read_line-Ranged config line r =
    let key = extract_json_key line in
    let value = extract_json_value line in
    let rest = assign-Ranged config key value r in
    let skipped =
      if-Ranged (is_empty key || is_empty value) (some config) (assign config key value) r rest in
    if-Ranged (is_empty line || equal line (codes "{") || equal line (codes "}")) (some config) _ r
      skipped

unfoldable continued : NodeConfig → List Bytes → Option NodeConfig → Bool × NodeConfig
continued config lines none = (false, config)
continued config lines (some next) = read_lines next lines

continued-InRange :
    (config : NodeConfig) (lines : List Bytes) (o : Option NodeConfig)
    → InRange config
    → Ranged o
    → ((next : NodeConfig) → InRange next → InRange (read_lines next lines).1)
    → InRange (continued config lines o).1
unfolding Ranged continued
continued-InRange config lines none r h later = r
continued-InRange config lines (some next) r h later = later next h

read_lines-InRange :
    (config : NodeConfig) (lines : List Bytes)
    → InRange config
    → InRange (read_lines config lines).1
unfolding read_lines continued
read_lines-InRange config [] r = r
read_lines-InRange config (line ∷ lines) r =
    continued-InRange config lines (read_line config (trim line)) r
      (read_line-Ranged config (trim line) r) λ next. read_lines-InRange next lines

-- A load either succeeds, sets the flag and leaves numbers in range with a valid id, or it answers with an
-- error and leaves the flag.
pub record IsLoaded (registry : NodeRegistry) : Type 0 where
  pub flag : registry.has_local_config ≡ true
  pub range : InRange registry.local_config
  pub valid : registry.local_config.node_id ≢ invalid_node_id

pub record IsRefused (before after : NodeRegistry) (rc : LockResult) : Type 0 where
  pub code : (rc ≡ error_invalid_param) ⊎ (rc ≡ error_shm_failure) ⊎ (rc ≡ error_unknown)
  pub flag : after.has_local_config ≡ before.has_local_config

abbrev pub Loaded : NodeRegistry → LockResult × NodeRegistry → Type 0
Loaded before (rc, after) = ((rc ≡ success) × IsLoaded after) ⊎ IsRefused before after rc

finish_load-Loaded :
    (registry : NodeRegistry) (o : Bool × NodeConfig)
    → InRange o.1
    → Loaded registry (finish_load registry o)
unfolding finish_load
finish_load-Loaded registry (false, config) r = inr (record { code = inr (inr refl); flag = refl })
finish_load-Loaded registry (true, config) r =
    elim (Bool-cases (config.node_id == invalid_node_id)) [
      | inl e ↦ rw e (inr (record { code = inr (inr refl); flag = refl }))
      | inr e ↦ rw e (inl (refl, record { flag = refl; range = r; valid = ground (arith, e) }))
    ]

-- Whatever the path and the file hold, a load answers with success and sets the flag, and the numbers of
-- its configuration then fit in 32 bits with an id that is not the invalid one, or it answers with one of
-- three errors and leaves the flag as it was.
pub load_local_config-Loaded :
    (registry : NodeRegistry) (path : Bytes) (file : Option Bytes)
    → Loaded registry (load_local_config registry path file)
unfolding load_local_config
load_local_config-Loaded registry [] file = inr (record { code = inl refl; flag = refl })
load_local_config-Loaded registry (c ∷ path) none =
    inr (record { code = inr (inl refl); flag = refl })
load_local_config-Loaded registry (c ∷ path) (some text) =
    finish_load-Loaded registry (read_lines default_config (getlines text)) (
      read_lines-InRange default_config (getlines text)
        (record { id = omega arith; threads = omega arith }))
