-- ===== src/NodeRegistry/Config/Load.antt =====
-- A configuration file in the layout that src/node_registry.cpp documents is read back.
use cxl_dis_lock.Common.{
  ℕ, ◌^◌, ◌<◌, ◌≡◌, arith, refl, ap, ◌∙◌, Bool, true, false, if◌then◌else◌, List, [], ◌∷◌, ◌++◌,
  Option, some, none, Bytes, codes, equal,
}
use cxl_dis_lock.Types.{success, u32, invalid_node_id}
use cxl_dis_lock.NodeRegistry.{NodeConfig, NodeRegistry}
use cxl_dis_lock.NodeRegistry.Config.{
  is_empty, quote, comma, colon, trim_start, trim_end, trim, after, before, drop_quotes, value_in,
  extract_json_value, ends_with, extract_json_key, assign, read_line, read_lines, default_config,
  finish_load, load_local_config, getlines,
}
use cxl_dis_lock.NodeRegistry.Config.Getline.{
  on_one_line, on_one_line-append, on_one_line-digits, text_of, getlines-text_of,
}
use cxl_dis_lock.NodeRegistry.Config.Lines.{
  trim_end-snoc, starts_tight, value-comma, drop_quotes-quoted, digits, trim_end-digits,
  stoul-digits, starts_tight-digits, drop_quotes-digits, is_empty-digits,
}

u32-small : (n : ℕ) → n < 2 ^ 32 → u32 n ≡ n
u32-small n h = ground (arith, h)

-- `    "key": value`
abbrev pub member : Bytes → Bytes → Bytes
member key value = quote ∷ key ++ quote ∷ colon ∷ 32 ∷ value

abbrev pub indented : Bytes → Bytes
indented s = 32 ∷ 32 ∷ 32 ∷ 32 ∷ s

abbrev pub quoted : Bytes → Bytes
quoted s = quote ∷ s ++ quote ∷ []

-- The key and the value that the parser finds in the line of a member are those it was made of.
record HasParts (key v : Bytes) : Type 0 where
  pub key_found : extract_json_key (member key v ++ comma ∷ []) ≡ key
  pub value_found :
      extract_json_value (member key v ++ comma ∷ []) ≡ value_in (some (32 ∷ v ++ comma ∷ []))
  pub named : is_empty key ≡ false

-- The assignment of a member, which an empty value leaves out.
abbrev pub assigned : NodeConfig → Bytes → Bytes → Option NodeConfig
assigned config key value = if is_empty value then some config else assign config key value

read_member :
    (config : NodeConfig) (key v : Bytes)
    → HasParts key v
    → starts_tight v ≡ true
    → trim_end v ≡ v
    → read_line config (trim (indented (member key v ++ comma ∷ [])))
      ≡ assigned config key (drop_quotes v)
unfolding read_line trim_start equal
read_member config key v parts start tight =
    ap (read_line config) (trim_end-snoc (member key v) comma refl)
    ∙ simp (parts.key_found, parts.value_found, parts.named, value-comma v start tight) refl

read_text :
    (config : NodeConfig) (key s : Bytes)
    → HasParts key (quoted s)
    → read_line config (trim (indented (member key (quoted s) ++ comma ∷ [])))
      ≡ assigned config key s
read_text config key s parts =
    read_member config key (quoted s) parts refl (trim_end-snoc (quote ∷ s) quote refl)
    ∙ ap (assigned config key) (drop_quotes-quoted s)

read_number :
    (config : NodeConfig) (key : Bytes) (n : ℕ)
    → HasParts key (digits 10 n)
    → read_line config (trim (indented (member key (digits 10 n) ++ comma ∷ [])))
      ≡ assign config key (digits 10 n)
read_number config key n parts =
    read_member config key (digits 10 n) parts (starts_tight-digits n) (trim_end-digits 10 n)
    ∙ simp (drop_quotes-digits n, is_empty-digits n) refl

read_lines-step :
    (config next : NodeConfig) (line : Bytes) (lines : List Bytes) {result : Bool × NodeConfig}
    → read_line config (trim line) ≡ some next
    → read_lines next lines ≡ result
    → read_lines config (line ∷ lines) ≡ result
unfolding read_lines
read_lines-step config next line lines h rest =
    ap (λ o. elim o [ none ↦ (false, config) | some c ↦ read_lines c lines ]) h ∙ rest

read_lines-end : (config : NodeConfig) → read_lines config [] ≡ (true, config)
unfolding read_lines
read_lines-end config = refl

abbrev pub flag_text : Bool → Bytes
flag_text true = codes "true"
flag_text false = codes "false"

-- The lines of the documented layout.
abbrev pub config_lines : NodeConfig → List Bytes
config_lines config =
    codes "{"
    ∷ indented (member (codes "node_id") (digits 10 config.node_id) ++ comma ∷ [])
    ∷ indented (member (codes "node_name") (quoted config.node_name) ++ comma ∷ [])
    ∷ indented (member (codes "ip_address") (quoted config.ip_address) ++ comma ∷ [])
    ∷ indented
        (member (codes "num_compute_threads") (digits 10 config.num_compute_threads) ++ comma ∷ [])
    ∷ indented (member (codes "is_lock_manager") (flag_text config.is_lock_manager))
    ∷ codes "}"
    ∷ []

-- The configuration after each of the members.
abbrev pub with_id : ℕ → NodeConfig
with_id n = record default_config { node_id = n }

abbrev pub with_name : ℕ → Bytes → NodeConfig
with_name n s = record (with_id n) { node_name = s }

abbrev pub with_address : ℕ → Bytes → Bytes → NodeConfig
with_address n s a = record (with_name n s) { ip_address = a }

abbrev pub with_threads : ℕ → Bytes → Bytes → ℕ → NodeConfig
with_threads n s a k = record (with_address n s a) { num_compute_threads = k }

read_id :
    (n : ℕ)
    → n < 2 ^ 32
    → read_line default_config
        (trim (indented (member (codes "node_id") (digits 10 n) ++ comma ∷ [])))
      ≡ some (with_id n)
unfolding extract_json_key extract_json_value after before assign equal
read_id n h =
    read_number default_config (codes "node_id") n
      (record { key_found = refl; value_found = refl; named = refl })
    ∙ simp (stoul-digits n h) (ap (λ k. some (with_id k)) (u32-small n h))

read_name :
    (n : ℕ) (s : Bytes)
    → read_line (with_id n) (trim (indented (member (codes "node_name") (quoted s) ++ comma ∷ [])))
      ≡ some (with_name n s)
unfolding extract_json_key extract_json_value after before assign equal
read_name n s =
    read_text (with_id n) (codes "node_name") s
      (record { key_found = refl; value_found = refl; named = refl })
    ∙ elim s as (λ t. assigned (with_id n) (codes "node_name") t ≡ some (with_name n t)) [
      | [] ↦ refl
      | _ ∷ _ ↦ refl
    ]

read_address :
    (n : ℕ) (s a : Bytes)
    → read_line
        (with_name n s)
        (trim (indented (member (codes "ip_address") (quoted a) ++ comma ∷ [])))
      ≡ some (with_address n s a)
unfolding extract_json_key extract_json_value after before assign equal
read_address n s a =
    read_text (with_name n s) (codes "ip_address") a
      (record { key_found = refl; value_found = refl; named = refl })
    ∙ elim a as (λ t. assigned (with_name n s) (codes "ip_address") t ≡ some (with_address n s t)) [
      | [] ↦ refl
      | _ ∷ _ ↦ refl
    ]

read_threads :
    (n : ℕ) (s a : Bytes) (k : ℕ)
    → k < 2 ^ 32
    → read_line
        (with_address n s a)
        (trim (indented (member (codes "num_compute_threads") (digits 10 k) ++ comma ∷ [])))
      ≡ some (with_threads n s a k)
unfolding extract_json_key extract_json_value after before assign equal
read_threads n s a k h =
    read_number (with_address n s a) (codes "num_compute_threads") k
      (record { key_found = refl; value_found = refl; named = refl })
    ∙ simp (stoul-digits k h) (ap (λ m. some (with_threads n s a m)) (u32-small k h))

read_flag :
    (config : NodeConfig) (b : Bool)
    → read_line config (trim (indented (member (codes "is_lock_manager") (flag_text b))))
      ≡ some (record config { is_lock_manager = b })
unfolding read_line extract_json_key extract_json_value after before assign equal trim_start
    trim_end ends_with
read_flag config true = refl
read_flag config false = refl

read_brace : (config : NodeConfig) → read_line config (trim (codes "{")) ≡ some config
unfolding read_line trim_start trim_end equal
read_brace config = refl

read_end : (config : NodeConfig) → read_line config (trim (codes "}")) ≡ some config
unfolding read_line trim_start trim_end equal
read_end config = refl

read_lines-config_lines :
    (config : NodeConfig)
    → config.node_id < 2 ^ 32
    → config.num_compute_threads < 2 ^ 32
    → read_lines default_config (config_lines config) ≡ (true, config)
read_lines-config_lines config small few =
    let n = config.node_id in
    let s = config.node_name in
    let a = config.ip_address in
    let k = config.num_compute_threads in
    read_lines-step default_config _ _ _ (read_brace default_config) (
      read_lines-step default_config _ _ _ (read_id n small) (
        read_lines-step (with_id n) _ _ _ (read_name n s) (
          read_lines-step (with_name n s) _ _ _ (read_address n s a) (
            read_lines-step (with_address n s a) _ _ _ (read_threads n s a k few) (
              read_lines-step (with_threads n s a k) config _ _
                (read_flag (with_threads n s a k) config.is_lock_manager)
                (read_lines-step config _ _ _ (read_end config) (read_lines-end config)))))))

-- The bytes of the file.
abbrev pub config_text : NodeConfig → Bytes
config_text config = text_of (config_lines config)

flag-on_one_line :
    (b : Bool) → on_one_line (indented (member (codes "is_lock_manager") (flag_text b))) ≡ true
unfolding on_one_line
flag-on_one_line true = refl
flag-on_one_line false = refl

getlines-config_text :
    (config : NodeConfig)
    → on_one_line config.node_name ≡ true
    → on_one_line config.ip_address ≡ true
    → getlines (config_text config) ≡ config_lines config
unfolding on_one_line
getlines-config_text config name address =
    let ended =
      λ (v : Bytes) (h : on_one_line v ≡ true). on_one_line-append v (comma ∷ []) h refl in
    let closed = λ (v : Bytes) (h : on_one_line v ≡ true).
      ended (v ++ quote ∷ []) (on_one_line-append v (quote ∷ []) h refl) in
    getlines-text_of (config_lines config) (
      ground (
        arith,
        ended (digits 10 config.node_id) (on_one_line-digits 10 config.node_id),
        closed config.node_name name,
        closed config.ip_address address,
        ended (digits 10 config.num_compute_threads)
            (on_one_line-digits 10 config.num_compute_threads),
        flag-on_one_line config.is_lock_manager,
      ))

-- The file in the documented layout, each line with a newline behind it, of a name and an address without a
-- newline, a number of threads below 2^32 and an id below 2^32 - 1, loads, and the registry then has that
-- configuration.
pub load_local_config-config_text :
    (registry : NodeRegistry) (c : ℕ) (path : Bytes) (config : NodeConfig)
    → config.node_id < invalid_node_id
    → config.num_compute_threads < 2 ^ 32
    → on_one_line config.node_name ≡ true
    → on_one_line config.ip_address ≡ true
    → load_local_config registry (c ∷ path) (some (config_text config))
      ≡ (success, record { local_config = config; has_local_config = true })
unfolding load_local_config finish_load
load_local_config-config_text registry c path config small few name address =
    ap (λ ls. finish_load registry (read_lines default_config ls))
      (getlines-config_text config name address)
    ∙ ap (finish_load registry) (read_lines-config_lines config (omega (arith, small)) few)
    ∙ ground (arith, small)
