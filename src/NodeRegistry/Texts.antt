-- ===== src/NodeRegistry/Texts.antt =====
-- What the record of src/node_registry.cpp reads back after it was written.
use cxl_dis_lock.Common.{ℕ, zero, suc, ◌+◌, ◌<◌, ◌≡◌, arith, refl, subst, [], ◌∷◌, Bytes, length}
use cxl_dis_lock.NodeRegistry.{
  NodeGlobalInfo, info_size, name_at, ip_at, threads_at, active_at, registered_at, heartbeat_at,
  fixed_text, byte_of, field_value, bytes_from, info_from, with_info,
}

pub length-fixed_text : (n : ℕ) (s : Bytes) → length (fixed_text n s) ≡ n + 1
unfolding fixed_text
length-fixed_text zero s = refl
length-fixed_text (suc n) [] = omega (arith, length-fixed_text n [])
length-fixed_text (suc n) (c ∷ s) = ground (arith, length-fixed_text n [], length-fixed_text n s)

bytes_from-eq :
    (f : ℕ → ℕ) (xs : Bytes) (i : ℕ)
    → ((k : ℕ) → k < length xs → f (i + k) ≡ byte_of xs k)
    → bytes_from f i (length xs) ≡ xs
unfolding bytes_from byte_of
bytes_from-eq f [] i h = refl
bytes_from-eq f (x ∷ xs) i h = ground (
  arith,
  h 0 (omega arith),
  bytes_from-eq f xs (i + 1) (λ k hk. ground (arith, h (suc k) (omega (arith, hk)))),
)

-- Equal bytes give equal texts.
pub bytes_from-same :
    (f g : ℕ → ℕ) (n i : ℕ)
    → ((k : ℕ) → k < n → f (i + k) ≡ g (i + k))
    → bytes_from f i n ≡ bytes_from g i n
unfolding bytes_from
bytes_from-same f g zero i h = refl
bytes_from-same f g (suc n) i h = ground (
  arith,
  h 0 (omega arith),
  bytes_from-same f g n (i + 1) (λ k hk. ground (arith, h (suc k) (omega (arith, hk)))),
)

-- The record that was written is read back.
pub info_from-with_info :
    (words : ℕ → ℕ) (i : ℕ) (info : NodeGlobalInfo)
    → length info.node_name ≡ 64
    → length info.ip_address ≡ 64
    → info_from (with_info words i info) i ≡ info
unfolding info_from with_info field_value
info_from-with_info words i info name ip =
    let f = with_info words i info in
    let names : bytes_from f (i + name_at) 64 ≡ info.node_name =
      subst (λ n. bytes_from f (i + name_at) n ≡ info.node_name) name
        (bytes_from-eq f info.node_name (i + name_at) (λ k hk. ground (arith, name))) in
    let ips : bytes_from f (i + ip_at) 64 ≡ info.ip_address =
      subst (λ n. bytes_from f (i + ip_at) n ≡ info.ip_address) ip
        (bytes_from-eq f info.ip_address (i + ip_at) (λ k hk. ground (arith, ip))) in
    ground (arith, names, ips)

-- Writes outside of a slot leave its record alone.
pub info_from-same :
    (f g : ℕ → ℕ) (i : ℕ)
    → ((k : ℕ) → k < info_size → f (i + k) ≡ g (i + k))
    → info_from f i ≡ info_from g i
unfolding info_from
info_from-same f g i h = ground (
  arith,
  h 0 (omega arith),
  h threads_at (omega arith),
  h active_at (omega arith),
  h registered_at (omega arith),
  h heartbeat_at (omega arith),
  bytes_from-same f g 64 (i + name_at)
      (λ k hk. ground (arith, h (name_at + k) (omega (arith, hk)))),
  bytes_from-same f g 64 (i + ip_at) (λ k hk. ground (arith, h (ip_at + k) (omega (arith, hk)))),
)
