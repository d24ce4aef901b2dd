-- ===== src/Cas/Layout.antt =====
-- Where the slots of src/cas_global_lock.cpp stand in the mapping.
use cxl_dis_lock.Common.{ℕ, ◌+◌, ◌*◌, ◌^◌, ◌≤◌, ◌<◌, ◌≡◌, arith, ap, dec_lt}
use cxl_dis_lock.Types.{max_node_count, max_lock_count}
use cxl_dis_lock.Memory.{Shm, IsOpen}

-- The region is open and holds the state of `count` nodes from `base` on.
pub record IsReady (s : Shm) (base count : ℕ) : Type 0 where
  pub is_open : IsOpen s
  pub few : (0 < count) × (count ≤ max_node_count)
  pub room : base + 4096 * count ≤ s.size
  pub small : s.size < 2 ^ 64

-- The index of a slot, in words.
abbrev pub slot_index : ℕ → ℕ → ℕ → ℕ
slot_index count lock_id node_id = lock_id * count + node_id

pub slot_index-lt :
    (count l n : ℕ) → l < max_lock_count → n < count → slot_index count l n < 1024 * count
slot_index-lt count l n hl hn = grind arith

slot_index-lt-slot_index :
    (count l m n k : ℕ) → n < count → l < m → slot_index count l n < slot_index count m k
slot_index-lt-slot_index count l m n k hn h = grind arith

pub slot_index-injective :
    (count l m n k : ℕ)
    → n < count
    → k < count
    → slot_index count l n ≡ slot_index count m k
    → (l ≡ m) × (n ≡ k)
slot_index-injective count l m n k hn hk e = elim (dec_lt l m) [
  | yes h ↦ absurd (omega (arith, slot_index-lt-slot_index count l m n k hn h))
  | no h ↦ elim (dec_lt m l) [
    | yes g ↦ absurd (omega (arith, slot_index-lt-slot_index count m l k n hk g))
    | no g ↦ let same : l ≡ m = omega arith in (same, omega (arith, ap (λ (x : ℕ). x * count) same))
  ]
]
