-- ===== src/Flush.antt =====
-- The cache flush of src/shared_memory.cpp and include/cxl_memory_pool.h, as the list of the cache lines
-- that are written back.
use cxl_dis_lock.Common.{
  ℕ, zero, suc, ◌+◌, ◌-◌, ◌*◌, ◌/◌, ◌%◌, ◌≤◌, ◌<◌, ◌≡◌, arith, Bool, true, false, not, ◌||◌, ltb,
  ◌==◌, if◌then◌else◌, List, [], ◌∷◌, inl, inr, Bool-cases,
}
use cxl_dis_lock.Types.{ConsistencyMode, software_consistency, hardware_consistency}
use cxl_dis_lock.Memory.{Ptr, null, at, Shm}

-- The loop of `flush_cache_region` from `ptr` on, at most `rounds` times: each CLFLUSH writes back the
-- line of 64 bytes that its operand lies in.
unfoldable pub flush_from : ℕ → ℕ → ℕ → List ℕ
flush_from zero ptr end = []
flush_from (suc rounds) ptr end =
    let rest = flush_from rounds (ptr + 64) end in if ltb ptr end then (ptr / 64) ∷ rest else []

-- Each round takes 64 bytes off the range.
unfoldable pub flush_cache_region : ℕ → ℕ → List ℕ
flush_cache_region addr size = flush_from (size / 64 + 1) addr (addr + size)

abbrev pub flush_ptr : Ptr → ℕ → List ℕ
flush_ptr null size = []
flush_ptr (at p) size = if size == 0 then [] else flush_cache_region p size

abbrev pub flush_in : ConsistencyMode → Ptr → ℕ → List ℕ
flush_in hardware_consistency p size = []
flush_in software_consistency p size = flush_ptr p size

unfoldable pub flush_cache : Shm → Ptr → ℕ → List ℕ
flush_cache s p size = if not s.valid then [] else flush_in s.consistency p size

unfoldable pub invalidate_cache : Shm → Ptr → ℕ → List ℕ
invalidate_cache s p size = flush_cache s p size

-- Is the line among those that are written back?
unfoldable pub has_line : ℕ → List ℕ → Bool
has_line l [] = false
has_line l (k ∷ ks) = l == k || has_line l ks

flush_from_lem :
    (rounds ptr end l : ℕ)
    → end < ptr + 64 * rounds
    → ptr / 64 ≤ l
    → has_line l (flush_from rounds ptr end) ≡ ltb (ptr + 64 * (l - ptr / 64)) end
unfolding flush_from has_line
flush_from_lem zero ptr end l h lo = ground (arith, h)
flush_from_lem (suc rounds) ptr end l h lo = elim (Bool-cases (l == ptr / 64)) [
  | inl e ↦ ground (arith, h, e)
  | inr e ↦ ground (arith, h, e, flush_from_lem rounds (ptr + 64) end l)
]

-- A byte of the range is written back exactly where its cache line is the `k`th one after that of the
-- start and `64 * k` is less than the size of the range; so every byte is, where the start is the start
-- of a cache line.
pub flush_cache_region-Exact :
    (addr size b : ℕ)
    → addr ≤ b
    → b < addr + size
    → (has_line (b / 64) (flush_cache_region addr size) ≡ ltb (64 * (b / 64 - addr / 64)) size)
      × (addr % 64 ≡ 0 → has_line (b / 64) (flush_cache_region addr size) ≡ true)
unfolding flush_cache_region
flush_cache_region-Exact addr size b lo hi =
    let exact =
      flush_from_lem (size / 64 + 1) addr (addr + size) (b / 64) (omega arith) (omega arith) in
    (ground (arith, exact), λ aligned. ground (arith, exact, aligned))
