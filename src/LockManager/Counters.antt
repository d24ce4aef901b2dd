-- ===== src/LockManager/Counters.antt =====
-- The counters of src/lock_manager.cpp.
use cxl_dis_lock.Common.{ℕ, ◌+◌, ◌<◌, ◌≡◌, arith, ap, ◌∙◌, ◌==◌, if◌then◌else◌, total, total-inside}
use cxl_dis_lock.Types.{u64, max_lock_count}
use cxl_dis_lock.LockManager.{Stats, count_grant}

-- The total agrees with the counters by lock, up to the wrap at 64 bits.
abbrev pub IsConsistent : Stats → Type 0
IsConsistent stats = stats.grants_total ≡ u64 (total stats.grants_by_lock max_lock_count)

wrapped : (a b x : ℕ) → a + x ≡ b + u64 (x + 1) → u64 (u64 b + 1) ≡ u64 a
wrapped a b x h = omega (arith, h)

pub count_grant-IsConsistent :
    (stats : Stats) (lid : ℕ)
    → lid < max_lock_count
    → IsConsistent stats
    → IsConsistent (count_grant stats lid)
unfolding count_grant
count_grant-IsConsistent stats lid h ok =
    let f = stats.grants_by_lock in
    let v = λ (k : ℕ). u64 (f k + 1) in
    ap (λ n. u64 (n + 1)) ok
    ∙ wrapped (total (λ k. if lid == k then v k else f k) max_lock_count) (total f max_lock_count)
        (f lid) (total-inside f v lid max_lock_count h)
