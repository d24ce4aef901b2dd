-- ===== src/Common/Sums.antt =====
-- Sums over the numbers below a bound, and what changing one term does to them.
use Prim.Native.Nat.{ℕ, zero, suc, ◌+◌, ◌≤◌, ◌<◌}
use mathlib.Core.Path.{◌≡◌, refl, subst, fun_ext}
use mathlib.Core.Logic.{inl, inr}
use native.Mathlib.Omega.{arith}
use cxl_dis_lock.Common.Tests.{◌==◌, if◌then◌else◌, Bool-cases}

-- The sum of the first `n` terms.
unfoldable pub total : (ℕ → ℕ) → ℕ → ℕ
total f zero = 0
total f (suc n) = total f n + f n

total-outside :
    (f v : ℕ → ℕ) (lid n : ℕ) → n ≤ lid → total (λ k. if lid == k then v k else f k) n ≡ total f n
unfolding total
total-outside f v lid zero h = refl
total-outside f v lid (suc n) h = ground (arith, total-outside f v lid n)

-- Changing one term changes the sum by as much.
pub total-inside :
    (f v : ℕ → ℕ) (lid n : ℕ)
    → lid < n
    → total (λ k. if lid == k then v k else f k) n + f lid ≡ total f n + v lid
unfolding total
total-inside f v lid zero h = absurd (omega (arith, h))
total-inside f v lid (suc n) h = elim (Bool-cases (lid == n)) [
  | inl e ↦ ground (arith, total-outside f v lid n)
  | inr e ↦ ground (arith, total-inside f v lid n)
]

-- A function changed at one number.
abbrev pub set : {A : Type 0} → (ℕ → A) → ℕ → A → ℕ → A
set f i v k = if i == k then v else f k

-- The same for a sum of what `g` counts.
pub total-set :
    {A : Type 0} (g : A → ℕ) (f : ℕ → A) (i : ℕ) (v : A) (n : ℕ)
    → i < n
    → total (λ k. g (set f i v k)) n + g (f i) ≡ total (λ k. g (f k)) n + g v
total-set g f i v n h =
    let same : ◌≡◌ {A = ℕ → ℕ} (λ k. if i == k then g v else g (f k)) (λ k. g (set f i v k)) =
      fun_ext
        λ k. elim (Bool-cases (i == k)) [ inl e ↦ ground (arith, e) | inr e ↦ ground (arith, e) ] in
    subst (λ t. total t n + g (f i) ≡ total (λ k. g (f k)) n + g v) same
      (total-inside (λ k. g (f k)) (λ k. g v) i n h)

pub total_zero : (f : ℕ → ℕ) (n : ℕ) → ((k : ℕ) → f k ≡ 0) → total f n ≡ 0
unfolding total
total_zero f zero h = refl
total_zero f (suc n) h = ground (arith, total_zero f n h, h n)
