-- ===== src/Faa/Hazards.antt =====
-- What goes wrong in src/faa_global_lock.cpp: a node has one ticket record for all locks, and it
-- takes its ticket and publishes it in two steps.
use cxl_dis_lock.Common.{
  ℕ, ◌+◌, ◌-◌, ◌<◌, ◌≡◌, ◌≢◌, ◌^◌, arith, true, some, ◌==◌, leb, not, ◌&&◌, inl, inr, Bool,
  ℕ_discrete,
}
use cxl_dis_lock.Types.{u32, success, invalid_node_id, max_lock_count}
use cxl_dis_lock.Memory.{Shm, M, pure, ◌>>=◌, ◌>>◌, region}
use cxl_dis_lock.Faa.{
  Faa, next_ticket, now_serving, owner_node, ticket, active, take_ticket, publish_ticket,
  acquire_lock, check_grant, grant_lock, is_granted,
}
use cxl_dis_lock.Lines.{IsReady, put-IsReady, entry_at, node_at, entry_word, node_word}
use cxl_dis_lock.Faa.Ops.{
  taken, published, requested, granted, take_ticket-eq, publish_ticket-eq, acquire_lock-eq,
  grant_lock-eq, is_granted-eq,
}
use cxl_dis_lock.Faa.Choice.{check_grant-Smallest}

-- Node `i` takes its ticket, but publishes it only after node `j` has requested the lock and the
-- manager has scanned it; then both poll.
unfoldable pub overtaking : Faa → ℕ → ℕ → ℕ → ℕ → ℕ → M (Bool × Bool)
overtaking a base count l i j = do
  mine ← take_ticket l base
  acquire_lock a j l region base
  g ← check_grant a l region base count
  grant_lock a g l region base
  publish_ticket a i mine base
  first ← is_granted l i count base
  second ← is_granted l j count base
  pure (first, second)

module _ {s : Shm} {base count : ℕ} (r : IsReady s base count) (a : Faa)
    (own : a.node_count ≡ count) where
  requested-IsReady : (l n : ℕ) → IsReady (requested s base l n) base count
  requested-IsReady l n =
      put-IsReady
        (put-IsReady
          (put-IsReady r (entry_at base l next_ticket) (u32 (entry_word s base l next_ticket + 1)))
          (node_at base n ticket) (entry_word s base l next_ticket))
        (node_at base n active) 1

  -- With node `n` alone active, and its ticket below the largest uint32_t, a scan of a lock
  -- without an owner names `n`.
  lone-check_grant :
      (l n : ℕ)
      → l < max_lock_count
      → n < count
      → ((k : ℕ) → k < count → k ≢ n → node_word s base k active ≡ 0)
      → node_word s base n active ≢ 0
      → node_word s base n ticket < 2 ^ 32 - 1
      → entry_word s base l owner_node ≡ invalid_node_id
      → check_grant a l region base count s ≡ some (n, s)
  lone-check_grant l n hl hn quiet act low free =
      let (g, run, choice) = check_grant-Smallest r a l hl in
      let named : g ≡ n = elim choice [
        | inl c ↦ absurd (c.1 free)
        | inr c ↦ elim c [
          | inl d ↦ absurd (omega (arith, d.2 n (omega arith) hn act))
          | inr d ↦ elim (ℕ_discrete g n) [
            | yes same ↦ same
            | no other ↦ absurd (d.2 (quiet g d.1 other))
          ]
        ]
      ] in
      rw named at run

  owned-check_grant :
      (l : ℕ)
      → l < max_lock_count
      → entry_word s base l owner_node ≢ invalid_node_id
      → check_grant a l region base count s ≡ some (invalid_node_id, s)
  owned-check_grant l hl taken =
      let (g, run, choice) = check_grant-Smallest r a l hl in
      let none_named : g ≡ invalid_node_id = elim choice [
        | inl c ↦ c.0
        | inr c ↦ elim c [ inl d ↦ absurd (taken d.1) | inr d ↦ absurd (taken d.0) ]
      ] in
      rw none_named at run

module _ {s : Shm} {base count : ℕ} (r : IsReady s base count) (a : Faa)
    (own : a.node_count ≡ count) where
  -- If no node is active and the ticket counter of lock `l` is below 2^32 - 1, then after node `n` requests
  -- `l` a scan of any other lock `m` that has no owner grants `m` to `n`, which has not asked for it;
  -- while `n` owns `m`, `check_grant` names no node for `m`.
  pub stray_grant :
      (l m n : ℕ)
      → l < max_lock_count
      → m < max_lock_count
      → l ≢ m
      → n < count
      → ((k : ℕ) → k < count → node_word s base k active ≡ 0)
      → entry_word s base l next_ticket < 2 ^ 32 - 1
      → entry_word s base m owner_node ≡ invalid_node_id
      → let t = requested s base l n in
        (acquire_lock a n l region base s ≡ some (success, t))
        × (check_grant a m region base count t ≡ some (n, t))
        × (grant_lock a n m region base t ≡ some (success, granted t base m n))
        × (check_grant a m region base count (granted t base m n)
            ≡ some (invalid_node_id, granted t base m n))
  stray_grant l m n hl hm other hn quiet low free =
      let t = requested s base l n in
      let r₁ = requested-IsReady r a own l n in
      let r₂ =
        put-IsReady (put-IsReady r₁ (entry_at base m owner_node) n) (entry_at base m now_serving)
          (node_word t base n ticket) in
      (
        acquire_lock-eq r l n hl hn a own,
        lone-check_grant r₁ a own m n hm hn (λ k hk ne. ground (arith, quiet k hk)) (ground arith)
            (ground arith) (ground arith),
        grant_lock-eq r₁ m n hm hn a own,
        owned-check_grant r₂ a own m hm (ground (arith, r.few)),
      )

  -- If no node is active, the lock has no owner and two tickets are left, then in `overtaking` the
  -- two nodes both find that they have been granted the lock.
  pub overtaking-both :
      (l i j : ℕ)
      → l < max_lock_count
      → i < count
      → j < count
      → i ≢ j
      → ((k : ℕ) → k < count → node_word s base k active ≡ 0)
      → entry_word s base l next_ticket + 2 < 2 ^ 32
      → entry_word s base l owner_node ≡ invalid_node_id
      → (t : Shm) × (overtaking a base count l i j s ≡ some ((true, true), t))
  unfolding overtaking
  overtaking-both l i j hl hi hj ne quiet low free =
      let x = entry_word s base l next_ticket in
      let r₁ = put-IsReady r (entry_at base l next_ticket) (u32 (x + 1)) in
      let s₁ = taken s base l in
      let s₂ = requested s₁ base l j in
      let r₂ = requested-IsReady r₁ a own l j in
      let s₃ = granted s₂ base l j in
      let r₃ =
        put-IsReady (put-IsReady r₂ (entry_at base l owner_node) j) (entry_at base l now_serving)
          (node_word s₂ base j ticket) in
      let s₄ = published s₃ base i x in
      let r₄ = put-IsReady (put-IsReady r₃ (node_at base i ticket) x) (node_at base i active) 1 in
      let named =
        lone-check_grant r₂ a own l j hl hj (λ k hk other. ground (arith, quiet k hk))
          (ground arith) (ground arith) (ground arith) in
      let granted_i : (leb (node_word s₄ base i ticket) (entry_word s₄ base l now_serving)
            && not (node_word s₄ base i active == 0))
          ≡ true =
        ground arith in
      let granted_j : (leb (node_word s₄ base j ticket) (entry_word s₄ base l now_serving)
            && not (node_word s₄ base j active == 0))
          ≡ true =
        ground arith in
      (
        s₄,
        ground (
          arith,
          take_ticket-eq r l i hl hi a own,
          acquire_lock-eq r₁ l j hl hj a own,
          named,
          grant_lock-eq r₂ l j hl hj a own,
          publish_ticket-eq r₃ l i hl hi a own x,
          is_granted-eq r₄ l i hl hi a own,
          is_granted-eq r₄ l j hl hj a own,
          granted_i,
          granted_j,
        ),
      )
