-- ===== src/Faa/Choice.antt =====
-- Which node `check_grant` of src/faa_global_lock.cpp names.
use cxl_dis_lock.Common.{
  ℕ, zero, suc, ◌+◌, ◌-◌, ◌*◌, ◌^◌, ◌≤◌, ◌<◌, ◌≡◌, ◌≢◌, arith, refl, some, ◌==◌, ltb, ◌⊎◌, inl, inr,
  ℕ_discrete, Bool-cases, ==_iff,
}
use cxl_dis_lock.Types.{invalid_node_id, max_lock_count}
use cxl_dis_lock.Memory.{Shm, region, at}
use cxl_dis_lock.Memory.Access.{load-field}
use cxl_dis_lock.Faa.{Faa, owner_node, ticket, active, get_entry, get_ticket, find_min, check_grant}
use cxl_dis_lock.Lines.{IsReady, entry_word, node_word, address}
use cxl_dis_lock.Faa.Layout.{entry_ptr, ticket_ptr}

module _ {s : Shm} {base count : ℕ} (r : IsReady s base count) where
  abbrev pub ticket_of : ℕ → ℕ
  ticket_of n = node_word s base n ticket

  abbrev pub IsActive : ℕ → Type 0
  IsActive n = node_word s base n active ≢ 0

  -- No active node of the range has a ticket below `t`.
  abbrev pub AtLeast : ℕ → ℕ → ℕ → Type 0
  AtLeast t lo hi = (n : ℕ) → lo ≤ n → n < hi → IsActive n → t ≤ ticket_of n

  AtLeast-step :
      (t nid left : ℕ)
      → (IsActive nid → t ≤ ticket_of nid)
      → AtLeast t (nid + 1) (nid + 1 + left)
      → AtLeast t nid (nid + suc left)
  AtLeast-step t nid left h rest n lo hi act = elim (ℕ_discrete n nid) [
    | yes e ↦ rw e (h (ground arith))
    | no e ↦ rest n (omega arith) (omega arith) act
  ]

  -- The outcome of the loop that starts with the ticket `t` of node `m`.
  abbrev Best : ℕ → ℕ → ℕ → ℕ → ℕ → Type 0
  Best lo hi t m g =
      ((g ≡ m) × AtLeast t lo hi)
      ⊎ ((lo ≤ g) × (g < hi) × IsActive g × (ticket_of g < t) × AtLeast (ticket_of g) lo hi)

  read_active :
      (n : ℕ)
      → n < count
      → get_ticket n count base s ≡ some (at (address r + (base + 65536 + n * 64)), s)
  unfolding get_ticket
  read_active n h = rw (ticket_ptr r n h)

  find_min-Best :
      (nid left t m : ℕ)
      → nid + left ≤ count
      → (g : ℕ) × (find_min count base nid left t m s ≡ some (g, s)) × Best nid (nid + left) t m g
  unfolding find_min
  find_min-Best nid zero t m h = (m, refl, inl (refl, λ n lo hi act. absurd (omega arith)))
  find_min-Best nid (suc left) t m h =
      let ptr = read_active nid (omega arith) in
      let flag = load-field r.is_open (base + 65536 + nid * 64) active (omega (arith, r.room)) in
      let number = load-field r.is_open (base + 65536 + nid * 64) ticket (omega (arith, r.room)) in
      elim (Bool-cases (node_word s base nid active == 0)) [
        | inl off ↦
            let (g, run, best) = find_min-Best (nid + 1) left t m (omega arith) in
            (
              g,
              ground (arith, ptr, flag),
              elim best [
                | inl b ↦
                    inl
                      (b.0, AtLeast-step t nid left (λ act. absurd (act ((==_iff _ _).0 off))) b.1)
                | inr b ↦ inr (
                  omega arith,
                  omega arith,
                  b.2,
                  b.3,
                  AtLeast-step (ticket_of g) nid left (λ act. absurd (act ((==_iff _ _).0 off)))
                      b.4,
                )
              ],
            )
        | inr on ↦ elim (Bool-cases (ltb (ticket_of nid) t)) [
          | inl less ↦
              let (g, run, best) = find_min-Best (nid + 1) left (ticket_of nid) nid (omega arith) in
              (
                g,
                ground (arith, ptr, flag, number),
                elim best [
                  | inl b ↦ inr (
                    ground arith,
                    ground arith,
                    ground arith,
                    ground arith,
                    rw b.0 (AtLeast-step (ticket_of nid) nid left (λ act. omega arith) b.1),
                  )
                  | inr b ↦ inr (
                    omega arith,
                    omega arith,
                    b.2,
                    ground arith,
                    AtLeast-step (ticket_of g) nid left (λ act. omega arith) b.4,
                  )
                ],
              )
          | inr more ↦
              let (g, run, best) = find_min-Best (nid + 1) left t m (omega arith) in
              (
                g,
                ground (arith, ptr, flag, number),
                elim best [
                  | inl b ↦ inl (b.0, AtLeast-step t nid left (λ act. ground arith) b.1)
                  | inr b ↦ inr (
                    omega arith,
                    omega arith,
                    b.2,
                    b.3,
                    AtLeast-step (ticket_of g) nid left (λ act. ground arith) b.4,
                  )
                ],
              )
        ]
      ]

  -- The outcomes of `check_grant`. The smallest ticket is compared with the largest uint32_t, which
  -- is therefore never served.
  abbrev pub Smallest : ℕ → ℕ → Type 0
  Smallest l g =
      ((g ≡ invalid_node_id) × (entry_word s base l owner_node ≢ invalid_node_id))
      ⊎ ((g ≡ invalid_node_id)
          × (entry_word s base l owner_node ≡ invalid_node_id)
          × AtLeast (2 ^ 32 - 1) 0 count)
      ⊎ ((entry_word s base l owner_node ≡ invalid_node_id)
          × (g < count)
          × IsActive g
          × (ticket_of g < 2 ^ 32 - 1)
          × AtLeast (ticket_of g) 0 count)

  -- `check_grant` changes nothing; it answers INVALID_NODE_ID where the lock has an owner or no
  -- active node has a ticket below the largest uint32_t, and else with an active node whose ticket
  -- is smallest among the active nodes, whichever lock those wait for.
  pub check_grant-Smallest :
      (a : Faa) (l : ℕ)
      → l < max_lock_count
      → (g : ℕ) × (check_grant a l region base count s ≡ some (g, s)) × Smallest l g
  unfolding check_grant get_entry
  check_grant-Smallest a l hl =
      let owner = load-field r.is_open (base + l * 64) owner_node (omega (arith, r.room)) in
      elim (Bool-cases (entry_word s base l owner_node == invalid_node_id)) [
        | inl free ↦
            let (g, run, best) = find_min-Best 0 count (2 ^ 32 - 1) invalid_node_id (omega arith) in
            (
              g,
              ground (arith, r.few, entry_ptr r l hl, owner),
              elim best [
                | inl b ↦ inr (inl (b.0, (==_iff _ _).0 free, λ n lo hi. b.1 n lo (omega arith)))
                | inr b ↦ inr (
                    inr (
                      (==_iff _ _).0 free,
                      omega arith,
                      b.2,
                      b.3,
                      λ n lo hi. b.4 n lo (omega arith),
                    ))
              ],
            )
        | inr held ↦ (
          invalid_node_id,
          ground (arith, r.few, entry_ptr r l hl, owner),
          inl (refl, ground arith),
        )
      ]
