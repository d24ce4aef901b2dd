-- ===== src/Cas/Ops.antt =====
-- What `check_grant` of src/cas_global_lock.cpp answers, and that a scan of the lock manager grants.
use cxl_dis_lock.Common.{
  ℕ, zero, suc, ◌+◌, ◌≤◌, ◌<◌, ◌≡◌, ◌≢◌, arith, refl, true, false, some, ◌==◌, ◌⊎◌, inl, inr,
  ℕ_discrete, dec_lt, Bool-cases, ==_iff,
}
use cxl_dis_lock.Types.{success, slot_waiting, slot_locked, invalid_node_id, max_lock_count}
use cxl_dis_lock.Memory.{Shm, region}
use cxl_dis_lock.Memory.Access.{put}
use cxl_dis_lock.Cas.{Cas, find_locked, find_waiting, check_grant, grant_lock}
use cxl_dis_lock.Cas.Layout.{IsReady}
use cxl_dis_lock.Cas.Slots.{slot, slot_at, read_slot_state-eq, grant_lock-eq}

module _ {s : Shm} {base count : ℕ} (r : IsReady s base count) (l : ℕ)
    (hl : l < max_lock_count) where
  abbrev word : ℕ → ℕ
  word n = slot s base count l n

  -- No slot in the range holds `v`.
  abbrev pub Lacks : ℕ → ℕ → ℕ → Type 0
  Lacks v lo hi = (n : ℕ) → lo ≤ n → n < hi → word n ≢ v

  abbrev pub Shows : ℕ → Type 0
  Shows v = (n : ℕ) × (n < count) × (word n ≡ v)

  Lacks-step :
      (v nid left : ℕ)
      → word nid ≢ v
      → Lacks v (nid + 1) (nid + 1 + left)
      → Lacks v nid (nid + suc left)
  Lacks-step v nid left h rest n lo hi = elim (ℕ_discrete n nid) [
    | yes e ↦ ground (arith, h)
    | no e ↦ rest n (omega arith) (omega arith)
  ]

  find_locked-lem :
      (nid left : ℕ)
      → nid + left ≤ count
      → ((find_locked l count base nid left s ≡ some (true, s)) × Shows slot_locked)
        ⊎ ((find_locked l count base nid left s ≡ some (false, s))
            × Lacks slot_locked nid (nid + left))
  unfolding find_locked
  find_locked-lem nid zero h = inr (refl, λ n lo hi. absurd (omega arith))
  find_locked-lem nid (suc left) h = elim (Bool-cases (word nid == slot_locked)) [
    | inl e ↦ inl (
      ground (arith, read_slot_state-eq r l nid hl (omega arith)),
      (nid, omega arith, (==_iff _ _).0 e),
    )
    | inr e ↦ elim (find_locked-lem (nid + 1) left (omega arith)) [
      | inl (run, shows) ↦ inl (ground (arith, read_slot_state-eq r l nid hl (omega arith)), shows)
      | inr (run, rest) ↦ inr (
        ground (arith, read_slot_state-eq r l nid hl (omega arith)),
        Lacks-step slot_locked nid left (ground arith) rest,
      )
    ]
  ]

  find_waiting-lem :
      (nid left : ℕ)
      → nid + left ≤ count
      → ((m : ℕ) × (find_waiting l count base nid left s ≡ some (m, s))
          × (nid ≤ m)
          × (m < count)
          × (word m ≡ slot_waiting)
          × Lacks slot_waiting nid m)
        ⊎ ((find_waiting l count base nid left s ≡ some (invalid_node_id, s))
            × Lacks slot_waiting nid (nid + left))
  unfolding find_waiting
  find_waiting-lem nid zero h = inr (refl, λ n lo hi. absurd (omega arith))
  find_waiting-lem nid (suc left) h = elim (Bool-cases (word nid == slot_waiting)) [
    | inl e ↦ inl (
      nid,
      ground (arith, read_slot_state-eq r l nid hl (omega arith)),
      omega arith,
      omega arith,
      (==_iff _ _).0 e,
      λ n lo hi. absurd (omega arith),
    )
    | inr e ↦ elim (find_waiting-lem (nid + 1) left (omega arith)) [
      | inl (m, run, lo, hi, shows, rest) ↦ inl (
        m,
        ground (arith, read_slot_state-eq r l nid hl (omega arith)),
        omega arith,
        hi,
        shows,
        λ n low high. elim (ℕ_discrete n nid) [
          | yes same ↦ ground arith
          | no other ↦ rest n (omega arith) high
        ],
      )
      | inr (run, rest) ↦ inr (
        ground (arith, read_slot_state-eq r l nid hl (omega arith)),
        Lacks-step slot_waiting nid left (ground arith) rest,
      )
    ]
  ]

  -- The three outcomes of a scan of one lock.
  abbrev pub Choice : ℕ → Type 0
  Choice g =
      ((g ≡ invalid_node_id) × Shows slot_locked)
      ⊎ ((g ≡ invalid_node_id) × Lacks slot_locked 0 count × Lacks slot_waiting 0 count)
      ⊎ ((g < count) × (word g ≡ slot_waiting) × Lacks slot_locked 0 count × Lacks slot_waiting 0 g)

  -- `check_grant` changes nothing, and answers with the lowest WAITING node where no node is
  -- LOCKED; it answers INVALID_NODE_ID exactly where a node is LOCKED or none is WAITING.
  pub check_grant-Choice :
      (a : Cas) → (g : ℕ) × (check_grant a l region base count s ≡ some (g, s)) × Choice g
  unfolding check_grant
  check_grant-Choice a = elim (find_locked-lem 0 count (omega arith)) [
    | inl (run, shows) ↦ (invalid_node_id, ground (arith, r.few), inl (refl, shows))
    | inr (run, unlocked) ↦ elim (find_waiting-lem 0 count (omega arith)) [
      | inl (m, found, lo, hi, shows, rest) ↦ (
        m,
        ground (arith, r.few),
        inr (inr (hi, shows, (λ n low high. unlocked n low (omega arith)), rest)),
      )
      | inr (found, quiet) ↦ (
        invalid_node_id,
        ground (arith, r.few),
        inr (
            inl (
              refl,
              (λ n low high. unlocked n low (omega arith)),
              λ n low high. quiet n low (omega arith),
            )),
      )
    ]
  ]

  -- If a node is WAITING and none is LOCKED, `check_grant` names a WAITING node, no later than that
  -- one, and the next `grant_lock` succeeds and sets its slot to LOCKED.
  pub scan_serves :
      (a : Cas)
      → a.node_count ≡ count
      → (n : ℕ) → n < count
      → word n ≡ slot_waiting
      → Lacks slot_locked 0 count
      → (g : ℕ) × (g ≤ n)
        × (word g ≡ slot_waiting)
        × (check_grant a l region base count s ≡ some (g, s))
        × (grant_lock a g l region base s
            ≡ some (success, put s (slot_at base count l g) slot_locked))
  scan_serves a own n hn waits free =
      let (g, run, choice) = check_grant-Choice a in
      elim choice [
        | inl (e, shows) ↦ absurd (free shows.0 (omega arith) shows.1 shows.2)
        | inr rest ↦ elim rest [
          | inl (e, unlocked, quiet) ↦ absurd (quiet n (omega arith) hn waits)
          | inr (hg, w, unlocked, below) ↦ (
            g,
            elim (dec_lt n g) [
              | yes h ↦ absurd (below n (omega arith) h waits)
              | no h ↦ omega arith
            ],
            w,
            run,
            ground (arith, grant_lock-eq r l g hl hg a own),
          )
        ]
      ]
