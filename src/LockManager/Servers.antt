-- ===== src/LockManager/Servers.antt =====
-- The algorithms of src/cas_global_lock.cpp, src/faa_global_lock.cpp, src/mcs_global_lock.cpp and
-- src/qspinlock_global_lock.cpp serve the manager of src/lock_manager.cpp.
use cxl_dis_lock.Common.{
  ℕ, ◌<◌, ◌≡◌, arith, refl, Bool, true, false, if◌then◌else◌, Bool-cases, ◌==◌, ◌⊎◌, inl, inr,
  dec_lt,
}
use cxl_dis_lock.Types.{success, error_busy, invalid_node_id, slot_waiting, slot_locked}
use cxl_dis_lock.Lines.{IsReady, put-IsReady, entry_at, node_at, entry_word, node_word}
use cxl_dis_lock.Cas.{Cas, cas_algorithm}
use cxl_dis_lock.Cas.Layout as CasLayout
use cxl_dis_lock.Cas.Slots as CasSlots
use cxl_dis_lock.Cas.Ops.{check_grant-Choice}
use cxl_dis_lock.Faa.{Faa, faa_algorithm, now_serving, ticket}
use cxl_dis_lock.Faa as FaaLock
use cxl_dis_lock.Faa.Ops as FaaOps
use cxl_dis_lock.Faa.Choice.{check_grant-Smallest}
use cxl_dis_lock.Mcs.{Mcs, mcs_algorithm, owner_node, head_node, locked}
use cxl_dis_lock.Mcs.Ops as McsOps
use cxl_dis_lock.Qspinlock.{
  Qspinlock, qspinlock_algorithm, lock_word, pending_tail, grant_in_progress, held_word,
  qspin_node_to_tail,
}
use cxl_dis_lock.Qspinlock as Queued
use cxl_dis_lock.Qspinlock.Grants as Grants
use cxl_dis_lock.AnyLock.{
  AnyLock, cas, faa, mcs, qspinlock, any_algorithm, any_check_grant, any_grant_lock,
}
use cxl_dis_lock.AnyLock.Fits.{with_count}
use cxl_dis_lock.Memory.{Shm}
use cxl_dis_lock.LockManager.Scan.{IsServable}

-- The CAS lock serves the manager on any region that holds its state.
pub cas-IsServable :
    (a : Cas) (base count : ℕ)
    → a.node_count ≡ count
    → IsServable cas_algorithm a base count (λ s. CasLayout.IsReady s base count)
cas-IsServable a base count own = record {
  checks = λ s l hl r.
      let (g, run, choice) = check_grant-Choice r l hl a in
      (
        g,
        s,
        run,
        r,
        elim choice [
          | inl held ↦ inl held.0
          | inr rest ↦ elim rest [ inl quiet ↦ inl quiet.0 | inr named ↦ inr named.0 ]
        ],
      );
  grants = λ s l g hl hg r. elim (Bool-cases (CasSlots.slot s base count l g == slot_waiting)) [
    | inl waits ↦ (
      success,
      _,
      ground (arith, CasSlots.grant_lock-eq r l g hl hg a own, waits),
      CasSlots.put-IsReady r (CasSlots.slot_at base count l g) slot_locked,
    )
    | inr other ↦
        (error_busy, s, ground (arith, CasSlots.grant_lock-eq r l g hl hg a own, other), r)
  ];
}

-- So does the FAA lock.
pub faa-IsServable :
    (a : Faa) (base count : ℕ)
    → a.node_count ≡ count
    → IsServable faa_algorithm a base count (λ s. IsReady s base count)
faa-IsServable a base count own = record {
  checks = λ s l hl r.
      let (g, run, choice) = check_grant-Smallest r a l hl in
      (
        g,
        s,
        run,
        r,
        elim choice [
          | inl owned ↦ inl owned.0
          | inr rest ↦ elim rest [ inl quiet ↦ inl quiet.0 | inr best ↦ inr best.1 ]
        ],
      );
  grants = λ s l g hl hg r. (
    success,
    FaaOps.granted s base l g,
    FaaOps.grant_lock-eq r l g hl hg a own,
    put-IsReady (put-IsReady r (entry_at base l FaaLock.owner_node) g) (entry_at base l now_serving)
        (node_word s base g ticket),
  );
}

node_or_nobody :
    (b : Bool) (n count : ℕ)
    → n < count
    → ((if b then n else invalid_node_id) ≡ invalid_node_id)
      ⊎ ((if b then n else invalid_node_id) < count)
node_or_nobody true n count h = inr h
node_or_nobody false n count h = inl refl

-- So does the MCS lock.
pub mcs-IsServable :
    (rounds : ℕ) (a : Mcs) (base count : ℕ)
    → a.node_count ≡ count
    → IsServable (mcs_algorithm rounds) a base count (λ s. IsReady s base count)
mcs-IsServable rounds a base count own = record {
  checks = λ s l hl r. (
    McsOps.named s base count l (entry_word s base l head_node),
    s,
    McsOps.check_grant-eq r l hl a,
    r,
    elim (dec_lt (entry_word s base l head_node) count) [
      | yes h ↦ node_or_nobody _ (entry_word s base l head_node) count h
      | no h ↦ inl (ground (arith, h))
    ],
  );
  grants = λ s l g hl hg r. (
    success,
    McsOps.granted s base l g,
    McsOps.grant_lock-eq r l g hl hg a own,
    put-IsReady (put-IsReady r (node_at base g locked) 2) (entry_at base l owner_node) g,
  );
}

-- So does the qspinlock.
pub qspinlock-IsServable :
    (rounds : ℕ) (a : Qspinlock) (base count : ℕ)
    → a.node_count ≡ count
    → IsServable (qspinlock_algorithm rounds) a base count (λ s. IsReady s base count)
qspinlock-IsServable rounds a base count own = record {
  checks = λ s l hl r.
      let (g, t, run, ready, named) = Grants.check_grant-Named r l hl a in
      (g, t, run, ready, elim named [ inl nobody ↦ inl nobody.0 | inr node ↦ inr node.0 ]);
  grants = λ s l g hl hg r. (
    success,
    Grants.granted s base l g,
    Grants.grant_lock-eq r l hl a g hg own,
    put-IsReady
        (put-IsReady
          (put-IsReady
            (put-IsReady (put-IsReady r (node_at base g locked) 2)
              (entry_at base l Queued.owner_node) g)
            (entry_at base l lock_word) (held_word (qspin_node_to_tail g)))
          (entry_at base l pending_tail) (node_word s base g Queued.next_node))
        (entry_at base l grant_in_progress) 0,
  );
}

-- The region holds the state of an object that is set up for `n` nodes.
abbrev pub Ready : AnyLock → ℕ → Shm → Type 0
Ready (cas a) n s = CasLayout.IsReady s 0 n
Ready (faa a) n s = IsReady s 0 n
Ready (mcs a) n s = IsReady s 0 n
Ready (qspinlock a) n s = IsReady s 0 n

-- Each of the four serves the manager through the virtual calls.
pub any-IsServable :
    (rounds n : ℕ) (a : AnyLock)
    → IsServable (any_algorithm rounds) (with_count n a) 0 n (Ready a n)
unfolding any_check_grant any_grant_lock
any-IsServable rounds n (cas a) =
    let serves = cas-IsServable (record { node_count = n }) 0 n refl in
    record { checks = serves.checks; grants = serves.grants }
any-IsServable rounds n (faa a) =
    let serves = faa-IsServable (record { node_count = n }) 0 n refl in
    record { checks = serves.checks; grants = serves.grants }
any-IsServable rounds n (mcs a) =
    let serves = mcs-IsServable rounds (record { node_count = n }) 0 n refl in
    record { checks = serves.checks; grants = serves.grants }
any-IsServable rounds n (qspinlock a) =
    let serves = qspinlock-IsServable rounds (record { node_count = n }) 0 n refl in
    record { checks = serves.checks; grants = serves.grants }
