-- ===== src/DistributedLock/Starting.antt =====
-- The calls of src/two_tier_lock.cpp and src/lock_manager.cpp that set up an algorithm's object, on an open
-- region.
use cxl_dis_lock.Common.{
  ℕ, ◌≡◌, ◌⊎◌, inl, inr, arith, refl, ap, ◌∙◌, true, false, not, ◌||◌, ◌≤◌, ltb, ◌==◌,
  if◌then◌else◌, Option, none, some, Bool-cases,
}
use cxl_dis_lock.Types.{
  LockResult, is_success, success, error_invalid_param, invalid_node_id, max_lock_count,
  max_node_count,
}
use cxl_dis_lock.Memory.{M, pure, ◌>>=◌, Shm, IsOpen, region}
use cxl_dis_lock.Algorithm.{GlobalLockAlgorithm}
use cxl_dis_lock.LocalLock.{LocalLockArray}
use cxl_dis_lock.TwoTier.{TwoTierLock}
use cxl_dis_lock.TwoTier.Setup as TierSetup
use cxl_dis_lock.LockManager.{LockManager, new_manager, start}
use cxl_dis_lock.LockManager as Manager
use cxl_dis_lock.DistributedLock.Stages.{IsStartable}
use cxl_dis_lock.DistributedLock.Parts.{IsTier, IsEquipped}

-- The step after a run of the algorithm's `initialize`, for each of its results.
module _ {A B : Type 0} (m : M (A × LockResult)) (bad good : A → LockResult → B × LockResult)
    (s t : Shm) (b : A) (rc : LockResult) (run : m s ≡ some ((b, rc), t)) where
  abbrev chosen : M (B × LockResult)
  chosen = m >>= λ o. if not (is_success o.1) then pure (bad o.0 o.1) else pure (good o.0 o.1)

  chosen-eq : chosen s ≡ (if not (is_success rc) then pure (bad b rc) else pure (good b rc)) t
  chosen-eq =
      ap
        (λ o. elim o [
          | none ↦ none
          | some (x, u) ↦
              (if not (is_success x.1) then pure (bad x.0 x.1) else pure (good x.0 x.1)) u
        ])
        run

  chosen-bad : is_success rc ≡ false → chosen s ≡ some (bad b rc, t)
  chosen-bad e = chosen-eq ∙ rw e refl

  chosen-good : is_success rc ≡ true → chosen s ≡ some (good b rc, t)
  chosen-good e = chosen-eq ∙ rw e refl

module _ {A : Type 0} {Made : A → ℕ → Type 0} (alg : GlobalLockAlgorithm A) (a : A) (size : ℕ)
    (startable : IsStartable Made alg a size) where
  -- The call returns and keeps the region open and its size, and it succeeds with a lock that is ready or
  -- fails.
  abbrev pub TierEnds :
      ℕ → LocalLockArray → ℕ → ℕ → Shm → M (Option (TwoTierLock A) × LockResult) → Type 0
  TierEnds node_id locks max_locks max_nodes s m =
      (lock : Option (TwoTierLock A)) × (rc : LockResult) × (t : Shm) × (m s ≡ some ((lock, rc), t))
      × IsOpen t
      × (t.size ≡ size)
      × (((rc ≡ success) × IsTier Made node_id max_locks max_nodes locks (some lock))
          ⊎ (is_success rc ≡ false))

  set_up-IsTier :
      (node_id : ℕ) (locks : LocalLockArray) (max_locks max_nodes : ℕ) (s : Shm)
      → max_locks ≤ max_lock_count
      → IsOpen s
      → s.size ≡ size
      → TierEnds node_id locks max_locks max_nodes s (
          TierSetup.set_up alg node_id locks a 0 max_locks
            (if ltb 0 max_nodes then max_nodes else max_locks))
  unfolding TierSetup.set_up
  set_up-IsTier node_id locks max_locks max_nodes s few opened same =
      let count = if ltb 0 max_nodes then max_nodes else max_locks in
      let (b, rc, t, run, opened', same', made) = startable.starts s count opened same in
      let tier : TwoTierLock A = record {
        node_id = node_id;
        local_locks = locks;
        shm = region;
        algorithm = b;
        state_offset = 0;
        max_locks = max_locks;
        node_count = count;
        initialized = true;
      } in
      let start = alg.initialize a region 0 count in
      let failed : A → LockResult → Option (TwoTierLock A) × LockResult = λ x c. (none, c) in
      let done : A → LockResult → Option (TwoTierLock A) × LockResult =
        λ x c. (some (record tier { algorithm = x }), success) in
      elim (Bool-cases (is_success rc)) [
        | inl ok ↦
            let ready : IsTier Made node_id max_locks max_nodes locks (some (some tier)) = record {
              tier = tier;
              at_tier = refl;
              ready = refl;
              over = refl;
              node = refl;
              count = refl;
              few = few;
              nodes = refl;
              made = made ok;
              at_region = refl;
              at_base = refl;
            } in
            (
              some tier,
              success,
              t,
              chosen-good start failed done s t b rc run ok,
              opened',
              same',
              inl (refl, ready),
            )
        | inr bad ↦
            (none, rc, t, chosen-bad start failed done s t b rc run bad, opened', same', inr bad)
      ]

  pub initialize-IsTier :
      (node_id : ℕ) (locks : LocalLockArray) (max_locks max_nodes : ℕ) (s : Shm)
      → IsOpen s
      → s.size ≡ size
      → TierEnds node_id locks max_locks max_nodes s
          (TierSetup.initialize alg none node_id (some locks) region (some a) 0 max_locks max_nodes)
  unfolding TierSetup.initialize
  initialize-IsTier node_id locks max_locks max_nodes s opened same =
      elim (Bool-cases (node_id == invalid_node_id)) [
        | inl e ↦ (none, error_invalid_param, s, rw e refl, opened, same, inr refl)
        | inr e ↦ elim (Bool-cases (max_locks == 0 || ltb max_lock_count max_locks)) [
          | inl many ↦ (none, error_invalid_param, s, rw (e, many) refl, opened, same, inr refl)
          | inr few ↦
              let (lock, rc, t, run, still, kept, ends) =
                set_up-IsTier node_id locks max_locks max_nodes s (ground (arith, few)) opened
                  same in
              (lock, rc, t, rw (e, few) run, still, kept, ends)
        ]
      ]

  -- The same for the manager, which is ready to start.
  abbrev pub ManagerEnds : ℕ → ℕ → Shm → M (LockManager A × LockResult) → Type 0
  ManagerEnds max_locks max_nodes s m =
      (manager : LockManager A) × (rc : LockResult) × (t : Shm) × (m s ≡ some ((manager, rc), t))
      × IsOpen t
      × (t.size ≡ size)
      × (((rc ≡ success)
            × (manager.initialized ≡ true)
            × (manager.is_manager ≡ true)
            × (manager.running ≡ false)
            × IsEquipped Made max_locks max_nodes manager)
          ⊎ (is_success rc ≡ false))

  set_up-IsEquipped :
      (max_locks max_nodes interval : ℕ) (s : Shm)
      → max_locks ≤ max_lock_count
      → IsOpen s
      → s.size ≡ size
      → ManagerEnds max_locks max_nodes s
          (Manager.set_up alg new_manager region a max_locks max_nodes interval)
  unfolding Manager.set_up
  set_up-IsEquipped max_locks max_nodes interval s few opened same =
      let (b, rc, t, run, opened', same', made) = startable.starts s max_nodes opened same in
      let fresh : LockManager A = record new_manager {
        shm = region;
        max_locks = max_locks;
        node_count = max_nodes;
        scan_interval_us = interval;
      } in
      let start = alg.initialize a region 0 max_nodes in
      let failed : A → LockResult → LockManager A × LockResult =
        λ x c. (record fresh { algorithm = some x }, c) in
      let done : A → LockResult → LockManager A × LockResult = λ x c.
        (record fresh { algorithm = some x; initialized = true; is_manager = true }, success) in
      elim (Bool-cases (is_success rc)) [
        | inl ok ↦
            let equipped : IsEquipped Made max_locks max_nodes (done b rc).0 = record {
              object = b;
              at_object = refl;
              made = made ok;
              at_region = refl;
              at_base = refl;
              locks = refl;
              few = few;
              nodes = refl;
            } in
            (
              (done b rc).0,
              success,
              t,
              chosen-good start failed done s t b rc run ok,
              opened',
              same',
              inl (refl, refl, refl, refl, equipped),
            )
        | inr bad ↦ (
          (failed b rc).0,
          rc,
          t,
          chosen-bad start failed done s t b rc run bad,
          opened',
          same',
          inr bad,
        )
      ]

  pub initialize_manager-run :
      (max_locks max_nodes interval : ℕ) (s : Shm)
      → IsOpen s
      → s.size ≡ size
      → ManagerEnds max_locks max_nodes s
          (Manager.initialize alg new_manager region (some a) max_locks max_nodes interval)
  unfolding Manager.initialize
  initialize_manager-run max_locks max_nodes interval s opened same =
      elim (Bool-cases (max_locks == 0 || ltb max_lock_count max_locks)) [
        | inl many ↦ (new_manager, error_invalid_param, s, rw many refl, opened, same, inr refl)
        | inr few ↦ elim (Bool-cases (max_nodes == 0 || ltb max_node_count max_nodes)) [
          | inl many ↦
              (new_manager, error_invalid_param, s, rw (few, many) refl, opened, same, inr refl)
          | inr fits ↦
              let (manager, rc, t, run, still, kept, ends) =
                set_up-IsEquipped max_locks max_nodes interval s (ground (arith, few)) opened
                  same in
              (manager, rc, t, rw (few, fits) run, still, kept, ends)
        ]
      ]

-- A manager that `initialize` has made starts.
pub start-run :
    {A : Type 0} {Made : A → ℕ → Type 0} {max_locks max_nodes : ℕ} (manager : LockManager A)
    → manager.initialized ≡ true
    → manager.is_manager ≡ true
    → manager.running ≡ false
    → IsEquipped Made max_locks max_nodes manager
    → ((start manager).1 ≡ success)
      × ((start manager).0.running ≡ true)
      × IsEquipped Made max_locks max_nodes (start manager).0
unfolding start
start-run manager ready role idle set = (
  ground (arith, ready, role, idle),
  ground (arith, ready, role, idle),
  record {
    object = set.object;
    at_object = ground (arith, ready, role, idle, set.at_object);
    made = set.made;
    at_region = ground (arith, ready, role, idle, set.at_region);
    at_base = ground (arith, ready, role, idle, set.at_base);
    locks = ground (arith, ready, role, idle, set.locks);
    few = set.few;
    nodes = ground (arith, ready, role, idle, set.nodes);
  },
)
