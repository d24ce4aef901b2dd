-- ===== src/DistributedLock/Uncontended.antt =====
-- `acquire_lock` of src/distributed_lock.cpp with the CAS lock, where no other node wants the lock and the
-- manager scans: the call through all layers, from the local mutex to the slot.
use cxl_dis_lock.Common.{
  ℕ, suc, ◌^◌, ◌*◌, ◌≤◌, ◌<◌, ◌≡◌, ◌≢◌, arith, refl, ap, ◌∙◌, Bool, true, false, some,
}
use cxl_dis_lock.Types.{success, slot_idle, slot_waiting, slot_locked, max_lock_count}
use cxl_dis_lock.Memory.{Shm, region}
use cxl_dis_lock.Memory.Access.{put}
use cxl_dis_lock.Region.{Os, Region}
use cxl_dis_lock.LocalLock.{Mutexes, lacks}
use cxl_dis_lock.LocalLock as Local
use cxl_dis_lock.LocalLock.Setup.{MutexSetup}
use cxl_dis_lock.Pool.{Pool}
use cxl_dis_lock.TwoTier.{TwoTierLock}
use cxl_dis_lock.TwoTier as Tier
use cxl_dis_lock.TwoTier.Granted.{acquire-eq_granted}
use cxl_dis_lock.Cas.{Cas}
use cxl_dis_lock.Cas.Layout.{IsReady}
use cxl_dis_lock.Cas.Slots as Slots
use cxl_dis_lock.Cas.Slots.{slot, slot_at, slot-put}
use cxl_dis_lock.AnyLock.{AnyLock, cas, any_algorithm, any_acquire_lock, any_is_granted}
use cxl_dis_lock.AnyLock.Fits.{with_count}
use cxl_dis_lock.LockManager.{LockManager, run_single_scan}
use cxl_dis_lock.DistributedLock.{Config, DistributedLockSystem, Platform}
use cxl_dis_lock.DistributedLock.Calls.{acquire_lock}
use cxl_dis_lock.DistributedLock.Guarded.{guarded-eq}
use cxl_dis_lock.DistributedLock.Parts.{IsEquipped}
use cxl_dis_lock.DistributedLock.Scanning.{object, scan-Grants}
use cxl_dis_lock.DistributedLock.Undo.{IsRunning}
use cxl_dis_lock.DistributedLock.Startable.{SetUp, with_algorithms}

module _ {W : Type 0} (os : Os W) (setup : MutexSetup W) (pthread : Mutexes W)
    (others : ℕ → Shm → Shm) (elapsed_ms : ℕ → ℕ) (rounds : ℕ) (config : Config)
    (room : 4096 * 64 ≤ config.shm_size) (small : config.shm_size < 2 ^ 64) (as_lock_manager : Bool)
    (c : Cas) (manager : LockManager AnyLock)
    (set : IsEquipped (SetUp (cas c)) config.max_locks config.max_nodes manager)
    (scans : (s t : Shm) (after : LockManager AnyLock)
      → run_single_scan (any_algorithm rounds) manager s ≡ some (after, t)
      → others 0 s ≡ t) where
  abbrev p : Platform W AnyLock
  p = with_algorithms os setup pthread others elapsed_ms rounds

  abbrev cas_object : Cas
  cas_object = object rounds c config.max_nodes manager config.max_locks set

  -- The request and the poll, on the memory.
  request-Granted :
      (node l : ℕ)
      → node < config.max_nodes
      → l < config.max_locks
      → (s : Shm) → IsReady s 0 config.max_nodes
      → ((n : ℕ) → n < config.max_nodes → n ≢ node → slot s 0 config.max_nodes l n ≡ slot_idle)
      → (s₁ : Shm) × (t : Shm) × (any_acquire_lock rounds (cas cas_object) node l region 0 s
          ≡ some (success, s₁))
        × (any_is_granted (cas cas_object) l node config.max_nodes 0 (others 0 s₁) ≡ some (true, t))
        × IsReady t 0 config.max_nodes
        × (t.size ≡ s.size)
        × (slot t 0 config.max_nodes l node ≡ slot_locked)
  unfolding any_acquire_lock any_is_granted
  request-Granted node l known hl s r idle =
      let count = config.max_nodes in
      let few : l < max_lock_count = omega (arith, hl, set.few) in
      let s₁ = put s (slot_at 0 count l node) slot_waiting in
      let r₁ = Slots.put-IsReady r (slot_at 0 count l node) slot_waiting in
      let waits : slot s₁ 0 count l node ≡ slot_waiting =
        ground (arith, slot-put s 0 count l node l node slot_waiting known known) in
      let (after, t, ran, ready, same, locked) =
        scan-Grants rounds c count manager config.max_locks set node l known hl s₁ r₁ waits
          (λ n h ne.
            ground (arith, slot-put s 0 count l node l n slot_waiting known h, ne, idle n h ne)) in
      let polled : others 0 s₁ ≡ t = scans s₁ t after ran in
      (
        s₁,
        t,
        Slots.acquire_lock-eq r l node few known _ refl,
        rw polled (Slots.is_granted-eq ready l node few known _ refl ∙ ground (arith, locked)),
        ready,
        same,
        locked,
      )

  -- The call on the two-tier lock.
  tier-Granted :
      (sys : DistributedLockSystem AnyLock)
      (running : IsRunning (SetUp (cas c)) config as_lock_manager sys) (w v : W)
      (l timeout_ms k : ℕ)
      → config.node_id < config.max_nodes
      → l < config.max_locks
      → pthread.mutex_lock l w ≡ some (0, v)
      → (s₁ t : Shm)
      → any_acquire_lock rounds (cas cas_object) config.node_id l region 0 running.pool.region.shm
        ≡ some (success, s₁)
      → any_is_granted (cas cas_object) l config.node_id config.max_nodes 0 (others 0 s₁)
        ≡ some (true, t)
      → Tier.acquire pthread p.alg p.around
          (suc k)
          running.tier.tier
          l
          timeout_ms
          (w, running.pool.region.shm)
        ≡ some (success, (v, t))
  unfolding Local.acquire
  tier-Granted sys running w v l timeout_ms k known hl free s₁ t asked granted =
      let lock = running.tier.tier in
      let s = running.pool.region.shm in
      let nodes : lock.node_count ≡ config.max_nodes = running.tier.nodes ∙ ground (arith, known) in
      let object_eq : lock.algorithm ≡ cas cas_object =
        running.tier.made.0 ∙ ap (λ n. with_count n (cas c)) nodes in
      let asked' : any_acquire_lock rounds lock.algorithm lock.node_id l lock.shm lock.state_offset
            s
          ≡ some (success, s₁) =
        rw (object_eq, running.tier.node, running.tier.at_region, running.tier.at_base) asked in
      let granted' : any_is_granted lock.algorithm l lock.node_id lock.node_count lock.state_offset
            (others 0 s₁)
          ≡ some (true, t) =
        rw (object_eq, running.tier.node, nodes, running.tier.at_base) granted in
      let usable : lacks lock.local_locks l ≡ false =
        ap (λ x. lacks x l) running.tier.over
        ∙ ground (arith, running.locks.ready, running.locks.count, hl) in
      acquire-eq_granted pthread p.alg p.around lock l k timeout_ms w v s s₁ t running.tier.ready
        (ground (arith, running.tier.count, hl)) (ground (arith, usable, free)) asked' granted'

  -- On a system that runs with the CAS lock in a region of 262144 to 2^64 - 1 bytes, on a node
  -- whose id is below the number of nodes: if no other node has a slot of a lock of the system
  -- that is not IDLE, the local mutex can be locked, and what happens before the first poll is a
  -- scan by a manager of such a system, then `acquire_lock` of the lock succeeds at its first
  -- poll, whatever the timeout; the system still runs, and the slot of the node is LOCKED.
  pub acquire_lock-Succeeds :
      (sys : DistributedLockSystem AnyLock)
      (running : IsRunning (SetUp (cas c)) config as_lock_manager sys) (w v : W)
      (l timeout_ms k : ℕ)
      → config.node_id < config.max_nodes
      → l < config.max_locks
      → pthread.mutex_lock l w ≡ some (0, v)
      → ((n : ℕ)
          → n < config.max_nodes
          → n ≢ config.node_id
          → slot running.pool.region.shm 0 config.max_nodes l n ≡ slot_idle)
      → (sys' : DistributedLockSystem AnyLock) × (w' : W) × (acquire_lock p
            (suc k)
            l
            timeout_ms
            (sys, w)
          ≡ some (success, (sys', w')))
        × ((still : IsRunning (SetUp (cas c)) config as_lock_manager sys') × (slot
                still.pool.region.shm 0 config.max_nodes l config.node_id
              ≡ slot_locked))
  unfolding acquire_lock
  acquire_lock-Succeeds sys running w v l timeout_ms k known hl free idle =
      let s = running.pool.region.shm in
      let r : IsReady s 0 config.max_nodes = record {
        is_open = running.pool.is_open;
        few = (set.made.1, set.made.2);
        room = omega (arith, running.pool.size_eq, room, set.made.2);
        small = omega (arith, running.pool.size_eq, small);
      } in
      let (s₁, t, asked, granted, ready, same, locked) =
        request-Granted config.node_id l known hl s r idle in
      let run = tier-Granted sys running w v l timeout_ms k known hl free s₁ t asked granted in
      let region' : Region = record running.pool.region { shm = t } in
      let pool' : Pool = record running.pool.pool { shm = some region' } in
      (
        record sys { pool = some pool' },
        v,
        guarded-eq p sys running.tier.tier running.ready running.tier.at_tier
              (λ tier. Tier.acquire pthread p.alg p.around (suc k) tier l timeout_ms) w
            ∙ rw (running.pool.at_pool, running.pool.at_region, run) refl,
        (
          record {
            ready = running.ready;
            pool = record {
              pool = pool';
              at_pool = refl;
              opened = running.pool.opened;
              region = region';
              at_region = refl;
              is_open = ready.is_open;
              size_eq = same ∙ running.pool.size_eq;
            };
            locks = running.locks;
            tier = running.tier;
            manager = running.manager;
          },
          locked,
        ),
      )
