-- ===== src/Examples/TwoTier.antt =====
-- src/two_tier_lock.cpp at concrete inputs: mutexes that always answer, the CAS lock on a region of one
-- megabyte, and other nodes that do nothing.
use cxl_dis_lock.Common.{ℕ, ◌≡◌, refl, arith, some, Bool, true, false, ◌==◌, if◌then◌else◌}
use cxl_dis_lock.Types.{LockResult, slot_idle, slot_waiting, success}
use cxl_dis_lock.Memory.{Shm, region}
use cxl_dis_lock.Cas.{Cas, cas_algorithm, is_granted}
use cxl_dis_lock.Memory.Access.{put}
use cxl_dis_lock.Cas.Layout.{IsReady}
use cxl_dis_lock.Cas.Slots.{slot_at, put-IsReady, is_granted-eq, acquire_lock-eq, release_lock-eq}
use cxl_dis_lock.LocalLock.{Mutexes, LocalLockArray, is_held_by_this_thread}
use cxl_dis_lock.LocalLock as Local
use cxl_dis_lock.LocalLock.Ownership.{IsChecking, Blind, acquire-is_held_by_this_thread}
use cxl_dis_lock.Types.{is_success}
use cxl_dis_lock.TwoTier.{TwoTierLock, Surroundings, acquire, release, poll_for_grant}
use cxl_dis_lock.LocalLock.Ownership.{IsOwned}
use cxl_dis_lock.TwoTier.Balance.{acquire-Balanced, release-Balanced}
use cxl_dis_lock.TwoTier.Polling.{Ends, poll_for_grant-Ends}
use cxl_dis_lock.Examples.Base.{blank, blank-IsOpen}

abbrev turn : (ℕ → Bool) → ℕ → Bool → ℕ → Bool
turn w i b j = if i == j then b else w j

-- The mutexes that this thread has locked; no other thread uses them.
abbrev pub mutexes : Mutexes (ℕ → Bool)
mutexes = record {
  mutex_lock = λ i w. some (if w i then (35, w) else (0, turn w i true));
  mutex_unlock = λ i w. if w i then (0, turn w i false) else (1, w);
  mutex_trylock = λ i w. if w i then (16, w) else (0, turn w i true);
  ebusy = 16;
  eperm = 1;
  edeadlk = 35;
}

pub mutexes-IsOwned : IsOwned mutexes (λ w. w)
mutexes-IsOwned = record {
  locks = λ i w free rc v took j. ground (arith, free, took);
  tries = λ i w free j. ground (arith, free);
  unlocks = λ i w mine j. ground (arith, mine);
}

abbrev around : Surroundings Cas
around = record { is_granted = λ a. is_granted; others = λ k s. s; elapsed_ms = λ k. k }

abbrev client : TwoTierLock Cas
client = record {
  node_id = 1;
  local_locks = record { has_mutexes = true; lock_count = 8; initialized = true };
  shm = region;
  algorithm = record { node_count = 3 };
  state_offset = 0;
  max_locks = 8;
  node_count = 3;
  initialized = true;
}

blank-IsReady : IsReady blank 0 3
blank-IsReady = record {
  is_open = blank-IsOpen;
  few = omega arith;
  room = omega arith;
  small = omega arith;
}

poll_for_grant-Ends_example :
    (rc : LockResult) × (t : Shm) × (poll_for_grant mutexes cas_algorithm around 1002 client 5 0
        (λ i. false, blank)
      ≡ some (rc, (λ i. false, t)))
    × IsReady t 0 3
    × Ends mutexes cas_algorithm around client 5
        (λ s. IsReady s 0 3)
        (λ k s r. r)
        (λ s r. (_, is_granted-eq r 5 1 (omega arith) (omega arith) (client.algorithm) refl))
        rc
        t
poll_for_grant-Ends_example =
    poll_for_grant-Ends mutexes cas_algorithm around client 5 (λ s. IsReady s 0 3) (λ k s r. r)
      (λ s r. (_, is_granted-eq r 5 1 (omega arith) (omega arith) (client.algorithm) refl))
      (λ i. false) blank blank-IsReady

acquire-Balanced_example :
    (rc : LockResult) × (u : ℕ → Bool) × (t : Shm) × (acquire mutexes cas_algorithm around 1002
        client 5 0
        (λ i. false, blank)
      ≡ some (rc, (u, t)))
    × IsReady t 0 3
    × ((j : ℕ) → u j ≡ (if 5 == j then is_success rc else false))
acquire-Balanced_example =
    acquire-Balanced mutexes-IsOwned cas_algorithm around client 5 1002 0 (λ s. IsReady s 0 3) refl
      (λ s r. (
        success,
        _,
        acquire_lock-eq r 5 1 (omega arith) (omega arith) (client.algorithm) refl,
        put-IsReady r (slot_at 0 3 5 1) slot_waiting,
      ))
      (λ s r. (
        success,
        _,
        release_lock-eq r 5 1 (omega arith) (omega arith) (client.algorithm) refl,
        put-IsReady r (slot_at 0 3 5 1) slot_idle,
      ))
      (λ w s r.
        let (rc, t, ran, inv, ends) =
          poll_for_grant-Ends mutexes cas_algorithm around client 5 (λ s. IsReady s 0 3)
            (λ k s r. r)
            (λ s r. (_, is_granted-eq r 5 1 (omega arith) (omega arith) (client.algorithm) refl)) w
            s r in
        (rc, t, ran, inv))
      (λ i. false) blank refl (0, _, refl) blank-IsReady

release-Balanced_example :
    (rc : LockResult) × (u : ℕ → Bool) × (release mutexes cas_algorithm around client 5
        (λ i. i == 5, blank)
      ≡ some (rc, (u, put blank (slot_at 0 3 5 1) slot_idle)))
    × ((j : ℕ) → u j ≡ (if 5 == j then false else j == 5))
    × (is_success success ≡ false → rc ≡ success)
release-Balanced_example =
    release-Balanced mutexes-IsOwned cas_algorithm around client 5 refl (λ i. i == 5) blank refl
      (omega arith) refl success (put blank (slot_at 0 3 5 1) slot_idle)
      (release_lock-eq blank-IsReady 5 1 (omega arith) (omega arith) (client.algorithm) refl)

mutexes-IsChecking : IsChecking mutexes (λ w. w)
mutexes-IsChecking = record {
  busy_deadlk = λ e. ground (arith, e);
  busy_perm = λ e. ground (arith, e);
  busy_zero = λ e. ground (arith, e);
  tries = λ i w free. ground (arith, free);
  tries_own = λ i w mine. ground (arith, mine);
  unlocks = λ i w mine. ground (arith, mine);
}

abbrev eight : LocalLockArray
eight = record { has_mutexes = true; lock_count = 8; initialized = true }

acquire-is_held_by_this_thread_example :
    ((w : ℕ → Bool) → Blind mutexes-IsOwned mutexes-IsChecking eight 5 w)
    × ((w v : ℕ → Bool)
        → w 5 ≡ false
        → Local.acquire mutexes eight 5 w ≡ some (success, v)
        → let u = (is_held_by_this_thread mutexes eight 5 v).1 in
          (v 5 ≡ true)
          × Blind mutexes-IsOwned mutexes-IsChecking eight 5 v
          × ((Local.release mutexes eight 5 u).0 ≡ success)
          × ((Local.release mutexes eight 5 u).1 5 ≡ false))
acquire-is_held_by_this_thread_example =
    acquire-is_held_by_this_thread mutexes-IsOwned mutexes-IsChecking eight 5

-- The acquire of a free mutex succeeds.
acquire_free : Local.acquire mutexes eight 5 (λ i. false) ≡ some (success, turn (λ i. false) 5 true)
unfolding Local.acquire
acquire_free = refl
