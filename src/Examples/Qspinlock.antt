-- ===== src/Examples/Qspinlock.antt =====
-- src/qspinlock_global_lock.cpp at concrete inputs: on lock 5, nodes 0, 1 and 2 queue up, and node 3
-- comes after the first release.
use cxl_dis_lock.Common.{ℕ, ◌<◌, ◌≤◌, ◌≢◌, ◌≡◌, refl, arith, some, true, false, List, [], ◌∷◌}
use cxl_dis_lock.Types.{LockResult, success, error_not_owner, invalid_node_id}
use cxl_dis_lock.Memory.{Shm, M, region}
use cxl_dis_lock.Lines.{node_word, entry_word, entry_at, node_at}
use cxl_dis_lock.Qspinlock.{
  Qspinlock, lock_word, owner_node, next_node, locked, waiting_lock, qspin_locked, qspin_tail_idx,
  qspin_node_to_tail, acquire_lock, release_lock, check_grant, is_granted,
}
use cxl_dis_lock.Qspinlock.Queue.{Holds, enqueue-Holds, release-Holds_next}
use cxl_dis_lock.Client.{scan, request, leave}
use cxl_dis_lock.Qspinlock.Forced.{attempts, release_lock-Kills}
use cxl_dis_lock.Memory.Access.{put, put-IsOpen}
use cxl_dis_lock.Qspinlock.Hazards.{release_lock-loses}
use cxl_dis_lock.Examples.Base.{blank, blank-IsOpen}

abbrev four_nodes : Qspinlock
four_nodes = record { node_count = 4 }

nobody : Holds blank 0 4 5 []
nobody = record {
  ready = record {
    is_open = blank-IsOpen;
    few = omega arith;
    room = omega arith;
    small = omega arith;
  };
  queue = refl;
}

-- `op` succeeds on `s` and leaves `q` queued.
abbrev Leads : M LockResult → Shm → List ℕ → Type 0
Leads op s q = (t : Shm) × (op s ≡ some (success, t)) × Holds t 0 4 5 q

one : Leads (acquire_lock 1 four_nodes 0 5 region 0) blank (0 ∷ [])
one = enqueue-Holds {l = 5} (omega arith) four_nodes refl 0 0 [] (omega arith) tt nobody

two : Leads (acquire_lock 1 four_nodes 1 5 region 0) (one.0) (0 ∷ 1 ∷ [])
two =
    enqueue-Holds {l = 5} (omega arith) four_nodes refl 0 1 (0 ∷ []) (omega arith) (omega arith, tt)
      (one.2)

three : Leads (acquire_lock 1 four_nodes 2 5 region 0) (two.0) (0 ∷ 1 ∷ 2 ∷ [])
three =
    enqueue-Holds {l = 5} (omega arith) four_nodes refl 0 2 (0 ∷ 1 ∷ []) (omega arith)
      (omega arith, (omega arith, tt)) (two.2)

enqueue-Holds_example : Leads (acquire_lock 1 four_nodes 1 5 region 0) (one.0) (0 ∷ 1 ∷ [])
enqueue-Holds_example =
    enqueue-Holds {l = 5} (omega arith) four_nodes refl 0 1 (0 ∷ []) (omega arith) (omega arith, tt)
      (one.2)

release-Holds_next_example :
    (t : Shm) × (release_lock four_nodes 0 5 region 0 (two.0) ≡ some (success, t))
    × Holds t 0 4 5 (1 ∷ [])
    × (is_granted 5 0 4 0 t ≡ some (false, t))
    × (is_granted 5 1 4 0 t ≡ some (true, t))
release-Holds_next_example = release-Holds_next {l = 5} (omega arith) four_nodes refl 0 1 (two.2)

release_lock-loses_example :
    (t : Shm) × (u : Shm) × (release_lock four_nodes 0 5 region 0 (three.0) ≡ some (success, t))
    × (acquire_lock 1 four_nodes 3 5 region 0 t ≡ some (success, u))
    × Holds u 0 4 5 (1 ∷ 3 ∷ [])
    × (node_word u 0 2 locked ≡ 1)
    × (node_word u 0 2 waiting_lock ≡ 5)
release_lock-loses_example =
    release_lock-loses {l = 5} (omega arith) four_nodes refl 0 0 1 2 3 [] (three.2) (omega arith)
      (omega arith, (omega arith, (omega arith, tt)))

-- Node 0 owns lock 5, and node 1 has swapped the tail but has not linked itself yet.
abbrev unlinked : Shm
unlinked =
    put (put (put blank (entry_at 0 5 lock_word) 9) (entry_at 0 5 owner_node) 0)
      (node_at 0 0 next_node) invalid_node_id

abbrev word : ℕ
word = entry_word unlinked 0 5 lock_word

word-tail :
    (qspin_locked word ≡ 1)
    × (qspin_tail_idx word ≢ qspin_node_to_tail 0)
    × (0 < qspin_tail_idx word)
    × (qspin_tail_idx word ≤ 4)
unfolding qspin_locked qspin_tail_idx qspin_node_to_tail
word-tail = (refl, (λ e. ground (arith, e)), omega arith, omega arith)

release_lock-Kills_example :
    (t : Shm) × (u : Shm) × (release_lock four_nodes 0 5 region 0 unlinked ≡ some (success, t))
    × (attempts four_nodes 5 0 4 (scan ∷ request 2 ∷ leave 2 ∷ []) t ≡ some (tt, u))
    × (entry_word u 0 5 owner_node ≡ invalid_node_id)
    × (check_grant four_nodes 5 region 0 4 u ≡ some (invalid_node_id, u))
    × ((x : ℕ) → x < 4 → release_lock four_nodes x 5 region 0 u ≡ some (error_not_owner, u))
release_lock-Kills_example =
    release_lock-Kills {l = 5} (omega arith) four_nodes refl 0 (scan ∷ request 2 ∷ leave 2 ∷ [])
      (record {
        is_open =
            put-IsOpen
              (put-IsOpen (put-IsOpen blank-IsOpen (entry_at 0 5 lock_word) 9)
                (entry_at 0 5 owner_node) 0)
              (node_at 0 0 next_node) invalid_node_id;
        few = omega arith;
        room = omega arith;
        small = omega arith;
      })
      (omega arith) refl refl (word-tail.0) (word-tail.1) (word-tail.2) (word-tail.3)
      (omega arith, (omega arith, tt))
