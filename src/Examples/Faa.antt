-- ===== src/Examples/Faa.antt =====
-- src/faa_global_lock.cpp at concrete inputs.
use cxl_dis_lock.Common.{ℕ, ◌≡◌, refl, arith, some, true}
use cxl_dis_lock.Types.{success, invalid_node_id, max_lock_count}
use cxl_dis_lock.Client.{holding}
use cxl_dis_lock.Memory.{Shm, region}
use cxl_dis_lock.Memory.Access.{put}
use cxl_dis_lock.Faa.{Faa, owner_node, acquire_lock, check_grant, grant_lock, is_granted}
use cxl_dis_lock.Lines.{IsReady, entry_at}
use cxl_dis_lock.Faa.Ops.{requested, granted, acquire_lock-eq, is_granted-eq}
use cxl_dis_lock.Faa.Choice.{Smallest, check_grant-Smallest}
use cxl_dis_lock.Faa.Init.{IsFresh, initialize-IsFresh}
use cxl_dis_lock.Faa.System.{System, boot, request, poll, Reach, start, later}
use cxl_dis_lock.Faa.System.Exclusion.{mutual_exclusion_uninterrupted}
use cxl_dis_lock.Faa.Hazards.{stray_grant, overtaking, overtaking-both}
use cxl_dis_lock.Examples.Base.{blank, blank-IsOpen}

abbrev two_nodes : Faa
two_nodes = record { node_count = 2 }

blank-IsReady : IsReady blank 0 2
blank-IsReady = record {
  is_open = blank-IsOpen;
  few = omega arith;
  room = omega arith;
  small = omega arith;
}

check_grant-Smallest_example :
    (g : ℕ) × (check_grant two_nodes 3 region 0 2 blank ≡ some (g, blank))
    × Smallest blank-IsReady 3 g
check_grant-Smallest_example = check_grant-Smallest blank-IsReady two_nodes 3 (omega arith)

-- Nobody waits and lock 2 has no owner.
abbrev free : Shm
free = put blank (entry_at 0 2 owner_node) invalid_node_id

free-IsReady : IsReady free 0 2
free-IsReady = record {
  is_open = record { is_valid = refl; address = 4096; is_mapped = refl };
  few = omega arith;
  room = omega arith;
  small = omega arith;
}

stray_grant_example :
    let t = requested free 0 1 0 in
    (acquire_lock two_nodes 0 1 region 0 free ≡ some (success, t))
    × (check_grant two_nodes 2 region 0 2 t ≡ some (0, t))
    × (grant_lock two_nodes 0 2 region 0 t ≡ some (success, granted t 0 2 0))
    × (check_grant two_nodes 2 region 0 2 (granted t 0 2 0)
        ≡ some (invalid_node_id, granted t 0 2 0))
stray_grant_example =
    stray_grant free-IsReady two_nodes refl 1 2 0 (omega arith) (omega arith) (omega arith)
      (omega arith) (λ k hk. ground arith) (omega arith) refl

overtaking-both_example : (t : Shm) × (overtaking two_nodes 0 2 2 0 1 free ≡ some ((true, true), t))
overtaking-both_example =
    overtaking-both free-IsReady two_nodes refl 2 0 1 (omega arith) (omega arith) (omega arith)
      (omega arith) (λ k hk. ground arith) (omega arith) refl

-- On a fresh state node 1 requests lock 5; it has the first ticket, and its poll succeeds.
first_run :
    {t : Shm}
    → IsFresh max_lock_count 0 2 t
    → (u : System) × Reach two_nodes 0 2 5 (boot t) u × (u.client 1 ≡ holding)
first_run {t} fresh =
    let s₁ = requested t 0 5 1 in
    let r = fresh.ready in
    let r₁ : IsReady s₁ 0 2 = record {
      is_open = record {
        is_valid = r.is_open.is_valid;
        address = r.is_open.address;
        is_mapped = r.is_open.is_mapped;
      };
      few = r.few;
      room = r.room;
      small = r.small;
    } in
    let zero_ticket = fresh.no_tickets 5 (omega arith) in
    let asked = acquire_lock-eq r 5 1 (omega arith) (omega arith) two_nodes refl in
    let polled : is_granted 5 1 2 0 s₁ ≡ some (true, s₁) = ground (
      arith,
      zero_ticket,
      fresh.none_served 5,
      is_granted-eq r₁ 5 1 (omega arith) (omega arith) two_nodes refl,
    ) in
    (
      _,
      later (later start (request 1 (omega arith) refl (omega (arith, zero_ticket)) asked))
          (poll 1 (omega arith) refl polled),
      refl,
    )

mutual_exclusion_uninterrupted_example : ◌≡◌ {A = ℕ} 1 1
mutual_exclusion_uninterrupted_example =
    mutual_exclusion_uninterrupted {s = blank} two_nodes blank-IsReady
      (initialize-IsFresh two_nodes blank-IsReady).1 (omega arith)
      (first_run (initialize-IsFresh two_nodes blank-IsReady).3).1 1 1 (omega arith) (omega arith)
      (first_run (initialize-IsFresh two_nodes blank-IsReady).3).2
      (first_run (initialize-IsFresh two_nodes blank-IsReady).3).2
