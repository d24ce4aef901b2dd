-- ===== src/Region/Objects.antt =====
-- Runs of the calls on the objects of src/shared_memory.cpp: they are made, opened, closed, moved and destroyed
-- in any order.
use cxl_dis_lock.Common.{ℕ, ◌<◌, ◌≡◌, ◌==◌, Option, none, some, set}
use cxl_dis_lock.Region.{Os, Region, Config, new_region, cleanup, init}
use cxl_dis_lock.Region.Moves.{move_construct, move_assign, destruct}

-- The objects by their addresses, and the state of the system.
pub record State (W : Type 0) : Type 0 where
  pub objects : ℕ → Option Region
  pub process : W

module _ {W : Type 0} (os : Os W) (n : ℕ) where
  -- One call, on objects at addresses below `n`. A new object stands where there is none.
  pub data Step (s : State W) : State W → Type 0 where
    construct :
        (i : ℕ)
        → i < n
        → s.objects i ≡ none
        → Step s (record s { objects = set s.objects i (some new_region) })
    opens :
        (i : ℕ) (r : Region) (config : Config)
        → i < n
        → s.objects i ≡ some r
        → Step s (record {
          objects = set s.objects i (some (init os r config s.process).0.0);
          process = (init os r config s.process).1;
        })
    closes :
        (i : ℕ) (r : Region)
        → i < n
        → s.objects i ≡ some r
        → Step s (record {
          objects = set s.objects i (some (cleanup os r s.process).0);
          process = (cleanup os r s.process).1;
        })
    moves_new :
        (i j : ℕ) (other : Region)
        → i < n
        → j < n
        → s.objects i ≡ none
        → s.objects j ≡ some other
        → Step s (record s {
          objects =
              set
                (set s.objects j (some (move_construct other).1))
                i
                (some (move_construct other).0);
        })
    assigns :
        (i j : ℕ) (this other : Region)
        → i < n
        → j < n
        → s.objects i ≡ some this
        → s.objects j ≡ some other
        → Step s (record {
          objects =
              set
                (set s.objects j (some (move_assign os (i == j) this other s.process).0.1))
                i
                (some (move_assign os (i == j) this other s.process).0.0);
          process = (move_assign os (i == j) this other s.process).1;
        })
    destroys :
        (i : ℕ) (r : Region)
        → i < n
        → s.objects i ≡ some r
        → Step s (record { objects = set s.objects i none; process = destruct os r s.process })

  pub data Reach (s : State W) : State W → Type 0 where
    start : Reach s s
    later : {t u : State W} → Reach s t → Step t u → Reach s u
