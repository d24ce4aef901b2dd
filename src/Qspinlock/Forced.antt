-- ===== src/Qspinlock/Forced.antt =====
-- What happens to a lock of src/qspinlock_global_lock.cpp after a forced release.
use cxl_dis_lock.Common.{
  ℕ, ◌<◌, ◌≤◌, ◌≡◌, ◌≢◌, arith, refl, some, ◌==◌, if◌then◌else◌, List, [], ◌∷◌,
}
use cxl_dis_lock.Types.{success, error_not_owner, invalid_node_id, invalid_lock_id, max_lock_count}
use cxl_dis_lock.Client.{Event, request, scan, leave}
use cxl_dis_lock.Memory.{Shm, M, pure, ◌>>=◌, ◌>>◌, region}
use cxl_dis_lock.Lines.{IsReady, put-IsReady, entry_at, node_at, entry_word, node_word}
use cxl_dis_lock.Qspinlock.{
  Qspinlock, lock_word, owner_node, next_node, locked, waiting_lock, qspin_locked, qspin_tail_idx,
  qspin_node_to_tail, acquire_lock, release_lock, check_grant, grant_lock,
}
use cxl_dis_lock.Qspinlock.Dead.{IsDead, forced, release_lock-eq_forced, IsDead-Stays}

-- The operations on lock `l`, whatever they answer; a scan grants the lock to the node that it names.
unfoldable pub attempt : Qspinlock → ℕ → ℕ → ℕ → Event → M (Unit {0})
attempt a l base count (request x) = acquire_lock 1 a x l region base >> pure tt
attempt a l base count scan = do
  g ← check_grant a l region base count
  if g == invalid_node_id then pure tt else (grant_lock a g l region base >> pure tt)
attempt a l base count (leave x) = release_lock a x l region base >> pure tt

unfoldable pub attempts : Qspinlock → ℕ → ℕ → ℕ → List Event → M (Unit {0})
attempts a l base count [] = pure tt
attempts a l base count (e ∷ es) = attempt a l base count e >> attempts a l base count es

-- The operations are by nodes below `count`.
abbrev pub Known : ℕ → List Event → Type 0
Known count [] = Unit {0}
Known count (request x ∷ es) = (x < count) × Known count es
Known count (scan ∷ es) = Known count es
Known count (leave x ∷ es) = (x < count) × Known count es

module _ {base count l : ℕ} (hl : l < max_lock_count) (a : Qspinlock)
    (own : a.node_count ≡ count) where
  attempts-IsDead :
      (es : List Event) {s : Shm}
      → Known count es
      → IsDead s base count l
      → (t : Shm) × (attempts a l base count es s ≡ some (tt, t)) × IsDead t base count l
  unfolding attempts attempt
  attempts-IsDead [] {s} known d = (s, refl, d)
  attempts-IsDead (request x ∷ es) {s} known d =
      let (t, asked, d₁, waits) = (IsDead-Stays hl a own d 0 x known.0).0 in
      let (u, ran, d₂) = attempts-IsDead es known.1 d₁ in (u, ground (arith, asked, ran), d₂)
  attempts-IsDead (scan ∷ es) {s} known d =
      let nobody = (IsDead-Stays hl a own d 0 0 d.ready.few.0).1 in
      let (u, ran, d₂) = attempts-IsDead es known d in (u, ground (arith, nobody, ran), d₂)
  attempts-IsDead (leave x ∷ es) {s} known d =
      let refused = (IsDead-Stays hl a own d 0 x known.0).2 in
      let (u, ran, d₂) = attempts-IsDead es known.1 d in (u, ground (arith, refused, ran), d₂)

  -- On a region with room for the state, if the owner of a qspinlock releases it while the lock
  -- word is locked and names another node of the system as its tail, and no node has linked
  -- itself behind the owner, then the release succeeds, after its bounded wait; and after any
  -- requests, scans and releases by nodes of the system that follow, one after the other, the
  -- lock has no owner, a scan names nobody, and no node can release it: nobody ever gets the lock
  -- again.
  pub release_lock-Kills :
      {s : Shm} (n : ℕ) (es : List Event)
      → IsReady s base count
      → n < count
      → entry_word s base l owner_node ≡ n
      → node_word s base n next_node ≡ invalid_node_id
      → qspin_locked (entry_word s base l lock_word) ≡ 1
      → qspin_tail_idx (entry_word s base l lock_word) ≢ qspin_node_to_tail n
      → 0 < qspin_tail_idx (entry_word s base l lock_word)
      → qspin_tail_idx (entry_word s base l lock_word) ≤ count
      → Known count es
      → (t : Shm) × (u : Shm) × (release_lock a n l region base s ≡ some (success, t))
        × (attempts a l base count es t ≡ some (tt, u))
        × (entry_word u base l owner_node ≡ invalid_node_id)
        × (check_grant a l region base count u ≡ some (invalid_node_id, u))
        × ((x : ℕ) → x < count → release_lock a x l region base u ≡ some (error_not_owner, u))
  release_lock-Kills {s} n es r hn owned no_next bit other some_tail few_tail known =
      let d : IsDead (forced s base l n) base count l = record {
        ready =
            put-IsReady
              (put-IsReady
                (put-IsReady
                  (put-IsReady r (entry_at base l lock_word) (entry_word s base l lock_word))
                  (entry_at base l owner_node) invalid_node_id)
                (node_at base n locked) 0)
              (node_at base n waiting_lock) invalid_lock_id;
        no_owner = ground arith;
        bit = ground (arith, bit);
        tail = ground (arith, some_tail, few_tail);
      } in
      let (u, ran, d₂) = attempts-IsDead es known d in
      (
        forced s base l n,
        u,
        release_lock-eq_forced hl a own r n hn owned no_next other,
        ran,
        d₂.no_owner,
        (IsDead-Stays hl a own d₂ 0 0 d₂.ready.few.0).1,
        λ x hx. (IsDead-Stays hl a own d₂ 0 x hx).2,
      )
