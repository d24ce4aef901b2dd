-- ===== src/Mcs/Fifo.antt =====
-- Runs of the operations of src/mcs_global_lock.cpp on one lock, one after the other, against a first-in
-- first-out queue as their specification.
use mathlib.Core.List.{append_assoc, append-nil}
use cxl_dis_lock.Common.{
  ℕ, ◌<◌, ◌≡◌, arith, refl, ap, sym, ◌∙◌, Bool, true, false, some, ◌==◌, if◌then◌else◌, List, [],
  ◌∷◌, ◌++◌,
}
use cxl_dis_lock.Types.{LockResult, is_success, success, invalid_node_id, max_lock_count}
use cxl_dis_lock.Memory.{Shm, M, pure, ◌>>=◌, region}
use cxl_dis_lock.Lines.{IsReady}
use cxl_dis_lock.Client.{Event, request, scan, leave}
use cxl_dis_lock.Mcs.{
  Mcs, initialize, acquire_lock, release_lock, check_grant, grant_lock, is_granted,
}
use cxl_dis_lock.Mcs.Ops.{is_granted-eq}
use cxl_dis_lock.Mcs.Chain.{Absent, Chain, Chain-bound}
use cxl_dis_lock.Mcs.Queue.{
  Holds, handed, acquire_lock-Holds, check_grant-Holds, grant_lock-Holds, release_lock-Holds,
  is_granted-Holds,
}
use cxl_dis_lock.Mcs.Init.{initialize-Empty}

-- The body of the manager's loop for one lock.
unfoldable pub serve : Mcs → ℕ → ℕ → ℕ → M LockResult
serve a l base count = do
  g ← check_grant a l region base count
  if g == invalid_node_id then pure success else grant_lock a g l region base

-- Two rounds for the loop of `acquire_lock`, and none for that of `release_lock`.
unfoldable pub perform : Mcs → ℕ → ℕ → ℕ → Event → M LockResult
perform a l base count (request n) = acquire_lock 2 a n l region base
perform a l base count scan = serve a l base count
perform a l base count (leave n) = release_lock 0 a n l region base

-- A run stops at the first operation that does not succeed.
unfoldable pub run : Mcs → ℕ → ℕ → ℕ → List Event → M LockResult
run a l base count [] = pure success
run a l base count (e ∷ es) = do
  rc ← perform a l base count e
  if is_success rc then run a l base count es else pure rc

abbrev pub served : List ℕ → Bool
served [] = false
served (n ∷ ms) = true

-- The specification: a node that is not in the queue joins it at the end, a scan gives the lock to the
-- head, and the head leaves once it has the lock, which the next node has then.
pub data Trace (count : ℕ) : List Event → List ℕ → Bool → List ℕ → Bool → Type 0 where
  done : {q : List ℕ} {held : Bool} → Trace count [] q held q held
  joins :
      {es : List Event} {q q' : List ℕ} {held held' : Bool} (n : ℕ)
      → n < count
      → Absent n q
      → Trace count es (q ++ n ∷ []) held q' held'
      → Trace count (request n ∷ es) q held q' held'
  scans :
      {es : List Event} {q q' : List ℕ} {held held' : Bool}
      → Trace count es q (served q) q' held'
      → Trace count (scan ∷ es) q held q' held'
  leaves :
      {es : List Event} {n : ℕ} {ms q' : List ℕ} {held' : Bool}
      → Trace count es ms (handed ms) q' held'
      → Trace count (leave n ∷ es) (n ∷ ms) true q' held'

-- The nodes of the requests, and those of the releases, in order.
abbrev pub requests : List Event → List ℕ
requests [] = []
requests (request n ∷ es) = n ∷ requests es
requests (scan ∷ es) = requests es
requests (leave n ∷ es) = requests es

abbrev pub releases : List Event → List ℕ
releases [] = []
releases (request n ∷ es) = releases es
releases (scan ∷ es) = releases es
releases (leave n ∷ es) = n ∷ releases es

-- Whoever asked first leaves first.
Trace-order :
    {count : ℕ} {es : List Event} {q q' : List ℕ} {held held' : Bool}
    → Trace count es q held q' held'
    → q ++ requests es ≡ releases es ++ q'
Trace-order {q = q} done = append-nil q
Trace-order {q = q} (joins {es = es} n hn out rest) =
    sym (append_assoc q (n ∷ []) (requests es)) ∙ Trace-order rest
Trace-order (scans rest) = Trace-order rest
Trace-order (leaves {n = n} rest) = ap (λ ms. n ∷ ms) (Trace-order rest)

module _ {base count l : ℕ} (hl : l < max_lock_count) (a : Mcs) (own : a.node_count ≡ count) where
  serve-Holds :
      {s : Shm} (q : List ℕ) (held : Bool)
      → Holds s base count l q held
      → (t : Shm) × (serve a l base count s ≡ some (success, t)) × Holds t base count l q (served q)
  unfolding serve
  serve-Holds {s} [] held h = (
    s,
    ground (arith, check_grant-Holds hl a own [] held h),
    record { ready = h.ready; queue = (h.queue.0, h.queue.1, h.queue.2, refl) },
  )
  serve-Holds {s} (n ∷ ms) true h =
      (s, ground (arith, check_grant-Holds hl a own (n ∷ ms) true h), h)
  serve-Holds {s} (n ∷ ms) false h =
      let (t, given, after) = grant_lock-Holds hl a own n ms h in
      let hn = Chain-bound base count l s n ms h.queue.4 in
      (
        t,
        ground (arith, check_grant-Holds hl a own (n ∷ ms) false h, given, hn, h.ready.few),
        after,
      )

  run-Holds :
      {es : List Event} {q q' : List ℕ} {held held' : Bool} {s : Shm}
      → Trace count es q held q' held'
      → Holds s base count l q held
      → (t : Shm) × (run a l base count es s ≡ some (success, t)) × Holds t base count l q' held'
  unfolding run perform
  run-Holds {s = s} done h = (s, refl, h)
  run-Holds {q = q} (joins n hn out rest) h =
      let (t, asked, h₁) = acquire_lock-Holds hl a own 0 n q hn out h in
      let (u, ran, h₂) = run-Holds rest h₁ in (u, ground (arith, asked, ran), h₂)
  run-Holds {q = q} {held = held} (scans rest) h =
      let (t, scanned, h₁) = serve-Holds q held h in
      let (u, ran, h₂) = run-Holds rest h₁ in (u, ground (arith, scanned, ran), h₂)
  run-Holds (leaves {n = n} {ms = ms} rest) h =
      let (t, left, h₁) = release_lock-Holds hl a own 0 n ms h in
      let (u, ran, h₂) = run-Holds rest h₁ in (u, ground (arith, left, ran), h₂)

-- The polls of the nodes of a queue: the first one finds what `seen` says, and every other one that the lock
-- is not granted.
abbrev pub Polls : ℕ → ℕ → ℕ → Shm → Bool → List ℕ → Type 0
Polls base count l s seen [] = Unit {0}
Polls base count l s seen (n ∷ ms) =
    (is_granted l n count base s ≡ some (seen, s)) × Polls base count l s false ms

module _ {base count l : ℕ} (hl : l < max_lock_count) (a : Mcs) (own : a.node_count ≡ count) where
  -- Behind the first node of a chain no node has the lock.
  Chain-Polls :
      {s : Shm} (n : ℕ) (ms : List ℕ)
      → IsReady s base count
      → Chain base count l s n ms
      → Polls base count l s false ms
  Chain-Polls n [] r c = tt
  Chain-Polls {s} n (m ∷ ms) r c = (
    is_granted-eq r l m hl (Chain-bound base count l s m ms c.4) a own ∙ ground (arith, c.3),
    Chain-Polls m ms r c.4,
  )

  Holds-Polls :
      {s : Shm} (q : List ℕ) (held : Bool)
      → Holds s base count l q held
      → Polls base count l s held q
  Holds-Polls [] held h = tt
  Holds-Polls (n ∷ ms) held h =
      (is_granted-Holds hl a own n ms held h, Chain-Polls n ms h.ready h.queue.4)

-- On a region with room for the state, `initialize` and then any run of requests, scans and releases of one
-- lock in which a node asks only while it is not in the queue and only the node that has the lock
-- releases it: every operation succeeds, and the queue is that of the specification. Nodes release in
-- the order in which they asked, those that have asked and not released stand in the queue in that
-- order, and the poll of a node of the queue succeeds exactly for the first one, where it has the
-- lock.
pub run-Fifo :
    {s : Shm} {base count l : ℕ} {es : List Event} {q : List ℕ} {held : Bool} (a : Mcs)
    → IsReady s base count
    → l < max_lock_count
    → Trace count es [] false q held
    → (b : Mcs) × (t : Shm) × (u : Shm) × (initialize a region base count s
        ≡ some ((b, success), t))
      × (run b l base count es t ≡ some (success, u))
      × Holds u base count l q held
      × (requests es ≡ releases es ++ q)
      × Polls base count l u held q
run-Fifo {count = count} {l = l} {q = q} {held = held} a ready hl trace =
    let (t, made, same, empty) = initialize-Empty a ready in
    let b : Mcs = record { node_count = count } in
    let (u, ran, h) = run-Holds hl b refl trace (empty l hl) in
    (b, t, u, made, ran, h, Trace-order trace, Holds-Polls hl b refl q held h)
