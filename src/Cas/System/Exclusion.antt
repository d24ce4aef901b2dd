-- ===== src/Cas/System/Exclusion.antt =====
-- Mutual exclusion of the CAS lock, for every interleaving.
use cxl_dis_lock.Common.{
  ℕ, ◌≤◌, ◌<◌, ◌≡◌, ◌≢◌, arith, ap, some, inl, inr, Bool-cases, ◌==◌, if◌then◌else◌,
}
use cxl_dis_lock.Types.{success, slot_idle, slot_waiting, slot_locked, max_lock_count}
use cxl_dis_lock.Memory.{Shm, region}
use cxl_dis_lock.Memory.Access.{put}
use cxl_dis_lock.Cas.{Cas, initialize}
use cxl_dis_lock.Cas.Layout.{IsReady}
use cxl_dis_lock.Cas.Slots.{
  slot, slot_at, slot-put, put-IsReady, zeroed, zeroed-IsReady, zeroed-slot, initialize-eq,
  read_slot_state-eq, acquire_lock-eq, release_lock-eq, grant_lock-eq,
}
use cxl_dis_lock.Client.{Client, idle, polling, holding}
use cxl_dis_lock.Cas.System.{
  Manager, resting, finding, seeking, granting, System, boot, client_step, manager_step, ClientStep,
  request, poll, cancel, leave, ManagerStep, scan, find, found_none, seek, give_up, grant, Step,
  of_client, of_manager, Reach, start, later,
}

-- How many slots of lock `l` the manager has seen to be not LOCKED, and relies on.
abbrev cleared : ℕ → Manager → ℕ → ℕ
cleared count resting l = 0
cleared count (finding m nid) l = if m == l then nid else 0
cleared count (seeking m nid) l = if m == l then count else 0
cleared count (granting m nid) l = if m == l then count else 0

-- The node that the manager looks at is one of the nodes, and its lock one of the locks.
abbrev InRange : ℕ → Manager → Type 0
InRange count resting = Unit {0}
InRange count (finding m nid) = (m < max_lock_count) × (nid ≤ count)
InRange count (seeking m nid) = (m < max_lock_count) × (nid ≤ count)
InRange count (granting m nid) = (m < max_lock_count) × (nid < count)

pub record Inv (base count : ℕ) (s : System) : Type 0 where
  pub ready : IsReady s.shm base count
  pub range : InRange count s.manager
  pub held :
      (l n : ℕ)
      → l < max_lock_count
      → n < count
      → s.client l n ≡ holding
      → slot s.shm base count l n ≡ slot_locked
  pub unique :
      (l n k : ℕ)
      → l < max_lock_count
      → n < count
      → k < count
      → slot s.shm base count l n ≡ slot_locked
      → slot s.shm base count l k ≡ slot_locked
      → n ≡ k
  pub clear :
      (l n : ℕ)
      → l < max_lock_count
      → n < count
      → n < cleared count s.manager l
      → slot s.shm base count l n ≢ slot_locked

module _ {base count : ℕ} {s : System} (inv : Inv base count s) where
  open inv use {ready, held, unique, clear}

  -- A client stores a value other than LOCKED into its slot and is not holding afterwards.
  store-Inv :
      (l n v : ℕ) (c : Client)
      → n < count
      → v ≢ slot_locked
      → c ≢ holding
      → Inv base count (client_step s (put s.shm (slot_at base count l n) v) l n c)
  store-Inv l n v c hn unlocked free = record {
    ready = put-IsReady ready _ v;
    range = inv.range;
    held = λ m k hm hk e. ground (arith, slot-put s.shm base count l n m k v hn hk, held m k hm hk);
    unique = λ m k j hm hk hj p q. ground (
      arith,
      slot-put s.shm base count l n m k v hn hk,
      slot-put s.shm base count l n m j v hn hj,
      unique m k j hm hk hj,
    );
    clear = λ m k hm hk lt.
        ground (arith, slot-put s.shm base count l n m k v hn hk, clear m k hm hk lt);
  }

  -- A client that polls holds only where it read LOCKED.
  poll-Inv :
      (l n : ℕ) (c : Client)
      → (c ≡ holding → slot s.shm base count l n ≡ slot_locked)
      → Inv base count (client_step s s.shm l n c)
  poll-Inv l n c saw = record {
    ready = ready;
    range = inv.range;
    held = λ m k hm hk e. ground (arith, held m k hm hk, saw);
    unique = unique;
    clear = clear;
  }

  -- The manager moves, and relies on what it has read.
  read-Inv :
      (m : Manager)
      → InRange count m
      → ((l n : ℕ)
          → l < max_lock_count
          → n < count
          → n < cleared count m l
          → slot s.shm base count l n ≢ slot_locked)
      → Inv base count (manager_step s s.shm m)
  read-Inv m range saw = record {
    ready = ready;
    range = range;
    held = held;
    unique = unique;
    clear = saw;
  }

  -- The compare-exchange makes a slot LOCKED where no slot of the lock was.
  grant-Inv :
      (l n : ℕ)
      → n < count
      → s.manager ≡ granting l n
      → Inv base count (manager_step s (put s.shm (slot_at base count l n) slot_locked) resting)
  grant-Inv l n hn here = record {
    ready = put-IsReady ready _ slot_locked;
    range = tt;
    held = λ m k hm hk e.
        ground (arith, slot-put s.shm base count l n m k slot_locked hn hk, held m k hm hk);
    unique = λ m k j hm hk hj p q. ground (
      arith,
      slot-put s.shm base count l n m k slot_locked hn hk,
      slot-put s.shm base count l n m j slot_locked hn hj,
      unique m k j hm hk hj,
      clear m k hm hk,
      clear m j hm hj,
    );
    clear = λ m k hm hk lt. absurd (omega arith);
  }

module _ {a : Cas} {base count : ℕ} (own : a.node_count ≡ count) where
  ClientStep-Inv :
      {s : System} (l n : ℕ) {t : System}
      → l < max_lock_count
      → n < count
      → ClientStep a base count s l n t
      → Inv base count s
      → Inv base count t
  ClientStep-Inv {s} l n hl hn (request {t} e run) inv =
      let same : t ≡ put s.shm (slot_at base count l n) slot_waiting =
        cc (acquire_lock-eq inv.ready l n hl hn a own) in
      rw same (store-Inv inv l n slot_waiting polling hn (omega arith) (λ q. cc))
  ClientStep-Inv {s} l n hl hn (poll {t} {st} e run) inv =
      let read = read_slot_state-eq inv.ready l n hl hn in
      let same : t ≡ s.shm = cc read in
      let seen : st ≡ slot s.shm base count l n = cc read in
      rw same (poll-Inv inv l n _ (ground arith))
  ClientStep-Inv {s} l n hl hn (cancel {t} e run) inv =
      let same : t ≡ put s.shm (slot_at base count l n) slot_idle =
        cc (release_lock-eq inv.ready l n hl hn a own) in
      rw same (store-Inv inv l n slot_idle idle hn (omega arith) (λ q. cc))
  ClientStep-Inv {s} l n hl hn (leave {t} e run) inv =
      let same : t ≡ put s.shm (slot_at base count l n) slot_idle =
        cc (release_lock-eq inv.ready l n hl hn a own) in
      rw same (store-Inv inv l n slot_idle idle hn (omega arith) (λ q. cc))

  ManagerStep-Inv :
      {s t : System} → ManagerStep a base count s t → Inv base count s → Inv base count t
  ManagerStep-Inv {s} (scan l hl e) inv =
      read-Inv inv (finding l 0) (hl, omega arith) (λ m k hm hk lt. absurd (ground arith))
  ManagerStep-Inv {s} (find {t} {l} {n} {st} e hn run) inv =
      let range : InRange count (finding l n) = rw e at inv.range in
      let read = read_slot_state-eq inv.ready l n range.0 hn in
      let same : t ≡ s.shm = cc read in
      let seen : st ≡ slot s.shm base count l n = cc read in
      rw same (read-Inv inv _ (ground arith) (λ m k hm hk lt. ground (arith, inv.clear m k hm hk)))
  ManagerStep-Inv {s} (found_none {l} {n} e done) inv =
      let range : InRange count (finding l n) = rw e at inv.range in
      read-Inv inv (seeking l 0) (range.0, omega arith)
        (λ m k hm hk lt. ground (arith, inv.clear m k hm hk))
  ManagerStep-Inv {s} (seek {t} {l} {n} {st} e hn run) inv =
      let range : InRange count (seeking l n) = rw e at inv.range in
      let read = read_slot_state-eq inv.ready l n range.0 hn in
      let same : t ≡ s.shm = cc read in
      rw same (read-Inv inv _ (ground arith) (λ m k hm hk lt. ground (arith, inv.clear m k hm hk)))
  ManagerStep-Inv {s} (give_up e done) inv =
      read-Inv inv resting tt (λ m k hm hk lt. absurd (omega arith))
  ManagerStep-Inv {s} (grant {t} {l} {n} {rc} e run) inv =
      let range : InRange count (granting l n) = rw e at inv.range in
      let granted = grant_lock-eq inv.ready l n range.0 range.1 a own in
      elim (Bool-cases (slot s.shm base count l n == slot_waiting)) [
        | inl w ↦
            let same : t ≡ put s.shm (slot_at base count l n) slot_locked = ground arith in
            rw same (grant-Inv inv l n range.1 e)
        | inr w ↦
            let same : t ≡ s.shm = ground arith in
            rw same (read-Inv inv resting tt (λ m k hm hk lt. absurd (omega arith)))
      ]

  Step-Inv : {s t : System} → Step a base count s t → Inv base count s → Inv base count t
  Step-Inv (of_client l n hl hn c) inv = ClientStep-Inv l n hl hn c inv
  Step-Inv (of_manager m) inv = ManagerStep-Inv m inv

  pub Reach-Inv : {s t : System} → Reach a base count s t → Inv base count s → Inv base count t
  Reach-Inv start inv = inv
  Reach-Inv (later r st) inv = Step-Inv st (Reach-Inv r inv)

pub boot-Inv :
    {s : Shm} {base count : ℕ} → IsReady s base count → Inv base count (boot (zeroed s base count))
boot-Inv {s} {base} {count} r = record {
  ready = zeroed-IsReady r;
  range = tt;
  held = λ l n hl hn e. cc;
  unique = λ l n k hl hn hk p q. absurd (omega (arith, p, zeroed-slot s base count l n hl hn));
  clear = λ l n hl hn lt. absurd (omega arith);
}

-- Once the lock state is initialised, in every state that any interleaving of the clients and the
-- manager reaches, at most one node is past the grant of a lock.
pub mutual_exclusion :
    {s t : Shm} {base count : ℕ} (a : Cas) {b : Cas} {u : System}
    → IsReady s base count
    → initialize a region base count s ≡ some ((b, success), t)
    → Reach b base count (boot t) u
    → (l n k : ℕ) → l < max_lock_count
    → n < count
    → k < count
    → u.client l n ≡ holding
    → u.client l k ≡ holding
    → n ≡ k
mutual_exclusion {s} {t} {base} {count} a {b} {u} ready run reach l n k hl hn hk p q =
    let made = initialize-eq a ready in
    let state : t ≡ zeroed s base count = cc made in
    let object : b ≡ record { node_count = count } = cc made in
    let own : b.node_count ≡ count = ap (λ (c : Cas). c.node_count) object in
    let inv : Inv base count u = Reach-Inv own reach (rw state (boot-Inv ready)) in
    inv.unique l n k hl hn hk (inv.held l n hl hn p) (inv.held l k hl hk q)
