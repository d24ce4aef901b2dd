-- ===== src/Faa/System/Exclusion.antt =====
-- Mutual exclusion of one FAA lock whose operations are not interrupted.
use cxl_dis_lock.Common.{
  ℕ, ◌+◌, ◌≤◌, ◌<◌, ◌≡◌, ◌≢◌, ◌^◌, arith, refl, ap, some, ◌==◌, leb, ◌⊎◌, inl, inr, not, ◌&&◌, ◌∙◌,
}
use cxl_dis_lock.Types.{u32, success, invalid_node_id, max_lock_count}
use cxl_dis_lock.Client.{Client, idle, polling, holding}
use cxl_dis_lock.Memory.{Shm, region}
use cxl_dis_lock.Faa.{Faa, initialize, next_ticket, now_serving, owner_node, ticket, active}
use cxl_dis_lock.Lines.{IsReady, put-IsReady, entry_at, node_at, entry_word, node_word}
use cxl_dis_lock.Faa.Ops.{
  requested, released, granted, acquire_lock-eq, release_lock-eq, grant_lock-eq, is_granted-eq,
}
use cxl_dis_lock.Faa.Choice.{check_grant-Smallest}
use cxl_dis_lock.Faa.Init.{IsFresh, initialize-IsFresh}
use cxl_dis_lock.Faa.System.{
  System, boot, moved, Step, request, poll, drop, serve, Reach, start, later,
}

pub record Inv (base count l : ℕ) (s : System) : Type 0 where
  pub ready : IsReady s.shm base count
  pub asleep : (n : ℕ) → n < count → s.client n ≡ idle → node_word s.shm base n active ≡ 0
  pub awake : (n : ℕ) → n < count → s.client n ≢ idle → node_word s.shm base n active ≢ 0
  pub below :
      (n : ℕ)
      → n < count
      → node_word s.shm base n active ≢ 0
      → node_word s.shm base n ticket < entry_word s.shm base l next_ticket
  pub distinct :
      (n m : ℕ)
      → n < count
      → m < count
      → node_word s.shm base n active ≢ 0
      → node_word s.shm base m active ≢ 0
      → node_word s.shm base n ticket ≡ node_word s.shm base m ticket
      → n ≡ m
  pub served :
      (n m : ℕ)
      → n < count
      → m < count
      → node_word s.shm base n active ≢ 0
      → node_word s.shm base m active ≢ 0
      → node_word s.shm base n ticket ≤ entry_word s.shm base l now_serving
      → node_word s.shm base m ticket ≤ entry_word s.shm base l now_serving
      → n ≡ m
  pub ahead :
      (entry_word s.shm base l now_serving < entry_word s.shm base l next_ticket)
      ⊎ (entry_word s.shm base l now_serving ≡ 0)
  pub held :
      (n : ℕ)
      → n < count
      → s.client n ≡ holding
      → node_word s.shm base n ticket ≤ entry_word s.shm base l now_serving

module _ {base count l : ℕ} (hl : l < max_lock_count) {s : System} (inv : Inv base count l s) where
  open inv use {ready, asleep, awake, below, distinct, served, ahead, held}

  request-Inv :
      (n : ℕ)
      → n < count
      → s.client n ≡ idle
      → entry_word s.shm base l next_ticket + 1 < 2 ^ 32
      → Inv base count l (moved s (requested s.shm base l n) n polling)
  request-Inv n hn e room = record {
    ready =
        put-IsReady
          (put-IsReady
            (put-IsReady ready (entry_at base l next_ticket)
              (u32 (entry_word s.shm base l next_ticket + 1)))
            (node_at base n ticket) (entry_word s.shm base l next_ticket))
          (node_at base n active) 1;
    asleep = λ m hm q. ground (arith, asleep m hm);
    awake = λ m hm q. ground (arith, awake m hm);
    below = λ m hm act. ground (arith, below m hm);
    distinct = λ m k hm hk p q eq. ground (arith, distinct m k hm hk, below m hm, below k hk);
    served = λ m k hm hk p q x y. ground (arith, served m k hm hk, ahead, below m hm, below k hk);
    ahead = ground (arith, ahead);
    held = λ m hm q. ground (arith, held m hm);
  }

  poll-Inv :
      (n : ℕ) (c : Client)
      → n < count
      → s.client n ≡ polling
      → c ≢ idle
      → (c ≡ holding → node_word s.shm base n ticket ≤ entry_word s.shm base l now_serving)
      → Inv base count l (moved s s.shm n c)
  poll-Inv n c hn e up saw = record {
    ready = ready;
    asleep = λ m hm q. ground (arith, asleep m hm);
    awake = λ m hm q. ground (arith, awake m hm);
    below = below;
    distinct = distinct;
    served = served;
    ahead = ahead;
    held = λ m hm q. ground (arith, held m hm, saw);
  }

  drop-Inv : (n : ℕ) → n < count → Inv base count l (moved s (released s.shm base l n) n idle)
  drop-Inv n hn = record {
    ready =
        put-IsReady
          (put-IsReady (put-IsReady ready (node_at base n ticket) 0) (node_at base n active) 0)
          (entry_at base l owner_node) invalid_node_id;
    asleep = λ m hm q. ground (arith, asleep m hm);
    awake = λ m hm q. ground (arith, awake m hm);
    below = λ m hm act. ground (arith, below m hm);
    distinct = λ m k hm hk p q eq. ground (arith, distinct m k hm hk);
    served = λ m k hm hk p q x y. ground (arith, served m k hm hk);
    ahead = ground (arith, ahead);
    held = λ m hm q. ground (arith, held m hm);
  }

  -- The node that is served has the smallest ticket, so no other active node is at or below it.
  serve-Inv :
      (g : ℕ)
      → g < count
      → node_word s.shm base g active ≢ 0
      → ((n : ℕ)
          → 0 ≤ n
          → n < count
          → node_word s.shm base n active ≢ 0
          → node_word s.shm base g ticket ≤ node_word s.shm base n ticket)
      → Inv base count l (record s { shm = granted s.shm base l g })
  serve-Inv g hg act least = record {
    ready =
        put-IsReady (put-IsReady ready (entry_at base l owner_node) g) (entry_at base l now_serving)
          (node_word s.shm base g ticket);
    asleep = λ m hm q. ground (arith, asleep m hm);
    awake = λ m hm q. ground (arith, awake m hm);
    below = λ m hm p. ground (arith, below m hm);
    distinct = λ m k hm hk p q eq. ground (arith, distinct m k hm hk);
    served = λ m k hm hk p q x y. ground (
      arith,
      least m (omega arith) hm,
      least k (omega arith) hk,
      distinct m g hm hg,
      distinct k g hk hg,
    );
    ahead = ground (arith, below g hg act);
    held = λ m hm q.
        ground (arith, held m hm q, awake m hm, least m (omega arith) hm, served m g hm hg);
  }

module _ {a : Faa} {base count l : ℕ} (hl : l < max_lock_count) (own : a.node_count ≡ count) where
  Step-Inv : {s t : System} → Step a base count l s t → Inv base count l s → Inv base count l t
  Step-Inv {s} (request n {t} hn e room run) inv =
      let same : t ≡ requested s.shm base l n = cc (acquire_lock-eq inv.ready l n hl hn a own) in
      rw same (request-Inv hl inv n hn e room)
  Step-Inv {s} (poll n {t} {seen} hn e run) inv =
      let read = is_granted-eq inv.ready l n hl hn a own in
      let same : t ≡ s.shm = cc read in
      let answer : seen ≡ (
          leb (node_word s.shm base n ticket) (entry_word s.shm base l now_serving)
          && not (node_word s.shm base n active == 0)) =
        cc read in
      rw same (poll-Inv hl inv n _ hn e (ground arith) (ground arith))
  Step-Inv {s} (drop n {t} hn e run) inv =
      let same : t ≡ released s.shm base l n = cc (release_lock-eq inv.ready l n hl hn a own) in
      rw same (drop-Inv hl inv n hn)
  Step-Inv {s} (serve {g} {t} {u} {rc} looked some_node run) inv =
      let (g', again, choice) = check_grant-Smallest inv.ready a l hl in
      let node : g ≡ g' = cc again in
      let still : t ≡ s.shm = cc again in
      elim choice [
        | inl c ↦ absurd (some_node (node ∙ c.0))
        | inr c ↦ elim c [
          | inl d ↦ absurd (some_node (node ∙ d.0))
          | inr d ↦
              let same : u ≡ granted s.shm base l g' =
                cc (grant_lock-eq inv.ready l g' hl d.1 a own) in
              rw same (serve-Inv hl inv g' d.1 d.2 d.4)
        ]
      ]

  Reach-Inv : {s t : System} → Reach a base count l s t → Inv base count l s → Inv base count l t
  Reach-Inv start inv = inv
  Reach-Inv (later r st) inv = Step-Inv st (Reach-Inv r inv)

fresh-Inv :
    {base count l : ℕ} {s : Shm}
    → l < max_lock_count
    → IsFresh max_lock_count base count s
    → Inv base count l (boot s)
fresh-Inv {base} {count} {l} hl f = record {
  ready = f.ready;
  asleep = λ n hn e. f.none_waiting n hn;
  awake = λ n hn up. absurd (up refl);
  below = λ n hn act. absurd (act (f.none_waiting n hn));
  distinct = λ n m hn hm p q e. absurd (p (f.none_waiting n hn));
  served = λ n m hn hm p q x y. absurd (p (f.none_waiting n hn));
  ahead = inr (f.none_served l hl);
  held = λ n hn e. cc;
}

-- Once the lock state is initialised, in every state that the operations on one lock reach, run one
-- after the other in any order and with fewer than 2 ^ 32 tickets, at most one node is past its
-- grant.
pub mutual_exclusion_uninterrupted :
    {s t : Shm} {base count l : ℕ} (a : Faa) {b : Faa} {u : System}
    → IsReady s base count
    → initialize a region base count s ≡ some ((b, success), t)
    → l < max_lock_count
    → Reach b base count l (boot t) u
    → (n k : ℕ) → n < count
    → k < count
    → u.client n ≡ holding
    → u.client k ≡ holding
    → n ≡ k
mutual_exclusion_uninterrupted {s} {t} {base} {count} {l} a {b} {u} ready run hl reach n k hn hk p
      q =
    let (t', made, kept, fresh) = initialize-IsFresh a ready in
    let state : t' ≡ t = cc made in
    let object : b ≡ record { node_count = count } = cc made in
    let own : b.node_count ≡ count = ap (λ (c : Faa). c.node_count) object in
    let inv : Inv base count l u = Reach-Inv hl own reach (fresh-Inv hl (rw state at fresh)) in
    inv.served n k hn hk (inv.awake n hn (λ e. cc)) (inv.awake k hk (λ e. cc)) (inv.held n hn p)
      (inv.held k hk q)
