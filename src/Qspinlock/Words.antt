-- ===== src/Qspinlock/Words.antt =====
-- The lock word of include/qspinlock_global_lock.h.
use cxl_dis_lock.Common.{ℕ, ◌+◌, ◌<◌, ◌≡◌, ◌≢◌, arith}
use cxl_dis_lock.Qspinlock.{
  qspin_locked, qspin_pending, qspin_tail_idx, qspin_set_tail, qspin_tail_to_node,
  qspin_node_to_tail, held_word,
}

pub tail_idx_of_held :
    (n : ℕ) → n < 65535 → qspin_tail_idx (held_word (qspin_node_to_tail n)) ≡ n + 1
unfolding qspin_tail_idx held_word qspin_node_to_tail
tail_idx_of_held n h = omega arith

pub tail_idx_of_set :
    (w n : ℕ) → n < 65535 → qspin_tail_idx (qspin_set_tail w (qspin_node_to_tail n)) ≡ n + 1
unfolding qspin_tail_idx qspin_set_tail qspin_node_to_tail
tail_idx_of_set w n h = omega arith

pub node_of_tail : (n : ℕ) → qspin_tail_to_node (n + 1) ≡ n
unfolding qspin_tail_to_node
node_of_tail n = ground arith

-- For a node id below 65535, the word that `qspin_set_tail` builds from any word has that node for
-- its tail, and keeps the locked bit and the pending bit.
pub set_tail-Exact :
    (w n : ℕ)
    → n < 65535
    → let new = qspin_set_tail w (qspin_node_to_tail n) in
      (qspin_tail_to_node (qspin_tail_idx new) ≡ n)
      × (qspin_locked new ≡ qspin_locked w)
      × (qspin_pending new ≡ qspin_pending w)
unfolding qspin_set_tail qspin_locked qspin_pending
set_tail-Exact w n h =
    (ground (arith, tail_idx_of_set w n h, node_of_tail n), omega arith, omega arith)

pub locked_of_held : (n : ℕ) → qspin_locked (held_word (qspin_node_to_tail n)) ≡ 1
unfolding qspin_locked held_word
locked_of_held n = omega arith

pub node_to_tail-eq : (n : ℕ) → n < 65535 → qspin_node_to_tail n ≡ n + 1
unfolding qspin_node_to_tail
node_to_tail-eq n h = omega arith

pub word-ne : (w : ℕ) → qspin_locked w ≡ 1 → w ≢ 0
unfolding qspin_locked
word-ne w h e = absurd (omega (arith, h, e))
