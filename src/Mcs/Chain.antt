-- ===== src/Mcs/Chain.antt =====
-- The linked queue of src/mcs_global_lock.cpp as a list of node ids.
use cxl_dis_lock.Common.{ℕ, ◌<◌, ◌≡◌, ◌≢◌, arith, refl, sym, ◌∙◌, List, [], ◌∷◌, ◌++◌}
use cxl_dis_lock.Types.{invalid_node_id}
use cxl_dis_lock.Memory.{Shm}
use cxl_dis_lock.Lines.{node_word}
use cxl_dis_lock.Mcs.{next_node, locked, waiting_lock}

abbrev pub last : ℕ → List ℕ → ℕ
last n [] = n
last n (m ∷ ms) = last m ms

-- `x` is not in the list.
abbrev pub Absent : ℕ → List ℕ → Type 0
Absent x [] = Unit {0}
Absent x (y ∷ ys) = (x ≢ y) × Absent x ys

abbrev pub Distinct : List ℕ → Type 0
Distinct [] = Unit {0}
Distinct (x ∷ xs) = Absent x xs × Distinct xs

pub last-append : (n x : ℕ) (ms : List ℕ) → last n (ms ++ x ∷ []) ≡ x
last-append n x [] = refl
last-append n x (m ∷ ms) = last-append m x ms

pub ne-last : (x n : ℕ) (ms : List ℕ) → Absent x (n ∷ ms) → x ≢ last n ms
ne-last x n [] h = h.0
ne-last x n (m ∷ ms) h = ne-last x m ms h.1

Absent-append : (y x : ℕ) (ms : List ℕ) → Absent y ms → y ≢ x → Absent y (ms ++ x ∷ [])
Absent-append y x [] h ne = (ne, tt)
Absent-append y x (m ∷ ms) h ne = (h.0, Absent-append y x ms h.1 ne)

pub Distinct-append : (x : ℕ) (ms : List ℕ) → Distinct ms → Absent x ms → Distinct (ms ++ x ∷ [])
Distinct-append x [] d h = (tt, tt)
Distinct-append x (m ∷ ms) d h =
    (Absent-append m x ms d.0 (λ e. h.0 (sym e)), Distinct-append x ms d.1 h.1)

module _ (base count l : ℕ) where
  -- From node `n` on the records link `ms`; all wait for lock `l`, and those after `n` are WAITING.
  abbrev pub Chain : Shm → ℕ → List ℕ → Type 0
  Chain s n [] =
      (n < count)
      × (node_word s base n waiting_lock ≡ l)
      × (node_word s base n next_node ≡ invalid_node_id)
  Chain s n (m ∷ ms) =
      (n < count)
      × (node_word s base n waiting_lock ≡ l)
      × (node_word s base n next_node ≡ m)
      × (node_word s base m locked ≡ 1)
      × Chain s m ms

  -- The last node of a chain is a node.
  pub Chain-last : (s : Shm) (n : ℕ) (ms : List ℕ) → Chain s n ms → last n ms < count
  Chain-last s n [] c = c.0
  Chain-last s n (m ∷ ms) c = Chain-last s m ms c.4

  pub Chain-bound : (s : Shm) (n : ℕ) (ms : List ℕ) → Chain s n ms → n < count
  Chain-bound s n [] c = c.0
  Chain-bound s n (m ∷ ms) c = c.0

  pub Chain-lock :
      (s : Shm) (n : ℕ) (ms : List ℕ) → Chain s n ms → node_word s base n waiting_lock ≡ l
  Chain-lock s n [] c = c.1
  Chain-lock s n (m ∷ ms) c = c.1

  -- The nodes of a chain are below `count`.
  pub Chain-Absent : (s : Shm) (n : ℕ) (ms : List ℕ) → Chain s n ms → Absent count (n ∷ ms)
  Chain-Absent s n [] c = (omega (arith, c.0), tt)
  Chain-Absent s n (m ∷ ms) c = (omega (arith, c.0), Chain-Absent s m ms c.4)

  abbrev pub Same : Shm → Shm → ℕ → Type 0
  Same s t k =
      (node_word t base k next_node ≡ node_word s base k next_node)
      × (node_word t base k waiting_lock ≡ node_word s base k waiting_lock)

  -- Stores to the records of nodes outside of the chain, and to the flag of its first node.
  pub Chain-frame :
      (s t : Shm) (x y n : ℕ) (ms : List ℕ)
      → ((k : ℕ) → k ≢ x → Same s t k)
      → ((k : ℕ) → k ≢ x → k ≢ y → node_word t base k locked ≡ node_word s base k locked)
      → Absent x (n ∷ ms)
      → Absent y ms
      → Chain s n ms
      → Chain t n ms
  Chain-frame s t x y n [] same flags ax ay c = ground (arith, same n)
  Chain-frame s t x y n (m ∷ ms) same flags ax ay c =
      let rest = Chain-frame s t x y m ms same flags ax.1 ay.1 c.4 in
      let here = same n (λ e. ax.0 (sym e)) in
      (
        c.0,
        here.1 ∙ c.1,
        here.0 ∙ c.2,
        flags m (λ e. ax.1.0 (sym e)) (λ e. ay.0 (sym e)) ∙ c.3,
        rest,
      )

  -- What `acquire_lock` of node `x` does to the records where the tail was `p`.
  pub record Linked (s t : Shm) (x p : ℕ) : Type 0 where
    pub bound : x < count
    pub new_next : node_word t base x next_node ≡ invalid_node_id
    pub new_flag : node_word t base x locked ≡ 1
    pub new_lock : node_word t base x waiting_lock ≡ l
    pub link : node_word t base p next_node ≡ x
    pub others :
        (k : ℕ) → k ≢ x → k ≢ p → node_word t base k next_node ≡ node_word s base k next_node
    pub flags : (k : ℕ) → k ≢ x → node_word t base k locked ≡ node_word s base k locked
    pub locks : (k : ℕ) → k ≢ x → node_word t base k waiting_lock ≡ node_word s base k waiting_lock

  pub Chain-append :
      {s t : Shm} (x n : ℕ) (ms : List ℕ)
      → Linked s t x (last n ms)
      → Distinct (n ∷ ms)
      → Absent x (n ∷ ms)
      → Chain s n ms
      → Chain t n (ms ++ x ∷ [])
  Chain-append x n [] k d a c = (
    c.0,
    k.locks n (λ e. a.0 (sym e)) ∙ c.1,
    k.link,
    k.new_flag,
    (k.bound, k.new_lock, k.new_next),
  )
  Chain-append x n (m ∷ ms) k d a c =
      let ne = λ (e : n ≡ x). a.0 (sym e) in
      (
        c.0,
        k.locks n ne ∙ c.1,
        k.others n ne (ne-last n m ms d.0) ∙ c.2,
        k.flags m (λ e. a.1.0 (sym e)) ∙ c.3,
        Chain-append x m ms k d.1 a.1 c.4,
      )
