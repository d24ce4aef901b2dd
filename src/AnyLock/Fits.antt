-- ===== src/AnyLock/Fits.antt =====
-- The `initialize` of each of the four algorithms on regions of any size, at offset 0, where
-- src/two_tier_lock.cpp and src/lock_manager.cpp are given their state.
use cxl_dis_lock.Common.{
  ℕ, ◌^◌, ◌*◌, ◌+◌, ◌≤◌, ◌<◌, ◌≡◌, arith, refl, ap, ◌||◌, ◌==◌, ltb, Bool, some, none, true, false,
  Bool-cases, ◌⊎◌, inl, inr, dec_lt,
}
use cxl_dis_lock.Types.{success, error_invalid_param, u64, max_node_count}
use cxl_dis_lock.Memory.{Shm, IsOpen, region}
use cxl_dis_lock.Memory.Access.{memset_zero-past}
use cxl_dis_lock.AnyLock.{AnyLock, cas, faa, mcs, qspinlock, any_initialize, any_get_state_size}
use cxl_dis_lock.Cas as CasLock
use cxl_dis_lock.Cas.Layout as CasLayout
use cxl_dis_lock.Cas.Slots.{initialize-eq, zeroed}
use cxl_dis_lock.Lines.{IsReady}
use cxl_dis_lock.Faa as FaaLock
use cxl_dis_lock.Faa.Init.{initialize-IsFresh}
use cxl_dis_lock.Mcs as McsLock
use cxl_dis_lock.Mcs.Init as McsInit
use cxl_dis_lock.Qspinlock as QspinlockLock
use cxl_dis_lock.Qspinlock.Init as QspinlockInit

-- The object once it is set up for `n` nodes.
abbrev pub with_count : ℕ → AnyLock → AnyLock
with_count n (cas a) = cas (record { node_count = n })
with_count n (faa a) = faa (record { node_count = n })
with_count n (mcs a) = mcs (record { node_count = n })
with_count n (qspinlock a) = qspinlock (record { node_count = n })

-- The call is refused and changes nothing; or the state fits and is set up for `n` nodes; or it does not
-- fit, and the call writes past the end of the mapping.
abbrev pub Start : ℕ → AnyLock → ℕ → Shm → Type 0
Start rounds a n s =
    (((n ≡ 0) ⊎ (max_node_count < n))
      × (any_initialize rounds a region 0 n s ≡ some ((a, error_invalid_param), s)))
    ⊎ (((0 < n)
          × (n ≤ max_node_count)
          × (any_get_state_size rounds a n ≤ s.size)
          × ((t : Shm) × (any_initialize rounds a region 0 n s
                ≡ some ((with_count n a, success), t))
              × IsOpen t
              × (t.size ≡ s.size)))
        ⊎ ((0 < n)
            × (n ≤ max_node_count)
            × (s.size < any_get_state_size rounds a n)
            × (any_initialize rounds a region 0 n s ≡ none)))

module _ {s : Shm} (opened : IsOpen s) (small : s.size < 2 ^ 64) (rounds n : ℕ) where
  abbrev Bad : Bool → Type 0
  Bad b = (n == 0 || ltb max_node_count n) ≡ b

  -- The three cases, for a state of `total` bytes.
  settle :
      (a : AnyLock) (total : ℕ)
      → (Bad false → any_get_state_size rounds a n ≡ total)
      → (Bad true → any_initialize rounds a region 0 n s ≡ some ((a, error_invalid_param), s))
      → (Bad false → s.size < total → any_initialize rounds a region 0 n s ≡ none)
      → (Bad false
          → total ≤ s.size
          → (t : Shm) × (any_initialize rounds a region 0 n s ≡ some ((with_count n a, success), t))
            × IsOpen t
            × (t.size ≡ s.size))
      → Start rounds a n s
  settle a total size refuses faults starts = elim (Bool-cases (n == 0 || ltb max_node_count n)) [
    | inl bad ↦ inl (ground (arith, bad), refuses bad)
    | inr fits ↦
        let few : (0 < n) × (n ≤ max_node_count) = ground (arith, fits) in
        elim (dec_lt s.size total) [
          | yes past ↦ inr (inr (few.0, few.1, omega (arith, past, size fits), faults fits past))
          | no room ↦
              let (t, run, still, same) = starts fits (omega (arith, room)) in
              inr (inl (few.0, few.1, omega (arith, room, size fits), (t, run, still, same)))
        ]
  ]

  -- The state of the three algorithms that share a layout.
  lines_size : Bad false → u64 (1024 * 64 + n * 64) ≡ 65536 + n * 64
  lines_size fits = ground (arith, fits)

  lines-IsReady : Bad false → 65536 + n * 64 ≤ s.size → IsReady s 0 n
  lines-IsReady fits room = record {
    is_open = opened;
    few = ground (arith, fits);
    room = omega (arith, room);
    small = small;
  }

  cas-Start : (a : CasLock.Cas) → Start rounds (cas a) n s
  unfolding any_initialize CasLock.initialize any_get_state_size CasLock.get_state_size
  cas-Start a =
      let total : Bad false → u64 (1024 * n * 4) ≡ 4096 * n = λ fits. ground (arith, fits) in
      settle (cas a) (4096 * n) total (λ bad. rw bad refl)
        (λ fits past.
          ground
            (arith, fits, total fits, memset_zero-past opened 0 (4096 * n) (omega (arith, past))))
        λ fits room.
          let ready : CasLayout.IsReady s 0 n = record {
            is_open = opened;
            few = ground (arith, fits);
            room = omega (arith, room);
            small = small;
          } in
          (
            zeroed s 0 n,
            ap (λ o. elim o [ none ↦ none | some ((b, rc), t) ↦ some ((cas b, rc), t) ])
                (initialize-eq a ready),
            record {
              is_valid = opened.is_valid;
              address = opened.address;
              is_mapped = opened.is_mapped;
            },
            refl,
          )

  faa-Start : (a : FaaLock.Faa) → Start rounds (faa a) n s
  unfolding any_initialize FaaLock.initialize any_get_state_size FaaLock.get_state_size
  faa-Start a =
      settle (faa a) (65536 + n * 64) lines_size (λ bad. rw bad refl)
        (λ fits past. ground (
          arith,
          fits,
          lines_size fits,
          memset_zero-past opened 0 (65536 + n * 64) (omega (arith, past)),
        ))
        λ fits room.
          let (t, run, same, left) = initialize-IsFresh a (lines-IsReady fits room) in
          (
            t,
            ap (λ o. elim o [ none ↦ none | some ((b, rc), u) ↦ some ((faa b, rc), u) ]) run,
            left.ready.is_open,
            same,
          )

  mcs-Start : (a : McsLock.Mcs) → Start rounds (mcs a) n s
  unfolding any_initialize McsLock.initialize any_get_state_size McsLock.get_state_size
  mcs-Start a =
      settle (mcs a) (65536 + n * 64) lines_size (λ bad. rw bad refl)
        (λ fits past. ground (
          arith,
          fits,
          lines_size fits,
          memset_zero-past opened 0 (65536 + n * 64) (omega (arith, past)),
        ))
        λ fits room.
          let (t, run, same, left) = McsInit.initialize-Empty a (lines-IsReady fits room) in
          (
            t,
            ap (λ o. elim o [ none ↦ none | some ((b, rc), u) ↦ some ((mcs b, rc), u) ]) run,
            (left 0 (omega arith)).ready.is_open,
            same,
          )

  qspinlock-Start : (a : QspinlockLock.Qspinlock) → Start rounds (qspinlock a) n s
  unfolding any_initialize QspinlockLock.initialize any_get_state_size QspinlockLock.get_state_size
  qspinlock-Start a =
      settle (qspinlock a) (65536 + n * 64) lines_size (λ bad. rw bad refl)
        (λ fits past. ground (
          arith,
          fits,
          lines_size fits,
          memset_zero-past opened 0 (65536 + n * 64) (omega (arith, past)),
        ))
        λ fits room.
          let (t, run, same, left) = QspinlockInit.initialize-Empty a (lines-IsReady fits room) in
          (
            t,
            ap (λ o. elim o [ none ↦ none | some ((b, rc), u) ↦ some ((qspinlock b, rc), u) ]) run,
            (left 0 (omega arith)).ready.is_open,
            same,
          )

  -- On an open region of less than 2^64 bytes the `initialize` of each of the four algorithms, at
  -- offset 0, refuses a number of nodes outside of 1 to 64 and changes nothing. For any other
  -- number it succeeds where `get_state_size` is at most the size of the region, keeps the region
  -- open and its size, and leaves the object with that number; and where it is more, the call
  -- writes past the end of the mapping.
  pub any-Start : (a : AnyLock) → Start rounds a n s
  any-Start (cas a) = cas-Start a
  any-Start (faa a) = faa-Start a
  any-Start (mcs a) = mcs-Start a
  any-Start (qspinlock a) = qspinlock-Start a
