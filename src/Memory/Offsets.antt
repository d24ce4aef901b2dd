-- ===== src/Memory/Offsets.antt =====
-- The offsets and the pointers of src/shared_memory.cpp.
use cxl_dis_lock.Common.{ℕ, ◌+◌, ◌≤◌, ◌<◌, ◌≡◌, arith, ◌⊎◌, inl, inr, dec_lt}
use cxl_dis_lock.Types.{invalid_offset}
use cxl_dis_lock.Memory.{Shm, Ptr, null, at, offset_to_ptr, ptr_to_offset, IsOpen}

-- An offset of the region and back, or one outside of it, which has no pointer.
abbrev pub OffsetRound : Shm → ℕ → Type 0
OffsetRound s i =
    ((i < s.size) × (ptr_to_offset s (offset_to_ptr s i) ≡ i))
    ⊎ ((s.size ≤ i) × (offset_to_ptr s i ≡ null) × (ptr_to_offset s null ≡ invalid_offset))

-- A pointer into the region and back, or another one, which has no offset.
abbrev pub PtrRound : Shm → Ptr → Type 0
PtrRound s p =
    ((ptr_to_offset s p < s.size) × (offset_to_ptr s (ptr_to_offset s p) ≡ p))
    ⊎ ((ptr_to_offset s p ≡ invalid_offset) × (offset_to_ptr s (ptr_to_offset s p) ≡ null))

module _ {s : Shm} (o : IsOpen s) where
  offset-OffsetRound : (i : ℕ) → OffsetRound s i
  unfolding offset_to_ptr ptr_to_offset
  offset-OffsetRound i = elim (dec_lt i s.size) [
    | yes h ↦ inl (h, ground (arith, o.is_valid, o.is_mapped, h))
    | no h ↦
        inr
          (omega (arith, h), ground (arith, o.is_valid, o.is_mapped, h), ground (arith, o.is_valid))
  ]

  ptr-PtrRound : s.size ≤ invalid_offset → (p : Ptr) → PtrRound s p
  unfolding offset_to_ptr ptr_to_offset
  ptr-PtrRound small null =
      inr (ground (arith, o.is_valid), ground (arith, o.is_valid, o.is_mapped, small))
  ptr-PtrRound small (at p) = elim (dec_lt p o.address) [
    | yes before ↦ inr (
      ground (arith, o.is_valid, o.is_mapped, before),
      ground (arith, o.is_valid, o.is_mapped, small, before),
    )
    | no after ↦ elim (dec_lt p (o.address + s.size)) [
      | yes inside ↦ inl (
        ground (arith, o.is_valid, o.is_mapped, after, inside),
        ground (arith, o.is_valid, o.is_mapped, after, inside),
      )
      | no past ↦ inr (
        ground (arith, o.is_valid, o.is_mapped, after, past),
        ground (arith, o.is_valid, o.is_mapped, small, after, past),
      )
    ]
  ]

  -- On an open region of at most 2^64 - 1 bytes `offset_to_ptr` and `ptr_to_offset` undo each other: an
  -- offset below the size has a pointer whose offset it is, and any other offset the null pointer,
  -- whose offset is INVALID_OFFSET; a pointer has an offset below the size, whose pointer it is, or
  -- INVALID_OFFSET, whose pointer is null.
  pub offsets-Inverse :
      s.size ≤ invalid_offset → ((i : ℕ) → OffsetRound s i) × ((p : Ptr) → PtrRound s p)
  offsets-Inverse small = (offset-OffsetRound, ptr-PtrRound small)
