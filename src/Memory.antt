-- ===== src/Memory.antt =====
-- src/shared_memory.cpp, the part that the lock algorithms go through: the mapped region, the
-- pointers into it, and the atomic accesses. Memory is sequentially consistent, so `flush_cache`
-- and `memory_fence` change no value and have no counterpart here.
pub mod Access
pub mod Offsets
use mathlib.Core.Option
use cxl_dis_lock.Common.{
  ℕ, ◌+◌, ◌-◌, ◌≡◌, Bool, true, false, not, ◌||◌, ◌&&◌, Option, none, some, ltb, leb, ◌==◌,
  if◌then◌else◌,
}
use cxl_dis_lock.Types.{ConsistencyMode, u32, invalid_offset}

-- `impl_->base`: MAP_FAILED, nullptr, or the address of the mapping.
pub data Base : Type 0 where
  map_failed : Base
  null_base : Base
  mapped : ℕ → Base

pub data Ptr : Type 0 where
  null : Ptr
  at : ℕ → Ptr

-- `SharedMemoryRegion::Impl`, with what stands in the mapping, by byte offset.
pub record Shm : Type 0 where
  pub base : Base
  pub size : ℕ  -- size_t
  pub consistency : ConsistencyMode
  pub valid : Bool
  pub words : ℕ → ℕ  -- the field that begins at each byte offset

-- `static_cast<char*>(base) + offset`, where there is a mapping.
abbrev pub ptr_from : Base → ℕ → Ptr
ptr_from map_failed offset = null
ptr_from null_base offset = null
ptr_from (mapped a) offset = at (a + offset)

unfoldable pub offset_to_ptr : Shm → ℕ → Ptr
offset_to_ptr s offset =
    if not s.valid then null else (if leb s.size offset then null else ptr_from s.base offset)

-- The pointer comparison `cptr < base || cptr >= base + size`.
abbrev pub offset_from : Base → ℕ → ℕ → ℕ
offset_from map_failed size p = invalid_offset
offset_from null_base size p = if leb size p then invalid_offset else p
offset_from (mapped a) size p = if ltb p a || leb (a + size) p then invalid_offset else p - a

abbrev pub to_offset : Shm → Ptr → ℕ
to_offset s null = invalid_offset
to_offset s (at p) = offset_from s.base s.size p

unfoldable pub ptr_to_offset : Shm → Ptr → ℕ
ptr_to_offset s p = if not s.valid then invalid_offset else to_offset s p

-- `&p->field`, for a field at byte `k` of the structure.
abbrev pub field_of : Ptr → ℕ → Ptr
field_of null k = null
field_of (at p) k = at (p + k)

-- The `SharedMemoryRegion*` that a caller passes.
pub data Handle : Type 0 where
  nullptr : Handle
  region : Handle

-- `none` is an access through a null pointer or outside of the mapping.
abbrev pub M {ℓ} : Type ℓ → Type ℓ
M A = Shm → Option (A × Shm)

abbrev pub pure {ℓ} : {A : Type ℓ} → A → M A
pure a s = some (a, s)

infixl 5 ◌>>=◌ ◌>>◌
abbrev pub ◌>>=◌ {ℓ κ} : {A : Type ℓ} {B : Type κ} → M A → (A → M B) → M B
◌>>=◌ m f s = elim (m s) [ none ↦ none | some (a, t) ↦ f a t ]

abbrev pub ◌>>◌ {ℓ κ} : {A : Type ℓ} {B : Type κ} → M A → M B → M B
m >> k = m >>= λ _. k

abbrev pub fault {ℓ} : {A : Type ℓ} → M A
fault s = none

-- The method call `shm->offset_to_ptr(offset)`.
abbrev pub ptr_at : ℕ → M Ptr
ptr_at offset s = some (offset_to_ptr s offset, s)

-- The offset of a word of the mapping, where `width` bytes from `p` on lie in it.
abbrev pub span_from : Base → ℕ → ℕ → ℕ → Option ℕ
span_from map_failed size width p = none
span_from null_base size width p = none
span_from (mapped a) size width p =
    if ltb p a || ltb (a + size) (p + width) then none else some (p - a)

abbrev pub span : Shm → ℕ → Ptr → Option ℕ
span s width null = none
span s width (at p) = span_from s.base s.size width p

abbrev pub write : (ℕ → ℕ) → ℕ → ℕ → ℕ → ℕ
write f i v j = if i == j then v else f j

-- `memset(base, 0, n)` over whole words.
abbrev pub zero_span : (ℕ → ℕ) → ℕ → ℕ → ℕ → ℕ
zero_span f i n j = if leb i j && ltb j (i + n) then 0 else f j

unfoldable pub load : Ptr → M ℕ
load p s = Option.map (λ i. (s.words i, s)) (span s 4 p)

unfoldable pub store : Ptr → ℕ → M (Unit {0})
store p v s = Option.map (λ i. (tt, record s { words = write s.words i v })) (span s 4 p)

unfoldable pub compare_exchange : Ptr → ℕ → ℕ → M Bool
compare_exchange p expected desired = do
  old ← load p
  if old == expected then (store p desired >> pure true) else pure false

-- Returns the value before the addition, which wraps.
unfoldable pub fetch_add : Ptr → ℕ → M ℕ
fetch_add p v = do old ← load p; store p (u32 (old + v)); pure old

unfoldable pub memset_zero : Ptr → ℕ → M (Unit {0})
memset_zero p n s = Option.map (λ i. (tt, record s { words = zero_span s.words i n })) (span s n p)

-- An open region, as `SharedMemoryRegion::init` leaves it.
pub record IsOpen (s : Shm) : Type 0 where
  pub is_valid : s.valid ≡ true
  pub address : ℕ
  pub is_mapped : s.base ≡ mapped address
