-- ===== src/AlgorithmRegistry/Lookup.antt =====
-- The registry of src/lock_interface.cpp is a partial map from names to factories in which the first
-- registration of a name stands.
use cxl_dis_lock.Common.{
  ◌≡◌, ◌≢◌, arith, refl, sym, true, false, not, [], ◌∷◌, Option, none, some, Bytes, equal,
  Bool-cases, Option-cases, inl, inr, ==_refl,
}
use cxl_dis_lock.AlgorithmRegistry.{
  LockRegistryData, find, is_some, register_algorithm, invoke_found, create,
}

equal_refl : (s : Bytes) → equal s s ≡ true
unfolding equal
equal_refl [] = refl
equal_refl (c ∷ s) = rw (==_refl c) (equal_refl s)

equal-Same : (s t : Bytes) → equal s t ≡ true → s ≡ t
unfolding equal
equal-Same [] [] h = refl
equal-Same [] (d ∷ t) h = ground (arith, h)
equal-Same (c ∷ s) [] h = ground (arith, h)
equal-Same (c ∷ s) (d ∷ t) h = ground (arith, h, equal-Same s t)

-- What the map holds under a name.
abbrev pub entry : {F : Type 0} → LockRegistryData F → Bytes → Option F
entry registry name = find name registry.factories

equal-Other : (s t : Bytes) → t ≢ s → equal s t ≡ false
equal-Other s t distinct = elim (Bool-cases (equal s t)) [
  | inl same ↦ elim (distinct (sym (equal-Same s t same))) [ ]
  | inr other ↦ other
]

create-eq :
    {F A : Type 0} (invoke : F → Option A) (registry : LockRegistryData F) (other : Bytes)
    → other ≢ []
    → create invoke registry (some other) ≡ invoke_found invoke (entry registry other)
unfolding create
create-eq invoke registry [] h = elim (h refl) [ ]
create-eq invoke registry (c ∷ name) h = refl

register-entry :
    {F : Type 0} (registry : LockRegistryData F) (name : Bytes) (factory : F)
    → name ≢ []
    → let (done, after) = register_algorithm registry (some name) (some factory) in
      (done ≡ not (is_some (entry registry name)))
      × (entry after name
          ≡ (elim (entry registry name) [ none ↦ some factory | some old ↦ some old ]))
      × ((other : Bytes) → other ≢ name → entry after other ≡ entry registry other)
unfolding register_algorithm find
register-entry registry [] factory h = elim (h refl) [ ]
register-entry registry (c ∷ name) factory h =
    elim (Option-cases (find (c ∷ name) registry.factories)) [
      | inl free ↦
          rw (free, register_algorithm)
            (
              refl,
              rw (equal_refl (c ∷ name)) refl,
              λ other distinct. rw (equal-Other (c ∷ name) other distinct) refl,
            )
      | inr (old, taken) ↦ rw (taken, register_algorithm) (refl, taken, λ other distinct. refl)
    ]

-- A registration of a factory under a name that is not empty succeeds exactly where the name is free.
-- Afterwards the name has the factory that was there before, or else the new one, and every other name
-- has what it had; and `create` of any name that is not empty invokes the factory that the name has.
pub register_algorithm-entry :
    {F A : Type 0} (invoke : F → Option A) (registry : LockRegistryData F) (name : Bytes)
    (factory : F)
    → name ≢ []
    → let (done, after) = register_algorithm registry (some name) (some factory) in
      (done ≡ not (is_some (entry registry name)))
      × (entry after name
          ≡ (elim (entry registry name) [ none ↦ some factory | some old ↦ some old ]))
      × ((other : Bytes) → other ≢ name → entry after other ≡ entry registry other)
      × ((other : Bytes)
          → other ≢ []
          → create invoke after (some other) ≡ invoke_found invoke (entry after other))
register_algorithm-entry invoke registry name factory h =
    let added = register-entry registry name factory h in
    (
      added.0,
      added.1,
      added.2,
      create-eq invoke (register_algorithm registry (some name) (some factory)).1,
    )
