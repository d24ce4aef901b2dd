-- ===== src/AlgorithmRegistry.antt =====
-- The registry of lock algorithms of src/lock_interface.cpp, a map from names to factories.
pub mod Lookup
use cxl_dis_lock.Common.{
  Bool, true, false, not, ◌||◌, if◌then◌else◌, List, [], ◌∷◌, Option, none, some, Bytes, equal,
}

-- `LockRegistryData::factories`; `F` are the function pointers.
pub record LockRegistryData (F : Type 0) : Type 0 where
  pub factories : List (Bytes × F)

module _ {F : Type 0} where
  -- `factories.find(key)`
  unfoldable pub find : Bytes → List (Bytes × F) → Option F
  find key [] = none
  find key ((name, factory) ∷ rest) = if equal name key then some factory else find key rest

  abbrev pub is_some : Option F → Bool
  is_some none = false
  is_some (some factory) = true

  -- A pointer to a text is `none` where it is null, and a text ends before its zero byte.
  unfoldable pub register_algorithm :
      LockRegistryData F → Option Bytes → Option F → Bool × LockRegistryData F
  register_algorithm registry none factory = (false, registry)
  register_algorithm registry (some []) factory = (false, registry)
  register_algorithm registry (some (c ∷ name)) none = (false, registry)
  register_algorithm registry (some (c ∷ name)) (some factory) =
      if is_some (find (c ∷ name) registry.factories)
      then (false, registry)
      else (true, record registry { factories = (c ∷ name, factory) ∷ registry.factories })

  -- `invoke` is the call of a factory.
  abbrev pub invoke_found : {A : Type 0} → (F → Option A) → Option F → Option A
  invoke_found invoke none = none
  invoke_found invoke (some factory) = invoke factory

  unfoldable pub create :
      {A : Type 0} → (F → Option A) → LockRegistryData F → Option Bytes → Option A
  create invoke registry none = none
  create invoke registry (some []) = none
  create invoke registry (some (c ∷ name)) =
      invoke_found invoke (find (c ∷ name) registry.factories)
