-- ===== src/Region/Ledger.antt =====
-- The descriptors and mappings of a process whose objects of src/shared_memory.cpp are made, opened, closed,
-- moved and destroyed in any order.
use cxl_dis_lock.Common.{
  ℕ, ◌+◌, ◌-◌, ◌≤◌, ◌<◌, ◌≡◌, ◌≢◌, arith, refl, ap, subst, sym, ◌∙◌, Bool, false, ◌==◌, Option,
  none, some, ◌⊎◌, inl, inr, Bool-cases, ℕ_discrete, total, total-set, total_zero, set,
}
use cxl_dis_lock.Memory.{null_base}
use cxl_dis_lock.Region.{Os, Region, Config, new_region, cleanup, init}
use cxl_dis_lock.Region.Outcome.{IsClosed, IsInUse, init-Outcome, cleanup-IsClosed}
use cxl_dis_lock.Region.Balance.{
  IsCounted, fd_count, mapping_count, cleanup-Balanced, init-Balanced,
}
use cxl_dis_lock.Region.Moves.{move_construct, move_assign, destruct}
use cxl_dis_lock.Region.Objects.{
  State, Step, construct, opens, closes, moves_new, assigns, destroys, Reach, start, later,
}

abbrev pub fds : Option Region → ℕ
fds none = 0
fds (some r) = fd_count r.fd

abbrev pub mappings : Option Region → ℕ
mappings none = 0
mappings (some r) = mapping_count r.shm.base

-- An object is in use or closed.
abbrev pub Sound : Option Region → Type 0
Sound none = Unit {0}
Sound (some r) = IsClosed r ⊎ IsInUse r

module _ {W : Type 0} (os : Os W) (files maps : W → ℕ) (counts : IsCounted os files maps)
    (nonnull : (fd size : ℕ) (sync : Bool) (w : W) → (os.mmap fd size sync w).0 ≢ null_base)
    (n f0 m0 : ℕ) where
  -- With `f` descriptors and `m` mappings the process has what the objects hold, and `f0` and `m0` more.
  pub record Accounted (objects : ℕ → Option Region) (f m : ℕ) : Type 0 where
    pub all_files : f ≡ f0 + total (λ k. fds (objects k)) n
    pub all_maps : m ≡ m0 + total (λ k. mappings (objects k)) n
    pub sound : (k : ℕ) → Sound (objects k)

  abbrev pub IsAccounted : State W → Type 0
  IsAccounted s = Accounted s.objects (files s.process) (maps s.process)

  -- What one object holds is part of it.
  held-le :
      {objects : ℕ → Option Region} {f m : ℕ} (i : ℕ)
      → i < n
      → Accounted objects f m
      → (fds (objects i) ≤ f) × (mappings (objects i) ≤ m)
  held-le {objects} i hi a = omega (
    arith,
    a.all_files,
    a.all_maps,
    total-set fds objects i none n hi,
    total-set mappings objects i none n hi,
  )

  replace-Accounted :
      {objects : ℕ → Option Region} {f m : ℕ} (i : ℕ) (o : Option Region) (f' m' : ℕ)
      → i < n
      → Accounted objects f m
      → f' + fds (objects i) ≡ f + fds o
      → m' + mappings (objects i) ≡ m + mappings o
      → Sound o
      → Accounted (set objects i o) f' m'
  replace-Accounted {objects} i o f' m' hi a ef em good = record {
    all_files = omega (arith, a.all_files, total-set fds objects i o n hi, ef);
    all_maps = omega (arith, a.all_maps, total-set mappings objects i o n hi, em);
    sound = λ k. elim (Bool-cases (i == k)) [ inl e ↦ rw e good | inr e ↦ rw e (a.sound k) ];
  }

  base-ne_null : (r : Region) → Sound (some r) → r.shm.base ≢ null_base
  base-ne_null r (inl closed) = λ h. ground (arith, closed.no_mapping)
  base-ne_null r (inr used) = let o = used.is_open in λ h. ground (arith, o.is_mapped)

  init-Sound :
      (r : Region) (config : Config) (w : W)
      → Sound (some r)
      → Sound (some (init os r config w).0.0)
  init-Sound r config w good =
      let outcome = init-Outcome os nonnull r config w good in
      elim (ℕ_discrete config.size 0) [
        | yes e ↦ subst (λ x. Sound (some x.0.0)) (sym (outcome.1 e)) good
        | no pos ↦ elim (outcome.0 pos) [ inl used ↦ inr used.1 | inr closed ↦ inl closed.1 ]
      ]

  new_region-Sound : Sound (some new_region)
  new_region-Sound =
      inl (record { not_valid = refl; no_mapping = refl; no_size = refl; no_file = refl })

  object-Sound :
      {s : State W} (i : ℕ) {r : Region} → IsAccounted s → s.objects i ≡ some r → Sound (some r)
  object-Sound i a here = subst Sound here (a.sound i)

  -- A call on one object that keeps the balance.
  call-Accounted :
      {s : State W} (i : ℕ) (r : Region) (o : Option Region) (w' : W)
      → i < n
      → s.objects i ≡ some r
      → IsAccounted s
      → files w' + fd_count r.fd ≡ files s.process + fds o
      → maps w' + mapping_count r.shm.base ≡ maps s.process + mappings o
      → Sound o
      → IsAccounted (record { objects = set s.objects i o; process = w' })
  call-Accounted {s} i r o w' hi here a ef em good =
      replace-Accounted i o (files w') (maps w') hi a (rw here ef) (rw here em) good

  cleanup-Accounted :
      {s : State W} (i : ℕ) (r : Region)
      → i < n
      → s.objects i ≡ some r
      → IsAccounted s
      → IsClosed (cleanup os r s.process).0
        × (files (cleanup os r s.process).1 + fd_count r.fd ≡ files s.process)
        × (maps (cleanup os r s.process).1 + mapping_count r.shm.base ≡ maps s.process)
  cleanup-Accounted {s} i r hi here a =
      let good = object-Sound i a here in
      let closed = cleanup-IsClosed os nonnull r s.process (base-ne_null r good) in
      let backed = rw here at (held-le i hi a) in
      let balanced = cleanup-Balanced os files maps counts nonnull r s.process backed in
      (
        closed,
        omega (arith, balanced, ap fd_count closed.no_file),
        omega (arith, balanced, ap mapping_count closed.no_mapping),
      )

  -- Object `i` gives back what it holds and takes over what object `j` holds.
  transfer-Accounted :
      {s : State W} (i j : ℕ) (other : Region) (w' : W)
      → i < n
      → j < n
      → (i == j) ≡ false
      → s.objects j ≡ some other
      → IsAccounted s
      → files w' + fds (s.objects i) ≡ files s.process
      → maps w' + mappings (s.objects i) ≡ maps s.process
      → IsAccounted (record {
        objects = set (set s.objects j (some new_region)) i (some other);
        process = w';
      })
  transfer-Accounted {s} i j other w' hi hj apart there a ef em =
      let held = rw there at (held-le j hj a) in
      let f₁ = files s.process - fd_count other.fd in
      let m₁ = maps s.process - mapping_count other.shm.base in
      let a₁ =
        replace-Accounted j (some new_region) f₁ m₁ hj a (rw there (omega (arith, held)))
          (rw there (omega (arith, held))) new_region-Sound in
      let other_i : (j == i) ≡ false = ground (arith, apart) in
      replace-Accounted i (some other) (files w') (maps w') hi a₁
        (rw other_i (omega (arith, ef, held))) (rw other_i (omega (arith, em, held)))
        (object-Sound j a there)

  step-Accounted : {s t : State W} → IsAccounted s → Step os n s t → IsAccounted t
  unfolding move_construct move_assign destruct
  step-Accounted {s} a (construct i hi free) =
      replace-Accounted i (some new_region) (files s.process) (maps s.process) hi a (rw free refl)
        (rw free refl) new_region-Sound
  step-Accounted {s} a (opens i r config hi here) =
      let good = object-Sound i a here in
      let backed = rw here at (held-le i hi a) in
      let balanced = init-Balanced os files maps counts nonnull r config s.process good backed in
      call-Accounted i r _ _ hi here a balanced.0 balanced.1 (init-Sound r config s.process good)
  step-Accounted {s} a (closes i r hi here) =
      let (closed, ef, em) = cleanup-Accounted i r hi here a in
      call-Accounted i r _ _ hi here a (omega (arith, ef, ap fd_count closed.no_file))
        (omega (arith, em, ap mapping_count closed.no_mapping)) (inl closed)
  step-Accounted {s} a (moves_new i j other hi hj free here) =
      let apart : (i == j) ≡ false = elim (Bool-cases (i == j)) [
        | inl e ↦
            let same : i ≡ j = ground (arith, e) in
            absurd (cc (sym free ∙ ap s.objects same ∙ here))
        | inr e ↦ e
      ] in
      transfer-Accounted i j other s.process hi hj apart here a (rw free (omega arith))
        (rw free (omega arith))
  step-Accounted {s} a (assigns i j this other hi hj here there) = elim (Bool-cases (i == j)) [
    | inl e ↦
        let same : i ≡ j = ground (arith, e) in
        let kept =
          replace-Accounted j (some other) (files s.process) (maps s.process) hj a (rw there refl)
            (rw there refl) (object-Sound j a there) in
        let at_i : set s.objects j (some other) i ≡ some other = ground (arith, e) in
        let one : some this ≡ some other = sym here ∙ ap s.objects same ∙ there in
        rw e (
          replace-Accounted i (some this) (files s.process) (maps s.process) hi kept
            (ap (λ o. files s.process + fds o) (at_i ∙ sym one))
            (ap (λ o. maps s.process + mappings o) (at_i ∙ sym one)) (object-Sound i a here))
    | inr e ↦
        let (closed, ef, em) = cleanup-Accounted i this hi here a in
        rw e (
          transfer-Accounted i j other (cleanup os this s.process).1 hi hj e there a (rw here ef)
            (rw here em))
  ]
  step-Accounted {s} a (destroys i r hi here) =
      let (closed, ef, em) = cleanup-Accounted i r hi here a in
      call-Accounted i r none _ hi here a (omega (arith, ef)) (omega (arith, em)) tt

  Reach-Accounted : {s t : State W} → IsAccounted s → Reach os n s t → IsAccounted t
  Reach-Accounted a start = a
  Reach-Accounted a (later before step) = step-Accounted (Reach-Accounted a before) step

module _ {W : Type 0} (os : Os W) (files maps : W → ℕ) (counts : IsCounted os files maps)
    (nonnull : (fd size : ℕ) (sync : Bool) (w : W) → (os.mmap fd size sync w).0 ≢ null_base)
    (n : ℕ) where
  -- If the calls of the system open, map, unmap and close one thing at a time, and no mapping is a null
  -- pointer, then in every state that any sequence of constructions, calls of `init` and `cleanup`,
  -- moves, also of an object to itself, and destructions of region objects reaches from a process
  -- without such objects, the process has open exactly the descriptors and the mappings that its
  -- objects hold and those it had before, and every object is closed or in use.
  pub Reach-Balanced :
      (w : W) (t : State W)
      → Reach os n (record { objects = λ k. none; process = w }) t
      → (files t.process ≡ files w + total (λ k. fds (t.objects k)) n)
        × (maps t.process ≡ maps w + total (λ k. mappings (t.objects k)) n)
        × ((k : ℕ) → Sound (t.objects k))
  Reach-Balanced w t reach =
      let none_yet = total_zero (λ k. 0) n (λ k. refl) in
      let first : IsAccounted os files maps counts nonnull n (files w) (maps w)
          (record { objects = λ k. none; process = w }) =
        record {
          all_files = omega (arith, none_yet);
          all_maps = omega (arith, none_yet);
          sound = λ k. tt;
        } in
      let a = Reach-Accounted os files maps counts nonnull n (files w) (maps w) first reach in
      (a.all_files, a.all_maps, a.sound)
