-- ===== src/Core/Fault/FirstRaised.antt =====
-- The record of the first fault, `first_raised`, against the bitmap of src/core/fault.c.
use open_evcharger.Prelude.{
  ℕ, zero, suc, ◌+◌, ◌≤◌, ◌<◌, ◌≡◌, ◌≢◌, ◌⊎◌, inl, inr, refl, true, false, if◌then◌else◌, ◌==◌,
  arith, Bool-cases, List, [], ◌∷◌, sym, ◌∙◌,
}
use mathlib.Core.Path.{subst}
use native.Mathlib.Decide.{ℕ_discrete}
use open_evcharger.Prelude.Bits.{bit, bit-lt, bit-zero}
use open_evcharger.Core.Fault.{
  FaultState, gfci, init, is_active, raise, clear, lowest, clear_all_clearable,
}
use open_evcharger.Core.Fault.Laws.{
  is_active-raise_self, is_active-raise_ne, is_active-clear_self, is_active-clear_ne, clear-gfci,
}

-- `lowest` gives an active id of the range, or none if there is none.
lowest_found :
    (n i bits : ℕ)
    → 0 < i
    → ((lowest n i bits ≡ 0)
        ⊎ ((i ≤ lowest n i bits) × (lowest n i bits < i + n) × (bit bits (lowest n i bits) ≡ 1)))
unfolding lowest
lowest_found zero i bits h = inl refl
lowest_found (suc n) i bits h = elim (Bool-cases (bit bits i == 1)) [
  | inl e ↦ inr (rw e (omega arith), rw e (omega arith), rw e (ground arith))
  | inr e ↦ rw e (elim (lowest_found n (suc i) bits (omega arith)) [
    | inl z ↦ inl z
    | inr f ↦ inr (omega arith, omega arith, f.2)
  ])
]

lowest_none : (n i bits j : ℕ) → 0 < i → lowest n i bits ≡ 0 → i ≤ j → j < i + n → bit bits j ≡ 0
unfolding lowest
lowest_none zero i bits j h e p q = absurd (omega arith)
lowest_none (suc n) i bits j h e p q = ground (arith, lowest_none n (suc i) bits j, bit-lt bits i)

-- No fault is active exactly when `first_raised` is `FAULT_NONE`, and otherwise `first_raised`
-- names an active fault.
pub record IsConsistent (s : FaultState) : Type 0 where
  pub names_active : (s.first_raised ≡ 0) ⊎ (is_active s s.first_raised ≡ true)
  pub none_if_quiet : s.first_raised ≡ 0 → (j : ℕ) → is_active s j ≡ false

lowest-IsConsistent :
    (bits : ℕ) → IsConsistent (record { active_bits = bits; first_raised = lowest 20 1 bits })
unfolding is_active
lowest-IsConsistent bits = record {
  names_active = elim (lowest_found 20 1 bits (omega arith)) [
    | inl z ↦ inl z
    | inr f ↦ inr (ground arith)
  ];
  none_if_quiet = λ e j. ground (arith, lowest_none 20 1 bits j);
}

pub init-IsConsistent : IsConsistent init
unfolding init is_active
init-IsConsistent = record {
  names_active = inl refl;
  none_if_quiet = λ e j. ground (arith, bit-zero j);
}

raise_quiet :
    (s : FaultState) (id : ℕ)
    → (raise s id).0.first_raised ≡ 0
    → (s.first_raised ≡ 0) × ((raise s id).0 ≡ s)
unfolding raise
raise_quiet s id e = ground arith

raise_first :
    (s : FaultState) (id : ℕ)
    → ((raise s id).0 ≡ s)
      ⊎ ((0 < id)
          × (id < 21)
          × ((raise s id).0.first_raised ≡ (if s.first_raised == 0 then id else s.first_raised)))
unfolding raise
raise_first s id = ground arith

pub still_active :
    (s : FaultState) (id j : ℕ)
    → 0 < id
    → id < 21
    → is_active s j ≡ true
    → is_active (raise s id).0 j ≡ true
still_active s id j p q h = elim (ℕ_discrete id j) [
  | yes e ↦ subst (λ k. is_active (raise s id).0 k ≡ true) e (is_active-raise_self s id p q)
  | no ne ↦ rw (is_active-raise_ne s id j ne) h
]

-- `fault_raise` keeps the record of the first fault consistent, whatever the id.
pub raise-IsConsistent : (s : FaultState) (id : ℕ) → IsConsistent s → IsConsistent (raise s id).0
raise-IsConsistent s id v = record {
  names_active = elim (raise_first s id) [
    | inl same ↦ rw same v.names_active
    | inr new ↦ rw new.2 (elim (Bool-cases (s.first_raised == 0)) [
      | inl z ↦ rw z (inr (is_active-raise_self s id new.0 new.1))
      | inr nz ↦
          rw nz
            (inr (still_active s id s.first_raised new.0 new.1 (ground (arith, v.names_active))))
    ])
  ];
  none_if_quiet = λ e j. let (z, same) = raise_quiet s id e in rw same (v.none_if_quiet z j);
}

clear_first :
    (s : FaultState) (id : ℕ)
    → ((clear s id).0 ≡ s)
      ⊎ ((id ≢ s.first_raised) × (s.first_raised ≡ (clear s id).0.first_raised))
      ⊎ ((clear s id).0.first_raised ≡ lowest 20 1 (clear s id).0.active_bits)
unfolding clear
clear_first s id = ground arith

IsConsistent-of_eq : (s : FaultState) → s.first_raised ≡ lowest 20 1 s.active_bits → IsConsistent s
IsConsistent-of_eq s e =
    subst (λ k. IsConsistent (record { active_bits = s.active_bits; first_raised = k })) (sym e)
      (lowest-IsConsistent s.active_bits)

pub is_active-clear_le :
    (s : FaultState) (id j : ℕ) → is_active s j ≡ false → is_active (clear s id).0 j ≡ false
is_active-clear_le s id j h = elim (ℕ_discrete id j) [
  | no ne ↦ rw (is_active-clear_ne s id j ne) h
  | yes e ↦ elim (ℕ_discrete id gfci) [
    | yes g ↦ rw (g, clear-gfci s) h
    | no ng ↦ subst (λ k. is_active (clear s id).0 k ≡ false) e (is_active-clear_self s id ng)
  ]
]

-- `fault_clear` keeps the record of the first fault consistent, whatever the id.
pub clear-IsConsistent : (s : FaultState) (id : ℕ) → IsConsistent s → IsConsistent (clear s id).0
clear-IsConsistent s id v = elim (clear_first s id) [
  | inl same ↦ rw same v
  | inr (inl (ne, e)) ↦ record {
    names_active = rw (← e) (elim v.names_active [
      | inl z ↦ inl z
      | inr a ↦ inr (rw (is_active-clear_ne s id s.first_raised ne) a)
    ]);
    none_if_quiet = λ z j. is_active-clear_le s id j (v.none_if_quiet (e ∙ z) j);
  }
  | inr (inr e) ↦ IsConsistent-of_eq (clear s id).0 e
]

-- `fault_clear_all_clearable` makes the record of the first fault consistent, from any state.
pub clear_all-IsConsistent : (s : FaultState) → IsConsistent (clear_all_clearable s).0
unfolding clear_all_clearable
clear_all-IsConsistent s = lowest-IsConsistent _

-- The operations on the bitmap.
pub data Op : Type 0 where
  op_raise : ℕ → Op
  op_clear : ℕ → Op
  op_clear_all : Op

unfoldable pub apply : Op → FaultState → FaultState
apply (op_raise id) s = (raise s id).0
apply (op_clear id) s = (clear s id).0
apply op_clear_all s = (clear_all_clearable s).0

unfoldable pub apply_all : List Op → FaultState → FaultState
apply_all [] s = s
apply_all (o ∷ os) s = apply_all os (apply o s)

-- Any sequence of fault_raise, fault_clear and fault_clear_all_clearable, with any identifiers, keeps
-- first_raised consistent with the bitmap: zero exactly if no fault is active, else an active one.
pub apply_all-IsConsistent :
    (os : List Op) (s : FaultState) → IsConsistent s → IsConsistent (apply_all os s)
unfolding apply_all apply
apply_all-IsConsistent [] s v = v
apply_all-IsConsistent (op_raise id ∷ os) s v =
    apply_all-IsConsistent os _ (raise-IsConsistent s id v)
apply_all-IsConsistent (op_clear id ∷ os) s v =
    apply_all-IsConsistent os _ (clear-IsConsistent s id v)
apply_all-IsConsistent (op_clear_all ∷ os) s v =
    apply_all-IsConsistent os _ (clear_all-IsConsistent s)
