-- ===== src/Core/Fault/Latched.antt =====
-- How `fault_any_latched_active` of src/core/fault.c moves with the operations.
use mathlib.Core.Path.{subst}
use native.Mathlib.Decide.{ℕ_discrete}
use open_evcharger.Prelude.{
  ℕ, ◌<◌, ◌≡◌, ◌≢◌, refl, Bool, true, false, not, ◌&&◌, arith, sym, ap, ◌∙◌, if◌then◌else◌, ◌==◌,
}
use open_evcharger.Prelude.Bits.{and_bits, set_bit}
use open_evcharger.Core.Fault.{
  FaultState, gfci, init, is_active, is_latched_kind, any_latched_active, raise, clear,
  clear_all_clearable,
}
use open_evcharger.Core.Fault.Laws.{
  any_latched_active-true, any_latched_active_of, is_active-raise_self, is_active-raise_ne,
  is_active-clear_all, is_active-clear_ne,
}
use open_evcharger.Core.Fault.FirstRaised.{is_active-clear_le}

-- More latched faults, and the summary stays true.
any_latched_mono :
    (s t : FaultState)
    → ((id : ℕ) → is_latched_kind id ≡ true → is_active s id ≡ true → is_active t id ≡ true)
    → any_latched_active s ≡ true
    → any_latched_active t ≡ true
any_latched_mono s t f h =
    let (id, k, a) = any_latched_active-true s h in any_latched_active_of t id k (f id k a)

bool_eq : (a b : Bool) → (a ≡ true → b ≡ true) → (b ≡ true → a ≡ true) → a ≡ b
bool_eq true true f g = refl
bool_eq true false f g = sym (f refl)
bool_eq false true f g = g refl
bool_eq false false f g = refl

pub latched_range : (id : ℕ) → is_latched_kind id ≡ true → (0 < id) × (id < 21)
unfolding is_latched_kind
latched_range id h = ground arith

-- Raising a latched id makes the summary true.
pub any_latched-raise :
    (s : FaultState) (id : ℕ) → is_latched_kind id ≡ true → any_latched_active (raise s id).0 ≡ true
any_latched-raise s id k =
    let (p, q) = latched_range id k in
    any_latched_active_of (raise s id).0 id k (is_active-raise_self s id p q)

latched_ne : (id j : ℕ) → is_latched_kind id ≡ false → is_latched_kind j ≡ true → id ≢ j
latched_ne id j h k e = ground (arith, ap is_latched_kind e)

-- Raising or clearing a self-clearing id leaves the summary alone.
pub any_latched-raise_other :
    (s : FaultState) (id : ℕ)
    → is_latched_kind id ≡ false
    → any_latched_active (raise s id).0 ≡ any_latched_active s
any_latched-raise_other s id h =
    let same =
      λ (j : ℕ) (k : is_latched_kind j ≡ true). is_active-raise_ne s id j (latched_ne id j h k) in
    bool_eq _ _ (any_latched_mono (raise s id).0 s (λ j k a. sym (same j k) ∙ a))
      (any_latched_mono s (raise s id).0 (λ j k a. same j k ∙ a))

pub any_latched-clear_other :
    (s : FaultState) (id : ℕ)
    → is_latched_kind id ≡ false
    → any_latched_active (clear s id).0 ≡ any_latched_active s
any_latched-clear_other s id h =
    let same =
      λ (j : ℕ) (k : is_latched_kind j ≡ true). is_active-clear_ne s id j (latched_ne id j h k) in
    bool_eq _ _ (any_latched_mono (clear s id).0 s (λ j k a. sym (same j k) ∙ a))
      (any_latched_mono s (clear s id).0 (λ j k a. same j k ∙ a))

-- Clearing gives no latched fault that was not there.
pub any_latched-clear_le :
    (s : FaultState) (id : ℕ)
    → any_latched_active (clear s id).0 ≡ true
    → any_latched_active s ≡ true
any_latched-clear_le s id =
    any_latched_mono (clear s id).0 s (λ j k a. ground (arith, a, is_active-clear_le s id j))

pub any_latched-clear_all_le :
    (s : FaultState)
    → any_latched_active (clear_all_clearable s).0 ≡ true
    → any_latched_active s ≡ true
any_latched-clear_all_le s =
    any_latched_mono (clear_all_clearable s).0 s
      (λ j k a. ground (arith, a, is_active-clear_all s j))

only_gfci :
    (s : FaultState) (id : ℕ)
    → is_latched_kind id ≡ true
    → (if is_latched_kind id && not (id == gfci) then false else is_active s id) ≡ true
    → is_active s gfci ≡ true
only_gfci s id k h = elim (ℕ_discrete id gfci) [
  | yes e ↦ subst (λ j. is_active s j ≡ true) e (ground arith)
  | no ne ↦ ground arith
]

-- After "clear all", the summary is true exactly if the ground-fault bit is set.
pub any_latched-clear_all :
    (s : FaultState) → any_latched_active (clear_all_clearable s).0 ≡ is_active s gfci
any_latched-clear_all s =
    bool_eq _ _
      (λ h.
        let t = (clear_all_clearable s).0 in
        let (id, k, a) = any_latched_active-true t h in
        only_gfci s id k (sym (is_active-clear_all s id) ∙ a))
      (λ a.
        let t = (clear_all_clearable s).0 in
        any_latched_active_of t gfci (unfold is_latched_kind in refl)
          (is_active-clear_all s gfci ∙ (unfold is_latched_kind in a)))

pub any_latched-init : any_latched_active init ≡ false
unfolding init any_latched_active and_bits set_bit
any_latched-init = refl
