-- ===== src/Core/Fault/Laws.antt =====
-- Laws of the fault bitmap of src/core/fault.c.
use open_evcharger.Prelude.{
  ℕ, zero, suc, ◌+◌, ◌≤◌, ◌<◌, ◌≡◌, ◌≢◌, refl, true, false, not, ◌&&◌, if◌then◌else◌, ltb, ◌==◌,
  arith,
}
use open_evcharger.Prelude.Bits.{
  bit, set_bit, clear_bit, and_bits, bit-lt, bit-set_bit_self, bit-set_bit_ne, bit-clear_bit_self,
  bit-clear_bit_ne, common_bit, bit-zero, bit-and_bits,
}
use open_evcharger.Core.Fault.{
  FaultState, refused, gfci, is_active, is_latched_kind, any_latched_active, mask_loop, raise,
  clear, clear_loop, clear_all_clearable,
}

-- The mask of the latched ids.
latched_mask : mask_loop 15 1 0 ≡ 65534
unfolding mask_loop set_bit
latched_mask = refl

-- The ids in the mask are 1 to 15.
mask_bit : (i : ℕ) → bit 65534 i ≡ 1 → (1 ≤ i) × (i < 16)
unfolding bit
mask_bit zero h = absurd (omega arith)
mask_bit
      (suc
        (suc (suc (suc (suc (suc (suc (suc (suc (suc (suc (suc (suc (suc (suc (suc i))))))))))))))))
      h =
    absurd (omega (arith, bit-zero i))
mask_bit i h = omega arith

bit_mask : (i : ℕ) → 1 ≤ i → i < 16 → bit 65534 i ≡ 1
unfolding bit
bit_mask zero h k = absurd (omega arith)
bit_mask
      (suc
        (suc (suc (suc (suc (suc (suc (suc (suc (suc (suc (suc (suc (suc (suc (suc i))))))))))))))))
      h k =
    absurd (omega arith)
bit_mask i h k = refl

pub mask_word : (s : FaultState) → any_latched_active s ≡ not (and_bits 32 s.active_bits 65534 == 0)
unfolding any_latched_active set_bit
mask_word s = refl

pub any_latched_active-true :
    (s : FaultState)
    → any_latched_active s ≡ true
    → (id : ℕ) × (is_latched_kind id ≡ true) × (is_active s id ≡ true)
unfolding is_latched_kind is_active
any_latched_active-true s h =
    let ne : and_bits 32 s.active_bits 65534 ≢ 0 = λ e. ground (arith, mask_word s) in
    let (i, lt, p, q) = common_bit 32 s.active_bits 65534 ne in
    (i, ground (arith, mask_bit i q), ground (arith, mask_bit i q))

pub any_latched_active_of :
    (s : FaultState) (id : ℕ)
    → is_latched_kind id ≡ true
    → is_active s id ≡ true
    → any_latched_active s ≡ true
unfolding is_latched_kind is_active
any_latched_active_of s id k h =
    ground (arith, mask_word s, bit_mask id, bit-and_bits 32 s.active_bits 65534 id, bit-zero id)

-- A fault id is raised: it is active, and no other id changes.
pub is_active-raise_self :
    (s : FaultState) (id : ℕ) → 0 < id → id < 21 → is_active (raise s id).0 id ≡ true
unfolding is_active raise
is_active-raise_self s id p q = ground (arith, bit-set_bit_self s.active_bits id)

pub is_active-raise_ne :
    (s : FaultState) (id j : ℕ) → id ≢ j → is_active (raise s id).0 j ≡ is_active s j
unfolding is_active raise
is_active-raise_ne s id j ne = ground (arith, bit-set_bit_ne s.active_bits id j ne)

pub is_active-clear_self :
    (s : FaultState) (id : ℕ) → id ≢ gfci → is_active (clear s id).0 id ≡ false
unfolding is_active clear
is_active-clear_self s id ne =
    ground (arith, bit-clear_bit_self s.active_bits id, bit-lt s.active_bits id)

pub is_active-clear_ne :
    (s : FaultState) (id j : ℕ) → id ≢ j → is_active (clear s id).0 j ≡ is_active s j
unfolding is_active clear
is_active-clear_ne s id j ne = ground (arith, bit-clear_bit_ne s.active_bits id j ne)

-- `fault_clear` never clears the ground-fault bit.
pub clear-gfci : (s : FaultState) → clear s gfci ≡ (s, refused)
unfolding clear
clear-gfci s = refl

-- The loop leaves alone what it does not visit, and the ground-fault bit.
bit-clear_loop :
    (k i bits n j : ℕ)
    → bit (clear_loop k i bits n).0 j
      ≡ (if not (ltb j i) && ltb j (i + k) && not (j == gfci) then 0 else bit bits j)
unfolding clear_loop
bit-clear_loop zero i bits n j = ground arith
bit-clear_loop (suc k) i bits n j = ground (
  arith,
  bit-clear_loop k (suc i) (clear_bit bits i) (n + 1) j,
  bit-clear_loop k (suc i) bits n j,
  bit-clear_bit_self bits i,
  bit-clear_bit_ne bits i j,
  bit-lt bits i,
)

pub is_active-clear_all :
    (s : FaultState) (j : ℕ)
    → is_active (clear_all_clearable s).0 j
      ≡ (if is_latched_kind j && not (j == gfci) then false else is_active s j)
unfolding is_active clear_all_clearable is_latched_kind
is_active-clear_all s j = ground (arith, bit-clear_loop 15 1 s.active_bits 0 j)
