-- ===== src/Core/Fault.antt =====
-- src/core/fault.h and src/core/fault.c: the fault catalog and its bitmap.
-- An `int` result of -1, 0 or 1 is an `Outcome`. A `fault_id_t` is a number, as in C.
pub mod Laws
pub mod FirstRaised
pub mod Latched
use open_evcharger.Prelude.{
  ℕ, zero, suc, ◌+◌, Bool, true, false, not, ◌&&◌, if◌then◌else◌, ltb, ◌==◌,
}
use open_evcharger.Prelude.Bits.{bit, set_bit, clear_bit, and_bits}

abbrev pub none_id : ℕ
none_id = 0

abbrev pub gfci : ℕ
gfci = 1

abbrev pub relay_weld : ℕ
relay_weld = 2

abbrev pub relay_stuck_open : ℕ
relay_stuck_open = 3

abbrev pub pe_continuity : ℕ
pe_continuity = 4

abbrev pub cp_no_pilot : ℕ
cp_no_pilot = 5

abbrev pub boot_self_test : ℕ
boot_self_test = 7

abbrev pub gfci_self_test : ℕ
gfci_self_test = 8

abbrev pub adc_out_of_range : ℕ
adc_out_of_range = 11

abbrev pub hard_over_current : ℕ
hard_over_current = 12

abbrev pub crash_loop_safe_fail : ℕ
crash_loop_safe_fail = 13

abbrev pub over_temp : ℕ
over_temp = 16

abbrev pub soft_over_current : ℕ
soft_over_current = 17

abbrev pub cc_out_of_range : ℕ
cc_out_of_range = 18

abbrev pub ac_absent : ℕ
ac_absent = 19

abbrev pub cp_regression : ℕ
cp_regression = 20

abbrev pub count : ℕ
count = 21

abbrev pub first_self_clearing : ℕ
first_self_clearing = over_temp

-- `fault_state_t`
pub record FaultState : Type 0 where
  pub active_bits : ℕ  -- uint32_t
  pub first_raised : ℕ

-- -1, 0 and 1
pub data Outcome : Type 0 where
  refused unchanged changed : Outcome

-- `FID_OK`
abbrev pub fid_ok : ℕ → Bool
fid_ok id = ltb none_id id && ltb id count

unfoldable pub init : FaultState
init = record { active_bits = 0; first_raised = none_id }

unfoldable pub is_latched_kind : ℕ → Bool
is_latched_kind id = if fid_ok id then ltb id first_self_clearing else false

unfoldable pub is_active : FaultState → ℕ → Bool
is_active s id = if fid_ok id then bit s.active_bits id == 1 else false

unfoldable pub any_active : FaultState → Bool
any_active s = not (s.active_bits == 0)

-- `for (i = from; i < from + n; ++i) mask |= 1u << i`
mask_loop : ℕ → ℕ → ℕ → ℕ
mask_loop zero i mask = mask
mask_loop (suc n) i mask = mask_loop n (suc i) (set_bit mask i)

unfoldable pub any_latched_active : FaultState → Bool
unfolding mask_loop
any_latched_active s = not (and_bits 32 s.active_bits (mask_loop 15 1 0) == 0)

unfoldable pub raise : FaultState → ℕ → FaultState × Outcome
raise s id =
    if fid_ok id
    then if bit s.active_bits id == 1 then (s, unchanged) else (
      record {
        active_bits = set_bit s.active_bits id;
        first_raised = if s.first_raised == none_id then id else s.first_raised;
      },
      changed,
    )
    else (s, refused)

-- The loop that finds the lowest active id among the `n` ids from `i` on.
unfoldable pub lowest : ℕ → ℕ → ℕ → ℕ
lowest zero i bits = none_id
lowest (suc n) i bits = let rest = lowest n (suc i) bits in if bit bits i == 1 then i else rest

unfoldable pub clear : FaultState → ℕ → FaultState × Outcome
clear s id =
    let bits = clear_bit s.active_bits id in
    if fid_ok id
    then if id == gfci
      then (s, refused)
      else if bit s.active_bits id == 1
      then (
        record {
          active_bits = bits;
          first_raised = if s.first_raised == id then lowest 20 1 bits else s.first_raised;
        },
        changed,
      )
      else (s, unchanged)
    else (s, refused)

-- The loop of `fault_clear_all_clearable` over the `n` ids from `i` on; the result's number is the
-- count of bits cleared.
unfoldable pub clear_loop : ℕ → ℕ → ℕ → ℕ → ℕ × ℕ
clear_loop zero i bits n = (bits, n)
clear_loop (suc k) i bits n =
    let hit = not (i == gfci) && (bit bits i == 1) in
    clear_loop k (suc i) (if hit then clear_bit bits i else bits) (if hit then n + 1 else n)

unfoldable pub clear_all_clearable : FaultState → FaultState × ℕ
clear_all_clearable s =
    let (bits, n) = clear_loop 15 1 s.active_bits 0 in
    (record { active_bits = bits; first_raised = lowest 20 1 bits }, n)
