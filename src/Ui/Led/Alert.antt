-- ===== src/Ui/Led/Alert.antt =====
-- When the light ring of src/ui/led_patterns.c is red.
use open_evcharger.Prelude.{
  ℕ, ◌*◌, ◌/◌, ◌%◌, ◌≡◌, ◌≢◌, ◌≤◌, ◌<◌, Bool, false, not, ◌&&◌, ◌||◌, if◌then◌else◌, ◌==◌, ltb,
  Bool-cases, inl, inr, arith,
}
use open_evcharger.Prelude.Bits.{bit, bit-and_bits}
use open_evcharger.Core.Fault.{FaultState, gfci, is_active, any_latched_active}
use open_evcharger.Core.Fault.Laws.{mask_word}
use open_evcharger.Safety.State.{
  EvseState, boot, self_test, ready, charging, user_paused, cooling_down, fault, is_fault,
}
use open_evcharger.Ui.Led.{
  Color, LedInputs, breathe, flash, scaled_gamma, fill_all, render_comet, sweep, state_frame,
  apply_comms_overlay, alerting_bits, led_render,
}

-- Some red, and nothing else.
abbrev pub is_red : Color → Bool
is_red (r, g, b) = ltb 0 r && (g == 0 && b == 0)

-- The bitmap of the faults, as src/core/fault.c has it.
abbrev pub faults_of : LedInputs → FaultState
faults_of x = record { active_bits = x.fault_active_bits; first_raised = 0 }

dark : (pct : ℕ) → scaled_gamma 0 pct ≡ 0
unfolding scaled_gamma
dark pct = omega arith

bright : (pct : ℕ) → pct ≤ 100 → scaled_gamma 255 pct ≡ 255 * pct / 100
unfolding scaled_gamma
bright pct h = omega (arith, h)

product-bounds :
    (a b lo hi lo2 hi2 : ℕ)
    → lo ≤ a
    → a ≤ hi
    → lo2 ≤ b
    → b ≤ hi2
    → (lo * lo2 ≤ a * b) × (a * b ≤ hi * hi2)
product-bounds a b lo hi lo2 hi2 h1 h2 h3 h4 = (grind arith, grind arith)

-- The green of the orange light is seen from a brightness of 7 % on.
green_seen : (w pct : ℕ) → 62 ≤ w → w ≤ 127 → 7 ≤ pct → pct ≤ 100 → 0 < scaled_gamma w pct
unfolding scaled_gamma
green_seen w pct lo hi plo phi =
    let q = product-bounds w w 62 127 62 127 lo hi lo hi in
    let p =
      product-bounds (w * w / 255) pct 15 63 7 100 (omega (arith, q)) (omega (arith, q)) plo phi in
    omega (arith, p)

breathe-bounds : (t_ms : ℕ) → (125 ≤ breathe t_ms 1000) × (breathe t_ms 1000 ≤ 255)
unfolding breathe
breathe-bounds t_ms = ground arith

no_red : (g b : ℕ) → is_red (0, g, b) ≡ false
no_red g b = ground arith

no_green : (r g b : ℕ) → 0 < g → is_red (r, g, b) ≡ false
no_green r g b h = ground (arith, h)

sweep-no_red : (t_ms pct i : ℕ) → is_red (sweep t_ms pct i) ≡ false
unfolding sweep
sweep-no_red t_ms pct i = ground arith

comet-no_red :
    (t_ms ratio_pct g b pct i : ℕ) → is_red (render_comet t_ms ratio_pct (0, g, b) pct i) ≡ false
unfolding render_comet
comet-no_red t_ms ratio_pct g b pct i = ground arith

-- Of the states only EVSE_FAULT is red.
state_frame-red :
    (x : LedInputs) (es : EvseState) (t_ms i : ℕ)
    → 7 ≤ x.brightness_pct
    → x.brightness_pct ≤ 100
    → is_red (state_frame x es t_ms i) ≡ is_fault es
unfolding state_frame fill_all
state_frame-red x boot t_ms i lo hi = sweep-no_red t_ms x.brightness_pct i
state_frame-red x self_test t_ms i lo hi = sweep-no_red t_ms x.brightness_pct i
state_frame-red x ready t_ms i lo hi = ground (arith, dark x.brightness_pct)
state_frame-red x charging t_ms i lo hi = comet-no_red t_ms _ 255 255 x.brightness_pct i
state_frame-red x user_paused t_ms i lo hi = ground arith
state_frame-red x cooling_down t_ms i lo hi =
    let v = breathe t_ms 1000 in
    let range = breathe-bounds t_ms in
    no_green (scaled_gamma v x.brightness_pct) (scaled_gamma (v / 2) x.brightness_pct) _
      (green_seen (v / 2) x.brightness_pct (omega (arith, range)) (omega (arith, range)) lo hi)
state_frame-red x fault t_ms i lo hi =
    ground (arith, dark x.brightness_pct, bright x.brightness_pct hi, lo)

alert_summary : (x : LedInputs) → any_latched_active (faults_of x) ≡ not (alerting_bits x == 0)
unfolding alerting_bits
alert_summary x = mask_word (faults_of x)

gfci_bit : (x : LedInputs) → (bit (alerting_bits x) 1 == 1) ≡ is_active (faults_of x) gfci
unfolding alerting_bits bit is_active
gfci_bit x = ground (arith, bit-and_bits 32 x.fault_active_bits 0xFFFE 1)

flash-red :
    (t_ms period_ms pct : ℕ)
    → period_ms ≢ 0
    → 7 ≤ pct
    → pct ≤ 100
    → is_red (fill_all (flash t_ms period_ms, 0, 0) pct) ≡ ltb (t_ms % period_ms) (period_ms / 2)
unfolding fill_all flash
flash-red t_ms period_ms pct nz lo hi = ground (arith, dark pct, bright pct hi, nz, lo)

overlay-red :
    (i : ℕ) (c : Color) → is_red (apply_comms_overlay 3 i c) ≡ (not (i % 3 == 0) && is_red c)
unfolding apply_comms_overlay
overlay-red i c = ground arith

-- With no override and a brightness of 7 to 100 %, in every state, a pixel shows red and no other color exactly
-- in these cases. While fault_any_latched_active holds of the bitmap: in the first half of each period, of 200 ms
-- if the ground fault is active and else 500 ms. Otherwise: in EVSE_FAULT, save for the pixels that the overlay of
-- a degraded link takes.
pub led_render-red :
    (x : LedInputs) (t_ms i : ℕ)
    → x.override_mode ≢ 1
    → 7 ≤ x.brightness_pct
    → x.brightness_pct ≤ 100
    → let period : ℕ = if is_active (faults_of x) gfci then 200 else 500 in
      is_red (led_render x t_ms i) ≡ (
        if any_latched_active (faults_of x)
        then ltb (t_ms % period) (period / 2)
        else is_fault x.evse && (x.comms_degraded == 0 || not (i % 3 == 0)))
unfolding led_render
led_render-red x t_ms i no_override lo hi =
    let period : ℕ = if is_active (faults_of x) gfci then 200 else 500 in
    let o : (x.override_mode == 1) ≡ false = ground (arith, no_override) in
    let shown = state_frame x x.evse t_ms i in
    rw (o, alert_summary x, gfci_bit x)
      (elim (Bool-cases (alerting_bits x == 0)) [
        | inl quiet ↦
            ground (arith, quiet, state_frame-red x x.evse t_ms i lo hi, overlay-red i shown)
        | inr alert ↦ rw alert (flash-red t_ms period x.brightness_pct (ground arith) lo hi)
      ])
