-- ===== src/Ui/Led.antt =====
-- The light ring of src/ui/led_patterns.c. A frame is a function from the index of a pixel to its color.
pub mod Alert
use open_evcharger.Prelude.{
  ℕ, ◌+◌, ◌-◌, ◌*◌, ◌/◌, ◌%◌, ◌^◌, Bool, true, false, not, ◌&&◌, if◌then◌else◌, ◌==◌, ltb, leb,
}
use open_evcharger.Prelude.Bits.{bit, and_bits}
use open_evcharger.Core.J1772.{J1772State}
use open_evcharger.Safety.State.{
  EvseState, boot, self_test, ready, charging, user_paused, cooling_down, fault,
}

-- `OPENEVCHARGER_WS2812_LEDS`
abbrev pub leds : ℕ
leds = 134

abbrev pub Color : Type 0
Color = ℕ × ℕ × ℕ

-- `struct led_inputs`, its bytes as numbers.
pub record LedInputs : Type 0 where
  pub evse : EvseState
  pub j1772 : J1772State
  pub fault_active_bits : ℕ
  pub comms_degraded : ℕ
  pub brightness_pct : ℕ
  pub advertised_amps : ℕ
  pub active_amps_x10 : ℕ
  pub override_mode : ℕ
  pub override_rgb : Color

unfoldable pub breathe : (t_ms period_ms : ℕ) → ℕ
breathe t_ms period_ms =
    let phase0 = (t_ms * 2 % 2 ^ 32) % (period_ms * 2) in
    let phase = if leb (period_ms * 2) phase0 then 0 else phase0 in
    let pos = if ltb phase period_ms then phase else period_ms * 2 - phase in
    let v = 125 + (pos * (255 - 125)) / period_ms in if period_ms == 0 then 255 else v % 256

unfoldable pub flash : (t_ms period_ms : ℕ) → ℕ
flash t_ms period_ms =
    if period_ms == 0 then 255 else if ltb (t_ms % period_ms) (period_ms / 2) then 255 else 0

unfoldable pub scaled_gamma : (v pct : ℕ) → ℕ
scaled_gamma v pct = let g = v * v / 255 in (g * pct / 100) % 256

unfoldable pub fill_all : Color → (pct : ℕ) → Color
fill_all (r, g, b) pct = (scaled_gamma r pct, scaled_gamma g pct, scaled_gamma b pct)

-- The share of the comet's light in a pixel, by its distance behind the head in 256ths of a pixel.
unfoldable pub comet_pct : ℕ → ℕ
comet_pct d_q8 =
    let leds_q8 = leds * 256 in
    let tail_q8 = 18 * 256 in
    let bright_q8 = 8 * 256 in
    let fade_len = tail_q8 - bright_q8 in
    if ltb d_q8 bright_q8
    then 100
    else if ltb d_q8 tail_q8
    then 6 + ((100 - 6) * (fade_len - (d_q8 - bright_q8))) / fade_len
    else if leb (leds_q8 - 256) d_q8
    then 6 + ((100 - 6) * (256 - (leds_q8 - d_q8))) / 256
    else 6

-- Where the head of the comet is.
unfoldable pub comet_head : (t_ms ratio_pct : ℕ) → ℕ
comet_head t_ms ratio_pct =
    let pps = 30 + ((200 - 30) * ratio_pct) / 100 in
    let period0 = (1000 * leds) / pps in
    let period_ms = if period0 == 0 then 1 else period0 in
    (t_ms % period_ms * (leds * 256)) / period_ms

unfoldable pub render_comet : (t_ms ratio_pct : ℕ) → Color → (brightness_pct i : ℕ) → Color
render_comet t_ms ratio_pct (r, g, b) brightness_pct i =
    let leds_q8 = leds * 256 in
    let d_q8 = (leds_q8 + comet_head t_ms ratio_pct - i * 256) % leds_q8 in
    let combined = comet_pct d_q8 * brightness_pct / 100 in
    (
      (r * r / 255 * combined / 100) % 256,
      (g * g / 255 * combined / 100) % 256,
      (b * b / 255 * combined / 100) % 256,
    )

-- The ratio of the current to what is offered, in percent.
unfoldable pub charge_ratio : LedInputs → ℕ
charge_ratio x =
    let active0 = x.active_amps_x10 / 10 in
    let active = if ltb x.advertised_amps active0 then x.advertised_amps else active0 in
    if ltb 0 x.advertised_amps && ltb 0 x.active_amps_x10
    then (active * 100 / x.advertised_amps) % 256
    else 100

unfoldable pub is_state_b : J1772State → Bool
is_state_b J1772State.b = true
is_state_b _ = false

-- One white pixel, that goes round.
unfoldable pub sweep : (t_ms brightness_pct i : ℕ) → Color
sweep t_ms brightness_pct i =
    let pos = t_ms / (1000 / leds) % leds in
    let v = scaled_gamma 255 brightness_pct in if i == pos then (v, v, v) else (0, 0, 0)

-- The frame of a state; EVSE_FAULT with no alerting bit is a solid red.
unfoldable pub state_frame : LedInputs → EvseState → (t_ms i : ℕ) → Color
state_frame x boot t_ms i = sweep t_ms x.brightness_pct i
state_frame x self_test t_ms i = sweep t_ms x.brightness_pct i
state_frame x ready t_ms i =
    if is_state_b x.j1772
    then fill_all (0, 0, 255) x.brightness_pct
    else fill_all (0, 64, 0) x.brightness_pct
state_frame x charging t_ms i = render_comet t_ms (charge_ratio x) (0, 255, 255) x.brightness_pct i
state_frame x user_paused t_ms i = let v = breathe t_ms 2000 in fill_all (v, v, 0) x.brightness_pct
state_frame x cooling_down t_ms i =
    let v = breathe t_ms 1000 in fill_all (v, v / 2, 0) x.brightness_pct
state_frame x fault t_ms i = fill_all (255, 0, 0) x.brightness_pct

-- Every n-th pixel magenta.
unfoldable pub apply_comms_overlay : (every_n i : ℕ) → Color → Color
apply_comms_overlay every_n i c = if i % every_n == 0 then (64, 0, 64) else c

-- `fault_active_bits & FAULT_LATCHED_MASK`
unfoldable pub alerting_bits : LedInputs → ℕ
alerting_bits x = and_bits 32 x.fault_active_bits 0xFFFE

-- The frame that `led_render` shows, without the bench build's.
unfoldable pub led_render : LedInputs → (t_ms i : ℕ) → Color
led_render x t_ms i =
    let alert = alerting_bits x in
    let v = flash t_ms (if bit alert 1 == 1 then 200 else 500) in
    let shown = state_frame x x.evse t_ms i in
    if x.override_mode == 1
    then fill_all x.override_rgb x.brightness_pct
    else if not (alert == 0)
    then fill_all (v, 0, 0) x.brightness_pct
    else if not (x.comms_degraded == 0)
    then apply_comms_overlay 3 i shown
    else shown
