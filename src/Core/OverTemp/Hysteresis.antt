-- ===== src/Core/OverTemp/Hysteresis.antt =====
-- When the detector of src/core/over_temp.h trips and clears.
use open_evcharger.Prelude.{
  ℕ, ◌+◌, ◌≤◌, ◌<◌, ◌≡◌, ◌⊎◌, inl, inr, Bool, true, false, not, ◌&&◌, ◌||◌, List, [], ◌∷◌, arith,
  length, leb,
}
use open_evcharger.Core.OverTemp.{OverTempCtx, populated, step, trip_raw, clear_raw, persist_ticks}

-- A channel that is fitted and reads inside the guard band.
abbrev pub counts : Bool → ℕ → Bool
counts present raw = present && populated raw

-- Some channel that counts reads at or below the trip threshold.
abbrev pub is_hot : ℕ → ℕ → Bool → Bool → Bool
is_hot r1 r2 f1 f2 = (counts f1 r1 && leb r1 trip_raw) || (counts f2 r2 && leb r2 trip_raw)

-- Some channel counts, and every channel that counts reads at or above the clear threshold.
abbrev pub is_cool : ℕ → ℕ → Bool → Bool → Bool
is_cool r1 r2 f1 f2 =
    (counts f1 r1 || counts f2 r2)
    && (not (counts f1 r1) || leb clear_raw r1)
    && (not (counts f2 r2) || leb clear_raw r2)

-- The detector trips exactly when no fault is active, a channel is hot, and the streak reaches the
-- persistence count; it clears exactly when a fault is active and every channel that counts has
-- cooled; and the fault flag follows the two edges.
pub step_edges :
    (ctx : OverTempCtx) (r1 r2 : ℕ) (f1 f2 : Bool)
    → let out = step ctx r1 r2 f1 f2 in
      (out.1.trip ≡ not ctx.fault_active && is_hot r1 r2 f1 f2 && leb 4 ctx.trip_streak)
      × (out.1.clear ≡ ctx.fault_active && is_cool r1 r2 f1 f2)
      × (out.0.fault_active ≡ (out.1.trip || (ctx.fault_active && not out.1.clear)))
unfolding step
step_edges ctx r1 r2 f1 f2 = ground arith

-- A run of the detector on the channels that are fitted: the two raw readings of each tick.
unfoldable pub run : Bool → Bool → OverTempCtx → List (ℕ × ℕ) → OverTempCtx
run f1 f2 ctx [] = ctx
run f1 f2 ctx ((r1, r2) ∷ rs) = run f1 f2 (step ctx r1 r2 f1 f2).0 rs

abbrev pub AllHot : Bool → Bool → List (ℕ × ℕ) → Type 0
AllHot f1 f2 [] = Unit {0}
AllHot f1 f2 ((r1, r2) ∷ rs) = (is_hot r1 r2 f1 f2 ≡ true) × AllHot f1 f2 rs

abbrev pub NoneCool : Bool → Bool → List (ℕ × ℕ) → Type 0
NoneCool f1 f2 [] = Unit {0}
NoneCool f1 f2 ((r1, r2) ∷ rs) = (is_cool r1 r2 f1 f2 ≡ false) × NoneCool f1 f2 rs

step_hot :
    (ctx : OverTempCtx) (r1 r2 : ℕ) (f1 f2 : Bool)
    → is_hot r1 r2 f1 f2 ≡ true
    → let out = (step ctx r1 r2 f1 f2).0 in
      (out.fault_active ≡ true) ⊎ ((out.fault_active ≡ false) × (ctx.trip_streak < out.trip_streak))
unfolding step
step_hot ctx r1 r2 f1 f2 h = ground arith

hot_not_cool : (r1 r2 : ℕ) (f1 f2 : Bool) → is_hot r1 r2 f1 f2 ≡ true → is_cool r1 r2 f1 f2 ≡ false
unfolding populated
hot_not_cool r1 r2 f1 f2 h = ground arith

AllHot-NoneCool : (f1 f2 : Bool) (rs : List (ℕ × ℕ)) → AllHot f1 f2 rs → NoneCool f1 f2 rs
AllHot-NoneCool f1 f2 [] h = tt
AllHot-NoneCool f1 f2 ((r1, r2) ∷ rs) h =
    (hot_not_cool r1 r2 f1 f2 h.0, AllHot-NoneCool f1 f2 rs h.1)

-- An active fault stays active through any number of ticks, as long as no tick has every counting
-- channel at the clear threshold: also when no sensor counts.
pub run-holds :
    (f1 f2 : Bool) (ctx : OverTempCtx) (rs : List (ℕ × ℕ))
    → ctx.fault_active ≡ true
    → NoneCool f1 f2 rs
    → (run f1 f2 ctx rs).fault_active ≡ true
unfolding run
run-holds f1 f2 ctx [] a n = a
run-holds f1 f2 ctx ((r1, r2) ∷ rs) a n =
    run-holds f1 f2 (step ctx r1 r2 f1 f2).0 rs (ground (arith, step_edges ctx r1 r2 f1 f2)) n.1

hot_streak :
    (f1 f2 : Bool) (ctx : OverTempCtx) (rs : List (ℕ × ℕ))
    → AllHot f1 f2 rs
    → 0 < length rs
    → 5 ≤ ctx.trip_streak + length rs
    → (run f1 f2 ctx rs).fault_active ≡ true
unfolding run
hot_streak f1 f2 ctx [] h p l = absurd (omega arith)
hot_streak f1 f2 ctx ((r1, r2) ∷ []) h p l =
    ground (arith, step_edges ctx r1 r2 f1 f2, hot_not_cool r1 r2 f1 f2)
hot_streak f1 f2 ctx ((r1, r2) ∷ (r ∷ rs)) h p l = elim (step_hot ctx r1 r2 f1 f2 h.0) [
  | inl a ↦ run-holds f1 f2 (step ctx r1 r2 f1 f2).0 (r ∷ rs) a (AllHot-NoneCool f1 f2 (r ∷ rs) h.1)
  | inr g ↦ hot_streak f1 f2 (step ctx r1 r2 f1 f2).0 (r ∷ rs) h.1 (omega arith) (omega arith)
]

-- Five hot ticks in a row leave the fault active, whatever the detector's state before them.
pub hot_run-trips :
    (f1 f2 : Bool) (ctx : OverTempCtx) (rs : List (ℕ × ℕ))
    → AllHot f1 f2 rs
    → length rs ≡ persist_ticks
    → (run f1 f2 ctx rs).fault_active ≡ true
hot_run-trips f1 f2 ctx rs h e = hot_streak f1 f2 ctx rs h (omega arith) (omega arith)
