-- ===== src/Tests/Rules.antt =====
-- Tests of the rules of src/core/.
use open_evcharger.Prelude.{
  ℕ, ◌+◌, ◌≤◌, ◌≡◌, ◌⊎◌, refl, Bool, true, false, List, [], ◌∷◌, arith, if◌then◌else◌, length, take,
  drop,
}
use open_evcharger.Prelude.Int.{ℤ, pos}
use open_evcharger.Prelude.Bits.{bit, set_bit, clear_bit}
use open_evcharger.Core.Fault
use open_evcharger.Core.Fault.{FaultState}
use open_evcharger.Core.Fault.FirstRaised.{
  IsConsistent, init-IsConsistent, apply_all, op_raise, op_clear, op_clear_all,
  apply_all-IsConsistent,
}
use open_evcharger.Core.J1772
use open_evcharger.Core.J1772.{J1772State, J1772Ctx, invalid, b, c, classify_strict}
use open_evcharger.Core.J1772.Debounce.{after, run, AllRead, after-Committed, run-commits}
use open_evcharger.Core.GfciPolicy.{GfciCtx}
use open_evcharger.Core.GfciPolicy.Episodes
use open_evcharger.Core.GfciPolicy.Episodes.{
  run-raises, low_run-trips, run-warns_once, count_raise, count_warn, flag,
}
use open_evcharger.Core.OverTemp
use open_evcharger.Core.OverTemp.{OverTempCtx}
use open_evcharger.Core.OverTemp.Hysteresis
use open_evcharger.Core.OverTemp.Hysteresis.{step_edges, run-holds, hot_run-trips, is_hot, is_cool}
use open_evcharger.Core.Rfid.{RfidCtx, feed, drain, push_all}
use open_evcharger.Core.Rfid.Bounds.{feed_bounds}
use open_evcharger.Core.Rfid.Frames.{feed-card_frame, feed_stalls, card_frame}

-- Over-temperature first, then a ground fault.
abbrev two_faults : FaultState
two_faults = record { active_bits = 0x10002; first_raised = 16 }

two_faults-raise :
    (Fault.raise (Fault.raise Fault.init Fault.over_temp).0 Fault.gfci).0 ≡ two_faults
unfolding Fault.raise Fault.init bit set_bit
two_faults-raise = refl

apply_all-IsConsistent_example : IsConsistent (
    apply_all (op_raise 16 ∷ op_raise 1 ∷ op_clear 16 ∷ op_clear_all ∷ op_raise 12 ∷ []) Fault.init)
apply_all-IsConsistent_example =
    apply_all-IsConsistent
      (op_raise 16 ∷ op_raise 1 ∷ op_clear 16 ∷ op_clear_all ∷ op_raise 12 ∷ []) Fault.init
      init-IsConsistent

clear_all-keeps :
    (Fault.clear_all_clearable (record { active_bits = 0x10086; first_raised = 2 })).0
    ≡ record two_faults { first_raised = 1 }
unfolding Fault.clear_all_clearable Fault.clear_loop Fault.lowest bit clear_bit
clear_all-keeps = refl

-- The pilot at state C, the latest reading first, after one at state B.
abbrev pilots : List ℤ
pilots = pos 6000 ∷ pos 5900 ∷ pos 6100 ∷ pos 9000 ∷ []

after-pilots : (after 3 pilots).committed ≡ c
unfolding after J1772.step J1772.init classify_strict
after-pilots = refl

after-Committed_example :
    ((after 3 pilots).committed ≡ invalid)
    ⊎ ((k : ℕ) × (k + 3 ≤ length pilots)
        × AllRead (after 3 pilots).committed (take 3 (drop k pilots)))
after-Committed_example = after-Committed 3 pilots

run-commits_example :
    (run 3
      (record { committed = b; candidate = b; streak = 200 })
      (pos 6000 ∷ pos 5900 ∷ pos 6100 ∷ [])).committed
    ≡ c
unfolding classify_strict
run-commits_example =
    run-commits 3 c (record { committed = b; candidate = b; streak = 200 })
      (pos 6000 ∷ pos 5900 ∷ pos 6100 ∷ []) (omega arith) (omega arith) refl
      (refl, (refl, (refl, tt)))

abbrev quiet_gfci : GfciCtx
quiet_gfci = record { trip_streak = 0; warned = false; fault_active = false }

abbrev low_ticks : ℕ → List (Bool × ℕ)
low_ticks policy = (true, policy) ∷ (true, policy) ∷ (true, policy) ∷ []

low_run-trips_example : (Episodes.run quiet_gfci (low_ticks 7)).0.fault_active ≡ true
low_run-trips_example =
    low_run-trips quiet_gfci (low_ticks 7) (refl, (refl, (refl, tt)))
      ((λ e. omega (arith, e)), ((λ e. omega (arith, e)), ((λ e. omega (arith, e)), tt))) refl

abbrev cool_ctx : OverTempCtx
cool_ctx = record { trip_streak = 4; fault_active = false }

abbrev hot_ticks : List (ℕ × ℕ)
hot_ticks = (380, 0) ∷ (380, 0) ∷ (380, 0) ∷ (380, 0) ∷ (380, 0) ∷ []

hot_run-trips_example :
    (Hysteresis.run true false
      (record { trip_streak = 0; fault_active = false })
      hot_ticks).fault_active
    ≡ true
unfolding OverTemp.populated
hot_run-trips_example =
    hot_run-trips true false (record { trip_streak = 0; fault_active = false }) hot_ticks
      (refl, (refl, (refl, (refl, (refl, tt))))) refl

abbrev no_card : RfidCtx
no_card = record { buf = []; last_uid = 0; card_present = false }

feed_bounds_example :
    (length (feed no_card (card_frame 1 2 3 4 0)).0.buf ≤ 16)
    × (drain 3
          (record no_card { buf = push_all [] (card_frame 1 2 3 4 0) })
          (record { edge = false; uid = 0; present = false })
          0
        ≡ feed no_card (card_frame 1 2 3 4 0))
feed_bounds_example = feed_bounds no_card (card_frame 1 2 3 4 0) 3 (omega arith) (omega arith)

feed-card_frame_example :
    let (ctx', out, edges) = feed no_card (card_frame 1 2 3 4 0) in
    (ctx' ≡ record { buf = []; last_uid = 0x04030201; card_present = true })
    × (out.edge ≡ true)
    × (edges ≡ (if out.edge then 1 else 0))
    × (out.edge ≡ true → (out.uid ≡ 0x04030201) × (out.present ≡ true))
feed-card_frame_example = feed-card_frame 0 false 1 2 3 4 0

feed_stalls_example : feed no_card (0xAA ∷ 0xAA ∷ card_frame 1 2 3 4 0) ≡ (
  record no_card { buf = 0xAA ∷ card_frame 1 2 3 4 0 },
  record { edge = false; uid = 0; present = false },
  0,
)
feed_stalls_example = feed_stalls 0 false 0xAA 1 2 3 4 0 (λ e. omega (arith, e))

-- Across a wrap of the tick counter.
