-- ===== src/Core/GfciPolicy/Episodes.antt =====
-- What src/core/gfci_policy.h does over an episode of the ground-fault line being low.
use open_evcharger.Prelude.{
  ℕ, suc, ◌+◌, ◌≤◌, ◌<◌, ◌≡◌, ◌≢◌, ◌⊎◌, Bool, true, false, List, [], ◌∷◌, arith, length, ◌∙◌,
}
use open_evcharger.Core.GfciPolicy.{
  GfciCtx, GfciAction, warn_emit, raise_fault, step, persist_ticks, pol_warn,
}

-- A run over ticks, each with the line and the policy then in force; the actions in order.
unfoldable pub run : GfciCtx → List (Bool × ℕ) → GfciCtx × List GfciAction
run ctx [] = (ctx, [])
run ctx ((low, policy) ∷ ts) =
    let (ctx', act) = step ctx low policy in let (last, acts) = run ctx' ts in (last, act ∷ acts)

abbrev pub AllLow : List (Bool × ℕ) → Type 0
AllLow [] = Unit {0}
AllLow ((low, policy) ∷ ts) = (low ≡ true) × AllLow ts

-- The policy is not WARN on any tick, known or unknown.
abbrev pub NoWarn : List (Bool × ℕ) → Type 0
NoWarn [] = Unit {0}
NoWarn ((low, policy) ∷ ts) = (policy ≢ pol_warn) × NoWarn ts

abbrev pub AllWarn : List (Bool × ℕ) → Type 0
AllWarn [] = Unit {0}
AllWarn ((low, policy) ∷ ts) = (policy ≡ pol_warn) × AllWarn ts

abbrev pub count_warn : List GfciAction → ℕ
count_warn [] = 0
count_warn (warn_emit ∷ acts) = suc (count_warn acts)
count_warn (_ ∷ acts) = count_warn acts

abbrev pub count_raise : List GfciAction → ℕ
count_raise [] = 0
count_raise (raise_fault ∷ acts) = suc (count_raise acts)
count_raise (_ ∷ acts) = count_raise acts

-- The fault flag never falls, and it rises exactly with the action that raises the fault.
step_fault :
    (ctx : GfciCtx) (low : Bool) (policy : ℕ)
    → let out = step ctx low policy in
      ((out.1 ≡ raise_fault)
        × (ctx.fault_active ≡ false)
        × (out.0.fault_active ≡ true)
        × (policy ≢ pol_warn)
        × (low ≡ true))
      ⊎ ((out.1 ≢ raise_fault) × (out.0.fault_active ≡ ctx.fault_active))
unfolding step
step_fault ctx low policy = ground arith

abbrev pub flag : Bool → ℕ
flag true = 1
flag false = 0

step_raises :
    (ctx : GfciCtx) (low : Bool) (policy : ℕ) (acts : List GfciAction)
    → count_raise ((step ctx low policy).1 ∷ acts) + flag ctx.fault_active
      ≡ count_raise acts + flag (step ctx low policy).0.fault_active
unfolding step
step_raises ctx low policy acts = ground arith

-- Over any run the fault is raised once, when its flag rises, and the flag never falls.
pub run-raises :
    (ctx : GfciCtx) (ts : List (Bool × ℕ))
    → count_raise (run ctx ts).1 + flag ctx.fault_active ≡ flag (run ctx ts).0.fault_active
unfolding run
run-raises ctx [] = omega arith
run-raises ctx ((low, policy) ∷ ts) =
    let y = (step ctx low policy).0 in
    omega (arith, step_raises ctx low policy (run y ts).1, run-raises y ts)

step_streak :
    (ctx : GfciCtx) (policy : ℕ)
    → let out = step ctx true policy in
      ((ctx.trip_streak < 3) × (out.0.trip_streak ≡ suc ctx.trip_streak))
      ⊎ ((3 ≤ ctx.trip_streak) × (out.0.trip_streak ≡ ctx.trip_streak))
unfolding step
step_streak ctx policy = ground arith

step_trips :
    (ctx : GfciCtx) (policy : ℕ)
    → policy ≢ pol_warn
    → 2 ≤ ctx.trip_streak
    → (step ctx true policy).0.fault_active ≡ true
unfolding step
step_trips ctx policy ne h = ground arith

run_keeps :
    (ctx : GfciCtx) (ts : List (Bool × ℕ))
    → ctx.fault_active ≡ true
    → (run ctx ts).0.fault_active ≡ true
run_keeps ctx ts a = ground (arith, run-raises ctx ts)

low_streak :
    (ctx : GfciCtx) (ts : List (Bool × ℕ))
    → AllLow ts
    → NoWarn ts
    → 0 < length ts
    → 3 ≤ ctx.trip_streak + length ts
    → (run ctx ts).0.fault_active ≡ true
unfolding run
low_streak ctx [] l n p q = absurd (omega arith)
low_streak ctx ((low, policy) ∷ []) l n p q = rw l.0 (step_trips ctx policy n.0 (omega arith))
low_streak ctx ((low, policy) ∷ (t ∷ ts)) l n p q = rw l.0 (
    low_streak (step ctx true policy).0 (t ∷ ts) l.1 n.1 (omega arith)
      (omega (arith, step_streak ctx policy)))

-- Three low ticks in a row, with a policy other than WARN, leave the fault active: also with an
-- unknown policy byte, and from any state of the detector.
pub low_run-trips :
    (ctx : GfciCtx) (ts : List (Bool × ℕ))
    → AllLow ts
    → NoWarn ts
    → length ts ≡ persist_ticks
    → (run ctx ts).0.fault_active ≡ true
low_run-trips ctx ts l n e = low_streak ctx ts l n (omega arith) (omega arith)

step_warns :
    (ctx : GfciCtx) (policy : ℕ) (acts : List GfciAction)
    → count_warn ((step ctx true policy).1 ∷ acts) + flag ctx.warned
      ≡ count_warn acts + flag (step ctx true policy).0.warned
unfolding step
step_warns ctx policy acts = ground arith

step_warn_quiet :
    (ctx : GfciCtx) (low : Bool) (acts : List GfciAction)
    → count_raise ((step ctx low pol_warn).1 ∷ acts) ≡ count_raise acts
unfolding step
step_warn_quiet ctx low acts = ground arith

-- Under the WARN policy no fault is raised, and one episode of the line being low gives at most one
-- warning, none if the episode has been warned of already.
pub run-warns_once :
    (ctx : GfciCtx) (ts : List (Bool × ℕ))
    → AllLow ts
    → AllWarn ts
    → (count_raise (run ctx ts).1 ≡ 0) × (count_warn (run ctx ts).1 + flag ctx.warned ≤ 1)
unfolding run
run-warns_once ctx [] l w = ground arith
run-warns_once ctx ((low, policy) ∷ ts) l w =
    rw (l.0, w.0)
      (let y = (step ctx true pol_warn).0 in
        let ih = run-warns_once y ts l.1 w.1 in
        (
          step_warn_quiet ctx true (run y ts).1 ∙ ih.0,
          omega (arith, step_warns ctx pol_warn (run y ts).1, ih),
        ))
