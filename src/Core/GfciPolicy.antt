-- ===== src/Core/GfciPolicy.antt =====
-- src/core/gfci_policy.h: the debounce of the ground-fault line and the policy on it.
pub mod Episodes
use open_evcharger.Prelude.{ℕ, ◌+◌, Bool, true, false, if◌then◌else◌, ltb, ◌==◌}

abbrev pub persist_ticks : ℕ
persist_ticks = 3

abbrev pub pol_fault : ℕ
pol_fault = 0

abbrev pub pol_warn : ℕ
pol_warn = 1

-- `gfci_policy_ctx_t`
pub record GfciCtx : Type 0 where
  pub trip_streak : ℕ  -- unsigned
  pub warned : Bool
  pub fault_active : Bool

-- `gfci_policy_action_t`
pub data GfciAction : Type 0 where
  no_action warn_emit raise_fault : GfciAction

abbrev pub fresh : GfciCtx
fresh = record { trip_streak = 0; warned = false; fault_active = false }

-- The debounce and the re-arming of the warning.
sample : GfciCtx → Bool → GfciCtx
sample ctx pe2_low =
    if pe2_low
    then record ctx {
      trip_streak =
          if ltb ctx.trip_streak persist_ticks then ctx.trip_streak + 1 else ctx.trip_streak;
    }
    else record ctx { trip_streak = 0; warned = false }

react : GfciCtx → ℕ → GfciCtx × GfciAction
react ctx policy =
    if ltb ctx.trip_streak persist_ticks
    then (ctx, no_action)
    else if policy == pol_warn
    then (if ctx.warned then (ctx, no_action) else (record ctx { warned = true }, warn_emit))
    else if ctx.fault_active
    then (ctx, no_action)
    else (record ctx { fault_active = true }, raise_fault)

unfoldable pub step : GfciCtx → Bool → ℕ → GfciCtx × GfciAction
unfolding sample react
step ctx pe2_low policy = react (sample ctx pe2_low) policy
