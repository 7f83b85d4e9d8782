-- ===== src/Safety/Session/Laws.antt =====
-- What the session end and the offer of src/tasks/safety_task.c guarantee.
use open_evcharger.Prelude.{
  ℕ, ◌+◌, ◌≡◌, ◌≢◌, ◌≤◌, ◌<◌, max, true, false, ◌||◌, ◌∷◌, arith, if◌then◌else◌, ltb, leb,
}
use open_evcharger.Safety.State.{EndReason, Sup, Env, session_logged, session_ended}
use open_evcharger.Safety.Session.{
  effective_advertised_amps, session_end, persists, session_record_of, elapsed, to_mwh, is_faulted,
}

pub amps-bounds :
    (env : Env) (d k : ℕ)
    → let adv = effective_advertised_amps env d in
      (6 ≤ adv)
      × (adv ≤ (if env.dip1_closed then 48 else 40))
      × (env.advertised_amps ≢ 0 → adv ≤ max 6 env.advertised_amps)
      × (effective_advertised_amps env (d + k) ≤ adv)
unfolding effective_advertised_amps
amps-bounds env d k = ground arith

-- The end of an open session closes it, drops the derate, and reports it. The record is stored
-- exactly if the session lasted 2 s or more, saw a fault, or ended by one; its energy is below 2^32
-- mWh. Without an open session nothing changes.
pub session_end-report :
    (env : Env) (reason : EndReason) (s : Sup)
    → let t = session_end env reason s in
      let rec = session_record_of env s.session reason in
      let lasted = elapsed env.now s.session.start_ts in
      let stored = leb 2000 lasted || ltb 0 s.session.fault_count || is_faulted reason in
      (t.session.active ≡ false)
      × (s.session.active ≡ false → t ≡ s)
      × (s.session.active ≡ true
          → (t.soc_derate_amps ≡ 0)
            × (t.out
                ≡ session_ended rec.mwh_delivered lasted reason
                  ∷ (if stored then session_logged rec ∷ s.out else s.out)))
      × (rec.mwh_delivered < 0x100000000)
unfolding session_end persists session_record_of to_mwh
session_end-report env reason s = ground arith
