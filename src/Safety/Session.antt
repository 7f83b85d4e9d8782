-- ===== src/Safety/Session.antt =====
-- The charging session of src/tasks/safety_task.c: `session_start`, `session_end`,
-- `post_fault_event`, and the amps on offer.
pub mod Laws
use open_evcharger.Prelude.{
  ℕ, ◌+◌, ◌-◌, ◌*◌, ◌/◌, ◌%◌, ◌^◌, min, Bool, true, false, ◌||◌, List, [], ◌∷◌, if◌then◌else◌, ltb,
  leb, ◌==◌,
}
use open_evcharger.Prelude.Int.{ℤ, as_int16}
use open_evcharger.Core.J1772.{J1772State}
use open_evcharger.Safety.State.{
  EvseState, EndReason, faulted, SessionRecord, Session, Env, Sup, Output, session_began,
  session_logged, session_ended, fault_logged, fault_raised,
}

abbrev pub session_min_persist_ms : ℕ
session_min_persist_ms = 2000

abbrev pub hw_amps_max : ℕ
hw_amps_max = 48

abbrev pub dip1_amps_closed : ℕ
dip1_amps_closed = 48

abbrev pub dip1_amps_open : ℕ
dip1_amps_open = 40

abbrev pub soc_derate_floor_a : ℕ
soc_derate_floor_a = 6

-- A message to another task.
unfoldable pub emit : Output → Sup → Sup
emit o s = record s { out = o ∷ s.out }

unfoldable pub session_start : Env → Sup → Sup
unfolding emit
session_start env s = emit (session_began env.now) (record s {
  session = record {
    active = true;
    start_ts = env.now;
    j1772_max = J1772State.c;
    fault_count = 0;
    max_temp_dc = 0;
    mws_accum = 0;
  };
})

abbrev pub is_faulted : EndReason → Bool
is_faulted faulted = true
is_faulted _ = false

-- The `uint32_t` difference of two tick counts; a tick is a millisecond.
unfoldable pub elapsed : ℕ → ℕ → ℕ
elapsed now start = (now + 2 ^ 32 - start) % 2 ^ 32

-- Milliwatt-seconds to milliwatt-hours, clamped to 32 bits.
unfoldable pub to_mwh : ℕ → ℕ
to_mwh mws = min (mws / 3600) 0xFFFFFFFF

unfoldable pub session_record_of : Env → Session → EndReason → SessionRecord
unfolding to_mwh
session_record_of env session reason = record {
  start_ts = session.start_ts;
  end_ts = env.now;
  mwh_delivered = to_mwh session.mws_accum;
  end_reason = reason;
  j1772_max_state_seen = session.j1772_max;
  fault_count = session.fault_count;
  max_temp_dc = session.max_temp_dc;
}

unfoldable pub persists : Env → Session → EndReason → Bool
unfolding elapsed
persists env session reason =
    leb session_min_persist_ms (elapsed env.now session.start_ts)
    || ltb 0 session.fault_count
    || is_faulted reason

-- The derate is cleared by `clear_soc_derate_for_session_end`.
unfoldable pub session_end : Env → EndReason → Sup → Sup
unfolding session_record_of persists
session_end env reason s =
    let rec = session_record_of env s.session reason in
    let ended = session_ended rec.mwh_delivered (elapsed env.now s.session.start_ts) reason in
    if s.session.active
    then record s {
      session = record s.session { active = false };
      soc_derate_amps = 0;
      out = ended ∷ (if persists env s.session reason then session_logged rec ∷ s.out else s.out);
    }
    else s

-- `post_fault_event`
unfoldable pub post_fault_event : ℕ → J1772State → ℤ → Sup → Sup
post_fault_event id js cp_mv s = record s {
  session =
      (if s.session.active
        then (if ltb s.session.fault_count 0xFFFF
            then record s.session { fault_count = s.session.fault_count + 1 }
            else s.session)
        else s.session);
  out = fault_raised id js s.es (as_int16 cp_mv) ∷ fault_logged id js s.es (as_int16 cp_mv) ∷ s.out;
}

-- The smaller of the caps and the request, if there is one; less the derate, and at least the floor.
unfoldable pub effective_advertised_amps : Env → ℕ → ℕ
effective_advertised_amps env derate =
    let dip1_cap = (if env.dip1_closed then dip1_amps_closed else dip1_amps_open) in
    let cap = (if ltb dip1_cap hw_amps_max then dip1_cap else hw_amps_max) in
    let fc = env.advertised_amps in
    let base = (if fc == 0 then cap else if ltb fc cap then fc else cap) in
    let derated = base - derate in
    if leb base derate
    then soc_derate_floor_a
    else if ltb derated soc_derate_floor_a
    then soc_derate_floor_a
    else derated
