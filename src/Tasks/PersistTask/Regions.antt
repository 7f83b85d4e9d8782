-- ===== src/Tasks/PersistTask/Regions.antt =====
-- Each request of src/tasks/persist_task.c writes the sectors of its own record, and no others.
use open_evcharger.Prelude.{
  ℕ, ◌^◌, ◌≡◌, ◌<◌, refl, sym, Bool, not, ◌&&◌, ◌==◌, Bool-cases, inl, inr, length, arith,
}
use mathlib.Core.Path.{subst}
use open_evcharger.Persist.Flash.{Flash, Chip}
use open_evcharger.Persist.BootConfig.{BootConfig, Setting, change, config_store, config_layout}
use open_evcharger.Persist.BootConfig.Image.{length-config_encode}
use open_evcharger.Persist.BootConfig.Settings
use open_evcharger.Persist.BootConfig.Settings.{change-cases}
use open_evcharger.Persist.CrashState.{
  CrashState, CrashRecord, crash_layout, crash_state_reset_alive,
}
use open_evcharger.Persist.CrashState.Image.{length-crash_encode}
use open_evcharger.Persist.Authlist.{
  Authlist, Outcome, tidy, authlist_layout, rfid_authlist_add, rfid_authlist_remove,
  rfid_authlist_clear,
}
use open_evcharger.Persist.Authlist.Written.{Wf, added, shrunk, Wf-added, Wf-shrunk}
use open_evcharger.Persist.Authlist.Cases.{add-cases, remove-cases, clear-cases, emptied}
use open_evcharger.Persist.Authlist.Durable.{Wf-emptied}
use open_evcharger.Persist.Authlist.Image.{length-authlist_encode}
use open_evcharger.Persist.Calibration.{Calibration, CalState, cal_layout}
use open_evcharger.Persist.Calibration.Image.{length-cal_encode}
use open_evcharger.Persist.Calibration.Slope.{CalCall, cal_call, asked, call-cases}
use open_evcharger.Persist.Pingpong.Laws.{Placed}
use open_evcharger.Persist.Log.{event_layout, session_layout}
use open_evcharger.Persist.Log.Append.{IsAligned}
use open_evcharger.Persist.Footprint.{Keeps, Keeps-refl, pingpong-Keeps}
use open_evcharger.Tasks.PersistTask.{config_slots, cal_slots, card_slots, crash_slots}

pub event-IsAligned : IsAligned event_layout
event-IsAligned = record { whole = refl; boot_in = omega arith; ts_before = omega arith }

pub session-IsAligned : IsAligned session_layout
session-IsAligned = record { whole = refl; boot_in = omega arith; ts_before = omega arith }

config-Placed : Placed 0x000000 0x001000 config_layout.size
config-Placed = omega arith

cal-Placed : Placed 0x002000 0x003000 cal_layout.size
cal-Placed = omega arith

card-Placed : Placed 0x005000 0x006000 authlist_layout.size
card-Placed = omega arith

crash-Placed : Placed 0x04D000 0x04E000 crash_layout.size
crash-Placed = omega arith

-- The writes of the records with two slots, each in the sectors of its slots.
module _ {M : Type 0} (F : Flash M) (chip : Chip F) (m : M) where
  config_write : (c : BootConfig) → Keeps F 0 2 m ((config_slots F).store m c).1
  config_write c =
      pingpong-Keeps F chip 0 2 0x000000 0x001000 config_layout config-Placed (omega arith)
        (omega arith) (omega arith) (omega arith) m c (length-config_encode c)

  cal_write : (c : Calibration) → Keeps F 2 4 m ((cal_slots F).store m c).1
  cal_write c =
      pingpong-Keeps F chip 2 4 0x002000 0x003000 cal_layout cal-Placed (omega arith) (omega arith)
        (omega arith) (omega arith) m c (length-cal_encode c)

  card_write : (l : Authlist) → length l.uids ≡ 28 → Keeps F 5 7 m ((card_slots F).store m l).1
  card_write l sized =
      pingpong-Keeps F chip 5 7 0x005000 0x006000 authlist_layout card-Placed (omega arith)
        (omega arith) (omega arith) (omega arith) m l (length-authlist_encode l sized)

  crash_write : (r : CrashRecord) → Keeps F 0x4D 0x4F m ((crash_slots F).store m r).1
  crash_write r =
      pingpong-Keeps F chip 0x4D 0x4F 0x04D000 0x04E000 crash_layout crash-Placed (omega arith)
        (omega arith) (omega arith) (omega arith) m r (length-crash_encode r)

  pub config_change-Keeps :
      (s : Setting) (c : BootConfig) → Keeps F 0 2 m (change (config_slots F) s c m).2
  unfolding config_store
  config_change-Keeps s c =
      let P = λ (r : Bool × BootConfig × M). Keeps F 0 2 m r.2 in
      elim (change-cases (config_slots F) c m s) [
        | inl (no_change, e) ↦ subst P (sym e) (Keeps-refl F 0 2 m)
        | inr (fine, inl (there, e)) ↦ subst P (sym e) (Keeps-refl F 0 2 m)
        | inr (fine, inr e) ↦
            subst P (sym e) (config_write (record (Settings.asked s c) { version = 1 }))
      ]

  pub cal_call-Keeps :
      (c : CalCall) (st : CalState) → Keeps F 2 4 m (cal_call (cal_slots F) c st m).2
  cal_call-Keeps c st =
      let P = λ (r : Bool × CalState × M). Keeps F 2 4 m r.2 in
      elim (call-cases (cal_slots F) st m c) [
        | inl (b, e) ↦ subst P (sym e) (Keeps-refl F 2 4 m)
        | inr (inl (ok, (st1, e, same, keep))) ↦ subst P (sym e) (cal_write (asked c st.s_cal))
        | inr (inr (bad, e)) ↦ subst P (sym e) (cal_write (asked c st.s_cal))
      ]

  pub crash_reset-Keeps :
      (st : CrashState) → Keeps F 0x4D 0x4F m (crash_state_reset_alive (crash_slots F) st m).2
  unfolding crash_state_reset_alive
  crash_reset-Keeps st =
      let cs : CrashRecord = record { version = 1; fast_restart_count = 0 } in
      elim (Bool-cases (st.cs.fast_restart_count == 0 && not st.safe_fail)) [
        | inl h ↦ rw h (Keeps-refl F 0x4D 0x4F m)
        | inr h ↦ elim (Bool-cases ((crash_slots F).store m cs).0) [
          | inl k ↦ rw (h, k) (crash_write cs)
          | inr k ↦ rw (h, k) (crash_write cs)
        ]
      ]

  module _ (l : Authlist) (wf : Wf l) where
    pub card_add-Keeps :
        (uid : ℕ) → uid < 2 ^ 32 → Keeps F 5 7 m (rfid_authlist_add (card_slots F) l m uid).2
    card_add-Keeps uid small =
        let P = λ (r : Outcome × Authlist × M). Keeps F 5 7 m r.2 in
        elim (add-cases (card_slots F) l m uid) [
          | inl (o, silent, fine, e) ↦ subst P (sym e) (Keeps-refl F 5 7 m)
          | inr (nz, fresh, room, inl (ok, e)) ↦
              subst P (sym e)
                (card_write (tidy (added l uid)) (Wf-added l wf uid room nz fresh small).sized)
          | inr (nz, fresh, room, inr (bad, e)) ↦
              subst P (sym e)
                (card_write (tidy (added l uid)) (Wf-added l wf uid room nz fresh small).sized)
        ]

    pub card_remove-Keeps :
        (uid : ℕ) → Keeps F 5 7 m (rfid_authlist_remove (card_slots F) l m uid).2
    card_remove-Keeps uid =
        let P = λ (r : Outcome × Authlist × M). Keeps F 5 7 m r.2 in
        elim (remove-cases (card_slots F) l m uid) [
          | inl ((o, silent, fine, e), absent) ↦ subst P (sym e) (Keeps-refl F 5 7 m)
          | inr (found, there, inl (ok, e)) ↦
              subst P (sym e)
                (card_write (tidy (shrunk l found)) (Wf-shrunk l wf uid found there).sized)
          | inr (found, there, inr (bad, e)) ↦
              subst P (sym e)
                (card_write (tidy (shrunk l found)) (Wf-shrunk l wf uid found there).sized)
        ]

    pub card_clear-Keeps : Keeps F 5 7 m (rfid_authlist_clear (card_slots F) l m).2
    card_clear-Keeps =
        let P = λ (r : Outcome × Authlist × M). Keeps F 5 7 m r.2 in
        let none_left = emptied (card_slots F) l m in
        elim (clear-cases (card_slots F) l m) [
          | inl ((o, silent, fine, e), zero_count) ↦ subst P (sym e) (Keeps-refl F 5 7 m)
          | inr (inl (ok, e)) ↦
              subst P (sym e) (card_write (tidy none_left) (Wf-emptied (card_slots F) l wf m).sized)
          | inr (inr (bad, e)) ↦
              subst P (sym e) (card_write (tidy none_left) (Wf-emptied (card_slots F) l wf m).sized)
        ]
