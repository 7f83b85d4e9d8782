-- ===== src/Tests/Records.antt =====
-- Runs of the records that stand on the two-slot store, on a chip in memory.
use open_evcharger.Prelude.{
  ℕ, ◌≡◌, refl, List, [], ◌∷◌, true, false, none, some, leb, min, arith, inl, inr,
}
use open_evcharger.Persist.Bytes.{le32_load}
use open_evcharger.Persist.Crc.{crc32}
use open_evcharger.Persist.Slot.{decoded}
use open_evcharger.Persist.Pingpong.{
  pingpong_load, current, validate, refused_size, read_and_validate, pick,
}
use open_evcharger.Persist.Pingpong.Laws.{Placed}
use open_evcharger.Persist.CrashState.{crash_encode, CrashRecord}
use open_evcharger.Tests.Chip.{cells, memory, memory-Chip}
use open_evcharger.Persist.Bytes.{zeros}
use open_evcharger.Persist.Slot.{Store, Durable, pingpong, pingpong-Durable}
use open_evcharger.Persist.CrashState.{
  CrashState, Event, boot, watchdog, power_on, crash_layout, crash_load, run, was_crash,
}
use open_evcharger.Persist.CrashState.Image.{CrashFits, crash_layout-Faithful, length-crash_encode}
use open_evcharger.Persist.CrashState.Streak.{streak, run-streak}
use open_evcharger.Persist.Authlist.{
  Authlist, tidy, mem, add, authlist_layout, authlist_encode, perform, rfid_authlist_contains,
}
use open_evcharger.Persist.Authlist.Written.{Wf, added, Wf-added}
use open_evcharger.Persist.Authlist.Image.{authlist_layout-Faithful, length-authlist_encode}
use open_evcharger.Persist.Authlist.Members.{Small-zeros, Small, Distinct}
use open_evcharger.Persist.Authlist.Cases.{is_failed, add-cases}
use open_evcharger.Persist.Authlist.Laws.{expected, perform-expected}
use open_evcharger.Persist.Authlist.Durable.{SmallCall}
use open_evcharger.Tests.Store.{store_memory}

abbrev crash_slots : Placed 0x04D000 0x04E000 32
crash_slots = record {
  apart = λ e. absurd (omega (arith, e));
  fits_a = omega arith;
  fits_b = omega arith;
  large = omega arith;
  small = omega arith;
}

abbrev blank_chip : ℕ → ℕ
blank_chip a = 0xFF

abbrev crash_store : Store (ℕ → ℕ) CrashRecord
crash_store = pingpong memory 0x04D000 0x04E000 crash_layout

crash_durable : Durable crash_store CrashFits
crash_durable =
    pingpong-Durable memory memory-Chip 0x04D000 0x04E000 crash_layout CrashFits
      crash_layout-Faithful crash_slots

crash_works : (m : ℕ → ℕ) (r : CrashRecord) → (crash_store.store m r).0 ≡ true
crash_works m r =
    store_memory m 0x04D000 0x04E000 32 (crash_encode r) (length-crash_encode r) (omega arith)
      (omega arith)

crash_fresh : crash_store.load blank_chip ≡ none
unfolding validate le32_load cells crc32 current pick pingpong_load refused_size read_and_validate
    decoded
crash_fresh = refl

-- Four crashes, a deliberate boot, and five crashes.
abbrev bad_week : List Event
bad_week =
    boot watchdog
    ∷ boot watchdog
    ∷ boot watchdog
    ∷ boot watchdog
    ∷ boot power_on
    ∷ boot watchdog
    ∷ boot watchdog
    ∷ boot watchdog
    ∷ boot watchdog
    ∷ boot watchdog
    ∷ []

bad_week_streak : streak bad_week 0 ≡ 5
unfolding streak was_crash
bad_week_streak = refl

abbrev off : CrashState
off = record { cs = record { version = 0; fast_restart_count = 0 }; safe_fail = false }

run-streak_example :
    ((run crash_store bad_week off blank_chip).0.safe_fail ≡ leb 5 (streak bad_week 0))
    × ((crash_load crash_store (run crash_store bad_week off blank_chip).1).fast_restart_count
        ≡ min 0xFF (streak bad_week 0))
run-streak_example =
    run-streak crash_store crash_durable crash_works blank_chip crash_fresh bad_week

abbrev card_slots : Placed 0x005000 0x006000 128
card_slots = record {
  apart = λ e. absurd (omega (arith, e));
  fits_a = omega arith;
  fits_b = omega arith;
  large = omega arith;
  small = omega arith;
}

abbrev card_store : Store (ℕ → ℕ) Authlist
card_store = pingpong memory 0x005000 0x006000 authlist_layout

card_durable : Durable card_store Wf
card_durable =
    pingpong-Durable memory memory-Chip 0x005000 0x006000 authlist_layout Wf
      authlist_layout-Faithful card_slots

-- One card.
abbrev one_card : Authlist
one_card = record { version = 1; count = 1; uids = 7 ∷ zeros 27 }

one_card-Wf : Wf one_card
unfolding Small Distinct mem zeros
one_card-Wf = record {
  sized = refl;
  bounded = omega arith;
  small = (omega arith, Small-zeros 27);
  distinct = ((λ e. absurd (omega (arith, e))), refl, tt);
}

perform-expected_example :
    let r = perform card_store (add 9) one_card blank_chip in
    rfid_authlist_contains r.1 9 ≡ expected (add 9) r.0 (rfid_authlist_contains one_card) 9
perform-expected_example = perform-expected card_store one_card one_card-Wf blank_chip (add 9) 9

abbrev with_card : ℕ → ℕ
with_card = (card_store.store blank_chip one_card).1

card_held : card_store.load with_card ≡ some one_card
card_held = card_durable.load_store blank_chip one_card one_card-Wf (
    store_memory blank_chip 0x005000 0x006000 128 (authlist_encode one_card)
      (length-authlist_encode one_card one_card-Wf.sized) (omega arith) (omega arith))

small_nine : SmallCall (add 9)
unfolding SmallCall
small_nine = omega arith

nine_stored : is_failed (perform card_store (add 9) one_card with_card).0 ≡ false
unfolding perform is_failed
nine_stored = elim (add-cases card_store one_card with_card 9) [
  | inl (o, silent, fine, e) ↦ rw e fine
  | inr (nz, fresh, room, inl (good, e)) ↦ rw e refl
  | inr (nz, fresh, room, inr (bad, e)) ↦
      let written : (card_store.store with_card (tidy (added one_card 9))).0 ≡ true =
        store_memory with_card 0x005000 0x006000 128 (authlist_encode (tidy (added one_card 9)))
          (length-authlist_encode (tidy (added one_card 9))
            (Wf-added one_card one_card-Wf 9 room nz fresh (omega arith)).sized)
          (omega arith) (omega arith) in
      absurd (ground (arith, written, bad))
]
