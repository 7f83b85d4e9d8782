-- ===== src/Tests/Logs.antt =====
-- Runs of the logs and of the persist task, on an erased chip in memory.
use open_evcharger.Prelude.{
  ℕ, ◌+◌, ◌*◌, ◌%◌, ◌≡◌, ◌<◌, ◌⊎◌, refl, List, [], ◌∷◌, ◌++◌, true, map, inl, length, take, min,
  arith,
}
use open_evcharger.Persist.Bytes.{zeros}
use open_evcharger.Persist.Flash.{blank}
use open_evcharger.Persist.Log.{
  Log, appended, all_ff, event_layout, total_records, log_append, log_init, make_room,
  event_log_append, stamp_record,
}
use open_evcharger.Persist.Log.Startup.{at_slot}
use open_evcharger.Persist.Log.Ready.{IsReady, valid-ne-blank}
use open_evcharger.Persist.Log.Reboot.{init-append}
use open_evcharger.Persist.Log.Runs.{append_all, AllAppended, remember, IsLog, append_all-IsLog}
use open_evcharger.Tasks.Listing.{fault_log_entry, fault_log_end, handle_get_fault_log, clamp_count}
use open_evcharger.Tasks.Listing.Newest.{fault_log-newest}
use open_evcharger.Tasks.PersistTask.Regions.{event-IsAligned}
use open_evcharger.Tasks.PersistTask.Overlap.{card_slot, append-cards_lost}
use open_evcharger.Tests.Chip.{cells, cells-blank, memory, memory-Chip}

abbrev pub erased : ℕ → ℕ
erased a = 0xFF

erased_slot : (j : ℕ) → at_slot event_layout memory erased j ≡ blank 32
erased_slot j = cells-blank erased (0x004000 + j * 32) 32 (λ i low high. refl)

-- A log whose head is at the first slot of a sector.
abbrev pub log_at : ℕ → Log
log_at slot = record { head_slot = slot; boot_count = 7; initialized = true }

erased-IsReady :
    (slot : ℕ)
    → slot < total_records event_layout
    → slot % 128 ≡ 0
    → IsReady event_layout memory (log_at slot) erased
erased-IsReady slot inside start = record {
  within = inside;
  rest_clear = λ h. absurd (h start);
  first_used = λ h. absurd (h start);
  blank_clear = λ s e j lo same. erased_slot j;
}

-- Two events, at 100 and 101 seconds.
abbrev pub event_one : List ℕ
event_one = 100 ∷ zeros 31

abbrev event_two : List ℕ
event_two = 101 ∷ zeros 31

pub size_one : length event_one ≡ 32
unfolding zeros
size_one = refl

one_appended : (log_append event_layout memory (log_at 0) erased event_one).0 ≡ appended
unfolding log_append make_room all_ff cells
one_appended = refl

init-append_example :
    let r = log_append event_layout memory (log_at 0) erased event_one in
    (log_init event_layout memory (log_at 5) r.2).head_slot ≡ r.1.head_slot
init-append_example =
    init-append event_layout event-IsAligned memory memory-Chip (log_at 0) erased
      (erased-IsReady 0 (omega arith) refl) event_one size_one one_appended (omega arith)
      (λ i inside held.
        absurd (valid-ne-blank (at_slot event_layout memory erased i) held (erased_slot i)))
      (log_at 5)

no_records : IsLog event_layout memory (log_at 0) erased []
no_records = record {
  ready = erased-IsReady 0 (omega arith) refl;
  holds = record {
    fits = omega arith;
    held = λ i lt. absurd (omega (arith, lt));
    all_valid = λ i lt. absurd (omega (arith, lt));
  };
}

both_appended : AllAppended event_layout memory (log_at 0) erased (event_one ∷ event_two ∷ [])
unfolding zeros AllAppended log_append make_room all_ff cells
both_appended = (refl, (refl, (refl, (refl, tt))))

append_all-IsLog_example :
    let r = append_all event_layout memory (log_at 0) erased (event_one ∷ event_two ∷ []) in
    IsLog event_layout memory r.0 r.1
      (remember event_layout memory 7 [] (event_one ∷ event_two ∷ []))
append_all-IsLog_example =
    append_all-IsLog event_layout event-IsAligned memory memory-Chip (event_one ∷ event_two ∷ [])
      (log_at 0) erased [] no_records both_appended

sector_appended : (event_log_append memory (log_at 128) erased event_one).0 ≡ appended
unfolding log_append make_room all_ff cells
sector_appended = refl

append-cards_lost_example :
    let m1 = (event_log_append memory (log_at 128) erased event_one).2 in
    ((card_slot 128 ≡ 0x005000) ⊎ (card_slot 128 ≡ 0x006000))
    × (memory.read m1 (card_slot 128) 128 ≡ stamp_record event_layout 7 event_one ++ blank 96)
append-cards_lost_example =
    append-cards_lost memory memory-Chip (log_at 128) erased event_one
      (erased-IsReady 128 (omega arith) refl) (inl refl) size_one sector_appended

abbrev both : Log × (ℕ → ℕ)
both = append_all event_layout memory (log_at 0) erased (event_one ∷ event_two ∷ [])

abbrev both_held : List (List ℕ)
both_held = remember event_layout memory 7 [] (event_one ∷ event_two ∷ [])

two_held : length both_held ≡ 2
unfolding remember
two_held = refl

asked_two : clamp_count 2 ≡ 2
unfolding clamp_count
asked_two = refl

abbrev both_IsLog : IsLog event_layout memory both.0 both.1 both_held
both_IsLog =
    append_all-IsLog event_layout event-IsAligned memory memory-Chip (event_one ∷ event_two ∷ [])
      (log_at 0) erased [] no_records both_appended

fault_log-newest_example :
    handle_get_fault_log memory both.0 both.1 2
    ≡ map fault_log_entry (take (clamp_count 2) both_held)
      ++ (fault_log_end (min (clamp_count 2) (length both_held)) (clamp_count 2) ∷ [])
fault_log-newest_example =
    fault_log-newest memory both.0 both.1 both_held 2 both_IsLog.ready.within both_IsLog.holds
      (inl (omega (arith, two_held, asked_two)))
