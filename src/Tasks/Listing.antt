-- ===== src/Tasks/Listing.antt =====
-- The answers of src/tasks/persist_task.c that list what is stored: cards, faults, energy.
pub mod Newest
pub mod Cards
use open_evcharger.Prelude.{
  ℕ, zero, suc, ◌+◌, ◌-◌, ◌*◌, ◌%◌, List, [], ◌∷◌, ◌++◌, Bool, true, false, Option, none, some,
  if◌then◌else◌, ◌==◌, ltb, map, length, ◌^◌,
}
use open_evcharger.Persist.Bytes.{le32_load}
use open_evcharger.Persist.Flash.{Flash}
use open_evcharger.Persist.Authlist.{Authlist, rfid_authlist_get_nth}
use open_evcharger.Persist.Log.{
  Log, ReadResult, record_read, no_valid_record, read_refused, event_log_read_nth,
  session_log_read_nth, event_layout, session_layout, total_records,
}
use open_evcharger.Persist.Log.History.{slot_back}

-- What is published, without the sequence number that is passed on: `EVT_RFID_LIST_ENTRY`,
-- `EVT_RFID_LIST_END`, `EVT_FAULT_LOG_ENTRY`, `EVT_FAULT_LOG_END` and `EVT_LIFETIME_KWH`.
pub data ListEvent : Type 0 where
  rfid_list_entry : (idx count uid : ℕ) → ListEvent
  rfid_list_end : (count : ℕ) → ListEvent
  fault_log_entry : List ℕ → ListEvent
  fault_log_end : (emitted max_count : ℕ) → ListEvent
  lifetime_kwh : (mwh : ℕ) → ListEvent

-- The loop of `handle_rfid_get_list`, with the entries left, from index `i`.
unfoldable pub list_cards : (left i : ℕ) → Authlist → List ListEvent
list_cards zero i l = []
list_cards (suc left) i l =
    let rest = list_cards left (suc i) l in
    elim (rfid_authlist_get_nth l i) [
      | none ↦ rest
      | some uid ↦ rfid_list_entry i l.count uid ∷ rest
    ]

unfoldable pub handle_rfid_get_list : Authlist → List ListEvent
handle_rfid_get_list l = list_cards l.count 0 l ++ (rfid_list_end l.count ∷ [])

-- The bounds on the number of records: 1 to 32.
unfoldable pub clamp_count : ℕ → ℕ
clamp_count max_count =
    let n = if max_count == 0 then 1 else max_count in if ltb 32 n then 32 else n

module _ {M : Type 0} (F : Flash M) where
  -- The records that the loop of `handle_get_fault_log` emits, with the slots left to look at.
  unfoldable pub collect : (left i emitted max_count head : ℕ) → M → List (List ℕ)
  collect zero i emitted max_count head m = []
  collect (suc left) i emitted max_count head m = elim (ltb emitted max_count) [
    | false ↦ []
    | true ↦ elim (event_log_read_nth F m (slot_back (total_records event_layout) head i)) [
      | record_read rec ↦ rec ∷ collect left (suc i) (suc emitted) max_count head m
      | no_valid_record ↦ collect left (suc i) emitted max_count head m
      | read_refused ↦ collect left (suc i) emitted max_count head m
    ]
  ]

  unfoldable pub handle_get_fault_log : Log → M → ℕ → List ListEvent
  handle_get_fault_log g m max_count =
      let n = clamp_count max_count in
      let recs = collect (total_records event_layout) 0 0 n g.head_slot m in
      map fault_log_entry recs ++ (fault_log_end (length recs) n ∷ [])

  -- The sum over the slots of the session log, in 64 bits.
  unfoldable pub sum_mwh : (left s total : ℕ) → M → ℕ
  sum_mwh zero s total m = total
  sum_mwh (suc left) s total m =
      let more : ℕ = elim (session_log_read_nth F m s) [
        | record_read rec ↦ (total + le32_load rec 8) % 2 ^ 64
        | no_valid_record ↦ total
        | read_refused ↦ total
      ] in
      sum_mwh left (suc s) more m

  unfoldable pub handle_get_lifetime_kwh : M → List ListEvent
  handle_get_lifetime_kwh m =
      let total_mwh = sum_mwh (total_records session_layout) 0 0 m in
      lifetime_kwh (if ltb 0xFFFFFFFF total_mwh then 0xFFFFFFFF else total_mwh) ∷ []
