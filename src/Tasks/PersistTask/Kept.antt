-- ===== src/Tasks/PersistTask/Kept.antt =====
-- What a request of src/tasks/persist_task.c leaves as it is: the records of the other parts.
use open_evcharger.Prelude.{ℕ, ◌+◌, ◌/◌, ◌%◌, ◌≡◌, ◌≢◌, ◌≤◌, ◌<◌, ◌⊎◌, refl, inl, inr, arith}
use open_evcharger.Persist.Flash.{Flash, Chip}
use open_evcharger.Persist.Slot.{Layout, pingpong}
use open_evcharger.Persist.Pingpong.{pingpong_load, read_and_validate}
use open_evcharger.Persist.Log.{
  LogLayout, event_layout, session_layout, total_records, slot_to_addr,
}
use open_evcharger.Persist.Log.Startup.{at_slot}
use open_evcharger.Persist.Log.Append.{IsAligned, sector_of, slot_fits}
use open_evcharger.Persist.Footprint.{Keeps}
use open_evcharger.Tasks.PersistTask.{
  Queued, Stored, handle, config_slots, cal_slots, card_slots, crash_slots,
}
use open_evcharger.Tasks.PersistTask.Regions.{event-IsAligned, session-IsAligned}
use open_evcharger.Tasks.PersistTask.Apart.{
  Part, settings, scales, faults, sessions_log, crashes, card_list, first_sector, behind_sector,
  owner, IsFine, KeepsPart, handle-Keeps,
}

-- The sectors of a part lie outside of those from `lo` to before `hi`.
abbrev pub IsOutside : Part → ℕ → ℕ → Type 0
IsOutside p lo hi = (hi ≤ first_sector p) ⊎ (behind_sector p ≤ lo)

IsOutside-settings : (p : Part) → p ≢ settings → IsOutside p 0 2
unfolding first_sector behind_sector
IsOutside-settings settings ne = absurd (ne refl)
IsOutside-settings p ne = ground arith

IsOutside-scales : (p : Part) → p ≢ scales → IsOutside p 2 4
unfolding first_sector behind_sector
IsOutside-scales scales ne = absurd (ne refl)
IsOutside-scales p ne = ground arith

IsOutside-crashes : (p : Part) → p ≢ crashes → IsOutside p 0x4D 0x4F
unfolding first_sector behind_sector
IsOutside-crashes crashes ne = absurd (ne refl)
IsOutside-crashes p ne = ground arith

IsOutside-cards : (p : Part) → p ≢ card_list → p ≢ faults → IsOutside p 5 7
unfolding first_sector behind_sector
IsOutside-cards card_list ne nf = absurd (ne refl)
IsOutside-cards faults ne nf = absurd (nf refl)
IsOutside-cards p ne nf = ground arith

IsOutside-faults : (p : Part) → p ≢ faults → p ≢ card_list → IsOutside p 4 0x44
unfolding first_sector behind_sector
IsOutside-faults faults ne nc = absurd (ne refl)
IsOutside-faults card_list ne nc = absurd (nc refl)
IsOutside-faults p ne nc = ground arith

IsOutside-sessions : (p : Part) → p ≢ sessions_log → IsOutside p 0x44 0x4C
unfolding first_sector behind_sector
IsOutside-sessions sessions_log ne = absurd (ne refl)
IsOutside-sessions p ne = ground arith

module _ {M : Type 0} (F : Flash M) (p : Part) (m m1 : M) (kept : KeepsPart F p m m1) where
  read_kept :
      (b n lo hi : ℕ)
      → b % 4096 + n ≤ 4096
      → lo ≤ b / 4096
      → b / 4096 < hi
      → IsOutside p lo hi
      → F.read m1 b n ≡ F.read m b n
  unfolding Keeps
  read_kept b n lo hi fits low high outside =
      kept b n fits (elim outside [
        | inl h ↦ inl (omega (arith, h, high))
        | inr h ↦ inr (omega (arith, h, low))
      ])

  load_kept :
      {R : Type 0} (addr_a addr_b lo hi : ℕ) (L : Layout R)
      → addr_a % 4096 + L.size ≤ 4096
      → addr_b % 4096 + L.size ≤ 4096
      → (lo ≤ addr_a / 4096) × (addr_a / 4096 < hi)
      → (lo ≤ addr_b / 4096) × (addr_b / 4096 < hi)
      → IsOutside p lo hi
      → (pingpong F addr_a addr_b L).load m1 ≡ (pingpong F addr_a addr_b L).load m
  unfolding pingpong_load read_and_validate
  load_kept addr_a addr_b lo hi L fits_a fits_b in_a in_b outside =
      let ea = read_kept addr_a L.size lo hi fits_a in_a.0 in_a.1 outside in
      let eb = read_kept addr_b L.size lo hi fits_b in_b.0 in_b.1 outside in rw (ea, eb) refl

  slot_kept :
      (chip : Chip F) (L : LogLayout) (aligned : IsAligned L) (j : ℕ)
      → j < total_records L
      → IsOutside p (L.base / 4096) (L.base / 4096 + L.sectors)
      → at_slot L F m1 j ≡ at_slot L F m j
  slot_kept chip L aligned j inside outside =
      read_kept (slot_to_addr L j) 32 (L.base / 4096) (L.base / 4096 + L.sectors)
        (slot_fits L aligned F chip j) (omega (arith, sector_of L aligned F chip j))
        (omega (arith, sector_of L aligned F chip j, inside)) outside

-- On a chip that keeps its promises, with records of 32 bytes for the logs, heads within their
-- regions and a well-formed list of cards: a request leaves the records of every other part as they
-- are, whether its writes succeed or fail. The settings, the scales and the crash counter load as
-- before, and every slot of the sessions reads as before. The fault log and the list of cards are
-- the exception, whose sectors overlap: each is kept by requests that are about neither.
pub handle-kept :
    {M : Type 0} (F : Flash M) (chip : Chip F) (q : Queued) (s : Stored M)
    → IsFine q s
    → let m1 = (handle F q s).1.flash in
      (owner q ≢ settings → (config_slots F).load m1 ≡ (config_slots F).load s.flash)
      × (owner q ≢ scales → (cal_slots F).load m1 ≡ (cal_slots F).load s.flash)
      × (owner q ≢ crashes → (crash_slots F).load m1 ≡ (crash_slots F).load s.flash)
      × (owner q ≢ sessions_log
          → (j : ℕ) → j < total_records session_layout
          → at_slot session_layout F m1 j ≡ at_slot session_layout F s.flash j)
      × (owner q ≢ card_list
          → owner q ≢ faults
          → (card_slots F).load m1 ≡ (card_slots F).load s.flash)
      × (owner q ≢ faults
          → owner q ≢ card_list
          → (j : ℕ) → j < total_records event_layout
          → at_slot event_layout F m1 j ≡ at_slot event_layout F s.flash j)
handle-kept F chip q s fine =
    let m = s.flash in
    let m1 = (handle F q s).1.flash in
    let p = owner q in
    let kept : KeepsPart F p m m1 = handle-Keeps F chip q s fine in
    (
      λ ne.
          load_kept F p m m1 kept 0x000000 0x001000 0 2 _ (omega arith) (omega arith) (omega arith)
            (omega arith) (IsOutside-settings p ne),
      λ ne.
          load_kept F p m m1 kept 0x002000 0x003000 2 4 _ (omega arith) (omega arith) (omega arith)
            (omega arith) (IsOutside-scales p ne),
      λ ne.
          load_kept F p m m1 kept 0x04D000 0x04E000 0x4D 0x4F _ (omega arith) (omega arith)
            (omega arith) (omega arith) (IsOutside-crashes p ne),
      λ ne j inside.
          slot_kept F p m m1 kept chip session_layout session-IsAligned j inside
            (IsOutside-sessions p ne),
      λ ne nf.
          load_kept F p m m1 kept 0x005000 0x006000 5 7 _ (omega arith) (omega arith) (omega arith)
            (omega arith) (IsOutside-cards p ne nf),
      λ ne nc j inside.
          slot_kept F p m m1 kept chip event_layout event-IsAligned j inside
            (IsOutside-faults p ne nc),
    )
