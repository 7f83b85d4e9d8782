-- ===== src/Tasks/PersistTask/Overlap.antt =====
-- The fault log of src/persist/event_log.c against the list of cards of src/persist/rfid_authlist.c.
use open_evcharger.Prelude.{
  ℕ, ◌+◌, ◌*◌, ◌%◌, ◌≡◌, ◌<◌, ◌⊎◌, refl, ap, ◌∙◌, List, ◌++◌, inl, inr, length, arith,
}
use open_evcharger.Persist.Flash.{Flash, Chip, blank}
use open_evcharger.Persist.Log.{
  Log, AppendResult, appended, event_layout, slot_to_addr, stamp_record, event_log_append,
}
use open_evcharger.Persist.Log.Ready.{IsReady, after, append-done, append-written, append-clear}
use open_evcharger.Tasks.PersistTask.Regions.{event-IsAligned}

-- The first address of the slot of the cards that the fault log comes to.
abbrev pub card_slot : ℕ → ℕ
card_slot head_slot = 0x004000 + head_slot * 32

-- Four records that follow each other.
read_four :
    {M : Type 0} (F : Flash M) (chip : Chip F) (m : M) (a : ℕ)
    → F.read m a 128
      ≡ F.read m a 32 ++ (F.read m (a + 32) 32 ++ (F.read m (a + 64) 32 ++ F.read m (a + 96) 32))
read_four F chip m a =
    let t64 : a + 32 + 32 ≡ a + 64 = omega arith in
    let t96 : a + 64 + 32 ≡ a + 96 = omega arith in
    chip.read_append m a 32 96
    ∙ ap (λ xs. F.read m a 32 ++ xs)
        (chip.read_append m (a + 32) 32 64
          ∙ ap (λ b. F.read m (a + 32) 32 ++ F.read m b 64) t64
          ∙ ap (λ xs. F.read m (a + 32) 32 ++ xs)
              (chip.read_append m (a + 64) 32 32
                ∙ ap (λ b. F.read m (a + 64) 32 ++ F.read m b 32) t96))

blank_three : blank 32 ++ (blank 32 ++ blank 32) ≡ blank 96
unfolding blank
blank_three = refl

-- On a chip that keeps its promises, when the head of the fault log is at slot 128 or 256, which
-- are the addresses 0x005000 and 0x006000 of the two slots of the card list: an append of a record
-- of 32 bytes to a log that is ready, which returns 0, puts the record over the first 32 of the 128
-- bytes of that slot of the card list, and the other 96 are erased.
pub append-cards_lost :
    {M : Type 0} (F : Flash M) (chip : Chip F) (g : Log) (m : M) (rec : List ℕ)
    → IsReady event_layout F g m
    → (g.head_slot ≡ 128) ⊎ (g.head_slot ≡ 256)
    → length rec ≡ 32
    → (event_log_append F g m rec).0 ≡ appended
    → let m1 = (event_log_append F g m rec).2 in
      ((card_slot g.head_slot ≡ 0x005000) ⊎ (card_slot g.head_slot ≡ 0x006000))
      × (F.read m1 (card_slot g.head_slot) 128
          ≡ stamp_record event_layout g.boot_count rec ++ blank 96)
append-cards_lost {M} F chip g m rec ready place size ok =
    let k = g.head_slot in
    let L = event_layout in
    let m1 = after L event-IsAligned F chip g m ready rec size ok in
    let w = stamp_record L g.boot_count rec in
    let e =
      ap (λ (r : AppendResult × Log × M). r.2)
        (append-done L event-IsAligned F chip g m ready rec size ok).2 in
    let start : k % 128 ≡ 0 = elim place [ inl h ↦ omega (arith, h) | inr h ↦ omega (arith, h) ] in
    let clear = λ (d : ℕ) (lo : 0 < d) (hi : d < 128).
      append-clear L event-IsAligned F chip g m ready rec size ok (k + d) (omega (arith, lo))
        (omega (arith, start, hi)) in
    let a = slot_to_addr L k in
    let c1 : F.read m1 (a + 32) 32 ≡ blank 32 =
      ap (λ x. F.read m1 x 32) (omega arith) ∙ clear 1 (omega arith) (omega arith) in
    let c2 : F.read m1 (a + 64) 32 ≡ blank 32 =
      ap (λ x. F.read m1 x 32) (omega arith) ∙ clear 2 (omega arith) (omega arith) in
    let c3 : F.read m1 (a + 96) 32 ≡ blank 32 =
      ap (λ x. F.read m1 x 32) (omega arith) ∙ clear 3 (omega arith) (omega arith) in
    let rest : F.read m1 (a + 32) 32 ++ (F.read m1 (a + 64) 32 ++ F.read m1 (a + 96) 32)
        ≡ blank 96 =
      rw (c1, c2, c3) blank_three in
    (
      elim place [ inl h ↦ inl (omega (arith, h)) | inr h ↦ inr (omega (arith, h)) ],
      ap (λ x. F.read x a 128) e
          ∙ read_four F chip m1 a
          ∙ ap
              (λ xs.
                xs ++ (F.read m1 (a + 32) 32 ++ (F.read m1 (a + 64) 32 ++ F.read m1 (a + 96) 32)))
              (append-written L event-IsAligned F chip g m ready rec size ok)
          ∙ ap (λ xs. w ++ xs) rest,
    )
