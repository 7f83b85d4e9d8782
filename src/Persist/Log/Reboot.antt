-- ===== src/Persist/Log/Reboot.antt =====
-- The logs of src/persist/event_log.c and src/persist/session_log.c over a restart.
use open_evcharger.Prelude.{
  ℕ, ◌+◌, ◌/◌, ◌≡◌, ◌≢◌, ◌≤◌, ◌<◌, refl, sym, ap, ◌∙◌, List, ◌++◌, true, false, inl, inr, length,
  length-take, take, drop, get_or, get_or-append, arith,
}
use native.Mathlib.Decide.{dec_lt, ℕ_discrete}
use open_evcharger.Persist.Bytes.{le32_load, splice, get_or-take, get_or-append_lt}
use open_evcharger.Persist.Crc.{crc16_ccitt}
use open_evcharger.Persist.Flash.{Flash, Chip}
use open_evcharger.Persist.Log.{
  LogLayout, Log, AppendResult, appended, total_records, le16, le16_load, older, classify_record,
  stamp_record, log_init, log_append,
}
use open_evcharger.Persist.Log.Startup.{at_slot, IsHeld, key_boot, key_ts, init-newest}
use open_evcharger.Persist.Log.Append.{IsAligned, length-splice, stamp_record-valid}
use open_evcharger.Persist.Log.Ready.{
  IsReady, valid-ne-blank, after, append-done, append-written, append-kept, append-clear,
}

module _ (p : List ℕ) (i : ℕ) (bs : List ℕ) (room : i + length bs ≤ length p) where
  front : length (take i p) ≡ i
  front = omega (arith, length-take i p, room)

  get_or-splice_before : (k : ℕ) → k < i → get_or (splice p i bs) k 0 ≡ get_or p k 0
  unfolding splice
  get_or-splice_before k h =
      get_or-append_lt (take i p) _ k (omega (arith, front, h)) ∙ get_or-take p i k h

  get_or-splice_at : (k : ℕ) → k < length bs → get_or (splice p i bs) (i + k) 0 ≡ get_or bs k 0
  unfolding splice
  get_or-splice_at k h =
      get_or-append (take i p) (bs ++ drop (i + length bs) p) k (i + k) 0 (omega (arith, front))
      ∙ get_or-append_lt bs (drop (i + length bs) p) k h

module _ (L : LogLayout) (aligned : IsAligned L) (boot : ℕ) (rec : List ℕ)
    (size : length rec ≡ 32) where
  abbrev pub r : List ℕ
  r = splice rec L.boot_at (le16 boot)

  length-le16 : (v : ℕ) → length (le16 v) ≡ 2
  unfolding le16
  length-le16 v = refl

  room1 : L.boot_at + length (le16 boot) ≤ length rec
  room1 = omega (arith, size, aligned.boot_in, length-le16 boot)

  room2 : 30 + length (le16 (crc16_ccitt (take 30 r))) ≤ length r
  room2 = omega (
    arith,
    length-splice rec L.boot_at (le16 boot) room1,
    size,
    length-le16 (crc16_ccitt (take 30 r)),
  )

  byte_of : (k : ℕ) → k < 30 → get_or (stamp_record L boot rec) k 0 ≡ get_or r k 0
  unfolding stamp_record
  byte_of k h = get_or-splice_before r 30 (le16 (crc16_ccitt (take 30 r))) room2 k h

  stamped_boot : boot < 65536 → le16_load (stamp_record L boot rec) L.boot_at ≡ boot
  unfolding le16_load le16
  stamped_boot small =
      let lo = get_or-splice_at rec L.boot_at (le16 boot) room1 0 (omega arith) in
      let hi = get_or-splice_at rec L.boot_at (le16 boot) room1 1 (omega arith) in
      let at0 : L.boot_at + 0 ≡ L.boot_at = omega arith in
      omega (
        arith,
        small,
        byte_of L.boot_at (omega (arith, aligned.boot_in)),
        byte_of (L.boot_at + 1) (omega (arith, aligned.boot_in)),
        ap (λ k. get_or r k 0) at0,
        lo,
        hi,
      )

  stamped_ts : le32_load (stamp_record L boot rec) L.ts_at ≡ le32_load rec L.ts_at
  unfolding le32_load
  stamped_ts =
      let keep = λ (k : ℕ) (h : k < L.boot_at).
        byte_of k (omega (arith, h, aligned.boot_in))
        ∙ get_or-splice_before rec L.boot_at (le16 boot) room1 k h in
      omega (
        arith,
        keep L.ts_at (omega (arith, aligned.ts_before)),
        keep (L.ts_at + 1) (omega (arith, aligned.ts_before)),
        keep (L.ts_at + 2) (omega (arith, aligned.ts_before)),
        keep (L.ts_at + 3) (omega (arith, aligned.ts_before)),
      )

module _ (L : LogLayout) (aligned : IsAligned L) {M : Type 0} (F : Flash M) (chip : Chip F)
    (g : Log) (m : M) (ready : IsReady L F g m) (rec : List ℕ) (size : length rec ≡ 32)
    (ok : (log_append L F g m rec).0 ≡ appended) where
  abbrev pub after1 : M
  after1 = after L aligned F chip g m ready rec size ok

  abbrev pub rec_ts : ℕ
  rec_ts = le32_load rec L.ts_at

  -- What a slot holds after the append, if not the new record.
  other_slot :
      (i : ℕ) → i ≢ g.head_slot → IsHeld L F after1 i → at_slot L F after1 i ≡ at_slot L F m i
  other_slot i ne held = elim (dec_lt i g.head_slot) [
    | yes lt ↦ append-kept L aligned F chip g m ready rec size ok i ne (inr lt)
    | no ge ↦ elim (ℕ_discrete (i / 128) (g.head_slot / 128)) [
      | no apart ↦ append-kept L aligned F chip g m ready rec size ok i ne (inl apart)
      | yes same ↦ absurd (
          valid-ne-blank (at_slot L F after1 i) held
            (append-clear L aligned F chip g m ready rec size ok i (omega (arith, ge, ne)) same))
    ]
  ]

  -- In chip `x`, slot `i` has a key before (b, t).
  abbrev pub IsBefore : M → ℕ → ℕ → ℕ → Type 0
  IsBefore x i b t =
      (older (key_boot L F x i) (key_ts L F x i) b t ≡ true)
      × (older b t (key_boot L F x i) (key_ts L F x i) ≡ false)

  -- On a chip that keeps its promises, the log is found again: after an append of a record of 32
  -- bytes that returns 0, to a log that is ready, a restart puts the head where the append left it,
  -- if the new record is later than every valid record of the log, by boot count and then by time.
  pub init-append :
      g.boot_count < 65536
      → ((i : ℕ) → i < total_records L → IsHeld L F m i → IsBefore m i g.boot_count rec_ts)
      → (g0 : Log)
      → let r = log_append L F g m rec in (log_init L F g0 r.2).head_slot ≡ r.1.head_slot
  init-append small latest g0 =
      let k = g.head_slot in
      let w = append-written L aligned F chip g m ready rec size ok in
      let b : key_boot L F after1 k ≡ g.boot_count =
        ap (λ p. le16_load p L.boot_at) w ∙ stamped_boot L aligned g.boot_count rec size small in
      let t : key_ts L F after1 k ≡ rec_ts =
        ap (λ p. le32_load p L.ts_at) w ∙ stamped_ts L aligned g.boot_count rec size in
      let known = λ (i : ℕ) (ne : i ≢ k) (lt : i < total_records L) (held : IsHeld L F after1 i).
        let same = other_slot i ne held in
        let h = latest i lt (ap classify_record (sym same) ∙ held) in
        let both : IsBefore after1 i (key_boot L F after1 k) (key_ts L F after1 k) = (
          ap
                (λ p.
                  older (le16_load p L.boot_at) (le32_load p L.ts_at) (key_boot L F after1 k)
                    (key_ts L F after1 k))
                same
              ∙ ap (λ x. older (key_boot L F m i) (key_ts L F m i) x (key_ts L F after1 k)) b
              ∙ ap (older (key_boot L F m i) (key_ts L F m i) g.boot_count) t
              ∙ h.0,
          ap
                (λ p.
                  older (key_boot L F after1 k) (key_ts L F after1 k) (le16_load p L.boot_at)
                    (le32_load p L.ts_at))
                same
              ∙ ap (λ x. older x (key_ts L F after1 k) (key_boot L F m i) (key_ts L F m i)) b
              ∙ ap (λ x. older g.boot_count x (key_boot L F m i) (key_ts L F m i)) t
              ∙ h.1,
        ) in
        both in
      let e = (append-done L aligned F chip g m ready rec size ok).2 in
      ap (λ (r : AppendResult × Log × M). (log_init L F g0 r.2).head_slot) e
      ∙ init-newest L F after1 k chip g0 ready.within
          (ap classify_record w ∙ stamp_record-valid L aligned g.boot_count rec size)
          (λ i lt held. (known i (omega (arith, lt)) (omega (arith, lt, ready.within)) held).0)
          (λ i lt inside held. (known i (omega (arith, lt)) inside held).1)
      ∙ ap (λ (r : AppendResult × Log × M). r.1.head_slot) (sym e)
