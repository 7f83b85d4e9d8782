-- ===== src/Persist/Log/Ready.antt =====
-- The state between two appends of src/persist/event_log.c and src/persist/session_log.c.
use open_evcharger.Prelude.{
  ℕ, ◌+◌, ◌-◌, ◌*◌, ◌/◌, ◌%◌, ◌≡◌, ◌≢◌, ◌≤◌, ◌<◌, ◌⊎◌, refl, sym, ap, ◌∙◌, List, Bool, true,
  Bool-cases, inl, inr, length, arith,
}
use native.Mathlib.Decide.{dec_lt, ℕ_discrete}
use native.Mathlib.Nat.{mod-eq_of_lt, mod-eq-sub-mod}
use open_evcharger.Persist.Flash.{Flash, Chip, blank}
use open_evcharger.Persist.Log.{
  LogLayout, Log, valid_record, appended, total_records, slot_to_addr, all_ff, classify_record,
  stamp_record, make_room, log_append,
}
use open_evcharger.Persist.Log.Startup.{at_slot}
use open_evcharger.Persist.Log.Append.{
  IsAligned, IsClear, sector_of, slot_fits, slot_in_page, erased-IsClear, room-cases, blank-all_ff,
  length-stamp_record, stamp_record-valid,
}

mod_self : (n : ℕ) → 0 < n → n % n ≡ 0
mod_self n pos =
    let none : n - n ≡ 0 = omega arith in
    mod-eq-sub-mod {n = n} {m = n} (omega arith) ∙ ap (λ k. k % n) none ∙ mod-eq_of_lt pos

pub valid-ne-blank : (p : List ℕ) → classify_record p ≡ valid_record → p ≢ blank 32
unfolding classify_record
valid-ne-blank p v e =
    let t : all_ff p ≡ true = ap all_ff e ∙ blank-all_ff 32 in ground (arith, t, v)

module _ (L : LogLayout) {M : Type 0} (F : Flash M) where
  -- The next slot is in the region; within a sector the rest of it is erased and its first record is not;
  -- a sector whose first record is blank is erased.
  pub record IsReady (g : Log) (m : M) : Type 0 where
    pub within : g.head_slot < total_records L
    pub rest_clear : g.head_slot % 128 ≢ 0 → IsClear L F m g.head_slot
    pub first_used : g.head_slot % 128 ≢ 0 → at_slot L F m (g.head_slot / 128 * 128) ≢ blank 32
    pub blank_clear : (s : ℕ) → at_slot L F m (s * 128) ≡ blank 32 → IsClear L F m (s * 128)

module _ (L : LogLayout) (aligned : IsAligned L) {M : Type 0} (F : Flash M) (chip : Chip F) where
  module _ (g : Log) (m : M) (ready : IsReady L F g m) where
    abbrev pub head : ℕ
    head = g.head_slot

    abbrev pub room : Bool × M
    room = make_room L F head m

    room-IsClear : room.0 ≡ true → IsClear L F room.1 head
    room-IsClear good = elim (room-cases L aligned F chip m head) [
      | inl (within, e) ↦ rw e (ready.rest_clear within)
      | inr (inl (first, is_blank, e)) ↦
          let s : head / 128 * 128 ≡ head = omega (arith, first) in
          rw e (rw s at (ready.blank_clear (head / 128) (rw s is_blank)))
      | inr (inr (first, e)) ↦
          rw e (erased-IsClear L aligned F chip m head first (sym (ap (λ r. r.0) e) ∙ good))
    ]

    room-kept :
        (j : ℕ) → (j / 128 ≢ head / 128) ⊎ (j < head) → at_slot L F room.1 j ≡ at_slot L F m j
    room-kept j other = elim (room-cases L aligned F chip m head) [
      | inl (within, e) ↦ rw e refl
      | inr (inl (first, is_blank, e)) ↦ rw e refl
      | inr (inr (first, e)) ↦ rw e (
          chip.read-erase_apart m (slot_to_addr L head) (slot_to_addr L j) 32
            (λ same. elim other [
              | inl h ↦ h (
                  omega
                    (arith, same, sector_of L aligned F chip j, sector_of L aligned F chip head))
              | inr h ↦ omega (
                arith,
                same,
                sector_of L aligned F chip j,
                sector_of L aligned F chip head,
                h,
                first,
              )
            ])
            (slot_fits L aligned F chip j))
    ]

    module _ (rec : List ℕ) (size : length rec ≡ 32)
        (ok : (log_append L F g m rec).0 ≡ appended) where
      abbrev pub written : List ℕ
      written = stamp_record L g.boot_count rec

      abbrev pub after : M
      after = (F.program room.1 (slot_to_addr L head) written).0

      -- What an append that returns 0 has done.
      pub append-done :
          (room.0 ≡ true)
          × ((F.program room.1 (slot_to_addr L head) written).1 ≡ true)
          × (log_append L F g m rec
              ≡ (appended, record g { head_slot = (head + 1) % total_records L }, after))
      unfolding log_append
      append-done = elim (Bool-cases g.initialized) [
        | inr h ↦ absurd (ground (arith, h, ok))
        | inl h ↦ elim (Bool-cases room.0) [
          | inr k ↦ absurd (ground (arith, h, k, ok))
          | inl k ↦ elim (Bool-cases (F.program room.1 (slot_to_addr L head) written).1) [
            | inr p ↦ absurd (ground (arith, h, k, p, ok))
            | inl p ↦ (k, p, rw (h, k, p) refl)
          ]
        ]
      ]

      len : length written ≡ 32
      len = length-stamp_record L aligned g.boot_count rec size

      fits : slot_to_addr L head % 256 + length written ≤ 256
      fits = omega (arith, len, slot_in_page L aligned F chip head)

      pub append-written : at_slot L F after head ≡ written
      append-written =
          let clear = room-IsClear append-done.0 head (omega arith) refl in
          ap (F.read after (slot_to_addr L head)) (sym len)
          ∙ chip.read-program room.1 (slot_to_addr L head) written append-done.1 fits
              (ap (F.read room.1 (slot_to_addr L head)) len ∙ clear ∙ ap blank (sym len))

      beside : (j : ℕ) → j ≢ head → at_slot L F after j ≡ at_slot L F room.1 j
      beside j ne =
          chip.read-program_beside room.1 (slot_to_addr L head) (slot_to_addr L j) 32 written fits
            (elim (dec_lt j head) [
              | yes h ↦ inl (omega (arith, h))
              | no h ↦ inr (omega (arith, h, ne, len))
            ])

      -- The other sectors, and the records before it, stay; the slots behind it in its sector are erased.
      pub append-kept :
          (j : ℕ)
          → j ≢ head
          → (j / 128 ≢ head / 128) ⊎ (j < head)
          → at_slot L F after j ≡ at_slot L F m j
      append-kept j ne other = beside j ne ∙ room-kept j other

      pub append-clear : (j : ℕ) → head < j → j / 128 ≡ head / 128 → at_slot L F after j ≡ blank 32
      append-clear j lt same =
          beside j (omega (arith, lt)) ∙ room-IsClear append-done.0 j (omega (arith, lt)) same

      append-not_blank : at_slot L F after head ≢ blank 32
      append-not_blank e =
          valid-ne-blank written (stamp_record-valid L aligned g.boot_count rec size)
            (sym append-written ∙ e)

      -- In the sector of the head its first record is used from now on.
      first_not_blank : at_slot L F after (head / 128 * 128) ≢ blank 32
      first_not_blank e = elim (ℕ_discrete (head % 128) 0) [
        | yes start ↦
            let s : head / 128 * 128 ≡ head = omega (arith, start) in
            append-not_blank (ap (at_slot L F after) (sym s) ∙ e)
        | no inside ↦
            let s : head / 128 * 128 < head = omega (arith, inside) in
            ready.first_used inside
              (sym (append-kept (head / 128 * 128) (omega (arith, s)) (inr s)) ∙ e)
      ]

      abbrev pub next : ℕ
      next = (head + 1) % total_records L

      -- The head moves on by one, and round at the end of the region.
      pub next-cases :
          ((head + 1 < total_records L) × (next ≡ head + 1))
          ⊎ ((head + 1 ≡ total_records L) × (next ≡ 0))
      next-cases = elim (dec_lt (head + 1) (total_records L)) [
        | yes h ↦ inl (h, mod-eq_of_lt h)
        | no h ↦
            let last : head + 1 ≡ total_records L = omega (arith, h, ready.within) in
            inr (
              last,
              ap (λ n. n % total_records L) last ∙ mod_self (total_records L) (omega (arith, last)),
            )
      ]

      blank-IsClear-after :
          (s : ℕ) → at_slot L F after (s * 128) ≡ blank 32 → IsClear L F after (s * 128)
      blank-IsClear-after s e j lo same =
          let other : s ≢ head / 128 =
            λ eq. first_not_blank (ap (λ t. at_slot L F after (t * 128)) (sym eq) ∙ e) in
          let was : at_slot L F m (s * 128) ≡ blank 32 =
            sym (
              append-kept (s * 128) (λ eq. other (omega (arith, eq)))
                (inl (λ eq. other (omega (arith, eq)))))
            ∙ e in
          append-kept j (λ eq. other (omega (arith, eq, same)))
            (inl (λ eq. other (omega (arith, eq, same))))
          ∙ ready.blank_clear s was j lo same

      -- An append that returns 0 leaves the log ready for the next one.
      pub append-IsReady : IsReady L F (record g { head_slot = next }) after
      append-IsReady = record {
        within = elim next-cases [
          | inl (lt, e) ↦ omega (arith, lt, e)
          | inr (last, e) ↦ omega (arith, ready.within, e)
        ];
        rest_clear = λ inside j lo same. elim next-cases [
          | inl (lt, e) ↦ append-clear j (omega (arith, lo, e)) (omega (arith, lo, e, inside, same))
          | inr (last, e) ↦ absurd (inside (omega (arith, e)))
        ];
        first_used = λ inside. elim next-cases [
          | inl (lt, e) ↦
              let same : next / 128 * 128 ≡ head / 128 * 128 = omega (arith, e, inside) in
              rw same first_not_blank
          | inr (last, e) ↦ absurd (inside (omega (arith, e)))
        ];
        blank_clear = blank-IsClear-after;
      }
