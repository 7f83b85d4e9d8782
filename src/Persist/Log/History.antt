-- ===== src/Persist/Log/History.antt =====
-- The logs of src/persist/event_log.c and src/persist/session_log.c as the sequence of their last records.
use open_evcharger.Prelude.{
  ℕ, zero, suc, ◌+◌, ◌-◌, ◌%◌, ◌≡◌, ◌≤◌, ◌<◌, ◌⊎◌, refl, sym, ap, ◌∙◌, List, [], ◌∷◌, inl, inr,
  length, length-take, take, get_or, arith,
}
use native.Mathlib.Decide.{dec_lt}
use native.Mathlib.Nat.{mod-eq_of_lt, mod-eq-sub-mod}
use open_evcharger.Persist.Flash.{Flash, Chip}
use open_evcharger.Persist.Log.{
  LogLayout, Log, valid_record, appended, total_records, classify_record, log_append,
}
use open_evcharger.Persist.Log.Startup.{at_slot}
use open_evcharger.Persist.Log.Append.{IsAligned, stamp_record-valid}
use open_evcharger.Persist.Log.Ready.{
  IsReady, after, written, next, next-cases, append-written, append-kept,
}

-- The slot of the record `i` before the newest one, as the listing computes it.
abbrev pub slot_back : (total head i : ℕ) → ℕ
slot_back total head i = (head + total - 1 - i) % total

pub slot_back-cases :
    (total head i : ℕ)
    → head < total
    → i < total
    → ((i < head) × (slot_back total head i ≡ head - 1 - i))
      ⊎ ((head ≤ i) × (slot_back total head i ≡ head + total - 1 - i))
slot_back-cases total head i h k = elim (dec_lt i head) [
  | yes lt ↦
      let n = head + total - 1 - i in
      let less : n - total ≡ head - 1 - i = omega (arith, lt) in
      inl (
        lt,
        mod-eq-sub-mod {n = n} {m = total} (omega (arith, lt))
            ∙ ap (λ j. j % total) less
            ∙ mod-eq_of_lt (omega (arith, lt, h)),
      )
  | no ge ↦ inr (omega (arith, ge), mod-eq_of_lt (omega (arith, ge, h, k)))
]

-- When the head moves on, each record is one further back.
module _ (total head next : ℕ) (inside : head < total)
    (moved : ((head + 1 < total) × (next ≡ head + 1)) ⊎ ((head + 1 ≡ total) × (next ≡ 0))) where
  next_inside : next < total
  next_inside = elim moved [
    | inl (lt, e) ↦ omega (arith, lt, e)
    | inr (last, e) ↦ omega (arith, inside, e)
  ]

  back_newest : 1 < total → slot_back total next 0 ≡ head
  back_newest large = elim (slot_back-cases total next 0 next_inside (omega (arith, large))) [
    | inl (lt, e) ↦ elim moved [
      | inl (k, n) ↦ omega (arith, e, n)
      | inr (k, n) ↦ absurd (omega (arith, lt, n))
    ]
    | inr (ge, e) ↦ elim moved [
      | inl (k, n) ↦ absurd (omega (arith, ge, n))
      | inr (k, n) ↦ omega (arith, e, n, k)
    ]
  ]

  back_next : (i : ℕ) → suc i < total → slot_back total next (suc i) ≡ slot_back total head i
  back_next i lt =
      let here = slot_back-cases total head i inside (omega (arith, lt)) in
      let there = slot_back-cases total next (suc i) next_inside lt in
      elim moved [
        | inl (k, n) ↦ elim here [
          | inl (h, e) ↦ elim there [
            | inl (h2, e2) ↦ omega (arith, e, e2, n)
            | inr (h2, e2) ↦ absurd (omega (arith, h, h2, n))
          ]
          | inr (h, e) ↦ elim there [
            | inl (h2, e2) ↦ absurd (omega (arith, h, h2, n))
            | inr (h2, e2) ↦ omega (arith, e, e2, n, lt)
          ]
        ]
        | inr (k, n) ↦ elim here [
          | inl (h, e) ↦ elim there [
            | inl (h2, e2) ↦ absurd (omega (arith, h2, n))
            | inr (h2, e2) ↦ omega (arith, e, e2, n, k, h)
          ]
          | inr (h, e) ↦ absurd (omega (arith, h, k, lt))
        ]
      ]

module _ (L : LogLayout) {M : Type 0} (F : Flash M) where
  -- All records but those of one sector.
  abbrev pub capacity : ℕ
  capacity = total_records L - 128

  -- The log holds the records `hist`, the newest first, in the slots before its head.
  pub record Holds (g : Log) (m : M) (hist : List (List ℕ)) : Type 0 where
    pub fits : length hist ≤ capacity
    pub held :
        (i : ℕ)
        → i < length hist
        → at_slot L F m (slot_back (total_records L) g.head_slot i) ≡ get_or hist i []
    pub all_valid : (i : ℕ) → i < length hist → classify_record (get_or hist i []) ≡ valid_record

get_or-take_lt : (p : List (List ℕ)) (n i : ℕ) → i < n → get_or (take n p) i [] ≡ get_or p i []
get_or-take_lt p zero i h = absurd (omega (arith, h))
get_or-take_lt [] (suc n) i h = refl
get_or-take_lt (x ∷ p) (suc n) zero h = refl
get_or-take_lt (x ∷ p) (suc n) (suc i) h = get_or-take_lt p n i (omega (arith, h))

module _ (L : LogLayout) (aligned : IsAligned L) {M : Type 0} (F : Flash M) (chip : Chip F) where
  module _ (g : Log) (m : M) (ready : IsReady L F g m) (hist : List (List ℕ))
      (holds : Holds L F g m hist) (rec : List ℕ) (size : length rec ≡ 32)
      (ok : (log_append L F g m rec).0 ≡ appended) where
    abbrev pub next_hist : List (List ℕ)
    next_hist = take (capacity L F) (written L aligned F chip g m ready rec size ok ∷ hist)

    -- A record that stays in the history is not touched.
    kept :
        (i : ℕ)
        → suc i < capacity L F
        → at_slot L F
            (after L aligned F chip g m ready rec size ok)
            (slot_back (total_records L) g.head_slot i)
          ≡ at_slot L F m (slot_back (total_records L) g.head_slot i)
    kept i lt =
        let j = slot_back (total_records L) g.head_slot i in
        let where_it_is =
          slot_back-cases (total_records L) g.head_slot i ready.within (omega (arith, lt)) in
        append-kept L aligned F chip g m ready rec size ok j
          (λ eq. elim where_it_is [
            | inl (h, e) ↦ omega (arith, h, e, eq)
            | inr (h, e) ↦ omega (arith, h, e, eq, lt)
          ])
          (elim where_it_is [
            | inl (h, e) ↦ inr (omega (arith, h, e))
            | inr (h, e) ↦ inl (λ same. omega (arith, h, e, lt, same))
          ])

    held_after :
        (i : ℕ)
        → i < capacity L F
        → i < suc (length hist)
        → at_slot L F
            (after L aligned F chip g m ready rec size ok)
            (slot_back (total_records L) (next L aligned F chip g m ready rec size ok) i)
          ≡ get_or (written L aligned F chip g m ready rec size ok ∷ hist) i []
    held_after zero small known =
        ap (at_slot L F (after L aligned F chip g m ready rec size ok)) (
          back_newest (total_records L) g.head_slot (next L aligned F chip g m ready rec size ok)
            ready.within (next-cases L aligned F chip g m ready rec size ok) (omega (arith, small)))
        ∙ append-written L aligned F chip g m ready rec size ok
    held_after (suc i) small known =
        ap (at_slot L F (after L aligned F chip g m ready rec size ok)) (
          back_next (total_records L) g.head_slot (next L aligned F chip g m ready rec size ok)
            ready.within (next-cases L aligned F chip g m ready rec size ok) i
            (omega (arith, small)))
        ∙ kept i small
        ∙ holds.held i (omega (arith, known))

    valid_after :
        (i : ℕ)
        → i < suc (length hist)
        → classify_record (get_or (written L aligned F chip g m ready rec size ok ∷ hist) i [])
          ≡ valid_record
    valid_after zero known = stamp_record-valid L aligned g.boot_count rec size
    valid_after (suc i) known = holds.all_valid i (omega (arith, known))

    -- The record that an append stored is the newest, and the others move back, the oldest out.
    pub append-Holds :
        Holds L F
          (record g { head_slot = next L aligned F chip g m ready rec size ok })
          (after L aligned F chip g m ready rec size ok)
          next_hist
    append-Holds =
        let all = written L aligned F chip g m ready rec size ok ∷ hist in
        let size_of = length-take (capacity L F) all in
        record {
          fits = omega (arith, size_of);
          held = λ i lt.
              held_after i (omega (arith, lt, size_of)) (omega (arith, lt, size_of))
              ∙ sym (get_or-take_lt all (capacity L F) i (omega (arith, lt, size_of)));
          all_valid = λ i lt.
              ap classify_record (get_or-take_lt all (capacity L F) i (omega (arith, lt, size_of)))
              ∙ valid_after i (omega (arith, lt, size_of));
        }
