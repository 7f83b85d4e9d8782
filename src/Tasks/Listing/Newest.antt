-- ===== src/Tasks/Listing/Newest.antt =====
-- The fault listing of src/tasks/persist_task.c.
use open_evcharger.Prelude.{
  ℕ, zero, suc, ◌+◌, ◌-◌, ◌≡◌, ◌≢◌, ◌≤◌, ◌<◌, ◌⊎◌, refl, sym, ap, ◌∙◌, List, [], ◌∷◌, ◌++◌, false,
  inl, inr, length, length-take, take, get_or, ltb, lt→ltb, leb, map, arith, min,
}
use native.Mathlib.Decide.{dec_lt}
use native.Mathlib.Nat.{mod-lt}
use open_evcharger.Persist.Flash.{Flash}
use open_evcharger.Persist.Log.{
  Log, ReadResult, record_read, no_valid_record, event_layout, total_records, event_log_read_nth,
  log_read_nth, as_read, classify_record, Class, valid_record, blank_record, corrupt_record,
}
use open_evcharger.Persist.Log.Startup.{at_slot}
use open_evcharger.Persist.Log.History.{slot_back, Holds}
use open_evcharger.Tasks.Listing.{
  fault_log_entry, fault_log_end, collect, clamp_count, handle_get_fault_log,
}

module _ {M : Type 0} (F : Flash M) (head : ℕ) (m : M) where
  -- What the listing reads at step `i`.
  abbrev pub step_read : ℕ → ReadResult
  step_read i = event_log_read_nth F m (slot_back (total_records event_layout) head i)

  collect-full :
      (left i emitted max_count : ℕ)
      → max_count ≤ emitted
      → collect F left i emitted max_count head m ≡ []
  unfolding collect
  collect-full zero i emitted max_count h = refl
  collect-full (suc left) i emitted max_count h =
      let t : ltb emitted max_count ≡ false = ground (arith, h) in rw (t, collect) refl

  collect_none : (i emitted max_count : ℕ) → collect F 0 i emitted max_count head m ≡ []
  unfolding collect
  collect_none i emitted max_count = refl

  module _ (left i emitted max_count : ℕ) (more : emitted < max_count) where
    collect-hit :
        (p : List ℕ)
        → step_read i ≡ record_read p
        → collect F (suc left) i emitted max_count head m
          ≡ p ∷ collect F left (suc i) (suc emitted) max_count head m
    unfolding collect
    collect-hit p e = let t = lt→ltb emitted max_count more in rw (t, e, collect) refl

    collect-skip :
        step_read i ≡ no_valid_record
        → collect F (suc left) i emitted max_count head m
          ≡ collect F left (suc i) emitted max_count head m
    unfolding collect
    collect-skip e = let t = lt→ltb emitted max_count more in rw (t, e, collect) refl

  take_none : (n : ℕ) → take {A = List ℕ} n [] ≡ []
  take_none zero = refl
  take_none (suc n) = refl

  take_more :
      (n k : ℕ) (p : List ℕ) (ps : List (List ℕ))
      → k < n
      → take (n - k) (p ∷ ps) ≡ p ∷ take (n - suc k) ps
  take_more n k p ps h = let e : n - k ≡ suc (n - suc k) = omega (arith, h) in rw e refl

  -- The loop, where the next records are `rest`, and either as many as are asked for or all that are valid.
  collect-take :
      (left i emitted max_count : ℕ) (rest : List (List ℕ))
      → length rest ≤ left
      → ((j : ℕ) → j < length rest → step_read (i + j) ≡ record_read (get_or rest j []))
      → (max_count ≤ emitted + length rest)
        ⊎ ((j : ℕ) → length rest ≤ j → j < left → step_read (i + j) ≡ no_valid_record)
      → collect F left i emitted max_count head m ≡ take (max_count - emitted) rest
  collect-take zero i emitted max_count [] enough reads ends =
      collect_none i emitted max_count ∙ sym (take_none (max_count - emitted))
  collect-take zero i emitted max_count (x ∷ rest) enough reads ends =
      absurd (omega (arith, enough))
  collect-take (suc left) i emitted max_count [] enough reads ends =
      elim (dec_lt emitted max_count) [
        | no h ↦
            collect-full (suc left) i emitted max_count (omega (arith, h))
            ∙ sym (take_none (max_count - emitted))
        | yes more ↦ elim ends [
          | inl few ↦ absurd (omega (arith, more, few))
          | inr quiet ↦
              collect-skip left i emitted max_count more
                (ap step_read (omega arith) ∙ quiet 0 (omega arith) (omega arith))
              ∙ collect-take left (suc i) emitted max_count [] (omega arith)
                  (λ j lt. absurd (omega (arith, lt)))
                  (inr (λ j ge lt.
                    ap step_read (omega arith) ∙ quiet (suc j) (omega arith) (omega (arith, lt))))
        ]
      ]
  collect-take (suc left) i emitted max_count (p ∷ rest) enough reads ends =
      elim (dec_lt emitted max_count) [
        | no h ↦
            let z : max_count - emitted ≡ 0 = omega (arith, h) in
            collect-full (suc left) i emitted max_count (omega (arith, h))
            ∙ sym (ap (λ n. take n (p ∷ rest)) z)
        | yes more ↦
            collect-hit left i emitted max_count more p
              (ap step_read (omega arith) ∙ reads 0 (omega arith))
            ∙ ap (λ ps. p ∷ ps)
                (collect-take left (suc i) (suc emitted) max_count rest (omega (arith, enough))
                  (λ j lt. ap step_read (omega arith) ∙ reads (suc j) (omega (arith, lt)))
                  (elim ends [
                    | inl few ↦ inl (omega (arith, few))
                    | inr quiet ↦ inr (λ j ge lt.
                        ap step_read (omega arith)
                        ∙ quiet (suc j) (omega (arith, ge)) (omega (arith, lt)))
                  ]))
            ∙ sym (take_more max_count emitted p rest more)
      ]

slot_back-lt : (total head i : ℕ) → 0 < total → slot_back total head i < total
slot_back-lt total head i pos = mod-lt (head + total - 1 - i) pos

module _ {M : Type 0} (F : Flash M) (m : M) (slot : ℕ)
    (inside : slot < total_records event_layout) where
  read_class :
      event_log_read_nth F m slot
      ≡ as_read (at_slot event_layout F m slot) (classify_record (at_slot event_layout F m slot))
  unfolding log_read_nth
  read_class =
      let t : leb (total_records event_layout) slot ≡ false = ground (arith, inside) in rw t refl

  read_valid :
      classify_record (at_slot event_layout F m slot) ≡ valid_record
      → event_log_read_nth F m slot ≡ record_read (at_slot event_layout F m slot)
  unfolding as_read
  read_valid v = read_class ∙ ap (as_read (at_slot event_layout F m slot)) v

  read_other :
      classify_record (at_slot event_layout F m slot) ≢ valid_record
      → event_log_read_nth F m slot ≡ no_valid_record
  unfolding as_read
  read_other other = read_class ∙ by_class (classify_record (at_slot event_layout F m slot)) other
    where
      by_class :
          (c : Class)
          → c ≢ valid_record
          → as_read (at_slot event_layout F m slot) c ≡ no_valid_record
      by_class blank_record h = refl
      by_class corrupt_record h = refl
      by_class valid_record h = absurd (h refl)

-- For an event log that holds the records `hist`, the newest first, and either as many as are asked for or all
-- that are valid: the answer is the newest of them, in this order, as many as are asked for within 1 to 32, and
-- then a frame with their number.
pub fault_log-newest :
    {M : Type 0} (F : Flash M) (g : Log) (m : M) (hist : List (List ℕ)) (max_count : ℕ)
    → g.head_slot < total_records event_layout
    → Holds event_layout F g m hist
    → (clamp_count max_count ≤ length hist)
      ⊎ ((j : ℕ)
          → length hist ≤ j
          → j < total_records event_layout
          → classify_record
              (at_slot event_layout F m (slot_back (total_records event_layout) g.head_slot j))
            ≢ valid_record)
    → let n = clamp_count max_count in
      handle_get_fault_log F g m max_count
      ≡ map fault_log_entry (take n hist) ++ (fault_log_end (min n (length hist)) n ∷ [])
unfolding handle_get_fault_log
fault_log-newest F g m hist max_count inside holds ends =
    let n = clamp_count max_count in
    let total : ℕ = total_records event_layout in
    let there = λ (j : ℕ). slot_back-lt total g.head_slot j (omega arith) in
    let e : collect F total 0 0 n g.head_slot m ≡ take n hist =
      collect-take F g.head_slot m total 0 0 n hist (omega (arith, holds.fits))
        (λ j lt.
          let h = holds.held j lt in
          ap (step_read F g.head_slot m) (omega arith)
          ∙ read_valid F m (slot_back total g.head_slot j) (there j)
              (ap classify_record h ∙ holds.all_valid j lt)
          ∙ ap record_read h)
        (elim ends [
          | inl few ↦ inl (omega (arith, few))
          | inr quiet ↦ inr (λ j ge lt.
              ap (step_read F g.head_slot m) (omega arith)
              ∙ read_other F m (slot_back total g.head_slot j) (there j) (quiet j ge lt))
        ])
      ∙ ap (λ k. take k hist) (omega arith) in
    rw (e, length-take n hist) refl
