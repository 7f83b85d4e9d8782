-- ===== src/Tests/Store.antt =====
-- Runs of the records on a chip in memory.
use open_evcharger.Prelude.{
  ℕ, ◌+◌, ◌%◌, ◌^◌, ◌≡◌, ◌≤◌, ◌⊎◌, refl, List, [], ◌∷◌, true, false, ◌||◌, length, ltb, arith, ◌==◌,
  Bool-cases, inl, inr,
}
use mathlib.Core.Path.{subst}
use open_evcharger.Persist.Bytes.{le32_load, le32_store}
use open_evcharger.Persist.Crc.{crc32}
use open_evcharger.Persist.Flash.{same_bytes}
use open_evcharger.Persist.Slot.{is_stored}
use open_evcharger.Persist.Pingpong.Image.{length-stamp}
use open_evcharger.Persist.Pingpong.{
  pingpong_load, pingpong_store, rewrite, retire, has_slot, current, Current, validate, target_slot,
  cur_counter, refused_size, read_and_validate, stored, loaded, stamp,
}
use open_evcharger.Persist.Pingpong.Laws.{
  Placed, pingpong_load-store, pingpong_store-atomic, written,
}
use open_evcharger.Tests.Chip.{
  cells, cleared, filled, cells-filled, memory, memory-Chip, failing, failing-Chip, failing-Torn,
}

-- The slots of the crash counter.
abbrev crash_slots : Placed 0x04D000 0x04E000 32
crash_slots = record {
  apart = λ e. absurd (omega (arith, e));
  fits_a = omega arith;
  fits_b = omega arith;
  large = omega arith;
  small = omega arith;
}

abbrev fresh_chip : ℕ → ℕ
fresh_chip a = 0xFF

abbrev one_crash : List ℕ
one_crash =
    1 ∷ 0 ∷ 0 ∷ 0 ∷ 0 ∷ 0 ∷ 0 ∷ 0 ∷ 1 ∷ 0 ∷ 0 ∷ 0 ∷ 0 ∷ 0 ∷ 0 ∷ 0 ∷ 0 ∷ 0 ∷ 0 ∷ 0 ∷ 0 ∷ 0 ∷ 0 ∷ 0
    ∷ 0 ∷ 0 ∷ 0 ∷ 0 ∷ 0 ∷ 0 ∷ 0 ∷ 0 ∷ []

-- The memory reports success, whatever is stored.
same_bytes_refl : (xs : List ℕ) → same_bytes xs xs ≡ true
unfolding same_bytes
same_bytes_refl [] = refl
same_bytes_refl (x ∷ xs) = ground (arith, same_bytes_refl xs)

retire-memory :
    (m : ℕ → ℕ) (other : ℕ) (cur : Current) (counter : ℕ)
    → is_stored (retire memory m other cur counter).0 ≡ true
unfolding retire is_stored
retire-memory m other cur counter = elim (Bool-cases (has_slot cur)) [
  | inl h ↦ rw h refl
  | inr h ↦ rw h refl
]

rewrite-memory :
    (m : ℕ → ℕ) (r : List ℕ) (target other : ℕ) (cur : Current) (counter : ℕ)
    → is_stored (rewrite memory m (length r) r target other cur counter).0 ≡ true
unfolding rewrite
rewrite-memory m r target other cur counter =
    rw (cells-filled (cleared m target) target r, same_bytes_refl r)
      (retire-memory _ other cur counter)

pub store_memory :
    (m : ℕ → ℕ) (a b n : ℕ) (buffer : List ℕ)
    → length buffer ≡ n
    → 12 ≤ n
    → n ≤ 256
    → is_stored (pingpong_store memory a b m buffer n).0 ≡ true
unfolding pingpong_store refused_size
store_memory m a b n buffer sized large small =
    let accepted : (ltb n 12 || ltb 256 n) ≡ false = ground (arith, large, small) in
    let cur = current (read_and_validate memory m a n) (read_and_validate memory m b n) in
    let counter = (cur_counter cur + 1) % 2 ^ 32 in
    let r = stamp n buffer counter in
    let full : length r ≡ n = length-stamp n buffer counter sized large in
    let run : (t o : ℕ) → is_stored (rewrite memory m n r t o cur counter).0 ≡ true = λ t o.
      subst (λ k. is_stored (rewrite memory m k r t o cur counter).0 ≡ true) full
        (rewrite-memory m r t o cur counter) in
    elim (Bool-cases (target_slot cur == 0)) [
      | inl h ↦ rw (accepted, h) (run a b)
      | inr h ↦ rw (accepted, h) (run b a)
    ]

first_store : (pingpong_store memory 0x04D000 0x04E000 fresh_chip one_crash 32).0 ≡ stored 0 1
unfolding pingpong_store refused_size target_slot current read_and_validate validate le32_load cells
    crc32 rewrite same_bytes stamp le32_store filled cur_counter retire has_slot cleared
first_store = refl

pingpong_load-store_example :
    pingpong_load memory 0x04D000 0x04E000
      (pingpong_store memory 0x04D000 0x04E000 fresh_chip one_crash 32).1
      32
    ≡ loaded (stamp 32 one_crash 1) 0 1
pingpong_load-store_example =
    pingpong_load-store memory memory-Chip 0x04D000 0x04E000 32 crash_slots fresh_chip one_crash
      refl 0 1 first_store

-- The chip behind that store, and a store that is cut.
abbrev stored_once : ℕ → ℕ
stored_once = (pingpong_store memory 0x04D000 0x04E000 fresh_chip one_crash 32).1

counter_once :
    cur_counter (
      current
        (validate 32 (cells stored_once 0x04D000 32))
        (validate 32 (cells stored_once 0x04E000 32)))
    ≡ 1
unfolding pingpong_store refused_size target_slot current read_and_validate validate le32_load cells
    crc32 rewrite same_bytes stamp le32_store filled cur_counter retire has_slot cleared
counter_once = refl

pingpong_store-atomic_example :
    (pingpong_load failing 0x04D000 0x04E000
        (pingpong_store failing 0x04D000 0x04E000 stored_once one_crash 32).1
        32
      ≡ pingpong_load failing 0x04D000 0x04E000 stored_once 32)
    ⊎ (pingpong_load failing 0x04D000 0x04E000
          (pingpong_store failing 0x04D000 0x04E000 stored_once one_crash 32).1
          32
        ≡ written failing failing-Chip 0x04D000 0x04E000 32 crash_slots stored_once one_crash refl)
pingpong_store-atomic_example =
    pingpong_store-atomic failing failing-Chip 0x04D000 0x04E000 32 crash_slots stored_once
      one_crash refl failing-Torn (omega (arith, counter_once))
