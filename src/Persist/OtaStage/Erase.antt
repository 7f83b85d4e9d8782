-- ===== src/Persist/OtaStage/Erase.antt =====
-- Erasing the staging region: `ota_stage_begin` of src/persist/ota_stage.c.
use open_evcharger.Prelude.{
  ℕ, zero, suc, ◌+◌, ◌-◌, ◌*◌, ◌/◌, ◌%◌, ◌≡◌, ◌≤◌, ◌<◌, ◌⊎◌, refl, sym, ap, ◌∙◌, List, [], ◌∷◌,
  length, ◌++◌, true, Bool-cases, inl, inr, ◌==◌, ltb, arith,
}
use mathlib.Core.Path.{subst}
use open_evcharger.Persist.Flash.{Flash, Chip, blank}
use open_evcharger.Persist.OtaStage.{
  StageResult, done, stage_failed, erase_sectors, ota_stage_begin, region_base, region_size,
}
use open_evcharger.Persist.OtaStage.Pages.{blank_append, blank_parts, failed_done}

nothing : (xs : List ℕ) → length xs ≡ 0 → xs ≡ blank 0
unfolding blank
nothing [] h = refl
nothing (x ∷ xs) h = absurd (omega (arith, h))

module _ {M : Type 0} (F : Flash M) (chip : Chip F) where
  -- How a turn of the loop goes.
  erase-turn :
      (fuel addr end_aligned : ℕ) (m : M)
      → ((end_aligned ≤ addr) × (erase_sectors F (suc fuel) addr end_aligned m ≡ (done, m)))
        ⊎ ((addr < end_aligned)
            × (((F.erase m addr).1 ≡ true)
                  × (erase_sectors F (suc fuel) addr end_aligned m
                      ≡ erase_sectors F fuel (addr + 4096) end_aligned (F.erase m addr).0)
                ⊎ (erase_sectors F (suc fuel) addr end_aligned m
                    ≡ (stage_failed 1, (F.erase m addr).0))))
  unfolding erase_sectors
  erase-turn fuel addr end_aligned m = elim (Bool-cases (ltb addr end_aligned)) [
    | inr h ↦ inl (ground (arith, h), rw h refl)
    | inl h ↦ elim (Bool-cases (F.erase m addr).1) [
      | inl good ↦ inr (ground (arith, h), inl (good, rw (h, good) refl))
      | inr bad ↦ inr (ground (arith, h), inr (rw (h, bad) refl))
    ]
  ]

  -- The sectors before are left alone.
  erase_sectors-before :
      (fuel addr end_aligned : ℕ) (m : M) (b n : ℕ)
      → b + n ≤ addr
      → b % 4096 + n ≤ 4096
      → addr % 4096 ≡ 0
      → 0 < n
      → F.read (erase_sectors F fuel addr end_aligned m).1 b n ≡ F.read m b n
  unfolding erase_sectors
  erase_sectors-before zero addr end_aligned m b n low fits aligned some = refl
  erase_sectors-before (suc fuel) addr end_aligned m b n low fits aligned some =
      let once : F.read (F.erase m addr).0 b n ≡ F.read m b n =
        chip.read-erase_apart m addr b n (λ e. omega (arith, e, low, aligned, some)) fits in
      elim (erase-turn fuel addr end_aligned m) [
        | inl (past, e) ↦ ap (λ (s : StageResult × M). F.read s.1 b n) e
        | inr (more, inl (good, e)) ↦
            ap (λ (s : StageResult × M). F.read s.1 b n) e
            ∙ erase_sectors-before fuel (addr + 4096) end_aligned (F.erase m addr).0 b n
                (omega (arith, low)) fits (omega (arith, aligned)) some
            ∙ once
        | inr (more, inr e) ↦ ap (λ (s : StageResult × M). F.read s.1 b n) e ∙ once
      ]

  -- The loop ends by its own test if it has a turn for each sector and one more, and leaves them erased.
  erase_sectors-blank :
      (fuel addr count : ℕ) (m : M)
      → count < fuel
      → addr % 4096 ≡ 0
      → (erase_sectors F fuel addr (addr + count * 4096) m).0 ≡ done
      → F.read (erase_sectors F fuel addr (addr + count * 4096) m).1 addr (count * 4096)
        ≡ blank (count * 4096)
  unfolding erase_sectors
  erase_sectors-blank zero addr count m enough aligned ok = absurd (omega (arith, enough))
  erase_sectors-blank (suc fuel) addr zero m enough aligned ok =
      nothing _ (chip.length-read _ addr 0)
  erase_sectors-blank (suc fuel) addr (suc count) m enough aligned ok =
      let m1 = (F.erase m addr).0 in
      let end_aligned = addr + suc count * 4096 in
      let ahead : addr + suc count * 4096 ≡ addr + 4096 + count * 4096 = omega arith in
      let split : suc count * 4096 ≡ 4096 + count * 4096 = omega arith in
      elim (erase-turn fuel addr end_aligned m) [
        | inl (past, e) ↦ absurd (omega (arith, past))
        | inr (more, inr e) ↦
            absurd (failed_done 1 (ap (λ (s : StageResult × M). s.0) (sym e) ∙ ok))
        | inr (more, inl (good, e)) ↦
            let same : erase_sectors F (suc fuel) addr end_aligned m
                ≡ erase_sectors F fuel (addr + 4096) (addr + 4096 + count * 4096) m1 =
              e ∙ ap (λ x. erase_sectors F fuel (addr + 4096) x m1) ahead in
            let m2 = (erase_sectors F fuel (addr + 4096) (addr + 4096 + count * 4096) m1).1 in
            let first : F.read m2 addr 4096 ≡ blank 4096 =
              erase_sectors-before fuel (addr + 4096) (addr + 4096 + count * 4096) m1 addr 4096
                (omega arith) (omega (arith, aligned)) (omega (arith, aligned)) (omega arith)
              ∙ chip.read-erase m addr 4096 good (omega (arith, aligned)) in
            let others : F.read m2 (addr + 4096) (count * 4096) ≡ blank (count * 4096) =
              erase_sectors-blank fuel (addr + 4096) count m1 (omega (arith, enough))
                (omega (arith, aligned)) (ap (λ (s : StageResult × M). s.0) (sym same) ∙ ok) in
            ap (λ (s : StageResult × M). F.read s.1 addr (suc count * 4096)) same
            ∙ ap (F.read m2 addr) split
            ∙ chip.read_append m2 addr 4096 (count * 4096)
            ∙ ap (λ xs. xs ++ F.read m2 (addr + 4096) (count * 4096)) first
            ∙ ap (λ ys. blank 4096 ++ ys) others
            ∙ sym (blank_append 4096 (count * 4096))
            ∙ ap blank (sym split)
      ]

  -- A begin that reports success leaves room for the image, erased.
  pub ota_stage_begin-blank :
      (m : M) (image_size : ℕ)
      → (ota_stage_begin F m image_size).0 ≡ done
      → F.read (ota_stage_begin F m image_size).1 region_base image_size ≡ blank image_size
  unfolding ota_stage_begin
  ota_stage_begin-blank m image_size ok = elim (Bool-cases (image_size == 0)) [
    | inl h ↦ absurd (failed_done 3 (rw h at ok))
    | inr some ↦ elim (Bool-cases (ltb region_size image_size)) [
      | inl h ↦ absurd (failed_done 2 (rw (some, h) at ok))
      | inr fits ↦
          let count = (image_size + 4095) / 4096 in
          let m2 = (erase_sectors F 257 region_base (region_base + count * 4096) m).1 in
          let ends : (region_base + image_size + 4095) / 4096 * 4096 ≡ region_base + count * 4096 =
            omega arith in
          let whole : F.read m2 region_base (count * 4096) ≡ blank (count * 4096) =
            erase_sectors-blank 257 region_base count m (ground (arith, fits)) (omega arith)
              (rw (some, fits, ends) at ok) in
          let parts : count * 4096 ≡ image_size + (count * 4096 - image_size) = omega arith in
          rw (some, fits, ends)
            (blank_parts F chip m2 region_base image_size (count * 4096 - image_size)
              (subst (λ k. F.read m2 region_base k ≡ blank k) parts whole)).0
    ]
  ]
