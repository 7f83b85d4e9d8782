-- ===== src/Persist/Footprint/Stage.antt =====
-- What the staging of src/persist/ota_stage.c writes: the staging region alone.
use open_evcharger.Prelude.{
  ℕ, zero, suc, ◌+◌, ◌*◌, ◌/◌, ◌≢◌, ◌≤◌, ◌<◌, List, ◌==◌, ltb, ltb→lt, Bool-cases, inl, inr, length,
  take, drop, length-drop, arith,
}
use open_evcharger.Persist.Flash.{Flash, Chip}
use open_evcharger.Persist.OtaStage.{
  region_base, region_size, this_prog, erase_sectors, ota_stage_begin, write_pages, ota_stage_write,
}
use open_evcharger.Persist.OtaStage.Pages.{piece_fits, piece_within, length-taken}
use open_evcharger.Persist.Footprint.{Keeps, Keeps-refl, Keeps-trans, erase-Keeps, program-Keeps}

-- The sectors of the staging region.
abbrev pub stage_first : ℕ
stage_first = 0x400

abbrev pub stage_behind : ℕ
stage_behind = 0x500

module _ {M : Type 0} (F : Flash M) (chip : Chip F) where
  erase_sectors-Keeps :
      (fuel addr end_aligned : ℕ) (m : M)
      → stage_first ≤ addr / 4096
      → end_aligned ≤ 0x500000
      → Keeps F stage_first stage_behind m (erase_sectors F fuel addr end_aligned m).1
  unfolding erase_sectors
  erase_sectors-Keeps zero addr end_aligned m low high = Keeps-refl F stage_first stage_behind m
  erase_sectors-Keeps (suc fuel) addr end_aligned m low high =
      elim (Bool-cases (ltb addr end_aligned)) [
        | inr h ↦ rw h (Keeps-refl F stage_first stage_behind m)
        | inl h ↦
            let e = F.erase m addr in
            let erased : Keeps F stage_first stage_behind m e.0 =
              erase-Keeps F chip stage_first stage_behind m addr low (
                let lt : addr < end_aligned = ltb→lt addr end_aligned h in
                omega (arith, lt, high)) in
            elim (Bool-cases e.1) [
              | inr k ↦ rw (h, k) erased
              | inl k ↦
                  rw (h, k)
                    (Keeps-trans F stage_first stage_behind m e.0
                      (erase_sectors F fuel (addr + 4096) end_aligned e.0).1 erased
                      (erase_sectors-Keeps fuel (addr + 4096) end_aligned e.0 (omega (arith, low))
                        high))
            ]
      ]

  pub ota_stage_begin-Keeps :
      (m : M) (image_size : ℕ)
      → Keeps F stage_first stage_behind m (ota_stage_begin F m image_size).1
  unfolding ota_stage_begin
  ota_stage_begin-Keeps m image_size = elim (Bool-cases (image_size == 0)) [
    | inl h ↦ rw h (Keeps-refl F stage_first stage_behind m)
    | inr h ↦ elim (Bool-cases (ltb region_size image_size)) [
      | inl k ↦ rw (h, k) (Keeps-refl F stage_first stage_behind m)
      | inr k ↦
          rw (h, k)
            (erase_sectors-Keeps 257 region_base ((region_base + image_size + 4095) / 4096 * 4096) m
              (omega arith)
              (let fits : image_size ≤ region_size = ground (arith, k) in omega (arith, fits)))
    ]
  ]

  write_pages-Keeps :
      (fuel addr : ℕ) (src : List ℕ) (m : M)
      → stage_first ≤ addr / 4096
      → addr + length src ≤ 0x500000
      → Keeps F stage_first stage_behind m (write_pages F fuel addr src m).1
  unfolding write_pages
  write_pages-Keeps zero addr src m low high = Keeps-refl F stage_first stage_behind m
  write_pages-Keeps (suc fuel) addr src m low high = elim (Bool-cases (length src == 0)) [
    | inl h ↦ rw h (Keeps-refl F stage_first stage_behind m)
    | inr h ↦
        let k = this_prog addr src in
        let p = F.program m addr (take k src) in
        let some_left : length src ≢ 0 = ground (arith, h) in
        let written : Keeps F stage_first stage_behind m p.0 =
          program-Keeps F chip stage_first stage_behind m addr low (omega (arith, high, some_left))
            (take k src) (omega (arith, length-taken addr src, piece_fits addr src)) in
        elim (Bool-cases p.1) [
          | inr q ↦ rw (h, q) written
          | inl q ↦
              rw (h, q)
                (Keeps-trans F stage_first stage_behind m p.0
                  (write_pages F fuel (addr + k) (drop k src) p.0).1 written
                  (write_pages-Keeps fuel (addr + k) (drop k src) p.0 (omega (arith, low))
                    (omega (arith, high, length-drop k src, piece_within addr src))))
        ]
  ]

  pub ota_stage_write-Keeps :
      (m : M) (offset : ℕ) (src : List ℕ)
      → Keeps F stage_first stage_behind m (ota_stage_write F m offset src).1
  unfolding ota_stage_write
  ota_stage_write-Keeps m offset src = elim (Bool-cases (length src == 0)) [
    | inl h ↦ rw h (Keeps-refl F stage_first stage_behind m)
    | inr h ↦ elim (Bool-cases (ltb region_size (offset + length src))) [
      | inl k ↦ rw (h, k) (Keeps-refl F stage_first stage_behind m)
      | inr k ↦
          rw (h, k)
            (write_pages-Keeps (length src) (region_base + offset) src m (omega arith) (
              let fits : offset + length src ≤ region_size = ground (arith, k) in
              omega (arith, fits)))
    ]
  ]
