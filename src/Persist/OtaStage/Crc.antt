-- ===== src/Persist/OtaStage/Crc.antt =====
-- The running checksum of src/persist/ota_stage.c against the one of src/persist/crc.c.
use open_evcharger.Prelude.{
  ℕ, zero, suc, ◌+◌, ◌-◌, ◌%◌, ◌^◌, ◌≡◌, ◌≤◌, refl, sym, ap, ◌∙◌, List, [], ◌∷◌, ◌++◌, Bool-cases,
  inl, inr, ◌==◌, ==_iff, bit_xor, ltb, if◌then◌else◌, length, arith,
}
use open_evcharger.Persist.Crc.{crc32, crc32_from}
use open_evcharger.Persist.Flash.{Flash, Chip}
use open_evcharger.Persist.OtaStage.{
  ota_crc_init, ota_crc_update, ota_crc_finalize, crc_chunks, ota_stage_compute_crc, region_base,
}

update-crc32_from : (xs : List ℕ) (state : ℕ) → ota_crc_update state xs ≡ crc32_from state xs
unfolding ota_crc_update crc32_from
update-crc32_from [] state = refl
update-crc32_from (x ∷ xs) state = update-crc32_from xs _

update_none : (xs : List ℕ) (state : ℕ) → length xs ≡ 0 → ota_crc_update state xs ≡ state
unfolding ota_crc_update
update_none [] state h = refl
update_none (x ∷ xs) state h = absurd (omega (arith, h))

-- Chunk by chunk is the whole at once.
pub update-append :
    (xs ys : List ℕ) (state : ℕ)
    → ota_crc_update state (xs ++ ys) ≡ ota_crc_update (ota_crc_update state xs) ys
unfolding ota_crc_update
update-append [] ys state = refl
update-append (x ∷ xs) ys state = update-append xs ys _

pub finalize-update : (xs : List ℕ) → ota_crc_finalize (ota_crc_update ota_crc_init xs) ≡ crc32 xs
unfolding ota_crc_finalize ota_crc_init crc32
finalize-update xs = ap (λ s. bit_xor s 0xFFFFFFFF % 2 ^ 32) (update-crc32_from xs 0xFFFFFFFF)

module _ {M : Type 0} (F : Flash M) (chip : Chip F) (m : M) where
  -- The loop takes the bytes in order, and ends with `fuel` turns for `fuel` bytes.
  chunks-read :
      (fuel addr remaining state : ℕ)
      → remaining ≤ fuel
      → crc_chunks F fuel addr remaining m state ≡ ota_crc_update state (F.read m addr remaining)
  unfolding crc_chunks
  chunks-read zero addr remaining state enough = sym (
      update_none (F.read m addr remaining) state
        (omega (arith, chip.length-read m addr remaining, enough)))
  chunks-read (suc fuel) addr remaining state enough = elim (Bool-cases (remaining == 0)) [
    | inl h ↦ rw h (
        sym (
          update_none (F.read m addr remaining) state
            (chip.length-read m addr remaining ∙ (==_iff remaining 0).0 h)))
    | inr h ↦
        let step : ℕ = if ltb remaining 256 then remaining else 256 in
        let whole : remaining ≡ step + (remaining - step) = ground (arith, h) in
        rw h (
          chunks-read fuel (addr + step) (remaining - step)
            (ota_crc_update state (F.read m addr step)) (ground (arith, h, enough))
          ∙ sym
              (update-append (F.read m addr step) (F.read m (addr + step) (remaining - step)) state)
          ∙ ap (ota_crc_update state) (
              sym (chip.read_append m addr step (remaining - step))
              ∙ ap (F.read m addr) (sym whole)))
  ]

  -- On a chip that keeps its promises, the checksum that ota_stage_compute_crc builds up over reads of at
  -- most 256 bytes is the one-shot crc32 of the staged image, for every size.
  pub compute_crc-crc32 :
      (image_size : ℕ)
      → ota_stage_compute_crc F m image_size ≡ crc32 (F.read m region_base image_size)
  unfolding ota_stage_compute_crc
  compute_crc-crc32 image_size =
      ap ota_crc_finalize (chunks-read image_size region_base image_size ota_crc_init (omega arith))
      ∙ finalize-update (F.read m region_base image_size)
