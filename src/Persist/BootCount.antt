-- ===== src/Persist/BootCount.antt =====
-- The boot counter of src/persist/boot_count.c: one record, erased and written again at every boot.
use open_evcharger.Prelude.{
  ℕ, ◌+◌, ◌/◌, ◌%◌, ◌^◌, ◌≡◌, ◌<◌, refl, sym, ap, ◌∙◌, List, [], ◌∷◌, ◌++◌, true, not, ◌&&◌,
  if◌then◌else◌, ◌==◌, get_or, get_or-append, length, take, take-append, arith,
}
use open_evcharger.Persist.Bytes.{le32, le32_load, zeros}
use open_evcharger.Persist.Crc.{crc32, crc32-lt}
use open_evcharger.Persist.Flash.{Flash, Chip, blank}

-- `struct boot_count_record` with `last_fault_id` 0, up to its checksum, and whole.
unfoldable pub count_body : ℕ → List ℕ
count_body count = 1 ∷ 0 ∷ 0 ∷ 0 ∷ (le32 count ++ zeros 20)

unfoldable pub count_record : ℕ → List ℕ
count_record count = count_body count ++ le32 (crc32 (count_body count))

-- The count of a record, 0 if it is not valid.
unfoldable pub count_of : List ℕ → ℕ
count_of p = if get_or p 0 0 == 1 && le32_load p 28 == crc32 (take 28 p) then le32_load p 4 else 0

module _ {M : Type 0} (F : Flash M) where
  abbrev pub stored_count : M → ℕ
  stored_count m = count_of (F.read m 0x04C000 32)

  unfoldable pub boot_count_increment : M → ℕ × M
  boot_count_increment m =
      let count = (stored_count m + 1) % 2 ^ 32 in
      let e = F.erase m 0x04C000 in
      let p = F.program e.0 0x04C000 (count_record count) in
      if not e.1 then (0xFFFFFFFF, e.0) else if not p.1 then (0xFFFFFFFF, p.0) else (count, p.0)

length-count_body : (count : ℕ) → length (count_body count) ≡ 28
unfolding count_body le32 zeros
length-count_body count = refl

length-count_record : (count : ℕ) → length (count_record count) ≡ 32
unfolding count_record count_body le32 zeros
length-count_record count = refl

word_at_end :
    (body : List ℕ) (v : ℕ) → length body ≡ 28 → v < 2 ^ 32 → le32_load (body ++ le32 v) 28 ≡ v
unfolding le32_load le32
word_at_end body v size small =
    let bs : List ℕ = v % 256 ∷ v / 256 % 256 ∷ v / 65536 % 256 ∷ v / 16777216 % 256 ∷ [] in
    omega (
      arith,
      small,
      get_or-append body bs 0 28 0 (omega (arith, size)),
      get_or-append body bs 1 29 0 (omega (arith, size)),
      get_or-append body bs 2 30 0 (omega (arith, size)),
      get_or-append body bs 3 31 0 (omega (arith, size)),
    )

count_of-valid :
    (p : List ℕ)
    → get_or p 0 0 ≡ 1
    → le32_load p 28 ≡ crc32 (take 28 p)
    → count_of p ≡ le32_load p 4
unfolding count_of
count_of-valid p version crc = ground (arith, version, crc)

module _ (count : ℕ) where
  take-count_record : take 28 (count_record count) ≡ count_body count
  unfolding count_record
  take-count_record =
      let tail = le32 (crc32 (count_body count)) in
      ap (λ n. take n (count_body count ++ tail)) (sym (length-count_body count))
      ∙ take-append (count_body count) tail

  crc-count_record : le32_load (count_record count) 28 ≡ crc32 (count_body count)
  unfolding count_record
  crc-count_record =
      word_at_end (count_body count) (crc32 (count_body count)) (length-count_body count)
        (crc32-lt (count_body count))

  version-count_record : get_or (count_record count) 0 0 ≡ 1
  unfolding count_record count_body
  version-count_record = refl

  value-count_record : count < 2 ^ 32 → le32_load (count_record count) 4 ≡ count
  unfolding count_record count_body le32 le32_load
  value-count_record small = omega (arith, small)

  -- What is written is read as the count.
  count_of-record : count < 2 ^ 32 → count_of (count_record count) ≡ count
  count_of-record small =
      count_of-valid (count_record count) version-count_record
        (crc-count_record ∙ sym (ap crc32 take-count_record))
      ∙ value-count_record small

-- An increment whose erase and program return 0 returns one more than the count that was stored, in 32 bits, and
-- that is what is stored then.
pub increment-stored :
    {M : Type 0} (F : Flash M) (chip : Chip F) (m : M)
    → let count = (stored_count F m + 1) % 2 ^ 32 in
      (F.erase m 0x04C000).1 ≡ true
      → (F.program (F.erase m 0x04C000).0 0x04C000 (count_record count)).1 ≡ true
      → let r = boot_count_increment F m in (r.0 ≡ count) × (stored_count F r.1 ≡ count)
unfolding boot_count_increment
increment-stored F chip m erased written =
    let count = (stored_count F m + 1) % 2 ^ 32 in
    let e = F.erase m 0x04C000 in
    let p = F.program e.0 0x04C000 (count_record count) in
    let len = length-count_record count in
    let back : F.read p.0 0x04C000 32 ≡ count_record count =
      ap (F.read p.0 0x04C000) (sym len)
      ∙ chip.read-program e.0 0x04C000 (count_record count) written (omega (arith, len)) (
          ap (F.read e.0 0x04C000) len
          ∙ chip.read-erase m 0x04C000 32 erased (omega arith)
          ∙ ap blank (sym len)) in
    rw (erased, written) (refl, ap count_of back ∙ count_of-record count (omega arith))
