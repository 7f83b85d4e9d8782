-- ===== src/Persist/Crc.antt =====
-- The checksums of src/persist/crc16.c and src/persist/crc.c. A buffer is a list of bytes.
use open_evcharger.Prelude.{
  ℕ, zero, suc, ◌*◌, ◌/◌, ◌%◌, ◌^◌, ◌≡◌, ◌<◌, bit_xor, List, [], ◌∷◌, if◌then◌else◌, ◌==◌, arith,
  refl,
}

-- One round of the inner loop of `crc16_ccitt`.
unfoldable pub crc16_round : ℕ → ℕ
crc16_round crc =
    if crc / 0x8000 % 2 == 1 then bit_xor (crc * 2) 0x1021 % 2 ^ 16 else crc * 2 % 2 ^ 16

-- `n` rounds.
unfoldable pub crc16_rounds : ℕ → ℕ → ℕ
unfolding crc16_round
crc16_rounds zero crc = crc
crc16_rounds (suc n) crc = crc16_rounds n (crc16_round crc)

-- The outer loop.
unfoldable pub crc16_from : ℕ → List ℕ → ℕ
unfolding crc16_rounds
crc16_from crc [] = crc
crc16_from crc (x ∷ xs) = crc16_from (crc16_rounds 8 (bit_xor crc (x * 256))) xs

unfoldable pub crc16_ccitt : List ℕ → ℕ
unfolding crc16_from
crc16_ccitt xs = crc16_from 0xFFFF xs

-- One round of the inner loop of `crc32`: the mask `-(crc & 1)` keeps the polynomial or drops it.
unfoldable pub crc32_round : ℕ → ℕ
crc32_round crc = if crc % 2 == 1 then bit_xor (crc / 2) 0xEDB88320 else bit_xor (crc / 2) 0

unfoldable pub crc32_rounds : ℕ → ℕ → ℕ
unfolding crc32_round
crc32_rounds zero crc = crc
crc32_rounds (suc n) crc = crc32_rounds n (crc32_round crc)

unfoldable pub crc32_from : ℕ → List ℕ → ℕ
unfolding crc32_rounds
crc32_from crc [] = crc
crc32_from crc (x ∷ xs) = crc32_from (crc32_rounds 8 (bit_xor crc x)) xs

unfoldable pub crc32 : List ℕ → ℕ
unfolding crc32_from
crc32 xs = bit_xor (crc32_from 0xFFFFFFFF xs) 0xFFFFFFFF % 2 ^ 32

crc16_round-lt : (crc : ℕ) → crc16_round crc < 65536
unfolding crc16_round
crc16_round-lt crc = ground arith

crc16_rounds-lt : (n crc : ℕ) → crc16_rounds (suc n) crc < 65536
unfolding crc16_rounds
crc16_rounds-lt zero crc = crc16_round-lt crc
crc16_rounds-lt (suc n) crc = crc16_rounds-lt n (crc16_round crc)

crc16_from-lt : (xs : List ℕ) (crc : ℕ) → crc < 65536 → crc16_from crc xs < 65536
unfolding crc16_from
crc16_from-lt [] crc h = h
crc16_from-lt (x ∷ xs) crc h =
    let y = bit_xor crc (x * 256) in crc16_from-lt xs (crc16_rounds 8 y) (crc16_rounds-lt 7 y)

-- The checksum fits its 16 bits.
pub crc16-lt : (xs : List ℕ) → crc16_ccitt xs < 65536
unfolding crc16_ccitt
crc16-lt xs = crc16_from-lt xs 0xFFFF (omega arith)

-- The check values of the two checksums, on the bytes of "123456789".
crc16_check :
    crc16_ccitt (0x31 ∷ 0x32 ∷ 0x33 ∷ 0x34 ∷ 0x35 ∷ 0x36 ∷ 0x37 ∷ 0x38 ∷ 0x39 ∷ []) ≡ 0x29B1
unfolding crc16_ccitt
crc16_check = refl

crc32_check : crc32 (0x31 ∷ 0x32 ∷ 0x33 ∷ 0x34 ∷ 0x35 ∷ 0x36 ∷ 0x37 ∷ 0x38 ∷ 0x39 ∷ []) ≡ 0xCBF43926
unfolding crc32
crc32_check = refl

-- The checksum fits its 32 bits.
pub crc32-lt : (xs : List ℕ) → crc32 xs < 2 ^ 32
unfolding crc32
crc32-lt xs = omega arith
