-- ===== src/Persist/Pingpong/Image.antt =====
-- What a stamped record and an erased slot look like to `read_and_validate` of src/persist/pingpong.c.
use open_evcharger.Prelude.{
  ℕ, zero, suc, ◌+◌, ◌-◌, ◌^◌, ◌≡◌, ◌≤◌, ◌<◌, refl, ap, ◌∙◌, List, ◌∷◌, Bool, true, false, ◌&&◌,
  none, some, ◌==◌, arith, length, take, get_or, not, Bool-cases, inl, inr, ltb, ltb→lt, sym,
}
use open_evcharger.Persist.Bytes.{
  le32_load, le32_store, length-le32_store, take-le32_store, le32_load-store,
  le32_load-store_before, get_or-le32_store, get_or-le32_store_after, le32_load-store_after,
}
use open_evcharger.Persist.Crc.{crc32, crc32-lt}
use open_evcharger.Persist.Flash.{blank}
use open_evcharger.Persist.Pingpong.{validate, stamp}

==_refl : (a : ℕ) → (a == a) ≡ true
==_refl a = ground arith

module _ (n : ℕ) (r : List ℕ) (counter : ℕ) (sized : length r ≡ n) (large : 12 ≤ n) where
  abbrev pub r4 : List ℕ
  r4 = le32_store r 4 counter

  length-r4 : length r4 ≡ n
  length-r4 = length-le32_store r 4 counter (omega (arith, sized, large)) ∙ sized

  room : n - 4 + 4 ≤ length r4
  room = omega (arith, length-r4, large)

  pub length-stamp : length (stamp n r counter) ≡ n
  unfolding stamp
  length-stamp = length-le32_store r4 (n - 4) (crc32 (take (n - 4) r4)) room ∙ length-r4

  -- The bytes before the checksum are those that it was computed on.
  pub take-stamp : take (n - 4) (stamp n r counter) ≡ take (n - 4) r4
  unfolding stamp
  take-stamp = take-le32_store r4 (n - 4) (crc32 (take (n - 4) r4)) room (n - 4) (omega arith)

  crc-stamp : le32_load (stamp n r counter) (n - 4) ≡ crc32 (take (n - 4) r4)
  unfolding stamp
  crc-stamp = le32_load-store r4 (n - 4) _ room (crc32-lt (take (n - 4) r4))

  counter-stamp : counter < 2 ^ 32 → le32_load (stamp n r counter) 4 ≡ counter
  unfolding stamp
  counter-stamp small =
      le32_load-store_before r4 (n - 4) _ room 4 (omega (arith, large))
      ∙ le32_load-store r 4 counter (omega (arith, sized, large)) small

  pub validate-stamp : counter < 2 ^ 32 → validate n (stamp n r counter) ≡ some counter
  unfolding validate
  validate-stamp small =
      rw (crc-stamp, take-stamp, counter-stamp small, ==_refl (crc32 (take (n - 4) r4)))

  -- The caller's bytes are kept.
  pub get_or-stamp_front : (k : ℕ) → k < 4 → get_or (stamp n r counter) k 0 ≡ get_or r k 0
  unfolding stamp
  get_or-stamp_front k h =
      get_or-le32_store r4 (n - 4) _ room k (omega (arith, h, large))
      ∙ get_or-le32_store r 4 counter (omega (arith, sized, large)) k h

  pub get_or-stamp : (k : ℕ) → 8 ≤ k → k + 4 < n → get_or (stamp n r counter) k 0 ≡ get_or r k 0
  unfolding stamp
  get_or-stamp k low high =
      get_or-le32_store r4 (n - 4) _ room k (omega (arith, high))
      ∙ get_or-le32_store_after r 4 counter (omega (arith, sized, large)) k low
          (omega (arith, sized, high))

  pub le32_load-stamp :
      (k : ℕ) → 8 ≤ k → k + 8 ≤ n → le32_load (stamp n r counter) k ≡ le32_load r k
  unfolding stamp
  le32_load-stamp k low high =
      le32_load-store_before r4 (n - 4) _ room k (omega (arith, high))
      ∙ le32_load-store_after r 4 counter (omega (arith, sized, large)) k low
          (omega (arith, sized, high))

-- An erased slot is never valid: no run of erased bytes of a record's length has its own checksum.
crc_differs : ℕ → Bool
crc_differs zero = true
crc_differs (suc k) = not (crc32 (blank (8 + k)) == 0xFFFFFFFF) && crc_differs k

crc_differs_all : crc_differs 245 ≡ true
unfolding crc_differs crc32 blank
crc_differs_all = refl

crc_differs-at :
    (j k : ℕ) → crc_differs k ≡ true → j < k → (crc32 (blank (8 + j)) == 0xFFFFFFFF) ≡ false
unfolding crc_differs
crc_differs-at j zero h lt = absurd (omega (arith, lt))
crc_differs-at j (suc k) h lt =
    let both : ((crc32 (blank (8 + k)) == 0xFFFFFFFF) ≡ false) × (crc_differs k ≡ true) =
      ground arith in
    elim (Bool-cases (ltb j k)) [
      | inl less ↦ crc_differs-at j k both.1 (ltb→lt j k less)
      | inr same ↦
          let eq : j ≡ k = ground (arith, same, lt) in
          ap (λ i. crc32 (blank (8 + i)) == 0xFFFFFFFF) eq ∙ both.0
    ]

take-blank : (k n : ℕ) → k ≤ n → take k (blank n) ≡ blank k
unfolding blank
take-blank zero n h = refl
take-blank (suc k) zero h = absurd (omega (arith, h))
take-blank (suc k) (suc n) h = ap (λ ts. 0xFF ∷ ts) (take-blank k n (omega (arith, h)))

get_or-blank : (k n : ℕ) → k < n → get_or (blank n) k 0 ≡ 0xFF
unfolding blank
get_or-blank k zero h = absurd (omega (arith, h))
get_or-blank zero (suc n) h = refl
get_or-blank (suc k) (suc n) h = get_or-blank k n (omega (arith, h))

load-blank : (k n : ℕ) → k + 4 ≤ n → le32_load (blank n) k ≡ 0xFFFFFFFF
unfolding le32_load
load-blank k n h = omega (
  arith,
  get_or-blank k n (omega (arith, h)),
  get_or-blank (k + 1) n (omega (arith, h)),
  get_or-blank (k + 2) n (omega (arith, h)),
  get_or-blank (k + 3) n (omega (arith, h)),
)

pub validate-blank : (n : ℕ) → 12 ≤ n → n ≤ 256 → validate n (blank n) ≡ none
unfolding validate
validate-blank n large small =
    let eight : 8 + (n - 12) ≡ n - 4 = omega (arith, large) in
    let apart : (crc32 (blank (n - 4)) == 0xFFFFFFFF) ≡ false =
      ap (λ i. crc32 (blank i) == 0xFFFFFFFF) (sym eight)
      ∙ crc_differs-at (n - 12) 245 crc_differs_all (omega (arith, large, small)) in
    let swapped : (0xFFFFFFFF == crc32 (blank (n - 4))) ≡ false = ground (arith, apart) in
    rw (load-blank (n - 4) n (omega (arith, large)), take-blank (n - 4) n (omega arith), swapped)
