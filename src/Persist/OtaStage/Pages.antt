-- ===== src/Persist/OtaStage/Pages.antt =====
-- Erasing and writing the staging region of src/persist/ota_stage.c.
use open_evcharger.Prelude.{
  ℕ, zero, suc, ◌+◌, ◌-◌, ◌%◌, ◌≡◌, ◌≢◌, ◌⊎◌, ◌≤◌, ◌<◌, refl, sym, ap, ◌∙◌, List, [], ◌∷◌, ◌++◌,
  Bool, true, Bool-cases, inl, inr, ◌==◌, ==_iff, length, take, drop, take-drop, take-append,
  length-take, length-drop, arith,
}
use open_evcharger.Persist.Flash.{Flash, Chip, blank}
use open_evcharger.Persist.OtaStage.{StageResult, this_prog, done, stage_failed, write_pages}

-- The pieces of the source's loop.
module _ (addr : ℕ) (src : List ℕ) where
  pub piece_fits : addr % 256 + this_prog addr src ≤ 256
  unfolding this_prog
  piece_fits = ground arith

  pub piece_within : this_prog addr src ≤ length src
  unfolding this_prog
  piece_within = ground arith

  pub piece_moves : 0 < length src → 0 < this_prog addr src
  unfolding this_prog
  piece_moves h = ground (arith, h)

  pub length-taken : length (take (this_prog addr src) src) ≡ this_prog addr src
  length-taken = omega (arith, length-take (this_prog addr src) src, piece_within)

pub blank_append : (n k : ℕ) → blank (n + k) ≡ blank n ++ blank k
unfolding blank
blank_append zero k = let none_more : 0 + k ≡ k = omega arith in rw none_more refl
blank_append (suc n) k =
    let more : suc n + k ≡ suc (n + k) = omega arith in
    rw more (ap (λ xs. 0xFF ∷ xs) (blank_append n k))

blank_nil : (xs : List ℕ) → length xs ≡ 0 → blank (length xs) ≡ xs
unfolding blank
blank_nil [] h = refl
blank_nil (x ∷ xs) h = absurd (omega (arith, h))

pub failed_done : (code : ℕ) → stage_failed code ≢ done
failed_done code e = ground (arith, e)

length-blank : (n : ℕ) → length (blank n) ≡ n
unfolding blank
length-blank zero = refl
length-blank (suc n) = omega (arith, length-blank n)

drop-append : (xs ys : List ℕ) → drop (length xs) (xs ++ ys) ≡ ys
drop-append [] ys = refl
drop-append (x ∷ xs) ys = drop-append xs ys

append_cancel :
    (xs us ys vs : List ℕ) → length xs ≡ length us → xs ++ ys ≡ us ++ vs → (xs ≡ us) × (ys ≡ vs)
append_cancel xs us ys vs same e = (
  sym (take-append xs ys)
      ∙ ap (λ n. take n (xs ++ ys)) same
      ∙ ap (take (length us)) e
      ∙ take-append us vs,
  sym (drop-append xs ys)
      ∙ ap (λ n. drop n (xs ++ ys)) same
      ∙ ap (drop (length us)) e
      ∙ drop-append us vs,
)

module _ {M : Type 0} (F : Flash M) (chip : Chip F) where
  -- A range that is blank is blank in both parts.
  pub blank_parts :
      (m : M) (a n k : ℕ)
      → F.read m a (n + k) ≡ blank (n + k)
      → (F.read m a n ≡ blank n) × (F.read m (a + n) k ≡ blank k)
  blank_parts m a n k h =
      append_cancel (F.read m a n) (blank n) (F.read m (a + n) k) (blank k)
        (chip.length-read m a n ∙ sym (length-blank n))
        (sym (chip.read_append m a n k) ∙ h ∙ blank_append n k)

  module _ (fuel addr : ℕ) (src : List ℕ) (m : M) where
    abbrev pub k : ℕ
    k = this_prog addr src

    abbrev pub p : M × Bool
    p = F.program m addr (take k src)

    -- How a turn of the loop goes.
    write-turn :
        ((length src ≡ 0) × (write_pages F (suc fuel) addr src m ≡ (done, m)))
        ⊎ ((0 < length src)
            × ((p.1 ≡ true)
                  × (write_pages F (suc fuel) addr src m
                      ≡ write_pages F fuel (addr + k) (drop k src) p.0)
                ⊎ (write_pages F (suc fuel) addr src m ≡ (stage_failed 1, p.0))))
    unfolding write_pages
    write-turn = elim (Bool-cases (length src == 0)) [
      | inl h ↦ inl ((==_iff (length src) 0).0 h, rw h refl)
      | inr h ↦ elim (Bool-cases p.1) [
        | inl good ↦ inr (ground (arith, h), inl (good, rw (h, good) refl))
        | inr bad ↦ inr (ground (arith, h), inr (rw (h, bad) refl))
      ]
    ]

  length-rest :
      (addr : ℕ) (src : List ℕ)
      → length (drop (this_prog addr src) src) ≡ length src - this_prog addr src
  length-rest addr src = length-drop (this_prog addr src) src

  -- Bytes outside of the range that is written stay.
  pub write_pages-beside :
      (fuel addr : ℕ) (src : List ℕ) (m : M) (b n : ℕ)
      → (b + n ≤ addr) ⊎ (addr + length src ≤ b)
      → F.read (write_pages F fuel addr src m).1 b n ≡ F.read m b n
  unfolding write_pages
  write_pages-beside zero addr src m b n beside = refl
  write_pages-beside (suc fuel) addr src m b n beside =
      let j = this_prog addr src in
      let once : F.read (F.program m addr (take j src)).0 b n ≡ F.read m b n =
        chip.read-program_beside m addr b n (take j src)
          (omega (arith, piece_fits addr src, length-taken addr src))
          (elim beside [
            | inl h ↦ inl h
            | inr h ↦ inr (omega (arith, h, length-taken addr src, piece_within addr src))
          ]) in
      elim (write-turn fuel addr src m) [
        | inl (none_left, e) ↦ ap (λ (s : StageResult × M). F.read s.1 b n) e
        | inr (some_left, inl (good, e)) ↦
            ap (λ (s : StageResult × M). F.read s.1 b n) e
            ∙ write_pages-beside fuel (addr + j) (drop j src) (F.program m addr (take j src)).0 b n
                (elim beside [
                  | inl h ↦ inl (omega (arith, h))
                  | inr h ↦ inr (omega (arith, h, length-rest addr src, piece_within addr src))
                ])
            ∙ once
        | inr (some_left, inr e) ↦ ap (λ (s : StageResult × M). F.read s.1 b n) e ∙ once
      ]

  -- One turn, with what the turns behind it read back.
  write_turn-read :
      (fuel addr : ℕ) (src : List ℕ) (m : M)
      → 0 < length src
      → F.read m addr (length src) ≡ blank (length src)
      → (F.program m addr (take (this_prog addr src) src)).1 ≡ true
      → (let j = this_prog addr src in
          let m1 = (F.program m addr (take j src)).0 in
          let tail = drop j src in
          F.read m1 (addr + j) (length tail) ≡ blank (length tail)
          → F.read (write_pages F fuel (addr + j) tail m1).1 (addr + j) (length tail) ≡ tail)
      → let j = this_prog addr src in
        F.read
          (write_pages F fuel (addr + j) (drop j src) (F.program m addr (take j src)).0).1
          addr
          (length src)
        ≡ src
  write_turn-read fuel addr src m some_left clear good behind =
      let j = this_prog addr src in
      let m1 = (F.program m addr (take j src)).0 in
      let m2 = (write_pages F fuel (addr + j) (drop j src) m1).1 in
      let whole : length src ≡ j + length (drop j src) =
        omega (arith, length-rest addr src, piece_within addr src) in
      let parts = blank_parts m addr j (length (drop j src)) (rw whole at clear) in
      let size : length (take j src) ≡ j = length-taken addr src in
      let fits : addr % 256 + length (take j src) ≤ 256 =
        omega (arith, size, piece_fits addr src) in
      let written : F.read m1 addr j ≡ take j src =
        ap (F.read m1 addr) (sym size)
        ∙ chip.read-program m addr (take j src) good fits
            (ap (F.read m addr) size ∙ parts.0 ∙ ap blank (sym size)) in
      let untouched : F.read m1 (addr + j) (length (drop j src)) ≡ blank (length (drop j src)) =
        chip.read-program_beside m addr (addr + j) (length (drop j src)) (take j src) fits
          (inr (omega (arith, size)))
        ∙ parts.1 in
      let kept : F.read m2 addr j ≡ F.read m1 addr j =
        write_pages-beside fuel (addr + j) (drop j src) m1 addr j (inl (omega arith)) in
      ap (F.read m2 addr) whole
      ∙ chip.read_append m2 addr j (length (drop j src))
      ∙ ap (λ xs. xs ++ F.read m2 (addr + j) (length (drop j src))) (kept ∙ written)
      ∙ ap (λ ys. take j src ++ ys) (behind untouched)
      ∙ take-drop j src

  -- A whole write of erased cells that reports success is read back.
  pub write_pages-read :
      (fuel addr : ℕ) (src : List ℕ) (m : M)
      → length src ≤ fuel
      → F.read m addr (length src) ≡ blank (length src)
      → (write_pages F fuel addr src m).0 ≡ done
      → F.read (write_pages F fuel addr src m).1 addr (length src) ≡ src
  unfolding write_pages
  write_pages-read zero addr src m enough clear ok = clear ∙ blank_nil src (omega (arith, enough))
  write_pages-read (suc fuel) addr src m enough clear ok = elim (write-turn fuel addr src m) [
    | inl (none_left, e) ↦
        ap (λ (s : StageResult × M). F.read s.1 addr (length src)) e
        ∙ clear
        ∙ blank_nil src none_left
    | inr (some_left, inl (good, e)) ↦
        ap (λ (s : StageResult × M). F.read s.1 addr (length src)) e
        ∙ write_turn-read fuel addr src m some_left clear good (λ blank_rest.
          write_pages-read fuel (addr + this_prog addr src) (drop (this_prog addr src) src)
            (F.program m addr (take (this_prog addr src) src)).0
            (omega (arith, enough, length-rest addr src, piece_moves addr src some_left)) blank_rest
            (ap (λ (s : StageResult × M). s.0) (sym e) ∙ ok))
    | inr (some_left, inr e) ↦
        absurd (failed_done 1 (ap (λ (s : StageResult × M). s.0) (sym e) ∙ ok))
  ]
