-- ===== src/Tests/Chip.antt =====
-- A flash chip in memory, for the runs: it keeps the promises that the records rely on.
use open_evcharger.Prelude.{
  ℕ, zero, suc, ◌+◌, ◌-◌, ◌/◌, ◌%◌, ◌≡◌, ◌≢◌, ◌⊎◌, ◌≤◌, ◌<◌, refl, ap, ◌∙◌, sym, List, [], ◌∷◌,
  ◌++◌, true, false, ◌&&◌, inl, inr, get_or, if◌then◌else◌, ◌==◌, ltb, leb, arith, length,
}
use open_evcharger.Persist.Flash.{Flash, Chip, blank}
use open_evcharger.Persist.Pingpong.Atomic.{Torn}
use open_evcharger.Persist.Pingpong.Image.{validate-blank}

unfoldable pub cells : (ℕ → ℕ) → ℕ → ℕ → List ℕ
cells m a zero = []
cells m a (suc n) = m a ∷ cells m (suc a) n

unfoldable pub cleared : (ℕ → ℕ) → ℕ → ℕ → ℕ
cleared m a i = if i / 4096 == a / 4096 then 0xFF else m i

unfoldable pub filled : (ℕ → ℕ) → ℕ → List ℕ → ℕ → ℕ
filled m a bs i = if leb a i && ltb i (a + length bs) then get_or bs (i - a) 0 else m i

abbrev pub memory : Flash (ℕ → ℕ)
memory = record {
  read = cells;
  erase = λ m a. (cleared m a, true);
  program = λ m a bs. (filled m a bs, true);
}

pub length-cells : (m : ℕ → ℕ) (a n : ℕ) → length (cells m a n) ≡ n
unfolding cells
length-cells m a zero = refl
length-cells m a (suc n) = omega (arith, length-cells m (suc a) n)

cells_append : (m : ℕ → ℕ) (a n k : ℕ) → cells m a (n + k) ≡ cells m a n ++ cells m (a + n) k
unfolding cells
cells_append m a zero k =
    let none_more : 0 + k ≡ k = omega arith in
    let here : a + 0 ≡ a = omega arith in rw (none_more, here) refl
cells_append m a (suc n) k =
    let more : suc n + k ≡ suc (n + k) = omega arith in
    let there : a + suc n ≡ suc a + n = omega arith in
    rw (more, there) (ap (λ xs. m a ∷ xs) (cells_append m (suc a) n k))

-- Cells that agree are read alike.
cells-cong :
    (m k : ℕ → ℕ) (a n : ℕ) → ((i : ℕ) → a ≤ i → i < a + n → m i ≡ k i) → cells m a n ≡ cells k a n
unfolding cells
cells-cong m k a zero same = refl
cells-cong m k a (suc n) same =
    ap (λ x. x ∷ cells m (suc a) n) (same a (omega arith) (omega arith))
    ∙ ap (λ xs. k a ∷ xs)
        (cells-cong m k (suc a) n (λ i low high. same i (omega (arith, low)) (omega (arith, high))))

cells-cleared_apart :
    (m : ℕ → ℕ) (a b n : ℕ)
    → a / 4096 ≢ b / 4096
    → b % 4096 + n ≤ 4096
    → cells (cleared m a) b n ≡ cells m b n
unfolding cleared
cells-cleared_apart m a b n apart fits = cells-cong (cleared m a) m b n (λ i low high.
    let other : (i / 4096 == a / 4096) ≡ false =
      let e : i / 4096 ≡ b / 4096 = omega (arith, fits, low, high) in ground (arith, e, apart) in
    rw other refl)

cells-filled_apart :
    (m : ℕ → ℕ) (a b n : ℕ) (bs : List ℕ)
    → a / 4096 ≢ b / 4096
    → a % 4096 + length bs ≤ 4096
    → b % 4096 + n ≤ 4096
    → cells (filled m a bs) b n ≡ cells m b n
unfolding filled
cells-filled_apart m a b n bs apart fits_a fits_b = cells-cong (filled m a bs) m b n (λ i low high.
    let e : i / 4096 ≡ b / 4096 = omega (arith, fits_b, low, high) in
    let outside : (leb a i && ltb i (a + length bs)) ≡ false = ground (arith, e, apart, fits_a) in
    rw outside refl)

pub cells-blank :
    (m : ℕ → ℕ) (a n : ℕ) → ((i : ℕ) → a ≤ i → i < a + n → m i ≡ 0xFF) → cells m a n ≡ blank n
unfolding cells blank
cells-blank m a zero all = refl
cells-blank m a (suc n) all =
    ap (λ x. x ∷ cells m (suc a) n) (all a (omega arith) (omega arith))
    ∙ ap (λ xs. 0xFF ∷ xs)
        (cells-blank m (suc a) n (λ i low high. all i (omega (arith, low)) (omega (arith, high))))

cells-cleared : (m : ℕ → ℕ) (a n : ℕ) → a % 4096 + n ≤ 4096 → cells (cleared m a) a n ≡ blank n
unfolding cleared
cells-cleared m a n fits = cells-blank (cleared m a) a n (λ i low high.
    let e : i / 4096 ≡ a / 4096 = omega (arith, fits, low, high) in
    let inside : (i / 4096 == a / 4096) ≡ true = ground (arith, e) in rw inside refl)

cells-bytes :
    (m : ℕ → ℕ) (a : ℕ) (bs : List ℕ)
    → ((i : ℕ) → i < length bs → m (a + i) ≡ get_or bs i 0)
    → cells m a (length bs) ≡ bs
unfolding cells
cells-bytes m a [] all = refl
cells-bytes m a (b ∷ bs) all =
    ap (λ x. x ∷ cells m (suc a) (length bs)) (ap m (omega arith) ∙ all 0 (omega arith))
    ∙ ap (λ xs. b ∷ xs)
        (cells-bytes m (suc a) bs (λ i h. ap m (omega arith) ∙ all (suc i) (omega (arith, h))))

pub cells-filled : (m : ℕ → ℕ) (a : ℕ) (bs : List ℕ) → cells (filled m a bs) a (length bs) ≡ bs
unfolding filled
cells-filled m a bs = cells-bytes (filled m a bs) a bs (λ i h.
    let inside : (leb a (a + i) && ltb (a + i) (a + length bs)) ≡ true = ground (arith, h) in
    rw inside (ap (λ k. get_or bs k 0) (omega arith)))

cells-filled_beside :
    (m : ℕ → ℕ) (a b n : ℕ) (bs : List ℕ)
    → (b + n ≤ a) ⊎ (a + length bs ≤ b)
    → cells (filled m a bs) b n ≡ cells m b n
unfolding filled
cells-filled_beside m a b n bs beside = cells-cong (filled m a bs) m b n (λ i low high.
    let outside : (leb a i && ltb i (a + length bs)) ≡ false = elim beside [
      | inl h ↦ ground (arith, h, low, high)
      | inr h ↦ ground (arith, h, low, high)
    ] in
    rw outside refl)

pub memory-Chip : Chip memory
memory-Chip = record {
  length-read = length-cells;
  read_append = cells_append;
  read-erase_apart = cells-cleared_apart;
  read-program_apart = cells-filled_apart;
  read-erase = λ m a n done fits. cells-cleared m a n fits;
  read-program = λ m a bs done fits clear. cells-filled m a bs;
  read-program_beside = λ m a b n bs fits beside. cells-filled_beside m a b n bs beside;
}

pub memory-Torn : Torn memory
memory-Torn = record {
  torn_erase =
      λ m a n fits large small. inr (rw (cells-cleared m a n fits) (validate-blank n large small));
  torn_program = λ m a n bs fits large small sized was_blank.
      inl (ap (λ k. cells (filled m a bs) a k) (sym sized) ∙ cells-filled m a bs);
}

-- The same chip with the power cut at every program.
abbrev pub failing : Flash (ℕ → ℕ)
failing = record {
  read = cells;
  erase = λ m a. (cleared m a, true);
  program = λ m a bs. (m, false);
}

pub failing-Chip : Chip failing
failing-Chip = record {
  length-read = length-cells;
  read_append = cells_append;
  read-erase_apart = cells-cleared_apart;
  read-program_apart = λ m a b n bs apart fits_a fits_b. refl;
  read-erase = λ m a n done fits. cells-cleared m a n fits;
  read-program = λ m a bs done fits clear. absurd (ground (arith, done));
  read-program_beside = λ m a b n bs fits beside. refl;
}

pub failing-Torn : Torn failing
failing-Torn = record {
  torn_erase =
      λ m a n fits large small. inr (rw (cells-cleared m a n fits) (validate-blank n large small));
  torn_program = λ m a n bs fits large small sized was_blank.
      inr (rw was_blank (validate-blank n large small));
}
