-- ===== src/Persist/Flash.antt =====
-- The serial flash as the records see it: the operations of drivers/w25q.h, whose chip is a parameter
-- `M`, and what its data sheet promises of them. Addresses count bytes, a sector has 4096 of them.
use open_evcharger.Prelude.{
  ℕ, zero, suc, ◌+◌, ◌/◌, ◌%◌, ◌≡◌, ◌≢◌, ◌≤◌, ◌⊎◌, Bool, true, false, ◌&&◌, List, [], ◌∷◌, ◌++◌,
  ◌==◌, refl, ap, ◌∙◌, ==_iff, arith, length,
}

-- `read m addr n`, and the two operations that change the chip with the test that they returned 0.
pub record Flash (M : Type 0) : Type 0 where
  pub read : M → ℕ → ℕ → List ℕ
  pub erase : M → ℕ → M × Bool
  pub program : M → ℕ → List ℕ → M × Bool

-- `n` times the byte of an erased cell.
unfoldable pub blank : ℕ → List ℕ
blank zero = []
blank (suc n) = 0xFF ∷ blank n

-- What the chip promises: reads have the length asked for and go on through the addresses, an operation leaves the other sectors as they
-- are, an erase that returns 0 has cleared its sector, and a
-- program that stays within its page of 256 bytes leaves the bytes beside it and, if it returns 0, has written
-- its own where they were erased.
pub record Chip {M : Type 0} (F : Flash M) : Type 0 where
  pub length-read : (m : M) (a n : ℕ) → length (F.read m a n) ≡ n
  pub read_append : (m : M) (a n k : ℕ) → F.read m a (n + k) ≡ F.read m a n ++ F.read m (a + n) k
  pub read-erase_apart :
      (m : M) (a b n : ℕ)
      → a / 4096 ≢ b / 4096
      → b % 4096 + n ≤ 4096
      → F.read (F.erase m a).0 b n ≡ F.read m b n
  pub read-program_apart :
      (m : M) (a b n : ℕ) (bs : List ℕ)
      → a / 4096 ≢ b / 4096
      → a % 4096 + length bs ≤ 4096
      → b % 4096 + n ≤ 4096
      → F.read (F.program m a bs).0 b n ≡ F.read m b n
  pub read-erase :
      (m : M) (a n : ℕ)
      → (F.erase m a).1 ≡ true
      → a % 4096 + n ≤ 4096
      → F.read (F.erase m a).0 a n ≡ blank n
  pub read-program :
      (m : M) (a : ℕ) (bs : List ℕ)
      → (F.program m a bs).1 ≡ true
      → a % 256 + length bs ≤ 256
      → F.read m a (length bs) ≡ blank (length bs)
      → F.read (F.program m a bs).0 a (length bs) ≡ bs
  pub read-program_beside :
      (m : M) (a b n : ℕ) (bs : List ℕ)
      → a % 256 + length bs ≤ 256
      → (b + n ≤ a) ⊎ (a + length bs ≤ b)
      → F.read (F.program m a bs).0 b n ≡ F.read m b n

-- `memcmp(x, y, n) == 0` on buffers of one length.
unfoldable pub same_bytes : List ℕ → List ℕ → Bool
same_bytes [] [] = true
same_bytes (x ∷ xs) (y ∷ ys) = x == y && same_bytes xs ys
same_bytes _ _ = false

pub same_bytes→≡ : (xs ys : List ℕ) → same_bytes xs ys ≡ true → xs ≡ ys
unfolding same_bytes
same_bytes→≡ [] [] h = refl
same_bytes→≡ [] (y ∷ ys) h = ground arith
same_bytes→≡ (x ∷ xs) [] h = ground arith
same_bytes→≡ (x ∷ xs) (y ∷ ys) h =
    let both : ((x == y) ≡ true) × (same_bytes xs ys ≡ true) = ground arith in
    let head : x ≡ y = (==_iff x y).0 both.0 in
    let tail : xs ≡ ys = same_bytes→≡ xs ys both.1 in ap (λ z. z ∷ xs) head ∙ ap (λ zs. y ∷ zs) tail
