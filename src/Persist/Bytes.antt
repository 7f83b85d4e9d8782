-- ===== src/Persist/Bytes.antt =====
-- Little-endian words in byte buffers: `le32_load` and `le32_store` of src/persist/pingpong.c.
use open_evcharger.Prelude.{
  ℕ, zero, suc, ◌+◌, ◌-◌, ◌*◌, ◌/◌, ◌%◌, ◌^◌, ◌≡◌, ◌≤◌, ◌<◌, refl, ap, ◌∙◌, List, [], ◌∷◌, ◌++◌,
  arith, length, get_or, take, drop, length-append, length-take, length-drop, get_or-append,
}

unfoldable pub le32_load : List ℕ → ℕ → ℕ
le32_load p i =
    get_or p i 0
    + get_or p (i + 1) 0 * 256
    + get_or p (i + 2) 0 * 65536
    + get_or p (i + 3) 0 * 16777216

unfoldable pub le32 : ℕ → List ℕ
le32 v = v % 256 ∷ v / 256 % 256 ∷ v / 65536 % 256 ∷ v / 16777216 % 256 ∷ []

-- `memset` with 0, and the bytes that a record does not use.
unfoldable pub zeros : ℕ → List ℕ
zeros zero = []
zeros (suc n) = 0 ∷ zeros n

-- The buffer with `bs` written at `i`.
unfoldable pub splice : List ℕ → ℕ → List ℕ → List ℕ
splice p i bs = take i p ++ (bs ++ drop (i + length bs) p)

unfoldable pub le32_store : List ℕ → ℕ → ℕ → List ℕ
unfolding le32 splice
le32_store p i v = splice p i (le32 v)

pub get_or-take : (p : List ℕ) (n i : ℕ) → i < n → get_or (take n p) i 0 ≡ get_or p i 0
get_or-take p zero i h = absurd (omega (arith, h))
get_or-take [] (suc n) i h = refl
get_or-take (x ∷ p) (suc n) zero h = refl
get_or-take (x ∷ p) (suc n) (suc i) h = get_or-take p n i (omega (arith, h))

pub get_or-append_lt : (p q : List ℕ) (i : ℕ) → i < length p → get_or (p ++ q) i 0 ≡ get_or p i 0
get_or-append_lt [] q i h = absurd (omega (arith, h))
get_or-append_lt (x ∷ p) q zero h = refl
get_or-append_lt (x ∷ p) q (suc i) h = get_or-append_lt p q i (omega (arith, h))

pub take-append_le : (p q : List ℕ) (n : ℕ) → n ≤ length p → take n (p ++ q) ≡ take n p
take-append_le p q zero h = refl
take-append_le [] q (suc n) h = absurd (omega (arith, h))
take-append_le (x ∷ p) q (suc n) h = ap (λ ts. x ∷ ts) (take-append_le p q n (omega (arith, h)))

pub take-take : (p : List ℕ) (n k : ℕ) → k ≤ n → take k (take n p) ≡ take k p
take-take p n zero h = refl
take-take p zero (suc k) h = absurd (omega (arith, h))
take-take [] (suc n) (suc k) h = refl
take-take (x ∷ p) (suc n) (suc k) h = ap (λ ts. x ∷ ts) (take-take p n k (omega (arith, h)))

get_or-drop : (p : List ℕ) (n i j : ℕ) → j ≡ n + i → get_or (drop n p) i 0 ≡ get_or p j 0
get_or-drop p zero i j e = ap (λ k. get_or p k 0) (omega (arith, e))
get_or-drop [] (suc n) i j e = refl
get_or-drop (x ∷ p) (suc n) i zero e = absurd (omega (arith, e))
get_or-drop (x ∷ p) (suc n) i (suc j) e = get_or-drop p n i j (omega (arith, e))

module _ (p : List ℕ) (i v : ℕ) (room : i + 4 ≤ length p) where
  front : length (take i p) ≡ i
  front = omega (arith, length-take i p, room)

  pub length-le32_store : length (le32_store p i v) ≡ length p
  unfolding le32_store
  length-le32_store =
      let bs : List ℕ = v % 256 ∷ v / 256 % 256 ∷ v / 65536 % 256 ∷ v / 16777216 % 256 ∷ [] in
      omega (
        arith,
        room,
        front,
        length-append (take i p) (bs ++ drop (i + length bs) p),
        length-append bs (drop (i + length bs) p),
        length-drop (i + length bs) p,
      )

  -- What lies before the word is kept.
  pub take-le32_store : (k : ℕ) → k ≤ i → take k (le32_store p i v) ≡ take k p
  unfolding le32_store
  take-le32_store k h = take-append_le (take i p) _ k (omega (arith, front, h)) ∙ take-take p i k h

  pub get_or-le32_store : (k : ℕ) → k < i → get_or (le32_store p i v) k 0 ≡ get_or p k 0
  unfolding le32_store
  get_or-le32_store k h =
      get_or-append_lt (take i p) _ k (omega (arith, front, h)) ∙ get_or-take p i k h

  pub le32_load-store_before : (k : ℕ) → k + 4 ≤ i → le32_load (le32_store p i v) k ≡ le32_load p k
  unfolding le32_load
  le32_load-store_before k h = omega (
    arith,
    get_or-le32_store k (omega (arith, h)),
    get_or-le32_store (k + 1) (omega (arith, h)),
    get_or-le32_store (k + 2) (omega (arith, h)),
    get_or-le32_store (k + 3) (omega (arith, h)),
  )

  -- What lies behind the word is kept.
  pub get_or-le32_store_after :
      (k : ℕ) → i + 4 ≤ k → k < length p → get_or (le32_store p i v) k 0 ≡ get_or p k 0
  unfolding le32_store
  get_or-le32_store_after k h inside =
      let bs : List ℕ = v % 256 ∷ v / 256 % 256 ∷ v / 65536 % 256 ∷ v / 16777216 % 256 ∷ [] in
      get_or-append (take i p) (bs ++ drop (i + 4) p) (k - i) k 0 (omega (arith, front, h))
      ∙ get_or-append bs (drop (i + 4) p) (k - i - 4) (k - i) 0 (omega (arith, h))
      ∙ get_or-drop p (i + 4) (k - i - 4) k (omega (arith, h))

  pub le32_load-store_after :
      (k : ℕ) → i + 4 ≤ k → k + 4 ≤ length p → le32_load (le32_store p i v) k ≡ le32_load p k
  unfolding le32_load
  le32_load-store_after k h inside = omega (
    arith,
    get_or-le32_store_after k h (omega (arith, inside)),
    get_or-le32_store_after (k + 1) (omega (arith, h)) (omega (arith, inside)),
    get_or-le32_store_after (k + 2) (omega (arith, h)) (omega (arith, inside)),
    get_or-le32_store_after (k + 3) (omega (arith, h)) (omega (arith, inside)),
  )

  -- The word that was stored is loaded.
  pub le32_load-store : v < 2 ^ 32 → le32_load (le32_store p i v) i ≡ v
  unfolding le32_store le32_load
  le32_load-store small =
      let bs : List ℕ = v % 256 ∷ v / 256 % 256 ∷ v / 65536 % 256 ∷ v / 16777216 % 256 ∷ [] in
      let at = λ (k : ℕ). get_or-append (take i p) (bs ++ drop (i + length bs) p) k in
      omega (
        arith,
        small,
        at 0 i 0 (omega (arith, front)),
        at 1 (i + 1) 0 (omega (arith, front)),
        at 2 (i + 2) 0 (omega (arith, front)),
        at 3 (i + 3) 0 (omega (arith, front)),
      )
