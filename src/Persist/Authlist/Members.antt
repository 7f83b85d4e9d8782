-- ===== src/Persist/Authlist/Members.antt =====
-- The members of the list of src/persist/rfid_authlist.c, as a list without repetition.
use open_evcharger.Prelude.{
  ℕ, zero, suc, ◌-◌, ◌≡◌, ◌≢◌, ◌≤◌, ◌<◌, ◌^◌, refl, ap, ◌∙◌, sym, List, [], ◌∷◌, ◌++◌, false, ◌&&◌,
  ◌||◌, not, none, some, ◌==◌, ==_iff, Bool-cases, Option-cases, ◌⊎◌, inl, inr, arith, take, length,
}
use open_evcharger.Persist.Bytes.{zeros}
use open_evcharger.Persist.Authlist.{mem, find_index, set_at, shift_down}

-- No entry twice, and none is zero.
unfoldable pub Distinct : List ℕ → Type 0
Distinct [] = Unit {0}
Distinct (x ∷ xs) = (x ≢ 0) × (mem x xs ≡ false) × Distinct xs

unfoldable pub remove_at : ℕ → List ℕ → List ℕ
remove_at i [] = []
remove_at zero (x ∷ xs) = xs
remove_at (suc i) (x ∷ xs) = x ∷ remove_at i xs

pub take-set_at :
    (i uid : ℕ) (us : List ℕ)
    → i < length us
    → take (suc i) (set_at i uid us) ≡ take i us ++ (uid ∷ [])
unfolding set_at
take-set_at i uid [] h = absurd (omega (arith, h))
take-set_at zero uid (x ∷ us) h = refl
take-set_at (suc i) uid (x ∷ us) h = ap (λ ts. x ∷ ts) (take-set_at i uid us (omega (arith, h)))

pub take-set_at_before : (i uid : ℕ) (us : List ℕ) → take i (set_at i uid us) ≡ take i us
unfolding set_at
take-set_at_before zero uid us = refl
take-set_at_before (suc i) uid [] = refl
take-set_at_before (suc i) uid (x ∷ us) = ap (λ ts. x ∷ ts) (take-set_at_before i uid us)

take-shift_down-suc :
    (i n : ℕ) (us : List ℕ)
    → i ≤ n
    → suc n ≤ length us
    → take n (shift_down i (suc n) us) ≡ remove_at i (take (suc n) us)
unfolding shift_down remove_at
take-shift_down-suc i n [] h k = absurd (omega (arith, k))
take-shift_down-suc zero zero (x ∷ us) h k = refl
take-shift_down-suc zero (suc n) (x ∷ []) h k = absurd (omega (arith, k))
take-shift_down-suc zero (suc n) (x ∷ y ∷ us) h k =
    ap (λ ts. y ∷ ts) (take-shift_down-suc zero n (y ∷ us) (omega arith) (omega (arith, k)))
take-shift_down-suc (suc i) zero (x ∷ us) h k = absurd (omega (arith, h))
take-shift_down-suc (suc i) (suc n) (x ∷ us) h k =
    ap (λ ts. x ∷ ts) (take-shift_down-suc i n us (omega (arith, h)) (omega (arith, k)))

pub take-shift_down :
    (i c : ℕ) (us : List ℕ)
    → i < c
    → c ≤ length us
    → take (c - 1) (shift_down i c us) ≡ remove_at i (take c us)
take-shift_down i zero us h k = absurd (omega (arith, h))
take-shift_down i (suc n) us h k =
    let less : suc n - 1 ≡ n = omega arith in
    rw less (take-shift_down-suc i n us (omega (arith, h)) k)

pub mem-append_one : (v uid : ℕ) (xs : List ℕ) → mem v (xs ++ (uid ∷ [])) ≡ (mem v xs || uid == v)
unfolding mem
mem-append_one v uid [] = ground arith
mem-append_one v uid (x ∷ xs) = ground (arith, mem-append_one v uid xs)

mem-same : (v x : ℕ) (xs : List ℕ) → mem x xs ≡ false → v ≡ x → mem v xs ≡ false
mem-same v x xs h e = ap (λ k. mem k xs) e ∙ h

-- Where the card is: at the head, or in the rest.
find_index-cases :
    (uid i x : ℕ) (xs : List ℕ)
    → find_index uid (x ∷ xs) ≡ some i
    → ((x ≡ uid) × (i ≡ 0)) ⊎ ((x ≢ uid) × ((j : ℕ) × (i ≡ suc j) × (find_index uid xs ≡ some j)))
unfolding find_index
find_index-cases uid i x xs h = elim (Bool-cases (x == uid)) [
  | inl e ↦ inl ((==_iff x uid).0 e, ground (arith, e, h))
  | inr e ↦ elim (Option-cases (find_index uid xs)) [
    | inl lost ↦ absurd (ground (arith, e, lost, h))
    | inr (j, found) ↦ inr (ground (arith, e), (j, ground (arith, e, found, h), found))
  ]
]

pub mem-remove_at :
    (v uid i : ℕ) (xs : List ℕ)
    → Distinct xs
    → find_index uid xs ≡ some i
    → mem v (remove_at i xs) ≡ (mem v xs && not (v == uid))
unfolding mem remove_at Distinct
mem-remove_at v uid i [] d h = ground arith
mem-remove_at v uid i (x ∷ xs) d h = elim (find_index-cases uid i x xs h) [
  | inl (e, z) ↦ rw z (elim (Bool-cases (v == uid)) [
    | inl k ↦ rw (mem-same v x xs d.1 ((==_iff v uid).0 k ∙ sym e)) (ground (arith, k))
    | inr k ↦ ground (arith, k, e)
  ])
  | inr (ne, (j, e, there)) ↦ rw (e, mem-remove_at v uid j xs d.2 there) (ground (arith, ne))
]

-- A card that the search does not find is not a member.
pub mem-find_index : (uid : ℕ) (xs : List ℕ) → find_index uid xs ≡ none → mem uid xs ≡ false
unfolding mem find_index
mem-find_index uid [] h = refl
mem-find_index uid (x ∷ xs) h = elim (Bool-cases (x == uid)) [
  | inl e ↦ absurd (ground (arith, e, h))
  | inr e ↦ elim (Option-cases (find_index uid xs)) [
    | inl lost ↦ rw e (mem-find_index uid xs lost)
    | inr (j, found) ↦ absurd (ground (arith, e, found, h))
  ]
]

pub find_index-lt : (uid i : ℕ) (xs : List ℕ) → find_index uid xs ≡ some i → i < length xs
unfolding find_index
find_index-lt uid i [] h = absurd (ground (arith, h))
find_index-lt uid i (x ∷ xs) h = elim (find_index-cases uid i x xs h) [
  | inl (e, z) ↦ omega (arith, z)
  | inr (ne, (j, e, there)) ↦ omega (arith, e, find_index-lt uid j xs there)
]

pub Distinct-append_one :
    (uid : ℕ) (xs : List ℕ)
    → uid ≢ 0
    → mem uid xs ≡ false
    → Distinct xs
    → Distinct (xs ++ (uid ∷ []))
unfolding Distinct mem
Distinct-append_one uid [] nz fresh d = (nz, refl, tt)
Distinct-append_one uid (x ∷ xs) nz fresh d =
    let apart : (x == uid) ≡ false = ground (arith, fresh) in
    let fresh' : mem uid xs ≡ false = ground (arith, fresh) in
    (
      d.0,
      mem-append_one x uid xs ∙ ground (arith, d.1, apart),
      Distinct-append_one uid xs nz fresh' d.2,
    )

mem-remove_at_absent : (v i : ℕ) (xs : List ℕ) → mem v xs ≡ false → mem v (remove_at i xs) ≡ false
unfolding mem remove_at
mem-remove_at_absent v i [] h = refl
mem-remove_at_absent v zero (x ∷ xs) h = ground (arith, h)
mem-remove_at_absent v (suc i) (x ∷ xs) h =
    let both : ((x == v) ≡ false) × (mem v xs ≡ false) = ground (arith, h) in
    rw (both.0) (mem-remove_at_absent v i xs both.1)

pub Distinct-remove_at : (i : ℕ) (xs : List ℕ) → Distinct xs → Distinct (remove_at i xs)
unfolding Distinct remove_at
Distinct-remove_at i [] d = tt
Distinct-remove_at zero (x ∷ xs) d = d.2
Distinct-remove_at (suc i) (x ∷ xs) d =
    (d.0, mem-remove_at_absent x i xs d.1, Distinct-remove_at i xs d.2)

-- The entries fit their 32 bits.
unfoldable pub Small : List ℕ → Type 0
Small [] = Unit {0}
Small (x ∷ xs) = (x < 2 ^ 32) × Small xs

pub Small-append : (xs ys : List ℕ) → Small xs → Small ys → Small (xs ++ ys)
unfolding Small
Small-append [] ys a b = b
Small-append (x ∷ xs) ys a b = (a.0, Small-append xs ys a.1 b)

pub Small-take : (n : ℕ) (xs : List ℕ) → Small xs → Small (take n xs)
unfolding Small
Small-take zero xs a = tt
Small-take (suc n) [] a = tt
Small-take (suc n) (x ∷ xs) a = (a.0, Small-take n xs a.1)

pub Small-zeros : (n : ℕ) → Small (zeros n)
unfolding Small zeros
Small-zeros zero = tt
Small-zeros (suc n) = (omega arith, Small-zeros n)

pub Small-set_at : (i uid : ℕ) (xs : List ℕ) → uid < 2 ^ 32 → Small xs → Small (set_at i uid xs)
unfolding Small set_at
Small-set_at i uid [] h a = tt
Small-set_at zero uid (x ∷ xs) h a = (h, a.1)
Small-set_at (suc i) uid (x ∷ xs) h a = (a.0, Small-set_at i uid xs h a.1)

pub Small-shift_down : (i n : ℕ) (xs : List ℕ) → Small xs → Small (shift_down i n xs)
unfolding Small shift_down
Small-shift_down i n [] a = tt
Small-shift_down zero zero (x ∷ xs) a = a
Small-shift_down zero (suc zero) (x ∷ xs) a = a
Small-shift_down zero (suc (suc n)) (x ∷ []) a = a
Small-shift_down zero (suc (suc n)) (x ∷ y ∷ xs) a =
    (a.1.0, Small-shift_down zero (suc n) (y ∷ xs) a.1)
Small-shift_down (suc i) zero (x ∷ xs) a = a
Small-shift_down (suc i) (suc n) (x ∷ xs) a = (a.0, Small-shift_down i n xs a.1)

pub length-set_at : (i uid : ℕ) (xs : List ℕ) → length (set_at i uid xs) ≡ length xs
unfolding set_at
length-set_at i uid [] = refl
length-set_at zero uid (x ∷ xs) = refl
length-set_at (suc i) uid (x ∷ xs) = omega (arith, length-set_at i uid xs)

pub length-shift_down : (i n : ℕ) (xs : List ℕ) → length (shift_down i n xs) ≡ length xs
unfolding shift_down
length-shift_down i n [] = refl
length-shift_down zero zero (x ∷ xs) = refl
length-shift_down zero (suc zero) (x ∷ xs) = refl
length-shift_down zero (suc (suc n)) (x ∷ []) = refl
length-shift_down zero (suc (suc n)) (x ∷ y ∷ xs) =
    omega (arith, length-shift_down zero (suc n) (y ∷ xs))
length-shift_down (suc i) zero (x ∷ xs) = refl
length-shift_down (suc i) (suc n) (x ∷ xs) = omega (arith, length-shift_down i n xs)

pub length-zeros : (n : ℕ) → length (zeros n) ≡ n
unfolding zeros
length-zeros zero = refl
length-zeros (suc n) = omega (arith, length-zeros n)
