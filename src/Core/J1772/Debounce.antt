-- ===== src/Core/J1772/Debounce.antt =====
-- What the debounce of src/core/j1772.c guarantees.
use mathlib.Core.Path.{subst}
use open_evcharger.Prelude.{
  ℕ, zero, suc, ◌+◌, ◌≤◌, ◌<◌, ◌≡◌, ◌⊎◌, inl, inr, refl, true, List, [], ◌∷◌, arith, length, take,
  drop, if◌then◌else◌, ltb, leb, sym, min, ◌∙◌, Bool-cases,
}
use open_evcharger.Prelude.Int.{ℤ}
use open_evcharger.Core.J1772.{
  J1772State, J1772Ctx, invalid, same, classify_strict, init, observe, commit, step,
}

-- The classifier after a history of readings, the latest first.
unfoldable pub after : ℕ → List ℤ → J1772Ctx
after n [] = init
after n (v ∷ h) = step (after n h) v n

-- The classifier after a run of readings, the earliest first.
unfoldable pub run : ℕ → J1772Ctx → List ℤ → J1772Ctx
run n x [] = x
run n x (v ∷ vs) = run n (step x v n) vs

-- Every reading is classified as `s`.
abbrev pub AllRead : J1772State → List ℤ → Type 0
AllRead s [] = Unit {0}
AllRead s (v ∷ vs) = (classify_strict v ≡ s) × AllRead s vs

pub same_refl : (s : J1772State) → same s s ≡ true
same_refl invalid = refl
same_refl _ = refl

pub same_eq : (s t : J1772State) → same s t ≡ true → s ≡ t
same_eq s t h = ground arith

candidate-observe : (x : J1772Ctx) (s : J1772State) → (observe x s).candidate ≡ s
unfolding observe
candidate-observe x s = ground (arith, same_eq s x.candidate)

committed-observe : (x : J1772Ctx) (s : J1772State) → (observe x s).committed ≡ x.committed
unfolding observe
committed-observe x s = ground arith

streak-observe :
    (x : J1772Ctx) (s : J1772State)
    → (observe x s).streak
      ≡ (if same s x.candidate then (if ltb x.streak 255 then x.streak + 1 else x.streak) else 1)
unfolding observe
streak-observe x s = ground arith

commit_parts :
    (x : J1772Ctx) (n : ℕ)
    → ((commit x n).committed ≡ (if leb n x.streak then x.candidate else x.committed))
      × ((commit x n).candidate ≡ x.candidate)
      × ((commit x n).streak ≡ x.streak)
unfolding commit
commit_parts x n = ground (arith, same_eq x.committed x.candidate)

step_eq : (x : J1772Ctx) (v : ℤ) (n : ℕ) → step x v n ≡ commit (observe x (classify_strict v)) n
unfolding step
step_eq x v n = refl

-- `j1772_step` in closed form.
pub step_parts :
    (x : J1772Ctx) (v : ℤ) (n : ℕ)
    → let y = step x v n in
      (y.candidate ≡ classify_strict v)
      × (y.streak ≡ (
          if same (classify_strict v) x.candidate
          then (if ltb x.streak 255 then x.streak + 1 else x.streak)
          else 1))
      × (y.committed ≡ (if leb n y.streak then classify_strict v else x.committed))
step_parts x v n =
    let s = classify_strict v in
    let o = observe x s in
    ground (
      arith,
      step_eq x v n,
      commit_parts o n,
      candidate-observe x s,
      committed-observe x s,
      streak-observe x s,
    )

-- The readings that a streak counts.
record Counted (h : List ℤ) (y : J1772Ctx) : Type 0 where
  enough : y.streak ≤ length h
  alike : AllRead y.candidate (take y.streak h)

AllRead-take :
    (s : J1772State) (j k : ℕ) (h : List ℤ) → j ≤ k → AllRead s (take k h) → AllRead s (take j h)
AllRead-take s zero k h le r = tt
AllRead-take s (suc j) zero h le r = absurd (omega arith)
AllRead-take s (suc j) (suc k) [] le r = tt
AllRead-take s (suc j) (suc k) (v ∷ h) le r = (r.0, AllRead-take s j k h (omega arith) r.1)

AllRead-grow :
    (s : J1772State) (j k : ℕ) (v : ℤ) (h : List ℤ)
    → classify_strict v ≡ s
    → j ≤ suc k
    → AllRead s (take k h)
    → AllRead s (take j (v ∷ h))
AllRead-grow s zero k v h e le r = tt
AllRead-grow s (suc j) k v h e le r = (e, AllRead-take s j k h (omega arith) r)

step_alike :
    (n : ℕ) (x : J1772Ctx) (v : ℤ) (h : List ℤ)
    → AllRead x.candidate (take x.streak h)
    → AllRead (step x v n).candidate (take (step x v n).streak (v ∷ h))
step_alike n x v h r = elim (Bool-cases (same (classify_strict v) x.candidate)) [
  | inl e ↦
      AllRead-grow (step x v n).candidate (step x v n).streak x.streak v h
        (sym (step_parts x v n).0) (ground (arith, step_parts x v n))
        (subst (λ s. AllRead s (take x.streak h)) (sym ((step_parts x v n).0 ∙ same_eq _ _ e)) r)
  | inr e ↦
      AllRead-grow (step x v n).candidate (step x v n).streak 0 v h (sym (step_parts x v n).0)
        (ground (arith, step_parts x v n)) tt
]

after-Counted : (n : ℕ) (h : List ℤ) → Counted h (after n h)
unfolding after init
after-Counted n [] = record { enough = omega arith; alike = tt }
after-Counted n (v ∷ h) = record {
  enough = ground (arith, step_parts (after n h) v n, after-Counted n h);
  alike = step_alike n (after n h) v h (after-Counted n h).alike;
}

-- The classifier reports `INVALID`, or a state that `n` readings in a row were classified as, for
-- every history of readings since `j1772_init`, with the debounce at `n`.
pub after-Committed :
    (n : ℕ) (h : List ℤ)
    → ((after n h).committed ≡ invalid)
      ⊎ ((k : ℕ) × (k + n ≤ length h) × AllRead (after n h).committed (take n (drop k h)))
unfolding after init
after-Committed n [] = inl refl
after-Committed n (v ∷ h) =
    let x = after n h in
    let now = after-Counted n (v ∷ h) in
    elim (Bool-cases (leb n (step x v n).streak)) [
      | inl e ↦
          let c : (step x v n).committed ≡ (step x v n).candidate =
            (step_parts x v n).2 ∙ (rw e (sym (step_parts x v n).0)) in
          let le : n ≤ (step x v n).streak = ground arith in
          inr (
            0,
            omega (arith, now.enough),
            rw c (AllRead-take (step x v n).candidate n (step x v n).streak (v ∷ h) le now.alike),
          )
      | inr e ↦
          let c : (step x v n).committed ≡ x.committed = (step_parts x v n).2 ∙ (rw e) in
          rw c (elim (after-Committed n h) [
            | inl z ↦ inl z
            | inr (k, le, r) ↦ inr (suc k, omega arith, r)
          ])
    ]

run_streak :
    (n k : ℕ) (s : J1772State) (x : J1772Ctx) (vs : List ℤ)
    → AllRead s vs
    → n ≤ 255
    → n ≤ k + length vs
    → min k 255 ≤ x.streak
    → x.candidate ≡ s
    → (n ≤ x.streak → x.committed ≡ s)
    → (run n x vs).committed ≡ s
unfolding run
run_streak n k s x [] r small enough ks c done = done (omega arith)
run_streak n k s x (v ∷ vs) r small enough ks c done =
    run_streak n (suc k) s (step x v n) vs r.1 small (omega arith)
      (ground (arith, step_parts x v n, same_refl s)) ((step_parts x v n).0 ∙ r.0)
      (λ le. (step_parts x v n).2 ∙ ground (arith, r.0))

-- `n` readings in a row that are classified as `s` make the classifier report `s`, from every
-- state of the classifier, with the debounce at `n` from 1 to 255.
pub run-commits :
    (n : ℕ) (s : J1772State) (x : J1772Ctx) (vs : List ℤ)
    → 0 < n
    → n ≤ 255
    → length vs ≡ n
    → AllRead s vs
    → (run n x vs).committed ≡ s
unfolding run
run-commits n s x [] p small e r = absurd (omega arith)
run-commits n s x (v ∷ vs) p small e r =
    run_streak n 1 s (step x v n) vs r.1 small (omega arith) (ground (arith, step_parts x v n))
      ((step_parts x v n).0 ∙ r.0) (λ le. (step_parts x v n).2 ∙ ground (arith, r.0))
