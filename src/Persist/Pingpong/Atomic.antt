-- ===== src/Persist/Pingpong/Atomic.antt =====
-- What a power cut during `pingpong_store` of src/persist/pingpong.c can leave behind. An operation of the
-- flash that is cut, or fails, is one that does not return 0: the store returns at once.
use open_evcharger.Prelude.{
  ℕ, ◌+◌, ◌/◌, ◌%◌, ◌≡◌, ◌≢◌, ◌≤◌, ◌⊎◌, inl, inr, refl, sym, ap, ◌∙◌, List, true, false, none,
  Bool-cases, arith, length,
}
use open_evcharger.Persist.Flash.{Flash, Chip, blank, same_bytes, same_bytes→≡}
use open_evcharger.Persist.Pingpong.{
  validate, Current, LoadResult, retire, rewrite, has_slot, target_slot, stored,
}
use open_evcharger.Persist.Pingpong.Image.{validate-blank}

-- What a cut or failed operation leaves in its slot: an erase, the old record or one whose checksum is
-- wrong; a program of an erased slot, the record or one whose checksum is wrong.
pub record Torn {M : Type 0} (F : Flash M) : Type 0 where
  pub torn_erase :
      (m : M) (a n : ℕ)
      → a % 4096 + n ≤ 4096
      → 12 ≤ n
      → n ≤ 256
      → (F.read (F.erase m a).0 a n ≡ F.read m a n)
        ⊎ (validate n (F.read (F.erase m a).0 a n) ≡ none)
  pub torn_program :
      (m : M) (a n : ℕ) (bs : List ℕ)
      → a % 4096 + n ≤ 4096
      → 12 ≤ n
      → n ≤ 256
      → length bs ≡ n
      → F.read m a n ≡ blank n
      → (F.read (F.program m a bs).0 a n ≡ bs)
        ⊎ (validate n (F.read (F.program m a bs).0 a n) ≡ none)

module _ {M : Type 0} (F : Flash M) (m : M) (other : ℕ) (cur : Current) (counter : ℕ) where
  retire-kept : has_slot cur ≡ false → (retire F m other cur counter).1 ≡ m
  unfolding retire
  retire-kept h = ground (arith, h)

  retire-erased : has_slot cur ≡ true → (retire F m other cur counter).1 ≡ (F.erase m other).0
  unfolding retire
  retire-erased h = ground (arith, h)

  retire-ok :
      (slot k : ℕ)
      → has_slot cur ≡ true
      → (retire F m other cur counter).0 ≡ stored slot k
      → (F.erase m other).1 ≡ true
  unfolding retire
  retire-ok slot k h ok = elim (Bool-cases (F.erase m other).1) [
    | inl done ↦ done
    | inr failed ↦ ground (arith, h, failed, ok)
  ]

  retire-result :
      (slot k : ℕ)
      → (retire F m other cur counter).0 ≡ stored slot k
      → (retire F m other cur counter).0 ≡ stored (target_slot cur) counter
  unfolding retire
  retire-result slot k ok = ground arith

module _ {M : Type 0} (F : Flash M) (m : M) (n : ℕ) (r : List ℕ) (target other : ℕ) (cur : Current)
    (counter : ℕ) where
  abbrev pub RewriteDone : Type 0
  RewriteDone =
      let p = (F.program (F.erase m target).0 target r).0 in
      (same_bytes (F.read p target n) r ≡ true)
      × (rewrite F m n r target other cur counter ≡ retire F p other cur counter)

  -- A rewrite that reports success came to its last step, with what was read back as it should be.
  rewrite-ok :
      (slot k : ℕ) → (rewrite F m n r target other cur counter).0 ≡ stored slot k → RewriteDone
  unfolding rewrite
  rewrite-ok slot k ok = elim (Bool-cases (F.erase m target).1) [
    | inr h ↦ ground (arith, h, ok)
    | inl h ↦ elim (Bool-cases (F.program (F.erase m target).0 target r).1) [
      | inr h2 ↦ ground (arith, h, h2, ok)
      | inl h2 ↦
          elim (Bool-cases
            (same_bytes (F.read (F.program (F.erase m target).0 target r).0 target n) r)) [
              | inr h3 ↦ ground (arith, h, h2, h3, ok)
              | inl h3 ↦ (h3, rw (h, h2, h3) refl)
            ]
    ]
  ]

  pub rewrite-result :
      (slot k : ℕ)
      → (rewrite F m n r target other cur counter).0 ≡ stored slot k
      → (rewrite F m n r target other cur counter).0 ≡ stored (target_slot cur) counter
  rewrite-result slot k ok =
      let done : RewriteDone = rewrite-ok slot k ok in
      let last = (F.program (F.erase m target).0 target r).0 in
      ap (λ x. x.0) (done.1)
      ∙ retire-result F last other cur counter slot k (ap (λ x. x.0) (sym (done.1)) ∙ ok)

-- A rewrite of the slot at `target`, seen through what a load would return (`look`, of the two images).
module _ {M : Type 0} (F : Flash M) (chip : Chip F) (target other n : ℕ)
    (apart : target / 4096 ≢ other / 4096) (fits_t : target % 4096 + n ≤ 4096)
    (fits_o : other % 4096 + n ≤ 4096) (large : 12 ≤ n) (small : n ≤ 256)
    (look : List ℕ → List ℕ → LoadResult) (r : List ℕ) (sized : length r ≡ n) (m : M)
    (cur : Current) (counter : ℕ) where
  abbrev pub seen : M → LoadResult
  seen x = look (F.read x target n) (F.read x other n)

  abbrev pub erased : M
  erased = (F.erase m target).0

  abbrev pub programmed : M
  programmed = (F.program erased target r).0

  other_erased : F.read erased other n ≡ F.read m other n
  other_erased = chip.read-erase_apart m target other n apart fits_o

  other_programmed : F.read programmed other n ≡ F.read m other n
  other_programmed =
      chip.read-program_apart erased target other n r apart (omega (arith, sized, fits_t)) fits_o
      ∙ other_erased

  retire-stored :
      (new : LoadResult) (slot k : ℕ)
      → (has_slot cur ≡ false → validate n (F.read m other n) ≡ none)
      → ((q : List ℕ) → validate n q ≡ none → look r q ≡ new)
      → F.read programmed target n ≡ r
      → (retire F programmed other cur counter).0 ≡ stored slot k
      → seen (retire F programmed other cur counter).1 ≡ new
  retire-stored new slot k lone takes_alone same ok =
      let kept : F.read (F.erase programmed other).0 target n ≡ r =
        chip.read-erase_apart programmed other target n (λ e. apart (sym e)) fits_t ∙ same in
      elim (Bool-cases (has_slot cur)) [
        | inl h ↦
            let done : (F.erase programmed other).1 ≡ true =
              retire-ok F programmed other cur counter slot k h ok in
            let cleared : F.read (F.erase programmed other).0 other n ≡ blank n =
              chip.read-erase programmed other n done fits_o in
            rw (retire-erased F programmed other cur counter h, kept, cleared)
              (takes_alone (blank n) (validate-blank n large small))
        | inr h ↦
            rw (retire-kept F programmed other cur counter h, same, other_programmed)
              (takes_alone (F.read m other n) (lone h))
      ]

  -- A rewrite that reports success leaves a record that a load returns.
  pub rewrite-stored :
      (new : LoadResult) (slot k : ℕ)
      → (has_slot cur ≡ false → validate n (F.read m other n) ≡ none)
      → ((q : List ℕ) → validate n q ≡ none → look r q ≡ new)
      → (rewrite F m n r target other cur counter).0 ≡ stored slot k
      → seen (rewrite F m n r target other cur counter).1 ≡ new
  rewrite-stored new slot k lone takes_alone ok =
      let t : RewriteDone F m n r target other cur counter =
        rewrite-ok F m n r target other cur counter slot k ok in
      let here : F.read programmed target n ≡ r = same_bytes→≡ _ r t.0 in
      rw (t.1) (retire-stored new slot k lone takes_alone here (ap (λ x. x.0) (sym t.1) ∙ ok))

  module _ (torn : Torn F) (new : LoadResult)
      (keeps : (p : List ℕ) → validate n p ≡ none → look p (F.read m other n) ≡ seen m)
      (takes : look r (F.read m other n) ≡ new)
      (takes_alone : (q : List ℕ) → validate n q ≡ none → look r q ≡ new) where
    abbrev pub Whole : M → Type 0
    Whole x = (seen x ≡ seen m) ⊎ (seen x ≡ new)

    Whole-erased : Whole erased
    Whole-erased = elim (torn.torn_erase m target n fits_t large small) [
      | inl same ↦ inl (rw (same, other_erased))
      | inr bad ↦ inl (rw other_erased (keeps (F.read erased target n) bad))
    ]

    Whole-programmed : (F.erase m target).1 ≡ true → Whole programmed
    Whole-programmed done =
        let cleared : F.read erased target n ≡ blank n = chip.read-erase m target n done fits_t in
        elim (torn.torn_program erased target n r fits_t large small sized cleared) [
          | inl same ↦ inr (rw (same, other_programmed, takes))
          | inr bad ↦ inl (rw other_programmed (keeps (F.read programmed target n) bad))
        ]

    -- Behind the check of what was read back.
    Whole-retire : F.read programmed target n ≡ r → Whole (retire F programmed other cur counter).1
    Whole-retire same =
        let kept : F.read (F.erase programmed other).0 target n ≡ r =
          chip.read-erase_apart programmed other target n (λ e. apart (sym e)) fits_t ∙ same in
        let here : seen programmed ≡ new = rw (same, other_programmed, takes) in
        let behind : seen (F.erase programmed other).0 ≡ new =
          elim (torn.torn_erase programmed other n fits_o large small) [
            | inl still ↦ rw (kept, still, other_programmed, takes)
            | inr bad ↦ rw kept (takes_alone _ bad)
          ] in
        elim (Bool-cases (has_slot cur)) [
          | inl h ↦ inr (rw (retire-erased F programmed other cur counter h) behind)
          | inr h ↦ inr (rw (retire-kept F programmed other cur counter h) here)
        ]

    pub Whole-rewrite : Whole (rewrite F m n r target other cur counter).1
    unfolding rewrite
    Whole-rewrite = elim (Bool-cases (F.erase m target).1) [
      | inr h ↦ rw h Whole-erased
      | inl done ↦ elim (Bool-cases (F.program erased target r).1) [
        | inr h ↦ rw (done, h) (Whole-programmed done)
        | inl h ↦ elim (Bool-cases (same_bytes (F.read programmed target n) r)) [
          | inr k ↦ rw (done, h, k) (Whole-programmed done)
          | inl k ↦ rw (done, h, k) (Whole-retire (same_bytes→≡ _ r k))
        ]
      ]
    ]
