-- ===== src/Persist/Log/Startup.antt =====
-- The scan at start-up of src/persist/event_log.c and src/persist/session_log.c.
use open_evcharger.Prelude.{
  ℕ, zero, suc, ◌+◌, ◌-◌, ◌*◌, ◌%◌, ◌≡◌, ◌≤◌, ◌<◌, ◌⊎◌, refl, sym, ap, ◌∙◌, List, [], ◌∷◌, ◌++◌,
  Bool, true, false, not, ◌||◌, if◌then◌else◌, Bool-cases, inl, inr, length, take, drop,
  take-append, arith,
}
use open_evcharger.Persist.Bytes.{le32_load}
use open_evcharger.Persist.Flash.{Flash, Chip}
use open_evcharger.Persist.Log.{
  LogLayout, Log, Class, blank_record, valid_record, corrupt_record, Scan, scan_start,
  total_records, slot_to_addr, classify_record, le16_load, older, scan_record, scan_sector,
  scan_log, log_init,
}

drop-append : (xs ys : List ℕ) → drop (length xs) (xs ++ ys) ≡ ys
drop-append [] ys = refl
drop-append (x ∷ xs) ys = drop-append xs ys

module _ (L : LogLayout) {M : Type 0} (F : Flash M) where
  -- The record of a slot, and its key.
  abbrev pub at_slot : M → ℕ → List ℕ
  at_slot m j = F.read m (slot_to_addr L j) 32

  abbrev pub IsHeld : M → ℕ → Type 0
  IsHeld m j = classify_record (at_slot m j) ≡ valid_record

  abbrev pub key_boot : M → ℕ → ℕ
  key_boot m j = le16_load (at_slot m j) L.boot_at

  abbrev pub key_ts : M → ℕ → ℕ
  key_ts m j = le32_load (at_slot m j) L.ts_at

  -- The scan as one loop over the slots.
  scan_slots : ℕ → ℕ → M → Scan → Scan
  scan_slots zero j m st = st
  scan_slots (suc n) j m st = scan_slots n (suc j) m (scan_record L j (at_slot m j) st)

  scan_slots-add :
      (a b j : ℕ) (m : M) (st : Scan)
      → scan_slots (a + b) j m st ≡ scan_slots b (j + a) m (scan_slots a j m st)
  unfolding scan_slots
  scan_slots-add zero b j m st =
      let e : 0 + b ≡ b = omega arith in let e2 : j + 0 ≡ j = omega arith in rw (e, e2) refl
  scan_slots-add (suc a) b j m st =
      let e : suc a + b ≡ suc (a + b) = omega arith in
      let e2 : j + suc a ≡ suc j + a = omega arith in
      rw (e, e2) (scan_slots-add a b (suc j) m (scan_record L j (at_slot m j) st))

  module _ (chip : Chip F) where
    sector-slots :
        (n j : ℕ) (m : M) (st : Scan)
        → scan_sector L n j (F.read m (slot_to_addr L j) (n * 32)) st ≡ scan_slots n j m st
    unfolding scan_sector scan_slots
    sector-slots zero j m st = refl
    sector-slots (suc n) j m st =
        let front = F.read m (slot_to_addr L j) 32 in
        let rest = F.read m (slot_to_addr L (suc j)) (n * 32) in
        let size : suc n * 32 ≡ 32 + n * 32 = omega arith in
        let next : slot_to_addr L j + 32 ≡ slot_to_addr L (suc j) = omega arith in
        let cut : F.read m (slot_to_addr L j) (suc n * 32) ≡ front ++ rest =
          ap (F.read m (slot_to_addr L j)) size
          ∙ chip.read_append m (slot_to_addr L j) 32 (n * 32)
          ∙ ap (λ a. front ++ F.read m a (n * 32)) next in
        let len : length front ≡ 32 = chip.length-read m (slot_to_addr L j) 32 in
        let head : take 32 (front ++ rest) ≡ front =
          ap (λ k. take k (front ++ rest)) (sym len) ∙ take-append front rest in
        let tail : drop 32 (front ++ rest) ≡ rest =
          ap (λ k. drop k (front ++ rest)) (sym len) ∙ drop-append front rest in
        ap (λ buf. scan_sector L (suc n) j buf st) cut
        ∙ ap (λ p. scan_sector L n (suc j) (drop 32 (front ++ rest)) (scan_record L j p st)) head
        ∙ ap (λ p. scan_sector L n (suc j) p (scan_record L j front st)) tail
        ∙ sector-slots n (suc j) m (scan_record L j front st)

    log-slots :
        (n s : ℕ) (m : M) (st : Scan) → scan_log L F n s m st ≡ scan_slots (n * 128) (s * 128) m st
    unfolding scan_log scan_slots
    log-slots zero s m st = refl
    log-slots (suc n) s m st =
        let at : L.base + s * 4096 ≡ slot_to_addr L (s * 128) = omega arith in
        let size : suc n * 128 ≡ 128 + n * 128 = omega arith in
        let next : s * 128 + 128 ≡ suc s * 128 = omega arith in
        let first = sector-slots 128 (s * 128) m st in
        log-slots n (suc s) m (scan_sector L 128 (s * 128) (F.read m (L.base + s * 4096) 4096) st)
        ∙ ap
            (λ a.
              scan_slots (n * 128) (suc s * 128) m
                (scan_sector L 128 (s * 128) (F.read m a 4096) st))
            at
        ∙ ap (scan_slots (n * 128) (suc s * 128) m) first
        ∙ ap (λ j. scan_slots (n * 128) j m (scan_slots 128 (s * 128) m st)) (sym next)
        ∙ sym (scan_slots-add 128 (n * 128) (s * 128) m st)
        ∙ ap (λ k. scan_slots k (s * 128) m st) (sym size)

  -- Whether a record of slot `j` replaces what the scan holds.
  abbrev pub takes : ℕ → ℕ → Scan → Bool
  takes boot ts st = not st.seen_valid || older st.latest_boot st.latest_ts boot ts

  abbrev pub found : M → ℕ → Scan
  found m j = record {
    seen_valid = true;
    latest_boot = key_boot m j;
    latest_ts = key_ts m j;
    latest_slot = j;
  }

  scan-cases :
      (j : ℕ) (m : M) (st : Scan)
      → (IsHeld m j
          × (takes (key_boot m j) (key_ts m j) st ≡ true)
          × (scan_record L j (at_slot m j) st ≡ found m j))
        ⊎ ((IsHeld m j → takes (key_boot m j) (key_ts m j) st ≡ false)
            × (scan_record L j (at_slot m j) st ≡ st))
  unfolding scan_record
  scan-cases j m st = by_class (classify_record (at_slot m j)) refl
    where
      by_class :
          (c : Class)
          → classify_record (at_slot m j) ≡ c
          → (IsHeld m j
              × (takes (key_boot m j) (key_ts m j) st ≡ true)
              × (scan_record L j (at_slot m j) st ≡ found m j))
            ⊎ ((IsHeld m j → takes (key_boot m j) (key_ts m j) st ≡ false)
                × (scan_record L j (at_slot m j) st ≡ st))
      by_class blank_record e = inr (λ h. absurd (ground (arith, e, h)), rw (e, scan_record) refl)
      by_class corrupt_record e = inr (λ h. absurd (ground (arith, e, h)), rw (e, scan_record) refl)
      by_class valid_record e = elim (Bool-cases (takes (key_boot m j) (key_ts m j) st)) [
        | inl t ↦ inl (e, t, rw (e, scan_record) (rw t refl))
        | inr t ↦ inr (λ h. t, rw (e, scan_record) (rw t refl))
      ]

  -- The newest record is in slot `k`.
  module _ (m : M) (k : ℕ) where
    abbrev pub k_boot : ℕ
    k_boot = key_boot m k

    abbrev pub k_ts : ℕ
    k_ts = key_ts m k

    scan_before :
        (n j : ℕ) (st : Scan)
        → ((i : ℕ)
            → j ≤ i
            → i < j + n
            → IsHeld m i
            → older (key_boot m i) (key_ts m i) k_boot k_ts ≡ true)
        → takes k_boot k_ts st ≡ true
        → takes k_boot k_ts (scan_slots n j m st) ≡ true
    unfolding scan_slots
    scan_before zero j st all h = h
    scan_before (suc n) j st all h =
        let all1 = λ (i : ℕ) (lo : suc j ≤ i) (hi : i < suc j + n).
          all i (omega (arith, lo)) (omega (arith, hi)) in
        scan_before n (suc j) (scan_record L j (at_slot m j) st) all1 (elim (scan-cases j m st) [
          | inl (held, taken, e) ↦ rw e (all j (omega arith) (omega arith) held)
          | inr (skipped, e) ↦ rw e h
        ])

    scan_after :
        (n j : ℕ)
        → ((i : ℕ)
            → j ≤ i
            → i < j + n
            → IsHeld m i
            → older k_boot k_ts (key_boot m i) (key_ts m i) ≡ false)
        → scan_slots n j m (found m k) ≡ found m k
    unfolding scan_slots
    scan_after zero j all = refl
    scan_after (suc n) j all =
        let all1 = λ (i : ℕ) (lo : suc j ≤ i) (hi : i < suc j + n).
          all i (omega (arith, lo)) (omega (arith, hi)) in
        let same : scan_record L j (at_slot m j) (found m k) ≡ found m k =
          elim (scan-cases j m (found m k)) [
            | inl (held, taken, e) ↦
                absurd (ground (arith, all j (omega arith) (omega arith) held, taken))
            | inr (skipped, e) ↦ e
          ] in
        ap (scan_slots n (suc j) m) same ∙ scan_after n (suc j) all1

    -- After a scan that finds valid records, with the newest in slot `k`, the next record goes into the slot
    -- behind it. The newest one: no earlier slot has a later key, and every later slot that holds a
    -- valid record has an earlier one. The keys are boot count and time, in this order.
    pub init-newest :
        (chip : Chip F) (g : Log)
        → k < total_records L
        → IsHeld m k
        → ((i : ℕ) → i < k → IsHeld m i → older (key_boot m i) (key_ts m i) k_boot k_ts ≡ true)
        → ((i : ℕ)
            → k < i
            → i < total_records L
            → IsHeld m i
            → older k_boot k_ts (key_boot m i) (key_ts m i) ≡ false)
        → (log_init L F g m).head_slot ≡ (k + 1) % total_records L
    unfolding log_init scan_slots
    init-newest chip g inside held before after =
        let rest = total_records L - k - 1 in
        let first = scan_slots k 0 m scan_start in
        let t : takes k_boot k_ts first ≡ true =
          scan_before k 0 scan_start (λ i lo hi. before i (omega (arith, hi))) refl in
        let here : scan_record L k (at_slot m k) first ≡ found m k = elim (scan-cases k m first) [
          | inl (h, taken, e) ↦ e
          | inr (skipped, e) ↦ absurd (ground (arith, skipped held, t))
        ] in
        let size : total_records L ≡ k + suc rest = omega (arith, inside) in
        let whole : scan_log L F L.sectors 0 m scan_start ≡ found m k =
          log-slots chip L.sectors 0 m scan_start
          ∙ ap (λ n. scan_slots n 0 m scan_start) size
          ∙ scan_slots-add k (suc rest) 0 m scan_start
          ∙ ap (λ j. scan_slots (suc rest) j m first) (omega arith)
          ∙ ap (scan_slots rest (suc k) m) here
          ∙ scan_after rest (suc k)
              (λ i lo hi. after i (omega (arith, lo)) (omega (arith, hi, inside))) in
        ap (λ (st : Scan). if st.seen_valid then (st.latest_slot + 1) % total_records L else 0)
          whole
