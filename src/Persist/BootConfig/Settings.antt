-- ===== src/Persist/BootConfig/Settings.antt =====
-- Changes of the settings of src/persist/boot_config.c, and what survives of them.
use open_evcharger.Prelude.{
  ℕ, ◌≡◌, ◌⊎◌, refl, sym, ap, ◌∙◌, Bool, true, false, ◌&&◌, some, if◌then◌else◌, ◌==◌, ==_iff, ltb,
  Bool-cases, inl, inr, arith,
}
use open_evcharger.Persist.Slot.{Store, Durable}
use open_evcharger.Persist.BootConfig.{
  BootConfig, Setting, set_amps, set_rfid_auth, set_gfci_policy, set_pending_ota, change,
  config_store, boot_config_set_advertised_amps, boot_config_set_require_rfid_auth,
  boot_config_set_gfci_fault_policy, boot_config_set_pending_ota,
}
use open_evcharger.Persist.BootConfig.Image.{ConfigFits}

-- The settings a change asks for.
unfoldable pub asked : Setting → BootConfig → BootConfig
asked (set_amps a) c = record c { fc41d_advertised_amps = a }
asked (set_rfid_auth enable) c = record c { require_rfid_auth = if enable == 0 then 0 else 1 }
asked (set_gfci_policy policy) c = record c { gfci_fault_policy = policy }
asked (set_pending_ota pending image_size image_crc32) c = record c {
  pending_ota_flag = if pending == 0 then 0 else 1;
  staged_image_size = if pending == 0 then 0 else image_size;
  staged_image_crc32 = if pending == 0 then 0 else image_crc32;
}

-- A change that is refused.
unfoldable pub refused : Setting → Bool
refused (set_gfci_policy policy) = ltb 1 policy
refused _ = false

same : (a b : ℕ) → (a == b) ≡ true → b ≡ a
same a b h = sym ((==_iff a b).0 h)

staged :
    (c : BootConfig) (p s k : ℕ)
    → (c.pending_ota_flag == p && (c.staged_image_size == s && c.staged_image_crc32 == k)) ≡ true
    → record c { pending_ota_flag = p; staged_image_size = s; staged_image_crc32 = k } ≡ c
staged c p s k h =
    let flag : (c.pending_ota_flag == p) ≡ true = ground (arith, h) in
    let size : (c.staged_image_size == s) ≡ true = ground (arith, h) in
    let crc : (c.staged_image_crc32 == k) ≡ true = ground (arith, h) in
    ap (λ x. record c { pending_ota_flag = x; staged_image_size = s; staged_image_crc32 = k })
      (same c.pending_ota_flag p flag)
    ∙ ap (λ x. record c { staged_image_size = x; staged_image_crc32 = k })
        (same c.staged_image_size s size)
    ∙ ap (λ x. record c { staged_image_crc32 = x }) (same c.staged_image_crc32 k crc)

module _ {M : Type 0} (S : Store M BootConfig) (c : BootConfig) (m : M) where
  -- What a change ends in: it is refused, it is there already, or it is stored with the version.
  pub change-cases :
      (s : Setting)
      → ((refused s ≡ true) × (change S s c m ≡ (false, c, m)))
        ⊎ ((refused s ≡ false)
            × ((asked s c ≡ c) × (change S s c m ≡ (true, c, m))
                ⊎ (change S s c m ≡ config_store S (asked s c) m)))
  unfolding change refused asked boot_config_set_advertised_amps boot_config_set_require_rfid_auth
      boot_config_set_gfci_fault_policy boot_config_set_pending_ota
  change-cases (set_amps a) = elim (Bool-cases (c.fc41d_advertised_amps == a)) [
    | inl h ↦ inr (
      refl,
      inl (
        ap (λ x. record c { fc41d_advertised_amps = x }) (same c.fc41d_advertised_amps a h),
        rw h refl,
      ),
    )
    | inr h ↦ inr (refl, inr (rw h refl))
  ]
  change-cases (set_rfid_auth enable) =
      let e : ℕ = if enable == 0 then 0 else 1 in
      elim (Bool-cases (c.require_rfid_auth == e)) [
        | inl h ↦ inr (
          refl,
          inl (
            ap (λ x. record c { require_rfid_auth = x }) (same c.require_rfid_auth e h),
            rw h refl,
          ),
        )
        | inr h ↦ inr (refl, inr (rw h refl))
      ]
  change-cases (set_gfci_policy policy) = elim (Bool-cases (ltb 1 policy)) [
    | inl h ↦ inl (h, rw h refl)
    | inr ok ↦ elim (Bool-cases (c.gfci_fault_policy == policy)) [
      | inl h ↦ inr (
        ok,
        inl (
          ap (λ x. record c { gfci_fault_policy = x }) (same c.gfci_fault_policy policy h),
          rw (ok, h) refl,
        ),
      )
      | inr h ↦ inr (ok, inr (rw (ok, h) refl))
    ]
  ]
  change-cases (set_pending_ota pending image_size image_crc32) =
      let p : ℕ = if pending == 0 then 0 else 1 in
      let s : ℕ = if pending == 0 then 0 else image_size in
      let k : ℕ = if pending == 0 then 0 else image_crc32 in
      elim (Bool-cases
        (c.pending_ota_flag == p && (c.staged_image_size == s && c.staged_image_crc32 == k))) [
          | inl h ↦ inr (refl, inl (staged c p s k h, rw h refl))
          | inr h ↦ inr (refl, inr (rw h refl))
        ]

asked_again :
    (c : BootConfig) (s : Setting)
    → asked s (record (asked s c) { version = 1 }) ≡ record (asked s c) { version = 1 }
unfolding asked
asked_again c (set_amps a) = refl
asked_again c (set_rfid_auth enable) = refl
asked_again c (set_gfci_policy policy) = refl
asked_again c (set_pending_ota pending image_size image_crc32) = refl

==_refl : (a : ℕ) → (a == a) ≡ true
==_refl a = ground arith

there : (a b : ℕ) → b ≡ a → (a == b) ≡ true
there a b e = ground (arith, e)

module _ {M : Type 0} (S : Store M BootConfig) (c : BootConfig) (m : M) where
  -- A change that asks for what is there.
  change-there : (s : Setting) → refused s ≡ false → asked s c ≡ c → change S s c m ≡ (true, c, m)
  unfolding change refused asked boot_config_set_advertised_amps boot_config_set_require_rfid_auth
      boot_config_set_gfci_fault_policy boot_config_set_pending_ota
  change-there (set_amps a) h e =
      rw (there c.fc41d_advertised_amps a (ap (λ k. k.fc41d_advertised_amps) e)) refl
  change-there (set_rfid_auth enable) h e =
      rw
        (there c.require_rfid_auth (if enable == 0 then 0 else 1) (ap (λ k. k.require_rfid_auth) e))
        refl
  change-there (set_gfci_policy policy) h e =
      rw (h, there c.gfci_fault_policy policy (ap (λ k. k.gfci_fault_policy) e)) refl
  change-there (set_pending_ota pending image_size image_crc32) h e =
      rw
        (
          there c.pending_ota_flag (if pending == 0 then 0 else 1) (ap (λ k. k.pending_ota_flag) e),
          there c.staged_image_size (if pending == 0 then 0 else image_size)
              (ap (λ k. k.staged_image_size) e),
          there c.staged_image_crc32 (if pending == 0 then 0 else image_crc32)
              (ap (λ k. k.staged_image_crc32) e),
        )
        refl

module _ {M : Type 0} (S : Store M BootConfig) (c : BootConfig) (m : M) where
  -- On a store that keeps what it reports as stored, for settings that are the stored ones: after a change
  -- that returns 0 the settings in memory are the stored ones, and they are the old ones with the change, up
  -- to the version byte. The image size and checksum asked for have 32 bits.
  pub change-durable :
      Durable S ConfigFits
      → S.load m ≡ some c
      → (s : Setting) → ConfigFits (asked s c)
      → let r = change S s c m in
        r.0 ≡ true
        → (S.load r.2 ≡ some r.1)
          × (record (r.1) { version = 0 } ≡ record (asked s c) { version = 0 })
  unfolding config_store
  change-durable durable held s fits = elim (change-cases S c m s) [
    | inl (no_change, e) ↦ rw e (λ h. absurd (ground (arith, h)))
    | inr (fine, inl (there, e)) ↦
        rw e (λ h. (held, ap (λ (k : BootConfig). record k { version = 0 }) (sym there)))
    | inr (fine, inr e) ↦ rw e (λ h. (
      durable.load_store m (record (asked s c) { version = 1 })
          (record { size_fits = fits.size_fits; crc_fits = fits.crc_fits }) h,
      refl,
    ))
  ]

  -- A change of a setting, if its value is allowed, that is asked for a second time returns 0 and writes
  -- nothing, whatever the first call returned: also when its write failed.
  pub change-retried :
      (s : Setting)
      → refused s ≡ false
      → let r = change S s c m in change S s r.1 r.2 ≡ (true, r.1, r.2)
  unfolding config_store
  change-retried s h = elim (change-cases S c m s) [
    | inl (no_change, e) ↦ absurd (ground (arith, no_change, h))
    | inr (fine, inl (there, e)) ↦ rw (e, e) refl
    | inr (fine, inr e) ↦ rw e (
        change-there S (record (asked s c) { version = 1 })
          (S.store m (record (asked s c) { version = 1 })).1 s h (asked_again c s))
  ]
