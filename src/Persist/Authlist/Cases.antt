-- ===== src/Persist/Authlist/Cases.antt =====
-- How the calls of src/persist/rfid_authlist.c can end.
use open_evcharger.Prelude.{
  ℕ, ◌≡◌, ◌≢◌, ◌⊎◌, ◌<◌, refl, Bool, true, false, some, ◌==◌, ==_iff, leb, Bool-cases, Option-cases,
  inl, inr, arith,
}
use open_evcharger.Persist.Slot.{Store}
use open_evcharger.Persist.Authlist.{
  Authlist, Outcome, ret_one, ret_zero, ret_full, ret_persist, ret_zero_uid, mem, find_index,
  members, rfid_authlist_contains, tidy, authlist_store, rfid_authlist_add, authlist_remove_at,
  rfid_authlist_remove, rfid_authlist_clear,
}
use open_evcharger.Persist.Authlist.Written.{added, undone, shrunk}
use open_evcharger.Persist.Authlist.Members.{mem-find_index}

unfoldable pub is_one : Outcome → Bool
is_one ret_one = true
is_one _ = false

unfoldable pub is_failed : Outcome → Bool
is_failed ret_persist = true
is_failed _ = false

module _ {M : Type 0} (S : Store M Authlist) (l : Authlist) (m : M) where
  -- How an addition can end: as it began, with the card behind the others, or undone.
  abbrev pub Kept : Outcome × Authlist × M → Type 0
  Kept r = ((o : Outcome) × (is_one o ≡ false) × (is_failed o ≡ false) × (r ≡ (o, l, m)))

  abbrev pub wrote : Authlist → Bool × M
  wrote k = S.store m (tidy k)

  pub add-cases :
      (uid : ℕ)
      → Kept (rfid_authlist_add S l m uid)
        ⊎ ((uid ≢ 0)
            × (mem uid (members l) ≡ false)
            × (l.count < 28)
            × (((wrote (added l uid)).0 ≡ true)
                  × (rfid_authlist_add S l m uid
                      ≡ (ret_one, tidy (added l uid), (wrote (added l uid)).1))
                ⊎ ((wrote (added l uid)).0 ≡ false)
                  × (rfid_authlist_add S l m uid
                      ≡ (ret_persist, undone l uid, (wrote (added l uid)).1))))
  unfolding rfid_authlist_add authlist_store is_one is_failed rfid_authlist_contains
  add-cases uid = elim (Bool-cases (uid == 0)) [
    | inl h ↦ inl (ret_zero_uid, refl, refl, rw h refl)
    | inr nz ↦ elim (Bool-cases (mem uid (members l))) [
      | inl h ↦ inl (ret_zero, refl, refl, rw (nz, h) refl)
      | inr fresh ↦ elim (Bool-cases (leb 28 l.count)) [
        | inl h ↦ inl (ret_full, refl, refl, rw (nz, fresh, h) refl)
        | inr room ↦ inr (
          ground (arith, nz),
          fresh,
          ground (arith, room),
          elim (Bool-cases (wrote (added l uid)).0) [
            | inl ok ↦ inl (ok, rw (nz, fresh, room, ok) refl)
            | inr bad ↦ inr (bad, rw (nz, fresh, room, bad) refl)
          ],
        )
      ]
    ]
  ]

  -- A removal ends as it began, with the card not listed, or with the list without it.
  pub remove-cases :
      (uid : ℕ)
      → (Kept (rfid_authlist_remove S l m uid) × (rfid_authlist_contains l uid ≡ false))
        ⊎ ((found : ℕ) × (find_index uid (members l) ≡ some found)
            × (((wrote (shrunk l found)).0 ≡ true)
                  × (rfid_authlist_remove S l m uid
                      ≡ (ret_one, tidy (shrunk l found), (wrote (shrunk l found)).1))
                ⊎ ((wrote (shrunk l found)).0 ≡ false)
                  × (rfid_authlist_remove S l m uid
                      ≡ (ret_persist, tidy (shrunk l found), (wrote (shrunk l found)).1))))
  unfolding rfid_authlist_remove authlist_remove_at authlist_store is_one is_failed
      rfid_authlist_contains
  remove-cases uid = elim (Bool-cases (uid == 0)) [
    | inl h ↦ inl ((ret_zero, refl, refl, rw h refl), rw h refl)
    | inr nz ↦ elim (Option-cases (find_index uid (members l))) [
      | inl lost ↦
          inl (
            (ret_zero, refl, refl, rw (nz, lost) refl),
            rw nz (mem-find_index uid (members l) lost),
          )
      | inr (found, there) ↦ inr (
        found,
        there,
        elim (Bool-cases (wrote (shrunk l found)).0) [
          | inl ok ↦ inl (ok, rw (nz, there, ok) refl)
          | inr bad ↦ inr (bad, rw (nz, there, bad) refl)
        ],
      )
    ]
  ]

  abbrev pub emptied : Authlist
  emptied = record l { count = 0 }

  pub clear-cases :
      (Kept (rfid_authlist_clear S l m) × (l.count ≡ 0))
      ⊎ (((wrote emptied).0 ≡ true)
            × (rfid_authlist_clear S l m ≡ (ret_zero, tidy emptied, (wrote emptied).1))
          ⊎ ((wrote emptied).0 ≡ false)
            × (rfid_authlist_clear S l m ≡ (ret_persist, tidy emptied, (wrote emptied).1)))
  unfolding rfid_authlist_clear authlist_store is_one is_failed
  clear-cases = elim (Bool-cases (l.count == 0)) [
    | inl h ↦ inl ((ret_zero, refl, refl, rw h refl), (==_iff l.count 0).0 h)
    | inr h ↦ inr (elim (Bool-cases (wrote emptied).0) [
      | inl ok ↦ inl (ok, rw (h, ok) refl)
      | inr bad ↦ inr (bad, rw (h, bad) refl)
    ])
  ]
