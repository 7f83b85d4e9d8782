-- ===== src/Persist/Authlist/Laws.antt =====
-- What the calls of src/persist/rfid_authlist.c do to the set of cards.
use open_evcharger.Prelude.{
  ℕ, ◌≡◌, ◌≢◌, refl, ap, ◌∙◌, sym, List, [], ◌∷◌, ◌++◌, Bool, false, ◌&&◌, ◌||◌, not, some,
  if◌then◌else◌, ◌==◌, ==_iff, Bool-cases, inl, inr, arith, take,
}
use open_evcharger.Persist.Slot.{Store}
use open_evcharger.Persist.Authlist.{
  Authlist, Outcome, Call, add, remove, clear, mem, find_index, members, rfid_authlist_contains,
  tidy, rfid_authlist_add, rfid_authlist_remove, rfid_authlist_clear, perform,
}
use open_evcharger.Persist.Authlist.Written.{
  Wf, added, undone, shrunk, members-added, members-undone, members-shrunk, members-tidy,
}
use open_evcharger.Persist.Authlist.Members.{Distinct, remove_at, mem-append_one, mem-remove_at}
use open_evcharger.Persist.Authlist.Cases.{is_one, add-cases, remove-cases, clear-cases, emptied}

-- The set that a call leaves, from the one before it and its outcome.
unfoldable pub expected : Call → Outcome → (ℕ → Bool) → ℕ → Bool
expected (add uid) o had v = if is_one o then had v || uid == v else had v
expected (remove uid) o had v = had v && not (v == uid)
expected clear o had v = false

listed : ℕ → List ℕ → Bool
listed v xs = if v == 0 then false else mem v xs

contains-listed : (l : Authlist) (v : ℕ) → rfid_authlist_contains l v ≡ listed v (members l)
unfolding rfid_authlist_contains listed
contains-listed l v = refl

listed_none : (v : ℕ) → listed v [] ≡ false
unfolding listed mem
listed_none v = ground arith

listed-append_one :
    (v uid : ℕ) (xs : List ℕ) → uid ≢ 0 → listed v (xs ++ (uid ∷ [])) ≡ (listed v xs || uid == v)
unfolding listed
listed-append_one v uid xs nz = ground (arith, mem-append_one v uid xs, nz)

listed-remove_at :
    (v uid i : ℕ) (xs : List ℕ)
    → Distinct xs
    → find_index uid xs ≡ some i
    → listed v (remove_at i xs) ≡ (listed v xs && not (v == uid))
unfolding listed
listed-remove_at v uid i xs d h = ground (arith, mem-remove_at v uid i xs d h)

without : (had : ℕ → Bool) (uid v : ℕ) → had uid ≡ false → had v ≡ (had v && not (v == uid))
without had uid v absent = elim (Bool-cases (v == uid)) [
  | inl h ↦ rw (h, ap had ((==_iff v uid).0 h), absent) refl
  | inr h ↦ rw h (ground arith)
]

module _ {M : Type 0} (S : Store M Authlist) (l : Authlist) (wf : Wf l) (m : M) where
  add-expected :
      (uid v : ℕ)
      → let r = rfid_authlist_add S l m uid in
        rfid_authlist_contains r.1 v ≡ expected (add uid) r.0 (rfid_authlist_contains l) v
  unfolding expected is_one
  add-expected uid v = elim (add-cases S l m uid) [
    | inl (o, silent, fine, e) ↦ rw (e, silent) refl
    | inr (nz, fresh, room, inl (ok, e)) ↦ rw e (
        contains-listed (tidy (added l uid)) v
        ∙ ap (listed v) (members-added l wf uid room)
        ∙ listed-append_one v uid (members l) nz
        ∙ ap (λ b. b || uid == v) (sym (contains-listed l v)))
    | inr (nz, fresh, room, inr (bad, e)) ↦ rw e (
        contains-listed (undone l uid) v
        ∙ ap (listed v) (members-undone l wf uid room)
        ∙ sym (contains-listed l v))
  ]

  remove-expected :
      (uid v : ℕ)
      → let r = rfid_authlist_remove S l m uid in
        rfid_authlist_contains r.1 v ≡ (rfid_authlist_contains l v && not (v == uid))
  remove-expected uid v =
      let behind : (found : ℕ)
          → find_index uid (members l) ≡ some found
          → rfid_authlist_contains (tidy (shrunk l found)) v
            ≡ (rfid_authlist_contains l v && not (v == uid)) =
        λ found there.
          contains-listed (tidy (shrunk l found)) v
          ∙ ap (listed v) (members-shrunk l wf uid found there)
          ∙ listed-remove_at v uid found (members l) wf.distinct there
          ∙ ap (λ b. b && not (v == uid)) (sym (contains-listed l v)) in
      elim (remove-cases S l m uid) [
        | inl ((o, silent, fine, e), absent) ↦
            rw e (without (rfid_authlist_contains l) uid v absent)
        | inr (found, there, inl (ok, e)) ↦ rw e (behind found there)
        | inr (found, there, inr (bad, e)) ↦ rw e (behind found there)
      ]

  clear-expected : (v : ℕ) → rfid_authlist_contains (rfid_authlist_clear S l m).1 v ≡ false
  clear-expected v =
      let behind : rfid_authlist_contains (tidy (emptied S l m)) v ≡ false =
        contains-listed (tidy (emptied S l m)) v
        ∙ ap (listed v) (members-tidy (emptied S l m) wf.sized (omega arith))
        ∙ listed_none v in
      elim (clear-cases S l m) [
        | inl ((o, silent, fine, e), zero_count) ↦
            rw e
              (contains-listed l v ∙ ap (λ k. listed v (take k l.uids)) zero_count ∙ listed_none v)
        | inr (inl (ok, e)) ↦ rw e behind
        | inr (inr (bad, e)) ↦ rw e behind
      ]

  -- For a well-formed list, a call that adds, removes or clears leaves exactly the expected set of cards,
  -- whether the store succeeds or not: an addition that returns 1 adds its card, any other addition leaves
  -- the set, a removal takes its card out of it also when the store fails, and after a clear no card is
  -- listed.
  pub perform-expected :
      (c : Call) (v : ℕ)
      → let r = perform S c l m in
        rfid_authlist_contains r.1 v ≡ expected c r.0 (rfid_authlist_contains l) v
  unfolding perform expected
  perform-expected (add uid) v = add-expected uid v
  perform-expected (remove uid) v = remove-expected uid v
  perform-expected clear v = clear-expected v
