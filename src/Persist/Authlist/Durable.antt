-- ===== src/Persist/Authlist/Durable.antt =====
-- The list of src/persist/rfid_authlist.c across calls and power cycles.
use open_evcharger.Prelude.{◌^◌, ◌≡◌, ◌<◌, sym, false, some, inl, inr, arith}
use mathlib.Core.Path.{subst}
use open_evcharger.Persist.Slot.{Store, Durable}
use open_evcharger.Persist.Authlist.{Authlist, Call, add, remove, clear, tidy, perform}
use open_evcharger.Persist.Authlist.Written.{Wf, added, shrunk, members-tidy, Wf-tidy}
use open_evcharger.Persist.Authlist.Members.{Distinct}
use open_evcharger.Persist.Authlist.Cases.{is_failed, add-cases, remove-cases, clear-cases, emptied}
use open_evcharger.Persist.Authlist.Written.{Wf-added, Wf-undone, Wf-shrunk}

-- The calls with cards of 32 bits.
unfoldable pub SmallCall : Call → Type 0
SmallCall (add uid) = uid < 2 ^ 32
SmallCall (remove uid) = Unit {0}
SmallCall clear = Unit {0}

module _ {M : Type 0} (S : Store M Authlist) (l : Authlist) (wf : Wf l) (m : M) where
  pub Wf-emptied : Wf (tidy (emptied S l m))
  unfolding Distinct
  Wf-emptied =
      Wf-tidy (emptied S l m) wf.sized (omega arith) wf.small
        (subst Distinct (sym (members-tidy (emptied S l m) wf.sized (omega arith))) tt)

  -- Every call that adds (a card of 32 bits), removes or clears keeps the list well-formed, whether the
  -- store succeeds or not: 28 entries of 32 bits, a count of at most 28, and members that are not zero and
  -- not listed twice.
  pub perform-Wf : (c : Call) → SmallCall c → Wf (perform S c l m).1
  unfolding perform SmallCall
  perform-Wf (add uid) small = elim (add-cases S l m uid) [
    | inl (o, silent, fine, e) ↦ rw e wf
    | inr (nz, fresh, room, inl (ok, e)) ↦ rw e (Wf-added l wf uid room nz fresh small)
    | inr (nz, fresh, room, inr (bad, e)) ↦ rw e (Wf-undone l wf uid room small)
  ]
  perform-Wf (remove uid) small = elim (remove-cases S l m uid) [
    | inl ((o, silent, fine, e), absent) ↦ rw e wf
    | inr (found, there, inl (ok, e)) ↦ rw e (Wf-shrunk l wf uid found there)
    | inr (found, there, inr (bad, e)) ↦ rw e (Wf-shrunk l wf uid found there)
  ]
  perform-Wf clear small = elim (clear-cases S l m) [
    | inl ((o, silent, fine, e), zero_count) ↦ rw e wf
    | inr (inl (ok, e)) ↦ rw e Wf-emptied
    | inr (inr (bad, e)) ↦ rw e Wf-emptied
  ]

  -- On a store that keeps what it reports as stored, for a well-formed list that is the stored one: after a
  -- call (with a card of 32 bits) that returns no store error, the list in memory is again the stored one.
  pub perform-durable :
      Durable S Wf
      → S.load m ≡ some l
      → (c : Call) → SmallCall c
      → let r = perform S c l m in is_failed r.0 ≡ false → S.load r.2 ≡ some r.1
  unfolding perform SmallCall is_failed
  perform-durable durable held (add uid) small = elim (add-cases S l m uid) [
    | inl (o, silent, fine, e) ↦ rw e (λ h. held)
    | inr (nz, fresh, room, inl (ok, e)) ↦
        rw e (λ h.
          durable.load_store m (tidy (added l uid)) (Wf-added l wf uid room nz fresh small) ok)
    | inr (nz, fresh, room, inr (bad, e)) ↦ rw e (λ h. absurd (ground (arith, h)))
  ]
  perform-durable durable held (remove uid) small = elim (remove-cases S l m uid) [
    | inl ((o, silent, fine, e), absent) ↦ rw e (λ h. held)
    | inr (found, there, inl (ok, e)) ↦
        rw e (λ h. durable.load_store m (tidy (shrunk l found)) (Wf-shrunk l wf uid found there) ok)
    | inr (found, there, inr (bad, e)) ↦ rw e (λ h. absurd (ground (arith, h)))
  ]
  perform-durable durable held clear small = elim (clear-cases S l m) [
    | inl ((o, silent, fine, e), zero_count) ↦ rw e (λ h. held)
    | inr (inl (ok, e)) ↦ rw e (λ h. durable.load_store m (tidy (emptied S l m)) Wf-emptied ok)
    | inr (inr (bad, e)) ↦ rw e (λ h. absurd (ground (arith, h)))
  ]
