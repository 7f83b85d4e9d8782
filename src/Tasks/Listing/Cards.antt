-- ===== src/Tasks/Listing/Cards.antt =====
-- The card listing of src/tasks/persist_task.c.
use open_evcharger.Prelude.{
  ℕ, zero, suc, ◌+◌, ◌≡◌, ◌≤◌, ◌<◌, refl, sym, ap, ◌∙◌, List, [], ◌∷◌, ◌++◌, false, length, get_or,
  take, drop, leb, arith,
}
use open_evcharger.Persist.Authlist.{Authlist, members, rfid_authlist_get_nth}
use open_evcharger.Tasks.Listing.{
  ListEvent, rfid_list_entry, rfid_list_end, list_cards, handle_rfid_get_list,
}

-- A list of cards as frames: each with its place and the number of cards.
unfoldable pub card_frames : (i count : ℕ) → List ℕ → List ListEvent
card_frames i count [] = []
card_frames i count (uid ∷ uids) = rfid_list_entry i count uid ∷ card_frames (suc i) count uids

drop-cons : (xs : List ℕ) (i : ℕ) → i < length xs → drop i xs ≡ get_or xs i 0 ∷ drop (suc i) xs
drop-cons [] i h = absurd (omega (arith, h))
drop-cons (x ∷ xs) zero h = refl
drop-cons (x ∷ xs) (suc i) h = drop-cons xs i (omega (arith, h))

list_cards-entry :
    (left i : ℕ) (l : Authlist)
    → i < l.count
    → list_cards (suc left) i l
      ≡ rfid_list_entry i l.count (get_or l.uids i 0) ∷ list_cards left (suc i) l
unfolding list_cards rfid_authlist_get_nth
list_cards-entry left i l h =
    let t : leb l.count i ≡ false = ground (arith, h) in rw (t, list_cards) refl

list_cards-frames :
    (left i : ℕ) (l : Authlist)
    → left + i ≡ l.count
    → l.count ≤ length l.uids
    → list_cards left i l ≡ card_frames i l.count (take left (drop i l.uids))
unfolding list_cards card_frames
list_cards-frames zero i l e fits = refl
list_cards-frames (suc left) i l e fits =
    list_cards-entry left i l (omega (arith, e))
    ∙ ap (λ es. rfid_list_entry i l.count (get_or l.uids i 0) ∷ es)
        (list_cards-frames left (suc i) l (omega (arith, e)) fits)
    ∙ ap (λ xs. card_frames i l.count (take (suc left) xs))
        (sym (drop-cons l.uids i (omega (arith, e, fits))))

-- For a list of cards with all its entries: the answer lists the members, in order, and ends with their
-- number.
pub rfid_get_list-members :
    (l : Authlist)
    → l.count ≤ length l.uids
    → handle_rfid_get_list l ≡ card_frames 0 l.count (members l) ++ (rfid_list_end l.count ∷ [])
unfolding handle_rfid_get_list
rfid_get_list-members l fits =
    ap (λ es. es ++ (rfid_list_end l.count ∷ [])) (list_cards-frames l.count 0 l (omega arith) fits)
