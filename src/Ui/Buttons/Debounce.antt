-- ===== src/Ui/Buttons/Debounce.antt =====
-- What the debounce of src/ui/buttons.c guarantees.
use open_evcharger.Prelude.{ℕ, ◌+◌, ◌≡◌, Bool, true, not, ◌&&◌, arith, if◌then◌else◌, ltb, leb}
use open_evcharger.Ui.Buttons.{
  ButtonId, none, pc9, Buttons, same_button, same_bool, classify_ladder, poll_ladder, poll_pc9,
  buttons_poll, observe_ladder, commit_ladder, observe_pc9, commit_pc9,
}

same_button_eq : (a b : ButtonId) → same_button a b ≡ true → a ≡ b
same_button_eq a b h = ground arith

same_button_refl : (a : ButtonId) → same_button a a ≡ true
same_button_refl a = ground arith

-- The ladder's part of a poll in closed form.
ladder_parts :
    (raw : ℕ) (x : Buttons)
    → let y = poll_ladder raw x in
      let classed = classify_ladder x.candidate raw in
      (y.candidate ≡ classed)
      × (y.count ≡ (
          if same_button classed x.candidate
          then (if ltb x.count 3 then x.count + 1 else x.count)
          else 1))
      × (y.committed ≡ (if leb 3 y.count then classed else x.committed))
      × (y.pending_event ≡ (
          if leb 3 y.count
            && not (same_button x.committed classed)
            && not (same_button classed none)
          then classed
          else x.pending_event))
      × (y.pc9_committed ≡ x.pc9_committed)
      × (y.pc9_candidate ≡ x.pc9_candidate)
      × (y.pc9_count ≡ x.pc9_count)
unfolding poll_ladder observe_ladder commit_ladder
ladder_parts raw x = ground (
  arith,
  same_button_eq (classify_ladder x.candidate raw) x.candidate,
  same_button_eq x.committed (classify_ladder x.candidate raw),
  same_button_eq x.committed x.candidate,
)

-- The pin's part.
pc9_parts :
    (pressed : Bool) (x : Buttons)
    → let y = poll_pc9 pressed x in
      (y.pc9_candidate ≡ pressed)
      × (y.pc9_count ≡ (
          if same_bool pressed x.pc9_candidate
          then (if ltb x.pc9_count 3 then x.pc9_count + 1 else x.pc9_count)
          else 1))
      × (y.pc9_committed ≡ (if leb 3 y.pc9_count then pressed else x.pc9_committed))
      × (y.pending_event ≡ (
          if leb 3 y.pc9_count && not (same_bool x.pc9_committed pressed) && pressed
          then pc9
          else x.pending_event))
      × (y.committed ≡ x.committed)
      × (y.candidate ≡ x.candidate)
      × (y.count ≡ x.count)
unfolding poll_pc9 observe_pc9 commit_pc9
pc9_parts pressed x = ground arith

-- A poll queues an event exactly for a press: the pin's button if the debounced pin went from
-- released to pressed, otherwise the ladder's button if another button than before is now debounced;
-- without a press the event that was queued stays.
pub poll-press :
    (raw : ℕ) (pressed : Bool) (x : Buttons)
    → let y = buttons_poll raw pressed x in
      y.pending_event ≡ (
        if y.pc9_committed && not x.pc9_committed
        then pc9
        else if not (same_button x.committed y.committed) && not (same_button y.committed none)
        then y.committed
        else x.pending_event)
unfolding buttons_poll
poll-press raw pressed x =
    let t = poll_ladder raw x in
    ground (arith, ladder_parts raw x, pc9_parts pressed t, same_button_refl x.committed)

-- One poll with the ladder in the band of a button.
poll_band :
    (b : ButtonId) (raw : ℕ) (pressed : Bool) (x : Buttons)
    → ((held : ButtonId) → classify_ladder held raw ≡ b)
    → let y = buttons_poll raw pressed x in
      (y.candidate ≡ b)
      × (y.count ≡ (
          if same_button b x.candidate
          then (if ltb x.count 3 then x.count + 1 else x.count)
          else 1))
      × (y.committed ≡ (if leb 3 y.count then b else x.committed))
unfolding buttons_poll
poll_band b raw pressed x h =
    let t = poll_ladder raw x in
    ground (arith, ladder_parts raw x, pc9_parts pressed t, h x.candidate)

-- Three polls in a row with the ladder in the band of a button, or of none, debounce that button,
-- from every state and whatever the pin does.
pub poll-commits :
    (b : ButtonId) (r1 r2 r3 : ℕ) (p1 p2 p3 : Bool) (x : Buttons)
    → ((held : ButtonId) → classify_ladder held r1 ≡ b)
    → ((held : ButtonId) → classify_ladder held r2 ≡ b)
    → ((held : ButtonId) → classify_ladder held r3 ≡ b)
    → (buttons_poll r3 p3 (buttons_poll r2 p2 (buttons_poll r1 p1 x))).committed ≡ b
poll-commits b r1 r2 r3 p1 p2 p3 x h1 h2 h3 =
    let x1 = buttons_poll r1 p1 x in
    let x2 = buttons_poll r2 p2 x1 in
    let q1 = poll_band b r1 p1 x h1 in
    let q2 = poll_band b r2 p2 x1 h2 in
    let q3 = poll_band b r3 p3 x2 h3 in ground (arith, q1, q2, q3, same_button_refl b)
