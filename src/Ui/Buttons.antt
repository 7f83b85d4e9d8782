-- ===== src/Ui/Buttons.antt =====
-- src/ui/buttons.c: the buttons on a resistor ladder and the one on a pin, with their debounce.
pub mod Debounce
use open_evcharger.Prelude.{ℕ, ◌+◌, Bool, true, false, not, ◌&&◌, if◌then◌else◌, ltb, leb}

-- `button_id_t`
pub data ButtonId : Type 0 where
  none top mid bot pc9 : ButtonId

-- The C test `x == y` on two buttons.
abbrev pub same_button : ButtonId → ButtonId → Bool
same_button none none = true
same_button top top = true
same_button mid mid = true
same_button bot bot = true
same_button pc9 pc9 = true
same_button _ _ = false

abbrev pub same_bool : Bool → Bool → Bool
same_bool true b = b
same_bool false b = not b

abbrev pub debounce_n : ℕ
debounce_n = 3

-- The file's static variables.
pub record Buttons : Type 0 where
  pub committed : ButtonId
  pub candidate : ButtonId
  pub count : ℕ  -- unsigned
  pub pc9_committed : Bool
  pub pc9_candidate : Bool
  pub pc9_count : ℕ  -- unsigned
  pub pending_event : ButtonId

-- Between the bands the last candidate is kept.
unfoldable pub classify_ladder : ButtonId → ℕ → ButtonId
classify_ladder candidate raw =
    if leb raw 400
    then bot
    else if leb 800 raw && leb raw 1700
    then mid
    else if leb 1900 raw && leb raw 2800
    then top
    else if leb 3500 raw
    then none
    else candidate

-- `buttons_init` leaves the pending event.
unfoldable pub buttons_init : Buttons → Buttons
buttons_init x = record x {
  committed = none;
  candidate = none;
  count = 0;
  pc9_committed = false;
  pc9_candidate = false;
  pc9_count = 0;
}

-- The count of the same readings in a row.
unfoldable pub observe_ladder : ButtonId → Buttons → Buttons
observe_ladder classed x =
    if same_button classed x.candidate
    then record x { count = if ltb x.count debounce_n then x.count + 1 else x.count }
    else record x { candidate = classed; count = 1 }

unfoldable pub commit_ladder : Buttons → Buttons
commit_ladder x =
    if leb debounce_n x.count && not (same_button x.committed x.candidate)
    then record x {
      committed = x.candidate;
      pending_event = if same_button x.candidate none then x.pending_event else x.candidate;
    }
    else x

unfoldable pub poll_ladder : ℕ → Buttons → Buttons
unfolding observe_ladder commit_ladder
poll_ladder raw x = commit_ladder (observe_ladder (classify_ladder x.candidate raw) x)

unfoldable pub observe_pc9 : Bool → Buttons → Buttons
observe_pc9 pressed x =
    if same_bool pressed x.pc9_candidate
    then record x {
      pc9_count = if ltb x.pc9_count debounce_n then x.pc9_count + 1 else x.pc9_count;
    }
    else record x { pc9_candidate = pressed; pc9_count = 1 }

unfoldable pub commit_pc9 : Buttons → Buttons
commit_pc9 x =
    if leb debounce_n x.pc9_count && not (same_bool x.pc9_committed x.pc9_candidate)
    then record x {
      pc9_committed = x.pc9_candidate;
      pending_event = if x.pc9_candidate then pc9 else x.pending_event;
    }
    else x

unfoldable pub poll_pc9 : Bool → Buttons → Buttons
unfolding observe_pc9 commit_pc9
poll_pc9 pressed x = commit_pc9 (observe_pc9 pressed x)

-- `buttons_poll`, on the ladder's reading and the level of the pin turned into "pressed".
unfoldable pub buttons_poll : ℕ → Bool → Buttons → Buttons
unfolding poll_ladder poll_pc9
buttons_poll raw pressed x = poll_pc9 pressed (poll_ladder raw x)

unfoldable pub buttons_consume_event : Buttons → Buttons × ButtonId
buttons_consume_event x = (record x { pending_event = none }, x.pending_event)
