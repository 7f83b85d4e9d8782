-- ===== src/Core/J1772.antt =====
-- src/core/j1772.h and src/core/j1772.c: the pilot-voltage classifier and its debounce.
pub mod Debounce
use open_evcharger.Prelude.{ℕ, ◌+◌, Bool, true, false, not, ◌&&◌, if◌then◌else◌, ltb, leb}
use open_evcharger.Prelude.Int.{ℤ, pos, negsuc, geb}

-- `j1772_state_t`
pub data J1772State : Type 0 where
  invalid a b c d e f : J1772State

-- The C test `x == y` on two states, by their numbers.
abbrev pub number : J1772State → ℕ
number invalid = 0
number a = 1
number b = 2
number c = 3
number d = 4
number e = 5
number f = 6

abbrev pub same : J1772State → J1772State → Bool
same invalid invalid = true
same a a = true
same b b = true
same c c = true
same d d = true
same e e = true
same f f = true
same _ _ = false

-- `j1772_ctx_t`
pub record J1772Ctx : Type 0 where
  pub committed : J1772State
  pub candidate : J1772State
  pub streak : ℕ  -- uint8_t

-- The argument is in millivolts.
unfoldable pub classify_strict : ℤ → J1772State
classify_strict cp_mv =
    if geb cp_mv (pos 10500)
    then a
    else if geb cp_mv (pos 7500)
    then b
    else if geb cp_mv (pos 4500)
    then c
    else if geb cp_mv (pos 1500)
    then d
    else if geb cp_mv (negsuc 1499)
    then e
    else f

unfoldable pub init : J1772Ctx
init = record { committed = invalid; candidate = invalid; streak = 0 }

-- `++c->streak` runs only below 0xFF, so the byte does not wrap.
observe : J1772Ctx → J1772State → J1772Ctx
observe x s =
    if same s x.candidate
    then record x { streak = if ltb x.streak 255 then x.streak + 1 else x.streak }
    else record x { candidate = s; streak = 1 }

commit : J1772Ctx → ℕ → J1772Ctx
commit x debounce_n =
    if leb debounce_n x.streak && not (same x.committed x.candidate)
    then record x { committed = x.candidate }
    else x

-- The state that the C function returns is the `committed` field of the result.
unfoldable pub step : J1772Ctx → ℤ → ℕ → J1772Ctx
unfolding observe commit
step x cp_mv debounce_n = commit (observe x (classify_strict cp_mv)) debounce_n
