-- ===== src/Persist/CrashState/Streak.antt =====
-- Runs of the crash-loop counter of src/persist/crash_state.c over boots and alive marks.
use open_evcharger.Prelude.{
  ℕ, ◌+◌, ◌≡◌, refl, ap, ◌∙◌, List, [], ◌∷◌, true, false, none, min, leb, if◌then◌else◌, arith,
  Bool-cases, inl, inr, ◌==◌, not, ◌&&◌,
}
use open_evcharger.Persist.Slot.{Store, Durable}
use open_evcharger.Persist.CrashState.{
  CrashRecord, CrashState, ResetCause, Event, boot, alive, was_crash, bump, crash_load,
  crash_state_boot_increment, crash_state_reset_alive, handle, run,
}
use open_evcharger.Persist.CrashState.Image.{CrashFits}

-- The crashes in a row that the events leave, from `n` on.
unfoldable pub streak : List Event → ℕ → ℕ
streak [] n = n
streak (boot cause ∷ es) n = streak es (if was_crash cause then n + 1 else 0)
streak (alive ∷ es) n = streak es 0

-- The state, the flash and the count of crashes in a row agree.
pub record Agree {M : Type 0} (S : Store M CrashRecord) (st : CrashState) (m : M) (n : ℕ)
    : Type 0 where
  pub kept : (crash_load S m).fast_restart_count ≡ st.cs.fast_restart_count
  pub counted : st.cs.fast_restart_count ≡ min 0xFF n
  pub judged : st.safe_fail ≡ leb 5 n

bump-min :
    (cause : ResetCause) (n : ℕ)
    → bump cause (min 0xFF n) ≡ min 0xFF (if was_crash cause then n + 1 else 0)
unfolding bump
bump-min cause n = ground arith

leb-min : (n : ℕ) → leb 5 (min 0xFF n) ≡ leb 5 n
leb-min n = ground arith

CrashFits-min :
    (n count : ℕ)
    → count ≡ min 0xFF n
    → CrashFits (record { version = 1; fast_restart_count = count })
unfolding CrashFits
CrashFits-min n count e = omega (arith, e)

module _ {M : Type 0} (S : Store M CrashRecord) (durable : Durable S CrashFits)
    (works : (m : M) (r : CrashRecord) → (S.store m r).0 ≡ true) where
  load-store : (m : M) (r : CrashRecord) → CrashFits r → crash_load S (S.store m r).1 ≡ r
  unfolding crash_load
  load-store m r fits = rw (durable.load_store m r fits (works m r), crash_load) refl

  boot-Agree :
      (st : CrashState) (m : M) (n : ℕ) (cause : ResetCause)
      → Agree S st m n
      → Agree S
          (handle S (boot cause) st m).1
          (handle S (boot cause) st m).2
          (if was_crash cause then n + 1 else 0)
  unfolding handle crash_state_boot_increment
  boot-Agree st m n cause agree =
      let count = bump cause ((crash_load S m).fast_restart_count) in
      let next : CrashRecord = record { version = 1; fast_restart_count = count } in
      let counts : count ≡ min 0xFF (if was_crash cause then n + 1 else 0) =
        ap (bump cause) (agree.kept ∙ agree.counted) ∙ bump-min cause n in
      record {
        kept = ap (λ r. r.fast_restart_count) (load-store m next (CrashFits-min _ _ counts));
        counted = counts;
        judged = ap (leb 5) counts ∙ leb-min (if was_crash cause then n + 1 else 0);
      }

  alive-Agree :
      (st : CrashState) (m : M) (n : ℕ)
      → Agree S st m n
      → Agree S (handle S alive st m).1 (handle S alive st m).2 0
  unfolding handle crash_state_reset_alive
  alive-Agree st m n agree =
      let cs : CrashRecord = record { version = 1; fast_restart_count = 0 } in
      elim (Bool-cases (st.cs.fast_restart_count == 0 && not st.safe_fail)) [
        | inl quiet ↦ rw quiet (record {
          kept = agree.kept;
          counted = ground (arith, quiet);
          judged = ground (arith, quiet);
        })
        | inr busy ↦
            rw (busy, works m cs)
              (record {
                kept =
                    ap (λ r. r.fast_restart_count)
                      (load-store m cs (CrashFits-min 0 0 (omega arith)));
                counted = omega arith;
                judged = refl;
              })
      ]

  pub run-Agree :
      (es : List Event) (st : CrashState) (m : M) (n : ℕ)
      → Agree S st m n
      → Agree S (run S es st m).0 (run S es st m).1 (streak es n)
  unfolding run streak
  run-Agree [] st m n agree = agree
  run-Agree (boot cause ∷ es) st m n agree = run-Agree es _ _ _ (boot-Agree st m n cause agree)
  run-Agree (alive ∷ es) st m n agree = run-Agree es _ _ _ (alive-Agree st m n agree)

  fresh-Agree :
      (m : M)
      → S.load m ≡ none
      → Agree S
          (record { cs = record { version = 0; fast_restart_count = 0 }; safe_fail = false })
          m
          0
  unfolding crash_load
  fresh-Agree m fresh = record {
    kept = rw (fresh, crash_load) refl;
    counted = omega arith;
    judged = refl;
  }

  -- On a store that keeps what it reports as stored and never fails, from an empty one: after any sequence
  -- of boots and alive marks the safe-fail flag is set exactly if the last boots in a row, since the last
  -- deliberate boot or alive mark, were at least 5 crashes, and the stored count is their number, held at
  -- 255.
  pub run-streak :
      (m : M)
      → S.load m ≡ none
      → (es : List Event)
      → let r =
          run S es
            (record { cs = record { version = 0; fast_restart_count = 0 }; safe_fail = false })
            m in
        (r.0.safe_fail ≡ leb 5 (streak es 0))
        × ((crash_load S r.1).fast_restart_count ≡ min 0xFF (streak es 0))
  run-streak m fresh es =
      let agree = run-Agree es _ m 0 (fresh-Agree m fresh) in
      (agree.judged, agree.kept ∙ agree.counted)
