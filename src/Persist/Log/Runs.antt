-- ===== src/Persist/Log/Runs.antt =====
-- Several appends to the logs of src/persist/event_log.c and src/persist/session_log.c.
use open_evcharger.Prelude.{ℕ, ◌≡◌, refl, sym, List, [], ◌∷◌, length, take}
use mathlib.Core.Path.{subst}
use open_evcharger.Persist.Flash.{Flash, Chip}
use open_evcharger.Persist.Log.{LogLayout, Log, AppendResult, appended, stamp_record, log_append}
use open_evcharger.Persist.Log.Append.{IsAligned}
use open_evcharger.Persist.Log.Ready.{IsReady, after, next, append-done, append-IsReady}
use open_evcharger.Persist.Log.History.{capacity, Holds, append-Holds}

module _ (L : LogLayout) {M : Type 0} (F : Flash M) where
  -- The appends one after the other.
  unfoldable pub append_all : Log → M → List (List ℕ) → Log × M
  append_all g m [] = (g, m)
  append_all g m (rec ∷ recs) = let r = log_append L F g m rec in append_all r.1 r.2 recs

  -- Each append, of a record of 32 bytes, returns 0.
  unfoldable pub AllAppended : Log → M → List (List ℕ) → Type 0
  AllAppended g m [] = Unit {0}
  AllAppended g m (rec ∷ recs) =
      let r = log_append L F g m rec in
      (length rec ≡ 32) × ((r.0 ≡ appended) × AllAppended r.1 r.2 recs)

  -- The last records, the newest first: at most all but those of one sector.
  unfoldable pub remember : ℕ → List (List ℕ) → List (List ℕ) → List (List ℕ)
  remember boot hist [] = hist
  remember boot hist (rec ∷ recs) =
      remember boot (take (capacity L F) (stamp_record L boot rec ∷ hist)) recs

  -- The log is ready for the next append and holds `hist`.
  pub record IsLog (g : Log) (m : M) (hist : List (List ℕ)) : Type 0 where
    pub ready : IsReady L F g m
    pub holds : Holds L F g m hist

module _ (L : LogLayout) (aligned : IsAligned L) {M : Type 0} (F : Flash M) (chip : Chip F) where
  append-IsLog :
      (g : Log) (m : M) (hist : List (List ℕ)) (rec : List ℕ)
      → IsLog L F g m hist
      → length rec ≡ 32
      → (log_append L F g m rec).0 ≡ appended
      → let r = log_append L F g m rec in
        IsLog L F r.1 r.2 (take (capacity L F) (stamp_record L g.boot_count rec ∷ hist))
        × (r.1.boot_count ≡ g.boot_count)
  append-IsLog g m hist rec log size ok =
      let e = (append-done L aligned F chip g m log.ready rec size ok).2 in
      let kept : IsLog L F
          (record g { head_slot = next L aligned F chip g m log.ready rec size ok })
          (after L aligned F chip g m log.ready rec size ok)
          (take (capacity L F) (stamp_record L g.boot_count rec ∷ hist)) =
        record {
          ready = append-IsReady L aligned F chip g m log.ready rec size ok;
          holds = append-Holds L aligned F chip g m log.ready hist log.holds rec size ok;
        } in
      subst
        (λ (r : AppendResult × Log × M).
          IsLog L F r.1 r.2 (take (capacity L F) (stamp_record L g.boot_count rec ∷ hist))
          × (r.1.boot_count ≡ g.boot_count))
        (sym e) (kept, refl)

  -- On a chip that keeps its promises, after any appends that each return 0, of records of 32
  -- bytes, to a log that is ready and holds `hist`: the log is ready again, and it holds the
  -- records, stamped, newest first, before those of `hist`, up to the size of the region less a
  -- sector.
  pub append_all-IsLog :
      (recs : List (List ℕ)) (g : Log) (m : M) (hist : List (List ℕ))
      → IsLog L F g m hist
      → AllAppended L F g m recs
      → let r = append_all L F g m recs in IsLog L F r.0 r.1 (remember L F g.boot_count hist recs)
  unfolding append_all AllAppended remember
  append_all-IsLog [] g m hist log all = log
  append_all-IsLog (rec ∷ recs) g m hist log all =
      let r = log_append L F g m rec in
      let one = append-IsLog g m hist rec log all.0 all.1.0 in
      subst
        (λ b.
          IsLog L F (append_all L F r.1 r.2 recs).0 (append_all L F r.1 r.2 recs).1
            (remember L F b (take (capacity L F) (stamp_record L g.boot_count rec ∷ hist)) recs))
        one.1
        (append_all-IsLog recs r.1 r.2
          (take (capacity L F) (stamp_record L g.boot_count rec ∷ hist)) one.0 all.1.1)
