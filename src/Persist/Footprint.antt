-- ===== src/Persist/Footprint.antt =====
-- Which sectors the operations of src/persist/ write: everything else on the chip they leave as it is.
pub mod Stage
use open_evcharger.Prelude.{
  ℕ, zero, suc, ◌+◌, ◌-◌, ◌*◌, ◌/◌, ◌%◌, ◌^◌, ◌≡◌, ◌≢◌, ◌≤◌, ◌<◌, ◌⊎◌, refl, sym, ap, ◌∙◌, List, [],
  ◌∷◌, Bool, true, false, not, if◌then◌else◌, ◌==◌, Bool-cases, inl, inr, length, arith,
}
use mathlib.Core.Path.{subst}
use open_evcharger.Persist.Flash.{Flash, Chip, same_bytes}
use open_evcharger.Persist.Slot.{Store, Layout, pingpong}
use open_evcharger.Persist.Pingpong.{
  StoreResult, Current, stamp, refused_size, current, cur_counter, target_slot, has_slot,
  read_and_validate, retire, rewrite, pingpong_store,
}
use open_evcharger.Persist.Pingpong.Image.{length-stamp}
use open_evcharger.Persist.Pingpong.Laws.{Placed}
use open_evcharger.Persist.Log.{
  LogLayout, Log, total_records, slot_to_addr, stamp_record, make_room, log_append,
}
use open_evcharger.Persist.Log.Append.{
  IsAligned, sector_of, slot_fits, length-stamp_record, room-cases,
}

module _ {M : Type 0} (F : Flash M) where
  -- Outside of the sectors from `lo` to before `hi` the chip `m'` reads as `m`.
  unfoldable pub Keeps : ℕ → ℕ → M → M → Type 0
  Keeps lo hi m m' =
      (b n : ℕ)
      → b % 4096 + n ≤ 4096
      → (b / 4096 < lo) ⊎ (hi ≤ b / 4096)
      → F.read m' b n ≡ F.read m b n

module _ {M : Type 0} (F : Flash M) (lo hi : ℕ) where
  pub Keeps-refl : (m : M) → Keeps F lo hi m m
  unfolding Keeps
  Keeps-refl m b n fits outside = refl

  pub Keeps-trans : (m m1 m2 : M) → Keeps F lo hi m m1 → Keeps F lo hi m1 m2 → Keeps F lo hi m m2
  unfolding Keeps
  Keeps-trans m m1 m2 h k b n fits outside = k b n fits outside ∙ h b n fits outside

module _ {M : Type 0} (F : Flash M) (chip : Chip F) (lo hi : ℕ) (m : M) (a : ℕ)
    (above : lo ≤ a / 4096) (below : a / 4096 < hi) where
  pub erase-Keeps : Keeps F lo hi m (F.erase m a).0
  unfolding Keeps
  erase-Keeps b n fits outside =
      chip.read-erase_apart m a b n
        (λ same. elim outside [
          | inl h ↦ omega (arith, h, same, above)
          | inr h ↦ omega (arith, h, same, below)
        ])
        fits

  pub program-Keeps :
      (bs : List ℕ) → a % 4096 + length bs ≤ 4096 → Keeps F lo hi m (F.program m a bs).0
  unfolding Keeps
  program-Keeps bs inside b n fits outside =
      chip.read-program_apart m a b n bs
        (λ same. elim outside [
          | inl h ↦ omega (arith, h, same, above)
          | inr h ↦ omega (arith, h, same, below)
        ])
        inside fits

-- A store of a two-slot record writes the sectors of its slots.
module _ {M : Type 0} (F : Flash M) (chip : Chip F) (lo hi n : ℕ) where
  retire-Keeps :
      (m : M) (other : ℕ) (cur : Current) (counter : ℕ)
      → lo ≤ other / 4096
      → other / 4096 < hi
      → Keeps F lo hi m (retire F m other cur counter).1
  unfolding retire
  retire-Keeps m other cur counter above below = elim (Bool-cases (has_slot cur)) [
    | inr h ↦ rw h (Keeps-refl F lo hi m)
    | inl h ↦ elim (Bool-cases (F.erase m other).1) [
      | inl k ↦ rw (h, k) (erase-Keeps F chip lo hi m other above below)
      | inr k ↦ rw (h, k) (erase-Keeps F chip lo hi m other above below)
    ]
  ]

  module _ (target other : ℕ) (t_above : lo ≤ target / 4096) (t_below : target / 4096 < hi)
      (o_above : lo ≤ other / 4096) (o_below : other / 4096 < hi) where
    rewrite-Keeps :
        (m : M) (r : List ℕ) (cur : Current) (counter : ℕ)
        → target % 4096 + length r ≤ 4096
        → Keeps F lo hi m (rewrite F m n r target other cur counter).1
    unfolding rewrite
    rewrite-Keeps m r cur counter fits =
        let e = F.erase m target in
        let p = F.program e.0 target r in
        let erased : Keeps F lo hi m e.0 = erase-Keeps F chip lo hi m target t_above t_below in
        let written : Keeps F lo hi m p.0 =
          Keeps-trans F lo hi m e.0 p.0 erased
            (program-Keeps F chip lo hi e.0 target t_above t_below r fits) in
        elim (Bool-cases e.1) [
          | inr h ↦ rw h erased
          | inl h ↦ elim (Bool-cases p.1) [
            | inr k ↦ rw (h, k) written
            | inl k ↦ elim (Bool-cases (same_bytes (F.read p.0 target n) r)) [
              | inr q ↦ rw (h, k, q) written
              | inl q ↦
                  rw (h, k, q)
                    (Keeps-trans F lo hi m p.0 (retire F p.0 other cur counter).1 written
                      (retire-Keeps p.0 other cur counter o_above o_below))
            ]
          ]
        ]

module _ {M R : Type 0} (F : Flash M) (chip : Chip F) (lo hi addr_a addr_b : ℕ) (L : Layout R)
    (placed : Placed addr_a addr_b L.size) (a_above : lo ≤ addr_a / 4096)
    (a_below : addr_a / 4096 < hi) (b_above : lo ≤ addr_b / 4096)
    (b_below : addr_b / 4096 < hi) where
  pub pingpong-Keeps :
      (m : M) (r : R)
      → length (L.encode r) ≡ L.size
      → Keeps F lo hi m ((pingpong F addr_a addr_b L).store m r).1
  unfolding pingpong_store
  pingpong-Keeps m r sized =
      let cur =
        current (read_and_validate F m addr_a L.size) (read_and_validate F m addr_b L.size) in
      let counter = (cur_counter cur + 1) % 2 ^ 32 in
      let s = stamp L.size (L.encode r) counter in
      let len : length s ≡ L.size = length-stamp L.size (L.encode r) counter sized placed.large in
      elim (Bool-cases (refused_size L.size)) [
        | inl h ↦ rw h (Keeps-refl F lo hi m)
        | inr h ↦ elim (Bool-cases (target_slot cur == 0)) [
          | inl k ↦
              rw (h, k)
                (rewrite-Keeps F chip lo hi L.size addr_a addr_b a_above a_below b_above b_below m s
                  cur counter (omega (arith, len, placed.fits_a)))
          | inr k ↦
              rw (h, k)
                (rewrite-Keeps F chip lo hi L.size addr_b addr_a b_above b_below a_above a_below m s
                  cur counter (omega (arith, len, placed.fits_b)))
        ]
      ]

-- An append writes the region of its log.
module _ {M : Type 0} (F : Flash M) (chip : Chip F) (L : LogLayout) (aligned : IsAligned L)
    (g : Log) (m : M) (within : g.head_slot < total_records L) where
  abbrev pub first : ℕ
  first = L.base / 4096

  abbrev pub behind : ℕ
  behind = L.base / 4096 + L.sectors

  abbrev pub addr : ℕ
  addr = slot_to_addr L g.head_slot

  above : first ≤ addr / 4096
  above = omega (arith, sector_of L aligned F chip g.head_slot)

  below : addr / 4096 < behind
  below = omega (arith, sector_of L aligned F chip g.head_slot, within)

  room-Keeps : Keeps F first behind m (make_room L F g.head_slot m).1
  room-Keeps = elim (room-cases L aligned F chip m g.head_slot) [
    | inl (inside, e) ↦ rw e (Keeps-refl F first behind m)
    | inr (inl (start, clear, e)) ↦ rw e (Keeps-refl F first behind m)
    | inr (inr (start, e)) ↦ rw e (erase-Keeps F chip first behind m addr above below)
  ]

  pub log_append-Keeps :
      (rec : List ℕ) → length rec ≡ 32 → Keeps F first behind m (log_append L F g m rec).2
  unfolding log_append
  log_append-Keeps rec size =
      let room = make_room L F g.head_slot m in
      let w = stamp_record L g.boot_count rec in
      let p = F.program room.1 addr w in
      let written : Keeps F first behind m p.0 =
        Keeps-trans F first behind m room.1 p.0 room-Keeps (
          program-Keeps F chip first behind room.1 addr above below w (
            omega (
              arith,
              slot_fits L aligned F chip g.head_slot,
              length-stamp_record L aligned g.boot_count rec size,
            ))) in
      elim (Bool-cases g.initialized) [
        | inr h ↦ rw h (Keeps-refl F first behind m)
        | inl h ↦ elim (Bool-cases room.0) [
          | inr k ↦ rw (h, k) room-Keeps
          | inl k ↦ elim (Bool-cases p.1) [
            | inr q ↦ rw (h, k, q) written
            | inl q ↦ rw (h, k, q) written
          ]
        ]
      ]
