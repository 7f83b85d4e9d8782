-- ===== src/Persist/Log/Append.antt =====
-- Appending to the logs of src/persist/event_log.c and src/persist/session_log.c.
use open_evcharger.Prelude.{
  ℕ, zero, suc, ◌+◌, ◌-◌, ◌*◌, ◌/◌, ◌%◌, ◌≡◌, ◌≢◌, ◌≤◌, ◌⊎◌, refl, sym, ap, ◌∙◌, List, [], ◌∷◌,
  ◌++◌, true, ◌==◌, ==_iff, Bool-cases, inl, inr, length, take, drop, get_or-append, length-append,
  length-take, length-drop, take-append, arith,
}
use open_evcharger.Persist.Bytes.{splice}
use open_evcharger.Persist.Crc.{crc16_ccitt, crc16-lt}
use open_evcharger.Persist.Flash.{Flash, Chip, blank}
use open_evcharger.Persist.Log.{
  LogLayout, valid_record, slot_to_addr, all_ff, le16, le16_load, classify_record, stamp_record,
  make_room,
}
use open_evcharger.Persist.Log.Startup.{at_slot}
use open_evcharger.Persist.OtaStage.Pages.{blank_parts}

-- The region starts at a sector; the time stands before the boot count, and this before the checksum.
pub record IsAligned (L : LogLayout) : Type 0 where
  pub whole : L.base % 4096 ≡ 0
  pub boot_in : L.boot_at + 2 ≤ 30
  pub ts_before : L.ts_at + 4 ≤ L.boot_at

pub length-splice :
    (p : List ℕ) (i : ℕ) (bs : List ℕ)
    → i + length bs ≤ length p
    → length (splice p i bs) ≡ length p
unfolding splice
length-splice p i bs h = omega (
  arith,
  h,
  length-append (take i p) (bs ++ drop (i + length bs) p),
  length-append bs (drop (i + length bs) p),
  length-take i p,
  length-drop (i + length bs) p,
)

all_ff-blank : (p : List ℕ) → all_ff p ≡ true → p ≡ blank (length p)
unfolding all_ff blank
all_ff-blank [] h = refl
all_ff-blank (x ∷ xs) h =
    let both : ((x == 0xFF) ≡ true) × (all_ff xs ≡ true) = ground (arith, h) in
    ap (λ y. y ∷ xs) ((==_iff x 0xFF).0 both.0) ∙ ap (λ ys. 0xFF ∷ ys) (all_ff-blank xs both.1)

pub blank-all_ff : (n : ℕ) → all_ff (blank n) ≡ true
unfolding all_ff blank
blank-all_ff zero = refl
blank-all_ff (suc n) = blank-all_ff n

take-blank : (p : List ℕ) → p ≡ blank 32 → (take 30 p ≡ blank 30) × (le16_load p 30 ≡ 0xFFFF)
unfolding blank le16_load
take-blank p e = rw e (refl, refl)

crc16-blank : crc16_ccitt (blank 30) ≢ 0xFFFF
unfolding crc16_ccitt blank
crc16-blank = omega arith

-- A record that carries its own checksum is valid: an erased slot does not pass for one.
signed-valid :
    (p : List ℕ)
    → length p ≡ 32
    → le16_load p 30 ≡ crc16_ccitt (take 30 p)
    → classify_record p ≡ valid_record
unfolding classify_record
signed-valid p size signed = elim (Bool-cases (all_ff p)) [
  | inl h ↦
      let is_blank : p ≡ blank 32 = all_ff-blank p h ∙ ap blank size in
      let parts = take-blank p is_blank in
      absurd (crc16-blank (ap crc16_ccitt (sym parts.0) ∙ sym signed ∙ parts.1))
  | inr h ↦
      let t : (le16_load p 30 == crc16_ccitt (take 30 p)) ≡ true = (==_iff _ _).1 signed in
      rw (h, t) refl
]

module _ (L : LogLayout) (aligned : IsAligned L) where
  pub length-stamp_record :
      (boot : ℕ) (rec : List ℕ) → length rec ≡ 32 → length (stamp_record L boot rec) ≡ 32
  unfolding stamp_record le16
  length-stamp_record boot rec size =
      let r = splice rec L.boot_at (le16 boot) in
      let first : length r ≡ 32 =
        length-splice rec L.boot_at (le16 boot) (omega (arith, size, aligned.boot_in)) ∙ size in
      length-splice r 30 (le16 (crc16_ccitt (take 30 r))) (omega (arith, first)) ∙ first

  -- The record as it is stamped is valid.
  pub stamp_record-valid :
      (boot : ℕ) (rec : List ℕ)
      → length rec ≡ 32
      → classify_record (stamp_record L boot rec) ≡ valid_record
  unfolding stamp_record le16 splice le16_load
  stamp_record-valid boot rec size =
      let r = splice rec L.boot_at (le16 boot) in
      let first : length r ≡ 32 =
        length-splice rec L.boot_at (le16 boot) (omega (arith, size, aligned.boot_in)) ∙ size in
      let front = take 30 r in
      let c = crc16_ccitt front in
      let len : length front ≡ 30 = omega (arith, length-take 30 r, first) in
      let out : List ℕ = front ++ ((c % 256 ∷ c / 256 % 256 ∷ []) ++ drop (30 + 2) r) in
      let lo =
        get_or-append front ((c % 256 ∷ c / 256 % 256 ∷ []) ++ drop (30 + 2) r) 0 30 0
          (omega (arith, len)) in
      let hi =
        get_or-append front ((c % 256 ∷ c / 256 % 256 ∷ []) ++ drop (30 + 2) r) 1 31 0
          (omega (arith, len)) in
      let same : take 30 out ≡ front = ap (λ n. take n out) (sym len) ∙ take-append front _ in
      signed-valid (stamp_record L boot rec) (length-stamp_record boot rec size)
        (rw same (omega (arith, lo, hi, crc16-lt front)))

module _ (L : LogLayout) {M : Type 0} (F : Flash M) where
  -- From `slot` on the rest of its sector is erased.
  abbrev pub IsClear : M → ℕ → Type 0
  IsClear m slot = (j : ℕ) → slot ≤ j → j / 128 ≡ slot / 128 → at_slot L F m j ≡ blank 32

module _ (L : LogLayout) (aligned : IsAligned L) {M : Type 0} (F : Flash M) (chip : Chip F) where
  pub sector_of : (j : ℕ) → slot_to_addr L j / 4096 ≡ L.base / 4096 + j / 128
  sector_of j = omega (arith, aligned.whole)

  pub slot_fits : (j : ℕ) → slot_to_addr L j % 4096 + 32 ≤ 4096
  slot_fits j = omega (arith, aligned.whole)

  pub slot_in_page : (j : ℕ) → slot_to_addr L j % 256 + 32 ≤ 256
  slot_in_page j = omega (arith, aligned.whole)

  pub erased-IsClear :
      (m : M) (slot : ℕ)
      → slot % 128 ≡ 0
      → (F.erase m (slot_to_addr L slot)).1 ≡ true
      → IsClear L F (F.erase m (slot_to_addr L slot)).0 slot
  erased-IsClear m slot first good j lo same =
      let a = slot_to_addr L slot in
      let m1 = (F.erase m a).0 in
      let d = j - slot in
      let room : (j - slot) * 32 + 32 ≤ 4096 = omega (arith, first, lo, same) in
      let whole : F.read m1 a (d * 32 + (4096 - d * 32)) ≡ blank (d * 32 + (4096 - d * 32)) =
        let size : d * 32 + (4096 - d * 32) ≡ 4096 = omega (arith, room) in
        rw size (chip.read-erase m a 4096 good (omega (arith, first, aligned.whole))) in
      let back = (blank_parts F chip m1 a (d * 32) (4096 - d * 32) whole).1 in
      let cut : F.read m1 (a + d * 32) (32 + (4064 - d * 32)) ≡ blank (32 + (4064 - d * 32)) =
        let size : 32 + (4064 - d * 32) ≡ 4096 - d * 32 = omega (arith, room) in rw size back in
      let there : slot_to_addr L j ≡ a + d * 32 = omega (arith, lo) in
      ap (λ x. F.read m1 x 32) there ∙ (blank_parts F chip m1 (a + d * 32) 32 (4064 - d * 32) cut).0

  module _ (m : M) (slot : ℕ) where
    -- What making room comes to.
    pub room-cases :
        ((slot % 128 ≢ 0) × (make_room L F slot m ≡ (true, m)))
        ⊎ ((slot % 128 ≡ 0) × (at_slot L F m slot ≡ blank 32) × (make_room L F slot m ≡ (true, m)))
        ⊎ ((slot % 128 ≡ 0)
            × (make_room L F slot m
                ≡ ((F.erase m (slot_to_addr L slot)).1, (F.erase m (slot_to_addr L slot)).0)))
    unfolding make_room
    room-cases = elim (Bool-cases (slot % 128 == 0)) [
      | inr h ↦ inl (ground (arith, h), rw h refl)
      | inl h ↦ elim (Bool-cases (all_ff (at_slot L F m slot))) [
        | inl k ↦ inr (
            inl (
              (==_iff _ _).0 h,
              all_ff-blank (at_slot L F m slot) k
                  ∙ ap blank (chip.length-read m (slot_to_addr L slot) 32),
              rw (h, k) refl,
            ))
        | inr k ↦ inr (inr ((==_iff _ _).0 h, rw (h, k) refl))
      ]
    ]
