-- ===== src/Persist/Slot.antt =====
-- A record kept across power cycles, as its users see it, and the two-slot records of
-- src/persist/pingpong.c as one.
use open_evcharger.Prelude.{
  ℕ, ◌≡◌, refl, ap, ◌∙◌, List, Bool, true, false, Option, none, some, length, arith,
}
use open_evcharger.Persist.Flash.{Flash, Chip}
use open_evcharger.Persist.Pingpong.{
  pingpong_load, pingpong_store, LoadResult, StoreResult, loaded, no_record, load_refused, stored,
  store_failed, stamp,
}
use open_evcharger.Persist.Pingpong.Laws.{Placed, pingpong_load-store}

-- `load` gives the record, or nothing if none is valid; `store` tells whether it returned 0.
pub record Store (M R : Type 0) : Type 0 where
  pub load : M → Option R
  pub store : M → R → Bool × M

-- The promise: a store that returns 0 is what the next load gives.
pub record Durable {M R : Type 0} (S : Store M R) (Fits : R → Type 0) : Type 0 where
  pub load_store :
      (m : M) (r : R) → Fits r → (S.store m r).0 ≡ true → S.load (S.store m r).1 ≡ some r

-- The layout of a record in its `size` bytes. The counter and the checksum are not part of `R`.
pub record Layout (R : Type 0) : Type 0 where
  pub size : ℕ
  pub encode : R → List ℕ
  pub decode : List ℕ → R

pub record Faithful {R : Type 0} (L : Layout R) (Fits : R → Type 0) : Type 0 where
  pub length-encode : (r : R) → Fits r → length (L.encode r) ≡ L.size
  pub decode_stamp :
      (r : R) (counter : ℕ) → Fits r → L.decode (stamp L.size (L.encode r) counter) ≡ r

unfoldable pub decoded : {R : Type 0} → Layout R → LoadResult → Option R
decoded L (loaded p slot counter) = some (L.decode p)
decoded L no_record = none
decoded L load_refused = none

unfoldable pub is_stored : StoreResult → Bool
is_stored (stored slot counter) = true
is_stored (store_failed code) = false

-- `pingpong_load` and `pingpong_store` with the record's addresses and `sizeof`.
abbrev pub pingpong : {M R : Type 0} → Flash M → ℕ → ℕ → Layout R → Store M R
pingpong F addr_a addr_b L = record {
  load = λ m. decoded L (pingpong_load F addr_a addr_b m L.size);
  store =
      λ m r. let s = pingpong_store F addr_a addr_b m (L.encode r) L.size in (is_stored s.0, s.1);
}

module _ {M R : Type 0} (F : Flash M) (chip : Chip F) (addr_a addr_b : ℕ) (L : Layout R)
    (Fits : R → Type 0) (faithful : Faithful L Fits) (placed : Placed addr_a addr_b L.size) where
  reported : (s : StoreResult) → is_stored s ≡ true → (slot : ℕ) × (k : ℕ) × (s ≡ stored slot k)
  unfolding is_stored
  reported (stored slot k) h = (slot, k, refl)
  reported (store_failed code) h = absurd (ground (arith, h))

  pub pingpong-Durable : Durable (pingpong F addr_a addr_b L) Fits
  unfolding decoded
  pingpong-Durable = record {
    load_store = λ m r fits ok.
        let s = pingpong_store F addr_a addr_b m (L.encode r) L.size in
        let found = reported s.0 ok in
        let sized : length (L.encode r) ≡ L.size = faithful.length-encode r fits in
        ap (decoded L) (
          pingpong_load-store F chip addr_a addr_b L.size placed m (L.encode r) sized found.0
            found.1 found.2)
        ∙ ap some (faithful.decode_stamp r found.1 fits);
  }
