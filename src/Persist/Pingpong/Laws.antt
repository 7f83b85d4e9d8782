-- ===== src/Persist/Pingpong/Laws.antt =====
-- Stores and loads of src/persist/pingpong.c: durability and power cuts.
use open_evcharger.Prelude.{
  ℕ, ◌+◌, ◌/◌, ◌%◌, ◌^◌, ◌≡◌, ◌≢◌, ◌≤◌, ◌<◌, ◌⊎◌, inl, inr, refl, sym, ap, ◌∙◌, List, false, ◌==◌,
  Option, none, some, Bool-cases, ==_iff, arith, length,
}
use mathlib.Core.Path.{subst}
use open_evcharger.Persist.Flash.{Flash, Chip}
use open_evcharger.Persist.Pingpong.{
  validate, stamp, current, pick, LoadResult, StoreResult, rewrite, stored, loaded, target_slot,
  cur_counter, pingpong_load, pingpong_store, refused_size, read_and_validate,
}
use open_evcharger.Persist.Pingpong.Image.{validate-stamp, length-stamp}
use open_evcharger.Persist.Pingpong.Atomic.{rewrite-result, Torn, Whole-rewrite, rewrite-stored}
-- The choice between the slots, on the two results of `read_and_validate`.
use open_evcharger.Persist.Pingpong.Choice.{
  one_of, no_b, no_a, reread, only_a, only_b, keep_b, keep_a, take_a, take_b,
}

-- Two slots in different sectors, and a record size that `pingpong_store` accepts.
pub record Placed (addr_a addr_b n : ℕ) : Type 0 where
  pub apart : addr_a / 4096 ≢ addr_b / 4096
  pub fits_a : addr_a % 4096 + n ≤ 4096
  pub fits_b : addr_b % 4096 + n ≤ 4096
  pub large : 12 ≤ n
  pub small : n ≤ 256

module _ {M : Type 0} (F : Flash M) (chip : Chip F) (addr_a addr_b n : ℕ)
    (placed : Placed addr_a addr_b n) (m : M) (buffer : List ℕ) (sized : length buffer ≡ n) where
  open placed use {apart, fits_a, fits_b, large, small}

  accepted : refused_size n ≡ false
  unfolding refused_size
  accepted = ground (arith, large, small)

  abbrev pub v_a : Option ℕ
  v_a = validate n (F.read m addr_a n)

  abbrev pub v_b : Option ℕ
  v_b = validate n (F.read m addr_b n)

  abbrev pub new_counter : ℕ
  new_counter = (cur_counter (current v_a v_b) + 1) % 2 ^ 32

  abbrev pub stamped : List ℕ
  stamped = stamp n buffer new_counter

  valid_stamped : validate n stamped ≡ some new_counter
  valid_stamped = validate-stamp n buffer new_counter sized large (omega arith)

  abbrev pub view : List ℕ → List ℕ → LoadResult
  view p q = pick p q (current (validate n p) (validate n q))

  load-view :
      (x : M) → pingpong_load F addr_a addr_b x n ≡ view (F.read x addr_a n) (F.read x addr_b n)
  unfolding pingpong_load read_and_validate
  load-view x = rw accepted refl

  module _ (first : target_slot (current v_a v_b) ≡ 0) where
    store_first :
        pingpong_store F addr_a addr_b m buffer n
        ≡ rewrite F m n stamped addr_a addr_b (current v_a v_b) new_counter
    unfolding pingpong_store read_and_validate
    store_first = rw (accepted, first) refl

  module _ (second : target_slot (current v_a v_b) ≢ 0) where
    store_second :
        pingpong_store F addr_a addr_b m buffer n
        ≡ rewrite F m n stamped addr_b addr_a (current v_a v_b) new_counter
    unfolding pingpong_store read_and_validate
    store_second =
        let shut : (target_slot (current v_a v_b) == 0) ≡ false = ground (arith, second) in
        rw (accepted, shut) refl

  abbrev pub look : M → LoadResult
  look x = view (F.read x addr_a n) (F.read x addr_b n)

  abbrev pub written : LoadResult
  written = loaded stamped (target_slot (current v_a v_b)) new_counter

  abbrev pub p_a : List ℕ
  p_a = F.read m addr_a n

  abbrev pub p_b : List ℕ
  p_b = F.read m addr_b n

  slot_first : target_slot (current v_a v_b) ≡ 0 → loaded stamped 0 new_counter ≡ written
  slot_first h = ap (λ s. loaded stamped s new_counter) (sym h)

  slot_second : target_slot (current v_a v_b) ≢ 0 → loaded stamped 1 new_counter ≡ written
  slot_second h = ap (λ s. loaded stamped s new_counter) (sym (one_of (current v_a v_b) h))

  -- The record as the only valid one.
  lone_first :
      target_slot (current v_a v_b) ≡ 0
      → (q : List ℕ) → validate n q ≡ none
      → view stamped q ≡ written
  lone_first first q bad =
      ap (λ v. pick stamped q (current v (validate n q))) valid_stamped
      ∙ ap (λ v. pick stamped q (current (some new_counter) v)) bad
      ∙ only_a stamped q new_counter
      ∙ slot_first first

  lone_second :
      target_slot (current v_a v_b) ≢ 0
      → (q : List ℕ) → validate n q ≡ none
      → view q stamped ≡ written
  lone_second second q bad =
      ap (λ v. pick q stamped (current (validate n q) v)) valid_stamped
      ∙ ap (λ v. pick q stamped (current v (some new_counter))) bad
      ∙ only_b stamped q new_counter
      ∙ slot_second second

  -- The chip holds what it held before, or the new record.
  abbrev pub Whole : M → Type 0
  Whole x = (look x ≡ look m) ⊎ (look x ≡ written)

  module _ (torn : Torn F) (room : cur_counter (current v_a v_b) + 1 < 2 ^ 32) where
    next : cur_counter (current v_a v_b) + 1 ≡ new_counter
    next = omega (arith, room)

    length-stamped : length stamped ≡ n
    length-stamped = length-stamp n buffer new_counter sized large

    atomic_first :
        target_slot (current v_a v_b) ≡ 0 → Whole (pingpong_store F addr_a addr_b m buffer n).1
    atomic_first first =
        subst (λ (s : StoreResult × M). Whole s.1) (sym (store_first first))
          (Whole-rewrite F chip addr_a addr_b n apart fits_a fits_b large small view stamped
            length-stamped m (current v_a v_b) new_counter torn written
            (λ p bad.
              ap (λ v. pick p p_b (current v v_b)) bad
              ∙ keep_b p_a p_b stamped v_a v_b new_counter first p)
            (ap (λ v. pick stamped p_b (current v v_b)) valid_stamped
              ∙ take_a p_a p_b stamped v_a v_b new_counter first next
              ∙ slot_first first)
            (λ q bad. lone_first first q bad))

    atomic_second :
        target_slot (current v_a v_b) ≢ 0 → Whole (pingpong_store F addr_a addr_b m buffer n).1
    atomic_second second =
        subst (λ (s : StoreResult × M). Whole s.1) (sym (store_second second))
          (Whole-rewrite F chip addr_b addr_a n (λ e. apart (sym e)) fits_b fits_a large small
            (λ p q. view q p) stamped length-stamped m (current v_a v_b) new_counter torn written
            (λ p bad.
              ap (λ v. pick p_a p (current v_a v)) bad
              ∙ keep_a p_a p_b stamped v_a v_b new_counter second p)
            (ap (λ v. pick p_a stamped (current v_a v)) valid_stamped
              ∙ take_b p_a p_b stamped v_a v_b new_counter second next
              ∙ slot_second second)
            (λ q bad. lone_second second q bad))

    -- For two slots in different sectors of a chip that keeps its promises, a record size of 12 to 256 bytes,
    -- a record of that size, and a chip on which a cut or failed operation leaves the slot as it was, as it
    -- was to become, or with a wrong checksum: whatever operation of pingpong_store fails, pingpong_load
    -- returns afterwards what it returned before, with its slot and counter, or the whole new record. The
    -- counter in force is below 2^32 - 1.
    pub pingpong_store-atomic :
        (pingpong_load F addr_a addr_b (pingpong_store F addr_a addr_b m buffer n).1 n
          ≡ pingpong_load F addr_a addr_b m n)
        ⊎ (pingpong_load F addr_a addr_b (pingpong_store F addr_a addr_b m buffer n).1 n ≡ written)
    pingpong_store-atomic =
        rw (load-view m, load-view (pingpong_store F addr_a addr_b m buffer n).1)
          (elim (Bool-cases (target_slot (current v_a v_b) == 0)) [
            | inl h ↦ atomic_first ((==_iff (target_slot (current v_a v_b)) 0).0 h)
            | inr h ↦ atomic_second (λ e. ground (arith, h, e))
          ])

  stored_first :
      (slot k : ℕ)
      → target_slot (current v_a v_b) ≡ 0
      → (pingpong_store F addr_a addr_b m buffer n).0 ≡ stored slot k
      → (look (pingpong_store F addr_a addr_b m buffer n).1 ≡ written)
        × (stored slot k ≡ stored (target_slot (current v_a v_b)) new_counter)
  stored_first slot k first =
      subst
        (λ (s : StoreResult × M).
          s.0 ≡ stored slot k
          → (look s.1 ≡ written)
            × (stored slot k ≡ stored (target_slot (current v_a v_b)) new_counter))
        (sym (store_first first))
        (λ ok. (
          rewrite-stored F chip addr_a addr_b n apart fits_a fits_b large small view stamped
              (length-stamp n buffer new_counter sized large) m (current v_a v_b) new_counter
              written slot k (no_b v_a v_b) (lone_first first) ok,
          sym ok
              ∙ rewrite-result F m n stamped addr_a addr_b (current v_a v_b) new_counter slot k ok,
        ))

  stored_second :
      (slot k : ℕ)
      → target_slot (current v_a v_b) ≢ 0
      → (pingpong_store F addr_a addr_b m buffer n).0 ≡ stored slot k
      → (look (pingpong_store F addr_a addr_b m buffer n).1 ≡ written)
        × (stored slot k ≡ stored (target_slot (current v_a v_b)) new_counter)
  stored_second slot k second =
      subst
        (λ (s : StoreResult × M).
          s.0 ≡ stored slot k
          → (look s.1 ≡ written)
            × (stored slot k ≡ stored (target_slot (current v_a v_b)) new_counter))
        (sym (store_second second))
        (λ ok. (
          rewrite-stored F chip addr_b addr_a n (λ e. apart (sym e)) fits_b fits_a large small
              (λ p q. view q p) stamped (length-stamp n buffer new_counter sized large) m
              (current v_a v_b) new_counter written slot k (no_a v_a v_b) (lone_second second) ok,
          sym ok
              ∙ rewrite-result F m n stamped addr_b addr_a (current v_a v_b) new_counter slot k ok,
        ))

  -- For two slots in different sectors of a chip that keeps its promises, and a record of 12 to 256 bytes:
  -- if pingpong_store returns 0 with a slot and a counter, the next pingpong_load returns the record stamped
  -- with that counter and its checksum, from that slot; also when the counter wraps.
  pub pingpong_load-store :
      (slot k : ℕ)
      → (pingpong_store F addr_a addr_b m buffer n).0 ≡ stored slot k
      → pingpong_load F addr_a addr_b (pingpong_store F addr_a addr_b m buffer n).1 n
        ≡ loaded (stamp n buffer k) slot k
  unfolding reread
  pingpong_load-store slot k ok =
      let both : (look (pingpong_store F addr_a addr_b m buffer n).1 ≡ written)
          × (stored slot k ≡ stored (target_slot (current v_a v_b)) new_counter) =
        elim (Bool-cases (target_slot (current v_a v_b) == 0)) [
          | inl h ↦ stored_first slot k ((==_iff (target_slot (current v_a v_b)) 0).0 h) ok
          | inr h ↦ stored_second slot k (λ e. ground (arith, h, e)) ok
        ] in
      load-view (pingpong_store F addr_a addr_b m buffer n).1
      ∙ both.0
      ∙ sym (ap (reread n buffer) both.1)
