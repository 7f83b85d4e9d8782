-- ===== src/Persist/Pingpong/Choice.antt =====
-- The choice between the two slots of src/persist/pingpong.c, before and behind a store.
use open_evcharger.Prelude.{ℕ, ◌+◌, ◌≡◌, ◌≢◌, refl, List, false, Option, none, some, arith}
use open_evcharger.Persist.Pingpong.{
  stamp, current, pick, Current, LoadResult, StoreResult, has_slot, stored, loaded, no_record,
  store_failed, target_slot, cur_counter, no_slot, slot_a, slot_b,
}

-- The choice between the slots, on the two results of `read_and_validate`.
pub one_of : (cur : Current) → target_slot cur ≢ 0 → target_slot cur ≡ 1
unfolding target_slot
one_of no_slot h = absurd (h refl)
one_of (slot_a k) h = refl
one_of (slot_b k) h = absurd (h refl)

pub no_b : (v_a v_b : Option ℕ) → has_slot (current v_a v_b) ≡ false → v_b ≡ none
unfolding has_slot current
no_b none none h = refl
no_b none (some b) h = ground arith
no_b (some a) none h = ground arith
no_b (some a) (some b) h = ground arith

pub no_a : (v_a v_b : Option ℕ) → has_slot (current v_a v_b) ≡ false → v_a ≡ none
unfolding has_slot current
no_a none none h = refl
no_a none (some b) h = refl
no_a (some a) none h = ground arith
no_a (some a) (some b) h = ground arith

-- What a load gives behind a store that reports this.
unfoldable pub reread : ℕ → List ℕ → StoreResult → LoadResult
reread n buffer (stored slot k) = loaded (stamp n buffer k) slot k
reread n buffer (store_failed code) = no_record

pub only_a : (r q : List ℕ) (c : ℕ) → pick r q (current (some c) none) ≡ loaded r 0 c
unfolding pick current
only_a r q c = refl

pub only_b : (r q : List ℕ) (c : ℕ) → pick q r (current none (some c)) ≡ loaded r 1 c
unfolding pick current
only_b r q c = refl

module _ (p_a p_b r : List ℕ) (v_a v_b : Option ℕ) (c : ℕ) where
  pub keep_b :
      target_slot (current v_a v_b) ≡ 0
      → (q : List ℕ) → pick q p_b (current none v_b) ≡ pick p_a p_b (current v_a v_b)
  unfolding target_slot current pick
  keep_b h q = elim v_a [
    | none ↦ elim v_b [ none ↦ ground arith | some b ↦ ground arith ]
    | some a ↦ elim v_b [ none ↦ ground arith | some b ↦ ground arith ]
  ]

  pub keep_a :
      target_slot (current v_a v_b) ≢ 0
      → (q : List ℕ) → pick p_a q (current v_a none) ≡ pick p_a p_b (current v_a v_b)
  unfolding target_slot current pick
  keep_a h q = elim v_a [
    | none ↦ elim v_b [ none ↦ ground arith | some b ↦ ground arith ]
    | some a ↦ elim v_b [ none ↦ ground arith | some b ↦ ground arith ]
  ]

  pub take_a :
      target_slot (current v_a v_b) ≡ 0
      → cur_counter (current v_a v_b) + 1 ≡ c
      → pick r p_b (current (some c) v_b) ≡ loaded r 0 c
  unfolding target_slot current pick cur_counter
  take_a h e = elim v_a [
    | none ↦ elim v_b [ none ↦ ground arith | some b ↦ ground arith ]
    | some a ↦ elim v_b [ none ↦ ground arith | some b ↦ ground arith ]
  ]

  pub take_b :
      target_slot (current v_a v_b) ≢ 0
      → cur_counter (current v_a v_b) + 1 ≡ c
      → pick p_a r (current v_a (some c)) ≡ loaded r 1 c
  unfolding target_slot current pick cur_counter
  take_b h e = elim v_a [
    | none ↦ elim v_b [ none ↦ ground arith | some b ↦ ground arith ]
    | some a ↦ elim v_b [ none ↦ ground arith | some b ↦ ground arith ]
  ]
