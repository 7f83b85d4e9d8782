-- ===== src/Persist/Pingpong.antt =====
-- The two-slot records of src/persist/pingpong.c.
pub mod Image
pub mod Atomic
mod Choice
pub mod Laws
use open_evcharger.Prelude.{
  ℕ, zero, suc, ◌+◌, ◌-◌, ◌%◌, ◌^◌, ◌≡◌, ◌≤◌, ◌<◌, refl, List, [], ◌∷◌, Bool, true, false, ◌&&◌,
  ◌||◌, Option, none, some, if◌then◌else◌, ◌==◌, ltb, leb, not, arith, length, take,
}
use open_evcharger.Persist.Bytes.{le32_load, le32_store}
use open_evcharger.Persist.Crc.{crc32}
use open_evcharger.Persist.Flash.{Flash, same_bytes}

-- The part of `read_and_validate` behind the read: the counter of an image whose checksum is right.
unfoldable pub validate : ℕ → List ℕ → Option ℕ
validate n p = if le32_load p (n - 4) == crc32 (take (n - 4) p) then some (le32_load p 4) else none

-- The slot in force, with its counter (`cur_slot`, `cur_counter`).
pub data Current : Type 0 where
  no_slot : Current
  slot_a : ℕ → Current
  slot_b : ℕ → Current

-- The test on `va`, `vb` and the two counters.
unfoldable pub current : Option ℕ → Option ℕ → Current
current none none = no_slot
current none (some cnt_b) = slot_b cnt_b
current (some cnt_a) none = slot_a cnt_a
current (some cnt_a) (some cnt_b) = if leb cnt_b cnt_a then slot_a cnt_a else slot_b cnt_b

-- The counter and the checksum written into the caller's buffer.
unfoldable pub stamp : ℕ → List ℕ → ℕ → List ℕ
stamp n r counter =
    let r4 = le32_store r 4 counter in le32_store r4 (n - 4) (crc32 (take (n - 4) r4))

unfoldable pub refused_size : ℕ → Bool
refused_size n = ltb n 12 || ltb 256 n

-- What `pingpong_load` returns: 0 with the record, the slot and the counter; 1; or -1.
pub data LoadResult : Type 0 where
  loaded : List ℕ → ℕ → ℕ → LoadResult
  no_record : LoadResult
  load_refused : LoadResult

-- What `pingpong_store` returns: 0 with the slot and the counter, or the code without its sign.
pub data StoreResult : Type 0 where
  stored : ℕ → ℕ → StoreResult
  store_failed : ℕ → StoreResult

unfoldable pub pick : List ℕ → List ℕ → Current → LoadResult
pick p_a p_b no_slot = no_record
pick p_a p_b (slot_a cnt) = loaded p_a 0 cnt
pick p_a p_b (slot_b cnt) = loaded p_b 1 cnt

-- The counter of the slot in force; 0 if there is none.
unfoldable pub cur_counter : Current → ℕ
cur_counter no_slot = 0
cur_counter (slot_a cnt) = cnt
cur_counter (slot_b cnt) = cnt

-- The slot to write: the other one, or A if none is in force.
unfoldable pub target_slot : Current → ℕ
target_slot no_slot = 0
target_slot (slot_a cnt) = 1
target_slot (slot_b cnt) = 0

unfoldable pub has_slot : Current → Bool
has_slot no_slot = false
has_slot _ = true

module _ {M : Type 0} (F : Flash M) where
  unfoldable pub read_and_validate : M → ℕ → ℕ → Option ℕ
  read_and_validate m addr n = validate n (F.read m addr n)

  -- The last step: the slot that was in force is erased.
  unfoldable pub retire : M → ℕ → Current → ℕ → StoreResult × M
  retire m other_addr cur counter =
      let done = stored (target_slot cur) counter in
      if has_slot cur
      then (let e = F.erase m other_addr in if e.1 then (done, e.0) else (store_failed 6, e.0))
      else (done, m)

  -- From the erase of the target slot on: `r` is the stamped record.
  unfoldable pub rewrite : M → ℕ → List ℕ → ℕ → ℕ → Current → ℕ → StoreResult × M
  rewrite m n r target_addr other_addr cur counter =
      let e = F.erase m target_addr in
      let p = F.program e.0 target_addr r in
      if not e.1
      then (store_failed 2, e.0)
      else if not p.1
      then (store_failed 3, p.0)
      else if not (same_bytes (F.read p.0 target_addr n) r)
      then (store_failed 5, p.0)
      else retire p.0 other_addr cur counter

module _ {M : Type 0} (F : Flash M) (addr_a addr_b : ℕ) where
  unfoldable pub pingpong_load : M → ℕ → LoadResult
  pingpong_load m n =
      if refused_size n
      then load_refused
      else pick (F.read m addr_a n) (F.read m addr_b n)
          (current (read_and_validate F m addr_a n) (read_and_validate F m addr_b n))

  unfoldable pub pingpong_store : M → List ℕ → ℕ → StoreResult × M
  pingpong_store m buffer n =
      let cur = current (read_and_validate F m addr_a n) (read_and_validate F m addr_b n) in
      let counter = (cur_counter cur + 1) % 2 ^ 32 in
      let r = stamp n buffer counter in
      if refused_size n
      then (store_failed 1, m)
      else if target_slot cur == 0
      then rewrite F m n r addr_a addr_b cur counter
      else rewrite F m n r addr_b addr_a cur counter
