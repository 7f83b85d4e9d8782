-- ===== src/Persist/Authlist.antt =====
-- The list of authorised cards of src/persist/rfid_authlist.c.
pub mod Members
pub mod Written
pub mod Cases
pub mod Laws
pub mod Durable
pub mod Image
use open_evcharger.Prelude.{
  ℕ, zero, suc, ◌+◌, ◌-◌, ◌*◌, ◌≤◌, List, [], ◌∷◌, ◌++◌, Bool, true, false, ◌||◌, Option, none,
  some, if◌then◌else◌, ◌==◌, ltb, leb, min, get_or, take, drop,
}
use open_evcharger.Persist.Bytes.{zeros, le32, le32_load}
use open_evcharger.Persist.Slot.{Store, Layout}

-- `struct rfid_authlist_record`, without the counter and the checksum. `uids` has 28 entries.
pub record Authlist : Type 0 where
  pub version : ℕ
  pub count : ℕ
  pub uids : List ℕ

-- What the calls return: 1, 0, -1, a code of the failed store, and -3.
pub data Outcome : Type 0 where
  ret_one : Outcome
  ret_zero : Outcome
  ret_full : Outcome
  ret_persist : Outcome
  ret_zero_uid : Outcome

-- The loops over the first entries.
unfoldable pub mem : ℕ → List ℕ → Bool
mem uid [] = false
mem uid (x ∷ xs) = if x == uid then true else mem uid xs

unfoldable pub find_index : ℕ → List ℕ → Option ℕ
find_index uid [] = none
find_index uid (x ∷ xs) =
    let rest = find_index uid xs in
    if x == uid then some 0 else elim rest [ none ↦ none | some i ↦ some (suc i) ]

-- `uids[i] = uid`.
unfoldable pub set_at : ℕ → ℕ → List ℕ → List ℕ
set_at i uid [] = []
set_at zero uid (x ∷ xs) = uid ∷ xs
set_at (suc i) uid (x ∷ xs) = x ∷ set_at i uid xs

-- The entries behind `found` and before `count`, moved down by one.
unfoldable pub shift_down : ℕ → ℕ → List ℕ → List ℕ
shift_down found n [] = []
shift_down zero (suc (suc n)) (x ∷ y ∷ xs) = y ∷ shift_down zero (suc n) (y ∷ xs)
shift_down (suc found) (suc n) (x ∷ xs) = x ∷ shift_down found n xs
shift_down _ _ xs = xs

-- The entries in their little-endian bytes, and back.
unfoldable pub words : List ℕ → List ℕ
words [] = []
words (u ∷ us) = le32 u ++ words us

unfoldable pub loads : List ℕ → ℕ → ℕ → List ℕ
loads p i zero = []
loads p i (suc n) = le32_load p i ∷ loads p (i + 4) n

-- The members: the first `count` entries.
abbrev pub members : Authlist → List ℕ
members l = take l.count l.uids

unfoldable pub rfid_authlist_contains : Authlist → ℕ → Bool
rfid_authlist_contains l uid = if uid == 0 then false else mem uid (members l)

unfoldable pub rfid_authlist_get_nth : Authlist → ℕ → Option ℕ
rfid_authlist_get_nth l idx = if leb l.count idx then none else some (get_or l.uids idx 0)

-- What `store` writes: the count within its bound, the unused entries zero.
unfoldable pub tidy : Authlist → Authlist
tidy l =
    let count = if ltb 28 l.count then 28 else l.count in
    record { version = 1; count = count; uids = take count l.uids ++ zeros (28 - count) }

unfoldable pub authlist_encode : Authlist → List ℕ
authlist_encode l = l.version ∷ (zeros 7 ++ (l.count ∷ (zeros 3 ++ (words l.uids ++ zeros 4))))

abbrev pub authlist_layout : Layout Authlist
authlist_layout = record {
  size = 128;
  encode = authlist_encode;
  decode = λ p. record { version = get_or p 0 0; count = get_or p 8 0; uids = loads p 12 28 };
}

-- The calls that change the list.
pub data Call : Type 0 where
  add : ℕ → Call
  remove : ℕ → Call
  clear : Call

module _ {M : Type 0} (S : Store M Authlist) where
  unfoldable pub authlist_store : Authlist → M → Bool × Authlist × M
  authlist_store l m = let s = S.store m (tidy l) in (s.0, tidy l, s.1)

  unfoldable pub rfid_authlist_load : M → Bool × Authlist × M
  rfid_authlist_load m = elim (S.load m) [
    | none ↦ authlist_store (record { version = 1; count = 0; uids = zeros 28 }) m
    | some l ↦ (true, record l { count = if ltb 28 l.count then 28 else l.count }, m)
  ]

  unfoldable pub rfid_authlist_add : Authlist → M → ℕ → Outcome × Authlist × M
  rfid_authlist_add l m uid =
      let s =
        authlist_store (record l { count = l.count + 1; uids = set_at l.count uid l.uids }) m in
      if uid == 0
      then (ret_zero_uid, l, m)
      else if rfid_authlist_contains l uid
      then (ret_zero, l, m)
      else if leb 28 l.count
      then (ret_full, l, m)
      else if s.0
      then (ret_one, s.1, s.2)
      else (ret_persist, record (s.1) { count = s.1.count - 1 }, s.2)

  -- From the index that the search found.
  unfoldable pub authlist_remove_at : Authlist → M → Option ℕ → Outcome × Authlist × M
  authlist_remove_at l m none = (ret_zero, l, m)
  authlist_remove_at l m (some found) =
      let s =
        authlist_store (record l { count = l.count - 1; uids = shift_down found l.count l.uids })
          m in
      if s.0 then (ret_one, s.1, s.2) else (ret_persist, s.1, s.2)

  unfoldable pub rfid_authlist_remove : Authlist → M → ℕ → Outcome × Authlist × M
  rfid_authlist_remove l m uid =
      if uid == 0 then (ret_zero, l, m) else authlist_remove_at l m (find_index uid (members l))

  unfoldable pub rfid_authlist_clear : Authlist → M → Outcome × Authlist × M
  rfid_authlist_clear l m =
      let s = authlist_store (record l { count = 0 }) m in
      if l.count == 0
      then (ret_zero, l, m)
      else if s.0
      then (ret_zero, s.1, s.2)
      else (ret_persist, s.1, s.2)

  unfoldable pub perform : Call → Authlist → M → Outcome × Authlist × M
  perform (add uid) l m = rfid_authlist_add l m uid
  perform (remove uid) l m = rfid_authlist_remove l m uid
  perform clear l m = rfid_authlist_clear l m
