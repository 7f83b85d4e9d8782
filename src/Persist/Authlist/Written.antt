-- ===== src/Persist/Authlist/Written.antt =====
-- The lists that the calls of src/persist/rfid_authlist.c write.
use open_evcharger.Prelude.{
  ℕ, suc, ◌+◌, ◌-◌, ◌^◌, ◌≡◌, ◌≢◌, ◌≤◌, ◌<◌, ap, ◌∙◌, sym, [], ◌∷◌, ◌++◌, false, some,
  if◌then◌else◌, ltb, arith, take, length, length-append, length-take,
}
use mathlib.Core.Path.{subst}
use open_evcharger.Persist.Bytes.{zeros, take-append_le, take-take}
use open_evcharger.Persist.Authlist.{Authlist, mem, find_index, set_at, shift_down, members, tidy}
use open_evcharger.Persist.Authlist.Members.{
  Distinct, remove_at, take-set_at, take-set_at_before, take-shift_down, find_index-lt,
  Distinct-append_one, Distinct-remove_at, Small, Small-append, Small-take, Small-zeros,
  Small-set_at, Small-shift_down, length-set_at, length-shift_down, length-zeros,
}

-- The array has its 28 entries, all of 32 bits, the count is within it, and no card is listed twice.
pub record Wf (l : Authlist) : Type 0 where
  pub sized : length l.uids ≡ 28
  pub bounded : l.count ≤ 28
  pub small : Small l.uids
  pub distinct : Distinct (members l)

length-members : (l : Authlist) → length l.uids ≡ 28 → l.count ≤ 28 → length (members l) ≡ l.count
length-members l sized bounded = omega (arith, length-take l.count l.uids, sized, bounded)

-- What is written has the members of the list.
module _ (l : Authlist) (sized : length l.uids ≡ 28) (bounded : l.count ≤ 28) where
  count-tidy : (tidy l).count ≡ l.count
  unfolding tidy
  count-tidy = ground (arith, bounded)

  take-tidy : (k : ℕ) → k ≤ l.count → take k ((tidy l).uids) ≡ take k l.uids
  unfolding tidy
  take-tidy k h =
      let same : (if ltb 28 l.count then 28 else l.count) ≡ l.count = ground (arith, bounded) in
      rw same (
        take-append_le (take l.count l.uids) (zeros (28 - l.count)) k
          (omega (arith, length-members l sized bounded, h))
        ∙ take-take l.uids l.count k h)

  pub members-tidy : members (tidy l) ≡ members l
  members-tidy = ap (λ k. take k ((tidy l).uids)) count-tidy ∙ take-tidy l.count (omega arith)

  length-tidy : length ((tidy l).uids) ≡ 28
  unfolding tidy
  length-tidy =
      let same : (if ltb 28 l.count then 28 else l.count) ≡ l.count = ground (arith, bounded) in
      rw same (
        omega (
          arith,
          length-append (take l.count l.uids) (zeros (28 - l.count)),
          length-members l sized bounded,
          length-zeros (28 - l.count),
          bounded,
        ))

  Small-tidy : Small l.uids → Small ((tidy l).uids)
  unfolding tidy
  Small-tidy small = Small-append _ _ (Small-take _ l.uids small) (Small-zeros _)

  pub Wf-tidy : Small l.uids → Distinct (members (tidy l)) → Wf (tidy l)
  Wf-tidy small distinct = record {
    sized = length-tidy;
    bounded = omega (arith, count-tidy, bounded);
    small = Small-tidy small;
    distinct = distinct;
  }

abbrev pub added : Authlist → ℕ → Authlist
added l uid = record l { count = l.count + 1; uids = set_at l.count uid l.uids }

-- After a failed store the count goes back.
abbrev pub undone : Authlist → ℕ → Authlist
undone l uid = record (tidy (added l uid)) { count = (tidy (added l uid)).count - 1 }

abbrev pub shrunk : Authlist → ℕ → Authlist
shrunk l found = record l { count = l.count - 1; uids = shift_down found l.count l.uids }

-- The list that an addition and a removal write.
module _ (l : Authlist) (wf : Wf l) (uid : ℕ) (free : l.count < 28) where
  sized_added : length (added l uid).uids ≡ 28
  sized_added = length-set_at l.count uid l.uids ∙ wf.sized

  pub members-added : members (tidy (added l uid)) ≡ members l ++ (uid ∷ [])
  members-added =
      let next : l.count + 1 ≡ suc l.count = omega arith in
      members-tidy (added l uid) sized_added (omega (arith, free))
      ∙ ap (λ k. take k (added l uid).uids) next
      ∙ take-set_at l.count uid l.uids (omega (arith, wf.sized, free))

  count-undone : (tidy (added l uid)).count - 1 ≡ l.count
  count-undone = omega (arith, count-tidy (added l uid) sized_added (omega (arith, free)))

  pub members-undone : members (undone l uid) ≡ members l
  members-undone =
      ap (λ k. take k ((tidy (added l uid)).uids)) count-undone
      ∙ take-tidy (added l uid) sized_added (omega (arith, free)) l.count (omega arith)
      ∙ take-set_at_before l.count uid l.uids

  pub Wf-added : uid ≢ 0 → mem uid (members l) ≡ false → uid < 2 ^ 32 → Wf (tidy (added l uid))
  Wf-added nz fresh small =
      Wf-tidy (added l uid) sized_added (omega (arith, free))
        (Small-set_at l.count uid l.uids small wf.small)
        (subst Distinct (sym members-added)
          (Distinct-append_one uid (members l) nz fresh wf.distinct))

  pub Wf-undone : uid < 2 ^ 32 → Wf (undone l uid)
  Wf-undone small = record {
    sized = length-tidy (added l uid) sized_added (omega (arith, free));
    bounded = omega (arith, count-undone, free);
    small =
        Small-tidy (added l uid) sized_added (omega (arith, free))
          (Small-set_at l.count uid l.uids small wf.small);
    distinct = subst Distinct (sym members-undone) wf.distinct;
  }

module _ (l : Authlist) (wf : Wf l) (uid found : ℕ)
    (there : find_index uid (members l) ≡ some found) where
  inside : found < l.count
  inside =
      omega (arith, find_index-lt uid found (members l) there, length-members l wf.sized wf.bounded)

  pub members-shrunk : members (tidy (shrunk l found)) ≡ remove_at found (members l)
  members-shrunk =
      members-tidy (shrunk l found) (length-shift_down found l.count l.uids ∙ wf.sized)
        (omega (arith, wf.bounded))
      ∙ take-shift_down found l.count l.uids inside (omega (arith, wf.sized, wf.bounded))

  pub Wf-shrunk : Wf (tidy (shrunk l found))
  Wf-shrunk =
      Wf-tidy (shrunk l found) (length-shift_down found l.count l.uids ∙ wf.sized)
        (omega (arith, wf.bounded)) (Small-shift_down found l.count l.uids wf.small)
        (subst Distinct (sym members-shrunk) (Distinct-remove_at found (members l) wf.distinct))
