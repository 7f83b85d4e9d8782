-- ===== src/Persist/Authlist/Image.antt =====
-- `struct rfid_authlist_record` of src/persist/rfid_authlist.h in its 128 bytes.
use open_evcharger.Prelude.{
  ℕ, zero, suc, ◌+◌, ◌*◌, ◌/◌, ◌%◌, ◌^◌, ◌≡◌, ◌≤◌, ◌<◌, refl, sym, ap, ◌∙◌, List, [], ◌∷◌, ◌++◌,
  length, get_or, get_or-append, length-append, append_assoc, arith,
}
use open_evcharger.Persist.Bytes.{zeros, le32, le32_load}
use open_evcharger.Persist.Slot.{Faithful}
use open_evcharger.Persist.Pingpong.{stamp}
use open_evcharger.Persist.Pingpong.Image.{get_or-stamp_front, get_or-stamp, le32_load-stamp}
use open_evcharger.Persist.Authlist.{Authlist, words, loads, authlist_encode, authlist_layout}
use open_evcharger.Persist.Authlist.Members.{Small}
use open_evcharger.Persist.Authlist.Written.{Wf}

length-words : (us : List ℕ) → length (words us) ≡ 4 * length us
unfolding words le32
length-words [] = refl
length-words (u ∷ us) = omega (arith, length-words us)

le32_load-le32 :
    (pre rest : List ℕ) (u : ℕ) → u < 2 ^ 32 → le32_load (pre ++ (le32 u ++ rest)) (length pre) ≡ u
unfolding le32_load le32
le32_load-le32 pre rest u small =
    let bs : List ℕ = u % 256 ∷ u / 256 % 256 ∷ u / 65536 % 256 ∷ u / 16777216 % 256 ∷ [] in
    let at = λ (k : ℕ). get_or-append pre (bs ++ rest) k in
    omega (
      arith,
      small,
      at 0 (length pre) 0 (omega arith),
      at 1 (length pre + 1) 0 (omega arith),
      at 2 (length pre + 2) 0 (omega arith),
      at 3 (length pre + 3) 0 (omega arith),
    )

length-le32_behind : (pre : List ℕ) (u i : ℕ) → i ≡ length pre → i + 4 ≡ length (pre ++ le32 u)
unfolding le32
length-le32_behind pre u i e = omega (arith, e, length-append pre (le32 u))

loads-words :
    (us pre rest : List ℕ) (i : ℕ)
    → i ≡ length pre
    → Small us
    → loads (pre ++ (words us ++ rest)) i (length us) ≡ us
unfolding loads words Small
loads-words [] pre rest i e small = refl
loads-words (u ∷ us) pre rest i e small =
    let flat : pre ++ ((le32 u ++ words us) ++ rest) ≡ pre ++ (le32 u ++ (words us ++ rest)) =
      ap (λ q. pre ++ q) (append_assoc (le32 u) (words us) rest) in
    let moved : pre ++ (le32 u ++ (words us ++ rest)) ≡ (pre ++ le32 u) ++ (words us ++ rest) =
      sym (append_assoc pre (le32 u) (words us ++ rest)) in
    let head : le32_load (pre ++ ((le32 u ++ words us) ++ rest)) i ≡ u =
      ap (λ p. le32_load p i) flat
      ∙ ap (le32_load (pre ++ (le32 u ++ (words us ++ rest)))) e
      ∙ le32_load-le32 pre (words us ++ rest) u small.0 in
    let tail : loads (pre ++ ((le32 u ++ words us) ++ rest)) (i + 4) (length us) ≡ us =
      ap (λ p. loads p (i + 4) (length us)) (flat ∙ moved)
      ∙ loads-words us (pre ++ le32 u) rest (i + 4) (length-le32_behind pre u i e) small.1 in
    ap (λ x. x ∷ loads (pre ++ ((le32 u ++ words us) ++ rest)) (i + 4) (length us)) head
    ∙ ap (λ xs. u ∷ xs) tail

-- Words that agree are loaded alike.
loads-cong :
    (n i : ℕ) (p q : List ℕ)
    → ((k : ℕ) → i ≤ k → k + 4 ≤ i + 4 * n → le32_load p k ≡ le32_load q k)
    → loads p i n ≡ loads q i n
unfolding loads
loads-cong zero i p q same = refl
loads-cong (suc n) i p q same =
    ap (λ x. x ∷ loads p (i + 4) n) (same i (omega arith) (omega arith))
    ∙ ap (λ xs. le32_load q i ∷ xs)
        (loads-cong n (i + 4) p q (λ k low high. same k (omega (arith, low)) (omega (arith, high))))

pub length-authlist_encode : (l : Authlist) → length l.uids ≡ 28 → length (authlist_encode l) ≡ 128
unfolding authlist_encode zeros
length-authlist_encode l sized =
    omega (arith, sized, length-words l.uids, length-append (words l.uids) (zeros 4))

module _ (l : Authlist) (counter : ℕ) (wf : Wf l) where
  sized : length (authlist_encode l) ≡ 128
  sized = length-authlist_encode l wf.sized

  abbrev pub image : List ℕ
  image = stamp 128 (authlist_encode l) counter

  version_kept : get_or image 0 0 ≡ l.version
  unfolding authlist_encode
  version_kept =
      get_or-stamp_front 128 (authlist_encode l) counter sized (omega arith) 0 (omega arith)

  count_kept : get_or image 8 0 ≡ l.count
  unfolding authlist_encode zeros
  count_kept =
      get_or-stamp 128 (authlist_encode l) counter sized (omega arith) 8 (omega arith) (omega arith)

  inner : loads (authlist_encode l) 12 (length l.uids) ≡ l.uids
  unfolding authlist_encode zeros
  inner =
      loads-words l.uids (l.version ∷ (zeros 7 ++ (l.count ∷ zeros 3))) (zeros 4) 12 refl wf.small

  uids_kept : loads image 12 28 ≡ l.uids
  uids_kept =
      loads-cong 28 12 image (authlist_encode l) (λ k low high.
        le32_load-stamp 128 (authlist_encode l) counter sized (omega arith) k (omega (arith, low))
          (omega (arith, high)))
      ∙ ap (loads (authlist_encode l) 12) (sym wf.sized)
      ∙ inner

authlist : ℕ → ℕ → List ℕ → Authlist
authlist version count uids = record { version = version; count = count; uids = uids }

all_kept :
    (l : Authlist) (counter : ℕ)
    → Wf l
    → authlist_layout.decode (stamp 128 (authlist_encode l) counter) ≡ l
unfolding authlist
all_kept l counter wf =
    let p = stamp 128 (authlist_encode l) counter in
    ap (λ v. authlist v (get_or p 8 0) (loads p 12 28)) (version_kept l counter wf)
    ∙ ap (λ c. authlist l.version c (loads p 12 28)) (count_kept l counter wf)
    ∙ ap (authlist l.version l.count) (uids_kept l counter wf)

pub authlist_layout-Faithful : Faithful authlist_layout Wf
authlist_layout-Faithful = record {
  length-encode = λ l wf. length-authlist_encode l wf.sized;
  decode_stamp = all_kept;
}
