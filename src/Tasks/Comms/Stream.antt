-- ===== src/Tasks/Comms/Stream.antt =====
-- A stream of frames received in pieces: src/tasks/comms_task.c over src/proto/tlv.c.
use open_evcharger.Prelude.{
  ℕ, zero, suc, ◌+◌, ◌-◌, ◌*◌, ◌≡◌, ◌≢◌, ◌≤◌, ◌<◌, refl, sym, ap, ◌∙◌, List, [], ◌∷◌, ◌++◌, Bool,
  true, false, not, ◌||◌, Option, none, some, ◌==◌, ltb, Bool-cases, inl, inr, length,
  length-append, length-drop, length-take, append_assoc, get_or, drop, take, take-append, take-drop,
  arith,
}
use mathlib.Core.Path.{subst}
use open_evcharger.Persist.Bytes.{take-append_le, get_or-take}
use open_evcharger.Proto.Tlv.{tlv_build, tlv_parse, check_frame, need_more, frame}
use open_evcharger.Proto.Tlv.RoundTrip.{parse-build}
use open_evcharger.Tasks.Comms.{serve, receive, receive_all}
use open_evcharger.Tasks.Comms.Drain.{parse_nil, serve-more, serve-take, append_nil, receive-short}

-- The bytes of the frames `fs`, each as `tlv_build` writes it.
unfoldable pub Wire : List (ℕ × ℕ × List ℕ) → List ℕ → Type 0
Wire [] w = w ≡ []
Wire (f ∷ fs) w =
    (bytes : List ℕ) × ((tlv_build f.0 f.1 f.2 64 ≡ some bytes)
      × ((tail : List ℕ) × ((w ≡ bytes ++ tail) × Wire fs tail)))

some_inside : (xs ys : List ℕ) → some xs ≡ some ys → xs ≡ ys
some_inside xs ys e = ap (λ (o : Option (List ℕ)). elim o [ none ↦ xs | some zs ↦ zs ]) e

too_long :
    (cmd seq : ℕ) (payload bytes : List ℕ)
    → ltb 56 (length payload) ≡ true
    → tlv_build cmd seq payload 64 ≢ some bytes
unfolding tlv_build
too_long cmd seq payload bytes h e = ground (arith, h, e)

-- What a frame that was built looks like to the parser.
built :
    (cmd seq : ℕ) (payload bytes : List ℕ)
    → tlv_build cmd seq payload 64 ≡ some bytes
    → (length bytes ≡ 8 + length payload)
      × ((rest : List ℕ) → tlv_parse (bytes ++ rest) ≡ frame cmd seq payload (8 + length payload))
built cmd seq payload bytes e = elim (Bool-cases (ltb 56 (length payload))) [
  | inl h ↦ absurd (too_long cmd seq payload bytes h e)
  | inr h ↦
      let b = parse-build cmd seq payload 64 (ground (arith, h)) (ground (arith, h)) in
      let same : b.0 ≡ bytes = some_inside b.0 bytes (sym b.1 ∙ e) in
      subst
        (λ bs.
          (length bs ≡ 8 + length payload)
          × ((rest : List ℕ) → tlv_parse (bs ++ rest) ≡ frame cmd seq payload (8 + length payload)))
        same (b.2, b.3)
]

abbrev pub no_sof : List ℕ → Bool
no_sof buf = not (get_or buf 0 0 == 0xA5) || not (get_or buf 1 0 == 0x5A)

abbrev pub len_field : List ℕ → ℕ
len_field buf = get_or buf 2 0 + get_or buf 3 0 * 256

checked_total :
    (buf : List ℕ) (pl_len cmd seq : ℕ) (payload : List ℕ) (total : ℕ)
    → check_frame buf pl_len ≡ frame cmd seq payload total
    → total ≡ 6 + pl_len + 2
unfolding check_frame
checked_total buf pl_len cmd seq payload total e = ground (arith, e)

header-parsed :
    (buf : List ℕ) (cmd seq : ℕ) (payload : List ℕ) (total : ℕ)
    → tlv_parse buf ≡ frame cmd seq payload total
    → (no_sof buf ≡ false)
      × ((ltb (len_field buf) 2 || ltb 58 (len_field buf)) ≡ false)
      × (total ≡ 6 + (len_field buf - 2) + 2)
unfolding tlv_parse
header-parsed buf cmd seq payload total e = elim (Bool-cases (ltb (length buf) 8)) [
  | inl h ↦ absurd (ground (arith, h, e))
  | inr large ↦ elim (Bool-cases (no_sof buf)) [
    | inl h ↦ absurd (ground (arith, large, h, e))
    | inr sof ↦ elim (Bool-cases (ltb (len_field buf) 2 || ltb 58 (len_field buf))) [
      | inl h ↦ absurd (ground (arith, large, sof, h, e))
      | inr len ↦ (
        sof,
        len,
        checked_total buf (len_field buf - 2) cmd seq payload total (rw (large, sof, len) at e),
      )
    ]
  ]
]

check_frame-short :
    (buf : List ℕ) (pl_len : ℕ) → length buf < 6 + pl_len + 2 → check_frame buf pl_len ≡ need_more
unfolding check_frame
check_frame-short buf pl_len h =
    let t : ltb (length buf) (6 + pl_len + 2) ≡ true = ground (arith, h) in rw t refl

-- A buffer with a good header that is shorter than its frame.
parse-short :
    (buf : List ℕ)
    → no_sof buf ≡ false
    → (ltb (len_field buf) 2 || ltb 58 (len_field buf)) ≡ false
    → length buf < 6 + (len_field buf - 2) + 2
    → tlv_parse buf ≡ need_more
unfolding tlv_parse
parse-short buf sof len short = elim (Bool-cases (ltb (length buf) 8)) [
  | inl h ↦ rw h refl
  | inr h ↦ rw (h, sof, len) (check_frame-short buf (len_field buf - 2) short)
]

parse-tiny : (buf : List ℕ) → length buf < 8 → tlv_parse buf ≡ need_more
unfolding tlv_parse
parse-tiny buf h = let t : ltb (length buf) 8 ≡ true = ground (arith, h) in rw t refl

-- Fewer bytes of a frame than it has are not enough, and nothing else.
parse-take :
    (buf : List ℕ) (cmd seq : ℕ) (payload : List ℕ) (total k : ℕ)
    → tlv_parse buf ≡ frame cmd seq payload total
    → k < total
    → k ≤ length buf
    → tlv_parse (take k buf) ≡ need_more
parse-take buf cmd seq payload total k e short within =
    let size : length (take k buf) ≡ k = omega (arith, length-take k buf, within) in
    let facts = header-parsed buf cmd seq payload total e in
    elim (Bool-cases (ltb k 8)) [
      | inl h ↦ parse-tiny (take k buf) (ground (arith, h, size))
      | inr h ↦
          let large : 8 ≤ k = ground (arith, h) in
          let at = λ (i : ℕ) (lt : i < k). get_or-take buf k i lt in
          let b0 = at 0 (omega (arith, large)) in
          let b1 = at 1 (omega (arith, large)) in
          let same : len_field (take k buf) ≡ len_field buf =
            omega (arith, at 2 (omega (arith, large)), at 3 (omega (arith, large))) in
          parse-short (take k buf) (rw (b0, b1) facts.0) (rw same facts.1)
            (omega (arith, size, same, facts.2, short))
    ]

drop-append : (xs ys : List ℕ) → drop (length xs) (xs ++ ys) ≡ ys
drop-append [] ys = refl
drop-append (x ∷ xs) ys = drop-append xs ys

drop-append_le : (p q : List ℕ) (n : ℕ) → n ≤ length p → drop n (p ++ q) ≡ drop n p ++ q
drop-append_le p q zero h = refl
drop-append_le [] q (suc n) h = absurd (omega (arith, h))
drop-append_le (x ∷ p) q (suc n) h = drop-append_le p q n (omega (arith, h))

-- Two ways to cut the same bytes, the first cut before or behind the second.
cut_before :
    (buf rest bytes tail : List ℕ)
    → buf ++ rest ≡ bytes ++ tail
    → buf ≡ take (length buf) (bytes ++ tail)
cut_before buf rest bytes tail e = sym (take-append buf rest) ∙ ap (take (length buf)) e

cut_behind :
    (buf rest bytes tail : List ℕ)
    → buf ++ rest ≡ bytes ++ tail
    → length bytes ≤ length buf
    → (buf ≡ bytes ++ drop (length bytes) buf) × (drop (length bytes) buf ++ rest ≡ tail)
cut_behind buf rest bytes tail e long =
    let n = length bytes in
    let front : take n buf ≡ bytes =
      sym (take-append_le buf rest n long) ∙ ap (take n) e ∙ take-append bytes tail in
    (
      sym (take-drop n buf) ∙ ap (λ xs. xs ++ drop n buf) front,
      sym (drop-append_le buf rest n long) ∙ ap (drop n) e ∙ drop-append bytes tail,
    )

nil_left : (xs ys : List ℕ) → xs ++ ys ≡ [] → xs ≡ []
nil_left [] ys e = refl
nil_left (x ∷ xs) ys e = absurd (omega (arith, ap length e))

-- What a pass over the accumulator makes of the front of a stream.
pub Pass : List (ℕ × ℕ × List ℕ) → List (ℕ × ℕ × List ℕ) × List ℕ → List ℕ → Type 0
Pass fs s rest = (left : List (ℕ × ℕ × List ℕ)) × ((fs ≡ s.0 ++ left) × Wire left (s.1 ++ rest))

serve-Pass :
    (fuel : ℕ) (fs : List (ℕ × ℕ × List ℕ)) (buf rest : List ℕ)
    → length buf ≤ fuel
    → Wire fs (buf ++ rest)
    → Pass fs (serve fuel buf) rest
unfolding serve Wire Pass
serve-Pass zero fs buf rest enough wire = (fs, (refl, wire))
serve-Pass (suc fuel) [] buf rest enough wire =
    let idle : tlv_parse buf ≡ need_more = ap tlv_parse (nil_left buf rest wire) ∙ parse_nil in
    subst (λ s. Pass [] s rest) (sym (serve-more fuel buf idle)) ([], (refl, wire))
serve-Pass (suc fuel) (f ∷ fs) buf rest enough (bytes, (written, (tail, (cut, behind)))) =
    let facts = built f.0 f.1 f.2 bytes written in
    let whole : tlv_parse (bytes ++ tail) ≡ frame f.0 f.1 f.2 (8 + length f.2) = facts.1 tail in
    elim (Bool-cases (ltb (length buf) (length bytes))) [
      | inl short ↦
          let idle : tlv_parse buf ≡ need_more =
            ap tlv_parse (cut_before buf rest bytes tail cut)
            ∙ parse-take (bytes ++ tail) f.0 f.1 f.2 (8 + length f.2) (length buf) whole
                (ground (arith, short, facts.0))
                (omega (arith, ap length cut, length-append buf rest)) in
          subst (λ s. Pass (f ∷ fs) s rest) (sym (serve-more fuel buf idle))
            (f ∷ fs, (refl, (bytes, (written, (tail, (cut, behind))))))
      | inr long ↦
          let cuts = cut_behind buf rest bytes tail cut (ground (arith, long)) in
          let n = length bytes in
          let size : n ≡ 8 + length f.2 = facts.0 in
          let here : tlv_parse buf ≡ frame f.0 f.1 f.2 n =
            ap tlv_parse cuts.0 ∙ facts.1 (drop n buf) ∙ ap (frame f.0 f.1 f.2) (sym size) in
          let more =
            serve-Pass fuel fs (drop n buf) rest (omega (arith, enough, size, length-drop n buf))
              (subst (Wire fs) (sym cuts.1) behind) in
          subst (λ s. Pass (f ∷ fs) s rest) (sym (serve-take fuel buf f.0 f.1 f.2 n here))
            (more.0, (ap (λ gs. f ∷ gs) more.1.0, more.1.1))
    ]

unfoldable pub joined : List (List ℕ) → List ℕ
joined [] = []
joined (got ∷ gots) = got ++ joined gots

-- The ring gives no more than the accumulator has room for.
unfoldable pub Room : List ℕ → List (List ℕ) → Type 0
Room accum [] = Unit {0}
Room accum (got ∷ gots) = (length accum + length got ≤ 64) × Room (receive accum got).1 gots

-- An accumulator that waits for more holds no whole frame.
nothing_left :
    (fs : List (ℕ × ℕ × List ℕ)) (accum : List ℕ)
    → tlv_parse accum ≡ need_more
    → Wire fs (accum ++ [])
    → (fs ≡ []) × (accum ≡ [])
unfolding Wire
nothing_left [] accum idle wire = (refl, sym (append_nil accum) ∙ wire)
nothing_left (f ∷ fs) accum idle (bytes, (written, (tail, (cut, behind)))) =
    let whole : tlv_parse accum ≡ frame f.0 f.1 f.2 (8 + length f.2) =
      ap tlv_parse (sym (append_nil accum) ∙ cut) ∙ (built f.0 f.1 f.2 bytes written).1 tail in
    let clash : need_more ≡ frame f.0 f.1 f.2 (8 + length f.2) = sym idle ∙ whole in
    absurd (ground (arith, clash))

-- A stream of frames as tlv_build writes them, received in any pieces that the accumulator has room for,
-- behind bytes that wait for more: every frame is taken, in order and whole, and nothing is left.
pub receive_all-Wire :
    (gots : List (List ℕ)) (fs : List (ℕ × ℕ × List ℕ)) (accum : List ℕ)
    → tlv_parse accum ≡ need_more
    → Room accum gots
    → Wire fs (accum ++ joined gots)
    → receive_all accum gots ≡ (fs, [])
unfolding receive_all Room joined Pass
receive_all-Wire [] fs accum idle room wire =
    let both = nothing_left fs accum idle wire in
    ap (λ x. ([], x)) both.1 ∙ ap (λ gs. (gs, [])) (sym both.0)
receive_all-Wire (got ∷ gots) fs accum idle room wire =
    let s = serve 64 (accum ++ got) in
    let turn = receive-short accum got idle room.0 in
    let pass : Pass fs s (joined gots) =
      serve-Pass 64 fs (accum ++ got) (joined gots) (omega (arith, room.0, length-append accum got))
        (subst (Wire fs) (sym (append_assoc accum got (joined gots))) wire) in
    let rest : receive_all s.1 gots ≡ (pass.0, []) =
      receive_all-Wire gots pass.0 s.1 turn.1 (subst (λ r. Room r.1 gots) turn.0 room.1) pass.1.1 in
    rw (turn.0, rest) (ap (λ gs. (gs, [])) (sym pass.1.0))
