-- ===== src/Tasks/Comms/Drain.antt =====
-- The receive loop of src/tasks/comms_task.c: it ends, and it never has to throw its buffer away.
use open_evcharger.Prelude.{
  ℕ, zero, suc, ◌+◌, ◌-◌, ◌*◌, ◌≡◌, ◌≤◌, ◌<◌, refl, sym, ap, ◌∙◌, List, [], ◌∷◌, ◌++◌, false, not,
  ◌||◌, ◌==◌, ltb, Bool-cases, inl, inr, length, length-append, length-drop, get_or, drop, take,
  arith,
}
use mathlib.Core.Path.{subst}
use open_evcharger.Persist.Crc.{crc16_ccitt}
use open_evcharger.Proto.Tlv.{tlv_parse, check_frame, Parsed, need_more, resync, frame}
use open_evcharger.Tasks.Comms.{serve, receive}

-- What each answer of the parser says of the buffer.
pub TurnOf : List ℕ → Parsed → Type 0
TurnOf buf need_more = length buf < 64
TurnOf buf resync = 8 ≤ length buf
TurnOf buf (frame cmd seq payload total) = (8 ≤ total) × (total ≤ length buf)

pub check_frame-TurnOf :
    (buf : List ℕ) (pl_len : ℕ) → pl_len ≤ 56 → 8 ≤ length buf → TurnOf buf (check_frame buf pl_len)
unfolding check_frame TurnOf
check_frame-TurnOf buf pl_len small large =
    let total = 6 + pl_len + 2 in
    let good =
      get_or buf (6 + pl_len) 0 * 256 + get_or buf (6 + pl_len + 1) 0
      == crc16_ccitt (take (2 + 2 + pl_len) (drop 2 buf)) in
    elim (Bool-cases (ltb (length buf) total)) [
      | inl h ↦ rw h (ground (arith, h, small))
      | inr h ↦ elim (Bool-cases good) [
        | inr k ↦ rw (h, k) large
        | inl k ↦ rw (h, k) (omega arith, ground (arith, h))
      ]
    ]

pub tlv_parse-TurnOf : (buf : List ℕ) → TurnOf buf (tlv_parse buf)
unfolding tlv_parse TurnOf
tlv_parse-TurnOf buf =
    let len_field = get_or buf 2 0 + get_or buf 3 0 * 256 in
    elim (Bool-cases (ltb (length buf) 8)) [
      | inl h ↦ rw h (ground (arith, h))
      | inr large ↦
          elim (Bool-cases (not (get_or buf 0 0 == 0xA5) || not (get_or buf 1 0 == 0x5A))) [
            | inl h ↦ rw (large, h) (ground (arith, large))
            | inr sof ↦ elim (Bool-cases (ltb len_field 2 || ltb 58 len_field)) [
              | inl h ↦ rw (large, sof, h) (ground (arith, large))
              | inr h ↦
                  rw (large, sof, h)
                    (check_frame-TurnOf buf (len_field - 2) (ground (arith, h))
                      (ground (arith, large)))
            ]
          ]
    ]

module _ (fuel : ℕ) (accum : List ℕ) where
  pub serve-more : tlv_parse accum ≡ need_more → serve (suc fuel) accum ≡ ([], accum)
  unfolding serve
  serve-more e = rw (e, serve) refl

  pub serve-drop : tlv_parse accum ≡ resync → serve (suc fuel) accum ≡ serve fuel (drop 1 accum)
  unfolding serve
  serve-drop e = rw (e, serve) refl

  pub serve-take :
      (cmd seq : ℕ) (payload : List ℕ) (total : ℕ)
      → tlv_parse accum ≡ frame cmd seq payload total
      → serve (suc fuel) accum ≡ (
        (cmd, seq, payload) ∷ (serve fuel (drop total accum)).0,
        (serve fuel (drop total accum)).1,
      )
  unfolding serve
  serve-take cmd seq payload total e = rw (e, serve) refl

pub parse_nil : tlv_parse [] ≡ need_more
unfolding tlv_parse
parse_nil = refl

-- One turn, with what the turns behind it come to.
turn-ends :
    (fuel : ℕ) (accum : List ℕ)
    → length accum ≤ suc fuel
    → ((rest : List ℕ) → length rest ≤ fuel → tlv_parse (serve fuel rest).1 ≡ need_more)
    → (r : Parsed) → tlv_parse accum ≡ r
    → TurnOf accum (tlv_parse accum)
    → tlv_parse (serve (suc fuel) accum).1 ≡ need_more
unfolding TurnOf
turn-ends fuel accum enough behind need_more e t =
    ap (λ s. tlv_parse s.1) (serve-more fuel accum e) ∙ e
turn-ends fuel accum enough behind resync e t =
    let large : 8 ≤ length accum = subst (TurnOf accum) e t in
    ap (λ s. tlv_parse s.1) (serve-drop fuel accum e)
    ∙ behind (drop 1 accum) (omega (arith, enough, large, length-drop 1 accum))
turn-ends fuel accum enough behind (frame cmd seq payload total) e t =
    let taken : (8 ≤ total) × (total ≤ length accum) = subst (TurnOf accum) e t in
    ap (λ s. tlv_parse s.1) (serve-take fuel accum cmd seq payload total e)
    ∙ behind (drop total accum) (omega (arith, enough, taken.0, taken.1, length-drop total accum))

-- With a turn for every byte the loop ends by its own test.
pub serve-ends :
    (fuel : ℕ) (accum : List ℕ) → length accum ≤ fuel → tlv_parse (serve fuel accum).1 ≡ need_more
unfolding serve
serve-ends zero [] enough = parse_nil
serve-ends zero (x ∷ accum) enough = absurd (omega (arith, enough))
serve-ends (suc fuel) accum enough =
    turn-ends fuel accum enough (λ rest h. serve-ends fuel rest h) (tlv_parse accum) refl
      (tlv_parse-TurnOf accum)

left-short : (buf : List ℕ) → tlv_parse buf ≡ need_more → length buf < 64
unfolding TurnOf
left-short buf e = subst (TurnOf buf) e (tlv_parse-TurnOf buf)

pub append_nil : (xs : List ℕ) → xs ++ [] ≡ xs
append_nil [] = refl
append_nil (x ∷ xs) = ap (λ ts. x ∷ ts) (append_nil xs)

-- What the ring gives within the room of the accumulator, when what the accumulator holds waits for more:
-- the loop ends by its own test, that tlv_parse asks for more, with less than the 64 bytes of a buffer left,
-- and the reset of a full accumulator is not taken.
pub receive-short :
    (accum got : List ℕ)
    → tlv_parse accum ≡ need_more
    → length accum + length got ≤ 64
    → let s = serve 64 (accum ++ got) in
      (receive accum got ≡ s) × (tlv_parse s.1 ≡ need_more) × (length s.1 < 64)
unfolding receive
receive-short accum [] idle room =
    let same : serve 64 (accum ++ []) ≡ ([], accum) =
      ap (serve 64) (append_nil accum) ∙ serve-more 63 accum idle in
    let left = ap (λ s. s.1) same in
    (
      sym same,
      ap tlv_parse left ∙ idle,
      subst (λ a. length a < 64) (sym left) (left-short accum idle),
    )
receive-short accum (x ∷ got) idle room =
    let s = serve 64 (accum ++ (x ∷ got)) in
    let ends : tlv_parse s.1 ≡ need_more =
      serve-ends 64 (accum ++ (x ∷ got)) (omega (arith, room, length-append accum (x ∷ got))) in
    let short : length s.1 < 64 = left-short s.1 ends in
    let apart : (length s.1 == 64) ≡ false = ground (arith, short) in
    (rw (apart, receive) refl, ends, short)
