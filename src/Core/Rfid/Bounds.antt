-- ===== src/Core/Rfid/Bounds.antt =====
-- The buffer of src/core/rfid.c never overflows, and the loop of `rfid_feed` ends by its test.
use open_evcharger.Prelude.{
  ℕ, zero, suc, ◌+◌, ◌*◌, ◌≤◌, ◌<◌, ◌≡◌, ◌⊎◌, inl, inr, false, List, [], ◌∷◌, arith, if◌then◌else◌,
  length, drop, length-append, length-drop, ◌==◌, Bool-cases,
}
use open_evcharger.Core.Rfid.{
  RfidCtx, RfidAction, resync, parse_head, accept, try_parse_one, push, push_all, drain, feed,
}

length-resync : (xs : List ℕ) → length (resync xs) ≤ length xs
unfolding resync
length-resync [] = omega arith
length-resync (x ∷ xs) = ground (arith, length-resync xs)

-- A round either stops the loop, or takes 7 bytes or more.
parse_head_shrinks :
    (ctx : RfidCtx) (out : RfidAction)
    → let (ctx', out', n) = parse_head ctx out in
      (length ctx'.buf ≤ length ctx.buf) × ((n ≡ 0) ⊎ (length ctx'.buf + 7 ≤ length ctx.buf))
unfolding parse_head accept
parse_head_shrinks ctx out =
    ground (arith, length-drop 1 ctx.buf, length-drop 7 ctx.buf, length-drop 11 ctx.buf)

try_shrinks :
    (ctx : RfidCtx) (out : RfidAction)
    → let (ctx', out', n) = try_parse_one ctx out in
      (length ctx'.buf ≤ length ctx.buf) × ((n ≡ 0) ⊎ (length ctx'.buf + 7 ≤ length ctx.buf))
unfolding try_parse_one
try_shrinks ctx out =
    ground
      (arith, length-resync ctx.buf, parse_head_shrinks (record ctx { buf = resync ctx.buf }) out)

-- Any two amounts of fuel that exceed a seventh of the buffer give the same result, so the loop of
-- `rfid_feed` has ended by its own test.
pub drain_enough :
    (f g : ℕ) (ctx : RfidCtx) (out : RfidAction) (edges : ℕ)
    → length ctx.buf < 7 * f
    → length ctx.buf < 7 * g
    → drain f ctx out edges ≡ drain g ctx out edges
unfolding drain
drain_enough zero g ctx out edges p q = absurd (omega arith)
drain_enough (suc f) zero ctx out edges p q = absurd (omega arith)
drain_enough (suc f) (suc g) ctx out edges p q =
    let (ctx', out', n) = try_parse_one ctx out in
    elim (Bool-cases (n == 0)) [
      | inl e ↦ rw e
      | inr e ↦ rw e (
          drain_enough f g ctx' out' (if out'.edge then edges + 1 else edges)
            (ground (arith, try_shrinks ctx out)) (ground (arith, try_shrinks ctx out)))
    ]

length-drain :
    (f : ℕ) (ctx : RfidCtx) (out : RfidAction) (edges : ℕ)
    → length (drain f ctx out edges).0.buf ≤ length ctx.buf
unfolding drain
length-drain zero ctx out edges = omega arith
length-drain (suc f) ctx out edges =
    let (ctx', out', n) = try_parse_one ctx out in
    ground (
      arith,
      try_shrinks ctx out,
      length-drain f ctx' out' (if out'.edge then edges + 1 else edges),
    )

length-push : (buf : List ℕ) (x : ℕ) → length buf ≤ 16 → length (push buf x) ≤ 16
unfolding push
length-push buf x h =
    ground
      (arith, length-append buf (x ∷ []), length-append (drop 1 buf) (x ∷ []), length-drop 1 buf)

pub length-push_all : (buf xs : List ℕ) → length buf ≤ 16 → length (push_all buf xs) ≤ 16
unfolding push_all
length-push_all buf [] h = h
length-push_all buf (x ∷ xs) h = length-push_all (push buf x) xs (length-push buf x h)

-- `rfid_feed` keeps the buffer within its 16 bytes, however many bytes arrive, and its loop has
-- ended by its own test: every larger amount of fuel gives the same result.
pub feed_bounds :
    (ctx : RfidCtx) (bytes : List ℕ) (f : ℕ)
    → length ctx.buf ≤ 16
    → 3 ≤ f
    → (length (feed ctx bytes).0.buf ≤ 16)
      × (drain f
            (record ctx { buf = push_all ctx.buf bytes })
            (record { edge = false; uid = ctx.last_uid; present = ctx.card_present })
            0
          ≡ feed ctx bytes)
unfolding feed
feed_bounds ctx bytes f h k =
    let full = length-push_all ctx.buf bytes h in
    let start : RfidCtx = record ctx { buf = push_all ctx.buf bytes } in
    let out : RfidAction = record {
      edge = false;
      uid = ctx.last_uid;
      present = ctx.card_present;
    } in
    (
      omega (arith, full, length-drain 4 start out 0),
      drain_enough f 4 start out 0 (omega arith) (omega arith),
    )
