-- ===== src/Core/Rfid.antt =====
-- src/core/rfid.h and src/core/rfid.c: the frame parser of the card reader.
-- `buf` holds the `len` bytes that are valid in the C buffer, so `len` is its length.
pub mod Frames
pub mod Bounds
use open_evcharger.Prelude.{
  ℕ, zero, suc, ◌+◌, ◌-◌, ◌*◌, Bool, true, false, not, ◌&&◌, ◌||◌, List, [], ◌∷◌, ◌++◌,
  if◌then◌else◌, ltb, leb, ◌==◌, length, get_or, drop,
}

abbrev pub preamble_0 : ℕ
preamble_0 = 0xAA

abbrev pub preamble_1 : ℕ
preamble_1 = 0xD1

abbrev pub preamble_2 : ℕ
preamble_2 = 0xD0

abbrev pub preamble_3 : ℕ
preamble_3 = 0x02

abbrev pub frame_idle_len : ℕ
frame_idle_len = 7

abbrev pub frame_card_len : ℕ
frame_card_len = 11

abbrev pub frame_max_len : ℕ
frame_max_len = 16

-- `rfid_ctx_t`
pub record RfidCtx : Type 0 where
  pub buf : List ℕ
  pub last_uid : ℕ  -- uint32_t
  pub card_present : Bool

-- `rfid_action_t`
pub record RfidAction : Type 0 where
  pub edge : Bool
  pub uid : ℕ  -- uint32_t
  pub present : Bool

abbrev pub init_ctx : RfidCtx
init_ctx = record { buf = []; last_uid = 0; card_present = false }

-- The C test `x != y` on two flags.
abbrev pub differ : Bool → Bool → Bool
differ true b = not b
differ false b = b

-- `while (len > 0 && buf[0] != RFID_PREAMBLE_0)` drop the head.
unfoldable pub resync : List ℕ → List ℕ
resync [] = []
resync (x ∷ xs) = let rest = resync xs in if x == preamble_0 then x ∷ xs else rest

-- The bytes 6 to 9 of a card frame, the low byte first. They are distinct bytes, so `|` is `+`.
unfoldable pub uid_of : List ℕ → ℕ
uid_of buf =
    get_or buf 6 0 + get_or buf 7 0 * 256 + get_or buf 8 0 * 65536 + get_or buf 9 0 * 16777216

-- The end of `try_parse_one`: a complete frame is decoded, and an edge is latched.
unfoldable pub accept : RfidCtx → RfidAction → Bool → ℕ → RfidCtx × RfidAction × ℕ
accept ctx out card frame_len =
    let uid = (if card then uid_of ctx.buf else 0) in
    let rest = drop frame_len ctx.buf in
    if not (uid == ctx.last_uid) || differ card ctx.card_present
    then (
      record { buf = rest; last_uid = uid; card_present = card },
      record { edge = true; uid = uid; present = card },
      frame_len,
    )
    else (record ctx { buf = rest }, out, frame_len)

-- The checks after the re-synchronisation. The last result is the number of bytes consumed.
unfoldable pub parse_head : RfidCtx → RfidAction → RfidCtx × RfidAction × ℕ
parse_head ctx out =
    let buf = ctx.buf in
    let ll = get_or buf 4 0 in
    if ltb (length buf) 5
    then (ctx, out, 0)
    else if not (get_or buf 1 0 == preamble_1)
        || not (get_or buf 2 0 == preamble_2)
        || not (get_or buf 3 0 == preamble_3)
    then (record ctx { buf = drop 1 buf }, out, 0)
    else if ll == 0
    then (if ltb (length buf) frame_idle_len
        then (ctx, out, 0)
        else accept ctx out false frame_idle_len)
    else if ll == 4
    then (if ltb (length buf) frame_card_len
        then (ctx, out, 0)
        else accept ctx out true frame_card_len)
    else (record ctx { buf = drop 1 buf }, out, 0)

unfoldable pub try_parse_one : RfidCtx → RfidAction → RfidCtx × RfidAction × ℕ
unfolding resync
try_parse_one ctx out = parse_head (record ctx { buf = resync ctx.buf }) out

-- One byte from the reader. In a full buffer the oldest byte makes room.
unfoldable pub push : List ℕ → ℕ → List ℕ
push buf x = if ltb (length buf) frame_max_len then buf ++ (x ∷ []) else drop 1 buf ++ (x ∷ [])

unfoldable pub push_all : List ℕ → List ℕ → List ℕ
unfolding push
push_all buf [] = buf
push_all buf (x ∷ xs) = push_all (push buf x) xs

-- `while (try_parse_one(ctx, out) > 0) if (out->edge) edges++`
unfoldable pub drain : ℕ → RfidCtx → RfidAction → ℕ → RfidCtx × RfidAction × ℕ
drain zero ctx out edges = (ctx, out, edges)
drain (suc fuel) ctx out edges =
    let (ctx', out', n) = try_parse_one ctx out in
    let more = drain fuel ctx' out' (if out'.edge then edges + 1 else edges) in
    if n == 0 then (ctx', out', edges) else more

-- `rfid_feed`: the context, the action and the number returned. A round of the loop takes at least
-- 7 of the at most 16 bytes buffered, so 4 rounds are enough.
unfoldable pub feed : RfidCtx → List ℕ → RfidCtx × RfidAction × ℕ
unfolding push_all
feed ctx bytes =
    drain 4 (record ctx { buf = push_all ctx.buf bytes })
      (record { edge = false; uid = ctx.last_uid; present = ctx.card_present }) 0
