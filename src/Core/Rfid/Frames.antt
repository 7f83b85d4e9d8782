-- ===== src/Core/Rfid/Frames.antt =====
-- What `rfid_feed` of src/core/rfid.c makes of whole frames.
use open_evcharger.Prelude.{
  ℕ, ◌+◌, ◌*◌, ◌≡◌, ◌≢◌, refl, Bool, true, false, List, [], ◌∷◌, arith, if◌then◌else◌, ◌==◌, not,
  ◌||◌, drop,
}
use open_evcharger.Core.Rfid.{
  RfidCtx, RfidAction, uid_of, push, try_parse_one, drain, feed, accept, parse_head, differ,
}

-- A card frame: the uid in four bytes, low byte first.
abbrev pub card_frame : ℕ → ℕ → ℕ → ℕ → ℕ → List ℕ
card_frame u0 u1 u2 u3 st = 0xAA ∷ 0xD1 ∷ 0xD0 ∷ 0x02 ∷ 4 ∷ 0 ∷ u0 ∷ u1 ∷ u2 ∷ u3 ∷ st ∷ []

abbrev pub idle_frame : ℕ → List ℕ
idle_frame st = 0xAA ∷ 0xD1 ∷ 0xD0 ∷ 0x02 ∷ 0 ∷ 0 ∷ st ∷ []

abbrev pub uid_le : ℕ → ℕ → ℕ → ℕ → ℕ
uid_le u0 u1 u2 u3 = u0 + u1 * 256 + u2 * 65536 + u3 * 16777216

-- The edge that a frame gives in a context.
abbrev pub edge_of : RfidCtx → Bool → ℕ → Bool
edge_of ctx card uid = not (uid == ctx.last_uid) || differ card ctx.card_present

abbrev seen : Bool → ℕ → RfidAction
seen card uid = record { edge = true; uid = uid; present = card }

accept_parts :
    (ctx : RfidCtx) (out : RfidAction) (card : Bool) (n : ℕ)
    → let uid = (if card then uid_of ctx.buf else 0) in
      accept ctx out card n ≡ (
        record { buf = drop n ctx.buf; last_uid = uid; card_present = card },
        (if edge_of ctx card uid then seen card uid else out),
        n,
      )
unfolding accept
accept_parts ctx out true n = ground arith
accept_parts ctx out false n = ground arith

module _ (uid : ℕ) (present : Bool) (u0 u1 u2 u3 st : ℕ) (out : RfidAction) where
  abbrev holding : RfidCtx
  holding = record { buf = card_frame u0 u1 u2 u3 st; last_uid = uid; card_present = present }

  abbrev emptied : RfidCtx
  emptied = record { buf = []; last_uid = uid_le u0 u1 u2 u3; card_present = true }

  try_card : try_parse_one holding out ≡ (
    emptied,
    (if edge_of holding true (uid_le u0 u1 u2 u3) then seen true (uid_le u0 u1 u2 u3) else out),
    11,
  )
  unfolding try_parse_one parse_head uid_of
  try_card = accept_parts holding out true 11

try_empty :
    (uid : ℕ) (present : Bool) (out : RfidAction)
    → let ctx : RfidCtx = record { buf = []; last_uid = uid; card_present = present } in
      try_parse_one ctx out ≡ (ctx, out, 0)
unfolding try_parse_one parse_head
try_empty uid present out = refl

edge_if :
    (b : Bool) (x o : RfidAction) → x.edge ≡ true → o.edge ≡ false → (if b then x else o).edge ≡ b
edge_if b x o p q = ground arith

seen_if :
    (b : Bool) (x o : RfidAction)
    → o.edge ≡ false
    → (if b then x else o).edge ≡ true
    → ((if b then x else o).uid ≡ x.uid) × ((if b then x else o).present ≡ x.present)
seen_if b x o q h = ground arith

-- A card frame into an empty buffer leaves the card present under the uid that the frame carries,
-- the buffer empty, and an edge, with that uid, exactly if the card was absent or had another uid.
pub feed-card_frame :
    (uid : ℕ) (present : Bool) (u0 u1 u2 u3 st : ℕ)
    → let ctx : RfidCtx = record { buf = []; last_uid = uid; card_present = present } in
      let (ctx', out, edges) = feed ctx (card_frame u0 u1 u2 u3 st) in
      (ctx' ≡ record { buf = []; last_uid = uid_le u0 u1 u2 u3; card_present = true })
      × (out.edge ≡ (not (uid_le u0 u1 u2 u3 == uid) || not present))
      × (edges ≡ (if out.edge then 1 else 0))
      × (out.edge ≡ true → (out.uid ≡ uid_le u0 u1 u2 u3) × (out.present ≡ true))
unfolding feed push drain
feed-card_frame uid present u0 u1 u2 u3 st =
    rw (try_card uid present u0 u1 u2 u3 st out, try_empty (uid_le u0 u1 u2 u3) true)
      (refl, edge_if b (seen true u) out refl refl, refl, seen_if b (seen true u) out refl)
  where
    u : ℕ
    u = uid_le u0 u1 u2 u3

    b : Bool
    b = not (u == uid) || not present

    out : RfidAction
    out = record { edge = false; uid = uid; present = present }

-- A start byte that is not followed by the second preamble byte ends the parse of the call: a whole
-- card frame behind it is left in the buffer, with no edge reported.
pub feed_stalls :
    (uid : ℕ) (present : Bool) (x u0 u1 u2 u3 st : ℕ)
    → x ≢ 0xD1
    → let ctx : RfidCtx = record { buf = []; last_uid = uid; card_present = present } in
      feed ctx (0xAA ∷ x ∷ card_frame u0 u1 u2 u3 st) ≡ (
        record ctx { buf = x ∷ card_frame u0 u1 u2 u3 st },
        record { edge = false; uid = uid; present = present },
        0,
      )
unfolding feed push drain
feed_stalls uid present x u0 u1 u2 u3 st ne = rw stall
  where
    ctx : RfidCtx
    ctx = record {
      buf = 0xAA ∷ x ∷ card_frame u0 u1 u2 u3 st;
      last_uid = uid;
      card_present = present;
    }

    out : RfidAction
    out = record { edge = false; uid = uid; present = present }

    other : (x == 0xD1) ≡ false
    other = ground arith

    stall : try_parse_one ctx out ≡ (record ctx { buf = x ∷ card_frame u0 u1 u2 u3 st }, out, 0)
    stall = unfold try_parse_one parse_head in (rw other)
