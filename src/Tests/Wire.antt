-- ===== src/Tests/Wire.antt =====
-- Tests of the frames of src/proto/.
use open_evcharger.Prelude.{
  ℕ, ◌+◌, ◌≤◌, ◌≡◌, refl, List, [], ◌∷◌, ◌++◌, some, length, take, drop, arith,
}
use open_evcharger.Persist.Crc.{crc16_ccitt}
use open_evcharger.Proto.Tlv.{tlv_build, tlv_parse, body, need_more, resync, frame}
use open_evcharger.Tasks.Comms.{serve, receive, receive_all, dispatch}
use open_evcharger.Tasks.Comms.Posted.{AllFit, dispatch-AllFit}
use open_evcharger.Tasks.Comms.Drain.{parse_nil}
use open_evcharger.Tasks.Comms.Stream.{Wire, joined, Room, receive_all-Wire}
use open_evcharger.Proto.Tlv.RoundTrip.{Bytes, parse-build, parse_sound}

-- A frame with a payload of two bytes.
abbrev sent : List ℕ
sent = 0xA5 ∷ 0x5A ∷ 4 ∷ 0 ∷ 0x10 ∷ 7 ∷ 1 ∷ 2 ∷ 0x85 ∷ 0xF5 ∷ []

sent-built : tlv_build 0x10 7 (1 ∷ 2 ∷ []) 64 ≡ some sent
unfolding tlv_build body crc16_ccitt
sent-built = refl

sent_short : tlv_parse (take 9 sent) ≡ need_more
unfolding tlv_parse crc16_ccitt
sent_short = refl

sent_corrupt : tlv_parse (0xA5 ∷ 0x5A ∷ 4 ∷ 0 ∷ 0x10 ∷ 7 ∷ 1 ∷ 3 ∷ 0x85 ∷ 0xF5 ∷ []) ≡ resync
unfolding tlv_parse crc16_ccitt
sent_corrupt = refl

parse-build_example :
    (bytes : List ℕ) × (tlv_build 0x10 7 (1 ∷ 2 ∷ []) 64 ≡ some bytes)
    × (length bytes ≡ 8 + 2)
    × ((rest : List ℕ) → tlv_parse (bytes ++ rest) ≡ frame 0x10 7 (1 ∷ 2 ∷ []) (8 + 2))
parse-build_example = parse-build 0x10 7 (1 ∷ 2 ∷ []) 64 (omega arith) (omega arith)

sent-Bytes : Bytes (sent ++ (0xA5 ∷ []))
sent-Bytes = ground arith

sent-parsed : tlv_parse (sent ++ (0xA5 ∷ [])) ≡ frame 0x10 7 (1 ∷ 2 ∷ []) 10
unfolding tlv_parse crc16_ccitt
sent-parsed = refl

parse_sound_example :
    (10 ≤ length (sent ++ (0xA5 ∷ [])))
    × (2 ≤ 56)
    × (10 ≡ 8 + 2)
    × (tlv_build 0x10 7 (1 ∷ 2 ∷ []) 10 ≡ some (take 10 (sent ++ (0xA5 ∷ []))))
parse_sound_example =
    parse_sound (sent ++ (0xA5 ∷ [])) 0x10 7 (1 ∷ 2 ∷ []) 10 sent-Bytes sent-parsed

-- Two frames that come in two pieces, the first cut within the header of the first frame.
abbrev pieces : List (List ℕ)
pieces = take 3 sent ∷ (drop 3 sent ++ sent) ∷ []

abbrev stream : List (ℕ × ℕ × List ℕ)
stream = (0x10, 7, 1 ∷ 2 ∷ []) ∷ (0x10, 7, 1 ∷ 2 ∷ []) ∷ []

pieces-Room : Room [] pieces
unfolding Room receive serve tlv_parse
pieces-Room = (omega arith, (omega arith, tt))

pieces-Wire : Wire stream ([] ++ joined pieces)
unfolding Wire joined
pieces-Wire = (sent, (sent-built, (sent, (refl, (sent, (sent-built, ([], (refl, refl))))))))

receive_all-Wire_example : receive_all [] pieces ≡ (stream, [])
receive_all-Wire_example = receive_all-Wire pieces stream [] parse_nil pieces-Room pieces-Wire

dispatch-AllFit_example : AllFit (dispatch 16 0x16 3 (1 ∷ 0 ∷ 0 ∷ 0 ∷ 0 ∷ 0 ∷ 0 ∷ 0 ∷ 9 ∷ 8 ∷ []))
dispatch-AllFit_example = dispatch-AllFit 16 0x16 3 (1 ∷ 0 ∷ 0 ∷ 0 ∷ 0 ∷ 0 ∷ 0 ∷ 0 ∷ 9 ∷ 8 ∷ [])
