-- ===== src/Proto/Tlv.antt =====
-- src/proto/tlv.h and src/proto/tlv.c: the frames between the safety MCU and the radio module.
-- A buffer is the list of its bytes, numbers below 256.
pub mod RoundTrip
use open_evcharger.Prelude.{
  ℕ, ◌+◌, ◌-◌, ◌*◌, ◌/◌, ◌%◌, Bool, true, false, not, ◌&&◌, ◌||◌, List, [], ◌∷◌, ◌++◌, Option, none,
  some, if◌then◌else◌, ltb, ◌==◌, length, get_or, take, drop,
}
use open_evcharger.Persist.Crc.{crc16_ccitt}

abbrev pub tlv_sof0 : ℕ
tlv_sof0 = 0xA5

abbrev pub tlv_sof1 : ℕ
tlv_sof1 = 0x5A

abbrev pub tlv_hdr_len : ℕ
tlv_hdr_len = 6

abbrev pub tlv_crc_len : ℕ
tlv_crc_len = 2

abbrev pub tlv_payload_max : ℕ
tlv_payload_max = 56

-- The part of a frame under the checksum, with LEN in little-endian order.
unfoldable pub body : ℕ → ℕ → List ℕ → List ℕ
body cmd seq payload =
    let len_field = 2 + length payload in
    len_field % 256 ∷ len_field / 256 % 256 ∷ cmd ∷ seq ∷ payload

-- The bytes that `tlv_build` writes to the start of a buffer of `out_buf_len` bytes; none for -1.
unfoldable pub tlv_build : ℕ → ℕ → List ℕ → ℕ → Option (List ℕ)
unfolding body
tlv_build cmd seq payload out_buf_len =
    let total = tlv_hdr_len + length payload + tlv_crc_len in
    let crc = crc16_ccitt (body cmd seq payload) in
    if ltb tlv_payload_max (length payload)
    then none
    else if ltb out_buf_len total
    then none
    else some (tlv_sof0 ∷ tlv_sof1 ∷ (body cmd seq payload ++ (crc / 256 % 256 ∷ crc % 256 ∷ [])))

-- The result of `tlv_parse`: 0, a negative number, or the frame with the bytes it took.
pub data Parsed : Type 0 where
  need_more resync : Parsed
  frame : ℕ → ℕ → List ℕ → ℕ → Parsed

-- The part of `tlv_parse` after the header's checks, for a payload of `pl_len` bytes.
unfoldable pub check_frame : List ℕ → ℕ → Parsed
check_frame buf pl_len =
    let total = tlv_hdr_len + pl_len + tlv_crc_len in
    let got = get_or buf (tlv_hdr_len + pl_len) 0 * 256 + get_or buf (tlv_hdr_len + pl_len + 1) 0 in
    let want = crc16_ccitt (take (2 + 2 + pl_len) (drop 2 buf)) in
    if ltb (length buf) total
    then need_more
    else if not (got == want)
    then resync
    else frame (get_or buf 4 0) (get_or buf 5 0) (take pl_len (drop tlv_hdr_len buf)) total

unfoldable pub tlv_parse : List ℕ → Parsed
unfolding check_frame
tlv_parse buf =
    let len_field = get_or buf 2 0 + get_or buf 3 0 * 256 in
    if ltb (length buf) (tlv_hdr_len + tlv_crc_len)
    then need_more
    else if not (get_or buf 0 0 == tlv_sof0) || not (get_or buf 1 0 == tlv_sof1)
    then resync
    else if ltb len_field 2 || ltb (2 + tlv_payload_max) len_field
    then resync
    else check_frame buf (len_field - 2)
