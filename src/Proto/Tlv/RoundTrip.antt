-- ===== src/Proto/Tlv/RoundTrip.antt =====
-- What is built is parsed, and what is parsed was built: src/proto/tlv.c.
use open_evcharger.Prelude.{
  ℕ, zero, suc, ◌+◌, ◌-◌, ◌*◌, ◌/◌, ◌%◌, ◌≡◌, ◌≢◌, ◌≤◌, ◌<◌, refl, sym, ap, ◌∙◌, List, [], ◌∷◌,
  ◌++◌, some, arith, length, get_or, take, length-append, append_assoc, take-append, get_or-append,
  take_two, length-take,
}
use open_evcharger.Persist.Crc.{crc16_ccitt, crc16-lt}
use open_evcharger.Proto.Tlv.{body, tlv_build, frame, check_frame, tlv_parse}

take_body :
    (l0 l1 cmd seq : ℕ) (payload rest : List ℕ)
    → take (2 + 2 + length payload) (l0 ∷ l1 ∷ cmd ∷ seq ∷ (payload ++ rest))
      ≡ l0 ∷ l1 ∷ cmd ∷ seq ∷ payload
take_body l0 l1 cmd seq payload rest =
    let e : 2 + 2 + length payload ≡ length (l0 ∷ l1 ∷ cmd ∷ seq ∷ payload) = omega arith in
    rw e (take-append (l0 ∷ l1 ∷ cmd ∷ seq ∷ payload) rest)

-- A buffer with a whole frame at its start, the checksum given by its two bytes.
check_frame-whole :
    (l0 l1 cmd seq hi lo : ℕ) (payload rest : List ℕ)
    → hi * 256 + lo ≡ crc16_ccitt (l0 ∷ l1 ∷ cmd ∷ seq ∷ payload)
    → check_frame
        (0xA5 ∷ 0x5A ∷ l0 ∷ l1 ∷ cmd ∷ seq ∷ (payload ++ (hi ∷ lo ∷ rest)))
        (length payload)
      ≡ frame cmd seq payload (8 + length payload)
unfolding check_frame
check_frame-whole l0 l1 cmd seq hi lo payload rest h =
    let front : List ℕ = 0xA5 ∷ 0x5A ∷ l0 ∷ l1 ∷ cmd ∷ seq ∷ payload in
    let n = length payload in
    ground (
      arith,
      h,
      get_or-append front (hi ∷ lo ∷ rest) 0 (6 + n) 0 (omega arith),
      get_or-append front (hi ∷ lo ∷ rest) 1 (6 + n + 1) 0 (omega arith),
      take_body l0 l1 cmd seq payload (hi ∷ lo ∷ rest),
      take-append payload (hi ∷ lo ∷ rest),
      length-append payload (hi ∷ lo ∷ rest),
    )

-- A header with the length of an acceptable payload passes.
parse-front :
    (n cmd seq : ℕ) (tail : List ℕ)
    → n ≤ 56
    → 2 ≤ length tail
    → let buf : List ℕ = 0xA5 ∷ 0x5A ∷ (2 + n) % 256 ∷ (2 + n) / 256 % 256 ∷ cmd ∷ seq ∷ tail in
      tlv_parse buf ≡ check_frame buf n
unfolding tlv_parse
parse-front n cmd seq tail h l =
    let e : (2 + n) % 256 + (2 + n) / 256 % 256 * 256 ≡ 2 + n = omega (arith, h) in
    let k : 2 + n - 2 ≡ n = omega arith in rw e (rw k (ground (arith, h, l)))

-- A payload of at most 56 bytes and a buffer with room for it: `tlv_build` writes a frame of 8 bytes
-- more than the payload, and `tlv_parse` reads back the command, the sequence number and the payload
-- and takes every byte of the frame, whatever bytes follow it.
pub parse-build :
    (cmd seq : ℕ) (payload : List ℕ) (out_buf_len : ℕ)
    → length payload ≤ 56
    → 8 + length payload ≤ out_buf_len
    → (bytes : List ℕ) × (tlv_build cmd seq payload out_buf_len ≡ some bytes)
      × (length bytes ≡ 8 + length payload)
      × ((rest : List ℕ) → tlv_parse (bytes ++ rest) ≡ frame cmd seq payload (8 + length payload))
unfolding tlv_build body
parse-build cmd seq payload out_buf_len small room =
    let n = length payload in
    let l0 = (2 + n) % 256 in
    let l1 = (2 + n) / 256 % 256 in
    let crc = crc16_ccitt (l0 ∷ l1 ∷ cmd ∷ seq ∷ payload) in
    let hi = crc / 256 % 256 in
    let lo = crc % 256 in
    let e : hi * 256 + lo ≡ crc = omega (arith, crc16-lt (l0 ∷ l1 ∷ cmd ∷ seq ∷ payload)) in
    (
      0xA5 ∷ 0x5A ∷ l0 ∷ l1 ∷ cmd ∷ seq ∷ (payload ++ (hi ∷ lo ∷ [])),
      ground (arith, small, room),
      omega (arith, length-append payload (hi ∷ lo ∷ [])),
      λ rest.
          let tail = payload ++ (hi ∷ lo ∷ rest) in
          rw (append_assoc payload (hi ∷ lo ∷ []) rest) (
            parse-front n cmd seq tail small (omega (arith, length-append payload (hi ∷ lo ∷ rest)))
            ∙ check_frame-whole l0 l1 cmd seq hi lo payload rest e),
    )

-- Every entry is a byte.
abbrev pub Bytes : List ℕ → Type 0
Bytes [] = Unit {0}
Bytes (x ∷ xs) = (x < 256) × Bytes xs

get_or-Bytes : (xs : List ℕ) (i : ℕ) → Bytes xs → get_or xs i 0 < 256
get_or-Bytes [] i h = omega arith
get_or-Bytes (x ∷ xs) zero h = h.0
get_or-Bytes (x ∷ xs) (suc i) h = get_or-Bytes xs i h.1

-- The checks after the header have passed: what they have seen.
check_frame_parts :
    (l0 l1 cmd seq n : ℕ) (tail : List ℕ) (c q : ℕ) (p : List ℕ) (t : ℕ)
    → check_frame (0xA5 ∷ 0x5A ∷ l0 ∷ l1 ∷ cmd ∷ seq ∷ tail) n ≡ frame c q p t
    → (n + 2 ≤ length tail)
      × (cmd ≡ c)
      × (seq ≡ q)
      × (take n tail ≡ p)
      × (8 + n ≡ t)
      × (get_or tail n 0 * 256 + get_or tail (suc n) 0
          ≡ crc16_ccitt (l0 ∷ l1 ∷ cmd ∷ seq ∷ take n tail))
unfolding check_frame
check_frame_parts l0 l1 cmd seq n tail c q p t h =
    let e4 : 4 + n ≡ suc (suc (suc (suc n))) = omega arith in
    let e6 : 6 + n ≡ suc (suc (suc (suc (suc (suc n))))) = omega arith in
    let e7 : 6 + n + 1 ≡ suc (suc (suc (suc (suc (suc (suc n)))))) = omega arith in
    let h' = (rw e6 at (rw e4 at (rw e7 at h))) in ground (arith, h')

-- The frame of a payload is the buffer's start, if the buffer holds the frame's checksum.
build_front :
    (l0 l1 cmd seq n : ℕ) (tail : List ℕ)
    → l0 + l1 * 256 ≡ 2 + n
    → n ≤ 56
    → n + 2 ≤ length tail
    → Bytes (l0 ∷ l1 ∷ tail)
    → get_or tail n 0 * 256 + get_or tail (suc n) 0
      ≡ crc16_ccitt (l0 ∷ l1 ∷ cmd ∷ seq ∷ take n tail)
    → tlv_build cmd seq (take n tail) (8 + n)
      ≡ some (0xA5 ∷ 0x5A ∷ l0 ∷ l1 ∷ cmd ∷ seq ∷ take (suc (suc n)) tail)
unfolding tlv_build body
build_front l0 l1 cmd seq n tail e small room b crc =
    let len : length (take n tail) ≡ n = omega (arith, length-take n tail, room) in
    let g0 = get_or-Bytes tail n b.1.1 in
    let g1 = get_or-Bytes tail (suc n) b.1.1 in
    let c0 : (2 + n) % 256 ≡ l0 = omega (arith, e, b.0, b.1.0, small) in
    let c1 : (2 + n) / 256 % 256 ≡ l1 = omega (arith, e, b.0, b.1.0, small) in
    let hi : (get_or tail n 0 * 256 + get_or tail (suc n) 0) / 256 % 256 ≡ get_or tail n 0 =
      omega (arith, g0, g1) in
    let lo : (get_or tail n 0 * 256 + get_or tail (suc n) 0) % 256 ≡ get_or tail (suc n) 0 =
      omega (arith, g0, g1) in
    rw (len, c0, c1, sym crc, hi, lo, take_two n tail 0 room) (ground (arith, small))

-- The header's checks have passed: what they have seen.
parse_parts :
    (s0 s1 l0 l1 cmd seq : ℕ) (tail : List ℕ) (c q : ℕ) (p : List ℕ) (t : ℕ)
    → tlv_parse (s0 ∷ s1 ∷ l0 ∷ l1 ∷ cmd ∷ seq ∷ tail) ≡ frame c q p t
    → (s0 ≡ 0xA5)
      × (s1 ≡ 0x5A)
      × (2 ≤ l0 + l1 * 256)
      × (l0 + l1 * 256 ≤ 58)
      × (check_frame (s0 ∷ s1 ∷ l0 ∷ l1 ∷ cmd ∷ seq ∷ tail) (l0 + l1 * 256 - 2) ≡ frame c q p t)
unfolding tlv_parse
parse_parts s0 s1 l0 l1 cmd seq tail c q p t h = ground (arith, h)

-- A parsed buffer has the six bytes of the header.
parse_short :
    (buf : List ℕ) (c q : ℕ) (p : List ℕ) (t : ℕ) → length buf < 8 → tlv_parse buf ≢ frame c q p t
unfolding tlv_parse
parse_short buf c q p t l h = ground (arith, l, h)

-- A frame that `tlv_parse` accepts in a buffer of bytes is the frame that `tlv_build` makes of its
-- command, sequence number and payload: the bytes at the start of the buffer that the parser takes,
-- 8 more than the payload, which has at most 56.
pub parse_sound :
    (buf : List ℕ) (c q : ℕ) (p : List ℕ) (t : ℕ)
    → Bytes buf
    → tlv_parse buf ≡ frame c q p t
    → (t ≤ length buf)
      × (length p ≤ 56)
      × (t ≡ 8 + length p)
      × (tlv_build c q p t ≡ some (take t buf))
parse_sound (s0 ∷ s1 ∷ l0 ∷ l1 ∷ cmd ∷ seq ∷ tail) c q p t b h =
    let (p0, p1, lo, hi, k) = parse_parts s0 s1 l0 l1 cmd seq tail c q p t h in
    let n = l0 + l1 * 256 - 2 in
    let k' = rw (p0, p1) at k in
    let (room, ec, eq, ep, et, crc) = check_frame_parts l0 l1 cmd seq n tail c q p t k' in
    let len : length (take n tail) ≡ n = omega (arith, length-take n tail, room) in
    let e8 : suc (suc (suc (suc (suc (suc (suc (suc n))))))) ≡ 8 + n = omega arith in
    let built =
      build_front l0 l1 cmd seq n tail (omega (arith, lo)) (omega (arith, hi)) room
        (b.1.1.0, (b.1.1.1.0, b.1.1.1.1.1.1)) crc in
    rw (sym ec, sym eq, sym ep, sym et, len, p0, p1)
      (
        omega (arith, room),
        omega (arith, hi),
        refl,
        built ∙ ap (λ k. some (take k (0xA5 ∷ 0x5A ∷ l0 ∷ l1 ∷ cmd ∷ seq ∷ tail))) e8,
      )
parse_sound [] c q p t b h = absurd (parse_short [] c q p t (omega arith) h)
parse_sound (x ∷ []) c q p t b h = absurd (parse_short (x ∷ []) c q p t (omega arith) h)
parse_sound (x ∷ y ∷ []) c q p t b h = absurd (parse_short (x ∷ y ∷ []) c q p t (omega arith) h)
parse_sound (x ∷ y ∷ z ∷ []) c q p t b h =
    absurd (parse_short (x ∷ y ∷ z ∷ []) c q p t (omega arith) h)
parse_sound (x ∷ y ∷ z ∷ u ∷ []) c q p t b h =
    absurd (parse_short (x ∷ y ∷ z ∷ u ∷ []) c q p t (omega arith) h)
parse_sound (x ∷ y ∷ z ∷ u ∷ v ∷ []) c q p t b h =
    absurd (parse_short (x ∷ y ∷ z ∷ u ∷ v ∷ []) c q p t (omega arith) h)
