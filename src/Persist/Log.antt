-- ===== src/Persist/Log.antt =====
-- The two logs in flash, src/persist/event_log.c and src/persist/session_log.c. The two files are one
-- algorithm over two layouts: a ring of 32-byte records in whole sectors, found again at start-up.
pub mod Startup
pub mod Append
pub mod Ready
pub mod History
pub mod Reboot
pub mod Runs
use open_evcharger.Prelude.{
  ℕ, zero, suc, ◌+◌, ◌-◌, ◌*◌, ◌/◌, ◌%◌, List, [], ◌∷◌, ◌++◌, Bool, true, false, not, ◌&&◌, ◌||◌,
  if◌then◌else◌, ◌==◌, ltb, leb, get_or, take, drop,
}
use open_evcharger.Persist.Bytes.{le32_load, splice}
use open_evcharger.Persist.Crc.{crc16_ccitt}
use open_evcharger.Persist.Flash.{Flash}

-- What differs: the region, and where a record has its time and its boot count.
pub record LogLayout : Type 0 where
  pub base : ℕ
  pub sectors : ℕ
  pub ts_at : ℕ
  pub boot_at : ℕ

-- `struct event_record`: timestamp, boot_count.
abbrev pub event_layout : LogLayout
event_layout = record { base = 0x004000; sectors = 64; ts_at = 0; boot_at = 4 }

-- `struct session_record`: start_ts, boot_count.
abbrev pub session_layout : LogLayout
session_layout = record { base = 0x044000; sectors = 8; ts_at = 0; boot_at = 18 }

-- The statics: `s_head_slot`, `s_boot_count`, `s_initialized`.
pub record Log : Type 0 where
  pub head_slot : ℕ
  pub boot_count : ℕ
  pub initialized : Bool

-- What `classify_record` returns: 0, 1, -1.
pub data Class : Type 0 where
  blank_record : Class
  valid_record : Class
  corrupt_record : Class

unfoldable pub all_ff : List ℕ → Bool
all_ff [] = true
all_ff (x ∷ xs) = x == 0xFF && all_ff xs

unfoldable pub le16_load : List ℕ → ℕ → ℕ
le16_load p i = get_or p i 0 + get_or p (i + 1) 0 * 256

unfoldable pub le16 : ℕ → List ℕ
le16 v = v % 256 ∷ v / 256 % 256 ∷ []

unfoldable pub classify_record : List ℕ → Class
classify_record p =
    if all_ff p
    then blank_record
    else if le16_load p 30 == crc16_ccitt (take 30 p)
    then valid_record
    else corrupt_record

-- Whether the key (b, t) may stand before (b', t'): the order that the scan keeps to.
unfoldable pub older : (b t b' t' : ℕ) → Bool
older b t b' t' = ltb b b' || (b' == b && leb t t')

-- The newest record so far: `seen_valid`, `latest_boot`, `latest_ts`, `latest_slot`.
pub record Scan : Type 0 where
  pub seen_valid : Bool
  pub latest_boot : ℕ
  pub latest_ts : ℕ
  pub latest_slot : ℕ

abbrev pub scan_start : Scan
scan_start = record { seen_valid = false; latest_boot = 0; latest_ts = 0; latest_slot = 0 }

-- What an append returns: 0, or the code without its sign.
pub data AppendResult : Type 0 where
  appended : AppendResult
  append_failed : ℕ → AppendResult

-- What a read returns: 0 with the record, 1, or -1.
pub data ReadResult : Type 0 where
  record_read : List ℕ → ReadResult
  no_valid_record : ReadResult
  read_refused : ReadResult

unfoldable pub as_read : List ℕ → Class → ReadResult
as_read p valid_record = record_read p
as_read p blank_record = no_valid_record
as_read p corrupt_record = no_valid_record

module _ (L : LogLayout) where
  abbrev pub total_records : ℕ
  total_records = L.sectors * 128

  abbrev pub slot_to_addr : ℕ → ℕ
  slot_to_addr slot = L.base + slot * 32

  -- The body of the scan's inner loop.
  unfoldable pub scan_record : ℕ → List ℕ → Scan → Scan
  scan_record slot p st =
      let key_boot = le16_load p L.boot_at in
      let key_ts = le32_load p L.ts_at in
      let found : Scan = record {
        seen_valid = true;
        latest_boot = key_boot;
        latest_ts = key_ts;
        latest_slot = slot;
      } in
      elim (classify_record p) [
        | blank_record ↦ st
        | corrupt_record ↦ st
        | valid_record ↦
            if not st.seen_valid || older st.latest_boot st.latest_ts key_boot key_ts
            then found
            else st
      ]

  -- The inner loop, with the records left, on the rest of the sector's buffer.
  unfoldable pub scan_sector : ℕ → ℕ → List ℕ → Scan → Scan
  scan_sector zero slot buf st = st
  scan_sector (suc left) slot buf st =
      scan_sector left (suc slot) (drop 32 buf) (scan_record slot (take 32 buf) st)

  -- The record as it is written: stamped with the boot count and the checksum.
  unfoldable pub stamp_record : ℕ → List ℕ → List ℕ
  stamp_record boot rec =
      let r = splice rec L.boot_at (le16 boot) in splice r 30 (le16 (crc16_ccitt (take 30 r)))

  module _ {M : Type 0} (F : Flash M) where
    unfoldable pub scan_log : ℕ → ℕ → M → Scan → Scan
    scan_log zero s m st = st
    scan_log (suc left) s m st =
        scan_log left (suc s) m (scan_sector 128 (s * 128) (F.read m (L.base + s * 4096) 4096) st)

    unfoldable pub log_init : Log → M → Log
    log_init g m =
        let st = scan_log L.sectors 0 m scan_start in
        record g {
          head_slot = if st.seen_valid then (st.latest_slot + 1) % total_records else 0;
          initialized = true;
        }

    -- At the first slot of a sector: erase it if the record there is not blank.
    unfoldable pub make_room : ℕ → M → Bool × M
    make_room slot m =
        let addr = slot_to_addr slot in
        let e = F.erase m addr in
        if not (slot % 128 == 0)
        then (true, m)
        else if all_ff (F.read m addr 32)
        then (true, m)
        else (e.1, e.0)

    unfoldable pub log_append : Log → M → List ℕ → AppendResult × Log × M
    log_append g m rec =
        let room = make_room g.head_slot m in
        let p = F.program room.1 (slot_to_addr g.head_slot) (stamp_record g.boot_count rec) in
        if not g.initialized
        then (append_failed 1, g, m)
        else if not room.0
        then (append_failed 2, g, room.1)
        else if not p.1
        then (append_failed 3, g, p.0)
        else (appended, record g { head_slot = (g.head_slot + 1) % total_records }, p.0)

    unfoldable pub log_read_nth : M → ℕ → ReadResult
    log_read_nth m n =
        let p = F.read m (slot_to_addr n) 32 in
        if leb total_records n then read_refused else as_read p (classify_record p)

unfoldable pub log_set_boot_count : Log → ℕ → Log
log_set_boot_count g boot = record g { boot_count = boot }

-- The operations of the two files, each with its layout.
module _ {M : Type 0} (F : Flash M) where
  abbrev pub event_log_init : Log → M → Log
  event_log_init = log_init event_layout F

  abbrev pub event_log_append : Log → M → List ℕ → AppendResult × Log × M
  event_log_append = log_append event_layout F

  abbrev pub event_log_read_nth : M → ℕ → ReadResult
  event_log_read_nth = log_read_nth event_layout F

  abbrev pub session_log_init : Log → M → Log
  session_log_init = log_init session_layout F

  abbrev pub session_log_append : Log → M → List ℕ → AppendResult × Log × M
  session_log_append = log_append session_layout F

  abbrev pub session_log_read_nth : M → ℕ → ReadResult
  session_log_read_nth = log_read_nth session_layout F
