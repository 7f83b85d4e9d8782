-- ===== src/Tasks/Ota/Staged.antt =====
-- An update that goes well, from the begin to the commit: src/tasks/persist_task.c over src/persist/ota_stage.c.
use open_evcharger.Prelude.{
  ℕ, ◌+◌, ◌-◌, ◌≡◌, ◌≤◌, ◌<◌, refl, sym, ap, ◌∙◌, List, [], ◌∷◌, ◌++◌, true, false, Bool-cases, inl,
  inr, ◌==◌, ==_iff, ltb, length, length-append, append_assoc, arith,
}
use open_evcharger.Persist.Crc.{crc32}
use open_evcharger.Persist.Flash.{Flash, Chip, blank}
use open_evcharger.Persist.Slot.{Store}
use open_evcharger.Persist.BootConfig.{BootConfig}
use open_evcharger.Persist.OtaStage.{
  StageResult, done, ota_stage_begin, ota_stage_write, write_pages, region_base, region_size,
}
use open_evcharger.Persist.OtaStage.Pages.{
  blank_parts, write_pages-beside, write_pages-read, failed_done,
}
use open_evcharger.Persist.OtaStage.Erase.{ota_stage_begin-blank}
use open_evcharger.Tasks.Ota.{
  OtaStatus, ok, Ota, handle_ota_begin, handle_ota_chunk, handle_ota_commit, ota_in_session,
}
use open_evcharger.Tasks.Ota.Cases.{begin-cases, chunk-cases}
use mathlib.Core.Path.{subst}
use open_evcharger.Persist.OtaStage.{ota_stage_compute_crc, ota_stage_mark_pending}
use open_evcharger.Persist.OtaStage.Crc.{compute_crc-crc32}

-- The session `id` for an image of `size` bytes with checksum `crc` has staged the bytes `bs`, and the rest of
-- its room is erased.
pub record Staged {M : Type 0} (F : Flash M) (id size crc : ℕ) (o : Ota M) (bs : List ℕ)
    : Type 0 where
  pub live : 0 < id
  pub mine : o.s_ota.session_id ≡ id
  pub sized : o.s_ota.expected_size ≡ size
  pub checked : o.s_ota.expected_crc32 ≡ crc
  pub counted : o.s_ota.next_offset ≡ length bs
  pub held : F.read o.flash region_base (length bs) ≡ bs
  pub ahead : F.read o.flash (region_base + length bs) (size - length bs) ≡ blank (size - length bs)

-- Chunks that are taken one after the other, with refused ones between them that changed nothing.
pub data Streams {M : Type 0} (F : Flash M) (S : Store M BootConfig) (id : ℕ)
    : Ota M → List ℕ → Ota M → Type 0 where
  stop : {o : Ota M} → Streams F S id o [] o
  taken :
      {o k l : Ota M} {cs : List ℕ} (offset : ℕ) (bytes : List ℕ)
      → handle_ota_chunk F S o id offset bytes ≡ (ok, k)
      → Streams F S id k cs l
      → Streams F S id o (bytes ++ cs) l
  refused :
      {o l : Ota M} {cs : List ℕ} (st : OtaStatus) (other offset : ℕ) (bytes : List ℕ)
      → handle_ota_chunk F S o other offset bytes ≡ (st, o)
      → Streams F S id o cs l
      → Streams F S id o cs l

append_nil : (xs : List ℕ) → xs ++ [] ≡ xs
append_nil [] = refl
append_nil (x ∷ xs) = ap (λ ts. x ∷ ts) (append_nil xs)

empty : (xs : List ℕ) → length xs ≡ 0 → xs ≡ []
empty [] h = refl
empty (x ∷ xs) h = absurd (omega (arith, h))

module _ {M : Type 0} (F : Flash M) (S : Store M BootConfig) (chip : Chip F) where
  write-pages :
      (m : M) (offset : ℕ) (src : List ℕ)
      → (ota_stage_write F m offset src).0 ≡ done
      → ota_stage_write F m offset src ≡ write_pages F (length src) (region_base + offset) src m
  unfolding ota_stage_write
  write-pages m offset src e = elim (Bool-cases (length src == 0)) [
    | inl h ↦ absurd (failed_done 4 (rw h at e))
    | inr h ↦ elim (Bool-cases (ltb region_size (offset + length src))) [
      | inl k ↦ absurd (failed_done 3 (rw (h, k) at e))
      | inr k ↦ rw (h, k) refl
    ]
  ]

  begin-Staged :
      (o : Ota M) (size crc id : ℕ)
      → (handle_ota_begin F S o size crc id).0 ≡ ok
      → Staged F id size crc (handle_ota_begin F S o size crc id).1 []
  begin-Staged o size crc id e = elim (begin-cases F S o size crc id) [
    | inl (other, s) ↦ absurd (other e)
    | inr (inl (other, s)) ↦ absurd (other e)
    | inr (inr (live, fits, erased, s)) ↦ rw s (record {
      live = live;
      mine = refl;
      sized = refl;
      checked = refl;
      counted = refl;
      held = empty _ (chip.length-read _ region_base 0);
      ahead =
          let all : size - 0 ≡ size = omega arith in
          ap (F.read (ota_stage_begin F o.flash size).1 region_base) all
          ∙ ota_stage_begin-blank F chip o.flash size erased
          ∙ ap blank (sym all);
    })
  ]

  -- What a write behind the bytes that are there leaves.
  write-grows :
      (m : M) (n room : ℕ) (bytes bs : List ℕ)
      → length bs ≡ n
      → length bytes ≤ room
      → F.read m region_base n ≡ bs
      → F.read m (region_base + n) room ≡ blank room
      → (ota_stage_write F m n bytes).0 ≡ done
      → let m1 = (ota_stage_write F m n bytes).1 in
        (F.read m1 region_base (n + length bytes) ≡ bs ++ bytes)
        × (F.read m1 (region_base + n + length bytes) (room - length bytes)
            ≡ blank (room - length bytes))
  write-grows m n room bytes bs sized fits held ahead stored =
      let same = write-pages m n bytes stored in
      let k = length bytes in
      let m1 = (write_pages F k (region_base + n) bytes m).1 in
      let split : room ≡ k + (room - k) = omega (arith, fits) in
      let parts =
        blank_parts F chip m (region_base + n) k (room - k)
          (subst (λ j. F.read m (region_base + n) j ≡ blank j) split ahead) in
      let written : F.read m1 (region_base + n) k ≡ bytes =
        write_pages-read F chip k (region_base + n) bytes m (omega arith) parts.0
          (ap (λ (s : StageResult × M). s.0) (sym same) ∙ stored) in
      let before : F.read m1 region_base n ≡ bs =
        write_pages-beside F chip k (region_base + n) bytes m region_base n (inl (omega arith))
        ∙ held in
      let behind : F.read m1 (region_base + n + k) (room - k) ≡ blank (room - k) =
        write_pages-beside F chip k (region_base + n) bytes m (region_base + n + k) (room - k)
          (inr (omega arith))
        ∙ parts.1 in
      rw same (
        chip.read_append m1 region_base n k
            ∙ ap (λ xs. xs ++ F.read m1 (region_base + n) k) before
            ∙ ap (λ ys. bs ++ ys) written,
        behind,
      )

  chunk-Staged :
      (o : Ota M) (id size crc offset : ℕ) (bytes bs : List ℕ)
      → Staged F id size crc o bs
      → (handle_ota_chunk F S o id offset bytes).0 ≡ ok
      → Staged F id size crc (handle_ota_chunk F S o id offset bytes).1 (bs ++ bytes)
  chunk-Staged o id size crc offset bytes bs st e = elim (chunk-cases F S o id offset bytes) [
    | inl (other, s) ↦ absurd (other e)
    | inr (mine, next, room, stored, s) ↦
        let here : length bs ≡ offset = omega (arith, next, st.counted) in
        let m1 = (ota_stage_write F o.flash offset bytes).1 in
        let left = size - length bs in
        let grown =
          write-grows o.flash offset left bytes bs here
            (omega (arith, room, st.sized, next, st.counted))
            (ap (F.read o.flash region_base) (sym here) ∙ st.held)
            (ap (λ a. F.read o.flash (region_base + a) left) (sym here) ∙ st.ahead) stored in
        let count : length (bs ++ bytes) ≡ offset + length bytes =
          omega (arith, length-append bs bytes, here) in
        let there : region_base + length (bs ++ bytes) ≡ region_base + offset + length bytes =
          omega (arith, count) in
        let less : size - length (bs ++ bytes) ≡ left - length bytes = omega (arith, count, here) in
        rw s (record {
          live = st.live;
          mine = st.mine;
          sized = st.sized;
          checked = st.checked;
          counted = sym count;
          held = ap (F.read m1 region_base) count ∙ grown.0;
          ahead =
              ap (λ a. F.read m1 a (size - length (bs ++ bytes))) there
              ∙ ap (F.read m1 (region_base + offset + length bytes)) less
              ∙ grown.1
              ∙ ap blank (sym less);
        })
  ]

  stream-Staged :
      (id size crc : ℕ) {o l : Ota M} {cs : List ℕ} (bs : List ℕ)
      → Streams F S id o cs l
      → Staged F id size crc o bs
      → Staged F id size crc l (bs ++ cs)
  stream-Staged id size crc bs stop st = subst (Staged F id size crc _) (sym (append_nil bs)) st
  stream-Staged id size crc bs (taken {o} {k} {l} {cs} offset bytes e more) st =
      subst (Staged F id size crc l) (append_assoc bs bytes cs) (
        stream-Staged id size crc (bs ++ bytes) more (
          subst (λ (r : OtaStatus × Ota M). Staged F id size crc r.1 (bs ++ bytes)) e
            (chunk-Staged o id size crc offset bytes bs st (ap (λ r. r.0) e))))
  stream-Staged id size crc bs (refused status other offset bytes e more) st =
      stream-Staged id size crc bs more st

  pub commit-ready :
      (l : Ota M) (id size crc : ℕ)
      → 0 < id
      → l.s_ota.session_id ≡ id
      → l.s_ota.expected_size ≡ size
      → l.s_ota.expected_crc32 ≡ crc
      → l.s_ota.next_offset ≡ size
      → ota_stage_compute_crc F l.flash size ≡ crc
      → (ota_stage_mark_pending S l.cfg l.flash size crc).0 ≡ true
      → (handle_ota_commit F S l id).0 ≡ ok
  unfolding handle_ota_commit ota_in_session
  commit-ready l id size crc live mine sized checked counted whole marked =
      let in_session : (l.s_ota.session_id == 0) ≡ false = ground (arith, mine, live) in
      let my_session : (id == l.s_ota.session_id) ≡ true = ground (arith, mine) in
      let complete : (l.s_ota.next_offset == size) ≡ true = ground (arith, counted) in
      let good : (ota_stage_compute_crc F l.flash size == crc) ≡ true =
        (==_iff (ota_stage_compute_crc F l.flash size) crc).1 whole in
      rw (in_session, my_session, sized, complete, checked, good, marked) refl

  -- On a chip that keeps its promises: after a begin answered with OK for the size and checksum of an image,
  -- and chunks of that image that were each answered with OK, with any refused chunks between them that
  -- changed nothing, the commit is answered with OK if the settings can be stored.
  pub upload-commits :
      (o l : Ota M) (id crc : ℕ) (image : List ℕ)
      → crc32 image ≡ crc
      → let b = handle_ota_begin F S o (length image) crc id in
        b.0 ≡ ok
        → Streams F S id b.1 image l
        → (ota_stage_mark_pending S l.cfg l.flash (length image) crc).0 ≡ true
        → (handle_ota_commit F S l id).0 ≡ ok
  upload-commits o l id crc image sum begun stream marked =
      let st =
        stream-Staged id (length image) crc [] stream
          (begin-Staged o (length image) crc id begun) in
      let whole : ota_stage_compute_crc F l.flash (length image) ≡ crc =
        compute_crc-crc32 F chip l.flash (length image) ∙ ap crc32 st.held ∙ sum in
      commit-ready l id (length image) crc st.live st.mine st.sized st.checked st.counted whole
        marked
