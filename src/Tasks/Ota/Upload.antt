-- ===== src/Tasks/Ota/Upload.antt =====
-- An update from its begin to its last chunk: the OTA handlers of src/tasks/persist_task.c.
use open_evcharger.Prelude.{
  ℕ, ◌≡◌, ◌≤◌, ◌⊎◌, refl, sym, ap, ◌∙◌, List, [], ◌∷◌, ◌++◌, inl, inr, length, length-append, arith,
}
use open_evcharger.Persist.Flash.{Flash}
use open_evcharger.Persist.Slot.{Store}
use open_evcharger.Persist.BootConfig.{BootConfig}
use open_evcharger.Persist.OtaStage.{region_size, ota_crc_init, ota_crc_update}
use open_evcharger.Persist.OtaStage.Crc.{update-append}
use open_evcharger.Tasks.Ota.{
  Ota, OtaReq, begin, chunk, commit, abort, handle_ota_begin, handle_ota_chunk, handle_ota_commit,
  handle_ota_abort, dispatch, dispatch_all, ota_session_reset,
}
use open_evcharger.Tasks.Ota.Cases.{begin-cases, chunk-cases}

-- The session has taken the bytes `bs`: their number, their checksum, and room for what was announced.
pub record Received {M : Type 0} (o : Ota M) (bs : List ℕ) : Type 0 where
  pub counted : o.s_ota.next_offset ≡ length bs
  pub summed : o.s_ota.running_crc ≡ ota_crc_update ota_crc_init bs
  pub within : length bs ≤ o.s_ota.expected_size
  pub region : o.s_ota.expected_size ≤ region_size

reset-Received : {M : Type 0} (o : Ota M) → o.s_ota ≡ ota_session_reset → Received o []
unfolding ota_crc_update ota_crc_init
reset-Received o e = record {
  counted = ap (λ s. s.next_offset) e;
  summed = ap (λ s. s.running_crc) e;
  within = omega arith;
  region = omega (arith, ap (λ s. s.expected_size) e);
}

fresh-Received :
    {M : Type 0} (o : Ota M)
    → o.s_ota.next_offset ≡ 0
    → o.s_ota.running_crc ≡ 0xFFFFFFFF
    → o.s_ota.expected_size ≤ region_size
    → Received o []
unfolding ota_crc_update ota_crc_init
fresh-Received o start seed fits = record {
  counted = start;
  summed = seed;
  within = omega arith;
  region = fits;
}

same-Received :
    {M : Type 0} (o k : Ota M) (bs : List ℕ) → k.s_ota ≡ o.s_ota → Received o bs → Received k bs
same-Received o k bs e got = record {
  counted = ap (λ s. s.next_offset) e ∙ got.counted;
  summed = ap (λ s. s.running_crc) e ∙ got.summed;
  within = omega (arith, ap (λ s. s.expected_size) e, got.within);
  region = omega (arith, ap (λ s. s.expected_size) e, got.region);
}

module _ {M : Type 0} (F : Flash M) (S : Store M BootConfig) where
  begin-Received :
      (o : Ota M) (image_size image_crc32 id : ℕ) (bs : List ℕ)
      → Received o bs
      → (cs : List ℕ) × Received (handle_ota_begin F S o image_size image_crc32 id).1 cs
  begin-Received o image_size image_crc32 id bs got =
      elim (begin-cases F S o image_size image_crc32 id) [
        | inl (other, e) ↦ (bs, same-Received o _ bs e got)
        | inr (inl (other, e)) ↦ ([], reset-Received _ e)
        | inr (inr (live, fits, erased, e)) ↦ ([], rw e (fresh-Received _ refl refl fits))
      ]

  chunk-Received :
      (o : Ota M) (id offset : ℕ) (bytes bs : List ℕ)
      → Received o bs
      → (cs : List ℕ) × Received (handle_ota_chunk F S o id offset bytes).1 cs
  chunk-Received o id offset bytes bs got = elim (chunk-cases F S o id offset bytes) [
    | inl (other, e) ↦ (bs, same-Received o _ bs e got)
    | inr (mine, next, room, stored, e) ↦ (
      bs ++ bytes,
      rw e (record {
        counted = omega (arith, next, got.counted, length-append bs bytes);
        summed =
            ap (λ k. ota_crc_update k bytes) got.summed ∙ sym (update-append bs bytes ota_crc_init);
        within = omega (arith, next, got.counted, length-append bs bytes, room);
        region = got.region;
      }),
    )
  ]

  commit-session : (o : Ota M) (id : ℕ) → (handle_ota_commit F S o id).1.s_ota ≡ o.s_ota
  unfolding handle_ota_commit
  commit-session o id = ground arith

  abort-cases :
      (o : Ota M) (id : ℕ)
      → let k = handle_ota_abort F S o id in (k.s_ota ≡ o.s_ota) ⊎ (k.s_ota ≡ ota_session_reset)
  unfolding handle_ota_abort
  abort-cases o id = ground arith

  dispatch-Received :
      (q : OtaReq) (o : Ota M) (bs : List ℕ)
      → Received o bs
      → (cs : List ℕ) × Received (dispatch F S q o).1 cs
  unfolding dispatch
  dispatch-Received (begin image_size image_crc32 id) o bs got =
      begin-Received o image_size image_crc32 id bs got
  dispatch-Received (chunk id offset bytes) o bs got = chunk-Received o id offset bytes bs got
  dispatch-Received (commit id) o bs got = (bs, same-Received o _ bs (commit-session o id) got)
  dispatch-Received (abort id) o bs got = elim (abort-cases o id) [
    | inl e ↦ (bs, same-Received o _ bs e got)
    | inr e ↦ ([], reset-Received _ e)
  ]

  -- Any sequence of update requests, with any operation of the flash failing, keeps the session coherent:
  -- its next offset is the number of some bytes whose running checksum it holds, it is no more than the
  -- announced size, and that fits the staging region.
  pub dispatch_all-Received :
      (qs : List OtaReq) (o : Ota M) (bs : List ℕ)
      → Received o bs
      → (cs : List ℕ) × Received (dispatch_all F S qs o) cs
  unfolding dispatch_all
  dispatch_all-Received [] o bs got = (bs, got)
  dispatch_all-Received (q ∷ qs) o bs got =
      let step = dispatch-Received q o bs got in
      dispatch_all-Received qs (dispatch F S q o).1 step.0 step.1
