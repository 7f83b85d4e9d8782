-- ===== src/Safety/Swipe.antt =====
-- The card-reader block of src/tasks/safety_task.c: what a frame edge makes the supervisor do.
pub mod Laws
use open_evcharger.Prelude.{
  ℕ, ◌+◌, ◌-◌, Bool, true, false, not, ◌&&◌, List, [], ◌∷◌, if◌then◌else◌, ltb, leb, ◌==◌,
}
use open_evcharger.Core.Rfid
use open_evcharger.Core.Rfid.{RfidCtx, RfidAction}
use open_evcharger.Safety.State.{
  EvseState, boot, self_test, ready, charging, user_paused, cooling_down, fault, user_pause,
  user_resume, AuthResult, learned, start, stop, matched_noop, rejected, list_full, rfid_swipe,
  rfid_auth_result, authlist_add, Env, Sup,
}
use open_evcharger.Safety.Session.{emit}
use open_evcharger.Safety.Inbox.{post_safety_req, send_rfid_config}

-- `RFID_AUTHLIST_MAX`
abbrev pub authlist_max : ℕ
authlist_max = 28

-- Learn mode: the card goes on the list if there is room. The mode ends.
unfoldable pub learn : Env → ℕ → Sup → Sup × AuthResult
unfolding emit
learn env uid s =
    let t = record s { rfid_learn_ticks = 0 } in
    if leb authlist_max env.authlist_count
    then (t, list_full)
    else (emit (authlist_add uid) t, learned)

-- What a card on the list does in each state.
unfoldable pub dispatch : EvseState → Sup → Sup × AuthResult
unfolding post_safety_req
dispatch charging s = ((post_safety_req (user_pause 0xFF) s).0, stop)
dispatch ready s = (s, start)
dispatch user_paused s = ((post_safety_req user_resume s).0, start)
dispatch boot s = (s, matched_noop)
dispatch self_test s = (s, matched_noop)
dispatch cooling_down s = (s, matched_noop)
dispatch fault s = (s, matched_noop)

unfoldable pub matched : Env → Sup → Sup × AuthResult
matched env s =
    let (t, result) = dispatch s.es (record s { session_authorized = true }) in
    (if s.session_authorized then t else send_rfid_config env t, result)

-- A card that was put down.
unfoldable pub authorize : Env → ℕ → Sup → Sup × AuthResult
authorize env uid s =
    if ltb 0 s.rfid_learn_ticks
    then learn env uid s
    else if env.authlist_contains uid
    then matched env s
    else (s, rejected)

unfoldable pub on_card : Env → ℕ → Sup → Sup
on_card env uid s = let (t, result) = authorize env uid s in emit (rfid_auth_result uid result) t

unfoldable pub on_edge : Env → RfidAction → Sup → Sup
on_edge env act s =
    let t = emit (rfid_swipe act.uid act.present) s in
    if act.present && not (act.uid == 0) then on_card env act.uid t else t

-- The bytes from the reader, if there are any.
unfoldable pub read_card : Env → List ℕ → Sup → RfidCtx → Sup × RfidCtx
read_card env [] s ctx = (s, ctx)
read_card env (x ∷ xs) s ctx =
    let (ctx', act, edges) = Rfid.feed ctx (x ∷ xs) in
    (if act.edge then on_edge env act s else s, ctx')

-- `if (s_rfid_learn_ticks > 0) --s_rfid_learn_ticks`
unfoldable pub age_learning : Sup → Sup
age_learning s = record s { rfid_learn_ticks = s.rfid_learn_ticks - 1 }
