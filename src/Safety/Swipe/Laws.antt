-- ===== src/Safety/Swipe/Laws.antt =====
-- The card reader of src/tasks/safety_task.c touches neither the fault state nor the contactor.
use open_evcharger.Prelude.{
  ℕ, ◌≡◌, Bool, true, false, List, [], ◌∷◌, not, ◌&&◌, ltb, ◌==◌, arith, if◌then◌else◌,
}
use open_evcharger.Core.Rfid
use open_evcharger.Core.Rfid.{RfidCtx, RfidAction}
use open_evcharger.Core.J1772.{J1772State}
use open_evcharger.Safety.State.{
  EvseState, charging, user_paused, user_pause, user_resume, Request, Output, rejected, rfid_swipe,
  Env, Sup,
}
use open_evcharger.Safety.Session.{emit}
use open_evcharger.Safety.Invariant.{Inv, RelayOk}
use open_evcharger.Safety.Metering.Laws.{Good}
use open_evcharger.Safety.Inbox.{post_safety_req, send_rfid_config}
use open_evcharger.Safety.Swipe.{learn, dispatch, matched, authorize, on_card, on_edge, read_card}

-- The variables that decide on the contactor and the pilot.
pub record Same (s t : Sup) : Type 0 where
  pub fs : t.fs ≡ s.fs
  pub es : t.es ≡ s.es
  pub relay : t.relay_cmd ≡ s.relay_cmd
  pub latch : t.force_open ≡ s.force_open
  pub pilot : t.cp_out ≡ s.cp_out
  pub session : t.session ≡ s.session
  pub derate : t.soc_derate_amps ≡ s.soc_derate_amps
  pub replug : t.replug_window_ticks ≡ s.replug_window_ticks

module _ {s t : Sup} where
  -- What leaves more alone leaves this alone.
  Same-trans : {u : Sup} → Same s t → Same t u → Same s u
  Same-trans v w = ground (arith, v, w)

post-Same : (r : Request) (s : Sup) → Same s (post_safety_req r s).0
unfolding post_safety_req
post-Same r s = ground arith

emit-Same : (o : Output) (s : Sup) → Same s (emit o s)
unfolding emit
emit-Same o s = ground arith

send-Same : (env : Env) (s : Sup) → Same s (send_rfid_config env s)
unfolding send_rfid_config
send-Same env s = ground arith

authorized-Same : (s : Sup) → Same s (record s { session_authorized = true })
authorized-Same s = ground arith

if_Same : (b : Bool) (s t u : Sup) → Same s t → Same s u → Same s (if b then t else u)
if_Same true s t u v w = v
if_Same false s t u v w = w

if_Same_fst :
    {A : Type 0} (b : Bool) (s : Sup) (t u : Sup × A)
    → Same s t.0
    → Same s u.0
    → Same s (if b then t else u).0
if_Same_fst true s t u v w = v
if_Same_fst false s t u v w = w

refl-Same : (s : Sup) → Same s s
refl-Same s = ground arith

learn-Same : (env : Env) (uid : ℕ) (s : Sup) → Same s (learn env uid s).0
unfolding learn
learn-Same env uid s = ground arith

dispatch-Same : (es : EvseState) (s : Sup) → Same s (dispatch es s).0
unfolding dispatch
dispatch-Same charging s = post-Same (user_pause 0xFF) s
dispatch-Same user_paused s = post-Same user_resume s
dispatch-Same _ s = refl-Same s

matched-Same : (env : Env) (s : Sup) → Same s (matched env s).0
unfolding matched
matched-Same env s =
    let t = (dispatch s.es (record s { session_authorized = true })).0 in
    let v : Same s t =
      Same-trans (authorized-Same s)
        (dispatch-Same s.es (record s { session_authorized = true })) in
    if_Same s.session_authorized s t (send_rfid_config env t) v (Same-trans v (send-Same env t))

authorize-Same : (env : Env) (uid : ℕ) (s : Sup) → Same s (authorize env uid s).0
unfolding authorize
authorize-Same env uid s =
    if_Same_fst (ltb 0 s.rfid_learn_ticks) s (learn env uid s) _ (learn-Same env uid s) (
      if_Same_fst (env.authlist_contains uid) s (matched env s) (s, rejected) (matched-Same env s)
        (refl-Same s))

on_card-Same : (env : Env) (uid : ℕ) (s : Sup) → Same s (on_card env uid s)
unfolding on_card
on_card-Same env uid s = Same-trans (authorize-Same env uid s) (emit-Same _ _)

on_edge-Same : (env : Env) (act : RfidAction) (s : Sup) → Same s (on_edge env act s)
unfolding on_edge
on_edge-Same env act s =
    let t = emit (rfid_swipe act.uid act.present) s in
    let v : Same s t = emit-Same _ s in
    if_Same (act.present && not (act.uid == 0)) s (on_card env act.uid t) t
      (Same-trans v (on_card-Same env act.uid t)) v

-- Whatever bytes the reader sends, the card block leaves the fault state, the supervisor's state,
-- the contactor, the latch, the pilot, the session, the derate and the replug window alone.
pub read_card-Same :
    (env : Env) (rx : List ℕ) (s : Sup) (ctx : RfidCtx) → Same s (read_card env rx s ctx).0
unfolding read_card
read_card-Same env [] s ctx = refl-Same s
read_card-Same env (x ∷ xs) s ctx =
    if_Same _ s (on_edge env (Rfid.feed ctx (x ∷ xs)).1 s) s (on_edge-Same env _ s) (refl-Same s)

-- What leaves these variables alone keeps the invariant and the rule on the closed contactor.
pub Same-Good : (js : J1772State) {s t : Sup} → Same s t → Good js s → Good js t
unfolding RelayOk
Same-Good js v g = record { inv = ground (arith, v, g.inv); relay = ground (arith, v, g) }

pub Same-Inv : {s t : Sup} → Same s t → Inv s → Inv t
Same-Inv v w = ground (arith, v, w)
