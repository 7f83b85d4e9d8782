-- ===== src/Tasks/PersistTask/Queue.antt =====
-- The queue in front of the persist task, src/tasks/persist_task.c: the posts of the other tasks, and the turns of
-- persist_task_run. A post falls before or behind a whole turn.
pub mod Order
use open_evcharger.Prelude.{
  ℕ, ◌+◌, ◌≡◌, ◌≤◌, refl, sym, ap, ◌∙◌, List, [], ◌∷◌, ◌++◌, Bool, true, false, ◌||◌, if◌then◌else◌,
  ◌==◌, ltb, length, length-append, arith,
}
use open_evcharger.Persist.Flash.{Flash}
use open_evcharger.Tasks.Ota.{chunk}
use open_evcharger.Tasks.Comms.{ota}
use open_evcharger.Tasks.PersistTask.{Queued, command, Sent, Stored, handle}

-- `s_queue`, the oldest request first, and `s_overflow_warned`.
pub record PersistQueue : Type 0 where
  pub s_queue : List Queued
  pub s_overflow_warned : Bool

abbrev pub persist_queue_depth : ℕ
persist_queue_depth = 8

-- Whether the request is taken, and the queue. The warning in the log is left out.
unfoldable pub post : PersistQueue → Queued → Bool × PersistQueue
post x q =
    if ltb (length x.s_queue) persist_queue_depth
    then (true, record x { s_queue = x.s_queue ++ (q ∷ []) })
    else (false, record x { s_overflow_warned = true })

-- The one post that looks at its arguments.
unfoldable pub persist_post_ota_chunk :
    PersistQueue → (session_id offset : ℕ) → List ℕ → (seq : ℕ) → Bool × PersistQueue
persist_post_ota_chunk x session_id offset bytes seq =
    if length bytes == 0 || ltb 48 (length bytes)
    then (false, x)
    else post x (command (ota (chunk session_id offset bytes) seq))

-- What the other tasks and the persist task do, in any order.
pub data Step : Type 0 where
  posts : Queued → Step
  turns : Step

module _ {M : Type 0} (F : Flash M) where
  -- What became of the requests so far, with what was sent for them.
  pub record Run : Type 0 where
    pub accepted : List Queued
    pub handled : List Queued
    pub sent : List Sent
    pub queue : PersistQueue
    pub stored : Stored M

  -- One turn on the requests that wait: none, and the task sleeps, or the oldest.
  unfoldable pub turn : List Queued → PersistQueue → Stored M → Run
  turn [] x s = record { accepted = []; handled = []; sent = []; queue = x; stored = s }
  turn (q ∷ rest) x s =
      let r = handle F q s in
      record {
        accepted = [];
        handled = q ∷ [];
        sent = r.0;
        queue = record { s_queue = rest; s_overflow_warned = false };
        stored = r.1;
      }

  unfoldable pub run : List Step → PersistQueue → Stored M → Run
  run [] x s = record { accepted = []; handled = []; sent = []; queue = x; stored = s }
  run (posts q ∷ steps) x s =
      let p = post x q in
      let r = run steps p.1 s in record r { accepted = if p.0 then q ∷ r.accepted else r.accepted }
  run (turns ∷ steps) x s =
      let t = turn x.s_queue x s in
      let r = run steps t.queue t.stored in
      record r { handled = t.handled ++ r.handled; sent = t.sent ++ r.sent }

  -- The requests, one behind the other, without a queue.
  unfoldable pub handle_all : List Queued → Stored M → List Sent × Stored M
  handle_all [] s = ([], s)
  handle_all (q ∷ qs) s =
      let r = handle F q s in let rest = handle_all qs r.1 in (r.0 ++ rest.0, rest.1)
