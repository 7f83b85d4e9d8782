-- ===== src/Tasks/PersistTask/Queue/Order.antt =====
-- The order in which the persist task of src/tasks/persist_task.c handles what is posted to it.
use open_evcharger.Prelude.{
  ◌≡◌, ◌≤◌, refl, sym, ap, ◌∙◌, List, [], ◌∷◌, ◌++◌, if◌then◌else◌, length, length-append,
  append_assoc, append_nil, arith, inl, inr, Bool-cases,
}
use open_evcharger.Persist.Flash.{Flash}
use open_evcharger.Tasks.PersistTask.{Queued, Stored}
use open_evcharger.Tasks.PersistTask.Queue.{
  PersistQueue, persist_queue_depth, post, Step, posts, turns, turn, run, handle_all,
}

-- What a post adds to the queue.
post-queue :
    (x : PersistQueue) (q : Queued)
    → (post x q).1.s_queue ≡ (if (post x q).0 then x.s_queue ++ (q ∷ []) else x.s_queue)
unfolding post
post-queue x q = ground arith

post-length :
    (x : PersistQueue) (q : Queued)
    → length x.s_queue ≤ persist_queue_depth
    → length (post x q).1.s_queue ≤ persist_queue_depth
unfolding post
post-length x q h = ground (arith, h, length-append x.s_queue (q ∷ []))

-- The queue with what is accepted then, after a post.
post-accepts :
    (x : PersistQueue) (q : Queued) (qs : List Queued)
    → x.s_queue ++ (if (post x q).0 then q ∷ qs else qs) ≡ (post x q).1.s_queue ++ qs
post-accepts x q qs = elim (Bool-cases (post x q).0) [
  | inl ok ↦ rw (post-queue x q, ok) (sym (append_assoc x.s_queue (q ∷ []) qs))
  | inr full ↦ rw (post-queue x q, full) refl
]

module _ {M : Type 0} (F : Flash M) where
  turn-queue :
      (w : List Queued) (x : PersistQueue) (s : Stored M)
      → x.s_queue ≡ w
      → let t = turn F w x s in
        (t.handled ++ t.queue.s_queue ≡ w) × (length t.queue.s_queue ≤ length w)
  unfolding turn
  turn-queue [] x s e = (e, omega (arith, ap length e))
  turn-queue (q ∷ rest) x s e = (refl, omega arith)

  turn-handles :
      (w : List Queued) (x : PersistQueue) (s : Stored M) (qs : List Queued)
      → let t = turn F w x s in
        let r = handle_all F qs t.stored in handle_all F (t.handled ++ qs) s ≡ (t.sent ++ r.0, r.1)
  unfolding turn handle_all
  turn-handles [] x s qs = refl
  turn-handles (q ∷ rest) x s qs = refl

  -- Over any posts and turns, from a queue within its depth: the requests that waited and those that were taken
  -- since, in this order, are those that were handled and then those that wait now, within the depth. What was
  -- sent and what is stored is that of the handled requests, one behind the other.
  pub run-in_order :
      (steps : List Step) (x : PersistQueue) (s : Stored M)
      → length x.s_queue ≤ persist_queue_depth
      → let r = run F steps x s in
        (x.s_queue ++ r.accepted ≡ r.handled ++ r.queue.s_queue)
        × (length r.queue.s_queue ≤ persist_queue_depth)
        × (handle_all F r.handled s ≡ (r.sent, r.stored))
  unfolding run handle_all
  run-in_order [] x s room = (append_nil x.s_queue, room, refl)
  run-in_order (posts q ∷ steps) x s room =
      let p = post x q in
      let r = run F steps p.1 s in
      let (order, bound, same) = run-in_order steps p.1 s (post-length x q room) in
      (post-accepts x q r.accepted ∙ order, bound, same)
  run-in_order (turns ∷ steps) x s room =
      let t = turn F x.s_queue x s in
      let r = run F steps t.queue t.stored in
      let (split, shorter) = turn-queue x.s_queue x s refl in
      let (order, bound, same) =
        run-in_order steps t.queue t.stored (omega (arith, room, shorter)) in
      (
        ap (λ w. w ++ r.accepted) (sym split)
            ∙ append_assoc t.handled t.queue.s_queue r.accepted
            ∙ ap (λ w. t.handled ++ w) order
            ∙ sym (append_assoc t.handled r.handled r.queue.s_queue),
        bound,
        turn-handles x.s_queue x s r.handled ∙ ap (λ z. (t.sent ++ z.0, z.1)) same,
      )
