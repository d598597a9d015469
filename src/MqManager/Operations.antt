-- ===== src/MqManager/Operations.antt =====
-- Every state that the operations of MQManager lead to from its constructor meets the invariant.
use sik_screenworms.Base.{
  ℕ, zero, suc, ◌+◌, ◌^◌, ◌<◌, ◌≡◌, refl, inl, inr, List, [], ◌∷◌, length, ltb, Option-cases,
  Outcome, ok, After, After-any, After-ok, if-elim, find,
}
use sik_screenworms.MqManager.{
  Fingerprint, MqManager, ScheduledEvent, MessageAndRecipient, init, schedule, message_for, serve,
  serve_front, open_next_game, get_next_message, ack, add_queue, drop_queue,
}
use sik_screenworms.MqManager.Invariant.{
  IsServable, Fits, init-IsServable, schedule-IsServable, stored_count, open_next_game-IsServable,
}
use sik_screenworms.MqManager.Clients.{ack-IsServable, add_queue-IsServable, drop_queue-IsServable}
use sik_screenworms.MqManager.Sending.{rotate, rotate-IsServable}

-- The calls that are made, one after another, of a manager that was constructed.
pub data Operated (garbage : ℕ) : MqManager → Type 0 where
  constructed : Operated garbage (init garbage)
  scheduled :
      {q : MqManager}
      → Operated garbage q
      → (game_id : ℕ) (s : ScheduledEvent) → Fits s
      → stored_count game_id q + 1 < 2 ^ 32
      → Operated garbage (schedule game_id s q)
  acknowledged_by :
      {q q' : MqManager}
      → Operated garbage q
      → (f : Fingerprint) (next : ℕ) → ack f next q ≡ ok q'
      → Operated garbage q'
  added :
      {q : MqManager}
      → Operated garbage q
      → (f : Fingerprint) (next : ℕ) → Operated garbage (add_queue f next q)
  dropped :
      {q : MqManager} → Operated garbage q → (f : Fingerprint) → Operated garbage (drop_queue f q)
  picked :
      {q q' : MqManager} {m : MessageAndRecipient}
      → Operated garbage q
      → get_next_message q ≡ ok (m, q')
      → Operated garbage q'

LeavesServable : MessageAndRecipient × MqManager → Type 0
LeavesServable r = IsServable r.1

serve_front-LeavesServable :
    (others : MqManager → Outcome (MessageAndRecipient × MqManager)) (q : MqManager)
    (fs : List Fingerprint)
    → q.clients_to_serve_schedule ≡ fs
    → IsServable q
    → ((r : MqManager) → IsServable r → After LeavesServable (others r))
    → After LeavesServable (serve_front others q fs)
unfolding serve_front LeavesServable
serve_front-LeavesServable others q [] e v h = tt
serve_front-LeavesServable others q (f ∷ fs) e v h =
    let v' = rotate-IsServable q f fs e v in
    elim (Option-cases (find f q.queues)) [
      | inl gone ↦ rw gone tt
      | inr (wanted, there) ↦ rw there (
          if-elim (After LeavesServable) (ltb wanted (length q.current_game_events)) _ _
            (After-any LeavesServable (message_for q f wanted) _ (λ m. v')) (h (rotate q f fs) v'))
    ]

serve-LeavesServable :
    (fuel : ℕ) (q : MqManager) → IsServable q → After LeavesServable (serve fuel q)
unfolding serve
serve-LeavesServable zero q v = tt
serve-LeavesServable (suc fuel) q v =
    serve_front-LeavesServable (λ r. serve fuel r) q q.clients_to_serve_schedule refl v
      (λ r v'. serve-LeavesServable fuel r v')

get_next_message-IsServable :
    (q q' : MqManager) (m : MessageAndRecipient)
    → IsServable q
    → get_next_message q ≡ ok (m, q')
    → IsServable q'
unfolding get_next_message LeavesServable
get_next_message-IsServable q q' m v h =
    let q1 = open_next_game q in
    After-ok LeavesServable (serve (suc (length q1.clients_to_serve_schedule)) q1) (m, q')
      (serve-LeavesServable (suc (length q1.clients_to_serve_schedule)) q1
        (open_next_game-IsServable q v))
      h

-- In whatever order the manager is called after its construction, as long as the events that are
-- scheduled have a type that names their data and fields that fit, and less than 2^32 - 1 events of
-- a game are stored: the clients of the schedule are those that have a queue, each once; no client
-- has a number behind the last event; the events of the game that is broadcast are numbered from 0
-- on; every one of them can be sent; and every game that waits has an event.
pub Operated-IsServable : (garbage : ℕ) (q : MqManager) → Operated garbage q → IsServable q
Operated-IsServable garbage q constructed = init-IsServable garbage
Operated-IsServable garbage q' (scheduled {q = q} before game_id s fits few) =
    schedule-IsServable q (Operated-IsServable garbage q before) game_id s fits few
Operated-IsServable garbage q' (acknowledged_by {q = q} before f next done) =
    ack-IsServable q (Operated-IsServable garbage q before) f next q' done
Operated-IsServable garbage q' (added {q = q} before f next) =
    add_queue-IsServable q (Operated-IsServable garbage q before) f next
Operated-IsServable garbage q' (dropped {q = q} before f) =
    drop_queue-IsServable q (Operated-IsServable garbage q before) f
Operated-IsServable garbage q' (picked {q = q} {m = m} before done) =
    get_next_message-IsServable q q' m (Operated-IsServable garbage q before) done
