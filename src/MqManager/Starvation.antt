-- ===== src/MqManager/Starvation.antt =====
-- An acknowledgement is heeded only while no game waits. So once a game waits while a client is
-- behind in the current one, that client stays behind, and the game is never opened.
use sik_screenworms.Base.{
  ℕ, zero, suc, ◌<◌, ◌≡◌, refl, ap, ◌∙◌, inl, inr, arith, true, false, List, [], ◌∷◌, ◌++◌, length,
  some, ltb, ◌==◌, Outcome, ok, >>=-eq-ok, Bool-cases, Option-cases, find, insert, find-place,
  find-erase, contains-find, ◌==s◌, ==s_iff, fail-ne-ok, min, ◌%◌, ◌^◌,
}
use sik_screenworms.Messages.{Event}
use sik_screenworms.MqManager.{
  MqManager, Fingerprint, ScheduledEvent, MessageAndRecipient, append_scheduled, schedule,
  open_next_game, has_pending_messages_for_current_game, message_for, serve_front, serve,
  get_next_message, ack, add_queue, drop_queue, pending, is_nil,
}
use sik_screenworms.MqManager.Invariant.{open_next_game_busy, length-append_event}

-- Every operation but the one that drops the client `f`.
pub data Step (f : Fingerprint) (q q' : MqManager) : Type 0 where
  sends : (m : MessageAndRecipient) → get_next_message q ≡ ok (m, q') → Step f q q'
  acks : (g : Fingerprint) (n : ℕ) → ack g n q ≡ ok q' → Step f q q'
  schedules : (game_id : ℕ) (s : ScheduledEvent) → q' ≡ schedule game_id s q → Step f q q'
  adds : (g : Fingerprint) (n : ℕ) → q' ≡ add_queue g n q → Step f q q'
  drops : (g : Fingerprint) → (g ==s f) ≡ false → q' ≡ drop_queue g q → Step f q q'

pub data Reach (f : Fingerprint) (q : MqManager) : MqManager → Type 0 where
  here : Reach f q q
  next : {r r' : MqManager} → Reach f q r → Step f r r' → Reach f q r'

-- The client `f` wants event `n` of the game `g`, which has been stored, and another game waits.
pub record IsStuck (f : Fingerprint) (n g : ℕ) (q : MqManager) : Type 0 where
  pub wanted : find f q.queues ≡ some n
  pub behind : n < length q.current_game_events
  pub game : q.currently_broadcasted_game_id ≡ g
  pub waits : is_nil q.next_games ≡ false

find-pending :
    (f : Fingerprint) (n size : ℕ) (queues : List (Fingerprint × ℕ))
    → find f queues ≡ some n
    → n < size
    → pending size queues ≡ true
unfolding find
find-pending f n size [] e h = cc
find-pending f n size ((g, k) ∷ queues) e h = ground (arith, find-pending f n size queues)

-- What the loop does not touch.
record Keeps (q q' : MqManager) : Type 0 where
  queues : q'.queues ≡ q.queues
  events : q'.current_game_events ≡ q.current_game_events
  game : q'.currently_broadcasted_game_id ≡ q.currently_broadcasted_game_id
  games : q'.next_games ≡ q.next_games

serve-suc :
    (fuel : ℕ) (q : MqManager)
    → serve (suc fuel) q ≡ serve_front (λ r. serve fuel r) q q.clients_to_serve_schedule
unfolding serve
serve-suc fuel q = refl

serve_front-Keeps :
    (others : MqManager → Outcome (MessageAndRecipient × MqManager)) (q : MqManager)
    (fs : List Fingerprint) (m : MessageAndRecipient) (q' : MqManager)
    → ((r : MqManager) → others r ≡ ok (m, q') → Keeps r q')
    → serve_front others q fs ≡ ok (m, q')
    → Keeps q q'
unfolding serve_front
serve_front-Keeps others q [] m q' ih e = cc
serve_front-Keeps others q (f ∷ fs) m q' ih e = elim (Option-cases (find f q.queues)) [
  | inl gone ↦ absurd (fail-ne-ok (rw gone at e))
  | inr (n, found) ↦ elim (Bool-cases (ltb n (length q.current_game_events))) [
    | inl more ↦
        let (sent, _, done) = >>=-eq-ok (message_for q f n) _ (rw (found, more) at e) in
        ground arith
    | inr idle ↦
        let k : Keeps (record q { clients_to_serve_schedule = fs ++ f ∷ [] }) q' =
          ih _ (rw (found, idle) at e) in
        record { queues = k.queues; events = k.events; game = k.game; games = k.games }
  ]
]

serve-Keeps :
    (fuel : ℕ) (q : MqManager) (m : MessageAndRecipient) (q' : MqManager)
    → serve fuel q ≡ ok (m, q')
    → Keeps q q'
serve-Keeps zero q m q' e = unfold serve in cc
serve-Keeps (suc fuel) q m q' e =
    serve_front-Keeps (λ r. serve fuel r) q q.clients_to_serve_schedule m q'
      (λ r h. serve-Keeps fuel r m q' h) (rw serve-suc at e)

IsStuck-pending :
    (f : Fingerprint) (n g : ℕ) (q : MqManager)
    → IsStuck f n g q
    → has_pending_messages_for_current_game q ≡ true
unfolding has_pending_messages_for_current_game
IsStuck-pending f n g q s = find-pending f n _ q.queues s.wanted s.behind

sends-IsStuck :
    (f : Fingerprint) (n g : ℕ) (q q' : MqManager) (m : MessageAndRecipient)
    → IsStuck f n g q
    → get_next_message q ≡ ok (m, q')
    → IsStuck f n g q'
unfolding get_next_message
sends-IsStuck f n g q q' m s e =
    let same : open_next_game q ≡ q = open_next_game_busy q (IsStuck-pending f n g q s) in
    let k : Keeps q q' =
      serve-Keeps (suc (length q.clients_to_serve_schedule)) q m q' (rw same at e) in
    record {
      wanted = ap (find f) k.queues ∙ s.wanted;
      behind = omega (arith, ap (length {A = Event}) k.events, s.behind);
      game = k.game ∙ s.game;
      waits = ap is_nil k.games ∙ s.waits;
    }

add_queue-IsStuck :
    (f : Fingerprint) (n g : ℕ) (q : MqManager) (h : Fingerprint) (k : ℕ)
    → IsStuck f n g q
    → IsStuck f n g (add_queue h k q)
unfolding add_queue insert
add_queue-IsStuck f n g q h k s = ground (
  arith,
  find-place h f (min (length q.current_game_events % 2 ^ 32) k) q.queues,
  contains-find f q.queues n s.wanted,
  ==s_iff h f,
)

drop_queue-IsStuck :
    (f : Fingerprint) (n g : ℕ) (q : MqManager) (h : Fingerprint)
    → (h ==s f) ≡ false
    → IsStuck f n g q
    → IsStuck f n g (drop_queue h q)
unfolding drop_queue
drop_queue-IsStuck f n g q h e s = ground (arith, find-erase h f q.queues)

append_scheduled-waits :
    (game_id : ℕ) (s : ScheduledEvent) (games : List (ℕ × List ScheduledEvent))
    → is_nil (append_scheduled game_id s games) ≡ false
unfolding append_scheduled
append_scheduled-waits game_id s [] = refl
append_scheduled-waits game_id s ((g, events) ∷ games) = ground arith

schedule-IsStuck :
    (f : Fingerprint) (n g : ℕ) (q : MqManager) (game_id : ℕ) (e : ScheduledEvent)
    → IsStuck f n g q
    → IsStuck f n g (schedule game_id e q)
unfolding schedule
schedule-IsStuck f n g q game_id e s =
    elim (Bool-cases (game_id == q.currently_broadcasted_game_id)) [
      | inl now ↦
          rw (now, schedule)
            (record {
              wanted = s.wanted;
              behind = omega (arith, s.behind, length-append_event q.current_game_events e);
              game = s.game;
              waits = s.waits;
            })
      | inr later ↦
          rw (later, schedule)
            (record {
              wanted = s.wanted;
              behind = s.behind;
              game = s.game;
              waits = append_scheduled-waits game_id e q.next_games;
            })
    ]

ack-IsStuck :
    (f : Fingerprint) (n g : ℕ) (q q' : MqManager) (h : Fingerprint) (k : ℕ)
    → IsStuck f n g q
    → ack h k q ≡ ok q'
    → IsStuck f n g q'
unfolding ack
ack-IsStuck f n g q q' h k s e = ground arith

Step-IsStuck :
    (f : Fingerprint) (n g : ℕ) (q q' : MqManager)
    → Step f q q'
    → IsStuck f n g q
    → IsStuck f n g q'
Step-IsStuck f n g q q' (sends m e) s = sends-IsStuck f n g q q' m s e
Step-IsStuck f n g q q' (acks h k e) s = ack-IsStuck f n g q q' h k s e
Step-IsStuck f n g q q' (schedules game_id e eq) s = rw eq (schedule-IsStuck f n g q game_id e s)
Step-IsStuck f n g q q' (adds h k eq) s = rw eq (add_queue-IsStuck f n g q h k s)
Step-IsStuck f n g q q' (drops h other eq) s = rw eq (drop_queue-IsStuck f n g q h other s)

-- A client is behind in the game that is broadcast while another game waits. Then whatever is sent,
-- acknowledged, scheduled, added, or dropped of other clients, that client still wants the same
-- event, the same game is broadcast, and a game still waits.
pub Reach-IsStuck :
    (f : Fingerprint) (n g : ℕ) (q q' : MqManager)
    → IsStuck f n g q
    → Reach f q q'
    → IsStuck f n g q'
Reach-IsStuck f n g q q' s here = s
Reach-IsStuck f n g q q' s (next {r = r} path step) =
    Step-IsStuck f n g r q' step (Reach-IsStuck f n g q r s path)
