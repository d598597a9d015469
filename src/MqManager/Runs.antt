-- ===== src/MqManager/Runs.antt =====
-- Runs of MQManager: two clients, a game that is broadcast and one that waits.
use sik_screenworms.Base.{
  ◌+◌, ◌<◌, ◌≡◌, refl, arith, true, false, [], ◌∷◌, codes, ok, fail, undefined_behaviour, find,
  contains, insert, place, assign, ◌==s◌,
}
use sik_screenworms.Messages.{pixel, in_pixel, game_over, in_game_over}
use sik_screenworms.MqManager.{
  MqManager, Fingerprint, ScheduledEvent, MessageAndRecipient, init, append_event, append_scheduled,
  schedule, open_next_game, has_pending_messages_for_current_game, is_empty, is_nil,
  get_next_message, ack, add_queue,
}
use sik_screenworms.MqManager.Invariant.{
  IsServable, init-IsServable, schedule-IsServable, stored_count,
}
use sik_screenworms.MqManager.Clients.{add_queue-IsServable}
use sik_screenworms.MqManager.Operations.{
  constructed, added, scheduled, acknowledged_by, Operated-IsServable,
}
use sik_screenworms.MqManager.Sending.{Serves, IsTurned, get_next_message-Serves}
use sik_screenworms.MqManager.Opening.{
  IsOpened, open_next_game-IsOpened, get_next_message_no_clients,
}
use sik_screenworms.MqManager.Starvation.{acks, adds, Reach, here, next, IsStuck, Reach-IsStuck}

abbrev alice : Fingerprint
alice = codes "alice:1"

abbrev bob : Fingerprint
bob = codes "bob:2"

abbrev eaten : ScheduledEvent
eaten = record {
  event_type = pixel;
  event_data = in_pixel (record { player_number = 1; x = 640; y = 479 });
}

abbrev over : ScheduledEvent
over = record { event_type = game_over; event_data = in_game_over }

-- A client waits for the game 7.
abbrev lobby : MqManager
lobby = add_queue alice 0 (init 7)

abbrev playing : MqManager
playing = schedule 7 eaten lobby

lobby-IsServable : IsServable lobby
lobby-IsServable = add_queue-IsServable (init 7) (init-IsServable 7) alice 0

room_in_lobby : stored_count 7 lobby + 1 < 4294967296
unfolding init add_queue contains
room_in_lobby = omega arith

playing-IsServable : IsServable playing
playing-IsServable =
    schedule-IsServable lobby lobby-IsServable 7 eaten (omega arith, omega arith) room_in_lobby

abbrev acknowledged : MqManager
acknowledged = record playing { queues = (alice, 1) ∷ [] }

ack_run : ack alice 1 playing ≡ ok acknowledged
unfolding ack init add_queue schedule append_event contains insert place find assign ◌==s◌
ack_run = refl

Operated_example : IsServable acknowledged
Operated_example = Operated-IsServable 7 acknowledged (
    acknowledged_by
      (scheduled (added constructed alice 0) 7 eaten (omega arith, omega arith) room_in_lobby) alice
      1 ack_run)

playing_work : is_empty playing ≡ false
unfolding is_empty init add_queue schedule append_event contains insert place
    has_pending_messages_for_current_game
playing_work = refl

playing_clients : is_nil playing.queues ≡ false
unfolding init add_queue schedule contains insert place
playing_clients = refl

get_next_message_example :
    (m : MessageAndRecipient) × (q' : MqManager) × (get_next_message playing ≡ ok (m, q'))
    × Serves (open_next_game playing) m
    × IsTurned (open_next_game playing) q'
get_next_message_example =
    get_next_message-Serves playing playing-IsServable playing_work playing_clients

-- The game 8 waits behind the game 7.
abbrev waiting : MqManager
waiting = schedule 8 over playing

room_for_waiting : stored_count 8 playing + 1 < 4294967296
unfolding init add_queue schedule append_event contains
room_for_waiting = omega arith

waiting-IsServable : IsServable waiting
waiting-IsServable = schedule-IsServable playing playing-IsServable 8 over tt room_for_waiting

waiting_games : waiting.next_games ≡ (8, over ∷ []) ∷ []
unfolding init add_queue schedule append_scheduled contains
waiting_games = refl

IsOpened_example :
    (has_pending_messages_for_current_game waiting ≡ true → open_next_game waiting ≡ waiting)
    × (has_pending_messages_for_current_game waiting ≡ false
        → IsOpened waiting 8 (over ∷ []) [] (open_next_game waiting))
IsOpened_example = open_next_game-IsOpened waiting 8 (over ∷ []) [] waiting-IsServable waiting_games

waiting-IsStuck : IsStuck alice 0 7 waiting
unfolding init add_queue schedule append_event append_scheduled contains insert place find ◌==s◌
waiting-IsStuck = record { wanted = refl; behind = omega arith; game = refl; waits = refl }

ack_ignored : ack alice 1 waiting ≡ ok waiting
unfolding ack init add_queue schedule append_scheduled contains
ack_ignored = refl

-- The client has acknowledged the event, and another client has come.
waiting_path : Reach alice waiting (add_queue bob 0 waiting)
waiting_path = next (next here (acks alice 1 ack_ignored)) (adds bob 0 refl)

Reach_example : IsStuck alice 0 7 (add_queue bob 0 waiting)
Reach_example =
    Reach-IsStuck alice 0 7 waiting (add_queue bob 0 waiting) waiting-IsStuck waiting_path

-- The last client has gone.
abbrev deserted : MqManager
deserted = schedule 8 over (init 7)

deserted_games : deserted.next_games ≡ (8, over ∷ []) ∷ []
unfolding init schedule append_scheduled
deserted_games = refl

deserted_queues : (deserted.queues ≡ []) × (deserted.clients_to_serve_schedule ≡ [])
unfolding init schedule
deserted_queues = (refl, refl)

no_clients_example :
    (is_empty deserted ≡ false) × (get_next_message deserted ≡ fail undefined_behaviour)
no_clients_example =
    get_next_message_no_clients deserted 8 (over ∷ []) [] deserted_games deserted_queues.0
      deserted_queues.1
