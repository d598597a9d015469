-- ===== src/Server/Runs.antt =====
-- A run of the server: a game of two worms, a client that watches, and an event for it.
use sik_screenworms.Base.{
  ℕ, ◌+◌, ◌^◌, ◌<◌, ◌≡◌, refl, arith, true, false, List, [], ◌∷◌, codes, none, some, ltb, keys,
  IsNodup, mem, ok, find, contains, insert, place, ◌==s◌, if◌then◌else◌,
}
use sik_screenworms.Messages.{pixel, in_pixel}
use sik_screenworms.MqManager
use sik_screenworms.MqManager.{
  MqManager, Fingerprint, ScheduledEvent, MessageAndRecipient, append_event, schedule, add_queue,
  open_next_game, has_pending_messages_for_current_game, is_empty, is_nil,
}
use sik_screenworms.MqManager.Invariant.{
  IsServable, init-IsServable, schedule-IsServable, stored_count,
}
use sik_screenworms.MqManager.Clients.{add_queue-IsServable}
use sik_screenworms.MqManager.Sending.{Serves}
use sik_screenworms.GameManager.State
use sik_screenworms.GameManager.State.{Platform, GameManager}
use sik_screenworms.Server.{Server, send_message_to_client, cleanup_obsolete_connections}
use sik_screenworms.Server.Cleanup.{cleanup_obsolete_connections-find}
use sik_screenworms.Server.Sending.{Delivers, send_message_to_client-Delivers}

abbrev flat : Platform
flat = record {
  Double = ℕ;
  plus_half = λ n. n;
  add_cos = λ x d. x + 1;
  add_sin = λ y d. y;
  is_negative = λ x. false;
  to_u16 = λ x. x;
  indeterminate = 0;
  indeterminate_word = 0;
}

abbrev watcher : Fingerprint
watcher = codes "::1_5000"

abbrev registered : MqManager
registered = add_queue watcher 0 (MqManager.init 7)

abbrev bite : ScheduledEvent
bite = record {
  event_type = pixel;
  event_data = in_pixel (record { player_number = 0; x = 3; y = 4 });
}

abbrev loaded : MqManager
loaded = schedule 7 bite registered

registered_room : stored_count 7 registered + 1 < 4294967296
unfolding MqManager.init add_queue contains
registered_room = omega arith

loaded-IsServable : IsServable loaded
loaded-IsServable =
    schedule-IsServable registered
      (add_queue-IsServable (MqManager.init 7) (init-IsServable 7) watcher 0) 7 bite
      (omega arith, omega arith) registered_room

-- The address is a number.
abbrev server : Server ℕ ℕ
server = record {
  game_manager = record (State.init flat 1 5 10 10 20) { mq_manager = loaded };
  client_addrs = (watcher, 5000) ∷ [];
  last_communication_ts = (watcher, 1) ∷ [];
}

server_work : is_empty server.game_manager.mq_manager ≡ false
unfolding State.init is_empty MqManager.init add_queue schedule append_event contains insert place
    has_pending_messages_for_current_game
server_work = refl

server_clients : is_nil server.game_manager.mq_manager.queues ≡ false
unfolding State.init MqManager.init add_queue schedule contains insert place
server_clients = refl

server_known :
    (f : Fingerprint)
    → contains f server.game_manager.mq_manager.queues ≡ true
    → contains f server.client_addrs ≡ true
unfolding State.init MqManager.init add_queue schedule contains insert place
server_known f h = h

server_game : (open_next_game server.game_manager.mq_manager).currently_broadcasted_game_id < 2 ^ 32
unfolding State.init open_next_game MqManager.init add_queue schedule append_event contains insert
    place has_pending_messages_for_current_game
server_game = omega arith

send_message_to_client_example :
    (m : MessageAndRecipient) × (address : ℕ) × (payload : List ℕ) × (s' : Server ℕ ℕ)
    × (send_message_to_client flat true server ≡ ok ((address, payload), s'))
    × Serves (open_next_game server.game_manager.mq_manager) m
    × Delivers server.client_addrs m address payload
    × IsServable s'.game_manager.mq_manager
send_message_to_client_example =
    send_message_to_client-Delivers flat server true loaded-IsServable server_work server_clients
      server_known server_game

one_client : IsNodup (keys server.last_communication_ts)
unfolding State.init mem
one_client = (refl, tt)

watcher_seen : find watcher server.last_communication_ts ≡ some 1
unfolding find ◌==s◌
watcher_seen = refl

cleanup_obsolete_connections_example :
    (find watcher (cleanup_obsolete_connections flat 2000002 server).last_communication_ts
      ≡ (if ltb 2000000 2000001 then none else some 1))
    × (find watcher (cleanup_obsolete_connections flat 2000002 server).client_addrs
        ≡ (if ltb 2000000 2000001 then none else find watcher server.client_addrs))
cleanup_obsolete_connections_example =
    cleanup_obsolete_connections-find flat 2000002 1 watcher server one_client watcher_seen
