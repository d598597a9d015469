-- ===== src/Server/RoundRuns.antt =====
-- A run of the server from its start: two players come, and the game starts.
use sik_screenworms.Base.{
  ℕ, ◌+◌, ◌≡◌, refl, true, false, List, [], ◌∷◌, none, some, ok, find, contains, insert, place,
  assign, insert_or_assign, map_values, ◌==s◌, str_lt,
}
use sik_screenworms.Common.Rng.{generate_next}
use sik_screenworms.Common.Bytes.{read_be, byte_at, read_bytes}
use sik_screenworms.Common.Misc.{is_valid_player_name}
use sik_screenworms.Config.{ServerConfig}
use sik_screenworms.Messages.{
  Event, right, new_game, in_new_game, pixel, in_pixel, decode_client, from_events,
  get_encoded_size,
}
use sik_screenworms.Messages.Players.{make_new_game, space_separated, spaces_to_zeros}
use sik_screenworms.MqManager
use sik_screenworms.MqManager.{
  MqManager, Fingerprint, ScheduledEvent, MessageAndRecipient, append_event, append_scheduled,
  append_all, schedule, add_queue, open_next_game, open_game, has_pending_messages_for_current_game,
  is_empty, get_next_message, serve, message_for,
}
use sik_screenworms.GameManager.State
use sik_screenworms.GameManager.State.{
  Platform, Player, GameManager, set_interval, clear, save_event, is_eaten, eat,
}
use sik_screenworms.GameManager.Ending.{emit_new_game_event, emit_pixel_event}
use sik_screenworms.GameManager.Turns.{
  number_players, start_game, start_players, start_player, place_player, remainder, take_pixel,
}
use sik_screenworms.GameManager.Handlers.{
  handle_message, handle_message_from_player, drop_older_sessions, add_player, new_player,
  is_straight, maybe_start_game, can_start_game, count_ready,
}
use sik_screenworms.Server.{
  Server, Polled, init, run_round, read_message_from_client, register, handle_datagram,
}
use sik_screenworms.Server.Running.{start, round, Running-find}

abbrev flat : Platform
flat = record {
  Double = ℕ;
  plus_half = λ n. n;
  add_cos = λ x d. x + 1;
  add_sin = λ y d. y;
  is_negative = λ x. false;
  to_u16 = λ x. x;
  indeterminate = 0;
  indeterminate_word = 0;
}

-- The server after its start, to which a client sends that watches.
abbrev config : ServerConfig
config = record {
  port = 2021;
  rng_seed = 1;
  turning_speed = 6;
  rounds_per_sec = 50;
  board_width = 640;
  board_height = 480;
}

abbrev name_of : ℕ → Fingerprint
name_of port = 0 ∷ port ∷ []

-- Two players who turn to the right.
abbrev greeting : ℕ → ℕ → Polled ℕ
greeting port name = record {
  turn_timer = false;
  readable = true;
  writable = false;
  cleanup_time = 0;
  receive_time = 9;
  datagram = some (port, 0 ∷ 0 ∷ 0 ∷ 0 ∷ 0 ∷ 0 ∷ 0 ∷ 1 ∷ 1 ∷ 0 ∷ 0 ∷ 0 ∷ 0 ∷ name ∷ []);
  stale = [];
  sent = false;
}

abbrev first : Fingerprint
first = name_of 50

abbrev second : Fingerprint
second = name_of 60

abbrev player : Fingerprint → ℕ → Player ℕ
player f name = record {
  fingerprint = f;
  player_name = name ∷ [];
  coord_x = 0;
  coord_y = 0;
  session_id = 1;
  pixel_x = 0;
  pixel_y = 0;
  movement_direction = 0;
  turn_direction = right;
  takes_part_in_current_game = false;
  is_disconnected = false;
  is_eliminated = false;
  is_ready_to_play = true;
}

abbrev placed : ℕ → ℕ → ℕ → Player ℕ → Player ℕ
placed x y direction p = record p {
  coord_x = x;
  coord_y = y;
  pixel_x = x;
  pixel_y = y;
  movement_direction = direction;
  takes_part_in_current_game = true;
}

abbrev queued : MqManager
queued = record {
  next_games = [];
  queues = (first, 0) ∷ [];
  clients_to_serve_schedule = first ∷ [];
  current_game_events = [];
  currently_broadcasted_game_id = 0;
}

abbrev one_player : Server ℕ ℕ
one_player = record {
  game_manager = record {
    game_id = 0;
    game_started = false;
    watchers = [];
    players = (b'a' ∷ [], player first b'a') ∷ [];
    player_number_in_game = [];
    eaten_pixels = [];
    rng = 1;
    maxx = 640;
    maxy = 480;
    turning_speed = 6;
    alive_players = 0;
    turn_interval_ns = 20000000;
    timer_calls = set_interval 20000000 ∷ [];
    mq_manager = queued;
  };
  client_addrs = (first, 50) ∷ [];
  last_communication_ts = (first, 9) ∷ [];
}

abbrev waiting : List ScheduledEvent
waiting =
    record {
      event_type = new_game;
      event_data =
          in_new_game (record { maxx = 640; maxy = 480; players = b'a' ∷ 0 ∷ b'b' ∷ 0 ∷ [] });
    }
    ∷ record {
      event_type = pixel;
      event_data = in_pixel (record { player_number = 0; x = 353; y = 148 });
    }
    ∷ record {
      event_type = pixel;
      event_data = in_pixel (record { player_number = 1; x = 448; y = 468 });
    }
    ∷ []

abbrev started : Server ℕ ℕ
started = record {
  game_manager = record one_player.game_manager {
    game_id = 1;
    game_started = true;
    players =
        (b'a' ∷ [], placed 353 148 317 (player first b'a'))
        ∷ (b'b' ∷ [], placed 448 468 71 (player second b'b'))
        ∷ [];
    player_number_in_game = (b'a' ∷ [], 0) ∷ (b'b' ∷ [], 1) ∷ [];
    eaten_pixels = (448, 468) ∷ (353, 148) ∷ [];
    rng = 2621526963;
    alive_players = 2;
    timer_calls = set_interval 20000000 ∷ set_interval 20000000 ∷ clear ∷ [];
    mq_manager = record queued {
      next_games = (1, waiting) ∷ [];
      queues = (first, 0) ∷ (second, 0) ∷ [];
      clients_to_serve_schedule = first ∷ second ∷ [];
    };
  };
  client_addrs = (first, 50) ∷ (second, 60) ∷ [];
  last_communication_ts = (first, 9) ∷ (second, 9) ∷ [];
}

abbrev numbered : List Event
numbered =
    record {
      event_no = 0;
      event_type = new_game;
      event_data =
          in_new_game (record { maxx = 640; maxy = 480; players = b'a' ∷ 0 ∷ b'b' ∷ 0 ∷ [] });
    }
    ∷ record {
      event_no = 1;
      event_type = pixel;
      event_data = in_pixel (record { player_number = 0; x = 353; y = 148 });
    }
    ∷ record {
      event_no = 2;
      event_type = pixel;
      event_data = in_pixel (record { player_number = 1; x = 448; y = 468 });
    }
    ∷ []

abbrev sends : MessageAndRecipient
sends = record {
  recipient = first;
  ack_number = 3;
  message = record { game_id = 1; events = numbered };
}

abbrev turned : MqManager
turned = record {
  next_games = [];
  queues = (first, 0) ∷ (second, 0) ∷ [];
  clients_to_serve_schedule = second ∷ first ∷ [];
  current_game_events = numbered;
  currently_broadcasted_game_id = 1;
}

first_round : run_round flat name_of (greeting 50 b'a') (init flat config) ≡ ok (none, one_player)
unfolding run_round init State.init MqManager.init read_message_from_client register
    insert_or_assign handle_datagram decode_client read_be byte_at read_bytes is_valid_player_name
    handle_message handle_message_from_player drop_older_sessions add_player new_player is_straight
    maybe_start_game can_start_game count_ready add_queue contains insert place find assign ◌==s◌
    str_lt start_game generate_next emit_new_game_event make_new_game space_separated
    spaces_to_zeros save_event schedule append_event append_scheduled number_players start_players
    start_player place_player remainder is_eaten eat take_pixel emit_pixel_event is_empty
    has_pending_messages_for_current_game
first_round = refl

second_round : run_round flat name_of (greeting 60 b'b') one_player ≡ ok (none, started)
unfolding run_round init State.init MqManager.init read_message_from_client register
    insert_or_assign handle_datagram decode_client read_be byte_at read_bytes is_valid_player_name
    handle_message handle_message_from_player drop_older_sessions add_player new_player is_straight
    maybe_start_game can_start_game count_ready add_queue contains insert place find assign ◌==s◌
    str_lt start_game generate_next emit_new_game_event make_new_game space_separated
    spaces_to_zeros save_event schedule append_event append_scheduled number_players start_players
    start_player place_player remainder is_eaten eat take_pixel emit_pixel_event is_empty
    has_pending_messages_for_current_game
second_round = refl

picks : get_next_message started.game_manager.mq_manager ≡ ok (sends, turned)
unfolding get_next_message open_next_game open_game append_all append_event
    has_pending_messages_for_current_game serve message_for from_events get_encoded_size find ◌==s◌
    map_values
picks = refl

Running_example :
    (address : ℕ) × (find sends.recipient started.client_addrs ≡ some address)
    × (contains sends.recipient started.last_communication_ts ≡ true)
Running_example =
    Running-find flat name_of config started sends turned
      (round (round start (greeting 50 b'a') first_round) (greeting 60 b'b') second_round) picks
