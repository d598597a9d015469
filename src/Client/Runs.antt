-- ===== src/Client/Runs.antt =====
-- Runs of the client: a game of two worms whose events come out of order.
use sik_screenworms.Base.{
  ℕ, ◌≡◌, refl, arith, inl, [], ◌∷◌, ◌++◌, codes, some, ok, fail, exit_failure, is_in, find_at,
  contains_at, insert_at, str_lt, ◌==s◌,
}
use sik_screenworms.Messages.{
  Event, new_game, pixel, in_new_game, in_pixel, EventPixel, EventNewGame, ServerToClientMessage,
  straight,
}
use sik_screenworms.Sockets.{closed, write_data}
use sik_screenworms.Client.{Client, init}
use sik_screenworms.Client.Events.{
  is_current, read_in_message, read_in_events_list_of_current_game, validate_event, is_valid_event,
  enough_players, process_message_from_server_with_mismatched_game_id, find_new_game, is_new_game,
  enter_game, new_game_data, next_wanted, tell_gui, process_message_from_server,
}
use sik_screenworms.Client.Events.Told.{
  IsInStep, HasRoomFor, IsToldAfter, process_message_from_server-announcements,
}
use sik_screenworms.Client.Events.Tellable.{IsSound}
use sik_screenworms.Client.Events.Sound.{IsReady, process_message_from_server-IsReady}
use sik_screenworms.Client.Events.Lost.{entered, process_message_from_server-exit_failure}
use sik_screenworms.Client.Link.{read_update_from_gui}
use sik_screenworms.Client.Keys.{press_keys, read_update_from_gui-press_keys}
use sik_screenworms.Sockets.Lines.{newlines, unlines, IsCounted}
use sik_screenworms.Messages.Numbering.{IsNumbered}
use sik_screenworms.Messages.Players.{
  parsed_players, zeros_to_spaces, words, is_space, is_nil_str, number_names, sort, insert_sorted,
  unique, unique_from, same_elements,
}
use sik_screenworms.Messages.Gui.{event_to_message_for_gui, gui_line, list_names}
use sik_screenworms.Common.Misc.{is_valid_player_name}
use sik_screenworms.Common.Decimal.{to_decimal}

abbrev pub start : Client
start = init 99 (codes "ann") 5

abbrev pub begins_data : EventNewGame
begins_data = record { maxx = 20; maxy = 30; players = codes "ann" ++ 0 ∷ (codes "bob" ++ 0 ∷ []) }

abbrev pub begins : Event
begins = record { event_no = 0; event_type = new_game; event_data = in_new_game begins_data }

abbrev pub eats : ℕ → EventPixel → Event
eats n p = record { event_no = n; event_type = pixel; event_data = in_pixel p }

abbrev pub first_message : ServerToClientMessage
first_message = record {
  game_id = 7;
  events = begins ∷ eats 2 (record { player_number = 1; x = 3; y = 4 }) ∷ [];
}

abbrev pub second_message : ServerToClientMessage
second_message = record {
  game_id = 7;
  events = eats 1 (record { player_number = 0; x = 5; y = 6 }) ∷ [];
}

abbrev played : Client
played = record start {
  gui_sock = record {
    out_buffer = codes "NEW_GAME 20 30 ann bob\n";
    in_buffer = [];
    unread_newlines = 0;
  };
  events = (2, eats 2 (record { player_number = 1; x = 3; y = 4 })) ∷ (0, begins) ∷ [];
  next_wanted_event_no = 1;
  next_event_to_send_no = 1;
  seen_game_ids = 7 ∷ [];
  game_id = some 7;
  players_in_game = 2;
  maxx = 20;
  maxy = 30;
  player_names = (1, codes "bob") ∷ (0, codes "ann") ∷ [];
}

abbrev pub caught_up : Client
caught_up = record played {
  gui_sock = record {
    out_buffer = codes "NEW_GAME 20 30 ann bob\nPIXEL 5 6 ann\nPIXEL 3 4 bob\n";
    in_buffer = [];
    unread_newlines = 0;
  };
  events = (1, eats 1 (record { player_number = 0; x = 5; y = 6 })) ∷ played.events;
  next_wanted_event_no = 3;
  next_event_to_send_no = 3;
}

first_run : process_message_from_server first_message start ≡ ok played
unfolding init process_message_from_server read_in_message is_current
    read_in_events_list_of_current_game validate_event is_valid_event enough_players
    process_message_from_server_with_mismatched_game_id is_in find_new_game is_new_game enter_game
    new_game_data next_wanted tell_gui find_at contains_at insert_at parsed_players zeros_to_spaces
    words is_space is_nil_str is_valid_player_name number_names sort insert_sorted unique
    unique_from same_elements str_lt ◌==s◌ event_to_message_for_gui gui_line list_names to_decimal
    write_data
first_run = refl

second_run : process_message_from_server second_message played ≡ ok caught_up
unfolding init process_message_from_server read_in_message is_current
    read_in_events_list_of_current_game validate_event is_valid_event enough_players
    process_message_from_server_with_mismatched_game_id is_in find_new_game is_new_game enter_game
    new_game_data next_wanted tell_gui find_at contains_at insert_at parsed_players zeros_to_spaces
    words is_space is_nil_str is_valid_player_name number_names sort insert_sorted unique
    unique_from same_elements str_lt ◌==s◌ event_to_message_for_gui gui_line list_names to_decimal
    write_data
second_run = refl

abbrev held : Client
held = record played {
  gui_sock = start.gui_sock;
  next_wanted_event_no = 0;
  next_event_to_send_no = 0;
}

read_run : read_in_message first_message start ≡ ok held
unfolding init process_message_from_server read_in_message is_current
    read_in_events_list_of_current_game validate_event is_valid_event enough_players
    process_message_from_server_with_mismatched_game_id is_in find_new_game is_new_game enter_game
    new_game_data next_wanted tell_gui find_at contains_at insert_at parsed_players zeros_to_spaces
    words is_space is_nil_str is_valid_player_name number_names sort insert_sorted unique
    unique_from same_elements str_lt ◌==s◌ event_to_message_for_gui gui_line list_names to_decimal
    write_data
read_run = refl

start-IsReady : IsReady start
unfolding IsReady IsNumbered init contains_at
start-IsReady = inl (refl, refl, (omega arith, λ i. ground arith))

process_message_from_server_ready_example :
    (c' : Client) × (process_message_from_server first_message start ≡ ok c')
    × IsInStep c'
    × IsSound c'
unfolding init HasRoomFor
process_message_from_server_ready_example =
    process_message_from_server-IsReady first_message start held start-IsReady (omega arith)
      read_run

abbrev second_held : Client
second_held = record played { events = caught_up.events }

second_read : read_in_message second_message played ≡ ok second_held
unfolding init process_message_from_server read_in_message is_current
    read_in_events_list_of_current_game validate_event is_valid_event enough_players
    process_message_from_server_with_mismatched_game_id is_in find_new_game is_new_game enter_game
    new_game_data next_wanted tell_gui find_at contains_at insert_at parsed_players zeros_to_spaces
    words is_space is_nil_str is_valid_player_name number_names sort insert_sorted unique
    unique_from same_elements str_lt ◌==s◌ event_to_message_for_gui gui_line list_names to_decimal
    write_data
second_read = refl

played-IsInStep : IsInStep played
unfolding IsInStep contains_at
played-IsInStep = (refl, λ i below. ground arith)

process_message_from_server_told_example :
    (w : ℕ) × IsToldAfter second_held (process_message_from_server second_message played) w
unfolding HasRoomFor
process_message_from_server_told_example =
    process_message_from_server-announcements second_message played second_held played-IsInStep
      (omega arith) second_read

exit_failure_example :
    (process_message_from_server second_message start ≡ ok (entered 7 start))
    × (process_message_from_server second_message (entered 7 start) ≡ fail exit_failure)
unfolding init is_current is_in is_new_game
exit_failure_example =
    process_message_from_server-exit_failure second_message second_message
      (record { player_number = 0; x = 5; y = 6 })
      (eats 1 (record { player_number = 0; x = 5; y = 6 })) [] start refl refl (refl, tt) refl refl
      refl refl

abbrev pressing : Client
pressing = record start {
  gui_sock = record {
    out_buffer = [];
    in_buffer = codes "LEFT_KEY_DOWN\nRIGHT_KEY_UP\nLEFT";
    unread_newlines = 2;
  };
}

read_update_from_gui_example :
    read_update_from_gui closed pressing
    ≡ ok (record pressing {
      gui_sock = record { out_buffer = []; in_buffer = codes "LEFT"; unread_newlines = 0 };
      turn_direction = press_keys (codes "LEFT_KEY_DOWN" ∷ codes "RIGHT_KEY_UP" ∷ []) straight;
    })
unfolding IsCounted newlines unlines init
read_update_from_gui_example =
    read_update_from_gui-press_keys closed (codes "LEFT_KEY_DOWN") (codes "RIGHT_KEY_UP" ∷ [])
      (codes "LEFT") pressing (refl, (refl, tt)) refl refl (omega arith) refl
