-- ===== src/Client/GameRuns.antt =====
-- A run of the client over a whole game, whose messages come twice or late.
use sik_screenworms.Base.{
  ℕ, List, Str, ◌<◌, ◌≡◌, refl, arith, [], ◌∷◌, codes, ok, is_in, contains_at, insert_at, str_lt,
  ◌==s◌, find_at,
}
use sik_screenworms.Messages.{ServerToClientMessage}
use sik_screenworms.Client.{Client, init}
use sik_screenworms.Client.Events.{
  is_current, validate_event, is_valid_event, enough_players, is_new_game, new_game_data,
  read_in_message, read_in_events_list_of_current_game,
  process_message_from_server_with_mismatched_game_id, find_new_game, enter_game, next_wanted,
  tell_gui, process_message_from_server,
}
use sik_screenworms.Messages.Players.{
  parsed_players, zeros_to_spaces, words, is_space, is_nil_str, number_names, sort, insert_sorted,
  unique, unique_from, same_elements,
}
use sik_screenworms.Common.Misc.{is_valid_player_name}
use sik_screenworms.Client.Events.Came.{came, are_of_games, first_new_game}
use sik_screenworms.Client.Events.Valid.{IsOnBoard, AreValid}
use sik_screenworms.Client.Events.Game.{process_all, IsWhole, process_all-IsWhole}
use sik_screenworms.Client.Runs.{
  caught_up, start, begins, begins_data, eats, first_message, second_message,
}
use sik_screenworms.Sockets.{write_data}
use sik_screenworms.Messages.Gui.{event_to_message_for_gui, gui_line, list_names}
use sik_screenworms.Common.Decimal.{to_decimal}

-- A client that has played game 5 before, a datagram of which comes late, and one that comes twice.
abbrev returning : Client
returning = record start { seen_game_ids = 5 ∷ [] }

abbrev late_message : ServerToClientMessage
late_message = record {
  game_id = 5;
  events = eats 1 (record { player_number = 0; x = 1; y = 1 }) ∷ [];
}

abbrev later_messages : List ServerToClientMessage
later_messages = late_message ∷ second_message ∷ first_message ∷ []

abbrev returned : Client
returned = record caught_up { seen_game_ids = 7 ∷ 5 ∷ [] }

all_run : process_all (first_message ∷ later_messages) returning ≡ ok returned
unfolding process_all init process_message_from_server read_in_message is_current
    read_in_events_list_of_current_game validate_event is_valid_event enough_players
    process_message_from_server_with_mismatched_game_id is_in find_new_game is_new_game enter_game
    new_game_data next_wanted tell_gui find_at contains_at insert_at parsed_players zeros_to_spaces
    words is_space is_nil_str is_valid_player_name number_names sort insert_sorted unique
    unique_from same_elements str_lt ◌==s◌ event_to_message_for_gui gui_line list_names to_decimal
    write_data
all_run = refl

abbrev two_names : List (ℕ × Str)
two_names = (1, codes "bob") ∷ (0, codes "ann") ∷ []

two_names_parsed : parsed_players begins_data ≡ ok two_names
unfolding parsed_players zeros_to_spaces words is_space is_nil_str is_valid_player_name number_names
    sort insert_sorted unique unique_from same_elements str_lt ◌==s◌ insert_at contains_at
two_names_parsed = refl

begins-IsValid : (c : Client) → validate_event c begins ≡ ok tt
unfolding validate_event is_valid_event enough_players
begins-IsValid c = rw two_names_parsed refl

eats-IsValid :
    (n number x y : ℕ) (c : Client)
    → IsOnBoard begins_data two_names c
    → number < 2
    → x < 20
    → y < 30
    → validate_event c (eats n (record { player_number = number; x = x; y = y })) ≡ ok tt
unfolding validate_event is_valid_event IsOnBoard
eats-IsValid n number x y c (maxx, maxy, players) hn hx hy = rw (maxx, maxy, players) (ground arith)

came-AreValid : AreValid begins_data two_names (came 7 (first_message ∷ later_messages))
unfolding AreValid came
came-AreValid = (
  λ c on. begins-IsValid c,
  (
    λ c on. eats-IsValid 2 1 3 4 c on (omega arith) (omega arith) (omega arith),
    (
      λ c on. eats-IsValid 1 0 5 6 c on (omega arith) (omega arith) (omega arith),
      (
        λ c on. begins-IsValid c,
        (λ c on. eats-IsValid 2 1 3 4 c on (omega arith) (omega arith) (omega arith), tt),
      ),
    ),
  ),
)

process_all_example :
    (cn : Client) × (process_all (first_message ∷ later_messages) returning ≡ ok cn)
    × IsWhole two_names (came 7 (first_message ∷ later_messages)) [] cn
unfolding init is_current is_in first_new_game is_new_game new_game_data are_of_games came
process_all_example =
    process_all-IsWhole first_message later_messages returning begins begins_data two_names refl
      refl refl refl refl two_names_parsed came-AreValid (omega arith)
