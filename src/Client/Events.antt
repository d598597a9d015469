-- ===== src/Client/Events.antt =====
-- The messages of the server: `validateEvent`, `readInEventsListOfCurrentGame`,
-- `processMessageFromServerWithMismatchedGameId` and `processMessageFromServer`.
pub mod Wanted
pub mod Reads
pub mod Told
pub mod Text
pub mod Came
pub mod Played
pub mod Valid
pub mod Goes
pub mod Game
pub mod Tellable
pub mod Sound
pub mod Lost
use sik_screenworms.Base.{
  ℕ, zero, suc, ◌+◌, ◌-◌, ◌%◌, ◌^◌, Bool, true, false, not, ◌&&◌, ◌||◌, List, [], ◌∷◌, length, Str,
  ltb, leb, ◌==◌, if◌then◌else◌, Option, none, some, Outcome, ok, fail, Fault,
  encoder_decoder_error, crc32_mismatch_error, runtime_error, out_of_range, exit_failure,
  undefined_behaviour, out_of_fuel, ◌>>=◌, ◌>>◌, check, deref, find_at, contains_at, insert_at,
  is_in,
}
use sik_screenworms.Messages.{
  Event, EventType, new_game, pixel, player_eliminated, game_over, unknown, GameEventVariant,
  in_new_game, in_pixel, in_player_eliminated, in_game_over, EventNewGame, ServerToClientMessage,
}
use sik_screenworms.Messages.Players.{parsed_players}
use sik_screenworms.Messages.Gui.{event_to_message_for_gui}
use sik_screenworms.Sockets.{write_data}
use sik_screenworms.Client.{Client}

-- `e.parsedPlayers ().size () < 2`, and the exception that is caught around it.
unfoldable pub enough_players : Outcome (List (ℕ × Str)) → Outcome Bool
enough_players (ok names) = ok (not (ltb (length names) 2))
enough_players (fail encoder_decoder_error) = ok false
enough_players (fail e) = fail e

-- The tests of `validateEvent`.
unfoldable pub is_valid_event : Client → ℕ → EventType → GameEventVariant → Outcome Bool
unfolding enough_players
is_valid_event c event_no new_game (in_new_game d) =
    if not (event_no == 0) then ok false else enough_players (parsed_players d)
is_valid_event c event_no pixel (in_pixel d) =
    ok (not (leb c.players_in_game d.player_number || leb c.maxx d.x || leb c.maxy d.y))
is_valid_event c event_no player_eliminated (in_player_eliminated d) =
    ok (not (leb c.players_in_game d.player_number))
is_valid_event c event_no game_over d = ok true
is_valid_event c event_no unknown d = ok true
is_valid_event c event_no _ _ = fail runtime_error

unfoldable pub validate_event : Client → Event → Outcome (Unit {0})
unfolding is_valid_event
validate_event c e =
    is_valid_event c e.event_no e.event_type e.event_data >>= λ valid. check valid exit_failure

unfoldable pub read_in_events_list_of_current_game : List Event → Client → Outcome Client
unfolding validate_event
read_in_events_list_of_current_game [] c = ok c
read_in_events_list_of_current_game (e ∷ es) c =
    validate_event c e
    >> read_in_events_list_of_current_game es
        (record c { events = insert_at e.event_no e c.events })

unfoldable pub is_new_game : EventType → Bool
is_new_game new_game = true
is_new_game pixel = false
is_new_game player_eliminated = false
is_new_game game_over = false
is_new_game unknown = false

-- `std::get<EventNewGame>`
unfoldable pub new_game_data : GameEventVariant → Outcome EventNewGame
new_game_data (in_new_game d) = ok d
new_game_data (in_pixel d) = fail runtime_error
new_game_data (in_player_eliminated d) = fail runtime_error
new_game_data in_game_over = fail runtime_error

-- The body of the loop, where a NEW_GAME event was found.
unfoldable pub enter_game : Event → List Event → Client → Outcome Client
unfolding new_game_data validate_event read_in_events_list_of_current_game
enter_game e all_events c = do
  validate_event c e
  d ← new_game_data e.event_data
  names ← parsed_players d
  read_in_events_list_of_current_game all_events (record c {
    maxx = d.maxx;
    maxy = d.maxy;
    player_names = names;
    players_in_game = length names % 256;
  })

unfoldable pub find_new_game : List Event → List Event → Client → Outcome Client
unfolding is_new_game enter_game
find_new_game [] all_events c = ok c
find_new_game (e ∷ es) all_events c =
    if is_new_game e.event_type then enter_game e all_events c else find_new_game es all_events c

unfoldable pub process_message_from_server_with_mismatched_game_id :
    ServerToClientMessage → Client → Outcome Client
unfolding find_new_game
process_message_from_server_with_mismatched_game_id m c =
    if is_in m.game_id c.seen_game_ids
    then ok c
    else find_new_game m.events m.events (record c {
      game_id = some m.game_id;
      seen_game_ids = m.game_id ∷ c.seen_game_ids;
      players_in_game = 0;
      next_wanted_event_no = 0;
      next_event_to_send_no = 0;
      events = [];
    })

unfoldable pub is_current : Option ℕ → ℕ → Bool
is_current none game_id = false
is_current (some g) game_id = g == game_id

-- The `if` of `processMessageFromServer`.
unfoldable pub read_in_message : ServerToClientMessage → Client → Outcome Client
unfolding is_current read_in_events_list_of_current_game
    process_message_from_server_with_mismatched_game_id
read_in_message m c =
    if is_current c.game_id m.game_id
    then read_in_events_list_of_current_game m.events c
    else process_message_from_server_with_mismatched_game_id m c

-- `while (events.find (nextWantedEventNo) != events.end ()) nextWantedEventNo++`
unfoldable pub next_wanted : ℕ → ℕ → List (ℕ × Event) → Outcome ℕ
next_wanted zero n events = fail out_of_fuel
next_wanted (suc fuel) n events =
    let later = next_wanted fuel ((n + 1) % 2 ^ 32) events in
    if contains_at n events then later else ok n

-- `while (nextEventToSendNo < nextWantedEventNo) guiSock.writeData (…)`, for `n` events.
unfoldable pub tell_gui : ℕ → Client → Outcome Client
tell_gui zero c = ok c
tell_gui (suc n) c = deref (find_at c.next_event_to_send_no c.events) >>= λ e.
    event_to_message_for_gui e c.player_names >>= λ line. tell_gui n (record c {
      gui_sock = write_data line c.gui_sock;
      next_event_to_send_no = c.next_event_to_send_no + 1;
    })

-- One more round than there are events: the numbers that are tested differ.
unfoldable pub process_message_from_server : ServerToClientMessage → Client → Outcome Client
unfolding read_in_message next_wanted tell_gui
process_message_from_server m c = read_in_message m c >>= λ c1.
    next_wanted (suc (length c1.events)) c1.next_wanted_event_no c1.events >>= λ n.
    tell_gui (n - c1.next_event_to_send_no) (record c1 { next_wanted_event_no = n })
