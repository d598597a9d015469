-- ===== src/Client/Events/Lost.antt =====
-- A game whose NEW_GAME event is not in the first message that comes.
use sik_screenworms.Base.{
  ℕ, ◌≡◌, refl, arith, true, false, List, [], ◌∷◌, All, leb, some, ok, fail, exit_failure,
  contains_at, is_in,
}
use sik_screenworms.Messages.{Event, pixel, in_pixel, EventPixel, ServerToClientMessage}
use sik_screenworms.Client.{Client}
use sik_screenworms.Client.Events.{
  is_valid_event, validate_event, read_in_events_list_of_current_game, is_new_game, find_new_game,
  process_message_from_server_with_mismatched_game_id, is_current, read_in_message, next_wanted,
  tell_gui, process_message_from_server,
}

-- The client that was told of the game `id` only.
pub entered : ℕ → Client → Client
entered id c = record c {
  game_id = some id;
  seen_game_ids = id ∷ c.seen_game_ids;
  players_in_game = 0;
  next_wanted_event_no = 0;
  next_event_to_send_no = 0;
  events = [];
}

none_found :
    (es all_events : List Event) (c : Client)
    → All (λ (e : Event). is_new_game e.event_type ≡ false) es
    → find_new_game es all_events c ≡ ok c
unfolding find_new_game
none_found [] all_events c h = refl
none_found (e ∷ es) all_events c (other, others) =
    rw (other, find_new_game, none_found es all_events c others) refl

nothing_told :
    (m : ServerToClientMessage) (c : Client)
    → is_current c.game_id m.game_id ≡ false
    → is_in m.game_id c.seen_game_ids ≡ false
    → All (λ (e : Event). is_new_game e.event_type ≡ false) m.events
    → process_message_from_server m c ≡ ok (entered m.game_id c)
unfolding process_message_from_server read_in_message
    process_message_from_server_with_mismatched_game_id entered next_wanted tell_gui contains_at
nothing_told m c other unseen without =
    rw (other, unseen, none_found m.events m.events (entered m.game_id c) without) refl

refused :
    (d : EventPixel) (e : Event) (es : List Event) (c : Client)
    → c.players_in_game ≡ 0
    → e.event_type ≡ pixel
    → e.event_data ≡ in_pixel d
    → read_in_events_list_of_current_game (e ∷ es) c ≡ fail exit_failure
unfolding read_in_events_list_of_current_game validate_event is_valid_event
refused d e es c no_players t content =
    let no_number : leb 0 d.player_number ≡ true = ground arith in
    rw (t, content, no_players, no_number) refl

current : (id : ℕ) → is_current (some id) id ≡ true
unfolding is_current
current id = ground arith

-- Where the first message of a game has no NEW_GAME event, the client takes the game up with no
-- players and holds none of the events; the next message of the game whose first event is a PIXEL
-- event then ends the client with a failure, whatever its numbers are.
pub process_message_from_server-exit_failure :
    (m m' : ServerToClientMessage) (d : EventPixel) (e : Event) (es : List Event) (c : Client)
    → is_current c.game_id m.game_id ≡ false
    → is_in m.game_id c.seen_game_ids ≡ false
    → All (λ (x : Event). is_new_game x.event_type ≡ false) m.events
    → m'.game_id ≡ m.game_id
    → m'.events ≡ e ∷ es
    → e.event_type ≡ pixel
    → e.event_data ≡ in_pixel d
    → (process_message_from_server m c ≡ ok (entered m.game_id c))
      × (process_message_from_server m' (entered m.game_id c) ≡ fail exit_failure)
unfolding process_message_from_server read_in_message entered
process_message_from_server-exit_failure m m' d e es c other unseen without game events t content =
    (
      nothing_told m c other unseen without,
      rw (game, events, current m.game_id, refused d e es (entered m.game_id c) refl t content)
          refl,
    )
