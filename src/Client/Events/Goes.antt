-- ===== src/Client/Events/Goes.antt =====
-- Messages whose events pass `validateEvent` are processed, and leave a game that is played.
use sik_screenworms.Base.{
  ℕ, ◌%◌, ◌^◌, ◌<◌, ◌≡◌, refl, ◌∙◌, arith, true, false, List, [], ◌∷◌, ◌++◌, Str, length, ◌==◌,
  some, ok, is_in,
}
use sik_screenworms.Messages.{Event, EventNewGame, ServerToClientMessage}
use sik_screenworms.Messages.Players.{parsed_players}
use sik_screenworms.Client.{Client}
use sik_screenworms.Client.Events.{
  new_game_data, enter_game, read_in_events_list_of_current_game,
  process_message_from_server_with_mismatched_game_id, is_current, read_in_message,
  process_message_from_server,
}
use sik_screenworms.Client.Events.Reads.{insert_all, length-insert_all_le, contains_at-insert_all}
use sik_screenworms.Client.Events.Told.{IsInStep}
use sik_screenworms.Client.Events.Text.{IsTold}
use sik_screenworms.Client.Events.Came.{first_new_game, insert_all-append}
use sik_screenworms.Client.Events.Played.{
  IsPlayed, reset_for, find_new_game-first_new_game, read_in_message-IsEntered, IsEntered-IsPlayed,
  current-IsPlayed, seen-IsPlayed,
}
use sik_screenworms.Client.Events.Tellable.{IsSound}
use sik_screenworms.Client.Events.Sound.{
  enter_game-IsSound, read_in_message-IsSound, process_message_from_server-IsSound,
}
use sik_screenworms.Client.Events.Valid.{
  IsOnBoard, AreValid, validate_event-first_new_game, read_in-AreValid,
}

-- A game that is played, in a client that can tell every event that it holds.
unfoldable pub IsGoing :
    EventNewGame → ℕ → List ℕ → List (ℕ × Str) → List Event → Str → Client → Type 0
IsGoing d g seen names l before c =
    IsPlayed g seen names l before c × IsSound c × IsOnBoard d names c

-- What is held before the first message of the game is told.
abbrev entered : ServerToClientMessage → EventNewGame → List (ℕ × Str) → Client → Client
entered m d names c = record c {
  game_id = some m.game_id;
  seen_game_ids = m.game_id ∷ c.seen_game_ids;
  next_wanted_event_no = 0;
  next_event_to_send_no = 0;
  maxx = d.maxx;
  maxy = d.maxy;
  player_names = names;
  players_in_game = length names % 256;
  events = insert_all m.events [];
}

enter_game-AreValid :
    (m : ServerToClientMessage) (c : Client) (e : Event) (d : EventNewGame) (names : List (ℕ × Str))
    → first_new_game m.events ≡ some e
    → new_game_data e.event_data ≡ ok d
    → parsed_players d ≡ ok names
    → AreValid d names m.events
    → enter_game e m.events (reset_for m c) ≡ ok (entered m d names c)
unfolding enter_game IsOnBoard
enter_game-AreValid m c e d names begun brings parsed valid =
    rw
      (validate_event-first_new_game d names m.events e (reset_for m c) valid begun, brings, parsed)
      (read_in-AreValid d names m.events _ valid (refl, refl, refl))

read_in_first :
    (m : ServerToClientMessage) (c c1 : Client) (e : Event)
    → is_current c.game_id m.game_id ≡ false
    → is_in m.game_id c.seen_game_ids ≡ false
    → first_new_game m.events ≡ some e
    → enter_game e m.events (reset_for m c) ≡ ok c1
    → read_in_message m c ≡ ok c1
unfolding read_in_message process_message_from_server_with_mismatched_game_id
read_in_first m c c1 e other unseen begun enters =
    rw (other, unseen)
      (find_new_game-first_new_game m.events m.events e (reset_for m c) begun ∙ enters)

pub first-IsGoing :
    (m : ServerToClientMessage) (c : Client) (e : Event) (d : EventNewGame) (names : List (ℕ × Str))
    → is_current c.game_id m.game_id ≡ false
    → is_in m.game_id c.seen_game_ids ≡ false
    → first_new_game m.events ≡ some e
    → new_game_data e.event_data ≡ ok d
    → parsed_players d ≡ ok names
    → AreValid d names m.events
    → length m.events < 2 ^ 32
    → (c' : Client) × (process_message_from_server m c ≡ ok c')
      × IsGoing d m.game_id (m.game_id ∷ c.seen_game_ids) names m.events c.gui_sock.out_buffer c'
unfolding IsGoing IsOnBoard IsInStep
first-IsGoing m c e d names other unseen begun brings parsed valid few =
    let enters = enter_game-AreValid m c e d names begun brings parsed valid in
    let reads = read_in_first m c _ e other unseen begun enters in
    let (c', done, in_step, sound, x, y, players) =
      process_message_from_server-IsSound m c (entered m d names c) reads
        (refl, λ i below. absurd (omega (arith, below)))
        (omega (arith, length-insert_all_le m.events [], few))
        (enter_game-IsSound e m.events (reset_for m c) _ refl enters) in
    (
      c',
      done,
      (
        IsEntered-IsPlayed m c (entered m d names c) c' e reads done few
            (read_in_message-IsEntered m c _ e other unseen begun reads),
        sound,
        (x, y, players),
      ),
    )

read_in_current :
    (m : ServerToClientMessage) (g : ℕ) (c c1 : Client)
    → c.game_id ≡ some g
    → (g == m.game_id) ≡ true
    → read_in_events_list_of_current_game m.events c ≡ ok c1
    → read_in_message m c ≡ ok c1
unfolding read_in_message is_current
read_in_current m g c c1 game mine goes =
    let current : is_current c.game_id m.game_id ≡ true = rw game mine in rw current goes

read_in_next :
    (m : ServerToClientMessage) (d : EventNewGame) (g : ℕ) (seen : List ℕ) (names : List (ℕ × Str))
    (l : List Event) (before : Str) (c : Client)
    → IsPlayed g seen names l before c
    → IsOnBoard d names c
    → (g == m.game_id) ≡ true
    → AreValid d names m.events
    → length (l ++ m.events) < 2 ^ 32
    → IsInStep (record c { events = insert_all m.events c.events })
      × (length (insert_all m.events c.events) < 2 ^ 32)
      × (read_in_message m c ≡ ok (record c { events = insert_all m.events c.events }))
unfolding IsPlayed IsTold IsInStep
read_in_next m d g seen names l before c
      (game, seen_eq, named, events, ((step, full), missing, text, buffer, made)) on mine valid
      few =
    let small = length-insert_all_le (l ++ m.events) [] in
    let same = insert_all-append l m.events [] in
    (
      (step, λ i below. contains_at-insert_all m.events i c.events (full i below)),
      rw (events, ← same) (omega (arith, small, few)),
      read_in_current m g c _ game mine (read_in-AreValid d names m.events c valid on),
    )

read_in_seen :
    (m : ServerToClientMessage) (g : ℕ) (seen : List ℕ) (names : List (ℕ × Str)) (l : List Event)
    (before : Str) (c : Client)
    → IsPlayed g seen names l before c
    → (g == m.game_id) ≡ false
    → is_in m.game_id seen ≡ true
    → length l < 2 ^ 32
    → IsInStep c × (length c.events < 2 ^ 32) × (read_in_message m c ≡ ok c)
unfolding IsPlayed IsTold read_in_message is_current
    process_message_from_server_with_mismatched_game_id
read_in_seen m g seen names l before c
      (game, seen_eq, named, events, (in_step, missing, text, buffer, made)) other old few =
    (
      in_step,
      rw events (omega (arith, length-insert_all_le l [], few)),
      rw (game, other, seen_eq, old) refl,
    )

-- Another message of the game.
pub current-IsGoing :
    (m : ServerToClientMessage) (d : EventNewGame) (g : ℕ) (seen : List ℕ) (names : List (ℕ × Str))
    (l : List Event) (before : Str) (c : Client)
    → IsGoing d g seen names l before c
    → (g == m.game_id) ≡ true
    → AreValid d names m.events
    → length (l ++ m.events) < 2 ^ 32
    → (c' : Client) × (process_message_from_server m c ≡ ok c')
      × IsGoing d g seen names (l ++ m.events) before c'
unfolding IsGoing IsOnBoard
current-IsGoing m d g seen names l before c (played, sound, on) mine valid few =
    let (in_step, small, reads) =
      read_in_next m d g seen names l before c played on mine valid few in
    let (c', done, _, sound', x, y, players) =
      process_message_from_server-IsSound m c _ reads in_step small
        (read_in_message-IsSound m c _ sound reads) in
    let (x0, y0, players0) = on in
    (
      c',
      done,
      (
        current-IsPlayed m g seen names l before c c' played mine few done,
        sound',
        (x ∙ x0, y ∙ y0, players ∙ players0),
      ),
    )

-- A message of a game that was played before.
pub seen-IsGoing :
    (m : ServerToClientMessage) (d : EventNewGame) (g : ℕ) (seen : List ℕ) (names : List (ℕ × Str))
    (l : List Event) (before : Str) (c : Client)
    → IsGoing d g seen names l before c
    → (g == m.game_id) ≡ false
    → is_in m.game_id seen ≡ true
    → length l < 2 ^ 32
    → (c' : Client) × (process_message_from_server m c ≡ ok c') × IsGoing d g seen names l before c'
unfolding IsGoing IsOnBoard
seen-IsGoing m d g seen names l before c (played, sound, (x0, y0, players0)) other old few =
    let (in_step, small, reads) = read_in_seen m g seen names l before c played other old few in
    let (c', done, _, sound', x, y, players) =
      process_message_from_server-IsSound m c c reads in_step small sound in
    (
      c',
      done,
      (
        seen-IsPlayed m g seen names l before c c' played other old few done,
        sound',
        (x ∙ x0, y ∙ y0, players ∙ players0),
      ),
    )
