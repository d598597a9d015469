-- ===== src/Client/Events/Game.antt =====
-- What the user interface is told of a whole game, whatever datagrams bring its events.
use mathlib.Core.List.{append-nil, append_assoc}
use sik_screenworms.Base.{
  ℕ, ◌^◌, ◌<◌, ◌≡◌, refl, sym, ◌∙◌, inl, inr, arith, true, false, List, [], ◌∷◌, ◌++◌, Str, length,
  length-append, ◌==◌, Bool-cases, none, some, Outcome, ok, ◌>>=◌, is_in,
}
use sik_screenworms.Messages.{Event, EventNewGame, ServerToClientMessage}
use sik_screenworms.Messages.Players.{parsed_players}
use sik_screenworms.Client.{Client}
use sik_screenworms.Client.Events.{new_game_data, is_current, process_message_from_server}
use sik_screenworms.Client.Events.Text.{IsTold}
use sik_screenworms.Client.Events.Came.{
  came, are_of_games, first_numbered, first_new_game, lines_of, announcements-lines_of,
  first_numbered-none,
}
use sik_screenworms.Client.Events.Played.{IsPlayed}
use sik_screenworms.Client.Events.Valid.{AreValid, AreValid-append}
use sik_screenworms.Client.Events.Goes.{IsGoing, first-IsGoing, current-IsGoing, seen-IsGoing}

-- The messages one after another.
unfoldable pub process_all : List ServerToClientMessage → Client → Outcome Client
process_all [] c = ok c
process_all (m ∷ ms) c = process_message_from_server m c >>= process_all ms

process_all-IsGoing :
    (ms : List ServerToClientMessage) (d : EventNewGame) (g : ℕ) (seen : List ℕ)
    (names : List (ℕ × Str)) (l : List Event) (before : Str) (c : Client)
    → IsGoing d g seen names l before c
    → are_of_games seen ms ≡ true
    → AreValid d names (came g ms)
    → length (l ++ came g ms) < 2 ^ 32
    → (cn : Client) × (process_all ms c ≡ ok cn) × IsGoing d g seen names (l ++ came g ms) before cn
unfolding process_all are_of_games came
process_all-IsGoing [] d g seen names l before c going of valid few =
    (c, refl, rw (append-nil l) going)
process_all-IsGoing (m ∷ ms) d g seen names l before c going of valid few =
    let all : are_of_games seen ms ≡ true = ground arith in
    elim (Bool-cases (g == m.game_id)) [
      | inl mine ↦
          let there = rw (mine, ← append_assoc l m.events (came g ms)) at few in
          let longer = length-append (l ++ m.events) (came g ms) in
          let (here, later) = AreValid-append d names m.events (came g ms) (rw mine at valid) in
          let (c1, first, going1) =
            current-IsGoing m d g seen names l before c going mine here
              (omega (arith, there, longer)) in
          let (cn, rest, going') =
            process_all-IsGoing ms d g seen names (l ++ m.events) before c1 going1 all later
              there in
          (cn, rw first rest, rw (mine, ← append_assoc l m.events (came g ms)) going')
      | inr other ↦
          let there = rw other at few in
          let (c1, first, going1) =
            seen-IsGoing m d g seen names l before c going other (ground arith)
              (omega (arith, there, length-append l (came g ms))) in
          let (cn, rest, going') =
            process_all-IsGoing ms d g seen names l before c1 going1 all (rw other at valid)
              there in
          (cn, rw first rest, rw other going')
    ]

-- The text is that of the events that came, and no event came with the number that is wanted next.
unfoldable pub IsWhole : List (ℕ × Str) → List Event → Str → Client → Type 0
IsWhole names l before c =
    (text : Str) × (c.gui_sock.out_buffer ≡ before ++ text)
    × (lines_of c.next_wanted_event_no 0 l names ≡ ok text)
    × (first_numbered c.next_wanted_event_no l ≡ none)

IsGoing-IsWhole :
    (d : EventNewGame) (g : ℕ) (seen : List ℕ) (names : List (ℕ × Str)) (l : List Event)
    (before : Str) (c : Client)
    → IsGoing d g seen names l before c
    → IsWhole names l before c
unfolding IsGoing IsPlayed IsTold IsWhole
IsGoing-IsWhole d g seen names l before c
      ((game, seen_eq, named, events, (in_step, missing, text, buffer, made)), sound, on) =
    (
      text,
      buffer,
      sym (announcements-lines_of c.next_wanted_event_no 0 l names) ∙ (rw (events, named) at made),
      first_numbered-none c.next_wanted_event_no l (rw events at missing),
    )

-- The first message of a game that the client has not seen, which brings a NEW_GAME event, and then
-- any messages of this game and of games seen before, where the events of the game pass the checks
-- of `validateEvent` for the board and the players of the first NEW_GAME event, and are less than
-- 2^32: all messages are processed, and the user interface is written exactly the lines of the
-- events 0, 1, … of the game, each once and in order, up to the first number that no event of these
-- messages has, which is the number that the client then wants. The event of a number is the first
-- one that came with it, and the names are those of the first NEW_GAME event; how the events are
-- spread over the messages, their order and their repetition do not matter, nor do the messages of
-- the games seen before.
pub process_all-IsWhole :
    (m : ServerToClientMessage) (ms : List ServerToClientMessage) (c : Client) (e : Event)
    (d : EventNewGame) (names : List (ℕ × Str))
    → is_current c.game_id m.game_id ≡ false
    → is_in m.game_id c.seen_game_ids ≡ false
    → are_of_games (m.game_id ∷ c.seen_game_ids) ms ≡ true
    → first_new_game m.events ≡ some e
    → new_game_data e.event_data ≡ ok d
    → parsed_players d ≡ ok names
    → AreValid d names (came m.game_id (m ∷ ms))
    → length (came m.game_id (m ∷ ms)) < 2 ^ 32
    → (cn : Client) × (process_all (m ∷ ms) c ≡ ok cn)
      × IsWhole names (came m.game_id (m ∷ ms)) c.gui_sock.out_buffer cn
unfolding process_all came
process_all-IsWhole m ms c e d names other unseen of begun brings parsed valid few =
    let same : (m.game_id == m.game_id) ≡ true = ground arith in
    let there = rw same at few in
    let (here, later) = AreValid-append d names m.events (came m.game_id ms) (rw same at valid) in
    let (c1, first, going) =
      first-IsGoing m c e d names other unseen begun brings parsed here
        (omega (arith, there, length-append m.events (came m.game_id ms))) in
    let (cn, rest, going') =
      process_all-IsGoing ms d m.game_id _ names m.events c.gui_sock.out_buffer c1 going of later
        there in
    (cn, rw first rest, rw same (IsGoing-IsWhole d m.game_id _ names _ _ cn going'))
