-- ===== src/Client/Events/Reads.antt =====
-- What a message of the server changes of the client, before anything is told.
use sik_screenworms.Base.{
  ℕ, suc, ◌+◌, ◌≤◌, ◌≡◌, ◌⊎◌, refl, sym, ap, subst, inl, inr, arith, true, false, List, [], ◌∷◌,
  length, Bool-cases, some, ok, >>=-eq-ok, find_at, contains_at, insert_at, find_at-insert_at_old,
  contains_at-insert_at, is_in, ok-injective,
}
use sik_screenworms.Messages.{Event, ServerToClientMessage}
use sik_screenworms.Messages.Players.{parsed_players}
use sik_screenworms.Client.{Client}
use sik_screenworms.Client.Events.{
  validate_event, read_in_events_list_of_current_game, is_new_game, new_game_data, enter_game,
  find_new_game, process_message_from_server_with_mismatched_game_id, is_current, read_in_message,
}

-- The events, each under its number, where no other one has it.
unfoldable pub insert_all : List Event → List (ℕ × Event) → List (ℕ × Event)
insert_all [] events = events
insert_all (e ∷ es) events = insert_all es (insert_at e.event_no e events)

pub find_at-insert_all :
    (l : List Event) (j : ℕ) (e : Event) (events : List (ℕ × Event))
    → find_at j events ≡ some e
    → find_at j (insert_all l events) ≡ some e
unfolding insert_all
find_at-insert_all [] j e events h = h
find_at-insert_all (x ∷ l) j e events h =
    find_at-insert_all l j e (insert_at x.event_no x events)
      (find_at-insert_at_old x.event_no j x e events h)

pub contains_at-insert_all :
    (l : List Event) (j : ℕ) (events : List (ℕ × Event))
    → contains_at j events ≡ true
    → contains_at j (insert_all l events) ≡ true
unfolding insert_all
contains_at-insert_all [] j events h = h
contains_at-insert_all (x ∷ l) j events h =
    contains_at-insert_all l j (insert_at x.event_no x events)
      (ground (arith, contains_at-insert_at x.event_no j x events))

length-insert_at_le :
    (j : ℕ) (e : Event) (events : List (ℕ × Event))
    → length (insert_at j e events) ≤ suc (length events)
unfolding insert_at
length-insert_at_le j e events = ground arith

pub length-insert_all_le :
    (l : List Event) (events : List (ℕ × Event))
    → length (insert_all l events) ≤ length events + length l
unfolding insert_all
length-insert_all_le [] events = omega arith
length-insert_all_le (x ∷ l) events = omega (
  arith,
  length-insert_all_le l (insert_at x.event_no x events),
  length-insert_at_le x.event_no x events,
)

pub read_in_lem :
    (es : List Event) (c c1 : Client)
    → read_in_events_list_of_current_game es c ≡ ok c1
    → c1 ≡ record c { events = insert_all es c.events }
unfolding read_in_events_list_of_current_game insert_all
read_in_lem [] c c1 h = sym (ok-injective h)
read_in_lem (e ∷ es) c c1 h =
    let (_, _, goes) = >>=-eq-ok (validate_event c e) _ h in
    read_in_lem es (record c { events = insert_at e.event_no e c.events }) c1 goes

-- How the state was changed for the message `m`: `l` of its events were entered, in the game that
-- was being played, or in a new one.
unfoldable pub IsSameGame : List Event → Client → Client → Type 0
IsSameGame l c c1 =
    (c1.game_id ≡ c.game_id)
    × (c1.player_names ≡ c.player_names)
    × (c1.next_wanted_event_no ≡ c.next_wanted_event_no)
    × (c1.next_event_to_send_no ≡ c.next_event_to_send_no)
    × (c1.events ≡ insert_all l c.events)

unfoldable pub IsNewGame : List Event → ServerToClientMessage → Client → Client → Type 0
IsNewGame l m c c1 =
    (is_current c.game_id m.game_id ≡ false)
    × (is_in m.game_id c.seen_game_ids ≡ false)
    × (c1.game_id ≡ some m.game_id)
    × (c1.next_wanted_event_no ≡ 0)
    × (c1.next_event_to_send_no ≡ 0)
    × (c1.events ≡ insert_all l [])

unfoldable pub IsReadIn : ServerToClientMessage → Client → Client → Type 0
IsReadIn m c c1 =
    (l : List Event) × (length l ≤ length m.events)
    × (c1.gui_sock ≡ c.gui_sock)
    × (IsSameGame l c c1 ⊎ IsNewGame l m c c1)

-- What the search for a NEW_GAME event keeps.
IsFound : List Event → Client → Client → Type 0
IsFound all_events c c1 =
    (l : List Event) × (length l ≤ length all_events)
    × (c1.gui_sock ≡ c.gui_sock)
    × (c1.game_id ≡ c.game_id)
    × (c1.next_wanted_event_no ≡ c.next_wanted_event_no)
    × (c1.next_event_to_send_no ≡ c.next_event_to_send_no)
    × (c1.events ≡ insert_all l c.events)

enter_game-IsFound :
    (e : Event) (all_events : List Event) (c c1 : Client)
    → enter_game e all_events c ≡ ok c1
    → IsFound all_events c c1
unfolding enter_game IsFound
enter_game-IsFound e all_events c c1 h =
    let (_, _, h1) = >>=-eq-ok (validate_event c e) _ h in
    let (d, _, h2) = >>=-eq-ok (new_game_data e.event_data) _ h1 in
    let (names, _, h3) = >>=-eq-ok (parsed_players d) _ h2 in
    let same = read_in_lem all_events _ c1 h3 in
    (
      all_events,
      omega arith,
      ap (λ (x : Client). x.gui_sock) same,
      ap (λ (x : Client). x.game_id) same,
      ap (λ (x : Client). x.next_wanted_event_no) same,
      ap (λ (x : Client). x.next_event_to_send_no) same,
      ap (λ (x : Client). x.events) same,
    )

find_new_game-IsFound :
    (es all_events : List Event) (c c1 : Client)
    → find_new_game es all_events c ≡ ok c1
    → IsFound all_events c c1
unfolding find_new_game IsFound insert_all
find_new_game-IsFound [] all_events c c1 h =
    let same : c1 ≡ c = sym (ok-injective h) in
    (
      [],
      omega arith,
      ap (λ (x : Client). x.gui_sock) same,
      ap (λ (x : Client). x.game_id) same,
      ap (λ (x : Client). x.next_wanted_event_no) same,
      ap (λ (x : Client). x.next_event_to_send_no) same,
      ap (λ (x : Client). x.events) same,
    )
find_new_game-IsFound (e ∷ es) all_events c c1 h = elim (Bool-cases (is_new_game e.event_type)) [
  | inl new ↦ enter_game-IsFound e all_events c c1 (rw new at h)
  | inr other ↦ find_new_game-IsFound es all_events c c1 (rw other at h)
]

pub read_in_message-IsNewGame :
    (m : ServerToClientMessage) (c c1 : Client)
    → is_current c.game_id m.game_id ≡ false
    → is_in m.game_id c.seen_game_ids ≡ false
    → read_in_message m c ≡ ok c1
    → (l : List Event) × (length l ≤ length m.events)
      × (c1.gui_sock ≡ c.gui_sock)
      × IsNewGame l m c c1
unfolding read_in_message process_message_from_server_with_mismatched_game_id IsNewGame IsFound
    insert_all
read_in_message-IsNewGame m c c1 other unseen h =
    let (l, le, sock, game, wanted, to_send, events) =
      find_new_game-IsFound m.events m.events _ c1 (rw (other, unseen) at h) in
    (l, le, sock, (other, unseen, game, wanted, to_send, events))

pub read_in_message-IsReadIn :
    (m : ServerToClientMessage) (c c1 : Client) → read_in_message m c ≡ ok c1 → IsReadIn m c c1
unfolding read_in_message process_message_from_server_with_mismatched_game_id IsReadIn IsSameGame
    IsNewGame IsFound insert_all
read_in_message-IsReadIn m c c1 h = elim (Bool-cases (is_current c.game_id m.game_id)) [
  | inl current ↦
      let same = read_in_lem m.events c c1 (rw current at h) in
      (
        m.events,
        omega arith,
        ap (λ (x : Client). x.gui_sock) same,
        inl (
          ap (λ (x : Client). x.game_id) same,
          ap (λ (x : Client). x.player_names) same,
          ap (λ (x : Client). x.next_wanted_event_no) same,
          ap (λ (x : Client). x.next_event_to_send_no) same,
          ap (λ (x : Client). x.events) same,
        ),
      )
  | inr other ↦ elim (Bool-cases (is_in m.game_id c.seen_game_ids)) [
    | inl seen ↦
        let same : c ≡ c1 = ok-injective (rw (other, seen) at h) in
        subst (IsReadIn m c) same ([], omega arith, refl, inl (refl, refl, refl, refl, refl))
    | inr unseen ↦
        let (l, le, sock, new) = read_in_message-IsNewGame m c c1 other unseen h in
        (l, le, sock, inr new)
  ]
]
