-- ===== src/Client/Events/Played.antt =====
-- A game that the client plays: that its events are the ones that came, and its text is complete, from
-- the first message of the game on.
use mathlib.Core.List.{append-nil}
use sik_screenworms.Base.{
  ℕ, ◌-◌, ◌^◌, ◌<◌, ◌≡◌, refl, sym, ap, ◌∙◌, inl, inr, arith, true, false, List, [], ◌∷◌, ◌++◌, Str,
  length, ◌==◌, Bool-cases, some, Outcome, ok, >>=-eq-ok, ◌>>=◌, is_in, ok-injective,
}
use sik_screenworms.Messages.{Event, ServerToClientMessage}
use sik_screenworms.Messages.Players.{parsed_players}
use sik_screenworms.Sockets.{TcpSocket}
use sik_screenworms.Client.{Client}
use sik_screenworms.Client.Events.{
  validate_event, is_new_game, new_game_data, enter_game, find_new_game,
  process_message_from_server_with_mismatched_game_id, is_current, read_in_message,
  process_message_from_server,
}
use sik_screenworms.Client.Events.Reads.{
  insert_all, length-insert_all_le, read_in_lem, contains_at-insert_all,
}
use sik_screenworms.Client.Events.Told.{
  announcements, told, IsInStep, IsToldAfter, process_message_from_server_lem,
}
use sik_screenworms.Client.Events.Text.{IsTold, announcements-insert_all, finished}
use sik_screenworms.Client.Events.Came.{first_new_game, insert_all-append}

-- The names of the game that the event `e` begins.
unfoldable pub names_of : Event → Outcome (List (ℕ × Str))
names_of e = new_game_data e.event_data >>= parsed_players

-- The game `g` with these names is played, its events are `l`, and the text is complete.
unfoldable pub IsPlayed : ℕ → List ℕ → List (ℕ × Str) → List Event → Str → Client → Type 0
IsPlayed g seen names l before c =
    (c.game_id ≡ some g)
    × (c.seen_game_ids ≡ seen)
    × (c.player_names ≡ names)
    × (c.events ≡ insert_all l [])
    × IsTold before c

-- The game that a NEW_GAME event begins, before anything of it is told.
unfoldable pub IsEntered : Event → ServerToClientMessage → Client → Client → Type 0
IsEntered e m c c1 =
    (names_of e ≡ ok c1.player_names)
    × (c1.game_id ≡ some m.game_id)
    × (c1.seen_game_ids ≡ m.game_id ∷ c.seen_game_ids)
    × (c1.gui_sock ≡ c.gui_sock)
    × (c1.next_wanted_event_no ≡ 0)
    × (c1.next_event_to_send_no ≡ 0)
    × (c1.events ≡ insert_all m.events [])

pub find_new_game-first_new_game :
    (es all_events : List Event) (e : Event) (c : Client)
    → first_new_game es ≡ some e
    → find_new_game es all_events c ≡ enter_game e all_events c
unfolding find_new_game first_new_game
find_new_game-first_new_game [] all_events e c h = cc
find_new_game-first_new_game (x ∷ es) all_events e c h =
    elim (Bool-cases (is_new_game x.event_type)) [
      | inl new ↦
          let same : some x ≡ some e = rw new at h in
          let equal : x ≡ e = cc in rw new (ap (λ y. enter_game y all_events c) equal)
      | inr other ↦ rw other (find_new_game-first_new_game es all_events e c (rw other at h))
    ]

-- What is reset before a new game is looked for.
abbrev pub reset_for : ServerToClientMessage → Client → Client
reset_for m c = record c {
  game_id = some m.game_id;
  seen_game_ids = m.game_id ∷ c.seen_game_ids;
  players_in_game = 0;
  next_wanted_event_no = 0;
  next_event_to_send_no = 0;
  events = [];
}

-- A first message with a NEW_GAME event.
pub read_in_message-IsEntered :
    (m : ServerToClientMessage) (c c1 : Client) (e : Event)
    → is_current c.game_id m.game_id ≡ false
    → is_in m.game_id c.seen_game_ids ≡ false
    → first_new_game m.events ≡ some e
    → read_in_message m c ≡ ok c1
    → IsEntered e m c c1
unfolding read_in_message process_message_from_server_with_mismatched_game_id IsEntered enter_game
    names_of
read_in_message-IsEntered m c c1 e other unseen begun h =
    let searched = rw (other, unseen) at h in
    let entered =
      sym (find_new_game-first_new_game m.events m.events e (reset_for m c) begun) ∙ searched in
    let (_, _, h1) = >>=-eq-ok (validate_event (reset_for m c) e) _ entered in
    let (d, held, h2) = >>=-eq-ok (new_game_data e.event_data) _ h1 in
    let (names, parsed, h3) = >>=-eq-ok (parsed_players d) _ h2 in
    let same = read_in_lem m.events _ c1 h3 in
    (
      rw held (parsed ∙ ap (λ (x : Client). ok x.player_names) (sym same)),
      ap (λ (x : Client). x.game_id) same,
      ap (λ (x : Client). x.seen_game_ids) same,
      ap (λ (x : Client). x.gui_sock) same,
      ap (λ (x : Client). x.next_wanted_event_no) same,
      ap (λ (x : Client). x.next_event_to_send_no) same,
      ap (λ (x : Client). x.events) same,
    )

pub read_before :
    (m : ServerToClientMessage) (c c' : Client)
    → process_message_from_server m c ≡ ok c'
    → (c1 : Client) × (read_in_message m c ≡ ok c1)
unfolding process_message_from_server
read_before m c c' done = let (c1, reads, _) = >>=-eq-ok (read_in_message m c) _ done in (c1, reads)

-- The message of the game leaves a client whose text is complete.
process_message_from_server-IsPlayed :
    (g : ℕ) (seen : List ℕ) (names : List (ℕ × Str)) (l : List Event) (before text : Str)
    (m : ServerToClientMessage) (c c1 c' : Client)
    → read_in_message m c ≡ ok c1
    → process_message_from_server m c ≡ ok c'
    → IsInStep c1
    → length l < 2 ^ 32
    → c1.game_id ≡ some g
    → c1.seen_game_ids ≡ seen
    → c1.player_names ≡ names
    → c1.events ≡ insert_all l []
    → c1.gui_sock.out_buffer ≡ before ++ text
    → announcements c1.next_wanted_event_no 0 c1.events c1.player_names ≡ ok text
    → IsPlayed g seen names l before c'
unfolding IsToldAfter IsPlayed told
process_message_from_server-IsPlayed g seen names l before text m c c1 c' reads done in_step few
      game seen_eq named events buffer made =
    let small : length c1.events < 2 ^ 32 =
      omega (arith, ap length events, length-insert_all_le l [], few) in
    let (w, (first, after)) = process_message_from_server_lem m c c1 reads in_step small in
    let (more, makes, same) =
      >>=-eq-ok
        (announcements (w - c1.next_event_to_send_no) c1.next_event_to_send_no c1.events
          c1.player_names)
        _ (sym after ∙ done) in
    let is : told more (w - c1.next_event_to_send_no) (record c1 { next_wanted_event_no = w })
        ≡ c' =
      ok-injective same in
    (
      sym (ap (λ (x : Client). x.game_id) is) ∙ game,
      sym (ap (λ (x : Client). x.seen_game_ids) is) ∙ seen_eq,
      sym (ap (λ (x : Client). x.player_names) is) ∙ named,
      sym (ap (λ (x : Client). x.events) is) ∙ events,
      finished m c c1 c' before text reads done in_step small buffer made,
    )

-- The first message of the game.
pub IsEntered-IsPlayed :
    (m : ServerToClientMessage) (c c1 c' : Client) (e : Event)
    → read_in_message m c ≡ ok c1
    → process_message_from_server m c ≡ ok c'
    → length m.events < 2 ^ 32
    → IsEntered e m c c1
    → IsPlayed m.game_id
        (m.game_id ∷ c.seen_game_ids)
        c1.player_names
        m.events
        c.gui_sock.out_buffer
        c'
unfolding IsEntered IsInStep announcements
IsEntered-IsPlayed m c c1 c' e reads done few (_, game, seen, sock, wanted, to_send, events) =
    process_message_from_server-IsPlayed m.game_id _ c1.player_names m.events c.gui_sock.out_buffer
      [] m c c1 c' reads done
      (to_send ∙ sym wanted, λ i below. absurd (omega (arith, wanted, below))) few game seen refl
      events (ap (λ (s : TcpSocket). s.out_buffer) sock ∙ sym (append-nil c.gui_sock.out_buffer))
      (rw wanted refl)

pub read_in_message_current :
    (m : ServerToClientMessage) (g : ℕ) (c c1 : Client)
    → c.game_id ≡ some g
    → (g == m.game_id) ≡ true
    → read_in_message m c ≡ ok c1
    → c1 ≡ record c { events = insert_all m.events c.events }
unfolding read_in_message is_current
read_in_message_current m g c c1 game mine reads =
    let current : is_current c.game_id m.game_id ≡ true = rw game mine in
    read_in_lem m.events c c1 (rw current at reads)

-- Another message of the game.
pub current-IsPlayed :
    (m : ServerToClientMessage) (g : ℕ) (seen : List ℕ) (names : List (ℕ × Str)) (l : List Event)
    (before : Str) (c c' : Client)
    → IsPlayed g seen names l before c
    → (g == m.game_id) ≡ true
    → length (l ++ m.events) < 2 ^ 32
    → process_message_from_server m c ≡ ok c'
    → IsPlayed g seen names (l ++ m.events) before c'
unfolding IsPlayed IsTold IsInStep
current-IsPlayed m g seen names l before c c'
      (game, seen_eq, named, events, ((step, full), missing, text, buffer, made)) mine few done =
    let (c1, reads) = read_before m c c' done in
    let same = read_in_message_current m g c c1 game mine reads in
    process_message_from_server-IsPlayed g seen names (l ++ m.events) before text m c
      (record c { events = insert_all m.events c.events }) c' (reads ∙ ap (λ x. ok x) same) done
      (step, λ i below. contains_at-insert_all m.events i c.events (full i below)) few game seen_eq
      named (ap (insert_all m.events) events ∙ sym (insert_all-append l m.events [])) buffer
      (announcements-insert_all c.next_wanted_event_no 0 m.events c.events c.player_names text made)

-- A message of a game that was played before changes nothing.
pub seen-IsPlayed :
    (m : ServerToClientMessage) (g : ℕ) (seen : List ℕ) (names : List (ℕ × Str)) (l : List Event)
    (before : Str) (c c' : Client)
    → IsPlayed g seen names l before c
    → (g == m.game_id) ≡ false
    → is_in m.game_id seen ≡ true
    → length l < 2 ^ 32
    → process_message_from_server m c ≡ ok c'
    → IsPlayed g seen names l before c'
unfolding IsPlayed IsTold read_in_message is_current
    process_message_from_server_with_mismatched_game_id
seen-IsPlayed m g seen names l before c c'
      (game, seen_eq, named, events, (in_step, missing, text, buffer, made)) other old few done =
    let reads : read_in_message m c ≡ ok c = rw (game, other, seen_eq, old) refl in
    process_message_from_server-IsPlayed g seen names l before text m c c c' reads done in_step few
      game seen_eq named events buffer made
