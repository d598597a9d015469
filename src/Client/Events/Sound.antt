-- ===== src/Client/Events/Sound.antt =====
-- What was read in can be told: no lookup of an event or of a name fails.
use sik_screenworms.Base.{
  ℕ, zero, suc, ◌+◌, ◌-◌, ◌^◌, ◌≤◌, ◌<◌, ◌≡◌, ◌⊎◌, refl, subst, inl, inr, arith, true, false, List,
  [], ◌∷◌, ◌++◌, Str, length, Bool-cases, none, some, ok, >>=-eq-ok, find_at, contains_at,
  find_at_of_contains, is_in, ok-injective,
}
use sik_screenworms.Messages.{Event, ServerToClientMessage}
use sik_screenworms.Messages.Players.{parsed_players}
use sik_screenworms.Messages.Numbering.{IsNumbered, parsed_players-IsNumbered}
use sik_screenworms.Client.{Client}
use sik_screenworms.Client.Events.{
  validate_event, is_new_game, new_game_data, enter_game, find_new_game,
  process_message_from_server_with_mismatched_game_id, is_current, read_in_message,
  process_message_from_server,
}
use sik_screenworms.Client.Events.Reads.{read_in_message-IsReadIn, read_in_message-IsNewGame}
use sik_screenworms.Client.Events.Wanted.{IsFirstMissing}
use sik_screenworms.Client.Events.Told.{
  announcements, told, IsInStep, HasRoomFor, IsToldAfter, process_message_from_server_lem,
  read_in_message-IsInStep, new_game-IsInStep,
}
use sik_screenworms.Client.Events.Text.{announce_one, told-IsInStep}
use sik_screenworms.Client.Events.Tellable.{IsTellable, IsSound, read_in-IsSound}

no_entry :
    (i : ℕ) (x : Event) (events : List (ℕ × Event)) → events ≡ [] → find_at i events ≡ some x → ⊥
unfolding find_at
no_entry i x [] h found = cc
no_entry i x (e ∷ events) h found = cc

sound_names : (c : Client) → IsSound c → IsNumbered c.player_names
unfolding IsSound
sound_names c (numbered, _, _) = numbered

pub enter_game-IsSound :
    (e : Event) (all_events : List Event) (c c1 : Client)
    → c.events ≡ []
    → enter_game e all_events c ≡ ok c1
    → IsSound c1
unfolding enter_game IsSound find_at
enter_game-IsSound e all_events c c1 none_held h =
    let (_, _, h1) = >>=-eq-ok (validate_event c e) _ h in
    let (d, _, h2) = >>=-eq-ok (new_game_data e.event_data) _ h1 in
    let (names, parsed, h3) = >>=-eq-ok (parsed_players d) _ h2 in
    read_in-IsSound all_events _ c1
      (
        parsed_players-IsNumbered d names parsed,
        omega arith,
        λ i x found. absurd (no_entry i x c.events none_held found),
      )
      h3

find_new_game-IsSound :
    (es all_events : List Event) (c c1 : Client)
    → IsNumbered c.player_names
    → c.players_in_game ≡ 0
    → c.events ≡ []
    → find_new_game es all_events c ≡ ok c1
    → IsSound c1
unfolding find_new_game IsSound find_at
find_new_game-IsSound [] all_events c c1 numbered no_players none_held h =
    subst IsSound (ok-injective h)
      (numbered, omega arith, λ i x found. absurd (no_entry i x c.events none_held found))
find_new_game-IsSound (e ∷ es) all_events c c1 numbered no_players none_held h =
    elim (Bool-cases (is_new_game e.event_type)) [
      | inl new ↦ enter_game-IsSound e all_events c c1 none_held (rw new at h)
      | inr other ↦
          find_new_game-IsSound es all_events c c1 numbered no_players none_held (rw other at h)
    ]

-- Before the first game the counters may hold anything.
unfoldable pub IsReady : Client → Type 0
IsReady c =
    ((c.game_id ≡ none) × (c.seen_game_ids ≡ []) × IsNumbered c.player_names)
    ⊎ (IsInStep c × IsSound c)

pub read_in_new-IsSound :
    (m : ServerToClientMessage) (c c1 : Client)
    → IsNumbered c.player_names
    → is_current c.game_id m.game_id ≡ false
    → is_in m.game_id c.seen_game_ids ≡ false
    → read_in_message m c ≡ ok c1
    → IsSound c1
unfolding read_in_message process_message_from_server_with_mismatched_game_id
read_in_new-IsSound m c c1 numbered other unseen h =
    find_new_game-IsSound m.events m.events _ c1 numbered refl refl (rw (other, unseen) at h)

pub read_in_message-IsSound :
    (m : ServerToClientMessage) (c c1 : Client)
    → IsSound c
    → read_in_message m c ≡ ok c1
    → IsSound c1
unfolding read_in_message process_message_from_server_with_mismatched_game_id
read_in_message-IsSound m c c1 sound h = elim (Bool-cases (is_current c.game_id m.game_id)) [
  | inl current ↦ read_in-IsSound m.events c c1 sound (rw current at h)
  | inr other ↦ elim (Bool-cases (is_in m.game_id c.seen_game_ids)) [
    | inl seen ↦ subst IsSound (ok-injective (rw (other, seen) at h)) sound
    | inr unseen ↦ read_in_new-IsSound m c c1 (sound_names c sound) other unseen h
  ]
]

read_in_message-IsReady :
    (m : ServerToClientMessage) (c c1 : Client)
    → IsReady c
    → HasRoomFor m c
    → read_in_message m c ≡ ok c1
    → IsInStep c1 × (length c1.events < 2 ^ 32) × IsSound c1
unfolding IsReady is_current is_in
read_in_message-IsReady m c c1 (inl (game, seen, numbered)) room h =
    let other : is_current c.game_id m.game_id ≡ false = rw game refl in
    let unseen : is_in m.game_id c.seen_game_ids ≡ false = rw seen refl in
    let (l, le, sock, new) = read_in_message-IsNewGame m c c1 other unseen h in
    let (in_step, small) = new_game-IsInStep m c c1 l le room new in
    (in_step, small, read_in_new-IsSound m c c1 numbered other unseen h)
read_in_message-IsReady m c c1 (inr (in_step, sound)) room h =
    let (in_step1, small) =
      read_in_message-IsInStep m c c1 in_step room (read_in_message-IsReadIn m c c1 h) in
    (in_step1, small, read_in_message-IsSound m c c1 sound h)

-- Every event that is held can be told.
announcements-ok :
    (n i : ℕ) (events : List (ℕ × Event)) (names : List (ℕ × Str))
    → ((j : ℕ) (e : Event) → find_at j events ≡ some e → IsTellable names e)
    → ((j : ℕ) → i ≤ j → j < i + n → contains_at j events ≡ true)
    → (text : Str) × (announcements n i events names ≡ ok text)
unfolding announcements IsTellable
announcements-ok zero i events names lines there = ([], refl)
announcements-ok (suc n) i events names lines there =
    let (e, found) = find_at_of_contains i events (there i (omega arith) (omega arith)) in
    let (line, gives) = lines i e found in
    let (more, rest) =
      announcements-ok n (i + 1) events names lines
        (λ j from below. there j (omega arith) (omega arith)) in
    (line ++ more, announce_one n i events names e line more found gives rest)

-- What was read in is told, and the board stays the same.
pub process_message_from_server-IsSound :
    (m : ServerToClientMessage) (c c1 : Client)
    → read_in_message m c ≡ ok c1
    → IsInStep c1
    → length c1.events < 2 ^ 32
    → IsSound c1
    → (c' : Client) × (process_message_from_server m c ≡ ok c')
      × IsInStep c'
      × IsSound c'
      × (c'.maxx ≡ c1.maxx)
      × (c'.maxy ≡ c1.maxy)
      × (c'.players_in_game ≡ c1.players_in_game)
unfolding IsInStep IsFirstMissing IsToldAfter IsSound told
process_message_from_server-IsSound m c c1 reads (step, full) small (numbered, le, lines) =
    let (w, (first, done)) = process_message_from_server_lem m c c1 reads (step, full) small in
    let (from, between, missing) = first in
    let (text, made) =
      announcements-ok (w - c1.next_event_to_send_no) c1.next_event_to_send_no c1.events
        c1.player_names lines
        (λ j above below.
          between j (omega (arith, step, above)) (omega (arith, step, from, above, below))) in
    (
      _,
      rw made at done,
      told-IsInStep text w c1 (step, full) first,
      (numbered, le, lines),
      refl,
      refl,
      refl,
    )

-- From a client as it starts, or in step and sound, with less than 2^32 events together with those
-- of the message: where the message's events pass the checks, `processMessageFromServer` returns,
-- so that neither `events.find` nor `playerNames.find` is read through where nothing was found, and
-- the client is in step and sound again.
pub process_message_from_server-IsReady :
    (m : ServerToClientMessage) (c c1 : Client)
    → IsReady c
    → HasRoomFor m c
    → read_in_message m c ≡ ok c1
    → (c' : Client) × (process_message_from_server m c ≡ ok c') × IsInStep c' × IsSound c'
process_message_from_server-IsReady m c c1 ready room reads =
    let (in_step, small, sound) = read_in_message-IsReady m c c1 ready room reads in
    let (c', done, in_step', sound', _, _, _) =
      process_message_from_server-IsSound m c c1 reads in_step small sound in
    (c', done, in_step', sound')
