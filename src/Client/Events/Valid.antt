-- ===== src/Client/Events/Valid.antt =====
-- Events that pass `validateEvent`: they are read in.
use sik_screenworms.Base.{
  ℕ, ◌≡◌, ◌++◌, refl, sym, ap, ◌∙◌, inl, inr, true, List, [], ◌∷◌, Str, Bool-cases, length, ◌%◌,
  some, ok, ◌>>=◌, check, exit_failure,
}
use sik_screenworms.Messages.{
  Event, EventType, new_game, pixel, player_eliminated, game_over, unknown, GameEventVariant,
  in_new_game, in_pixel, in_player_eliminated, in_game_over, EventNewGame,
}
use sik_screenworms.Client.{Client}
use sik_screenworms.Client.Events.{
  is_valid_event, validate_event, is_new_game, read_in_events_list_of_current_game,
}
use sik_screenworms.Client.Events.Reads.{insert_all}
use sik_screenworms.Client.Events.Came.{first_new_game}

-- The client plays on the board of `d`, with as many players as there are names.
unfoldable pub IsOnBoard : EventNewGame → List (ℕ × Str) → Client → Type 0
IsOnBoard d names c =
    (c.maxx ≡ d.maxx) × (c.maxy ≡ d.maxy) × (c.players_in_game ≡ length names % 256)

-- Each event passes the checks of a client on this board.
unfoldable pub AreValid : EventNewGame → List (ℕ × Str) → List Event → Type 0
AreValid d names [] = Unit
AreValid d names (e ∷ es) =
    ((c : Client) → IsOnBoard d names c → validate_event c e ≡ ok tt) × AreValid d names es

-- A NEW_GAME event is checked in the same way by every client.
is_valid_event-is_new_game :
    (c c' : Client) (event_no : ℕ) (t : EventType) (d : GameEventVariant)
    → is_new_game t ≡ true
    → is_valid_event c event_no t d ≡ is_valid_event c' event_no t d
unfolding is_valid_event is_new_game
is_valid_event-is_new_game c c' event_no new_game (in_new_game d) h = refl
is_valid_event-is_new_game c c' event_no new_game (in_pixel d) h = refl
is_valid_event-is_new_game c c' event_no new_game (in_player_eliminated d) h = refl
is_valid_event-is_new_game c c' event_no new_game in_game_over h = refl
is_valid_event-is_new_game c c' event_no pixel d h = cc
is_valid_event-is_new_game c c' event_no player_eliminated d h = cc
is_valid_event-is_new_game c c' event_no game_over d h = cc
is_valid_event-is_new_game c c' event_no unknown d h = cc

validate_event-is_new_game :
    (c c' : Client) (e : Event)
    → is_new_game e.event_type ≡ true
    → validate_event c e ≡ validate_event c' e
unfolding validate_event
validate_event-is_new_game c c' e h =
    ap (λ o. o >>= λ valid. check valid exit_failure)
      (is_valid_event-is_new_game c c' e.event_no e.event_type e.event_data h)

pub validate_event-first_new_game :
    (d : EventNewGame) (names : List (ℕ × Str)) (es : List Event) (e : Event) (c : Client)
    → AreValid d names es
    → first_new_game es ≡ some e
    → validate_event c e ≡ ok tt
unfolding AreValid IsOnBoard first_new_game
validate_event-first_new_game d names [] e c valid h = cc
validate_event-first_new_game d names (x ∷ es) e c (first, rest) h =
    elim (Bool-cases (is_new_game x.event_type)) [
      | inl new ↦
          let same : some x ≡ some e = rw new at h in
          let equal : x ≡ e = cc in
          let there : Client = record c {
            maxx = d.maxx;
            maxy = d.maxy;
            players_in_game = length names % 256;
          } in
          ap (validate_event c) (sym equal)
          ∙ validate_event-is_new_game c there x new
          ∙ first there (refl, refl, refl)
      | inr other ↦ validate_event-first_new_game d names es e c rest (rw other at h)
    ]

pub read_in-AreValid :
    (d : EventNewGame) (names : List (ℕ × Str)) (es : List Event) (c : Client)
    → AreValid d names es
    → IsOnBoard d names c
    → read_in_events_list_of_current_game es c ≡ ok (record c { events = insert_all es c.events })
unfolding AreValid IsOnBoard read_in_events_list_of_current_game insert_all
read_in-AreValid d names [] c valid on = refl
read_in-AreValid d names (e ∷ es) c (first, rest) on =
    rw (first c on) (read_in-AreValid d names es _ rest on)

pub AreValid-append :
    (d : EventNewGame) (names : List (ℕ × Str)) (es es2 : List Event)
    → AreValid d names (es ++ es2)
    → AreValid d names es × AreValid d names es2
unfolding AreValid
AreValid-append d names [] es2 valid = (tt, valid)
AreValid-append d names (e ∷ es) es2 (first, rest) =
    let (here, there) = AreValid-append d names es es2 rest in ((first, here), there)
