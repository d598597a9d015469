-- ===== src/Client/Events/Tellable.antt =====
-- An event that passes the checks has a line.
use sik_screenworms.Base.{
  ℕ, ◌%◌, ◌≤◌, ◌<◌, ◌≡◌, ◌⊎◌, refl, ◌∙◌, subst, inl, inr, arith, Bool, true, false, not, ◌||◌, List,
  [], ◌∷◌, Str, length, leb, Option, some, Outcome, ok, fail, exit_failure, ◌>>=◌, >>=-eq-ok, check,
  deref, find_at, insert_at, ok-injective, fail-ne-ok,
}
use sik_screenworms.Messages.{
  Event, EventType, new_game, pixel, player_eliminated, game_over, unknown, GameEventVariant,
  in_new_game, in_pixel, in_player_eliminated, in_game_over,
}
use sik_screenworms.Messages.Numbering.{IsNumbered, find_at_of_number, list_names-ok}
use sik_screenworms.Messages.Gui.{gui_line, event_to_message_for_gui}
use sik_screenworms.Client.{Client}
use sik_screenworms.Client.Events.{
  is_valid_event, validate_event, read_in_events_list_of_current_game,
}

-- The event has a line.
unfoldable pub IsTellable : List (ℕ × Str) → Event → Type 0
IsTellable names e = (line : Str) × (event_to_message_for_gui e names ≡ ok line)

-- The numbers of the players are those of the names, and every event that is held has a line.
unfoldable pub IsSound : Client → Type 0
IsSound c =
    IsNumbered c.player_names
    × (c.players_in_game ≤ length c.player_names % 256)
    × ((i : ℕ) (e : Event) → find_at i c.events ≡ some e → IsTellable c.player_names e)

named :
    (n i : ℕ) (names : List (ℕ × Str))
    → IsNumbered names
    → n ≤ length names % 256
    → i < n
    → (name : Str) × (find_at i names ≡ some name)
named n i names numbered le below = find_at_of_number i names numbered (omega arith)

below_players : (n i x y maxx maxy : ℕ) → not (leb n i || leb maxx x || leb maxy y) ≡ true → i < n
below_players n i x y maxx maxy h = ground arith

line_of :
    (o : Outcome Str) {a : Str} (f : Str → Str)
    → o ≡ ok a
    → (line : Str) × ((o >>= λ x. ok (f x)) ≡ ok line)
line_of o {a = a} f h = (f a, rw h refl)

found_name : (o : Option Str) (name : Str) → o ≡ some name → deref o ≡ ok name
found_name o name h = rw h refl

valid_has_line :
    (c : Client) (event_no : ℕ) (t : EventType) (d : GameEventVariant)
    → IsNumbered c.player_names
    → c.players_in_game ≤ length c.player_names % 256
    → is_valid_event c event_no t d ≡ ok true
    → (line : Str) × (gui_line t d c.player_names ≡ ok line)
unfolding is_valid_event gui_line
valid_has_line c event_no new_game (in_new_game d) numbered le h =
    let (listed, text) =
      list_names-ok (length c.player_names % 256) 0 c.player_names numbered (omega arith) in
    line_of _ _ text
valid_has_line c event_no new_game (in_pixel d) numbered le h = absurd (fail-ne-ok h)
valid_has_line c event_no new_game (in_player_eliminated d) numbered le h = absurd (fail-ne-ok h)
valid_has_line c event_no new_game in_game_over numbered le h = absurd (fail-ne-ok h)
valid_has_line c event_no pixel (in_pixel d) numbered le h =
    let below =
      below_players c.players_in_game d.player_number d.x d.y c.maxx c.maxy (ok-injective h) in
    let (name, found) = named c.players_in_game d.player_number c.player_names numbered le below in
    line_of _ _ (found_name _ _ found)
valid_has_line c event_no pixel (in_new_game d) numbered le h = absurd (fail-ne-ok h)
valid_has_line c event_no pixel (in_player_eliminated d) numbered le h = absurd (fail-ne-ok h)
valid_has_line c event_no pixel in_game_over numbered le h = absurd (fail-ne-ok h)
valid_has_line c event_no player_eliminated (in_player_eliminated d) numbered le h =
    let fits : not (leb c.players_in_game d.player_number) ≡ true = ok-injective h in
    let below : d.player_number < c.players_in_game = ground arith in
    let (name, found) = named c.players_in_game d.player_number c.player_names numbered le below in
    line_of _ _ (found_name _ _ found)
valid_has_line c event_no player_eliminated (in_new_game d) numbered le h = absurd (fail-ne-ok h)
valid_has_line c event_no player_eliminated (in_pixel d) numbered le h = absurd (fail-ne-ok h)
valid_has_line c event_no player_eliminated in_game_over numbered le h = absurd (fail-ne-ok h)
valid_has_line c event_no game_over d numbered le h = ([], refl)
valid_has_line c event_no unknown d numbered le h = ([], refl)

was_valid : (o : Outcome Bool) → (o >>= λ valid. check valid exit_failure) ≡ ok tt → o ≡ ok true
was_valid (fail e) h = cc
was_valid (ok true) h = refl
was_valid (ok false) h = absurd (fail-ne-ok h)

validate_event-IsTellable :
    (c : Client) (e : Event)
    → IsNumbered c.player_names
    → c.players_in_game ≤ length c.player_names % 256
    → validate_event c e ≡ ok tt
    → IsTellable c.player_names e
unfolding validate_event IsTellable event_to_message_for_gui
validate_event-IsTellable c e numbered le h =
    valid_has_line c e.event_no e.event_type e.event_data numbered le (was_valid _ h)

-- An entry is the new one, or was there.
inserted :
    (k j : ℕ) (e x : Event) (events : List (ℕ × Event))
    → find_at j (insert_at k e events) ≡ some x
    → (e ≡ x) ⊎ (find_at j events ≡ some x)
unfolding find_at insert_at
inserted k j e x events h = ground arith

pub read_in-IsSound :
    (es : List Event) (c c1 : Client)
    → IsSound c
    → read_in_events_list_of_current_game es c ≡ ok c1
    → IsSound c1
unfolding read_in_events_list_of_current_game IsSound
read_in-IsSound [] c c1 sound h = subst IsSound (ok-injective h) sound
read_in-IsSound (e ∷ es) c c1 (numbered, le, lines) h =
    let (done, valid, goes) = >>=-eq-ok (validate_event c e) _ h in
    let line = validate_event-IsTellable c e numbered le (valid ∙ refl) in
    read_in-IsSound es (record c { events = insert_at e.event_no e c.events }) c1
      (
        numbered,
        le,
        λ i x found. elim (inserted e.event_no i e x c.events found) [
          | inl same ↦ subst (IsTellable c.player_names) same line
          | inr old ↦ lines i x old
        ],
      )
      goes
