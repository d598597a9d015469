-- ===== src/Client/Events/Came.antt =====
-- The events that the server's messages brought of a game, by their numbers, and the lines of these
-- events: what `Client::events` and the user interface are compared with.
use sik_screenworms.Base.{
  ℕ, zero, suc, ◌+◌, ◌≡◌, refl, sym, ◌∙◌, inl, inr, arith, true, false, Bool, ◌&&◌, List, [], ◌∷◌,
  ◌++◌, Str, ◌==◌, if◌then◌else◌, Bool-cases, Option, none, some, Outcome, ok, ◌>>=◌, deref,
  find_at, insert_at, contains_at, is_in,
}
use sik_screenworms.Messages.{Event, ServerToClientMessage}
use sik_screenworms.Messages.Gui.{event_to_message_for_gui}
use sik_screenworms.Client.Events.{is_new_game}
use sik_screenworms.Client.Events.Reads.{insert_all, find_at-insert_all}
use sik_screenworms.Client.Events.Told.{announcements}

-- The events of the messages that are of game `g`, as they came.
unfoldable pub came : ℕ → List ServerToClientMessage → List Event
came g [] = []
came g (m ∷ ms) = let later = came g ms in if g == m.game_id then m.events ++ later else later

-- Every message is of one of these games.
unfoldable pub are_of_games : List ℕ → List ServerToClientMessage → Bool
are_of_games seen [] = true
are_of_games seen (m ∷ ms) = is_in m.game_id seen && are_of_games seen ms

-- The first event that has the number `j`.
unfoldable pub first_numbered : ℕ → List Event → Option Event
first_numbered j [] = none
first_numbered j (e ∷ es) =
    let later = first_numbered j es in if e.event_no == j then some e else later

-- The first event that is a NEW_GAME event.
unfoldable pub first_new_game : List Event → Option Event
first_new_game [] = none
first_new_game (e ∷ es) =
    let later = first_new_game es in if is_new_game e.event_type then some e else later

-- The lines of the events with the `n` numbers from `i` on, in the order of the numbers.
unfoldable pub lines_of : ℕ → ℕ → List Event → List (ℕ × Str) → Outcome Str
lines_of zero i events names = ok []
lines_of (suc n) i events names =
    let rest = lines_of n (i + 1) events names in
    deref (first_numbered i events) >>= λ e.
    event_to_message_for_gui e names >>= λ line. rest >>= λ more. ok (line ++ more)

contains_at-none :
    (j : ℕ) (events : List (ℕ × Event)) → find_at j events ≡ none → contains_at j events ≡ false
unfolding find_at contains_at
contains_at-none j [] h = refl
contains_at-none j ((k, e) ∷ events) h = ground (arith, contains_at-none j events)

find_at-insert_at_here :
    (k j : ℕ) (e : Event) (events : List (ℕ × Event))
    → (k == j) ≡ true
    → find_at j events ≡ none
    → find_at j (insert_at k e events) ≡ some e
unfolding find_at insert_at
find_at-insert_at_here k j e events same h =
    let equal : k ≡ j = ground arith in rw (equal, contains_at-none j events h) (ground arith)

find_at-insert_at_other :
    (k j : ℕ) (e : Event) (events : List (ℕ × Event))
    → (k == j) ≡ false
    → find_at j (insert_at k e events) ≡ find_at j events
unfolding find_at insert_at
find_at-insert_at_other k j e events h = ground arith

find_at-none :
    (j : ℕ) (events : List (ℕ × Event)) → contains_at j events ≡ false → find_at j events ≡ none
unfolding find_at contains_at
find_at-none j [] h = refl
find_at-none j ((k, e) ∷ events) h = ground (arith, find_at-none j events)

-- What is held under a number is the first event that came with it.
pub find_at-first_numbered :
    (l : List Event) (j : ℕ) (events : List (ℕ × Event))
    → find_at j events ≡ none
    → find_at j (insert_all l events) ≡ first_numbered j l
unfolding insert_all first_numbered
find_at-first_numbered [] j events h = h
find_at-first_numbered (x ∷ l) j events h = elim (Bool-cases (x.event_no == j)) [
  | inl here ↦ rw here (
      find_at-insert_all l j x (insert_at x.event_no x events)
        (find_at-insert_at_here x.event_no j x events here h))
  | inr other ↦ rw other (
      find_at-first_numbered l j (insert_at x.event_no x events)
        (find_at-insert_at_other x.event_no j x events other ∙ h))
]

-- The same text from what is held and from what came.
pub announcements-lines_of :
    (n i : ℕ) (l : List Event) (names : List (ℕ × Str))
    → announcements n i (insert_all l []) names ≡ lines_of n i l names
unfolding announcements lines_of find_at
announcements-lines_of zero i l names = refl
announcements-lines_of (suc n) i l names =
    rw (find_at-first_numbered l i [] refl, announcements-lines_of n (i + 1) l names) refl

pub insert_all-append :
    (l l2 : List Event) (events : List (ℕ × Event))
    → insert_all (l ++ l2) events ≡ insert_all l2 (insert_all l events)
unfolding insert_all
insert_all-append [] l2 events = refl
insert_all-append (x ∷ l) l2 events = insert_all-append l l2 (insert_at x.event_no x events)

-- No event came with a number that has no entry.
pub first_numbered-none :
    (j : ℕ) (l : List Event) → contains_at j (insert_all l []) ≡ false → first_numbered j l ≡ none
unfolding find_at
first_numbered-none j l h =
    sym (find_at-first_numbered l j [] refl) ∙ find_at-none j (insert_all l []) h
