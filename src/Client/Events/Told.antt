-- ===== src/Client/Events/Told.antt =====
-- What `processMessageFromServer` tells the user interface.
use mathlib.Core.List.{append_assoc, append-nil}
use sik_screenworms.Base.{
  ℕ, zero, suc, ◌+◌, ◌-◌, ◌^◌, ◌≤◌, ◌<◌, ◌≡◌, refl, sym, ap, ◌∙◌, inl, inr, arith, true, List, [],
  ◌++◌, Str, length, Option, none, some, Outcome, ok, fail, Outcome-cases, ◌>>=◌, deref, find_at,
  contains_at,
}
use sik_screenworms.Messages.{Event, ServerToClientMessage}
use sik_screenworms.Messages.Gui.{event_to_message_for_gui}
use sik_screenworms.Sockets.{write_data}
use sik_screenworms.Client.{Client}
use sik_screenworms.Client.Events.{read_in_message, tell_gui, process_message_from_server}
use sik_screenworms.Client.Events.Reads.{
  IsReadIn, IsSameGame, IsNewGame, read_in_message-IsReadIn, contains_at-insert_all,
  length-insert_all_le,
}
use sik_screenworms.Client.Events.Wanted.{
  IsFirstMissing, count_from-full, next_wanted-IsFirstMissing,
}

-- The lines of the `n` events from the number `i` on, in the order of the numbers.
unfoldable pub announcements : ℕ → ℕ → List (ℕ × Event) → List (ℕ × Str) → Outcome Str
announcements zero i events names = ok []
announcements (suc n) i events names =
    let rest = announcements n (i + 1) events names in
    deref (find_at i events) >>= λ e.
    event_to_message_for_gui e names >>= λ line. rest >>= λ more. ok (line ++ more)

-- The client after `n` events were told, as `text`.
unfoldable pub told : Str → ℕ → Client → Client
told text n c = record c {
  gui_sock = write_data text c.gui_sock;
  next_event_to_send_no = c.next_event_to_send_no + n;
}

told_none : (c : Client) → c ≡ told [] 0 c
unfolding told write_data
told_none c =
    let same : c.next_event_to_send_no + 0 ≡ c.next_event_to_send_no = omega arith in
    rw (append-nil c.gui_sock.out_buffer, same) refl

told_more :
    (line more : Str) (n : ℕ) (c : Client)
    → told more n (told line 1 c) ≡ told (line ++ more) (suc n) c
unfolding told write_data
told_more line more n c =
    let same : c.next_event_to_send_no + 1 + n ≡ c.next_event_to_send_no + suc n = omega arith in
    rw (append_assoc c.gui_sock.out_buffer line more, same) refl

-- One event is told, and then the others.
tell_gui_step :
    (n : ℕ) (c : Client)
    → tell_gui (suc n) c ≡ (
        deref (find_at c.next_event_to_send_no c.events) >>= λ e.
        event_to_message_for_gui e c.player_names >>= λ line. tell_gui n (told line 1 c))
unfolding tell_gui told
tell_gui_step n c = refl

announcements_step :
    (n i : ℕ) (events : List (ℕ × Event)) (names : List (ℕ × Str))
    → announcements (suc n) i events names ≡ (
        deref (find_at i events) >>= λ e. event_to_message_for_gui e names >>= λ line.
        announcements n (i + 1) events names >>= λ more. ok (line ++ more))
unfolding announcements
announcements_step n i events names = refl

-- A line and the text behind it, each of which may fail.
in_turn :
    (o : Option Event) (f : Event → Outcome Str) (rest : Outcome Str) (again : Str → Outcome Client)
    (finish : Str → Client)
    → ((line : Str) → again line ≡ (rest >>= λ more. ok (finish (line ++ more))))
    → (deref o >>= λ e. f e >>= again) ≡ (
        (deref o >>= λ e. f e >>= λ line. rest >>= λ more. ok (line ++ more)) >>= λ text.
        ok (finish text))
in_turn none f rest again finish h = refl
in_turn (some e) f rest again finish h = elim (Outcome-cases (f e)) [
  | inr (fault, fails) ↦ rw fails refl
  | inl (line, gives) ↦ rw gives (
      h line ∙ elim (Outcome-cases rest) [
        | inr (fault, fails) ↦ rw fails refl
        | inl (more, text) ↦ rw text refl
      ])
]

told_rest :
    (rest : Outcome Str) (line : Str) (n : ℕ) (c : Client)
    → (rest >>= λ more. ok (told more n (told line 1 c)))
      ≡ (rest >>= λ more. ok (told (line ++ more) (suc n) c))
told_rest (fail e) line n c = refl
told_rest (ok more) line n c = ap (λ x. ok x) (told_more line more n c)

-- The loop writes the announcements, or ends as they do.
tell_gui-announcements :
    (n : ℕ) (c : Client)
    → tell_gui n c ≡ (
        announcements n c.next_event_to_send_no c.events c.player_names >>= λ text.
        ok (told text n c))
unfolding tell_gui announcements told
tell_gui-announcements zero c = ap (λ x. ok x) (told_none c)
tell_gui-announcements (suc n) c =
    tell_gui_step n c
    ∙ in_turn (find_at c.next_event_to_send_no c.events)
        (λ e. event_to_message_for_gui e c.player_names)
        (announcements n (c.next_event_to_send_no + 1) c.events c.player_names)
        (λ line. tell_gui n (told line 1 c)) (λ text. told text (suc n) c)
        (λ line.
          tell_gui-announcements n (told line 1 c)
          ∙ told_rest (announcements n (c.next_event_to_send_no + 1) c.events c.player_names) line n
              c)

-- All that came in order was told, and nothing else.
unfoldable pub IsInStep : Client → Type 0
IsInStep c =
    (c.next_event_to_send_no ≡ c.next_wanted_event_no)
    × ((i : ℕ) → i < c.next_wanted_event_no → contains_at i c.events ≡ true)

-- The events' numbers stay below 2^32.
unfoldable pub HasRoomFor : ServerToClientMessage → Client → Type 0
HasRoomFor m c = length c.events + length m.events < 2 ^ 32

pub new_game-IsInStep :
    (m : ServerToClientMessage) (c c1 : Client) (l : List Event)
    → length l ≤ length m.events
    → HasRoomFor m c
    → IsNewGame l m c c1
    → IsInStep c1 × (length c1.events < 2 ^ 32)
unfolding IsInStep HasRoomFor IsNewGame
new_game-IsInStep m c c1 l le room (_, _, game, wanted, to_send, events) = (
  (to_send ∙ sym wanted, λ i below. absurd (omega (arith, wanted, below))),
  omega (arith, ap length events, length-insert_all_le l []),
)

pub read_in_message-IsInStep :
    (m : ServerToClientMessage) (c c1 : Client)
    → IsInStep c
    → HasRoomFor m c
    → IsReadIn m c c1
    → IsInStep c1 × (length c1.events < 2 ^ 32)
unfolding IsInStep HasRoomFor IsReadIn IsSameGame IsNewGame
read_in_message-IsInStep m c c1 (step, full) room
      (l, le, sock, inl (game, names, wanted, to_send, events)) =
    (
      (
        to_send ∙ step ∙ sym wanted,
        λ i below.
            rw events (contains_at-insert_all l i c.events (full i (omega (arith, wanted, below)))),
      ),
      omega (arith, ap length events, length-insert_all_le l c.events),
    )
read_in_message-IsInStep m c c1 in_step room (l, le, sock, inr new) =
    new_game-IsInStep m c c1 l le room new

-- What is told once the message was read in.
unfoldable pub IsToldAfter : Client → Outcome Client → ℕ → Type 0
IsToldAfter c1 done w =
    IsFirstMissing c1.next_wanted_event_no w c1.events
    × (done ≡ (
        announcements (w - c1.next_event_to_send_no) c1.next_event_to_send_no c1.events
          c1.player_names
        >>= λ text.
            ok (told text (w - c1.next_event_to_send_no) (record c1 { next_wanted_event_no = w }))))

pub process_message_from_server_lem :
    (m : ServerToClientMessage) (c c1 : Client)
    → read_in_message m c ≡ ok c1
    → IsInStep c1
    → length c1.events < 2 ^ 32
    → (w : ℕ) × IsToldAfter c1 (process_message_from_server m c) w
unfolding process_message_from_server IsInStep IsToldAfter
process_message_from_server_lem m c c1 reads (step, full) small =
    let few = count_from-full c1.next_wanted_event_no c1.events full in
    let (w, ends, first) =
      next_wanted-IsFirstMissing (suc (length c1.events)) c1.next_wanted_event_no c1.events
        (omega (arith, few)) (omega (arith, few, small)) in
    (
      w,
      (
        first,
        rw (reads, ends)
            (tell_gui-announcements (w - c1.next_event_to_send_no)
              (record c1 { next_wanted_event_no = w })),
      ),
    )

-- Of a client that is in step, with less than 2^32 events together with those of the message: once
-- the message was read in, `processMessageFromServer` writes to the user interface exactly the
-- lines of the events from the first one that was not told up to the first number that has no
-- event, in the order of the numbers, and both counters are then that number; it fails only where
-- such a line cannot be made.
pub process_message_from_server-announcements :
    (m : ServerToClientMessage) (c c1 : Client)
    → IsInStep c
    → HasRoomFor m c
    → read_in_message m c ≡ ok c1
    → (w : ℕ) × IsToldAfter c1 (process_message_from_server m c) w
process_message_from_server-announcements m c c1 in_step room reads =
    let (in_step1, small) =
      read_in_message-IsInStep m c c1 in_step room (read_in_message-IsReadIn m c c1 reads) in
    process_message_from_server_lem m c c1 reads in_step1 small
