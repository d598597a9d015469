-- ===== src/Client/Events/Text.antt =====
-- The text of the events that were told, and that it is complete.
use mathlib.Core.List.{append_assoc}
use sik_screenworms.Base.{
  ℕ, zero, suc, ◌+◌, ◌-◌, ◌^◌, ◌<◌, ◌≡◌, refl, sym, ap, ◌∙◌, subst, inl, inr, arith, false, List,
  [], ◌++◌, Str, length, ltb, Bool-cases, Option, none, some, ok, >>=-eq-ok, deref, find_at,
  contains_at, ok-injective,
}
use sik_screenworms.Messages.{Event, ServerToClientMessage}
use sik_screenworms.Messages.Gui.{event_to_message_for_gui}
use sik_screenworms.Sockets.{write_data}
use sik_screenworms.Client.{Client}
use sik_screenworms.Client.Events.{read_in_message, process_message_from_server}
use sik_screenworms.Client.Events.Reads.{insert_all, find_at-insert_all}
use sik_screenworms.Client.Events.Wanted.{IsFirstMissing}
use sik_screenworms.Client.Events.Told.{
  announcements, told, IsInStep, IsToldAfter, process_message_from_server_lem,
}

-- What was written after `before` is one line for each event that came in order, from 0 on.
unfoldable pub IsTold : Str → Client → Type 0
IsTold before c =
    IsInStep c
    × (contains_at c.next_wanted_event_no c.events ≡ false)
    × (text : Str) × (c.gui_sock.out_buffer ≡ before ++ text)
    × (announcements c.next_wanted_event_no 0 c.events c.player_names ≡ ok text)

-- One more line.
pub announce_one :
    (n i : ℕ) (events : List (ℕ × Event)) (names : List (ℕ × Str)) (e : Event) (line more : Str)
    → find_at i events ≡ some e
    → event_to_message_for_gui e names ≡ ok line
    → announcements n (i + 1) events names ≡ ok more
    → announcements (suc n) i events names ≡ ok (line ++ more)
unfolding announcements
announce_one n i events names e line more found gives rest =
    rw (found, gives, announcements, rest) refl

-- The parts of a text that was made.
deref-some : (o : Option Event) (e : Event) → deref o ≡ ok e → o ≡ some e
deref-some none e h = cc
deref-some (some x) e h = cc

announced_parts :
    (n i : ℕ) (events : List (ℕ × Event)) (names : List (ℕ × Str)) (text : Str)
    → announcements (suc n) i events names ≡ ok text
    → (e : Event) × (line : Str) × (more : Str) × (find_at i events ≡ some e)
      × (event_to_message_for_gui e names ≡ ok line)
      × (announcements n (i + 1) events names ≡ ok more)
      × (line ++ more ≡ text)
unfolding announcements
announced_parts n i events names text h =
    let (e, found, h1) = >>=-eq-ok (deref (find_at i events)) _ h in
    let (line, gives, h2) = >>=-eq-ok (event_to_message_for_gui e names) _ h1 in
    let (more, rest, h3) = >>=-eq-ok (announcements n (i + 1) events names) _ h2 in
    (e, line, more, deref-some _ e found, gives, rest, ok-injective h3)

announcements-append :
    (a b i : ℕ) (events : List (ℕ × Event)) (names : List (ℕ × Str)) (s t : Str)
    → announcements a i events names ≡ ok s
    → announcements b (i + a) events names ≡ ok t
    → announcements (a + b) i events names ≡ ok (s ++ t)
unfolding announcements
announcements-append zero b i events names s t first second =
    let nothing : [] ≡ s = ok-injective first in
    let stays : i + 0 ≡ i = omega arith in
    let flat : 0 + b ≡ b = omega arith in rw (flat, ← nothing) (rw stays at second)
announcements-append (suc a) b i events names s t first second =
    let (e, line, more, found, gives, rest, whole) = announced_parts a i events names s first in
    let moved : i + suc a ≡ i + 1 + a = omega arith in
    let shifted : suc a + b ≡ suc (a + b) = omega arith in
    let behind = announcements-append a b (i + 1) events names more t rest (rw moved at second) in
    rw (shifted, ← whole, append_assoc line more t)
      (announce_one (a + b) i events names e line (more ++ t) found gives behind)

-- More events change nothing of what was announced.
pub announcements-insert_all :
    (n i : ℕ) (l : List Event) (events : List (ℕ × Event)) (names : List (ℕ × Str)) (text : Str)
    → announcements n i events names ≡ ok text
    → announcements n i (insert_all l events) names ≡ ok text
unfolding announcements
announcements-insert_all zero i l events names text h = h
announcements-insert_all (suc n) i l events names text h =
    let (e, line, more, found, gives, rest, whole) = announced_parts n i events names text h in
    subst (λ t. announcements (suc n) i (insert_all l events) names ≡ ok t) whole
      (announce_one n i (insert_all l events) names e line more
        (find_at-insert_all l i e events found) gives
        (announcements-insert_all n (i + 1) l events names more rest))

pub told-IsInStep :
    (more : Str) (w : ℕ) (c1 : Client)
    → IsInStep c1
    → IsFirstMissing c1.next_wanted_event_no w c1.events
    → IsInStep (told more (w - c1.next_event_to_send_no) (record c1 { next_wanted_event_no = w }))
unfolding IsInStep IsFirstMissing told
told-IsInStep more w c1 (step, full) (le, between, missing) = (
  omega (arith, step, le),
  λ i below. elim (Bool-cases (ltb i c1.next_wanted_event_no)) [
    | inl old ↦ full i (ground arith)
    | inr new ↦ between i (ground arith) below
  ],
)

-- Where the text is complete before a message is told, it is so afterwards.
told_whole :
    (before text more : Str) (w : ℕ) (c1 : Client)
    → IsInStep c1
    → c1.gui_sock.out_buffer ≡ before ++ text
    → announcements c1.next_wanted_event_no 0 c1.events c1.player_names ≡ ok text
    → IsFirstMissing c1.next_wanted_event_no w c1.events
    → announcements
        (w - c1.next_event_to_send_no)
        c1.next_event_to_send_no
        c1.events
        c1.player_names
      ≡ ok more
    → IsTold before
        (told more (w - c1.next_event_to_send_no) (record c1 { next_wanted_event_no = w }))
unfolding IsTold IsInStep IsFirstMissing told write_data
told_whole before text more w c1 in_step buffer made first makes =
    let (step, _) = in_step in
    let (le, _, missing) = first in
    let start : 0 + c1.next_wanted_event_no ≡ c1.next_event_to_send_no = omega (arith, step) in
    let whole : c1.next_wanted_event_no + (w - c1.next_event_to_send_no) ≡ w =
      omega (arith, step, le) in
    let behind : announcements (w - c1.next_event_to_send_no) (0 + c1.next_wanted_event_no)
          c1.events c1.player_names
        ≡ ok more =
      rw start makes in
    (
      told-IsInStep more w c1 in_step first,
      missing,
      text ++ more,
      ap (◌++ more) buffer ∙ append_assoc before text more,
      subst (λ k. announcements k 0 c1.events c1.player_names ≡ ok (text ++ more)) whole
          (announcements-append c1.next_wanted_event_no (w - c1.next_event_to_send_no) 0 c1.events
            c1.player_names text more made behind),
    )

IsToldAfter-IsTold :
    (before text : Str) (w : ℕ) (c1 c' : Client)
    → IsInStep c1
    → c1.gui_sock.out_buffer ≡ before ++ text
    → announcements c1.next_wanted_event_no 0 c1.events c1.player_names ≡ ok text
    → IsToldAfter c1 (ok c') w
    → IsTold before c'
unfolding IsToldAfter
IsToldAfter-IsTold before text w c1 c' in_step buffer made (first, done) =
    let (more, makes, same) =
      >>=-eq-ok
        (announcements (w - c1.next_event_to_send_no) c1.next_event_to_send_no c1.events
          c1.player_names)
        _ (sym done) in
    subst (IsTold before) (ok-injective same)
      (told_whole before text more w c1 in_step buffer made first makes)

pub finished :
    (m : ServerToClientMessage) (c c1 c' : Client) (before text : Str)
    → read_in_message m c ≡ ok c1
    → process_message_from_server m c ≡ ok c'
    → IsInStep c1
    → length c1.events < 2 ^ 32
    → c1.gui_sock.out_buffer ≡ before ++ text
    → announcements c1.next_wanted_event_no 0 c1.events c1.player_names ≡ ok text
    → IsTold before c'
finished m c c1 c' before text reads done in_step small buffer made =
    let (w, after) = process_message_from_server_lem m c c1 reads in_step small in
    IsToldAfter-IsTold before text w c1 c' in_step buffer made
      (subst (λ o. IsToldAfter c1 o w) done after)
