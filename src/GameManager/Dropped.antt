-- ===== src/GameManager/Dropped.antt =====
-- game.cpp: a message of a player whose connection was dropped in the course of a game.
use sik_screenworms.Base.{
  ℕ, ◌≡◌, ◌∙◌, refl, ap, inl, inr, true, false, List, [], ◌∷◌, Str, ◌==s◌, ==s_refl, Bool-cases,
  fail, undefined_behaviour, some, find, contains, find-erase, contains-find,
}
use sik_screenworms.Messages.{ClientToServerMessage}
use sik_screenworms.MqManager.{MqManager, Fingerprint, ack, drop_queue, is_nil}
use sik_screenworms.GameManager.State.{Platform, Player, GameManager}
use sik_screenworms.GameManager.Handlers.{
  mark_disconnected, drop_connection, update_player, handle_message_from_player, handle_message,
}

module _ {D : Type 0} where
  -- A player who is marked keeps the name and the address.
  find-mark_disconnected :
      (f name : Str) (p : Player D) (players : List (Str × Player D))
      → find name players ≡ some p
      → (p' : Player D) × (find name (mark_disconnected f players) ≡ some p')
        × (p'.fingerprint ≡ p.fingerprint)
  unfolding find mark_disconnected
  find-mark_disconnected f name p [] found = cc
  find-mark_disconnected f name p ((j, w) ∷ players) found = elim (Bool-cases (j ==s name)) [
    | inl here ↦
        let same : some w ≡ some p = rw here at found in
        let equal : w ≡ p = cc in
        elim (Bool-cases (w.fingerprint ==s f)) [
          | inl marked ↦ (
            record w { is_disconnected = true },
            rw (marked, here),
            ap (λ (x : Player D). x.fingerprint) equal,
          )
          | inr kept ↦ (w, rw (kept, here), ap (λ (x : Player D). x.fingerprint) equal)
        ]
    | inr other ↦
        let (p', found', same) = find-mark_disconnected f name p players (rw other at found) in
        elim (Bool-cases (w.fingerprint ==s f)) [
          | inl marked ↦ (p, rw (marked, other) (rw other at found), refl)
          | inr kept ↦ (p', rw (kept, other) found', same)
        ]
  ]

  -- In the course of a game only the queue goes, and the player is marked.
  drop_connection_playing :
      (f : Fingerprint) (g : GameManager D)
      → contains f g.watchers ≡ false
      → g.game_started ≡ true
      → drop_connection f g ≡ record g {
        mq_manager = drop_queue f g.mq_manager;
        players = mark_disconnected f g.players;
      }
  unfolding drop_connection
  drop_connection_playing f g plays started = rw (plays, started) refl

ack-drop_queue :
    (f : Fingerprint) (n : ℕ) (q : MqManager)
    → q.next_games ≡ []
    → ack f n (drop_queue f q) ≡ fail undefined_behaviour
unfolding ack drop_queue
ack-drop_queue f n q last = rw (last, find-erase f f q.queues, ==s_refl f) refl

update_player_dropped :
    (pl : Platform) (f : Fingerprint) (msg : ClientToServerMessage) (p : Player pl.Double)
    (g : GameManager pl.Double)
    → ack f msg.next_expected_event_no g.mq_manager ≡ fail undefined_behaviour
    → update_player pl f msg p g ≡ fail undefined_behaviour
unfolding update_player
update_player_dropped pl f msg p g fails = rw fails refl

handle_message_from_player_found :
    (pl : Platform) (f : Fingerprint) (msg : ClientToServerMessage) (p : Player pl.Double)
    (g : GameManager pl.Double)
    → find msg.player_name g.players ≡ some p
    → (p.fingerprint ==s f) ≡ true
    → handle_message_from_player pl f msg g ≡ update_player pl f msg p g
unfolding handle_message_from_player
handle_message_from_player_found pl f msg p g found own =
    rw (found, handle_message_from_player) (rw own refl)

handle_message_of_player :
    (pl : Platform) (f : Fingerprint) (msg : ClientToServerMessage) (p : Player pl.Double)
    (g : GameManager pl.Double)
    → is_nil msg.player_name ≡ false
    → find msg.player_name g.players ≡ some p
    → (p.fingerprint ==s f) ≡ true
    → handle_message pl f msg g ≡ update_player pl f msg p g
unfolding handle_message
handle_message_of_player pl f msg p g named found own =
    rw named (handle_message_from_player_found pl f msg p g found own)

-- When the client of a player, who does not watch, is dropped in the course of a game and no other
-- game waits to be sent, the player is still there, and the next message that the client sends for
-- this player ends in undefined behaviour.
pub handle_message-drop_connection :
    (pl : Platform) (f : Fingerprint) (msg : ClientToServerMessage) (p : Player pl.Double)
    (g : GameManager pl.Double)
    → is_nil msg.player_name ≡ false
    → find msg.player_name g.players ≡ some p
    → (p.fingerprint ==s f) ≡ true
    → contains f g.watchers ≡ false
    → g.game_started ≡ true
    → g.mq_manager.next_games ≡ []
    → (contains msg.player_name (drop_connection f g).players ≡ true)
      × (handle_message pl f msg (drop_connection f g) ≡ fail undefined_behaviour)
handle_message-drop_connection pl f msg p g named found own plays started last =
    let (p', found', same) = find-mark_disconnected f msg.player_name p g.players found in
    rw (drop_connection_playing f g plays started) (
      contains-find msg.player_name (mark_disconnected f g.players) p' found',
      handle_message_of_player pl f msg p' _ named found' (ap (λ a. a ==s f) same ∙ own)
          ∙ update_player_dropped pl f msg p' _
              (ack-drop_queue f msg.next_expected_event_no g.mq_manager last),
    )
