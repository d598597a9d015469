-- ===== src/Server/Sending.antt =====
-- A message from the queue of a client to its address.
use sik_screenworms.Base.{
  ℕ, ◌%◌, ◌^◌, ◌≤◌, ◌<◌, ◌≡◌, refl, sym, subst, ◌∙◌, inl, inr, Bool, true, false, List, [], ◌∷◌,
  ◌++◌, Str, length, All, All-take, All-drop, some, ok, find, contains, assign, min,
  find_of_contains, contains-find, contains-map_values, Bool-cases,
}
use sik_screenworms.Messages.{ServerToClientMessage, decode_server}
use sik_screenworms.Messages.EventCodec.{IsSendable}
use sik_screenworms.Messages.ServerCodec.{decode_server-encode_server}
use sik_screenworms.MqManager.{
  MqManager, Fingerprint, ScheduledEvent, MessageAndRecipient, open_next_game, open_game,
  has_pending_messages_for_current_game, ack, is_empty, is_nil,
}
use sik_screenworms.MqManager.Invariant.{
  IsServable, open_next_game-IsServable, open_next_game_busy, open_next_game_idle,
}
use sik_screenworms.MqManager.Clients.{ack-IsServable}
use sik_screenworms.MqManager.Sending.{Serves, get_next_message-Serves}
use sik_screenworms.GameManager.State.{Platform}
use sik_screenworms.Server.{Server, send_message_to_client}

contains-open_game :
    (f : Fingerprint) (q : MqManager) (games : List (ℕ × List ScheduledEvent))
    → contains f (open_game q games).queues ≡ contains f q.queues
unfolding open_game
contains-open_game f q [] = refl
contains-open_game f q ((g, events) ∷ games) = contains-map_values _ f q.queues

-- The same clients have a queue.
contains-open_next_game :
    (f : Fingerprint) (q : MqManager) → contains f (open_next_game q).queues ≡ contains f q.queues
contains-open_next_game f q = elim (Bool-cases (has_pending_messages_for_current_game q)) [
  | inl busy ↦ rw (open_next_game_busy q busy) refl
  | inr idle ↦ rw (open_next_game_idle q idle) (contains-open_game f q q.next_games)
]

-- An acknowledgement of a client with a queue does not fail.
ack_known :
    (f : Fingerprint) (n wanted : ℕ) (q : MqManager)
    → find f q.queues ≡ some wanted
    → (q' : MqManager) × (ack f n q ≡ ok q')
unfolding ack
ack_known f n wanted q e = elim (Bool-cases (is_nil q.next_games)) [
  | inl idle ↦ (
    record q { queues = assign f (min (length q.current_game_events % 2 ^ 32) n) q.queues },
    rw (idle, e) refl,
  )
  | inr busy ↦ (q, rw busy refl)
]

-- The datagram `payload` to `address` carries the message `m` to the client that it is for.
pub record Delivers {Address : Type 0} (addrs : List (Str × Address)) (m : MessageAndRecipient)
    (address : Address) (payload : List ℕ) : Type 0 where
  pub recipient : find m.recipient addrs ≡ some address
  pub fits : length payload ≤ 550
  pub reads : (rest : List ℕ) → decode_server (payload ++ rest) (length payload) ≡ ok m.message

-- What the message of a client holds can be sent.
Serves-IsSendable :
    (q : MqManager) (m : MessageAndRecipient)
    → IsServable q
    → Serves q m
    → All IsSendable m.message.events
Serves-IsSendable q m v s =
    subst (λ (x : ServerToClientMessage). All IsSendable x.events) (sym s.message)
      (All-take IsSendable s.sent _ (All-drop IsSendable s.wanted _ v.sendable))

module _ (pl : Platform) {Address : Type 0} (s : Server pl.Double Address) where
  -- The server's queue meets its invariant and is not empty, a client is registered, the address of
  -- each client with a queue is known, and the id of the game that is to be broadcast fits 32 bits.
  -- Then, whether the system sends the datagram or not, the call ends without a fault. The datagram
  -- has at most 550 bytes, goes to the address of the client that is to be served, and is read back
  -- by a client as the message for it; the queue still meets its invariant.
  pub send_message_to_client-Delivers :
      (success : Bool)
      → IsServable s.game_manager.mq_manager
      → is_empty s.game_manager.mq_manager ≡ false
      → is_nil s.game_manager.mq_manager.queues ≡ false
      → ((f : Fingerprint)
          → contains f s.game_manager.mq_manager.queues ≡ true
          → contains f s.client_addrs ≡ true)
      → (open_next_game s.game_manager.mq_manager).currently_broadcasted_game_id < 2 ^ 32
      → (m : MessageAndRecipient) × (address : Address) × (payload : List ℕ) × (s' : Server
          pl.Double Address)
        × (send_message_to_client pl success s ≡ ok ((address, payload), s'))
        × Serves (open_next_game s.game_manager.mq_manager) m
        × Delivers s.client_addrs m address payload
        × IsServable s'.game_manager.mq_manager
  unfolding send_message_to_client
  send_message_to_client-Delivers success v work clients known narrow =
      let q = s.game_manager.mq_manager in
      let (m, q', next, served, turned) = get_next_message-Serves q v work clients in
      let (payload, enc, small) = served.encoded in
      let listed : contains m.recipient q.queues ≡ true =
        sym (contains-open_next_game m.recipient q)
        ∙ contains-find m.recipient (open_next_game q).queues served.wanted served.queued in
      let (address, found) =
        find_of_contains m.recipient s.client_addrs (known m.recipient listed) in
      let (q'', acked) =
        ack_known m.recipient m.ack_number served.wanted q' (rw turned.queues served.queued) in
      let delivers : Delivers s.client_addrs m address payload = record {
        recipient = found;
        fits = small;
        reads = λ rest.
            decode_server-encode_server m.message payload rest
              (subst (λ (x : ServerToClientMessage). x.game_id < 2 ^ 32) (sym served.message)
                narrow)
              (Serves-IsSendable (open_next_game q) m (open_next_game-IsServable q v) served) enc
              small;
      } in
      elim (Bool-cases success) [
        | inl sent ↦ (
          m,
          address,
          payload,
          record s { game_manager = record s.game_manager { mq_manager = q'' } },
          rw (next, enc, found, sent, acked) refl,
          served,
          delivers,
          ack-IsServable q' turned.servable m.recipient m.ack_number q'' acked,
        )
        | inr failed ↦ (
          m,
          address,
          payload,
          record s { game_manager = record s.game_manager { mq_manager = q' } },
          rw (next, enc, found, failed) refl,
          served,
          delivers,
          turned.servable,
        )
      ]
