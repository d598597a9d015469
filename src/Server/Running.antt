-- ===== src/Server/Running.antt =====
-- The rounds of `Server::run`, from the state that the constructor leaves.
use sik_screenworms.Base.{
  ℕ, ◌≡◌, true, List, Option, some, ok, After-ok, find, contains, find_of_contains,
}
use sik_screenworms.Config.{ServerConfig}
use sik_screenworms.MqManager.{Fingerprint, MqManager, MessageAndRecipient, get_next_message}
use sik_screenworms.MqManager
use sik_screenworms.MqManager.Recipient.{IsForOneOf, get_next_message-IsForOneOf}
use sik_screenworms.GameManager.State.{Platform}
use sik_screenworms.GameManager.State
use sik_screenworms.GameManager.Queued.{IsQueuedIn}
use sik_screenworms.Server.{Server, Polled, init, run_round}
use sik_screenworms.Server.Addresses.{IsTracked, run_round-IsTracked}

module _ (pl : Platform) {Address : Type 0} (fingerprint_netuser : Address → Fingerprint) where
  open pl use {Double}

  -- The states that the server comes to.
  pub data Running (config : ServerConfig) : Server Double Address → Type 0 where
    start : Running config (init pl config)
    round :
        {s s' : Server Double Address} {sent : Option (Address × List ℕ)}
        → Running config s
        → (p : Polled Address) → run_round pl fingerprint_netuser p s ≡ ok (sent, s')
        → Running config s'

  Running-IsTracked :
      (config : ServerConfig) (s : Server Double Address) → Running config s → IsTracked s
  unfolding IsTracked IsQueuedIn init State.init MqManager.init contains
  Running-IsTracked config s start = (λ k h. absurd (cc h), λ k h. absurd (cc h))
  Running-IsTracked config s' (round {s = s} {sent = sent} running p goes) =
      After-ok (λ (r : Option (Address × List ℕ) × Server Double Address). IsTracked r.1)
        (run_round pl fingerprint_netuser p s) (sent, s')
        (run_round-IsTracked pl fingerprint_netuser p s (Running-IsTracked config s running)) goes

  -- In every state that the server comes to from its start, whatever clients send and whenever the
  -- turns and the messages come: the client that `getNextMessage` picks is in `clientAddrs`, so that
  -- `clientAddrs.find (fingerprint)->second` is there, and it has a time in `lastCommunicationTs`,
  -- by which it is dropped when it is silent.
  pub Running-find :
      (config : ServerConfig) (s : Server Double Address) (m : MessageAndRecipient) (q : MqManager)
      → Running config s
      → get_next_message s.game_manager.mq_manager ≡ ok (m, q)
      → (address : Address) × (find m.recipient s.client_addrs ≡ some address)
        × (contains m.recipient s.last_communication_ts ≡ true)
  unfolding IsTracked IsQueuedIn IsForOneOf
  Running-find config s m q running next =
      let (queued, timed) = Running-IsTracked config s running in
      let (there, same) =
        After-ok (IsForOneOf s.game_manager.mq_manager) (get_next_message s.game_manager.mq_manager)
          (m, q) (get_next_message-IsForOneOf s.game_manager.mq_manager) next in
      let known = queued m.recipient there in
      let (address, found) = find_of_contains m.recipient s.client_addrs known in
      (address, found, timed m.recipient known)
