-- ===== src/Server/Addresses.antt =====
-- Every client that has a queue has an address, and every address a time of its last message.
use sik_screenworms.Base.{
  ℕ, ◌≡◌, sym, ◌∙◌, arith, Bool, true, false, not, ◌&&◌, List, [], ◌∷◌, Str, ◌==s◌, ==s_iff,
  ==s_refl, if◌then◌else◌, Option, none, some, Outcome, ok, fail, encoder_decoder_error, ◌>>=◌,
  After, After->>=, After-any, if-elim, deref, find, contains, insert, erase, contains-erase,
  contains-insert, contains-insert_or_assign,
}
use sik_screenworms.Messages.{ClientToServerMessage, encode_server}
use sik_screenworms.MqManager.{Fingerprint, get_next_message, ack, is_empty}
use sik_screenworms.MqManager.Recipient.{IsForOneOf, get_next_message-IsForOneOf}
use sik_screenworms.GameManager.State.{Platform, GameManager}
use sik_screenworms.GameManager.Turns.{run_turn}
use sik_screenworms.GameManager.Handlers.{handle_message, drop_connection}
use sik_screenworms.GameManager.Queued.{IsQueuedIn, ack-IsQueuedIn}
use sik_screenworms.GameManager.Queued.Turns.{run_turn-IsIn}
use sik_screenworms.GameManager.Queued.Handlers.{drop_connection_out, handle_message-IsIn}
use sik_screenworms.Server.{
  Server, Polled, is_expired, register, handle_datagram, read_message_from_client,
  send_message_to_client, drop_expired, cleanup_obsolete_connections, run_round,
}

module _ {V : Type 0} where
  -- The keys of the map, as a predicate.
  abbrev pub KeyOf : List (Str × V) → Str → Type 0
  KeyOf m k = contains k m ≡ true

registered_key :
    {V : Type 0} (f k : Str) (v : V) (m : List (Str × V))
    → contains k (if contains f m then m else insert f v m)
      ≡ (if f ==s k then true else contains k m)
registered_key f k v m = ground (arith, contains-insert f k v m, ==s_iff f k)

-- The keys of a map stay when an entry is inserted, or when another one is erased.
insert_keeps :
    {V : Type 0} (k j : Str) (v : V) (m : List (Str × V))
    → contains j m ≡ true
    → contains j (insert k v m) ≡ true
insert_keeps k j v m h = ground (arith, contains-insert k j v m)

erase_keeps :
    {V : Type 0} (k j : Str) (m : List (Str × V))
    → contains j m ≡ true
    → (k ==s j) ≡ false
    → contains j (erase k m) ≡ true
erase_keeps k j m h differ = ground (arith, contains-erase k j m)

erase_had :
    {V : Type 0} (k j : Str) (m : List (Str × V))
    → contains j (erase k m) ≡ true
    → (contains j m ≡ true) × ((k ==s j) ≡ false)
erase_had k j m h = ground (arith, contains-erase k j m)

module _ {D Address : Type 0} where
  -- A state of the server in which no client is lost.
  unfoldable pub IsTracked : Server D Address → Type 0
  IsTracked s =
      IsQueuedIn (KeyOf s.client_addrs) s.game_manager.mq_manager
      × ((k : Str) → KeyOf s.client_addrs k → KeyOf s.last_communication_ts k)

  -- A client that is dropped is dropped everywhere.
  drop_one-IsTracked :
      (f : Str) (s : Server D Address)
      → IsTracked s
      → IsTracked (record s {
        game_manager = drop_connection f s.game_manager;
        client_addrs = erase f s.client_addrs;
        last_communication_ts = erase f s.last_communication_ts;
      })
  unfolding IsTracked
  drop_one-IsTracked f s (queued, timed) = (
    drop_connection_out (KeyOf s.client_addrs) (KeyOf (erase f s.client_addrs)) f s.game_manager
        (λ k h differ. erase_keeps f k s.client_addrs h differ) queued,
    λ k h.
        let (there, differ) = erase_had f k s.client_addrs h in
        erase_keeps f k s.last_communication_ts (timed k there) differ,
  )

module _ (pl : Platform) {Address : Type 0} where
  open pl use {Double}

  drop_expired-IsTracked :
      (now : ℕ) (l : List (Str × ℕ)) (s : Server Double Address)
      → IsTracked s
      → IsTracked (drop_expired pl now l s)
  unfolding drop_expired
  drop_expired-IsTracked now [] s h = h
  drop_expired-IsTracked now ((f, last) ∷ l) s h =
      drop_expired-IsTracked now l _
        (if-elim IsTracked (is_expired now last) _ s (drop_one-IsTracked f s h) h)

  register-IsTracked :
      (f : Fingerprint) (address : Address) (now : ℕ) (s : Server Double Address)
      → IsTracked s
      → IsTracked (register pl f address now s)
        × (KeyOf (register pl f address now s).client_addrs f)
  unfolding register IsTracked IsQueuedIn
  register-IsTracked f address now s (queued, timed) = (
    (
      λ k h. ground (arith, registered_key f k address s.client_addrs, queued k h),
      λ k h. ground (
        arith,
        registered_key f k address s.client_addrs,
        contains-insert_or_assign f k now s.last_communication_ts,
        timed k,
      ),
    ),
    ground (arith, registered_key f f address s.client_addrs, ==s_refl f),
  )

  handle_datagram-IsTracked :
      (f : Fingerprint) (m : Outcome ClientToServerMessage) (s : Server Double Address)
      → KeyOf s.client_addrs f
      → IsTracked s
      → After IsTracked (handle_datagram pl f m s)
  unfolding handle_datagram IsTracked
  handle_datagram-IsTracked f (ok m) s known (queued, timed) =
      After->>= (λ (g : GameManager Double). IsQueuedIn (KeyOf s.client_addrs) g.mq_manager)
        IsTracked (handle_message pl f m s.game_manager) _
        (handle_message-IsIn (KeyOf s.client_addrs) pl f m s.game_manager known queued)
        (λ g h. (h, timed))
  handle_datagram-IsTracked f (fail encoder_decoder_error) s known h = h
  handle_datagram-IsTracked f (fail e) s known h = tt

  read_message_from_client-IsTracked :
      (fingerprint_netuser : Address → Fingerprint) (now : ℕ) (datagram : Option (Address × List ℕ))
      (stale : List ℕ) (s : Server Double Address)
      → IsTracked s
      → After IsTracked (read_message_from_client pl fingerprint_netuser now datagram stale s)
  unfolding read_message_from_client
  read_message_from_client-IsTracked fingerprint_netuser now none stale s h = h
  read_message_from_client-IsTracked fingerprint_netuser now (some (address, datagram)) stale s h =
      let (registered, known) = register-IsTracked (fingerprint_netuser address) address now s h in
      handle_datagram-IsTracked (fingerprint_netuser address) _ _ known registered

  send_message_to_client-IsTracked :
      (success : Bool) (s : Server Double Address)
      → IsTracked s
      → After
          (λ (r : (Address × List ℕ) × Server Double Address). IsTracked r.1)
          (send_message_to_client pl success s)
  unfolding send_message_to_client IsTracked IsForOneOf IsQueuedIn
  send_message_to_client-IsTracked success s (queued, timed) =
      let sent_kept : (Address × List ℕ) × Server Double Address → Type 0 = λ r. IsTracked r.1 in
      After->>= (IsForOneOf s.game_manager.mq_manager) sent_kept
        (get_next_message s.game_manager.mq_manager) _
        (get_next_message-IsForOneOf s.game_manager.mq_manager)
        (λ next (there, same).
          let queued' : IsQueuedIn (KeyOf s.client_addrs) next.1 =
            λ k h. queued k (sym (same k) ∙ h) in
          After-any sent_kept (encode_server next.0.message) _ (λ payload.
            After-any sent_kept (deref (find next.0.recipient s.client_addrs)) _ (λ address.
              if-elim (After sent_kept) success _ _
                (After->>= (IsQueuedIn (KeyOf s.client_addrs)) sent_kept
                  (ack next.0.recipient next.0.ack_number next.1) _
                  (ack-IsQueuedIn (KeyOf s.client_addrs) next.0.recipient next.0.ack_number next.1
                    queued')
                  (λ q hq. (hq, timed)))
                (queued', timed))))

  turn_round-IsTracked :
      (s : Server Double Address)
      → IsTracked s
      → After IsTracked (run_turn pl s.game_manager >>= λ g. ok (record s { game_manager = g }))
  unfolding IsTracked
  turn_round-IsTracked s (queued, timed) =
      After->>= (λ (g : GameManager Double). IsQueuedIn (KeyOf s.client_addrs) g.mq_manager)
        IsTracked (run_turn pl s.game_manager) _
        (run_turn-IsIn (KeyOf s.client_addrs) pl s.game_manager queued) (λ g h. (h, timed))

  pub run_round-IsTracked :
      (fingerprint_netuser : Address → Fingerprint) (p : Polled Address) (s : Server Double Address)
      → IsTracked s
      → After
          (λ (r : Option (Address × List ℕ) × Server Double Address). IsTracked r.1)
          (run_round pl fingerprint_netuser p s)
  unfolding run_round cleanup_obsolete_connections
  run_round-IsTracked fingerprint_netuser p s h =
      let kept : Option (Address × List ℕ) × Server Double Address → Type 0 = λ r. IsTracked r.1 in
      After->>= IsTracked kept _ _
        (if-elim (After IsTracked) p.turn_timer _ (ok s)
          (turn_round-IsTracked _
            (drop_expired-IsTracked p.cleanup_time s.last_communication_ts s h))
          h)
        (λ s1 h1.
          After->>= IsTracked kept _ _
            (if-elim (After IsTracked) p.readable _ (ok s1)
              (read_message_from_client-IsTracked fingerprint_netuser p.receive_time p.datagram
                p.stale s1 h1)
              h1)
            (λ s2 h2.
              if-elim (After kept) (not (is_empty s2.game_manager.mq_manager) && p.writable) _
                (ok (none, s2))
                (After->>= (λ (r : (Address × List ℕ) × Server Double Address). IsTracked r.1) kept
                  (send_message_to_client pl p.sent s2) _
                  (send_message_to_client-IsTracked p.sent s2 h2) (λ sent h3. h3))
                h2))
