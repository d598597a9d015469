-- ===== src/MqManager/Recipient.antt =====
-- Whom a message of `getNextMessage` is for, and which queues there are afterwards.
use sik_screenworms.Base.{
  ℕ, zero, suc, ◌≡◌, refl, sym, ◌∙◌, subst, inl, inr, true, List, [], ◌∷◌, ◌++◌, Str, length, ltb,
  Option-cases, Outcome, ok, fail, After, After->>=, After-any, if-elim, find, contains,
  contains-find, contains-map_values,
}
use sik_screenworms.Messages.{from_events}
use sik_screenworms.MqManager.{
  Fingerprint, MqManager, ScheduledEvent, MessageAndRecipient, message_for, serve, serve_front,
  open_game, open_next_game, has_pending_messages_for_current_game, get_next_message,
}

-- The recipient has a queue in `q`, and the same clients have queues afterwards.
unfoldable pub IsForOneOf : MqManager → MessageAndRecipient × MqManager → Type 0
IsForOneOf q r =
    (contains r.0.recipient q.queues ≡ true)
    × ((k : Str) → contains k r.1.queues ≡ contains k q.queues)

message_for-recipient :
    (q : MqManager) (f : Fingerprint) (wanted : ℕ)
    → After (λ (m : MessageAndRecipient). m.recipient ≡ f) (message_for q f wanted)
unfolding message_for
message_for-recipient q f wanted =
    After-any (λ (m : MessageAndRecipient). m.recipient ≡ f) (from_events _ _) _ (λ r. refl)

serve_front-IsForOneOf :
    (others : MqManager → Outcome (MessageAndRecipient × MqManager)) (q : MqManager)
    (fs : List Fingerprint)
    → ((r : MqManager) → r.queues ≡ q.queues → After (IsForOneOf r) (others r))
    → After (IsForOneOf q) (serve_front others q fs)
unfolding serve_front IsForOneOf
serve_front-IsForOneOf others q [] h = tt
serve_front-IsForOneOf others q (f ∷ fs) h = elim (Option-cases (find f q.queues)) [
  | inl e ↦ rw e tt
  | inr (wanted, e) ↦ rw e (
      if-elim (After (IsForOneOf q)) (ltb wanted (length q.current_game_events)) _ _
        (After->>= (λ (m : MessageAndRecipient). m.recipient ≡ f) (IsForOneOf q)
          (message_for q f wanted) _ (message_for-recipient q f wanted)
          (λ m same. (
            subst (λ k. contains k q.queues ≡ true) (sym same) (contains-find f q.queues wanted e),
            λ k. refl,
          )))
        (h (record q { clients_to_serve_schedule = fs ++ f ∷ [] }) refl))
]

serve-IsForOneOf : (fuel : ℕ) (q : MqManager) → After (IsForOneOf q) (serve fuel q)
unfolding serve IsForOneOf
serve-IsForOneOf zero q = tt
serve-IsForOneOf (suc fuel) q =
    serve_front-IsForOneOf (λ r. serve fuel r) q q.clients_to_serve_schedule
      (λ r same. serve-IsForOneOf fuel r)

open_game-contains :
    (q : MqManager) (games : List (ℕ × List ScheduledEvent)) (k : Str)
    → contains k (open_game q games).queues ≡ contains k q.queues
unfolding open_game
open_game-contains q [] k = refl
open_game-contains q ((g, events) ∷ games) k = contains-map_values (λ _. 0) k q.queues

open_next_game-contains :
    (q : MqManager) (k : Str) → contains k (open_next_game q).queues ≡ contains k q.queues
unfolding open_next_game
open_next_game-contains q k =
    if-elim (λ (r : MqManager). contains k r.queues ≡ contains k q.queues)
      (has_pending_messages_for_current_game q) q _ refl (open_game-contains q q.next_games k)

After-mono {ℓ κ} :
    {A : Type ℓ} (P Q : A → Type κ) (o : Outcome A) → ((a : A) → P a → Q a) → After P o → After Q o
After-mono P Q (ok a) step h = step a h
After-mono P Q (fail e) step h = tt

-- What `getNextMessage` returns is for a client that has a queue, and the clients that have one are
-- the same as before.
pub get_next_message-IsForOneOf : (q : MqManager) → After (IsForOneOf q) (get_next_message q)
unfolding get_next_message IsForOneOf
get_next_message-IsForOneOf q =
    After-mono (IsForOneOf (open_next_game q)) (IsForOneOf q) (get_next_message q)
      (λ r (there, same). (
        sym (open_next_game-contains q r.0.recipient) ∙ there,
        λ k. same k ∙ open_next_game-contains q k,
      ))
      (serve-IsForOneOf (suc (length (open_next_game q).clients_to_serve_schedule))
        (open_next_game q))
