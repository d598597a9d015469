-- ===== src/MqManager/Clients.antt =====
-- Clients that come, go, and acknowledge.
use sik_screenworms.Base.{
  ℕ, ◌%◌, ◌^◌, min, ◌≡◌, sym, inl, inr, arith, [], ◌∷◌, ◌++◌, length, ok, Bool-cases, find,
  contains, insert, assign, mem, mem-append, mem-erase_first, erase_first-IsNodup,
  IsNodup-append_one, AllValues-erase, AllValues-assign, AllValues-insert, contains-erase,
  contains-assign, contains-insert, keys-assign, keys-erase-IsNodup, keys-insert-IsNodup,
  Option-cases, ok-injective, fail-ne-ok, ◌∙◌,
}
use sik_screenworms.MqManager.{MqManager, Fingerprint, ack, drop_queue, add_queue, is_nil}
use sik_screenworms.MqManager.Invariant.{IsServable}

add_queue_registered :
    (q : MqManager)
    → IsServable q
    → (f g : Fingerprint) (next : ℕ)
    → mem g (q.clients_to_serve_schedule ++ f ∷ []) ≡ contains g (insert f next q.queues)
unfolding mem
add_queue_registered q v f g next = ground (
  arith,
  mem-append g q.clients_to_serve_schedule (f ∷ []),
  contains-insert f g next q.queues,
  v.registered g,
)

-- The state after an acknowledgement that is heeded.
acked : MqManager → Fingerprint → ℕ → MqManager
acked q f next = record q {
  queues = assign f (min (length q.current_game_events % 2 ^ 32) next) q.queues;
}

acked-IsServable :
    (q : MqManager) → IsServable q → (f : Fingerprint) (next : ℕ) → IsServable (acked q f next)
unfolding acked
acked-IsServable q v f next = record {
  nodup = v.nodup;
  registered = λ g. v.registered g ∙ sym (contains-assign f g _ q.queues);
  distinct = rw keys-assign v.distinct;
  bounded = AllValues-assign _ f _ q.queues (omega arith) v.bounded;
  few = v.few;
  sendable = v.sendable;
  numbered = v.numbered;
  waiting = v.waiting;
}

module _ (q : MqManager) (v : IsServable q) where
  -- From a state that meets the invariant, dropping a client, registered or not, leads to one that
  -- does.
  pub drop_queue-IsServable : (f : Fingerprint) → IsServable (drop_queue f q)
  unfolding drop_queue
  drop_queue-IsServable f = record {
    nodup = erase_first-IsNodup f q.clients_to_serve_schedule v.nodup;
    registered = λ g. ground (
      arith,
      mem-erase_first g f q.clients_to_serve_schedule v.nodup,
      contains-erase f g q.queues,
      v.registered g,
    );
    distinct = keys-erase-IsNodup f q.queues v.distinct;
    bounded = AllValues-erase _ f q.queues v.bounded;
    few = v.few;
    sendable = v.sendable;
    numbered = v.numbered;
    waiting = v.waiting;
  }

  -- From a state that meets the invariant, adding a client, registered or not and whatever event
  -- number it expects, leads to one that does.
  pub add_queue-IsServable : (f : Fingerprint) (next : ℕ) → IsServable (add_queue f next q)
  unfolding add_queue
  add_queue-IsServable f next = elim (Bool-cases (contains f q.queues)) [
    | inl old ↦ rw (old, add_queue) v
    | inr new ↦
        rw (new, add_queue)
          (record {
            nodup = IsNodup-append_one f q.clients_to_serve_schedule (v.registered f ∙ new) v.nodup;
            registered = λ g. add_queue_registered q v f g _;
            distinct = keys-insert-IsNodup f _ q.queues v.distinct;
            bounded = AllValues-insert _ f _ q.queues (omega arith) v.bounded;
            few = v.few;
            sendable = v.sendable;
            numbered = v.numbered;
            waiting = v.waiting;
          })
  ]

  -- From a state that meets the invariant, an acknowledgement of any number that ends leads to one
  -- that does.
  pub ack-IsServable :
      (f : Fingerprint) (next : ℕ) (q' : MqManager) → ack f next q ≡ ok q' → IsServable q'
  unfolding ack acked
  ack-IsServable f next q' h = elim (Bool-cases (is_nil q.next_games)) [
    | inr busy ↦ let same : q ≡ q' = ok-injective (rw busy at h) in rw (← same) v
    | inl idle ↦ elim (Option-cases (find f q.queues)) [
      | inl gone ↦ absurd (fail-ne-ok (rw (idle, gone) at h))
      | inr (old, e) ↦
          let same : acked q f next ≡ q' = ok-injective (rw (idle, e) at h) in
          rw (← same) (acked-IsServable q v f next)
    ]
  ]
