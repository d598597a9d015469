-- ===== src/Messages/Termination.antt =====
-- Any datagram is decoded in a bounded number of rounds.
use sik_screenworms.Base.{
  ℕ, zero, suc, ◌+◌, ◌-◌, ◌%◌, ◌^◌, ◌≤◌, ◌≡◌, refl, inl, inr, ◌≢◌, arith, Bool, true, false, not,
  List, [], ◌∷◌, take, drop, ltb, leb, ◌==◌, Bool-cases, ok-injective, ap, fail-ne-ok, ◌∙◌, sym,
  Outcome, ok, fail, Fault, out_of_fuel, undefined_behaviour, encoder_decoder_error,
  crc32_mismatch_error, runtime_error, exit_failure, out_of_range, check, ◌>>=◌, ◌>>◌,
}
use sik_screenworms.Common.Bytes.{read_be, byte_at, read_bytes}
use sik_screenworms.Common.Crc32.{crc32}
use sik_screenworms.Messages.{
  Event, EventType, new_game, pixel, player_eliminated, game_over, unknown, decode_data,
  decode_new_game, decode_pixel, decode_player_eliminated, decode_event, decode_events,
  decode_round, decode_server, type_of,
}

-- A call that is no loop does not use up any fuel.
abbrev Ends {ℓ} : {A : Type ℓ} → Outcome A → Type ℓ
Ends o = o ≢ fail out_of_fuel

bind-Ends {ℓ} :
    {A B : Type ℓ} (m : Outcome A) (f : A → Outcome B)
    → Ends m
    → ((a : A) → Ends (f a))
    → Ends (m >>= f)
bind-Ends (fail e) f hm hf h = hm (cc)
bind-Ends (ok a) f hm hf h = hf a h

check-Ends :
    {B : Type 0} (b : Bool) (e : Fault) (m : Outcome B)
    → e ≢ out_of_fuel
    → Ends m
    → Ends (check b e >> m)
check-Ends true e m he hm h = hm h
check-Ends false e m he hm h = he (cc)

read_be-Ends : (p : List ℕ) → Ends (read_be 4 p)
unfolding read_be
read_be-Ends [] h = cc
read_be-Ends (b0 ∷ []) h = cc
read_be-Ends (b0 ∷ b1 ∷ []) h = cc
read_be-Ends (b0 ∷ b1 ∷ b2 ∷ []) h = cc
read_be-Ends (b0 ∷ b1 ∷ b2 ∷ b3 ∷ p) h = cc

byte_at-Ends : (p : List ℕ) → Ends (byte_at p)
unfolding byte_at
byte_at-Ends [] h = cc
byte_at-Ends (b ∷ p) h = cc

read_bytes-Ends : (n : ℕ) (p : List ℕ) → Ends (read_bytes n p)
unfolding read_bytes
read_bytes-Ends n p h = ground arith

ok-Ends : {A : Type 0} (a : A) → Ends (ok a)
ok-Ends a h = cc

decode_new_game-Ends : (buff : List ℕ) (size : ℕ) → Ends (decode_new_game buff size)
unfolding decode_new_game
decode_new_game-Ends buff size =
    check-Ends _ _ _ (λ h. cc)
      (bind-Ends _ _ (read_be-Ends buff) λ maxx. bind-Ends _ _ (read_be-Ends (drop 4 buff)) λ maxy.
        bind-Ends _ _ (read_bytes-Ends (size - 8) (drop 8 buff)) λ players.
          check-Ends _ undefined_behaviour _ (λ h. cc)
            (check-Ends _ encoder_decoder_error _ (λ h. cc) (ok-Ends _)))

decode_pixel-Ends : (buff : List ℕ) (size : ℕ) → Ends (decode_pixel buff size)
unfolding decode_pixel
decode_pixel-Ends buff size =
    check-Ends _ _ _ (λ h. cc)
      (bind-Ends _ _ (byte_at-Ends buff) λ n.
        bind-Ends _ _ (read_be-Ends (drop 1 buff))
          λ x. bind-Ends _ _ (read_be-Ends (drop 5 buff)) λ y. ok-Ends _)

decode_data-Ends : (t : EventType) (buff : List ℕ) (size : ℕ) → Ends (decode_data t buff size)
unfolding decode_data decode_player_eliminated
decode_data-Ends new_game buff size = bind-Ends _ _ (decode_new_game-Ends buff size) λ d. ok-Ends _
decode_data-Ends pixel buff size = bind-Ends _ _ (decode_pixel-Ends buff size) λ d. ok-Ends _
decode_data-Ends player_eliminated buff size =
    bind-Ends _ _ (check-Ends _ _ _ (λ h. cc) (bind-Ends _ _ (byte_at-Ends buff) λ n. ok-Ends _))
      λ d. ok-Ends _
decode_data-Ends game_over buff size = ok-Ends _
decode_data-Ends unknown buff size = ok-Ends _

decode_event-Ends : (buffer : List ℕ) (size : ℕ) → Ends (decode_event buffer size)
unfolding decode_event
decode_event-Ends buffer size = bind-Ends _ _ (read_be-Ends buffer) λ len.
    check-Ends _ _ _ (λ h. cc)
      (bind-Ends _ _ (read_be-Ends (drop 4 buffer)) λ event_no.
        bind-Ends _ _ (byte_at-Ends (drop 8 buffer)) λ type_byte.
          check-Ends _ _ _ (λ h. cc)
            (bind-Ends _ _ (read_be-Ends (drop (9 + (len - 5)) buffer)) λ crc32_got.
              check-Ends _ _ _ (λ h. cc)
                (bind-Ends _ _ (decode_data-Ends (type_of type_byte) (drop 9 buffer) (len - 5))
                  λ d. ok-Ends _)))

-- What holds of a result, if there is one.
abbrev Gives : {A : Type 0} → (A → Type 0) → Outcome A → Type 0
Gives {A = A} P o = (a : A) → o ≡ ok a → P a

bind-Gives :
    {A B : Type 0} (P : B → Type 0) (m : Outcome A) (f : A → Outcome B)
    → ((a : A) → Gives P (f a))
    → Gives P (m >>= f)
bind-Gives P (fail e) f hf b h = absurd (fail-ne-ok h)
bind-Gives P (ok a) f hf b h = hf a b h

check-Gives :
    {B : Type 0} (P : B → Type 0) (c : Bool) (e : Fault) (m : Outcome B)
    → (c ≡ true → Gives P m)
    → Gives P (check c e >> m)
check-Gives P true e m hm b h = hm refl b h
check-Gives P false e m hm b h = absurd (fail-ne-ok h)

-- A record that is accepted has 13 bytes at least.
decode_event-used : (buffer : List ℕ) (size : ℕ) → Gives (λ r. 13 ≤ r.1) (decode_event buffer size)
unfolding decode_event
decode_event-used buffer size = bind-Gives _ (read_be 4 buffer) _ λ len.
    check-Gives _ (leb 5 len) encoder_decoder_error _ λ long.
      bind-Gives _ (read_be 4 (drop 4 buffer)) _ λ event_no.
        bind-Gives _ (byte_at (drop 8 buffer)) _ λ type_byte.
          check-Gives _ (not (ltb size ((9 + (len - 5)) % 2 ^ 32 + 4))) encoder_decoder_error _
            λ held. bind-Gives _ (read_be 4 (drop (9 + (len - 5)) buffer)) _ λ crc32_got.
              check-Gives _ (crc32_got == crc32 (take (len + 4) buffer)) crc32_mismatch_error _
                λ same.
                  bind-Gives _ (decode_data (type_of type_byte) (drop 9 buffer) (len - 5)) _
                    λ event_data r h.
                      let total : len + 8 ≡ r.1 = ap (λ (x : Event × ℕ). x.1) (ok-injective h) in
                      ground (arith, total)

decode_round-Ends :
    (bytes_read : ℕ) (o : Outcome (Event × ℕ)) (rest : ℕ → Outcome (List Event))
    → Ends o
    → ((e : Event) (used : ℕ) → o ≡ ok (e, used) → Ends (rest (bytes_read + used)))
    → Ends (decode_round bytes_read o rest)
unfolding decode_round
decode_round-Ends r (ok (e, used)) rest ho hr h =
    bind-Ends _ _ (hr e used refl) (λ events. ok-Ends _) h
decode_round-Ends r (fail crc32_mismatch_error) rest ho hr h = cc
decode_round-Ends r (fail encoder_decoder_error) rest ho hr h = cc
decode_round-Ends r (fail runtime_error) rest ho hr h = cc
decode_round-Ends r (fail out_of_range) rest ho hr h = cc
decode_round-Ends r (fail exit_failure) rest ho hr h = cc
decode_round-Ends r (fail undefined_behaviour) rest ho hr h = cc
decode_round-Ends r (fail out_of_fuel) rest ho hr h = ho refl

zero_fuel :
    (buffer : List ℕ) (size bytes_read : ℕ)
    → size ≤ bytes_read
    → Ends (decode_events 0 buffer size bytes_read)
unfolding decode_events
zero_fuel buffer size bytes_read enough h = ground arith

decode_events_over :
    (fuel : ℕ) (buffer : List ℕ) (size bytes_read : ℕ)
    → ltb bytes_read size ≡ false
    → decode_events (suc fuel) buffer size bytes_read ≡ ok []
unfolding decode_events
decode_events_over fuel buffer size bytes_read over = rw (over, decode_events) refl

decode_events_lem :
    (fuel : ℕ) (buffer : List ℕ) (size bytes_read : ℕ)
    → ltb bytes_read size ≡ true
    → decode_events (suc fuel) buffer size bytes_read
      ≡ decode_round bytes_read
          (decode_event (drop bytes_read buffer) (size - bytes_read))
          (decode_events fuel buffer size)
unfolding decode_events
decode_events_lem fuel buffer size bytes_read on = rw (on, decode_events) refl

decode_events-Ends :
    (fuel : ℕ) (buffer : List ℕ) (size bytes_read : ℕ)
    → size ≤ bytes_read + fuel
    → Ends (decode_events fuel buffer size bytes_read)
decode_events-Ends zero buffer size bytes_read enough =
    zero_fuel buffer size bytes_read (omega arith)
decode_events-Ends (suc fuel) buffer size bytes_read enough =
    elim (Bool-cases (ltb bytes_read size)) [
      | inr over ↦ λ h. fail-ne-ok (sym h ∙ decode_events_over fuel buffer size bytes_read over)
      | inl on ↦ rw (decode_events_lem fuel buffer size bytes_read on) (
          decode_round-Ends bytes_read (decode_event (drop bytes_read buffer) (size - bytes_read)) _
            (decode_event-Ends (drop bytes_read buffer) (size - bytes_read))
            λ e used h. decode_events-Ends fuel buffer size (bytes_read + used) (
              omega (
                arith,
                decode_event-used (drop bytes_read buffer) (size - bytes_read) (e, used) h,
              )))
    ]

-- Decoding a datagram always ends, whatever its bytes are: the fuel of the loop is never used up.
pub decode_server_ends : (buffer : List ℕ) (size : ℕ) → decode_server buffer size ≢ fail out_of_fuel
unfolding decode_server
decode_server_ends buffer size =
    check-Ends _ _ _ (λ h. cc)
      (bind-Ends _ _ (read_be-Ends buffer) λ game_id.
        bind-Ends _ _ (decode_events-Ends size buffer size 4 (omega arith)) λ events. ok-Ends _)
