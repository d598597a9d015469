-- ===== src/Sockets/Lines.antt =====
-- What the calls of `readline` return, and the line ends in the buffer.
use mathlib.Core.List.{append_assoc, append-nil}
use sik_screenworms.Base.{
  ℕ, suc, ◌+◌, ◌-◌, ◌%◌, ◌^◌, ◌≤◌, ◌<◌, ◌≡◌, refl, sym, ap, ◌∙◌, subst, inl, inr, arith, true,
  false, List, [], ◌∷◌, ◌++◌, Str, length, ◌==◌, if◌then◌else◌, Bool-cases, Option, none, some,
  Outcome, ok, length-append, ok-injective,
}
use sik_screenworms.Sockets.{
  TcpSocket, Received, received, closed, not_received, has_available_line, split_line, store_bytes,
  readline,
}

unfoldable pub newlines : Str → ℕ
newlines [] = 0
newlines (c ∷ b) = (if c == b'\n' then 1 else 0) + newlines b

pub newlines-append : (b d : Str) → newlines (b ++ d) ≡ newlines b + newlines d
unfolding newlines
newlines-append [] d = omega arith
newlines-append (c ∷ b) d = ground (arith, newlines-append b d)

pub newlines-le : (b : Str) → newlines b ≤ length b
unfolding newlines
newlines-le [] = omega arith
newlines-le (c ∷ b) = ground (arith, newlines-le b)

-- The count of the line ends is true.
unfoldable pub IsCounted : TcpSocket → Type 0
IsCounted s = s.unread_newlines ≡ newlines s.in_buffer

-- The lines, each with its end.
unfoldable pub unlines : List Str → Str
unlines [] = []
unlines (line ∷ lines) = line ++ b'\n' ∷ unlines lines

keeps_count : (c : ℕ) (b : Str) → (c == b'\n') ≡ false → newlines (c ∷ b) ≡ newlines b
unfolding newlines
keeps_count c b inside = ground arith

pub later : (c : ℕ) (b : Str) → (c == b'\n') ≡ false → 0 < newlines (c ∷ b) → 0 < newlines b
unfolding newlines
later c b inside h = ground arith

-- What `split_line` gives.
split_line_lem :
    (b : Str)
    → 0 < newlines b
    → (line : Str) × (rest : Str) × (split_line b ≡ ok (line, rest))
      × (b ≡ line ++ b'\n' ∷ rest)
      × (newlines line ≡ 0)
      × (newlines b ≡ suc (newlines rest))
unfolding split_line newlines
split_line_lem [] h = absurd (omega arith)
split_line_lem (c ∷ b) h = elim (Bool-cases (c == b'\n')) [
  | inl end ↦
      let newline : c ≡ b'\n' = ground arith in
      ([], b, rw (end, split_line) refl, rw newline refl, refl, rw (end, newlines) (omega arith))
  | inr inside ↦
      let (line, rest, split, whole, none_in, count) = split_line_lem b (later c b inside h) in
      (
        c ∷ line,
        rest,
        rw (inside, split_line, split) refl,
        ap (◌∷◌ c) whole,
        keeps_count c line inside ∙ none_in,
        keeps_count c b inside ∙ count,
      )
]

one_more :
    (b : ℕ) (bytes : Str) (s : TcpSocket)
    → IsCounted s
    → length s.in_buffer + suc (length bytes) < 2 ^ 32
    → (if b == b'\n' then (s.unread_newlines + 1) % 2 ^ 32 else s.unread_newlines)
      ≡ newlines (s.in_buffer ++ b ∷ [])
unfolding newlines IsCounted
one_more b bytes s c h =
    ground (arith, newlines-append s.in_buffer (b ∷ []), newlines-le s.in_buffer)

store_bytes_lem :
    (bytes : Str) (s : TcpSocket)
    → IsCounted s
    → length s.in_buffer + length bytes < 2 ^ 32
    → IsCounted (store_bytes bytes s) × ((store_bytes bytes s).in_buffer ≡ s.in_buffer ++ bytes)
unfolding store_bytes IsCounted newlines
store_bytes_lem [] s c h = (c, sym (append-nil s.in_buffer))
store_bytes_lem (b ∷ bytes) s c h =
    let (c', whole) =
      store_bytes_lem bytes _ (one_more b bytes s c h)
        (omega (arith, length-append s.in_buffer (b ∷ []))) in
    (c', whole ∙ append_assoc s.in_buffer (b ∷ []) bytes)

-- The state after a line was returned.
pub after : TcpSocket → Str → TcpSocket
after s rest = record s { in_buffer = rest; unread_newlines = newlines rest }

-- When there is a line, it is returned, whatever `read` would do.
readline_line :
    (s : TcpSocket)
    → IsCounted s
    → length s.in_buffer < 2 ^ 32
    → has_available_line s ≡ true
    → (line : Str) × (rest : Str) × ((r : Received) → readline r s ≡ ok (some line, after s rest))
      × (s.in_buffer ≡ line ++ b'\n' ∷ rest)
      × (newlines line ≡ 0)
unfolding IsCounted after has_available_line readline
readline_line s c few some_line =
    let pos : 0 < newlines s.in_buffer = ground arith in
    let (line, rest, split, whole, none_in, count) = split_line_lem s.in_buffer pos in
    let left : (s.unread_newlines + (2 ^ 32 - 1)) % 2 ^ 32 ≡ newlines rest =
      omega (arith, c, count, newlines-le s.in_buffer, few) in
    (line, rest, (λ r. rw (some_line, readline, split, left) refl), whole, none_in)

-- When there is none, none is returned.
no_line :
    (r : Received) (s s' : TcpSocket) (text : Str)
    → has_available_line s ≡ false
    → readline r s ≡ ok (some text, s')
    → ⊥
unfolding readline
no_line closed s s' text none_there h = cc (rw (none_there, readline) at h)
no_line not_received s s' text none_there h = cc (rw (none_there, readline) at h)
no_line (received bytes) s s' text none_there h = cc (rw (none_there, readline) at h)

-- A call that returns a line.
pub readline-some :
    (r : Received) (s s' : TcpSocket) (text : Str)
    → IsCounted s
    → length s.in_buffer < 2 ^ 32
    → readline r s ≡ ok (some text, s')
    → (s.in_buffer ≡ text ++ b'\n' ∷ s'.in_buffer) × IsCounted s' × (newlines text ≡ 0)
unfolding IsCounted after
readline-some r s s' text c few h = elim (Bool-cases (has_available_line s)) [
  | inl some_line ↦
      let (line, rest, reads, whole, none_in) = readline_line s c few some_line in
      let same : ◌≡◌ {A = Option Str × TcpSocket} (some line, after s rest) (some text, s') =
        ok-injective (sym (reads r) ∙ h) in
      let line_same : line ≡ text = cc (ap (λ (p : Option Str × TcpSocket). p.0) same) in
      let state_same : after s rest ≡ s' = ap (λ (p : Option Str × TcpSocket). p.1) same in
      (
        whole
            ∙ ap (λ l. l ++ b'\n' ∷ rest) line_same
            ∙ ap (λ (x : TcpSocket). text ++ b'\n' ∷ x.in_buffer) state_same,
        subst IsCounted state_same refl,
        subst (λ l. newlines l ≡ 0) line_same none_in,
      )
  | inr none_there ↦ absurd (no_line r s s' text none_there h)
]

-- A call that returns none, and to which bytes came.
pub readline-none :
    (more : Str) (s s' : TcpSocket)
    → IsCounted s
    → length s.in_buffer + length more < 2 ^ 32
    → readline (received more) s ≡ ok (none, s')
    → (s'.in_buffer ≡ s.in_buffer ++ more) × IsCounted s'
unfolding readline
readline-none more s s' c few h = elim (Bool-cases (has_available_line s)) [
  | inl some_line ↦
      let (line, rest, reads, _, _) = readline_line s c (omega (arith, few)) some_line in
      absurd (
        cc (
          ap (λ (p : Option Str × TcpSocket). p.0)
            (ok-injective (sym (reads (received more)) ∙ h))))
  | inr none_there ↦
      let stored : ◌≡◌ {A = Outcome (Option Str × TcpSocket)} (ok (none, store_bytes more s))
          (ok (none, s')) =
        rw (none_there, readline) at h in
      let same : store_bytes more s ≡ s' =
        ap (λ (p : Option Str × TcpSocket). p.1) (ok-injective stored) in
      let (c', whole) = store_bytes_lem more s c few in
      (
        subst (λ (x : TcpSocket). x.in_buffer ≡ s.in_buffer ++ more) same whole,
        subst IsCounted same c',
      )
]
