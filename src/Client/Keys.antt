-- ===== src/Client/Keys.antt =====
-- The lines of the user interface, as `readUpdateFromGui` acts on them.
use mathlib.Core.List.{append_assoc}
use sik_screenworms.Base.{
  ℕ, zero, suc, ◌+◌, ◌%◌, ◌^◌, ◌-◌, ◌<◌, ◌≡◌, refl, ap, ◌∙◌, arith, true, false, List, [], ◌∷◌,
  ◌++◌, All, Str, length, ltb, ◌==◌, if◌then◌else◌, some, ok,
}
use sik_screenworms.Messages.{TurnDirection}
use sik_screenworms.Sockets.{TcpSocket, Received, has_available_line, split_line, readline}
use sik_screenworms.Sockets.Lines.{newlines, newlines-append, newlines-le, unlines, IsCounted}
use sik_screenworms.Client.{Client}
use sik_screenworms.Client.Link.{press_key, handle_line, read_lines, read_update_from_gui}

-- The direction after the keys of all the lines, one after another.
pub press_keys : List Str → TurnDirection → TurnDirection
press_keys [] d = d
press_keys (line ∷ lines) d = press_keys lines (press_key line d)

not_newline : (c : ℕ) (b : Str) → newlines (c ∷ b) ≡ 0 → ((c == b'\n') ≡ false) × (newlines b ≡ 0)
unfolding newlines
not_newline c b h = ground arith

split_line-append :
    (line rest : Str) → newlines line ≡ 0 → split_line (line ++ b'\n' ∷ rest) ≡ ok (line, rest)
unfolding split_line
split_line-append [] rest h = refl
split_line-append (c ∷ line) rest h =
    let (inside, free) = not_newline c line h in
    rw (inside, split_line, split_line-append line rest free) refl

-- The socket with the lines that are left.
holding : List Str → Str → TcpSocket → TcpSocket
holding lines rest s = record s {
  in_buffer = unlines lines ++ rest;
  unread_newlines = length lines;
}

readline_step :
    (r : Received) (line rest : Str) (s : TcpSocket)
    → has_available_line s ≡ true
    → split_line s.in_buffer ≡ ok (line, rest)
    → readline r s
      ≡ ok (
        some line,
        record s {
          in_buffer = rest;
          unread_newlines = (s.unread_newlines + (2 ^ 32 - 1)) % 2 ^ 32;
        },
      )
unfolding readline
readline_step r line rest s available split = rw (available, readline, split) refl

readline-unlines :
    (r : Received) (line : Str) (lines : List Str) (rest : Str) (s : TcpSocket)
    → newlines line ≡ 0
    → suc (length lines) < 2 ^ 32
    → readline r (holding (line ∷ lines) rest s) ≡ ok (some line, holding lines rest s)
unfolding has_available_line holding unlines
readline-unlines r line lines rest s free few =
    let available : ltb 0 (suc (length lines)) ≡ true = ground arith in
    let left : (suc (length lines) + (2 ^ 32 - 1)) % 2 ^ 32 ≡ length lines = omega (arith, few) in
    let whole = append_assoc line (b'\n' ∷ unlines lines) rest in
    readline_step r line (unlines lines ++ rest) (holding (line ∷ lines) rest s) available
      (ap split_line whole ∙ split_line-append line (unlines lines ++ rest) free)
    ∙ ap (λ n. ok (some line, record s { in_buffer = unlines lines ++ rest; unread_newlines = n }))
        left

-- The client with the lines that are left, and its direction.
pressed : List Str → Str → TurnDirection → Client → Client
pressed lines rest d c = record c { gui_sock = holding lines rest c.gui_sock; turn_direction = d }

read_lines_step :
    (fuel : ℕ) (r : Received) (line : Str) (s : TcpSocket) (c : Client)
    → readline r c.gui_sock ≡ ok (some line, s)
    → read_lines (suc fuel) r c ≡ (
        if has_available_line s
        then read_lines fuel r
            (record c { gui_sock = s; turn_direction = press_key line c.turn_direction })
        else ok (record c { gui_sock = s; turn_direction = press_key line c.turn_direction }))
unfolding read_lines handle_line
read_lines_step fuel r line s c h = rw h refl

none_left : (rest : Str) (s : TcpSocket) → has_available_line (holding [] rest s) ≡ false
unfolding has_available_line holding
none_left rest s = refl

one_left :
    (line : Str) (lines : List Str) (rest : Str) (s : TcpSocket)
    → has_available_line (holding (line ∷ lines) rest s) ≡ true
unfolding has_available_line holding
one_left line lines rest s = ground arith

read_lines-press_keys :
    (fuel : ℕ) (r : Received) (line : Str) (lines : List Str) (rest : Str) (d : TurnDirection)
    (c : Client)
    → length lines < fuel
    → newlines line ≡ 0
    → All (λ l. newlines l ≡ 0) lines
    → suc (length lines) < 2 ^ 32
    → read_lines fuel r (pressed (line ∷ lines) rest d c)
      ≡ ok (pressed [] rest (press_keys (line ∷ lines) d) c)
unfolding pressed press_keys holding
read_lines-press_keys zero r line lines rest d c enough free frees few = absurd (omega arith)
read_lines-press_keys (suc fuel) r line [] rest d c enough free frees few =
    read_lines_step fuel r line (holding [] rest c.gui_sock) (pressed (line ∷ []) rest d c)
      (readline-unlines r line [] rest c.gui_sock free few)
    ∙ rw (none_left rest c.gui_sock) refl
read_lines-press_keys (suc fuel) r line (next ∷ lines) rest d c enough free (free', frees) few =
    read_lines_step fuel r line (holding (next ∷ lines) rest c.gui_sock)
      (pressed (line ∷ next ∷ lines) rest d c)
      (readline-unlines r line (next ∷ lines) rest c.gui_sock free few)
    ∙ rw (one_left next lines rest c.gui_sock) (
        read_lines-press_keys fuel r next lines rest (press_key line d) c (omega arith) free' frees
          (omega arith))

newlines-unlines :
    (lines : List Str) (rest : Str)
    → All (λ l. newlines l ≡ 0) lines
    → newlines rest ≡ 0
    → newlines (unlines lines ++ rest) ≡ length lines
unfolding unlines newlines
newlines-unlines [] rest frees none_in = none_in
newlines-unlines (line ∷ lines) rest (free, frees) none_in =
    let here = newlines-append line (b'\n' ∷ unlines lines) in
    let there = newlines-append (line ++ b'\n' ∷ unlines lines) rest in
    let after = newlines-append (unlines lines) rest in
    omega (arith, here, there, after, free, newlines-unlines lines rest frees none_in)

-- Whatever `read` would do: where lines are complete in the buffer, less than 2^32 bytes long, and
-- the count of line ends is true, `readUpdateFromGui` returns after it has acted on all of them, in
-- order; what stands behind the last one stays in the buffer, and nothing else of the client changes.
pub read_update_from_gui-press_keys :
    (r : Received) (line : Str) (lines : List Str) (rest : Str) (c : Client)
    → All (λ l. newlines l ≡ 0) (line ∷ lines)
    → newlines rest ≡ 0
    → IsCounted c.gui_sock
    → length c.gui_sock.in_buffer < 2 ^ 32
    → c.gui_sock.in_buffer ≡ unlines (line ∷ lines) ++ rest
    → read_update_from_gui r c
      ≡ ok (record c {
        gui_sock = record {
          out_buffer = c.gui_sock.out_buffer;
          in_buffer = rest;
          unread_newlines = 0;
        };
        turn_direction = press_keys (line ∷ lines) c.turn_direction;
      })
unfolding read_update_from_gui IsCounted pressed holding unlines
read_update_from_gui-press_keys r line lines rest c (free, frees) none_in counted few buffer =
    let count : c.gui_sock.unread_newlines ≡ suc (length lines) =
      counted ∙ ap newlines buffer ∙ newlines-unlines (line ∷ lines) rest (free, frees) none_in in
    let long = newlines-le c.gui_sock.in_buffer in
    let same : c ≡ pressed (line ∷ lines) rest c.turn_direction c = rw (← buffer, ← count) refl in
    ap (λ n. read_lines (suc n) r c) count
    ∙ ap (read_lines (suc (suc (length lines))) r) same
    ∙ read_lines-press_keys (suc (suc (length lines))) r line lines rest c.turn_direction c
        (omega arith) free frees (omega (arith, few, long, counted, count))
