-- ===== src/Sockets/Reading.antt =====
-- The lines that are read are those of the bytes that came, however these were cut into pieces.
use mathlib.Core.List.{append_assoc, append-nil}
use sik_screenworms.Base.{
  ◌+◌, ◌^◌, ◌≤◌, ◌<◌, ◌≡◌, refl, sym, ap, ◌∙◌, arith, List, [], ◌∷◌, ◌++◌, Str, length, All,
  All-append, none, some, ok, length-append,
}
use sik_screenworms.Sockets.{TcpSocket, Received, received, readline}
use sik_screenworms.Sockets.Lines.{newlines, IsCounted, unlines, readline-some, readline-none}

-- Calls of `readline` from one state to another: the bytes that `read` gave, and the lines that were
-- returned.
pub data Reading (s : TcpSocket) : Str → List Str → TcpSocket → Type 0 where
  here : Reading s [] [] s
  line :
      {bytes : Str} {lines : List Str} {s' s'' : TcpSocket}
      → Reading s bytes lines s'
      → (text : Str) (r : Received) → readline r s' ≡ ok (some text, s'')
      → Reading s bytes (lines ++ text ∷ []) s''
  chunk :
      {bytes : Str} {lines : List Str} {s' s'' : TcpSocket}
      → Reading s bytes lines s'
      → (more : Str) → readline (received more) s' ≡ ok (none, s'')
      → Reading s (bytes ++ more) lines s''

unlines-append :
    (lines : List Str) (text : Str)
    → unlines (lines ++ text ∷ []) ≡ unlines lines ++ (text ++ b'\n' ∷ [])
unfolding unlines
unlines-append [] text = refl
unlines-append (l ∷ lines) text =
    ap (λ r. l ++ b'\n' ∷ r) (unlines-append lines text)
    ∙ sym (append_assoc l (b'\n' ∷ unlines lines) (text ++ b'\n' ∷ []))

nothing : (b : Str) → b ≡ unlines [] ++ b
unfolding unlines
nothing b = refl

-- What is held came from the buffer and the bytes that were read.
held :
    (s s1 : TcpSocket) (bytes : Str) (lines : List Str)
    → s.in_buffer ++ bytes ≡ unlines lines ++ s1.in_buffer
    → length s1.in_buffer ≤ length s.in_buffer + length bytes
held s s1 bytes lines whole = omega (
  arith,
  length-append s.in_buffer bytes,
  length-append (unlines lines) s1.in_buffer,
  ap length whole,
)

-- From a state whose count of line ends is true, as long as less than 2^32 bytes are held and read:
-- the lines that calls of `readline` return, with their ends, and what is then in the buffer behind
-- them make up exactly what was in the buffer and the bytes that `read` gave, in order and in
-- whatever pieces; no line has a line end within, and the count is true again.
pub Reading-unlines :
    (s s' : TcpSocket) (bytes : Str) (lines : List Str)
    → IsCounted s
    → length s.in_buffer + length bytes < 2 ^ 32
    → Reading s bytes lines s'
    → (s.in_buffer ++ bytes ≡ unlines lines ++ s'.in_buffer)
      × All (λ l. newlines l ≡ 0) lines
      × IsCounted s'
Reading-unlines s s' bytes lines c few here = (append-nil s.in_buffer ∙ nothing s.in_buffer, tt, c)
Reading-unlines s s' bytes lines c few (line {lines = before} {s' = s1} path text r e) =
    let (whole, free, c1) = Reading-unlines s s1 bytes before c few path in
    let (cut, c', none_in) =
      readline-some r s1 s' text c1 (omega (arith, held s s1 bytes before whole)) e in
    (
      whole
          ∙ ap (unlines before ++◌) (cut ∙ sym (append_assoc text (b'\n' ∷ []) s'.in_buffer))
          ∙ sym (append_assoc (unlines before) (text ++ b'\n' ∷ []) s'.in_buffer)
          ∙ ap (◌++ s'.in_buffer) (sym (unlines-append before text)),
      All-append _ before (text ∷ []) free (none_in, tt),
      c',
    )
Reading-unlines s s' bytes lines c few (chunk {bytes = before} {s' = s1} path more e) =
    let (whole, free, c1) =
      Reading-unlines s s1 before lines c (omega (arith, length-append before more)) path in
    let (joined, c') =
      readline-none more s1 s' c1
        (omega (arith, length-append before more, held s s1 before lines whole)) e in
    (
      sym (append_assoc s.in_buffer before more)
          ∙ ap (◌++ more) whole
          ∙ append_assoc (unlines lines) s1.in_buffer more
          ∙ ap (unlines lines ++◌) (sym joined),
      free,
      c',
    )
