-- ===== src/Sockets/Flushing.antt =====
-- What is flushed is the front of the buffer.
use mathlib.Core.List.{append_assoc, append-nil}
use sik_screenworms.Base.{
  ℕ, suc, ◌+◌, ◌-◌, ◌≤◌, ◌≡◌, refl, sym, ap, ◌∙◌, inl, inr, arith, true, [], ◌∷◌, ◌++◌, Str, length,
  take, drop, get_elem?, ◌==◌, if◌then◌else◌, Bool-cases, some, ok, fail, exit_failure, ◌>>=◌,
  length-append, drop-length_append, take-length_append, length-take, length-drop, take-append-drop,
}
use sik_screenworms.Sockets.{
  TcpSocket, written, broken_pipe, not_written, has_pending_outgoing_data, set_at, move_down,
  flush_outgoing,
}

get_elem?-append : (xs ys : Str) (y : ℕ) → get_elem? (xs ++ y ∷ ys) (length xs) ≡ some y
get_elem?-append [] ys y = refl
get_elem?-append (x ∷ xs) ys y = get_elem?-append xs ys y

set_at-append : (xs ys : Str) (c d : ℕ) → set_at (length xs) c (xs ++ d ∷ ys) ≡ xs ++ c ∷ ys
unfolding set_at
set_at-append [] ys c d = refl
set_at-append (x ∷ xs) ys c d = ap (◌∷◌ x) (set_at-append xs ys c d)

-- The byte that is moved next, where `old` stands before it.
next_byte :
    (done old left : Str) (c offset : ℕ)
    → length old ≡ offset
    → get_elem? (done ++ (old ++ c ∷ left)) (offset + length done) ≡ some c
next_byte done old left c offset size =
    let here : offset + length done ≡ length (done ++ old) =
      omega (arith, length-append done old) in
    rw (here, ← append_assoc done old (c ∷ left)) (get_elem?-append (done ++ old) left c)

-- It is put behind `done`.
moved : Str → ℕ → Str
moved [] c = []
moved (o ∷ old) c = old ++ c ∷ []

length-moved : (old : Str) (c : ℕ) → length (moved old c) ≡ length old
unfolding moved
length-moved [] c = refl
length-moved (o ∷ old) c = omega (arith, length-append old (c ∷ []))

put_byte :
    (done old left : Str) (c : ℕ)
    → set_at (length done) c (done ++ (old ++ c ∷ left)) ≡ (done ++ c ∷ []) ++ (moved old c ++ left)
unfolding moved
put_byte done [] left c = set_at-append done left c c ∙ sym (append_assoc done (c ∷ []) left)
put_byte done (o ∷ old) left c =
    set_at-append done (old ++ c ∷ left) c o
    ∙ ap (λ r. done ++ c ∷ r) (sym (append_assoc old (c ∷ []) left))
    ∙ sym (append_assoc done (c ∷ []) ((old ++ c ∷ []) ++ left))

move_step :
    (n offset i j : ℕ) (b : Str) (c : ℕ)
    → get_elem? b (offset + i) ≡ some c
    → i + 1 ≡ j
    → move_down (suc n) offset i b ≡ move_down n offset j (set_at i c b)
unfolding move_down
move_step n offset i j b c e h = rw (e, h) refl

move_end : (offset i : ℕ) (b : Str) → move_down 0 offset i b ≡ ok b
unfolding move_down
move_end offset i b = refl

-- While the bytes are moved: `done` has been moved to the front, `left` is still to be moved, and
-- between them stands `old`, of `offset` bytes.
move_down_lem :
    (left done old : Str) (offset : ℕ)
    → length old ≡ offset
    → (tail : Str) × (move_down (length left) offset (length done) (done ++ (old ++ left))
        ≡ ok (done ++ (left ++ tail)))
move_down_lem [] done old offset size =
    (old, move_end offset (length done) _ ∙ ap (λ r. ok (done ++ r)) (append-nil old))
move_down_lem (c ∷ left) done old offset size =
    let (tail, rest) =
      move_down_lem left (done ++ c ∷ []) (moved old c) offset (length-moved old c ∙ size) in
    (
      tail,
      move_step (length left) offset (length done) (length (done ++ c ∷ [])) _ c
            (next_byte done old left c offset size) (omega (arith, length-append done (c ∷ [])))
          ∙ ap (move_down (length left) offset (length (done ++ c ∷ []))) (put_byte done old left c)
          ∙ rest
          ∙ ap ok (append_assoc done (c ∷ []) (left ++ tail)),
    )

-- Moving what is left of the buffer to its front.
move_down-drop :
    (b : Str) (offset : ℕ)
    → offset ≤ length b
    → (moved_buffer : Str) × (move_down (length b - offset) offset 0 b ≡ ok moved_buffer)
      × (take (length b - offset) moved_buffer ≡ drop offset b)
move_down-drop b offset h =
    let (tail, moves) =
      move_down_lem (drop offset b) [] (take offset b) offset
        (omega (arith, length-take offset b)) in
    let size : length (drop offset b) ≡ length b - offset = length-drop offset b in
    let whole : take offset b ++ drop offset b ≡ b = take-append-drop offset b in
    (
      drop offset b ++ tail,
      rw (← size) (ap (move_down (length (drop offset b)) offset 0) (sym whole) ∙ moves),
      rw (← size) (take-length_append (drop offset b) tail),
    )

drop_whole : (b : Str) (n : ℕ) → n ≡ length b → drop n b ≡ []
drop_whole b n h = rw h (ap (drop (length b)) (sym (append-nil b)) ∙ drop-length_append b [])

taken :
    (s : TcpSocket) (offset : ℕ)
    → offset ≤ length s.out_buffer
    → (if offset == length s.out_buffer
        then ok (record s { out_buffer = [] })
        else (move_down (length s.out_buffer - offset) offset 0 s.out_buffer >>= λ b.
            ok (record s { out_buffer = take (length s.out_buffer - offset) b })))
      ≡ ok (record s { out_buffer = drop offset s.out_buffer })
taken s offset h = elim (Bool-cases (offset == length s.out_buffer)) [
  | inl all ↦ rw all (
      ap (λ b. ok (record s { out_buffer = b }))
        (sym (drop_whole s.out_buffer offset (ground arith))))
  | inr part ↦
      let (b, moves, front) = move_down-drop s.out_buffer offset h in
      rw (part, moves) (ap (λ x. ok (record s { out_buffer = x })) front)
]

-- When `write` takes `offset` bytes of a buffer that is not empty, no more than there are, these
-- bytes, from the front on, are what leaves the buffer: the rest stays, in order. When it takes none
-- because of an error, all stays, but a broken pipe ends the program.
pub flush_outgoing-drop :
    (s : TcpSocket) (offset : ℕ)
    → has_pending_outgoing_data s ≡ true
    → offset ≤ length s.out_buffer
    → (flush_outgoing (written offset) s ≡ ok (record s { out_buffer = drop offset s.out_buffer }))
      × (flush_outgoing not_written s ≡ ok s)
      × (flush_outgoing broken_pipe s ≡ fail exit_failure)
unfolding flush_outgoing
flush_outgoing-drop s offset busy h = (
  rw (busy, flush_outgoing) (taken s offset h),
  rw (busy, flush_outgoing) refl,
  rw (busy, flush_outgoing) refl,
)
