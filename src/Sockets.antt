-- ===== src/Sockets.antt =====
-- common/sockets.h and sockets.cpp, class TcpSocket: the two buffers of the connection with the user
-- interface. What the system calls `read` and `write` do is given as their result.
pub mod Lines
pub mod Reading
pub mod Flushing
pub mod Opening
mod Runs
use sik_screenworms.Base.{
  ℕ, zero, suc, ◌+◌, ◌-◌, ◌%◌, ◌^◌, Bool, true, false, not, List, [], ◌∷◌, ◌++◌, Str, length, take,
  drop, get_elem?, ltb, ◌==◌, if◌then◌else◌, Option, none, some, Outcome, ok, fail, exit_failure,
  undefined_behaviour, ◌>>=◌, deref,
}

pub record TcpSocket : Type 0 where
  pub out_buffer : Str
  pub in_buffer : Str
  pub unread_newlines : ℕ

-- The buffers of a socket that was connected.
abbrev pub connected : TcpSocket
connected = record { out_buffer = []; in_buffer = []; unread_newlines = 0 }

-- `write`: the count of bytes that it took, or its error.
pub data Written : Type 0 where
  written : ℕ → Written
  broken_pipe : Written
  not_written : Written

-- `read`: the bytes that came, of which there is one at least; the end of the stream; or an error.
pub data Received : Type 0 where
  received : Str → Received
  closed : Received
  not_received : Received

-- `writeData`
unfoldable pub write_data : Str → TcpSocket → TcpSocket
write_data data_bytes s = record s { out_buffer = s.out_buffer ++ data_bytes }

unfoldable pub is_empty_buffer : Str → Bool
is_empty_buffer [] = true
is_empty_buffer (c ∷ b) = false

unfoldable pub has_pending_outgoing_data : TcpSocket → Bool
unfolding is_empty_buffer
has_pending_outgoing_data s = not (is_empty_buffer s.out_buffer)

-- `buffer[i] = c`
unfoldable pub set_at : ℕ → ℕ → Str → Str
set_at i c [] = []
set_at zero c (d ∷ b) = c ∷ b
set_at (suc i) c (d ∷ b) = d ∷ set_at i c b

-- `for (…; i < leftInBuffer; i++) outBuffer[i] = outBuffer[offset + i]`, `n` rounds from `i` on.
unfoldable pub move_down : ℕ → ℕ → ℕ → Str → Outcome Str
unfolding set_at
move_down zero offset i b = ok b
move_down (suc n) offset i b =
    deref (get_elem? b (offset + i)) >>= λ c. move_down n offset (i + 1) (set_at i c b)

-- `flushOutgoing`, when `write` is called on a buffer that is not empty.
unfoldable pub flush_outgoing : Written → TcpSocket → Outcome TcpSocket
unfolding has_pending_outgoing_data move_down
flush_outgoing w s = elim (has_pending_outgoing_data s) [
  | false ↦ ok s
  | true ↦ elim w [
    | broken_pipe ↦ fail exit_failure
    | not_written ↦ ok s
    | written offset ↦
        if offset == length s.out_buffer
        then ok (record s { out_buffer = [] })
        else (move_down (length s.out_buffer - offset) offset 0 s.out_buffer >>= λ b.
            ok (record s { out_buffer = take (length s.out_buffer - offset) b }))
  ]
]

-- `hasAvailableLine`
unfoldable pub has_available_line : TcpSocket → Bool
has_available_line s = ltb 0 s.unread_newlines

-- `for (i = 0;; i++) if (inBuffer[i] == '\n') …`: the line, and what stands behind its end. Without
-- an end the loop reads behind the buffer.
unfoldable pub split_line : Str → Outcome (Str × Str)
split_line [] = fail undefined_behaviour
split_line (c ∷ b) =
    let rest = split_line b in if c == b'\n' then ok ([], b) else (rest >>= λ r. ok (c ∷ r.0, r.1))

-- The loop over the bytes that were read.
unfoldable pub store_bytes : Str → TcpSocket → TcpSocket
store_bytes [] s = s
store_bytes (c ∷ bytes) s = store_bytes bytes (record s {
  unread_newlines = if c == b'\n' then (s.unread_newlines + 1) % 2 ^ 32 else s.unread_newlines;
  in_buffer = s.in_buffer ++ c ∷ [];
})

-- `readline`: the line, if there is one. `r` is what `read` does if it is called.
unfoldable pub readline : Received → TcpSocket → Outcome (Option Str × TcpSocket)
unfolding has_available_line split_line store_bytes
readline r s = elim (has_available_line s) [
  | true ↦ split_line s.in_buffer >>= λ split. ok (
    some split.0,
    record s { in_buffer = split.1; unread_newlines = (s.unread_newlines + (2 ^ 32 - 1)) % 2 ^ 32 },
  )
  | false ↦ elim r [
    | closed ↦ fail exit_failure
    | not_received ↦ ok (none, s)
    | received bytes ↦ ok (none, store_bytes bytes s)
  ]
]
