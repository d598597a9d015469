-- ===== src/Sockets/Runs.antt =====
-- Runs of the two buffers.
use sik_screenworms.Base.{
  List, true, false, ◌≡◌, refl, arith, [], ◌∷◌, ◌++◌, All, codes, drop, none, some, ok, fail,
  exit_failure,
}
use sik_screenworms.Sockets.{
  TcpSocket, connected, written, not_written, broken_pipe, received, closed,
  has_pending_outgoing_data, is_empty_buffer, flush_outgoing, has_available_line, split_line,
  store_bytes, readline,
}
use sik_screenworms.Sockets.Opening.{Candidate, close_fd, binds, open_first, open_udp_socket}
use sik_screenworms.Sockets.Flushing.{flush_outgoing-drop}
use sik_screenworms.Sockets.Lines.{newlines, unlines, IsCounted}
use sik_screenworms.Sockets.Reading.{here, line, chunk, Reading-unlines}

abbrev full : TcpSocket
full = record { out_buffer = codes "GAME_OVER"; in_buffer = []; unread_newlines = 0 }

flush_outgoing_example :
    (flush_outgoing (written 5) full ≡ ok (record full { out_buffer = drop 5 full.out_buffer }))
    × (flush_outgoing not_written full ≡ ok full)
    × (flush_outgoing broken_pipe full ≡ fail exit_failure)
unfolding has_pending_outgoing_data is_empty_buffer
flush_outgoing_example = flush_outgoing-drop full 5 refl (omega arith)

abbrev after_key : TcpSocket
after_key = record { out_buffer = []; in_buffer = codes "UP\nLE"; unread_newlines = 1 }

abbrev after_line : TcpSocket
after_line = record { out_buffer = []; in_buffer = codes "LE"; unread_newlines = 0 }

key_run : readline (received (codes "UP\nLE")) connected ≡ ok (none, after_key)
unfolding readline has_available_line store_bytes
key_run = refl

line_run : readline closed after_key ≡ ok (some (codes "UP"), after_line)
unfolding readline has_available_line split_line
line_run = refl

Reading_example :
    ([] ++ codes "UP\nLE" ≡ unlines (codes "UP" ∷ []) ++ codes "LE")
    × All (λ l. newlines l ≡ 0) (codes "UP" ∷ [])
    × IsCounted after_line
unfolding IsCounted newlines
Reading_example =
    Reading-unlines connected after_line (codes "UP\nLE") (codes "UP" ∷ []) refl (omega arith)
      (line (chunk here (codes "UP\nLE") key_run) (codes "UP") closed line_run)

abbrev works : Candidate
works = record {
  created = some 4;
  is_inet6 = true;
  reuse_set = true;
  v6only_cleared = true;
  nodelay_set = true;
  bound = true;
  linked = true;
  nonblocking = true;
}

-- The first address is in use.
abbrev candidates : List Candidate
candidates = record works { bound = false } ∷ record works { is_inet6 = false } ∷ []

-- It is the second one.
second_address :
    open_udp_socket true (some candidates) (0 ∷ 1 ∷ 2 ∷ [])
    ≡ ok (record works { is_inet6 = false }, 4, 4 ∷ 0 ∷ 1 ∷ 2 ∷ [])
unfolding open_udp_socket open_first binds close_fd
second_address = refl
