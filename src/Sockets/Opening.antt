-- ===== src/Sockets/Opening.antt =====
-- The loops of the constructors UdpSocket and TcpSocket over what `getaddrinfo` returned. What the
-- system calls do for an address is given, and so are the descriptors that are open.
pub mod FirstUsable
use sik_screenworms.Base.{
  ℕ, Bool, true, false, not, ◌&&◌, List, [], ◌∷◌, ◌==◌, if◌then◌else◌, Option, none, some, Outcome,
  ok, fail, exit_failure,
}

-- An address, and what `socket`, `setsockopt` with SO_REUSEADDR, `setsockopt` with IPV6_V6ONLY or
-- TCP_NODELAY, `bind` or `connect`, and `fcntl` do for it. `socket` gives a descriptor, or fails.
pub record Candidate : Type 0 where
  pub created : Option ℕ
  pub is_inet6 : Bool
  pub reuse_set : Bool
  pub v6only_cleared : Bool
  pub nodelay_set : Bool
  pub bound : Bool
  pub linked : Bool
  pub nonblocking : Bool

-- `close`
unfoldable pub close_fd : ℕ → List ℕ → List ℕ
close_fd fd [] = []
close_fd fd (d ∷ opened) = if d == fd then opened else d ∷ close_fd fd opened

-- Whether the `if (doBind)` lets the address pass.
unfoldable pub binds : Bool → Candidate → Bool
binds false c = true
binds true c = c.reuse_set && (if c.is_inet6 then c.v6only_cleared else true) && c.bound

-- The `if` of TcpSocket.
unfoldable pub connects : Candidate → Bool
connects c = c.linked && c.nodelay_set && c.nonblocking

-- The loops: `accepts` says whether the calls after `socket` succeed. The address, its descriptor
-- and the descriptors that are then open. `getaddrinfo` returns one address at least: without one
-- UdpSocket would read a descriptor that was never set.
unfoldable pub open_first :
    (Candidate → Bool) → List Candidate → List ℕ → Outcome (Candidate × ℕ × List ℕ)
open_first accepts [] opened = fail exit_failure
open_first accepts (c ∷ candidates) opened =
    let rest = open_first accepts candidates in
    elim c.created [
      | none ↦ rest opened
      | some fd ↦ if accepts c then ok (c, fd, fd ∷ opened) else rest (close_fd fd (fd ∷ opened))
    ]

-- UdpSocket (addrInfo, hostname, portNum, doBind); `none` is an error of `getaddrinfo`.
unfoldable pub open_udp_socket :
    Bool → Option (List Candidate) → List ℕ → Outcome (Candidate × ℕ × List ℕ)
unfolding binds open_first
open_udp_socket do_bind none opened = fail exit_failure
open_udp_socket do_bind (some candidates) opened = open_first (binds do_bind) candidates opened

-- TcpSocket (addrInfo, hostname, portNum)
unfoldable pub open_tcp_socket : Option (List Candidate) → List ℕ → Outcome (Candidate × ℕ × List ℕ)
unfolding connects open_first
open_tcp_socket none opened = fail exit_failure
open_tcp_socket (some candidates) opened = open_first connects candidates opened
