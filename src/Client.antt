-- ===== src/Client.antt =====
-- client_src/client.h and client.cpp: the events of a game as they come from the server, and what is
-- told to the user interface and the server. What the system calls do is given as their results.
pub mod Events
pub mod Link
pub mod Keys
pub mod Wire
mod Runs
mod GameRuns
mod WireRuns
use sik_screenworms.Base.{ℕ, Bool, false, List, [], Str, Option, none}
use sik_screenworms.Messages.{TurnDirection, straight, Event}
use sik_screenworms.Sockets.{TcpSocket, connected}

-- `gameId` is -1 at first, here `none`. `messageToServer` is what was encoded last.
pub record Client : Type 0 where
  pub player_name : Str
  pub gui_sock : TcpSocket
  pub message_to_server : List ℕ
  pub message_ready : Bool
  pub session_id : ℕ
  pub turn_direction : TurnDirection
  pub events : List (ℕ × Event)
  pub next_wanted_event_no : ℕ
  pub next_event_to_send_no : ℕ
  pub seen_game_ids : List ℕ
  pub game_id : Option ℕ
  pub players_in_game : ℕ
  pub maxx : ℕ
  pub maxy : ℕ
  pub player_names : List (ℕ × Str)

-- The constructor, with the time stamp that becomes the session's id. The two numbers of events, the
-- number of players and the size of the board are left uninitialised, as `garbage`.
unfoldable pub init : ℕ → Str → ℕ → Client
init garbage player_name now = record {
  player_name = player_name;
  gui_sock = connected;
  message_to_server = [];
  message_ready = false;
  session_id = now;
  turn_direction = straight;
  events = [];
  next_wanted_event_no = garbage;
  next_event_to_send_no = garbage;
  seen_game_ids = [];
  game_id = none;
  players_in_game = garbage;
  maxx = garbage;
  maxy = garbage;
  player_names = [];
}
