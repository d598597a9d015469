-- ===== src/Lib.antt =====
-- sik-screenworms: a multiplayer game of worms, played over UDP. This library models the server,
-- its game and its message queue, the client between the server and the user interface, the
-- protocol's codecs, the command lines, and the helpers that these use.
--
-- The parts, and the code that they follow:
-- - Common: common/rng.h, crc32.cpp, misc.cpp and misc.h, the byte order helpers of messages.cpp
--   (`numToBinary`, `binaryToNum`), fingerprint.cpp, and `setIntervalTimer` of time_utils.cpp (Time).
--   Decimal has the decimal digits of a number. Common/Bits and XorLaws hold the laws of `^`,
--   CrcReference the definition of the checksum without a table.
-- - Messages: common/messages.h and messages.cpp. A constructor from a buffer is a `decode_…`,
--   `encode` is an `encode_…` that returns the bytes written. Messages/Players has the constructor
--   of EventNewGame from a list of names and `parsedPlayers`, Messages/Gui `eventToMessageForGui`.
-- - Sockets: class TcpSocket of common/sockets.h and sockets.cpp, its two buffers. Sockets/Opening
--   has the constructors of UdpSocket and TcpSocket.
-- - MqManager: class MQManager of server_src/game.h and game.cpp, a function for each method.
-- - GameManager: class GameManager of server_src/game.h and game.cpp. GameManager/State has the
--   state and the constructor, Ending how a game ends and players leave it, Turns `startGame` and
--   `runTurn`, Handlers `handleMessage` and `dropConnection`. GameManager/Queued says which clients
--   have a queue after each of these.
-- - Server: server_src/server.cpp, its constructor, what is done with one datagram, one message to
--   be sent, and the clients that are silent, and a round of `run`.
-- - Client: client_src/client.h and client.cpp. Client/Events has what is done with a message of the
--   server (Came describes the events of a game by the messages alone, Game processes messages one
--   after another), Client/Link the other methods and a round of `run`, Client/Wire the datagrams from one
--   program to the other.
-- - Config: server_src/server_config.cpp and client_src/client_config.cpp.
-- - CommandLine: common/getopt_wrapper.cpp, and `parseCmdParams` of server_src/main.cpp and
--   client_src/main.cpp.
-- - Base: strings as lists of bytes, `std::map` as an association list in the order of its keys,
--   an `std::unordered_map` whose keys are numbers (Numbered), the outcome of a call, and lemmas.
-- On the server a datagram goes through `decode_client` and `handle_message`; that and `run_turn`
-- emit events by `save_event`, which stores them in MqManager; `get_next_message` takes them out and
-- packs them by `from_events`, and `encode_server` writes them. On the client `decode_server` reads
-- them, `process_message_from_server` stores them and writes a line for each to the TcpSocket; the
-- lines that come back set the direction, which `encode_client` sends to the server.
--
-- Conventions. A call ends in an Outcome: a value, an exception, or undefined behaviour, which is
-- an outcome of its own (an iterator that is end () or was erased is used, memory is read past its
-- end, `%` by zero). Integers are natural numbers, with the wrap-around written out where the code's
-- type can overflow. A buffer is the list of the bytes from a pointer to the end of its memory.
-- `double` and <cmath> are a parameter (Platform), and so is what an uninitialised member holds:
-- `currentlyBroadcastedGameId`, `alivePlayers`, some members of a new player, and on the client the
-- numbers of events, the number of players and the size of the board. What a system call does
-- (`read`, `write`, `recv`, `sendto`, `poll`, the clock) is an argument of the function that
-- models its caller, and `getopt`, `inet_ntop` and `timerfd_settime` are functions that are given.
--
-- Bounds and fuel. `decode_events` has fuel for as many rounds as the datagram has bytes, and each
-- round of the code consumes 13 bytes at least. `serve`, the endless loop of `getNextMessage`, has
-- fuel for one round for each client and one more: if a client wants an event it is reached by then,
-- and if no client wants one the loop of the code does not end. `next_wanted` has one round more
-- than there are events, each of which it passes once. `read_lines` has one round more than there
-- are complete lines, and `to_decimal` 20 digits, which are enough for 64 bits.
--
-- Not modelled: the destructors of the sockets and how the timers are created and cleared, which
-- is one system call each; the end of the program where `setIntervalTimer` fails in the
-- constructors and in `startGame`, which take the timer to be set and go on (when it fails is in
-- Common/Time, for example with one round per second); which events `poll` is asked for in the
-- main loops; the texts of errors.
pub mod Base
pub mod Client
pub mod CommandLine
pub mod Common
pub mod Config
pub mod GameManager
pub mod Messages
pub mod MqManager
pub mod Server
pub mod Sockets
