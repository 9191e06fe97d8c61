-- ===== src/Lib.antt =====
-- Verification library of connectdisks, a server and clients that play four in a row.
--
-- The program. A `Board` holds columns of disks. A `FourAcross` runs one game on a board: it
-- takes turns, looks for four in a line through the last move, and says whose turn is next. The
-- server keeps a `Connection` for each client, which turns messages of 17 bytes into signals and
-- calls into messages, and finds out by pings that a client is gone. A `GameLobby` seats
-- connections, starts a game when all are ready, hands turns to it, and tells the connections
-- what came of them: the lobby handles the three signals of its connections, and they handle four
-- signals of the lobby. The `Server` assigns each connection to one of at most four lobbies, or
-- to the end of a queue, from which a lobby that becomes available is filled. A `Client` is the
-- other end of a connection: it plays the turns that it is told on a game of its own, and leaves
-- what a user sees and enters to a class derived from it, the `ConsoleClient`.
--
-- The files, and the code that each is about:
--   Prelude    tests on numbers, lists with what the code does out of range, `uint8_t` and
--              `unsigned` arithmetic (`u8`, `u32`), text as a stream prints it, and `Result`,
--              whose failures are the exceptions that the code throws, undefined behaviour, a
--              call of `std::terminate`, and a loop that has used up its rounds.
--   Board      include/four-across/game/board.hpp and game/src/board.cpp. The children say what a
--              well-formed board is (Cells), and treat dropPieceInColumn (Drop), isFull (Full), the
--              views of columns and rows (Rows), both moves (Move), and the conversion to a string
--              (Print, which defines it too).
--   Lines      checkForWinner of game/src/game.cpp, the scans: Four says what four in a line is,
--              Scan, Window and Checks that the four scans find it.
--   Game       include/four-across/game/game.hpp and the rest of game/src/game.cpp: the verdict on a
--              move (Winner), the constructor and the order of the players (Players), takeTurn
--              (Turn), sequences of calls of it (Play, Ending), and the conversion to a string
--              (Print, which defines it too).
--   Messaging  include/four-across/networking/messaging.hpp.
--   Connection server/src/connection.cpp: events and lost clients (Liveness), pings (Rounds,
--              Pings), and what a connection does by itself (Alone).
--   Lobby      server/src/gamelobby.cpp: seats (Seats), the invariant (Invariant), addPlayer
--              (Joining), onDisconnect (Leaving), onReady (Starting), onTakeTurn (Verdicts, Turns),
--              what clients are sent (Messages) and are not (Silence), and sequences of calls
--              (Runs).
--   Server     server/src/server.cpp: the queue (Queue), what the server keeps true (Serving), the
--              lobbies' handlers in it (Calls, Handlers), accepting (Lookup, Accepting), the
--              timer (Timer, Positions), sequences of events (Runs), and the accept and the timer
--              that are under way in them (Pending, Waiting).
--   Client     client/src/client.cpp and include/four-across/networking/client/client.hpp. The
--              children relate what a client reads and sends to the server's connection (Reading),
--              and follow one client of a lobby: one message (Receiving), the messages of one
--              signal (Stages, Signals), of one turn (Learning, Mirror), of any call (Sharing), and
--              of sequences of calls (Following). The other children follow one client through the
--              whole server: what it has read (Heard), where it is (Seen, Life), what other lobbies
--              do (Beside), how it is seated, queued and accepted (Called, Calling, Queueing,
--              Accepted, Arriving), how it goes (Parting), one event (Through), and any events
--              (Served). Notices says which virtual functions one message calls, Fairness and
--              Totality which messages a client in a game can handle.
--   Input      client/src/consoleclient.cpp, the callbacks: what a numeral is (Numerals), what is read
--              as a column (Columns), and what a word does (Answers).
--   Console    the rest of client/src/consoleclient.cpp and include/four-across/networking/client/
--              consoleclient.hpp: the worker that reads input (Worker), a request for a turn (Turns),
--              the turn that comes of it (Playing), the handlers (Handlers), messages and words in
--              any order (Events), and those that cannot fail a client in a game (Fair,
--              FairEvents).
--   Programs   client/main.cpp and server/main.cpp: the arguments on which they go on
--              (Calls), and `main`, with the server and the client that run then (Mains).
-- Functions keep the names of the code: dropPieceInColumn is `drop_piece_in_column`, the fields of a
-- record are the members of the class, and a constructor is `new`, or `create` for a connection. A
-- handler with several branches is split where the code branches: `take_turn` calls `after_drop`,
-- `finish_turn` and `settle` in turn, `on_disconnect` calls `leave`, and `on_ready` calls `begin`.
--
-- State. The game and the board are values: a function that changes one returns the new one, and a
-- call that throws returns the state that it leaves. A lobby and its connections change each other,
-- so the state of both is a `Room`, in which a `shared_ptr` is an index, and the server has the
-- connections of all its lobbies. A null pointer that is used, or a read outside of a vector, is the
-- failure `undefined`. The console's I/O thread can wait for its input thread: the state says so.
--
-- Numbers are natural numbers, and arithmetic that the code does in a machine type is followed by
-- its wrap-around. Loops: a scan along a line has three rounds, since the count starts at one and
-- the scan returns at four, and the loop of isFull over a `uint8_t` column has 256, the number of
-- values of that type. A loop that used up its rounds would be the failure `stuck`.
--
-- Not modelled. Sockets, timers and threads are asio's: what the code gives them is recorded in
-- the connection, and what they deliver is an argument; a read, a timer or an accept is over only if
-- it was under way. The lobby's random choice of the first
-- player is an argument too. Handlers run one after the other, as the I/O loop of one thread runs
-- them. The byte order of boost::endian is a parameter, `native_to_big` and `big_to_native`; only
-- where a position is read back is it assumed that the two are inverse to each other and give 8
-- bytes. The iterators of the views and logging are left out; how boost reads an address and a port,
-- and whether a socket or an acceptor can be used, are parameters of Programs. The console's two threads
-- take turns at whole steps: a message with its handlers, or a word with its callback.
pub mod Prelude
pub mod Board
pub mod Lines
pub mod Game
pub mod Messaging
pub mod Connection
pub mod Lobby
pub mod Server
pub mod Client
pub mod Input
pub mod Console
pub mod Programs
