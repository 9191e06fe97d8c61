-- ===== src/Programs.antt =====
-- client/main.cpp and server/main.cpp: the options of the two programs, and how each begins.
pub mod Calls
pub mod Mains
mod Tests
use package.connectdisks.Prelude.{
  ℕ, Bool, true, false, Option, none, some, List, [], ◌∷◌, ◌++◌, if◌then◌else◌, Result, ok, err,
  ◌>>=◌, Text, codes,
}
use package.connectdisks.Client
use package.connectdisks.Client.{Connecting, connects, throws, connect}
use package.connectdisks.Console.{ConsoleClient, not_joinable}
use package.connectdisks.Server.{Server, serve}

-- How a program ends: `exit(EXIT_FAILURE)`, or the end of `main`.
pub data Status : Type 0 where
  exit_failure exit_success : Status

-- What is written to `std::cout` or `std::cerr`.
pub data Output : Type 0 where
  cout cerr : Text → Output

-- A program ends after what it has written, or goes on.
pub data Program {ℓ} (A : Type ℓ) : Type ℓ where
  exits : Status → List Output → Program A
  goes_on : A → Program A

abbrev pub client_usage : Text
client_usage = codes "Usage: client HOST PORT\n"

abbrev pub server_usage : Text
server_usage = codes "Usage: server PORT\n"

pub record ClientOptions : Type 0 where
  pub host : Text
  pub port : ℕ

-- The constructor of `ConsoleClient`.
abbrev pub new_console : ConsoleClient
new_console = record {
  client = Client.create;
  input_worker = record { running = false; thread = not_joinable };
  joining = none;
  printed = [];
}

-- `is_address` says whether `address_v4::from_string` sets no error, `lexical_cast` gives the
-- `uint16_t` that boost reads, or none when it throws.
module _ (is_address : Text → Bool) (lexical_cast : Text → Option ℕ) where
  client_port : Text → Option ℕ → Program ClientOptions
  client_port host none = exits exit_failure (cout client_usage ∷ [])
  client_port host (some port) = goes_on (record { host = host; port = port })

  -- `getOptions` of the client; the arguments start with the program's name.
  pub client_options : List Text → Program ClientOptions
  unfolding client_port
  client_options (program ∷ host ∷ port ∷ []) =
      if is_address host
      then client_port host (lexical_cast port)
      else exits exit_failure (cout client_usage ∷ [])
  client_options _ = exits exit_failure (cout client_usage ∷ [])

  server_port : Option ℕ → Program ℕ
  server_port none = exits exit_failure (cout server_usage ∷ [])
  server_port (some port) = goes_on port

  -- `getOptions` of the server.
  pub server_options : List Text → Program ℕ
  unfolding server_port
  server_options (program ∷ port ∷ []) = server_port (lexical_cast port)
  server_options _ = exits exit_failure (cout server_usage ∷ [])

abbrev pub refuses : Option Text → Bool
refuses none = false
refuses (some what) = true

abbrev pub what_of : Option Text → Text
what_of none = []
what_of (some what) = what

-- `runClient`. The argument is the text of the exception that the socket throws, if it refuses to
-- connect; what is printed then is printed before a regular end.
pub run_client : Option Text → Result (Program ConsoleClient)
run_client refusal = do
  connecting ← connect (refuses refusal) Client.create
  ok (elim connecting [
    | connects c ↦ goes_on (record new_console { client = c })
    | throws ↦ exits exit_success (
        cerr
          (codes "An error occurred while running the client: " ++ (what_of refusal ++ codes "\n"))
        ∷ [])
  ])

-- `runServer`. The argument is the text of the exception that the acceptor throws, if the port cannot
-- be used. Otherwise the server runs: what the I/O loop delivers are events of the server.
pub run_server : Option Text → Program Server
run_server none = goes_on serve
run_server (some what) =
    exits exit_success
      (cerr (codes "An error occurred while running the server: " ++ (what ++ codes "\n")) ∷ [])

abbrev pub press_enter : Text
press_enter = codes "Press enter to exit...\n"

-- What `main` prints after `runServer`.
abbrev pub before_exit : Program Server → Program Server
before_exit (exits status written) = exits status (written ++ cout press_enter ∷ [])
before_exit (goes_on s) = goes_on s

-- The two programs; `refusal` gives the exception's text for each host and port.
module _ (is_address : Text → Bool) (lexical_cast : Text → Option ℕ) where
  pub client_main : (Text → ℕ → Option Text) → List Text → Result (Program ConsoleClient)
  unfolding client_options run_client
  client_main refusal args = elim (client_options is_address lexical_cast args) [
    | exits status written ↦ ok (exits status written)
    | goes_on options ↦ run_client (refusal options.host options.port)
  ]

  pub server_main : (Text → ℕ → Option Text) → List Text → Program Server
  unfolding server_options run_server
  server_main refusal args = elim (server_options is_address lexical_cast args) [
    | exits status written ↦ exits status written
    | goes_on port ↦ before_exit (run_server (refusal (codes "0.0.0.0") port))
  ]
