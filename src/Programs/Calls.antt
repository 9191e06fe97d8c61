-- ===== src/Programs/Calls.antt =====
-- client/main.cpp and server/main.cpp: the arguments on which the programs go on.
use connectdisks.Prelude.{
  ℕ, ◌≡◌, refl, Bool, true, false, Option, none, some, List, [], ◌∷◌, ok, if◌then◌else◌, Text,
  codes,
}
use connectdisks.Client
use connectdisks.Client.{connect}
use connectdisks.Console.{ConsoleClient}
use connectdisks.Server.{Server, serve}
use connectdisks.Programs.{
  exits, goes_on, client_options, server_options, client_main, server_main, run_client, run_server,
  client_port, server_port, new_console, exit_failure, cout, client_usage, before_exit,
}

-- The console with which a client goes on.
abbrev pub begun : ConsoleClient
begun = record new_console { client = record (Client.create) { reading = true } }

module _ (is_address : Text → Bool) (lexical_cast : Text → Option ℕ)
    (refusal : Text → ℕ → Option Text) where
  -- The client has a host that is an address and a port, and the socket connects to them.
  pub record IsClientCall (args : List Text) : Type 0 where
    pub program : Text
    pub host : Text
    pub port : Text
    pub number : ℕ
    pub all : args ≡ program ∷ host ∷ port ∷ []
    pub good_host : is_address host ≡ true
    pub good_port : lexical_cast port ≡ some number
    pub connects : refusal host number ≡ none

  -- The server has a port that is free on all addresses.
  pub record IsServerCall (args : List Text) : Type 0 where
    pub program : Text
    pub port : Text
    pub number : ℕ
    pub all : args ≡ program ∷ port ∷ []
    pub good_port : lexical_cast port ≡ some number
    pub is_free : refusal (codes "0.0.0.0") number ≡ none

  run_client-begun :
      (what : Option Text) (console : ConsoleClient)
      → run_client what ≡ ok (goes_on console)
      → (what ≡ none) × (console ≡ begun)
  unfolding run_client connect Client.wait_for_messages
  run_client-begun none console goes = (refl, cc)
  run_client-begun (some what) console goes = absurd (cc)

  run_server-serve :
      (what : Option Text) (s : Server) → run_server what ≡ goes_on s → (what ≡ none) × (s ≡ serve)
  unfolding run_server
  run_server-serve none s goes = (refl, cc)
  run_server-serve (some what) s goes = absurd (cc)

  pub client_main-IsClientCall :
      (args : List Text) (console : ConsoleClient)
      → client_main is_address lexical_cast refusal args ≡ ok (goes_on console)
      → IsClientCall args × (console ≡ begun)
  unfolding client_main client_options client_port
  client_main-IsClientCall [] console goes = absurd (cc)
  client_main-IsClientCall (a ∷ []) console goes = absurd (cc)
  client_main-IsClientCall (a ∷ b ∷ []) console goes = absurd (cc)
  client_main-IsClientCall (a ∷ b ∷ c ∷ d ∷ rest) console goes = absurd (cc)
  client_main-IsClientCall (program ∷ host ∷ port ∷ []) console goes =
      with_host (is_address host) refl goes
    where
      with_port :
          is_address host ≡ true
          → (number : Option ℕ) → lexical_cast port ≡ number
          → (elim (client_port is_address lexical_cast host number) [
            | exits status written ↦ ok (exits status written)
            | goes_on options ↦ run_client (refusal options.host options.port)
          ])
            ≡ ok (goes_on console)
          → IsClientCall (program ∷ host ∷ port ∷ []) × (console ≡ begun)
      with_port good none read goes = absurd (cc)
      with_port good (some n) read goes =
          let (connects, same) = run_client-begun (refusal host n) console goes in
          (
            record {
              program = program;
              host = host;
              port = port;
              number = n;
              all = refl;
              good_host = good;
              good_port = read;
              connects = connects;
            },
            same,
          )

      with_host :
          (good : Bool)
          → is_address host ≡ good
          → (elim (if good
              then client_port is_address lexical_cast host (lexical_cast port)
              else exits exit_failure (cout client_usage ∷ [])) [
                | exits status written ↦ ok (exits status written)
                | goes_on options ↦ run_client (refusal options.host options.port)
              ])
            ≡ ok (goes_on console)
          → IsClientCall (program ∷ host ∷ port ∷ []) × (console ≡ begun)
      with_host true good goes = with_port good (lexical_cast port) refl goes
      with_host false bad goes = absurd (cc)

  pub server_main-IsServerCall :
      (args : List Text) (s : Server)
      → server_main is_address lexical_cast refusal args ≡ goes_on s
      → IsServerCall args × (s ≡ serve)
  unfolding server_main server_options server_port
  server_main-IsServerCall [] s goes = absurd (cc)
  server_main-IsServerCall (a ∷ []) s goes = absurd (cc)
  server_main-IsServerCall (a ∷ b ∷ c ∷ rest) s goes = absurd (cc)
  server_main-IsServerCall (program ∷ port ∷ []) s goes = with_port (lexical_cast port) refl goes
    where
      on_all : Text
      on_all = codes "0.0.0.0"

      with_server :
          (number : ℕ) (what : Option Text)
          → lexical_cast port ≡ some number
          → refusal on_all number ≡ what
          → before_exit (run_server what) ≡ goes_on s
          → IsServerCall (program ∷ port ∷ []) × (s ≡ serve)
      with_server number none read free goes = (
        record {
          program = program;
          port = port;
          number = number;
          all = refl;
          good_port = read;
          is_free = free;
        },
        (run_server-serve none s goes).1,
      )
      with_server number (some what) read refused goes = absurd (cc)

      with_port :
          (number : Option ℕ)
          → lexical_cast port ≡ number
          → (elim (server_port is_address lexical_cast number) [
            | exits status written ↦ exits status written
            | goes_on number ↦ before_exit (run_server (refusal (codes "0.0.0.0") number))
          ])
            ≡ goes_on s
          → IsServerCall (program ∷ port ∷ []) × (s ≡ serve)
      with_port none read goes = absurd (cc)
      with_port (some number) read goes =
          with_server number (refusal (codes "0.0.0.0") number) read refl goes
