-- ===== src/Programs/Mains.antt =====
-- `main` of client/main.cpp and of server/main.cpp, with the server and the client that run then.
use connectdisks.Prelude.{ℕ, ◌≡◌, some, List, ok, get_elem?}
use connectdisks.Connection.{Connection}
use connectdisks.Client.Served.{IsUpToDate}
use connectdisks.Console.{ConsoleClient}
use connectdisks.Console.Handlers.{IsSound}
use connectdisks.Server.{Server}
use connectdisks.Server.Serving.{IsServing}
use connectdisks.Server.Runs.{Event, run}

-- What the console and the server that the programs begin with come to.
abbrev IsPlayed : (ℕ → List ℕ) → (List ℕ → ℕ) → ℕ → List Event → Server → ConsoleClient → Type 0
IsPlayed native_to_big big_to_native d es s console =
    IsSound console
    × (s' : Server) × (run native_to_big es s ≡ ok s')
    × IsServing s'
    × ((x : Connection)
        → get_elem? s'.conns d ≡ some x
        → IsUpToDate big_to_native console.client s' d x)
