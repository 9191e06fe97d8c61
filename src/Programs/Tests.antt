-- ===== src/Programs/Tests.antt =====
-- The theorem on the programs at concrete inputs.
use connectdisks.Prelude.{
  ℕ, Bool, true, Option, none, some, List, [], ◌∷◌, Text, codes, numbers, ◌==◌, if◌then◌else◌,
}
use connectdisks.Connection.{Connection}
use connectdisks.Client
use connectdisks.Console.{ConsoleClient}
use connectdisks.Programs.{new_console}
use connectdisks.Server.{Server}

abbrev any_address : Text → Bool
any_address t = true

abbrev first_number : List ℕ → Option ℕ
first_number [] = none
first_number (n ∷ ns) = some n

abbrev as_port : Text → Option ℕ
as_port t = first_number (numbers t)

abbrev home : Text
home = codes "127.0.0.1"

abbrev digits : Text
digits = codes "8888"

-- Port 80 cannot be used.
abbrev refuses_80 : Text → ℕ → Option Text
refuses_80 host port = if port == 80 then some (codes "bind: Permission denied") else none

abbrev client_args : List Text
client_args = codes "client" ∷ home ∷ digits ∷ []

abbrev server_args : List Text
server_args = codes "server" ∷ digits ∷ []

abbrev console : ConsoleClient
console = record new_console { client = record (Client.create) { reading = true } }
