-- ===== src/Cli/Run.antt =====
-- packages/cli/src/cli.ts: one call of the command line, from the parsed arguments to the exit code and
-- the session that is stored afterwards.
pub mod Sessions
use Prim.Native.String.{◌++◌ as text_append}
use nebula_clone.Prelude.{
  ℕ, Bool, true, false, not, ◌&&◌, ◌||◌, List, [], ◌∷◌, Option, none, some, String, ◌==◌, ◌===◌,
  is_none, if◌then◌else◌,
}
use nebula_clone.Prelude.Results.{Result, ok, err, ◌>>=◌}
use nebula_clone.Js.Number.{Number}
use nebula_clone.Js.Env.{Env, Texts, given}
use nebula_clone.Cli.{
  Thrown, usage, api, other, Flags, StoredOccupation, FarmClient, CommandContext, World, Handler,
  command, status_to_exit_code, ◌or_else◌,
}

-- What a call is given: the environment, the clock, `trim`, and the client for a URL, a token and a
-- timeout.
pub record CliDeps : Type 0 where
  pub env : Env
  pub now : String
  pub texts : Texts
  pub create_client : String → String → Option Number → FarmClient

abbrev second : List String → String
second [] = ""
second (p ∷ ps) = p

-- `devices` and its second word are one key.
unfoldable pub to_command_key : Texts → List String → String
to_command_key texts [] = ""
to_command_key texts (p ∷ ps) =
    if p === "devices" then texts.trim (text_append "devices " (second ps)) else p

abbrev or_default : Option String → String → String
or_default none d = d
or_default (some s) d = s

unfoldable pub server_url_of : CliDeps → Flags → String
server_url_of deps flags =
    or_default (flags.server or_else deps.env "NEBULA_SERVER_URL") "http://localhost:3000"

-- The flag names something else than the session: it is given, and differs.
abbrev names_other : Option String → String → Bool
names_other none s = false
names_other (some f) s = not (f === s)

abbrev pub is_invalid : String → ℕ → Bool
is_invalid key status =
    status == 403 || (status == 409 && (key === "devices keepalive" || key === "devices release"))

unfoldable pub cleanup_invalid_session :
    Option StoredOccupation → String → String → Flags → ℕ → Option StoredOccupation
cleanup_invalid_session none url key flags status = none
cleanup_invalid_session (some stored) url key flags status =
    if not (stored.server_url === url)
      || names_other (given flags.device_id) stored.device_id
      || names_other (given flags.occupant_id) stored.occupant_id
      || not (is_invalid key status)
    then some stored
    else none

-- How the call ends: the exit code and what is stored.
pub record Ended : Type 0 where
  pub exit_code : ℕ
  pub world : World

finish : String → String → Flags → World → Result Thrown World → Ended
finish url key flags w (ok w') = record { exit_code = 0; world = w' }
finish url key flags w (err usage) = record { exit_code = 2; world = w }
finish url key flags w (err (api status)) = record {
  exit_code = status_to_exit_code status;
  world = record w { session = cleanup_invalid_session w.session url key flags status };
}
finish url key flags w (err other) = record { exit_code = 1; world = w }

handle : Option Handler → CliDeps → String → Flags → World → Result Thrown World
handle none deps key flags w = err usage
handle (some handler) deps key flags w =
    let token = flags.token or_else deps.env "NEBULA_CLIENT_TOKEN" in
    if is_none (given token) && not (key === "health")
    then err usage
    else handler
        (record {
          client =
              deps.create_client (server_url_of deps flags) (or_default token "") flags.timeout_ms;
          flags = flags;
          server_url = server_url_of deps flags;
          env = deps.env;
          now = deps.now;
        })
        w

run_key : CliDeps → String → Flags → World → Ended
unfolding finish handle
run_key deps key flags w =
    finish (server_url_of deps flags) key flags w (handle (command key) deps key flags w)

abbrev is_nothing : List String → Bool
is_nothing [] = true
is_nothing (p ∷ ps) = false

-- `none` where the arguments do not parse.
unfoldable pub run : CliDeps → Option (List String × Flags) → World → Ended
unfolding run_key
run deps none w = record { exit_code = 2; world = w }
run deps (some (positionals, flags)) w =
    if flags.help
    then record { exit_code = 0; world = w }
    else if is_nothing positionals
    then record { exit_code = 2; world = w }
    else run_key deps (to_command_key deps.texts positionals) flags w
