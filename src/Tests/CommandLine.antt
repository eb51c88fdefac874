-- ===== src/Tests/CommandLine.antt =====
-- Concrete calls of the command line.
use nebula_clone.Prelude.{false, [], ◌∷◌, none, some, ◌≡◌, refl, str_discrete, ◌===◌, if◌then◌else◌}
use nebula_clone.Prelude.Results.{Result, ok, err, ◌>>=◌}
use nebula_clone.Js.Number.{nat}
use nebula_clone.Js.Env.{Env}
use nebula_clone.Cli.{
  Thrown, api, Flags, DeviceTarget, StoredOccupation, FarmClient, CommandContext, World,
  session_for, resolve_target, run_occupy, command,
}
use nebula_clone.Cli.Run.{CliDeps, run, to_command_key, server_url_of, cleanup_invalid_session}
use nebula_clone.Cli.Run.Sessions.{resolve_target-run_occupy}

abbrev target : DeviceTarget
target = record { device_id = "phone"; occupant_id = "alice" }

-- A server that gives the phone, and refuses all else.
abbrev client : FarmClient
client = record {
  call = λ request. err (api 403);
  occupy = λ device platform tags. ok target;
  ui_dump = λ t. err (api 403);
  screenshot = λ t. err (api 403);
}

abbrev flags : Flags
flags = record {
  server = none;
  token = some "token";
  device_id = none;
  occupant_id = none;
  json = false;
  help = false;
  clear = false;
  timeout_ms = none;
  out = none;
  x = some (nat 1);
  y = some (nat 2);
  from_x = none;
  from_y = none;
  to_x = none;
  to_y = none;
  duration_ms = none;
  text = none;
  button = none;
  platform = none;
  tags = none;
}

abbrev context : CommandContext
context = record {
  client = client;
  flags = flags;
  server_url = "http://localhost:3000";
  env = λ name. none;
  now = "2026-01-01";
}

abbrev nothing_stored : World
nothing_stored = record { session = none; saved = [] }

resolve_target-run_occupy_example :
    ◌≡◌ {A = Result Thrown DeviceTarget}
      (run_occupy context nothing_stored >>= λ w. resolve_target context w)
      (ok target)
resolve_target-run_occupy_example =
    resolve_target-run_occupy context context nothing_stored target refl refl refl refl refl refl
      refl

abbrev stored : StoredOccupation
stored = record {
  server_url = "http://localhost:3000";
  device_id = "phone";
  occupant_id = "alice";
  occupied_at = "2026-01-01";
}

abbrev phone_stored : World
phone_stored = record { session = some stored; saved = [] }

abbrev deps_with : Env → CliDeps
deps_with env = record {
  env = env;
  now = "2026-01-01";
  texts = record { trim = λ s. s; to_number = λ s. nat 0 };
  create_client = λ url token timeout. client;
}

-- The variable names another occupant than the session, the server refuses that one, and the session is
-- taken away.
abbrev other_occupant : Env
other_occupant name = if name === "NEBULA_OCCUPANT_ID" then some "bob" else none

variable_takes_session :
    (run (deps_with other_occupant) (some ("tap" ∷ [], flags)) phone_stored).world.session ≡ none
unfolding run to_command_key server_url_of command resolve_target session_for
    cleanup_invalid_session str_discrete
variable_takes_session = refl
