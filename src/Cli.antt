-- ===== src/Cli.antt =====
-- packages/cli/src: commands.ts, cli.ts, exit-codes.ts, session-store.ts and the conversions of args.ts.
-- The flags are those that `parseArgs` of node gives; the client of the server is a record of functions,
-- whose errors are values; what is printed is left out. The stored session is passed on as a value.
pub mod Run
use nebula_clone.Prelude.{
  ℕ, Bool, true, false, not, ◌&&◌, ◌||◌, List, [], ◌∷◌, Option, none, some, String, filter, map,
  ◌==◌, ◌===◌, is_text, is_none, if◌then◌else◌,
}
use nebula_clone.Prelude.Results.{Result, ok, err, ◌>>=◌}
use nebula_clone.Js.Number.{Number, is_integer}
use nebula_clone.Js.Env.{Env, Texts, is_empty, given}

-- `UsageError`, an `ApiError` with its status, and any other error.
pub data Thrown : Type 0 where
  usage : Thrown
  api : ℕ → Thrown
  other : Thrown

-- `statusToExitCode`.
unfoldable pub status_to_exit_code : ℕ → ℕ
status_to_exit_code status =
    if status == 401 || status == 403 || status == 429
    then 3
    else if status == 404 || status == 409
    then 4
    else if status == 502 || status == 504
    then 5
    else 1

pub to_integer : Texts → Option String → Result Thrown (Option Number)
to_integer texts none = ok none
to_integer texts (some raw) =
    let parsed = texts.to_number raw in if is_integer parsed then ok (some parsed) else err usage

abbrev some_tags : List String → Result Thrown (Option (List String))
some_tags [] = err usage
some_tags (tag ∷ tags) = ok (some (tag ∷ tags))

-- `split` is `raw.split(',')`.
pub to_tags : Texts → (String → List String) → Option String → Result Thrown (Option (List String))
to_tags texts split none = ok none
to_tags texts split (some raw) =
    some_tags (filter (λ tag. not (is_empty tag)) (map texts.trim (split raw)))

pub record Flags : Type 0 where
  pub server : Option String
  pub token : Option String
  pub device_id : Option String
  pub occupant_id : Option String
  pub json : Bool
  pub help : Bool
  pub clear : Bool
  pub timeout_ms : Option Number
  pub out : Option String
  pub x : Option Number
  pub y : Option Number
  pub from_x : Option Number
  pub from_y : Option Number
  pub to_x : Option Number
  pub to_y : Option Number
  pub duration_ms : Option Number
  pub text : Option String
  pub button : Option String
  pub platform : Option String
  pub tags : Option (List String)

pub record StoredOccupation : Type 0 where
  pub server_url : String
  pub device_id : String
  pub occupant_id : String
  pub occupied_at : String

pub record DeviceTarget : Type 0 where
  pub device_id : String
  pub occupant_id : String

-- The calls of the client whose answer is only printed.
pub data Request : Type 0 where
  health list_devices : Request
  get_device : String → Request
  release keepalive : DeviceTarget → Request
  tap : DeviceTarget → Number → Number → Request
  swipe : DeviceTarget → Number → Number → Number → Number → Option Number → Request
  type_text press_button : DeviceTarget → String → Request

pub record FarmClient : Type 0 where
  pub call : Request → Result Thrown (Unit {0})
  pub occupy : Option String → Option String → Option (List String) → Result Thrown DeviceTarget
  pub ui_dump : DeviceTarget → Result Thrown String
  pub screenshot : DeviceTarget → Result Thrown String

pub record CommandContext : Type 0 where
  pub client : FarmClient
  pub flags : Flags
  pub server_url : String
  pub env : Env
  pub now : String

-- The stored session and the files that were saved, with what is written to them.
pub record World : Type 0 where
  pub session : Option StoredOccupation
  pub saved : List (String × String)

abbrev pub require_flag {ℓ} : {A : Type ℓ} → Option A → Result Thrown A
require_flag none = err usage
require_flag (some a) = ok a

-- The first of two values that is not missing.
infixr 30 ◌or_else◌
abbrev pub ◌or_else◌ : Option String → Option String → Option String
some a or_else b = some a
none or_else b = b

abbrev of_server : String → Option StoredOccupation → Option StoredOccupation
of_server url none = none
of_server url (some stored) = if stored.server_url === url then some stored else none

unfoldable pub session_for : CommandContext → World → Option StoredOccupation
session_for context w = of_server context.server_url w.session

abbrev pub device_of : Option StoredOccupation → Option String
device_of none = none
device_of (some stored) = some stored.device_id

abbrev pub occupant_from_session : Option StoredOccupation → String → Option String
occupant_from_session none device = none
occupant_from_session (some stored) device =
    if stored.device_id === device then some stored.occupant_id else none

unfoldable pub resolve_target : CommandContext → World → Result Thrown DeviceTarget
resolve_target context w = do
  let stored = session_for context w
  device_id ← require_flag (given (context.flags.device_id or_else device_of stored))
  occupant_id ← require_flag (
      given (
        context.flags.occupant_id
        or_else context.env "NEBULA_OCCUPANT_ID"
        or_else occupant_from_session stored device_id))
  ok (record { device_id = device_id; occupant_id = occupant_id })

abbrev pub Handler : Type 0
Handler = CommandContext → World → Result Thrown World

-- A call whose answer is printed.
abbrev called : CommandContext → Request → World → Result Thrown World
called context request w = context.client.call request >>= λ _. ok w

run_devices_get : Handler
run_devices_get context w = do
  device_id ← require_flag context.flags.device_id
  called context (get_device device_id) w

unfoldable pub run_occupy : Handler
run_occupy context w = do
  result ← context.client.occupy context.flags.device_id context.flags.platform context.flags.tags
  ok (record w {
    session = some (record {
      server_url = context.server_url;
      device_id = result.device_id;
      occupant_id = result.occupant_id;
      occupied_at = context.now;
    });
  })

unfoldable pub run_release : Handler
run_release context w = do
  target ← resolve_target context w
  _ ← context.client.call (release target)
  ok (
      if is_text (device_of (session_for context w)) target.device_id
      then record w { session = none }
      else w)

run_keepalive : Handler
run_keepalive context w = do target ← resolve_target context w; called context (keepalive target) w

run_session : Handler
run_session context w = ok (if context.flags.clear then record w { session = none } else w)

run_tap : Handler
run_tap context w = do
  target ← resolve_target context w
  x ← require_flag context.flags.x
  y ← require_flag context.flags.y
  called context (tap target x y) w

run_swipe : Handler
run_swipe context w = do
  target ← resolve_target context w
  from_x ← require_flag context.flags.from_x
  from_y ← require_flag context.flags.from_y
  to_x ← require_flag context.flags.to_x
  to_y ← require_flag context.flags.to_y
  called context (swipe target from_x from_y to_x to_y context.flags.duration_ms) w

run_type : Handler
run_type context w = do
  target ← resolve_target context w
  text ← require_flag context.flags.text
  called context (type_text target text) w

run_press : Handler
run_press context w = do
  target ← resolve_target context w
  button ← require_flag context.flags.button
  if button === "home" || button === "back"
      then called context (press_button target button) w
      else err usage

abbrev save_file : Option String → String → World → World
save_file none content w = w
save_file (some path) content w = record w { saved = (path, content) ∷ w.saved }

run_ui_dump : Handler
run_ui_dump context w = do
  target ← resolve_target context w
  tree ← context.client.ui_dump target
  ok (save_file (given context.flags.out) tree w)

-- Without a file the picture is only printed as JSON.
run_screenshot : Handler
run_screenshot context w = do
  target ← resolve_target context w
  jpeg ← context.client.screenshot target
  if is_none (given context.flags.out) && not context.flags.json
      then err usage
      else ok (save_file (given context.flags.out) jpeg w)

-- `COMMANDS`.
unfoldable pub command : String → Option Handler
unfolding run_devices_get run_keepalive run_session run_tap run_swipe run_type run_press run_ui_dump
    run_screenshot
command key =
    if key === "health"
    then some (λ context w. called context health w)
    else if key === "devices list"
    then some (λ context w. called context list_devices w)
    else if key === "devices get"
    then some run_devices_get
    else if key === "devices occupy"
    then some run_occupy
    else if key === "devices release"
    then some run_release
    else if key === "devices keepalive"
    then some run_keepalive
    else if key === "devices session"
    then some run_session
    else if key === "tap"
    then some run_tap
    else if key === "swipe"
    then some run_swipe
    else if key === "type"
    then some run_type
    else if key === "press"
    then some run_press
    else if key === "ui-dump"
    then some run_ui_dump
    else if key === "screenshot"
    then some run_screenshot
    else none
