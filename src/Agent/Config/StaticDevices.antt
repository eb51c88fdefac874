-- ===== src/Agent/Config/StaticDevices.antt =====
-- packages/agent/src/config.ts: `parseStaticDevices`, which reads the devices that are registered
-- without discovery.
use nebula_clone.Prelude.{List, [], ◌∷◌, Option, none, some, String, if◌then◌else◌}
use nebula_clone.Prelude.Results.{Result, ok, err, ◌>>=◌}
use nebula_clone.Js.Json.{Json, prop, as_record, as_string, as_array}
use nebula_clone.Js.Env.{is_empty}
use nebula_clone.Shared.Types.{RegisterDeviceInput, DevicePlatform, ios}
use nebula_clone.Shared.Messages.{parse_platform, parse_string, each}
use nebula_clone.Agent.Config.{
  ConfigError, Machine, not_json, not_an_array, entry_incomplete, platform_unknown, tags_malformed,
}

static_platform : Option Json → Result ConfigError DevicePlatform
static_platform none = ok ios
static_platform (some raw) = elim (parse_platform (some raw)) [
  | some platform ↦ ok platform
  | none ↦ err platform_unknown
]

abbrev or_malformed : Option (List String) → Result ConfigError (List String)
or_malformed none = err tags_malformed
or_malformed (some tags) = ok tags

parse_tags : Option Json → Result ConfigError (List String)
parse_tags none = ok []
parse_tags (some raw) = elim (as_array (some raw)) [
  | none ↦ err tags_malformed
  | some entries ↦ or_malformed (each parse_string entries)
]

abbrev or_incomplete {ℓ} : {A : Type ℓ} → Option A → Result ConfigError A
or_incomplete none = err entry_incomplete
or_incomplete (some a) = ok a

parse_entry : Json → Result ConfigError RegisterDeviceInput
unfolding static_platform parse_tags
parse_entry entry = do
  fields ← or_incomplete (as_record entry)
  id ← or_incomplete (as_string (prop "id" fields))
  name ← or_incomplete (as_string (prop "name" fields))
  os_version ← or_incomplete (as_string (prop "osVersion" fields))
  platform ← static_platform (prop "platform" fields)
  tags ← parse_tags (prop "tags" fields)
  ok (record { id = id; name = name; platform = platform; os_version = os_version; tags = tags })

parse_entries : List Json → Result ConfigError (List RegisterDeviceInput)
parse_entries [] = ok []
parse_entries (entry ∷ entries) = do
  device ← parse_entry entry
  devices ← parse_entries entries
  ok (device ∷ devices)

parse_list : Option Json → Result ConfigError (List RegisterDeviceInput)
parse_list none = err not_json
parse_list (some parsed) = elim (as_array (some parsed)) [
  | none ↦ err not_an_array
  | some entries ↦ parse_entries entries
]

unfoldable pub parse_static_devices :
    Machine → Option String → Result ConfigError (List RegisterDeviceInput)
unfolding parse_list parse_entries parse_entry
parse_static_devices m none = ok []
parse_static_devices m (some raw) =
    if is_empty (m.texts.trim raw) then ok [] else parse_list (m.parse_json raw)
