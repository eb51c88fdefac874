-- ===== src/Tests/Uplink.antt =====
-- Concrete runs of the agent's uplink and discovery, and of the commands service.
use nebula_clone.Prelude.{
  true, false, [], ◌∷◌, none, some, ltb, is_text, is_truthy, ◌≡◌, ◌⊎◌, refl, if◌then◌else◌,
  str_discrete,
}
use nebula_clone.Shared.Types.{RegisterDeviceInput, ios, ui_dump}
use nebula_clone.Server.Devices.{Device, find_by_id, is_online}
use nebula_clone.Server.Devices.Service.{Exception}
use nebula_clone.Server.Commands.{State, fails, service, execute, execute_guarded}
use nebula_clone.Agent.Uplink.{ServerTunnel}
use nebula_clone.Agent.Uplink.Counters.{Tries, send_frames, Counts, send_frames-Counts}
use nebula_clone.Agent.Discovery.{
  new_state, apply, fail_times, max_consecutive_failures, devices-fail_times, merge_with_static,
  entries, has_id, entries-merge_with_static,
}
use nebula_clone.Tests.Shared.{ascii_codec, agent_frame}
use nebula_clone.Tests.Server.{table}
use nebula_clone.Tests.Gateways.{one_agent}

abbrev fresh_tunnel : ServerTunnel
fresh_tunnel = record {
  dropped_frame_count = 0;
  dropped_key_frame_count = 0;
  sent_frame_count = 0;
  sent_frame_bytes = 0;
  peak_buffered_bytes = 0;
  reconnect_attempt = 0;
  is_closed = false;
  reconnect_timer = none;
}

-- A key frame without a socket, on an idle one and on one that is full.
abbrev tries : Tries
tries =
    (none, agent_frame)
    ∷ (some (record { is_open = true; buffered_amount = 10 }), agent_frame)
    ∷ (some (record { is_open = true; buffered_amount = 3_000_000 }), agent_frame)
    ∷ []

send_frames-Counts_example :
    Counts fresh_tunnel
      (send_frames ascii_codec tries fresh_tunnel).0
      tries
      (send_frames ascii_codec tries fresh_tunnel).1
send_frames-Counts_example = send_frames-Counts ascii_codec tries fresh_tunnel

abbrev found_phone : RegisterDeviceInput
found_phone = record {
  id = "phone";
  name = "Found";
  platform = ios;
  os_version = "17.5";
  tags = [];
}

abbrev static_phone : RegisterDeviceInput
static_phone = record {
  id = "phone";
  name = "Configured";
  platform = ios;
  os_version = "17.5";
  tags = "lab" ∷ [];
}

devices-fail_times_example :
    ((fail_times 4 (apply (some (found_phone ∷ [])) new_state).0).devices
      ≡ (if ltb 4 max_consecutive_failures then found_phone ∷ [] else []))
    × ((apply none (fail_times 4 (apply (some (found_phone ∷ [])) new_state).0)).1 ≡ false)
devices-fail_times_example = devices-fail_times (found_phone ∷ []) 4 new_state

entries-merge_with_static_example : entries "phone" (static_phone ∷ []) ≡ (
    if has_id "phone" (static_phone ∷ [])
    then entries "phone" (static_phone ∷ [])
    else entries "phone" (found_phone ∷ []))
unfolding merge_with_static str_discrete
entries-merge_with_static_example =
    entries-merge_with_static "phone" (found_phone ∷ []) (static_phone ∷ []) (static_phone ∷ [])
      refl

abbrev state : State
state = record { rows = table; agents = one_agent }

execute_guarded_example :
    ((d : Device) × (find_by_id "phone" state.rows ≡ some d)
      × (is_text d.occupant_id "alice" ≡ true)
      × (is_online d.status ≡ true)
      × (is_truthy d.agent_id ≡ true))
    ⊎ (((execute (λ s. true) "r9" "phone" "alice" ui_dump 950 state).0 ≡ state)
        × ((execute (λ s. true) "r9" "phone" "alice" ui_dump 950 state).2 ≡ [])
        × ((e : Exception) × ((execute (λ s. true) "r9" "phone" "alice" ui_dump 950 state).1
              ≡ fails (service e))))
execute_guarded_example = execute_guarded (λ s. true) "r9" "phone" "alice" ui_dump 950 state
